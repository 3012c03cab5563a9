-- ===== src/Examples/Runs.antt =====
-- Several messages at one editor.
use mathlib.Core.List.{Permᴰ}
use scriba.Prelude.{◌≡◌, refl, Ordering, [], ◌∷◌, ◌>>=◌, flatten, ok, undefined}
use scriba.Prelude.Int.{pos, ◌+ℤ◌}
use scriba.Symbol.{compare, compare_position, compare_identifier}
use scriba.Crdt.Search.Place.{IsOrdered}
use scriba.Crdt.State.{Crdt}
use scriba.Crdt.Remote.{handle_remote_insert, handle_remote_erase}
use scriba.Crdt.Remote.Delivery.{deliver, insert_all, deliver-perm}
use scriba.Crdt.Remote.Loop.{Holds, ErasedAll, handle_remote_erase-removes}
use scriba.Crdt.Remote.Runs.{IsDocument, Step, Reach, start, next, Reach-IsDocument}
use scriba.Crdt.Remote.Blank.{handle_remote_insert-undefined, deliver-blank}
use scriba.Examples.Documents.{symbol_at, two_lines, two_lines-IsOrdered}
use scriba.Examples.Edits.{editor, fresh_12, fresh_5, in_range_12, in_range_5, differ}

deliver-perm_example :
    (a : Crdt) × (b : Crdt) × (deliver (editor (pos 2)) (symbol_at 120 12 ∷ symbol_at 120 5 ∷ [])
      ≡ ok a)
    × (deliver (editor (pos 2)) (symbol_at 120 5 ∷ symbol_at 120 12 ∷ []) ≡ ok b)
    × (flatten a.symbols ≡ flatten b.symbols)
    × IsOrdered a.symbols
    × IsOrdered b.symbols
    × (a.size ≡ b.size)
deliver-perm_example =
    deliver-perm (editor (pos 2)) (symbol_at 120 12 ∷ symbol_at 120 5 ∷ [])
      (symbol_at 120 5 ∷ symbol_at 120 12 ∷ []) (Permᴰ.swap refl refl) two_lines-IsOrdered
      ((differ, tt), (tt, tt)) ((fresh_12, in_range_12.within), ((fresh_5, in_range_5.within), tt))

holds : Holds (symbol_at 99 15 ∷ symbol_at 10 9 ∷ []) (flatten two_lines)
unfolding compare compare_position compare_identifier
holds = (refl, (refl, tt))

handle_remote_erase-removes_example :
    (c' : Crdt) × (handle_remote_erase (editor (pos 2)) (symbol_at 99 15 ∷ symbol_at 10 9 ∷ [])
      ≡ ok c')
    × ErasedAll (editor (pos 2)) (symbol_at 99 15 ∷ symbol_at 10 9 ∷ []) c'
handle_remote_erase-removes_example =
    handle_remote_erase-removes (editor (pos 2)) (symbol_at 99 15) (symbol_at 10 9 ∷ [])
      two_lines-IsOrdered holds

emptied :
    (c' : Crdt) × (handle_remote_erase (editor (pos 2)) (symbol_at 99 15 ∷ symbol_at 10 9 ∷ [])
      ≡ ok c')
    × ErasedAll (editor (pos 2)) (symbol_at 99 15 ∷ symbol_at 10 9 ∷ []) c'
emptied =
    handle_remote_erase-removes (editor (pos 2)) (symbol_at 99 15) (symbol_at 10 9 ∷ [])
      two_lines-IsOrdered holds

erases : Reach (editor (pos 2)) emptied.0
erases = next start (Step.erased (symbol_at 99 15) (symbol_at 10 9 ∷ []) holds emptied.1)

is_document : IsDocument (editor (pos 2))
unfolding ◌+ℤ◌
is_document = record { ordered = two_lines-IsOrdered; counted = refl }

Reach-IsDocument_example : IsDocument emptied.0
Reach-IsDocument_example = Reach-IsDocument erases is_document

abbrev blank : Crdt
blank = record (editor (pos 2)) { symbols = [] ∷ [] }

above : compare (symbol_at 0 16) (symbol_at 10 9) ≡ Ordering.gt
unfolding compare compare_position compare_identifier
above = refl

handle_remote_insert-undefined_example :
    (handle_remote_insert blank (symbol_at 10 9) >>= λ d. handle_remote_insert d (symbol_at 0 16))
    ≡ undefined
handle_remote_insert-undefined_example =
    handle_remote_insert-undefined blank (symbol_at 10 9) (symbol_at 0 16) refl refl above

below : compare (symbol_at 10 9) (symbol_at 0 16) ≡ Ordering.lt
unfolding compare compare_position compare_identifier
below = refl

deliver-blank_example :
    (c' : Crdt) × (deliver blank (symbol_at 0 16 ∷ symbol_at 10 9 ∷ []) ≡ ok c')
    × (flatten c'.symbols ≡ insert_all (symbol_at 10 9 ∷ []) (symbol_at 0 16 ∷ []))
    × IsOrdered c'.symbols
    × (c'.size ≡ pos 4 +ℤ pos 1 +ℤ pos 1)
    × (c'.sent ≡ [])
deliver-blank_example =
    deliver-blank blank (symbol_at 0 16) (symbol_at 10 9 ∷ []) refl refl (below, tt) (tt, tt)
