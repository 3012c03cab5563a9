-- ===== src/Crdt/Remote/Blank.antt =====
-- Remote insertions into a blank document, as when a file is opened.
use scriba.Prelude.{
  ◌≡◌, refl, sym, ◌∙◌, ap, subst, false, Ordering, List, [], ◌∷◌, length, flatten, ok, undefined,
  arith, ◌==◌, Bool-cases, inl, inr, ◌>>=◌,
}
use scriba.Prelude.Int.{pos, ◌+ℤ◌}
use scriba.Order.Rank.{All}
use scriba.Symbol.{Symbol, compare}
use scriba.Crdt.Search.{newline, compare_first, find_insert_position}
use scriba.Crdt.Search.Place.{IsOrdered}
use scriba.Crdt.Lines.{insert_char}
use scriba.Crdt.State.{Crdt, emit, insert}
use scriba.Crdt.Remote.{place_of, insert_remote, handle_remote_insert}
use scriba.Crdt.Remote.Delivery.{deliver, insert_all, IsNew, IsDistinct, deliver-inserts}

-- A symbol that stands alone in the lines `lines`.
abbrev pub Alone : Crdt → List (List Symbol) → Crdt → Type 0
Alone c lines c' = (c'.symbols ≡ lines) × (c'.size ≡ c.size +ℤ pos 1) × (c'.sent ≡ c.sent)

module _ (c : Crdt) (blank : c.symbols ≡ [] ∷ []) (s : Symbol) where
  signalled :
      (lines : List (List Symbol))
      → insert_remote c s ≡ ok ((0, 0), record c { symbols = lines; size = c.size +ℤ pos 1 })
      → (c' : Crdt) × (handle_remote_insert c s ≡ ok c') × Alone c lines c'
  unfolding handle_remote_insert
  signalled lines run =
      let d : Crdt = record c { symbols = lines; size = c.size +ℤ pos 1 } in
      elim (Bool-cases (s.value == 0)) [
        | inl z ↦ (d, ground (arith, run, z), (refl, refl, refl))
        | inr z ↦ (emit d (insert 0 0 s), ground (arith, run, z), (refl, refl, refl))
      ]

  insert_newline :
      s.value ≡ newline
      → (c' : Crdt) × (handle_remote_insert c s ≡ ok c') × Alone c ((s ∷ []) ∷ [] ∷ []) c'
  unfolding insert_remote place_of find_insert_position insert_char
  insert_newline n = signalled ((s ∷ []) ∷ [] ∷ []) (ground (arith, blank, n))

  insert_other :
      (s.value == newline) ≡ false
      → (c' : Crdt) × (handle_remote_insert c s ≡ ok c') × Alone c ((s ∷ []) ∷ []) c'
  unfolding insert_remote place_of find_insert_position insert_char
  insert_other n = signalled ((s ∷ []) ∷ []) (ground (arith, blank, n))

no_place : (s t : Symbol) → compare t s ≡ Ordering.gt → place_of t ((s ∷ []) ∷ [] ∷ []) ≡ undefined
unfolding place_of find_insert_position compare_first
no_place s t h = rw h refl

-- A newline that is the first symbol of a blank document is taken in, with an empty line after it; the
-- handler then reads the last symbol of that line, which does not exist, for the next symbol that
-- comes, if it belongs after the newline.
pub handle_remote_insert-undefined :
    (c : Crdt) (s t : Symbol)
    → c.symbols ≡ [] ∷ []
    → s.value ≡ newline
    → compare t s ≡ Ordering.gt
    → (handle_remote_insert c s >>= λ d. handle_remote_insert d t) ≡ undefined
unfolding handle_remote_insert insert_remote
handle_remote_insert-undefined c s t blank n h =
    let (d, run, (lines, _, _)) = insert_newline c blank s n in
    rw run (rw (lines, no_place s t h) refl)

-- A blank document that is given a symbol that is no newline, and then others below it, at positions
-- of their own, in any order: all are taken in, the document's sequence is that of the reference
-- insertion, in ordered lines, and the size grows by the number of symbols.
pub deliver-blank :
    (c : Crdt) (s : Symbol) (ss : List Symbol)
    → c.symbols ≡ [] ∷ []
    → (s.value == newline) ≡ false
    → All (λ t. compare t s ≡ Ordering.lt) ss
    → IsDistinct ss
    → (c' : Crdt) × (deliver c (s ∷ ss) ≡ ok c')
      × (flatten c'.symbols ≡ insert_all ss (s ∷ []))
      × IsOrdered c'.symbols
      × (c'.size ≡ c.size +ℤ pos 1 +ℤ pos (length ss))
      × (c'.sent ≡ c.sent)
unfolding deliver
deliver-blank c s ss blank n below distinct =
    let (d, run, (lines, size, sent)) = insert_other c blank s n in
    let flat : flatten d.symbols ≡ s ∷ [] = ap flatten lines in
    let (c', run', (flat', ordered, size', sent')) =
      deliver-inserts d ss
        (subst IsOrdered (sym lines) record { non_empty = tt; increasing = (tt, tt) }) distinct
        (subst (λ xs. All (IsNew xs) ss) (sym flat) (all_new ss below)) in
    (
      c',
      rw run run',
      flat' ∙ ap (insert_all ss) flat,
      ordered,
      size' ∙ ap (λ k. k +ℤ pos (length ss)) size,
      sent' ∙ sent,
    )
  where
    all_new : (ts : List Symbol) → All (λ t. compare t s ≡ Ordering.lt) ts → All (IsNew (s ∷ [])) ts
    all_new [] h = tt
    all_new (t ∷ ts) h = ((ground (arith, h.0), ground (arith, h.0)), all_new ts h.1)
