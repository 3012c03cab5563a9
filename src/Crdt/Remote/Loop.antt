-- ===== src/Crdt/Remote/Loop.antt =====
-- The loop of handleRemoteErase, over symbols that the document holds.
use scriba.Prelude.{
  ◌≡◌, sym, ◌∙◌, ap, subst, refl, true, List, [], ◌∷◌, some, ℕ, length, flatten, ok, suc,
}
use scriba.Prelude.Int.{int_laws, pos, ◌-ℤ◌, ℤ}
use scriba.Order.Rank.{contains, remove}
use scriba.Symbol.{Symbol}
use scriba.Symbol.Compare.{symbol_order}
use scriba.Crdt.Search.Place.{IsOrdered}
use scriba.Crdt.State.{Crdt, emit, erase}
use scriba.Crdt.Remote.{erase_loop, handle_remote_erase}
use scriba.Crdt.Remote.Erase.{Erased, erase_one-remove}

-- The reference: the symbols leave the sequence one after another.
abbrev pub remove_all : List Symbol → List Symbol → List Symbol
remove_all [] xs = xs
remove_all (s ∷ ss) xs = remove_all ss (remove symbol_order s xs)

-- Each of the symbols is in the sequence when its turn comes.
abbrev pub Holds : List Symbol → List Symbol → Type 0
Holds [] xs = Unit
Holds (s ∷ ss) xs = (contains symbol_order s xs ≡ true) × Holds ss (remove symbol_order s xs)

abbrev pub ErasedAll : Crdt → List Symbol → Crdt → Type 0
ErasedAll c ss c' =
    (flatten c'.symbols ≡ remove_all ss (flatten c.symbols))
    × IsOrdered c'.symbols
    × (c'.size ≡ c.size -ℤ pos (length ss))
    × (c'.sent ≡ c.sent)

sub_zero : (a : ℤ) → a ≡ a -ℤ pos 0
sub_zero a = omega int_laws

sub_sub : (a : ℤ) (n : ℕ) → (a -ℤ pos 1) -ℤ pos n ≡ a -ℤ pos (suc n)
sub_sub a n = omega int_laws

ErasedAll-cons :
    (c d c' : Crdt) (s : Symbol) (ss : List Symbol)
    → Erased c s d
    → ErasedAll d ss c'
    → ErasedAll c (s ∷ ss) c'
ErasedAll-cons c d c' s ss gone done = (
  done.0 ∙ ap (remove_all ss) gone.0,
  done.1,
  done.2 ∙ ap (λ n. n -ℤ pos (length ss)) gone.2 ∙ sub_sub c.size (length ss),
  done.3 ∙ gone.3,
)

erase_loop-removes :
    (total : ℕ) (start : ℕ × ℕ) (c : Crdt) (ss : List Symbol)
    → IsOrdered c.symbols
    → Holds ss (flatten c.symbols)
    → (c' : Crdt) × (erase_loop total (some start) c ss ≡ ok c') × ErasedAll c ss c'
unfolding erase_loop
erase_loop-removes total start c [] w h =
    (emit c (erase start.0 start.1 total), refl, (refl, w, sub_zero c.size, refl))
erase_loop-removes total start c (s ∷ ss) w h =
    let (place, d, run, gone) = erase_one-remove c s w h.0 in
    let (c', run', done) =
      erase_loop-removes total start d ss gone.1 (subst (Holds ss) (sym gone.0) h.1) in
    (c', rw run run', ErasedAll-cons c d c' s ss gone done)

-- handleRemoteErase with symbols that are all in an ordered document returns: the sequence loses
-- those symbols and no other, whatever lines are joined or dropped, its lines are ordered again, the
-- size is less by their number, and nothing is sent.
pub handle_remote_erase-removes :
    (c : Crdt) (s : Symbol) (ss : List Symbol)
    → IsOrdered c.symbols
    → Holds (s ∷ ss) (flatten c.symbols)
    → (c' : Crdt) × (handle_remote_erase c (s ∷ ss) ≡ ok c') × ErasedAll c (s ∷ ss) c'
unfolding handle_remote_erase erase_loop
handle_remote_erase-removes c s ss w h =
    let (place, d, run, gone) = erase_one-remove c s w h.0 in
    let (c', run', done) =
      erase_loop-removes (length (s ∷ ss)) place d ss gone.1 (subst (Holds ss) (sym gone.0) h.1) in
    (c', rw run run', ErasedAll-cons c d c' s ss gone done)
