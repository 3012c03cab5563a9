-- ===== src/Crdt/Remote/Runs.antt =====
-- Runs of the handlers of remote insertions and erasures, in any order: what holds all along.
use scriba.Prelude.{
  ℕ, suc, ◌+◌, ◌≡◌, refl, sym, ◌∙◌, ap, subst, true, List, [], ◌∷◌, length, flatten, ok, arith,
}
use scriba.Prelude.Int.{ℤ, pos, pos_part, neg_part, ◌+ℤ◌, ◌-ℤ◌, int_laws}
use scriba.Order.Rank.{contains, insert_sorted, remove}
use scriba.Symbol.{Symbol}
use scriba.Symbol.Compare.{symbol_order}
use scriba.Crdt.Search.Place.{IsOrdered}
use scriba.Crdt.State.{Crdt}
use scriba.Crdt.Remote.{handle_remote_insert, handle_remote_erase}
use scriba.Crdt.Remote.Insert.{handle_remote_insert-sorted}
use scriba.Crdt.Remote.Delivery.{IsNew}
use scriba.Crdt.Remote.Loop.{Holds, remove_all, handle_remote_erase-removes}

length-insert_sorted :
    (s : Symbol) (xs : List Symbol) → length (insert_sorted symbol_order s xs) ≡ suc (length xs)
length-insert_sorted s [] = refl
length-insert_sorted s (x ∷ xs) = ground (arith, length-insert_sorted s xs)

length-remove :
    (s : Symbol) (xs : List Symbol)
    → contains symbol_order s xs ≡ true
    → suc (length (remove symbol_order s xs)) ≡ length xs
length-remove s [] h = cc
length-remove s (x ∷ xs) h = ground (arith, h, length-remove s xs)

length-remove_all :
    (ss xs : List Symbol) → Holds ss xs → length (remove_all ss xs) + length ss ≡ length xs
length-remove_all [] xs h = omega arith
length-remove_all (s ∷ ss) xs h =
    omega (arith, length-remove_all ss (remove symbol_order s xs) h.1, length-remove s xs h.0)

-- Lines that are ordered and hold something, and a size that is one less than the number of
-- symbols: it does not count the one that ends the document.
pub record IsDocument (c : Crdt) : Type 0 where
  pub ordered : IsOrdered c.symbols
  pub counted : c.size +ℤ pos 1 ≡ pos (length (flatten c.symbols))

-- One message of another editor, handled: a symbol that is new to the document and not above its
-- last one, or symbols that it holds.
pub data Step : Crdt → Crdt → Type 0 where
  inserted :
      {c c' : Crdt} (s : Symbol)
      → IsNew (flatten c.symbols) s
      → handle_remote_insert c s ≡ ok c'
      → Step c c'
  erased :
      {c c' : Crdt} (s : Symbol) (ss : List Symbol)
      → Holds (s ∷ ss) (flatten c.symbols)
      → handle_remote_erase c (s ∷ ss) ≡ ok c'
      → Step c c'

pub data Reach (c : Crdt) : Crdt → Type 0 where
  start : Reach c c
  next : {d d' : Crdt} → Reach c d → Step d d' → Reach c d'

ok-injective : {c d : Crdt} → ok c ≡ ok d → c ≡ d
ok-injective e = cc

plus_one : (a : ℤ) (n : ℕ) → a +ℤ pos 1 ≡ pos n → a +ℤ pos 1 +ℤ pos 1 ≡ pos (suc n)
plus_one a n h = omega (int_laws, ap pos_part h, ap neg_part h)

minus_all : (a : ℤ) (k m n : ℕ) → a +ℤ pos 1 ≡ pos n → m + k ≡ n → (a -ℤ pos k) +ℤ pos 1 ≡ pos m
minus_all a k m n h g = omega (int_laws, ap pos_part h, ap neg_part h, g)

Step-IsDocument : {c d : Crdt} → Step c d → IsDocument c → IsDocument d
Step-IsDocument {c} {d} (inserted s new run) w =
    let (c', run', (flat, ordered, size, sent)) =
      handle_remote_insert-sorted c s (record { ordered = w.ordered; within = new.1 }) new.0 in
    subst IsDocument (ok-injective (sym run' ∙ run)) record {
      ordered = ordered;
      counted =
          ap (λ a. a +ℤ pos 1) size
          ∙ plus_one c.size (length (flatten c.symbols)) w.counted
          ∙ ap pos (sym (ap length flat ∙ length-insert_sorted s (flatten c.symbols)));
    }
Step-IsDocument {c} {d} (erased s ss holds run) w =
    let (c', run', (flat, ordered, size, sent)) =
      handle_remote_erase-removes c s ss w.ordered holds in
    subst IsDocument (ok-injective (sym run' ∙ run)) record {
      ordered = ordered;
      counted =
          ap (λ a. a +ℤ pos 1) size
          ∙ minus_all c.size (length (s ∷ ss)) (length (flatten c'.symbols))
              (length (flatten c.symbols)) w.counted
              (ap (λ n. n + length (s ∷ ss)) (ap length flat)
                ∙ length-remove_all (s ∷ ss) (flatten c.symbols) holds);
    }

-- However many messages are handled, insertions of symbols that are new to the document and not
-- above its last one, and erasures of symbols that it holds, in any order: the lines stay in order
-- and without an empty one, and the size stays one less than the number of symbols.
pub Reach-IsDocument : {c d : Crdt} → Reach c d → IsDocument c → IsDocument d
Reach-IsDocument start w = w
Reach-IsDocument (next r st) w = Step-IsDocument st (Reach-IsDocument r w)
