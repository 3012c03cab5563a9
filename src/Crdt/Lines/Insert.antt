-- ===== src/Crdt/Lines/Insert.antt =====
-- insertChar at a place: the sequence of symbols gains the symbol there, whatever it does to the
-- lines.
use mathlib.Core.List.{append_assoc}
use scriba.Prelude.{
  ℕ, zero, suc, ◌≤◌, ◌<◌, ◌≡◌, refl, sym, ◌∙◌, ap, ◌≢◌, List, [], ◌∷◌, ◌++◌, some, arith, length,
  get_elem?, set, insert_at, take, drop, flatten, ok, Bool-cases, ◌==◌, inl, inr,
}
use scriba.Order.Blocks.{NonEmpty}
use scriba.Order.Blocks.Full.{NonEmpty-set, append-ne_nil, NonEmpty-insert_at}
use scriba.Symbol.{Symbol}
use scriba.Crdt.Search.{newline}
use scriba.Crdt.Lines.{insert_char}

module _ {ℓ} {A : Type ℓ} where
  split_insert :
      (i : ℕ) (s : A) (l : List A)
      → i ≤ length l
      → (take i l ++ s ∷ []) ++ drop i l ≡ insert_at i s l
  split_insert zero s l h = refl
  split_insert (suc i) s [] h = elim h [ ]
  split_insert (suc i) s (x ∷ l) h = ap (◌∷◌ x) (split_insert i s l (omega arith))

  -- A line split in two holds the same symbols.
  flatten-split :
      (ls : List (List A)) (i : ℕ) (a b : List A)
      → i < length ls
      → flatten (insert_at (suc i) b (set ls i a)) ≡ flatten (set ls i (a ++ b))
  flatten-split [] i a b h = elim h [ ]
  flatten-split (l ∷ ls) zero a b h = sym (append_assoc a b (flatten ls))
  flatten-split (l ∷ ls) (suc i) a b h = ap (◌++◌ l) (flatten-split ls i a b (omega arith))

  get_elem?-lt : (ls : List A) (i : ℕ) {a : A} → get_elem? ls i ≡ some a → i < length ls
  get_elem?-lt [] i e = cc
  get_elem?-lt (x ∷ ls) zero e = omega arith
  get_elem?-lt (x ∷ ls) (suc i) e = omega (arith, get_elem?-lt ls i e)

insert_at-ne_nil : {A : Type 0} (i : ℕ) (s : A) (l : List A) → insert_at i s l ≢ []
insert_at-ne_nil zero s l e = cc
insert_at-ne_nil (suc i) s [] e = cc
insert_at-ne_nil (suc i) s (x ∷ l) e = cc

drop-ne_nil : {A : Type 0} (i : ℕ) (l : List A) → i < length l → drop i l ≢ []
drop-ne_nil zero [] h e = elim h [ ]
drop-ne_nil zero (x ∷ l) h e = cc
drop-ne_nil (suc i) [] h e = elim h [ ]
drop-ne_nil (suc i) (x ∷ l) h e = drop-ne_nil i l (omega arith) e

module _ (s : Symbol) (line index : ℕ) (lines : List (List Symbol)) {l : List Symbol}
    (e : get_elem? lines line ≡ some l) (h : index ≤ length l) where
  -- insertChar within a line returns, and the symbols of the document gain `s` at that place.
  pub insert_char-flatten :
      (lines' : List (List Symbol)) × (insert_char s line index lines ≡ ok lines')
      × (flatten lines' ≡ flatten (set lines line (insert_at index s l)))
      × (NonEmpty lines → (s.value ≡ newline → index < length l) → NonEmpty lines')
  unfolding insert_char
  insert_char-flatten = elim (Bool-cases (s.value == newline)) [
    | inl n ↦ (
      insert_at (suc line) (drop index l) (set lines line (take index l ++ s ∷ [])),
      ground (arith, e, n, h),
      flatten-split lines line (take index l ++ s ∷ []) (drop index l) (get_elem?-lt lines line e)
          ∙ ap (λ m. flatten (set lines line m)) (split_insert index s l h),
      λ full room.
          NonEmpty-insert_at _ (suc line) (drop index l)
            (NonEmpty-set lines line _ full (append-ne_nil (take index l) (s ∷ []) (λ k. cc)))
            (drop-ne_nil index l (room (ground arith))),
    )
    | inr n ↦ (
      set lines line (insert_at index s l),
      ground (arith, e, n, h),
      refl,
      λ full room. NonEmpty-set lines line _ full (insert_at-ne_nil index s l),
    )
  ]
