-- ===== src/Order/Blocks/Cut.antt =====
-- The removal of one element from a block, and of a run of elements from the whole.
use mathlib.Core.Option.{some-injective}
use scriba.Prelude.{
  ℕ, zero, suc, ◌+◌, ◌<◌, ◌≡◌, refl, sym, ◌∙◌, ap, true, List, [], ◌∷◌, ◌++◌, some, arith, length,
  get_elem?, set, erase_at, take, drop, flatten, take-append-drop,
}
use scriba.Order.{TotalOrder, cmp_self}
use scriba.Order.Rank.{Increasing, rank_at, contains, contains_at, remove}
use scriba.Order.Blocks.Edit.{erase_at-rank}
use scriba.Order.Blocks.Offset.{start, start-suc, start-length}

module _ {ℓ} {A : Type ℓ} where
  erase_at-append_left :
      (xs ys : List A) (i : ℕ) → i < length xs → erase_at i xs ++ ys ≡ erase_at i (xs ++ ys)
  erase_at-append_left [] ys i h = elim h [ ]
  erase_at-append_left (x ∷ xs) ys zero h = refl
  erase_at-append_left (x ∷ xs) ys (suc i) h =
      ap (◌∷◌ x) (erase_at-append_left xs ys i (omega arith))

  erase_at-append_right :
      (xs ys : List A) (i : ℕ) → xs ++ erase_at i ys ≡ erase_at (length xs + i) (xs ++ ys)
  erase_at-append_right [] ys i = ap (λ k. erase_at k ys) (omega arith)
  erase_at-append_right (x ∷ xs) ys i =
      ap (◌∷◌ x) (erase_at-append_right xs ys i)
      ∙ ap (λ k. erase_at k (x ∷ xs ++ ys)) {x = suc (length xs + i)} (omega arith)

  -- A line that loses a symbol: the sequence loses it at its place.
  pub flatten-erase_at_place :
      (ls : List (List A)) (n i : ℕ) {l : List A}
      → get_elem? ls n ≡ some l
      → i < length l
      → flatten (set ls n (erase_at i l)) ≡ erase_at (start ls n + i) (flatten ls)
  flatten-erase_at_place [] n i e h = cc
  flatten-erase_at_place (m ∷ ls) zero i {l} e h =
      erase_at-append_left l (flatten ls) i h
      ∙ ap (λ k. erase_at i (k ++ flatten ls)) (sym (some-injective _ _ e))
      ∙ ap (λ k. erase_at k (m ++ flatten ls)) {x = i} (omega arith)
  flatten-erase_at_place (m ∷ ls) (suc n) i e h =
      ap (◌++◌ m) (flatten-erase_at_place ls n i e h)
      ∙ erase_at-append_right m (flatten ls) (start ls n + i)
      ∙ ap (λ k. erase_at k (m ++ flatten ls)) {x = length m + (start ls n + i)} (omega arith)

  pub start-set : (ls : List (List A)) (n : ℕ) (l : List A) → start (set ls n l) n ≡ start ls n
  start-set [] n l = refl
  start-set (m ∷ ls) zero l = refl
  start-set (m ∷ ls) (suc n) l = ap (λ k. length m + k) (start-set ls n l)

  pub start-erase_at : (ls : List (List A)) (n : ℕ) → start (erase_at (suc n) ls) n ≡ start ls n
  start-erase_at [] n = refl
  start-erase_at (m ∷ []) zero = refl
  start-erase_at (m ∷ k ∷ ls) zero = refl
  start-erase_at (m ∷ ls) (suc n) = ap (λ k. length m + k) (start-erase_at ls n)

  pub get_elem?-set_same :
      (ls : List A) (n : ℕ) (l : A) → n < length ls → get_elem? (set ls n l) n ≡ some l
  get_elem?-set_same [] n l h = elim h [ ]
  get_elem?-set_same (m ∷ ls) zero l h = refl
  get_elem?-set_same (m ∷ ls) (suc n) l h = get_elem?-set_same ls n l (omega arith)

  pub get_elem?-erase_after :
      (ls : List A) (n : ℕ) → get_elem? (erase_at (suc n) ls) n ≡ get_elem? ls n
  get_elem?-erase_after [] n = refl
  get_elem?-erase_after (m ∷ ls) zero = refl
  get_elem?-erase_after (m ∷ ls) (suc n) = get_elem?-erase_after ls n

  pub get_elem?-lt : (ls : List A) (i : ℕ) {a : A} → get_elem? ls i ≡ some a → i < length ls
  get_elem?-lt [] i e = cc
  get_elem?-lt (x ∷ ls) zero e = omega arith
  get_elem?-lt (x ∷ ls) (suc i) e = omega (arith, get_elem?-lt ls i e)

  -- The run of `n` elements from the place `k` on, and what is left without it.
  abbrev pub slice : ℕ → ℕ → List A → List A
  slice k n xs = take n (drop k xs)

  abbrev pub without : ℕ → ℕ → List A → List A
  without k n xs = take k xs ++ drop n (drop k xs)

  pub slice-suc :
      (k n : ℕ) (xs : List A) {s : A}
      → get_elem? xs k ≡ some s
      → slice k (suc n) xs ≡ s ∷ slice k n (erase_at k xs)
  slice-suc k n [] e = cc
  slice-suc zero n (x ∷ xs) e = ap (λ t. t ∷ take n xs) (some-injective _ _ e)
  slice-suc (suc k) n (x ∷ xs) e = slice-suc k n xs e

  pub without-suc : (k n : ℕ) (xs : List A) → without k (suc n) xs ≡ without k n (erase_at k xs)
  without-suc zero zero [] = refl
  without-suc zero (suc n) [] = refl
  without-suc (suc k) zero [] = refl
  without-suc (suc k) (suc n) [] = refl
  without-suc zero n (x ∷ xs) = refl
  without-suc (suc k) n (x ∷ xs) = ap (◌∷◌ x) (without-suc k n xs)

  pub without-zero : (k : ℕ) (xs : List A) → without k 0 xs ≡ xs
  without-zero k xs = take-append-drop k xs

  pub length-erase_at :
      (i : ℕ) (xs : List A) → i < length xs → suc (length (erase_at i xs)) ≡ length xs
  length-erase_at i [] h = elim h [ ]
  length-erase_at zero (x ∷ xs) h = refl
  length-erase_at (suc i) (x ∷ xs) h = omega (arith, length-erase_at i xs (omega arith))

  -- The last block ends where the whole does.
  pub last_row_length :
      (ls : List (List A)) (n : ℕ) {l : List A}
      → get_elem? ls n ≡ some l
      → suc n ≡ length ls
      → start ls n + length l ≡ length (flatten ls)
  last_row_length ls n {l} e h = sym (start-suc ls n {l = l} e) ∙ ap (start ls) h ∙ start-length ls

module _ {ℓ} {A : Type ℓ} (o : TotalOrder A) where
  pub remove_at :
      (xs : List A) (k : ℕ) {s : A}
      → Increasing o xs
      → get_elem? xs k ≡ some s
      → (contains o s xs ≡ true) × (remove o s xs ≡ erase_at k xs)
  remove_at xs k {s} inc e =
      let r = rank_at o s xs k inc e (cmp_self o s) in
      let c = contains_at o s xs k inc (get_elem?-lt xs k e) (ground (arith, e, cmp_self o s)) in
      (c, sym (erase_at-rank o s xs c) ∙ ap (λ k. erase_at k xs) r)
