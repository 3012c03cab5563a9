-- ===== src/Order/Blocks/Offset.antt =====
-- Places in blocks as places in the whole sequence.
use mathlib.Core.Option.{some-injective}
use scriba.Prelude.{
  ℕ, zero, suc, ◌+◌, ◌≤◌, ◌≡◌, refl, sym, ◌∙◌, ap, ◌⊎◌, inl, inr, Ordering, List, [], ◌∷◌, ◌++◌,
  some, arith, false, Bool-cases, length, get_elem?, set, insert_at, flatten, length-append,
}
use scriba.Order.{TotalOrder}
use scriba.Order.Rank.{
  Increasing, rank, rank-le, rank-le-length, lt-rank, contains, contains-compared, insert_sorted,
  insert_at-rank,
}

plus_zero : (i : ℕ) → 0 + i ≡ i
plus_zero i = omega arith

plus_suc : (n i : ℕ) → suc n + i ≡ suc (n + i)
plus_suc n i = omega arith

plus_assoc : (a b c : ℕ) → a + b + c ≡ a + (b + c)
plus_assoc a b c = omega arith

module _ {ℓ} {A : Type ℓ} where
  -- Where a block starts in the whole.
  abbrev pub start : List (List A) → ℕ → ℕ
  start [] n = 0
  start (l ∷ ls) zero = 0
  start (l ∷ ls) (suc n) = length l + start ls n

  get_elem?-append_left :
      (xs ys : List A) (i : ℕ) {t : A} → get_elem? xs i ≡ some t → get_elem? (xs ++ ys) i ≡ some t
  get_elem?-append_left [] ys i e = cc
  get_elem?-append_left (x ∷ xs) ys zero e = e
  get_elem?-append_left (x ∷ xs) ys (suc i) e = get_elem?-append_left xs ys i e

  get_elem?-append_right :
      (xs ys : List A) (i : ℕ) → get_elem? (xs ++ ys) (length xs + i) ≡ get_elem? ys i
  get_elem?-append_right [] ys i = ap (get_elem? ys) (plus_zero i)
  get_elem?-append_right (x ∷ xs) ys i =
      ap (get_elem? (x ∷ xs ++ ys)) (plus_suc (length xs) i) ∙ get_elem?-append_right xs ys i

  pub get_elem?-flatten :
      (ls : List (List A)) (n i : ℕ) {l : List A} {t : A}
      → get_elem? ls n ≡ some l
      → get_elem? l i ≡ some t
      → get_elem? (flatten ls) (start ls n + i) ≡ some t
  get_elem?-flatten [] n i e h = cc
  get_elem?-flatten (m ∷ ls) zero i e h =
      ap (get_elem? (m ++ flatten ls)) (plus_zero i)
      ∙ get_elem?-append_left m (flatten ls) i (ap (λ k. get_elem? k i) (some-injective _ _ e) ∙ h)
  get_elem?-flatten (m ∷ ls) (suc n) i e h =
      ap (get_elem? (m ++ flatten ls)) (plus_assoc (length m) (start ls n) i)
      ∙ get_elem?-append_right m (flatten ls) (start ls n + i)
      ∙ get_elem?-flatten ls n i e h

  pub start-suc :
      (ls : List (List A)) (n : ℕ) {l : List A}
      → get_elem? ls n ≡ some l
      → start ls (suc n) ≡ start ls n + length l
  start-suc [] n e = cc
  start-suc (m ∷ []) zero e = ground arith
  start-suc (m ∷ k ∷ ls) zero e = ground arith
  start-suc (m ∷ ls) (suc n) {l} e = omega (arith, start-suc ls n {l = l} e)

  pub start-length : (ls : List (List A)) → start ls (length ls) ≡ length (flatten ls)
  start-length [] = refl
  start-length (m ∷ ls) = omega (arith, start-length ls, length-append m (flatten ls))

  insert_at-append_left :
      (xs ys : List A) (i : ℕ) (s : A)
      → i ≤ length xs
      → insert_at i s xs ++ ys ≡ insert_at i s (xs ++ ys)
  insert_at-append_left xs ys zero s h = refl
  insert_at-append_left [] ys (suc i) s h = elim h [ ]
  insert_at-append_left (x ∷ xs) ys (suc i) s h =
      ap (◌∷◌ x) (insert_at-append_left xs ys i s (omega arith))

  insert_at-append_right :
      (xs ys : List A) (i : ℕ) (s : A)
      → xs ++ insert_at i s ys ≡ insert_at (length xs + i) s (xs ++ ys)
  insert_at-append_right [] ys i s = ap (λ k. insert_at k s ys) (sym (plus_zero i))
  insert_at-append_right (x ∷ xs) ys i s =
      ap (◌∷◌ x) (insert_at-append_right xs ys i s)
      ∙ ap (λ k. insert_at k s (x ∷ xs ++ ys)) (sym (plus_suc (length xs) i))

  pub flatten-insert_at :
      (ls : List (List A)) (n i : ℕ) (s : A) {l : List A}
      → get_elem? ls n ≡ some l
      → i ≤ length l
      → flatten (set ls n (insert_at i s l)) ≡ insert_at (start ls n + i) s (flatten ls)
  flatten-insert_at [] n i s e h = cc
  flatten-insert_at (m ∷ ls) zero i s {l} e h =
      insert_at-append_left l (flatten ls) i s h
      ∙ ap (λ k. insert_at i s (k ++ flatten ls)) (sym (some-injective _ _ e))
      ∙ ap (λ k. insert_at k s (m ++ flatten ls)) (sym (plus_zero i))
  flatten-insert_at (m ∷ ls) (suc n) i s e h =
      ap (◌++◌ m) (flatten-insert_at ls n i s e h)
      ∙ insert_at-append_right m (flatten ls) (start ls n + i) s
      ∙ ap (λ k. insert_at k s (m ++ flatten ls)) (sym (plus_assoc (length m) (start ls n) i))

module _ {ℓ} {A : Type ℓ} (o : TotalOrder A) (s : A) (xs : List A) (k : ℕ) where
  open o use {cmp}

  -- What stands before the place `k` is below `s`, what stands at it is above.
  abbrev pub Fits : Type ℓ
  Fits =
      ((k ≡ 0)
        ⊎ ((j : ℕ) × (t : A) × (k ≡ suc j) × (get_elem? xs j ≡ some t) × (cmp s t ≡ Ordering.gt)))
      × ((k ≡ length xs) ⊎ ((t : A) × (get_elem? xs k ≡ some t) × (cmp s t ≡ Ordering.lt)))

  rank-Fits : Increasing o xs → k ≤ length xs → Fits → rank o s xs ≡ k
  rank-Fits inc h (low, high) =
      let below : k ≤ rank o s xs = elim low [
        | inl z ↦ omega (arith, z)
        | inr (j, t, e, g, c) ↦ omega (arith, e, lt-rank o s xs j inc g c)
      ] in
      let above : rank o s xs ≤ k = elim high [
        | inl z ↦ omega (arith, z, rank-le-length o s xs)
        | inr (t, g, c) ↦ rank-le o s xs k g (λ d. ground (arith, c, d))
      ] in
      omega (arith, below, above)

  -- An element that fits at a place goes there by sorted insertion, and was not in the sequence.
  pub insert_at-Fits :
      Increasing o xs
      → k ≤ length xs
      → Fits
      → (insert_at k s xs ≡ insert_sorted o s xs) × (contains o s xs ≡ false) × (rank o s xs ≡ k)
  insert_at-Fits inc h fits =
      let r = rank-Fits inc h fits in
      (
        ap (λ n. insert_at n s xs) (sym r) ∙ insert_at-rank o s xs,
        elim (Bool-cases (contains o s xs)) [
          | inr f ↦ f
          | inl t ↦ elim fits.1 [
            | inl z ↦ absurd (omega (arith, z, r, (contains-compared o s xs t).0))
            | inr (y, g, c) ↦ ground (arith, r, g, c, (contains-compared o s xs t).1)
          ]
        ],
        r,
      )
