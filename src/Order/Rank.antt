-- ===== src/Order/Rank.antt =====
-- Increasing lists over a total order: the place of an element, insertion and removal.
use scriba.Prelude.{
  ℕ, zero, suc, ◌≤◌, ◌<◌, ◌≡◌, refl, ◌≢◌, Ordering, List, [], ◌∷◌, ◌++◌, none, some, Bool, true,
  false, arith, length, get_elem?, get_elem?_total, insert_at,
}
use scriba.Order.{TotalOrder, gt_of_lt, le_lt_trans}

abbrev pub All {ℓ κ} : {A : Type ℓ} → (A → Type κ) → List A → Type κ
All P [] = Unit
All P (x ∷ xs) = P x × All P xs

pub All-append {ℓ κ} :
    {A : Type ℓ} (P : A → Type κ) (xs ys : List A) → All P xs → All P ys → All P (xs ++ ys)
All-append P [] ys hx hy = hy
All-append P (x ∷ xs) ys hx hy = (hx.0, All-append P xs ys hx.1 hy)

pub All-split {ℓ κ} :
    {A : Type ℓ} (P : A → Type κ) (xs ys : List A) → All P (xs ++ ys) → All P xs × All P ys
All-split P [] ys h = (tt, h)
All-split P (x ∷ xs) ys h = let (l, r) = All-split P xs ys h.1 in ((h.0, l), r)

module _ {ℓ} {A : Type ℓ} (o : TotalOrder A) where
  open o use {cmp, lt_trans, cmp_flip, eq_left}

  -- Every element of the list lies above `a`.
  abbrev pub Above : A → List A → Type 0
  Above a = All (λ b. cmp a b ≡ Ordering.lt)

  abbrev pub Increasing : List A → Type 0
  Increasing [] = Unit
  Increasing (x ∷ xs) = Above x xs × Increasing xs

  -- The number of leading elements below `s`.
  abbrev pub rank : A → List A → ℕ
  rank s [] = 0
  rank s (x ∷ xs) = elim (cmp s x) [ Ordering.gt ↦ suc (rank s xs) | _ ↦ 0 ]

  -- The reference insertion and removal.
  abbrev pub insert_sorted : A → List A → List A
  insert_sorted s [] = s ∷ []
  insert_sorted s (x ∷ xs) = elim (cmp s x) [
    | Ordering.gt ↦ x ∷ insert_sorted s xs
    | _ ↦ s ∷ x ∷ xs
  ]

  abbrev pub remove : A → List A → List A
  remove s [] = []
  remove s (x ∷ xs) = elim (cmp s x) [
    | Ordering.gt ↦ x ∷ remove s xs
    | Ordering.eq ↦ xs
    | Ordering.lt ↦ x ∷ xs
  ]

  abbrev pub contains : A → List A → Bool
  contains s [] = false
  contains s (x ∷ xs) = elim (cmp s x) [
    | Ordering.gt ↦ contains s xs
    | Ordering.eq ↦ true
    | Ordering.lt ↦ false
  ]

  pub Above-trans : (a b : A) (xs : List A) → cmp a b ≡ Ordering.lt → Above b xs → Above a xs
  Above-trans a b [] h k = tt
  Above-trans a b (x ∷ xs) h k = (lt_trans a b x h k.0, Above-trans a b xs h k.1)

  pub rank-le-length : (s : A) (xs : List A) → rank s xs ≤ length xs
  rank-le-length s [] = omega arith
  rank-le-length s (x ∷ xs) = ground (arith, rank-le-length s xs)

  pub rank-le :
      (s : A) (xs : List A) (i : ℕ) {y : A}
      → get_elem? xs i ≡ some y
      → cmp s y ≢ Ordering.gt
      → rank s xs ≤ i
  rank-le s [] i e h = cc
  rank-le s (x ∷ xs) zero e h = ground arith
  rank-le s (x ∷ xs) (suc i) e h = ground (arith, rank-le s xs i e h)

  Above-get_elem? :
      (a : A) (xs : List A) (i : ℕ) {y : A}
      → Above a xs
      → get_elem? xs i ≡ some y
      → cmp a y ≡ Ordering.lt
  Above-get_elem? a [] i h e = cc
  Above-get_elem? a (x ∷ xs) zero h e = ground arith
  Above-get_elem? a (x ∷ xs) (suc i) h e = Above-get_elem? a xs i h.1 e

  pub lt-rank :
      (s : A) (xs : List A) (i : ℕ) {y : A}
      → Increasing xs
      → get_elem? xs i ≡ some y
      → cmp s y ≡ Ordering.gt
      → i < rank s xs
  lt-rank s [] i inc e h = cc
  lt-rank s (x ∷ xs) zero inc e h = ground arith
  lt-rank s (x ∷ xs) (suc i) {y} inc e h =
      ground (arith, lt-rank s xs i inc.1 e h, Above-get_elem? x xs i inc.0 e, le_lt_trans o s x y)

  -- An element that compares equal marks the rank.
  pub rank_at :
      (s : A) (xs : List A) (i : ℕ) {t : A}
      → Increasing xs
      → get_elem? xs i ≡ some t
      → cmp s t ≡ Ordering.eq
      → rank s xs ≡ i
  rank_at s [] i inc e h = cc
  rank_at s (x ∷ xs) zero inc e h = ground arith
  rank_at s (x ∷ xs) (suc i) {t} inc e h = ground (
    arith,
    rank_at s xs i inc.1 e h,
    Above-get_elem? x xs i inc.0 e,
    eq_left s t x h,
    gt_of_lt o x t,
  )

  -- The comparison of `s` with the element at an index; `eq` past the end.
  abbrev pub compared : A → List A → ℕ → Ordering
  compared s xs i = elim (get_elem? xs i) [ none ↦ Ordering.eq | some t ↦ cmp s t ]

  pub compared-rank :
      (s : A) (xs : List A) (i : ℕ)
      → Increasing xs
      → i < length xs
      → (compared s xs i ≡ Ordering.eq → rank s xs ≡ i)
        × (compared s xs i ≡ Ordering.lt → rank s xs ≤ i)
        × (compared s xs i ≡ Ordering.gt → i < rank s xs)
  compared-rank s xs i inc h =
      let (t, e) = get_elem?_total xs i h in
      (
        (λ c. rank_at s xs i inc e (ground (arith, e, c))),
        (λ c. rank-le s xs i e (λ g. ground (arith, e, c, g))),
        (λ c. lt-rank s xs i inc e (ground (arith, e, c))),
      )

  pub contains-compared :
      (s : A) (xs : List A)
      → contains s xs ≡ true
      → (rank s xs < length xs) × (compared s xs (rank s xs) ≡ Ordering.eq)
  contains-compared s [] h = cc
  contains-compared s (x ∷ xs) h = ground (arith, contains-compared s xs)

  pub contains_at :
      (s : A) (xs : List A) (i : ℕ)
      → Increasing xs
      → i < length xs
      → compared s xs i ≡ Ordering.eq
      → contains s xs ≡ true
  contains_at s [] i inc h e = elim h [ ]
  contains_at s (x ∷ xs) zero inc h e = ground arith
  contains_at s (x ∷ xs) (suc i) inc h e =
      ground (arith, contains_at s xs i inc.1, (compared-rank s (x ∷ xs) (suc i) inc h).0 e)

  pub insert_at-rank : (s : A) (xs : List A) → insert_at (rank s xs) s xs ≡ insert_sorted s xs
  insert_at-rank s [] = refl
  insert_at-rank s (x ∷ xs) = ground (arith, insert_at-rank s xs)

  Above-insert_sorted :
      (a s : A) (xs : List A) → cmp a s ≡ Ordering.lt → Above a xs → Above a (insert_sorted s xs)
  Above-insert_sorted a s [] h k = (h, tt)
  Above-insert_sorted a s (x ∷ xs) h k = ground (arith, Above-insert_sorted a s xs h k.1)

  pub insert_sorted-Increasing :
      (s : A) (xs : List A)
      → Increasing xs
      → contains s xs ≡ false
      → Increasing (insert_sorted s xs)
  insert_sorted-Increasing s [] inc h = (tt, tt)
  insert_sorted-Increasing s (x ∷ xs) inc h = ground (
    arith,
    insert_sorted-Increasing s xs inc.1,
    Above-insert_sorted x s xs,
    cmp_flip s x,
    Above-trans s x xs,
  )
