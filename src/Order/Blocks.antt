-- ===== src/Order/Blocks.antt =====
-- An increasing sequence cut into non-empty blocks, as the lines of a document are.
pub mod Cut
pub mod Edit
pub mod Full
pub mod Last
pub mod Offset
use mathlib.Core.Option.{some-injective}
use scriba.Prelude.{
  subst, ℕ, zero, suc, ◌+◌, ◌-◌, ◌≤◌, ◌<◌, ◌≡◌, refl, sym, ◌∙◌, ap, ◌≢◌, ◌⊎◌, inl, inr, Ordering,
  List, [], ◌∷◌, ◌++◌, none, some, Option, arith, length, get_elem?, get_last?, set, insert_at,
  flatten,
}
use scriba.Order.{TotalOrder, gt_of_lt, gt_trans, le_lt_trans}
use scriba.Order.Rank.{
  All, All-split, Above, Increasing, rank, rank-le-length, compared, compared-rank, insert_sorted,
  Above-trans, insert_at-rank, remove, contains,
}

module _ {ℓ} {A : Type ℓ} where
  abbrev pub NonEmpty : List (List A) → Type 0
  NonEmpty [] = Unit
  NonEmpty ([] ∷ ls) = ⊥
  NonEmpty ((x ∷ xs) ∷ ls) = NonEmpty ls

  abbrev pub last : A → List A → A
  last x [] = x
  last x (y ∷ ys) = last y ys

  -- The last element of each block.
  abbrev pub lasts : List (List A) → List A
  lasts [] = []
  lasts ([] ∷ ls) = lasts ls
  lasts ((x ∷ xs) ∷ ls) = last x xs ∷ lasts ls

  pub get_last?-last : (x : A) (xs : List A) → get_last? (x ∷ xs) ≡ some (last x xs)
  get_last?-last x [] = refl
  get_last?-last x (y ∷ ys) = get_last?-last y ys

  pub get_elem?-last : (x : A) (xs : List A) → get_elem? (x ∷ xs) (length xs) ≡ some (last x xs)
  get_elem?-last x [] = refl
  get_elem?-last x (y ∷ ys) = get_elem?-last y ys

  pub length-lasts : (ls : List (List A)) → NonEmpty ls → length (lasts ls) ≡ length ls
  length-lasts [] n = refl
  length-lasts ([] ∷ ls) n = absurd n
  length-lasts ((x ∷ xs) ∷ ls) n = ap suc (length-lasts ls n)

  -- A block at an index, with its head and tail.
  abbrev pub Block : List (List A) → ℕ → Type ℓ
  Block ls i =
      (x : A) × (xs : List A) × (get_elem? ls i ≡ some (x ∷ xs))
      × (get_elem? (lasts ls) i ≡ some (last x xs))

  pub row_of_index : (ls : List (List A)) (i : ℕ) → NonEmpty ls → i < length ls → Block ls i
  row_of_index [] i n h = elim h [ ]
  row_of_index ([] ∷ ls) i n h = absurd n
  row_of_index ((x ∷ xs) ∷ ls) zero n h = (x, xs, refl, refl)
  row_of_index ((x ∷ xs) ∷ ls) (suc i) n h = row_of_index ls i n (omega arith)

module _ {ℓ} {A : Type ℓ} (o : TotalOrder A) where
  open o use {cmp, lt_trans}

  pub Increasing-split :
      (xs ys : List A) → Increasing o (xs ++ ys) → Increasing o xs × Increasing o ys
  Increasing-split [] ys h = (tt, h)
  Increasing-split (x ∷ xs) ys h =
      let (a, b) = Increasing-split xs ys h.1 in
      (((All-split (λ y. cmp x y ≡ Ordering.lt) xs ys h.0).0, a), b)

  pub Above-last : (x : A) (xs ys : List A) → Increasing o ((x ∷ xs) ++ ys) → Above o (last x xs) ys
  Above-last x [] ys h = h.0
  Above-last x (y ∷ xs) ys h = Above-last y xs ys h.1

  Above-lasts : (a : A) (ls : List (List A)) → Above o a (flatten ls) → Above o a (lasts ls)
  Above-lasts a [] h = tt
  Above-lasts a ([] ∷ ls) h = Above-lasts a ls h
  Above-lasts a ((x ∷ xs) ∷ ls) h =
      let (l, r) = All-split (λ y. cmp a y ≡ Ordering.lt) (x ∷ xs) (flatten ls) h in
      (Above-of_last a x xs l, Above-lasts a ls r)
    where
      Above-of_last :
          (b : A) (y : A) (ys : List A) → Above o b (y ∷ ys) → cmp b (last y ys) ≡ Ordering.lt
      Above-of_last b y [] k = k.0
      Above-of_last b y (z ∷ zs) k = Above-of_last b z zs k.1

  pub lasts-Increasing : (ls : List (List A)) → Increasing o (flatten ls) → Increasing o (lasts ls)
  lasts-Increasing [] h = tt
  lasts-Increasing ([] ∷ ls) h = lasts-Increasing ls h
  lasts-Increasing ((x ∷ xs) ∷ ls) h = (
    Above-lasts (last x xs) ls (Above-last x xs (flatten ls) h),
    lasts-Increasing ls (Increasing-split (x ∷ xs) (flatten ls) h).1,
  )

  pub block-Increasing :
      (ls : List (List A)) (i : ℕ) {l : List A}
      → Increasing o (flatten ls)
      → get_elem? ls i ≡ some l
      → Increasing o l
  block-Increasing [] i inc e = cc
  block-Increasing (m ∷ ls) zero inc e =
      subst (Increasing o) (some-injective _ _ e) (Increasing-split m (flatten ls) inc).0
  block-Increasing (m ∷ ls) (suc i) inc e =
      block-Increasing ls i (Increasing-split m (flatten ls) inc).1 e

  -- An element that is not above the head of a block is not above its last element.
  pub head-le-last :
      (s x : A) (xs : List A)
      → Increasing o (x ∷ xs)
      → cmp s x ≢ Ordering.gt
      → cmp s (last x xs) ≢ Ordering.gt
  head-le-last s x [] inc h = h
  head-le-last s x (y ∷ xs) inc h =
      head-le-last s y xs inc.1 (λ g. h (le_lt_trans o s x y inc.0.0 g))
