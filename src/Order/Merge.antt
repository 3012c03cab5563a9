-- ===== src/Order/Merge.antt =====
-- Sorted insertion of several elements: the order of two insertions does not matter.
use scriba.Prelude.{refl, ◌<◌, ◌≡◌, ◌≢◌, Ordering, List, [], ◌∷◌, true, false, arith, length}
use scriba.Order.{TotalOrder, le_lt_trans, cmp_self}
use scriba.Order.Rank.{rank, insert_sorted, contains, remove, Above, Increasing}

module _ {ℓ} {A : Type ℓ} (o : TotalOrder A) where
  open o use {cmp, cmp_flip, lt_trans, eq_left}

  pub insert_sorted_comm :
      (s t : A) (xs : List A)
      → cmp s t ≢ Ordering.eq
      → insert_sorted o s (insert_sorted o t xs) ≡ insert_sorted o t (insert_sorted o s xs)
  insert_sorted_comm s t [] h = ground (arith, cmp_flip s t)
  insert_sorted_comm s t (x ∷ xs) h = ground (
    arith,
    insert_sorted_comm s t xs h,
    cmp_flip s t,
    le_lt_trans o s x t,
    le_lt_trans o t x s,
    cmp_flip s x,
    cmp_flip t x,
  )

  pub contains-insert_sorted :
      (s t : A) (xs : List A)
      → cmp t s ≢ Ordering.eq
      → contains o t xs ≡ false
      → contains o t (insert_sorted o s xs) ≡ false
  contains-insert_sorted s t [] h k = ground arith
  contains-insert_sorted s t (x ∷ xs) h k = ground (arith, contains-insert_sorted s t xs h)

  pub rank-insert_sorted :
      (s t : A) (xs : List A)
      → rank o t xs < length xs
      → rank o t (insert_sorted o s xs) < length (insert_sorted o s xs)
  rank-insert_sorted s t [] h = elim h [ ]
  rank-insert_sorted s t (x ∷ xs) h = ground (arith, rank-insert_sorted s t xs)

  -- Removal takes back an insertion.
  pub remove-insert_sorted :
      (s : A) (xs : List A)
      → contains o s xs ≡ false
      → (contains o s (insert_sorted o s xs) ≡ true) × (remove o s (insert_sorted o s xs) ≡ xs)
  remove-insert_sorted s [] h = ground (arith, cmp_self o s)
  remove-insert_sorted s (x ∷ xs) h = ground (arith, cmp_self o s, remove-insert_sorted s xs)

  Above-remove : (a s : A) (xs : List A) → Above o a xs → Above o a (remove o s xs)
  Above-remove a s [] h = tt
  Above-remove a s (x ∷ xs) h = ground (arith, Above-remove a s xs)

  -- Removal keeps the order.
  pub remove-Increasing : (s : A) (xs : List A) → Increasing o xs → Increasing o (remove o s xs)
  remove-Increasing s [] h = tt
  remove-Increasing s (x ∷ xs) h = ground (arith, remove-Increasing s xs, Above-remove x s xs)

  -- What is not there is not removed.
  pub remove-absent : (s : A) (xs : List A) → contains o s xs ≡ false → remove o s xs ≡ xs
  remove-absent s [] h = refl
  remove-absent s (x ∷ xs) h = ground (arith, h, remove-absent s xs)
