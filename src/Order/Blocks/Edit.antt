-- ===== src/Order/Blocks/Edit.antt =====
-- Insertion into and removal from the block that the rank of an element names.
use mathlib.Core.Option.{some-injective}
use scriba.Prelude.{
  ℕ, zero, suc, ◌≡◌, refl, sym, ◌∙◌, ap, ◌≢◌, Ordering, List, [], ◌∷◌, ◌++◌, some, arith, true,
  false, length, get_elem?, set, insert_at, erase_at, flatten,
}
use scriba.Order.{TotalOrder, le_lt_trans}
use scriba.Order.Rank.{Above, Increasing, rank, insert_sorted, insert_at-rank, remove, contains}
use scriba.Order.Blocks.{NonEmpty, last, lasts, Increasing-split}

module _ {ℓ} {A : Type ℓ} (o : TotalOrder A) (s : A) where
  open o use {cmp}

  -- A block whose last element is not below `s` takes the insertion.
  insert_sorted-within :
      (x : A) (xs ys : List A)
      → cmp s (last x xs) ≢ Ordering.gt
      → insert_sorted o s ((x ∷ xs) ++ ys) ≡ insert_sorted o s (x ∷ xs) ++ ys
  insert_sorted-within x [] ys h = ground arith
  insert_sorted-within x (y ∷ xs) ys h = ground (arith, insert_sorted-within y xs ys h)

  pub head_below :
      (x : A) (xs : List A)
      → Increasing o (x ∷ xs)
      → cmp s (last x xs) ≡ Ordering.gt
      → cmp s x ≡ Ordering.gt
  head_below x [] inc h = h
  head_below x (y ∷ xs) inc h = le_lt_trans o s x (last y xs) (above_last x y xs inc.0) h
    where
      above_last : (a y : A) (ys : List A) → Above o a (y ∷ ys) → cmp a (last y ys) ≡ Ordering.lt
      above_last a y [] k = k.0
      above_last a y (z ∷ zs) k = above_last a z zs k.1

  -- A block below `s` is passed over.
  insert_sorted-past :
      (x : A) (xs ys : List A)
      → Increasing o (x ∷ xs)
      → cmp s (last x xs) ≡ Ordering.gt
      → insert_sorted o s ((x ∷ xs) ++ ys) ≡ (x ∷ xs) ++ insert_sorted o s ys
  insert_sorted-past x [] ys inc h = ground arith
  insert_sorted-past x (y ∷ xs) ys inc h =
      ground (arith, head_below x (y ∷ xs) inc h, insert_sorted-past y xs ys inc.1 h)

  pub insert_block :
      (ls : List (List A)) (i : ℕ) {l : List A}
      → NonEmpty ls
      → Increasing o (flatten ls)
      → get_elem? ls i ≡ some l
      → rank o s (lasts ls) ≡ i
      → flatten (set ls i (insert_at (rank o s l) s l)) ≡ insert_sorted o s (flatten ls)
  insert_block [] i n inc e r = cc
  insert_block ([] ∷ ls) i n inc e r = absurd n
  insert_block ((x ∷ xs) ∷ ls) zero {l} n inc e r =
      rw (← some-injective _ _ e, insert_at-rank o s (x ∷ xs))
        (sym (insert_sorted-within x xs (flatten ls) (ground arith)))
  insert_block ((x ∷ xs) ∷ ls) (suc i) {l} n inc e r =
      let (a, b) = Increasing-split o (x ∷ xs) (flatten ls) inc in
      ap (◌++◌ (x ∷ xs)) (insert_block ls i n b e (ground arith))
      ∙ sym (insert_sorted-past x xs (flatten ls) a (ground arith))

  remove-within :
      (x : A) (xs ys : List A)
      → cmp s (last x xs) ≢ Ordering.gt
      → remove o s ((x ∷ xs) ++ ys) ≡ remove o s (x ∷ xs) ++ ys
  remove-within x [] ys h = ground arith
  remove-within x (y ∷ xs) ys h = ground (arith, remove-within y xs ys h)

  remove-past :
      (x : A) (xs ys : List A)
      → Increasing o (x ∷ xs)
      → cmp s (last x xs) ≡ Ordering.gt
      → remove o s ((x ∷ xs) ++ ys) ≡ (x ∷ xs) ++ remove o s ys
  remove-past x [] ys inc h = ground arith
  remove-past x (y ∷ xs) ys inc h =
      ground (arith, head_below x (y ∷ xs) inc h, remove-past y xs ys inc.1 h)

  pub erase_at-rank :
      (xs : List A) → contains o s xs ≡ true → erase_at (rank o s xs) xs ≡ remove o s xs
  erase_at-rank [] h = refl
  erase_at-rank (x ∷ xs) h = ground (arith, erase_at-rank xs)

  pub remove_block :
      (ls : List (List A)) (i : ℕ) {l : List A}
      → NonEmpty ls
      → Increasing o (flatten ls)
      → get_elem? ls i ≡ some l
      → rank o s (lasts ls) ≡ i
      → flatten (set ls i (remove o s l)) ≡ remove o s (flatten ls)
  remove_block [] i n inc e r = cc
  remove_block ([] ∷ ls) i n inc e r = absurd n
  remove_block ((x ∷ xs) ∷ ls) zero {l} n inc e r =
      rw (← some-injective _ _ e) (sym (remove-within x xs (flatten ls) (ground arith)))
  remove_block ((x ∷ xs) ∷ ls) (suc i) {l} n inc e r =
      let (a, b) = Increasing-split o (x ∷ xs) (flatten ls) inc in
      ap (◌++◌ (x ∷ xs)) (remove_block ls i n b e (ground arith))
      ∙ sym (remove-past x xs (flatten ls) a (ground arith))

  contains-within :
      (x : A) (xs ys : List A)
      → cmp s (last x xs) ≢ Ordering.gt
      → contains o s ((x ∷ xs) ++ ys) ≡ contains o s (x ∷ xs)
  contains-within x [] ys h = ground arith
  contains-within x (y ∷ xs) ys h = ground (arith, contains-within y xs ys h)

  contains-past :
      (x : A) (xs ys : List A)
      → Increasing o (x ∷ xs)
      → cmp s (last x xs) ≡ Ordering.gt
      → contains o s ((x ∷ xs) ++ ys) ≡ contains o s ys
  contains-past x [] ys inc h = ground arith
  contains-past x (y ∷ xs) ys inc h =
      ground (arith, head_below x (y ∷ xs) inc h, contains-past y xs ys inc.1 h)

  -- An element is in the whole exactly when it is in the block that its rank names.
  pub contains_block :
      (ls : List (List A)) (i : ℕ) {l : List A}
      → NonEmpty ls
      → Increasing o (flatten ls)
      → get_elem? ls i ≡ some l
      → rank o s (lasts ls) ≡ i
      → contains o s (flatten ls) ≡ contains o s l
  contains_block [] i n inc e r = cc
  contains_block ([] ∷ ls) i n inc e r = absurd n
  contains_block ((x ∷ xs) ∷ ls) zero {l} n inc e r =
      contains-within x xs (flatten ls) (ground arith) ∙ ap (contains o s) (some-injective _ _ e)
  contains_block ((x ∷ xs) ∷ ls) (suc i) {l} n inc e r =
      let (a, b) = Increasing-split o (x ∷ xs) (flatten ls) inc in
      contains-past x xs (flatten ls) a (ground arith) ∙ contains_block ls i n b e (ground arith)

  -- An element above every block is in none.
  pub contains_above :
      (ls : List (List A))
      → NonEmpty ls
      → Increasing o (flatten ls)
      → rank o s (lasts ls) ≡ length ls
      → contains o s (flatten ls) ≡ false
  contains_above [] n inc r = refl
  contains_above ([] ∷ ls) n inc r = absurd n
  contains_above ((x ∷ xs) ∷ ls) n inc r =
      let (a, b) = Increasing-split o (x ∷ xs) (flatten ls) inc in
      contains-past x xs (flatten ls) a (ground arith) ∙ contains_above ls n b (ground arith)
