-- ===== src/Order/Blocks/Last.antt =====
-- The rank among the blocks' last elements against the rank in the whole sequence.
use scriba.Prelude.{
  ◌+◌, ◌≡◌, refl, Ordering, List, [], ◌∷◌, ◌++◌, arith, length, flatten, length-append,
}
use scriba.Order.{TotalOrder}
use scriba.Order.Rank.{Increasing, rank}
use scriba.Order.Blocks.{NonEmpty, last, lasts, Increasing-split}
use scriba.Order.Blocks.Edit.{head_below}

module _ {ℓ} {A : Type ℓ} (o : TotalOrder A) (s : A) where
  open o use {cmp}

  rank-past :
      (x : A) (xs ys : List A)
      → Increasing o (x ∷ xs)
      → cmp s (last x xs) ≡ Ordering.gt
      → rank o s ((x ∷ xs) ++ ys) ≡ length (x ∷ xs) + rank o s ys
  rank-past x [] ys inc h = ground arith
  rank-past x (y ∷ xs) ys inc h =
      ground (arith, head_below o s x (y ∷ xs) inc h, rank-past y xs ys inc.1 h)

  -- An element above every block's last element is above the whole sequence.
  pub rank-flatten :
      (ls : List (List A))
      → NonEmpty ls
      → Increasing o (flatten ls)
      → rank o s (lasts ls) ≡ length ls
      → rank o s (flatten ls) ≡ length (flatten ls)
  rank-flatten [] n inc r = refl
  rank-flatten ([] ∷ ls) n inc r = absurd n
  rank-flatten ((x ∷ xs) ∷ ls) n inc r =
      let (a, b) = Increasing-split o (x ∷ xs) (flatten ls) inc in
      ground (
        arith,
        rank-past x xs (flatten ls) a,
        rank-flatten ls n b,
        length-append (x ∷ xs) (flatten ls),
      )
