-- ===== src/Order.antt =====
-- The order that Symbol::compare and Identifier::compare promise: a three-way comparison whose
-- `eq` is a congruence (symbols at one position may differ in value and format).
pub mod Rank
pub mod Merge
pub mod Bisect
pub mod Blocks
use scriba.Prelude.{◌≡◌, refl, sym, ◌∙◌, Ordering, arith}

abbrev pub flip : Ordering → Ordering
flip Ordering.lt = Ordering.gt
flip Ordering.eq = Ordering.eq
flip Ordering.gt = Ordering.lt

pub record TotalOrder {ℓ} (A : Type ℓ) : Type ℓ where
  pub cmp : A → A → Ordering
  pub cmp_flip : (a b : A) → cmp b a ≡ flip (cmp a b)
  pub lt_trans : (a b c : A) → cmp a b ≡ Ordering.lt → cmp b c ≡ Ordering.lt → cmp a c ≡ Ordering.lt
  pub eq_left : (a b c : A) → cmp a b ≡ Ordering.eq → cmp a c ≡ cmp b c

module _ {ℓ} {A : Type ℓ} (o : TotalOrder A) where
  open o use {cmp, cmp_flip, lt_trans, eq_left}

  pub cmp_self : (a : A) → cmp a a ≡ Ordering.eq
  cmp_self a = ground (arith, cmp_flip a a)

  pub gt_of_lt : (a b : A) → cmp a b ≡ Ordering.lt → cmp b a ≡ Ordering.gt
  gt_of_lt a b h = ground (arith, cmp_flip a b)

  pub gt_trans : (a b c : A) → cmp a b ≡ Ordering.gt → cmp b c ≡ Ordering.gt → cmp a c ≡ Ordering.gt
  gt_trans a b c h k = ground (arith, cmp_flip a b, cmp_flip b c, cmp_flip a c, lt_trans c b a)

  -- A comparison that is not `gt` stays so at a greater bound.
  pub le_lt_trans :
      (a b c : A) → cmp b c ≡ Ordering.lt → cmp a c ≡ Ordering.gt → cmp a b ≡ Ordering.gt
  le_lt_trans a b c h k = gt_trans a c b k (gt_of_lt b c h)

  pub eq_right : (a b c : A) → cmp a b ≡ Ordering.eq → cmp c a ≡ cmp c b
  eq_right a b c h = ground (arith, cmp_flip a c, cmp_flip b c, eq_left a b c)
