-- ===== src/Order/Blocks/Full.antt =====
-- Edits of the list of blocks that leave no block empty.
use scriba.Prelude.{
  get_elem?, some, ◌≡◌, ◌++◌, length, ◌<◌, zero, suc, refl, ◌≢◌, ℕ, List, [], ◌∷◌, set, insert_at,
  erase_at,
}
use scriba.Order.Blocks.{NonEmpty}

module _ {ℓ} {A : Type ℓ} where
  pub NonEmpty-set :
      (ls : List (List A)) (i : ℕ) (l : List A) → NonEmpty ls → l ≢ [] → NonEmpty (set ls i l)
  NonEmpty-set [] i l n h = tt
  NonEmpty-set ([] ∷ ls) i l n h = absurd n
  NonEmpty-set ((x ∷ xs) ∷ ls) zero [] n h = absurd (h refl)
  NonEmpty-set ((x ∷ xs) ∷ ls) zero (y ∷ ys) n h = n
  NonEmpty-set ((x ∷ xs) ∷ ls) (suc i) l n h = NonEmpty-set ls i l n h

  pub NonEmpty-insert_at :
      (ls : List (List A)) (i : ℕ) (l : List A) → NonEmpty ls → l ≢ [] → NonEmpty (insert_at i l ls)
  NonEmpty-insert_at ls zero [] n h = absurd (h refl)
  NonEmpty-insert_at ls zero (y ∷ ys) n h = n
  NonEmpty-insert_at [] (suc i) [] n h = absurd (h refl)
  NonEmpty-insert_at [] (suc i) (y ∷ ys) n h = tt
  NonEmpty-insert_at ([] ∷ ls) (suc i) l n h = absurd n
  NonEmpty-insert_at ((x ∷ xs) ∷ ls) (suc i) l n h = NonEmpty-insert_at ls i l n h

  pub NonEmpty-erase_at : (ls : List (List A)) (i : ℕ) → NonEmpty ls → NonEmpty (erase_at i ls)
  NonEmpty-erase_at [] i n = tt
  NonEmpty-erase_at ([] ∷ ls) i n = absurd n
  NonEmpty-erase_at ((x ∷ xs) ∷ ls) zero n = n
  NonEmpty-erase_at ((x ∷ xs) ∷ ls) (suc i) n = NonEmpty-erase_at ls i n

  pub block-ne_nil :
      (ls : List (List A)) (i : ℕ) {l : List A} → NonEmpty ls → get_elem? ls i ≡ some l → l ≢ []
  block-ne_nil [] i n e k = cc
  block-ne_nil ([] ∷ ls) i n e k = absurd n
  block-ne_nil ((x ∷ xs) ∷ ls) zero n e k = cc
  block-ne_nil ((x ∷ xs) ∷ ls) (suc i) n e k = block-ne_nil ls i n e k

  pub append-ne_nil : (a b : List A) → b ≢ [] → a ++ b ≢ []
  append-ne_nil [] b h e = h e
  append-ne_nil (x ∷ a) b h e = cc

  pub erase_at-ne_nil : (i : ℕ) (l : List A) → length l ≢ 1 → i < length l → erase_at i l ≢ []
  erase_at-ne_nil i [] h k e = elim k [ ]
  erase_at-ne_nil i (x ∷ []) h k e = absurd (h refl)
  erase_at-ne_nil zero (x ∷ y ∷ l) h k e = cc
  erase_at-ne_nil (suc i) (x ∷ y ∷ l) h k e = cc
