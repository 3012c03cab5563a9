-- ===== src/Crdt/Position/Spec.antt =====
-- What generatePositionBetween is asked for: positions, what lies between two of them, and when
-- the code has to refuse.
use scriba.Prelude.{
  ℕ, zero, suc, ◌<◌, ◌≡◌, refl, ◌≢◌, ◌⊎◌, Ordering, Bool, true, false, List, [], ◌∷◌, ◌++◌, drop,
  if◌then◌else◌, Outcome, ok, throws,
}
use scriba.Prelude.Int.{ℤ, pos, pos_part, neg_part, ltb_ℤ, ◌==ℤ◌}
use scriba.Symbol.{Identifier, compare_identifier, compare_position}
use scriba.Crdt.Position.{Entropy, identifier_at}

abbrev pub InRange : Identifier → Type 0
InRange i = (neg_part i.digit ≡ 0) × (pos_part i.digit < 32)

-- Digits lie in 0..31 and the last one is not 0. The empty position stands for an end of the
-- document.
abbrev pub IsPosition : List Identifier → Type 0
IsPosition [] = Unit
IsPosition (x ∷ xs) = InRange x × (xs ≡ [] → 0 < pos_part x.digit) × IsPosition xs

-- The new position below `q` would have to go through an identifier with digit 0 of a site
-- smaller than `me`.
unfoldable pub clashes : ℤ → List Identifier → List Identifier → Bool
clashes me p [] = false
clashes me [] (y ∷ ys) =
    if y.digit ==ℤ pos 0
    then (if ltb_ℤ y.site me then true else if y.site ==ℤ me then clashes me [] ys else false)
    else false
clashes me (x ∷ xs) (y ∷ ys) = elim (compare_identifier x y) [
  | Ordering.eq ↦ clashes me xs ys
  | Ordering.lt ↦ false
  | Ordering.gt ↦ false
]

-- An empty second position is no bound.
abbrev pub IsBelow : List Identifier → List Identifier → Type 0
IsBelow p q = (q ≡ []) ⊎ (compare_position p q ≡ Ordering.lt)

abbrev pub IsBetween : List Identifier → List Identifier → List Identifier → Type 0
IsBetween p q z = (z ≢ []) × IsPosition z × (compare_position p z ≡ Ordering.lt) × IsBelow z q

-- The two ways in which a call can end: at a clash it throws, otherwise it returns.
abbrev pub Generates :
    ℤ
    → List Identifier
    → List Identifier
    → List Identifier
    → Outcome (List Identifier × Entropy)
    → Type 0
Generates me p q new_pos r =
    ((clashes me p q ≡ true) × (r ≡ throws "Invalid ordering"))
    ⊎ ((clashes me p q ≡ false)
        × ((z : List Identifier) × (e : Entropy) × (r ≡ ok (new_pos ++ z, e)) × IsBetween p q z))

abbrev pub head_or : Identifier → List Identifier → Identifier
head_or d [] = d
head_or d (x ∷ xs) = x

abbrev pub tail : List Identifier → List Identifier
tail [] = []
tail (x ∷ xs) = xs

pub identifier_at-drop :
    (p : List Identifier) (level : ℕ) (d : Identifier)
    → identifier_at p level d ≡ head_or d (drop level p)
unfolding identifier_at
identifier_at-drop [] zero d = refl
identifier_at-drop [] (suc n) d = refl
identifier_at-drop (x ∷ p) zero d = refl
identifier_at-drop (x ∷ p) (suc n) d = identifier_at-drop p n d

pub drop-suc : (p : List Identifier) (level : ℕ) → drop (suc level) p ≡ tail (drop level p)
drop-suc [] zero = refl
drop-suc [] (suc n) = refl
drop-suc (x ∷ p) zero = refl
drop-suc (x ∷ p) (suc n) = drop-suc p n
