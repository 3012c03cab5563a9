-- ===== src/Qt.antt =====
-- What the source takes from Qt: operations on QString that are given by arguments, QMap and QJson
-- values. A QString is a text; a null one is the empty one, as the code only asks isEmpty.
use Prim.Native.String.{String}
use text.Mathlib.Text.{◌==◌}
use text.Mathlib.TextEquality.{eq_iff}
use scriba.Prelude.{
  ℕ, ◌≡◌, refl, Bool, true, false, List, [], ◌∷◌, Option, none, some, arith, if◌then◌else◌,
}
use scriba.Prelude.Int.{ℤ}

-- simplified(), compare with Qt::CaseInsensitive equal to 0, operator<, and the two sides of the
-- last comma: left(pos) and right(length - pos - 1); QString(1, c), at(0).unicode() where there is
-- one, and QString::number.
pub record Text : Type 0 where
  pub simplified : String → String
  pub same_word : String → String → Bool
  pub less : String → String → Bool
  pub split_last : String → String × String
  pub one_char : ℕ → String
  pub first_unit : String → Option ℕ
  pub decimal : ℤ → String

abbrev pub same : String → String → Bool
same a b = a == b

abbrev pub is_empty : String → Bool
is_empty s = s == ""

-- QMap: keys in the order of operator<.
module _ {ℓ} {V : Type ℓ} where
  abbrev pub find : String → List (String × V) → Option V
  find k [] = none
  find k ((j, v) ∷ m) = if j == k then some v else find k m

  abbrev pub has : String → List (String × V) → Bool
  has k m = elim (find k m) [ none ↦ false | some _ ↦ true ]

  abbrev pub put : (String → String → Bool) → String → V → List (String × V) → List (String × V)
  put less k v [] = (k, v) ∷ []
  put less k v ((j, w) ∷ m) =
      if j == k
      then (k, v) ∷ m
      else if less k j
      then (k, v) ∷ (j, w) ∷ m
      else (j, w) ∷ put less k v m

  abbrev pub erase_key : String → List (String × V) → List (String × V)
  erase_key k [] = []
  erase_key k ((j, v) ∷ m) = if j == k then erase_key k m else (j, v) ∷ erase_key k m

  pub find-put :
      (less : String → String → Bool) (k j : String) (v : V) (m : List (String × V))
      → find j (put less k v m) ≡ (if k == j then some v else find j m)
  find-put less k j v [] = refl
  find-put less k j v ((i, w) ∷ m) =
      ground (arith, eq_iff k j, eq_iff i k, eq_iff i j, find-put less k j v m)

  pub find-erase_key :
      (k j : String) (m : List (String × V))
      → find j (erase_key k m) ≡ (if k == j then none else find j m)
  find-erase_key k j [] = ground arith
  find-erase_key k j ((i, w) ∷ m) =
      ground (arith, eq_iff k j, eq_iff i k, eq_iff i j, find-erase_key k j m)
