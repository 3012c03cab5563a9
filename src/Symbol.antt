-- ===== src/Symbol.antt =====
-- Utility/symbol.h: identifiers, formats and symbols. An `int` is an integer (its overflow is left
-- to the code that computes); the enum Alignment is kept as the int behind it, as it is cast from
-- JSON and from the stream; an unset format holds whatever memory held, the argument `raw`.
pub mod Compare
pub mod Print
pub mod Json
pub mod Stream
use scriba.Prelude.{
  ℕ, ◌≡◌, Ordering, Bool, String, List, [], ◌∷◌, if◌then◌else◌, Option, none, some,
}
use scriba.Prelude.Int.{ℤ, pos, ltb_ℤ}

pub record Identifier : Type 0 where
  pub digit : ℤ
  pub site : ℤ

-- Identifier::compare; -1, 0 and 1 are `lt`, `eq` and `gt`.
unfoldable pub compare_identifier : Identifier → Identifier → Ordering
compare_identifier i1 i2 =
    if ltb_ℤ i1.digit i2.digit
    then Ordering.lt
    else if ltb_ℤ i2.digit i1.digit
    then Ordering.gt
    else if ltb_ℤ i1.site i2.site
    then Ordering.lt
    else if ltb_ℤ i2.site i1.site
    then Ordering.gt
    else Ordering.eq

abbrev pub align_left : ℤ
align_left = pos 0

abbrev pub align_right : ℤ
align_right = pos 1

abbrev pub align_center : ℤ
align_center = pos 2

pub record SymbolFormat : Type 0 where
  pub align : ℤ
  pub italic : Bool
  pub bold : Bool
  pub underline : Bool
  pub font : String
  pub size : ℤ
  pub color : String

pub record Symbol : Type 0 where
  pub value : ℕ
  pub position : List Identifier
  pub counter : ℤ
  pub format : SymbolFormat

-- What the code reads of a QFont; of a QColor it reads the name.
pub record Font : Type 0 where
  pub italic : Bool
  pub bold : Bool
  pub underline : Bool
  pub point_size : ℤ
  pub family : String

-- Symbol::setFormat, and the body of the constructor that takes a font and a colour.
unfoldable pub set_format : Symbol → Font → String → Symbol
set_format s font color = record s {
  format = record s.format {
    italic = font.italic;
    bold = font.bold;
    underline = font.underline;
    size = font.point_size;
    font = font.family;
    color = color;
  };
}

unfoldable pub make_symbol : SymbolFormat → ℕ → List Identifier → ℤ → Font → String → Symbol
unfolding set_format
make_symbol raw value position counter font color =
    set_format (record { value = value; position = position; counter = counter; format = raw }) font
      color

unfoldable pub set_alignment : Symbol → ℤ → Symbol
set_alignment s a = record s { format = record s.format { align = a } }

-- Symbol::compare on the positions: the first identifiers that differ, then the lengths.
unfoldable pub compare_position : List Identifier → List Identifier → Ordering
compare_position [] [] = Ordering.eq
compare_position [] (y ∷ ys) = Ordering.lt
compare_position (x ∷ xs) [] = Ordering.gt
compare_position (x ∷ xs) (y ∷ ys) = elim (compare_identifier x y) [
  | Ordering.eq ↦ compare_position xs ys
  | Ordering.lt ↦ Ordering.lt
  | Ordering.gt ↦ Ordering.gt
]

unfoldable pub compare : Symbol → Symbol → Ordering
compare s1 s2 = compare_position s1.position s2.position

-- Symbol::getUsername: the site of the last identifier.
unfoldable pub last_site : List Identifier → Option ℤ
last_site [] = none
last_site (i ∷ []) = some i.site
last_site (i ∷ j ∷ rest) = last_site (j ∷ rest)
