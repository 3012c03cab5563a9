-- ===== src/Examples/Texts.antt =====
-- A text of three characters in two colours.
use Prim.Native.String.{String}
use scriba.Prelude.{
  Bool, not, ◌&&◌, arith, ℕ, ◌≡◌, List, [], ◌∷◌, map, refl, true, false, ◌+◌, get_elem?, some, ◌==◌,
}
use scriba.Prelude.Int.{◌==ℤ◌, eq_of_parts}
use scriba.Qt.{same}
use text.Mathlib.TextEquality.{eq_iff}
use scriba.Symbol.{Font}
use scriba.Editor.{Glyph, Widget, groups}
use scriba.Editor.Groups.{Exact, styled, expand, expand-groups}
use scriba.Editor.Formats.{spans}
use scriba.Editor.Formats.Spans.{Apart, Spanned, spans-Spanned}
use scriba.Examples.Edits.{arial}

abbrev same_bool : Bool → Bool → Bool
same_bool true b = b
same_bool false b = not b

abbrev same_font : Font → Font → Bool
same_font f g =
    same_bool f.italic g.italic
    && same_bool f.bold g.bold
    && same_bool f.underline g.underline
    && (f.point_size ==ℤ g.point_size)
    && same f.family g.family

same_font-eq : (f g : Font) → same_font f g ≡ true → f ≡ g
same_font-eq f g h =
    ground (arith, h, eq_iff f.family g.family, eq_of_parts f.point_size g.point_size)

abbrev pub widget : Widget
widget = record { same_font = same_font; same_color = same; block_align = λ n. 1 }

widget-Exact : Exact widget
widget-Exact = record { font_eq = same_font-eq; color_eq = λ a b h. ground (arith, h, eq_iff a b) }

abbrev pub glyph : ℕ → String → Glyph
glyph v c = record { value = v; font = arial; color = c }

abbrev typed : List Glyph
typed = glyph 97 "#000000" ∷ glyph 98 "#000000" ∷ glyph 10 "#ff0000" ∷ []

expand-groups_example : expand (groups widget 0 typed) ≡ map styled typed
expand-groups_example = expand-groups widget widget-Exact 0 typed

same_bool_self : (b : Bool) → same_bool b b ≡ true
same_bool_self true = refl
same_bool_self false = refl

same_font_self : (f : Font) → same_font f f ≡ true
same_font_self f = ground (
  arith,
  same_bool_self f.italic,
  same_bool_self f.bold,
  same_bool_self f.underline,
  eq_iff f.family f.family,
)

spans-Spanned_example :
    Apart 4 (spans widget arial "" 4 typed)
    × ((k : ℕ) (g : Glyph)
        → get_elem? typed k ≡ some g
        → (g.value == 10) ≡ false
        → Spanned (spans widget arial "" 4 typed) (4 + k) g)
spans-Spanned_example =
    spans-Spanned widget widget-Exact arial "" 4 typed same_font_self
      (λ c. ground (arith, eq_iff c c))
