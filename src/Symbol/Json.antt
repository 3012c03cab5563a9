-- ===== src/Symbol/Json.antt =====
-- toJson and fromJson of Identifier, SymbolFormat and Symbol.
use scriba.Prelude.{◌≡◌, refl, ap, List, [], ◌∷◌, some, Outcome, ok, ◌>>=◌, defined}
use scriba.Qt.{Text}
use scriba.Json.{
  bool, num, str, arr, obj, Items, done, item, Fields, end, assign, value, to_text, to_int, to_bool,
  to_object, to_array,
}
use scriba.Symbol.{Identifier, SymbolFormat, Symbol}

unfoldable pub identifier_to_json : Identifier → Fields
identifier_to_json i = assign "site" (num i.site) (assign "digit" (num i.digit) end)

unfoldable pub format_to_json : SymbolFormat → Fields
format_to_json f = assign "alignment" (num f.align) (
    assign "color" (str f.color) (
      assign "size" (num f.size) (
        assign "font" (str f.font) (
          assign "underline" (bool f.underline)
            (assign "bold" (bool f.bold) (assign "italic" (bool f.italic) end))))))

unfoldable pub format_from_json : Fields → SymbolFormat
format_from_json o = record {
  italic = to_bool (value o "italic");
  bold = to_bool (value o "bold");
  underline = to_bool (value o "underline");
  font = to_text (value o "font");
  size = to_int (value o "size");
  color = to_text (value o "color");
  align = to_int (value o "alignment");
}

unfoldable pub position_to_json : List Identifier → Items
unfolding identifier_to_json
position_to_json [] = done
position_to_json (i ∷ rest) = item (obj (identifier_to_json i)) (position_to_json rest)

unfoldable pub position_from_json : Items → List Identifier
position_from_json done = []
position_from_json (item j rest) =
    let o = to_object (some j) in
    record { digit = to_int (value o "digit"); site = to_int (value o "site") }
    ∷ position_from_json rest

module _ (t : Text) where
  unfoldable pub to_json : Symbol → Fields
  unfolding position_to_json format_to_json
  to_json s = assign "format" (obj (format_to_json s.format)) (
      assign "counter" (num s.counter) (
        assign "position" (arr (position_to_json s.position))
          (assign "value" (str (t.one_char s.value)) end)))

  unfoldable pub from_json : Fields → Outcome Symbol
  unfolding position_from_json format_from_json
  from_json o = defined (t.first_unit (to_text (value o "value"))) >>= λ v. ok record {
    value = v;
    counter = to_int (value o "counter");
    position = position_from_json (to_array (value o "position"));
    format = format_from_json (to_object (value o "format"));
  }

position_from_json-to_json : (p : List Identifier) → position_from_json (position_to_json p) ≡ p
unfolding position_from_json position_to_json identifier_to_json
position_from_json-to_json [] = refl
position_from_json-to_json (i ∷ p) = ap (◌∷◌ i) (position_from_json-to_json p)

-- If Qt reads back the character of the text that it makes of the symbol's value, fromJson reads
-- back the symbol that toJson writes, with its format, position and counter.
pub from_json-to_json :
    (t : Text)
    → (s : Symbol) → t.first_unit (t.one_char s.value) ≡ some s.value
    → from_json t (to_json t s) ≡ ok s
unfolding from_json to_json format_to_json format_from_json
from_json-to_json t s law = rw (law, position_from_json-to_json s.position) refl
