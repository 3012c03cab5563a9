-- ===== src/Symbol/Print.antt =====
-- Identifier::to_string, Symbol::to_string and Symbol::positionString.
use Prim.Native.String.{String, ◌++◌}
use scriba.Prelude.{ℕ, Bool, true, false, List, [], ◌∷◌, ◌==◌, if◌then◌else◌}
use scriba.Qt.{Text}
use scriba.Symbol.{Identifier, Symbol}

module _ (t : Text) where
  unfoldable pub identifier_string : Identifier → String
  identifier_string i = t.decimal i.digit ++ "_" ++ t.decimal i.site

  -- The loop over the identifiers: a separator before all but the first.
  unfoldable pub identifiers_string : Bool → List Identifier → String
  unfolding identifier_string
  identifiers_string first [] = ""
  identifiers_string first (i ∷ rest) =
      (if first then "" else ", ") ++ identifier_string i ++ identifiers_string false rest

  unfoldable pub position_string : Symbol → String
  unfolding identifiers_string
  position_string s = "[" ++ identifiers_string true s.position ++ "]"

  abbrev value_string : ℕ → String
  value_string v = if v == 10 then "NL" else if v == 0 then "NULL" else t.one_char v

  unfoldable pub symbol_string : Symbol → String
  unfolding identifiers_string
  symbol_string s = value_string s.value ++ "[" ++ identifiers_string true s.position ++ "]"
