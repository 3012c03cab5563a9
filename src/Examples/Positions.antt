-- ===== src/Examples/Positions.antt =====
-- Positions between two neighbours, and a symbol as JSON.
use scriba.Prelude.{◌*◌, ℕ, ◌≡◌, refl, inr, List, [], ◌∷◌, Bool, true, false, some, arith, ok}
use scriba.Prelude.Int.{pos, ◌+ℤ◌}
use scriba.Qt.{Text}
use scriba.Symbol.{Identifier, compare_position, compare_identifier}
use scriba.Symbol.Json.{to_json, from_json, from_json-to_json}
use scriba.Crdt.Position.{Entropy, generate_position_between}
use scriba.Crdt.Position.Digit.{Chosen, generate_id_between_bounds}
use scriba.Crdt.Position.Spec.{IsBetween, Generates}
use scriba.Crdt.Position.Between.{
  generate_position_between-Generates, generate_position_between_returns,
}
use scriba.Examples.Documents.{symbol_at}

abbrev coin : ℕ → Bool
coin n = false

abbrev rand : ℕ → ℕ
rand n = 7 * n

abbrev start : Entropy
start = record { strategy_cache = []; coins = 0; draws = 0 }

abbrev low : List Identifier
low = record { digit = pos 3; site = pos 1 } ∷ []

abbrev high : List Identifier
high = record { digit = pos 4; site = pos 2 } ∷ []

generate_position_between-Generates_example :
    Generates (pos 5) low high [] (generate_position_between coin rand (pos 5) low high start)
unfolding compare_position compare_identifier
generate_position_between-Generates_example =
    generate_position_between-Generates coin rand (pos 5) low high start
      ((refl, omega arith), (λ _. omega arith), tt) ((refl, omega arith), (λ _. omega arith), tt)
      (inr refl)

generate_position_between_returns_example :
    (z : List Identifier) × (e' : Entropy) × (generate_position_between coin rand
        (pos 5)
        low
        high
        start
      ≡ ok (z, e'))
    × IsBetween low high z
unfolding compare_position compare_identifier
generate_position_between_returns_example =
    generate_position_between_returns coin rand (pos 5) low high start
      ((refl, omega arith), (λ _. omega arith), tt) ((refl, omega arith), (λ _. omega arith), tt)
      (inr refl) (omega arith, tt)

generate_id_between_bounds_example : Chosen coin rand (pos 3) (pos 9) 0 start
unfolding ◌+ℤ◌
generate_id_between_bounds_example =
    generate_id_between_bounds coin rand (pos 3) (pos 9) 0 start (omega arith)

abbrev text : Text
text = record {
  simplified = λ s. s;
  same_word = λ a b. true;
  less = λ a b. false;
  split_last = λ s. (s, s);
  one_char = λ v. "a";
  first_unit = λ s. some 97;
  decimal = λ n. "0";
}

from_json-to_json_example : from_json text (to_json text (symbol_at 97 3)) ≡ ok (symbol_at 97 3)
from_json-to_json_example = from_json-to_json text (symbol_at 97 3) refl
