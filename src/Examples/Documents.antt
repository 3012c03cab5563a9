-- ===== src/Examples/Documents.antt =====
-- A document "ab\nc" with its terminator, and the searches in it.
use scriba.Prelude.{ℕ, refl, ◌≢◌, Ordering, List, [], ◌∷◌, false, arith}
use scriba.Prelude.Int.{pos}
use scriba.Order.Rank.{Increasing, compared}
use scriba.Symbol.{Symbol, SymbolFormat, compare, compare_position, compare_identifier, align_left}
use scriba.Symbol.Compare.{symbol_order}
use scriba.Crdt.Search.{find_insert_position, find_position}
use scriba.Crdt.Search.Place.{IsOrdered, P}
use scriba.Crdt.Search.Insert.{InsertsAt, find_insert_position-InsertsAt}
use scriba.Crdt.Search.Find.{Answers, find_position-Answers}

abbrev pub plain : SymbolFormat
plain = record {
  align = align_left;
  italic = false;
  bold = false;
  underline = false;
  font = "Arial";
  size = pos 12;
  color = "#000000";
}

abbrev pub symbol_at : ℕ → ℕ → Symbol
symbol_at value digit = record {
  value = value;
  position = record { digit = pos digit; site = pos 1 } ∷ [];
  counter = pos 1;
  format = plain;
}

abbrev pub first_line : List Symbol
first_line = symbol_at 97 3 ∷ symbol_at 98 6 ∷ symbol_at 10 9 ∷ []

abbrev pub other_lines : List (List Symbol)
other_lines = (symbol_at 99 15 ∷ symbol_at 0 31 ∷ []) ∷ []

abbrev pub two_lines : List (List Symbol)
two_lines = first_line ∷ other_lines

pub first_line-Increasing : Increasing symbol_order first_line
unfolding compare compare_position compare_identifier
first_line-Increasing = ((refl, (refl, tt)), ((refl, tt), (tt, tt)))

pub two_lines-IsOrdered : IsOrdered two_lines
unfolding compare compare_position compare_identifier
two_lines-IsOrdered = record {
  non_empty = tt;
  increasing = (
    (refl, (refl, (refl, (refl, tt)))),
    ((refl, (refl, (refl, tt))), ((refl, (refl, tt)), ((refl, tt), (tt, tt)))),
  );
}

low_in_line : compared symbol_order (symbol_at 120 5) first_line 2 ≢ Ordering.gt
unfolding compare compare_position compare_identifier
low_in_line e = ground (arith, e)

low_in_document : P (symbol_at 120 12) two_lines 1 ≢ Ordering.gt
unfolding compare compare_position compare_identifier
low_in_document e = ground (arith, e)

find_insert_position-InsertsAt_example :
    InsertsAt
      (symbol_at 120 12)
      (symbol_at 97 3)
      (symbol_at 98 6 ∷ symbol_at 10 9 ∷ [])
      other_lines
      (find_insert_position (symbol_at 120 12) two_lines)
find_insert_position-InsertsAt_example =
    find_insert_position-InsertsAt (symbol_at 120 12) (symbol_at 97 3)
      (symbol_at 98 6 ∷ symbol_at 10 9 ∷ []) other_lines two_lines-IsOrdered low_in_document

find_position-Answers_example :
    Answers
      (symbol_at 99 15)
      (symbol_at 97 3)
      (symbol_at 98 6 ∷ symbol_at 10 9 ∷ [])
      other_lines
      (find_position (symbol_at 99 15) two_lines)
find_position-Answers_example =
    find_position-Answers (symbol_at 99 15) (symbol_at 97 3) (symbol_at 98 6 ∷ symbol_at 10 9 ∷ [])
      other_lines two_lines-IsOrdered
