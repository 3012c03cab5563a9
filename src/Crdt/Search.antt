-- ===== src/Crdt/Search.antt =====
-- CRDT::findPosition, findIndexInLine, findInsertPosition, findInsertIndexInLine and
-- findEndPosition. A read outside a QVector is `undefined`; the fuel of a binary search is the
-- length of what it searches. A result `none` of find_position is `return false`, which leaves
-- the out parameters unset.
pub mod Line
pub mod Place
pub mod Insert
pub mod Find
use scriba.Prelude.{
  ℕ, zero, suc, ◌+◌, ◌-◌, ◌≡◌, Ordering, Bool, true, false, List, [], ◌∷◌, Option, none, some, ◌==◌,
  if◌then◌else◌, length, get_elem?, get_last?, Outcome, ok, undefined, ◌>>=◌, defined,
}
use scriba.Order.Bisect.{Stop, found, narrowed, bisect}
use scriba.Symbol.{Symbol, compare}

abbrev pub newline : ℕ
newline = 10

-- compare(s, line[i])
unfoldable pub compare_at : Symbol → List Symbol → ℕ → Outcome Ordering
compare_at s line i = defined (get_elem? line i) >>= λ t. ok (compare s t)

-- compare(s, the last symbol of _symbols[i])
unfoldable pub compare_last : Symbol → List (List Symbol) → ℕ → Outcome Ordering
compare_last s lines i =
    defined (get_elem? lines i) >>= λ l. defined (get_last? l) >>= λ t. ok (compare s t)

-- What findIndexInLine does past its two tests, which its `return false` makes 0 for a symbol
-- that is not there.
unfoldable pub index_after : Symbol → List Symbol → Stop → Outcome ℕ
index_after s line (found mid) = ok mid
index_after s line (narrowed left right) = compare_at s line left >>= λ c. elim c [
  | Ordering.eq ↦ ok left
  | _ ↦ compare_at s line right >>= λ d. elim d [ Ordering.eq ↦ ok right | _ ↦ ok 0 ]
]

unfoldable pub find_index_in_line : ℕ → Symbol → List Symbol → Outcome ℕ
find_index_in_line total s [] = ok 0
find_index_in_line total s (x ∷ xs) = elim (compare s x) [
  | Ordering.lt ↦ ok 0
  | _ ↦ compare_at s (x ∷ xs) (length xs) >>= λ c. elim c [
    | Ordering.gt ↦ ok total
    | _ ↦ bisect (compare_at s (x ∷ xs)) (length (x ∷ xs)) 0 (length xs) >>= index_after s (x ∷ xs)
  ]
]

unfoldable pub insert_index_after : Symbol → List Symbol → Stop → Outcome ℕ
insert_index_after s line (found mid) = ok mid
insert_index_after s line (narrowed left right) =
    compare_at s line left >>= λ c. elim c [ Ordering.eq ↦ ok left | _ ↦ ok right ]

unfoldable pub find_insert_index_in_line : ℕ → Symbol → List Symbol → Outcome ℕ
find_insert_index_in_line total s [] = ok 0
find_insert_index_in_line total s (x ∷ xs) = elim (compare s x) [
  | Ordering.lt ↦ ok 0
  | _ ↦ compare_at s (x ∷ xs) (length xs) >>= λ c. elim c [
    | Ordering.gt ↦ ok total
    | _ ↦
        bisect (compare_at s (x ∷ xs)) (length (x ∷ xs)) 0 (length xs)
        >>= insert_index_after s (x ∷ xs)
  ]
]

-- The line where the search ends: at a mid line whose last symbol is the one sought, the place
-- is its end; otherwise the first of the two lines left whose last symbol is not below `s` is
-- searched by `in_line`.
unfoldable pub line_after :
    (ℕ → Symbol → List Symbol → Outcome ℕ) → Symbol → List (List Symbol) → Stop → Outcome (ℕ × ℕ)
line_after in_line s lines (found mid) =
    defined (get_elem? lines mid) >>= λ l. ok (mid, length l - 1)
line_after in_line s lines (narrowed min_line max_line) = compare_last s lines min_line >>= λ c.
    elim c [
      | Ordering.gt ↦ defined (get_elem? lines max_line) >>= λ l.
          in_line (length lines) s l >>= λ index. ok (max_line, index)
      | _ ↦ defined (get_elem? lines min_line) >>= λ l.
          in_line (length lines) s l >>= λ index. ok (min_line, index)
    ]

unfoldable pub search_lines :
    (ℕ → Symbol → List Symbol → Outcome ℕ) → Symbol → List (List Symbol) → Outcome (ℕ × ℕ)
search_lines in_line s lines =
    bisect (compare_last s lines) (length lines) 0 (length lines - 1) >>= line_after in_line s lines

unfoldable pub find_end_position : Symbol → List Symbol → ℕ → ℕ × ℕ
find_end_position last_char last_line total =
    if last_char.value == newline then (total, 0) else (total - 1, length last_line)

-- _symbols.size() == 1 && _symbols[0].size() == 0
abbrev pub is_blank : List (List Symbol) → Bool
is_blank ([] ∷ []) = true
is_blank _ = false

-- compare(s, _symbols[0][0])
unfoldable pub compare_first : Symbol → List (List Symbol) → Outcome Ordering
compare_first s lines =
    defined (get_elem? lines 0) >>= λ l. defined (get_elem? l 0) >>= λ t. ok (compare s t)

unfoldable pub find_insert_position : Symbol → List (List Symbol) → Outcome (ℕ × ℕ)
find_insert_position s lines = defined (get_elem? lines (length lines - 1)) >>= λ last_line.
    if is_blank lines
    then ok (0, 0)
    else compare_first s lines >>= λ c. elim c [
      | Ordering.gt ↦ defined (get_last? last_line) >>= λ last_char. elim (compare s last_char) [
        | Ordering.gt ↦ ok (find_end_position last_char last_line (length lines))
        | _ ↦ search_lines find_insert_index_in_line s lines
      ]
      | _ ↦ ok (0, 0)
    ]

unfoldable pub find_position : Symbol → List (List Symbol) → Outcome (Option (ℕ × ℕ))
find_position s lines = defined (get_elem? lines (length lines - 1)) >>= λ last_line.
    if is_blank lines
    then ok none
    else compare_first s lines >>= λ c. elim c [
      | Ordering.lt ↦ ok none
      | _ ↦ defined (get_last? last_line) >>= λ last_char. elim (compare s last_char) [
        | Ordering.gt ↦ ok none
        | _ ↦ search_lines find_index_in_line s lines >>= λ place. ok (some place)
      ]
    ]
