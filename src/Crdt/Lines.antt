-- ===== src/Crdt/Lines.antt =====
-- The edits of `_symbols`, the lines of symbols: CRDT::insertChar, the erasures of localErase and
-- handleRemoteErase, findPosBefore and findPosAfter. An index outside a QVector is `undefined`.
pub mod Insert
pub mod Closed
use scriba.Prelude.{
  ℕ, zero, suc, ◌+◌, Bool, true, false, List, [], ◌∷◌, ◌++◌, Option, none, some, ◌==◌, leb, ltb,
  ◌&&◌, if◌then◌else◌, length, get_elem?, set, take, drop, insert_at, erase_at, Outcome, ok,
  undefined, ◌>>=◌, defined,
}
use scriba.Symbol.{Symbol, Identifier}
use scriba.Crdt.Search.{newline}

-- _symbols[line][index]
unfoldable pub get_symbol : List (List Symbol) → ℕ → ℕ → Outcome Symbol
get_symbol lines line index = defined (get_elem? lines line) >>= λ l. defined (get_elem? l index)

-- _symbols[line][index] = s
unfoldable pub set_symbol : List (List Symbol) → ℕ → ℕ → Symbol → Outcome (List (List Symbol))
set_symbol lines line index s = defined (get_elem? lines line) >>= λ l.
    defined (get_elem? l index) >>= λ _. ok (set lines line (set l index s))

-- _symbols[line][_symbols[line].size() - 1] = f(that symbol)
unfoldable pub update_last :
    List (List Symbol) → ℕ → (Symbol → Symbol) → Outcome (Symbol × List (List Symbol))
update_last lines line f = defined (get_elem? lines line) >>= λ l. elim (length l) [
  | zero ↦ undefined
  | suc n ↦ defined (get_elem? l n) >>= λ s. ok (f s, set lines line (set l n (f s)))
]

-- CRDT::insertChar: a newline ends its line, and what followed it goes to a line of its own.
unfoldable pub insert_char : Symbol → ℕ → ℕ → List (List Symbol) → Outcome (List (List Symbol))
insert_char s line index lines = defined (get_elem? lines line) >>= λ l.
    if leb index (length l)
    then (if s.value == newline
        then ok (insert_at (suc line) (drop index l) (set lines line (take index l ++ s ∷ [])))
        else ok (set lines line (insert_at index s l)))
    else undefined

-- _symbols[line].erase(index), then the next line's symbols appended and that line removed.
unfoldable pub join_lines : List Symbol → ℕ → ℕ → List (List Symbol) → Outcome (List (List Symbol))
join_lines l line index lines = defined (get_elem? lines (suc line)) >>= λ next.
    ok (erase_at (suc line) (set lines line (erase_at index l ++ next)))

-- The body of the loop of localErase; it returns the symbol that it removed.
unfoldable pub erase_local : ℕ → ℕ → List (List Symbol) → Outcome (Symbol × List (List Symbol))
erase_local line index lines = defined (get_elem? lines line) >>= λ l.
    defined (get_elem? l index) >>= λ s.
    if (s.value == newline) && ltb (line + 1) (length lines)
    then (join_lines l line index lines >>= λ lines'. ok (s, lines'))
    else ok (s, set lines line (erase_at index l))

-- The three cases of handleRemoteErase for a symbol `s` found at the place.
unfoldable pub erase_remote : Symbol → ℕ → ℕ → List (List Symbol) → Outcome (List (List Symbol))
erase_remote s line index lines = defined (get_elem? lines line) >>= λ l.
    defined (get_elem? l index) >>= λ _.
    if (s.value == newline) && ltb (line + 1) (length lines)
    then join_lines l line index lines
    else if (index == 0) && (length l == 1)
    then ok (erase_at line lines)
    else ok (set lines line (erase_at index l))

-- CRDT::findPosBefore
unfoldable pub find_pos_before : ℕ → ℕ → List (List Symbol) → Outcome (List Identifier)
find_pos_before zero zero lines = ok []
find_pos_before (suc line) zero lines = defined (get_elem? lines line) >>= λ l. elim (length l) [
  | zero ↦ undefined
  | suc n ↦ defined (get_elem? l n) >>= λ s. ok s.position
]
find_pos_before line (suc index) lines = get_symbol lines line index >>= λ s. ok s.position

-- _symbols[line].size() where there is such a line, else 0
unfoldable pub line_length : List (List Symbol) → ℕ → ℕ
line_length lines line = elim (get_elem? lines line) [ none ↦ 0 | some l ↦ length l ]

-- CRDT::findPosAfter
unfoldable pub find_pos_after : ℕ → ℕ → List (List Symbol) → Outcome (List Identifier)
find_pos_after line index lines =
    if (line + 1 == length lines) && (index == line_length lines line)
    then ok []
    else if ltb (line + 1) (length lines) && (index == line_length lines line)
    then (get_symbol lines (line + 1) 0 >>= λ s. ok s.position)
    else if ltb (length lines) (line + 1) && (index == 0)
    then ok []
    else get_symbol lines line index >>= λ s. ok s.position
