-- ===== src/Crdt/Local.antt =====
-- The operations of the local editor. The alignment flags are Qt's, and so arguments; so is what
-- memory held where a new symbol's format is not set.
pub mod Erase
pub mod Neighbours
pub mod Fits
pub mod Insert
use Prim.Native.Nat.{bit_or}
use scriba.Prelude.{
  ℕ, zero, suc, ◌+◌, ◌-◌, Bool, true, false, List, [], ◌∷◌, ◌++◌, Option, none, some, ◌==◌, ◌||◌,
  if◌then◌else◌, String, length, get_elem?, Outcome, ok, throws, undefined, ◌>>=◌, defined,
}
use scriba.Prelude.Int.{ℤ, pos, negsuc, ◌+ℤ◌, ◌-ℤ◌}
use scriba.Symbol.{
  Symbol, SymbolFormat, Font, set_format, make_symbol, set_alignment, align_left, align_right,
  align_center,
}
use scriba.Crdt.Search.{newline}
use scriba.Crdt.Position.{generate_position_between}
use scriba.Crdt.Lines.{
  get_symbol, set_symbol, update_last, insert_char, erase_local, find_pos_before, find_pos_after,
}
use scriba.Crdt.State.{Crdt, insert_symbol, delete_symbol, change, align, paste, one, many, send}

-- The values of Qt::Alignment that the code names.
pub record AlignFlags : Type 0 where
  pub left : ℕ
  pub leading : ℕ
  pub h_center : ℕ
  pub center : ℕ
  pub right : ℕ
  pub trailing : ℕ
  pub absolute : ℕ

-- The chain of tests of localInsert for a symbol that carries an alignment.
unfoldable pub align_single : AlignFlags → ℕ → Symbol → Symbol
align_single q flags s =
    if (s.value == 0) || (s.value == newline)
    then (if flags == q.left
        then set_alignment s align_left
        else if (flags == q.h_center) || (flags == q.center)
        then set_alignment s align_center
        else if flags == q.right
        then set_alignment s align_right
        else s)
    else s

-- That of localInsertGroup, which names other flags.
unfoldable pub align_group : AlignFlags → ℕ → Symbol → Symbol
align_group q flags s =
    if (s.value == 0) || (s.value == newline)
    then (if flags == bit_or q.left q.leading
        then set_alignment s align_left
        else if (flags == q.h_center) || (flags == q.center)
        then set_alignment s align_center
        else if flags == bit_or q.trailing q.absolute
        then set_alignment s align_right
        else s)
    else s

abbrev pub out_of_bound : String
out_of_bound = "Error: index out of bound.\n"

module _ (coin : ℕ → Bool) (rand : ℕ → ℕ) (raw : SymbolFormat) where
  -- The part that localInsert and localInsertGroup share: a position between the neighbours, a
  -- symbol there, and its insertion. `aligned` sets the alignment.
  unfoldable pub insert_local :
      (Symbol → Symbol) → Crdt → ℕ → ℕ → ℕ → Font → String → Outcome (Symbol × Crdt)
  insert_local aligned c line index value font color =
      find_pos_before line index c.symbols >>= λ before.
      find_pos_after line index c.symbols >>= λ after.
      generate_position_between coin rand c.site_id before after c.entropy
      >>= λ (position, entropy).
          let counter = c.counter +ℤ pos 1 in
          let s = aligned (make_symbol raw value position counter font color) in
          insert_char s line index c.symbols >>= λ lines. ok (
            s,
            record c {
              symbols = lines;
              counter = counter;
              entropy = entropy;
              size = c.size +ℤ pos 1;
            },
          )

  module _ (q : AlignFlags) where
    -- CRDT::localInsert
    unfoldable pub local_insert : Crdt → ℤ → ℤ → ℕ → Font → String → ℕ → Outcome Crdt
    local_insert c (negsuc _) index value font color flags = throws out_of_bound
    local_insert c (pos line) (negsuc _) value font color flags = throws out_of_bound
    local_insert c (pos line) (pos index) value font color flags =
        insert_local (align_single q flags) c line index value font color >>= λ (s, c').
        ok (send c' (one insert_symbol c.site_id s))

    -- The loop of localInsertGroup over the text, with the place that it moves on.
    unfoldable pub group_loop :
        Crdt
        → ℕ
        → ℕ
        → List ℕ
        → Font
        → String
        → ℕ
        → List Symbol
        → Outcome (Crdt × ℕ × ℕ × List Symbol)
    group_loop c line index [] font color flags made = ok (c, line, index, made)
    group_loop c line index (value ∷ rest) font color flags made =
        insert_local (align_group q flags) c line index value font color >>= λ (s, c').
        group_loop c' (if value == newline then line + 1 else line)
          (if value == newline then 0 else index + 1) rest font color flags (made ++ s ∷ [])

    -- CRDT::localInsertGroup; it returns the place after the text too.
    unfoldable pub local_insert_group :
        Crdt → ℤ → ℤ → List ℕ → Font → String → ℕ → Outcome (Crdt × ℕ × ℕ)
    local_insert_group c (negsuc _) index partial font color flags = throws out_of_bound
    local_insert_group c (pos line) (negsuc _) partial font color flags = throws out_of_bound
    local_insert_group c (pos line) (pos index) partial font color flags =
        group_loop c line index partial font color flags [] >>= λ (c', line', index', made).
        ok (send c' (many paste c.site_id (some (length made)) made), line', index')

-- CRDT::localChangeAlignment
unfoldable pub local_change_alignment : Crdt → ℕ → ℤ → Outcome Crdt
local_change_alignment c line a =
    update_last c.symbols line (λ s. set_alignment s a) >>= λ (s, lines).
    ok (send (record c { symbols = lines }) (one align c.site_id s))

-- The loop of localErase: the same place, again and again.
unfoldable pub erase_times : ℕ → ℕ → ℕ → Crdt → List Symbol → Outcome (Crdt × List Symbol)
erase_times zero line index c removed = ok (c, removed)
erase_times (suc n) line index c removed = erase_local line index c.symbols >>= λ (s, lines).
    erase_times n line index (record c { symbols = lines; size = c.size -ℤ pos 1 })
      (removed ++ s ∷ [])

-- CRDT::localErase
unfoldable pub local_erase_symbols : Crdt → ℕ → ℕ → ℕ → Outcome Crdt
local_erase_symbols c line index count = erase_times count line index c [] >>= λ (c', removed).
    ok (send c' (many delete_symbol c.site_id none removed))

-- CRDT::localChange
unfoldable pub local_change : Crdt → ℕ → ℕ → Font → String → Outcome Crdt
local_change c line index font color = get_symbol c.symbols line index >>= λ s.
    set_symbol c.symbols line index (set_format s font color) >>= λ lines.
    ok (send (record c { symbols = lines }) (one change c.site_id (set_format s font color)))

-- The symbols of a line from `index` on, `n` of them, take a format.
unfoldable pub format_range :
    ℕ
    → ℕ
    → ℕ
    → Font
    → String
    → List (List Symbol)
    → List Symbol
    → Outcome (List (List Symbol) × List Symbol)
format_range zero line index font color lines made = ok (lines, made)
format_range (suc n) line index font color lines made = get_symbol lines line index >>= λ s.
    set_symbol lines line index (set_format s font color) >>= λ lines'.
    format_range n line (index + 1) font color lines' (made ++ set_format s font color ∷ [])

abbrev pub row_length : List (List Symbol) → ℕ → Outcome ℕ
row_length lines line = defined (get_elem? lines line) >>= λ l. ok (length l)

-- The whole lines between the first and the last.
unfoldable pub format_rows :
    ℕ
    → ℕ
    → Font
    → String
    → List (List Symbol)
    → List Symbol
    → Outcome (List (List Symbol) × List Symbol)
format_rows zero line font color lines made = ok (lines, made)
format_rows (suc n) line font color lines made = row_length lines line >>= λ len.
    format_range len line 0 font color lines made >>= λ (lines', made').
    format_rows n (line + 1) font color lines' made'

-- From a place to another; the last index is included.
unfoldable pub format_span :
    ℕ → ℕ → ℕ → ℕ → Font → String → List (List Symbol) → Outcome (List (List Symbol) × List Symbol)
format_span start_line end_line start_index end_index font color lines =
    if start_line == end_line
    then format_range (end_index + 1 - start_index) start_line start_index font color lines []
    else row_length lines start_line >>= λ len.
        format_range (len - start_index) start_line start_index font color lines []
        >>= λ (lines1, made1).
            format_rows (end_line - start_line - 1) (start_line + 1) font color lines1 made1
            >>= λ (lines2, made2). format_range (end_index + 1) end_line 0 font color lines2 made2

-- CRDT::localChangeGroup
unfoldable pub local_change_group : Crdt → ℤ → ℤ → ℤ → ℤ → Font → String → Outcome Crdt
local_change_group c (pos start_line) (pos end_line) (pos start_index) (pos end_index) font color =
    format_span start_line end_line start_index end_index font color c.symbols >>= λ (lines, made).
    ok (send (record c { symbols = lines }) (many change c.site_id (some (length made)) made))
local_change_group c _ _ _ _ font color = throws out_of_bound
