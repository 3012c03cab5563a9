-- ===== src/Editor/Changes.antt =====
-- Client/editor.cpp: a change of the widget's text or of its formats, and what it makes the CRDT do.
-- The widget is seen as it stands when the slot runs: its text with the formats of the characters,
-- the block and index of each position, and its blocks' alignments.
pub mod Sync
pub mod Local
use Prim.Native.String.{String}
use scriba.Prelude.{
  ℕ, zero, suc, ◌+◌, ◌-◌, Bool, true, false, List, [], ◌∷◌, ◌++◌, Option, none, some, if◌then◌else◌,
  ◌==◌, ◌&&◌, ◌||◌, not, ltb, leb, length, get_elem?, take, drop, Outcome, ok, undefined, ◌>>=◌,
  defined,
}
use scriba.Prelude.Int.{ℤ, pos, negsuc, pos_part, ◌+ℤ◌, ◌-ℤ◌, ◌==ℤ◌, ltb_ℤ}
use scriba.Symbol.{Symbol, SymbolFormat, Font}
use scriba.Crdt.Lines.{get_symbol}
use scriba.Crdt.State.{Crdt}
use scriba.Crdt.Local.{AlignFlags, local_erase_symbols, local_change_alignment, local_change_group}
use scriba.Editor.{Glyph, Widget, alignment_of_flags, flags_of_alignment, handle_local_insertion}
use scriba.Editor.Formats.{Document, on_format_change}

-- The members of the editor and of its MyQTextEdit that the slot reads or writes.
pub record Editor : Type 0 where
  pub crdt : Crdt
  pub undo_flag : Bool
  pub redo_flag : Bool
  pub alignment : Bool
  pub inserted : Bool
  pub pasted : ℤ
  pub selected : Bool
  pub deleted : Bool

-- The font of getQTextCharFormat
abbrev pub font_of : SymbolFormat → Font
font_of f = record {
  italic = f.italic;
  bold = f.bold;
  underline = f.underline;
  point_size = f.size;
  family = f.font;
}

-- CRDT::getAlignmentLine
unfoldable pub get_alignment_line : Crdt → ℕ → Outcome ℤ
get_alignment_line c line = defined (get_elem? c.symbols line) >>= λ l. elim (length l) [
  | zero ↦ undefined
  | suc n ↦ defined (get_elem? l n) >>= λ s. ok s.format.align
]

module _ (w : Widget) where
  -- The first loop of checkAlignment over the characters from a position on: where the cursor ends,
  -- and whether a format was another one than the CRDT's.
  unfoldable pub compare_formats : Document → Crdt → ℕ → List Glyph → Bool → Outcome (ℕ × Bool)
  compare_formats d c i [] changed = ok (i, changed)
  compare_formats d c i (g ∷ rest) changed =
      let (line, index) = d.place i in
      get_symbol c.symbols line index >>= λ s.
      if w.same_font (font_of s.format) g.font && w.same_color s.format.color g.color
      then ok (i + 1, changed)
      else compare_formats d c (i + 1) rest true

  module _ (q : AlignFlags) where
    -- The alignments of `n` blocks from a line on go to the CRDT; whether one differed.
    unfoldable pub align_blocks : ℕ → ℕ → Bool → Crdt → Outcome (Bool × Crdt)
    unfolding get_alignment_line
    align_blocks zero line changed c = ok (changed, c)
    align_blocks (suc n) line changed c = get_alignment_line c line >>= λ mine.
        alignment_of_flags q (w.block_align line) >>= λ shown. flags_of_alignment q mine >>= λ _.
        local_change_alignment c line shown >>= λ c'.
        align_blocks n (line + 1) (if shown ==ℤ mine then changed else true) c'

    -- Editor::checkAlignment; it returns whether an alignment differed.
    unfoldable pub check_alignment : Font → String → Document → ℕ → Editor → Outcome (Bool × Editor)
    unfolding compare_formats on_format_change align_blocks
    check_alignment no_font no_color d position e =
        compare_formats d e.crdt position (drop position d.glyphs) false >>= λ (end, changed).
        (if changed
          then (on_format_change w no_font no_color d position end e.crdt >>= λ c. ok (false, c))
          else align_blocks (d.blocks - (d.place position).0) (d.place position).0 false e.crdt)
        >>= λ (differs, c).
            ok (differs, record e { crdt = c; undo_flag = false; redo_flag = false })

    module _ (coin : ℕ → Bool) (rand : ℕ → ℕ) (raw : SymbolFormat) where
      -- handleLocalInsertion of so many characters at a position: the text must reach as far, and the
      -- rest of it is looked at for a negative number, which inserts nothing.
      unfoldable pub insert_at_position : Document → ℕ → ℤ → Editor → Outcome Editor
      insert_at_position d position (negsuc n) e = elim (drop position d.glyphs) [
        | [] ↦ undefined
        | g ∷ rest ↦ ok (record e { undo_flag = false })
      ]
      insert_at_position d position (pos n) e =
          let (line, index) = d.place position in
          elim (take n (drop position d.glyphs)) [
            | [] ↦ undefined
            | g ∷ rest ↦
                if g.value == 0
                then ok (record e { undo_flag = false })
                else if length (g ∷ rest) == n
                then (handle_local_insertion w coin rand raw q e.crdt line index d.current_align
                      (g ∷ rest)
                    >>= λ c. ok (record e { crdt = c; undo_flag = false }))
                else undefined
          ]

      -- localErase of so many characters at a position; none for a negative number.
      unfoldable pub erase_at_position : Document → ℕ → ℤ → Editor → Outcome Editor
      erase_at_position d position n e =
          let (line, index) = d.place position in
          local_erase_symbols e.crdt line index (pos_part n) >>= λ c. ok (record e { crdt = c })

      -- The last branch of on_contentsChange, with its choice between two ways to insert.
      unfoldable pub normal_operation : Document → ℕ → ℕ → ℕ → Editor → Outcome Editor
      unfolding insert_at_position erase_at_position
      normal_operation d position removed added e =
          if (position == 0) && (ltb_ℤ (pos 0) e.pasted || e.inserted)
          then insert_at_position d position (pos added -ℤ pos removed) e
          else (if ltb 0 removed then erase_at_position d position (pos removed) e else ok e)
            >>= λ e1. if ltb 0 added then insert_at_position d position (pos added) e1 else ok e1

      -- A selection replaced, or an undo or redo, at the start of the text.
      unfoldable pub start_operation : Document → ℕ → ℕ → ℕ → Editor → Outcome Editor
      unfolding insert_at_position erase_at_position
      start_operation d position removed added e =
          (if e.selected
            then (let add = if ltb_ℤ (pos 0) e.pasted then e.pasted else pos 1 in
                erase_at_position d position (add -ℤ (pos added -ℤ pos removed)) e >>= λ e1.
                insert_at_position d position add e1)
            else ok e)
          >>= λ e1.
              (if ltb added removed && e1.undo_flag
                then erase_at_position d position (pos removed -ℤ pos added) e1
                else ok e1)
              >>= λ e2.
                  if ltb removed added && e2.redo_flag
                  then insert_at_position d position (pos added -ℤ pos removed) e2
                  else ok e2

      abbrev pub is_remote : Document → ℕ → ℕ → Editor → Bool
      is_remote d removed added e =
          (ltb removed added && not (ltb_ℤ e.crdt.size (pos (length d.glyphs))))
          || (ltb added removed && not (ltb_ℤ (pos (length d.glyphs)) e.crdt.size))

      abbrev pub reset : Editor → Editor
      reset e = record e {
        inserted = false;
        pasted = pos 0;
        deleted = false;
        undo_flag = false;
        redo_flag = false;
      }

      -- Editor::on_contentsChange
      unfoldable pub on_contents_change :
          Font → String → Document → ℕ → ℕ → ℕ → Editor → Outcome Editor
      unfolding check_alignment start_operation normal_operation
      on_contents_change no_font no_color d position removed added e =
          if is_remote d removed added e
          then ok e
          else (if (removed == added) && (e.undo_flag || e.redo_flag)
              then (check_alignment no_font no_color d position e >>= λ (differs, e1).
                  if differs
                  then ok e1
                  else erase_at_position d position (pos removed) e1 >>= λ e2.
                      insert_at_position d position (pos added) e2)
              else ok e)
            >>= λ e3.
                (if not (e3.inserted || not (e3.pasted ==ℤ pos 0)) && (added == removed)
                  then ok (record e3 { alignment = false })
                  else if (position == 0)
                      && ((e3.selected && not e3.deleted)
                          || (ltb added removed && e3.undo_flag)
                          || (ltb removed added && e3.redo_flag))
                  then start_operation d position removed added e3
                  else normal_operation d position removed added e3)
                >>= λ e4. ok (reset e4)

-- The loop of textAlign: `n` lines from a line on take an alignment.
unfoldable pub align_lines : ℕ → ℕ → ℤ → Crdt → Outcome Crdt
align_lines zero line a c = ok c
align_lines (suc n) line a c =
    local_change_alignment c line a >>= λ c'. align_lines n (line + 1) a c'

-- Editor::textAlign of the lines of a selection; each button has its alignment.
unfoldable pub text_align : Document → ℕ → ℕ → ℤ → Editor → Outcome Editor
unfolding align_lines
text_align d start end a e =
    let first = (d.place start).0 in
    align_lines ((d.place end).0 + 1 - first) first a e.crdt >>= λ c.
    ok (record e { crdt = c; alignment = true })

-- Editor::undo and Editor::redo, up to the widget's own, which changes its text.
unfoldable pub undo : Editor → Editor
undo e = record e { undo_flag = true }

unfoldable pub redo : Editor → Editor
redo e = record e { redo_flag = true }
