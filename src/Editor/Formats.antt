-- ===== src/Editor/Formats.antt =====
-- Client/editor.cpp: a change of the formats of a selection, and the calls that it makes of the CRDT.
pub mod Spans
use Prim.Native.String.{String}
use scriba.Prelude.{
  ℕ, zero, suc, ◌+◌, ◌-◌, Bool, true, false, List, [], ◌∷◌, ◌++◌, Option, none, some, if◌then◌else◌,
  ◌==◌, ◌&&◌, ◌||◌, not, ltb, leb, length, get_elem?, take, drop, Outcome, ok, undefined, ◌>>=◌,
  defined,
}
use scriba.Prelude.Int.{ℤ, pos, negsuc, pos_part, ◌+ℤ◌, ◌-ℤ◌, ◌==ℤ◌, ltb_ℤ}
use scriba.Symbol.{Symbol, SymbolFormat, Font}
use scriba.Crdt.Lines.{get_symbol}
use scriba.Crdt.State.{Crdt}
use scriba.Crdt.Local.{AlignFlags, local_erase_symbols, local_change_alignment, local_change_group}
use scriba.Editor.{Glyph, Widget, alignment_of_flags, flags_of_alignment, handle_local_insertion}

-- The text and its formats, blockNumber and positionInBlock at a position, the number of blocks and
-- the alignment at the text cursor.
pub record Document : Type 0 where
  pub glyphs : List Glyph
  pub place : ℕ → ℕ × ℕ
  pub blocks : ℕ
  pub current_align : ℕ

-- A call of localChangeGroup, by the positions of its first and last characters.
pub record Span : Type 0 where
  pub first : ℕ
  pub last : ℕ
  pub font : Font
  pub color : String

module _ (w : Widget) where
  -- One round of the loop of on_formatChange, for a character that is no newline: it goes on the
  -- span, or starts another.
  unfoldable pub span_step : ℕ → Glyph → Span → List Span × Span
  span_step i g p =
      if w.same_font g.font p.font && w.same_color g.color p.color
      then ([], record p { last = i })
      else (p ∷ [], record { first = i; last = i; font = g.font; color = g.color })

  -- The characters from position `i` on; U+2029 stands for a newline in a selection.
  unfoldable pub span_rounds : ℕ → List Glyph → Span → List Span
  unfolding span_step
  span_rounds i [] p = p ∷ []
  span_rounds i (g ∷ rest) p =
      let (done, p') = if g.value == 10 then ([], p) else span_step i g p in
      done ++ span_rounds (i + 1) rest p'

  -- The spans of a selection that starts at a position. The first character sets the font and
  -- the colour unless it is a newline; they are not set then.
  unfoldable pub spans : Font → String → ℕ → List Glyph → List Span
  unfolding span_rounds
  spans no_font no_color start [] = []
  spans no_font no_color start (g ∷ rest) = span_rounds start (g ∷ rest) (
      if g.value == 10
      then record { first = start; last = start; font = no_font; color = no_color }
      else record { first = start; last = start; font = g.font; color = g.color })

  -- The calls of localChangeGroup.
  unfoldable pub change_spans : (ℕ → ℕ × ℕ) → List Span → Crdt → Outcome Crdt
  change_spans place [] c = ok c
  change_spans place (s ∷ rest) c =
      let (start_line, start_index) = place s.first in
      let (end_line, end_index) = place s.last in
      local_change_group c (pos start_line) (pos end_line) (pos start_index) (pos end_index) s.font
        s.color
      >>= λ c'. change_spans place rest c'

  -- Editor::on_formatChange from `start` to `end`
  unfoldable pub on_format_change : Font → String → Document → ℕ → ℕ → Crdt → Outcome Crdt
  unfolding spans change_spans
  on_format_change no_font no_color d start end c =
      change_spans d.place (spans no_font no_color start (take (end - start) (drop start d.glyphs)))
        c
