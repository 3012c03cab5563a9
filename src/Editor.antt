-- ===== src/Editor.antt =====
-- Client/editor.cpp: how text that comes into the widget reaches the CRDT. What the widget answers
-- (characters, their fonts and colours, the alignment of a block) stands as values and parameters;
-- the drawing, the menus and the cursors of other users are left out.
pub mod Groups
pub mod Formats
pub mod Changes
use Prim.Native.Nat.{bit_or}
use Prim.Native.String.{String}
use scriba.Prelude.{
  ℕ, zero, suc, ◌+◌, Bool, true, false, List, [], ◌∷◌, ◌++◌, Option, none, some, if◌then◌else◌,
  ◌==◌, ◌&&◌, ◌||◌, not, Outcome, ok, undefined, ◌>>=◌,
}
use scriba.Prelude.Int.{ℤ, pos, ◌==ℤ◌}
use scriba.Symbol.{SymbolFormat, Font, align_left, align_center, align_right}
use scriba.Crdt.Search.{newline}
use scriba.Crdt.State.{Crdt}
use scriba.Crdt.Local.{AlignFlags, local_insert, local_insert_group}

-- alignmentConversion of a Qt::Alignment; another value ends with no return.
unfoldable pub alignment_of_flags : AlignFlags → ℕ → Outcome ℤ
alignment_of_flags q a =
    if (a == bit_or q.left q.leading) || (a == bit_or q.leading q.absolute)
    then ok align_left
    else if (a == q.center) || (a == q.h_center)
    then ok align_center
    else if (a == q.right) || (a == bit_or q.trailing q.absolute)
    then ok align_right
    else undefined

-- alignmentConversion of a SymbolFormat::Alignment
unfoldable pub flags_of_alignment : AlignFlags → ℤ → Outcome ℕ
flags_of_alignment q a =
    if a ==ℤ align_left
    then ok (bit_or q.left q.leading)
    else if a ==ℤ align_center
    then ok q.h_center
    else if a ==ℤ align_right
    then ok (bit_or q.trailing q.absolute)
    else undefined

-- A character of the text that was added, with what the cursor reads on its right.
pub record Glyph : Type 0 where
  pub value : ℕ
  pub font : Font
  pub color : String

-- A call of localInsertGroup, without the place, which each call moves on.
pub record Group : Type 0 where
  pub partial : List ℕ
  pub font : Font
  pub color : String
  pub align : ℕ

-- The variables of the loop: the group so far, the line and that of the character before, and the
-- format of the last character.
pub record Pending : Type 0 where
  pub group : Group
  pub line_prec : ℕ
  pub num_lines : ℕ
  pub last : Group

-- operator== of QFont and QColor, and the alignment of a block.
pub record Widget : Type 0 where
  pub same_font : Font → Font → Bool
  pub same_color : String → String → Bool
  pub block_align : ℕ → ℕ

module _ (w : Widget) where
  -- The alignment at a character: that of its block where a new line starts.
  abbrev pub align_at : Pending → ℕ
  align_at p = if p.num_lines == p.line_prec then p.group.align else w.block_align p.num_lines

  abbrev pub continues : Pending → Glyph → Bool
  continues p g =
      w.same_font g.font p.group.font
      && w.same_color g.color p.group.color
      && (align_at p == p.group.align)

  abbrev pub starts : Pending → Glyph → Group
  starts p g = record { partial = g.value ∷ []; font = g.font; color = g.color; align = align_at p }

  abbrev pub next : Pending → Glyph → Group → Pending
  next p g group = record {
    group = group;
    line_prec = p.num_lines;
    num_lines = if g.value == newline then p.num_lines + 1 else p.num_lines;
    last = starts p g;
  }

  -- One round of the loop: the character joins the group, or starts another.
  unfoldable pub group_step : Pending → Glyph → List Group × Pending
  group_step p g =
      if continues p g
      then ([], next p g (record p.group { partial = p.group.partial ++ g.value ∷ [] }))
      else (p.group ∷ [], next p g (starts p g))

  unfoldable pub group_rounds : Pending → List Glyph → List Group
  unfolding group_step
  group_rounds p [] = record p.last { partial = p.group.partial } ∷ []
  group_rounds p (g ∷ rest) = let (done, p') = group_step p g in done ++ group_rounds p' rest

  -- The groups of a text that starts in a line.
  unfoldable pub groups : ℕ → List Glyph → List Group
  unfolding group_rounds
  groups line [] = []
  groups line (g ∷ rest) =
      let none_yet : Group = record {
        partial = [];
        font = g.font;
        color = g.color;
        align = w.block_align line;
      } in
      group_rounds
        (record { group = none_yet; line_prec = line; num_lines = line; last = none_yet })
        (g ∷ rest)

  module _ (coin : ℕ → Bool) (rand : ℕ → ℕ) (raw : SymbolFormat) (q : AlignFlags) where
    -- The calls of localInsertGroup, each at the place where the one before has ended.
    unfoldable pub insert_groups : Crdt → ℕ → ℕ → List Group → Outcome Crdt
    insert_groups c line index [] = ok c
    insert_groups c line index (g ∷ rest) =
        local_insert_group coin rand raw q c (pos line) (pos index) g.partial g.font g.color g.align
        >>= λ (c', line', index'). insert_groups c' line' index' rest

    -- Editor::handleLocalInsertion: the text added at a place, and the alignment under the cursor. At
    -- the end of the widget's text there is no first character to look at.
    unfoldable pub handle_local_insertion : Crdt → ℕ → ℕ → ℕ → List Glyph → Outcome Crdt
    unfolding groups insert_groups
    handle_local_insertion c line index align [] = undefined
    handle_local_insertion c line index align (g ∷ rest) =
        if g.value == 0 then ok c else elim rest [
          | [] ↦ local_insert coin rand raw q c (pos line) (pos index) g.value g.font g.color align
          | g' ∷ rest' ↦ insert_groups c line index (groups line (g ∷ g' ∷ rest'))
        ]

    -- Editor::on_addCRDTterminator, with a font and a colour that are not set
    unfoldable pub on_add_crdt_terminator : Font → String → Crdt → Outcome Crdt
    on_add_crdt_terminator font color c =
        local_insert coin rand raw q c (pos 0) (pos 0) 0 font color q.left
