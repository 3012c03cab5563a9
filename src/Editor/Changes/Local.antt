-- ===== src/Editor/Changes/Local.antt =====
-- Typing and deleting in the widget: the CRDT's document stays the widget's text.
use Prim.Native.String.{String}
use scriba.Prelude.{
  ℕ, suc, ◌+◌, ◌≤◌, ◌≡◌, sym, ◌∙◌, ap, Bool, true, false, List, [], ◌∷◌, ◌++◌, none, arith, length,
  flatten, take, drop, insert_at, ok, ◌==◌, ◌&&◌, not,
}
use scriba.Prelude.Int.{pos, ◌+ℤ◌, ◌-ℤ◌, ltb_ℤ}
use scriba.Order.Blocks.Offset.{start}
use scriba.Order.Blocks.Cut.{slice, without}
use scriba.Symbol.{Symbol, SymbolFormat, Font}
use scriba.Crdt.State.{Crdt, delete_symbol, insert_symbol, many, one, send}
use scriba.Crdt.Local.{AlignFlags, local_erase_symbols, local_insert}
use scriba.Crdt.Local.Erase.{Erases, local_erase_symbols-Shortened}
use scriba.Crdt.Local.Insert.{Inserts, local_insert-value}
use scriba.Editor.{Glyph, Widget, handle_local_insertion}
use scriba.Editor.Formats.{Document}
use scriba.Editor.Changes.{
  Editor, on_contents_change, normal_operation, erase_at_position, insert_at_position, reset,
}
use scriba.Editor.Changes.Sync.{
  values, text, InSync, length-map, map-without, without-append, length-without, smaller, minus,
  larger, plus, insert_at-there, map-insert_at, insert_at-append,
}

-- At the start of the text the slot takes other branches where text was selected, typed or
-- pasted, or on an undo or a redo.
abbrev pub Calm : Editor → ℕ → Type 0
Calm e position =
    (position == 0) ≡ true
    → ((e.selected && not e.deleted) ≡ false)
      × (e.undo_flag ≡ false)
      × (e.redo_flag ≡ false)
      × (e.inserted ≡ false)
      × (ltb_ℤ (pos 0) e.pasted ≡ false)

module _ (w : Widget) (q : AlignFlags) (coin : ℕ → Bool) (rand : ℕ → ℕ) (raw : SymbolFormat) where
  erased_plainly :
      (no_font : Font) (no_color : String) (d : Document) (position n : ℕ) (e e' : Editor)
      → Calm e position
      → ltb_ℤ (pos (length d.glyphs)) e.crdt.size ≡ true
      → erase_at_position w q coin rand raw d position (pos (suc n)) e ≡ ok e'
      → on_contents_change w q coin rand raw no_font no_color d position (suc n) 0 e
        ≡ ok (reset w q coin rand raw e')
  unfolding on_contents_change normal_operation
  erased_plainly no_font no_color d position n e e' calm smaller run =
      ground (arith, calm, smaller, run)

  erased_at :
      (d : Document) (position line index n : ℕ) (e : Editor) (c' : Crdt)
      → d.place position ≡ (line, index)
      → local_erase_symbols e.crdt line index n ≡ ok c'
      → erase_at_position w q coin rand raw d position (pos n) e ≡ ok (record e { crdt = c' })
  unfolding erase_at_position
  erased_at d position line index n e c' at run = ground (arith, at, run)

  -- The document is the text before the change, and the text has lost `n` characters, one at least,
  -- at a position whose place in the CRDT is that of the widget; the lines are closed. At the start
  -- of the text the flags are as `Calm` says. The slot returns and hands the client one message with
  -- symbols to delete; the document is the text after the change, and the editor's flags are reset.
  pub on_contents_change-deletes :
      (no_font : Font) (no_color : String) (old : List Glyph) (d : Document)
      (position n line index : ℕ) (e : Editor)
      → InSync old e.crdt
      → d.glyphs ≡ without position (suc n) old
      → position + suc n ≤ length old
      → d.place position ≡ (line, index)
      → start e.crdt.symbols line + index ≡ position
      → Erases e.crdt.symbols line index (suc n)
      → Calm e position
      → (ss : List Symbol) × (c' : Crdt) × (on_contents_change w q coin rand raw no_font no_color d
            position
            (suc n)
            0
            e
          ≡ ok (
              reset w q coin rand raw
                (record e { crdt = send c' (many delete_symbol e.crdt.site_id none ss) })))
        × InSync d.glyphs c'
  on_contents_change-deletes no_font no_color old d position n line index e sync now within at
        agrees erases calm =
      let c = e.crdt in
      let (c', run, (flat, _, _, size, _, _)) =
        local_erase_symbols-Shortened c line index (suc n) erases in
      let ss = slice (start c.symbols line + index) (suc n) (flatten c.symbols) in
      let count = length-without position (suc n) old within in
      (
        ss,
        c',
        erased_plainly no_font no_color d position n e _ calm
            (smaller (length d.glyphs) (length old) c.size sync.same_size
              (omega (arith, count, ap length now)))
            (erased_at d position line index (suc n) e _ at run),
        record {
          same_text =
              ap values (flat ∙ ap (λ k. without k (suc n) (flatten c.symbols)) agrees)
              ∙ map-without (λ s. s.value) position (suc n) (flatten c.symbols)
              ∙ ap (without position (suc n)) sync.same_text
              ∙ without-append position (suc n) (text old) (0 ∷ [])
                  (omega (arith, within, length-map (λ g. g.value) old))
              ∙ ap (λ l. l ++ 0 ∷ [])
                  (sym (ap text now ∙ map-without (λ g. g.value) position (suc n) old));
          same_size =
              size
              ∙ ap (λ z. z -ℤ pos (suc n)) sync.same_size
              ∙ minus (length old) (suc n) (length d.glyphs) (omega (arith, count, ap length now));
        },
      )

  inserted_plainly :
      (no_font : Font) (no_color : String) (d : Document) (position : ℕ) (e e' : Editor)
      → Calm e position
      → ltb_ℤ e.crdt.size (pos (length d.glyphs)) ≡ true
      → insert_at_position w q coin rand raw d position (pos 1) e ≡ ok e'
      → on_contents_change w q coin rand raw no_font no_color d position 0 1 e
        ≡ ok (reset w q coin rand raw e')
  unfolding on_contents_change normal_operation
  inserted_plainly no_font no_color d position e e' calm larger run =
      ground (arith, calm, larger, run)

  inserted_at :
      (d : Document) (position line index : ℕ) (g : Glyph) (e : Editor) (c' : Crdt)
      → d.place position ≡ (line, index)
      → take 1 (drop position d.glyphs) ≡ g ∷ []
      → (g.value == 0) ≡ false
      → local_insert coin rand raw q e.crdt
          (pos line)
          (pos index)
          g.value
          g.font
          g.color
          d.current_align
        ≡ ok c'
      → insert_at_position w q coin rand raw d position (pos 1) e
        ≡ ok (record e { crdt = c'; undo_flag = false })
  unfolding insert_at_position handle_local_insertion
  inserted_at d position line index g e c' at single visible run =
      ground (arith, at, single, visible, run)

  -- The document is the text before the change, and the text has got a character, not the one with
  -- code 0, at a position whose place in the CRDT is that of the widget; the CRDT is in a state as
  -- `Inserts` describes. At the start of the text the flags are as `Calm` says.
  -- The slot returns and hands the client one message with the symbol of that character; the
  -- document is the text after the change, and the editor's flags are reset.
  pub on_contents_change-types :
      (no_font : Font) (no_color : String) (old : List Glyph) (d : Document) (g : Glyph)
      (position line index : ℕ) (e : Editor)
      → InSync old e.crdt
      → d.glyphs ≡ insert_at position g old
      → position ≤ length old
      → (g.value == 0) ≡ false
      → d.place position ≡ (line, index)
      → start e.crdt.symbols line + index ≡ position
      → Inserts e.crdt line index
      → Calm e position
      → (s : Symbol) × (c' : Crdt) × (on_contents_change w q coin rand raw no_font no_color d
            position 0 1 e
          ≡ ok (
              reset w q coin rand raw
                (record e { crdt = send c' (one insert_symbol e.crdt.site_id s) })))
        × InSync d.glyphs c'
  on_contents_change-types no_font no_color old d g position line index e sync now within visible at
        agrees inserts calm =
      let c = e.crdt in
      let (s, c', run, (placed, _, _, _, _, _, size), same) =
        local_insert-value coin rand raw q c line index g.value g.font g.color d.current_align
          inserts in
      let (there, count) = insert_at-there position g old within in
      (
        s,
        c',
        inserted_plainly no_font no_color d position e _ calm
            (larger (length d.glyphs) (length old) c.size sync.same_size
              (omega (arith, count, ap length now)))
            (inserted_at d position line index g e _ at
              (ap (λ l. take 1 (drop position l)) now ∙ there) visible run),
        record {
          same_text =
              ap values (placed ∙ ap (λ k. insert_at k s (flatten c.symbols)) agrees)
              ∙ map-insert_at (λ s. s.value) position s (flatten c.symbols)
              ∙ ap (λ v. insert_at position v (values (flatten c.symbols))) same
              ∙ ap (insert_at position g.value) sync.same_text
              ∙ insert_at-append position g.value (text old) (0 ∷ [])
                  (omega (arith, within, length-map (λ g. g.value) old))
              ∙ ap (λ l. l ++ 0 ∷ [])
                  (sym (ap text now ∙ map-insert_at (λ g. g.value) position g old));
          same_size =
              size
              ∙ ap (λ z. z +ℤ pos 1) sync.same_size
              ∙ plus (length old) (length d.glyphs) (omega (arith, count, ap length now));
        },
      )
