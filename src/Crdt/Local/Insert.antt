-- ===== src/Crdt/Local/Insert.antt =====
-- localInsert: the position that it makes puts the new symbol where the editor put the character.
use scriba.Prelude.{
  ℕ, ◌+◌, ◌≤◌, ◌≡◌, refl, sym, ◌∙◌, subst, inl, inr, List, some, arith, Bool, false, String, length,
  get_elem?, flatten, insert_at, ok,
}
use scriba.Prelude.Int.{pos, ◌+ℤ◌}
use scriba.Order.Rank.{Increasing, rank, contains, insert_sorted, insert_sorted-Increasing}
use scriba.Order.Blocks.Offset.{start, flatten-insert_at, insert_at-Fits}
use scriba.Symbol.{Symbol, SymbolFormat, Identifier, Font, make_symbol}
use scriba.Symbol.Compare.{symbol_order}
use scriba.Crdt.Search.Place.{IsOrdered}
use scriba.Crdt.Position.Spec.{IsBetween, clashes}
use scriba.Crdt.Position.Between.{generate_position_between-Generates}
use scriba.Crdt.Lines.{find_pos_before, find_pos_after}
use scriba.Crdt.Lines.Insert.{insert_char-flatten}
use scriba.Crdt.State.{Crdt, insert_symbol, one, send}
use scriba.Crdt.Local.{AlignFlags, align_single, insert_local, local_insert}
use scriba.Crdt.Local.Neighbours.{find_pos_before-symbol, find_pos_after-symbol}
use scriba.Crdt.Local.Fits.{
  Placed, neighbours-IsBelow, between-Fits, start-le, align_single-position, align_single-value,
  make_symbol-value, make_symbol-position,
}

-- The editor's state and the place where it inserts: ordered lines, well-formed positions, a place
-- within a line, and neighbours between which a position can be made without a clash of sites.
pub record Inserts (c : Crdt) (line index : ℕ) : Type 0 where
  pub ordered : IsOrdered c.symbols
  pub placed : Placed (flatten c.symbols)
  pub row : List Symbol
  pub at_row : get_elem? c.symbols line ≡ some row
  pub within : index ≤ length row
  pub free :
      (p q : List Identifier)
      → find_pos_before line index c.symbols ≡ ok p
      → find_pos_after line index c.symbols ≡ ok q
      → clashes c.site_id p q ≡ false

pub clash_free :
    (c : Crdt) (line index : ℕ) (p' q' : List Identifier)
    → find_pos_before line index c.symbols ≡ ok p'
    → find_pos_after line index c.symbols ≡ ok q'
    → clashes c.site_id p' q' ≡ false
    → (p q : List Identifier) → find_pos_before line index c.symbols ≡ ok p
    → find_pos_after line index c.symbols ≡ ok q
    → clashes c.site_id p q ≡ false
clash_free c line index p' q' e f h p q e' f' = ground (arith, e, f, h, e', f')

-- What a local insertion of `s` makes of a document, `k` being the place in the sequence.
abbrev pub InsertedAt : Crdt → ℕ → Symbol → Crdt → Type 0
InsertedAt c k s c' =
    (flatten c'.symbols ≡ insert_at k s (flatten c.symbols))
    × (flatten c'.symbols ≡ insert_sorted symbol_order s (flatten c.symbols))
    × Increasing symbol_order (flatten c'.symbols)
    × (contains symbol_order s (flatten c.symbols) ≡ false)
    × (rank symbol_order s (flatten c.symbols) ≡ k)
    × (c'.sent ≡ c.sent)
    × (c'.size ≡ c.size +ℤ pos 1)

module _ (coin : ℕ → Bool) (rand : ℕ → ℕ) (raw : SymbolFormat) where
  insert_local-InsertedAt :
      (aligned : Symbol → Symbol)
      → ((s : Symbol) → (aligned s).position ≡ s.position)
      → ((s : Symbol) → (aligned s).value ≡ s.value)
      → (c : Crdt) (line index value : ℕ) (font : Font) (color : String) → Inserts c line index
      → (s : Symbol) × (c' : Crdt) × (insert_local coin rand raw aligned c line index value font
            color
          ≡ ok (s, c'))
        × InsertedAt c (start c.symbols line + index) s c'
        × (s.value ≡ value)
  unfolding insert_local
  insert_local-InsertedAt aligned keeps keeps_value c line index value font color w =
      let (room, bound) = start-le c.symbols line index {l = w.row} w.at_row w.within in
      let (p, rp, before) =
        find_pos_before-symbol c.symbols w.ordered.non_empty line index w.row room w.at_row
          w.within in
      let (q, rq, after) =
        find_pos_after-symbol c.symbols w.ordered.non_empty line index w.row room w.at_row
          w.within in
      let k = start c.symbols line + index in
      let (vp, vq, lt) =
        neighbours-IsBelow c.symbols k p q w.ordered.increasing w.placed before after in
      elim (generate_position_between-Generates coin rand c.site_id p q c.entropy vp vq lt) [
        | inl (clash, _) ↦ ground (arith, clash, w.free p q rp rq)
        | inr (_, (z, e', run, b)) ↦
            let s = aligned (make_symbol raw value z (c.counter +ℤ pos 1) font color) in
            let at : s.position ≡ z =
              keeps _ ∙ make_symbol-position raw value z (c.counter +ℤ pos 1) font color in
            let (lines', done, flat, _) =
              insert_char-flatten s line index c.symbols w.at_row w.within in
            let (sorted, fresh, ranked) =
              insert_at-Fits symbol_order s (flatten c.symbols) k w.ordered.increasing bound (
                between-Fits c.symbols k p q w.ordered.increasing w.placed before after s
                  (subst (IsBetween p q) (sym at) b)) in
            let placed = flat ∙ flatten-insert_at c.symbols line index s w.at_row w.within in
            (
              s,
              record c {
                symbols = lines';
                counter = c.counter +ℤ pos 1;
                entropy = e';
                size = c.size +ℤ pos 1;
              },
              rw (rp, rq, run, done) refl,
              (
                placed,
                placed ∙ sorted,
                subst (Increasing symbol_order) (sym (placed ∙ sorted)) (
                    insert_sorted-Increasing symbol_order s (flatten c.symbols) w.ordered.increasing
                      fresh),
                fresh,
                ranked,
                refl,
                refl,
              ),
              keeps_value _ ∙ make_symbol-value raw value z (c.counter +ℤ pos 1) font color,
            )
      ]

  -- In a state as `Inserts` describes, localInsert returns and hands the client one message with
  -- one symbol: the document's sequence has that symbol at the place asked for, which is also where
  -- sorted insertion puts it; it was not in the document before, and the sequence is in order.
  pub local_insert-InsertedAt :
      (q : AlignFlags) (c : Crdt) (line index value : ℕ) (font : Font) (color : String) (flags : ℕ)
      → Inserts c line index
      → (s : Symbol) × (c' : Crdt) × (local_insert coin rand raw q c
            (pos line)
            (pos index)
            value
            font
            color
            flags
          ≡ ok (send c' (one insert_symbol c.site_id s)))
        × InsertedAt c (start c.symbols line + index) s c'
  unfolding local_insert
  local_insert-InsertedAt q c line index value font color flags w =
      let (s, c', run, done, _) =
        insert_local-InsertedAt (align_single q flags) (align_single-position q flags)
          (align_single-value q flags) c line index value font color w in
      (s, c', rw run refl, done)

  -- The same, with the character of the symbol.
  pub local_insert-value :
      (q : AlignFlags) (c : Crdt) (line index value : ℕ) (font : Font) (color : String) (flags : ℕ)
      → Inserts c line index
      → (s : Symbol) × (c' : Crdt) × (local_insert coin rand raw q c
            (pos line)
            (pos index)
            value
            font
            color
            flags
          ≡ ok (send c' (one insert_symbol c.site_id s)))
        × InsertedAt c (start c.symbols line + index) s c'
        × (s.value ≡ value)
  unfolding local_insert
  local_insert-value q c line index value font color flags w =
      let (s, c', run, done, same) =
        insert_local-InsertedAt (align_single q flags) (align_single-position q flags)
          (align_single-value q flags) c line index value font color w in
      (s, c', rw run refl, done, same)
