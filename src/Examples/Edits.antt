-- ===== src/Examples/Edits.antt =====
-- Edits of the document "ab\nc" at one editor and at another.
use scriba.Prelude.{
  ℕ, ◌+◌, ◌<◌, ◌≡◌, refl, ◌≢◌, Ordering, List, [], Bool, true, false, some, arith, flatten, set,
  erase_at, ok, get_elem?,
}
use scriba.Prelude.Int.{ℤ, pos}
use scriba.Order.Rank.{rank, contains}
use scriba.Order.Blocks.Offset.{start}
use scriba.Symbol.{Symbol, Font, compare, compare_position, compare_identifier}
use scriba.Symbol.Compare.{symbol_order}
use scriba.Order.Bisect.{bisect}
use scriba.Crdt.Position.Spec.{clashes, IsPosition}
use scriba.Crdt.Search.Place.{IsOrdered}
use scriba.Crdt.Search.{
  find_position, compare_first, search_lines, compare_last, line_after, find_index_in_line,
  compare_at, index_after,
}
use scriba.Crdt.Lines.{find_pos_before, find_pos_after, get_symbol, line_length}
use scriba.Crdt.State.{Crdt, insert_symbol, one, send}
use scriba.Crdt.Remote.{handle_remote_insert, erase_one}
use scriba.Crdt.Remote.Insert.{Covers, Inserted, handle_remote_insert-sorted}
use scriba.Crdt.Remote.Erase.{erase_one-absent}
use scriba.Crdt.Local.{AlignFlags, local_insert}
use scriba.Crdt.Local.Insert.{Inserts, InsertedAt, clash_free}
use scriba.Crdt.Converge.{local_insert-converges}
use scriba.Examples.Documents.{plain, symbol_at, first_line, two_lines, two_lines-IsOrdered}

abbrev pub editor : ℤ → Crdt
editor site = record {
  site_id = site;
  symbols = two_lines;
  counter = pos 4;
  entropy = record { strategy_cache = []; coins = 0; draws = 0 };
  size = pos 4;
  sent = [];
  emitted = [];
}

abbrev pub flags : AlignFlags
flags = record {
  left = 1;
  leading = 1;
  h_center = 4;
  center = 132;
  right = 2;
  trailing = 2;
  absolute = 16;
}

abbrev pub arial : Font
arial = record {
  italic = false;
  bold = false;
  underline = false;
  point_size = pos 12;
  family = "Arial";
}

abbrev pub coin : ℕ → Bool
coin n = true

abbrev pub rand : ℕ → ℕ
rand n = n

covers :
    (digit : ℕ)
    → rank symbol_order (symbol_at 120 digit) (flatten two_lines) < 5
    → Covers two_lines (symbol_at 120 digit)
covers digit h = record { ordered = two_lines-IsOrdered; within = h }

pub in_range_12 : Covers two_lines (symbol_at 120 12)
unfolding compare compare_position compare_identifier
in_range_12 = covers 12 (omega arith)

pub in_range_5 : Covers two_lines (symbol_at 120 5)
unfolding compare compare_position compare_identifier
in_range_5 = covers 5 (omega arith)

pub fresh_12 : contains symbol_order (symbol_at 120 12) (flatten two_lines) ≡ false
unfolding compare compare_position compare_identifier
fresh_12 = refl

pub fresh_5 : contains symbol_order (symbol_at 120 5) (flatten two_lines) ≡ false
unfolding compare compare_position compare_identifier
fresh_5 = refl

pub differ : compare (symbol_at 120 12) (symbol_at 120 5) ≢ Ordering.eq
unfolding compare compare_position compare_identifier
differ e = ground (arith, e)

pub there_15 : contains symbol_order (symbol_at 99 15) (flatten two_lines) ≡ true
unfolding compare compare_position compare_identifier
there_15 = refl

single :
    (d : ℕ)
    → 0 < d
    → d < 32
    → IsPosition (symbol_at 97 d).position × ((symbol_at 97 d).position ≢ [])
single d l h = (((refl, h), (λ _. l), tt), λ e. cc e)

pub inserts : Inserts (editor (pos 2)) 0 1
unfolding find_pos_before find_pos_after get_symbol line_length clashes compare_identifier
inserts = record {
  ordered = two_lines-IsOrdered;
  placed = (
    single 3 (omega arith) (omega arith),
    (
      single 6 (omega arith) (omega arith),
      (
        single 9 (omega arith) (omega arith),
        (single 15 (omega arith) (omega arith), (single 31 (omega arith) (omega arith), tt)),
      ),
    ),
  );
  row = first_line;
  at_row = refl;
  within = omega arith;
  free =
      clash_free (editor (pos 2)) 0 1 (symbol_at 97 3).position (symbol_at 98 6).position refl refl
        refl;
}

handle_remote_insert-sorted_example :
    (c' : Crdt) × (handle_remote_insert (editor (pos 2)) (symbol_at 120 12) ≡ ok c')
    × Inserted (editor (pos 2)) (symbol_at 120 12) c'
handle_remote_insert-sorted_example =
    handle_remote_insert-sorted (editor (pos 2)) (symbol_at 120 12) in_range_12 fresh_12

absent_found : find_position (symbol_at 120 12) two_lines ≡ ok (some (1, 0))
unfolding find_position compare_first search_lines compare_last line_after find_index_in_line
    compare_at index_after bisect compare compare_position compare_identifier
absent_found = refl

erase_one-absent_example :
    (l : List Symbol) × (t : Symbol) × (c' : Crdt) × (◌≡◌ {A = ℕ} 0 0)
    × (get_elem? two_lines 1 ≡ some l)
    × (get_elem? l 0 ≡ some t)
    × (compare (symbol_at 120 12) t ≢ Ordering.eq)
    × (erase_one (editor (pos 2)) (symbol_at 120 12) ≡ ok (some ((1, 0), c')))
    × (flatten c'.symbols ≡ flatten (set two_lines 1 (erase_at 0 l)))
erase_one-absent_example =
    erase_one-absent (editor (pos 2)) (symbol_at 120 12) 1 0 two_lines-IsOrdered fresh_12
      absent_found

local_insert-converges_example :
    (s : Symbol) × (c' : Crdt) × (d' : Crdt) × (local_insert coin rand plain flags
        (editor (pos 2))
        (pos 0)
        (pos 1)
        120
        arial
        "#000000"
        1
      ≡ ok (send c' (one insert_symbol (pos 2) s)))
    × (handle_remote_insert (editor (pos 3)) s ≡ ok d')
    × (flatten d'.symbols ≡ flatten c'.symbols)
    × IsOrdered d'.symbols
    × InsertedAt (editor (pos 2)) (start two_lines 0 + 1) s c'
local_insert-converges_example =
    local_insert-converges coin rand plain flags (editor (pos 2)) (editor (pos 3)) 0 1 120 arial
      "#000000" 1 inserts (omega arith) two_lines-IsOrdered refl
