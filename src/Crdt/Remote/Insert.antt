-- ===== src/Crdt/Remote/Insert.antt =====
-- handleRemoteInsert against insertion into an increasing sequence.
use mathlib.Core.Option.{some-injective}
use scriba.Prelude.{
  ℕ, ◌-◌, ◌<◌, ◌≡◌, refl, ◌≢◌, sym, ◌∙◌, subst, Ordering, false, List, [], ◌∷◌, some, arith, length,
  get_elem?, flatten, ok, Bool-cases, inl, inr, ◌==◌,
}
use scriba.Prelude.Int.{pos, ◌+ℤ◌}
use scriba.Order.Rank.{
  Increasing, rank, rank-le, rank-le-length, contains, compared-rank, insert_sorted,
  insert_sorted-Increasing,
}
use scriba.Order.Blocks.{lasts, length-lasts, get_elem?-last, row_of_index}
use scriba.Order.Blocks.Edit.{insert_block}
use scriba.Order.Blocks.Last.{rank-flatten}
use scriba.Symbol.{Symbol}
use scriba.Symbol.Compare.{symbol_order}
use scriba.Crdt.Search.Place.{IsOrdered, P, line_of, increasing}
use scriba.Crdt.Search.Insert.{find_insert_position-InsertsAt}
use scriba.Crdt.Lines.{insert_char}
use scriba.Crdt.Lines.Insert.{insert_char-flatten}
use scriba.Crdt.State.{Crdt, emit, insert}
use scriba.Crdt.Remote.{place_of, insert_remote, handle_remote_insert}

-- Ordered lines with a symbol that is not below `s`.
pub record Covers (lines : List (List Symbol)) (s : Symbol) : Type 0 where
  pub ordered : IsOrdered lines
  pub within : rank symbol_order s (flatten lines) < length (flatten lines)

last_not_below :
    (s : Symbol) (lines : List (List Symbol))
    → Covers lines s
    → (0 < length lines) × (P s lines (length lines - 1) ≢ Ordering.gt)
last_not_below s [] w = elim w.within [ ]
last_not_below s (l ∷ ls) w = (
  omega arith,
  λ g. omega (
    arith,
    w.within,
    rank-flatten symbol_order s (l ∷ ls) w.ordered.non_empty w.ordered.increasing (
        omega (
          arith,
          (compared-rank symbol_order s (lasts (l ∷ ls)) (length (l ∷ ls) - 1)
                (increasing s (l ∷ ls) w.ordered)
                (omega (arith, length-lasts (l ∷ ls) w.ordered.non_empty))).2
              g,
          rank-le-length symbol_order s (lasts (l ∷ ls)),
          length-lasts (l ∷ ls) w.ordered.non_empty,
        )),
  ),
)

-- The line that the rank names exists, and the rank within it is not its end.
pub rank-lt-line :
    (s : Symbol) (lines : List (List Symbol)) {l : List Symbol}
    → Covers lines s
    → get_elem? lines (line_of s lines) ≡ some l
    → (line_of s lines < length lines) × (rank symbol_order s l < length l)
rank-lt-line s lines w e =
    let count = length-lasts lines w.ordered.non_empty in
    let (some_line, low) = last_not_below s lines w in
    let inc = increasing s lines w.ordered in
    let ends =
      compared-rank symbol_order s (lasts lines) (length lines - 1) inc
        (omega (arith, count, some_line)) in
    let h : line_of s lines < length lines = ground (arith, some_line, low, ends) in
    let (y, ys, f, g) = row_of_index lines (line_of s lines) w.ordered.non_empty h in
    let here =
      compared-rank symbol_order s (lasts lines) (line_of s lines) inc (omega (arith, count)) in
    (
      h,
      subst (λ m. rank symbol_order s m < length m) (some-injective _ _ (sym f ∙ e))
          (omega (
            arith,
            rank-le symbol_order s (y ∷ ys) (length ys) (get_elem?-last y ys)
                (λ k. ground (arith, g, k, here)),
          )),
    )

place_of-rank :
    (s : Symbol) (lines : List (List Symbol))
    → Covers lines s
    → (l : List Symbol) × (get_elem? lines (line_of s lines) ≡ some l)
      × (place_of s lines ≡ ok (line_of s lines, rank symbol_order s l))
unfolding place_of
place_of-rank s [] w = elim w.within [ ]
place_of-rank s ([] ∷ ls) w = absurd w.ordered.non_empty
place_of-rank s ((x ∷ xs) ∷ ls) w =
    find_insert_position-InsertsAt s x xs ls w.ordered (last_not_below s ((x ∷ xs) ∷ ls) w).1

-- The place where a symbol goes, and the lines with it there.
pub insert_lines-sorted :
    (s : Symbol) (lines : List (List Symbol))
    → Covers lines s
    → contains symbol_order s (flatten lines) ≡ false
    → (place : ℕ × ℕ) × (lines' : List (List Symbol)) × (place_of s lines ≡ ok place)
      × (insert_char s place.0 place.1 lines ≡ ok lines')
      × (flatten lines' ≡ insert_sorted symbol_order s (flatten lines))
      × IsOrdered lines'
insert_lines-sorted s lines w fresh =
    let (l, e, p) = place_of-rank s lines w in
    let (lines', run, flat, full) =
      insert_char-flatten s (line_of s lines) (rank symbol_order s l) lines e
        (rank-le-length symbol_order s l) in
    let sorted =
      flat
      ∙ insert_block symbol_order s lines (line_of s lines) w.ordered.non_empty w.ordered.increasing
          e refl in
    (
      (line_of s lines, rank symbol_order s l),
      lines',
      p,
      run,
      sorted,
      record {
        non_empty = full w.ordered.non_empty (λ _. (rank-lt-line s lines w e).1);
        increasing =
            subst (Increasing symbol_order) (sym sorted)
              (insert_sorted-Increasing symbol_order s (flatten lines) w.ordered.increasing fresh);
      },
    )

abbrev pub Inserted : Crdt → Symbol → Crdt → Type 0
Inserted c s c' =
    (flatten c'.symbols ≡ insert_sorted symbol_order s (flatten c.symbols))
    × IsOrdered c'.symbols
    × (c'.size ≡ c.size +ℤ pos 1)
    × (c'.sent ≡ c.sent)

pub insert_remote-Inserted :
    (c : Crdt) (s : Symbol)
    → Covers c.symbols s
    → contains symbol_order s (flatten c.symbols) ≡ false
    → (place : ℕ × ℕ) × (c' : Crdt) × (insert_remote c s ≡ ok (place, c')) × Inserted c s c'
unfolding insert_remote
insert_remote-Inserted c s w fresh =
    let (place, lines', p, run, sorted, ordered) = insert_lines-sorted s c.symbols w fresh in
    (
      place,
      record c { symbols = lines'; size = c.size +ℤ pos 1 },
      rw (p, run) refl,
      (sorted, ordered, refl, refl),
    )

-- On ordered lines with a symbol that is not below `s`, and with none at its position,
-- handleRemoteInsert returns: the document's sequence is that of the reference insertion, its lines are ordered
-- again, its size is one more and nothing is sent.
pub handle_remote_insert-sorted :
    (c : Crdt) (s : Symbol)
    → Covers c.symbols s
    → contains symbol_order s (flatten c.symbols) ≡ false
    → (c' : Crdt) × (handle_remote_insert c s ≡ ok c') × Inserted c s c'
unfolding handle_remote_insert
handle_remote_insert-sorted c s w fresh =
    let (place, c', run, (sorted, ordered, size, sent)) = insert_remote-Inserted c s w fresh in
    elim (Bool-cases (s.value == 0)) [
      | inl z ↦ (c', ground (arith, run, z), (sorted, ordered, size, sent))
      | inr z ↦ (
        emit c' (insert place.0 place.1 s),
        ground (arith, run, z),
        (sorted, ordered, size, sent),
      )
    ]
