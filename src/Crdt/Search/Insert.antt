-- ===== src/Crdt/Search/Insert.antt =====
-- findInsertPosition on a document with ordered lines.
use scriba.Prelude.{
  ℕ, ◌-◌, ◌≡◌, refl, ◌≢◌, Ordering, List, ◌∷◌, some, arith, length, get_elem?, Outcome, ok,
  Ordering-cases, inl, inr,
}
use scriba.Order.Rank.{rank, compared-rank}
use scriba.Order.Blocks.{
  last, lasts, get_last?-last, length-lasts, row_of_index, head-le-last, block-Increasing,
}
use scriba.Symbol.{Symbol, compare}
use scriba.Symbol.Compare.{symbol_order}
use scriba.Crdt.Search.{
  compare_first, find_insert_index_in_line, find_insert_position, find_end_position, search_lines,
}
use scriba.Crdt.Search.Line.{find_insert_index_in_line-rank}
use scriba.Crdt.Search.Place.{IsOrdered, P, line_of, search_lines-Finds, increasing}

module _ (s : Symbol) (x : Symbol) (xs : List Symbol) (ls : List (List Symbol)) where
  abbrev lines : List (List Symbol)
  lines = (x ∷ xs) ∷ ls

  -- The place found: the line that the rank names, and the rank within it.
  abbrev pub InsertsAt : Outcome (ℕ × ℕ) → Type 0
  InsertsAt r =
      (l : List Symbol) × (get_elem? lines (line_of s lines) ≡ some l)
      × (r ≡ ok (line_of s lines, rank symbol_order s l))

  abbrev end : ℕ
  end = length lines - 1

  first-rank :
      IsOrdered lines
      → compare s x ≢ Ordering.gt
      → (line_of s lines ≡ 0) × (rank symbol_order s (x ∷ xs) ≡ 0)
  first-rank w h =
      let low =
        head-le-last symbol_order s x xs (block-Increasing symbol_order lines 0 w.increasing refl)
          h in
      (ground (arith, low), ground arith)

  at_first :
      IsOrdered lines
      → compare s x ≢ Ordering.gt
      → (y : Symbol) (ys : List Symbol) → get_elem? lines end ≡ some (y ∷ ys)
      → InsertsAt (find_insert_position s lines)
  unfolding find_insert_position compare_first
  at_first w h y ys e = let (a, b) = first-rank w h in (x ∷ xs, rw a, ground (arith, e, h, a, b))

  past_first :
      (y : Symbol) (ys l : List Symbol)
      → compare s x ≡ Ordering.gt
      → get_elem? lines end ≡ some (y ∷ ys)
      → get_elem? (lasts lines) end ≡ some (last y ys)
      → P s lines end ≢ Ordering.gt
      → search_lines find_insert_index_in_line s lines ≡ ok (line_of s lines, rank symbol_order s l)
      → find_insert_position s lines ≡ ok (line_of s lines, rank symbol_order s l)
  unfolding find_insert_position compare_first
  past_first y ys l c e f low run = ground (arith, e, f, get_last?-last y ys, c, run, low)

  -- With ordered lines and `s` not above the last symbol, findInsertPosition returns the line
  -- whose last symbol is the first one not below `s`, and the rank of `s` in it.
  pub find_insert_position-InsertsAt :
      IsOrdered lines → P s lines end ≢ Ordering.gt → InsertsAt (find_insert_position s lines)
  find_insert_position-InsertsAt w low =
      let (y, ys, e, f) = row_of_index lines end w.non_empty (omega arith) in
      let (l, el, run) =
        search_lines-Finds s lines w find_insert_index_in_line (rank symbol_order s)
          (λ z zs. find_insert_index_in_line-rank s (length lines) z zs)
          (λ z zs inc c. (compared-rank symbol_order s (z ∷ zs) (length zs) inc (omega arith)).0 c)
          (omega arith) low in
      elim (Ordering-cases (compare s x)) [
        | inl c ↦ at_first w (λ g. ground (arith, c, g)) y ys e
        | inr (inl c) ↦ at_first w (λ g. ground (arith, c, g)) y ys e
        | inr (inr c) ↦ (l, el, past_first y ys l c e f low run)
      ]

  -- With ordered lines and `s` above the last symbol, findInsertPosition returns the place that
  -- findEndPosition computes from the last line.
  pub find_insert_position-end :
      IsOrdered lines
      → P s lines end ≡ Ordering.gt
      → (y : Symbol) (ys : List Symbol) → get_elem? lines end ≡ some (y ∷ ys)
      → find_insert_position s lines ≡ ok (find_end_position (last y ys) (y ∷ ys) (length lines))
  unfolding find_insert_position compare_first
  find_insert_position-end w high y ys e =
      let (z, zs, e', f) = row_of_index lines end w.non_empty (omega arith) in
      let above =
        (compared-rank symbol_order s (lasts lines) end (increasing s lines w)
            (omega (arith, length-lasts lines w.non_empty))).2
          high in
      ground (
        arith,
        e,
        e',
        f,
        high,
        above,
        get_last?-last y ys,
        λ (h : compare s x ≢ Ordering.gt). first-rank w h,
      )
