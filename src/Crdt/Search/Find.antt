-- ===== src/Crdt/Search/Find.antt =====
-- findPosition on a document with ordered lines.
use scriba.Prelude.{
  ℕ, ◌-◌, ◌≡◌, refl, ◌≢◌, Ordering, false, List, ◌∷◌, Option, none, some, arith, length, get_elem?,
  flatten, Outcome, ok, Ordering-cases, ◌⊎◌, inl, inr,
}
use scriba.Order.Rank.{rank-le-length, contains, compared-rank, contains_at}
use scriba.Order.Blocks.{last, lasts, get_last?-last, length-lasts, row_of_index}
use scriba.Order.Blocks.Edit.{contains_block, contains_above}
use scriba.Symbol.{Symbol, compare}
use scriba.Symbol.Compare.{symbol_order}
use scriba.Crdt.Search.{compare_first, find_index_in_line, find_position, search_lines}
use scriba.Crdt.Search.Line.{find_index_in_line-reported, reported}
use scriba.Crdt.Search.Place.{IsOrdered, P, line_of, search_lines-Finds, increasing}

module _ (s : Symbol) (x : Symbol) (xs : List Symbol) (ls : List (List Symbol)) where
  abbrev lines : List (List Symbol)
  lines = (x ∷ xs) ∷ ls

  abbrev end : ℕ
  end = length lines - 1

  -- What findPosition answers: nothing outside the document's range; within it the line whose
  -- last symbol is the first one not below `s`, with the rank of `s` in it if it is there, and
  -- with index 0 if it is not.
  abbrev pub Answers : Outcome (Option (ℕ × ℕ)) → Type 0
  Answers r =
      ((r ≡ ok none)
        × ((compare s x ≡ Ordering.lt) ⊎ (P s lines end ≡ Ordering.gt))
        × (contains symbol_order s (flatten lines) ≡ false))
      ⊎ ((l : List Symbol) × (get_elem? lines (line_of s lines) ≡ some l)
          × (contains symbol_order s (flatten lines) ≡ contains symbol_order s l)
          × (r ≡ ok (some (line_of s lines, reported s l)))
          × (compare s x ≢ Ordering.lt)
          × (P s lines end ≢ Ordering.gt))

  outside :
      (y : Symbol) (ys : List Symbol)
      → get_elem? lines end ≡ some (y ∷ ys)
      → get_elem? (lasts lines) end ≡ some (last y ys)
      → (compare s x ≡ Ordering.lt) ⊎ (P s lines end ≡ Ordering.gt)
      → find_position s lines ≡ ok none
  unfolding find_position compare_first
  outside y ys e f h = ground (arith, e, f, h, get_last?-last y ys)

  inside :
      (y : Symbol) (ys l : List Symbol)
      → get_elem? lines end ≡ some (y ∷ ys)
      → get_elem? (lasts lines) end ≡ some (last y ys)
      → compare s x ≢ Ordering.lt
      → P s lines end ≢ Ordering.gt
      → search_lines find_index_in_line s lines ≡ ok (line_of s lines, reported s l)
      → find_position s lines ≡ ok (some (line_of s lines, reported s l))
  unfolding find_position compare_first
  inside y ys l e f h k run = ground (arith, e, f, h, k, run, get_last?-last y ys)

  above_all :
      IsOrdered lines
      → P s lines end ≡ Ordering.gt
      → contains symbol_order s (flatten lines) ≡ false
  above_all w h =
      let count = length-lasts lines w.non_empty in
      contains_above symbol_order s lines w.non_empty w.increasing (
        omega (
          arith,
          count,
          (compared-rank symbol_order s (lasts lines) end (increasing s lines w)
                (omega (arith, count))).2
              h,
          rank-le-length symbol_order s (lasts lines),
        ))

  within :
      IsOrdered lines
      → (y : Symbol) (ys : List Symbol) → get_elem? lines end ≡ some (y ∷ ys)
      → get_elem? (lasts lines) end ≡ some (last y ys)
      → compare s x ≢ Ordering.lt
      → P s lines end ≢ Ordering.gt
      → Answers (find_position s lines)
  within w y ys e f h k =
      let (l, el, run) =
        search_lines-Finds s lines w find_index_in_line (reported s)
          (λ z zs. find_index_in_line-reported s (length lines) z zs)
          (λ z zs inc c. ground (
            arith,
            (compared-rank symbol_order s (z ∷ zs) (length zs) inc (omega arith)).0 c,
            contains_at symbol_order s (z ∷ zs) (length zs) inc (omega arith) c,
          ))
          (omega arith) k in
      inr (
        l,
        el,
        contains_block symbol_order s lines (line_of s lines) w.non_empty w.increasing el refl,
        inside y ys l e f h k run,
        h,
        k,
      )

  -- On ordered lines findPosition returns, and in one of two ways. It answers false, where `s` is
  -- below the first symbol or above the last one, and then no symbol at its position is in the
  -- document. Otherwise it answers true with the line whose last symbol is the first one not below
  -- `s`, which is where `s` is if it is in the document; the index is the rank of `s` in the line if
  -- it is there, and 0 if it is not.
  pub find_position-Answers : IsOrdered lines → Answers (find_position s lines)
  find_position-Answers w =
      let (y, ys, e, f) = row_of_index lines end w.non_empty (omega arith) in
      elim (Ordering-cases (compare s x)) [
        | inl c ↦ inl (outside y ys e f (inl c), inl c, ground (arith, c))
        | inr c ↦ elim (Ordering-cases (P s lines end)) [
          | inr (inr d) ↦ inl (outside y ys e f (inr d), inr d, above_all w d)
          | inl d ↦ within w y ys e f (λ g. ground (arith, c, g)) (λ g. ground (arith, d, g))
          | inr (inl d) ↦ within w y ys e f (λ g. ground (arith, c, g)) (λ g. ground (arith, d, g))
        ]
      ]
