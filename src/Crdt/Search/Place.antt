-- ===== src/Crdt/Search/Place.antt =====
-- The search for the line: findInsertPosition and findPosition against the rank of a symbol
-- among the last symbols of the lines.
use scriba.Prelude.{
  ℕ, ◌-◌, ◌<◌, ◌≡◌, ◌≢◌, inl, inr, sym, ◌∙◌, Ordering, Ordering-cases, List, ◌∷◌, some, arith,
  length, get_elem?, flatten, Outcome, ok, ◌>>=◌,
}
use scriba.Order.Rank.{Increasing, rank, compared, compared-rank}
use scriba.Order.Bisect.{Stop, found, narrowed, bisect, Ends, bisect-Ends}
use scriba.Order.Blocks.{
  NonEmpty, lasts, get_last?-last, get_elem?-last, length-lasts, row_of_index, lasts-Increasing,
  block-Increasing,
}
use scriba.Symbol.{Symbol}
use scriba.Symbol.Compare.{symbol_order}
use scriba.Crdt.Search.{compare_last, line_after, search_lines}

-- Lines that hold something, with their symbols in increasing order.
pub record IsOrdered (lines : List (List Symbol)) : Type 0 where
  pub non_empty : NonEmpty lines
  pub increasing : Increasing symbol_order (flatten lines)

module _ (s : Symbol) (lines : List (List Symbol)) where
  -- `s` against the last symbol of a line.
  abbrev pub P : ℕ → Ordering
  P = compared symbol_order s (lasts lines)

  -- The line that holds the place of `s`.
  abbrev pub line_of : ℕ
  line_of = rank symbol_order s (lasts lines)

module _ (s : Symbol) (lines : List (List Symbol)) (w : IsOrdered lines) where
  pub increasing : Increasing symbol_order (lasts lines)
  increasing = lasts-Increasing symbol_order lines w.increasing

  pub compare_last-compared : (i : ℕ) → i < length lines → compare_last s lines i ≡ ok (P s lines i)
  unfolding compare_last
  compare_last-compared i h =
      let (x, xs, e, f) = row_of_index lines i w.non_empty h in
      ground (arith, e, f, get_last?-last x xs)

  bisect-lines :
      (right : ℕ)
      → right < length lines
      → Ends (P s lines) 0 right (bisect (compare_last s lines) (length lines) 0 right)
  bisect-lines right h =
      bisect-Ends (compare_last s lines) (P s lines) (length lines) compare_last-compared
        (length lines) 0 right (omega arith) (omega arith) (omega arith)

  module _ (in_line : ℕ → Symbol → List Symbol → Outcome ℕ) (f : List Symbol → ℕ)
      (runs : (x : Symbol) (xs : List Symbol)
        → Increasing symbol_order (x ∷ xs)
        → compared symbol_order s (x ∷ xs) (length xs) ≢ Ordering.gt
        → in_line (length lines) s (x ∷ xs) ≡ ok (f (x ∷ xs)))
      (at_end : (x : Symbol) (xs : List Symbol)
        → Increasing symbol_order (x ∷ xs)
        → compared symbol_order s (x ∷ xs) (length xs) ≡ Ordering.eq
        → f (x ∷ xs) ≡ length xs) where
    abbrev pub Finds : Outcome (ℕ × ℕ) → Type 0
    Finds r =
        (l : List Symbol) × (get_elem? lines (line_of s lines) ≡ some l)
        × (r ≡ ok (line_of s lines, f l))

    in_block :
        (i : ℕ)
        → i < length lines
        → P s lines i ≢ Ordering.gt
        → (x : Symbol) × (xs : List Symbol) × (get_elem? lines i ≡ some (x ∷ xs))
          × (in_line (length lines) s (x ∷ xs) ≡ ok (f (x ∷ xs)))
          × (P s lines i ≡ Ordering.eq → f (x ∷ xs) ≡ length xs)
    in_block i h low =
        let (x, xs, e, g) = row_of_index lines i w.non_empty h in
        let inc = block-Increasing symbol_order lines i w.increasing e in
        let same : compared symbol_order s (x ∷ xs) (length xs) ≡ P s lines i =
          ground (arith, g, get_elem?-last x xs) in
        (x, xs, e, runs x xs inc (λ k. low (sym same ∙ k)), λ k. at_end x xs inc (same ∙ k))

    found-Finds :
        (m : ℕ)
        → m < length lines
        → P s lines m ≡ Ordering.eq
        → Finds (line_after in_line s lines (found m))
    unfolding line_after
    found-Finds m h c =
        let (x, xs, e, run, end) = in_block m h (λ g. ground (arith, c, g)) in
        let r =
          (compared-rank symbol_order s (lasts lines) m increasing
              (omega (arith, length-lasts lines w.non_empty))).0
            c in
        (x ∷ xs, rw r e, ground (arith, r, e, end c))

    -- One of the two lines left, once the search is told to look there.
    chosen-Finds :
        (m : ℕ) (r : Outcome (ℕ × ℕ))
        → m < length lines
        → P s lines m ≢ Ordering.gt
        → line_of s lines ≡ m
        → ((l : List Symbol)
            → get_elem? lines m ≡ some l
            → r ≡ (in_line (length lines) s l >>= λ index. ok (m, index)))
        → Finds r
    chosen-Finds m r h low eq read =
        let (x, xs, e, run, _) = in_block m h low in
        (x ∷ xs, rw eq e, read (x ∷ xs) e ∙ rw (run, eq))

    narrowed-Finds :
        (right a b : ℕ)
        → right < length lines
        → P s lines right ≢ Ordering.gt
        → Ends (P s lines) 0 right (ok (narrowed a b))
        → Finds (line_after in_line s lines (narrowed a b))
    unfolding line_after
    narrowed-Finds right a b h low e =
        let count = length-lasts lines w.non_empty in
        let ra = compared-rank symbol_order s (lasts lines) a increasing (omega (arith, count)) in
        let rb = compared-rank symbol_order s (lasts lines) b increasing (omega (arith, count)) in
        let read_a = compare_last-compared a (omega arith) in
        elim (Ordering-cases (P s lines a)) [
          | inl c ↦
              chosen-Finds a _ (omega arith) (λ g. ground (arith, c, g)) (ground (arith, c, ra))
                (λ l k. ground (arith, c, k, read_a))
          | inr (inl c) ↦
              chosen-Finds a _ (omega arith) (λ g. ground (arith, c, g)) (ra.0 c)
                (λ l k. ground (arith, c, k, read_a))
          | inr (inr c) ↦
              chosen-Finds b _ (omega arith) (λ g. ground (arith, c, g, low))
                (ground (arith, c, ra, rb, low)) (λ l k. ground (arith, c, k, read_a))
        ]

    line_after-Finds :
        (right : ℕ) (r : Outcome Stop)
        → right < length lines
        → P s lines right ≢ Ordering.gt
        → Ends (P s lines) 0 right r
        → Finds (r >>= line_after in_line s lines)
    line_after-Finds right (ok (found m)) h low e = found-Finds m (omega arith) e.0
    line_after-Finds right (ok (narrowed a b)) h low e = narrowed-Finds right a b h low e
    line_after-Finds right (Outcome.throws t) h low e = absurd e
    line_after-Finds right Outcome.undefined h low e = absurd e
    line_after-Finds right Outcome.out_of_fuel h low e = absurd e

    -- With `s` not above the last symbol, the search ends at the line that the rank names.
    pub search_lines-Finds :
        0 < length lines
        → P s lines (length lines - 1) ≢ Ordering.gt
        → Finds (search_lines in_line s lines)
    unfolding search_lines
    search_lines-Finds h low =
        line_after-Finds (length lines - 1) _ (omega arith) low
          (bisect-lines (length lines - 1) (omega arith))
