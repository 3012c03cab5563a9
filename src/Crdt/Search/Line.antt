-- ===== src/Crdt/Search/Line.antt =====
-- findInsertIndexInLine and findIndexInLine against the rank of a symbol in an increasing line.
use scriba.Prelude.{
  ℕ, ◌<◌, ◌≡◌, ◌≢◌, Ordering, List, ◌∷◌, arith, if◌then◌else◌, length, get_elem?_total, Outcome, ok,
  ◌>>=◌,
}
use scriba.Order.Rank.{
  Increasing, rank, contains, compared, compared-rank, contains-compared, contains_at,
}
use scriba.Order.Bisect.{Stop, found, narrowed, bisect, Ends, bisect-Ends}
use scriba.Symbol.{Symbol}
use scriba.Symbol.Compare.{symbol_order}
use scriba.Crdt.Search.{
  compare_at, index_after, find_index_in_line, insert_index_after, find_insert_index_in_line,
}

module _ (s : Symbol) (line : List Symbol) where
  abbrev pub P : ℕ → Ordering
  P = compared symbol_order s line

  pub compare_at-compared : (i : ℕ) → i < length line → compare_at s line i ≡ ok (P i)
  unfolding compare_at
  compare_at-compared i h = let (t, e) = get_elem?_total line i h in ground (arith, e)

  -- The search within a line starts past its first symbol and not past its last one.
  abbrev pub Starts : ℕ → Type 0
  Starts right = (right < length line) × (P 0 ≢ Ordering.lt) × (P right ≢ Ordering.gt)

  bisect-line :
      (right : ℕ)
      → right < length line
      → Ends P 0 right (bisect (compare_at s line) (length line) 0 right)
  bisect-line right h =
      bisect-Ends (compare_at s line) P (length line) compare_at-compared (length line) 0 right
        (omega arith) (omega arith) (omega arith)

  insert_index_after-rank :
      (right : ℕ) (r : Outcome Stop)
      → Increasing symbol_order line
      → Starts right
      → Ends P 0 right r
      → (r >>= insert_index_after s line) ≡ ok (rank symbol_order s line)
  unfolding insert_index_after
  insert_index_after-rank right (ok (found m)) inc st e =
      ground (arith, (compared-rank symbol_order s line m inc (omega arith)).0 e.0)
  insert_index_after-rank right (ok (narrowed l h)) inc st e = ground (
    arith,
    compare_at-compared l (omega arith),
    compared-rank symbol_order s line l inc (omega arith),
    compared-rank symbol_order s line h inc (omega arith),
  )
  insert_index_after-rank right (Outcome.throws t) inc st e = absurd e
  insert_index_after-rank right Outcome.undefined inc st e = absurd e
  insert_index_after-rank right Outcome.out_of_fuel inc st e = absurd e

  -- The index that findIndexInLine reports: 0 for a symbol that is not in the line.
  abbrev pub reported : ℕ
  reported = if contains symbol_order s line then rank symbol_order s line else 0

  index_after-reported :
      (right : ℕ) (r : Outcome Stop)
      → Increasing symbol_order line
      → Starts right
      → Ends P 0 right r
      → (r >>= index_after s line) ≡ ok reported
  unfolding index_after
  index_after-reported right (ok (found m)) inc st e = ground (
    arith,
    (compared-rank symbol_order s line m inc (omega arith)).0 e.0,
    contains_at symbol_order s line m inc (omega arith) e.0,
  )
  index_after-reported right (ok (narrowed l h)) inc st e = ground (
    arith,
    compare_at-compared l (omega arith),
    compare_at-compared h (omega arith),
    compared-rank symbol_order s line l inc (omega arith),
    compared-rank symbol_order s line h inc (omega arith),
    contains_at symbol_order s line l inc (omega arith),
    contains_at symbol_order s line h inc (omega arith),
    contains-compared symbol_order s line,
  )
  index_after-reported right (Outcome.throws t) inc st e = absurd e
  index_after-reported right Outcome.undefined inc st e = absurd e
  index_after-reported right Outcome.out_of_fuel inc st e = absurd e

  -- Past the test of the first symbol both searches test the last one and bisect.
  past_first :
      (right : ℕ) (after : Stop → Outcome ℕ) (bogus n : ℕ)
      → Starts right
      → ((r : Outcome Stop) → Ends P 0 right r → (r >>= after) ≡ ok n)
      → (compare_at s line right >>= λ c. elim c [
        | Ordering.gt ↦ ok bogus
        | _ ↦ bisect (compare_at s line) (length line) 0 right >>= after
      ])
        ≡ ok n
  past_first right after bogus n st run = rw (compare_at-compared right st.0) (
      ground
        (arith, run (bisect (compare_at s line) (length line) 0 right) (bisect-line right st.0)))

module _ (s : Symbol) (total : ℕ) (x : Symbol) (xs : List Symbol) where
  -- In an increasing line whose last symbol is not below `s`, findInsertIndexInLine returns the
  -- number of symbols below `s`.
  pub find_insert_index_in_line-rank :
      Increasing symbol_order (x ∷ xs)
      → compared symbol_order s (x ∷ xs) (length xs) ≢ Ordering.gt
      → find_insert_index_in_line total s (x ∷ xs) ≡ ok (rank symbol_order s (x ∷ xs))
  unfolding find_insert_index_in_line
  find_insert_index_in_line-rank inc low = ground (
    arith,
    λ (st : Starts s (x ∷ xs) (length xs)).
        past_first s (x ∷ xs) (length xs) _ total _ st
          (λ r. insert_index_after-rank s (x ∷ xs) (length xs) r inc st),
  )

  -- In an increasing line whose last symbol is not below `s`, findIndexInLine returns the number of
  -- symbols below `s` if a symbol at its position is in the line, and 0 if none is.
  pub find_index_in_line-reported :
      Increasing symbol_order (x ∷ xs)
      → compared symbol_order s (x ∷ xs) (length xs) ≢ Ordering.gt
      → find_index_in_line total s (x ∷ xs) ≡ ok (reported s (x ∷ xs))
  unfolding find_index_in_line
  find_index_in_line-reported inc low = ground (
    arith,
    λ (st : Starts s (x ∷ xs) (length xs)).
        past_first s (x ∷ xs) (length xs) _ total _ st
          (λ r. index_after-reported s (x ∷ xs) (length xs) r inc st),
  )
