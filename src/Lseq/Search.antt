-- ===== src/Lseq/Search.antt =====
-- The binary search of findIndexByPosition and findInsertIndex, between `l` and `r`; the model keeps
-- r + 1, which is a natural number, and goes on while l <= r.
use scriba.Prelude.{
  ℕ, zero, suc, ◌+◌, ◌-◌, ◌/◌, ◌≤◌, ◌<◌, ◌≡◌, ◌⊎◌, Ordering, true, false, List, ltb, arith, length,
  Outcome, ok, out_of_fuel, ◌>>=◌,
}
use scriba.Order.{TotalOrder}
use scriba.Order.Rank.{Increasing, rank, compared, compared-rank}

pub data Stop : Type 0 where
  found : ℕ → Stop
  ended : ℕ → Stop

abbrev pub midpoint : ℕ → ℕ → ℕ
midpoint l hi = (l + (hi - 1)) / 2

-- while (l <= r) { m = (l + r) / 2; ... }
unfoldable pub search : (ℕ → Outcome Ordering) → ℕ → ℕ → ℕ → Outcome Stop
search probe zero l hi = out_of_fuel
search probe (suc fuel) l hi = elim (ltb l hi) [
  | false ↦ ok (ended l)
  | true ↦ probe (midpoint l hi) >>= λ c. elim c [
    | Ordering.eq ↦ ok (found (midpoint l hi))
    | Ordering.gt ↦ search probe fuel (midpoint l hi + 1) hi
    | Ordering.lt ↦ search probe fuel l (midpoint l hi)
  ]
]

module _ {A : Type 0} (o : TotalOrder A) (s : A) (xs : List A) where
  -- The place found, or the rank, where the element there is above `s` if there is one.
  abbrev pub Ends : Outcome Stop → Type 0
  Ends (ok (found m)) = (m < length xs) × (compared o s xs m ≡ Ordering.eq)
  Ends (ok (ended l)) = (rank o s xs ≡ l) × ((l ≡ length xs) ⊎ (compared o s xs l ≡ Ordering.lt))
  Ends _ = ⊥

  module _ (probe : ℕ → Outcome Ordering)
      (reads : (i : ℕ) → i < length xs → probe i ≡ ok (compared o s xs i))
      (inc : Increasing o xs) where
    -- With more fuel than places left the loop ends.
    pub search-Ends :
        (fuel l hi : ℕ)
        → l ≤ rank o s xs
        → rank o s xs ≤ hi
        → hi ≤ length xs
        → (hi ≡ length xs) ⊎ (compared o s xs hi ≡ Ordering.lt)
        → hi - l < fuel
        → Ends (search probe fuel l hi)
    unfolding search
    search-Ends zero l hi a b c d f = elim f [ ]
    search-Ends (suc fuel) l hi a b c d f = ground (
      arith,
      reads (midpoint l hi),
      compared-rank o s xs (midpoint l hi) inc,
      search-Ends fuel (midpoint l hi + 1) hi,
      search-Ends fuel l (midpoint l hi),
    )
