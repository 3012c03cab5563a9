-- ===== src/Order/Bisect.antt =====
-- The binary search of CRDT::findPosition, findIndexInLine, findInsertPosition and
-- findInsertIndexInLine: one loop over an array that a probe reads.
use scriba.Prelude.{
  ℕ, zero, suc, ◌+◌, ◌-◌, ◌/◌, ◌≤◌, ◌<◌, ◌≡◌, ◌⊎◌, Ordering, arith, true, false, ltb, Outcome, ok,
  out_of_fuel, ◌>>=◌,
}

-- How the loop ends: at a mid point that compares equal, or with the last two bounds.
pub data Stop : Type 0 where
  found : ℕ → Stop
  narrowed : ℕ → ℕ → Stop

abbrev pub midpoint : ℕ → ℕ → ℕ
midpoint lo hi = lo + (hi - lo) / 2

-- while (lo + 1 < hi) { mid = lo + (hi - lo) / 2; ... }
unfoldable pub bisect : (ℕ → Outcome Ordering) → ℕ → ℕ → ℕ → Outcome Stop
bisect probe zero lo hi = out_of_fuel
bisect probe (suc fuel) lo hi = elim (ltb (lo + 1) hi) [
  | false ↦ ok (narrowed lo hi)
  | true ↦ probe (midpoint lo hi) >>= λ c. elim c [
    | Ordering.eq ↦ ok (found (midpoint lo hi))
    | Ordering.lt ↦ bisect probe fuel lo (midpoint lo hi)
    | Ordering.gt ↦ bisect probe fuel (midpoint lo hi) hi
  ]
]

-- What the end says of a probe that reads `P`.
abbrev pub Ends : (P : ℕ → Ordering) → ℕ → ℕ → Outcome Stop → Type 0
Ends P lo hi (ok (found m)) = (P m ≡ Ordering.eq) × (lo < m) × (m < hi)
Ends P lo hi (ok (narrowed l h)) =
    (l ≤ h)
    × (h ≤ l + 1)
    × (lo ≤ l)
    × (h ≤ hi)
    × ((l ≡ lo) ⊎ (P l ≡ Ordering.gt))
    × ((h ≡ hi) ⊎ (P h ≡ Ordering.lt))
Ends P lo hi _ = ⊥

-- With a probe that reads every index up to `hi`, the loop ends within `hi - lo + 1` rounds.
pub bisect-Ends :
    (probe : ℕ → Outcome Ordering) (P : ℕ → Ordering) (n : ℕ)
    → ((i : ℕ) → i < n → probe i ≡ ok (P i))
    → (fuel lo hi : ℕ) → lo ≤ hi
    → hi ≤ n
    → hi - lo < fuel
    → Ends P lo hi (bisect probe fuel lo hi)
unfolding bisect
bisect-Ends probe P n reads zero lo hi a b f = elim f [ ]
bisect-Ends probe P n reads (suc fuel) lo hi a b f = ground (
  arith,
  reads (midpoint lo hi),
  bisect-Ends probe P n reads fuel lo (midpoint lo hi),
  bisect-Ends probe P n reads fuel (midpoint lo hi) hi,
)
