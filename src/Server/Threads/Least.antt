-- ===== src/Server/Threads/Least.antt =====
-- std::min_element as Server::incomingConnection uses it.
use scriba.Prelude.{
  ℕ, Bool, suc, zero, ◌+◌, ◌<◌, ◌≡◌, refl, sym, ◌∙◌, ap, subst, true, false, List, [], ◌∷◌, some,
  Bool-cases, inl, inr, ◌⊎◌, if◌then◌else◌, length, get_elem?, arith,
}
use scriba.Prelude.Int.{ℤ, ◌≤ℤ◌, ltb_ℤ}
use scriba.Server.Threads.{min_element, least_loaded}

-- The place of a least element among those from the place i on, and one seen before.
abbrev Least : ℤ → ℕ → ℕ → List ℤ → ℕ → Type 0
Least least best i xs k =
    (v : ℤ) × (v ≤ℤ least)
    × ((j : ℕ) (x : ℤ) → get_elem? xs j ≡ some x → v ≤ℤ x)
    × (((k ≡ best) × (v ≡ least)) ⊎ ((m : ℕ) × (k ≡ i + m) × (get_elem? xs m ≡ some v)))

Least-first :
    (v x : ℤ) (xs : List ℤ)
    → v ≤ℤ x
    → ((j : ℕ) (y : ℤ) → get_elem? xs j ≡ some y → v ≤ℤ y)
    → (j : ℕ) (y : ℤ) → get_elem? (x ∷ xs) j ≡ some y
    → v ≤ℤ y
Least-first v x xs low all zero y e = ground (arith, low, e)
Least-first v x xs low all (suc j) y e = all j y e

Least-lower :
    (least : ℤ) (best i : ℕ) (x : ℤ) (xs : List ℤ) (k : ℕ)
    → ltb_ℤ x least ≡ true
    → Least x i (i + 1) xs k
    → Least least best i (x ∷ xs) k
Least-lower least best i x xs k t (v, low, all, inl (p, q)) = (
  v,
  ground (arith, t, low),
  Least-first v x xs low all,
  inr (0, omega (arith, p), ap some (sym q)),
)
Least-lower least best i x xs k t (v, low, all, inr (m, p, q)) =
    (v, ground (arith, t, low), Least-first v x xs low all, inr (suc m, omega (arith, p), q))

Least-kept :
    (least : ℤ) (best i : ℕ) (x : ℤ) (xs : List ℤ) (k : ℕ)
    → ltb_ℤ x least ≡ false
    → Least least best (i + 1) xs k
    → Least least best i (x ∷ xs) k
Least-kept least best i x xs k t (v, low, all, inl (p, q)) =
    (v, low, Least-first v x xs (ground (arith, t, low)) all, inl (p, q))
Least-kept least best i x xs k t (v, low, all, inr (m, p, q)) =
    (v, low, Least-first v x xs (ground (arith, t, low)) all, inr (suc m, omega (arith, p), q))

min_element-Least :
    (least : ℤ) (best i : ℕ) (xs : List ℤ) → Least least best i xs (min_element least best i xs)
unfolding min_element
min_element-Least least best i [] =
    (least, omega arith, λ j x e. absurd (ground (arith, e)), inl (refl, refl))
min_element-Least least best i (x ∷ xs) =
    let chosen =
      λ (b : Bool). min_element (if b then x else least) (if b then i else best) (i + 1) xs in
    elim (Bool-cases (ltb_ℤ x least)) [
      | inl t ↦ subst (Least least best i (x ∷ xs)) (ap chosen (sym t)) (
          Least-lower least best i x xs (min_element x i (i + 1) xs) t
            (min_element-Least x i (i + 1) xs))
      | inr f ↦ subst (Least least best i (x ∷ xs)) (ap chosen (sym f)) (
          Least-kept least best i x xs (min_element least best (i + 1) xs) f
            (min_element-Least least best (i + 1) xs))
    ]

-- The place that is taken is one of the list, and its element is not above any other.
pub least_loaded-least :
    (l : List ℤ)
    → 0 < length l
    → (v : ℤ) × (get_elem? l (least_loaded l) ≡ some v)
      × ((j : ℕ) (x : ℤ) → get_elem? l j ≡ some x → v ≤ℤ x)
least_loaded-least [] r = absurd (omega arith)
least_loaded-least (x ∷ xs) r =
    let (v, low, all, place) = min_element-Least x 0 1 xs in
    (
      v,
      elim place [
        | inl (p, q) ↦ ap (get_elem? (x ∷ xs)) p ∙ ap some (sym q)
        | inr (m, p, q) ↦ ap (get_elem? (x ∷ xs)) {y = suc m} (omega (arith, p)) ∙ q
      ],
      Least-first v x xs low all,
    )
