-- ===== src/Crdt/Position/Digit.antt =====
-- generateIdBetween: the digit drawn lies strictly between its two bounds.
use scriba.Prelude.{ℕ, zero, suc, ap, ◌+◌, ◌%◌, ◌≡◌, refl, Bool, true, false, arith, ok}
use scriba.Prelude.Int.{
  ℤ, pos, negsuc, pos_part, neg_part, ◌+ℤ◌, ◌-ℤ◌, ◌≤ℤ◌, min_ℤ, min_ℤ-le, le-min_ℤ, int_laws,
}
use native.Mathlib.Nat.{mod-lt}
use scriba.Crdt.Position.Level.{◌<ℤ◌}
use scriba.Crdt.Position.{Entropy, boundary, random_between, strategy, generate_id_between}

positive : (d : ℤ) → pos 1 ≤ℤ d → (k : ℕ) × (d ≡ pos (suc k))
positive (pos zero) h = absurd (omega arith)
positive (pos (suc k)) h = (k, refl)
positive (negsuc k) h = absurd (omega arith)

module _ (coin : ℕ → Bool) (rand : ℕ → ℕ) where
  abbrev Drawn : ℤ → ℤ → Entropy → Type 0
  Drawn n1 n2 e =
      (r : ℤ) × (random_between coin rand n1 n2 e ≡ ok (r, record e { draws = e.draws + 1 }))
      × (n1 ≤ℤ r)
      × (r ≤ℤ n2)

  draw_at : (n1 n2 : ℤ) (e : Entropy) (k : ℕ) → n2 -ℤ n1 +ℤ pos 1 ≡ pos (suc k) → Drawn n1 n2 e
  unfolding random_between
  draw_at n1 n2 e k eq = (
    n1 +ℤ pos (rand e.draws % suc k),
    rw (random_between, eq),
    omega int_laws,
    omega
        (int_laws, ap pos_part eq, ap neg_part eq, mod-lt (rand e.draws) {m = suc k} (omega arith)),
  )

  -- The result lies in the range asked for, and one number is drawn.
  pub random_between_bounds : (n1 n2 : ℤ) (e : Entropy) → n1 ≤ℤ n2 → Drawn n1 n2 e
  random_between_bounds n1 n2 e h =
      let (k, eq) = positive (n2 -ℤ n1 +ℤ pos 1) (omega int_laws) in draw_at n1 n2 e k eq

  abbrev pub Chosen : ℤ → ℤ → ℕ → Entropy → Type 0
  Chosen id1 id2 level e =
      (d : ℤ) × (e' : Entropy) × (generate_id_between coin rand id1 id2 level e ≡ ok (d, e'))
      × (id1 <ℤ d)
      × (d <ℤ id2)

  choose_at :
      (id1 id2 : ℤ) (level : ℕ) (e e' : Entropy) (plus : Bool)
      → id1 +ℤ pos 1 <ℤ id2
      → strategy coin rand level e ≡ (plus, e')
      → Drawn (pos 1) (min_ℤ boundary (id2 -ℤ id1) -ℤ pos 1) e'
      → Chosen id1 id2 level e
  unfolding generate_id_between
  choose_at id1 id2 level e e' true h s (r, eq, lo, hi) = (
    id1 +ℤ r,
    record e' { draws = e'.draws + 1 },
    rw (s, eq),
    omega int_laws,
    omega (int_laws, min_ℤ-le boundary (id2 -ℤ id1)),
  )
  choose_at id1 id2 level e e' false h s (r, eq, lo, hi) = (
    id2 -ℤ r,
    record e' { draws = e'.draws + 1 },
    rw (s, eq),
    omega (int_laws, min_ℤ-le boundary (id2 -ℤ id1)),
    omega int_laws,
  )

  -- Between two digits with one between them, generateIdBetween returns such a digit: it never
  -- divides by zero, whatever the strategy and the numbers drawn.
  pub generate_id_between_bounds :
      (id1 id2 : ℤ) (level : ℕ) (e : Entropy) → id1 +ℤ pos 1 <ℤ id2 → Chosen id1 id2 level e
  generate_id_between_bounds id1 id2 level e h = choose_at id1 id2 level e _ _ h refl (
      random_between_bounds (pos 1) (min_ℤ boundary (id2 -ℤ id1) -ℤ pos 1) _
        (omega (int_laws, le-min_ℤ (pos 2) boundary (id2 -ℤ id1))))
