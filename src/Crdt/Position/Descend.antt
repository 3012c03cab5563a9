-- ===== src/Crdt/Position/Descend.antt =====
-- One level of generatePositionBetween, as facts about the two positions.
use mathlib.Core.List.{append_assoc}
use scriba.Prelude.{
  ◌+◌, ◌<◌, ◌≡◌, refl, sym, ◌∙◌, ap, ◌≢◌, inl, inr, Ordering, true, false, List, [], ◌∷◌, ◌++◌,
  arith, length, Outcome, ok,
}
use scriba.Prelude.Int.{ℤ, pos, pos_part, ◌≤ℤ◌, parts_disjoint}
use scriba.Symbol.{Identifier, compare_identifier, compare_position}
use scriba.Symbol.Compare.{compare_identifier_self, compare_identifier-flip}
use scriba.Crdt.Position.{later_site, backwards, base, Entropy}
use scriba.Crdt.Position.Level.{◌<ℤ◌, Gapped, compare_identifier_digit, compare_identifier_site}
use scriba.Crdt.Position.Spec.{
  InRange, IsPosition, clashes, IsBelow, IsBetween, Generates, head_or, tail,
}

-- One more identifier in front of a position found one level down.
pub extend :
    (me : ℤ) (i : Identifier) (p q p' q' new_pos : List Identifier)
    (r : Outcome (List Identifier × Entropy))
    → Generates me p' q' (new_pos ++ i ∷ []) r
    → clashes me p q ≡ clashes me p' q'
    → InRange i
    → ((z : List Identifier)
        → compare_position p' z ≡ Ordering.lt
        → compare_position p (i ∷ z) ≡ Ordering.lt)
    → ((z : List Identifier) → IsBelow z q' → IsBelow (i ∷ z) q)
    → Generates me p q new_pos r
extend me i p q p' q' new_pos r (inl (c, t)) same range low high = inl (same ∙ c, t)
extend me i p q p' q' new_pos r (inr (c, (z, e, t, (ne, pz, above, below)))) same range low high =
    inr (
      same ∙ c,
      (
        i ∷ z,
        e,
        t ∙ ap (λ l. ok (l, e)) (append_assoc new_pos (i ∷ []) z),
        ((λ x. cc), (range, (λ x. absurd (ne x)), pz), low z above, high z below),
      ),
    )

module _ (me : ℤ) where
  abbrev pub id1 : List Identifier → Identifier
  id1 = head_or (record { digit = pos 0; site = me })

  abbrev pub id2 : List Identifier → Identifier
  id2 = head_or (record { digit = base; site = me })

  -- What a level of the recursion may assume of the rest of the two positions.
  abbrev pub Rest : List Identifier → List Identifier → Type 0
  Rest p q = IsPosition p × IsPosition q × IsBelow p q

  -- What `extend` asks for when the recursion goes on with `tail p` and `q'`.
  abbrev pub Descends : List Identifier → List Identifier → List Identifier → Type 0
  Descends p q q' =
      (clashes me p q ≡ clashes me (tail p) q')
      × InRange (id1 p)
      × ((z : List Identifier)
          → compare_position (tail p) z ≡ Ordering.lt
          → compare_position p (id1 p ∷ z) ≡ Ordering.lt)
      × ((z : List Identifier) → IsBelow z q' → IsBelow (id1 p ∷ z) q)

  id1-InRange : (p : List Identifier) → IsPosition p → InRange (id1 p)
  id1-InRange [] v = (refl, omega arith)
  id1-InRange (x ∷ p) v = v.0

  below_descends :
      (p z : List Identifier)
      → compare_position (tail p) z ≡ Ordering.lt
      → compare_position p (id1 p ∷ z) ≡ Ordering.lt
  unfolding compare_position
  below_descends [] z h = refl
  below_descends (x ∷ p) z h = ground (arith, compare_identifier_self x)

  -- Two identifiers in increasing order decide the comparison.
  clashes-lt :
      (p q : List Identifier)
      → compare_identifier (id1 p) (id2 q) ≡ Ordering.lt
      → clashes me p q ≡ false
  unfolding clashes compare_identifier
  clashes-lt p [] h = refl
  clashes-lt [] (y ∷ q) h = ground arith
  clashes-lt (x ∷ p) (y ∷ q) h = ground arith

  IsBelow-lt :
      (i : Identifier) (z q : List Identifier)
      → compare_identifier i (id2 q) ≡ Ordering.lt
      → IsBelow (i ∷ z) q
  unfolding compare_position
  IsBelow-lt i z [] h = inl refl
  IsBelow-lt i z (y ∷ q) h = inr (ground arith)

  pub lt-Descends :
      (p q : List Identifier)
      → IsPosition p
      → compare_identifier (id1 p) (id2 q) ≡ Ordering.lt
      → Descends p q []
  unfolding clashes
  lt-Descends p q v h =
      (clashes-lt p q h, id1-InRange p v, below_descends p, λ z _. IsBelow-lt (id1 p) z q h)

  id2_digit : (q : List Identifier) → IsPosition q → (id2 q).digit ≤ℤ base
  id2_digit [] v = omega arith
  id2_digit (y ∷ q) v = omega arith

  lt_above :
      (p z : List Identifier) (i : Identifier)
      → compare_identifier (id1 p) i ≡ Ordering.lt
      → compare_position p (i ∷ z) ≡ Ordering.lt
  unfolding compare_position
  lt_above [] z i h = refl
  lt_above (x ∷ p) z i h = ground arith

  pub wide-IsBetween :
      (p q : List Identifier) (d : ℤ)
      → Rest p q
      → (id1 p).digit <ℤ d
      → d <ℤ (id2 q).digit
      → (clashes me p q ≡ false) × IsBetween p q (record { digit = d; site = me } ∷ [])
  wide-IsBetween p q d r lo hi = (
    clashes-lt p q (compare_identifier_digit (id1 p) (id2 q) (omega arith)),
    (
      λ x. cc,
      (
        omega (arith, id1-InRange p r.0, id2_digit q r.1, parts_disjoint d),
        (λ x. omega (arith, id1-InRange p r.0, parts_disjoint d)),
        tt,
      ),
      lt_above p [] i (compare_identifier_digit (id1 p) i lo),
      IsBelow-lt i [] q (compare_identifier_digit i (id2 q) hi),
    ),
  )
    where
      i : Identifier
      i = record { digit = d; site = me }

  nil_below : (q : List Identifier) → q ≢ [] → compare_position [] q ≡ Ordering.lt
  unfolding compare_position
  nil_below [] h = absurd (h refl)
  nil_below (y ∷ q) h = refl

  below-ne-nil : (p q : List Identifier) → compare_position p q ≡ Ordering.lt → q ≢ []
  unfolding compare_position
  below-ne-nil [] q h e = ground arith
  below-ne-nil (x ∷ p) q h e = ground arith

  IsBelow-cons :
      (p : List Identifier) (y : Identifier) (q z : List Identifier)
      → id1 p ≡ y
      → q ≢ []
      → IsBelow z q
      → IsBelow (id1 p ∷ z) (y ∷ q)
  unfolding compare_position
  IsBelow-cons p y q z h more (inl e) = absurd (more e)
  IsBelow-cons p y q z h more (inr e) = inr (rw h (ground (arith, compare_identifier_self y)))

  pub same-Descends :
      (p q : List Identifier)
      → Rest p q
      → id1 p ≡ id2 q
      → Descends p q (tail q)
        × Rest (tail p) (tail q)
        × (length (tail p) + length (tail q) < length p + length q)
  unfolding clashes compare_position
  same-Descends p [] r h =
      absurd (omega (arith, id1-InRange p r.0, ap (λ (i : Identifier). pos_part i.digit) h))
  same-Descends [] (y ∷ q) r h =
      let more : q ≢ [] =
        λ e. omega (arith, r.1.1 e, ap (λ (i : Identifier). pos_part i.digit) h) in
      (
        (
          ground (arith, ap (λ (i : Identifier). i.digit) h, ap (λ (i : Identifier). i.site) h),
          (refl, omega arith),
          (λ z e. refl),
          λ z. IsBelow-cons [] y q z h more,
        ),
        (tt, r.1.2, inr (nil_below q more)),
        omega arith,
      )
  same-Descends (x ∷ p) (y ∷ q) r h =
      let eq = compare_identifier_self x in
      let low : compare_position p q ≡ Ordering.lt = ground (arith, eq, h) in
      (
        (
          ground (arith, eq, h),
          r.0.0,
          below_descends (x ∷ p),
          λ z. IsBelow-cons (x ∷ p) y q z h (below-ne-nil p q low),
        ),
        (r.0.2, r.1.2, inr low),
        omega arith,
      )

  pub later-clashes :
      (p q : List Identifier) → Rest p q → Gapped (id1 p) (id2 q) later_site → clashes me p q ≡ true
  unfolding clashes compare_position
  later-clashes p [] r h = absurd (omega (arith, id1-InRange p r.0, ap (λ (d : ℤ). pos_part d) h.0))
  later-clashes [] (y ∷ q) r h = ground (arith, h.0)
  later-clashes (x ∷ p) (y ∷ q) r h =
      ground (arith, compare_identifier_site y x (sym h.0) h.1, compare_identifier-flip y x)

  pub backwards_absurd : (p q : List Identifier) → Rest p q → Gapped (id1 p) (id2 q) backwards → ⊥
  unfolding compare_position
  backwards_absurd p [] r h = omega (arith, id1-InRange p r.0)
  backwards_absurd [] (y ∷ q) r h = omega arith
  backwards_absurd (x ∷ p) (y ∷ q) r h =
      ground (arith, compare_identifier_digit y x h, compare_identifier-flip y x)
