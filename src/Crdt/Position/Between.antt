-- ===== src/Crdt/Position/Between.antt =====
-- CRDT::generatePositionBetween against the order of positions: the new position lies strictly
-- between its neighbours, or the code throws, and exactly when it throws.
use mathlib.Core.Bool.{false≢true}
use scriba.Order.Rank.{All}
use scriba.Prelude.{
  ℕ, zero, suc, ◌+◌, ◌<◌, ◌≡◌, refl, sym, ◌∙◌, ap, ◌⊎◌, inl, inr, Ordering, Bool, false, List, [],
  ◌∷◌, ◌++◌, arith, length, drop, Outcome, ok, throws,
}
use scriba.Prelude.Int.{ℤ, pos, pos_part, int_laws}
use scriba.Symbol.{Identifier, compare_identifier}
use scriba.Crdt.Position.{
  Gap, wide, adjacent, earlier_site, same_site, later_site, backwards, gap, base, Entropy,
  identifier_at, generate_id_between, generate_position, generate_position_between,
}
use scriba.Crdt.Position.Digit.{Chosen, generate_id_between_bounds}
use scriba.Crdt.Position.Level.{
  Gapped, gap-Gapped, compare_identifier_digit, compare_identifier_site,
}
use scriba.Crdt.Position.Spec.{
  IsPosition, clashes, IsBelow, IsBetween, Generates, tail, identifier_at-drop, drop-suc,
}
use scriba.Crdt.Position.Descend.{
  extend, id1, id2, Rest, wide-IsBetween, same-Descends, later-clashes, backwards_absurd,
  lt-Descends,
}

module _ (coin : ℕ → Bool) (rand : ℕ → ℕ) (me : ℤ) where
  -- A call at `level`, whose suffixes of the two positions are `p` and `q`.
  record At (pos1 pos2 : List Identifier) (level : ℕ) (p q : List Identifier) : Type 0 where
    low : drop level pos1 ≡ p
    high : drop level pos2 ≡ q

  next-At :
      {pos1 pos2 : List Identifier} {level : ℕ} {p q : List Identifier}
      → At pos1 pos2 level p q
      → At pos1 pos2 (suc level) (tail p) (tail q)
  next-At {pos1} {pos2} {level} a = record {
    low = drop-suc pos1 level ∙ ap tail a.low;
    high = drop-suc pos2 level ∙ ap tail a.high;
  }

  freed-At :
      {pos1 pos2 : List Identifier} {level : ℕ} {p q : List Identifier}
      → At pos1 pos2 level p q
      → At pos1 [] (suc level) (tail p) []
  freed-At {pos1} {level = level} a = record {
    low = drop-suc pos1 level ∙ ap tail a.low;
    high = refl;
  }

  module _ (fuel : ℕ) (pos1 pos2 new_pos : List Identifier) (level : ℕ) (e : Entropy)
      (p q : List Identifier) (a : At pos1 pos2 level p q) where
    at1 : identifier_at pos1 level (record { digit = pos 0; site = me }) ≡ id1 me p
    at1 = rw (← a.low) (identifier_at-drop pos1 level _)

    at2 : identifier_at pos2 level (record { digit = base; site = me }) ≡ id2 me q
    at2 = rw (← a.high) (identifier_at-drop pos2 level _)

    abbrev run : ℕ → Outcome (List Identifier × Entropy)
    run n = generate_position coin rand me n pos1 pos2 new_pos level e

    step_wide :
        (d : ℤ) (e' : Entropy)
        → gap (id1 me p) (id2 me q) ≡ wide
        → generate_id_between coin rand (id1 me p).digit (id2 me q).digit level e ≡ ok (d, e')
        → run (suc fuel) ≡ ok (new_pos ++ record { digit = d; site = me } ∷ [], e')
    unfolding generate_position
    step_wide d e' g out = rw (generate_position, at1, at2, g) (rw (at1, at2, out))

    step_free :
        (gap (id1 me p) (id2 me q) ≡ adjacent) ⊎ (gap (id1 me p) (id2 me q) ≡ earlier_site)
        → run (suc fuel)
          ≡ generate_position coin rand me fuel pos1 [] (new_pos ++ id1 me p ∷ []) (suc level) e
    unfolding generate_position
    step_free (inl g) = rw (generate_position, at1, at2, g) (rw at1)
    step_free (inr g) = rw (generate_position, at1, at2, g) (rw at1)

    step_same :
        gap (id1 me p) (id2 me q) ≡ same_site
        → run (suc fuel)
          ≡ generate_position coin rand me fuel pos1 pos2 (new_pos ++ id1 me p ∷ []) (suc level) e
    unfolding generate_position
    step_same g = rw (generate_position, at1, at2, g) (rw at1)

    step_later : gap (id1 me p) (id2 me q) ≡ later_site → run (suc fuel) ≡ throws "Invalid ordering"
    unfolding generate_position
    step_later g = rw (generate_position, at1, at2, g)

  abbrev Claim : ℕ → Type 0
  Claim fuel =
      (pos1 pos2 new_pos : List Identifier) (level : ℕ) (e : Entropy) (p q : List Identifier)
      → At pos1 pos2 level p q
      → Rest me p q
      → length p + length q < fuel
      → Generates me p q new_pos (generate_position coin rand me fuel pos1 pos2 new_pos level e)

  abbrev Freed : List Identifier → List Identifier → Type 0
  Freed p q = (gap (id1 me p) (id2 me q) ≡ adjacent) ⊎ (gap (id1 me p) (id2 me q) ≡ earlier_site)

  free_room :
      (fuel : ℕ) (p q : List Identifier)
      → length p + length q < suc fuel
      → Freed p q
      → length (tail p) + 0 < fuel
  unfolding gap
  free_room fuel [] [] room g = ground arith
  free_room fuel [] (y ∷ q) room g = omega arith
  free_room fuel (x ∷ p) q room g = omega arith

  tail-IsPosition : (p : List Identifier) → IsPosition p → IsPosition (tail p)
  tail-IsPosition [] v = tt
  tail-IsPosition (x ∷ p) v = v.2

  IsBelow-nil : (p : List Identifier) → IsBelow p []
  IsBelow-nil p = inl refl

  module _ (fuel : ℕ) (claim : Claim fuel) (pos1 pos2 new_pos : List Identifier) (level : ℕ)
      (e : Entropy) (p q : List Identifier) (a : At pos1 pos2 level p q) (r : Rest me p q)
      (room : length p + length q < suc fuel) where
    abbrev Result : Type 0
    Result =
        Generates me p q new_pos
          (generate_position coin rand me (suc fuel) pos1 pos2 new_pos level e)

    chosen-Generates :
        gap (id1 me p) (id2 me q) ≡ wide
        → Chosen coin rand (id1 me p).digit (id2 me q).digit level e
        → Result
    chosen-Generates g (d, e', out, lo, hi) =
        let (c, b) = wide-IsBetween me p q d r lo hi in
        inr (
          c,
          (
            record { digit = d; site = me } ∷ [],
            e',
            step_wide fuel pos1 pos2 new_pos level e p q a d e' g out,
            b,
          ),
        )

    free-Generates : Freed p q → compare_identifier (id1 me p) (id2 me q) ≡ Ordering.lt → Result
    free-Generates g h =
        let (c, range, low, high) = lt-Descends me p q r.0 h in
        rw (step_free fuel pos1 pos2 new_pos level e p q a g) (
          extend me (id1 me p) p q (tail p) [] new_pos _
            (claim pos1 [] _ (suc level) e (tail p) [] (freed-At a)
              (tail-IsPosition p r.0, tt, inl refl) (free_room fuel p q room g))
            c range low high)

    same-Generates : gap (id1 me p) (id2 me q) ≡ same_site → id1 me p ≡ id2 me q → Result
    same-Generates g h =
        let ((c, range, low, high), rest, fewer) = same-Descends me p q r h in
        rw (step_same fuel pos1 pos2 new_pos level e p q a g) (
          extend me (id1 me p) p q (tail p) (tail q) new_pos _
            (claim pos1 pos2 _ (suc level) e (tail p) (tail q) (next-At a) rest (omega arith)) c
            range low high)

    -- One level, by the class of the two identifiers that it meets.
    level-Generates :
        (g : Gap) → gap (id1 me p) (id2 me q) ≡ g → Gapped (id1 me p) (id2 me q) g → Result
    level-Generates wide eq h = chosen-Generates eq (
        generate_id_between_bounds coin rand (id1 me p).digit (id2 me q).digit level e
          (omega int_laws))
    level-Generates adjacent eq h =
        free-Generates (inl eq) (compare_identifier_digit (id1 me p) (id2 me q) (omega arith))
    level-Generates earlier_site eq h =
        free-Generates (inr eq) (compare_identifier_site (id1 me p) (id2 me q) h.0 h.1)
    level-Generates same_site eq h = same-Generates eq h
    level-Generates later_site eq h =
        inl (later-clashes me p q r h, step_later fuel pos1 pos2 new_pos level e p q a eq)
    level-Generates backwards eq h = absurd (backwards_absurd me p q r h)

  generate-Generates : (fuel : ℕ) → Claim fuel
  generate-Generates zero pos1 pos2 new_pos level e p q a r room = elim room [ ]
  generate-Generates (suc fuel) pos1 pos2 new_pos level e p q a r room =
      level-Generates fuel (generate-Generates fuel) pos1 pos2 new_pos level e p q a r room _ refl
        (gap-Gapped (id1 me p) (id2 me q))

  -- Between two positions in increasing order (the second may be the end of the document),
  -- generatePositionBetween either throws "Invalid ordering", which happens exactly at a clash, or
  -- returns a position that lies strictly between the two and is itself well formed. It never runs
  -- out of levels and never reaches its end without a return, whatever numbers are drawn.
  pub generate_position_between-Generates :
      (p q : List Identifier) (e : Entropy)
      → IsPosition p
      → IsPosition q
      → IsBelow p q
      → Generates me p q [] (generate_position_between coin rand me p q e)
  unfolding generate_position_between
  generate_position_between-Generates p q e vp vq lt =
      generate-Generates (length p + length q + 1) p q [] 0 e p q
        (record { low = refl; high = refl }) (vp, vq, lt) (omega arith)

  no_zero-clashes :
      (p q : List Identifier) → All (λ i. 0 < pos_part i.digit) q → clashes me p q ≡ false
  unfolding clashes
  no_zero-clashes p [] h = refl
  no_zero-clashes [] (y ∷ q) h = ground arith
  no_zero-clashes (x ∷ p) (y ∷ q) h = ground (arith, no_zero-clashes p q h.1)

  -- Between two positions in increasing order (the second may be the end of the document), if no
  -- identifier of the second has digit 0, generatePositionBetween returns a position strictly
  -- between the two.
  pub generate_position_between_returns :
      (p q : List Identifier) (e : Entropy)
      → IsPosition p
      → IsPosition q
      → IsBelow p q
      → All (λ i. 0 < pos_part i.digit) q
      → (z : List Identifier) × (e' : Entropy) × (generate_position_between coin rand me p q e
          ≡ ok (z, e'))
        × IsBetween p q z
  generate_position_between_returns p q e vp vq lt nz =
      elim (generate_position_between-Generates p q e vp vq lt) [
        | inl (c, t) ↦ absurd (false≢true (sym (no_zero-clashes p q nz) ∙ c))
        | inr (c, (z, e', t, b)) ↦ (z, e', t, b)
      ]
