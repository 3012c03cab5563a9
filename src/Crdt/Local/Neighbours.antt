-- ===== src/Crdt/Local/Neighbours.antt =====
-- findPosBefore and findPosAfter: the positions of the two symbols around a place.
use scriba.Prelude.{
  ℕ, zero, suc, ◌+◌, ◌≤◌, ◌<◌, ◌≡◌, refl, ◌∙◌, ap, ◌⊎◌, inl, inr, List, [], ◌∷◌, some, arith, true,
  false, Bool-cases, length, get_elem?, get_elem?_total, flatten, ok, ◌==◌, ltb,
}
use scriba.Order.Blocks.{NonEmpty, last, row_of_index, get_elem?-last}
use scriba.Order.Blocks.Offset.{start, start-suc, start-length, get_elem?-flatten}
use scriba.Symbol.{Symbol, Identifier}
use scriba.Crdt.Lines.{get_symbol, find_pos_before, find_pos_after, line_length}

abbrev pub Before : List (List Symbol) → ℕ → List Identifier → Type 0
Before lines k p =
    ((k ≡ 0) × (p ≡ []))
    ⊎ ((j : ℕ) × (t : Symbol) × (k ≡ suc j)
        × (get_elem? (flatten lines) j ≡ some t)
        × (p ≡ t.position))

abbrev pub After : List (List Symbol) → ℕ → List Identifier → Type 0
After lines k q =
    ((k ≡ length (flatten lines)) × (q ≡ []))
    ⊎ ((t : Symbol) × (get_elem? (flatten lines) k ≡ some t) × (q ≡ t.position))

plus_one : (n : ℕ) → n + 1 ≡ suc n
plus_one n = omega arith

start-zero : (lines : List (List Symbol)) → start lines 0 ≡ 0
start-zero [] = refl
start-zero (l ∷ lines) = refl

module _ (lines : List (List Symbol)) (full : NonEmpty lines) where
  -- On lines that each hold something, findPosBefore returns the position of the symbol before the
  -- place; at the start of the document there is none, and the position is empty.
  pub find_pos_before-symbol :
      (line index : ℕ) (l : List Symbol)
      → line < length lines
      → get_elem? lines line ≡ some l
      → index ≤ length l
      → (p : List Identifier) × (find_pos_before line index lines ≡ ok p)
        × Before lines (start lines line + index) p
  unfolding find_pos_before get_symbol
  find_pos_before-symbol zero zero l r e h = ([], refl, inl (omega (arith, start-zero lines), refl))
  find_pos_before-symbol (suc line) zero l r e h =
      let (x, xs, f, _) = row_of_index lines line full (omega arith) in
      (
        (last x xs).position,
        ground (arith, f, get_elem?-last x xs),
        inr (
          start lines line + length xs,
          last x xs,
          omega (arith, start-suc lines line {l = x ∷ xs} f),
          get_elem?-flatten lines line (length xs) f (get_elem?-last x xs),
          refl,
        ),
      )
  find_pos_before-symbol zero (suc index) l r e h =
      let (t, f) = get_elem?_total l index (omega arith) in
      (
        t.position,
        ground (arith, e, f),
        inr (start lines 0 + index, t, omega arith, get_elem?-flatten lines 0 index e f, refl),
      )
  find_pos_before-symbol (suc line) (suc index) l r e h =
      let (t, f) = get_elem?_total l index (omega arith) in
      (
        t.position,
        ground (arith, e, f),
        inr (
          start lines (suc line) + index,
          t,
          omega arith,
          get_elem?-flatten lines (suc line) index e f,
          refl,
        ),
      )

  inside :
      (line index : ℕ) (l : List Symbol)
      → line < length lines
      → get_elem? lines line ≡ some l
      → index < length l
      → (t : Symbol) × (find_pos_after line index lines ≡ ok t.position)
        × (get_elem? (flatten lines) (start lines line + index) ≡ some t)
  unfolding find_pos_after get_symbol line_length
  inside line index l r e h =
      let (t, f) = get_elem?_total l index h in
      (t, ground (arith, r, e, f, h), get_elem?-flatten lines line index e f)

  -- On lines that each hold something, findPosAfter returns the position of the symbol at the place; at the end of
  -- the document there is none, and the position is empty.
  pub find_pos_after-symbol :
      (line index : ℕ) (l : List Symbol)
      → line < length lines
      → get_elem? lines line ≡ some l
      → index ≤ length l
      → (q : List Identifier) × (find_pos_after line index lines ≡ ok q)
        × After lines (start lines line + index) q
  unfolding find_pos_after get_symbol line_length
  find_pos_after-symbol line index l r e h = elim (Bool-cases (index == length l)) [
    | inr m ↦
        let (t, run, at) = inside line index l r e (ground (arith, m)) in
        (t.position, run, inr (t, at, refl))
    | inl m ↦ elim (Bool-cases (ltb (line + 1) (length lines))) [
      | inr n ↦ (
        [],
        ground (arith, e, m, n, r),
        inl (
          ground (
            arith,
            m,
            start-suc lines line {l = l} e,
            start-length lines,
            ap (start lines) (the_end n),
          ),
          refl,
        ),
      )
      | inl n ↦
          let (x, xs, f, _) = row_of_index lines (line + 1) full (ground (arith, n)) in
          (
            x.position,
            ground (arith, e, m, n, f),
            inr (
              x,
              ap (get_elem? (flatten lines)) (next m) ∙ get_elem?-flatten lines (line + 1) 0 f refl,
              refl,
            ),
          )
    ]
  ]
    where
      the_end : ltb (line + 1) (length lines) ≡ false → suc line ≡ length lines
      the_end n = ground (arith, n, r)

      next : (index == length l) ≡ true → start lines line + index ≡ start lines (line + 1) + 0
      next m = ground (arith, m, start-suc lines line {l = l} e, ap (start lines) (plus_one line))
