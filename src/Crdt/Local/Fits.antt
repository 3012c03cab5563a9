-- ===== src/Crdt/Local/Fits.antt =====
-- A symbol whose position is made between those of its neighbours, at its place in the sequence.
use mathlib.Core.Option.{some-injective}
use scriba.Prelude.{
  ℕ, zero, suc, ◌+◌, ◌≤◌, ◌<◌, ◌≡◌, refl, sym, ◌∙◌, ap, subst, ◌≢◌, inl, inr, Ordering, List, [],
  ◌∷◌, some, arith, String, length-append, length, get_elem?, flatten,
}
use scriba.Prelude.Int.{ℤ}
use scriba.Order.Rank.{All, Increasing}
use scriba.Order.Blocks.Offset.{start, Fits}
use scriba.Symbol.{
  Symbol, SymbolFormat, Identifier, Font, compare, compare_position, make_symbol, set_alignment,
  set_format,
}
use scriba.Symbol.Compare.{symbol_order, compare_position-flip}
use scriba.Crdt.Position.Spec.{IsPosition, IsBelow, IsBetween}
use scriba.Crdt.Local.{AlignFlags, align_single}
use scriba.Crdt.Local.Neighbours.{Before, After}

-- Every symbol has a position of the kind that the code generates.
abbrev pub Placed : List Symbol → Type 0
Placed = All (λ t. IsPosition t.position × (t.position ≢ []))

All-get_elem? :
    (xs : List Symbol) (i : ℕ) {t : Symbol}
    → Placed xs
    → get_elem? xs i ≡ some t
    → IsPosition t.position × (t.position ≢ [])
All-get_elem? [] i h e = cc
All-get_elem? (x ∷ xs) zero h e =
    subst (λ t. IsPosition t.position × (t.position ≢ [])) (some-injective _ _ e) h.0
All-get_elem? (x ∷ xs) (suc i) h e = All-get_elem? xs i h.1 e

adjacent :
    (xs : List Symbol) (j : ℕ) {t u : Symbol}
    → Increasing symbol_order xs
    → get_elem? xs j ≡ some t
    → get_elem? xs (suc j) ≡ some u
    → compare t u ≡ Ordering.lt
adjacent [] j inc e f = cc
adjacent (x ∷ []) zero inc e f = cc
adjacent (x ∷ y ∷ xs) zero inc e f = ground (arith, some-injective _ _ e, some-injective _ _ f)
adjacent (x ∷ xs) (suc j) inc e f = adjacent xs j inc.1 e f

empty_first : (q : List Identifier) → q ≢ [] → compare_position [] q ≡ Ordering.lt
unfolding compare_position
empty_first [] h = absurd (h refl)
empty_first (y ∷ q) h = refl

module _ (lines : List (List Symbol)) (k : ℕ) (p q : List Identifier)
    (inc : Increasing symbol_order (flatten lines)) (placed : Placed (flatten lines))
    (before : Before lines k p) (after : After lines k q) where
  pub neighbours-IsBelow : IsPosition p × IsPosition q × IsBelow p q
  unfolding compare
  neighbours-IsBelow = elim before [
    | inl (_, ep) ↦ elim after [
      | inl (_, eq) ↦ rw (ep, eq) (tt, tt, inl refl)
      | inr (u, f, eq) ↦
          let (v, n) = All-get_elem? (flatten lines) k placed f in
          rw (ep, eq) (tt, v, inr (empty_first u.position n))
    ]
    | inr (j, t, ek, e, ep) ↦
        let (a, _) = All-get_elem? (flatten lines) j placed e in
        elim after [
          | inl (_, eq) ↦ rw (ep, eq) (a, tt, inl refl)
          | inr (u, f, eq) ↦
              let (b, _) = All-get_elem? (flatten lines) k placed f in
              rw (ep, eq)
                (
                  a,
                  b,
                  inr (
                      adjacent (flatten lines) j inc e
                        (ap (get_elem? (flatten lines)) (sym ek) ∙ f)),
                )
        ]
  ]

  pub between-Fits : (s : Symbol) → IsBetween p q s.position → Fits symbol_order s (flatten lines) k
  unfolding compare
  between-Fits s (_, _, low, high) = (
    elim before [
      | inl (z, _) ↦ inl z
      | inr (j, t, ek, e, ep) ↦
          inr (j, t, ek, e, ground (arith, ep, low, compare_position-flip t.position s.position))
    ],
    elim after [
      | inl (z, _) ↦ inl z
      | inr (u, f, eq) ↦ elim high [
        | inl n ↦ absurd ((All-get_elem? (flatten lines) k placed f).1 (sym eq ∙ n))
        | inr d ↦ inr (u, f, ground (arith, d, eq))
      ]
    ],
  )

pub start-le :
    (lines : List (List Symbol)) (line index : ℕ) {l : List Symbol}
    → get_elem? lines line ≡ some l
    → index ≤ length l
    → (line < length lines) × (start lines line + index ≤ length (flatten lines))
start-le [] line index e h = cc
start-le (m ∷ lines) zero index {l} e h =
    ground (arith, some-injective _ _ e, length-append m (flatten lines))
start-le (m ∷ lines) (suc line) index {l} e h =
    omega (arith, start-le lines line index {l = l} e h, length-append m (flatten lines))

pub align_single-position :
    (q : AlignFlags) (flags : ℕ) (s : Symbol) → (align_single q flags s).position ≡ s.position
unfolding align_single set_alignment
align_single-position q flags s = ground arith

pub align_single-value :
    (q : AlignFlags) (flags : ℕ) (s : Symbol) → (align_single q flags s).value ≡ s.value
unfolding align_single set_alignment
align_single-value q flags s = ground arith

pub make_symbol-value :
    (raw : SymbolFormat) (value : ℕ) (position : List Identifier) (counter : ℤ) (font : Font)
    (color : String)
    → (make_symbol raw value position counter font color).value ≡ value
unfolding make_symbol set_format
make_symbol-value raw value position counter font color = refl

pub make_symbol-position :
    (raw : SymbolFormat) (value : ℕ) (position : List Identifier) (counter : ℤ) (font : Font)
    (color : String)
    → (make_symbol raw value position counter font color).position ≡ position
unfolding make_symbol set_format
make_symbol-position raw value position counter font color = refl
