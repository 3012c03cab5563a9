-- ===== src/Crdt/Lines/Closed.antt =====
-- Lines of which all but the last end with a newline, and the erasure of one symbol from them.
use mathlib.Core.Option.{some-injective}
use scriba.Prelude.{
  ℕ, zero, suc, ◌+◌, ◌<◌, ◌≡◌, refl, sym, ◌∙◌, ap, ◌≢◌, Bool, true, false, Bool-cases, List, [],
  ◌∷◌, ◌++◌, some, arith, length, length-append, get_elem?, get_elem?_total, set, erase_at, flatten,
  ok, inl, inr, ◌==◌, ltb, ◌&&◌,
}
use scriba.Order.Blocks.{NonEmpty}
use scriba.Order.Blocks.Full.{
  NonEmpty-set, NonEmpty-erase_at, append-ne_nil, block-ne_nil, erase_at-ne_nil,
}
use scriba.Order.Blocks.Offset.{start, get_elem?-flatten}
use scriba.Order.Blocks.Cut.{
  flatten-erase_at_place, start-set, start-erase_at, get_elem?-set_same, get_elem?-erase_after,
  get_elem?-lt, last_row_length, length-erase_at,
}
use scriba.Symbol.{Symbol}
use scriba.Crdt.Search.{newline}
use scriba.Crdt.Lines.{erase_local, join_lines}
use scriba.Crdt.Remote.Erase.{flatten-join}

abbrev pub ends_line : List Symbol → Bool
ends_line [] = false
ends_line (s ∷ []) = s.value == newline
ends_line (s ∷ t ∷ l) = ends_line (t ∷ l)

abbrev pub Closed : List (List Symbol) → Type 0
Closed [] = Unit
Closed (l ∷ []) = Unit
Closed (l ∷ m ∷ ls) = (ends_line l ≡ true) × Closed (m ∷ ls)

ends_line-append : (a b : List Symbol) → ends_line b ≡ true → ends_line (a ++ b) ≡ true
ends_line-append [] b h = h
ends_line-append (s ∷ []) [] h = cc
ends_line-append (s ∷ []) (t ∷ b) h = h
ends_line-append (s ∷ t ∷ a) b h = ends_line-append (t ∷ a) b h

-- A symbol that is no newline is not the last of a line that ends with one.
ends_line-erase_at :
    (l : List Symbol) (i : ℕ) {s : Symbol}
    → ends_line l ≡ true
    → get_elem? l i ≡ some s
    → (s.value == newline) ≡ false
    → (ends_line (erase_at i l) ≡ true) × (suc i < length l)
ends_line-erase_at [] i h e k = cc
ends_line-erase_at (t ∷ []) zero h e k = ground (arith, h, k, some-injective _ _ e)
ends_line-erase_at (t ∷ []) (suc i) h e k = cc
ends_line-erase_at (t ∷ u ∷ l) zero h e k = (h, omega arith)
ends_line-erase_at (t ∷ u ∷ []) (suc zero) h e k = ground (arith, h, k, some-injective _ _ e)
ends_line-erase_at (t ∷ u ∷ []) (suc (suc i)) h e k = cc
ends_line-erase_at (t ∷ u ∷ v ∷ l) (suc zero) h e k =
    let (a, b) = ends_line-erase_at (u ∷ v ∷ l) zero h e k in (a, omega arith)
ends_line-erase_at (t ∷ u ∷ v ∷ l) (suc (suc i)) h e k =
    let (a, b) = ends_line-erase_at (u ∷ v ∷ l) (suc i) h e k in (a, omega (arith, b))

Closed-row :
    (ls : List (List Symbol)) (n : ℕ) {l : List Symbol}
    → Closed ls
    → get_elem? ls n ≡ some l
    → suc n < length ls
    → ends_line l ≡ true
Closed-row [] n c e h = cc
Closed-row (m ∷ []) n c e h = absurd (omega arith)
Closed-row (m ∷ k ∷ ls) zero c e h = ap ends_line (sym (some-injective _ _ e)) ∙ c.0
Closed-row (m ∷ k ∷ ls) (suc n) c e h = Closed-row (k ∷ ls) n c.1 e (omega arith)

Closed-set :
    (ls : List (List Symbol)) (n : ℕ) (l : List Symbol)
    → Closed ls
    → (suc n < length ls → ends_line l ≡ true)
    → Closed (set ls n l)
Closed-set [] n l c h = tt
Closed-set (m ∷ []) zero l c h = tt
Closed-set (m ∷ []) (suc n) l c h = tt
Closed-set (m ∷ k ∷ ls) zero l c h = (h (omega arith), c.1)
Closed-set (m ∷ k ∷ ls) (suc zero) l c h =
    (c.0, Closed-set (k ∷ ls) zero l c.1 (λ r. h (omega arith)))
Closed-set (m ∷ k ∷ ls) (suc (suc n)) l c h =
    (c.0, Closed-set (k ∷ ls) (suc n) l c.1 (λ r. h (omega arith)))

-- Two lines joined end as the second does.
Closed-join :
    (ls : List (List Symbol)) (n : ℕ) (a : List Symbol) {next : List Symbol}
    → Closed ls
    → get_elem? ls (suc n) ≡ some next
    → Closed (erase_at (suc n) (set ls n (a ++ next)))
Closed-join [] n a c e = cc
Closed-join (m ∷ []) n a c e = cc
Closed-join (m ∷ k ∷ []) zero a c e = tt
Closed-join (m ∷ k ∷ j ∷ ls) zero a {next} c e =
    (ends_line-append a next (ap ends_line (sym (some-injective _ _ e)) ∙ c.1.0), c.1.1)
Closed-join (m ∷ k ∷ []) (suc n) a c e = cc
Closed-join (m ∷ k ∷ j ∷ ls) (suc zero) a c e = (c.0, Closed-join (k ∷ j ∷ ls) zero a c.1 e)
Closed-join (m ∷ k ∷ j ∷ ls) (suc (suc n)) a c e = (c.0, Closed-join (k ∷ j ∷ ls) (suc n) a c.1 e)

length_pos : (l : List Symbol) → l ≢ [] → 0 < length l
length_pos [] h = absurd (h refl)
length_pos (s ∷ l) h = omega arith

-- The lines, and the place in them, that one round of localErase comes to.
abbrev pub Gone : List (List Symbol) → ℕ → ℕ → Symbol → List (List Symbol) → Type 0
Gone lines line index s lines' =
    (flatten lines' ≡ erase_at (start lines line + index) (flatten lines))
    × NonEmpty lines'
    × Closed lines'
    × (start lines' line ≡ start lines line)
    × ((l : List Symbol) × (get_elem? lines' line ≡ some l) × (index < length l))

-- A symbol that is not the last of all can be erased, and another stands at its place then.
pub erase_local-Gone :
    (lines : List (List Symbol)) (line index : ℕ) (l : List Symbol)
    → NonEmpty lines
    → Closed lines
    → get_elem? lines line ≡ some l
    → index < length l
    → suc (start lines line + index) < length (flatten lines)
    → (s : Symbol) × (lines' : List (List Symbol)) × (get_elem?
          (flatten lines)
          (start lines line + index)
        ≡ some s)
      × (erase_local line index lines ≡ ok (s, lines'))
      × Gone lines line index s lines'
unfolding erase_local join_lines
erase_local-Gone lines line index l full closed e h more =
    let (s, f) = get_elem?_total l index h in
    let place = get_elem?-flatten lines line index e f in
    let room = get_elem?-lt lines line e in
    elim (Bool-cases ((s.value == newline) && ltb (line + 1) (length lines))) [
      | inl j ↦
          let (next, g) = get_elem?_total lines (suc line) (ground (arith, j)) in
          let joined = erase_at index l ++ next in
          (
            s,
            erase_at (suc line) (set lines line joined),
            place,
            ground (arith, e, f, j, g),
            (
              flatten-join lines line (erase_at index l) g
                  ∙ flatten-erase_at_place lines line index e h,
              NonEmpty-erase_at (set lines line joined) (suc line) (
                  NonEmpty-set lines line joined full
                    (append-ne_nil (erase_at index l) next (block-ne_nil lines (suc line) full g))),
              Closed-join lines line (erase_at index l) closed g,
              start-erase_at (set lines line joined) line ∙ start-set lines line joined,
              (
                joined,
                get_elem?-erase_after (set lines line joined) line
                    ∙ get_elem?-set_same lines line joined room,
                omega (
                  arith,
                  length-append (erase_at index l) next,
                  length-erase_at index l h,
                  length_pos next (block-ne_nil lines (suc line) full g),
                ),
              ),
            ),
          )
      | inr j ↦
          let after : suc index < length l = elim (Bool-cases (ltb (line + 1) (length lines))) [
            | inl r ↦
                (ends_line-erase_at l index (Closed-row lines line closed e (ground (arith, r))) f
                  (ground (arith, j, r))).1
            | inr r ↦ omega (arith, more, last_row_length lines line e (ground (arith, r, room)))
          ] in
          (
            s,
            set lines line (erase_at index l),
            place,
            ground (arith, e, f, j),
            (
              flatten-erase_at_place lines line index e h,
              NonEmpty-set lines line (erase_at index l) full
                  (erase_at-ne_nil index l (λ one. omega (arith, one, after)) h),
              Closed-set lines line (erase_at index l) closed (λ r.
                  (ends_line-erase_at l index (Closed-row lines line closed e r) f
                    (ground (arith, j, r))).0),
              start-set lines line (erase_at index l),
              (
                erase_at index l,
                get_elem?-set_same lines line (erase_at index l) room,
                omega (arith, after, length-erase_at index l h),
              ),
            ),
          )
    ]
