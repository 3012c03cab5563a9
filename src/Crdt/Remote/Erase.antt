-- ===== src/Crdt/Remote/Erase.antt =====
-- handleRemoteErase against removal from an increasing sequence.
use mathlib.Core.List.{append_assoc}
use mathlib.Core.Option.{some-injective}
use scriba.Prelude.{
  subst, ℕ, zero, suc, ◌+◌, ◌<◌, ◌≡◌, refl, ◌≢◌, sym, ◌∙◌, ap, Ordering, true, false, List, [], ◌∷◌,
  ◌++◌, some, arith, length, get_elem?, get_elem?_total, flatten, set, erase_at, ok, undefined,
  Bool-cases, inl, inr, ◌==◌, ltb, ◌&&◌,
}
use scriba.Prelude.Int.{pos, ◌-ℤ◌}
use scriba.Order.Rank.{Increasing, rank, contains, contains-compared, remove}
use scriba.Order.Blocks.{NonEmpty}
use scriba.Order.Blocks.Full.{
  NonEmpty-set, NonEmpty-erase_at, append-ne_nil, block-ne_nil, erase_at-ne_nil,
}
use scriba.Order.Merge.{remove-Increasing}
use scriba.Order.Blocks.Edit.{erase_at-rank, remove_block}
use scriba.Symbol.{Symbol, compare}
use scriba.Symbol.Compare.{symbol_order}
use scriba.Crdt.Search.{newline, find_position}
use scriba.Crdt.Search.Place.{IsOrdered, line_of}
use scriba.Crdt.Search.Find.{find_position-Answers}
use scriba.Crdt.Lines.{join_lines, erase_remote}
use scriba.Crdt.State.{Crdt}
use scriba.Crdt.Remote.{erase_one}

module _ {ℓ} {A : Type ℓ} where
  -- Two lines joined hold the same symbols.
  pub flatten-join :
      (ls : List (List A)) (i : ℕ) (a : List A) {b : List A}
      → get_elem? ls (suc i) ≡ some b
      → flatten (erase_at (suc i) (set ls i (a ++ b))) ≡ flatten (set ls i a)
  flatten-join [] i a e = cc
  flatten-join (l ∷ []) zero a e = cc
  flatten-join (l ∷ m ∷ ls) zero a {b} e =
      append_assoc a b (flatten ls) ∙ ap (λ k. a ++ (k ++ flatten ls)) (sym (some-injective _ _ e))
  flatten-join (l ∷ ls) (suc i) a e = ap (◌++◌ l) (flatten-join ls i a e)

  -- A line that loses its only symbol may go.
  flatten-erase_at :
      (ls : List (List A)) (i : ℕ) {l : List A}
      → get_elem? ls i ≡ some l
      → flatten (erase_at i ls) ≡ flatten (set ls i [])
  flatten-erase_at [] i e = cc
  flatten-erase_at (l ∷ ls) zero e = refl
  flatten-erase_at (l ∷ ls) (suc i) e = ap (◌++◌ l) (flatten-erase_at ls i e)

  erase_at-single : (l : List A) → length l ≡ 1 → erase_at 0 l ≡ []
  erase_at-single [] h = cc
  erase_at-single (x ∷ []) h = refl
  erase_at-single (x ∷ y ∷ l) h = absurd (omega (arith, h))

-- Erasing at a place of a line returns, whichever of the three cases applies, and takes the
-- symbol there out of the sequence.
pub erase_remote-flatten :
    (s : Symbol) (line index : ℕ) (lines : List (List Symbol)) {l : List Symbol}
    → get_elem? lines line ≡ some l
    → index < length l
    → (lines' : List (List Symbol)) × (erase_remote s line index lines ≡ ok lines')
      × (flatten lines' ≡ flatten (set lines line (erase_at index l)))
      × (NonEmpty lines → NonEmpty lines')
unfolding erase_remote join_lines
erase_remote-flatten s line index lines {l} e h =
    let (t, f) = get_elem?_total l index h in
    elim (Bool-cases ((s.value == newline) && ltb (line + 1) (length lines))) [
      | inl j ↦
          let (next, g) = get_elem?_total lines (suc line) (ground (arith, j)) in
          (
            erase_at (suc line) (set lines line (erase_at index l ++ next)),
            ground (arith, e, f, j, g),
            flatten-join lines line (erase_at index l) g,
            λ full. NonEmpty-erase_at (set lines line (erase_at index l ++ next)) (suc line) (
                NonEmpty-set lines line (erase_at index l ++ next) full
                  (append-ne_nil (erase_at index l) next (block-ne_nil lines (suc line) full g))),
          )
      | inr j ↦ elim (Bool-cases ((index == 0) && (length l == 1))) [
        | inl k ↦ (
          erase_at line lines,
          ground (arith, e, f, j, k),
          flatten-erase_at lines line e
              ∙ ap (λ m. flatten (set lines line m)) (ground (arith, k, erase_at-single l)),
          λ full. NonEmpty-erase_at lines line full,
        )
        | inr k ↦ (
          set lines line (erase_at index l),
          ground (arith, e, f, j, k),
          refl,
          λ full.
              NonEmpty-set lines line (erase_at index l) full
                (erase_at-ne_nil index l (λ one. ground (arith, one, k, h)) h),
        )
      ]
    ]

-- On ordered lines, findPosition answers a symbol of the document with its place.
find_position_present :
    (s : Symbol) (lines : List (List Symbol))
    → IsOrdered lines
    → contains symbol_order s (flatten lines) ≡ true
    → (l : List Symbol) × (get_elem? lines (line_of s lines) ≡ some l)
      × (contains symbol_order s l ≡ true)
      × (find_position s lines ≡ ok (some (line_of s lines, rank symbol_order s l)))
find_position_present s [] w h = cc
find_position_present s ([] ∷ ls) w h = absurd w.non_empty
find_position_present s ((x ∷ xs) ∷ ls) w h = elim (find_position-Answers s x xs ls w) [
  | inl (_, _, k) ↦ cc
  | inr (l, e, k, r, _, _) ↦ (l, e, sym k ∙ h, r ∙ ground (arith, h, k))
]

-- The document without `s`, and nothing else changed.
abbrev pub Erased : Crdt → Symbol → Crdt → Type 0
Erased c s c' =
    (flatten c'.symbols ≡ remove symbol_order s (flatten c.symbols))
    × IsOrdered c'.symbols
    × (c'.size ≡ c.size -ℤ pos 1)
    × (c'.sent ≡ c.sent)

-- On ordered lines that hold a symbol at the position of `s`, one round of the handler's loop
-- returns: the document's sequence has lost the symbol at that position and no other, its
-- lines are ordered again, the size is one less and nothing is sent.
pub erase_one-remove :
    (c : Crdt) (s : Symbol)
    → IsOrdered c.symbols
    → contains symbol_order s (flatten c.symbols) ≡ true
    → (place : ℕ × ℕ) × (c' : Crdt) × (erase_one c s ≡ ok (some (place, c'))) × Erased c s c'
unfolding erase_one
erase_one-remove c s w h =
    let (l, e, k, found) = find_position_present s c.symbols w h in
    let (room, _) = contains-compared symbol_order s l k in
    let (lines', run, flat, full) =
      erase_remote-flatten s (line_of s c.symbols) (rank symbol_order s l) c.symbols e room in
    let removed : flatten lines' ≡ remove symbol_order s (flatten c.symbols) =
      flat
      ∙ ap (λ m. flatten (set c.symbols (line_of s c.symbols) m)) (erase_at-rank symbol_order s l k)
      ∙ remove_block symbol_order s c.symbols (line_of s c.symbols) w.non_empty w.increasing e
          refl in
    (
      (line_of s c.symbols, rank symbol_order s l),
      record c { symbols = lines'; size = c.size -ℤ pos 1 },
      rw (found, run) refl,
      (
        removed,
        record {
          non_empty = full w.non_empty;
          increasing =
              subst (Increasing symbol_order) (sym removed)
                (remove-Increasing symbol_order s (flatten c.symbols) w.increasing);
        },
        refl,
        refl,
      ),
    )

row_at :
    (ls : List (List Symbol)) (i : ℕ) {l : List Symbol}
    → NonEmpty ls
    → get_elem? ls i ≡ some l
    → (t : Symbol) × (ts : List Symbol) × (l ≡ t ∷ ts)
row_at [] i n e = cc
row_at ([] ∷ ls) i n e = absurd n
row_at ((x ∷ xs) ∷ ls) zero n e = (x, xs, sym (some-injective _ _ e))
row_at ((x ∷ xs) ∷ ls) (suc i) n e = row_at ls i n e

find_position_empty : (s : Symbol) → find_position s [] ≡ undefined
unfolding find_position
find_position_empty s = refl

find_position_absent :
    (s : Symbol) (lines : List (List Symbol)) (line index : ℕ)
    → IsOrdered lines
    → contains symbol_order s (flatten lines) ≡ false
    → find_position s lines ≡ ok (some (line, index))
    → (t : Symbol) × (ts : List Symbol) × (index ≡ 0)
      × (get_elem? lines line ≡ some (t ∷ ts))
      × (contains symbol_order s (t ∷ ts) ≡ false)
find_position_absent s [] line index w h found =
    absurd (ground (arith, found, find_position_empty s))
find_position_absent s ([] ∷ ls) line index w h found = absurd w.non_empty
find_position_absent s ((x ∷ xs) ∷ ls) line index w h found =
    elim (find_position-Answers s x xs ls w) [
      | inl (r, _, _) ↦ cc (r, found)
      | inr (l, e, k, r, _, _) ↦
          let (t, ts, eq) = row_at ((x ∷ xs) ∷ ls) (line_of s ((x ∷ xs) ∷ ls)) w.non_empty e in
          let miss : contains symbol_order s l ≡ false = sym k ∙ h in
          (
            t,
            ts,
            ground (arith, r, found, miss),
            ground (arith, r, found, e, eq),
            ap (contains symbol_order s) (sym eq) ∙ miss,
          )
    ]

-- On ordered lines that do not hold `s`, one round of the handler's loop still returns a place, and
-- takes away the first symbol of a line, whenever findPosition does not refuse `s` as lying outside
-- the document: that symbol is another one than `s`.
pub erase_one-absent :
    (c : Crdt) (s : Symbol) (line index : ℕ)
    → IsOrdered c.symbols
    → contains symbol_order s (flatten c.symbols) ≡ false
    → find_position s c.symbols ≡ ok (some (line, index))
    → (l : List Symbol) × (t : Symbol) × (c' : Crdt) × (index ≡ 0)
      × (get_elem? c.symbols line ≡ some l)
      × (get_elem? l 0 ≡ some t)
      × (compare s t ≢ Ordering.eq)
      × (erase_one c s ≡ ok (some ((line, 0), c')))
      × (flatten c'.symbols ≡ flatten (set c.symbols line (erase_at 0 l)))
unfolding erase_one
erase_one-absent c s line index w h found =
    let (t, ts, z, e, miss) = find_position_absent s c.symbols line index w h found in
    let (lines', run, flat, _) = erase_remote-flatten s line 0 c.symbols e (omega arith) in
    (
      t ∷ ts,
      t,
      record c { symbols = lines'; size = c.size -ℤ pos 1 },
      z,
      e,
      refl,
      λ k. ground (arith, k, miss),
      rw (found ∙ ap (λ i. ok (some (line, i))) z, run) refl,
      flat,
    )
