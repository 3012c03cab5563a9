-- ===== src/Editor/Formats/Spans.antt =====
-- The calls of localChangeGroup that a change of format makes.
use Prim.Native.String.{String}
use scriba.Prelude.{
  ℕ, zero, suc, ◌+◌, ◌<◌, ◌≤◌, ◌≡◌, refl, sym, ◌∙◌, ap, true, false, Bool-cases, inl, inr, ◌⊎◌,
  List, [], ◌∷◌, some, arith, subst, get_elem?, if◌then◌else◌, ◌==◌, ◌&&◌,
}
use mathlib.Core.Option.{some-injective}
use scriba.Symbol.{Font}
use scriba.Editor.{Glyph, Widget}
use scriba.Editor.Groups.{Exact}
use scriba.Editor.Formats.{Span, span_step, span_rounds, spans}

-- A span of the list with a character of that font and colour.
abbrev pub Spanned : List Span → ℕ → Glyph → Type 0
Spanned l i g =
    (j : ℕ) × (s : Span) × (get_elem? l j ≡ some s)
    × (s.first ≤ i)
    × (i ≤ s.last)
    × (s.font ≡ g.font)
    × (s.color ≡ g.color)

-- Spans that follow one another from a position on, each with a character at least.
abbrev pub Apart : ℕ → List Span → Type 0
Apart low [] = Unit
Apart low (s ∷ l) = (low ≤ s.first) × (s.first ≤ s.last) × Apart (suc s.last) l

module _ (w : Widget) (exact : Exact w) where
  -- The span that a round leaves open covers what the one before has, and the character.
  span_step-cases :
      (i : ℕ) (g : Glyph) (p : Span)
      → ((span_step w i g p ≡ ([], record p { last = i }))
          × (p.font ≡ g.font)
          × (p.color ≡ g.color))
        ⊎ (span_step w i g p
            ≡ (p ∷ [], record { first = i; last = i; font = g.font; color = g.color }))
  unfolding span_step
  span_step-cases i g p =
      elim (Bool-cases (w.same_font g.font p.font && w.same_color g.color p.color)) [
        | inl t ↦ inl (
          rw t refl,
          sym (exact.font_eq g.font p.font (ground (arith, t))),
          sym (exact.color_eq g.color p.color (ground (arith, t))),
        )
        | inr f ↦ inr (rw f refl)
      ]

  later : (s : Span) (l : List Span) (i : ℕ) (g : Glyph) → Spanned l i g → Spanned (s ∷ l) i g
  later s l i g (j, t, e, a, b, f, c) = (suc j, t, e, a, b, f, c)

  -- The open span's own characters are in the first span that comes out.
  Opens : Span → List Span → Type 0
  Opens p l =
      (s : Span) × (rest : List Span) × (l ≡ s ∷ rest)
      × (s.first ≡ p.first)
      × (p.last ≤ s.last)
      × (s.font ≡ p.font)
      × (s.color ≡ p.color)

  opened :
      (p : Span) (l : List Span) (i : ℕ) (g : Glyph)
      → Opens p l
      → p.first ≤ i
      → i ≤ p.last
      → p.font ≡ g.font
      → p.color ≡ g.color
      → Spanned l i g
  unfolding Opens
  opened p l i g (s, rest, eq, first, last, font, color) a b f c = (
    0,
    s,
    ap (λ l. get_elem? l 0) eq,
    omega (arith, a, first),
    omega (arith, b, last),
    font ∙ f,
    color ∙ c,
  )

  span_rounds-Opens :
      (i : ℕ) (gs : List Glyph) (p : Span) → p.last ≤ i → Opens p (span_rounds w i gs p)
  unfolding span_rounds Opens
  span_rounds-Opens i [] p h = (p, [], refl, refl, omega arith, refl, refl)
  span_rounds-Opens i (g ∷ gs) p h = elim (Bool-cases (g.value == 10)) [
    | inl n ↦ rw n (span_rounds-Opens (i + 1) gs p (omega (arith, h)))
    | inr n ↦ elim (span_step-cases i g p) [
      | inl (e, f, c) ↦
          let (s, rest, eq, first, last, font, color) =
            span_rounds-Opens (i + 1) gs (record p { last = i }) (omega arith) in
          rw (n, e) (s, rest, eq, first, omega (arith, last, h), font, color)
      | inr e ↦ rw (n, e) (p, _, refl, refl, omega arith, refl, refl)
    ]
  ]

  span_rounds-Spanned :
      (i : ℕ) (gs : List Glyph) (p : Span) (k : ℕ) (g : Glyph)
      → p.last ≤ i
      → p.first ≤ i
      → get_elem? gs k ≡ some g
      → (g.value == 10) ≡ false
      → Spanned (span_rounds w i gs p) (i + k) g
  unfolding span_rounds
  span_rounds-Spanned i [] p k g h f e v = cc
  span_rounds-Spanned i (x ∷ gs) p zero g h f e v =
      let same : x ≡ g = some-injective _ _ e in
      let n : (x.value == 10) ≡ false = ap (λ y. y.value == 10) same ∙ v in
      let here : i ≡ i + 0 = omega arith in
      elim (span_step-cases i x p) [
        | inl (r, font, color) ↦
            rw (n, r)
              (opened (record p { last = i }) _ (i + 0) g
                (span_rounds-Opens (i + 1) gs (record p { last = i }) (omega arith))
                (omega (arith, f)) (omega arith) (font ∙ ap (λ y. y.font) same)
                (color ∙ ap (λ y. y.color) same))
        | inr r ↦
            rw (n, r)
              (later p _ (i + 0) g (
                opened (record { first = i; last = i; font = x.font; color = x.color }) _ (i + 0) g
                  (span_rounds-Opens (i + 1) gs
                    (record { first = i; last = i; font = x.font; color = x.color }) (omega arith))
                  (omega arith) (omega arith) (ap (λ y. y.font) same) (ap (λ y. y.color) same)))
      ]
  span_rounds-Spanned i (x ∷ gs) p (suc k) g h f e v =
      let there : i + 1 + k ≡ i + suc k = omega arith in
      elim (Bool-cases (x.value == 10)) [
        | inl n ↦ rw n (
            subst (λ m. Spanned (span_rounds w (i + 1) gs p) m g) there
              (span_rounds-Spanned (i + 1) gs p k g (omega (arith, h)) (omega (arith, f)) e v))
        | inr n ↦ elim (span_step-cases i x p) [
          | inl (r, _, _) ↦
              rw (n, r)
                (subst (λ m. Spanned (span_rounds w (i + 1) gs (record p { last = i })) m g) there
                  (span_rounds-Spanned (i + 1) gs (record p { last = i }) k g (omega arith)
                    (omega (arith, f)) e v))
          | inr r ↦
              rw (n, r)
                (later p _ (i + suc k) g (
                  subst
                    (λ m.
                      Spanned
                        (span_rounds w (i + 1) gs
                          (record { first = i; last = i; font = x.font; color = x.color }))
                        m g)
                    there
                    (span_rounds-Spanned (i + 1) gs
                      (record { first = i; last = i; font = x.font; color = x.color }) k g
                      (omega arith) (omega arith) e v)))
        ]
      ]

  span_rounds-Apart :
      (low i : ℕ) (gs : List Glyph) (p : Span)
      → low ≤ p.first
      → p.first ≤ p.last
      → p.last < i
      → Apart low (span_rounds w i gs p)
  unfolding span_rounds
  span_rounds-Apart low i [] p a b c = (a, b, tt)
  span_rounds-Apart low i (g ∷ gs) p a b c = elim (Bool-cases (g.value == 10)) [
    | inl n ↦ rw n (span_rounds-Apart low (i + 1) gs p a b (omega (arith, c)))
    | inr n ↦ elim (span_step-cases i g p) [
      | inl (e, _, _) ↦
          rw (n, e)
            (span_rounds-Apart low (i + 1) gs (record p { last = i }) a (omega (arith, b, c))
              (omega arith))
      | inr e ↦
          rw (n, e)
            (
              a,
              b,
              span_rounds-Apart (suc p.last) (i + 1) gs
                  (record { first = i; last = i; font = g.font; color = g.color })
                  (omega (arith, c)) (omega arith) (omega arith),
            )
    ]
  ]

  -- The first character does not start a span of its own.
  first-Apart :
      (start : ℕ) (x : Glyph) (gs : List Glyph) (p : Span)
      → p.first ≡ start
      → p.last ≡ start
      → ((x.value == 10) ≡ true)
        ⊎ ((w.same_font x.font p.font && w.same_color x.color p.color) ≡ true)
      → Apart start (span_rounds w start (x ∷ gs) p)
  unfolding span_rounds span_step
  first-Apart start x gs p a b (inl n) = rw n (
      span_rounds-Apart start (start + 1) gs p (omega (arith, a)) (omega (arith, a, b))
        (omega (arith, b)))
  first-Apart start x gs p a b (inr t) = elim (Bool-cases (x.value == 10)) [
    | inl n ↦ rw n (
        span_rounds-Apart start (start + 1) gs p (omega (arith, a)) (omega (arith, a, b))
          (omega (arith, b)))
    | inr n ↦
        rw (n, t)
          (span_rounds-Apart start (start + 1) gs (record p { last = start }) (omega (arith, a))
            (omega (arith, a)) (omega arith))
  ]

  opening : Font → String → ℕ → Glyph → Span
  opening no_font no_color start g =
      if g.value == 10
      then record { first = start; last = start; font = no_font; color = no_color }
      else record { first = start; last = start; font = g.font; color = g.color }

  opening-starts :
      (no_font : Font) (no_color : String) (start : ℕ) (g : Glyph)
      → w.same_font g.font g.font ≡ true
      → w.same_color g.color g.color ≡ true
      → ((opening no_font no_color start g).first ≡ start)
        × ((opening no_font no_color start g).last ≡ start)
        × (((g.value == 10) ≡ true)
            ⊎ ((w.same_font g.font (opening no_font no_color start g).font
                  && w.same_color g.color (opening no_font no_color start g).color)
                ≡ true))
  unfolding opening
  opening-starts no_font no_color start g rf rc = elim (Bool-cases (g.value == 10)) [
    | inl n ↦ rw n (refl, refl, inl refl)
    | inr n ↦ rw (n, rf, rc) (refl, refl, inr refl)
  ]

  -- A font and a colour are equal to themselves, and are what they are compared with where the
  -- comparison says so. A change of format of a selection makes calls whose spans follow one another
  -- without overlapping; each character of the selection that is no newline is in one of them, and
  -- the call has its font and its colour.
  pub spans-Spanned :
      (no_font : Font) (no_color : String) (start : ℕ) (gs : List Glyph)
      → ((f : Font) → w.same_font f f ≡ true)
      → ((c : String) → w.same_color c c ≡ true)
      → Apart start (spans w no_font no_color start gs)
        × ((k : ℕ) (g : Glyph)
            → get_elem? gs k ≡ some g
            → (g.value == 10) ≡ false
            → Spanned (spans w no_font no_color start gs) (start + k) g)
  unfolding spans opening
  spans-Spanned no_font no_color start [] rf rc = (tt, λ k g e v. cc)
  spans-Spanned no_font no_color start (x ∷ gs) rf rc =
      let (a, b, c) = opening-starts no_font no_color start x (rf x.font) (rc x.color) in
      (
        first-Apart start x gs (opening no_font no_color start x) a b c,
        λ k g e v.
            span_rounds-Spanned start (x ∷ gs) (opening no_font no_color start x) k g
              (omega (arith, b)) (omega (arith, a)) e v,
      )
