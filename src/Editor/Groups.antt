-- ===== src/Editor/Groups.antt =====
-- The groups that handleLocalInsertion cuts a text into.
use Prim.Native.String.{String}
use mathlib.Core.List.{append_assoc, map-append}
use scriba.Prelude.{
  ℕ, ◌≡◌, refl, sym, ◌∙◌, ap, true, false, List, [], ◌∷◌, ◌++◌, map, Bool-cases, inl, inr, arith,
}
use scriba.Symbol.{Font}
use scriba.Editor.{
  Glyph, Group, Pending, Widget, continues, group_step, group_rounds, groups, next, starts,
}

-- What is relied on of QFont and QColor: where operator== holds, what the code reads is the same.
pub record Exact (w : Widget) : Type 0 where
  pub font_eq : (f g : Font) → w.same_font f g ≡ true → f ≡ g
  pub color_eq : (a b : String) → w.same_color a b ≡ true → a ≡ b

-- The characters of the calls, each with the font and colour of its call.
abbrev pub Styled : Type 0
Styled = ℕ × (Font × String)

abbrev pub styled : Glyph → Styled
styled g = (g.value, (g.font, g.color))

abbrev pub expand_group : Group → List Styled
expand_group g = map (λ v. (v, (g.font, g.color))) g.partial

abbrev pub expand : List Group → List Styled
expand [] = []
expand (g ∷ gs) = expand_group g ++ expand gs

module _ (w : Widget) (exact : Exact w) where
  joins :
      (p : Pending) (g : Glyph)
      → continues w p g ≡ true
      → (g.font ≡ p.group.font) × (g.color ≡ p.group.color)
  joins p g h = (
    exact.font_eq g.font p.group.font (ground (arith, h)),
    exact.color_eq g.color p.group.color (ground (arith, h)),
  )

  -- The last character has the format of the group.
  abbrev Agrees : Pending → Type 0
  Agrees p = (p.last.font ≡ p.group.font) × (p.last.color ≡ p.group.color)

  group_step-joins :
      (p : Pending) (g : Glyph)
      → continues w p g ≡ true
      → group_step w p g
        ≡ ([], next w p g (record p.group { partial = p.group.partial ++ g.value ∷ [] }))
  unfolding group_step
  group_step-joins p g h = rw h refl

  group_step-starts :
      (p : Pending) (g : Glyph)
      → continues w p g ≡ false
      → group_step w p g ≡ (p.group ∷ [], next w p g (starts w p g))
  unfolding group_step
  group_step-starts p g h = rw h refl

  expand-group_rounds :
      (p : Pending) (gs : List Glyph)
      → Agrees p
      → expand (group_rounds w p gs) ≡ expand_group p.group ++ map styled gs
  unfolding group_rounds
  expand-group_rounds p [] a =
      ap (λ f. map (λ v. (v, (f, p.last.color))) p.group.partial ++ []) a.0
      ∙ ap (λ c. map (λ v. (v, (p.group.font, c))) p.group.partial ++ []) a.1
  expand-group_rounds p (g ∷ rest) a = elim (Bool-cases (continues w p g)) [
    | inl c ↦
        let joined : Group = record p.group { partial = p.group.partial ++ g.value ∷ [] } in
        let (f, k) = joins p g c in
        ap (λ r. expand (r.0 ++ group_rounds w r.1 rest)) (group_step-joins p g c)
        ∙ expand-group_rounds (next w p g joined) rest (f, k)
        ∙ ap (λ l. l ++ map styled rest)
            (map-append (λ v. (v, (p.group.font, p.group.color))) p.group.partial (g.value ∷ [])
              ∙ ap (λ x. expand_group p.group ++ (g.value, x) ∷ [])
                  (ap (λ y. (y, p.group.color)) (sym f) ∙ ap (λ y. (g.font, y)) (sym k)))
        ∙ append_assoc (expand_group p.group) (styled g ∷ []) (map styled rest)
    | inr c ↦
        ap (λ r. expand (r.0 ++ group_rounds w r.1 rest)) (group_step-starts p g c)
        ∙ ap (λ l. expand_group p.group ++ l)
            (expand-group_rounds (next w p g (starts w p g)) rest (refl, refl))
  ]

  -- Whatever the fonts, colours and alignments are, the calls of localInsertGroup for a text that was
  -- added hold its characters in order, each of them once, and each with its own font and colour.
  pub expand-groups : (line : ℕ) (gs : List Glyph) → expand (groups w line gs) ≡ map styled gs
  unfolding groups
  expand-groups line [] = refl
  expand-groups line (g ∷ rest) =
      let none_yet : Group = record {
        partial = [];
        font = g.font;
        color = g.color;
        align = w.block_align line;
      } in
      expand-group_rounds
        (record { group = none_yet; line_prec = line; num_lines = line; last = none_yet })
        (g ∷ rest) (refl, refl)
