-- ===== src/Crdt/Position/Level.antt =====
-- The five ways in which the identifiers at one level can lie.
use scriba.Prelude.{◌+◌, ◌<◌, ◌≡◌, Ordering, arith}
use scriba.Prelude.Int.{ℤ, pos_part, neg_part, eq_of_parts}
use scriba.Symbol.{Identifier, compare_identifier}
use scriba.Crdt.Position.{Gap, wide, adjacent, earlier_site, same_site, later_site, backwards, gap}

infix 50 ◌<ℤ◌
abbrev pub ◌<ℤ◌ : ℤ → ℤ → Type 0
a <ℤ b = pos_part a + neg_part b < pos_part b + neg_part a

-- What each class says of the two identifiers.
abbrev pub Gapped : Identifier → Identifier → Gap → Type 0
Gapped i j wide = pos_part i.digit + neg_part j.digit + 1 < pos_part j.digit + neg_part i.digit
Gapped i j adjacent = pos_part i.digit + neg_part j.digit + 1 ≡ pos_part j.digit + neg_part i.digit
Gapped i j earlier_site = (i.digit ≡ j.digit) × (i.site <ℤ j.site)
Gapped i j same_site = i ≡ j
Gapped i j later_site = (i.digit ≡ j.digit) × (j.site <ℤ i.site)
Gapped i j backwards = j.digit <ℤ i.digit

pub gap-Gapped : (i j : Identifier) → Gapped i j (gap i j)
unfolding gap
gap-Gapped i j = ground (arith, eq_of_parts i.digit j.digit, eq_of_parts i.site j.site)

pub compare_identifier_digit :
    (i j : Identifier) → i.digit <ℤ j.digit → compare_identifier i j ≡ Ordering.lt
unfolding compare_identifier
compare_identifier_digit i j h = ground arith

pub compare_identifier_site :
    (i j : Identifier) → i.digit ≡ j.digit → i.site <ℤ j.site → compare_identifier i j ≡ Ordering.lt
unfolding compare_identifier
compare_identifier_site i j h k = ground arith
