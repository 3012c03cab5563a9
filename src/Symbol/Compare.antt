-- ===== src/Symbol/Compare.antt =====
-- Symbol::compare is a total order of the positions.
use scriba.Prelude.{◌↔◌, ◌≡◌, refl, Ordering, List, [], ◌∷◌, arith}
use scriba.Prelude.Int.{cmp_ℤ, cmp_ℤ-flip, cmp_ℤ-eq, cmp_ℤ_self, cmp_ℤ_trans}
use scriba.Order.{TotalOrder, flip}
use scriba.Symbol.{Identifier, Symbol, compare_identifier, compare_position, compare}

abbrev lexicographic : Ordering → Ordering → Ordering
lexicographic Ordering.eq d = d
lexicographic Ordering.lt d = Ordering.lt
lexicographic Ordering.gt d = Ordering.gt

compare_identifier-cmp_ℤ :
    (i j : Identifier)
    → compare_identifier i j ≡ lexicographic (cmp_ℤ i.digit j.digit) (cmp_ℤ i.site j.site)
unfolding compare_identifier cmp_ℤ
compare_identifier-cmp_ℤ i j = ground arith

pub compare_identifier-flip :
    (i j : Identifier) → compare_identifier j i ≡ flip (compare_identifier i j)
compare_identifier-flip i j = ground (
  arith,
  compare_identifier-cmp_ℤ i j,
  compare_identifier-cmp_ℤ j i,
  cmp_ℤ-flip i.digit j.digit,
  cmp_ℤ-flip i.site j.site,
  cmp_ℤ-flip j.digit i.digit,
  cmp_ℤ-flip j.site i.site,
)

pub compare_identifier-eq : (i j : Identifier) → compare_identifier i j ≡ Ordering.eq → i ≡ j
compare_identifier-eq i j h =
    ground (arith, compare_identifier-cmp_ℤ i j, cmp_ℤ-eq i.digit j.digit, cmp_ℤ-eq i.site j.site)

pub compare_identifier_self : (i : Identifier) → compare_identifier i i ≡ Ordering.eq
compare_identifier_self i =
    ground (arith, compare_identifier-cmp_ℤ i i, cmp_ℤ_self i.digit, cmp_ℤ_self i.site)

pub compare_identifier_trans :
    (i j k : Identifier)
    → compare_identifier i j ≡ Ordering.lt
    → compare_identifier j k ≡ Ordering.lt
    → compare_identifier i k ≡ Ordering.lt
compare_identifier_trans i j k p q = ground (
  arith,
  compare_identifier-cmp_ℤ i j,
  compare_identifier-cmp_ℤ j k,
  compare_identifier-cmp_ℤ i k,
  cmp_ℤ_trans i.digit j.digit k.digit,
  cmp_ℤ_trans i.site j.site k.site,
  cmp_ℤ-eq i.digit j.digit,
  cmp_ℤ-eq j.digit k.digit,
  cmp_ℤ_self i.digit,
)

pub compare_position-flip :
    (p q : List Identifier) → compare_position q p ≡ flip (compare_position p q)
unfolding compare_position
compare_position-flip [] [] = refl
compare_position-flip [] (y ∷ ys) = refl
compare_position-flip (x ∷ xs) [] = refl
compare_position-flip (x ∷ xs) (y ∷ ys) =
    ground (arith, compare_identifier-flip x y, compare_position-flip xs ys)

pub compare_position-eq : (p q : List Identifier) → compare_position p q ≡ Ordering.eq → p ≡ q
unfolding compare_position
compare_position-eq [] [] h = refl
compare_position-eq [] (y ∷ ys) h = cc
compare_position-eq (x ∷ xs) [] h = cc
compare_position-eq (x ∷ xs) (y ∷ ys) h =
    ground (arith, compare_identifier-eq x y, compare_position-eq xs ys)

pub compare_position_trans :
    (p q r : List Identifier)
    → compare_position p q ≡ Ordering.lt
    → compare_position q r ≡ Ordering.lt
    → compare_position p r ≡ Ordering.lt
unfolding compare_position
compare_position_trans [] [] r h k = k
compare_position_trans [] (y ∷ ys) [] h k = cc
compare_position_trans [] (y ∷ ys) (z ∷ zs) h k = refl
compare_position_trans (x ∷ xs) [] r h k = cc
compare_position_trans (x ∷ xs) (y ∷ ys) [] h k = cc
compare_position_trans (x ∷ xs) (y ∷ ys) (z ∷ zs) h k = ground (
  arith,
  compare_identifier_trans x y z,
  compare_identifier-eq x y,
  compare_identifier-eq y z,
  compare_identifier_self x,
  compare_position_trans xs ys zs,
)

pub compare-TotalOrder :
    (s t u : Symbol)
    → (compare t s ≡ flip (compare s t))
      × (compare s t ≡ Ordering.lt → compare t u ≡ Ordering.lt → compare s u ≡ Ordering.lt)
      × (compare s t ≡ Ordering.eq → s.position ≡ t.position)
      × (s.position ≡ t.position → compare s t ≡ Ordering.eq)
unfolding compare
compare-TotalOrder s t u = (
  compare_position-flip s.position t.position,
  compare_position_trans s.position t.position u.position,
  compare_position-eq s.position t.position,
  λ e. rw e (ground (arith, compare_position-flip t.position t.position)),
)

pub compare-eq_left : (s t u : Symbol) → compare s t ≡ Ordering.eq → compare s u ≡ compare t u
unfolding compare
compare-eq_left s t u h = rw (compare_position-eq s.position t.position h)

abbrev pub symbol_order : TotalOrder Symbol
symbol_order = record {
  cmp = compare;
  cmp_flip = λ s t. (compare-TotalOrder s t t).0;
  lt_trans = λ s t u. (compare-TotalOrder s t u).1;
  eq_left = compare-eq_left;
}

-- The comparison of symbols flips with its arguments and is `eq` exactly at equal positions.
pub compare-flip_eq :
    (s t : Symbol)
    → (compare t s ≡ flip (compare s t)) × ((compare s t ≡ Ordering.eq) ↔ (s.position ≡ t.position))
compare-flip_eq s t = let (f, _, a, b) = compare-TotalOrder s t t in (f, (a, b))

-- The comparison of symbols is transitive.
pub compare_trans :
    (s t u : Symbol)
    → compare s t ≡ Ordering.lt
    → compare t u ≡ Ordering.lt
    → compare s u ≡ Ordering.lt
compare_trans s t u h k = (compare-TotalOrder s t u).1 h k
