-- ===== src/Crdt/Position.antt =====
-- CRDT::generatePositionBetween, generateIdBetween and the random numbers they draw. The two
-- sources of randomness are the sequences `coin` (generateRandomBool) and `rand` (std::rand),
-- which are read in order; `Entropy` holds how far, and the cache of strategies.
pub mod Digit
pub mod Level
pub mod Spec
pub mod Descend
pub mod Between
use scriba.Prelude.{
  ℕ, zero, suc, ◌+◌, ◌%◌, ◌≡◌, Bool, true, false, List, [], ◌∷◌, ◌++◌, Option, none, some, String,
  if◌then◌else◌, ◌==◌, length, get_elem?, Outcome, ok, throws, undefined, out_of_fuel, ◌>>=◌,
}
use scriba.Prelude.Int.{ℤ, pos, negsuc, ◌+ℤ◌, ◌-ℤ◌, ltb_ℤ, ◌==ℤ◌, min_ℤ}
use scriba.Symbol.{Identifier}

abbrev pub base : ℤ
base = pos 32

abbrev pub boundary : ℤ
boundary = pos 10

-- What a level of the search for a free digit finds between the two identifiers.
pub data Gap : Type 0 where
  wide adjacent earlier_site same_site later_site backwards : Gap

-- The chain of tests of generatePositionBetween. `backwards` is the way past all of them, where
-- the function ends with no return.
unfoldable pub gap : Identifier → Identifier → Gap
unfolding ◌-ℤ◌
gap id1 id2 =
    if ltb_ℤ (pos 1) (id2.digit -ℤ id1.digit)
    then wide
    else if id2.digit -ℤ id1.digit ==ℤ pos 1
    then adjacent
    else if id1.digit ==ℤ id2.digit
    then (if ltb_ℤ id1.site id2.site
        then earlier_site
        else if id1.site ==ℤ id2.site
        then same_site
        else later_site)
    else backwards

pub record Entropy : Type 0 where
  pub strategy_cache : List (ℕ × Bool)
  pub coins : ℕ
  pub draws : ℕ

unfoldable pub cached : ℕ → List (ℕ × Bool) → Option Bool
cached level [] = none
cached level ((k, b) ∷ rest) = if k == level then some b else cached level rest

-- `pos1[level]`, or the identifier that stands for the end of the document.
unfoldable pub identifier_at : List Identifier → ℕ → Identifier → Identifier
identifier_at p level default = elim (get_elem? p level) [ none ↦ default | some i ↦ i ]

module _ (coin : ℕ → Bool) (rand : ℕ → ℕ) where
  -- generateRandomNumBetween: n1 + rand() % (n2 - n1 + 1), where `%` by 0 is undefined.
  unfoldable pub random_between : ℤ → ℤ → Entropy → Outcome (ℤ × Entropy)
  random_between n1 n2 e = elim (n2 -ℤ n1 +ℤ pos 1) [
    | pos zero ↦ undefined
    | pos (suc k) ↦ ok (n1 +ℤ pos (rand e.draws % suc k), record e { draws = e.draws + 1 })
    | negsuc k ↦ ok (n1 +ℤ pos (rand e.draws % suc k), record e { draws = e.draws + 1 })
  ]

  -- The strategy of a level, drawn once.
  unfoldable pub strategy : ℕ → Entropy → Bool × Entropy
  unfolding cached
  strategy level e = elim (cached level e.strategy_cache) [
    | some b ↦ (b, e)
    | none ↦ (
      coin e.coins,
      record e { strategy_cache = (level, coin e.coins) ∷ e.strategy_cache; coins = e.coins + 1 },
    )
  ]

  unfoldable pub generate_id_between : ℤ → ℤ → ℕ → Entropy → Outcome (ℤ × Entropy)
  generate_id_between id1 id2 level e =
      let step = min_ℤ boundary (id2 -ℤ id1) in
      let (plus, e') = strategy level e in
      random_between (pos 1) (step -ℤ pos 1) e' >>= λ (delta, e'').
      ok (if plus then id1 +ℤ delta else id2 -ℤ delta, e'')

  module _ (me : ℤ) where
    -- The recursion of generatePositionBetween; `new_pos` is its out parameter.
    unfoldable pub generate_position :
        ℕ
        → List Identifier
        → List Identifier
        → List Identifier
        → ℕ
        → Entropy
        → Outcome (List Identifier × Entropy)
    generate_position zero pos1 pos2 new_pos level e = out_of_fuel
    generate_position (suc fuel) pos1 pos2 new_pos level e =
        let id1 = identifier_at pos1 level (record { digit = pos 0; site = me }) in
        let id2 = identifier_at pos2 level (record { digit = base; site = me }) in
        elim (gap id1 id2) [
          | wide ↦ generate_id_between id1.digit id2.digit level e >>= λ (digit, e').
              ok (new_pos ++ record { digit = digit; site = me } ∷ [], e')
          | adjacent ↦ generate_position fuel pos1 [] (new_pos ++ id1 ∷ []) (suc level) e
          | earlier_site ↦ generate_position fuel pos1 [] (new_pos ++ id1 ∷ []) (suc level) e
          | same_site ↦ generate_position fuel pos1 pos2 (new_pos ++ id1 ∷ []) (suc level) e
          | later_site ↦ throws "Invalid ordering"
          | backwards ↦ undefined
        ]

    -- CRDT::generatePositionBetween as localInsert calls it.
    unfoldable pub generate_position_between :
        List Identifier → List Identifier → Entropy → Outcome (List Identifier × Entropy)
    generate_position_between pos1 pos2 e =
        generate_position (length pos1 + length pos2 + 1) pos1 pos2 [] 0 e
