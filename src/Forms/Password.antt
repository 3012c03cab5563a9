-- ===== src/Forms/Password.antt =====
-- Signup::isValidPassword, on the UTF-16 units of the password.
use Prim.Native.String.{String, ◌++◌ as ◌+++◌}
use scriba.Prelude.{
  ℕ, suc, ◌≤◌, ◌≡◌, refl, sym, ◌∙◌, ◌↔◌, Bool, true, false, List, [], ◌∷◌, arith, length, leb, ltb,
  ◌==◌, ◌&&◌, ◌||◌, not, if◌then◌else◌, zero, get_elem?, some, Bool-cases, inl, inr,
}
use mathlib.Core.Option.{some-injective}
use scriba.Order.Rank.{All}

abbrev between : ℕ → ℕ → ℕ → Bool
between a b c = leb a c && leb c b

-- [A-Z], [a-z], [0-9], [@\.\-_] and [A-Za-z0-9@\.\-_]
abbrev pub is_upper : ℕ → Bool
is_upper c = between 65 90 c

abbrev pub is_lower : ℕ → Bool
is_lower c = between 97 122 c

abbrev pub is_digit : ℕ → Bool
is_digit c = between 48 57 c

abbrev pub is_special : ℕ → Bool
is_special c = (c == 64) || (c == 46) || (c == 45) || (c == 95)

abbrev pub is_allowed : ℕ → Bool
is_allowed c = is_upper c || is_lower c || is_digit c || is_special c

-- globalMatch(password).hasNext() for a class of characters
abbrev pub some_unit : (ℕ → Bool) → List ℕ → Bool
some_unit p [] = false
some_unit p (c ∷ cs) = p c || some_unit p cs

-- success = false; errorMsg.append(message)
abbrev pub reject_if : Bool → String → Bool × String → Bool × String
reject_if true message (success, error) = (false, error +++ message)
reject_if false message r = r

-- Whether the password is valid, and the error message.
unfoldable pub is_valid_password : List ℕ → Bool × String
is_valid_password p =
    if ltb (length p) 8 || ltb 12 (length p)
    then (false, "Min. 8 characters, Max 12 characters")
    else reject_if (not (some_unit is_special p)) "Use at least 1 special character" (
        reject_if (not (some_unit is_digit p)) "Use at least 1 digit\n" (
          reject_if (not (some_unit is_lower p)) "Use at least 1 lower case letter\n" (
            reject_if (not (some_unit is_upper p)) "Use at least 1 upper case letter\n" (
              reject_if (some_unit (λ c. not (is_allowed c)) p)
                "Characters allowed: A-Z, a-z, 0-9, @ . _ -\n" (true, "")))))

-- The rule that the messages put in words.
abbrev pub Has : (ℕ → Bool) → List ℕ → Type 0
Has p cs = (i : ℕ) × (c : ℕ) × (get_elem? cs i ≡ some c) × (p c ≡ true)

pub record IsAcceptable (p : List ℕ) : Type 0 where
  pub long : 8 ≤ length p
  pub short : length p ≤ 12
  pub allowed : All (λ c. is_allowed c ≡ true) p
  pub upper : Has is_upper p
  pub lower : Has is_lower p
  pub digit : Has is_digit p
  pub special : Has is_special p

some_unit-Has : (p : ℕ → Bool) (cs : List ℕ) → (some_unit p cs ≡ true) ↔ Has p cs
some_unit-Has p cs = (to cs, from cs)
  where
    to : (cs : List ℕ) → some_unit p cs ≡ true → Has p cs
    to [] h = cc
    to (c ∷ cs) h = elim (Bool-cases (p c)) [
      | inl t ↦ (0, c, refl, t)
      | inr f ↦ let (i, d, e, k) = to cs (ground (arith, h, f)) in (suc i, d, e, k)
    ]

    from : (cs : List ℕ) → Has p cs → some_unit p cs ≡ true
    from [] (i, c, e, k) = cc
    from (d ∷ cs) (zero, c, e, k) = ground (arith, some-injective _ _ e, k)
    from (d ∷ cs) (suc i, c, e, k) = ground (arith, from cs (i, c, e, k))

every_pass :
    (p : ℕ → Bool) (cs : List ℕ)
    → (some_unit (λ c. not (p c)) cs ≡ false) ↔ All (λ c. p c ≡ true) cs
every_pass p cs = (to cs, from cs)
  where
    to : (cs : List ℕ) → some_unit (λ c. not (p c)) cs ≡ false → All (λ c. p c ≡ true) cs
    to [] h = tt
    to (c ∷ cs) h = elim (Bool-cases (p c)) [
      | inl t ↦ (t, to cs (ground (arith, h, t)))
      | inr f ↦ absurd (ground (arith, h, f))
    ]

    from : (cs : List ℕ) → All (λ c. p c ≡ true) cs → some_unit (λ c. not (p c)) cs ≡ false
    from [] h = refl
    from (c ∷ cs) h = ground (arith, h.0, from cs h.1)

-- What the checks come to, one after another.
checks : List ℕ → Bool
checks p =
    leb 8 (length p)
    && leb (length p) 12
    && not (some_unit (λ c. not (is_allowed c)) p)
    && some_unit is_upper p
    && some_unit is_lower p
    && some_unit is_digit p
    && some_unit is_special p

is_valid_password-checks :
    (p : List ℕ)
    → ((is_valid_password p).0 ≡ checks p) × (checks p ≡ true → (is_valid_password p).1 ≡ "")
unfolding is_valid_password checks
is_valid_password-checks p = (ground arith, λ h. ground (arith, h))

checks-IsAcceptable : (p : List ℕ) → (checks p ≡ true) ↔ IsAcceptable p
unfolding checks
checks-IsAcceptable p = (
  λ h. record {
    long = ground (arith, h);
    short = ground (arith, h);
    allowed = (every_pass is_allowed p).0 (ground (arith, h));
    upper = (some_unit-Has is_upper p).0 (ground (arith, h));
    lower = (some_unit-Has is_lower p).0 (ground (arith, h));
    digit = (some_unit-Has is_digit p).0 (ground (arith, h));
    special = (some_unit-Has is_special p).0 (ground (arith, h));
  },
  λ a. ground (
    arith,
    a.long,
    a.short,
    (every_pass is_allowed p).1 a.allowed,
    (some_unit-Has is_upper p).1 a.upper,
    (some_unit-Has is_lower p).1 a.lower,
    (some_unit-Has is_digit p).1 a.digit,
    (some_unit-Has is_special p).1 a.special,
  ),
)

-- A password is valid exactly when it has 8 to 12 units, all of them allowed, and among them an
-- upper case letter, a lower case letter, a digit and a special character; its message is empty then.
pub is_valid_password-IsAcceptable :
    (p : List ℕ)
    → (((is_valid_password p).0 ≡ true) ↔ IsAcceptable p)
      × ((is_valid_password p).0 ≡ true → (is_valid_password p).1 ≡ "")
is_valid_password-IsAcceptable p =
    let (same, quiet) = is_valid_password-checks p in
    let (to, from) = checks-IsAcceptable p in
    ((λ h. to (sym same ∙ h), λ a. same ∙ from a), λ h. quiet (sym same ∙ h))
