-- ===== src/Mongo/Accounts.antt =====
-- Accounts: signup, login and changes of password, one after another.
use text.Mathlib.TextEquality.{eq_iff}
use Prim.Native.String.{String}
use scriba.Prelude.{
  ◌≡◌, refl, ◌≢◌, ◌⊎◌, inl, inr, ℕ, ◌+◌, [], ◌∷◌, ◌++◌, none, some, arith, if◌then◌else◌, true,
  false, Option-cases, Bool-cases,
}
use scriba.Mongo.{
  User, Mongo, Crypto, Driver, success, wrong_password, find_user, update_user, attempt, signup,
  login, update_password, nickname_of,
}
use scriba.Mongo.Laws.{
  find_user-append, find_user-append_other, find_user-update_user, find_user-update_user_other,
}

-- Of libsodium: a hash that crypto_pwhash_str made of a password verifies that password.
abbrev pub Verifies : Crypto → Type 0
Verifies cr = (n : ℕ) (p h : String) → cr.hash n p ≡ some h → cr.verify h p ≡ true

module _ (cr : Crypto) (d : Driver) where
  -- A signup for a new name succeeds, if neither it nor the next call throws, the hash is made, and
  -- a hash verifies the password that it was made of: a login with any password then succeeds exactly if it verifies against that hash, as the password
  -- of the signup does, with the nickname taken from the name; every other account is as it was.
  pub signup-login :
      (username password h p other : String) (m : Mongo)
      → d.throws_at m.calls ≡ false
      → d.throws_at (m.calls + 1) ≡ false
      → find_user username m.users ≡ none
      → cr.hash m.draws password ≡ some h
      → Verifies cr
      → username ≢ other
      → (m' : Mongo) × (signup cr d username password m ≡ (success, m'))
        × ((login cr d username p m').0 ≡ (
            if cr.verify h p
            then (success, some (nickname_of cr d username))
            else (wrong_password, none)))
        × (cr.verify h password ≡ true)
        × (find_user other m'.users ≡ find_user other m.users)
  unfolding signup login attempt
  signup-login username password h p other m up up' new hashed law ne =
      let u : User = record {
        username = username;
        nickname = nickname_of cr d username;
        password = h;
        files = [];
        shared_with_me = [];
      } in
      (
        record m { calls = m.calls + 1; draws = m.draws + 1; users = m.users ++ u ∷ [] },
        ground (arith, up, new, hashed),
        ground (arith, up', find_user-append username m.users u new, eq_iff username username),
        law m.draws password h hashed,
        find_user-append_other other m.users u ne,
      )

  -- A change of password by the old one succeeds, if neither it nor the next call throws and the
  -- hash is made: a login with any password then succeeds exactly if it verifies against the new
  -- hash, with the nickname that the account had; every other account is as it was.
  pub update_password-login :
      (username old new h p other : String) (u : User) (m : Mongo)
      → d.throws_at m.calls ≡ false
      → d.throws_at (m.calls + 1) ≡ false
      → find_user username m.users ≡ some u
      → cr.verify u.password old ≡ true
      → cr.hash m.draws new ≡ some h
      → username ≢ other
      → (m' : Mongo) × (update_password cr d username old new m ≡ (success, m'))
        × ((login cr d username p m').0
            ≡ (if cr.verify h p then (success, some u.nickname) else (wrong_password, none)))
        × (find_user other m'.users ≡ find_user other m.users)
  unfolding update_password login attempt
  update_password-login username old new h p other u m up up' there ok hashed ne =
      let f : User → User = λ v. record v { password = h } in
      (
        record m {
          calls = m.calls + 1;
          draws = m.draws + 1;
          users = update_user username f m.users;
        },
        ground (arith, up, there, ok, hashed),
        ground (arith, up', find_user-update_user username f m.users {u = u} (λ _. refl) there),
        find_user-update_user_other username other f m.users (λ _. refl) ne,
      )

  -- Unless it succeeds, a signup or a change of password leaves every account as it was.
  pub failed-keeps_users :
      (username password old new : String) (m : Mongo)
      → (((signup cr d username password m).0 ≡ success)
          ⊎ ((signup cr d username password m).1.users ≡ m.users))
        × (((update_password cr d username old new m).0 ≡ success)
            ⊎ ((update_password cr d username old new m).1.users ≡ m.users))
  unfolding signup update_password attempt
  failed-keeps_users username password old new m = (
    elim (Bool-cases (d.throws_at m.calls)) [
      | inl t ↦ inr (ground (arith, t))
      | inr t ↦ elim (Option-cases (find_user username m.users)) [
        | inr (u, e) ↦ inr (ground (arith, t, e))
        | inl e ↦ elim (Option-cases (cr.hash m.draws password)) [
          | inl k ↦ inr (ground (arith, t, e, k))
          | inr (h, k) ↦ inl (ground (arith, t, e, k))
        ]
      ]
    ],
    elim (Bool-cases (d.throws_at m.calls)) [
      | inl t ↦ inr (ground (arith, t))
      | inr t ↦ elim (Option-cases (find_user username m.users)) [
        | inl e ↦ inr (ground (arith, t, e))
        | inr (u, e) ↦ elim (Bool-cases (cr.verify u.password old)) [
          | inr v ↦ inr (ground (arith, t, e, v))
          | inl v ↦ elim (Option-cases (cr.hash m.draws new)) [
            | inl k ↦ inr (ground (arith, t, e, v, k))
            | inr (h, k) ↦ inl (ground (arith, t, e, v, k))
          ]
        ]
      ]
    ],
  )
