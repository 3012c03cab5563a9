-- ===== src/Examples/Accounts.antt =====
-- Two accounts, with a hash that is the password itself.
use Prim.Native.String.{String, ◌++◌ as ◌+++◌}
use text.Mathlib.TextEquality.{eq_iff}
use scriba.Prelude.{ℕ, ◌≡◌, refl, [], ◌∷◌, true, false, none, some, arith, ok, if◌then◌else◌}
use scriba.Qt.{same}
use scriba.Mongo.{
  User, Mongo, Crypto, Driver, success, wrong_password, signup, login, find_user, nickname_of,
}
use scriba.Mongo.Accounts.{signup-login}
use scriba.Mongo.Files.{
  find_link, find_file, link_of, name_of, new_file, get_shared_link, get_filename_from_shared_link,
}
use scriba.Mongo.Files.Links.{new_file-shared}

abbrev crypto : Crypto
crypto = record { hash = λ n p. some p; verify = λ h p. same h p; before_at = λ s. none }

abbrev driver : Driver
driver = record { throws_at = λ n. false; generate = λ n. n }

abbrev ada : User
ada = record {
  username = "ada";
  nickname = "ada";
  password = "engine";
  files = [];
  shared_with_me = [];
}

abbrev accounts : Mongo
accounts = record { users = ada ∷ []; images = []; bucket = []; calls = 0; draws = 0 }

verifies : (n : ℕ) (p h : String) → crypto.hash n p ≡ some h → crypto.verify h p ≡ true
verifies n p h e = ground (arith, e, eq_iff h p)

signup-login_example :
    (m' : Mongo) × (signup crypto driver "bob" "secret" accounts ≡ (success, m'))
    × ((login crypto driver "bob" "guess" m').0 ≡ (
        if crypto.verify "secret" "guess"
        then (success, some (nickname_of crypto driver "bob"))
        else (wrong_password, none)))
    × (crypto.verify "secret" "secret" ≡ true)
    × (find_user "ada" m'.users ≡ find_user "ada" accounts.users)
unfolding find_user
signup-login_example =
    signup-login crypto driver "bob" "secret" "secret" "guess" "ada" accounts refl refl refl refl
      verifies (λ e. ground (arith, e, eq_iff "bob" "ada"))

new_file-shared_example :
    (link : String) × (m' : Mongo) × (new_file 1 driver "ada" "notes" accounts
      ≡ ok ((success, link), m'))
    × ((get_shared_link driver "ada" "notes" m').0 ≡ (success, link))
    × ((get_filename_from_shared_link driver link "bob" m').0
        ≡ (success, "notes" +++ "," +++ "ada"))
unfolding find_user find_file find_link name_of link_of
new_file-shared_example =
    new_file-shared driver 1 0 "ada" "notes" "bob" ada accounts refl refl refl refl (omega arith)
      refl
