-- ===== src/Mongo.antt =====
-- Server/mongo.cpp. The collection `users` is the list of its documents, in the order in which a
-- query finds them, `images` a map from addresses; the GridFS bucket holds the files. A transaction
-- that returns early or throws leaves all this as it was; "lock" is written only to hold a document
-- and is left out. Arguments: `Crypto` is libsodium, `Driver` says which calls of the database throw
-- and gives the random numbers, in the order of the calls; what is thrown is what the code catches.
pub mod Laws
pub mod Accounts
pub mod Files
use Prim.Native.String.{String, slice}
use scriba.Prelude.{
  ℕ, zero, suc, ◌+◌, ◌%◌, Bool, true, false, List, [], ◌∷◌, ◌++◌, Option, none, some, if◌then◌else◌,
  ◌&&◌, map,
}
use scriba.Qt.{Text, same, find, put, has}
use scriba.Symbol.{Symbol}

pub data DatabaseError : Type 0 where
  non_existing_user already_existing_user wrong_password query_error connection_error :
      DatabaseError
  non_existing_file already_existing_file no_files_available crypto_error success : DatabaseError

-- A pair of `files`: name and link; of `shared_with_me`: filename and owner.
pub record User : Type 0 where
  pub username : String
  pub nickname : String
  pub password : String
  pub files : List (String × String)
  pub shared_with_me : List (String × String)

pub record Crypto : Type 0 where
  -- crypto_pwhash_str with the salt that it draws, and crypto_pwhash_str_verify == 0.
  pub hash : ℕ → String → Option String
  pub verify : String → String → Bool
  -- What ([^@]+) captures first, if anything.
  pub before_at : String → Option String

pub record Driver : Type 0 where
  pub throws_at : ℕ → Bool
  pub generate : ℕ → ℕ

-- `calls` and `draws` count what was asked of the driver and of the generators.
pub record Mongo : Type 0 where
  pub users : List User
  pub images : List (String × List ℕ)
  pub bucket : List (String × List ℕ)
  pub calls : ℕ
  pub draws : ℕ

unfoldable pub find_user : String → List User → Option User
find_user name [] = none
find_user name (u ∷ us) = if same u.username name then some u else find_user name us

-- update_one: the first document with that name.
unfoldable pub update_user : String → (User → User) → List User → List User
update_user name f [] = []
update_user name f (u ∷ us) = if same u.username name then f u ∷ us else u ∷ update_user name f us

-- A call: the query throws before anything is committed, or the body runs.
unfoldable pub attempt {ℓ} : {A : Type ℓ} → Driver → Mongo → A → (Mongo → A × Mongo) → A × Mongo
attempt d m failed body =
    let m' = record m { calls = m.calls + 1 } in
    if d.throws_at m.calls then (failed, m') else body m'

module _ (cr : Crypto) (d : Driver) where
  abbrev pub nickname_of : String → String
  nickname_of username = elim (cr.before_at username) [ none ↦ username | some n ↦ n ]

  abbrev pub drawn : Mongo → Mongo
  drawn m = record m { draws = m.draws + 1 }

  -- Mongo::signup
  unfoldable pub signup : String → String → Mongo → DatabaseError × Mongo
  unfolding attempt find_user
  signup username password m = attempt d m query_error λ m. elim (find_user username m.users) [
    | some _ ↦ (already_existing_user, m)
    | none ↦ elim (cr.hash m.draws password) [
      | none ↦ (crypto_error, drawn m)
      | some h ↦ (
        success,
        record (drawn m) {
          users =
              m.users
              ++ record {
                username = username;
                nickname = nickname_of username;
                password = h;
                files = [];
                shared_with_me = [];
              }
                ∷ [];
        },
      )
    ]
  ]

  -- Mongo::login, with the nickname on success.
  unfoldable pub login : String → String → Mongo → (DatabaseError × Option String) × Mongo
  unfolding attempt find_user
  login username password m =
      attempt d m (query_error, none)
        λ m. elim (find_user username m.users) [
          | none ↦ ((non_existing_user, none), m)
          | some u ↦
              if cr.verify u.password password
              then ((success, some u.nickname), m)
              else ((wrong_password, none), m)
        ]

  -- Mongo::updateNickname
  unfoldable pub update_nickname : String → String → Mongo → DatabaseError × Mongo
  unfolding attempt find_user update_user
  update_nickname username nickname m = attempt d m query_error λ m.
      elim (find_user username m.users) [
        | none ↦ (non_existing_user, m)
        | some _ ↦ (
          success,
          record m { users = update_user username (λ u. record u { nickname = nickname }) m.users },
        )
      ]

  -- Mongo::updatePassword
  unfoldable pub update_password : String → String → String → Mongo → DatabaseError × Mongo
  unfolding attempt find_user update_user
  update_password username oldpass newpass m = attempt d m query_error λ m.
      elim (find_user username m.users) [
        | none ↦ (non_existing_user, m)
        | some u ↦
            if cr.verify u.password oldpass
            then elim (cr.hash m.draws newpass) [
              | none ↦ (crypto_error, drawn m)
              | some h ↦ (
                success,
                record (drawn m) {
                  users = update_user username (λ u. record u { password = h }) m.users;
                },
              )
            ]
            else (wrong_password, m)
      ]

  -- Mongo::checkOldPassword
  unfoldable pub check_old_password : String → String → Mongo → DatabaseError × Mongo
  unfolding attempt find_user
  check_old_password username oldpass m = attempt d m query_error λ m.
      elim (find_user username m.users) [
        | none ↦ (non_existing_user, m)
        | some u ↦ (if cr.verify u.password oldpass then success else wrong_password, m)
      ]

  -- Mongo::checkAlreadyExistingUsername
  unfoldable pub check_already_existing_username : String → Mongo → DatabaseError × Mongo
  unfolding attempt find_user
  check_already_existing_username username m = attempt d m query_error λ m.
      elim (find_user username m.users) [
        | some _ ↦ (already_existing_user, m)
        | none ↦ (success, m)
      ]

-- Mongo::upsertImage and retrieveImage, `key` being the address with '.' replaced.
unfoldable pub upsert_image : Text → (String → String) → String → List ℕ → Mongo → Mongo
upsert_image t key email image m = record m { images = put t.less (key email) image m.images }

unfoldable pub retrieve_image : (String → String) → String → Mongo → Option (List ℕ)
retrieve_image key email m = find (key email) m.images

-- Mongo::getObjectID answers whether the bucket has the file; a new file has no bytes.
unfoldable pub insert_new_file : Text → String → Mongo → Bool × Mongo
insert_new_file t filename m =
    if has filename m.bucket
    then (false, m)
    else (true, record m { bucket = put t.less filename [] m.bucket })

-- Mongo::saveFile
unfoldable pub save_file : Text → String → List ℕ → Mongo → Bool × Mongo
save_file t filename symbols m =
    if has filename m.bucket
    then (true, record m { bucket = put t.less filename symbols m.bucket })
    else (false, m)

-- QDataStream's operators on a vector of symbols, and qCompress and qUncompress.
pub record Codec : Type 0 where
  pub write : List Symbol → List ℕ
  pub read : List ℕ → List Symbol
  pub compress : List ℕ → List ℕ
  pub uncompress : List ℕ → List ℕ

-- Mongo::retrieveFile: `none` where it returns false.
unfoldable pub retrieve_file : Codec → String → Mongo → Option (List Symbol)
retrieve_file k filename m = elim (find filename m.bucket) [
  | none ↦ none
  | some b ↦ some (k.read (k.uncompress b))
]
