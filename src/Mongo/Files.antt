-- ===== src/Mongo/Files.antt =====
-- The files of the accounts and their links: newFile, getSharedLink, getFilenameFromSharedLink,
-- getFiles and generateRandomString.
pub mod Links
use Prim.Native.String.{String, slice, ◌++◌ as ◌+++◌}
use scriba.Prelude.{
  ℕ, zero, suc, ◌+◌, ◌%◌, Bool, true, false, List, [], ◌∷◌, ◌++◌, Option, none, some, if◌then◌else◌,
  ◌&&◌, ◌||◌, map, Outcome, ok, out_of_fuel, ◌>>=◌,
}
use scriba.Qt.{same, find, has}
use scriba.Mongo.{
  User, Mongo, Driver, DatabaseError, success, query_error, non_existing_user,
  already_existing_file, non_existing_file, no_files_available, find_user, update_user, attempt,
}

abbrev pub possible_characters : String
possible_characters = "ABCDEFGHIJKLMNOPQRSTUVWXYZabcdefghijklmnopqrstuvwxyz0123456789"

-- Mongo::generateRandomString: `n` characters by the numbers from `draw` on.
unfoldable pub generate_random_string : (ℕ → ℕ) → ℕ → ℕ → String
generate_random_string generate zero draw = ""
generate_random_string generate (suc n) draw =
    let i = generate draw % 62 in
    slice possible_characters i (i + 1) +++ generate_random_string generate n (draw + 1)

-- A pair of `files` by its name, and by its link.
unfoldable pub link_of : String → List (String × String) → Option String
link_of name [] = none
link_of name ((n, l) ∷ fs) = if same n name then some l else link_of name fs

unfoldable pub name_of : String → List (String × String) → Option String
name_of link [] = none
name_of link ((n, l) ∷ fs) = if same l link then some n else name_of link fs

-- The first document with a file of that link: its username and the file's name.
unfoldable pub find_link : String → List User → Option (String × String)
unfolding name_of
find_link link [] = none
find_link link (u ∷ us) = elim (name_of link u.files) [
  | some name ↦ some (u.username, name)
  | none ↦ find_link link us
]

-- The first document of that name with a file of that name: the file's link.
unfoldable pub find_file : String → String → List User → Option String
unfolding link_of
find_file author name [] = none
find_file author name (u ∷ us) =
    let rest = find_file author name us in
    if same u.username author
    then elim (link_of name u.files) [ some l ↦ some l | none ↦ rest ]
    else rest

abbrev pub shared_link : (ℕ → ℕ) → ℕ → String
shared_link generate draw = "shared_editor://file/" +++ generate_random_string generate 30 draw

-- The loop of newFile: 30 numbers a round, until a link is nobody's.
unfoldable pub fresh_link : ℕ → (ℕ → ℕ) → ℕ → List User → Outcome (String × ℕ)
unfolding find_link generate_random_string
fresh_link zero generate draw us = out_of_fuel
fresh_link (suc fuel) generate draw us =
    let next = fresh_link fuel generate (draw + 30) us in
    elim (find_link (shared_link generate draw) us) [
      | none ↦ ok (shared_link generate draw, draw + 30)
      | some _ ↦ next
    ]

abbrev pub with_file : String → String → User → User
with_file filename link u = record u { files = u.files ++ (filename, link) ∷ [] }

-- Mongo::newFile, with the link on success; `fuel` bounds the rounds of its loop.
unfoldable pub new_file :
    ℕ → Driver → String → String → Mongo → Outcome ((DatabaseError × String) × Mongo)
unfolding find_user update_user find_file
new_file fuel d username filename m =
    let m' = record m { calls = m.calls + 1 } in
    if d.throws_at m.calls then ok ((query_error, ""), m') else elim (find_user username m.users) [
      | none ↦ ok ((non_existing_user, ""), m')
      | some _ ↦ elim (find_file username filename m.users) [
        | some _ ↦ ok ((already_existing_file, ""), m')
        | none ↦ fresh_link fuel d.generate m.draws m.users >>= λ (link, draws). ok (
          (success, link),
          record m' {
            draws = draws;
            users = update_user username (with_file filename link) m.users;
          },
        )
      ]
    ]

-- Mongo::getSharedLink, with its out parameter.
unfoldable pub get_shared_link : Driver → String → String → Mongo → (DatabaseError × String) × Mongo
unfolding attempt find_file
get_shared_link d author filename m =
    attempt d m (query_error, "ERROR")
      λ m. elim (find_file author filename m.users) [
        | none ↦ ((non_existing_file, "ERROR"), m)
        | some link ↦ ((success, link), m)
      ]

abbrev pub has_pair : String × String → List (String × String) → Bool
has_pair p [] = false
has_pair p (q ∷ qs) = (same q.0 p.0 && same q.1 p.1) || has_pair p qs

-- $addToSet
abbrev pub shared_with : String × String → User → User
shared_with p u = record u {
  shared_with_me =
      if has_pair p u.shared_with_me then u.shared_with_me else u.shared_with_me ++ p ∷ [];
}

-- Mongo::getFilenameFromSharedLink, with its out parameter.
unfoldable pub get_filename_from_shared_link :
    Driver → String → String → Mongo → (DatabaseError × String) × Mongo
unfolding attempt find_link update_user
get_filename_from_shared_link d link user m =
    attempt d m (query_error, "ERROR")
      λ m. elim (find_link link m.users) [
        | none ↦ ((non_existing_file, "ERROR"), m)
        | some (owner, name) ↦ (
          (success, name +++ "," +++ owner),
          record m { users = update_user user (shared_with (name, owner)) m.users },
        )
      ]

abbrev pub unless_empty : List (String × String) → DatabaseError × List (String × String)
unless_empty [] = (no_files_available, [])
unless_empty (f ∷ fs) = (success, f ∷ fs)

-- Mongo::getFiles: pairs of a name and its owner.
unfoldable pub get_files :
    Driver → String → Bool → Mongo → (DatabaseError × List (String × String)) × Mongo
unfolding attempt find_user
get_files d username shared m =
    attempt d m (query_error, [])
      λ m. elim (find_user username m.users) [
        | none ↦ ((non_existing_user, []), m)
        | some u ↦ (
          unless_empty (if shared then u.shared_with_me else map (λ f. (f.0, username)) u.files),
          m,
        )
      ]
