-- ===== src/Mongo/Files/Links.antt =====
-- The links of files: newFile's loop, and what a link that it made leads to.
use text.Mathlib.TextEquality.{eq_iff}
use Prim.Native.String.{String, ◌++◌ as ◌+++◌}
use scriba.Prelude.{
  ℕ, zero, suc, ◌+◌, ◌*◌, ◌<◌, ◌≡◌, refl, ◌∙◌, ap, false, List, [], ◌∷◌, ◌++◌, none, some, arith,
  Option-cases, inl, inr, ok,
}
use scriba.Mongo.{User, Mongo, Driver, success, find_user, update_user, attempt}
use scriba.Mongo.Files.{
  link_of, name_of, find_link, find_file, shared_link, fresh_link, with_file, new_file,
  get_shared_link, get_filename_from_shared_link,
}

-- If one of the first `fuel` links drawn is nobody's, the loop returns a link that is nobody's.
pub fresh_link-returns :
    (generate : ℕ → ℕ) (us : List User) (fuel draw k : ℕ)
    → k < fuel
    → find_link (shared_link generate (draw + k * 30)) us ≡ none
    → (link : String) × (draw' : ℕ) × (fresh_link fuel generate draw us ≡ ok (link, draw'))
      × (find_link link us ≡ none)
unfolding fresh_link
fresh_link-returns generate us zero draw k h e = elim h [ ]
fresh_link-returns generate us (suc fuel) draw zero h e =
    let e' : find_link (shared_link generate draw) us ≡ none =
      ap (λ n. find_link (shared_link generate n) us) (omega arith) ∙ e in
    (shared_link generate draw, draw + 30, ground (arith, e'), e')
fresh_link-returns generate us (suc fuel) draw (suc k) h e =
    elim (Option-cases (find_link (shared_link generate draw) us)) [
      | inl n ↦ (shared_link generate draw, draw + 30, ground (arith, n), n)
      | inr (p, n) ↦
          let (link, draw', run, free) =
            fresh_link-returns generate us fuel (draw + 30) k (omega arith)
              (ap (λ n. find_link (shared_link generate n) us) (omega arith) ∙ e) in
          (link, draw', ground (arith, n, run), free)
    ]

name_of-append :
    (link f : String) (fs : List (String × String))
    → name_of link fs ≡ none
    → name_of link (fs ++ (f, link) ∷ []) ≡ some f
unfolding name_of
name_of-append link f [] h = ground (arith, eq_iff link link)
name_of-append link f ((n, l) ∷ fs) h = ground (arith, name_of-append link f fs)

link_of-append :
    (name l : String) (fs : List (String × String))
    → link_of name fs ≡ none
    → link_of name (fs ++ (name, l) ∷ []) ≡ some l
unfolding link_of
link_of-append name l [] h = ground (arith, eq_iff name name)
link_of-append name l ((n, k) ∷ fs) h = ground (arith, link_of-append name l fs)

find_link-with_file :
    (link f name : String) (us : List User) {u : User}
    → find_link link us ≡ none
    → find_user name us ≡ some u
    → find_link link (update_user name (with_file f link) us) ≡ some (name, f)
unfolding find_link find_user update_user
find_link-with_file link f name [] h k = cc
find_link-with_file link f name (v ∷ us) {u} h k = ground (
  arith,
  eq_iff v.username name,
  name_of-append link f v.files,
  find_link-with_file link f name us {u = u},
)

find_file-with_file :
    (link f name : String) (us : List User) {u : User}
    → find_file name f us ≡ none
    → find_user name us ≡ some u
    → find_file name f (update_user name (with_file f link) us) ≡ some link
unfolding find_file find_user update_user
find_file-with_file link f name [] h k = cc
find_file-with_file link f name (v ∷ us) {u} h k =
    ground (arith, link_of-append f link v.files, find_file-with_file link f name us {u = u})

-- Where one of the first `fuel` links drawn is nobody's, newFile of a known account, for a name
-- that it does not use, succeeds with a link: getSharedLink then answers that link, and
-- getFilenameFromSharedLink leads any account from it to the file, if neither the call of newFile
-- nor the next one throws.
pub new_file-shared :
    (d : Driver) (fuel k : ℕ) (username filename guest : String) (u : User) (m : Mongo)
    → d.throws_at m.calls ≡ false
    → d.throws_at (m.calls + 1) ≡ false
    → find_user username m.users ≡ some u
    → find_file username filename m.users ≡ none
    → k < fuel
    → find_link (shared_link d.generate (m.draws + k * 30)) m.users ≡ none
    → (link : String) × (m' : Mongo) × (new_file fuel d username filename m
        ≡ ok ((success, link), m'))
      × ((get_shared_link d username filename m').0 ≡ (success, link))
      × ((get_filename_from_shared_link d link guest m').0
          ≡ (success, filename +++ "," +++ username))
unfolding new_file get_shared_link get_filename_from_shared_link attempt
new_file-shared d fuel k username filename guest u m up up' there absent h free =
    let (link, draws, run, unused) = fresh_link-returns d.generate m.users fuel m.draws k h free in
    (
      link,
      record m {
        calls = m.calls + 1;
        draws = draws;
        users = update_user username (with_file filename link) m.users;
      },
      rw (up, there, absent, run) refl,
      rw (up', find_file-with_file link filename username m.users {u = u} absent there) refl,
      rw (up', find_link-with_file link filename username m.users {u = u} unused there) refl,
    )
