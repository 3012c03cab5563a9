-- ===== src/Mongo/Laws.antt =====
-- Queries of the collection `users` after an update.
use text.Mathlib.TextEquality.{eq_iff}
use Prim.Native.String.{String}
use scriba.Prelude.{◌≡◌, refl, ◌≢◌, List, [], ◌∷◌, ◌++◌, none, some, arith, if◌then◌else◌}
use scriba.Qt.{same}
use scriba.Mongo.{User, find_user, update_user}

pub find_user-append :
    (name : String) (us : List User) (v : User)
    → find_user name us ≡ none
    → find_user name (us ++ v ∷ []) ≡ (if same v.username name then some v else none)
unfolding find_user
find_user-append name [] v h = refl
find_user-append name (u ∷ us) v h = ground (arith, find_user-append name us v)

pub find_user-append_other :
    (name : String) (us : List User) (v : User)
    → v.username ≢ name
    → find_user name (us ++ v ∷ []) ≡ find_user name us
unfolding find_user
find_user-append_other name [] v h = ground (arith, eq_iff v.username name)
find_user-append_other name (u ∷ us) v h = ground (arith, find_user-append_other name us v h)

pub find_user-update_user :
    (name : String) (f : User → User) (us : List User) {u : User}
    → ((v : User) → (f v).username ≡ v.username)
    → find_user name us ≡ some u
    → find_user name (update_user name f us) ≡ some (f u)
unfolding find_user update_user
find_user-update_user name f [] k h = cc
find_user-update_user name f (v ∷ us) {u} k h = ground (
  arith,
  k v,
  eq_iff v.username name,
  eq_iff (f v).username name,
  find_user-update_user name f us {u = u} k,
)

pub find_user-update_user_other :
    (name other : String) (f : User → User) (us : List User)
    → ((v : User) → (f v).username ≡ v.username)
    → name ≢ other
    → find_user other (update_user name f us) ≡ find_user other us
unfolding find_user update_user
find_user-update_user_other name other f [] k h = refl
find_user-update_user_other name other f (v ∷ us) k h = ground (
  arith,
  k v,
  eq_iff v.username name,
  eq_iff v.username other,
  eq_iff (f v).username other,
  find_user-update_user_other name other f us k h,
)
