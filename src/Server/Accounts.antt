-- ===== src/Server/Accounts.antt =====
-- The handlers of Server/server.cpp that check a request against the accounts.
use Prim.Native.String.{String}
use scriba.Prelude.{ℕ, Bool, true, false, List, [], ◌∷◌, none, some, if◌then◌else◌, ◌||◌}
use scriba.Qt.{same, is_empty}
use scriba.Json.{str, bool, arr, obj, Items, done, item, Fields, end, value, assign}
use scriba.Mongo.{
  Mongo, non_existing_user, already_existing_user, wrong_password, query_error, connection_error,
  non_existing_file, no_files_available, success, login, update_nickname, update_password,
  check_old_password, check_already_existing_username,
}
use scriba.Mongo.Files.{get_files, get_filename_from_shared_link}
use scriba.Server.{Worker, Server, Env, update_worker, message, refuse}

abbrev pub Reply : Type 0
Reply = Fields × Server

-- The text under a key: `bad` where it is no string, or nothing is left of it when simplified.
unfoldable pub text_of {ℓ} :
    {A : Type ℓ} → Env → Fields → String → String → String → (String → A) → (String → A) → A
text_of e doc key wrong empty bad good = elim (value doc key) [
  | some (str raw) ↦
      if is_empty (e.text.simplified raw) then bad empty else good (e.text.simplified raw)
  | _ ↦ bad wrong
]

abbrev pub with_text :
    Env → Fields → String → String → String → Fields → Server → (String → Reply) → Reply
with_text e doc key wrong empty m s k =
    text_of e doc key wrong empty (λ reason. (refuse m reason, s)) k

abbrev pub accept : Fields → Fields
accept m = assign "success" (bool true) m

abbrev pub with_db : Server → Mongo → Server
with_db s m = record s { db = m }

-- client->getUsername() == username for some client
unfoldable pub is_connected : String → (ℕ → Worker) → List ℕ → Bool
is_connected name worker [] = false
is_connected name worker (w ∷ ws) = same (worker w).username name || is_connected name worker ws

module _ (e : Env) where
  unfoldable pub check_already_existing : Fields → Server → Reply
  unfolding text_of
  check_already_existing doc s =
      let m = message "check_username" in
      with_text e doc "username" "Wrong username format" "Empty username" m s λ username.
        let (r, db) = check_already_existing_username e.crypto e.driver username s.db in
        elim r [
          | connection_error ↦ (refuse m "Database error", with_db s db)
          | query_error ↦ (refuse m "Database error", with_db s db)
          | already_existing_user ↦ (
            assign "reason" (str "The username already exists")
                (assign "username" (str username) (assign "success" (bool false) m)),
            with_db s db,
          )
          | _ ↦ (assign "username" (str username) (accept m), with_db s db)
        ]

  unfoldable pub check_credentials : ℕ → Fields → Server → Reply
  unfolding text_of is_connected update_worker
  check_credentials sender doc s =
      let m = message "login" in
      with_text e doc "username" "Wrong username format" "Empty email" m s λ username.
        if is_connected username s.worker s.clients
        then (refuse m "Already connected from another device", s)
        else with_text e doc "password" "Wrong password format" "Empty password" m s λ password.
          let ((r, nickname), db) = login e.crypto e.driver username password s.db in
          elim r [
            | success ↦
                let nick : String = elim nickname [ none ↦ "" | some n ↦ n ] in
                (
                  assign "nickname" (str nick) (assign "username" (str username) (accept m)),
                  update_worker sender (λ w. record w { username = username; nickname = nick })
                      (with_db s db),
                )
            | non_existing_user ↦ (refuse m "Invalid username and/or password", with_db s db)
            | wrong_password ↦ (refuse m "Invalid username and/or password", with_db s db)
            | _ ↦ (refuse m "Database error", with_db s db)
          ]

  unfoldable pub update_nick : ℕ → Fields → Server → Reply
  unfolding text_of update_worker
  update_nick sender doc s =
      let m = message "nickname" in
      with_text e doc "username" "Wrong username format" "Empty email" m s λ username.
        with_text e doc "nickname" "Wrong nickname format" "Empty nickname" m s λ nickname.
          let (r, db) = update_nickname e.crypto e.driver username nickname s.db in
          let s' = update_worker sender (λ w. record w { nickname = nickname }) (with_db s db) in
          elim r [
            | connection_error ↦ (refuse m "Database error", s')
            | query_error ↦ (refuse m "Database error", s')
            | non_existing_user ↦ (refuse m "The username doens't exists", s')
            | _ ↦ (accept m, s')
          ]

  unfoldable pub update_pass : Fields → Server → Reply
  unfolding text_of
  update_pass doc s =
      let m = message "password" in
      with_text e doc "username" "Wrong username format" "Empty email" m s λ username.
        with_text e doc "oldpass" "Wrong old password format" "Empty old password" m s λ oldpass.
          with_text e doc "newpass" "Wrong new password format" "Empty new password" m s λ newpass.
            let (r, db) = update_password e.crypto e.driver username oldpass newpass s.db in
            elim r [
              | non_existing_user ↦ (refuse m "No account found for this username", with_db s db)
              | wrong_password ↦ (refuse m "Wrong password", with_db s db)
              | _ ↦ (accept m, with_db s db)
            ]

  unfoldable pub check_old_pass : Fields → Server → Reply
  unfolding text_of
  check_old_pass doc s =
      let m = message "old_password_checked" in
      with_text e doc "username" "Wrong username format" "Empty email" m s λ username.
        with_text e doc "old_password" "Wrong password format" "Empty password" m s λ old.
          let (r, db) = check_old_password e.crypto e.driver username old s.db in
          elim r [
            | connection_error ↦ (refuse m "Database error", with_db s db)
            | query_error ↦ (refuse m "Database error", with_db s db)
            | non_existing_user ↦ (refuse m "The username doens't exists", with_db s db)
            | wrong_password ↦ (refuse m "Wrong password", with_db s db)
            | _ ↦ (accept m, with_db s db)
          ]

  -- The array of files, each with its name and owner.
  unfoldable pub file_items : List (String × String) → Items
  file_items [] = done
  file_items ((name, owner) ∷ rest) =
      item (obj (assign "owner" (str owner) (assign "name" (str name) end))) (file_items rest)

  unfoldable pub list_files : Fields → Bool → Server → Reply
  unfolding text_of file_items
  list_files doc shared s =
      let m = message "list_files" in
      with_text e doc "username" "Wrong username format" "Empty username" m s λ username.
        let ((r, files), db) = get_files e.driver username shared s.db in
        elim r [
          | connection_error ↦ (refuse m "Database error.", with_db s db)
          | query_error ↦ (refuse m "Database error.", with_db s db)
          | no_files_available ↦ (refuse m "You don't have files yet.", with_db s db)
          | _ ↦ (
            assign "files" (arr (file_items files)) (accept (assign "shared" (bool shared) m)),
            with_db s db,
          )
        ]

  unfoldable pub filename_from_shared_link : Fields → String → Server → Reply
  unfolding text_of
  filename_from_shared_link doc user s =
      let m = message "filename_from_sharedLink" in
      with_text e doc "sharedLink" "Wrong shared link format" "Empty shared link" m s λ link.
        let ((r, filename), db) = get_filename_from_shared_link e.driver link user s.db in
        elim r [
          | connection_error ↦ (refuse m "Database error.", with_db s db)
          | query_error ↦ (refuse m "Database error.", with_db s db)
          | non_existing_file ↦ (refuse m "No file corresponding to shared link.", with_db s db)
          | _ ↦ (assign "filename" (str filename) (accept m), with_db s db)
        ]
