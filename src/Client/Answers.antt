-- ===== src/Client/Answers.antt =====
-- Client::on_jsonReceived: the answers and the operations of one symbol.
use Prim.Native.String.{String}
use scriba.Prelude.{List, [], ◌∷◌, some, if◌then◌else◌, Outcome, ok, ◌>>=◌}
use scriba.Prelude.Int.{ℤ, pos, ◌==ℤ◌}
use scriba.Qt.{same}
use scriba.Json.{arr, Items, done, item, Fields, value, to_text, to_int, to_object}
use scriba.Symbol.Json.{from_json}
use scriba.Server.Dispatch.{insert_symbol_code, align_code}
use scriba.Client.{
  ClientEnv, Client, signed_up, signup_error, wrong_old_password, correct_old_password,
  existing_username, success_username_check, remote_insert, remote_align_change, remote_cursor,
  files_received, open_files_error, add_crdt_terminator, correct_new_file, wrong_new_file,
  user_disconnected, wrong_shared_link, success_update_password, failed_update_password, emit,
  with_text, with_bool,
}
use scriba.Client.Requests.{open_file}

abbrev pub cursor_code : ℤ
cursor_code = pos 5

-- The names and owners of the files in an answer.
unfoldable pub file_list : Items → List (String × String)
file_list done = []
file_list (item j rest) =
    let o = to_object (some j) in
    (to_text (value o "name"), to_text (value o "owner")) ∷ file_list rest

module _ {Pixmap : Type 0} (e : ClientEnv Pixmap) where
  unfoldable pub signup_answer : Fields → Client Pixmap → Client Pixmap
  signup_answer doc c =
      if c.is_logged_in
      then c
      else with_bool doc "success" c λ ok'.
        if ok' then emit signed_up c else emit (signup_error (to_text (value doc "reason"))) c

  unfoldable pub old_password_answer : Fields → Client Pixmap → Client Pixmap
  old_password_answer doc c = with_bool doc "success" c λ ok'.
      if ok'
      then emit correct_old_password c
      else emit (wrong_old_password (to_text (value doc "reason"))) c

  unfoldable pub check_username_answer : Fields → Client Pixmap → Client Pixmap
  check_username_answer doc c = with_bool doc "success" c λ ok'.
      with_text doc "username" c λ username.
        if ok'
        then emit (success_username_check username) c
        else emit (existing_username username) c

  -- An operation on one symbol; another kind is ignored.
  unfoldable pub operation_received : Fields → Client Pixmap → Outcome (Client Pixmap)
  operation_received doc c =
      let kind = to_int (value doc "operation_type") in
      let symbol = from_json e.text (to_object (value doc "symbol")) in
      if kind ==ℤ insert_symbol_code
      then (symbol >>= λ s. ok (emit (remote_insert s) c))
      else if kind ==ℤ align_code
      then (symbol >>= λ s. ok (emit (remote_align_change s) c))
      else if kind ==ℤ cursor_code
      then (symbol >>= λ s. ok (emit (remote_cursor (to_int (value doc "editorId")) s) c))
      else ok c

  -- The files are taken over before "shared" is looked at.
  unfoldable pub list_files_answer : Fields → Client Pixmap → Client Pixmap
  unfolding file_list
  list_files_answer doc c = with_bool doc "success" c λ ok'.
      if ok'
      then elim (value doc "files") [
        | some (arr files) ↦
            let c' : Client Pixmap = record c { files = file_list files } in
            with_bool doc "shared" c' λ shared. emit (files_received shared) c'
        | _ ↦ c
      ]
      else emit (open_files_error (to_text (value doc "reason"))) c

  unfoldable pub new_file_answer : Fields → Client Pixmap → Client Pixmap
  new_file_answer doc c = with_bool doc "success" c λ ok'.
      if ok'
      then emit correct_new_file
          (emit add_crdt_terminator (record c { shared_link = to_text (value doc "shared_link") }))
      else emit (wrong_new_file (to_text (value doc "reason"))) c

  unfoldable pub disconnection_received : Fields → Client Pixmap → Client Pixmap
  disconnection_received doc c = with_text doc "filename" c λ file. with_text doc "user" c λ name.
      with_text doc "nickname" c
        λ nickname. if same file c.openfile then emit (user_disconnected name nickname) c else c

  unfoldable pub shared_link_answer : Fields → Client Pixmap → Client Pixmap
  unfolding open_file
  shared_link_answer doc c = with_bool doc "success" c λ ok'.
      if ok'
      then open_file e (to_text (value doc "filename")) c
      else emit (wrong_shared_link (to_text (value doc "reason"))) c

  unfoldable pub password_answer : Fields → Client Pixmap → Client Pixmap
  password_answer doc c = with_bool doc "success" c λ ok'.
      if ok'
      then emit success_update_password c
      else emit (failed_update_password (to_text (value doc "reason"))) c

  -- Client::on_jsonReceived
  unfoldable pub on_json_received : Fields → Client Pixmap → Outcome (Client Pixmap)
  on_json_received doc c = with_text doc "type" (ok c) λ type.
      let is = e.text.same_word type in
      if is "signup"
      then ok (signup_answer doc c)
      else if is "old_password_checked"
      then ok (old_password_answer doc c)
      else if is "check_username"
      then ok (check_username_answer doc c)
      else if is "operation"
      then operation_received doc c
      else if is "list_files"
      then ok (list_files_answer doc c)
      else if is "new_file"
      then ok (new_file_answer doc c)
      else if is "disconnection"
      then ok (disconnection_received doc c)
      else if is "filename_from_sharedLink"
      then ok (shared_link_answer doc c)
      else if is "password"
      then ok (password_answer doc c)
      else ok c
