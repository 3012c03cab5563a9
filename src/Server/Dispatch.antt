-- ===== src/Server/Dispatch.antt =====
-- The dispatch of Server/server.cpp: jsonReceived, jsonFromLoggedOut, jsonFromLoggedIn and
-- handle_signup_updateImage_bulkOperation.
use Prim.Native.String.{String}
use scriba.Prelude.{
  ℕ, Bool, true, false, List, [], ◌∷◌, none, some, if◌then◌else◌, ◌||◌, Outcome, ok, throws, ◌>>=◌,
  ◌==◌,
}
use scriba.Prelude.Int.{ℤ, pos, ◌==ℤ◌}
use scriba.Qt.{is_empty}
use scriba.Json.{Json, str, obj, Fields, end, value, to_text, to_int, to_bool, to_object}
use scriba.Symbol.Json.{from_json}
use scriba.Mongo.{
  already_existing_user, query_error, connection_error, signup, upsert_image, retrieve_image,
}
use scriba.Server.{Server, Env, json, bytes, send_packet, broadcast, message, refuse}
use scriba.Server.Frame.{
  create_byte_array_json_image, broadcast_bytes, payload, after_block, read_le32,
}
use scriba.Server.Accounts.{
  Reply, text_of, accept, with_db, check_already_existing, check_credentials, update_nick,
  update_pass, check_old_pass, list_files, filename_from_shared_link,
}
use scriba.Server.Files.{
  store_symbol, store_symbols, remove_symbols, mark, create_new_file, send_file,
}
use scriba.Server.Leave.{close_file}

-- Utility/common.h: the numbers of the operations.
abbrev pub insert_symbol_code : ℤ
insert_symbol_code = pos 0

abbrev pub delete_symbol_code : ℤ
delete_symbol_code = pos 1

abbrev pub change_code : ℤ
change_code = pos 2

abbrev pub align_code : ℤ
align_code = pos 3

abbrev pub paste_code : ℤ
paste_code = pos 4

module _ (e : Env) where
  abbrev pub word : String → String → Bool
  word = e.text.same_word

  abbrev pub answer : ℕ → Reply → Server
  answer sender (m, s) = send_packet sender (json m) s

  abbrev pub answer_ok : ℕ → Outcome Reply → Outcome Server
  answer_ok sender r = r >>= λ reply. ok (answer sender reply)

  unfoldable pub json_from_logged_out : ℕ → Fields → Server → Server
  unfolding send_packet
  json_from_logged_out sender doc s = elim (value doc "type") [
    | some (str type) ↦
        if word type "login"
        then (let (m, s') = check_credentials e sender doc s in
            let images : List (List ℕ) =
              if to_bool (value m "success")
              then elim (retrieve_image e.image_key (s'.worker sender).username s'.db) [
                | none ↦ []
                | some image ↦ image ∷ []
              ]
              else [] in
            send_packet sender (bytes (create_byte_array_json_image e m images)) s')
        else if word type "check_username"
        then answer sender (check_already_existing e doc s)
        else s
    | _ ↦ s
  ]

  -- The operations on one symbol, the file being that of the sender.
  unfoldable pub operation : ℕ → Fields → Server → Outcome Server
  unfolding store_symbol broadcast
  operation sender doc s =
      let kind = to_int (value doc "operation_type") in
      let filename = (s.worker sender).filename in
      (if (kind ==ℤ insert_symbol_code) || (kind ==ℤ align_code)
        then (from_json e.text (to_object (value doc "symbol")) >>= λ x.
            store_symbol e filename x s)
        else ok s)
      >>= λ s'. broadcast (json doc) sender (mark e filename true s')

  unfoldable pub json_from_logged_in : ℕ → Fields → Server → Outcome Server
  unfolding operation send_packet
  json_from_logged_in sender doc s = elim (value doc "type") [
    | some (str type) ↦
        if word type "nickname"
        then ok (answer sender (update_nick e sender doc s))
        else if word type "password"
        then ok (answer sender (update_pass e doc s))
        else if word type "check_old_password"
        then ok (answer sender (check_old_pass e doc s))
        else if word type "list_files"
        then ok (answer sender (list_files e doc false s))
        else if word type "list_shared_files"
        then ok (answer sender (list_files e doc true s))
        else if word type "operation"
        then operation sender doc s
        else if word type "new_file"
        then answer_ok sender (create_new_file e sender doc s)
        else if word type "file_to_open"
        then (send_file e sender doc s >>= λ (_, s'). ok s')
        else if word type "close"
        then answer_ok sender (close_file e sender doc s)
        else if word type "filename_from_sharedLink"
        then ok (answer sender (filename_from_shared_link e doc (s.worker sender).username s))
        else ok s
    | _ ↦ ok s
  ]

  unfoldable pub json_received : ℕ → Fields → Server → Outcome Server
  json_received sender doc s =
      if is_empty (s.worker sender).nickname
      then ok (json_from_logged_out sender doc s)
      else json_from_logged_in sender doc s

  -- The image after the JSON of a signup or an update_image, put under the user's name.
  unfoldable pub store_image : String → List ℕ → Server → Server
  unfolding after_block payload read_le32
  store_image username b s =
      if read_le32 (after_block b) == 0
      then s
      else with_db s (upsert_image e.text e.image_key username (payload (after_block b)) s.db)

  -- A username that is no string reads as the empty text, which the first test refuses.
  unfoldable pub signup_message : ℕ → Fields → List ℕ → Server → Server
  unfolding send_packet store_image
  signup_message sender doc b s =
      let m = message "signup" in
      let raw = value doc "username" in
      let username = e.text.simplified (to_text raw) in
      if is_empty username
      then send_packet sender (json (refuse end "Empty email")) s
      else text_of e doc "password" "Wrong password format" "Empty password"
          (λ reason. send_packet sender (json (refuse m reason)) s)
          λ password.
            let (r, db) = signup e.crypto e.driver username password s.db in
            elim r [
              | connection_error ↦
                  send_packet sender (json (refuse m "Database error")) (with_db s db)
              | query_error ↦ send_packet sender (json (refuse m "Database error")) (with_db s db)
              | already_existing_user ↦
                  send_packet sender (json (refuse m "The username already exists")) (with_db s db)
              | _ ↦ send_packet sender (json (accept m)) (store_image username b (with_db s db))
            ]

  unfoldable pub update_image_message : Fields → List ℕ → Server → Server
  unfolding store_image
  update_image_message doc b s =
      let username = e.text.simplified (to_text (value doc "username")) in
      if is_empty username then s else store_image username b s

  -- The operations on several symbols, which come as bytes after the JSON.
  unfoldable pub bulk_operation : ℕ → Fields → List ℕ → Server → Outcome Server
  unfolding after_block payload read_le32 store_symbols remove_symbols broadcast send_packet
  bulk_operation sender doc b s =
      let kind = to_int (value doc "operation_type") in
      let filename = (s.worker sender).filename in
      let content = payload (after_block b) in
      if (kind ==ℤ paste_code) || (kind ==ℤ change_code) || (kind ==ℤ delete_symbol_code)
      then (if read_le32 (after_block b) == 0
          then throws "Vector shouldn't be empty."
          else (if kind ==ℤ delete_symbol_code
              then remove_symbols e filename (e.codec.read content) s
              else store_symbols e filename (e.codec.read content) s)
            >>= λ s'.
                broadcast (bytes (broadcast_bytes e doc content)) sender (mark e filename true s'))
      else ok (send_packet sender (json (refuse end "Wrong format")) s)

  unfoldable pub byte_array_received : ℕ → List ℕ → Server → Outcome Server
  unfolding payload send_packet signup_message update_image_message bulk_operation
  byte_array_received sender b s = elim (e.parse (payload b)) [
    | some (obj doc) ↦ elim (value doc "type") [
      | some (str type) ↦
          if word type "signup"
          then ok (signup_message sender doc b s)
          else if word type "update_image"
          then ok (update_image_message doc b s)
          else if word type "operation"
          then elim (value doc "operation_type") [
            | some Json.null ↦ ok (send_packet sender (json (refuse end "Wrong format")) s)
            | _ ↦ bulk_operation sender doc b s
          ]
          else ok s
      | _ ↦ ok (send_packet sender (json (refuse end "Wrong format")) s)
    ]
    | _ ↦ ok (send_packet sender (json (refuse end "JSON error")) s)
  ]
