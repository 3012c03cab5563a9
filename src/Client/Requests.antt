-- ===== src/Client/Requests.antt =====
-- The requests of Client/client.cpp: what the client sends for each of them.
use Prim.Native.String.{String}
use scriba.Prelude.{ℕ, Bool, false, List, [], ◌++◌, Option, none, some, if◌then◌else◌}
use scriba.Json.{Fields, assign, str}
use scriba.Symbol.{Symbol}
use scriba.Server.{message}
use scriba.Server.Frame.{block, le32}
use scriba.Client.{ClientEnv, Client, connect, disconnect, packet, act}

module _ {Pixmap : Type 0} (e : ClientEnv Pixmap) where
  -- Client::sendJson
  unfoldable pub send_json : Fields → Client Pixmap → Client Pixmap
  send_json m c = act (packet (e.compact m)) c

  unfoldable pub login : String → String → Client Pixmap → Client Pixmap
  unfolding send_json
  login username password c =
      send_json
        (assign "password" (str password) (assign "username" (str username) (message "login")))
        (act connect c)

  -- A message with an image after it; without one, a size of 0.
  unfoldable pub with_image : Fields → Option Pixmap → List ℕ
  unfolding block
  with_image m image =
      block (e.compact m) ++ (elim image [ none ↦ le32 0 | some p ↦ block (e.png p) ])

  unfoldable pub signup : String → String → Option Pixmap → Client Pixmap → Client Pixmap
  unfolding with_image
  signup username password image c =
      act
        (packet (
          with_image
            (assign "password" (str password) (assign "username" (str username) (message "signup")))
            image))
        (act connect c)

  unfoldable pub get_files : Bool → Client Pixmap → Client Pixmap
  unfolding send_json
  get_files shared c =
      send_json
        (assign "username" (str c.username)
          (message (if shared then "list_shared_files" else "list_files")))
        c

  unfoldable pub get_filename_from_link : String → Client Pixmap → Client Pixmap
  unfolding send_json
  get_filename_from_link link c =
      send_json (assign "sharedLink" (str link) (message "filename_from_sharedLink")) c

  unfoldable pub update_nickname : String → Client Pixmap → Client Pixmap
  unfolding send_json
  update_nickname nickname c =
      record (send_json
        (assign "nickname" (str nickname) (assign "username" (str c.username) (message "nickname")))
        c) { nickname = nickname }

  unfoldable pub update_password : String → String → Client Pixmap → Client Pixmap
  unfolding send_json
  update_password oldpassword newpassword c =
      send_json
        (assign "newpass" (str newpassword) (
          assign "oldpass" (str oldpassword)
            (assign "username" (str c.username) (message "password"))))
        c

  unfoldable pub check_old_password : String → Client Pixmap → Client Pixmap
  unfolding send_json
  check_old_password old_password c =
      send_json
        (assign "old_password" (str old_password)
          (assign "username" (str c.username) (message "check_old_password")))
        c

  -- Client::checkExistingOrNotUsername
  unfoldable pub check_username : String → Client Pixmap → Client Pixmap
  unfolding send_json
  check_username username c =
      send_json (assign "username" (str username) (message "check_username")) (act connect c)

  unfoldable pub create_new_file : String → Client Pixmap → Client Pixmap
  unfolding send_json
  create_new_file filename c =
      send_json
        (assign "author" (str c.username) (assign "filename" (str filename) (message "new_file"))) c

  unfoldable pub send_profile_image : Client Pixmap → Client Pixmap
  unfolding with_image
  send_profile_image c =
      act
        (packet (
          with_image (assign "username" (str c.username) (message "update_image"))
            (some c.profile)))
        c

  unfoldable pub open_file : String → Client Pixmap → Client Pixmap
  unfolding send_json
  open_file filename c = send_json (assign "filename" (str filename) (message "file_to_open")) c

  unfoldable pub close_file : Client Pixmap → Client Pixmap
  unfolding send_json
  close_file c =
      send_json
        (assign "nickname" (str c.nickname) (
          assign "username" (str c.username)
            (assign "filename" (str c.openfile) (message "close"))))
        c

  -- Client::createByteArrayFileContent
  unfoldable pub create_byte_array_file_content : Fields → List Symbol → List ℕ
  unfolding block
  create_byte_array_file_content m symbols = block (e.document m) ++ block (e.write_symbols symbols)

  unfoldable pub disconnect_from_host : Client Pixmap → Client Pixmap
  disconnect_from_host c = act disconnect (
      if c.is_logged_in
      then record c {
        is_logged_in = false;
        username = "";
        nickname = "";
        profile = e.anonymous;
        files = [];
      }
      else c)
