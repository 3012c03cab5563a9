-- ===== src/Client/Contents.antt =====
-- Client::on_byteArrayReceived: what comes with images or symbols after the JSON. QProgressDialog
-- only shows the counter and is left out.
use Prim.Native.String.{String}
use scriba.Prelude.{
  ℕ, ◌+◌, true, List, [], ◌∷◌, none, some, if◌then◌else◌, Outcome, ok, throws, undefined, ◌==◌,
  ◌||◌, drop,
}
use scriba.Prelude.Int.{pos, ◌==ℤ◌, ltb_ℤ}
use scriba.Qt.{same, is_empty}
use scriba.Json.{arr, obj, null, Items, done, item, Fields, value, to_text, to_int, to_object}
use scriba.Symbol.{Symbol}
use scriba.Crdt.Search.{newline}
use scriba.Server.Frame.{read_le32, payload, after_block}
use scriba.Server.Dispatch.{paste_code, change_code, delete_symbol_code}
use scriba.Client.{
  ClientEnv, Client, logged_in, login_error, remote_insert, remote_align_change, remote_paste,
  remote_change, remote_erase, users_connected_received, correct_opened_file, wrong_list_files,
  emit, with_text, with_bool,
}

module _ {Pixmap : Type 0} (e : ClientEnv Pixmap) where
  -- The symbols of a file go to the editor from the last to the first.
  unfoldable pub emit_symbol : Symbol → Client Pixmap → Client Pixmap
  emit_symbol s c =
      let c' = emit (remote_insert s) c in
      let c'' =
        if (s.value == newline) || (s.value == 0) then emit (remote_align_change s) c' else c' in
      record c'' { progress_counter = c.progress_counter + 1 }

  unfoldable pub emit_symbols : List Symbol → Client Pixmap → Client Pixmap
  unfolding emit_symbol
  emit_symbols [] c = c
  emit_symbols (s ∷ rest) c = emit_symbol s (emit_symbols rest c)

  -- An image, or the anonymous one where its size is 0.
  unfoldable pub image_or_anonymous : ℕ → List ℕ → Pixmap
  image_or_anonymous size b = if size == 0 then e.anonymous else e.from_data b e.null_pixmap

  -- The users of a file, each with the next image.
  unfoldable pub connected_users : Items → List ℕ → List ((String × String) × Pixmap)
  unfolding image_or_anonymous payload after_block read_le32
  connected_users done b = []
  connected_users (item j rest) b =
      let o = to_object (some j) in
      (
        (to_text (value o "username"), to_text (value o "nickname")),
        image_or_anonymous (read_le32 b) (payload b),
      )
      ∷ connected_users rest (after_block b)

  -- What follows the symbols of an opened file.
  unfoldable pub opened_users : Fields → List ℕ → Client Pixmap → Client Pixmap
  unfolding connected_users
  opened_users doc b c = with_text doc "filename" c λ name.
      let c1 : Client Pixmap = record c { openfile = name } in
      with_text doc "shared_link" c1 λ link.
        let c2 : Client Pixmap = record c1 { shared_link = link } in
        elim (value doc "users") [
          | some (arr users) ↦
              emit correct_opened_file
                (emit (users_connected_received (connected_users users b)) c2)
          | _ ↦ c2
        ]

  unfoldable pub file_to_open_answer : Fields → List ℕ → Client Pixmap → Outcome (Client Pixmap)
  unfolding emit_symbols opened_users payload after_block read_le32
  file_to_open_answer doc b c = with_bool doc "success" (ok c) λ success.
      if success
      then if to_int (value doc "tot_symbols") ==ℤ pos 0
        then ok c
        else if read_le32 b == 0
        then throws "Empty content received."
        else ok (
            opened_users doc (after_block b)
              (emit_symbols (e.read_symbols (payload b)) (record c { progress_counter = 0 })))
      else ok (emit (wrong_list_files (to_text (value doc "reason"))) (record c { openfile = "" }))

  -- Another user at the same file.
  unfoldable pub connection_received : Fields → List ℕ → Client Pixmap → Client Pixmap
  unfolding image_or_anonymous read_le32
  connection_received doc b c = with_text doc "filename" c λ file.
      with_text doc "username" c λ name.
        if same file c.openfile
        then emit
            (users_connected_received (
              (
                (to_text (value doc "username"), to_text (value doc "nickname")),
                image_or_anonymous (read_le32 b) (drop 4 b),
              )
              ∷ []))
            c
        else c

  unfoldable pub login_answer : Fields → List ℕ → Client Pixmap → Client Pixmap
  unfolding read_le32
  login_answer doc b c =
      if c.is_logged_in
      then c
      else with_bool doc "success" c λ success.
        if success
        then (with_text doc "username" c λ user.
            let username = e.text.simplified user in
            if is_empty username
            then c
            else with_text doc "nickname" c λ nick.
              let nickname = e.text.simplified nick in
              if is_empty nickname
              then c
              else emit logged_in (record c {
                is_logged_in = true;
                username = username;
                nickname = nickname;
                profile = if read_le32 b == 0 then c.profile else e.from_data (drop 4 b) c.profile;
              }))
        else emit (login_error (to_text (value doc "reason"))) c

  -- The operations on several symbols. QVector cannot be made with a negative size.
  unfoldable pub bulk_received : Fields → List ℕ → Client Pixmap → Outcome (Client Pixmap)
  unfolding payload read_le32
  bulk_received doc b c =
      let kind = to_int (value doc "operation_type") in
      let symbols = e.read_symbols (payload b) in
      if (kind ==ℤ paste_code) || (kind ==ℤ change_code) || (kind ==ℤ delete_symbol_code)
      then elim (value doc "tot_symbols") [
        | some null ↦ ok c
        | tot ↦
            if ltb_ℤ (to_int tot) (pos 0)
            then undefined
            else if read_le32 b == 0
            then throws "Empty content received."
            else if kind ==ℤ paste_code
            then ok (emit (remote_paste symbols) c)
            else if kind ==ℤ change_code
            then ok (emit (remote_change symbols) c)
            else ok (emit (remote_erase symbols) c)
      ]
      else ok c

  -- Client::on_byteArrayReceived
  unfoldable pub on_byte_array_received : List ℕ → Client Pixmap → Outcome (Client Pixmap)
  unfolding payload after_block read_le32
  on_byte_array_received b c = elim (e.parse (payload b)) [
    | none ↦ throws "Invalid json received."
    | some (obj doc) ↦ with_text doc "type" (ok c) λ type.
        if e.text.same_word type "file_to_open"
        then file_to_open_answer doc (after_block b) c
        else if e.text.same_word type "connection"
        then ok (connection_received doc (after_block b) c)
        else if e.text.same_word type "login"
        then ok (login_answer doc (after_block b) c)
        else if e.text.same_word type "operation"
        then elim (value doc "operation_type") [
          | some null ↦ ok c
          | _ ↦ bulk_received doc (after_block b) c
        ]
        else ok c
    | some _ ↦ ok c
  ]
