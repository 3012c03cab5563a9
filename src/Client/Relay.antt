-- ===== src/Client/Relay.antt =====
-- An operation from one client through the server to the others.
use Prim.Native.String.{String}
use text.Mathlib.TextEquality.{eq_iff}
use scriba.Prelude.{ℕ, ◌≡◌, refl, ◌∙◌, Bool, true, false, List, ◌++◌, some, arith, ok, ◌||◌}
use scriba.Prelude.Int.{ℤ}
use scriba.Qt.{Text, same, is_empty, find, put, find-put}
use scriba.Json.{Fields, str, value}
use scriba.Symbol.{Symbol}
use scriba.Symbol.Json.{from_json-to_json}
use scriba.Symbol.Print.{position_string}
use scriba.Crdt.State.{insert_symbol, one}
use scriba.Server.{Server, Env, json}
use scriba.Server.Files.{store_symbol, mark}
use scriba.Server.Dispatch.{json_received, json_from_logged_in, operation}
use scriba.Server.Rooms.{sends, broadcast-outbox}
use scriba.Client.{ClientEnv, Client, remote_insert, emit}
use scriba.Client.Answers.{on_json_received, operation_received}
use scriba.Client.Messages.{operation_message}

-- The words that a message can have as its type.
abbrev pub is_type : String → Bool
is_type w =
    same w "operation"
    || same w "signup"
    || same w "login"
    || same w "nickname"
    || same w "password"
    || same w "check_old_password"
    || same w "old_password_checked"
    || same w "check_username"
    || same w "list_files"
    || same w "list_shared_files"
    || same w "new_file"
    || same w "file_to_open"
    || same w "close"
    || same w "connection"
    || same w "disconnection"
    || same w "filename_from_sharedLink"
    || same w "update_image"

-- What is relied on of Qt's texts: a comparison without regard to case tells these words apart,
-- and the text made of a character is read back as that character.
pub record Words (t : Text) : Type 0 where
  pub apart : (a b : String) → is_type a ≡ true → is_type b ≡ true → t.same_word a b ≡ same a b
  pub chars : (v : ℕ) → t.first_unit (t.one_char v) ≡ some v

-- The sender is logged in, and has a file open that the server holds in memory.
pub record InRoom (s : Server) (sender : ℕ) : Type 0 where
  pub named : is_empty (s.worker sender).nickname ≡ false
  pub room : List ℕ
  pub has_room : find (s.worker sender).filename s.map_file_workers ≡ some room
  pub memory : List (String × Symbol)
  pub has_memory : find (s.worker sender).filename s.symbols_list ≡ some memory

-- A message of type "operation" from a client that is logged in reaches the operations.
pub json_received-operation :
    (e : Env)
    → Words e.text
    → (sender : ℕ) (doc : Fields) (s : Server) → is_empty (s.worker sender).nickname ≡ false
    → value doc "type" ≡ some (str "operation")
    → json_received e sender doc s ≡ operation e sender doc s
unfolding json_received json_from_logged_in
json_received-operation e words sender doc s named type =
    rw
      (
        named,
        json_from_logged_in,
        type,
        words.apart "operation" "nickname" refl refl,
        words.apart "operation" "password" refl refl,
        words.apart "operation" "check_old_password" refl refl,
        words.apart "operation" "list_files" refl refl,
        words.apart "operation" "list_shared_files" refl refl,
        words.apart "operation" "operation" refl refl,
      )
      refl

module _ (e : Env) (words : Words e.text) where
  -- The message of an insertion, at the server: its symbol is put in the memory of the sender's file,
  -- and every other client of the file gets the message.
  pub insert-stored :
      (sender : ℕ) (site : ℤ) (x : Symbol) (s : Server) (w : InRoom s sender)
      → (s' : Server) × (json_received e sender
            (operation_message e.text (one insert_symbol site x))
            s
          ≡ ok s')
        × (s'.outbox
            ≡ s.outbox
              ++ sends sender (json (operation_message e.text (one insert_symbol site x))) w.room)
        × (find (s.worker sender).filename s'.symbols_list
            ≡ some (put e.text.less (position_string e.text x) x w.memory))
  unfolding operation store_symbol operation_message
  insert-stored sender site x s w =
      let f = (s.worker sender).filename in
      let doc = operation_message e.text (one insert_symbol site x) in
      let stored = put e.text.less (position_string e.text x) x w.memory in
      let s1 : Server =
        mark e f true (record s { symbols_list = put e.text.less f stored s.symbols_list }) in
      (
        record s1 { outbox = s1.outbox ++ sends sender (json doc) w.room },
        json_received-operation e words sender doc s w.named refl
            ∙ rw
                (
                  from_json-to_json e.text x (words.chars x.value),
                  w.has_memory,
                  broadcast-outbox (json doc) sender s1,
                  w.has_room,
                )
                refl,
        refl,
        ground (arith, find-put e.text.less f f stored s.symbols_list, eq_iff f f),
      )

-- The same message, at another client: it tells its editor to insert that symbol.
pub insert-signalled :
    {Pixmap : Type 0} (ce : ClientEnv Pixmap)
    → Words ce.text
    → (site : ℤ) (x : Symbol) (r : Client Pixmap)
    → on_json_received ce (operation_message ce.text (one insert_symbol site x)) r
      ≡ ok (emit (remote_insert x) r)
unfolding on_json_received operation_received operation_message
insert-signalled ce words site x r =
    rw
      (
        words.apart "operation" "signup" refl refl,
        words.apart "operation" "old_password_checked" refl refl,
        words.apart "operation" "check_username" refl refl,
        words.apart "operation" "operation" refl refl,
        from_json-to_json ce.text x (words.chars x.value),
      )
      refl
