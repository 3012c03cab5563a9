-- ===== src/Server/Files.antt =====
-- The handlers of Server/server.cpp for files: the symbols in memory, opening, closing, creating and
-- saving. The calls of the database that stand outside a `try` are taken not to throw.
pub mod Symbols
use Prim.Native.String.{String, ◌++◌ as ◌+++◌}
use scriba.Prelude.{
  ℕ, zero, suc, ◌+◌, Bool, true, false, List, [], ◌∷◌, ◌++◌, Option, none, some, if◌then◌else◌,
  ◌==◌, length, map, Outcome, ok, throws, ◌>>=◌, defined,
}
use scriba.Prelude.Int.{ℤ, pos}
use scriba.Qt.{Text, same, is_empty, find, has, put, erase_key}
use scriba.Json.{Json, str, num, arr, obj, Items, done, item, Fields, end, value, assign}
use scriba.Symbol.{Symbol}
use scriba.Symbol.Print.{position_string}
use scriba.Mongo.{
  Mongo, query_error, connection_error, success, insert_new_file, save_file, retrieve_file,
  retrieve_image,
}
use scriba.Mongo.{already_existing_file}
use scriba.Mongo.Files.{new_file, get_shared_link}
use scriba.Server.{
  Worker, Server, Env, bytes, json, send_packet, update_worker, broadcast, message, refuse,
}
use scriba.Server.Frame.{
  create_byte_array_json_image, create_byte_array_file_content_image, broadcast_bytes,
}
use scriba.Server.Threads.{leave_thread}
use scriba.Server.Accounts.{Reply, text_of, accept, with_db}

module _ (e : Env) where
  -- symbols_list.value(filename)->insert(position, s) and ->remove(position)
  unfoldable pub store_symbol : String → Symbol → Server → Outcome Server
  store_symbol filename x s = defined (find filename s.symbols_list) >>= λ symbols. ok record s {
    symbols_list =
        put e.text.less filename (put e.text.less (position_string e.text x) x symbols)
          s.symbols_list;
  }

  unfoldable pub remove_symbol : String → Symbol → Server → Outcome Server
  remove_symbol filename x s = defined (find filename s.symbols_list) >>= λ symbols. ok record s {
    symbols_list =
        put e.text.less filename (erase_key (position_string e.text x) symbols) s.symbols_list;
  }

  unfoldable pub store_symbols : String → List Symbol → Server → Outcome Server
  unfolding store_symbol
  store_symbols filename [] s = ok s
  store_symbols filename (x ∷ xs) s = store_symbol filename x s >>= store_symbols filename xs

  unfoldable pub remove_symbols : String → List Symbol → Server → Outcome Server
  unfolding remove_symbol
  remove_symbols filename [] s = ok s
  remove_symbols filename (x ∷ xs) s = remove_symbol filename x s >>= remove_symbols filename xs

  abbrev pub mark : String → Bool → Server → Server
  mark filename b s = record s { changed = put e.text.less filename b s.changed }

  -- symbols_list.insert(filename, new QMap) where there is none
  abbrev pub open_memory : String → Server → Server
  open_memory filename s =
      if has filename s.symbols_list
      then s
      else record s { symbols_list = put e.text.less filename [] s.symbols_list }

  unfoldable pub store_symbols_server_memory : String → List Symbol → Server → Outcome Server
  unfolding store_symbols
  store_symbols_server_memory filename array s =
      store_symbols filename array (open_memory filename s) >>= λ s'. ok (mark filename false s')

  -- The body of the loop of saveFile.
  unfoldable pub save_one : String → List (String × Symbol) → Server → Server
  unfolding save_file
  save_one filename symbols s =
      let packed = e.codec.compress (e.codec.write (map (λ p. p.1) symbols)) in
      let unsaved : Bool = elim (find filename s.changed) [ none ↦ false | some b ↦ b ] in
      mark filename false
        (if unsaved then with_db s (save_file e.text filename packed s.db).1 else s)

  -- Server::saveFile: the loop over the keys of symbols_list.
  unfoldable pub save_files : List (String × List (String × Symbol)) → Server → Server
  unfolding save_one
  save_files [] s = s
  save_files ((filename, symbols) ∷ rest) s = save_files rest (save_one filename symbols s)

  abbrev pub save_all : Server → Server
  save_all s = save_files s.symbols_list s

  abbrev pub set_filename : ℕ → String → Server → Server
  set_filename sender filename = update_worker sender (λ w. record w { filename = filename })

  -- What follows the checks of createNewFile.
  unfoldable pub create_checked : ℕ → Fields → String → String → Server → Outcome Reply
  unfolding update_worker
  create_checked sender m username name s =
      let filename = name +++ "," +++ username in
      new_file e.rounds e.driver username name s.db >>= λ ((r, link), db). elim r [
        | connection_error ↦ ok (refuse m "Database error.", with_db s db)
        | query_error ↦ ok (refuse m "Database error.", with_db s db)
        | already_existing_file ↦
            ok (refuse m "This file already exists. Please enter a new filename.", with_db s db)
        | _ ↦
            let (made, db') = insert_new_file e.text filename db in
            if made
            then (let s1 = set_filename sender filename (with_db s db') in
                let s2 = record s1 {
                  map_file_workers = put e.text.less filename (sender ∷ []) s1.map_file_workers;
                } in
                ok (
                  assign "shared_link" (str link) (accept m),
                  (if has filename s2.symbols_list
                      then s2
                      else mark filename true (open_memory filename s2)),
                ))
            else throws "File shouldn't already exist."
      ]

  unfoldable pub create_new_file : ℕ → Fields → Server → Outcome Reply
  unfolding text_of create_checked
  create_new_file sender doc s =
      let m = message "new_file" in
      let bad : String → Outcome Reply = λ reason. ok (refuse m reason, s) in
      text_of e doc "author" "Wrong username format" "Empty username" bad λ username.
        text_of e doc "filename" "Wrong filename format" "Empty old password" bad
          λ name. create_checked sender m username name s

  -- The clients of the file but those with the sender's username, and their images.
  unfoldable pub other_users : String → (ℕ → Worker) → Mongo → List ℕ → Items × List (List ℕ)
  other_users username worker db [] = (done, [])
  other_users username worker db (w ∷ ws) =
      let (users, images) = other_users username worker db ws in
      let image : List ℕ = elim (retrieve_image e.image_key (worker w).username db) [
        | none ↦ []
        | some b ↦ b
      ] in
      if same username (worker w).username then (users, images) else (
        item
            (obj (
              assign "nickname" (str (worker w).nickname)
                (assign "username" (str (worker w).username) end)))
            users,
        image ∷ images,
      )

  -- The symbols sent: those in memory, else those of the database; whether there are any to send,
  -- and whether they are then to be stored in memory.
  unfoldable pub file_symbols : String → Server → Bool × List Symbol × Bool
  file_symbols filename s = elim (find filename s.symbols_list) [
    | some symbols ↦ (true, map (λ p. p.1) symbols, false)
    | none ↦ elim (retrieve_file e.codec filename s.db) [
      | some symbols ↦ (true, symbols, true)
      | none ↦ (false, [], true)
    ]
  ]

  abbrev pub join_room : ℕ → String → Server → Server
  join_room sender filename s = record s {
    map_file_workers =
        put e.text.less filename
          (elim (find filename s.map_file_workers) [
            | none ↦ sender ∷ []
            | some ws ↦ ws ++ sender ∷ []
          ])
          s.map_file_workers;
  }

  abbrev pub connection_message : String → Worker → Fields
  connection_message filename w =
      assign "nickname" (str w.nickname) (
        assign "username" (str w.username)
          (assign "filename" (str filename) (message "connection")))

  -- What follows the checks of sendFile.
  unfoldable pub send_checked : ℕ → Fields → String → Server → Outcome Reply
  unfolding update_worker send_packet other_users file_symbols store_symbols_server_memory
  send_checked sender m filename s =
      let (file, author) = e.text.split_last filename in
      let s1 = join_room sender filename (set_filename sender filename s) in
      defined (find filename s1.map_file_workers) >>= λ ws.
      let me = s1.worker sender in
      let (users, images) = other_users me.username s1.worker s1.db ws in
      let (found, symbols, store) = file_symbols filename s1 in
      let ((_, link), db) = get_shared_link e.driver author file s1.db in
      let reply : Fields =
        if found
        then assign "shared_link" (str link) (
            assign "users" (arr users) (
              assign "tot_symbols" (num (pos (length symbols)))
                (assign "filename" (str filename) (accept m))))
        else refuse m "File content different form json array" in
      let image : List ℕ = elim (retrieve_image e.image_key me.username db) [
        | none ↦ []
        | some b ↦ b
      ] in
      broadcast (bytes (broadcast_bytes e (connection_message filename me) image)) sender (
        send_packet sender (bytes (create_byte_array_file_content_image e reply symbols images))
          (with_db s1 db))
      >>= λ s2. (if store then store_symbols_server_memory filename symbols s2 else ok s2) >>= λ s3.
          ok (reply, s3)

  unfoldable pub send_file : ℕ → Fields → Server → Outcome Reply
  unfolding text_of send_packet send_checked
  send_file sender doc s =
      let m = message "file_to_open" in
      let bad : String → Outcome Reply = λ reason. ok (
        refuse m reason,
        send_packet sender (bytes (create_byte_array_json_image e (refuse m reason) [])) s,
      ) in
      text_of e doc "filename" "Wrong filename format" "Empty filename" bad
        λ filename. send_checked sender m filename s
