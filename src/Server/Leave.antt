-- ===== src/Server/Leave.antt =====
-- Leaving a file: Server::udpateSymbolListAndCommunicateDisconnection, userDisconnected and closeFile.
use Prim.Native.String.{String}
use scriba.Prelude.{
  ℕ, Bool, true, false, List, [], ◌∷◌, Option, none, some, if◌then◌else◌, ◌==◌, Outcome, ok, ◌>>=◌,
}
use scriba.Qt.{is_empty, find, put, erase_key}
use scriba.Json.{str, Fields, assign}
use scriba.Server.{Worker, Server, Env, json, update_worker, broadcast, message, refuse}
use scriba.Server.Threads.{leave_thread}
use scriba.Server.Accounts.{Reply, text_of, accept}
use scriba.Server.Files.{save_all, save_files, set_filename}

module _ (e : Env) where
  -- removeOne: `none` where it removes nothing.
  unfoldable pub remove_one : ℕ → List ℕ → Option (List ℕ)
  remove_one w [] = none
  remove_one w (v ∷ vs) =
      let rest = remove_one w vs in
      if v == w then some vs else elim rest [ none ↦ none | some r ↦ some (v ∷ r) ]

  abbrev pub disconnection_message : String → Worker → Fields
  disconnection_message filename w =
      assign "nickname" (str w.nickname) (
        assign "user" (str w.username) (assign "filename" (str filename) (message "disconnection")))

  -- Server::udpateSymbolListAndCommunicateDisconnection
  unfoldable pub communicate_disconnection : String → ℕ → Server → Outcome (Bool × Server)
  unfolding remove_one save_files
  communicate_disconnection filename sender s = elim (find filename s.map_file_workers) [
    | none ↦ ok (false, s)
    | some ws ↦ elim (remove_one sender ws) [
      | none ↦ ok (false, s)
      | some [] ↦
          let s' =
            save_all e (record s { map_file_workers = erase_key filename s.map_file_workers }) in
          ok (
            true,
            record s' {
              symbols_list = erase_key (s'.worker sender).filename s'.symbols_list;
              changed = erase_key (s'.worker sender).filename s'.changed;
            },
          )
      | some (v ∷ vs) ↦
          let s' = record s {
            map_file_workers = put e.text.less filename (v ∷ vs) s.map_file_workers;
          } in
          broadcast (json (disconnection_message filename (s'.worker sender))) sender s' >>= λ s''.
          ok (true, s'')
    ]
  ]

  -- Server::userDisconnected
  unfoldable pub user_disconnected : ℕ → ℕ → Server → Outcome Server
  unfolding communicate_disconnection leave_thread
  user_disconnected sender thread s = leave_thread sender thread s >>= λ s'.
      if is_empty (s'.worker sender).filename
      then ok s'
      else (communicate_disconnection (s'.worker sender).filename sender s' >>= λ (_, s''). ok s'')

  unfoldable pub close_file : ℕ → Fields → Server → Outcome Reply
  unfolding text_of communicate_disconnection update_worker
  close_file sender doc s =
      let m = message "close" in
      let bad : String → Outcome Reply = λ reason. ok (refuse m reason, s) in
      text_of e doc "filename" "Wrong filename format" "Empty old password" bad λ filename.
        text_of e doc "username" "Wrong username format" "Empty username" bad λ username.
          text_of e doc "nickname" "Wrong nickname format" "Empty nickname" bad λ nickname.
            communicate_disconnection filename sender s >>= λ (left, s').
            if left
            then ok (accept m, set_filename e sender "" s')
            else ok (refuse m "File not exist", s')
