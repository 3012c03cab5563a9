-- ===== src/Client/Bulk/Stored.antt =====
-- An operation on several symbols at the server: bulk_operation of Server/server.cpp.
use scriba.Prelude.{
  suc, ℕ, ◌≡◌, refl, ◌∙◌, ap, Bool, true, false, List, ◌++◌, Option, none, some, arith, ok, ◌||◌,
}
use scriba.Prelude.Int.{ℤ, ◌==ℤ◌}
use scriba.Qt.{Text, same, find}
use scriba.Json.{Fields, obj, str, num, value}
use scriba.Symbol.{Symbol}
use scriba.Crdt.State.{OperationType, many}
use scriba.Server.{Packet, Server, Env, bytes, broadcast}
use scriba.Server.Frame.{payload, after_block, read_le32, broadcast_bytes}
use scriba.Server.Files.{mark}
use scriba.Server.Dispatch.{
  paste_code, change_code, delete_symbol_code, byte_array_received, bulk_operation,
}
use scriba.Server.Rooms.{sends, broadcast-outbox}
use scriba.Client.Messages.{code, operation_message}
use scriba.Client.Relay.{Words, InRoom}
use scriba.Client.Bulk.{put_all, erase_all, store_symbols-puts, remove_symbols-erases}

pub message-fields :
    (t : Text) (kind : OperationType) (site : ℤ) (tot : Option ℕ) (ss : List Symbol)
    → (value (operation_message t (many kind site tot ss)) "type" ≡ some (str "operation"))
      × (value (operation_message t (many kind site tot ss)) "operation_type"
          ≡ some (num (code kind)))
unfolding operation_message
message-fields t kind site none ss = (refl, refl)
message-fields t kind site (some n) ss = (refl, refl)

abbrev pub is_bulk_code : ℤ → Bool
is_bulk_code k = (k ==ℤ paste_code) || (k ==ℤ change_code) || (k ==ℤ delete_symbol_code)

module _ (e : Env) (words : Words e.text) where
  broadcast_after :
      (sender : ℕ) (p : Packet) (s s1 : Server) (w : InRoom s sender)
      → s1 ≡ record s { symbols_list = s1.symbols_list }
      → (s' : Server) × (broadcast p sender (mark e (s.worker sender).filename true s1) ≡ ok s')
        × (s'.symbols_list ≡ s1.symbols_list)
        × (s'.outbox ≡ s.outbox ++ sends sender p w.room)
  broadcast_after sender p s s1 w same =
      let s2 = mark e (s.worker sender).filename true s1 in
      let room : find (s1.worker sender).filename s1.map_file_workers ≡ some w.room =
        ap (λ x. find (x.worker sender).filename x.map_file_workers) same ∙ w.has_room in
      (
        record s2 { outbox = s2.outbox ++ sends sender p w.room },
        broadcast-outbox p sender s2 ∙ rw room refl,
        refl,
        ap (λ x. x.outbox ++ sends sender p w.room) same,
      )

  module _ (m : Fields) (k : ℤ) (ss : List Symbol) (type : value m "type" ≡ some (str "operation"))
      (op : value m "operation_type" ≡ some (num k)) where
    -- The server: bytes with such a message before a block of symbols.
    pub server_dispatch :
        (sender : ℕ) (b : List ℕ) (s : Server)
        → e.parse (payload b) ≡ some (obj m)
        → byte_array_received e sender b s ≡ bulk_operation e sender m b s
    unfolding byte_array_received
    server_dispatch sender b s h = ground (
      arith,
      h,
      type,
      words.apart "operation" "signup" refl refl,
      words.apart "operation" "update_image" refl refl,
      words.apart "operation" "operation" refl refl,
      op,
    )

    -- Symbols that are put in, and symbols that are taken out.
    pub server_puts :
        (sender : ℕ) (b : List ℕ) (s : Server) (n : ℕ) (w : InRoom s sender)
        → is_bulk_code k ≡ true
        → (k ==ℤ delete_symbol_code) ≡ false
        → read_le32 (after_block b) ≡ suc n
        → payload (after_block b) ≡ e.codec.write ss
        → e.codec.read (e.codec.write ss) ≡ ss
        → (s' : Server) × (bulk_operation e sender m b s ≡ ok s')
          × (find (s.worker sender).filename s'.symbols_list ≡ some (put_all e ss w.memory))
          × (s'.outbox
              ≡ s.outbox ++ sends sender (bytes (broadcast_bytes e m (e.codec.write ss))) w.room)
    unfolding bulk_operation
    server_puts sender b s n w bulk keep size content read =
        let f = (s.worker sender).filename in
        let (s1, run, (kept, same)) = store_symbols-puts e f ss w.memory s w.has_memory in
        let (s', sent, list, out) =
          broadcast_after sender (bytes (broadcast_bytes e m (e.codec.write ss))) s s1 w same in
        (
          s',
          ground (arith, op, bulk, keep, size, content, read, run, sent),
          ap (find f) list ∙ kept,
          out,
        )

    pub server_erases :
        (sender : ℕ) (b : List ℕ) (s : Server) (n : ℕ) (w : InRoom s sender)
        → is_bulk_code k ≡ true
        → (k ==ℤ delete_symbol_code) ≡ true
        → read_le32 (after_block b) ≡ suc n
        → payload (after_block b) ≡ e.codec.write ss
        → e.codec.read (e.codec.write ss) ≡ ss
        → (s' : Server) × (bulk_operation e sender m b s ≡ ok s')
          × (find (s.worker sender).filename s'.symbols_list ≡ some (erase_all e ss w.memory))
          × (s'.outbox
              ≡ s.outbox ++ sends sender (bytes (broadcast_bytes e m (e.codec.write ss))) w.room)
    unfolding bulk_operation
    server_erases sender b s n w bulk gone size content read =
        let f = (s.worker sender).filename in
        let (s1, run, (kept, same)) = remove_symbols-erases e f ss w.memory s w.has_memory in
        let (s', sent, list, out) =
          broadcast_after sender (bytes (broadcast_bytes e m (e.codec.write ss))) s s1 w same in
        (
          s',
          ground (arith, op, bulk, gone, size, content, read, run, sent),
          ap (find f) list ∙ kept,
          out,
        )
