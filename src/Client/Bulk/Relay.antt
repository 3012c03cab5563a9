-- ===== src/Client/Bulk/Relay.antt =====
-- An operation on several symbols, as bytes from one client through the server to the others.
use scriba.Prelude.{
  ◌-◌, suc, ℕ, ◌≡◌, refl, ◌∙◌, ◌⊎◌, inl, inr, ap, subst, true, List, ◌++◌, Option, none, some,
  arith, ok, length,
}
use scriba.Prelude.Int.{ℤ, pos}
use scriba.Qt.{Text, find}
use scriba.Json.{Fields, obj, str, num, value}
use scriba.Symbol.{Symbol}
use scriba.Crdt.State.{
  OperationType, insert_symbol, align, cursor, delete_symbol, change, paste, many,
}
use scriba.Server.{Server, Env, bytes}
use scriba.Server.Frame.{block, payload, after_block, read_le32, broadcast_bytes}
use scriba.Server.Dispatch.{byte_array_received, bulk_operation}
use scriba.Server.Rooms.{sends}
use scriba.Client.{ClientEnv, Client, emit}
use scriba.Client.Requests.{create_byte_array_file_content}
use scriba.Client.Contents.{on_byte_array_received, bulk_received}
use scriba.Client.Messages.{code, operation_message}
use scriba.Client.Relay.{Words, InRoom}
use scriba.Client.Bulk.{Carries, two_blocks, is_bulk, apply_bulk, signal_of}
use scriba.Client.Bulk.Stored.{message-fields, server_dispatch, server_puts, server_erases}

message_total :
    (t : Text) (kind : OperationType) (site : ℤ) (tot : Option ℕ) (ss : List Symbol)
    → (value (operation_message t (many kind site tot ss)) "tot_symbols" ≡ none)
      ⊎ ((n : ℕ) × (value (operation_message t (many kind site tot ss)) "tot_symbols"
            ≡ some (num (pos n))))
unfolding operation_message
message_total t kind site none ss = inl refl
message_total t kind site (some n) ss = inr (n, refl)

module _ {Pixmap : Type 0} (ce : ClientEnv Pixmap) (words : Words ce.text) where
  client_dispatch :
      (m : Fields) (k : ℤ) (b : List ℕ) (c : Client Pixmap)
      → value m "type" ≡ some (str "operation")
      → value m "operation_type" ≡ some (num k)
      → ce.parse (payload b) ≡ some (obj m)
      → on_byte_array_received ce b c ≡ bulk_received ce m (after_block b) c
  unfolding on_byte_array_received
  client_dispatch m k b c type op h = ground (
    arith,
    h,
    type,
    op,
    words.apart "operation" "file_to_open" refl refl,
    words.apart "operation" "connection" refl refl,
    words.apart "operation" "login" refl refl,
    words.apart "operation" "operation" refl refl,
  )

  client_bulk :
      (m : Fields) (kind : OperationType) (b : List ℕ) (c : Client Pixmap) (n : ℕ)
      → is_bulk kind ≡ true
      → value m "operation_type" ≡ some (num (code kind))
      → (value m "tot_symbols" ≡ none) ⊎ ((n : ℕ) × (value m "tot_symbols" ≡ some (num (pos n))))
      → read_le32 b ≡ suc n
      → bulk_received ce m b c ≡ ok (emit (signal_of kind (ce.read_symbols (payload b))) c)
  unfolding bulk_received
  client_bulk m paste b c n bulk op tot size = ground (arith, op, tot, size)
  client_bulk m change b c n bulk op tot size = ground (arith, op, tot, size)
  client_bulk m delete_symbol b c n bulk op tot size = ground (arith, op, tot, size)
  client_bulk m insert_symbol b c n bulk op tot size = ground (arith, bulk)
  client_bulk m align b c n bulk op tot size = ground (arith, bulk)
  client_bulk m cursor b c n bulk op tot size = ground (arith, bulk)

module _ {Pixmap : Type 0} (e : Env) (words : Words e.text) (ce : ClientEnv Pixmap)
    (same_text : e.text ≡ ce.text) where
  server_bulk :
      (m : Fields) (kind : OperationType) (ss : List Symbol) (sender : ℕ) (b : List ℕ) (s : Server)
      (n : ℕ) (w : InRoom s sender)
      → is_bulk kind ≡ true
      → value m "type" ≡ some (str "operation")
      → value m "operation_type" ≡ some (num (code kind))
      → read_le32 (after_block b) ≡ suc n
      → payload (after_block b) ≡ e.codec.write ss
      → e.codec.read (e.codec.write ss) ≡ ss
      → (s' : Server) × (bulk_operation e sender m b s ≡ ok s')
        × (find (s.worker sender).filename s'.symbols_list ≡ some (apply_bulk e kind ss w.memory))
        × (s'.outbox
            ≡ s.outbox ++ sends sender (bytes (broadcast_bytes e m (e.codec.write ss))) w.room)
  server_bulk m paste ss sender b s n w bulk type op =
      server_puts e words m _ ss type op sender b s n w refl refl
  server_bulk m change ss sender b s n w bulk type op =
      server_puts e words m _ ss type op sender b s n w refl refl
  server_bulk m delete_symbol ss sender b s n w bulk type op =
      server_erases e words m _ ss type op sender b s n w refl refl
  server_bulk m insert_symbol ss sender b s n w bulk type op = ground (arith, bulk)
  server_bulk m align ss sender b s n w bulk type op = ground (arith, bulk)
  server_bulk m cursor ss sender b s n w bulk type op = ground (arith, bulk)

  sent_blocks :
      (m : Fields) (ss : List Symbol)
      → create_byte_array_file_content ce m ss
        ≡ block (ce.document m) ++ block (ce.write_symbols ss)
  unfolding create_byte_array_file_content
  sent_blocks m ss = refl

  relayed_blocks :
      (m : Fields) (b : List ℕ) → broadcast_bytes e m b ≡ block (e.document m) ++ block b
  unfolding broadcast_bytes
  relayed_blocks m b = refl

  -- Several symbols pasted, changed or deleted at one client, whose message and symbols are written
  -- and read alike on both sides. The bytes that the client sends are taken in by the server, which
  -- has the file in memory and the sender in its room: the symbols are put into that memory, or
  -- leave it, and every other client of the room gets the server's bytes; such a client tells its
  -- editor to paste, change or delete just those symbols.
  pub bulk-arrives :
      (kind : OperationType) (site : ℤ) (tot : Option ℕ) (ss : List Symbol) (sender : ℕ)
      (s : Server) (c : Client Pixmap)
      → is_bulk kind ≡ true
      → Carries e ce (operation_message e.text (many kind site tot ss)) ss
      → (w : InRoom s sender)
      → (s' : Server) × (b : List ℕ) × (byte_array_received e sender
            (create_byte_array_file_content ce
              (operation_message e.text (many kind site tot ss))
              ss)
            s
          ≡ ok s')
        × (find (s.worker sender).filename s'.symbols_list ≡ some (apply_bulk e kind ss w.memory))
        × (s'.outbox ≡ s.outbox ++ sends sender (bytes b) w.room)
        × (on_byte_array_received ce b c ≡ ok (emit (signal_of kind ss) c))
  bulk-arrives kind site tot ss sender s c bulk v w =
      let m = operation_message e.text (many kind site tot ss) in
      let content = e.codec.write ss in
      let (type, op) = message-fields e.text kind site tot ss in
      let up = sent_blocks m ss ∙ ap (λ x. block (ce.document m) ++ block x) v.wrote in
      let (head, size, tail) = two_blocks (ce.document m) content v.up_short v.short in
      let down = relayed_blocks m content in
      let (head', size', tail') = two_blocks (e.document m) content v.down_short v.short in
      let count : length content ≡ suc (length content - 1) = omega (arith, v.some_bytes) in
      let b = create_byte_array_file_content ce m ss in
      let (s', run, memory, out) =
        server_bulk m kind ss sender b s (length content - 1) w bulk type op
          (ap (λ x. read_le32 (after_block x)) up ∙ size ∙ count)
          (ap (λ x. payload (after_block x)) up ∙ tail) v.read in
      let words' = subst Words same_text words in
      (
        s',
        broadcast_bytes e m content,
        server_dispatch e words m _ ss type op sender b s
              (ap (λ x. e.parse (payload x)) up ∙ ap e.parse head ∙ v.up)
            ∙ run,
        memory,
        out,
        client_dispatch ce words' m _ (broadcast_bytes e m content) c type op
              (ap (λ x. ce.parse (payload x)) down ∙ ap ce.parse head' ∙ v.down)
            ∙ client_bulk ce words' m kind (after_block (broadcast_bytes e m content)) c
                (length content - 1) bulk op (message_total e.text kind site tot ss)
                (ap (λ x. read_le32 (after_block x)) down ∙ size' ∙ count)
            ∙ ap (λ l. ok (emit (signal_of kind l) c))
                (ap (λ x. ce.read_symbols (payload (after_block x))) down
                  ∙ ap ce.read_symbols tail'
                  ∙ v.read_back),
      )
