-- ===== src/Client/Deleting.antt =====
-- A run of symbols deleted at one editor, by way of both clients and the server, to the document of
-- another.
use scriba.Prelude.{ℕ, suc, ◌+◌, ◌≡◌, refl, sym, subst, List, ◌++◌, none, some, flatten, ok}
use scriba.Qt.{find}
use scriba.Order.Blocks.Offset.{start}
use scriba.Order.Blocks.Cut.{slice}
use scriba.Symbol.{Symbol}
use scriba.Crdt.Search.Place.{IsOrdered}
use scriba.Crdt.State.{Crdt, delete_symbol, many, send}
use scriba.Crdt.Remote.{handle_remote_erase}
use scriba.Crdt.Local.{local_erase_symbols}
use scriba.Crdt.Local.Erase.{Erases, Shortened, local_erase_symbols-converges}
use scriba.Server.{Server, Env, bytes}
use scriba.Server.Dispatch.{byte_array_received}
use scriba.Server.Rooms.{sends}
use scriba.Client.{ClientEnv, Client, remote_erase, emit}
use scriba.Client.Requests.{create_byte_array_file_content}
use scriba.Client.Contents.{on_byte_array_received}
use scriba.Client.Messages.{operation_message}
use scriba.Client.Relay.{Words, InRoom}
use scriba.Client.Bulk.{Carries, apply_bulk}
use scriba.Client.Bulk.Relay.{bulk-arrives}

module _ {Pixmap : Type 0} (e : Env) (words : Words e.text) (ce : ClientEnv Pixmap)
    (same_text : e.text ≡ ce.text) where
  -- Two editors at one file hold the same sequence of symbols, both in order, and in the first one
  -- each line but the last ends with a newline. A run of symbols that stops before the last one of all
  -- is deleted at the first; the message and the symbols are written and read alike on both sides. The
  -- CRDT makes one message of just these symbols; the server, which has the file in memory and the
  -- sender in its room, takes the bytes in, the symbols leave that memory, and every other client of
  -- the room gets the server's bytes; such a client tells its editor to erase just those symbols;
  -- and the CRDT of that editor erases them, after which both documents hold the same sequence, which
  -- has lost the run and nothing else.
  pub local_erase_symbols-arrives :
      (c d : Crdt) (line index n sender : ℕ) (s : Server) (r : Client Pixmap)
      → IsOrdered c.symbols
      → Erases c.symbols line index (suc n)
      → IsOrdered d.symbols
      → flatten d.symbols ≡ flatten c.symbols
      → Carries e ce
          (operation_message e.text (
            many delete_symbol c.site_id none
              (slice (start c.symbols line + index) (suc n) (flatten c.symbols))))
          (slice (start c.symbols line + index) (suc n) (flatten c.symbols))
      → (w : InRoom s sender)
      → (ss : List Symbol) × (c' : Crdt) × (d' : Crdt) × (s' : Server) × (b : List ℕ) × (ss
          ≡ slice (start c.symbols line + index) (suc n) (flatten c.symbols))
        × (local_erase_symbols c line index (suc n)
            ≡ ok (send c' (many delete_symbol c.site_id none ss)))
        × (byte_array_received e sender
              (create_byte_array_file_content ce
                (operation_message e.text (many delete_symbol c.site_id none ss))
                ss)
              s
            ≡ ok s')
        × (find (s.worker sender).filename s'.symbols_list
            ≡ some (apply_bulk e delete_symbol ss w.memory))
        × (s'.outbox ≡ s.outbox ++ sends sender (bytes b) w.room)
        × (on_byte_array_received ce b r ≡ ok (emit (remote_erase ss) r))
        × (handle_remote_erase d ss ≡ ok d')
        × (flatten d'.symbols ≡ flatten c'.symbols)
        × IsOrdered d'.symbols
        × Shortened c (start c.symbols line + index) (suc n) c'
  local_erase_symbols-arrives c d line index n sender s r o erases ordered same carries w =
      let (ss, c', d', cut, run, short, run', flat, ord) =
        local_erase_symbols-converges c d line index n o erases ordered same in
      let (s', b, served, memory, out, told) =
        bulk-arrives e words ce same_text delete_symbol c.site_id none ss sender s r refl
          (subst
            (λ l. Carries e ce (operation_message e.text (many delete_symbol c.site_id none l)) l)
            (sym cut) carries)
          w in
      (ss, c', d', s', b, cut, run, served, memory, out, told, run', flat, ord, short)
