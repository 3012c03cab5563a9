-- ===== src/Client/Typing.antt =====
-- A character from the keyboard of one editor to the document of another, by way of both clients and
-- the server.
use Prim.Native.String.{String}
use scriba.Prelude.{ℕ, ◌+◌, ◌<◌, ◌≡◌, sym, subst, Bool, ◌++◌, some, length, flatten, ok}
use scriba.Prelude.Int.{pos}
use scriba.Qt.{find, put}
use scriba.Order.Blocks.Offset.{start}
use scriba.Symbol.{Symbol, SymbolFormat, Font}
use scriba.Symbol.Print.{position_string}
use scriba.Crdt.Search.Place.{IsOrdered}
use scriba.Crdt.State.{Crdt, insert_symbol, one, send}
use scriba.Crdt.Remote.{handle_remote_insert}
use scriba.Crdt.Local.{AlignFlags, local_insert}
use scriba.Crdt.Local.Insert.{Inserts, InsertedAt}
use scriba.Crdt.Converge.{local_insert-converges}
use scriba.Server.{Server, Env, json}
use scriba.Server.Dispatch.{json_received}
use scriba.Server.Rooms.{sends}
use scriba.Client.{ClientEnv, Client, remote_insert, emit}
use scriba.Client.Answers.{on_json_received}
use scriba.Client.Messages.{operation_message}
use scriba.Client.Relay.{Words, InRoom, insert-stored, insert-signalled}

module _ {Pixmap : Type 0} (e : Env) (words : Words e.text) (ce : ClientEnv Pixmap)
    (same_text : e.text ≡ ce.text) where
  -- Two editors at one file hold the same sequence of symbols, and a character is typed at the first,
  -- in a state as `Inserts` describes and not past the last symbol. The CRDT makes one message of it;
  -- the server, which has the file in memory and the sender in its room, puts the symbol into that
  -- memory and hands the message to every other client of the room; such a client tells its editor
  -- to insert the symbol; and the CRDT of that editor takes it in, after which both documents hold
  -- the same sequence, with the symbol where it was typed.
  pub local_insert-arrives :
      (coin : ℕ → Bool) (rand : ℕ → ℕ) (raw : SymbolFormat) (q : AlignFlags) (c d : Crdt)
      (line index value : ℕ) (font : Font) (color : String) (flags : ℕ) (sender : ℕ) (s : Server)
      (r : Client Pixmap)
      → Inserts c line index
      → start c.symbols line + index < length (flatten c.symbols)
      → IsOrdered d.symbols
      → flatten d.symbols ≡ flatten c.symbols
      → (w : InRoom s sender)
      → (x : Symbol) × (c' : Crdt) × (d' : Crdt) × (s' : Server) × (local_insert coin rand raw q c
            (pos line)
            (pos index)
            value
            font
            color
            flags
          ≡ ok (send c' (one insert_symbol c.site_id x)))
        × (json_received e sender (operation_message e.text (one insert_symbol c.site_id x)) s
            ≡ ok s')
        × (find (s.worker sender).filename s'.symbols_list
            ≡ some (put e.text.less (position_string e.text x) x w.memory))
        × (s'.outbox
            ≡ s.outbox
              ++ sends sender
                  (json (operation_message e.text (one insert_symbol c.site_id x)))
                  w.room)
        × (on_json_received ce (operation_message e.text (one insert_symbol c.site_id x)) r
            ≡ ok (emit (remote_insert x) r))
        × (handle_remote_insert d x ≡ ok d')
        × (flatten d'.symbols ≡ flatten c'.symbols)
        × IsOrdered d'.symbols
        × InsertedAt c (start c.symbols line + index) x c'
  local_insert-arrives coin rand raw q c d line index value font color flags sender s r v room
        ordered same w =
      let (x, c', d', run, run', flat, ord, at) =
        local_insert-converges coin rand raw q c d line index value font color flags v room ordered
          same in
      let (s', served, sent, kept) = insert-stored e words sender c.site_id x s w in
      (
        x,
        c',
        d',
        s',
        run,
        served,
        kept,
        sent,
        subst
            (λ t.
              on_json_received ce (operation_message t (one insert_symbol c.site_id x)) r
              ≡ ok (emit (remote_insert x) r))
            (sym same_text) (insert-signalled ce (subst Words same_text words) c.site_id x r),
        run',
        flat,
        ord,
        at,
      )
