-- ===== src/Examples/Deletions.antt =====
-- Deletions and typing in the document "ab\nc".
use scriba.Prelude.{
  ℕ, zero, suc, ◌+◌, ◌≡◌, refl, List, [], ◌∷◌, true, false, none, some, arith, flatten, ok,
  insert_at,
}
use scriba.Prelude.Int.{pos}
use scriba.Order.Blocks.Offset.{start}
use scriba.Order.Blocks.Cut.{slice}
use scriba.Symbol.{Symbol}
use scriba.Crdt.Search.Place.{IsOrdered}
use scriba.Crdt.State.{Crdt, delete_symbol, insert_symbol, many, one, send}
use scriba.Crdt.Local.{local_erase_symbols}
use scriba.Crdt.Local.Erase.{Erases, Shortened, local_erase_symbols-converges}
use scriba.Crdt.Remote.{handle_remote_erase}
use scriba.Editor.{Glyph}
use scriba.Editor.Formats.{Document}
use scriba.Editor.Changes.{Editor, on_contents_change, reset}
use scriba.Editor.Changes.Sync.{InSync}
use scriba.Editor.Changes.Local.{on_contents_change-deletes, on_contents_change-types}
use scriba.Examples.Documents.{plain, first_line, two_lines, two_lines-IsOrdered}
use scriba.Examples.Edits.{editor, flags, arial, coin, rand, inserts}
use scriba.Examples.Texts.{glyph, widget}
use scriba.Examples.Rooms.{server, notes}
use scriba.Examples.Relay.{counting, counting-Words, host, guest, reader, in_room}
use scriba.Qt.{find}
use scriba.Json.{Fields, obj}
use scriba.Server.{Server, Env, bytes}
use scriba.Server.Rooms.{sends}
use scriba.Server.Dispatch.{byte_array_received}
use scriba.Client.{ClientEnv, remote_erase, emit}
use scriba.Client.Requests.{create_byte_array_file_content}
use scriba.Client.Contents.{on_byte_array_received}
use scriba.Client.Messages.{operation_message}
use scriba.Client.Bulk.{Carries, apply_bulk}
use scriba.Client.Deleting.{local_erase_symbols-arrives}

-- The "b" and the newline after it.
b_and_newline : Erases two_lines 0 1 2
b_and_newline = record {
  full = tt;
  closed = (refl, tt);
  row = first_line;
  at_row = refl;
  within = omega arith;
  more = omega arith;
}

local_erase_symbols-converges_example :
    (ss : List Symbol) × (c' : Crdt) × (d' : Crdt) × (ss
      ≡ slice (start two_lines 0 + 1) 2 (flatten two_lines))
    × (local_erase_symbols (editor (pos 2)) 0 1 2
        ≡ ok (send c' (many delete_symbol (pos 2) none ss)))
    × Shortened (editor (pos 2)) (start two_lines 0 + 1) 2 c'
    × (handle_remote_erase (editor (pos 3)) ss ≡ ok d')
    × (flatten d'.symbols ≡ flatten c'.symbols)
    × IsOrdered d'.symbols
local_erase_symbols-converges_example =
    local_erase_symbols-converges (editor (pos 2)) (editor (pos 3)) 0 1 1 two_lines-IsOrdered
      b_and_newline two_lines-IsOrdered refl

abbrev gone : List Symbol
gone = slice 1 2 (flatten two_lines)

abbrev deletion : Fields
deletion = operation_message counting (many delete_symbol (pos 2) none gone)

abbrev deleting_host : Env
deleting_host = record host {
  parse = λ b. some (obj deletion);
  codec = record host.codec { read = λ b. gone };
}

abbrev deleting_guest : ClientEnv ℕ
deleting_guest = record guest { parse = λ b. some (obj deletion); read_symbols = λ b. gone }

deletion_carried : Carries deleting_host deleting_guest deletion gone
deletion_carried = record {
  up = refl;
  down = refl;
  up_short = omega arith;
  down_short = omega arith;
  wrote = refl;
  read = refl;
  read_back = refl;
  some_bytes = omega arith;
  short = omega arith;
}

local_erase_symbols-arrives_example :
    (ss : List Symbol) × (c' : Crdt) × (d' : Crdt) × (s' : Server) × (b : List ℕ) × (ss
      ≡ slice (start two_lines 0 + 1) 2 (flatten two_lines))
    × (local_erase_symbols (editor (pos 2)) 0 1 2
        ≡ ok (send c' (many delete_symbol (pos 2) none ss)))
    × (byte_array_received deleting_host 1
          (create_byte_array_file_content deleting_guest
            (operation_message counting (many delete_symbol (pos 2) none ss))
            ss)
          server
        ≡ ok s')
    × (find notes s'.symbols_list ≡ some (apply_bulk deleting_host delete_symbol ss in_room.memory))
    × (s'.outbox ≡ sends 1 (bytes b) in_room.room)
    × (on_byte_array_received deleting_guest b reader ≡ ok (emit (remote_erase ss) reader))
    × (handle_remote_erase (editor (pos 3)) ss ≡ ok d')
    × (flatten d'.symbols ≡ flatten c'.symbols)
    × IsOrdered d'.symbols
    × Shortened (editor (pos 2)) (start two_lines 0 + 1) 2 c'
local_erase_symbols-arrives_example =
    local_erase_symbols-arrives deleting_host counting-Words deleting_guest refl (editor (pos 2))
      (editor (pos 3)) 0 1 1 1 server reader two_lines-IsOrdered b_and_newline two_lines-IsOrdered
      refl deletion_carried in_room

abbrev before : List Glyph
before = glyph 97 "#000000" ∷ glyph 98 "#000000" ∷ glyph 10 "#000000" ∷ glyph 99 "#000000" ∷ []

abbrev place : ℕ → ℕ × ℕ
place zero = (0, 0)
place (suc zero) = (0, 1)
place (suc (suc n)) = (1, n)

abbrev shorter : Document
shorter = record {
  glyphs = glyph 97 "#000000" ∷ glyph 99 "#000000" ∷ [];
  place = place;
  blocks = 1;
  current_align = 1;
}

abbrev longer : Document
longer = record {
  glyphs = insert_at 1 (glyph 120 "#000000") before;
  place = place;
  blocks = 2;
  current_align = 1;
}

abbrev idle : Editor
idle = record {
  crdt = editor (pos 2);
  undo_flag = false;
  redo_flag = false;
  alignment = false;
  inserted = true;
  pasted = pos 0;
  selected = false;
  deleted = false;
}

in_sync : InSync before (editor (pos 2))
in_sync = record { same_text = refl; same_size = refl }

on_contents_change-deletes_example :
    (ss : List Symbol) × (c' : Crdt) × (on_contents_change widget flags coin rand plain arial ""
        shorter 1 2 0 idle
      ≡ ok (
          reset widget flags coin rand plain
            (record idle { crdt = send c' (many delete_symbol (pos 2) none ss) })))
    × InSync shorter.glyphs c'
on_contents_change-deletes_example =
    on_contents_change-deletes widget flags coin rand plain arial "" before shorter 1 1 0 1 idle
      in_sync refl (omega arith) refl refl b_and_newline (λ e. cc e)

on_contents_change-types_example :
    (s : Symbol) × (c' : Crdt) × (on_contents_change widget flags coin rand plain arial "" longer 1
        0 1 idle
      ≡ ok (
          reset widget flags coin rand plain
            (record idle { crdt = send c' (one insert_symbol (pos 2) s) })))
    × InSync longer.glyphs c'
on_contents_change-types_example =
    on_contents_change-types widget flags coin rand plain arial "" before longer
      (glyph 120 "#000000") 1 0 1 idle in_sync refl (omega arith) refl refl refl inserts (λ e. cc e)
