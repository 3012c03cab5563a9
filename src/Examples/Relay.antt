-- ===== src/Examples/Relay.antt =====
-- A character and two symbols on their way from one client to another. A text stands for a character
-- by its length here, and every JSON document is the message at hand.
use Prim.Native.String.{String, ◌∷◌ as ◌∷ₛ◌, [] as empty_text}
use scriba.Prelude.{ℕ, zero, suc, ◌+◌, ◌≡◌, refl, ap, List, [], ◌∷◌, some, flatten, ok, arith, true}
use scriba.Prelude.Int.{pos}
use scriba.Qt.{Text, find, put}
use scriba.Json.{Fields, obj}
use scriba.Order.Blocks.Offset.{start}
use scriba.Symbol.{Symbol}
use scriba.Symbol.Print.{position_string}
use scriba.Crdt.Search.Place.{IsOrdered}
use scriba.Crdt.State.{Crdt, insert_symbol, paste, one, many, send}
use scriba.Crdt.Remote.{handle_remote_insert}
use scriba.Crdt.Local.{local_insert}
use scriba.Crdt.Local.Insert.{InsertedAt}
use scriba.Server.{Server, Env, json, bytes}
use scriba.Server.Rooms.{sends}
use scriba.Server.Dispatch.{json_received, byte_array_received}
use scriba.Client.{ClientEnv, Client, remote_insert, emit}
use scriba.Client.Answers.{on_json_received}
use scriba.Client.Contents.{on_byte_array_received}
use scriba.Client.Requests.{create_byte_array_file_content}
use scriba.Client.Messages.{operation_message}
use scriba.Client.Relay.{Words, InRoom}
use scriba.Client.Typing.{local_insert-arrives}
use scriba.Client.Bulk.{Carries, apply_bulk, signal_of}
use scriba.Client.Bulk.Relay.{bulk-arrives}
use scriba.Examples.Documents.{plain, symbol_at, two_lines, two_lines-IsOrdered}
use scriba.Examples.Edits.{editor, flags, arial, coin, rand, inserts}
use scriba.Examples.Rooms.{env, server, notes, held}

abbrev run_of : ℕ → String
run_of zero = empty_text
run_of (suc n) = "a" ∷ₛ run_of n

abbrev size_of : String → ℕ
size_of empty_text = 0
size_of (c ∷ₛ s) = suc (size_of s)

size_of-run_of : (n : ℕ) → size_of (run_of n) ≡ n
size_of-run_of zero = refl
size_of-run_of (suc n) = ap suc (size_of-run_of n)

abbrev pub counting : Text
counting = record env.text { one_char = run_of; first_unit = λ s. some (size_of s) }

pub counting-Words : Words counting
counting-Words = record { apart = λ a b h k. refl; chars = λ v. ap some (size_of-run_of v) }

abbrev pasted : List Symbol
pasted = symbol_at 97 3 ∷ []

abbrev paste_message : Fields
paste_message = operation_message counting (many paste (pos 2) (some 1) pasted)

abbrev pub host : Env
host = record env { text = counting; parse = λ b. some (obj paste_message) }

abbrev pub guest : ClientEnv ℕ
guest = record {
  text = counting;
  document = λ m. 123 ∷ 125 ∷ [];
  compact = λ m. 123 ∷ 125 ∷ [];
  parse = λ b. some (obj paste_message);
  write_symbols = λ l. 1 ∷ 2 ∷ [];
  read_symbols = λ b. pasted;
  from_data = λ b p. 1;
  png = λ p. [];
  anonymous = 0;
  null_pixmap = 0;
}

abbrev pub reader : Client ℕ
reader = record {
  is_logged_in = true;
  username = "bob";
  nickname = "bob";
  profile = 0;
  files = [];
  openfile = notes;
  shared_link = "";
  progress_counter = 0;
  acts = [];
}

pub in_room : InRoom server 1
in_room = record {
  named = refl;
  room = 1 ∷ 2 ∷ [];
  has_room = refl;
  memory = held;
  has_memory = refl;
}

local_insert-arrives_example :
    (x : Symbol) × (c' : Crdt) × (d' : Crdt) × (s' : Server) × (local_insert coin rand plain flags
        (editor (pos 2))
        (pos 0)
        (pos 1)
        120
        arial
        "#000000"
        1
      ≡ ok (send c' (one insert_symbol (pos 2) x)))
    × (json_received host 1 (operation_message counting (one insert_symbol (pos 2) x)) server
        ≡ ok s')
    × (find notes s'.symbols_list
        ≡ some (put counting.less (position_string counting x) x in_room.memory))
    × (s'.outbox
        ≡ sends 1 (json (operation_message counting (one insert_symbol (pos 2) x))) in_room.room)
    × (on_json_received guest (operation_message counting (one insert_symbol (pos 2) x)) reader
        ≡ ok (emit (remote_insert x) reader))
    × (handle_remote_insert (editor (pos 3)) x ≡ ok d')
    × (flatten d'.symbols ≡ flatten c'.symbols)
    × IsOrdered d'.symbols
    × InsertedAt (editor (pos 2)) (start two_lines 0 + 1) x c'
local_insert-arrives_example =
    local_insert-arrives host counting-Words guest refl coin rand plain flags (editor (pos 2))
      (editor (pos 3)) 0 1 120 arial "#000000" 1 1 server reader inserts (omega arith)
      two_lines-IsOrdered refl in_room

carries : Carries host guest paste_message pasted
carries = record {
  up = refl;
  down = refl;
  up_short = omega arith;
  down_short = omega arith;
  wrote = refl;
  read = refl;
  read_back = refl;
  some_bytes = omega arith;
  short = omega arith;
}

bulk-arrives_example :
    (s' : Server) × (b : List ℕ) × (byte_array_received host 1
        (create_byte_array_file_content guest paste_message pasted)
        server
      ≡ ok s')
    × (find notes s'.symbols_list ≡ some (apply_bulk host paste pasted in_room.memory))
    × (s'.outbox ≡ sends 1 (bytes b) in_room.room)
    × (on_byte_array_received guest b reader ≡ ok (emit (signal_of paste pasted) reader))
bulk-arrives_example =
    bulk-arrives host counting-Words guest refl paste (pos 2) (some 1) pasted 1 server reader refl
      carries in_room
