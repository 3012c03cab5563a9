-- ===== src/Client/Bulk.antt =====
-- An operation on several symbols, as bytes from one client through the server to the others.
pub mod Stored
pub mod Relay
use Prim.Native.String.{String}
use mathlib.Core.List.{append-nil}
use text.Mathlib.TextEquality.{eq_iff}
use scriba.Prelude.{
  suc, ℕ, ◌+◌, ◌<◌, ◌≡◌, refl, sym, ◌∙◌, ap, subst, Bool, true, false, List, [], ◌∷◌, ◌++◌, Option,
  none, some, arith, Outcome, ok, ◌>>=◌, ◌||◌, ◌==◌, length,
}
use scriba.Prelude.Int.{ℤ, pos, ◌==ℤ◌}
use scriba.Qt.{Text, same, is_empty, find, put, erase_key, find-put}
use scriba.Json.{Json, Fields, obj, str, num, value, to_int, to_object}
use scriba.Symbol.{Symbol}
use scriba.Symbol.Print.{position_string}
use scriba.Crdt.State.{
  OperationType, insert_symbol, align, cursor, delete_symbol, change, paste, many, Broadcast,
}
use scriba.Server.{Packet, Server, Env, json, bytes, broadcast}
use scriba.Server.Frame.{block, payload, after_block, read_le32, broadcast_bytes}
use scriba.Server.Frame.Blocks.{block-read, read_le32-block}
use scriba.Server.Files.{store_symbol, store_symbols, remove_symbol, remove_symbols, mark}
use scriba.Server.Dispatch.{
  paste_code, change_code, delete_symbol_code, byte_array_received, bulk_operation,
}
use scriba.Server.Rooms.{sends, broadcast-outbox}
use scriba.Client.{ClientEnv, Client, ClientSignal, remote_paste, remote_erase, remote_change, emit}
use scriba.Client.Requests.{create_byte_array_file_content}
use scriba.Client.Contents.{on_byte_array_received, bulk_received}
use scriba.Client.Messages.{code, operation_message}
use scriba.Client.Relay.{Words, InRoom}

module _ (e : Env) where
  -- The memory of a file with symbols put in, or taken out, one after another.
  abbrev pub put_all : List Symbol → List (String × Symbol) → List (String × Symbol)
  put_all [] m = m
  put_all (x ∷ xs) m = put_all xs (put e.text.less (position_string e.text x) x m)

  abbrev pub erase_all : List Symbol → List (String × Symbol) → List (String × Symbol)
  erase_all [] m = m
  erase_all (x ∷ xs) m = erase_all xs (erase_key (position_string e.text x) m)

  -- A server in which the memory of one file has changed, and nothing else.
  abbrev pub WithMemory : String → List (String × Symbol) → Server → Server → Type 0
  WithMemory f m s s' =
      (find f s'.symbols_list ≡ some m) × (s' ≡ record s { symbols_list = s'.symbols_list })

  find-put_self :
      (f : String) (v : List (String × Symbol)) (m : List (String × List (String × Symbol)))
      → find f (put e.text.less f v m) ≡ some v
  find-put_self f v m = ground (arith, find-put e.text.less f f v m, eq_iff f f)

  pub store_symbols-puts :
      (f : String) (xs : List Symbol) (m : List (String × Symbol)) (s : Server)
      → find f s.symbols_list ≡ some m
      → (s' : Server) × (store_symbols e f xs s ≡ ok s') × WithMemory f (put_all xs m) s s'
  unfolding store_symbols store_symbol
  store_symbols-puts f [] m s h = (s, refl, (h, refl))
  store_symbols-puts f (x ∷ xs) m s h =
      let m1 = put e.text.less (position_string e.text x) x m in
      let s1 : Server = record s { symbols_list = put e.text.less f m1 s.symbols_list } in
      let (s', run, (kept, rest)) =
        store_symbols-puts f xs m1 s1 (find-put_self f m1 s.symbols_list) in
      (s', rw h run, (kept, rest))

  pub remove_symbols-erases :
      (f : String) (xs : List Symbol) (m : List (String × Symbol)) (s : Server)
      → find f s.symbols_list ≡ some m
      → (s' : Server) × (remove_symbols e f xs s ≡ ok s') × WithMemory f (erase_all xs m) s s'
  unfolding remove_symbols remove_symbol
  remove_symbols-erases f [] m s h = (s, refl, (h, refl))
  remove_symbols-erases f (x ∷ xs) m s h =
      let m1 = erase_key (position_string e.text x) m in
      let s1 : Server = record s { symbols_list = put e.text.less f m1 s.symbols_list } in
      let (s', run, (kept, rest)) =
        remove_symbols-erases f xs m1 s1 (find-put_self f m1 s.symbols_list) in
      (s', rw h run, (kept, rest))

-- Two blocks, the second of them not empty, taken apart again.
pub two_blocks :
    (a b : List ℕ)
    → length a < 4294967296
    → length b < 4294967296
    → (payload (block a ++ block b) ≡ a)
      × (read_le32 (after_block (block a ++ block b)) ≡ length b)
      × (payload (after_block (block a ++ block b)) ≡ b)
two_blocks a b ha hb =
    let (x, y) = block-read a (block b) ha in
    let whole : after_block (block a ++ block b) ≡ block b ++ [] = y ∙ sym (append-nil (block b)) in
    (x, ap read_le32 whole ∙ read_le32-block b [] hb, ap payload whole ∙ (block-read b [] hb).0)

-- One message and its symbols are written and read alike on both sides, as JSON and as bytes that
-- are not empty and are shorter than 2 ^ 32.
pub record Carries {Pixmap : Type 0} (e : Env) (ce : ClientEnv Pixmap) (m : Fields)
    (ss : List Symbol) : Type 0 where
  pub up : e.parse (ce.document m) ≡ some (obj m)
  pub down : ce.parse (e.document m) ≡ some (obj m)
  pub up_short : length (ce.document m) < 4294967296
  pub down_short : length (e.document m) < 4294967296
  pub wrote : ce.write_symbols ss ≡ e.codec.write ss
  pub read : e.codec.read (e.codec.write ss) ≡ ss
  pub read_back : ce.read_symbols (e.codec.write ss) ≡ ss
  pub some_bytes : 0 < length (e.codec.write ss)
  pub short : length (e.codec.write ss) < 4294967296

-- The operations that come as bytes, what they make of the memory, and the signal for each.
abbrev pub is_bulk : OperationType → Bool
is_bulk paste = true
is_bulk change = true
is_bulk delete_symbol = true
is_bulk _ = false

abbrev pub apply_bulk :
    Env → OperationType → List Symbol → List (String × Symbol) → List (String × Symbol)
apply_bulk e delete_symbol ss m = erase_all e ss m
apply_bulk e _ ss m = put_all e ss m

abbrev pub signal_of : {Pixmap : Type 0} → OperationType → List Symbol → ClientSignal Pixmap
signal_of paste ss = remote_paste ss
signal_of change ss = remote_change ss
signal_of _ ss = remote_erase ss
