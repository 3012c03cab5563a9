-- ===== src/Crdt/State.antt =====
-- The members of CRDT, the messages that it hands to the client and the signals that it emits, in
-- the order in which it does.
use scriba.Prelude.{ℕ, List, [], ◌∷◌, ◌++◌, Option, Outcome, ok, ◌>>=◌}
use scriba.Prelude.Int.{ℤ, pos, negsuc}
use scriba.Symbol.{Symbol, SymbolFormat}
use scriba.Crdt.Position.{Entropy}
use scriba.Crdt.Lines.{get_symbol}

-- Utility/common.h
pub data OperationType : Type 0 where
  insert_symbol delete_symbol change align paste cursor : OperationType

-- A message of type "operation": the sender's site, and one symbol as JSON, or symbols as bytes
-- with "tot_symbols" where the code sets it.
pub data Broadcast : Type 0 where
  one : OperationType → ℤ → Symbol → Broadcast
  many : OperationType → ℤ → Option ℕ → List Symbol → Broadcast

-- The signals to the editor. A group's text format is that of its first symbol.
pub data Signal : Type 0 where
  insert : ℕ → ℕ → Symbol → Signal
  insert_group : ℕ → ℕ → List ℕ → SymbolFormat → Signal
  erase : ℕ → ℕ → ℕ → Signal
  change_all : List Symbol → Signal
  change_alignment : ℤ → ℕ → ℕ → Signal

pub record Crdt : Type 0 where
  pub site_id : ℤ
  pub symbols : List (List Symbol)
  pub counter : ℤ
  pub entropy : Entropy
  pub size : ℤ
  pub sent : List Broadcast
  pub emitted : List Signal

-- The constructor; the site is unset until setId.
unfoldable pub new_crdt : ℤ → Crdt
new_crdt unset = record {
  site_id = unset;
  symbols = [] ∷ [];
  counter = pos 0;
  entropy = record { strategy_cache = []; coins = 0; draws = 0 };
  size = negsuc 0;
  sent = [];
  emitted = [];
}

-- CRDT::clear
unfoldable pub clear : Crdt → Crdt
clear c = record c {
  site_id = pos 0;
  symbols = [] ∷ [];
  counter = pos 0;
  entropy = record c.entropy { strategy_cache = [] };
  size = negsuc 0;
}

unfoldable pub set_id : Crdt → ℤ → Crdt
set_id c site = record c { site_id = site }

abbrev pub send : Crdt → Broadcast → Crdt
send c m = record c { sent = c.sent ++ m ∷ [] }

abbrev pub emit : Crdt → Signal → Crdt
emit c s = record c { emitted = c.emitted ++ s ∷ [] }

-- CRDT::cursorPositionChanged
unfoldable pub cursor_position_changed : Crdt → ℕ → ℕ → Outcome Crdt
unfolding get_symbol
cursor_position_changed c line index =
    get_symbol c.symbols line index >>= λ s. ok (send c (one cursor c.site_id s))
