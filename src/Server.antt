-- ===== src/Server.antt =====
-- Server/server.h and the parts of Server/server.cpp that all its handlers share: the state, the
-- messages to clients and the broadcasts. A worker (ServerWorker) is named by a number; its socket
-- is the list `outbox` of what it was told to send, and the pointers of mapFileWorkers and
-- symbols_list are held as values, no two keys sharing one. Reading through a missing entry is
-- `undefined`.
pub mod Frame
pub mod Threads
pub mod Accounts
pub mod Files
pub mod Leave
pub mod Dispatch
pub mod Rooms
use Prim.Native.String.{String}
use scriba.Prelude.{
  ℕ, zero, suc, ◌+◌, Bool, true, false, List, [], ◌∷◌, ◌++◌, Option, none, some, ◌==◌,
  if◌then◌else◌, Outcome, ok, ◌>>=◌, defined,
}
use scriba.Prelude.Int.{ℤ}
use scriba.Qt.{Text, find, put}
use scriba.Json.{Json, Fields, end, assign, str, bool}
use scriba.Symbol.{Symbol}
use scriba.Mongo.{Mongo, Crypto, Driver, Codec}

pub record Worker : Type 0 where
  pub username : String
  pub nickname : String
  pub filename : String

pub data Packet : Type 0 where
  json : Fields → Packet
  bytes : List ℕ → Packet

pub record Server : Type 0 where
  pub ideal_thread_count : ℕ
  pub threads_load : List ℤ
  pub clients : List ℕ
  pub worker : ℕ → Worker
  pub map_file_workers : List (String × List ℕ)
  pub symbols_list : List (String × List (String × Symbol))
  pub changed : List (String × Bool)
  pub db : Mongo
  pub outbox : List (ℕ × Packet)

-- What the server calls: Qt's texts, streams and JSON documents, libsodium, the driver, the key of
-- an address in `images`, and a bound on the rounds of newFile.
pub record Env : Type 0 where
  pub text : Text
  pub codec : Codec
  pub crypto : Crypto
  pub driver : Driver
  pub image_key : String → String
  pub document : Fields → List ℕ
  pub parse : List ℕ → Option Json
  pub rounds : ℕ

unfoldable pub send_packet : ℕ → Packet → Server → Server
send_packet w p s = record s { outbox = s.outbox ++ (w, p) ∷ [] }

-- setUsername, setNickname and setFilename of one worker.
unfoldable pub update_worker : ℕ → (Worker → Worker) → Server → Server
update_worker w f s = record s { worker = λ v. if v == w then f (s.worker v) else s.worker v }

-- The loop of broadcast and broadcastByteArray.
unfoldable pub send_others : ℕ → Packet → List ℕ → Server → Server
unfolding send_packet
send_others exclude p [] s = s
send_others exclude p (w ∷ ws) s =
    send_others exclude p ws (if w == exclude then s else send_packet w p s)

-- Server::broadcast; broadcastByteArray with the bytes that it builds.
unfoldable pub broadcast : Packet → ℕ → Server → Outcome Server
unfolding send_others
broadcast p exclude s = defined (find (s.worker exclude).filename s.map_file_workers) >>= λ ws.
    ok (send_others exclude p ws s)

-- message["type"], and a message that says what went wrong.
abbrev pub message : String → Fields
message type = assign "type" (str type) end

abbrev pub refuse : Fields → String → Fields
refuse m reason = assign "reason" (str reason) (assign "success" (bool false) m)
