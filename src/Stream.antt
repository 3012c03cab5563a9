-- ===== src/Stream.antt =====
-- Utility/byte_reader.h, Utility/serializesize.h, and sendByteArray of Client/client.cpp and
-- Server/serverworker.cpp: messages as packets of a byte stream. QDataStream and the JSON parser are
-- Qt's and stand as parameters. readAll empties the socket, and nothing arrives during a call.
pub mod Packets
pub mod Call
pub mod Deliver
pub mod Round
pub mod Returns
use scriba.Prelude.{
  ℕ, zero, suc, ◌+◌, ◌-◌, ◌%◌, ◌^◌, ◌<◌, ◌≡◌, Bool, true, false, List, [], ◌∷◌, ◌++◌, Option, none,
  some, ◌==◌, ltb, leb, ◌&&◌, if◌then◌else◌, length, take, drop, Outcome, ok, ◌>>=◌,
}
use scriba.Prelude.Int.{ℤ, pos, negsuc}

-- What QJsonDocument::fromJson makes of bytes: an object, another document, or a parse error.
pub data Parsed (J : Type 0) : Type 0 where
  object : J → Parsed J
  other : Parsed J
  failed : Parsed J

-- operator<< and operator>> of QDataStream for quint64 and QByteArray; reading past the end
-- is `none`. The last two are what QByteArray's truncate and remove do with -n-1 for a number that is
-- not to be negative.
pub record Stream (J : Type 0) : Type 0 where
  pub put_size : ℕ → List ℕ
  pub get_size : List ℕ → Option (ℕ × List ℕ)
  pub put_bytes : List ℕ → List ℕ
  pub get_bytes : List ℕ → Option (List ℕ × List ℕ)
  pub from_json : List ℕ → Parsed J
  pub truncate_negative : ℕ → List ℕ → List ℕ
  pub remove_negative : ℕ → List ℕ → List ℕ

-- A call of jsonReceived or byteArrayReceived.
pub data Event (J : Type 0) : Type 0 where
  json : J → Event J
  bytes : List ℕ → Event J

-- The int that a quint64 is passed as: its low 32 bits in two's complement.
unfoldable pub int_of : ℕ → ℤ
int_of n = if ltb (n % 2 ^ 32) (2 ^ 31) then pos (n % 2 ^ 32) else negsuc (2 ^ 32 - 1 - n % 2 ^ 32)

-- The bytes that wait in the socket, m_received_data, m_exptected_json_size, and the calls made.
pub record Reader (J : Type 0) : Type 0 where
  pub socket : List ℕ
  pub received : List ℕ
  pub expected : ℕ
  pub seen : List (Event J)

abbrev pub new_reader : {J : Type 0} → Reader J
new_reader = record { socket = []; received = []; expected = 0; seen = [] }

-- received_data.append(socket->readAll())
unfoldable pub read_all : {J : Type 0} → Reader J → Reader J
read_all r = record r { socket = []; received = r.received ++ r.socket }

module _ {J : Type 0} (st : Stream J) where
  open st use {
    put_size, get_size, put_bytes, get_bytes, from_json, truncate_negative, remove_negative,
  }

  -- SerializeSize, at a QByteArray.
  unfoldable pub serialize_size : List ℕ → ℕ
  serialize_size data_bytes = length (put_bytes data_bytes)

  -- sendByteArray: what goes into the socket.
  unfoldable pub send_byte_array : List ℕ → List ℕ
  send_byte_array data_bytes = put_size (serialize_size data_bytes) ++ put_bytes data_bytes

  -- extract_content_size; a size that cannot be read is 0.
  unfoldable pub extract_content_size : Reader J → Reader J
  extract_content_size r =
      let r' = read_all r in
      record r' { expected = elim (get_size r'.received) [ none ↦ 0 | some (n, _) ↦ n ] }

  -- Which slot gets the data.
  unfoldable pub dispatch : List ℕ → Outcome (Event J)
  dispatch json_data = elim (from_json json_data) [
    | Parsed.object o ↦ ok (json o)
    | Parsed.other ↦ Outcome.throws "Invalid json received."
    | Parsed.failed ↦ ok (bytes json_data)
  ]

  -- QByteArray::truncate, and QByteArray::remove from the front
  abbrev pub truncate : ℤ → List ℕ → List ℕ
  truncate (pos n) data_bytes = take n data_bytes
  truncate (negsuc n) data_bytes = truncate_negative n data_bytes

  abbrev pub remove : ℤ → List ℕ → List ℕ
  remove (pos n) data_bytes = drop n data_bytes
  remove (negsuc n) data_bytes = remove_negative n data_bytes

  -- parseJson; `none` where it returns false. The sum with 8 is one in 64 bits, and what truncate and
  -- remove take is an int.
  unfoldable pub parse_json : Reader J → Outcome (Option (Reader J))
  unfolding int_of dispatch
  parse_json r = elim (get_size r.received) [
    | none ↦ ok none
    | some (json_size, rest) ↦ elim (get_bytes rest) [
      | none ↦ ok none
      | some (json_data, _) ↦ dispatch (truncate (int_of json_size) json_data) >>= λ e. ok (
          some (record r {
            received = remove (int_of ((8 + json_size) % 2 ^ 64)) r.received;
            seen = r.seen ++ e ∷ [];
          }))
    ]
  ]

  -- The size of the next packet is known, once it is.
  unfoldable pub with_size : Reader J → Reader J
  with_size r = if r.expected == 0 then extract_content_size r else r

  -- received_data.size() >= expected_json_size + 8, in 64 bits, for a size that is known.
  unfoldable pub is_complete : Reader J → Bool
  is_complete r = ltb 0 r.expected && leb ((r.expected + 8) % 2 ^ 64) (length r.received)

  -- onReadyRead_helper, whose recursion runs on fuel; it may be endless.
  unfoldable pub on_ready_read_helper : ℕ → Reader J → Outcome (Reader J)
  on_ready_read_helper zero r = Outcome.out_of_fuel
  on_ready_read_helper (suc fuel) r =
      if ltb (length (read_all r).received) 8
      then ok (read_all r)
      else if is_complete (with_size (read_all r))
      then (parse_json (with_size (read_all r)) >>= λ parsed. elim parsed [
        | none ↦ ok (with_size (read_all r))
        | some r' ↦ on_ready_read_helper fuel (record r' { expected = 0 })
      ])
      else ok (with_size (read_all r))

  -- As many rounds as there are bytes, and one more; no more bytes arrive.
  unfoldable pub enough : Reader J → ℕ
  enough r = suc (length r.socket + length r.received)

  -- readyRead for each piece of the stream.
  unfoldable pub read_chunks : Reader J → List (List ℕ) → Outcome (Reader J)
  read_chunks r [] = ok r
  read_chunks r (chunk ∷ rest) =
      let arrived : Reader J = record r { socket = r.socket ++ chunk } in
      on_ready_read_helper (enough arrived) arrived >>= λ r'. read_chunks r' rest
