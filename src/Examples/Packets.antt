-- ===== src/Examples/Packets.antt =====
-- The byte stream, with QDataStream's big-endian form.
use scriba.Prelude.{
  ℕ, ◌+◌, ◌*◌, ◌/◌, ◌%◌, ◌^◌, ◌<◌, ◌≡◌, ◌≢◌, Outcome, refl, List, [], ◌∷◌, ◌++◌, Option, none, some,
  arith, length, take, drop, flatten, map, length-append, ◌==◌, leb, if◌then◌else◌, ap, ok, ◌⊎◌,
  inl,
}
use scriba.Stream.{
  Stream, Parsed, Reader, send_byte_array, serialize_size, read_chunks, new_reader,
  on_ready_read_helper, enough, read_all, with_size, extract_content_size, is_complete, parse_json,
}
use scriba.Order.Rank.{All}
use scriba.Stream.Packets.{Laws, Sendable, event_of}
use scriba.Stream.Call.{sent, After}
use scriba.Stream.Deliver.{read_chunks-delivers, read_chunks-prefix}
use scriba.Stream.Round.{IsEndless}
use scriba.Stream.Returns.{on_ready_read_helper-returns}

abbrev put32 : ℕ → List ℕ
put32 n = n / 16777216 % 256 ∷ n / 65536 % 256 ∷ n / 256 % 256 ∷ n % 256 ∷ []

abbrev get32 : List ℕ → Option (ℕ × List ℕ)
get32 (a ∷ b ∷ c ∷ d ∷ rest) = some (a * 16777216 + b * 65536 + c * 256 + d, rest)
get32 _ = none

get32-put32 : (n : ℕ) (rest : List ℕ) → n < 2 ^ 32 → get32 (put32 n ++ rest) ≡ some (n, rest)
get32-put32 n rest h = ap (λ k. some (k, rest)) (omega (arith, h))

abbrev put64 : ℕ → List ℕ
put64 n = put32 (n / 4294967296) ++ put32 (n % 4294967296)

abbrev get64 : List ℕ → Option (ℕ × List ℕ)
get64 xs = elim (get32 xs) [
  | none ↦ none
  | some (h, rest) ↦ elim (get32 rest) [
    | none ↦ none
    | some (l, rest') ↦ some (h * 4294967296 + l, rest')
  ]
]

get64-put64 : (n : ℕ) (rest : List ℕ) → n < 2 ^ 64 → get64 (put64 n ++ rest) ≡ some (n, rest)
get64-put64 n rest h = ground (
  arith,
  get32-put32 (n / 4294967296) (put32 (n % 4294967296) ++ rest) (omega (arith, h)),
  get32-put32 (n % 4294967296) rest (omega arith),
)

take-front : (b rest : List ℕ) → take (length b) (b ++ rest) ≡ b
take-front [] rest = refl
take-front (x ∷ b) rest = ap (◌∷◌ x) (take-front b rest)

drop-front : (b rest : List ℕ) → drop (length b) (b ++ rest) ≡ rest
drop-front [] rest = refl
drop-front (x ∷ b) rest = drop-front b rest

-- Text that starts with a brace is an object, with a bracket another document.
abbrev parse : List ℕ → Parsed (List ℕ)
parse [] = Parsed.failed
parse (x ∷ xs) =
    if x == 123 then Parsed.object xs else if x == 91 then Parsed.other else Parsed.failed

abbrev big_endian : Stream (List ℕ)
big_endian = record {
  put_size = put64;
  get_size = get64;
  put_bytes = λ b. put32 (length b) ++ b;
  get_bytes = λ xs. elim (get32 xs) [
    | none ↦ none
    | some (n, rest) ↦ if leb n (length rest) then some (take n rest, drop n rest) else none
  ];
  from_json = parse;
  truncate_negative = λ n b. [];
  remove_negative = λ n b. b;
}

get_bytes_front :
    (b rest : List ℕ)
    → length (big_endian.put_bytes b) < 2 ^ 31
    → big_endian.get_bytes (big_endian.put_bytes b ++ rest) ≡ some (b, rest)
get_bytes_front b rest h = ground (
  arith,
  get32-put32 (length b) (b ++ rest) (omega (arith, h)),
  length-append b rest,
  take-front b rest,
  drop-front b rest,
)

big_endian-Laws : Laws big_endian
big_endian-Laws = record {
  length-put_size = λ n h. refl;
  get_size-put_size = get64-put64;
  length-put_bytes = λ b. omega arith;
  get_bytes-put_bytes = get_bytes_front;
}

-- The messages `{1}` and two bytes that are no JSON, in three pieces.
abbrev messages : List (List ℕ)
messages = (123 ∷ 49 ∷ 125 ∷ []) ∷ (7 ∷ 8 ∷ []) ∷ []

messages-Sendable : All (Sendable big_endian) messages
messages-Sendable = (
  record { not_other = λ e. ground (arith, e); short = omega arith },
  (record { not_other = λ e. ground (arith, e); short = omega arith }, tt),
)

abbrev pieces : List (List ℕ)
pieces =
    (0 ∷ 0 ∷ 0 ∷ [])
    ∷ (0 ∷ 0 ∷ 0 ∷ 0 ∷ 7 ∷ 0 ∷ 0 ∷ [])
    ∷ (0 ∷ 3 ∷ 123 ∷ 49 ∷ 125 ∷ 0 ∷ 0 ∷ 0 ∷ 0 ∷ 0 ∷ 0 ∷ 0 ∷ 6 ∷ 0 ∷ 0 ∷ 0 ∷ 2 ∷ 7 ∷ 8 ∷ [])
    ∷ []

pieces_sent : flatten pieces ≡ sent big_endian messages
unfolding send_byte_array serialize_size
pieces_sent = refl

read_chunks-delivers_example :
    read_chunks big_endian new_reader pieces
    ≡ ok (record {
      socket = [];
      received = [];
      expected = 0;
      seen = map (event_of big_endian) messages;
    })
read_chunks-delivers_example =
    read_chunks-delivers big_endian big_endian-Laws pieces messages pieces_sent messages-Sendable

read_chunks-prefix_example :
    (r : Reader (List ℕ)) × (bs : List (List ℕ)) × (rest : List (List ℕ)) × (messages ≡ bs ++ rest)
    × (read_chunks big_endian new_reader (take 2 pieces) ≡ ok r)
    × After big_endian new_reader r (flatten (drop 2 pieces)) bs rest
read_chunks-prefix_example =
    read_chunks-prefix big_endian big_endian-Laws (take 2 pieces) (flatten (drop 2 pieces)) messages
      pieces_sent messages-Sendable

-- A size of 2 ^ 64 - 8 and a QByteArray of no bytes, as no sender writes them.
abbrev hostile : Reader (List ℕ)
hostile = record {
  socket = 255 ∷ 255 ∷ 255 ∷ 255 ∷ 255 ∷ 255 ∷ 255 ∷ 248 ∷ 0 ∷ 0 ∷ 0 ∷ 0 ∷ [];
  received = [];
  expected = 0;
  seen = [];
}

-- Enough rounds for every other reader of so many bytes do not end the call.
hostile_endless :
    on_ready_read_helper big_endian (enough big_endian hostile) hostile ≡ Outcome.out_of_fuel
unfolding on_ready_read_helper read_all with_size extract_content_size is_complete parse_json enough
hostile_endless = refl

on_ready_read_helper-returns_example :
    (on_ready_read_helper big_endian (enough big_endian hostile) hostile ≢ Outcome.out_of_fuel)
    ⊎ ((j : ℕ) × IsEndless big_endian (drop j hostile.socket)
        × ((fuel : ℕ) → on_ready_read_helper big_endian fuel hostile ≡ Outcome.out_of_fuel))
on_ready_read_helper-returns_example =
    on_ready_read_helper-returns big_endian hostile (omega arith) (inl refl)
