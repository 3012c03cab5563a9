-- ===== src/Server/Frame.antt =====
-- The byte arrays of the server and the client: a size as a quint32 in the machine's order, which is
-- taken to be little-endian, then so many bytes. createByteArrayJsonImage,
-- createByteArrayFileContentImage, the bytes of broadcastByteArray and how a receiver takes one
-- block off. A size is cut to 32 bits.
pub mod Blocks
use scriba.Prelude.{
  ℕ, zero, suc, ◌+◌, ◌*◌, ◌/◌, ◌%◌, ◌^◌, ◌<◌, ◌≡◌, refl, sym, ◌∙◌, ap, List, [], ◌∷◌, ◌++◌, arith,
  length, take, drop, Option, none, some, get_elem?, if◌then◌else◌, ◌==◌,
}
use scriba.Json.{Fields}
use scriba.Symbol.{Symbol}
use scriba.Server.{Env}

abbrev pub le32 : ℕ → List ℕ
le32 n = n % 256 ∷ n / 256 % 256 ∷ n / 65536 % 256 ∷ n / 16777216 % 256 ∷ []

abbrev pub byte_at : List ℕ → ℕ → ℕ
byte_at b i = elim (get_elem? b i) [ none ↦ 0 | some x ↦ x ]

-- qFromLittleEndian of left(4); a byte that is not there is read as 0.
unfoldable pub read_le32 : List ℕ → ℕ
read_le32 b = byte_at b 0 + byte_at b 1 * 256 + byte_at b 2 * 65536 + byte_at b 3 * 16777216

unfoldable pub block : List ℕ → List ℕ
block p = le32 (length p % 2 ^ 32) ++ p

-- The images, each as a block; with none, a size of 0.
unfoldable pub image_blocks : List (List ℕ) → List ℕ
unfolding block
image_blocks [] = []
image_blocks (a ∷ v) = block a ++ image_blocks v

abbrev pub images : List (List ℕ) → List ℕ
images [] = le32 0
images (a ∷ v) = image_blocks (a ∷ v)

module _ (e : Env) where
  unfoldable pub create_byte_array_json_image : Fields → List (List ℕ) → List ℕ
  unfolding block image_blocks
  create_byte_array_json_image m v = block (e.document m) ++ images v

  unfoldable pub create_byte_array_file_content_image :
      Fields → List Symbol → List (List ℕ) → List ℕ
  unfolding block image_blocks
  create_byte_array_file_content_image m c v =
      block (e.document m) ++ block (e.codec.write c) ++ images v

  -- The first part of broadcastByteArray; no bytes are a size of 0.
  unfoldable pub broadcast_bytes : Fields → List ℕ → List ℕ
  unfolding block
  broadcast_bytes m b = block (e.document m) ++ block b

-- mid(4, size) and mid(4 + size, -1), `size` being what the first four bytes say.
-- The sum is an int for a size below 2 ^ 31 - 4, and no QByteArray holds a block of more.
unfoldable pub payload : List ℕ → List ℕ
unfolding read_le32
payload b = take (read_le32 b) (drop 4 b)

unfoldable pub after_block : List ℕ → List ℕ
unfolding read_le32
after_block b = drop (4 + read_le32 b) b
