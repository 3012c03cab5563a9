-- ===== src/Server/Frame/Blocks.antt =====
-- Blocks of bytes, written and taken off again.
use mathlib.Core.List.{append_assoc}
use scriba.Prelude.{
  ℕ, suc, ◌+◌, ◌%◌, ◌<◌, ◌≡◌, refl, ◌∙◌, ap, List, [], ◌∷◌, ◌++◌, arith, length, take, drop,
}
use scriba.Json.{Fields}
use scriba.Symbol.{Symbol}
use scriba.Server.{Env}
use scriba.Server.Frame.{
  le32, read_le32, block, payload, after_block, image_blocks, create_byte_array_file_content_image,
}

read_le32-le32 : (n : ℕ) (rest : List ℕ) → n < 4294967296 → read_le32 (le32 n ++ rest) ≡ n
unfolding read_le32
read_le32-le32 n rest h = omega arith

take_append : (p rest : List ℕ) → take (length p) (p ++ rest) ≡ p
take_append [] rest = refl
take_append (x ∷ p) rest = ap (◌∷◌ x) (take_append p rest)

drop_append : (p rest : List ℕ) → drop (length p) (p ++ rest) ≡ rest
drop_append [] rest = refl
drop_append (x ∷ p) rest = drop_append p rest

drop_four :
    (n : ℕ) (a b c d : ℕ) (rest : List ℕ) → drop (4 + n) (a ∷ b ∷ c ∷ d ∷ rest) ≡ drop n rest
drop_four n a b c d rest = ap (λ k. drop k (a ∷ b ∷ c ∷ d ∷ rest)) (four n)
  where
    four : (n : ℕ) → 4 + n ≡ suc (suc (suc (suc n)))
    four n = omega arith

-- A block of fewer than 2 ^ 32 bytes, whatever follows it, is read back whole, and what follows is
-- what is left.
pub block-read :
    (p rest : List ℕ)
    → length p < 4294967296
    → (payload (block p ++ rest) ≡ p) × (after_block (block p ++ rest) ≡ rest)
unfolding payload after_block block
block-read p rest h =
    let n = length p in
    let t = p ++ rest in
    let cut : n % 4294967296 ≡ n = omega (arith, h) in
    let r = read_le32-le32 n t h in
    (
      ap (λ k. payload (le32 k ++ t)) cut ∙ ap (λ k. take k t) r ∙ take_append p rest,
      ap (λ k. after_block (le32 k ++ t)) cut
          ∙ ap (λ k. drop (4 + k) (le32 n ++ t)) r
          ∙ drop_four n _ _ _ _ t
          ∙ drop_append p rest,
    )

-- The size that stands before a block.
pub read_le32-block :
    (p rest : List ℕ) → length p < 4294967296 → read_le32 (block p ++ rest) ≡ length p
unfolding block
read_le32-block p rest h =
    ap (λ k. read_le32 (le32 k ++ (p ++ rest))) (omega (arith, h))
    ∙ read_le32-le32 (length p) (p ++ rest) h

-- A file that the server sends, its JSON, its symbols and the first of its images each shorter than
-- 2 ^ 32 bytes, is taken apart into just these by reading one block after another.
pub file_content-read :
    (e : Env) (m : Fields) (c : List Symbol) (a : List ℕ) (v : List (List ℕ))
    → length (e.document m) < 4294967296
    → length (e.codec.write c) < 4294967296
    → length a < 4294967296
    → (rest : List ℕ) × (rest' : List ℕ) × (payload
          (create_byte_array_file_content_image e m c (a ∷ v))
        ≡ e.document m)
      × (after_block (create_byte_array_file_content_image e m c (a ∷ v)) ≡ rest)
      × (payload rest ≡ e.codec.write c)
      × (after_block rest ≡ rest')
      × (payload rest' ≡ a)
      × (after_block rest' ≡ image_blocks v)
unfolding create_byte_array_file_content_image image_blocks
file_content-read e m c a v hm hc ha =
    let rest' = block a ++ image_blocks v in
    let rest = block (e.codec.write c) ++ rest' in
    let (x, x') = block-read (e.document m) rest hm in
    let (y, y') = block-read (e.codec.write c) rest' hc in
    let (z, z') = block-read a (image_blocks v) ha in
    let split = append_assoc (block (e.document m)) (block (e.codec.write c)) rest' in
    (rest, rest', ap payload split ∙ x, ap after_block split ∙ x', y, y', z, z')
