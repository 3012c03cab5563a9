-- ===== src/Editor/Changes/Sync.antt =====
-- The widget's text and the CRDT's document, and how the same edit changes both.
use scriba.Prelude.{
  ℕ, zero, suc, ◌+◌, ◌<◌, ◌≤◌, ◌≡◌, refl, ap, true, List, [], ◌∷◌, ◌++◌, arith, length, flatten,
  map, take, drop, insert_at,
}
use scriba.Prelude.Int.{ℤ, pos, ◌+ℤ◌, ◌-ℤ◌, ltb_ℤ}
use scriba.Order.Blocks.Cut.{without}
use scriba.Symbol.{Symbol}
use scriba.Crdt.State.{Crdt}
use scriba.Editor.{Glyph}

abbrev pub values : List Symbol → List ℕ
values = map (λ s. s.value)

abbrev pub text : List Glyph → List ℕ
text = map (λ g. g.value)

-- The document is the text with the symbol 0 that ends it, and its size is the text's.
pub record InSync (glyphs : List Glyph) (c : Crdt) : Type 0 where
  pub same_text : values (flatten c.symbols) ≡ text glyphs ++ 0 ∷ []
  pub same_size : c.size ≡ pos (length glyphs)

pub length-map : {A B : Type 0} (f : A → B) (xs : List A) → length (map f xs) ≡ length xs
length-map f [] = refl
length-map f (x ∷ xs) = ap suc (length-map f xs)

pub map-without :
    {A B : Type 0} (f : A → B) (k n : ℕ) (xs : List A)
    → map f (without k n xs) ≡ without k n (map f xs)
map-without f zero zero xs = refl
map-without f zero (suc n) [] = refl
map-without f zero (suc n) (x ∷ xs) = map-without f zero n xs
map-without f (suc k) zero [] = refl
map-without f (suc k) (suc n) [] = refl
map-without f (suc k) n (x ∷ xs) = ap (◌∷◌ (f x)) (map-without f k n xs)

-- A run within the text leaves what ends it.
pub without-append :
    {A : Type 0} (k n : ℕ) (xs ys : List A)
    → k + n ≤ length xs
    → without k n (xs ++ ys) ≡ without k n xs ++ ys
without-append zero zero xs ys h = refl
without-append zero (suc n) [] ys h = absurd (omega (arith, h))
without-append zero (suc n) (x ∷ xs) ys h = without-append zero n xs ys (omega (arith, h))
without-append (suc k) n [] ys h = absurd (omega (arith, h))
without-append (suc k) n (x ∷ xs) ys h = ap (◌∷◌ x) (without-append k n xs ys (omega (arith, h)))

pub length-without :
    {A : Type 0} (k n : ℕ) (xs : List A)
    → k + n ≤ length xs
    → length (without k n xs) + n ≡ length xs
length-without zero zero xs h = omega arith
length-without zero (suc n) [] h = absurd (omega (arith, h))
length-without zero (suc n) (x ∷ xs) h = omega (arith, length-without zero n xs (omega (arith, h)))
length-without (suc k) n [] h = absurd (omega (arith, h))
length-without (suc k) n (x ∷ xs) h = omega (arith, length-without k n xs (omega (arith, h)))

pub smaller : (a m : ℕ) (z : ℤ) → z ≡ pos m → a < m → ltb_ℤ (pos a) z ≡ true
smaller a m z e h = ground (arith, e, h)

pub minus : (m k a : ℕ) → a + k ≡ m → pos m -ℤ pos k ≡ pos a
unfolding ◌-ℤ◌
minus m k a h = ground (arith, h)

pub larger : (a m : ℕ) (z : ℤ) → z ≡ pos m → m < a → ltb_ℤ z (pos a) ≡ true
larger a m z e h = ground (arith, e, h)

pub plus : (m a : ℕ) → a ≡ suc m → pos m +ℤ pos 1 ≡ pos a
unfolding ◌+ℤ◌
plus m a h = ground (arith, h)

pub insert_at-there :
    {A : Type 0} (k : ℕ) (x : A) (xs : List A)
    → k ≤ length xs
    → (take 1 (drop k (insert_at k x xs)) ≡ x ∷ []) × (length (insert_at k x xs) ≡ suc (length xs))
insert_at-there zero x xs h = (refl, refl)
insert_at-there (suc k) x [] h = elim h [ ]
insert_at-there (suc k) x (y ∷ xs) h =
    let (a, b) = insert_at-there k x xs (omega arith) in (a, ap suc b)

pub map-insert_at :
    {A B : Type 0} (f : A → B) (k : ℕ) (x : A) (xs : List A)
    → map f (insert_at k x xs) ≡ insert_at k (f x) (map f xs)
map-insert_at f zero x xs = refl
map-insert_at f (suc k) x [] = refl
map-insert_at f (suc k) x (y ∷ xs) = ap (◌∷◌ (f y)) (map-insert_at f k x xs)

pub insert_at-append :
    {A : Type 0} (k : ℕ) (x : A) (xs ys : List A)
    → k ≤ length xs
    → insert_at k x (xs ++ ys) ≡ insert_at k x xs ++ ys
insert_at-append zero x xs ys h = refl
insert_at-append (suc k) x [] ys h = elim h [ ]
insert_at-append (suc k) x (y ∷ xs) ys h = ap (◌∷◌ y) (insert_at-append k x xs ys (omega arith))
