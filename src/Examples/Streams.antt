-- ===== src/Examples/Streams.antt =====
-- A stream whose items are single numbers: texts go as the codes of their characters.
use Prim.Native.Char.{Char, code, char, nul, IsLt, IsScalar}
use Prim.Native.Nat.{compare, Ordering}
use Prim.Native.String.{String, ◌∷◌ as ◌∷ₛ◌, [] as empty_text}
use mathlib.Core.List.{append_assoc}
use text.Mathlib.TextEquality.{Char-path}
use scriba.Prelude.{
  ℕ, suc, zero, ◌<◌, ◌≡◌, refl, ◌⊎◌, inl, inr, Bool, true, false, List, [], ◌∷◌, ◌++◌, arith,
  length,
}
use scriba.Prelude.Int.{ℤ, pos, negsuc, ◌-ℤ◌}
use scriba.Order.Rank.{All}
use scriba.Symbol.Stream.{Wire, Streams, Laws, Reads, IsStorable, symbol_wire, symbols-read}
use scriba.Examples.Documents.{symbol_at}

abbrev Both : Ordering → Ordering → Type 0
Both Ordering.lt o = IsLt o
Both Ordering.eq _ = ⊥
Both Ordering.gt _ = ⊥

abbrev InScalars : Ordering → Ordering → Ordering → Type 0
InScalars Ordering.lt _ _ = Unit
InScalars Ordering.eq o p = Both o p
InScalars Ordering.gt o p = Both o p

abbrev decide_both : (o p : Ordering) → Both o p ⊎ (Both o p → ⊥)
decide_both Ordering.lt Ordering.lt = inl tt
decide_both Ordering.lt Ordering.eq = inr (λ b. b)
decide_both Ordering.lt Ordering.gt = inr (λ b. b)
decide_both Ordering.eq p = inr (λ b. b)
decide_both Ordering.gt p = inr (λ b. b)

abbrev decide : (o p q : Ordering) → InScalars o p q ⊎ (InScalars o p q → ⊥)
decide Ordering.lt p q = inl tt
decide Ordering.eq p q = decide_both p q
decide Ordering.gt p q = decide_both p q

abbrev pick : (n : ℕ) → IsScalar n ⊎ (IsScalar n → ⊥) → Char
pick n (inl p) = char n p
pick n (inr k) = nul

abbrev from_code : ℕ → Char
from_code n = pick n (decide (compare n 55296) (compare 57343 n) (compare n 1114112))

pick-code : (c : Char) (d : IsScalar (code c) ⊎ (IsScalar (code c) → ⊥)) → pick (code c) d ≡ c
pick-code (char n p) (inl q) = Char-path (char n q) (char n p) refl
pick-code (char n p) (inr k) = absurd (k p)

abbrev codes : String → List ℕ
codes empty_text = []
codes (c ∷ₛ s) = code c ∷ codes s

abbrev read_codes : ℕ → List ℕ → String × List ℕ
read_codes zero b = (empty_text, b)
read_codes (suc n) [] = (empty_text, [])
read_codes (suc n) (c ∷ b) = let (s, rest) = read_codes n b in (from_code c ∷ₛ s, rest)

read_codes-codes :
    (s : String) (rest : List ℕ) → read_codes (length (codes s)) (codes s ++ rest) ≡ (s, rest)
read_codes-codes empty_text rest = refl
read_codes-codes (c ∷ₛ s) rest =
    rw
      (
        read_codes-codes s rest,
        pick-code c
            (decide (compare (code c) 55296) (compare 57343 (code c)) (compare (code c) 1114112)),
      )
      refl

abbrev put_int : ℤ → List ℕ
put_int (pos n) = 0 ∷ n ∷ []
put_int (negsuc n) = 1 ∷ n ∷ []

abbrev get_int : List ℕ → ℤ × List ℕ
get_int (zero ∷ n ∷ b) = (pos n, b)
get_int (suc _ ∷ n ∷ b) = (negsuc n, b)
get_int b = (pos 0, b)

abbrev numbers : Wire ℤ
numbers = record { put = put_int; get = get_int }

numbers-Reads : (z : ℤ) → Reads numbers z
numbers-Reads (pos n) rest = refl
numbers-Reads (negsuc n) rest = refl

module _ {A : Type 0} (w : Wire A) where
  abbrev put_items : List A → List ℕ
  put_items [] = []
  put_items (a ∷ l) = w.put a ++ put_items l

  abbrev get_items : ℕ → List ℕ → List A × List ℕ
  get_items zero b = ([], b)
  get_items (suc n) b = let (a, b1) = w.get b in let (l, b2) = get_items n b1 in (a ∷ l, b2)

  get_items-put :
      (l : List A) (rest : List ℕ)
      → All (Reads w) l
      → get_items (length l) (put_items l ++ rest) ≡ (l, rest)
  get_items-put [] rest h = refl
  get_items-put (a ∷ l) rest h =
      rw
        (
          append_assoc (w.put a) (put_items l) rest,
          h.0 (put_items l ++ rest),
          get_items-put l rest h.1,
        )
        refl

abbrev counted : {A : Type 0} → (ℕ → List ℕ → A × List ℕ) → A → List ℕ → A × List ℕ
counted get none_at_all [] = (none_at_all, [])
counted get none_at_all (n ∷ b) = get n b

abbrev stream : Streams
stream = record {
  int32 = numbers;
  int64 = numbers;
  ushort = record { put = λ n. n ∷ []; get = λ b. counted (λ n rest. (n, rest)) 0 b };
  boolean = record {
    put = λ b. (elim b [ true ↦ 1 | false ↦ 0 ]) ∷ [];
    get = λ b. counted (λ n rest. (elim n [ zero ↦ false | suc _ ↦ true ], rest)) false b;
  };
  text = record {
    put = λ s. length (codes s) ∷ codes s;
    get = λ b. counted read_codes empty_text b;
  };
  vector = λ {A} w. record {
    put = λ l. length l ∷ put_items w l;
    get = λ b. counted (get_items w) [] b;
  };
}

boolean-Reads : (b : Bool) → Reads stream.boolean b
boolean-Reads true rest = refl
boolean-Reads false rest = refl

laws : Laws stream
laws = record {
  int32 = λ z h. numbers-Reads z;
  int64 = λ z h. numbers-Reads z;
  ushort = λ n h rest. refl;
  boolean = boolean-Reads;
  text = read_codes-codes;
  vector = λ w l h rest. get_items-put w l rest h;
}

storable : (value digit : ℕ) → value < 65536 → digit < 1000 → IsStorable (symbol_at value digit)
unfolding ◌-ℤ◌
storable value digit h k = record {
  value = h;
  position = (((ground arith, ground (arith, k)), (ground arith, ground arith)), tt);
  counter = (ground arith, ground arith);
  align = (ground arith, ground arith);
  size = (ground arith, ground arith);
}

symbols-read_example :
    (stream.vector (symbol_wire stream)).get
      ((stream.vector (symbol_wire stream)).put (symbol_at 97 3 ∷ symbol_at 0 31 ∷ []) ++ 7 ∷ [])
    ≡ (symbol_at 97 3 ∷ symbol_at 0 31 ∷ [], 7 ∷ [])
symbols-read_example =
    symbols-read stream laws (symbol_at 97 3 ∷ symbol_at 0 31 ∷ []) (7 ∷ [])
      (storable 97 3 (omega arith) (omega arith), (storable 0 31 (omega arith) (omega arith), tt))
