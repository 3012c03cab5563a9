-- ===== src/Stream/Packets.antt =====
-- One packet at the front of the bytes received: what the reader needs of QDataStream, and how a
-- packet is told from the bytes after it.
use mathlib.Core.List.{append_assoc, head-eq_of_cons-eq, tail-eq_of_cons-eq}
use scriba.Prelude.{
  ℕ, zero, suc, ◌+◌, ◌%◌, ◌^◌, ◌<◌, ◌≤◌, ◌≡◌, ◌≢◌, refl, sym, ◌∙◌, ap, List, [], ◌∷◌, ◌++◌, some,
  arith, length, length-append, take, drop, ok,
}
use scriba.Stream.{
  Stream, Parsed, Event, json, bytes, Reader, serialize_size, send_byte_array, dispatch, parse_json,
  int_of,
}
use scriba.Prelude.Int.{pos}

-- What the reader relies on: a quint64 takes 8 bytes and is read back, and a QByteArray is read back,
-- whatever bytes follow; its serialized form is longer than it is.
pub record Laws {J : Type 0} (st : Stream J) : Type 0 where
  pub length-put_size : (n : ℕ) → n < 2 ^ 64 → length (st.put_size n) ≡ 8
  pub get_size-put_size :
      (n : ℕ) (rest : List ℕ) → n < 2 ^ 64 → st.get_size (st.put_size n ++ rest) ≡ some (n, rest)
  pub length-put_bytes : (b : List ℕ) → length b < length (st.put_bytes b)
  pub get_bytes-put_bytes :
      (b rest : List ℕ)
      → length (st.put_bytes b) < 2 ^ 31
      → st.get_bytes (st.put_bytes b ++ rest) ≡ some (b, rest)

pub int_of-small : (n : ℕ) → n < 2 ^ 31 → int_of n ≡ pos n
unfolding int_of
int_of-small n h = ground (arith, h)

module _ {ℓ} {A : Type ℓ} where
  pub append-split :
      (xs ys hd bs : List A)
      → xs ++ ys ≡ hd ++ bs
      → length hd ≤ length xs
      → (m : List A) × (xs ≡ hd ++ m) × (m ++ ys ≡ bs)
  append-split xs ys [] bs e h = (xs, refl, e)
  append-split [] ys (a ∷ hd) bs e h = elim h [ ]
  append-split (x ∷ xs) ys (a ∷ hd) bs e h =
      let (m, f, g) = append-split xs ys hd bs (tail-eq_of_cons-eq e) (omega (arith, h)) in
      (m, ap (◌∷◌ x) f ∙ ap (λ k. k ∷ (hd ++ m)) (head-eq_of_cons-eq e), g)

  pub drop-append : (hd m : List A) → drop (length hd) (hd ++ m) ≡ m
  drop-append [] m = refl
  drop-append (a ∷ hd) m = drop-append hd m

  pub take_all : (n : ℕ) (xs : List A) → length xs ≤ n → take n xs ≡ xs
  take_all zero [] h = refl
  take_all zero (x ∷ xs) h = elim h [ ]
  take_all (suc n) [] h = refl
  take_all (suc n) (x ∷ xs) h = ap (◌∷◌ x) (take_all n xs (omega (arith, h)))

module _ {J : Type 0} (st : Stream J) where
  -- The call that a message ends in.
  unfoldable pub event_of : List ℕ → Event J
  event_of b = elim (st.from_json b) [ Parsed.object o ↦ json o | _ ↦ bytes b ]

  -- A message that is an object or no JSON at all, and whose packet is short enough for an int.
  pub record Sendable (b : List ℕ) : Type 0 where
    pub not_other : st.from_json b ≢ Parsed.other
    pub short : 8 + length (st.put_bytes b) < 2 ^ 31

  dispatch-event : (b : List ℕ) → st.from_json b ≢ Parsed.other → dispatch st b ≡ ok (event_of b)
  unfolding dispatch event_of
  dispatch-event b h = ground (arith, h)

  module _ (laws : Laws st) (b : List ℕ) (w : Sendable b) where
    small : length (st.put_bytes b) < 2 ^ 64
    small = omega (arith, w.short)

    pub length-send : length (send_byte_array st b) ≡ 8 + length (st.put_bytes b)
    unfolding send_byte_array serialize_size
    length-send =
        length-append (st.put_size (length (st.put_bytes b))) (st.put_bytes b)
        ∙ ap (λ n. n + length (st.put_bytes b))
            (laws.length-put_size (length (st.put_bytes b)) small)

    -- Eight bytes of a packet tell its size.
    pub get_size-front :
        (xs ys rest : List ℕ)
        → xs ++ ys ≡ send_byte_array st b ++ rest
        → 8 ≤ length xs
        → (m : List ℕ) × (xs ≡ st.put_size (serialize_size st b) ++ m)
          × (m ++ ys ≡ st.put_bytes b ++ rest)
          × (st.get_size xs ≡ some (serialize_size st b, m))
    unfolding send_byte_array serialize_size
    get_size-front xs ys rest e h =
        let n = length (st.put_bytes b) in
        let (m, f, g) =
          append-split xs ys (st.put_size n) (st.put_bytes b ++ rest)
            (e ∙ append_assoc (st.put_size n) (st.put_bytes b) rest)
            (omega (arith, h, laws.length-put_size n small)) in
        (m, f, g, ap st.get_size f ∙ laws.get_size-put_size n m small)

    parse_json-parts :
        (r : Reader J) (m k : List ℕ)
        → r.received ≡ st.put_size (length (st.put_bytes b)) ++ m
        → m ≡ st.put_bytes b ++ k
        → (length r.received ≡ 8 + length (st.put_bytes b) + length k)
          × (parse_json st r
              ≡ ok (some (record r { received = k; seen = r.seen ++ event_of b ∷ [] })))
    unfolding parse_json
    parse_json-parts r m k f g =
        let n = length (st.put_bytes b) in
        let whole : r.received ≡ (st.put_size n ++ st.put_bytes b) ++ k =
          f ∙ ap (◌++◌ (st.put_size n)) g ∙ sym (append_assoc (st.put_size n) (st.put_bytes b) k) in
        let len : length (st.put_size n ++ st.put_bytes b) ≡ 8 + n =
          length-append (st.put_size n) (st.put_bytes b)
          ∙ ap (λ i. i + n) (laws.length-put_size n small) in
        let cut : drop (8 + n) r.received ≡ k =
          ap (drop (8 + n)) whole
          ∙ ap (λ i. drop i ((st.put_size n ++ st.put_bytes b) ++ k)) (sym len)
          ∙ drop-append (st.put_size n ++ st.put_bytes b) k in
        let size = ap st.get_size f ∙ laws.get_size-put_size n m small in
        let content = ap st.get_bytes g ∙ laws.get_bytes-put_bytes b k (omega (arith, w.short)) in
        let all = take_all n b (omega (arith, laws.length-put_bytes b)) in
        let whole_int = int_of-small n (omega (arith, w.short)) in
        let sum : (8 + n) % 2 ^ 64 ≡ 8 + n = omega (arith, w.short) in
        let whole_sum = ap int_of sum ∙ int_of-small (8 + n) w.short in
        (
          ap length whole
              ∙ length-append (st.put_size n ++ st.put_bytes b) k
              ∙ ap (λ i. i + length k) len,
          rw
              (
                parse_json,
                size,
                content,
                whole_int,
                whole_sum,
                all,
                cut,
                dispatch-event b w.not_other,
              )
              refl,
        )

    -- A whole packet at the front is parsed, and leaves with its call made.
    pub parse_json-front :
        (r : Reader J) (ys rest : List ℕ)
        → r.received ++ ys ≡ send_byte_array st b ++ rest
        → 8 + length (st.put_bytes b) ≤ length r.received
        → (k : List ℕ) × (k ++ ys ≡ rest)
          × (length r.received ≡ 8 + length (st.put_bytes b) + length k)
          × (parse_json st r
              ≡ ok (some (record r { received = k; seen = r.seen ++ event_of b ∷ [] })))
    unfolding serialize_size
    parse_json-front r ys rest e h =
        let n = length (st.put_bytes b) in
        let (m, f, g, size) = get_size-front r.received ys rest e (omega (arith, h)) in
        let len : length r.received ≡ 8 + length m =
          ap length f
          ∙ length-append (st.put_size n) m
          ∙ ap (λ i. i + length m) (laws.length-put_size n small) in
        let (k, f', g') = append-split m ys (st.put_bytes b) rest g (omega (arith, h, len)) in
        let (count, run) = parse_json-parts r m k f f' in (k, g', count, run)
