-- ===== src/Stream/Round.antt =====
-- One round of onReadyRead_helper, on any bytes and whatever QDataStream and the JSON parser make
-- of them.
use mathlib.Core.List.{append-nil}
use scriba.Prelude.{
  ℕ, suc, ◌+◌, ◌%◌, ◌^◌, ◌<◌, ◌≤◌, ◌≡◌, ◌≢◌, refl, List, [], ◌∷◌, ◌++◌, Option, none, some, ltb,
  ◌⊎◌, inl, inr, arith, length, drop, Outcome, ok, Bool-cases, ◌==◌, true, false, String,
}
use scriba.Stream.{
  Stream, Parsed, Event, json, bytes, Reader, dispatch, parse_json, truncate, int_of,
  extract_content_size, with_size, is_complete, read_all, on_ready_read_helper,
}
use scriba.Stream.Packets.{int_of-small}
use scriba.Stream.Call.{got}

Option-cases : {A : Type 0} (o : Option A) → (o ≡ none) ⊎ ((a : A) × (o ≡ some a))
Option-cases none = inl refl
Option-cases (some a) = inr (a, refl)

module _ {J : Type 0} (st : Stream J) where
  -- Bytes with a packet in front whose size and 8 add up to 0 in 64 bits, and whose content, cut to
  -- that size, is no JSON that parseJson throws for.
  pub record IsEndless (x : List ℕ) : Type 0 where
    pub size : ℕ
    pub rest : List ℕ
    pub content : List ℕ
    pub after : List ℕ
    pub eight : 8 ≤ length x
    pub reads_size : st.get_size x ≡ some (size, rest)
    pub reads_content : st.get_bytes rest ≡ some (content, after)
    pub wraps : (8 + size) % 2 ^ 64 ≡ 0
    pub handed_on : st.from_json (truncate st (int_of size) content) ≢ Parsed.other

  -- The size that the reader holds is unset, or that of the packet in front.
  abbrev pub Holds : ℕ → List ℕ → Type 0
  Holds n x = (n ≡ 0) ⊎ ((rest : List ℕ) × (st.get_size x ≡ some (n, rest)))

  abbrev pub of : Reader J → List ℕ
  of r = r.received ++ r.socket

  pub dispatch-as :
      (c : List ℕ) (p : Parsed J)
      → st.from_json c ≡ p
      → ((t : String) × (dispatch st c ≡ Outcome.throws t) × (st.from_json c ≡ Parsed.other))
        ⊎ ((e : Event J) × (dispatch st c ≡ ok e) × (st.from_json c ≢ Parsed.other))
  unfolding dispatch
  dispatch-as c (Parsed.object o) h = inr (json o, rw (dispatch, h) refl, λ k. ground (arith, h, k))
  dispatch-as c Parsed.other h = inl ("Invalid json received.", rw (dispatch, h) refl, h)
  dispatch-as c Parsed.failed h = inr (bytes c, rw (dispatch, h) refl, λ k. ground (arith, h, k))

  -- A packet in front whose content is handed on, and what the sum with 8 takes away.
  pub parse_json-removes :
      (x rest content after : List ℕ) (n size : ℕ) (es : List (Event J)) (e : Event J)
      → st.get_size x ≡ some (size, rest)
      → st.get_bytes rest ≡ some (content, after)
      → dispatch st (truncate st (int_of size) content) ≡ ok e
      → (8 + size) % 2 ^ 64 < 2 ^ 31
      → parse_json st (got st x n es)
        ≡ ok (some (got st (drop ((8 + size) % 2 ^ 64) x) n (es ++ e ∷ [])))
  unfolding parse_json
  parse_json-removes x rest content after n size es e a b d h =
      rw (parse_json, a, b, d, int_of-small ((8 + size) % 2 ^ 64) h) refl

  pub with_size-known :
      (x rest : List ℕ) (n size : ℕ) (es : List (Event J))
      → st.get_size x ≡ some (size, rest)
      → Holds n x
      → with_size st (got st x n es) ≡ got st x size es
  unfolding with_size extract_content_size read_all
  with_size-known x rest n size es a (inl z) = rw (z, append-nil x, a) refl
  with_size-known x rest n size es a (inr (rest', b)) = ground (arith, a, b, append-nil x)

  -- What the first round of a call does: the call ends, or is endless, or takes bytes away and goes on.
  unfoldable pub Round : Reader J → Type 0
  Round r =
      ((o : Outcome (Reader J)) × (o ≢ Outcome.out_of_fuel)
        × ((fuel : ℕ) → on_ready_read_helper st (suc fuel) r ≡ o))
      ⊎ (IsEndless (of r)
          ⊎ ((k : ℕ) × (e : Event J) × (0 < k)
              × (k ≤ length (of r))
              × ((fuel : ℕ)
                  → on_ready_read_helper st (suc fuel) r
                    ≡ on_ready_read_helper st fuel (got st (drop k (of r)) 0 (r.seen ++ e ∷ [])))))

  few_wait : (r : Reader J) → ltb (length (of r)) 8 ≡ true → Round r
  unfolding Round on_ready_read_helper read_all
  few_wait r few =
      inl
        (ok (got st (of r) r.expected r.seen), λ e. ground (arith, e), λ fuel. ground (arith, few))

  module _ (r : Reader J) (many : ltb (length (of r)) 8 ≡ false) (n : ℕ)
      (sized : with_size st (got st (of r) r.expected r.seen) ≡ got st (of r) n r.seen) where
    part_waits : is_complete st (got st (of r) n r.seen) ≡ false → Round r
    unfolding Round on_ready_read_helper read_all
    part_waits part = inl (
      ok (got st (of r) n r.seen),
      λ e. ground (arith, e),
      λ fuel. ground (arith, many, sized, part),
    )

    module _ (whole : is_complete st (got st (of r) n r.seen) ≡ true) where
      unread_waits : parse_json st (got st (of r) n r.seen) ≡ ok none → Round r
      unfolding Round on_ready_read_helper read_all
      unread_waits h = inl (
        ok (got st (of r) n r.seen),
        λ e. ground (arith, e),
        λ fuel. ground (arith, many, sized, whole, h),
      )

      packet_throws :
          (t : String) → parse_json st (got st (of r) n r.seen) ≡ Outcome.throws t → Round r
      unfolding Round on_ready_read_helper read_all
      packet_throws t h =
          inl (
            Outcome.throws t,
            λ e. ground (arith, e),
            λ fuel. ground (arith, many, sized, whole, h),
          )

      pub next_round :
          (k : ℕ) (e : Event J)
          → parse_json st (got st (of r) n r.seen)
            ≡ ok (some (got st (drop k (of r)) n (r.seen ++ e ∷ [])))
          → (fuel : ℕ)
          → on_ready_read_helper st (suc fuel) r
            ≡ on_ready_read_helper st fuel (got st (drop k (of r)) 0 (r.seen ++ e ∷ []))
      unfolding on_ready_read_helper read_all
      next_round k e h fuel = ground (arith, many, sized, whole, h)

  parse_json-unread :
      (x rest : List ℕ) (n size : ℕ) (es : List (Event J))
      → st.get_size x ≡ some (size, rest)
      → st.get_bytes rest ≡ none
      → parse_json st (got st x n es) ≡ ok none
  unfolding parse_json
  parse_json-unread x rest n size es a b = rw (parse_json, a, b) refl

  parse_json-throws :
      (x rest content after : List ℕ) (n size : ℕ) (es : List (Event J)) (t : String)
      → st.get_size x ≡ some (size, rest)
      → st.get_bytes rest ≡ some (content, after)
      → dispatch st (truncate st (int_of size) content) ≡ Outcome.throws t
      → parse_json st (got st x n es) ≡ Outcome.throws t
  unfolding parse_json
  parse_json-throws x rest content after n size es t a b d = rw (parse_json, a, b, d) refl

  complete_lem :
      (x : List ℕ) (n : ℕ) (es : List (Event J))
      → is_complete st (got st x n es) ≡ true
      → (0 < n) × ((8 + n) % 2 ^ 64 ≤ length x)
  unfolding is_complete
  complete_lem x n es h = (ground (arith, h), ground (arith, h))

  whole_packet :
      (r : Reader J) (n : ℕ) (rest : List ℕ)
      → ltb (length (of r)) 8 ≡ false
      → length (of r) < 2 ^ 31
      → with_size st (got st (of r) r.expected r.seen) ≡ got st (of r) n r.seen
      → st.get_size (of r) ≡ some (n, rest)
      → is_complete st (got st (of r) n r.seen) ≡ true
      → Round r
  unfolding Round
  whole_packet r n rest many small sized a whole = elim (Option-cases (st.get_bytes rest)) [
    | inl b ↦ unread_waits r many n sized whole (parse_json-unread (of r) rest n n r.seen a b)
    | inr ((content, after), b) ↦
        let c = truncate st (int_of n) content in
        elim (dispatch-as c (st.from_json c) refl) [
          | inl (t, d, _) ↦
              packet_throws r many n sized whole t
                (parse_json-throws (of r) rest content after n n r.seen t a b d)
          | inr (e, d, handed) ↦
              let (_, le) = complete_lem (of r) n r.seen whole in
              elim (Bool-cases ((8 + n) % 2 ^ 64 == 0)) [
                | inl z ↦ inr (
                    inl (record {
                      size = n;
                      rest = rest;
                      content = content;
                      after = after;
                      eight = ground (arith, many);
                      reads_size = a;
                      reads_content = b;
                      wraps = ground (arith, z);
                      handed_on = handed;
                    }))
                | inr p ↦ inr (
                    inr (
                      (8 + n) % 2 ^ 64,
                      e,
                      ground (arith, p),
                      le,
                      next_round r many n sized whole ((8 + n) % 2 ^ 64) e (
                          parse_json-removes (of r) rest content after n n r.seen e a b d
                            (omega (arith, le, small))),
                    ))
              ]
        ]
  ]

  unsized :
      (x : List ℕ) (n : ℕ) (es : List (Event J))
      → st.get_size x ≡ none
      → Holds n x
      → (with_size st (got st x n es) ≡ got st x 0 es) × (is_complete st (got st x 0 es) ≡ false)
  unfolding with_size extract_content_size read_all is_complete
  unsized x n es a (inl z) = (rw (z, append-nil x, a) refl, refl)
  unsized x n es a (inr (rest, b)) = absurd (ground (arith, a, b))

  pub round : (r : Reader J) → length (of r) < 2 ^ 31 → Holds r.expected (of r) → Round r
  round r small holds = elim (Bool-cases (ltb (length (of r)) 8)) [
    | inl few ↦ few_wait r few
    | inr many ↦ elim (Option-cases (st.get_size (of r))) [
      | inl a ↦
          let (sized, part) = unsized (of r) r.expected r.seen a holds in
          part_waits r many 0 sized part
      | inr ((n, rest), a) ↦
          let sized = with_size-known (of r) rest r.expected n r.seen a holds in
          elim (Bool-cases (is_complete st (got st (of r) n r.seen))) [
            | inl whole ↦ whole_packet r n rest many small sized a whole
            | inr part ↦ part_waits r many n sized part
          ]
    ]
  ]
