-- ===== src/Stream/Call.antt =====
-- One call of onReadyRead_helper, when packets stand before the bytes that it reads.
use mathlib.Core.List.{append_assoc, append-nil}
use scriba.Prelude.{
  ℕ, zero, suc, ◌+◌, ◌<◌, ◌≤◌, ◌≡◌, refl, sym, ◌∙◌, ap, false, List, [], ◌∷◌, ◌++◌, ◌==◌, ltb, leb,
  ◌⊎◌, inl, inr, arith, length, length-append, ok, map, Bool-cases,
}
use scriba.Order.Rank.{All}
use scriba.Stream.{
  Stream, Event, Reader, serialize_size, send_byte_array, extract_content_size, with_size,
  is_complete, read_all, on_ready_read_helper,
}
use scriba.Stream.Packets.{Laws, Sendable, event_of, length-send, get_size-front, parse_json-front}

module _ {J : Type 0} (st : Stream J) where
  -- The bytes of messages sent one after another.
  abbrev pub sent : List (List ℕ) → List ℕ
  sent [] = []
  sent (b ∷ bs) = send_byte_array st b ++ sent bs

  -- The size that the reader holds is unset or that of the next packet.
  abbrev pub Knows : ℕ → List (List ℕ) → Type 0
  Knows n [] = n ≡ 0
  Knows n (b ∷ bs) = (n ≡ 0) ⊎ (n ≡ serialize_size st b)

  -- No whole packet waits.
  abbrev pub Waits : List ℕ → List (List ℕ) → Type 0
  Waits xs [] = Unit
  Waits xs (b ∷ bs) = length xs < length (send_byte_array st b)

  -- A reader before whose bytes and those of `future` the packets of `todo` stand.
  abbrev pub Before : Reader J → List ℕ → List (List ℕ) → Type 0
  Before r future todo = ((r.received ++ r.socket) ++ future ≡ sent todo) × Knows r.expected todo

  -- What a call leaves: the messages `bs` handed on, and no whole packet of the others.
  abbrev pub After : Reader J → Reader J → List ℕ → List (List ℕ) → List (List ℕ) → Type 0
  After r r' future bs rest =
      (r'.socket ≡ [])
      × (r'.seen ≡ r.seen ++ map (event_of st) bs)
      × (r'.received ++ future ≡ sent rest)
      × Knows r'.expected rest
      × Waits r'.received rest

  -- A reader that has emptied its socket.
  abbrev pub got : List ℕ → ℕ → List (Event J) → Reader J
  got xs n es = record { socket = []; received = xs; expected = n; seen = es }

  serialize_size_pos : (laws : Laws st) (b : List ℕ) → (serialize_size st b == 0) ≡ false
  unfolding serialize_size
  serialize_size_pos laws b = ground (arith, laws.length-put_bytes b)

  with_size-knows :
      (laws : Laws st) (b : List ℕ) (w : Sendable st b) (xs : List ℕ) (n : ℕ) (es : List (Event J))
      (ys rest : List ℕ)
      → xs ++ ys ≡ send_byte_array st b ++ rest
      → 8 ≤ length xs
      → (n ≡ 0) ⊎ (n ≡ serialize_size st b)
      → with_size st (got xs n es) ≡ got xs (serialize_size st b) es
  unfolding with_size extract_content_size read_all
  with_size-knows laws b w xs n es ys rest e h (inl z) =
      let (_, _, _, size) = get_size-front st laws b w xs ys rest e h in
      rw (z, append-nil xs, size) refl
  with_size-knows laws b w xs n es ys rest e h (inr k) = rw (k, serialize_size_pos laws b) refl

  is_complete-whole :
      (b : List ℕ) (w : Sendable st b) (laws : Laws st) (xs : List ℕ) (es : List (Event J))
      → is_complete st (got xs (serialize_size st b) es)
        ≡ leb (8 + length (st.put_bytes b)) (length xs)
  unfolding is_complete serialize_size
  is_complete-whole b w laws xs es = ground (arith, laws.length-put_bytes b, w.short)

  -- Fewer than eight bytes: the call only takes them in.
  helper_few :
      (fuel : ℕ) (r : Reader J)
      → length (r.received ++ r.socket) < 8
      → on_ready_read_helper st (suc fuel) r ≡ ok (got (r.received ++ r.socket) r.expected r.seen)
  unfolding on_ready_read_helper read_all
  helper_few fuel r h = ground (arith, h)

  module _ (laws : Laws st) (b : List ℕ) (w : Sendable st b) (rest : List ℕ) (r : Reader J)
      (future : List ℕ) (e : (r.received ++ r.socket) ++ future ≡ send_byte_array st b ++ rest)
      (k : (r.expected ≡ 0) ⊎ (r.expected ≡ serialize_size st b)) where
    -- A packet that is not whole yet: the call reads its size, and waits.
    helper_partial :
        (fuel : ℕ)
        → 8 ≤ length (r.received ++ r.socket)
        → length (r.received ++ r.socket) < 8 + length (st.put_bytes b)
        → on_ready_read_helper st (suc fuel) r
          ≡ ok (got (r.received ++ r.socket) (serialize_size st b) r.seen)
    unfolding on_ready_read_helper read_all
    helper_partial fuel h p = ground (
      arith,
      h,
      p,
      with_size-knows laws b w (r.received ++ r.socket) r.expected r.seen future rest e h k,
      is_complete-whole b w laws (r.received ++ r.socket) r.seen,
    )

    -- A whole packet: its message is handed on, and the call goes on with what follows.
    helper_whole :
        (fuel : ℕ)
        → 8 + length (st.put_bytes b) ≤ length (r.received ++ r.socket)
        → (m : List ℕ) × (m ++ future ≡ rest)
          × (length (r.received ++ r.socket) ≡ 8 + length (st.put_bytes b) + length m)
          × (on_ready_read_helper st (suc fuel) r
              ≡ on_ready_read_helper st fuel (got m 0 (r.seen ++ event_of st b ∷ [])))
    unfolding on_ready_read_helper read_all
    helper_whole fuel h =
        let x = r.received ++ r.socket in
        let (m, f, count, run) =
          parse_json-front st laws b w (got x (serialize_size st b) r.seen) future rest e h in
        (
          m,
          f,
          count,
          ground (
            arith,
            h,
            with_size-knows laws b w x r.expected r.seen future rest e (omega (arith, h)) k,
            is_complete-whole b w laws x r.seen,
            run,
          ),
        )

  module _ (laws : Laws st) where
    pub reads :
        (fuel : ℕ) (r : Reader J) (future : List ℕ) (todo : List (List ℕ))
        → Before r future todo
        → All (Sendable st) todo
        → length (r.received ++ r.socket) < fuel
        → (r' : Reader J) × (bs : List (List ℕ)) × (rest : List (List ℕ)) × (todo ≡ bs ++ rest)
          × (on_ready_read_helper st fuel r ≡ ok r')
          × After r r' future bs rest
    reads zero r future todo before w h = elim h [ ]
    reads (suc fuel) r future [] before w h =
        let count = length-append (r.received ++ r.socket) future ∙ refl in
        let none_left : length ((r.received ++ r.socket) ++ future) ≡ 0 = ap length before.0 in
        (
          got (r.received ++ r.socket) r.expected r.seen,
          [],
          [],
          refl,
          helper_few fuel r (omega (arith, none_left, count)),
          (refl, sym (append-nil r.seen), before.0, before.1, tt),
        )
    reads (suc fuel) r future (b ∷ bs) before w h =
        elim (Bool-cases (ltb (length (r.received ++ r.socket)) 8)) [
          | inl few ↦ (
            got (r.received ++ r.socket) r.expected r.seen,
            [],
            b ∷ bs,
            refl,
            helper_few fuel r (ground (arith, few)),
            (
              refl,
              sym (append-nil r.seen),
              before.0,
              before.1,
              ground (arith, few, length-send st laws b w.0),
            ),
          )
          | inr many ↦
              elim (Bool-cases
                (leb (8 + length (st.put_bytes b)) (length (r.received ++ r.socket)))) [
                  | inl whole ↦
                      let (m, f, count, run) =
                        helper_whole laws b w.0 (sent bs) r future before.0 before.1 fuel
                          (ground (arith, whole)) in
                      let next : Reader J = got m 0 (r.seen ++ event_of st b ∷ []) in
                      let (r', done, rest, cut, run', (s, seen, left, known, waits)) =
                        reads fuel next future bs
                          (ap (λ x. x ++ future) (append-nil m) ∙ f, knows_none bs) w.1
                          (omega (arith, ap length (append-nil m), count, h)) in
                      (
                        r',
                        b ∷ done,
                        rest,
                        ap (◌∷◌ b) cut,
                        run ∙ run',
                        (
                          s,
                          seen ∙ append_assoc r.seen (event_of st b ∷ []) (map (event_of st) done),
                          left,
                          known,
                          waits,
                        ),
                      )
                  | inr part ↦ (
                    got (r.received ++ r.socket) (serialize_size st b) r.seen,
                    [],
                    b ∷ bs,
                    refl,
                    helper_partial laws b w.0 (sent bs) r future before.0 before.1 fuel
                        (ground (arith, many)) (ground (arith, part)),
                    (
                      refl,
                      sym (append-nil r.seen),
                      before.0,
                      inr refl,
                      ground (arith, part, length-send st laws b w.0),
                    ),
                  )
                ]
        ]
      where
        knows_none : (l : List (List ℕ)) → Knows 0 l
        knows_none [] = refl
        knows_none (c ∷ cs) = inl refl
