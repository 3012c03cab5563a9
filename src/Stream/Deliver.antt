-- ===== src/Stream/Deliver.antt =====
-- The reader against the packets that were sent: every message is handed on once, whole and in
-- order, however the stream is cut.
use mathlib.Core.List.{append_assoc, append-nil, map-append}
use scriba.Prelude.{
  ℕ, ◌<◌, ◌≡◌, refl, sym, ◌∙◌, ap, subst, List, [], ◌∷◌, ◌++◌, inl, arith, length, length-append,
  ok, map, flatten,
}
use scriba.Order.Rank.{All, All-split}
use scriba.Stream.{Stream, Event, Reader, send_byte_array, enough, read_chunks, new_reader}
use scriba.Stream.Packets.{Laws, Sendable, event_of, length-send}
use scriba.Stream.Call.{sent, Knows, Waits, Before, After, got, reads}

module _ {J : Type 0} (st : Stream J) where
  emptied :
      (r : Reader J)
      → r.socket ≡ []
      → (ys : List ℕ) → r.received ++ ys ≡ (r.received ++ r.socket) ++ ys
  emptied r s ys = ap (λ x. x ++ ys) (sym (append-nil r.received) ∙ ap (◌++◌ r.received) (sym s))

  arrives :
      (r : Reader J) (chunk ys zs : List ℕ)
      → (r.received ++ (r.socket ++ chunk)) ++ (ys ++ zs)
        ≡ (r.received ++ r.socket) ++ ((chunk ++ ys) ++ zs)
  arrives r chunk ys zs =
      ap (λ x. x ++ (ys ++ zs)) (sym (append_assoc r.received r.socket chunk))
      ∙ append_assoc (r.received ++ r.socket) chunk (ys ++ zs)
      ∙ ap (◌++◌ (r.received ++ r.socket)) (sym (append_assoc chunk ys zs))

  enough_lem : (r : Reader J) → length (r.received ++ r.socket) < enough st r
  unfolding enough
  enough_lem r = omega (arith, length-append r.received r.socket)

  -- With no byte to come and no whole packet waiting, everything is read.
  all_read :
      (xs : List ℕ) (rest : List (List ℕ))
      → xs ++ [] ≡ sent st rest
      → Waits st xs rest
      → (rest ≡ []) × (xs ≡ [])
  all_read xs [] e h = (refl, sym (append-nil xs) ∙ e)
  all_read xs (b ∷ bs) e h = absurd (
      omega (
        arith,
        h,
        ap length (sym (append-nil xs) ∙ e),
        length-append (send_byte_array st b) (sent st bs),
      ))

  as_got :
      (r : Reader J) {es : List (Event J)}
      → r.socket ≡ []
      → r.received ≡ []
      → r.expected ≡ 0
      → r.seen ≡ es
      → r ≡ got st [] 0 es
  as_got r a b c d = cc

  module _ (laws : Laws st) where
    read_chunks-reads :
        (chunks : List (List ℕ)) (r : Reader J) (future : List ℕ) (todo : List (List ℕ))
        → Before st r (flatten chunks ++ future) todo
        → r.socket ≡ []
        → Waits st r.received todo
        → All (Sendable st) todo
        → (r' : Reader J) × (bs : List (List ℕ)) × (rest : List (List ℕ)) × (todo ≡ bs ++ rest)
          × (read_chunks st r chunks ≡ ok r')
          × After st r r' future bs rest
    unfolding read_chunks
    read_chunks-reads [] r future todo before s q w = (
      r,
      [],
      todo,
      refl,
      refl,
      (s, sym (append-nil r.seen), emptied r s future ∙ before.0, before.1, q),
    )
    read_chunks-reads (chunk ∷ chunks) r future todo before s q w =
        let arrived : Reader J = record r { socket = r.socket ++ chunk } in
        let ahead = flatten chunks ++ future in
        let (r1, bs1, rest1, cut1, run1, (s1, seen1, left1, known1, waits1)) =
          reads st laws (enough st arrived) arrived ahead todo
            (arrives r chunk (flatten chunks) future ∙ before.0, before.1) w (enough_lem arrived) in
        let (r2, bs2, rest2, cut2, run2, (s2, seen2, left2, known2, waits2)) =
          read_chunks-reads chunks r1 future rest1 (sym (emptied r1 s1 ahead) ∙ left1, known1) s1
            waits1 (All-split (Sendable st) bs1 rest1 (subst (All (Sendable st)) cut1 w)).1 in
        (
          r2,
          bs1 ++ bs2,
          rest2,
          cut1 ∙ ap (◌++◌ bs1) cut2 ∙ sym (append_assoc bs1 bs2 rest2),
          rw run1 run2,
          (
            s2,
            seen2
                ∙ ap (λ l. l ++ map (event_of st) bs2) seen1
                ∙ append_assoc r.seen (map (event_of st) bs1) (map (event_of st) bs2)
                ∙ ap (◌++◌ r.seen) (sym (map-append (event_of st) bs1 bs2)),
            left2,
            known2,
            waits2,
          ),
        )

    -- Messages that are objects or no JSON at all, sent one after another, and their bytes cut into
    -- chunks in any way, up to a point anywhere in the stream: after those chunks the reader has
    -- returned from every call, and has handed on, in order and with what was sent, every message
    -- whose packet has come in whole; the bytes left are those of the next packet, which is not
    -- whole, and the size that the reader holds is unset or the one of that packet.
    pub read_chunks-prefix :
        (chunks : List (List ℕ)) (future : List ℕ) (todo : List (List ℕ))
        → flatten chunks ++ future ≡ sent st todo
        → All (Sendable st) todo
        → (r : Reader J) × (bs : List (List ℕ)) × (rest : List (List ℕ)) × (todo ≡ bs ++ rest)
          × (read_chunks st new_reader chunks ≡ ok r)
          × After st new_reader r future bs rest
    read_chunks-prefix chunks future todo e w =
        read_chunks-reads chunks new_reader future todo (e, fresh todo) refl (short todo w) w
      where
        fresh : (l : List (List ℕ)) → Knows st 0 l
        fresh [] = refl
        fresh (c ∷ cs) = inl refl

        short : (l : List (List ℕ)) → All (Sendable st) l → Waits st [] l
        short [] h = tt
        short (c ∷ cs) h = omega (arith, length-send st laws c h.0)

    -- Messages that are objects or no JSON at all arrive as they were sent, all of them, once each and
    -- in order, however the bytes are cut into chunks, and the reader is then as it was at the start.
    pub read_chunks-delivers :
        (chunks : List (List ℕ)) (bs : List (List ℕ))
        → flatten chunks ≡ sent st bs
        → All (Sendable st) bs
        → read_chunks st new_reader chunks
          ≡ ok (record { socket = []; received = []; expected = 0; seen = map (event_of st) bs })
    read_chunks-delivers chunks bs e w =
        let (r, done, rest, cut, run, (s, seen, left, known, waits)) =
          read_chunks-prefix chunks [] bs (append-nil (flatten chunks) ∙ e) w in
        let (over, none_left) = all_read r.received rest left waits in
        run
        ∙ ap ok (
            as_got r s none_left (subst (Knows st r.expected) over known) (
              seen
              ∙ ap (map (event_of st))
                  (sym (append-nil done) ∙ ap (◌++◌ done) (sym over) ∙ sym cut)))
