-- ===== src/Stream/Returns.antt =====
-- Whether onReadyRead_helper returns, on any bytes and whatever QDataStream and the JSON parser make
-- of them.
use mathlib.Core.List.{append-nil}
use scriba.Prelude.{
  ℕ, zero, suc, ◌+◌, ◌%◌, ◌^◌, ◌<◌, ◌≤◌, ◌≡◌, ◌≢◌, refl, sym, ◌∙◌, ap, subst, List, [], ◌∷◌, ◌++◌,
  some, ltb, ◌⊎◌, inl, inr, arith, length, drop, length-append, length-drop, Outcome, ok, true,
  false,
}
use scriba.Stream.{
  Stream, Event, Reader, truncate, int_of, is_complete, on_ready_read_helper, enough,
}
use scriba.Stream.Call.{got}
use scriba.Stream.Round.{
  IsEndless, Holds, of, dispatch-as, parse_json-removes, with_size-known, Round, next_round, round,
}

drop-nil : (n : ℕ) → drop {A = ℕ} n [] ≡ []
drop-nil zero = refl
drop-nil (suc n) = refl

drop-drop : (j k : ℕ) (x : List ℕ) → drop j (drop k x) ≡ drop (k + j) x
drop-drop j zero x = ap (λ i. drop i x) (omega arith)
drop-drop j (suc k) [] = drop-nil j ∙ sym (drop-nil (suc k + j))
drop-drop j (suc k) (a ∷ x) =
    let both : suc (k + j) ≡ suc k + j = omega arith in
    drop-drop j k x ∙ ap (λ i. drop i (a ∷ x)) both

module _ {J : Type 0} (st : Stream J) where
  eight_not_few : (x : List ℕ) → 8 ≤ length x → ltb (length x) 8 ≡ false
  eight_not_few x h = ground (arith, h)

  zero_complete :
      (x : List ℕ) (n : ℕ) (es : List (Event J))
      → (8 + n) % 2 ^ 64 ≡ 0
      → is_complete st (got st x n es) ≡ true
  unfolding is_complete
  zero_complete x n es h = ground (arith, h)

  -- At such bytes each round leaves them as they are, whatever the fuel.
  loops :
      (fuel : ℕ) (r : Reader J)
      → IsEndless st (of st r)
      → Holds st r.expected (of st r)
      → on_ready_read_helper st fuel r ≡ Outcome.out_of_fuel
  unfolding on_ready_read_helper
  loops zero r w holds = refl
  loops (suc fuel) r w holds =
      let x = of st r in
      let sized = with_size-known st x w.rest r.expected w.size r.seen w.reads_size holds in
      let c = truncate st (int_of w.size) w.content in
      elim (dispatch-as st c (st.from_json c) refl) [
        | inl (t, d, o) ↦ absurd (w.handed_on o)
        | inr (e, d, _) ↦
            next_round st r (eight_not_few x w.eight) w.size sized
              (zero_complete x w.size r.seen w.wraps) 0 e
              (parse_json-removes st x w.rest w.content w.after w.size w.size r.seen e w.reads_size
                  w.reads_content d (omega (arith, w.wraps))
                ∙ ap (λ k. ok (some (got st (drop k x) w.size (r.seen ++ e ∷ [])))) w.wraps)
              fuel
            ∙ loops fuel (got st x 0 (r.seen ++ e ∷ []))
                (subst (IsEndless st) (sym (append-nil x)) w) (inl refl)
      ]

  never-next :
      (r r' : Reader J)
      → ((fuel : ℕ) → on_ready_read_helper st (suc fuel) r ≡ on_ready_read_helper st fuel r')
      → ((fuel : ℕ) → on_ready_read_helper st fuel r' ≡ Outcome.out_of_fuel)
      → (fuel : ℕ) → on_ready_read_helper st fuel r ≡ Outcome.out_of_fuel
  unfolding on_ready_read_helper
  never-next r r' run h zero = refl
  never-next r r' run h (suc fuel) = run fuel ∙ h fuel

  ends :
      (fuel : ℕ) (r : Reader J)
      → length (of st r) < fuel
      → length (of st r) < 2 ^ 31
      → Holds st r.expected (of st r)
      → (on_ready_read_helper st fuel r ≢ Outcome.out_of_fuel)
        ⊎ ((j : ℕ) × IsEndless st (drop j (of st r))
            × ((fuel' : ℕ) → on_ready_read_helper st fuel' r ≡ Outcome.out_of_fuel))
  unfolding Round
  ends zero r h small holds = elim h [ ]
  ends (suc fuel) r h small holds = elim (round st r small holds) [
    | inl (o, returns, run) ↦ inl (λ e. returns (sym (run fuel) ∙ e))
    | inr (inl w) ↦ inr (0, w, λ f. loops f r w holds)
    | inr (inr (k, e, some_bytes, le, run)) ↦
        let r' : Reader J = got st (drop k (of st r)) 0 (r.seen ++ e ∷ []) in
        let left = append-nil (drop k (of st r)) in
        let count = ap length left ∙ length-drop k (of st r) in
        elim (ends fuel r' (omega (arith, count, some_bytes, le, h)) (omega (arith, count, small))
          (inl refl)) [
            | inl returns ↦ inl (λ q. returns (sym (run fuel) ∙ q))
            | inr (j, w, l) ↦ inr (
              k + j,
              subst (IsEndless st) (ap (drop j) left ∙ drop-drop j k (of st r)) w,
              never-next r r' run l,
            )
          ]
  ]

  -- The bytes that a reader holds and those in its socket are so few that an int counts them, and the
  -- size that it holds is unset or that of the packet in front. A call ends, within as many rounds
  -- as there are bytes and one more; or no number of rounds is enough, and then the packet at some
  -- place of the bytes is one as `IsEndless` says, whose size and 8 add up to 0 in 64 bits.
  pub on_ready_read_helper-returns :
      (r : Reader J)
      → length (r.received ++ r.socket) < 2 ^ 31
      → Holds st r.expected (r.received ++ r.socket)
      → (on_ready_read_helper st (enough st r) r ≢ Outcome.out_of_fuel)
        ⊎ ((j : ℕ) × IsEndless st (drop j (r.received ++ r.socket))
            × ((fuel : ℕ) → on_ready_read_helper st fuel r ≡ Outcome.out_of_fuel))
  unfolding enough
  on_ready_read_helper-returns r =
      ends (enough st r) r (omega (arith, length-append r.received r.socket))
