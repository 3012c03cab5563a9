-- ===== src/Server/Rooms.antt =====
-- Who is sent what: broadcasts within a file's room, and leaving it.
use Prim.Native.String.{String}
use mathlib.Core.List.{append_assoc, append-nil}
use scriba.Prelude.{
  ℕ, zero, suc, ◌≡◌, inl, inr, Bool-cases, refl, sym, ◌∙◌, ap, List, [], ◌∷◌, ◌++◌, none, some,
  arith, true, false, if◌then◌else◌, ◌==◌, Outcome, ok, ◌>>=◌, defined, undefined,
}
use scriba.Qt.{find}
use scriba.Server.{Server, Packet, send_packet, send_others, broadcast}

-- The clients other than the sender, each with the packet.
abbrev pub sends : ℕ → Packet → List ℕ → List (ℕ × Packet)
sends exclude p [] = []
sends exclude p (w ∷ ws) = if w == exclude then sends exclude p ws else (w, p) ∷ sends exclude p ws

send_others-outbox :
    (exclude : ℕ) (p : Packet) (ws : List ℕ) (s : Server)
    → send_others exclude p ws s ≡ record s { outbox = s.outbox ++ sends exclude p ws }
unfolding send_others send_packet
send_others-outbox exclude p [] s = ap (λ o. record s { outbox = o }) (sym (append-nil s.outbox))
send_others-outbox exclude p (w ∷ ws) s =
    elim (w == exclude)
      as (λ b. send_others exclude p ws (if b then s else send_packet w p s) ≡ record s {
        outbox = s.outbox ++ (if b then sends exclude p ws else (w, p) ∷ sends exclude p ws);
      }) [
        | true ↦ send_others-outbox exclude p ws s
        | false ↦
            send_others-outbox exclude p ws (send_packet w p s)
            ∙ ap (λ o. record s { outbox = o })
                (append_assoc s.outbox ((w, p) ∷ []) (sends exclude p ws))
      ]

-- What a broadcast puts into the outbox; without a list for the sender's file the code reads through a
-- null pointer.
pub broadcast-outbox :
    (p : Packet) (exclude : ℕ) (s : Server)
    → broadcast p exclude s
      ≡ elim (find (s.worker exclude).filename s.map_file_workers) as (λ _. Outcome Server) [
        | none ↦ undefined
        | some ws ↦ ok (record s { outbox = s.outbox ++ sends exclude p ws })
      ]
unfolding broadcast
broadcast-outbox p exclude s =
    elim (find (s.worker exclude).filename s.map_file_workers)
      as (λ r.
        (defined r >>= λ ws. ok (send_others exclude p ws s)) ≡ elim r as (λ _. Outcome Server) [
          | none ↦ undefined
          | some ws ↦ ok (record s { outbox = s.outbox ++ sends exclude p ws })
        ]) [ none ↦ refl | some ws ↦ ap ok (send_others-outbox exclude p ws s) ]

-- How often a client stands in a list, and what it is sent in an outbox, in order.
abbrev pub times : ℕ → List ℕ → ℕ
times c [] = 0
times c (w ∷ ws) = if w == c then suc (times c ws) else times c ws

abbrev pub receives : ℕ → List (ℕ × Packet) → List Packet
receives c [] = []
receives c ((w, p) ∷ o) = if w == c then p ∷ receives c o else receives c o

abbrev pub copies : ℕ → Packet → List Packet
copies zero p = []
copies (suc n) p = p ∷ copies n p

receives-append :
    (c : ℕ) (o o' : List (ℕ × Packet)) → receives c (o ++ o') ≡ receives c o ++ receives c o'
receives-append c [] o' = refl
receives-append c ((w, p) ∷ o) o' = elim (Bool-cases (w == c)) [
  | inl t ↦ rw t (ap (◌∷◌ p) (receives-append c o o'))
  | inr f ↦ rw f (receives-append c o o')
]

receives-sends :
    (c exclude : ℕ) (p : Packet) (ws : List ℕ)
    → receives c (sends exclude p ws) ≡ (if c == exclude then [] else copies (times c ws) p)
receives-sends c exclude p [] = ground arith
receives-sends c exclude p (w ∷ ws) = elim (Bool-cases (w == exclude)) [
  | inl t ↦ elim (Bool-cases (w == c)) [
    | inl u ↦ ground (arith, t, u, receives-sends c exclude p ws)
    | inr v ↦ rw (t, v) (receives-sends c exclude p ws)
  ]
  | inr f ↦ elim (Bool-cases (w == c)) [
    | inl u ↦
        let other : (c == exclude) ≡ false = ground (arith, f, u) in
        rw (f, u, other) (ap (◌∷◌ p) (receives-sends c exclude p ws ∙ rw other refl))
    | inr v ↦ rw (f, v) (receives-sends c exclude p ws)
  ]
]

-- A broadcast to a file that has a list: the call returns; the sender is sent nothing; every other
-- client is sent the packet, after what it was sent before, as often as it stands in the file's
-- list, once if the list names it once, and not at all if it is not there; and nothing but the
-- outbox changes.
pub broadcast-receives :
    (p : Packet) (exclude : ℕ) (ws : List ℕ) (s : Server)
    → find (s.worker exclude).filename s.map_file_workers ≡ some ws
    → (s' : Server) × (broadcast p exclude s ≡ ok s')
      × ((c : ℕ)
          → receives c s'.outbox
            ≡ receives c s.outbox ++ (if c == exclude then [] else copies (times c ws) p))
      × (s' ≡ record s { outbox = s'.outbox })
broadcast-receives p exclude ws s room = (
  record s { outbox = s.outbox ++ sends exclude p ws },
  broadcast-outbox p exclude s ∙ rw room refl,
  λ c.
      receives-append c s.outbox (sends exclude p ws)
      ∙ ap (◌++◌ (receives c s.outbox)) (receives-sends c exclude p ws),
  refl,
)
