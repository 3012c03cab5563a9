-- ===== src/Lseq/Network.antt =====
-- dispatchMessages against what each editor makes of the queue by itself.
use scriba.Prelude.{ℕ, ◌≡◌, refl, ◌∙◌, ap, List, [], ◌∷◌, ◌==◌, if◌then◌else◌, Outcome, ok, ◌>>=◌}
use scriba.Lseq.{
  Message, SharedEditor, NetworkServer, process, process_all, dispatch_queue, dispatch_messages,
}

-- The messages of a queue for one editor, which passes over its own.
unfoldable pub receive_one : Message → SharedEditor → Outcome SharedEditor
receive_one m e = if e.site_id == m.editor_id then ok e else process m e

unfoldable pub receive : List Message → SharedEditor → Outcome SharedEditor
receive [] e = ok e
receive (m ∷ q) e = receive_one m e >>= receive q

-- Each editor of a list, after the queue.
abbrev pub Received : List Message → List (ℕ × SharedEditor) → List (ℕ × SharedEditor) → Type 0
Received q [] [] = Unit
Received q ((k, e) ∷ es) ((k', e') ∷ es') = (k ≡ k') × (receive q e ≡ ok e') × Received q es es'
Received q _ _ = ⊥

bind-ok :
    {A B : Type 0} (o : Outcome A) (f : A → Outcome B) (b : B)
    → (o >>= f) ≡ ok b
    → (a : A) × (o ≡ ok a) × (f a ≡ ok b)
bind-ok (ok a) f b h = (a, refl, h)
bind-ok (Outcome.throws t) f b h = cc
bind-ok Outcome.undefined f b h = cc
bind-ok Outcome.out_of_fuel f b h = cc

-- The first message for all of them leaves what the rest of the queue needs.
Received-process_all :
    (m : Message) (q : List Message) (es es' : List (ℕ × SharedEditor))
    → Received (m ∷ q) es es'
    → (es1 : List (ℕ × SharedEditor)) × (process_all m es ≡ ok es1) × Received q es1 es'
unfolding process_all receive receive_one
Received-process_all m q [] [] r = ([], refl, tt)
Received-process_all m q [] (x ∷ es') r = absurd r
Received-process_all m q ((k, e) ∷ es) [] r = absurd r
Received-process_all m q ((k, e) ∷ es) ((k', e') ∷ es') r =
    let (e1, run, left) = bind-ok (receive_one m e) (receive q) e' r.1 in
    let (es1, runs, lefts) = Received-process_all m q es es' r.2 in
    ((k, e1) ∷ es1, rw (run, runs) refl, (r.0, left, lefts))

ok-injective : {A : Type 0} {a b : A} → ok a ≡ ok b → a ≡ b
ok-injective e = cc

Received-nil : (es es' : List (ℕ × SharedEditor)) → Received [] es es' → es ≡ es'
unfolding receive
Received-nil [] [] r = refl
Received-nil [] (x ∷ es') r = absurd r
Received-nil (x ∷ es) [] r = absurd r
Received-nil ((k, e) ∷ es) ((k', e') ∷ es') r =
    ap (λ i. (i, e) ∷ es) r.0
    ∙ ap (λ d. (k', d) ∷ es) (ok-injective r.1)
    ∙ ap (λ l. (k', e') ∷ l) (Received-nil es es' r.2)

dispatch_queue-Received :
    (q : List Message) (es es' : List (ℕ × SharedEditor))
    → Received q es es'
    → dispatch_queue q es ≡ ok es'
unfolding dispatch_queue receive
dispatch_queue-Received [] es es' r = ap ok (Received-nil es es' r)
dispatch_queue-Received (m ∷ q) es es' r =
    let (es1, run, left) = Received-process_all m q es es' r in
    rw run (dispatch_queue-Received q es1 es' left)

-- dispatchMessages goes through the queue message by message, and for each through the editors. Where
-- every editor by itself can process the queue from front to back without its own messages, the
-- queue is empty afterwards and each editor is what it makes of the queue by itself.
pub dispatch_messages-each :
    (n : NetworkServer) (es' : List (ℕ × SharedEditor))
    → Received n.queue n.editors es'
    → dispatch_messages n ≡ ok (record n { editors = es'; queue = [] })
unfolding dispatch_messages
dispatch_messages-each n es' r = rw (dispatch_queue-Received n.queue n.editors es' r) refl
