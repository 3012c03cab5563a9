-- ===== src/Server/Threads/Runs.antt =====
-- Runs of connections that come and go, and the load of each thread.
use scriba.Prelude.{
  ℕ, ◌<◌, ◌≤◌, ◌≡◌, sym, ◌∙◌, ap, subst, true, List, [], ◌∷◌, ◌++◌, Option, none, some, ltb,
  Bool-cases, inl, inr, length, length-append, length-set, get_elem?, set, Outcome, ok, arith,
}
use scriba.Prelude.Int.{pos, ◌+ℤ◌, ◌-ℤ◌}
use scriba.Server.{Server}
use scriba.Server.Threads.{incoming_connection, leave_thread, remove_all}
use scriba.Server.Threads.Load.{
  workers, thread_of, leave, on_thread, AllDifferent, Housed, workers-leave, workers-append,
  AllDifferent-leave, AllDifferent-append, Housed-mono, Housed-append, Housed-leave,
  Housed-thread_of, on_thread-above,
}
use scriba.Server.Threads.Counts.{loads-append, loads-set, loads-leave, least_thread}

-- The load of a thread is the number of workers on it, each is there once, and no more threads run
-- than the machine is to have.
pub record IsLoaded (s : Server) (h : List (ℕ × ℕ)) : Type 0 where
  pub clients : s.clients ≡ workers h
  pub different : AllDifferent h
  pub housed : Housed (length s.threads_load) h
  pub loads :
      (j : ℕ) → j < length s.threads_load → get_elem? s.threads_load j ≡ some (pos (on_thread j h))
  pub few : length s.threads_load ≤ s.ideal_thread_count
  pub one : 1 ≤ s.ideal_thread_count

-- On a server whose loads are right, a connection that is accepted, with a worker that is not
-- connected yet, always gets a thread: of the threads that then run none had fewer workers before.
-- With the worker on that thread the loads are right again.
pub incoming_connection-IsLoaded :
    (w : ℕ) (s : Server) (h : List (ℕ × ℕ))
    → IsLoaded s h
    → thread_of w h ≡ none
    → (i : ℕ) × (s' : Server) × (incoming_connection true w s ≡ ok (some i, s'))
      × IsLoaded s' (h ++ (w, i) ∷ [])
      × ((j : ℕ) → j < length s'.threads_load → on_thread i h ≤ on_thread j h)
unfolding incoming_connection
incoming_connection-IsLoaded w s h a fresh =
    elim (Bool-cases (ltb (length s.threads_load) s.ideal_thread_count)) [
      | inl t ↦
          let n = length s.threads_load in
          (
            n,
            record s { threads_load = s.threads_load ++ pos 1 ∷ []; clients = s.clients ++ w ∷ [] },
            ground (arith, t),
            record {
              clients = ap (λ l. l ++ w ∷ []) a.clients ∙ sym (workers-append w n h);
              different = AllDifferent-append w n h fresh a.different;
              housed =
                  Housed-append (length (s.threads_load ++ pos 1 ∷ [])) w n h
                    (omega (arith, length-append s.threads_load (pos 1 ∷ [])))
                    (Housed-mono n (length (s.threads_load ++ pos 1 ∷ [])) h
                      (omega (arith, length-append s.threads_load (pos 1 ∷ []))) a.housed);
              loads = λ j r.
                  loads-append s.threads_load h a.housed a.loads w j
                    (omega (arith, r, length-append s.threads_load (pos 1 ∷ [])));
              few = ground (arith, t, length-append s.threads_load (pos 1 ∷ []));
              one = a.one;
            },
            λ j r. omega (arith, on_thread-above n n h a.housed (omega arith)),
          )
      | inr f ↦
          let l = s.threads_load in
          let (i, at, r, e, all) = least_thread l h a.housed a.loads (ground (arith, f, a.one)) in
          let size = length-set l i (pos (on_thread i h) +ℤ pos 1) in
          (
            i,
            record s {
              threads_load = set l i (pos (on_thread i h) +ℤ pos 1);
              clients = s.clients ++ w ∷ [];
            },
            ground (arith, f, at, e),
            record {
              clients = ap (λ l. l ++ w ∷ []) a.clients ∙ sym (workers-append w i h);
              different = AllDifferent-append w i h fresh a.different;
              housed =
                  subst (λ n. Housed n (h ++ (w, i) ∷ [])) (sym size)
                    (Housed-append (length l) w i h r a.housed);
              loads = λ j k. loads-set l h a.housed a.loads w i j r (omega (arith, k, size));
              few = omega (arith, size, a.few);
              one = a.one;
            },
            λ j k. all j (omega (arith, k, size)),
          )
    ]

-- A worker that leaves, with the thread that it is on, leaves right loads.
pub leave_thread-IsLoaded :
    (w i : ℕ) (s : Server) (h : List (ℕ × ℕ))
    → IsLoaded s h
    → thread_of w h ≡ some i
    → (s' : Server) × (leave_thread w i s ≡ ok s') × IsLoaded s' (leave w h)
unfolding leave_thread
leave_thread-IsLoaded w i s h a on =
    let l = s.threads_load in
    let r = Housed-thread_of (length l) w i h a.housed on in
    let size = length-set l i (pos (on_thread i h) -ℤ pos 1) in
    (
      record s {
        threads_load = set l i (pos (on_thread i h) -ℤ pos 1);
        clients = remove_all w s.clients;
      },
      ground (arith, a.loads i r),
      record {
        clients = ap (remove_all w) a.clients ∙ sym (workers-leave w h);
        different = AllDifferent-leave w h a.different;
        housed =
            subst (λ n. Housed n (leave w h)) (sym size) (Housed-leave (length l) w h a.housed);
        loads =
            λ j k. loads-leave l h a.housed a.loads w i j a.different on (omega (arith, k, size));
        few = omega (arith, size, a.few);
        one = a.one;
      },
    )

-- What the server comes to from its constructor, which wants at least one thread, with the workers
-- that are connected: a connection of a new worker, the leaving of one that is there, with its
-- thread, or anything else that leaves the threads and the clients alone.
pub data Reach : Server → List (ℕ × ℕ) → Type 0 where
  constructed :
      (s : Server) → s.threads_load ≡ [] → s.clients ≡ [] → 1 ≤ s.ideal_thread_count → Reach s []
  connected :
      {s s' : Server} {h : List (ℕ × ℕ)} (w i : ℕ)
      → Reach s h
      → thread_of w h ≡ none
      → incoming_connection true w s ≡ ok (some i, s')
      → Reach s' (h ++ (w, i) ∷ [])
  disconnected :
      {s s' : Server} {h : List (ℕ × ℕ)} (w i : ℕ)
      → Reach s h
      → thread_of w h ≡ some i
      → leave_thread w i s ≡ ok s'
      → Reach s' (leave w h)
  elsewhere :
      {s s' : Server} {h : List (ℕ × ℕ)}
      → Reach s h
      → s'.threads_load ≡ s.threads_load
      → s'.clients ≡ s.clients
      → s'.ideal_thread_count ≡ s.ideal_thread_count
      → Reach s' h

chosen :
    {i j : ℕ} {s t : Server}
    → ◌≡◌ {A = Outcome (Option ℕ × Server)} (ok (some i, s)) (ok (some j, t))
    → (i ≡ j) × (s ≡ t)
chosen e = (cc, cc)

after : {s t : Server} → ok s ≡ ok t → s ≡ t
after e = cc

-- Whatever connections come and go, with anything between that leaves the threads and the clients
-- alone: the clients are the connected workers in the order in which they came, the load of each
-- thread is the number of workers on it, each worker's thread is running, and there are at most as
-- many threads as wanted.
pub Reach-IsLoaded : {s : Server} {h : List (ℕ × ℕ)} → Reach s h → IsLoaded s h
Reach-IsLoaded (constructed s l c n) = record {
  clients = c;
  different = tt;
  housed = tt;
  loads = λ j r. absurd (ground (arith, l, r));
  few = ground (arith, l);
  one = n;
}
Reach-IsLoaded (connected {s} {s'} {h} w i r fresh run) =
    let (k, t, run', a, least) = incoming_connection-IsLoaded w s h (Reach-IsLoaded r) fresh in
    let (p, q) = chosen (sym run' ∙ run) in
    subst (λ t. IsLoaded t (h ++ (w, i) ∷ [])) q (subst (λ k. IsLoaded t (h ++ (w, k) ∷ [])) p a)
Reach-IsLoaded (disconnected {s} {s'} {h} w i r on run) =
    let (t, run', a) = leave_thread-IsLoaded w i s h (Reach-IsLoaded r) on in
    subst (λ t. IsLoaded t (leave w h)) (after (sym run' ∙ run)) a
Reach-IsLoaded (elsewhere {s} {s'} {h} r l c n) =
    let a = Reach-IsLoaded r in
    record {
      clients = c ∙ a.clients;
      different = a.different;
      housed = subst (λ l. Housed (length l) h) (sym l) a.housed;
      loads =
          subst (λ l. (j : ℕ) → j < length l → get_elem? l j ≡ some (pos (on_thread j h))) (sym l)
            a.loads;
      few = ground (arith, l, n, a.few);
      one = ground (arith, n, a.one);
    }
