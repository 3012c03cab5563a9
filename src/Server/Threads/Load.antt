-- ===== src/Server/Threads/Load.antt =====
-- Connected workers, each with its thread, and how many are on each.
use scriba.Prelude.{
  ℕ, suc, zero, ◌+◌, ◌<◌, ◌≤◌, ◌≡◌, refl, ap, false, List, [], ◌∷◌, ◌++◌, Option, none, some, ◌==◌,
  if◌then◌else◌, length, get_elem?, set, arith,
}
use scriba.Server.Threads.{remove_all}

-- The workers that are connected, each with its thread.
abbrev pub workers : List (ℕ × ℕ) → List ℕ
workers [] = []
workers ((w, i) ∷ h) = w ∷ workers h

abbrev pub thread_of : ℕ → List (ℕ × ℕ) → Option ℕ
thread_of v [] = none
thread_of v ((w, i) ∷ h) = if w == v then some i else thread_of v h

abbrev pub leave : ℕ → List (ℕ × ℕ) → List (ℕ × ℕ)
leave v [] = []
leave v ((w, i) ∷ h) = if w == v then leave v h else (w, i) ∷ leave v h

-- How many of them are on a thread.
abbrev pub on_thread : ℕ → List (ℕ × ℕ) → ℕ
on_thread j [] = 0
on_thread j ((w, i) ∷ h) = if i == j then suc (on_thread j h) else on_thread j h

abbrev pub AllDifferent : List (ℕ × ℕ) → Type 0
AllDifferent [] = Unit
AllDifferent ((w, i) ∷ h) = (thread_of w h ≡ none) × AllDifferent h

pub workers-leave : (v : ℕ) (h : List (ℕ × ℕ)) → workers (leave v h) ≡ remove_all v (workers h)
unfolding remove_all
workers-leave v [] = refl
workers-leave v ((w, i) ∷ h) = ground (arith, workers-leave v h)

pub workers-append : (v i : ℕ) (h : List (ℕ × ℕ)) → workers (h ++ (v, i) ∷ []) ≡ workers h ++ v ∷ []
workers-append v i [] = refl
workers-append v i ((w, j) ∷ h) = ap (λ l. w ∷ l) (workers-append v i h)

leave-absent : (v : ℕ) (h : List (ℕ × ℕ)) → thread_of v h ≡ none → leave v h ≡ h
leave-absent v [] e = refl
leave-absent v ((w, i) ∷ h) e = ground (arith, e, leave-absent v h)

thread_of-leave :
    (u v : ℕ) (h : List (ℕ × ℕ)) → thread_of u h ≡ none → thread_of u (leave v h) ≡ none
thread_of-leave u v [] e = refl
thread_of-leave u v ((w, i) ∷ h) e = ground (arith, e, thread_of-leave u v h)

thread_of-append :
    (u v i : ℕ) (h : List (ℕ × ℕ))
    → thread_of u h ≡ none
    → (u == v) ≡ false
    → thread_of u (h ++ (v, i) ∷ []) ≡ none
thread_of-append u v i [] e k = ground (arith, k)
thread_of-append u v i ((w, j) ∷ h) e k = ground (arith, e, k, thread_of-append u v i h)

pub AllDifferent-leave : (v : ℕ) (h : List (ℕ × ℕ)) → AllDifferent h → AllDifferent (leave v h)
AllDifferent-leave v [] d = d
AllDifferent-leave v ((w, i) ∷ h) (e, d) =
    ground (arith, e, d, thread_of-leave w v h e, AllDifferent-leave v h d)

pub AllDifferent-append :
    (v i : ℕ) (h : List (ℕ × ℕ))
    → thread_of v h ≡ none
    → AllDifferent h
    → AllDifferent (h ++ (v, i) ∷ [])
AllDifferent-append v i [] e d = (refl, tt)
AllDifferent-append v i ((w, j) ∷ h) e (k, d) = (
  thread_of-append w v i h k (ground (arith, e)),
  AllDifferent-append v i h (ground (arith, e)) d,
)

pub on_thread-append :
    (j v i : ℕ) (h : List (ℕ × ℕ))
    → on_thread j (h ++ (v, i) ∷ []) ≡ on_thread j h + (if i == j then 1 else 0)
on_thread-append j v i [] = ground arith
on_thread-append j v i ((w, k) ∷ h) = ground (arith, on_thread-append j v i h)

pub on_thread-leave :
    (j v i : ℕ) (h : List (ℕ × ℕ))
    → AllDifferent h
    → thread_of v h ≡ some i
    → on_thread j h ≡ on_thread j (leave v h) + (if i == j then 1 else 0)
on_thread-leave j v i [] d e = cc
on_thread-leave j v i ((w, k) ∷ h) (a, d) e =
    ground (arith, e, on_thread-leave j v i h d, leave-absent v h)

abbrev pub Housed : ℕ → List (ℕ × ℕ) → Type 0
Housed n [] = Unit
Housed n ((w, i) ∷ h) = (i < n) × Housed n h

pub Housed-mono : (n m : ℕ) (h : List (ℕ × ℕ)) → n ≤ m → Housed n h → Housed m h
Housed-mono n m [] k a = a
Housed-mono n m ((w, i) ∷ h) k (r, a) = (omega arith, Housed-mono n m h k a)

pub Housed-append :
    (n v i : ℕ) (h : List (ℕ × ℕ)) → i < n → Housed n h → Housed n (h ++ (v, i) ∷ [])
Housed-append n v i [] r a = (r, tt)
Housed-append n v i ((w, j) ∷ h) r (k, a) = (k, Housed-append n v i h r a)

pub Housed-leave : (n v : ℕ) (h : List (ℕ × ℕ)) → Housed n h → Housed n (leave v h)
Housed-leave n v [] a = a
Housed-leave n v ((w, j) ∷ h) (k, a) = ground (arith, k, Housed-leave n v h a)

pub Housed-thread_of : (n v i : ℕ) (h : List (ℕ × ℕ)) → Housed n h → thread_of v h ≡ some i → i < n
Housed-thread_of n v i [] a e = absurd (ground (arith, e))
Housed-thread_of n v i ((w, j) ∷ h) (k, a) e = ground (arith, k, e, Housed-thread_of n v i h a)

pub on_thread-above : (n j : ℕ) (h : List (ℕ × ℕ)) → Housed n h → n ≤ j → on_thread j h ≡ 0
on_thread-above n j [] a k = refl
on_thread-above n j ((w, i) ∷ h) (r, a) k = ground (arith, r, k, on_thread-above n j h a k)

module _ {A : Type 0} where
  pub get_elem?-set_if :
      (l : List A) (i j : ℕ) (v : A)
      → i < length l
      → get_elem? (set l i v) j ≡ (if i == j then some v else get_elem? l j)
  get_elem?-set_if [] i j v r = absurd (omega arith)
  get_elem?-set_if (x ∷ l) zero zero v r = ground arith
  get_elem?-set_if (x ∷ l) zero (suc j) v r = ground arith
  get_elem?-set_if (x ∷ l) (suc i) zero v r = ground arith
  get_elem?-set_if (x ∷ l) (suc i) (suc j) v r =
      ground (arith, get_elem?-set_if l i j v (omega arith))

  pub get_elem?-snoc :
      (l : List A) (j : ℕ) (v : A)
      → j < suc (length l)
      → get_elem? (l ++ v ∷ []) j ≡ (if length l == j then some v else get_elem? l j)
  get_elem?-snoc [] zero v r = ground arith
  get_elem?-snoc [] (suc j) v r = absurd (omega arith)
  get_elem?-snoc (x ∷ l) zero v r = ground arith
  get_elem?-snoc (x ∷ l) (suc j) v r = ground (arith, get_elem?-snoc l j v (omega arith))
