-- ===== src/Server/Threads/Counts.antt =====
-- The loads of the threads as counts of workers, after each operation.
use scriba.Prelude.{
  ℕ, suc, zero, ◌+◌, ◌<◌, ◌≤◌, ◌≡◌, refl, sym, ◌∙◌, ap, List, [], ◌∷◌, ◌++◌, some, length,
  get_elem?, set, arith,
}
use scriba.Prelude.Int.{ℤ, pos, ◌+ℤ◌, ◌-ℤ◌, pos_part, neg_part}
use scriba.Server.Threads.{least_loaded}
use scriba.Server.Threads.Load.{
  thread_of, leave, on_thread, AllDifferent, Housed, on_thread-append, on_thread-leave,
  Housed-thread_of, on_thread-above, get_elem?-set_if, get_elem?-snoc,
}
use scriba.Server.Threads.Least.{least_loaded-least}

one_more : (n : ℕ) → pos n +ℤ pos 1 ≡ pos (n + 1)
unfolding ◌+ℤ◌
one_more n = ground arith

one_less : (n : ℕ) → pos (n + 1) -ℤ pos 1 ≡ pos n
unfolding ◌-ℤ◌
one_less n = ground arith

some-injective : {a b : ℤ} → some a ≡ some b → a ≡ b
some-injective e = cc

get_elem?_bound : (l : List ℤ) (i : ℕ) (v : ℤ) → get_elem? l i ≡ some v → i < length l
get_elem?_bound [] i v e = absurd (ground (arith, e))
get_elem?_bound (x ∷ l) zero v e = omega arith
get_elem?_bound (x ∷ l) (suc i) v e = omega (arith, get_elem?_bound l i v e)

module _ (l : List ℤ) (h : List (ℕ × ℕ)) (housed : Housed (length l) h)
    (loads : (j : ℕ) → j < length l → get_elem? l j ≡ some (pos (on_thread j h))) where
  pub loads-append :
      (w j : ℕ)
      → j < suc (length l)
      → get_elem? (l ++ pos 1 ∷ []) j ≡ some (pos (on_thread j (h ++ (w, length l) ∷ [])))
  loads-append w j r = ground (
    arith,
    r,
    get_elem?-snoc l j (pos 1) r,
    on_thread-append j w (length l) h,
    on_thread-above (length l) j h housed,
    loads j,
  )

  pub loads-set :
      (w i j : ℕ)
      → i < length l
      → j < length l
      → get_elem? (set l i (pos (on_thread i h) +ℤ pos 1)) j
        ≡ some (pos (on_thread j (h ++ (w, i) ∷ [])))
  loads-set w i j r k = ground (
    arith,
    get_elem?-set_if l i j (pos (on_thread i h) +ℤ pos 1) r,
    on_thread-append j w i h,
    one_more (on_thread i h),
    loads j k,
  )

  pub loads-leave :
      (w i j : ℕ)
      → AllDifferent h
      → thread_of w h ≡ some i
      → j < length l
      → get_elem? (set l i (pos (on_thread i h) -ℤ pos 1)) j ≡ some (pos (on_thread j (leave w h)))
  loads-leave w i j d on k = ground (
    arith,
    get_elem?-set_if l i j (pos (on_thread i h) -ℤ pos 1)
        (Housed-thread_of (length l) w i h housed on),
    on_thread-leave j w i h d on,
    one_less (on_thread i (leave w h)),
    loads j k,
  )

  -- The thread that is taken when no new one may be started.
  pub least_thread :
      0 < length l
      → (i : ℕ) × (least_loaded l ≡ i)
        × (i < length l)
        × (get_elem? l i ≡ some (pos (on_thread i h)))
        × ((j : ℕ) → j < length l → on_thread i h ≤ on_thread j h)
  least_thread r =
      let (v, e, all) = least_loaded-least l r in
      let k = get_elem?_bound l (least_loaded l) v e in
      (
        least_loaded l,
        refl,
        k,
        loads (least_loaded l) k,
        λ j b. omega (
          arith,
          all j (pos (on_thread j h)) (loads j b),
          ap pos_part (some-injective (sym e ∙ loads (least_loaded l) k)),
          ap neg_part (some-injective (sym e ∙ loads (least_loaded l) k)),
        ),
      )
