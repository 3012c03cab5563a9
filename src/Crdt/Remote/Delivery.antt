-- ===== src/Crdt/Remote/Delivery.antt =====
-- Remote insertions one after another, in any order of arrival.
use mathlib.Core.List.{Permᴰ}
use scriba.Prelude.{
  ◌≡◌, ◌≢◌, sym, ◌∙◌, ap, subst, refl, false, List, [], ◌∷◌, ℕ, suc, length, flatten, ok, arith,
  ◌>>=◌, Outcome, Ordering, ◌<◌,
}
use scriba.Prelude.Int.{int_laws, pos, ◌+ℤ◌, ℤ}
use scriba.Order.Rank.{All, rank, contains, insert_sorted}
use scriba.Order.Merge.{insert_sorted_comm, contains-insert_sorted, rank-insert_sorted}
use scriba.Symbol.{Symbol, compare}
use scriba.Symbol.Compare.{symbol_order}
use scriba.Crdt.Search.Place.{IsOrdered}
use scriba.Crdt.State.{Crdt}
use scriba.Crdt.Remote.{handle_remote_insert}
use scriba.Crdt.Remote.Insert.{handle_remote_insert-sorted}

-- The messages of insertion that reach an editor, handled one after another.
unfoldable pub deliver : Crdt → List Symbol → Outcome Crdt
deliver c [] = ok c
deliver c (s ∷ ss) = handle_remote_insert c s >>= λ d. deliver d ss

-- The reference: the symbols enter the sequence one after another.
abbrev pub insert_all : List Symbol → List Symbol → List Symbol
insert_all [] xs = xs
insert_all (s ∷ ss) xs = insert_all ss (insert_sorted symbol_order s xs)

-- A symbol that is not in a sequence, nor above its last symbol.
abbrev pub IsNew : List Symbol → Symbol → Type 0
IsNew xs s = (contains symbol_order s xs ≡ false) × (rank symbol_order s xs < length xs)

abbrev pub Differs : Symbol → Symbol → Type 0
Differs s t = compare s t ≢ Ordering.eq

-- No two symbols at one position.
abbrev pub IsDistinct : List Symbol → Type 0
IsDistinct [] = Unit
IsDistinct (s ∷ ss) = All (Differs s) ss × IsDistinct ss

flip-Differs : (s t : Symbol) → Differs s t → Differs t s
flip-Differs s t h e = ground (arith, h, e, symbol_order.cmp_flip s t)

All-Differs :
    (s : Symbol) (xs ss : List Symbol)
    → All (Differs s) ss
    → All (IsNew xs) ss
    → All (IsNew (insert_sorted symbol_order s xs)) ss
All-Differs s xs [] d n = tt
All-Differs s xs (t ∷ ss) d n = (
  (
    contains-insert_sorted symbol_order s t xs (flip-Differs s t d.0) n.0.0,
    rank-insert_sorted symbol_order s t xs n.0.1,
  ),
  All-Differs s xs ss d.1 n.1,
)

abbrev pub InsertedAll : Crdt → List Symbol → Crdt → Type 0
InsertedAll c ss c' =
    (flatten c'.symbols ≡ insert_all ss (flatten c.symbols))
    × IsOrdered c'.symbols
    × (c'.size ≡ c.size +ℤ pos (length ss))
    × (c'.sent ≡ c.sent)

add_zero : (a : ℤ) → a ≡ a +ℤ pos 0
add_zero a = omega int_laws

add_add : (a : ℤ) (n : ℕ) → a +ℤ pos 1 +ℤ pos n ≡ a +ℤ pos (suc n)
add_add a n = omega int_laws

-- Symbols at positions of their own, none of them in an ordered document nor above its last symbol,
-- are all taken in, whatever order they come in, and the document stays ordered.
pub deliver-inserts :
    (c : Crdt) (ss : List Symbol)
    → IsOrdered c.symbols
    → IsDistinct ss
    → All (IsNew (flatten c.symbols)) ss
    → (c' : Crdt) × (deliver c ss ≡ ok c') × InsertedAll c ss c'
unfolding deliver
deliver-inserts c [] w d n = (c, refl, (refl, w, add_zero c.size, refl))
deliver-inserts c (s ∷ ss) w d n =
    let (c1, run, done) =
      handle_remote_insert-sorted c s (record { ordered = w; within = n.0.1 }) n.0.0 in
    let (c2, run', done') = deliver-inserts c1 ss done.1 d.1 (
      subst (λ xs. All (IsNew xs) ss) (sym done.0)
        (All-Differs s (flatten c.symbols) ss d.0 n.1)) in
    (
      c2,
      rw run run',
      (
        done'.0 ∙ ap (insert_all ss) done.0,
        done'.1,
        done'.2 ∙ ap (λ n. n +ℤ pos (length ss)) done.2 ∙ add_add c.size (length ss),
        done'.3 ∙ done.3,
      ),
    )

All-perm : (P : Symbol → Type 0) {ss ts : List Symbol} → Permᴰ ss ts → All P ss → All P ts
All-perm P Permᴰ.nil h = tt
All-perm P (Permᴰ.cons e p) h = (subst P e h.0, All-perm P p h.1)
All-perm P (Permᴰ.swap e f) h = (subst P f h.1.0, (subst P e h.0, h.1.1))
All-perm P (Permᴰ.trans p q) h = All-perm P q (All-perm P p h)

IsDistinct-perm : {ss ts : List Symbol} → Permᴰ ss ts → IsDistinct ss → IsDistinct ts
IsDistinct-perm Permᴰ.nil d = tt
IsDistinct-perm (Permᴰ.cons {l₂ = ts} e p) d =
    (subst (λ s. All (Differs s) ts) e (All-perm (Differs _) p d.0), IsDistinct-perm p d.1)
IsDistinct-perm (Permᴰ.swap {a} {b} {l = l} e f) d = (
  (
    subst (Differs _) e (subst (λ t. Differs t a) f (flip-Differs a b d.0.0)),
    subst (λ s. All (Differs s) l) f d.1.0,
  ),
  (subst (λ s. All (Differs s) l) e d.0.1, d.1.1),
)
IsDistinct-perm (Permᴰ.trans p q) d = IsDistinct-perm q (IsDistinct-perm p d)

insert_all-perm :
    {ss ts : List Symbol} (xs : List Symbol)
    → Permᴰ ss ts
    → IsDistinct ss
    → insert_all ss xs ≡ insert_all ts xs
insert_all-perm xs Permᴰ.nil d = refl
insert_all-perm xs (Permᴰ.cons {a} {l₂ = ts} e p) d =
    insert_all-perm (insert_sorted symbol_order a xs) p d.1
    ∙ ap (λ s. insert_all ts (insert_sorted symbol_order s xs)) e
insert_all-perm xs (Permᴰ.swap {a} {b} {a'} {b'} {l} e f) d =
    ap (insert_all l) (insert_sorted_comm symbol_order b a xs (flip-Differs a b d.0.0))
    ∙ ap (λ s. insert_all l (insert_sorted symbol_order s (insert_sorted symbol_order b xs))) e
    ∙ ap (λ s. insert_all l (insert_sorted symbol_order b' (insert_sorted symbol_order s xs))) f
insert_all-perm xs (Permᴰ.trans p q) d =
    insert_all-perm xs p d ∙ insert_all-perm xs q (IsDistinct-perm p d)

length-perm : {ss ts : List Symbol} → Permᴰ ss ts → length ss ≡ length ts
length-perm Permᴰ.nil = refl
length-perm (Permᴰ.cons e p) = ap suc (length-perm p)
length-perm (Permᴰ.swap e f) = refl
length-perm (Permᴰ.trans p q) = length-perm p ∙ length-perm q

-- The order in which insertions arrive does not matter: symbols at positions of their own, none of
-- them in an ordered document nor above its last symbol, handled in one order and in any
-- rearrangement of it, are taken in both times, and the two documents hold the same sequence of
-- symbols, in ordered lines, with the same count.
pub deliver-perm :
    (c : Crdt) (ss ts : List Symbol)
    → Permᴰ ss ts
    → IsOrdered c.symbols
    → IsDistinct ss
    → All (IsNew (flatten c.symbols)) ss
    → (a : Crdt) × (b : Crdt) × (deliver c ss ≡ ok a)
      × (deliver c ts ≡ ok b)
      × (flatten a.symbols ≡ flatten b.symbols)
      × IsOrdered a.symbols
      × IsOrdered b.symbols
      × (a.size ≡ b.size)
deliver-perm c ss ts p w d n =
    let (a, run, done) = deliver-inserts c ss w d n in
    let (b, run', done') =
      deliver-inserts c ts w (IsDistinct-perm p d) (All-perm (IsNew (flatten c.symbols)) p n) in
    (
      a,
      b,
      run,
      run',
      done.0 ∙ insert_all-perm (flatten c.symbols) p d ∙ sym done'.0,
      done.1,
      done'.1,
      done.2 ∙ ap (λ n. c.size +ℤ pos n) (length-perm p) ∙ sym done'.2,
    )
