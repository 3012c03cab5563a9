-- ===== src/Crdt/Remote/Commute.antt =====
-- Remote insertions in two orders.
use scriba.Prelude.{
  ◌<◌, ◌≡◌, ◌≢◌, sym, ◌∙◌, ap, subst, Ordering, false, arith, length, flatten, ok, ◌>>=◌,
}
use scriba.Prelude.Int.{pos, ◌+ℤ◌}
use scriba.Order.Rank.{rank, contains, insert_sorted}
use scriba.Order.Merge.{insert_sorted_comm, contains-insert_sorted, rank-insert_sorted}
use scriba.Symbol.{Symbol, compare}
use scriba.Symbol.Compare.{symbol_order}
use scriba.Crdt.Search.Place.{IsOrdered}
use scriba.Crdt.State.{Crdt}
use scriba.Crdt.Remote.{handle_remote_insert}
use scriba.Crdt.Remote.Insert.{Covers, Inserted, handle_remote_insert-sorted}

flip-ne_eq : (s t : Symbol) → compare s t ≢ Ordering.eq → compare t s ≢ Ordering.eq
flip-ne_eq s t h e = ground (arith, symbol_order.cmp_flip t s)

Covers-Inserted :
    (c c' : Crdt) (s t : Symbol) → Inserted c s c' → Covers c.symbols t → Covers c'.symbols t
Covers-Inserted c c' s t done w = record {
  ordered = done.1;
  within =
      subst (λ xs. rank symbol_order t xs < length xs) (sym done.0)
        (rank-insert_sorted symbol_order s t (flatten c.symbols) w.within);
}

-- One insertion after another, both of which the handler carries out.
pub handle_remote_insert-twice :
    (c : Crdt) (s t : Symbol)
    → Covers c.symbols s
    → Covers c.symbols t
    → contains symbol_order s (flatten c.symbols) ≡ false
    → contains symbol_order t (flatten c.symbols) ≡ false
    → compare t s ≢ Ordering.eq
    → (c' : Crdt) × ((handle_remote_insert c s >>= λ d. handle_remote_insert d t) ≡ ok c')
      × (flatten c'.symbols
          ≡ insert_sorted symbol_order t (insert_sorted symbol_order s (flatten c.symbols)))
      × IsOrdered c'.symbols
      × (c'.size ≡ c.size +ℤ pos 1 +ℤ pos 1)
handle_remote_insert-twice c s t ws wt hs ht ne =
    let (d, run, done) = handle_remote_insert-sorted c s ws hs in
    let (d', run', done') = handle_remote_insert-sorted d t (Covers-Inserted c d s t done wt) (
      ap (contains symbol_order t) done.0
      ∙ contains-insert_sorted symbol_order s t (flatten c.symbols) ne ht) in
    (
      d',
      rw run run',
      done'.0 ∙ ap (insert_sorted symbol_order t) done.0,
      done'.1,
      done'.2 ∙ ap (λ n. n +ℤ pos 1) done.2,
    )

-- Two symbols that differ in position, neither in the document nor above its last symbol, may
-- arrive in either order: the handler returns in both, and the two documents hold the same
-- sequence of symbols, in ordered lines, with the same count.
pub handle_remote_insert_comm :
    (c : Crdt) (s t : Symbol)
    → Covers c.symbols s
    → Covers c.symbols t
    → contains symbol_order s (flatten c.symbols) ≡ false
    → contains symbol_order t (flatten c.symbols) ≡ false
    → compare s t ≢ Ordering.eq
    → (a : Crdt) × (b : Crdt) × ((handle_remote_insert c s >>= λ d. handle_remote_insert d t)
        ≡ ok a)
      × ((handle_remote_insert c t >>= λ d. handle_remote_insert d s) ≡ ok b)
      × (flatten a.symbols ≡ flatten b.symbols)
      × IsOrdered a.symbols
      × IsOrdered b.symbols
      × (a.size ≡ b.size)
handle_remote_insert_comm c s t ws wt hs ht ne =
    let (a, run, flat, ord, size) =
      handle_remote_insert-twice c s t ws wt hs ht (flip-ne_eq s t ne) in
    let (b, run', flat', ord', size') = handle_remote_insert-twice c t s wt ws ht hs ne in
    (
      a,
      b,
      run,
      run',
      flat
          ∙ insert_sorted_comm symbol_order t s (flatten c.symbols) (flip-ne_eq s t ne)
          ∙ sym flat',
      ord,
      ord',
      size ∙ sym size',
    )
