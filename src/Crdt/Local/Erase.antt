-- ===== src/Crdt/Local/Erase.antt =====
-- localErase: what the document loses, and what its message makes another replica lose.
use mathlib.Core.List.{append_assoc, append-nil}
use scriba.Prelude.{
  ℕ, zero, suc, ◌+◌, ◌<◌, ◌≡◌, refl, sym, ◌∙◌, ap, subst, List, [], ◌∷◌, ◌++◌, some, none, arith,
  length, get_elem?, get_elem?_total, erase_at, flatten, ok,
}
use scriba.Prelude.Int.{ℤ, pos, ◌-ℤ◌, int_laws}
use scriba.Order.Rank.{Increasing}
use scriba.Order.Merge.{remove-Increasing}
use scriba.Order.Blocks.{NonEmpty}
use scriba.Order.Blocks.Offset.{start}
use scriba.Order.Blocks.Cut.{
  slice, without, slice-suc, without-suc, without-zero, length-erase_at, remove_at, get_elem?-lt,
}
use scriba.Symbol.{Symbol}
use scriba.Symbol.Compare.{symbol_order}
use scriba.Crdt.Search.Place.{IsOrdered}
use scriba.Crdt.Lines.Closed.{Closed, Gone, erase_local-Gone}
use scriba.Crdt.State.{Crdt, delete_symbol, many, send}
use scriba.Crdt.Local.{erase_times, local_erase_symbols}
use scriba.Crdt.Remote.{handle_remote_erase}
use scriba.Crdt.Remote.Loop.{Holds, remove_all, handle_remote_erase-removes}

-- Closed and non-empty lines, a place with a symbol, and more than `n` symbols from there on.
pub record Erases (lines : List (List Symbol)) (line index n : ℕ) : Type 0 where
  pub full : NonEmpty lines
  pub closed : Closed lines
  pub row : List Symbol
  pub at_row : get_elem? lines line ≡ some row
  pub within : index < length row
  pub more : start lines line + index + n < length (flatten lines)

-- The document without the `n` symbols from the place `k` on.
abbrev pub Shortened : Crdt → ℕ → ℕ → Crdt → Type 0
Shortened c k n c' =
    (flatten c'.symbols ≡ without k n (flatten c.symbols))
    × NonEmpty c'.symbols
    × Closed c'.symbols
    × (c'.size ≡ c.size -ℤ pos n)
    × (c'.sent ≡ c.sent)
    × (c'.site_id ≡ c.site_id)

sub_zero : (a : ℤ) → a ≡ a -ℤ pos 0
sub_zero a = omega int_laws

sub_sub : (a : ℤ) (n : ℕ) → (a -ℤ pos 1) -ℤ pos n ≡ a -ℤ pos (suc n)
sub_sub a n = omega int_laws

Erases-next :
    (lines lines' : List (List Symbol)) (line index n : ℕ) (s : Symbol)
    → Erases lines line index (suc n)
    → get_elem? (flatten lines) (start lines line + index) ≡ some s
    → Gone lines line index s lines'
    → Erases lines' line index n
Erases-next lines lines' line index n s w e (flat, full, closed, same, (l, at, h)) = record {
  full = full;
  closed = closed;
  row = l;
  at_row = at;
  within = h;
  more = omega (
    arith,
    w.more,
    same,
    ap length flat,
    length-erase_at (start lines line + index) (flatten lines)
        (get_elem?-lt (flatten lines) (start lines line + index) e),
  );
}

erase_times-Shortened :
    (n line index : ℕ) (c : Crdt) (removed : List Symbol)
    → Erases c.symbols line index n
    → (c' : Crdt) × (erase_times n line index c removed
        ≡ ok (c', removed ++ slice (start c.symbols line + index) n (flatten c.symbols)))
      × Shortened c (start c.symbols line + index) n c'
unfolding erase_times
erase_times-Shortened zero line index c removed w = (
  c,
  ap (λ l. ok (c, l)) (sym (append-nil removed)),
  (
    sym (without-zero (start c.symbols line + index) (flatten c.symbols)),
    w.full,
    w.closed,
    sub_zero c.size,
    refl,
    refl,
  ),
)
erase_times-Shortened (suc n) line index c removed w =
    let k = start c.symbols line + index in
    let xs = flatten c.symbols in
    let (s, lines', place, run, gone) =
      erase_local-Gone c.symbols line index w.row w.full w.closed w.at_row w.within
        (omega (arith, w.more)) in
    let d : Crdt = record c { symbols = lines'; size = c.size -ℤ pos 1 } in
    let (c', run', (flat, full, closed, size, sent, site)) =
      erase_times-Shortened n line index d (removed ++ s ∷ [])
        (Erases-next c.symbols lines' line index n s w place gone) in
    let at : start lines' line + index ≡ k = ap (λ i. i + index) gone.3 in
    (
      c',
      rw (run, run')
          (ap (λ l. ok (c', l))
            (append_assoc removed (s ∷ []) (slice (start lines' line + index) n (flatten lines'))
              ∙ ap (λ l. removed ++ s ∷ l)
                  (ap (λ i. slice i n (flatten lines')) at ∙ ap (slice k n) gone.0)
              ∙ ap (λ l. removed ++ l) (sym (slice-suc k n xs place)))),
      (
        flat
            ∙ ap (λ i. without i n (flatten lines')) at
            ∙ ap (without k n) gone.0
            ∙ sym (without-suc k n xs),
        full,
        closed,
        size ∙ sub_sub c.size n,
        sent,
        site,
      ),
    )

-- localErase within closed lines sends the run of symbols that it takes out.
pub local_erase_symbols-Shortened :
    (c : Crdt) (line index n : ℕ)
    → Erases c.symbols line index n
    → (c' : Crdt) × (local_erase_symbols c line index n
        ≡ ok (
            send c' (
              many delete_symbol c.site_id none
                (slice (start c.symbols line + index) n (flatten c.symbols)))))
      × Shortened c (start c.symbols line + index) n c'
unfolding local_erase_symbols
local_erase_symbols-Shortened c line index n w =
    let (c', run, short) = erase_times-Shortened n line index c [] w in
    (c', rw (run, short.5) refl, short)

-- The symbols of a run leave an increasing sequence one after another as the run does.
remove_all-slice :
    (n k : ℕ) (xs : List Symbol)
    → Increasing symbol_order xs
    → k + n < length xs
    → Holds (slice k n xs) xs × (remove_all (slice k n xs) xs ≡ without k n xs)
remove_all-slice zero k xs inc h = (tt, sym (without-zero k xs))
remove_all-slice (suc n) k xs inc h =
    let (s, e) = get_elem?_total xs k (omega (arith, h)) in
    let (c, r) = remove_at symbol_order xs k inc e in
    let (held, gone) =
      remove_all-slice n k (erase_at k xs)
        (subst (Increasing symbol_order) r (remove-Increasing symbol_order s xs inc))
        (omega (arith, h, length-erase_at k xs (omega (arith, h)))) in
    subst (λ l. Holds l xs × (remove_all l xs ≡ without k (suc n) xs)) (sym (slice-suc k n xs e))
      (
        (c, subst (Holds (slice k n (erase_at k xs))) (sym r) held),
        ap (remove_all (slice k n (erase_at k xs))) r ∙ gone ∙ sym (without-suc k n xs),
      )

-- An editor and another replica hold the same sequence of symbols, each in lines of its own, both
-- in order; in the editor's, each line but the last ends with a newline. A run of symbols that stops
-- before the last one of all is deleted at the editor, across lines or not. localErase returns and
-- hands the client one message with just these symbols in their order; the editor's sequence loses
-- them and no other, its lines are still closed, and its size is less by their number. When the other
-- replica handles the message, both hold the same sequence again, in order.
pub local_erase_symbols-converges :
    (c d : Crdt) (line index n : ℕ)
    → IsOrdered c.symbols
    → Erases c.symbols line index (suc n)
    → IsOrdered d.symbols
    → flatten d.symbols ≡ flatten c.symbols
    → (ss : List Symbol) × (c' : Crdt) × (d' : Crdt) × (ss
        ≡ slice (start c.symbols line + index) (suc n) (flatten c.symbols))
      × (local_erase_symbols c line index (suc n)
          ≡ ok (send c' (many delete_symbol c.site_id none ss)))
      × Shortened c (start c.symbols line + index) (suc n) c'
      × (handle_remote_erase d ss ≡ ok d')
      × (flatten d'.symbols ≡ flatten c'.symbols)
      × IsOrdered d'.symbols
local_erase_symbols-converges c d line index n o w ordered same =
    let k = start c.symbols line + index in
    let xs = flatten c.symbols in
    let (c', run, short) = local_erase_symbols-Shortened c line index (suc n) w in
    let (s, e) = get_elem?_total xs k (omega (arith, w.more)) in
    let (held, gone) = remove_all-slice (suc n) k xs o.increasing w.more in
    let cons = slice-suc k n xs e in
    let ss = s ∷ slice k n (erase_at k xs) in
    let (d', run', done) =
      handle_remote_erase-removes d s (slice k n (erase_at k xs)) ordered
        (subst (Holds ss) (sym same) (subst (λ l. Holds l xs) cons held)) in
    (
      ss,
      c',
      d',
      sym cons,
      run ∙ ap (λ l. ok (send c' (many delete_symbol c.site_id none l))) cons,
      short,
      run',
      done.0 ∙ ap (remove_all ss) same ∙ ap (λ l. remove_all l xs) (sym cons) ∙ gone ∙ sym short.0,
      done.1,
    )
