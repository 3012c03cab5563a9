-- ===== src/Crdt/Converge.antt =====
-- Two replicas: an operation at one editor and the message that it sends, handled at another.
use scriba.Prelude.{
  ℕ, ◌+◌, ◌<◌, ◌≡◌, sym, ◌∙◌, ap, subst, Bool, false, some, String, length, flatten, ok, arith,
}
use scriba.Prelude.Int.{pos, ◌+ℤ◌, ◌-ℤ◌}
use scriba.Order.Rank.{rank, contains, insert_sorted, remove}
use scriba.Order.Merge.{remove-insert_sorted}
use scriba.Order.Blocks.Offset.{start}
use scriba.Symbol.{Symbol, SymbolFormat, Font}
use scriba.Symbol.Compare.{symbol_order}
use scriba.Crdt.Search.Place.{IsOrdered}
use scriba.Crdt.State.{Crdt, insert_symbol, one, send}
use scriba.Crdt.Remote.{handle_remote_insert, erase_one}
use scriba.Crdt.Remote.Insert.{Covers, handle_remote_insert-sorted}
use scriba.Crdt.Remote.Erase.{erase_one-remove}
use scriba.Crdt.Local.{AlignFlags, local_insert}
use scriba.Crdt.Local.Insert.{Inserts, InsertedAt, local_insert-InsertedAt}

-- Two replicas hold the same sequence of symbols, the second in lines of its own. A character
-- inserted at the first, in a state as `Inserts` describes and not past the last symbol, is sent as
-- one symbol; when the second handles it, both hold the same sequence again, in which the symbol
-- stands at the place where the editor put it.
pub local_insert-converges :
    (coin : ℕ → Bool) (rand : ℕ → ℕ) (raw : SymbolFormat) (q : AlignFlags) (c d : Crdt)
    (line index value : ℕ) (font : Font) (color : String) (flags : ℕ)
    → Inserts c line index
    → start c.symbols line + index < length (flatten c.symbols)
    → IsOrdered d.symbols
    → flatten d.symbols ≡ flatten c.symbols
    → (s : Symbol) × (c' : Crdt) × (d' : Crdt) × (local_insert coin rand raw q c
          (pos line)
          (pos index)
          value
          font
          color
          flags
        ≡ ok (send c' (one insert_symbol c.site_id s)))
      × (handle_remote_insert d s ≡ ok d')
      × (flatten d'.symbols ≡ flatten c'.symbols)
      × IsOrdered d'.symbols
      × InsertedAt c (start c.symbols line + index) s c'
local_insert-converges coin rand raw q c d line index value font color flags w room ordered same =
    let (s, c', run, done) =
      local_insert-InsertedAt coin rand raw q c line index value font color flags w in
    let covers : Covers d.symbols s = record {
      ordered = ordered;
      within =
          subst (λ xs. rank symbol_order s xs < length xs) (sym same) (omega (arith, done.4, room));
    } in
    let (d', run', done') =
      handle_remote_insert-sorted d s covers (ap (contains symbol_order s) same ∙ done.3) in
    (
      s,
      c',
      d',
      run,
      run',
      done'.0 ∙ ap (insert_sorted symbol_order s) same ∙ sym done.1,
      done'.1,
      done,
    )

-- A symbol that the handler of insertions has put into a document, and that was not there before,
-- is found and taken out again by the handler of erasures: the sequence is what it was.
pub handle_remote_insert-erase :
    (c : Crdt) (s : Symbol)
    → Covers c.symbols s
    → contains symbol_order s (flatten c.symbols) ≡ false
    → (c' : Crdt) × (place : ℕ × ℕ) × (c'' : Crdt) × (handle_remote_insert c s ≡ ok c')
      × (erase_one c' s ≡ ok (some (place, c'')))
      × (flatten c''.symbols ≡ flatten c.symbols)
      × (c''.size ≡ c.size +ℤ pos 1 -ℤ pos 1)
handle_remote_insert-erase c s w fresh =
    let (c', run, done) = handle_remote_insert-sorted c s w fresh in
    let (there, back) = remove-insert_sorted symbol_order s (flatten c.symbols) fresh in
    let (place, c'', run', gone) =
      erase_one-remove c' s done.1 (ap (contains symbol_order s) done.0 ∙ there) in
    (
      c',
      place,
      c'',
      run,
      run',
      gone.0 ∙ ap (remove symbol_order s) done.0 ∙ back,
      gone.2 ∙ ap (λ n. n -ℤ pos 1) done.2,
    )
