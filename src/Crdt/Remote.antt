-- ===== src/Crdt/Remote.antt =====
-- The handlers of remote operations. A local variable read while unset is `undefined`.
pub mod Insert
pub mod Commute
pub mod Erase
pub mod Loop
pub mod Delivery
pub mod Runs
pub mod Blank
use scriba.Prelude.{
  ℕ, zero, suc, ◌+◌, Bool, true, false, List, [], ◌∷◌, ◌++◌, Option, none, some, ◌==◌, ◌||◌,
  if◌then◌else◌, length, get_elem?, Outcome, ok, undefined, ◌>>=◌, defined,
}
use scriba.Prelude.Int.{ℤ, pos, ◌+ℤ◌, ◌-ℤ◌}
use scriba.Symbol.{Symbol, SymbolFormat, set_alignment}
use scriba.Crdt.Search.{newline, find_position, find_insert_position}
use scriba.Crdt.Lines.{set_symbol, update_last, insert_char, erase_remote}
use scriba.Crdt.State.{Crdt, insert, insert_group, erase, change_all, change_alignment, emit}

-- Where a remote symbol goes; a document without lines has no place to search.
unfoldable pub place_of : Symbol → List (List Symbol) → Outcome (ℕ × ℕ)
place_of s [] = ok (0, 0)
place_of s (l ∷ ls) = find_insert_position s (l ∷ ls)

-- The insertion that handleRemoteInsert and handleRemotePaste share; it returns the place.
unfoldable pub insert_remote : Crdt → Symbol → Outcome ((ℕ × ℕ) × Crdt)
insert_remote c s = place_of s c.symbols >>= λ place.
    insert_char s place.0 place.1 c.symbols >>= λ lines.
    ok (place, record c { symbols = lines; size = c.size +ℤ pos 1 })

-- CRDT::handleRemoteInsert
unfoldable pub handle_remote_insert : Crdt → Symbol → Outcome Crdt
handle_remote_insert c s = insert_remote c s >>= λ (place, c').
    ok (if s.value == 0 then c' else emit c' (insert place.0 place.1 s))

-- CRDT::handleRemoteAlignChange
unfoldable pub handle_remote_align_change : Crdt → Symbol → Outcome Crdt
handle_remote_align_change c s = find_position s c.symbols >>= λ found. elim found [
  | none ↦ ok c
  | some (line, index) ↦
      update_last c.symbols line (λ t. set_alignment t s.format.align) >>= λ (_, lines).
      ok (emit (record c { symbols = lines }) (change_alignment s.format.align line index))
]

-- What the loop of handleRemotePaste carries: the place and format of the first symbol, the text
-- and the symbols whose alignment is to be set.
pub record Pasted : Type 0 where
  pub first : Option ((ℕ × ℕ) × SymbolFormat)
  pub partial : List ℕ
  pub align_changes : List Symbol

abbrev pub keep_first :
    Option ((ℕ × ℕ) × SymbolFormat) → (ℕ × ℕ) × SymbolFormat → Option ((ℕ × ℕ) × SymbolFormat)
keep_first none f = some f
keep_first (some g) f = some g

unfoldable pub paste_step : Pasted → ℕ × ℕ → Symbol → Pasted
paste_step p place s = record {
  first = keep_first p.first (place, s.format);
  partial = if s.value == 0 then p.partial else p.partial ++ s.value ∷ [];
  align_changes =
      if (s.value == 0) || (s.value == newline) then p.align_changes ++ s ∷ [] else p.align_changes;
}

unfoldable pub paste_loop : Crdt → Pasted → List Symbol → Outcome (Crdt × Pasted)
paste_loop c p [] = ok (c, p)
paste_loop c p (s ∷ rest) =
    insert_remote c s >>= λ (place, c'). paste_loop c' (paste_step p place s) rest

unfoldable pub align_loop : Crdt → List Symbol → Outcome Crdt
align_loop c [] = ok c
align_loop c (s ∷ rest) = handle_remote_align_change c s >>= λ c'. align_loop c' rest

-- CRDT::handleRemotePaste
unfoldable pub handle_remote_paste : Crdt → List Symbol → Outcome Crdt
handle_remote_paste c symbols =
    paste_loop c (record { first = none; partial = []; align_changes = [] }) symbols >>= λ (c', p).
    defined p.first >>= λ (place, format).
    align_loop (emit c' (insert_group place.0 place.1 p.partial format)) p.align_changes

-- One symbol of handleRemoteErase: `none` where it is not found.
unfoldable pub erase_one : Crdt → Symbol → Outcome (Option ((ℕ × ℕ) × Crdt))
erase_one c s = find_position s c.symbols >>= λ found. elim found [
  | none ↦ ok none
  | some place ↦ erase_remote s place.0 place.1 c.symbols >>= λ lines.
      ok (some (place, record c { symbols = lines; size = c.size -ℤ pos 1 }))
]

-- The loop with what follows it: at a symbol that is not found the handler returns at once.
unfoldable pub erase_loop : ℕ → Option (ℕ × ℕ) → Crdt → List Symbol → Outcome Crdt
erase_loop total start c [] =
    defined start >>= λ (line, index). ok (emit c (erase line index total))
erase_loop total start c (s ∷ rest) = erase_one c s >>= λ r. elim r [
  | none ↦ ok c
  | some (place, c') ↦ erase_loop total (elim start [ none ↦ some place | some p ↦ some p ]) c' rest
]

-- CRDT::handleRemoteErase
unfoldable pub handle_remote_erase : Crdt → List Symbol → Outcome Crdt
handle_remote_erase c symbols = erase_loop (length symbols) none c symbols

-- CRDT::handleRemoteChange: the loop over `rest`, then the signal with all the symbols.
unfoldable pub change_loop : List Symbol → Crdt → List Symbol → Outcome Crdt
change_loop symbols c [] = ok (emit c (change_all symbols))
change_loop symbols c (s ∷ rest) = find_position s c.symbols >>= λ found. elim found [
  | none ↦ ok c
  | some (line, index) ↦ set_symbol c.symbols line index s >>= λ lines.
      change_loop symbols (record c { symbols = lines }) rest
]

unfoldable pub handle_remote_change : Crdt → List Symbol → Outcome Crdt
handle_remote_change c symbols = change_loop symbols c symbols
