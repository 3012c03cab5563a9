-- ===== src/Lseq/Process.antt =====
-- What process makes of an ordered line of symbols.
use scriba.Prelude.{
  ℕ, ◌+◌, ◌<◌, ◌≡◌, refl, sym, ◌∙◌, ap, Ordering, true, false, List, arith, length, none, some,
  get_elem?_total, insert_at, erase_at, Outcome, ok, throws, ◌>>=◌, ◌⊎◌, inl, inr, Bool-cases,
  if◌then◌else◌,
}
use scriba.Order.{TotalOrder, flip}
use scriba.Order.Rank.{
  Increasing, rank, rank-le-length, compared, compared-rank, contains, contains_at,
  contains-compared, insert_sorted, insert_at-rank, insert_sorted-Increasing, remove,
}
use scriba.Order.Merge.{remove-Increasing, remove-absent}
use scriba.Order.Blocks.Edit.{erase_at-rank}
use scriba.Symbol.Compare.{compare_position-flip, compare_position_trans, compare_position-eq}
use scriba.Lseq.{
  Letter, compare_letters, Message, insertion, deletion, SharedEditor, probe,
  find_index_by_position, find_insert_index, process,
}
use scriba.Lseq.Search.{Stop, found, ended, search, Ends, search-Ends}

pub compare_letters-flip : (s t : Letter) → compare_letters t s ≡ flip (compare_letters s t)
unfolding compare_letters
compare_letters-flip s t = compare_position-flip s.position t.position

pub compare_letters_trans :
    (s t u : Letter)
    → compare_letters s t ≡ Ordering.lt
    → compare_letters t u ≡ Ordering.lt
    → compare_letters s u ≡ Ordering.lt
unfolding compare_letters
compare_letters_trans s t u = compare_position_trans s.position t.position u.position

pub compare_letters-eq_left :
    (s t u : Letter) → compare_letters s t ≡ Ordering.eq → compare_letters s u ≡ compare_letters t u
unfolding compare_letters
compare_letters-eq_left s t u h = rw (compare_position-eq s.position t.position h)

abbrev pub letter_order : TotalOrder Letter
letter_order = record {
  cmp = compare_letters;
  cmp_flip = compare_letters-flip;
  lt_trans = compare_letters_trans;
  eq_left = compare_letters-eq_left;
}

probe-compared :
    (s : Letter) (l : List Letter) (i : ℕ)
    → i < length l
    → probe s l i ≡ ok (compared letter_order s l i)
unfolding probe
probe-compared s l i h = let (t, e) = get_elem?_total l i h in ground (arith, e)

search-letters :
    (s : Letter) (l : List Letter)
    → Increasing letter_order l
    → Ends letter_order s l (search (probe s l) (length l + 1) 0 (length l))
search-letters s l inc =
    search-Ends letter_order s l (probe s l) (probe-compared s l) inc (length l + 1) 0 (length l)
      (omega arith) (rank-le-length letter_order s l) (omega arith) (inl refl) (omega arith)

-- With a symbol at the position of `s`, the search has found its place; without one, the rank.
found_lem :
    (s : Letter) (l : List Letter) (r : Outcome Stop)
    → Increasing letter_order l
    → Ends letter_order s l r
    → ((contains letter_order s l ≡ true) × (r ≡ ok (found (rank letter_order s l))))
      ⊎ ((contains letter_order s l ≡ false) × (r ≡ ok (ended (rank letter_order s l))))
found_lem s l (ok (found m)) inc e = inl (
  contains_at letter_order s l m inc e.0 e.1,
  ap (λ i. ok (found i)) (sym ((compared-rank letter_order s l m inc e.0).0 e.1)),
)
found_lem s l (ok (ended i)) inc e = elim (Bool-cases (contains letter_order s l)) [
  | inl c ↦ ground (arith, contains-compared letter_order s l c, e.0, e.1)
  | inr c ↦ inr (c, ap (λ i. ok (ended i)) (sym e.0))
]
found_lem s l (Outcome.throws t) inc e = absurd e
found_lem s l Outcome.undefined inc e = absurd e
found_lem s l Outcome.out_of_fuel inc e = absurd e

searched :
    (s : Letter) (l : List Letter)
    → Increasing letter_order l
    → ((contains letter_order s l ≡ true)
        × (search (probe s l) (length l + 1) 0 (length l) ≡ ok (found (rank letter_order s l))))
      ⊎ ((contains letter_order s l ≡ false)
          × (search (probe s l) (length l + 1) 0 (length l) ≡ ok (ended (rank letter_order s l))))
searched s l inc = found_lem s l _ inc (search-letters s l inc)

-- What a message makes of an ordered line: an insertion puts the symbol in its place, or throws
-- where the position is taken; a deletion takes the symbol at that position, if there is one.
unfoldable pub process_sorted : Message → SharedEditor → Outcome SharedEditor
process_sorted m e = elim m.operation [
  | insertion ↦
      if contains letter_order m.letter e.letters
      then throws "Non valid index"
      else ok (record e { letters = insert_sorted letter_order m.letter e.letters })
  | deletion ↦ ok (record e { letters = remove letter_order m.letter e.letters })
]

insertion-sorted :
    (s : Letter) (e : SharedEditor)
    → Increasing letter_order e.letters
    → (find_insert_index s e.letters >>= λ index.
        ok (record e { letters = insert_at index s e.letters }))
      ≡ (if contains letter_order s e.letters
          then throws "Non valid index"
          else ok (record e { letters = insert_sorted letter_order s e.letters }))
unfolding find_insert_index
insertion-sorted s e inc = elim (searched s e.letters inc) [
  | inl (c, run) ↦ rw (run, c) refl
  | inr (c, run) ↦ rw (run, c, insert_at-rank letter_order s e.letters) refl
]

deletion-sorted :
    (s : Letter) (e : SharedEditor)
    → Increasing letter_order e.letters
    → (find_index_by_position s e.letters >>= λ r. elim r [
      | none ↦ ok e
      | some index ↦ ok (record e { letters = erase_at index e.letters })
    ])
      ≡ ok (record e { letters = remove letter_order s e.letters })
unfolding find_index_by_position
deletion-sorted s e inc = elim (searched s e.letters inc) [
  | inl (c, run) ↦ rw (run, erase_at-rank letter_order s e.letters c) refl
  | inr (c, run) ↦ rw (run, remove-absent letter_order s e.letters c) refl
]

-- On a line in order, process is the reference: an insertion puts the symbol in its place, or throws
-- where the position is taken; a deletion takes out the symbol at that position, and changes nothing
-- where there is none.
pub process-sorted :
    (m : Message) (e : SharedEditor)
    → Increasing letter_order e.letters
    → process m e ≡ process_sorted m e
unfolding process process_sorted
process-sorted m e inc =
    elim m.operation
      as (λ k.
        (elim k as (λ _. Outcome SharedEditor) [
          | insertion ↦ find_insert_index m.letter e.letters >>= λ index.
              ok (record e { letters = insert_at index m.letter e.letters })
          | deletion ↦ find_index_by_position m.letter e.letters >>= λ r. elim r [
            | none ↦ ok e
            | some index ↦ ok (record e { letters = erase_at index e.letters })
          ]
        ])
        ≡ (elim k as (λ _. Outcome SharedEditor) [
          | insertion ↦
              if contains letter_order m.letter e.letters
              then throws "Non valid index"
              else ok (record e { letters = insert_sorted letter_order m.letter e.letters })
          | deletion ↦ ok (record e { letters = remove letter_order m.letter e.letters })
        ])) [
          | insertion ↦ insertion-sorted m.letter e inc
          | deletion ↦ deletion-sorted m.letter e inc
        ]

process_sorted-Increasing :
    (m : Message) (e e' : SharedEditor)
    → Increasing letter_order e.letters
    → process_sorted m e ≡ ok e'
    → Increasing letter_order e'.letters
unfolding process_sorted
process_sorted-Increasing m e e' inc run =
    elim (Bool-cases (contains letter_order m.letter e.letters)) [
      | inl c ↦ ground (arith, run, c, remove-Increasing letter_order m.letter e.letters inc)
      | inr c ↦ ground (
        arith,
        run,
        c,
        insert_sorted-Increasing letter_order m.letter e.letters inc c,
        remove-Increasing letter_order m.letter e.letters inc,
      )
    ]

-- A message that an editor has processed leaves its line in order.
pub process-Increasing :
    (m : Message) (e e' : SharedEditor)
    → Increasing letter_order e.letters
    → process m e ≡ ok e'
    → Increasing letter_order e'.letters
process-Increasing m e e' inc run =
    process_sorted-Increasing m e e' inc (sym (process-sorted m e inc) ∙ run)
