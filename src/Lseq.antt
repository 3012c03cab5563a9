-- ===== src/Lseq.antt =====
-- Resources/CRDT_LSEQ_implementation_in_c++: the earlier experiment with one line of symbols, its
-- editors and the server between them. Identifiers, their comparison and the generation of a
-- position are the same code as in Client/CRDT.cpp and are taken from there; the test of main.cpp
-- and what is printed are left out.
pub mod Search
pub mod Process
pub mod Network
use Prim.Native.String.{String}
use scriba.Prelude.{
  ℕ, zero, suc, ◌+◌, ◌-◌, Bool, true, false, Ordering, List, [], ◌∷◌, ◌++◌, Option, none, some,
  if◌then◌else◌, ◌==◌, ltb, leb, length, get_elem?, insert_at, erase_at, Outcome, ok, throws,
  undefined, ◌>>=◌, defined,
}
use scriba.Prelude.Int.{ℤ, pos, negsuc, ◌+ℤ◌}
use scriba.Symbol.{Identifier, compare_position}
use scriba.Crdt.Position.{Entropy, generate_position_between}
use scriba.Lseq.Search.{Stop, found, ended, search}

-- The class Symbol of the experiment; its formats are never set.
pub record Letter : Type 0 where
  pub value : ℕ
  pub position : List Identifier
  pub counter : ℤ

-- Symbol::compare, at the positions of two symbols
unfoldable pub compare_letters : Letter → Letter → Ordering
compare_letters s t = compare_position s.position t.position

pub data Kind : Type 0 where
  insertion deletion : Kind

pub record Message : Type 0 where
  pub editor_id : ℕ
  pub letter : Letter
  pub operation : Kind

pub record SharedEditor : Type 0 where
  pub site_id : ℕ
  pub letters : List Letter
  pub counter : ℤ
  pub entropy : Entropy

-- The map of editors, whose keys are handed out in increasing order, and the queue.
pub record NetworkServer : Type 0 where
  pub id : ℕ
  pub editors : List (ℕ × SharedEditor)
  pub queue : List Message

-- comp of s and _symbols[m]
unfoldable pub probe : Letter → List Letter → ℕ → Outcome Ordering
probe s letters m = defined (get_elem? letters m) >>= λ t. ok (compare_letters s t)

-- SharedEditor::findIndexByPosition; `none` is -1.
unfoldable pub find_index_by_position : Letter → List Letter → Outcome (Option ℕ)
unfolding probe
find_index_by_position s letters =
    search (probe s letters) (length letters + 1) 0 (length letters) >>= λ r. elim r [
      | found m ↦ ok (some m)
      | ended l ↦ ok none
    ]

-- SharedEditor::findInsertIndex
unfoldable pub find_insert_index : Letter → List Letter → Outcome ℕ
unfolding probe
find_insert_index s letters =
    search (probe s letters) (length letters + 1) 0 (length letters) >>= λ r. elim r [
      | found m ↦ throws "Non valid index"
      | ended l ↦ ok l
    ]

-- SharedEditor::process; the index found is never negative.
unfoldable pub process : Message → SharedEditor → Outcome SharedEditor
process m e = elim m.operation [
  | insertion ↦ find_insert_index m.letter e.letters >>= λ index.
      ok (record e { letters = insert_at index m.letter e.letters })
  | deletion ↦ find_index_by_position m.letter e.letters >>= λ r. elim r [
    | none ↦ ok e
    | some index ↦ ok (record e { letters = erase_at index e.letters })
  ]
]

-- _symbols[index].getPosition(), where there is a symbol
abbrev pub position_at : List Letter → ℕ → List Identifier
position_at letters index = elim (get_elem? letters index) [ none ↦ [] | some t ↦ t.position ]

-- SharedEditor::localInsert, with the message that it sends
unfoldable pub local_insert :
    (ℕ → Bool) → (ℕ → ℕ) → ℤ → ℕ → SharedEditor → Outcome (SharedEditor × Message)
local_insert coin rand (negsuc _) value e = throws "Error: index out of bound."
local_insert coin rand (pos index) value e =
    if ltb (length e.letters) index
    then throws "Error: index out of bound."
    else (generate_position_between coin rand (pos e.site_id)
          (elim index [ zero ↦ [] | suc before ↦ position_at e.letters before ])
          (position_at e.letters index) e.entropy
        >>= λ (position, entropy).
            let s : Letter = record {
              value = value;
              position = position;
              counter = e.counter +ℤ pos 1;
            } in
            ok (
              record e {
                letters = insert_at index s e.letters;
                counter = e.counter +ℤ pos 1;
                entropy = entropy;
              },
              record { editor_id = e.site_id; letter = s; operation = insertion },
            ))

-- SharedEditor::localErase
unfoldable pub local_erase : ℕ → SharedEditor → Outcome (SharedEditor × Message)
local_erase index e = defined (get_elem? e.letters index) >>= λ s. ok (
  record e { letters = erase_at index e.letters },
  record { editor_id = e.site_id; letter = s; operation = deletion },
)

-- NetworkServer::connect, called by the constructor of an editor
unfoldable pub connect : Entropy → NetworkServer → SharedEditor × NetworkServer
connect entropy n =
    let e : SharedEditor = record {
      site_id = n.id;
      letters = [];
      counter = pos 0;
      entropy = entropy;
    } in
    (e, record n { editors = n.editors ++ (n.id, e) ∷ []; id = n.id + 1 })

-- NetworkServer::disconnect
unfoldable pub disconnect : ℕ → NetworkServer → NetworkServer
disconnect i n = record n { editors = without n.editors }
  where
    without : List (ℕ × SharedEditor) → List (ℕ × SharedEditor)
    without [] = []
    without ((k, e) ∷ rest) = if k == i then rest else (k, e) ∷ without rest

-- NetworkServer::send
unfoldable pub send : Message → NetworkServer → NetworkServer
send m n = record n { queue = n.queue ++ m ∷ [] }

-- One message for all editors but the one that sent it.
unfoldable pub process_all : Message → List (ℕ × SharedEditor) → Outcome (List (ℕ × SharedEditor))
process_all m [] = ok []
process_all m ((k, e) ∷ rest) = (if e.site_id == m.editor_id then ok e else process m e) >>= λ e'.
    process_all m rest >>= λ rest'. ok ((k, e') ∷ rest')

-- NetworkServer::dispatchMessages
unfoldable pub dispatch_queue :
    List Message → List (ℕ × SharedEditor) → Outcome (List (ℕ × SharedEditor))
unfolding process_all
dispatch_queue [] editors = ok editors
dispatch_queue (m ∷ rest) editors = process_all m editors >>= dispatch_queue rest

unfoldable pub dispatch_messages : NetworkServer → Outcome NetworkServer
unfolding dispatch_queue
dispatch_messages n =
    dispatch_queue n.queue n.editors >>= λ editors. ok (record n { editors = editors; queue = [] })
