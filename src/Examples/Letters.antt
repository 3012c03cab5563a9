-- ===== src/Examples/Letters.antt =====
-- The experiment with one line: three editors, one message.
use scriba.Prelude.{ℕ, ◌≡◌, refl, List, [], ◌∷◌, ok}
use scriba.Prelude.Int.{pos}
use scriba.Order.Rank.{Increasing}
use scriba.Symbol.{compare_position, compare_identifier}
use scriba.Lseq.{
  Letter, Message, SharedEditor, NetworkServer, insertion, process, dispatch_messages,
  compare_letters, probe, find_insert_index,
}
use scriba.Lseq.Search.{search}
use scriba.Lseq.Process.{letter_order, process_sorted, process-sorted}
use scriba.Lseq.Network.{Received, receive, receive_one, dispatch_messages-each}

abbrev letter : ℕ → ℕ → Letter
letter value digit = record {
  value = value;
  position = record { digit = pos digit; site = pos 1 } ∷ [];
  counter = pos 1;
}

abbrev with_letters : ℕ → List Letter → SharedEditor
with_letters i l = record {
  site_id = i;
  letters = l;
  counter = pos 1;
  entropy = record { strategy_cache = []; coins = 0; draws = 0 };
}

abbrev line : List Letter
line = letter 97 3 ∷ letter 99 9 ∷ []

abbrev typed : Message
typed = record { editor_id = 0; letter = letter 98 6; operation = insertion }

line-Increasing : Increasing letter_order line
unfolding compare_letters compare_position compare_identifier
line-Increasing = ((refl, tt), (tt, tt))

process-sorted_example :
    process typed (with_letters 1 line) ≡ process_sorted typed (with_letters 1 line)
process-sorted_example = process-sorted typed (with_letters 1 line) line-Increasing

abbrev longer : List Letter
longer = letter 97 3 ∷ letter 98 6 ∷ letter 99 9 ∷ []

abbrev network : NetworkServer
network = record {
  id = 2;
  editors = (0, with_letters 0 longer) ∷ (1, with_letters 1 line) ∷ [];
  queue = typed ∷ [];
}

received :
    Received network.queue network.editors
      ((0, with_letters 0 longer) ∷ (1, with_letters 1 longer) ∷ [])
unfolding receive receive_one process find_insert_index probe search compare_letters
    compare_position compare_identifier
received = ((refl, refl, ((refl, refl, tt))))

dispatch_messages-each_example :
    dispatch_messages network
    ≡ ok (record network {
      editors = (0, with_letters 0 longer) ∷ (1, with_letters 1 longer) ∷ [];
      queue = [];
    })
dispatch_messages-each_example =
    dispatch_messages-each network ((0, with_letters 0 longer) ∷ (1, with_letters 1 longer) ∷ [])
      received
