-- ===== src/Server/Threads.antt =====
-- Server::incomingConnection and the load of the threads in userDisconnected.
pub mod Load
pub mod Least
pub mod Counts
pub mod Runs
use scriba.Prelude.{
  ℕ, ◌+◌, Bool, true, false, List, [], ◌∷◌, ◌++◌, Option, none, some, ◌==◌, ltb, if◌then◌else◌,
  length, get_elem?, set, Outcome, ok, ◌>>=◌, defined,
}
use scriba.Prelude.Int.{ℤ, pos, ◌+ℤ◌, ◌-ℤ◌, ltb_ℤ}
use scriba.Server.{Server}

-- std::min_element: the first of the least, as a distance from the start; past the end with none.
unfoldable pub min_element : ℤ → ℕ → ℕ → List ℤ → ℕ
min_element least best i [] = best
min_element least best i (x ∷ xs) =
    min_element (if ltb_ℤ x least then x else least) (if ltb_ℤ x least then i else best) (i + 1) xs

abbrev pub least_loaded : List ℤ → ℕ
least_loaded [] = 0
least_loaded (x ∷ xs) = min_element x 0 1 xs

-- The worker's thread: a new one while there are fewer than the machine's, else the least loaded.
-- `accepted` is what setSocketDescriptor answers.
unfoldable pub incoming_connection : Bool → ℕ → Server → Outcome (Option ℕ × Server)
unfolding min_element
incoming_connection false worker s = ok (none, s)
incoming_connection true worker s =
    if ltb (length s.threads_load) s.ideal_thread_count
    then ok (
      some (length s.threads_load),
      record s { threads_load = s.threads_load ++ pos 1 ∷ []; clients = s.clients ++ worker ∷ [] },
    )
    else let i = least_loaded s.threads_load in
      defined (get_elem? s.threads_load i) >>= λ load. ok (
        some i,
        record s {
          threads_load = set s.threads_load i (load +ℤ pos 1);
          clients = s.clients ++ worker ∷ [];
        },
      )

-- removeAll
unfoldable pub remove_all : ℕ → List ℕ → List ℕ
remove_all w [] = []
remove_all w (v ∷ vs) = if v == w then remove_all w vs else v ∷ remove_all w vs

-- The first two statements of userDisconnected.
unfoldable pub leave_thread : ℕ → ℕ → Server → Outcome Server
unfolding remove_all
leave_thread worker i s = defined (get_elem? s.threads_load i) >>= λ load. ok record s {
  threads_load = set s.threads_load i (load -ℤ pos 1);
  clients = remove_all worker s.clients;
}
