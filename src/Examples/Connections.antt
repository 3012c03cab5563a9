-- ===== src/Examples/Connections.antt =====
-- Three connections on two threads, and one that comes when another has left.
use scriba.Prelude.{ℕ, ◌≡◌, ◌≤◌, ◌<◌, refl, [], ◌∷◌, true, some, arith, ok, length}
use scriba.Prelude.Int.{pos, ◌+ℤ◌, ◌-ℤ◌}
use scriba.Server.{Server}
use scriba.Server.Threads.{incoming_connection, leave_thread, min_element, remove_all}
use scriba.Server.Threads.Load.{on_thread}
use scriba.Server.Threads.Runs.{
  IsLoaded, Reach, constructed, connected, disconnected, Reach-IsLoaded,
  incoming_connection-IsLoaded,
}
use scriba.Examples.Rooms.{server}

abbrev empty_hall : Server
empty_hall = record server { threads_load = []; clients = [] }

abbrev hall : Server
hall = record server { threads_load = pos 2 ∷ pos 1 ∷ []; clients = 1 ∷ 2 ∷ 3 ∷ [] }

abbrev left_hall : Server
left_hall = record server { threads_load = pos 1 ∷ pos 1 ∷ []; clients = 2 ∷ 3 ∷ [] }

full_hall : Reach hall ((1, 0) ∷ (2, 1) ∷ (3, 0) ∷ [])
unfolding incoming_connection min_element ◌+ℤ◌
full_hall =
    connected 3 0
      (connected {s = record server { threads_load = pos 1 ∷ []; clients = 1 ∷ [] }}
        {s' = record server { threads_load = pos 1 ∷ pos 1 ∷ []; clients = 1 ∷ 2 ∷ [] }} 2 1
        (connected {s = empty_hall} 1 0 (constructed empty_hall refl refl (omega arith)) refl refl)
        refl refl)
      refl refl

one_left : Reach left_hall ((2, 1) ∷ (3, 0) ∷ [])
unfolding leave_thread remove_all ◌-ℤ◌
one_left = disconnected {h = (1, 0) ∷ (2, 1) ∷ (3, 0) ∷ []} 1 0 full_hall refl refl

Reach-IsLoaded_example : IsLoaded left_hall ((2, 1) ∷ (3, 0) ∷ [])
Reach-IsLoaded_example = Reach-IsLoaded one_left

incoming_connection-IsLoaded_example :
    (i : ℕ) × (s' : Server) × (incoming_connection true 4 left_hall ≡ ok (some i, s'))
    × IsLoaded s' ((2, 1) ∷ (3, 0) ∷ (4, i) ∷ [])
    × ((j : ℕ)
        → j < length s'.threads_load
        → on_thread i ((2, 1) ∷ (3, 0) ∷ []) ≤ on_thread j ((2, 1) ∷ (3, 0) ∷ []))
incoming_connection-IsLoaded_example =
    incoming_connection-IsLoaded 4 left_hall ((2, 1) ∷ (3, 0) ∷ []) (Reach-IsLoaded one_left) refl
