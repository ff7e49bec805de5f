-- ===== src/Events/Tests.antt =====
-- Tests of events and their queues (common/event-system.hpp, common/event-queue.hpp).
use tec.Base.{ℕ, ◌+◌, ◌≡◌, refl, List, [], ◌∷◌, ◌==◌, if◌then◌else◌}
use tec.Events.EventSystem.{EventSystem}
use tec.Events.DoubleQueue.{
  DoubleQueue, Call, put, handle_all, run, Log, IsFair, run_log, run-IsFair,
}

-- Queue 8 is subscribed to entity 3 and, twice, to all entities.
abbrev system : EventSystem ℕ
system = record { subscribers = (0, 8 ∷ 8 ∷ []) ∷ (3, 8 ∷ 9 ∷ []) ∷ []; queues = λ q. [] }

-- A handler that adds up, and queues 1 for an entry 7.
abbrev add_up : ℕ → ℕ → ℕ × List ℕ
add_up e s = (s + e, if e == 7 then 1 ∷ [] else [])

abbrev waiting : DoubleQueue ℕ
waiting = record { read_queue = []; write_queue = 7 ∷ 2 ∷ [] }

abbrev log : Log ℕ ℕ
log = record { state = 0; handled = 4 ∷ []; queued = 4 ∷ 7 ∷ 2 ∷ [] }

waiting-IsFair : IsFair add_up waiting log
waiting-IsFair = record { idle = refl; all_kept = refl }

abbrev calls : List (Call ℕ)
calls = handle_all ∷ put 5 ∷ handle_all ∷ []

run-IsFair_example :
    IsFair add_up (run_log add_up calls waiting log).1 (run_log add_up calls waiting log).0
    × ((run_log add_up calls waiting log).0.state ≡ (run add_up calls waiting 0).0)
    × ((run_log add_up calls waiting log).1 ≡ (run add_up calls waiting 0).1)
run-IsFair_example = run-IsFair add_up calls waiting log waiting-IsFair
