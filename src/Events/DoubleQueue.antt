-- ===== src/Events/DoubleQueue.antt =====
-- common/event-queue.hpp, `EventQueue<T>`, and common/command-queue.hpp, `CommandQueue<T>`: a queue that
-- is read and one that is written, exchanged before the entries are handled. Only one thread runs
-- here; a queue is the list of its entries, the oldest first. What handles an entry is a parameter:
-- it changes the state, and may queue entries, which it returns.
use tec.Base.{◌≡◌, refl, ap, sym, ◌∙◌, List, [], ◌∷◌, ◌++◌, append_assoc, append-nil}

-- `EventQueue<T>`; for `CommandQueue<T>`, `local_queue` and `global_command_queue`.
pub record DoubleQueue (E : Type 0) : Type 0 where
  pub read_queue : List E
  pub write_queue : List E

module _ {E : Type 0} where
  -- The constructors.
  unfoldable pub new : DoubleQueue E
  new = record { read_queue = []; write_queue = [] }

  -- `QueueEvent`, `QueueCommand`
  unfoldable pub queue : E → DoubleQueue E → DoubleQueue E
  queue e d = record d { write_queue = d.write_queue ++ (e ∷ []) }

  -- The exchange of the two queues.
  unfoldable pub exchange : DoubleQueue E → DoubleQueue E
  exchange d = record { read_queue = d.write_queue; write_queue = d.read_queue }

module _ {E S : Type 0} (handle : E → S → S × List E) where
  -- The loop: the front entry is moved out and popped, then handled.
  unfoldable pub process_loop : List E → List E → S → S × DoubleQueue E
  process_loop [] written s = (s, record { read_queue = []; write_queue = written })
  process_loop (e ∷ es) written s = process_loop es (written ++ (handle e s).1) (handle e s).0

  -- `ProcessEventQueue`, `ProcessCommandQueue`
  unfoldable pub process : DoubleQueue E → S → S × DoubleQueue E
  process d s = process_loop (exchange d).read_queue (exchange d).write_queue s

-- The calls made of a queue.
pub data Call (E : Type 0) : Type 0 where
  put : E → Call E
  handle_all : Call E

module _ {E S : Type 0} (handle : E → S → S × List E) where
  unfoldable pub run : List (Call E) → DoubleQueue E → S → S × DoubleQueue E
  run [] d s = (s, d)
  run (put e ∷ cs) d s = run cs (queue e d) s
  run (handle_all ∷ cs) d s = run cs (process handle d s).1 (process handle d s).0

-- A handler that keeps, beside its own state, the entries that were handled and those queued, each
-- in order.
pub record Log (E S : Type 0) : Type 0 where
  pub state : S
  pub handled : List E
  pub queued : List E

module _ {E S : Type 0} (handle : E → S → S × List E) where
  abbrev pub logged : E → Log E S → Log E S × List E
  logged e l = (
    record {
      state = (handle e l.state).0;
      handled = l.handled ++ (e ∷ []);
      queued = l.queued ++ (handle e l.state).1;
    },
    (handle e l.state).1,
  )

  -- A queue in which everything that was queued was handled, in order, or is still to be handled.
  pub record IsFair (d : DoubleQueue E) (l : Log E S) : Type 0 where
    pub idle : d.read_queue ≡ []
    pub all_kept : l.handled ++ d.write_queue ≡ l.queued

  -- The calls, with what they queue and what they handle kept in the log.
  pub run_log : List (Call E) → DoubleQueue E → Log E S → Log E S × DoubleQueue E
  run_log [] d l = (l, d)
  run_log (put e ∷ cs) d l = run_log cs (queue e d) (record l { queued = l.queued ++ (e ∷ []) })
  run_log (handle_all ∷ cs) d l = run_log cs (process logged d l).1 (process logged d l).0

  loop_lem :
      (es written : List E) (l : Log E S)
      → l.handled ++ (es ++ written) ≡ l.queued
      → IsFair (process_loop logged es written l).1 (process_loop logged es written l).0
        × ((process_loop logged es written l).0.handled ≡ l.handled ++ es)
        × ((process_loop logged es written l).0.state ≡ (process_loop handle es written l.state).0)
        × ((process_loop logged es written l).1 ≡ (process_loop handle es written l.state).1)
  unfolding process_loop
  loop_lem [] written l h =
      (record { idle = refl; all_kept = h }, sym (append-nil l.handled), refl, refl)
  loop_lem (e ∷ es) written l h =
      let more : List E = (handle e l.state).1 in
      let kept : (l.handled ++ (e ∷ [])) ++ (es ++ (written ++ more)) ≡ l.queued ++ more =
        append_assoc l.handled (e ∷ []) (es ++ (written ++ more))
        ∙ ap (λ t. l.handled ++ (e ∷ t)) (sym (append_assoc es written more))
        ∙ sym (append_assoc l.handled (e ∷ (es ++ written)) more)
        ∙ ap (λ t. t ++ more) h in
      let (fair, done, state, rest) = loop_lem es (written ++ more) (logged e l).0 kept in
      (fair, done ∙ append_assoc l.handled (e ∷ []) es, state, rest)

  -- One call of `ProcessEventQueue` or `ProcessCommandQueue` on a queue in which nothing was lost: it
  -- handles all that was queued before the call, in order, and leaves what the handler queues
  -- meanwhile, in order, for the next call.
  pub process-IsFair :
      (d : DoubleQueue E) (l : Log E S)
      → IsFair d l
      → IsFair (process logged d l).1 (process logged d l).0
        × ((process logged d l).0.handled ≡ l.queued)
  unfolding process exchange
  process-IsFair d l fair =
      let (kept, done, _, _) =
        loop_lem d.write_queue d.read_queue l
          (rw (fair.idle, append-nil d.write_queue) fair.all_kept) in
      (kept, done ∙ fair.all_kept)

  -- Whatever calls are made of a queue from which nothing was lost: at every time the entries handled,
  -- followed by those waiting, are all that was ever queued, by calls or by the handler, in the order
  -- in which it was queued. Keeping the log changes neither the state nor the queue.
  pub run-IsFair :
      (cs : List (Call E)) (d : DoubleQueue E) (l : Log E S)
      → IsFair d l
      → IsFair (run_log cs d l).1 (run_log cs d l).0
        × ((run_log cs d l).0.state ≡ (run handle cs d l.state).0)
        × ((run_log cs d l).1 ≡ (run handle cs d l.state).1)
  unfolding run run_log queue process exchange
  run-IsFair [] d l fair = (fair, refl, refl)
  run-IsFair (put e ∷ cs) d l fair =
      run-IsFair cs (queue e d) (record l { queued = l.queued ++ (e ∷ []) })
        (record {
          idle = fair.idle;
          all_kept =
              sym (append_assoc l.handled d.write_queue (e ∷ []))
              ∙ ap (λ t. t ++ (e ∷ [])) fair.all_kept;
        })
  run-IsFair (handle_all ∷ cs) d l fair =
      let (kept, _, state, rest) =
        loop_lem d.write_queue d.read_queue l
          (rw (fair.idle, append-nil d.write_queue) fair.all_kept) in
      let (end, states, queues) =
        run-IsFair cs (process logged d l).1 (process logged d l).0 kept in
      let same : run handle cs (process logged d l).1 (process logged d l).0.state
          ≡ run handle cs (process handle d l.state).1 (process handle d l.state).0 =
        ap (λ q. run handle cs q (process logged d l).0.state) rest
        ∙ ap (run handle cs (process handle d l.state).1) state in
      (end, states ∙ ap (λ r. r.0) same, queues ∙ ap (λ r. r.1) same)
