-- ===== src/Server/Writer.antt =====
-- `QueueWrite` and `do_write` of server/client-connection.cpp (`Send` and `do_write` of
-- client/server-connection.cpp are the same): the messages to be written to a connection.
use tec.Base.{
  ℕ, ◌+◌, ◌-◌, ◌<◌, ◌≡◌, ◌≢◌, ◌⊎◌, inl, inr, refl, ap, sym, ◌∙◌, Bool, true, false, Option, none,
  some, List, [], ◌∷◌, ◌++◌, length, map, if◌then◌else◌, append_assoc, append-nil, arith,
  length-append,
}
use tec.Net.Message.{Message}
use tec.Net.Out.{MessageOut, get_messages}

-- `written` and `started` only record what happens: the messages popped off the queue once they were
-- written, and what was handed to `asio::async_write`, where `none` is the front of an empty queue,
-- which is not defined.
pub record Writer : Type 0 where
  pub write_msg_queue : List Message
  pub written : List Message
  pub started : List (Option Message)

abbrev pub front : List Message → Option Message
front [] = none
front (m ∷ ms) = some m

-- `empty()`
abbrev pub no_messages : List Message → Bool
no_messages [] = true
no_messages (m ∷ ms) = false

-- The front as a list.
abbrev pub current : List Message → List Message
current [] = []
current (m ∷ ms) = m ∷ []

abbrev pub tail : List Message → List Message
tail [] = []
tail (m ∷ ms) = ms

-- `do_write`
unfoldable pub do_write : Writer → Writer
do_write w = record w { started = w.started ++ (front w.write_msg_queue ∷ []) }

-- Messages are pushed; a write is begun if the queue was empty.
abbrev pub push : List Message → Writer → Writer
push ms w =
    let pushed : Writer = record w { write_msg_queue = w.write_msg_queue ++ ms } in
    if no_messages w.write_msg_queue then do_write pushed else pushed

-- `QueueWrite(MessagePool::ptr_type)`
unfoldable pub queue_message : Message → Writer → Writer
queue_message m w = push (m ∷ []) w

-- `QueueWrite(MessageOut&)`
unfoldable pub queue_write : MessageOut → Writer → Writer
queue_write o w = push (get_messages o) w

-- What `do_write` does once a write has succeeded.
unfoldable pub on_write : Writer → Writer
on_write w =
    let popped : Writer = record w {
      write_msg_queue = tail w.write_msg_queue;
      written = w.written ++ current w.write_msg_queue;
    } in
    if no_messages popped.write_msg_queue then popped else do_write popped

-- What happens to a connection: messages are queued, or a write ends, with an error or without.
pub data Turn : Type 0 where
  message : Message → Turn
  messages : MessageOut → Turn
  write_ends : Turn
  write_fails : Turn

unfoldable pub turn : Turn → Writer → Writer
turn (message m) w = queue_message m w
turn (messages o) w = queue_write o w
turn write_ends w = on_write w
turn write_fails w = w

unfoldable pub turns : List Turn → Writer → Writer
turns [] w = w
turns (t ∷ ts) w = turns ts (turn t w)

-- The messages queued.
unfoldable pub queued : List Turn → List Message
queued [] = []
queued (message m ∷ ts) = m ∷ queued ts
queued (messages o ∷ ts) = get_messages o ++ queued ts
queued (write_ends ∷ ts) = queued ts
queued (write_fails ∷ ts) = queued ts

-- A write ends only while one is going on: none is after one that failed, since the queue is not empty
-- then. An object without messages is queued only behind others.
abbrev pub Possible : Bool → ℕ → List Turn → Type 0
Possible going n [] = Unit
Possible going n (message m ∷ ts) = Possible going (n + 1) ts
Possible going n (messages o ∷ ts) =
    ((0 < n) ⊎ (get_messages o ≢ [])) × Possible going (n + length (get_messages o)) ts
Possible going n (write_ends ∷ ts) = (going ≡ true) × (0 < n) × Possible going (n - 1) ts
Possible going n (write_fails ∷ ts) = (going ≡ true) × (0 < n) × Possible false n ts

-- Just the front of the queue is being written.
pub record IsOrderly (w : Writer) : Type 0 where
  pub one_at_a_time : w.started ≡ map some (w.written ++ current w.write_msg_queue)

map-append :
    (xs ys : List Message) → map {B = Option Message} some (xs ++ ys) ≡ map some xs ++ map some ys
map-append [] ys = refl
map-append (x ∷ xs) ys = ap (λ t. some x ∷ t) (map-append xs ys)

-- One more message is handed over.
start :
    (done : List Message) (x : Message) (started : List (Option Message))
    → started ≡ map some done
    → started ++ (some x ∷ []) ≡ map some (done ++ (x ∷ []))
start done x started e = ap (λ t. t ++ (some x ∷ [])) e ∙ sym (map-append done (x ∷ []))

push-IsOrderly :
    (ms : List Message) (w : Writer)
    → (0 < length w.write_msg_queue) ⊎ (ms ≢ [])
    → IsOrderly w
    → IsOrderly (push ms w)
      × ((push ms w).written ++ (push ms w).write_msg_queue
          ≡ (w.written ++ w.write_msg_queue) ++ ms)
      × (length (push ms w).write_msg_queue ≡ length w.write_msg_queue + length ms)
unfolding do_write
push-IsOrderly ms w n h = go w.write_msg_queue ms n h.one_at_a_time
  where
    go :
        (q ms : List Message)
        → (0 < length q) ⊎ (ms ≢ [])
        → w.started ≡ map some (w.written ++ current q)
        → let w' : Writer = push ms (record w { write_msg_queue = q }) in
          IsOrderly w'
          × (w'.written ++ w'.write_msg_queue ≡ (w.written ++ q) ++ ms)
          × (length w'.write_msg_queue ≡ length q + length ms)
    go [] [] (inl k) e = absurd (omega (arith, k))
    go [] [] (inr k) e = absurd (k refl)
    go [] (x ∷ xs) n e = (
      record {
        one_at_a_time = start w.written x w.started (e ∙ ap (map some) (append-nil w.written));
      },
      ap (λ t. t ++ (x ∷ xs)) (sym (append-nil w.written)),
      omega arith,
    )
    go (y ∷ ys) ms n e = (
      record { one_at_a_time = e },
      sym (append_assoc w.written (y ∷ ys) ms),
      length-append (y ∷ ys) ms,
    )

on_write-IsOrderly :
    (w : Writer)
    → 0 < length w.write_msg_queue
    → IsOrderly w
    → IsOrderly (on_write w)
      × ((on_write w).written ++ (on_write w).write_msg_queue ≡ w.written ++ w.write_msg_queue)
      × (length (on_write w).write_msg_queue ≡ length w.write_msg_queue - 1)
unfolding do_write on_write
on_write-IsOrderly w n h = go w.write_msg_queue n h.one_at_a_time
  where
    go :
        (q : List Message)
        → 0 < length q
        → w.started ≡ map some (w.written ++ current q)
        → let w' : Writer = on_write (record w { write_msg_queue = q }) in
          IsOrderly w'
          × (w'.written ++ w'.write_msg_queue ≡ w.written ++ q)
          × (length w'.write_msg_queue ≡ length q - 1)
    go [] n e = elim n [ ]
    go (x ∷ []) n e = (
      record { one_at_a_time = e ∙ ap (map some) (sym (append-nil (w.written ++ (x ∷ [])))) },
      append-nil (w.written ++ (x ∷ [])),
      omega arith,
    )
    go (x ∷ y ∷ ys) n e = (
      record { one_at_a_time = start (w.written ++ (x ∷ [])) y w.started e },
      append_assoc w.written (x ∷ []) (y ∷ ys),
      omega arith,
    )

-- From a state in which just the front of the queue was handed to the socket behind the messages
-- written, one message at a time, whatever messages are queued, where an object without messages
-- comes only behind others, and however the writes that are going on end, where after an error none
-- is: this holds again, and the messages written, followed by the queue, are those of before
-- followed by all that were queued, in order.
pub turns-IsOrderly :
    (going : Bool) (ts : List Turn) (w : Writer)
    → Possible going (length w.write_msg_queue) ts
    → IsOrderly w
    → IsOrderly (turns ts w)
      × ((turns ts w).written ++ (turns ts w).write_msg_queue
          ≡ (w.written ++ w.write_msg_queue) ++ queued ts)
unfolding turns turn queued queue_message queue_write
turns-IsOrderly going [] w p h = (h, sym (append-nil (w.written ++ w.write_msg_queue)))
turns-IsOrderly going (message m ∷ ts) w p h =
    let (h', kept, size) = push-IsOrderly (m ∷ []) w (inr (λ e. omega (arith, ap length e))) h in
    let (end, all) = turns-IsOrderly going ts (push (m ∷ []) w) (rw size p) h' in
    (
      end,
      all
          ∙ ap (λ t. t ++ queued ts) kept
          ∙ append_assoc (w.written ++ w.write_msg_queue) (m ∷ []) (queued ts),
    )
turns-IsOrderly going (messages o ∷ ts) w p h =
    let (h', kept, size) = push-IsOrderly (get_messages o) w p.0 h in
    let (end, all) = turns-IsOrderly going ts (push (get_messages o) w) (rw size p.1) h' in
    (
      end,
      all
          ∙ ap (λ t. t ++ queued ts) kept
          ∙ append_assoc (w.written ++ w.write_msg_queue) (get_messages o) (queued ts),
    )
turns-IsOrderly going (write_ends ∷ ts) w p h =
    let (h', kept, size) = on_write-IsOrderly w p.1 h in
    let (end, all) = turns-IsOrderly going ts (on_write w) (rw size p.2) h' in
    (end, all ∙ ap (λ t. t ++ queued ts) kept)
turns-IsOrderly going (write_fails ∷ ts) w p h = turns-IsOrderly false ts w p.2 h
