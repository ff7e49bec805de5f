-- ===== src/Client/Queue.antt =====
-- The write queue of a client's connection, with and without errors (client/server-connection.cpp).
use tec.Base.{
  ◌≡◌, refl, sym, ap, ◌∙◌, Bool, true, false, not, ◌||◌, Option, List, [], ◌∷◌, ◌++◌, length,
  length-append, arith, replicate, append-nil, append_assoc, if◌then◌else◌, Bool-cases, inl, inr,
}
use tec.Net.Message.{Message}
use tec.Net.MessageType
use tec.Net.Out
use tec.Server.World.{from_string}
use tec.Net.Out.{get_messages}
use tec.Server.Writer.{
  Writer, no_messages, queue_message, queue_write, on_write, do_write, front, push, tail, current,
}
use tec.Client.Link.{
  Link, begun, LinkEvent, sends_message, sends, write_ends, write_fails, connects, connected,
  disconnects, stops, chats, disconnect, send_message, send, on_written, on_write_error,
  send_chat_message, stop, on_connected, link_step, link_run,
}

-- A connection that has messages to write and none on its way.
record Stuck {X : Type 0} (s : Link X) : Type 0 where
  waiting : no_messages s.writer.write_msg_queue ≡ false
  idle : s.in_flight ≡ false

no_messages-append : (q ms : List Message) → no_messages q ≡ false → no_messages (q ++ ms) ≡ false
no_messages-append [] ms h = absurd (cc h)
no_messages-append (m ∷ q) ms h = refl

-- Messages that are queued behind others.
stuck-push :
    (ms : List Message) (w : Writer)
    → no_messages w.write_msg_queue ≡ false
    → push ms w ≡ record w { write_msg_queue = w.write_msg_queue ++ ms }
stuck-push ms w h = rw h refl

-- A write is begun just where `do_write` is called.
begun-same : (w : Writer) (q : List Message) → begun w (record w { write_msg_queue = q }) ≡ false
begun-same w q = ground arith

begun-do_write : (before w : Writer) → w.started ≡ before.started → begun before (do_write w) ≡ true
unfolding do_write
begun-do_write before w same =
    ground (arith, ap length same, length-append w.started (front w.write_msg_queue ∷ []))

on_write-queue :
    (w : Writer)
    → ((on_write w).write_msg_queue ≡ tail w.write_msg_queue)
      × ((on_write w).written ≡ w.written ++ current w.write_msg_queue)
unfolding on_write do_write
on_write-queue w = elim (Bool-cases (no_messages (tail w.write_msg_queue))) [
  | inl last ↦ rw last (refl, refl)
  | inr more ↦ rw more (refl, refl)
]

on_write-begun :
    (w : Writer) → begun w (on_write w) ≡ not (no_messages (on_write w).write_msg_queue)
unfolding on_write do_write
on_write-begun w = elim (Bool-cases (no_messages (tail w.write_msg_queue))) [
  | inl last ↦ rw (last, begun-same w (tail w.write_msg_queue)) (rw last refl)
  | inr more ↦ rw more (
      begun-do_write w
        (record w {
          write_msg_queue = tail w.write_msg_queue;
          written = w.written ++ current w.write_msg_queue;
        })
        refl
      ∙ sym (ap not more))
]

no_messages-snoc : (q : List Message) (m : Message) → no_messages (q ++ (m ∷ [])) ≡ false
no_messages-snoc [] m = refl
no_messages-snoc (n ∷ q) m = refl

module _ {X : Type 0} where
  pushed-Stuck :
      (ms : List Message) (s : Link X)
      → Stuck s
      → let s' : Link X = record s {
        in_flight = s.in_flight || begun s.writer (push ms s.writer);
        writer = push ms s.writer;
      } in
        Stuck s' × (s'.writer.started ≡ s.writer.started)
  pushed-Stuck ms s k =
      rw
        (
          stuck-push ms s.writer k.waiting,
          k.idle,
          begun-same s.writer (s.writer.write_msg_queue ++ ms),
        )
        (
          record {
            waiting = no_messages-append s.writer.write_msg_queue ms k.waiting;
            idle = refl;
          },
          refl,
        )

  either-Stuck :
      (b : Bool) {s t : Link X} (started : List (Option Message))
      → Stuck s × (s.writer.started ≡ started)
      → Stuck t × (t.writer.started ≡ started)
      → let u : Link X = if b then s else t in Stuck u × (u.writer.started ≡ started)
  either-Stuck true started ks kt = ks
  either-Stuck false started ks kt = kt

  link_step-Stuck :
      (e : LinkEvent) (s : Link X)
      → Stuck s
      → let s' : Link X = link_step e s in Stuck s' × (s'.writer.started ≡ s.writer.started)
  unfolding link_step send_message send queue_message queue_write on_written on_write_error
      send_chat_message stop disconnect on_connected
  link_step-Stuck (sends_message m) s k = pushed-Stuck (m ∷ []) s k
  link_step-Stuck (sends o) s k = pushed-Stuck (get_messages o) s k
  link_step-Stuck write_ends s k = rw k.idle (record { waiting = k.waiting; idle = refl }, refl)
  link_step-Stuck write_fails s k = rw k.idle (record { waiting = k.waiting; idle = refl }, refl)
  link_step-Stuck connects s k = (record { waiting = k.waiting; idle = k.idle }, refl)
  link_step-Stuck connected s k = (record { waiting = k.waiting; idle = k.idle }, refl)
  link_step-Stuck disconnects s k = (record { waiting = k.waiting; idle = k.idle }, refl)
  link_step-Stuck stops s k = (record { waiting = k.waiting; idle = k.idle }, refl)
  link_step-Stuck (chats text) s k =
      either-Stuck s.socket_open s.writer.started
        (pushed-Stuck (get_messages (from_string text (Out.new MessageType.chat_message))) s k)
        (k, refl)

  link_run-Stuck :
      (es : List LinkEvent) (s : Link X)
      → Stuck s
      → (link_run es s).writer.started ≡ s.writer.started
  unfolding link_run
  link_run-Stuck [] s k = refl
  link_run-Stuck (e ∷ es) s k =
      let (k', same) = link_step-Stuck e s k in link_run-Stuck es (link_step e s) k' ∙ same

  failed-Stuck :
      (s : Link X)
      → s.in_flight ≡ true
      → no_messages s.writer.write_msg_queue ≡ false
      → Stuck (on_write_error s) × ((on_write_error s).writer.started ≡ s.writer.started)
  unfolding on_write_error disconnect
  failed-Stuck s flying some_left = rw flying (record { waiting = some_left; idle = refl }, refl)

  -- Once a write has failed, nothing is ever handed to the socket again, whatever is sent and however
  -- often the client connects anew: the queue still holds the message, so each `Send` takes a
  -- write to be in progress.
  pub write_fails-started :
      (es : List LinkEvent) (s : Link X)
      → s.in_flight ≡ true
      → no_messages s.writer.write_msg_queue ≡ false
      → (link_run (write_fails ∷ es) s).writer.started ≡ s.writer.started
  unfolding link_run link_step
  write_fails-started es s flying some_left =
      let (k, same) = failed-Stuck s flying some_left in
      link_run-Stuck es (on_write_error s) k ∙ same

  -- A write is on its way just when there is a message to write.
  abbrev pub IsLive : Link X → Type 0
  IsLive s = s.in_flight ≡ not (no_messages s.writer.write_msg_queue)

  on_written-next :
      (m : Message) (q : List Message) (s : Link X)
      → s.writer.write_msg_queue ≡ m ∷ q
      → IsLive s
      → IsLive (on_written s)
        × ((on_written s).writer.write_msg_queue ≡ q)
        × ((on_written s).writer.written ≡ s.writer.written ++ (m ∷ []))
  unfolding on_written
  on_written-next m q s e live =
      let (rest, out) = on_write-queue s.writer in
      let flying : s.in_flight ≡ true = live ∙ ap (λ t. not (no_messages t)) e in
      rw flying
        (on_write-begun s.writer, rest ∙ ap tail e, out ∙ ap (λ t. s.writer.written ++ current t) e)

  writes-all :
      (q : List Message) (s : Link X)
      → s.writer.write_msg_queue ≡ q
      → IsLive s
      → let s' : Link X = link_run (replicate (length q) write_ends) s in
        (s'.writer.write_msg_queue ≡ []) × (s'.writer.written ≡ s.writer.written ++ q)
  unfolding link_run link_step
  writes-all [] s e live = (e, sym (append-nil s.writer.written))
  writes-all (m ∷ q) s e live =
      let (live', e', out) = on_written-next m q s e live in
      let (nil, all) = writes-all q (on_written s) e' live' in
      (nil, all ∙ ap (λ t. t ++ q) out ∙ append_assoc s.writer.written (m ∷ []) q)

  sent-IsLive :
      (m : Message) (s : Link X)
      → IsLive s
      → let s' : Link X = send_message m s in
        IsLive s'
        × (s'.writer.write_msg_queue ≡ s.writer.write_msg_queue ++ (m ∷ []))
        × (s'.writer.written ≡ s.writer.written)
  unfolding send_message queue_message do_write
  sent-IsLive m s live = elim (Bool-cases (no_messages s.writer.write_msg_queue)) [
    | inl nothing ↦
        rw (live, nothing, no_messages-snoc s.writer.write_msg_queue m)
          (
            begun-do_write s.writer
                (record s.writer { write_msg_queue = s.writer.write_msg_queue ++ (m ∷ []) }) refl,
            refl,
            refl,
          )
    | inr something ↦
        rw (live, something, no_messages-snoc s.writer.write_msg_queue m) (refl, refl, refl)
  ]

  -- Messages that are sent, one after another.
  abbrev pub send_all : List Message → Link X → Link X
  send_all [] s = s
  send_all (m ∷ ms) s = send_all ms (send_message m s)

  send_all-IsLive :
      (ms : List Message) (s : Link X)
      → IsLive s
      → let s' : Link X = send_all ms s in
        IsLive s'
        × (s'.writer.write_msg_queue ≡ s.writer.write_msg_queue ++ ms)
        × (s'.writer.written ≡ s.writer.written)
  send_all-IsLive [] s live = (live, sym (append-nil s.writer.write_msg_queue), refl)
  send_all-IsLive (m ∷ ms) s live =
      let (live', e, w) = sent-IsLive m s live in
      let (live'', e', w') = send_all-IsLive ms (send_message m s) live' in
      (live'', e' ∙ ap (λ t. t ++ ms) e ∙ append_assoc s.writer.write_msg_queue (m ∷ []) ms, w' ∙ w)

  -- On a connection where a write is on its way just when there is a message to write, every message is
  -- written in the end: after any messages are sent and as many writes have succeeded as messages
  -- wait, the queue is empty, and those that waited before and those that were sent have
  -- been written, in order.
  pub send_all-written :
      (ms : List Message) (s : Link X)
      → IsLive s
      → let waiting : List Message = s.writer.write_msg_queue ++ ms in
        let s' : Link X = link_run (replicate (length waiting) write_ends) (send_all ms s) in
        (s'.writer.write_msg_queue ≡ []) × (s'.writer.written ≡ s.writer.written ++ waiting)
  send_all-written ms s live =
      let (live', e, w) = send_all-IsLive ms s live in
      let (nil, all) = writes-all (s.writer.write_msg_queue ++ ms) (send_all ms s) e live' in
      (nil, all ∙ ap (λ t. t ++ (s.writer.write_msg_queue ++ ms)) w)
