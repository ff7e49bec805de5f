-- ===== src/Server/World/Leaving.antt =====
-- What the other clients see of a client that leaves (`OnDisconnect` of server/server.cpp).
use tec.Base.{
  ℕ, suc, ◌+◌, length, ◌++◌, if◌then◌else◌, ◌≡◌, true, Option, none, some, List, [], ◌∷◌, ◌==◌,
}
use tec.Base.Maps.{find}
use tec.Net.MessageType
use tec.Net.Out
use tec.Net.Out.{MessageOut}
use tec.Net.Message.{Message}
use tec.Net.In
use tec.Net.In.{MessageIn, reset, decode_messages}
use tec.Net.Stream.{read_messages}
use tec.Net.RoundTrip.Received.{wires, gather}
use tec.Server.Writer.{Writer, no_messages, front}
use tec.Client.Handshake.{text_of}
use tec.Server.World.{Client, Server, from_string}

abbrev map_some : {A B : Type 0} → (A → B) → Option A → Option B
map_some f none = none
map_some f (some a) = some (f a)

-- The CLIENT_LEAVE message, as it is: it names entity 0.
abbrev pub leave_msg : (ℕ → List ℕ) → MessageOut
leave_msg to_text = from_string (to_text 0) (Out.new MessageType.client_leave)

-- What the other side makes of messages that carry a text.
pub record Carries (t : ℕ) (body : List ℕ) (ms : List Message) : Type 0 where
  pub received : MessageIn
  pub decoded :
      let got = read_messages (suc (length (wires ms))) (wires ms) in
      decode_messages (gather got In.new) ≡ (received, true)
  pub of_type : received.message_type ≡ t
  pub text :
      let got = read_messages (suc (length (wires ms))) (wires ms) in
      text_of (suc (length got + length body)) (reset received) ≡ body

-- What a client that stays has after another one left whose entity has that id.
pub record Informed {P O V : Type 0} (to_text : ℕ → List ℕ) (id : ℕ) (d d' : Client P O V)
    : Type 0 where
  pub user : d'.user ≡ d.user
  pub sent : List Message
  pub queue : d'.writer.write_msg_queue ≡ d.writer.write_msg_queue ++ sent
  pub started : d'.writer.started ≡ (
      if no_messages d.writer.write_msg_queue
      then d.writer.started ++ (front sent ∷ [])
      else d.writer.started)
  pub written : d'.writer.written ≡ d.writer.written
  pub carries : Carries MessageType.client_leave (to_text 0) sent
  pub positions :
      (e : ℕ)
      → find e d'.state_changes_since_confirmed.positions
        ≡ (if id == e then none else find e d.state_changes_since_confirmed.positions)
  pub orientations :
      (e : ℕ)
      → find e d'.state_changes_since_confirmed.orientations
        ≡ (if id == e then none else find e d.state_changes_since_confirmed.orientations)
  pub velocities :
      (e : ℕ)
      → find e d'.state_changes_since_confirmed.velocities
        ≡ (if id == e then none else find e d.state_changes_since_confirmed.velocities)
