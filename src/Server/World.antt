-- ===== src/Server/World.antt =====
-- server/server.cpp and the parts of server/client-connection.cpp that the server calls for a client that
-- joins or leaves. A client is known by a number, the address of its connection. The scripts that
-- are called on the way, the sockets and the log are left out, and so are the user's entity and
-- controller but for the id. How an entity is serialized into a message and how a number is written
-- are parameters.
pub mod Recent
pub mod Leaving
use tec.Base.{
  ℕ, Bool, false, Option, none, some, List, [], ◌∷◌, ◌++◌, length, ltb, ◌==◌, if◌then◌else◌,
}
use tec.Base.Maps.{Map, find, insert, erase}
use tec.Net.MessageType
use tec.Net.Out
use tec.Net.Out.{MessageOut, from_buffer}
use tec.GameState.{GameState, on_destroyed}
use tec.Server.Writer.{Writer, queue_write}

pub record Client (P O V : Type 0) : Type 0 where
  -- The entity id of the user, if there is a user; 0 when the user is not in the world.
  pub user : Option ℕ
  pub writer : Writer
  pub state_changes_since_confirmed : GameState P O V

pub record Server (E P O V : Type 0) : Type 0 where
  pub greeting_msg : MessageOut
  pub entities : Map E
  pub clients : Map (Client P O V)
  pub recent_msgs : List MessageOut
  -- The ids in the `EntityDestroyed` events emitted.
  pub destroyed : List ℕ

abbrev pub max_recent_msgs : ℕ
max_recent_msgs = 100

-- `FromString`, which always returns.
abbrev pub from_string : List ℕ → MessageOut → MessageOut
from_string body o = elim (from_buffer body o) [ none ↦ o | some o' ↦ o' ]

module _ {P O V : Type 0} where
  -- `client->QueueWrite(msg)`
  unfoldable pub write_to : MessageOut → Client P O V → Client P O V
  write_to msg c = record c { writer = queue_write msg c.writer }

  -- `GetID`
  abbrev pub get_id : Client P O V → ℕ
  get_id c = elim c.user [ none ↦ 0 | some id ↦ id ]

  -- `OnOtherLeaveWorld`
  unfoldable pub on_other_leave_world : ℕ → Client P O V → Client P O V
  on_other_leave_world id c = record c {
    state_changes_since_confirmed = on_destroyed id c.state_changes_since_confirmed;
  }

  -- A loop over all clients.
  unfoldable pub for_all : (Client P O V → Client P O V) → Map (Client P O V) → Map (Client P O V)
  for_all f [] = []
  for_all f ((j, c) ∷ cs) = (j, f c) ∷ for_all f cs

-- The loop that drops the oldest messages.
unfoldable pub drop_oldest : List MessageOut → List MessageOut
drop_oldest [] = []
drop_oldest (m ∷ ms) =
    let rest = drop_oldest ms in if ltb max_recent_msgs (length (m ∷ ms)) then rest else m ∷ ms

module _ {E P O V : Type 0} where
  -- `Deliver(msg, save_to_recent)`
  unfoldable pub deliver : MessageOut → Bool → Server E P O V → Server E P O V
  deliver msg save_to_recent s = record s {
    recent_msgs =
        if save_to_recent then drop_oldest (s.recent_msgs ++ (msg ∷ [])) else s.recent_msgs;
    clients = for_all (write_to msg) s.clients;
  }

-- The loop of `SendWorld` over the entities.
unfoldable pub entity_messages :
    {E : Type 0} → (E → MessageOut → MessageOut) → Map E → List MessageOut
entity_messages serialize [] = []
entity_messages serialize ((id, entity) ∷ es) =
    serialize entity (Out.new MessageType.entity_create) ∷ entity_messages serialize es

module _ {E P O V : Type 0} (serialize : E → MessageOut → MessageOut) (to_text : ℕ → List ℕ) where
  -- `SendWorld`: what is queued for the client, in order.
  unfoldable pub world_messages : Server E P O V → List MessageOut
  world_messages s =
      (s.greeting_msg ∷ entity_messages serialize s.entities)
      ++ (from_string (111 ∷ 107 ∷ []) (Out.new MessageType.world_sent) ∷ s.recent_msgs)

  -- `On(eid, EntityCreated)`
  unfoldable pub on_entity_created : ℕ → E → Server E P O V → Server E P O V
  on_entity_created id entity s =
      deliver (serialize entity (Out.new MessageType.entity_create)) false
        (record s { entities = insert id entity s.entities })

  -- `On(eid, EntityDestroyed)`
  unfoldable pub on_entity_destroyed : ℕ → Server E P O V → Server E P O V
  on_entity_destroyed id s =
      deliver (from_string (to_text id) (Out.new MessageType.entity_destroy)) false
        (record s { entities = erase id s.entities })

  -- `User::RemoveEntityFromWorld`, of a user whose entity has that id: it is reset.
  unfoldable pub remove_entity : ℕ → Client P O V → Server E P O V → Client P O V × Server E P O V
  remove_entity id c s =
      if id == 0
      then (c, s)
      else (record c { user = some 0 }, record s { destroyed = s.destroyed ++ (id ∷ []) })

  -- `ClientConnection::OnLeaveWorld`: `GetEntityId` is called when the entity was removed.
  unfoldable pub on_leave_world : Client P O V → Server E P O V → Server E P O V
  on_leave_world c s = elim c.user [
    | none ↦ s
    | some id ↦
        let (c', s') = remove_entity id c s in
        deliver (from_string (to_text (get_id c')) (Out.new MessageType.client_leave)) false s'
  ]

  -- `OnDisconnect`
  unfoldable pub on_disconnect : ℕ → Server E P O V → Server E P O V
  on_disconnect client s = elim (find client s.clients) [
    | none ↦ s
    | some c ↦
        let left : Server E P O V =
          on_leave_world c (record s { clients = erase client s.clients }) in
        record left { clients = for_all (on_other_leave_world (get_id c)) left.clients }
  ]
