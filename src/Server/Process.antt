-- ===== src/Server/Process.antt =====
-- `process_message` and `OnJoinWorld` of server/client-connection.cpp: what a complete body makes a
-- connection do. The parsers of the protocol buffers, the authenticator, the script that is called on
-- a login, the clock and the text of a number are parameters; what is done to the rest of the server
-- is the list of actions, in order.
use tec.Base.{
  ℕ, Bool, true, false, not, ◌&&◌, Option, none, some, List, [], ◌∷◌, ◌==◌, if◌then◌else◌, ◌≡◌, ◌≢◌,
  refl, arith, Bool-cases, Option-cases, inl, inr,
}
use tec.Net.MessageType
use tec.Net.Message.{Message, get, set_body_length, encode_header, encode_64, fill}
use tec.Net.Out
use tec.Net.Out.{MessageOut}
use tec.Net.In.{MessageIn, to_out}
use tec.Server.World.{from_string}

-- The user of the connection, with the entity id, and the rest of the state that is changed here.
pub record Peer (U : Type 0) : Type 0 where
  pub user : Option U
  pub entity_id : ℕ
  pub last_confirmed_state_id : ℕ
  pub last_recv_command_id : ℕ
  pub ready_to_recv_states : Bool

pub data Action (C K : Type 0) : Type 0 where
  deliver : MessageOut → Bool → Action C K
  log_chat : MessageIn → Action C K
  write_message : Message → Action C K
  write : MessageOut → Action C K
  emit_commands : C → Action C K
  emit_chat_command : K → Action C K
  send_world : Action C K
  add_entity : ℕ → Action C K
  disconnect : Action C K

-- A message of the pool with a length and a type, its header encoded.
abbrev pub short_message : ℕ → ℕ → Message
short_message t n = encode_header (record (set_body_length n get).0 { message_type = t })

-- The answer to SYNC.
unfoldable pub sync_response : ℕ → Message
sync_response timestamp = encode_header (
    fill (encode_64 timestamp)
      (set_body_length 8 (record get { message_type = MessageType.sync })).0)

module _ {U C K : Type 0} (parse_commands : MessageIn → C) (last_state_id : C → Option ℕ)
    (command_id : C → ℕ) (parse_chat_command : MessageIn → K) (username : MessageIn → ℕ)
    (authenticate : ℕ → Option U) (script : ℕ → Bool → Bool × Bool) (next_entity_id : ℕ)
    (to_text : ℕ → List ℕ) (timestamp : ℕ) where
  -- `OnJoinWorld`
  unfoldable pub on_join_world : Peer U → Peer U × List (Action C K)
  on_join_world c = elim c.user [
    | none ↦ (c, [])
    | some u ↦ (
      record c { entity_id = next_entity_id },
      add_entity next_entity_id
          ∷ write (from_string (to_text next_entity_id) (Out.new MessageType.client_id))
          ∷ deliver (from_string (to_text next_entity_id) (Out.new MessageType.client_join)) false
          ∷ [],
    )
  ]

  -- The case of CLIENT_COMMAND.
  unfoldable pub on_command : C → Peer U → Peer U × List (Action C K)
  on_command commands c =
      let confirmed : ℕ = elim (last_state_id commands) [
        | none ↦ c.last_confirmed_state_id
        | some id ↦ if id == 0 then c.last_confirmed_state_id else id
      ] in
      (
        record c {
          last_confirmed_state_id = confirmed;
          last_recv_command_id = command_id commands;
        },
        emit_commands commands ∷ [],
      )

  -- The case of LOGIN. The script is told whether the user was found, and returns whether it rejects
  -- the login and whether it is authenticated.
  unfoldable pub on_login : ℕ → Peer U → Peer U × List (Action C K)
  on_login name c =
      let found : Bool = elim (authenticate name) [ none ↦ false | some u ↦ true ] in
      let (reject, authenticated) = script name found in
      if not reject && authenticated
      then (
        record c { user = authenticate name },
        write_message (short_message MessageType.authenticated 1) ∷ send_world ∷ [],
      )
      else (c, disconnect ∷ [])

  -- `process_message`
  unfoldable pub process_message : MessageIn → Peer U → Peer U × List (Action C K)
  process_message msg c =
      if msg.message_type == MessageType.chat_message
      then (c, deliver (to_out msg) true ∷ log_chat msg ∷ [])
      else if msg.message_type == MessageType.sync
      then (c, write_message (sync_response timestamp) ∷ [])
      else if msg.message_type == MessageType.client_command
      then on_command (parse_commands msg) c
      else if msg.message_type == MessageType.chat_command
      then (c, emit_chat_command (parse_chat_command msg) ∷ [])
      else if msg.message_type == MessageType.login
      then on_login (username msg) c
      else if msg.message_type == MessageType.client_ready_to_receive
      then (record c { ready_to_recv_states = true }, [])
      else if msg.message_type == MessageType.client_join
      then on_join_world c
      else (c, [])

  -- The user of a connection changes only by a LOGIN message that the script, told whether the name is
  -- known, does not reject and holds authenticated; it is then whom the authenticator returns for the
  -- name, or no one.
  pub process_message-user :
      (msg : MessageIn) (c : Peer U)
      → (msg.message_type ≢ MessageType.login → (process_message msg c).0.user ≡ c.user)
        × (msg.message_type ≡ MessageType.login
            → let known : Bool = elim (authenticate (username msg)) [
              | none ↦ false
              | some u ↦ true
            ] in
              (process_message msg c).0.user ≡ (
                if not (script (username msg) known).0 && (script (username msg) known).1
                then authenticate (username msg)
                else c.user))
  unfolding process_message on_login on_command on_join_world
  process_message-user msg c = (λ h. others (ground (arith, h)), λ e. login e)
    where
      joins : (on_join_world c).0.user ≡ c.user
      joins = elim (Option-cases c.user) [
        | inl nobody ↦ rw (on_join_world, nobody) nobody
        | inr (u, somebody) ↦ rw (on_join_world, somebody) somebody
      ]

      others :
          (msg.message_type == MessageType.login) ≡ false → (process_message msg c).0.user ≡ c.user
      others no_login = elim (Bool-cases (msg.message_type == MessageType.chat_message)) [
        | inl on_0 ↦ rw (on_0) refl
        | inr off_0 ↦ elim (Bool-cases (msg.message_type == MessageType.sync)) [
          | inl on_1 ↦ rw (off_0, on_1) refl
          | inr off_1 ↦ elim (Bool-cases (msg.message_type == MessageType.client_command)) [
            | inl on_2 ↦ rw (off_0, off_1, on_2) refl
            | inr off_2 ↦ elim (Bool-cases (msg.message_type == MessageType.chat_command)) [
              | inl on_3 ↦ rw (off_0, off_1, off_2, on_3) refl
              | inr off_3 ↦
                  elim (Bool-cases (msg.message_type == MessageType.client_ready_to_receive)) [
                    | inl on_4 ↦ rw (off_0, off_1, off_2, off_3, no_login, on_4) refl
                    | inr off_4 ↦ elim (Bool-cases (msg.message_type == MessageType.client_join)) [
                      | inl on_5 ↦ rw (off_0, off_1, off_2, off_3, no_login, off_4, on_5) joins
                      | inr off_5 ↦ rw (off_0, off_1, off_2, off_3, no_login, off_4, off_5) refl
                    ]
                  ]
            ]
          ]
        ]
      ]

      known : Bool
      known = elim (authenticate (username msg)) [ none ↦ false | some u ↦ true ]

      accepted :
          (b : Bool)
          → let x : Peer U × List (Action C K) = (
            record c { user = authenticate (username msg) },
            write_message (short_message MessageType.authenticated 1) ∷ send_world ∷ [],
          ) in
            let y : Peer U × List (Action C K) = (c, disconnect ∷ []) in
            let r : Peer U × List (Action C K) = if b then x else y in
            r.0.user ≡ (if b then authenticate (username msg) else c.user)
      accepted true = refl
      accepted false = refl

      login :
          msg.message_type ≡ MessageType.login
          → (process_message msg c).0.user ≡ (
              if not (script (username msg) known).0 && (script (username msg) known).1
              then authenticate (username msg)
              else c.user)
      login e =
          let chat : (msg.message_type == MessageType.chat_message) ≡ false = ground (arith, e) in
          let sync : (msg.message_type == MessageType.sync) ≡ false = ground (arith, e) in
          let command : (msg.message_type == MessageType.client_command) ≡ false =
            ground (arith, e) in
          let chat_command : (msg.message_type == MessageType.chat_command) ≡ false =
            ground (arith, e) in
          let this : (msg.message_type == MessageType.login) ≡ true = ground (arith, e) in
          rw (chat, sync, command, chat_command, this)
            (accepted (not (script (username msg) known).0 && (script (username msg) known).1))
