-- ===== src/Server/Accept/Rejected.antt =====
-- What a client that is rejected reads, and when the server fails (server/server.cpp).
use tec.Base.{
  ℕ, suc, ◌%◌, ◌^◌, ◌<◌, ◌≤◌, ◌≡◌, refl, ◌∙◌, Bool, true, false, List, [], ◌∷◌, ◌++◌, length, arith,
  ltb, drop, append-nil, length-append, length-drop, length-replicate, take-append,
}
use tec.Net.MessageType
use tec.Net.Message.{
  Message, get, set_body_length, encode_header, encode_32, fill, wire, payload, max_body_length,
}
use tec.Net.Out.Messages.{IsSent}
use tec.Net.Stream.{read_messages}
use tec.Net.RoundTrip.Received.{wires, received, read_messages-wires, payload-received}
use tec.Server.Accept.{accepted, rejected, threw, reject_message, on_connect}

-- One message on the wire.
read_wire :
    (m : Message) → IsSent 0 m → read_messages (suc (length (wire m))) (wire m) ≡ received m ∷ []
unfolding wires
read_wire m sent =
    rw (append-nil (wire m)) at
      (read_messages-wires 0 (suc (length (wires (m ∷ [])))) (m ∷ []) (sent, tt) (omega arith))

-- The message with a text that fits.
abbrev small_message : List ℕ → Message
small_message text = encode_header (fill text (record get { body_length = length text }))

reject_message-small :
    (text : List ℕ) → length text ≤ 1024 → reject_message text ≡ (small_message text, true)
unfolding reject_message set_body_length
reject_message-small text small =
    let fits : ltb max_body_length (length text) ≡ false = ground (arith, small) in
    let word : length text % 2 ^ 32 ≡ length text = omega arith in rw (fits, word) refl

reject_message-large : (text : List ℕ) → 1024 < length text → (reject_message text).1 ≡ false
unfolding reject_message set_body_length
reject_message-large text large =
    let over : ltb max_body_length (length text) ≡ true = ground (arith, large) in rw over refl

small_message-IsSent :
    (text : List ℕ) → 0 < length text → length text ≤ 1024 → IsSent 0 (small_message text)
unfolding encode_header encode_32 fill get
small_message-IsSent text some_byte small = record {
  valid = record {
    header_bytes = refl;
    body_bytes = omega (
      arith,
      length-append text (drop (length text) get.body),
      length-drop (length text) get.body,
      whole,
    );
    fits = small;
    type_word = omega arith;
    id_word = omega arith;
    sequence_word = omega arith;
  };
  encoded = refl;
  same_id = refl;
  filled = some_byte;
}
  where
    whole : length get.body ≡ 1024
    whole = length-replicate {A = ℕ} 1024 0

small_message-type :
    (text : List ℕ) → (received (small_message text)).message_type ≡ MessageType.chat_message
unfolding received encode_header fill get
small_message-type text = refl

small_message-payload : (text : List ℕ) → payload (small_message text) ≡ text
unfolding encode_header fill payload
small_message-payload text = take-append (length text) text (drop (length text) get.body) refl

-- A connection that no script rejects is accepted. One that is rejected for a reason of at most 1023
-- bytes is told so: what is written to it is one message of type CHAT_MESSAGE, whose body the
-- client reads as the reason and the end of a line. Any longer reason throws out of `OnConnect`.
pub on_connect-lem :
    (script : Bool × List ℕ → Bool × List ℕ) (default_reason : List ℕ)
    → let (cancel, reason) = script (false, default_reason) in
      (cancel ≡ false → on_connect script default_reason ≡ accepted)
      × (cancel ≡ true
          → length reason < 1024
          → (bytes : List ℕ) × (m : Message) × (on_connect script default_reason ≡ rejected bytes)
            × (read_messages (suc (length bytes)) bytes ≡ m ∷ [])
            × (m.message_type ≡ MessageType.chat_message)
            × (payload m ≡ reason ++ (10 ∷ [])))
      × (cancel ≡ true → 1024 ≤ length reason → on_connect script default_reason ≡ threw)
unfolding on_connect
on_connect-lem script default_reason =
    let (cancel, reason) = script (false, default_reason) in
    let text : List ℕ = reason ++ (10 ∷ []) in
    (
      λ no. rw no refl,
      λ yes short.
          let small : length text ≤ 1024 = omega (arith, length-append reason (10 ∷ [])) in
          let some_byte : 0 < length text = omega (arith, length-append reason (10 ∷ [])) in
          let sent : IsSent 0 (small_message text) = small_message-IsSent text some_byte small in
          (
            wire (small_message text),
            received (small_message text),
            rw (yes, reject_message-small text small) refl,
            read_wire (small_message text) sent,
            small_message-type text,
            payload-received (small_message text) (omega arith) ∙ small_message-payload text,
          ),
      λ yes long.
          let large : 1024 < length text = omega (arith, length-append reason (10 ∷ [])) in
          rw (yes, reject_message-large text large) refl,
    )
