-- ===== src/Net/RoundTrip/Received.antt =====
-- The messages of a body as the other side of a connection holds them: what `wire` of
-- common/net-message.hpp puts on the socket, read by server/client-connection.cpp.
use tec.Base.{
  ℕ, zero, suc, ◌+◌, ◌%◌, ◌^◌, ◌<◌, ◌≡◌, ◌≢◌, refl, ap, sym, ◌∙◌, none, some, List, [], ◌∷◌, ◌++◌,
  length, All, false, arith, drop, map, append_assoc, append-nil, length-append, take-append,
  drop-append, take-length, ltb,
}
use tec.Net.Message.{Message, IsValid, get, payload, wire, fill, header_length}
use tec.Net.Message.Header.{decode_header-encode_header}
use tec.Net.Out.Fragments.{payloads}
use tec.Net.Out.Messages.{IsSent}
use tec.Net.In.{MessageIn, push_message}
use tec.Net.In.Cursor.{Sized, StartsFull, length-payload}
use tec.Net.In.Decode.{IsBody, final_type}
use tec.Net.Stream.{read_header, read_body, read_message, read_messages}

-- The bytes of the messages, in order.
unfoldable pub wires : List Message → List ℕ
wires [] = []
wires (m ∷ ms) = wire m ++ wires ms

-- A message as the other side holds it.
unfoldable pub received : Message → Message
received m = fill (payload m) (record get {
  header = m.header;
  body_length = m.body_length;
  message_type = m.message_type;
  message_id = m.message_id;
  sequence_number = m.sequence_number;
})

wire-IsSent : (m : Message) → IsValid m → wire m ≡ m.header ++ payload m
unfolding wire
wire-IsSent m v = ap (λ t. t ++ payload m) (take-length header_length m.header (omega arith))

read_header-wire :
    {id : ℕ} (m : Message) (rest : List ℕ)
    → IsSent id m
    → read_header (wire m ++ rest)
      ≡ some (
        record get {
          header = m.header;
          body_length = m.body_length;
          message_type = m.message_type;
          message_id = m.message_id;
          sequence_number = m.sequence_number;
        },
        payload m ++ rest,
      )
unfolding read_header
read_header-wire m rest h = rw (
  wire-IsSent m h.valid,
  append_assoc m.header (payload m) rest,
  take-append header_length m.header (payload m ++ rest) (sym h.valid.header_bytes),
  drop-append header_length m.header (payload m ++ rest) (sym h.valid.header_bytes),
  decode_header-encode_header m (record get { header = m.header }) h.valid h.encoded,
  enough,
)
  where
    enough : ltb (length (m.header ++ (payload m ++ rest))) header_length ≡ false
    enough = ground (arith, length-append m.header (payload m ++ rest), h.valid.header_bytes)

read_message-wire :
    {id : ℕ} (m : Message) (rest : List ℕ)
    → IsSent id m
    → read_message (wire m ++ rest) ≡ some (received m, rest)
unfolding read_message read_body received
read_message-wire m rest h =
    let size : m.body_length ≡ length (payload m) = sym (length-payload m (omega arith)) in
    let enough : ltb (length (payload m ++ rest)) m.body_length ≡ false =
      ground (arith, length-append (payload m) rest, size) in
    rw (
      read_header-wire m rest h,
      read_message,
      enough,
      take-append m.body_length (payload m) rest size,
      drop-append m.body_length (payload m) rest size,
    )

shorter :
    {id : ℕ} (m : Message) (ms : List Message)
    → IsSent id m
    → length (wires ms) < length (wires (m ∷ ms))
unfolding wires
shorter m ms h = omega (
  arith,
  length-append (wire m) (wires ms),
  ap length (wire-IsSent m h.valid),
  length-append m.header (payload m),
  h.valid.header_bytes,
)

pub read_messages-wires :
    (id fuel : ℕ) (ms : List Message)
    → All (IsSent id) ms
    → length (wires ms) < fuel
    → read_messages fuel (wires ms) ≡ map received ms
unfolding read_messages wires
read_messages-wires id zero ms h f = elim f [ ]
read_messages-wires id (suc fuel) [] h f = rw (read_none, read_messages)
  where
    read_none : read_message [] ≡ none
    read_none = unfold read_message read_header in ground arith
read_messages-wires id (suc fuel) (m ∷ ms) h f =
    rw (read_message-wire m (wires ms) h.0, read_messages)
      (ap (◌∷◌ (received m)) (read_messages-wires id fuel ms h.1 (omega (arith, shorter m ms h.0))))

-- The collecting side: each message is pushed into a fresh `MessageIn`.
unfoldable pub gather : List Message → MessageIn → MessageIn
gather [] s = s
gather (m ∷ ms) s = gather ms (push_message m s)

pub gather_lem :
    (ms : List Message) (s : MessageIn) → (gather ms s).message_list ≡ s.message_list ++ ms
unfolding gather push_message
gather_lem [] s = sym (append-nil s.message_list)
gather_lem (m ∷ ms) s = gather_lem ms (push_message m s) ∙ append_assoc s.message_list (m ∷ []) ms

pub payload-received : (m : Message) → Sized m → payload (received m) ≡ payload m
unfolding received fill payload
payload-received m h =
    take-append m.body_length (payload m) (drop (length (payload m)) get.body)
      (sym (length-payload m h))

received-Sized : (m : Message) → Sized m → Sized (received m)
unfolding received fill
received-Sized m h =
    omega
      (arith, length-append (payload m) (drop (length (payload m)) get.body), length-payload m h)

pub payloads-received :
    (id : ℕ) (ms : List Message) → All (IsSent id) ms → payloads (map received ms) ≡ payloads ms
unfolding payloads
payloads-received id [] h = refl
payloads-received id (m ∷ ms) h =
    rw (payload-received m (omega arith)) (ap (◌++◌ (payload m)) (payloads-received id ms h.1))

pub Sized-received : (id : ℕ) (ms : List Message) → All (IsSent id) ms → All Sized (map received ms)
Sized-received id [] h = tt
Sized-received id (m ∷ ms) h = (received-Sized m (omega arith), Sized-received id ms h.1)

pub IsBody-received :
    (number : ℕ) (ms : List Message)
    → IsBody number ms
    → IsBody number (map received ms) × (final_type (map received ms) ≡ final_type ms)
unfolding received fill
IsBody-received number [] h = elim h [ ]
IsBody-received number (m ∷ []) h = (h, refl)
IsBody-received number (m ∷ n ∷ ms) h =
    let (b, e) = IsBody-received ((number + 1) % 2 ^ 32) (n ∷ ms) h.2 in ((h.0, h.1, b), e)

pub StartsFull-received :
    (id : ℕ) (ms : List Message) → ms ≢ [] → All (IsSent id) ms → StartsFull (map received ms)
unfolding received fill
StartsFull-received id [] n h = absurd (n refl)
StartsFull-received id (m ∷ ms) n h = h.0.filled
