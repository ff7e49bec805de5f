-- ===== src/Net/Tests.antt =====
-- Tests of the framing of messages (common/net-message.cpp) on short bodies.
use tec.Base.{
  ℕ, suc, ◌+◌, ◌-◌, ◌↔◌, ◌≡◌, ◌≢◌, ◌<◌, inl, refl, ap, arith, true, none, some, List, [], ◌∷◌, ◌++◌,
  length, All, replicate,
}
use tec.Net.MessageType
use tec.Net.Message.{Message, IsValid, encode_header, decode_header, payload}
use tec.Net.Message.Header.{decode_header-encode_header}
use tec.Net.Out
use tec.Net.Out.{MessageOut, from_buffer, get_messages}
use tec.Net.Out.Buffer.{IsFragment}
use tec.Net.Out.Fragments.{payloads}
use tec.Net.Out.Messages.{IsSent, get_messages-lem}
use tec.Net.In
use tec.Net.In.{MessageIn, decode_messages, reset, to_string, read_string}
use tec.Net.In.Cursor.{Sized}
use tec.Net.In.Decode.{IsBody, final_type, decode_messages_iff}
use tec.Net.In.Read.{IsReadable, unread}
use tec.Net.In.Drain.{read_string-lem, reset-IsReadable}
use tec.Net.In.Stall.{read_string-stalls}
use tec.Net.Stream.{read_messages}
use tec.Net.RoundTrip.{round_trip}
use tec.Net.RoundTrip.Received.{wires, gather}

abbrev hello : List ℕ
hello = 104 ∷ 101 ∷ 108 ∷ 108 ∷ 111 ∷ []

-- A message with a body, as it arrives.
abbrev fragment : ℕ → ℕ → List ℕ → Message
fragment t number bytes = record {
  header = replicate 16 0;
  body = bytes ++ replicate (1024 - length bytes) 0;
  body_length = length bytes;
  sequence_number = number;
  message_type = t;
  message_id = 7;
}

abbrev parts : List Message
parts = fragment MessageType.multi_part 0 hello ∷ fragment MessageType.chat_message 1 hello ∷ []

abbrev stream : MessageIn
stream = record {
  message_type = MessageType.sync;
  message_id = 0;
  payload_read = 0;
  read_offset = 0;
  message_list = parts;
  read_index = [];
}

-- The same with an empty fragment in front.
abbrev stalled : MessageIn
stalled = record stream { message_list = fragment MessageType.multi_part 0 [] ∷ parts }

abbrev valid_message : Message
valid_message = fragment MessageType.login 3 hello

valid_message-IsValid : IsValid valid_message
valid_message-IsValid = record {
  header_bytes = refl;
  body_bytes = refl;
  fits = omega arith;
  type_word = omega arith;
  id_word = omega arith;
  sequence_word = omega arith;
}

abbrev receiver : Message
receiver = record valid_message {
  header = (encode_header valid_message).header;
  body_length = 0;
  message_type = 0;
}

decode_header-encode_header_example : decode_header receiver ≡ (
  record receiver {
    body_length = 5;
    message_type = MessageType.login;
    message_id = 7;
    sequence_number = 3;
  },
  true,
)
decode_header-encode_header_example =
    decode_header-encode_header valid_message receiver valid_message-IsValid refl

abbrev oversized : Message
oversized = record valid_message { header = replicate 16 255 }

abbrev written : MessageOut
written = record {
  message_type = MessageType.login;
  message_id = 7;
  current_sequence = 0;
  payload_written = 10;
  message_list = parts;
}

fragment-IsFragment : (t number : ℕ) → IsFragment (fragment t number hello)
fragment-IsFragment t number = record {
  header_bytes = refl;
  body_bytes = refl;
  fits = omega arith;
  filled = omega arith;
}

get_messages-lem_example :
    All (IsSent 7) (get_messages written)
    × (payloads (get_messages written) ≡ payloads parts)
    × (parts ≢ []
        → MessageType.login ≢ MessageType.multi_part
        → IsBody 0 (get_messages written) × (final_type (get_messages written) ≡ MessageType.login))
get_messages-lem_example =
    get_messages-lem written
      (
        fragment-IsFragment MessageType.multi_part 0,
        (fragment-IsFragment MessageType.chat_message 1, tt),
      )
      (omega arith) (omega arith)

decode_messages_iff_example :
    ((decode_messages stream).1 ≡ true ↔ IsBody 0 parts)
    × (IsBody 0 parts
        → decode_messages stream ≡ (record stream { message_type = final_type parts }, true))
decode_messages_iff_example = decode_messages_iff stream

stream-Sized : All Sized parts
stream-Sized = (omega arith, (omega arith, tt))

stream-IsReadable : IsReadable (reset stream) × (unread (reset stream) ≡ payloads parts)
stream-IsReadable = reset-IsReadable stream stream-Sized (omega arith)

short : length (reset stream).message_list < 3
unfolding reset
short = omega arith

length-unread : length (unread (reset stream)) ≡ 10
unfolding payloads payload
length-unread = ap length stream-IsReadable.1

read_string-lem_example :
    (s' : MessageIn) × (read_string 3 11 (reset stream) hello
      ≡ some (s', hello ++ unread (reset stream)))
read_string-lem_example =
    read_string-lem 3 11 (reset stream) hello stream-IsReadable.0 short
      (omega (arith, length-unread))

read_string-stalls_example : read_string 100 100 stalled [] ≡ none
read_string-stalls_example =
    read_string-stalls 100 100 stalled [] (fragment MessageType.multi_part 0 []) parts refl refl
      (inl (omega arith)) refl refl

hello_filled : hello ≢ []
hello_filled = λ e. omega (arith, ap length e)

round_trip_example :
    (o : MessageOut) × (s s' : MessageIn) × (from_buffer hello
        (record (Out.new MessageType.login) { message_id = 7 })
      ≡ some o)
    × (let sent = get_messages o in
        let got = read_messages (suc (length (wires sent))) (wires sent) in
        (length got ≡ length sent)
        × (decode_messages (gather got In.new) ≡ (s, true))
        × (s.message_type ≡ MessageType.login)
        × (to_string (suc (length got + 5)) (reset s) ≡ some (s', hello)))
round_trip_example =
    round_trip MessageType.login 7 hello hello_filled (λ e. omega (arith, e)) (omega arith)
      (omega arith)
