-- ===== src/Net/Out.antt =====
-- common/net-message.hpp and .cpp, class `MessageOut`: a body cut into messages.
-- The list holds shared pointers, and no two entries of it are one message; so a message is a value
-- and a write through a pointer replaces its entry. `int64_t payload_written` is the number of bytes
-- in the list, far below 2^63. The buffer that `Next` hands out is the body of the last message.
pub mod Fragments
pub mod Buffer
pub mod Messages
use tec.Net.MessageType
use tec.Net.Message.{Message, get, max_body_length, set_body_length, encode_header, fill}
use tec.Base.{
  ℕ, zero, suc, ◌+◌, ◌-◌, ◌%◌, ◌^◌, Option, none, some, List, [], ◌∷◌, ◌++◌, length, take, drop,
  ltb, leb, ◌==◌, if◌then◌else◌,
}

pub record MessageOut : Type 0 where
  pub message_type : ℕ
  pub message_id : ℕ
  pub current_sequence : ℕ
  pub payload_written : ℕ
  pub message_list : List Message

-- `MessageOut(MessageType)`
unfoldable pub new : ℕ → MessageOut
new msg_type = record {
  message_type = msg_type;
  message_id = 0;
  current_sequence = 0;
  payload_written = 0;
  message_list = [];
}

-- `back()` of a list, and a write through it.
module _ {ℓ} {A : Type ℓ} where
  abbrev pub last? : List A → Option A
  last? [] = none
  last? (x ∷ []) = some x
  last? (x ∷ y ∷ xs) = last? (y ∷ xs)

  abbrev pub at_last : (A → A) → List A → List A
  at_last f [] = []
  at_last f (x ∷ []) = f x ∷ []
  at_last f (x ∷ y ∷ xs) = x ∷ at_last f (y ∷ xs)

abbrev pub set_type : ℕ → Message → Message
set_type t m = record m { message_type = t }

-- The message that `Next` appends.
unfoldable pub blank : MessageOut → Message
blank o =
    (set_body_length max_body_length
      (record get { message_type = o.message_type; message_id = o.message_id })).0

-- `Next`: it always succeeds, with a buffer of `max_body_length` bytes.
unfoldable pub next : MessageOut → MessageOut
next o = record o {
  message_list = at_last (set_type MessageType.multi_part) o.message_list ++ (blank o ∷ []);
  payload_written = o.payload_written + (blank o).body_length;
}

-- `BackUp` (its `int` is not negative here).
unfoldable pub back_up : ℕ → MessageOut → MessageOut
back_up count o = elim (last? o.message_list) [
  | none ↦ o
  | some msg ↦ if ltb count 1 then o else if ltb msg.body_length count then o else record o {
    message_list = at_last (λ m. (set_body_length (m.body_length - count) m).0) o.message_list;
    payload_written = o.payload_written - count;
  }
]

-- `memcpy` into the buffer of the last `Next`.
unfoldable pub copy : List ℕ → MessageOut → MessageOut
copy bytes o = record o { message_list = at_last (fill bytes) o.message_list }

-- The loop of `FromBuffer`, over the bytes that remain. `none` means that the fuel ran out.
unfoldable pub from_buffer_loop : ℕ → List ℕ → MessageOut → Option MessageOut
from_buffer_loop zero remain o = none
from_buffer_loop (suc fuel) remain o =
    let full =
      from_buffer_loop fuel (drop max_body_length remain)
        (copy (take max_body_length remain) (next o)) in
    let short = some (back_up (max_body_length - length remain) (copy remain (next o))) in
    if length remain == 0
    then some o
    else if leb max_body_length (length remain)
    then full
    else short

-- `FromBuffer`, and `FromString` on the bytes of the string.
unfoldable pub from_buffer : List ℕ → MessageOut → Option MessageOut
from_buffer body o = from_buffer_loop (suc (length body)) body o

-- The loop of `GetMessages`: `sequence` is a `uint32_t`.
unfoldable pub stamp : ℕ → ℕ → List Message → List Message
stamp id sequence [] = []
stamp id sequence (m ∷ ms) =
    encode_header (record m {
      message_type = MessageType.multi_part;
      sequence_number = sequence;
      message_id = id;
    })
    ∷ stamp id ((sequence + 1) % 2 ^ 32) ms

-- `GetMessages`: the list that it returns shares its messages with the list of the object, which
-- is left with the same contents.
unfoldable pub get_messages : MessageOut → List Message
get_messages o =
    at_last (λ m. encode_header (set_type o.message_type m)) (stamp o.message_id 0 o.message_list)

unfoldable pub is_empty : MessageOut → tec.Base.Bool
is_empty o = length o.message_list == 0
