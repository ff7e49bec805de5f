-- ===== src/Net/In.antt =====
-- common/net-message.hpp and .cpp, class `MessageIn`: the messages of one body, read as a stream.
-- `read_index` is an iterator of a linked list: the messages from the one that it points at on, and
-- [] for `cend()`. `payload_read` and the `int` sizes stay far below their limits, since a body has at
-- most 1024 bytes.
pub mod Decode
pub mod Cursor
pub mod Read
pub mod Drain
pub mod Stall
use tec.Net.MessageType
use tec.Net.Message.{Message, payload}
use tec.Net.Out.{MessageOut}
use tec.Base.{
  ℕ, zero, suc, ◌+◌, ◌-◌, ◌%◌, ◌^◌, Bool, true, false, Option, none, some, List, [], ◌∷◌, ◌++◌,
  length, take, drop, ltb, leb, ◌==◌, if◌then◌else◌,
}

pub record MessageIn : Type 0 where
  pub message_type : ℕ
  pub message_id : ℕ
  pub payload_read : ℕ
  pub read_offset : ℕ
  pub message_list : List Message
  pub read_index : List Message

-- The default constructor.
unfoldable pub new : MessageIn
new = record {
  message_type = MessageType.chat_message;
  message_id = 0;
  payload_read = 0;
  read_offset = 0;
  message_list = [];
  read_index = [];
}

-- An iterator that is at the end stays there when the list grows.
abbrev pub extend : List Message → Message → List Message
extend [] m = []
extend (x ∷ xs) m = x ∷ xs ++ (m ∷ [])

unfoldable pub push_message : Message → MessageIn → MessageIn
push_message m s = record s {
  message_list = s.message_list ++ (m ∷ []);
  read_index = extend s.read_index m;
}

unfoldable pub sum_lengths : List Message → ℕ
sum_lengths [] = 0
sum_lengths (m ∷ ms) = m.body_length + sum_lengths ms

unfoldable pub get_size : MessageIn → ℕ
unfolding sum_lengths
get_size s = sum_lengths s.message_list

unfoldable pub reset : MessageIn → MessageIn
reset s = record s { payload_read = 0; read_offset = 0 }

unfoldable pub to_out : MessageIn → MessageOut
to_out s = record {
  message_type = s.message_type;
  message_id = s.message_id;
  current_sequence = 0;
  payload_written = get_size s;
  message_list = s.message_list;
}

-- The loop of `DecodeMessages`: `none` is its `return false`; otherwise the type found, if there is
-- one, and the messages that the iterator has not passed.
unfoldable pub decode_loop : ℕ → List Message → Option (Option ℕ × List Message)
decode_loop verify_sequence [] = some (none, [])
decode_loop verify_sequence (m ∷ ms) =
    if m.sequence_number == verify_sequence
    then (if m.message_type == MessageType.multi_part
        then decode_loop ((verify_sequence + 1) % 2 ^ 32) ms
        else some (some m.message_type, ms))
    else none

abbrev pub decode_end : Option (Option ℕ × List Message) → MessageIn → MessageIn × Bool
decode_end none s = (s, false)
decode_end (some (none, ms)) s = (s, false)
decode_end (some (some t, [])) s = (record s { message_type = t }, true)
decode_end (some (some t, m ∷ ms)) s = (record s { message_type = t }, false)

unfoldable pub decode_messages : MessageIn → MessageIn × Bool
decode_messages s = decode_end (decode_loop 0 s.message_list) s

-- The iterators of `msgs` go with the list that is swapped out.
unfoldable pub assign_messages : List Message → MessageIn → MessageIn × Bool
assign_messages msgs s = decode_messages (record s { message_list = msgs; read_index = [] })

-- `Next`, behind its loop, at the message that the loop has found: what it hands out (`none` where it
-- returns false) and the state after it.
unfoldable pub hand_out : Message → MessageIn → MessageIn × Option (List ℕ)
hand_out m s =
    if s.read_offset == 0
    then (record s { read_offset = m.body_length }, some (payload m))
    else if ltb s.read_offset m.body_length
    then (record s { read_offset = m.body_length }, some (drop s.read_offset (payload m)))
    else (s, none)

-- The loop of `Next`, entered with `read_length` 0. The outer `none` means that the fuel ran out.
unfoldable pub next_loop : ℕ → MessageIn → Option (MessageIn × Option (List ℕ))
next_loop zero s = none
next_loop (suc fuel) s = elim s.read_index [
  | [] ↦ some (s, none)
  | m ∷ ms ↦
      if s.read_offset == m.body_length
      then next_loop fuel (record s {
        payload_read = s.payload_read + s.read_offset;
        read_offset = 0;
        read_index = ms;
      })
      else if m.body_length == 0
      then next_loop fuel s
      else some (hand_out m s)
]

-- `Next` begins at the front again as long as `payload_read` is 0.
abbrev pub rewind : MessageIn → MessageIn
rewind s = if s.payload_read == 0 then record s { read_index = s.message_list } else s

unfoldable pub next : ℕ → MessageIn → Option (MessageIn × Option (List ℕ))
next fuel s = next_loop fuel (rewind s)

-- `BackUp` (its `int` is not negative here).
unfoldable pub back_up : ℕ → MessageIn → MessageIn
back_up count s =
    if leb count s.read_offset then record s { read_offset = s.read_offset - count } else s

-- `ReadString`: the bytes that it appends to `body`. Each round of the loop has `g` fuel for `Next`.
unfoldable pub read_string : ℕ → ℕ → MessageIn → List ℕ → Option (MessageIn × List ℕ)
read_string g zero s body = none
read_string g (suc fuel) s body = elim (next g s) [
  | none ↦ none
  | some (s', none) ↦ some (s', body)
  | some (s', some bytes) ↦ read_string g fuel s' (body ++ bytes)
]

-- `ToString`
unfoldable pub to_string : ℕ → MessageIn → Option (MessageIn × List ℕ)
to_string fuel s = read_string fuel fuel s []

-- `ReadBuffer` into a buffer with `room` bytes left: the bytes that it writes there.
unfoldable pub read_buffer : ℕ → ℕ → MessageIn → ℕ → List ℕ → Option (MessageIn × List ℕ)
read_buffer g zero s room written = none
read_buffer g (suc fuel) s room written =
    let more : Option (MessageIn × List ℕ) = elim (next g s) [
      | none ↦ none
      | some (s', none) ↦ some (s', written)
      | some (s', some bytes) ↦
          if leb (length bytes) room
          then read_buffer g fuel s' (room - length bytes) (written ++ bytes)
          else some (back_up (length bytes - room) s', written ++ take room bytes)
    ] in
    if room == 0 then some (s, written) else more

-- `Skip`
unfoldable pub skip : ℕ → ℕ → MessageIn → ℕ → Option (MessageIn × Bool)
skip g zero s count = none
skip g (suc fuel) s count =
    let more : Option (MessageIn × Bool) = elim (next g s) [
      | none ↦ none
      | some (s', none) ↦ some (s', false)
      | some (s', some bytes) ↦
          if leb (length bytes) count
          then skip g fuel s' (count - length bytes)
          else some (back_up (length bytes - count) s', true)
    ] in
    if count == 0 then some (s, true) else more
