-- ===== src/Net/Message.antt =====
-- common/net-message.hpp, class `Message`: one fragment, its header bytes and its body bytes.
-- A byte is a number below 256, a `uint32_t` one below 2^32; the array `data` is held as its first
-- 16 bytes (`header`) and the 1024 bytes that `GetBodyPTR` points at (`body`).
pub mod Words
pub mod Header
use Prim.Native.Nat.{bit_or}
use tec.Net.MessageType
use tec.Base.{
  ℕ, ◌+◌, ◌*◌, ◌/◌, ◌%◌, ◌^◌, ◌≤◌, ◌<◌, ◌≡◌, Bool, true, false, List, [], ◌∷◌, ◌++◌, get_or, take,
  drop, replicate, ltb, if◌then◌else◌,
}

abbrev pub header_length : ℕ
header_length = 16

abbrev pub max_body_length : ℕ
max_body_length = 1024

pub record Message : Type 0 where
  pub header : List ℕ
  pub body : List ℕ
  pub body_length : ℕ
  pub sequence_number : ℕ
  pub message_type : ℕ
  pub message_id : ℕ

-- `MessagePool::get()`, a message as the default constructor makes it. (It leaves `data` zeroed.)
unfoldable pub get : Message
get = record {
  header = replicate header_length 0;
  body = replicate max_body_length 0;
  body_length = 0;
  sequence_number = 0;
  message_type = MessageType.chat_message;
  message_id = 0;
}

-- The four bytes that `encode_32` writes at `p`.
unfoldable pub encode_32 : ℕ → List ℕ
encode_32 value =
    value % 256 ∷ value / 2 ^ 8 % 256 ∷ value / 2 ^ 16 % 256 ∷ value / 2 ^ 24 % 256 ∷ []

unfoldable pub decode_32 : List ℕ → ℕ
decode_32 p = bit_or (bit_or (bit_or (at 0) (at 1 * 2 ^ 8)) (at 2 * 2 ^ 16)) (at 3 * 2 ^ 24)
  where
    at : ℕ → ℕ
    at i = get_or p i 0

unfoldable pub encode_64 : ℕ → List ℕ
encode_64 value =
    value % 256
    ∷ value / 2 ^ 8 % 256
    ∷ value / 2 ^ 16 % 256
    ∷ value / 2 ^ 24 % 256
    ∷ value / 2 ^ 32 % 256
    ∷ value / 2 ^ 40 % 256
    ∷ value / 2 ^ 48 % 256
    ∷ value / 2 ^ 56 % 256
    ∷ []

unfoldable pub decode_64 : List ℕ → ℕ
decode_64 p = high
  where
    at : ℕ → ℕ
    at i = get_or p i 0

    low : ℕ
    low = bit_or (bit_or (bit_or (at 0) (at 1 * 2 ^ 8)) (at 2 * 2 ^ 16)) (at 3 * 2 ^ 24)

    high : ℕ
    high =
        bit_or (bit_or (bit_or (bit_or low (at 4 * 2 ^ 32)) (at 5 * 2 ^ 40)) (at 6 * 2 ^ 48))
          (at 7 * 2 ^ 56)

-- The writes to data[0], data[4], data[8] and data[12] cover the whole header.
unfoldable pub encode_header : Message → Message
encode_header m = record m {
  header =
      encode_32 m.body_length
      ++ (encode_32 m.message_type ++ (encode_32 m.message_id ++ encode_32 m.sequence_number));
}

-- The message after the call, and what the call returns.
unfoldable pub decode_header : Message → Message × Bool
decode_header m =
    if ltb max_body_length decoded.body_length
    then (record decoded { body_length = 0 }, false)
    else (decoded, true)
  where
    decoded : Message
    decoded = record m {
      body_length = decode_32 m.header;
      message_type = decode_32 (drop 4 m.header);
      message_id = decode_32 (drop 8 m.header);
      sequence_number = decode_32 (drop 12 m.header);
    }

-- `SetBodyLength`: `false` stands for the `std::length_error` that it throws, after it has cut the
-- length down. `new_length` is a `std::size_t`.
unfoldable pub set_body_length : ℕ → Message → Message × Bool
set_body_length new_length m =
    if ltb max_body_length new_length
    then (record m { body_length = max_body_length }, false)
    else (record m { body_length = new_length % 2 ^ 32 }, true)

-- `length()`: what goes over the wire.
unfoldable pub length : Message → ℕ
length m = header_length + m.body_length

-- The bytes of `buffer_body()`.
unfoldable pub payload : Message → List ℕ
payload m = take m.body_length m.body

-- The bytes of `buffer()`, `length()` bytes of `data`.
unfoldable pub wire : Message → List ℕ
unfolding payload
wire m = take header_length m.header ++ payload m

-- `memcpy` into the start of the body.
unfoldable pub fill : List ℕ → Message → Message
fill bytes m = record m { body = bytes ++ drop (tec.Base.Lists.length bytes) m.body }

-- The fields hold what their types and the class allow.
pub record IsValid (m : Message) : Type 0 where
  pub header_bytes : tec.Base.Lists.length m.header ≡ header_length
  pub body_bytes : tec.Base.Lists.length m.body ≡ max_body_length
  pub fits : m.body_length ≤ max_body_length
  pub type_word : m.message_type < 2 ^ 32
  pub id_word : m.message_id < 2 ^ 32
  pub sequence_word : m.sequence_number < 2 ^ 32
