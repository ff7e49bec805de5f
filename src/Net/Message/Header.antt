-- ===== src/Net/Message/Header.antt =====
-- `encode_header` and `decode_header` of common/net-message.hpp.
use tec.Base.{
  ℕ, ◌^◌, ◌<◌, ◌≤◌, ◌≡◌, refl, List, [], ◌++◌, arith, true, false, drop, leb, append-nil,
}
use tec.Net.Message.Words.{decode_32-encode_32}
use tec.Net.Message.{
  Message, IsValid, encode_32, decode_32, encode_header, decode_header, max_body_length,
}

drop_word : (v : ℕ) (rest : List ℕ) → drop 4 (encode_32 v ++ rest) ≡ rest
unfolding encode_32
drop_word v rest = refl

drop_two : (v w : ℕ) (rest : List ℕ) → drop 8 (encode_32 v ++ (encode_32 w ++ rest)) ≡ rest
unfolding encode_32
drop_two v w rest = refl

drop_three :
    (u v w : ℕ) (rest : List ℕ)
    → drop 12 (encode_32 u ++ (encode_32 v ++ (encode_32 w ++ rest))) ≡ rest
unfolding encode_32
drop_three u v w rest = refl

decode_last : (v : ℕ) → v < 2 ^ 32 → decode_32 (encode_32 v) ≡ v
decode_last v h = rw (append-nil (encode_32 v)) at (decode_32-encode_32 v [] h)

-- A receiver that holds the header bytes which a valid message encodes takes over its length, type,
-- id and sequence number, whatever it held before, and accepts the header.
pub decode_header-encode_header :
    (m r : Message)
    → IsValid m
    → r.header ≡ (encode_header m).header
    → decode_header r ≡ (
      record r {
        body_length = m.body_length;
        message_type = m.message_type;
        message_id = m.message_id;
        sequence_number = m.sequence_number;
      },
      true,
    )
unfolding encode_header decode_header
decode_header-encode_header m r v e =
    rw
      (
        e,
        drop_word,
        drop_two,
        drop_three,
        decode_32-encode_32 m.body_length _ (omega arith),
        decode_32-encode_32 m.message_type _ v.type_word,
        decode_32-encode_32 m.message_id _ v.id_word,
        decode_last m.sequence_number v.sequence_word,
      )
      (ground (arith, v.fits))

-- What `decode_header` leaves never claims more than the body holds, and the call is refused just
-- when the length word of the header does: then the length is 0.
pub decode_header_bound :
    (r : Message)
    → let (r', accepted) = decode_header r in
      (r'.body_length ≤ max_body_length)
      × (accepted ≡ leb (decode_32 r.header) max_body_length)
      × (accepted ≡ false → r'.body_length ≡ 0)
      × (accepted ≡ true → r'.body_length ≡ decode_32 r.header)
unfolding decode_header
decode_header_bound r = ground arith
