-- ===== src/Net/Out/Messages.antt =====
-- `GetMessages` of common/net-message.cpp: the list that goes to the socket is one body.
use tec.Base.{ℕ, ◌+◌, ◌%◌, ◌^◌, ◌<◌, ◌≡◌, ◌≢◌, refl, ap, List, [], ◌∷◌, ◌++◌, All, arith}
use tec.Net.MessageType
use tec.Net.Message.{Message, IsValid, encode_header, encode_32, payload}
use tec.Net.Out.{MessageOut, at_last, set_type, stamp, get_messages}
use tec.Net.Out.Buffer.{IsFragment}
use tec.Net.Out.Fragments.{payloads}
use tec.Net.In.Decode.{IsBody, final_type}

-- What a stamped message carries: its header is the encoding of its fields.
pub record IsSent (id : ℕ) (m : Message) : Type 0 where
  pub valid : IsValid m
  pub encoded : m.header ≡ (encode_header m).header
  pub same_id : m.message_id ≡ id
  pub filled : 0 < m.body_length

abbrev stamped : ℕ → ℕ → ℕ → Message → Message
stamped t id sequence m =
    encode_header (record m { message_type = t; sequence_number = sequence; message_id = id })

stamped-IsSent :
    (t id sequence : ℕ) (m : Message)
    → t < 2 ^ 32
    → id < 2 ^ 32
    → sequence < 2 ^ 32
    → IsFragment m
    → IsSent id (stamped t id sequence m)
unfolding encode_header encode_32
stamped-IsSent t id sequence m ht hi hs f = record {
  valid = record {
    header_bytes = refl;
    body_bytes = f.body_bytes;
    fits = f.fits;
    type_word = ht;
    id_word = hi;
    sequence_word = hs;
  };
  encoded = refl;
  same_id = refl;
  filled = f.filled;
}

-- The list as `GetMessages` leaves it: the last message stamped with the type of the body.
numbered : ℕ → ℕ → ℕ → List Message → List Message
numbered t id number [] = []
numbered t id number (m ∷ []) = stamped t id number m ∷ []
numbered t id number (m ∷ n ∷ ms) =
    stamped MessageType.multi_part id number m ∷ numbered t id ((number + 1) % 2 ^ 32) (n ∷ ms)

restamp :
    (t id sequence : ℕ) (m : Message)
    → encode_header (set_type t (stamped MessageType.multi_part id sequence m))
      ≡ stamped t id sequence m
unfolding encode_header
restamp t id sequence m = refl

stamp-numbered :
    (t id number : ℕ) (ms : List Message)
    → at_last (λ m. encode_header (set_type t m)) (stamp id number ms) ≡ numbered t id number ms
unfolding stamp numbered
stamp-numbered t id number [] = refl
stamp-numbered t id number (m ∷ []) = ap (λ x. x ∷ []) (restamp t id number m)
stamp-numbered t id number (m ∷ n ∷ ms) =
    ap (◌∷◌ (stamped MessageType.multi_part id number m))
      (stamp-numbered t id ((number + 1) % 2 ^ 32) (n ∷ ms))

module _ (t id : ℕ) (word : t < 2 ^ 32) (id_word : id < 2 ^ 32) where
  numbered-IsSent :
      (number : ℕ) (ms : List Message)
      → number < 2 ^ 32
      → All IsFragment ms
      → All (IsSent id) (numbered t id number ms)
  unfolding numbered
  numbered-IsSent number [] h f = tt
  numbered-IsSent number (m ∷ []) h f = (stamped-IsSent t id number m word id_word h f.0, tt)
  numbered-IsSent number (m ∷ n ∷ ms) h f = (
    stamped-IsSent MessageType.multi_part id number m (omega arith) id_word h f.0,
    numbered-IsSent ((number + 1) % 2 ^ 32) (n ∷ ms) (omega arith) f.1,
  )

  numbered-IsBody :
      (number : ℕ) (m : Message) (ms : List Message)
      → t ≢ MessageType.multi_part
      → IsBody number (numbered t id number (m ∷ ms))
        × (final_type (numbered t id number (m ∷ ms)) ≡ t)
  unfolding numbered encode_header
  numbered-IsBody number m [] h = ((refl, h), refl)
  numbered-IsBody number m (n ∷ []) h =
      let (b, e) = numbered-IsBody ((number + 1) % 2 ^ 32) n [] h in ((refl, refl, b), e)
  numbered-IsBody number m (n ∷ k ∷ ms) h =
      let (b, e) = numbered-IsBody ((number + 1) % 2 ^ 32) n (k ∷ ms) h in ((refl, refl, b), e)

payloads-numbered :
    (t id number : ℕ) (ms : List Message) → payloads (numbered t id number ms) ≡ payloads ms
unfolding numbered encode_header payloads payload
payloads-numbered t id number [] = refl
payloads-numbered t id number (m ∷ []) = refl
payloads-numbered t id number (m ∷ n ∷ ms) =
    ap (◌++◌ (payload m)) (payloads-numbered t id ((number + 1) % 2 ^ 32) (n ∷ ms))

-- What goes to the socket for an object that holds fragments: messages whose headers encode their
-- fields, with the object's id, that carry the same bytes; and if there is a fragment and the type of
-- the object is not MULTI_PART, they are one body of that type, numbered from 0 on.
pub get_messages-lem :
    (o : MessageOut)
    → All IsFragment o.message_list
    → o.message_type < 2 ^ 32
    → o.message_id < 2 ^ 32
    → All (IsSent o.message_id) (get_messages o)
      × (payloads (get_messages o) ≡ payloads o.message_list)
      × (o.message_list ≢ []
          → o.message_type ≢ MessageType.multi_part
          → IsBody 0 (get_messages o) × (final_type (get_messages o) ≡ o.message_type))
unfolding get_messages
get_messages-lem o f ht hi = rw (stamp-numbered o.message_type o.message_id 0 o.message_list) (
  numbered-IsSent o.message_type o.message_id ht hi 0 o.message_list (omega arith) f,
  payloads-numbered o.message_type o.message_id 0 o.message_list,
  λ some_one t. body o.message_list some_one t,
)
  where
    body :
        (ms : List Message)
        → ms ≢ []
        → o.message_type ≢ MessageType.multi_part
        → IsBody 0 (numbered o.message_type o.message_id 0 ms)
          × (final_type (numbered o.message_type o.message_id 0 ms) ≡ o.message_type)
    body [] n t = absurd (n refl)
    body (m ∷ ms) n t = numbered-IsBody o.message_type o.message_id ht hi 0 m ms t
