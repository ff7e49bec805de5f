-- ===== src/Net/RoundTrip.antt =====
-- A body from one side of a connection to the other: `MessageOut` writes it, the bytes of its messages
-- go over the wire, the other side cuts them into messages, collects these in a `MessageIn` and reads
-- the body (common/net-message.cpp, server/client-connection.cpp).
pub mod Received
use Received.{
  wires, received, read_messages-wires, gather, gather_lem, payloads-received, Sized-received,
  IsBody-received, StartsFull-received,
}
use tec.Base.{
  length-map, ℕ, suc, ◌+◌, ◌^◌, ◌<◌, ◌≡◌, ◌≢◌, refl, ap, sym, ◌∙◌, some, List, [], ◌++◌, length,
  All, true, arith, map,
}
use tec.Net.MessageType
use tec.Net.Message.{Message}
use tec.Net.Out
use tec.Net.Out.{MessageOut, get_messages, from_buffer}
use tec.Net.Out.Buffer.{from_buffer-Wrote}
use tec.Net.Out.Fragments.{payloads}
use tec.Net.Out.Messages.{IsSent, get_messages-lem}
use tec.Net.In
use tec.Net.In.{MessageIn, reset, decode_messages, to_string}
use tec.Net.In.Decode.{IsBody, final_type, decode_messages_iff}
use tec.Net.In.Drain.{to_string-payloads}
use tec.Net.Stream.{read_messages}

-- What the collecting side has made of the messages of a body.
abbrev gathered : List Message → MessageIn
gathered ms = gather (map received ms) In.new

gathered_list : (ms : List Message) → (gathered ms).message_list ≡ map received ms
unfolding In.new
gathered_list ms = gather_lem (map received ms) In.new

module _ (id : ℕ) (ms : List Message) (sent : All (IsSent id) ms) where
  read_back :
      (t : ℕ) (body : List ℕ)
      → ms ≢ []
      → payloads ms ≡ body
      → (s' : MessageIn) × (to_string
            (suc (length (map received ms) + length body))
            (reset (record (gathered ms) { message_type = t }))
          ≡ some (s', body))
  read_back t body some_one e =
      let bytes : payloads (gathered ms).message_list ≡ body =
        ap payloads (gathered_list ms) ∙ payloads-received id ms sent ∙ e in
      let (s', r) =
        to_string-payloads (suc (length (map received ms) + length body))
          (record (gathered ms) { message_type = t })
          (rw (gathered_list ms) (Sized-received id ms sent))
          (rw (gathered_list ms) (StartsFull-received id ms some_one sent))
          (omega (arith, ap length bytes, ap length (gathered_list ms))) in
      (s', r ∙ ap (λ b. some (s', b)) bytes)

  accepted :
      (t : ℕ)
      → IsBody 0 ms
      → final_type ms ≡ t
      → decode_messages (gathered ms) ≡ (record (gathered ms) { message_type = t }, true)
  accepted t b e =
      let (b', f) = IsBody-received 0 ms b in
      let list = (gathered_list ms) in
      (decode_messages_iff (gathered ms)).1 (rw list b')
      ∙ ap (λ t. (record (gathered ms) { message_type = t }, true)) (ap final_type list ∙ f ∙ e)

-- A body that is not empty, of any type but MULTI_PART and any message id, arrives: `FromBuffer` cuts
-- it into messages, `GetMessages` numbers them, and the side that reads the bytes of these messages
-- gets as many messages, of which `DecodeMessages` accepts the collection, with the type of the body,
-- and `ToString` returns the bytes that were sent.
pub round_trip :
    (t id : ℕ) (body : List ℕ)
    → body ≢ []
    → t ≢ MessageType.multi_part
    → t < 2 ^ 32
    → id < 2 ^ 32
    → (o : MessageOut) × (s s' : MessageIn) × (from_buffer body
          (record (Out.new t) { message_id = id })
        ≡ some o)
      × (let sent = get_messages o in
          let got = read_messages (suc (length (wires sent))) (wires sent) in
          (length got ≡ length sent)
          × (decode_messages (gather got In.new) ≡ (s, true))
          × (s.message_type ≡ t)
          × (to_string (suc (length got + length body)) (reset s) ≡ some (s', body)))
unfolding Out.new
round_trip t id body some_byte not_part ht hi =
    let start : MessageOut = record (Out.new t) { message_id = id } in
    let (o, made, w) = from_buffer-Wrote body start in
    let (sent, bytes, whole) =
      get_messages-lem o (w.fragments tt) (omega (arith, w.same_type)) (omega (arith, w.same_id)) in
    let carried : payloads (get_messages o) ≡ body = bytes ∙ w.bytes ∙ no_bytes body in
    let some_sent : get_messages o ≢ [] =
      λ nil. some_byte (sym carried ∙ ap payloads nil ∙ nothing) in
    let (b, f) =
      whole (λ nil. some_byte (sym (no_bytes body) ∙ sym w.bytes ∙ ap payloads nil ∙ nothing))
        (λ q. not_part (sym w.same_type ∙ q)) in
    let (s', back) =
      read_back o.message_id (get_messages o) sent o.message_type body some_sent carried in
    let parts =
      read_messages-wires o.message_id (suc (length (wires (get_messages o)))) (get_messages o) sent
        (omega arith) in
    (
      o,
      record (gathered (get_messages o)) { message_type = o.message_type },
      s',
      made,
      rw parts (
        length-map (get_messages o) received,
        accepted o.message_id (get_messages o) sent o.message_type b f,
        w.same_type,
        back,
      ),
    )
  where
    nothing : payloads [] ≡ []
    nothing = unfold payloads in refl

    no_bytes : (xs : List ℕ) → payloads [] ++ xs ≡ xs
    no_bytes xs = unfold payloads in refl
