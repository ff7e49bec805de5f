-- ===== src/Net/Out/Buffer.antt =====
-- `FromBuffer` and `FromString` of common/net-message.cpp as a whole.
use tec.Base.{
  ℕ, zero, suc, ◌+◌, ◌/◌, ◌≤◌, ◌<◌, ◌≡◌, refl, ap, sym, ◌∙◌, inl, inr, some, List, [], ◌∷◌, ◌++◌,
  length, take, drop, arith, append_assoc, append-nil, length-append, length-take, length-drop,
  take-append-drop, leb, ◌==◌, ==_iff, Bool-cases, length_zero, All, All-append, leb→le,
}
use tec.Base.{length-replicate}
use tec.Net.MessageType
use tec.Net.Message.{Message, get, max_body_length, header_length}
use tec.Net.Out.{MessageOut, at_last, set_type, from_buffer_loop, from_buffer}
use tec.Net.Out.Fragments.{payloads, payloads-emit, fragment, emit, full_round, short_round}

-- A message as the list of an object holds it.
pub record IsFragment (m : Message) : Type 0 where
  pub header_bytes : length m.header ≡ header_length
  pub body_bytes : length m.body ≡ max_body_length
  pub fits : m.body_length ≤ max_body_length
  pub filled : 0 < m.body_length

-- What an object has gained when some bytes were handed over.
pub record Wrote (o : MessageOut) (body : List ℕ) (o' : MessageOut) : Type 0 where
  pub same_type : o'.message_type ≡ o.message_type
  pub same_id : o'.message_id ≡ o.message_id
  pub count : o'.payload_written ≡ o.payload_written + length body
  pub bytes : payloads o'.message_list ≡ payloads o.message_list ++ body
  pub number :
      length o'.message_list ≡ length o.message_list + (length body + 1023) / max_body_length
  pub fragments : All IsFragment o.message_list → All IsFragment o'.message_list

length-at_last : (f : Message → Message) (xs : List Message) → length (at_last f xs) ≡ length xs
length-at_last f [] = refl
length-at_last f (x ∷ []) = refl
length-at_last f (x ∷ y ∷ xs) = ap suc (length-at_last f (y ∷ xs))

set_type-IsFragment :
    (t : ℕ) (xs : List Message) → All IsFragment xs → All IsFragment (at_last (set_type t) xs)
set_type-IsFragment t [] h = h
set_type-IsFragment t (x ∷ []) h = (omega arith, tt)
set_type-IsFragment t (x ∷ y ∷ xs) h = (h.0, set_type-IsFragment t (y ∷ xs) h.1)

length-fragment_body :
    (o : MessageOut) (bytes : List ℕ)
    → length bytes ≤ max_body_length
    → length (fragment o bytes).body ≡ max_body_length
unfolding fragment get
length-fragment_body o bytes h = omega (
  arith,
  length-append bytes (drop (length bytes) (get).body),
  length-drop (length bytes) (get).body,
  length-replicate {A = ℕ} max_body_length 0,
)

fragment-IsFragment :
    (o : MessageOut) (bytes : List ℕ)
    → 0 < length bytes
    → length bytes ≤ max_body_length
    → IsFragment (fragment o bytes)
unfolding fragment get
fragment-IsFragment o bytes pos h = record {
  header_bytes = refl;
  body_bytes = length-fragment_body o bytes h;
  fits = h;
  filled = pos;
}

emit-Wrote :
    (bytes : List ℕ) (o : MessageOut)
    → 0 < length bytes
    → length bytes ≤ max_body_length
    → Wrote o bytes (emit bytes o)
emit-Wrote bytes o pos h = record {
  same_type = unfold emit in refl;
  same_id = unfold emit in refl;
  count = unfold emit in refl;
  bytes = payloads-emit bytes o;
  number =
      unfold emit in
      omega (
        arith,
        length-append (at_last (set_type MessageType.multi_part) o.message_list)
            (fragment o bytes ∷ []),
        length-at_last (set_type MessageType.multi_part) o.message_list,
      );
  fragments =
      unfold emit in
      λ g.
        All-append IsFragment _ _ (set_type-IsFragment MessageType.multi_part o.message_list g)
          (fragment-IsFragment o bytes pos h, tt);
}

Wrote-nil : (o : MessageOut) → Wrote o [] o
Wrote-nil o = record {
  same_type = refl;
  same_id = refl;
  count = omega arith;
  bytes = sym (append-nil (payloads o.message_list));
  number = omega arith;
  fragments = λ g. g;
}

Wrote-trans :
    {a b : List ℕ} {o o' o'' : MessageOut}
    → length a ≡ max_body_length
    → Wrote o a o'
    → Wrote o' b o''
    → Wrote o (a ++ b) o''
Wrote-trans {a} {b} {o} e v w = record {
  same_type = w.same_type ∙ v.same_type;
  same_id = w.same_id ∙ v.same_id;
  count = omega (arith, v.count, w.count, length-append a b);
  bytes = w.bytes ∙ ap (λ t. t ++ b) v.bytes ∙ append_assoc (payloads o.message_list) a b;
  number = omega (arith, v.number, w.number, length-append a b);
  fragments = λ g. w.fragments (v.fragments g);
}

loop-Wrote :
    (fuel : ℕ) (remain : List ℕ) (o : MessageOut)
    → length remain < fuel
    → (o' : MessageOut) × (from_buffer_loop fuel remain o ≡ some o') × Wrote o remain o'
unfolding from_buffer_loop
loop-Wrote zero remain o h = elim h [ ]
loop-Wrote (suc fuel) remain o h = elim (Bool-cases (length remain == 0)) [
  | inl done ↦
      let nil : remain ≡ [] = length_zero remain ((==_iff (length remain) 0).0 done) in
      (o, rw done, rw nil (Wrote-nil o))
  | inr more ↦ elim (Bool-cases (leb max_body_length (length remain))) [
    | inl full ↦
        let bytes = take max_body_length remain in
        let size : length bytes ≡ max_body_length =
          omega (arith, length-take max_body_length remain, leb→le _ _ full) in
        let (o', e, w) =
          loop-Wrote fuel (drop max_body_length remain) (emit bytes o)
            (omega (arith, length-drop max_body_length remain, leb→le _ _ full)) in
        (
          o',
          rw (more, full, full_round bytes o size) e,
          rw (take-append-drop max_body_length remain) at
              (Wrote-trans size (emit-Wrote bytes o (omega arith) (omega arith)) w),
        )
    | inr short ↦
        let few : length remain < max_body_length = ground arith in
        let some_left : 0 < length remain = ground arith in
        (
          emit remain o,
          rw (more, short, short_round remain o few),
          emit-Wrote remain o some_left (omega arith),
        )
  ]
]

-- `FromBuffer` always returns. It leaves type and id alone, counts every byte in `ByteCount`, and
-- appends to the list of messages just enough fragments, ceil(length / 1024) of them, none of them
-- empty, whose bodies read one after another are the bytes handed over, in order.
pub from_buffer-Wrote :
    (body : List ℕ) (o : MessageOut)
    → (o' : MessageOut) × (from_buffer body o ≡ some o') × Wrote o body o'
unfolding from_buffer
from_buffer-Wrote body o = loop-Wrote (suc (length body)) body o (omega arith)
