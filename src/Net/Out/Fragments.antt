-- ===== src/Net/Out/Fragments.antt =====
-- `FromBuffer` of common/net-message.cpp: one round of its loop appends one fragment.
use tec.Base.{
  ℕ, ◌+◌, ◌-◌, ◌≤◌, ◌<◌, ◌≡◌, refl, ap, sym, ◌∙◌, some, List, [], ◌∷◌, ◌++◌, length, drop, arith,
  append_assoc, append-nil, take-append,
}
use tec.Net.MessageType
use tec.Net.Message.{Message, get, max_body_length, set_body_length, fill, payload}
use tec.Net.Out.{MessageOut, last?, at_last, set_type, blank, next, back_up, copy}

-- The bodies of a list of messages, one after another.
unfoldable pub payloads : List Message → List ℕ
payloads [] = []
payloads (m ∷ ms) = payload m ++ payloads ms

module _ {ℓ} {A : Type ℓ} where
  pub at_last-append :
      (f : A → A) (xs : List A) (x : A) → at_last f (xs ++ (x ∷ [])) ≡ xs ++ (f x ∷ [])
  at_last-append f [] x = refl
  at_last-append f (y ∷ []) x = refl
  at_last-append f (y ∷ z ∷ xs) x = ap (◌∷◌ y) (at_last-append f (z ∷ xs) x)

  pub last?-append : (xs : List A) (x : A) → last? (xs ++ (x ∷ [])) ≡ some x
  last?-append [] x = refl
  last?-append (y ∷ []) x = refl
  last?-append (y ∷ z ∷ xs) x = last?-append (z ∷ xs) x

-- The fragment that carries some bytes, and the object after it was appended.
unfoldable pub fragment : MessageOut → List ℕ → Message
fragment o bytes = record get {
  message_type = o.message_type;
  message_id = o.message_id;
  body_length = length bytes;
  body = bytes ++ drop (length bytes) get.body;
}

unfoldable pub emit : List ℕ → MessageOut → MessageOut
emit bytes o = record o {
  message_list =
      at_last (set_type MessageType.multi_part) o.message_list ++ (fragment o bytes ∷ []);
  payload_written = o.payload_written + length bytes;
}

pub full_round :
    (bytes : List ℕ) (o : MessageOut)
    → length bytes ≡ max_body_length
    → copy bytes (next o) ≡ emit bytes o
unfolding copy next emit fragment blank set_body_length fill
full_round bytes o e = rw (
  at_last-append (fill bytes) (at_last (set_type MessageType.multi_part) o.message_list) (blank o),
  e,
)

-- A proper `BackUp` shortens the last message.
cut_last : ℕ → Message → Message
cut_last count m = record m { body_length = m.body_length - count }

cut_length :
    (count : ℕ) (m : Message)
    → m.body_length ≤ max_body_length
    → (set_body_length (m.body_length - count) m).0 ≡ cut_last count m
unfolding set_body_length cut_last
cut_length count m h = ground arith

back_up-last :
    (count : ℕ) (o : MessageOut) (xs : List Message) (m : Message)
    → o.message_list ≡ xs ++ (m ∷ [])
    → 0 < count
    → count ≤ m.body_length
    → m.body_length ≤ max_body_length
    → back_up count o ≡ record o {
      message_list = xs ++ (cut_last count m ∷ []);
      payload_written = o.payload_written - count;
    }
unfolding back_up
back_up-last count o xs m e pos fits small =
    rw (e, back_up, last?-append xs m)
      (rw (e, at_last-append, cut_length count m small) (ground arith))

copied :
    (bytes : List ℕ) (o : MessageOut)
    → (copy bytes (next o)).message_list
      ≡ at_last (set_type MessageType.multi_part) o.message_list ++ (fill bytes (blank o) ∷ [])
unfolding copy next
copied bytes o =
    at_last-append (fill bytes) (at_last (set_type MessageType.multi_part) o.message_list) (blank o)

blank_length :
    (bytes : List ℕ) (o : MessageOut) → (fill bytes (blank o)).body_length ≡ max_body_length
unfolding fill blank set_body_length
blank_length bytes o = refl

pub short_round :
    (bytes : List ℕ) (o : MessageOut)
    → length bytes < max_body_length
    → back_up (max_body_length - length bytes) (copy bytes (next o)) ≡ emit bytes o
short_round bytes o h =
    back_up-last (max_body_length - length bytes) (copy bytes (next o)) sealed
      (fill bytes (blank o)) (copied bytes o) (omega arith) (omega (arith, blank_length bytes o))
      (omega (arith, blank_length bytes o))
    ∙ (unfold copy next emit fragment blank set_body_length fill cut_last in ground arith)
  where
    sealed : List Message
    sealed = at_last (set_type MessageType.multi_part) o.message_list

-- The messages after a round: what was there before, and one fragment.
pub payloads-append : (xs ys : List Message) → payloads (xs ++ ys) ≡ payloads xs ++ payloads ys
unfolding payloads
payloads-append [] ys = refl
payloads-append (x ∷ xs) ys =
    ap (◌++◌ (payload x)) (payloads-append xs ys)
    ∙ sym (append_assoc (payload x) (payloads xs) (payloads ys))

pub payloads-set_type :
    (t : ℕ) (xs : List Message) → payloads (at_last (set_type t) xs) ≡ payloads xs
unfolding payloads payload
payloads-set_type t [] = refl
payloads-set_type t (x ∷ []) = refl
payloads-set_type t (x ∷ y ∷ xs) = ap (◌++◌ (payload x)) (payloads-set_type t (y ∷ xs))

payload-fragment : (o : MessageOut) (bytes : List ℕ) → payload (fragment o bytes) ≡ bytes
unfolding payload fragment
payload-fragment o bytes = take-append (length bytes) bytes _ refl

pub payloads-emit :
    (bytes : List ℕ) (o : MessageOut)
    → payloads (emit bytes o).message_list ≡ payloads o.message_list ++ bytes
unfolding emit
payloads-emit bytes o =
    rw (payloads-append, payloads-set_type)
      (ap (◌++◌ (payloads o.message_list)) (unfold payloads in rw (payload-fragment, append-nil)))
