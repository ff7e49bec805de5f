-- ===== src/Server/Reassembly.antt =====
-- Bodies whose messages come mixed with those of other bodies (`read_body` of
-- server/client-connection.cpp).
use tec.Base.{
  ℕ, ◌+◌, ◌%◌, ◌^◌, ◌≡◌, ◌≢◌, refl, ap, sym, ◌∙◌, Bool, true, false, Option, none, some, List, [],
  ◌∷◌, ◌++◌, ◌==◌, if◌then◌else◌, arith, Bool-cases, Option-cases, inl, inr, ◌⊎◌, length,
  append-nil,
}
use tec.Base.Maps.{Map, find, find-insert, find-erase}
use tec.Net.MessageType
use tec.Net.Message.{Message}
use tec.Net.In
use tec.Net.In.{MessageIn, push_message, decode_messages}
use tec.Net.In.Decode.{IsBody, final_type, decode_messages_iff}
use tec.Net.RoundTrip.Received.{gather, gather_lem}
use tec.Server.Reader.{collected, dropped, outcome, receive, completed, receive_all, with_id}

find-dropped :
    (j k : ℕ) (m : Map MessageIn) → find j (dropped k m) ≡ (if k == j then none else find j m)
find-dropped j k m = by_entry (Option-cases (find k m)) (Bool-cases (k == j))
  where
    by_entry :
        (find k m ≡ none) ⊎ ((s : MessageIn) × (find k m ≡ some s))
        → ((k == j) ≡ true) ⊎ ((k == j) ≡ false)
        → find j (dropped k m) ≡ (if k == j then none else find j m)
    by_entry (inl missing) (inl same) =
        let e : k ≡ j = ground (arith, same) in
        rw (dropped, missing, same) (ap (λ i. find i m) (sym e) ∙ missing)
    by_entry (inl missing) (inr apart) = rw (dropped, missing, apart) refl
    by_entry (inr (s, there)) c = rw (dropped, there) (find-erase j k m)

abbrev entry : Option MessageIn → MessageIn
entry none = In.new
entry (some s) = s

itself : (k : ℕ) → (k == k) ≡ true
itself k = ground arith

-- What a message does to the collection of another id: nothing.
receive-other :
    (k : ℕ) (msg : Message) (m : Map MessageIn)
    → (msg.message_id == k) ≡ false
    → (find k (receive msg m).0 ≡ find k m) × (completed k msg.message_id (receive msg m).1 ≡ [])
unfolding receive
receive-other k msg m h = elim (Bool-cases (msg.message_type == MessageType.multi_part)) [
  | inl part ↦ rw part (
    find-insert k msg.message_id (push_message msg (collected msg.message_id m)) m ∙ rw h refl,
    refl,
  )
  | inr last ↦ rw last (
    find-dropped k msg.message_id m ∙ rw h refl,
    silent (decode_messages (push_message msg (collected msg.message_id m))),
  )
]
  where
    silent : (r : MessageIn × Bool) → completed k msg.message_id (outcome r) ≡ []
    silent (s, true) = rw h refl
    silent (s, false) = refl

-- A message that is not the last of a body is added to the collection of its id.
receive-part :
    (k : ℕ) (msg : Message) (m : Map MessageIn)
    → (msg.message_id == k) ≡ true
    → msg.message_type ≡ MessageType.multi_part
    → (collected k (receive msg m).0 ≡ push_message msg (collected k m))
      × (completed k msg.message_id (receive msg m).1 ≡ [])
unfolding receive
receive-part k msg m h part =
    let e : msg.message_id ≡ k = ground (arith, h) in
    let test : (msg.message_type == MessageType.multi_part) ≡ true = ground (arith, part) in
    rw test (
      ap entry (find-insert k msg.message_id (push_message msg (collected msg.message_id m)) m)
          ∙ rw h (ap (λ i. push_message msg (collected i m)) e),
      refl,
    )

-- The last one ends it.
receive-last :
    (k : ℕ) (msg : Message) (m : Map MessageIn)
    → (msg.message_id == k) ≡ true
    → msg.message_type ≢ MessageType.multi_part
    → (find k (receive msg m).0 ≡ none)
      × (completed k msg.message_id (receive msg m).1
          ≡ completed k k (outcome (decode_messages (push_message msg (collected k m)))))
unfolding receive
receive-last k msg m h last =
    let e : msg.message_id ≡ k = ground (arith, h) in
    let test : (msg.message_type == MessageType.multi_part) ≡ false = ground (arith, last) in
    rw (test, e) (find-dropped k k m ∙ rw (itself k) refl, refl)

-- Without messages of an id its collection stays as it is.
receive_all_none :
    (k : ℕ) (ms : List Message) (m : Map MessageIn)
    → with_id k ms ≡ []
    → ((receive_all k ms m).0 ≡ []) × (find k (receive_all k ms m).1 ≡ find k m)
unfolding receive_all with_id
receive_all_none k [] m h = (refl, refl)
receive_all_none k (msg ∷ ms) m h = elim (Bool-cases (msg.message_id == k)) [
  | inl same ↦ absurd (omega (arith, ap length (rw same at h)))
  | inr other ↦
      let (there, silent) = receive-other k msg m other in
      let (bodies, final) = receive_all_none k ms (receive msg m).0 (rw other at h) in
      (ap (λ b. b ++ (receive_all k ms (receive msg m).0).0) silent ∙ bodies, final ∙ there)
]

list_cases : (xs : List Message) → (xs ≡ []) ⊎ ((y : Message) × (ys : List Message) × (xs ≡ y ∷ ys))
list_cases [] = inl refl
list_cases (y ∷ ys) = inr (y, ys, refl)

receive_all_lem :
    (k n : ℕ) (ms : List Message) (m : Map MessageIn)
    → IsBody n (with_id k ms)
    → ((receive_all k ms m).0
        ≡ completed k k (outcome (decode_messages (gather (with_id k ms) (collected k m)))))
      × (find k (receive_all k ms m).1 ≡ none)
unfolding receive_all with_id gather
receive_all_lem k n [] m b = absurd b
receive_all_lem k n (msg ∷ ms) m b = elim (Bool-cases (msg.message_id == k)) [
  | inr other ↦
      let (there, silent) = receive-other k msg m other in
      let (bodies, final) = receive_all_lem k n ms (receive msg m).0 (rw other at b) in
      rw other (
        ap (λ b. b ++ (receive_all k ms (receive msg m).0).0) silent
            ∙ bodies
            ∙ ap (λ f. completed k k (outcome (decode_messages (gather (with_id k ms) (entry f)))))
                there,
        final,
      )
  | inl same ↦
      let b' : IsBody n (msg ∷ with_id k ms) = rw same at b in
      elim (list_cases (with_id k ms)) [
        | inl alone ↦
            let last : IsBody n (msg ∷ []) = rw alone at b' in
            let (gone, body) = receive-last k msg m same last.1 in
            let (bodies, final) = receive_all_none k ms (receive msg m).0 alone in
            rw (same, alone, bodies, body)
              (
                append-nil
                    (completed k k (outcome (decode_messages (push_message msg (collected k m))))),
                final ∙ gone,
              )
        | inr (y, ys, more) ↦
            let part : IsBody n (msg ∷ y ∷ ys) = rw more at b' in
            let (gathered, silent) = receive-part k msg m same part.1 in
            let (bodies, final) =
              receive_all_lem k ((n + 1) % 2 ^ 32) ms (receive msg m).0 (rw more part.2) in
            rw same (
              ap (λ b. b ++ (receive_all k ms (receive msg m).0).0) silent
                  ∙ bodies
                  ∙ ap (λ s. completed k k (outcome (decode_messages (gather (with_id k ms) s))))
                      gathered,
              final,
            )
      ]
]

-- However the messages of a body come mixed with those of other bodies, and whatever these do: if a
-- connection that has nothing collected under an id gets messages of which those with the id are a
-- body, in order and complete, it handles exactly one body with the id, made of just these messages
-- and of the type of the last one, and has nothing collected under the id then.
pub reassembly :
    (k : ℕ) (ms : List Message) (m : Map MessageIn)
    → find k m ≡ none
    → IsBody 0 (with_id k ms)
    → ((receive_all k ms m).0
        ≡ record (gather (with_id k ms) In.new) { message_type = final_type (with_id k ms) } ∷ [])
      × (find k (receive_all k ms m).1 ≡ none)
reassembly k ms m h b =
    let (bodies, final) = receive_all_lem k 0 ms m b in
    let list : (gather (with_id k ms) In.new).message_list ≡ with_id k ms =
      gather_lem (with_id k ms) In.new ∙ (unfold In.new in refl) in
    let decoded : decode_messages (gather (with_id k ms) In.new) ≡ (
      record (gather (with_id k ms) In.new) { message_type = final_type (with_id k ms) },
      true,
    ) =
      (decode_messages_iff (gather (with_id k ms) In.new)).1 (rw list b)
      ∙ ap (λ l. (record (gather (with_id k ms) In.new) { message_type = final_type l }, true))
          list in
    (
      bodies
          ∙ ap (λ f. completed k k (outcome (decode_messages (gather (with_id k ms) (entry f))))) h
          ∙ ap (λ r. completed k k (outcome r)) decoded
          ∙ rw (itself k) refl,
      final,
    )
