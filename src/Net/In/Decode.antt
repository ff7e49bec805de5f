-- ===== src/Net/In/Decode.antt =====
-- `DecodeMessages` of common/net-message.cpp: which lists of messages make up a body.
use tec.Base.{ℕ, ◌+◌, ◌%◌, ◌^◌, ◌≡◌, ◌≢◌, refl, ◌↔◌, Option, none, some, List, [], ◌∷◌, true, arith}
use tec.Net.MessageType
use tec.Net.Message.{Message}
use tec.Net.In.{MessageIn, decode_loop, decode_end, decode_messages}

-- The messages of one body: numbered one after another in 32 bits, all marked as parts but the last.
abbrev pub IsBody : ℕ → List Message → Type 0
IsBody number [] = ⊥
IsBody number (m ∷ []) = (m.sequence_number ≡ number) × (m.message_type ≢ MessageType.multi_part)
IsBody number (m ∷ n ∷ ms) =
    (m.sequence_number ≡ number)
    × (m.message_type ≡ MessageType.multi_part)
    × IsBody ((number + 1) % 2 ^ 32) (n ∷ ms)

-- The type of the last message.
abbrev pub final_type : List Message → ℕ
final_type [] = MessageType.chat_message
final_type (m ∷ []) = m.message_type
final_type (m ∷ n ∷ ms) = final_type (n ∷ ms)

loop-body :
    (number : ℕ) (ms : List Message)
    → IsBody number ms
    → decode_loop number ms ≡ some (some (final_type ms), [])
unfolding decode_loop
loop-body number [] h = elim h [ ]
loop-body number (m ∷ []) h = ground arith
loop-body number (m ∷ n ∷ ms) h = ground (arith, loop-body ((number + 1) % 2 ^ 32) (n ∷ ms) h.2)

IsBody-loop :
    (number : ℕ) (ms : List Message) (t : ℕ)
    → decode_loop number ms ≡ some (some t, [])
    → IsBody number ms
unfolding decode_loop
IsBody-loop number [] t h = cc
IsBody-loop number (m ∷ []) t h = ground arith
IsBody-loop number (m ∷ n ∷ ms) t h = ground (arith, IsBody-loop ((number + 1) % 2 ^ 32) (n ∷ ms) t)

accepts :
    (r : Option (Option ℕ × List Message)) (s : MessageIn)
    → (decode_end r s).1 ≡ true
    → (t : ℕ) × (r ≡ some (some t, []))
accepts none s h = cc
accepts (some (none, ms)) s h = cc
accepts (some (some t, [])) s h = (t, refl)
accepts (some (some t, m ∷ ms)) s h = cc

-- `DecodeMessages` accepts the list exactly when it is the messages of one body, in order, complete and
-- with nothing behind the last; it then takes over the type of the last message, and nothing else
-- changes.
pub decode_messages_iff :
    (s : MessageIn)
    → ((decode_messages s).1 ≡ true ↔ IsBody 0 s.message_list)
      × (IsBody 0 s.message_list
          → decode_messages s ≡ (record s { message_type = final_type s.message_list }, true))
unfolding decode_messages
decode_messages_iff s = (
  (λ h. accepted h, λ b. rw (loop-body 0 s.message_list b)),
  λ b. rw (loop-body 0 s.message_list b),
)
  where
    accepted : (decode_messages s).1 ≡ true → IsBody 0 s.message_list
    accepted h =
        let (t, e) = accepts (decode_loop 0 s.message_list) s h in IsBody-loop 0 s.message_list t e
