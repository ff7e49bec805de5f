-- ===== src/Net/In/Stall.antt =====
-- `MessageIn::Next` of common/net-message.cpp where the first message is empty: `payload_read` is
-- still 0 behind the first call that hands out bytes, so that the next one starts at the front again,
-- with an offset that fits another message.
use tec.Base.{
  ℕ, zero, suc, ◌+◌, ◌<◌, ◌≡◌, refl, ◌∙◌, ◌⊎◌, inl, inr, Option, none, some, List, [], ◌∷◌, ◌++◌,
  ◌==◌, Bool-cases, true, false, arith,
}
use tec.Net.Message.{Message, payload}
use tec.Net.In.{MessageIn, next_loop, next, read_string, hand_out}

-- Some message is not empty.
abbrev pub HasFull : List Message → Type 0
HasFull [] = ⊥
HasFull (m ∷ ms) = (0 < m.body_length) ⊎ HasFull ms

stuck_loop :
    (fuel : ℕ) (s : MessageIn) (m : Message) (ms : List Message)
    → s.read_index ≡ m ∷ ms
    → m.body_length ≡ 0
    → 0 < s.read_offset
    → next_loop fuel s ≡ none
unfolding next_loop
stuck_loop zero s m ms e h o = refl
stuck_loop (suc fuel) s m ms e h o =
    let apart : (s.read_offset == m.body_length) ≡ false = ground arith in
    let bare : (m.body_length == 0) ≡ true = ground arith in
    simp (e, next_loop, apart, bare) (stuck_loop fuel s m ms e h o)

-- Behind the first bytes of such a stream, no fuel is enough for the next call.
next_stuck :
    (fuel : ℕ) (s : MessageIn) (m : Message) (ms : List Message)
    → s.message_list ≡ m ∷ ms
    → m.body_length ≡ 0
    → s.payload_read ≡ 0
    → 0 < s.read_offset
    → next fuel s ≡ none
unfolding next
next_stuck fuel s m ms e h p o =
    let front : (s.payload_read == 0) ≡ true = ground arith in
    rw front (stuck_loop fuel (record s { read_index = s.message_list }) m ms e h o)

-- Where a call of the loop that has counted nothing comes to.
abbrev Uncounted : MessageIn → Option (MessageIn × Option (List ℕ)) → Type 0
Uncounted s r =
    (r ≡ none)
    ⊎ ((s' : MessageIn) × (bytes : List ℕ) × (r ≡ some (s', some bytes))
        × (s'.payload_read ≡ 0)
        × (0 < s'.read_offset)
        × (s'.message_list ≡ s.message_list))

abbrev passed : MessageIn → List Message → MessageIn
passed s ms = record s {
  payload_read = s.payload_read + s.read_offset;
  read_offset = 0;
  read_index = ms;
}

full_later : (m : Message) (ms : List Message) → HasFull (m ∷ ms) → m.body_length ≡ 0 → HasFull ms
full_later m ms (inl full) h = absurd (omega arith)
full_later m ms (inr full) h = full

hand_out_front :
    (s : MessageIn) (m : Message)
    → s.read_offset ≡ 0
    → hand_out m s ≡ (record s { read_offset = m.body_length }, some (payload m))
unfolding hand_out
hand_out_front s m o = let front : (s.read_offset == 0) ≡ true = ground arith in rw front

loop-Uncounted :
    (ms : List Message) (fuel : ℕ) (s : MessageIn)
    → s.read_index ≡ ms
    → HasFull ms
    → s.payload_read ≡ 0
    → s.read_offset ≡ 0
    → Uncounted s (next_loop fuel s)
unfolding next_loop
loop-Uncounted [] fuel s e f p o = elim f [ ]
loop-Uncounted (m ∷ ms) zero s e f p o = inl refl
loop-Uncounted (m ∷ ms) (suc fuel) s e f p o = elim (Bool-cases (m.body_length == 0)) [
  | inl bare ↦
      let even : (s.read_offset == m.body_length) ≡ true = ground arith in
      let step : next_loop (suc fuel) s ≡ next_loop fuel (passed s ms) =
        simp (e, next_loop, even) in
      elim (loop-Uncounted ms fuel (passed s ms) refl (full_later m ms f (ground arith))
        (omega arith) refl) [
          | inl r ↦ inl (step ∙ r)
          | inr (s', bytes, r, counted, offset, list) ↦
              inr (s', bytes, step ∙ r, counted, offset, list)
        ]
  | inr filled ↦
      let odd : (s.read_offset == m.body_length) ≡ false = ground arith in
      inr (
        record s { read_offset = m.body_length },
        payload m,
        simp (e, next_loop, odd, filled, hand_out_front s m o),
        p,
        ground arith,
        refl,
      )
]

-- The first call on a rewound stream of this kind.
first_call :
    (fuel : ℕ) (s : MessageIn) (m : Message) (ms : List Message)
    → s.message_list ≡ m ∷ ms
    → HasFull (m ∷ ms)
    → s.payload_read ≡ 0
    → s.read_offset ≡ 0
    → Uncounted s (next fuel s)
unfolding next
first_call fuel s m ms e f p o =
    let front : (s.payload_read == 0) ≡ true = ground arith in
    rw front (
      loop-Uncounted s.message_list fuel (record s { read_index = s.message_list }) refl (rw e f) p
        o)

-- A body that begins with an empty fragment and is not empty as a whole is never read: on a rewound
-- stream of such messages `ReadString` does not return, whatever number of rounds its loop and the
-- loop of `Next` are given.
pub read_string-stalls :
    (g fuel : ℕ) (s : MessageIn) (body : List ℕ) (m : Message) (ms : List Message)
    → s.message_list ≡ m ∷ ms
    → m.body_length ≡ 0
    → HasFull ms
    → s.payload_read ≡ 0
    → s.read_offset ≡ 0
    → read_string g fuel s body ≡ none
unfolding read_string
read_string-stalls g zero s body m ms e h f p o = refl
read_string-stalls g (suc fuel) s body m ms e h f p o = elim (first_call g s m ms e (inr f) p o) [
  | inl call ↦ rw (call, read_string)
  | inr (s', bytes, call, counted, offset, list) ↦
      rw (call, read_string) (second fuel s' bytes counted offset (list ∙ e))
]
  where
    second :
        (fuel : ℕ) (s' : MessageIn) (bytes : List ℕ)
        → s'.payload_read ≡ 0
        → 0 < s'.read_offset
        → s'.message_list ≡ m ∷ ms
        → read_string g fuel s' (body ++ bytes) ≡ none
    second zero s' bytes counted offset list = refl
    second (suc fuel) s' bytes counted offset list =
        rw (next_stuck g s' m ms list h counted offset, read_string)
