-- ===== src/Net/In/Cursor.antt =====
-- `MessageIn::Next` of common/net-message.cpp: the bytes that are still to be read, and one call.
use tec.Base.{
  drop_none, ℕ, zero, suc, ◌+◌, ◌-◌, ◌≤◌, ◌<◌, ◌≡◌, refl, ap, ◌∙◌, ◌⊎◌, inl, inr, Option, none,
  some, List, [], ◌∷◌, ◌++◌, length, drop, arith, length-take, length-drop, ◌==◌, ==_iff,
  Bool-cases, All, drop-length, drop-drop, lt→ltb, false, true,
}
use tec.Net.Message.{Message, payload}
use tec.Net.Out.Fragments.{payloads}
use tec.Net.In.{MessageIn, hand_out, next_loop}

-- The body holds the bytes that the length claims.
abbrev pub Sized : Message → Type 0
Sized m = m.body_length ≤ length m.body

-- Unread bytes, from an iterator and the offset into its message.
abbrev pub left : List Message → ℕ → List ℕ
left [] offset = []
left (m ∷ ms) offset = drop offset (payload m) ++ payloads ms

abbrev pub Fits : ℕ → List Message → Type 0
Fits offset [] = offset ≡ 0
Fits offset (m ∷ ms) = offset ≤ m.body_length

abbrev pub StartsFull : List Message → Type 0
StartsFull [] = ⊥
StartsFull (m ∷ ms) = 0 < m.body_length

abbrev pub AllEmpty : List Message → Type 0
AllEmpty = All (λ m. m.body_length ≡ 0)

pub length-payload : (m : Message) → Sized m → length (payload m) ≡ m.body_length
unfolding payload
length-payload m h = omega (arith, length-take m.body_length m.body)

-- A call that hands out bytes.
pub record Gives (s s' : MessageIn) (bytes : List ℕ) : Type 0 where
  pub split : left s.read_index s.read_offset ≡ bytes ++ left s'.read_index s'.read_offset
  pub some_bytes : 0 < length bytes
  pub sized : All Sized s'.read_index
  pub fits : Fits s'.read_offset s'.read_index
  pub same_list : s'.message_list ≡ s.message_list
  pub grows : s.payload_read ≤ s'.payload_read
  pub stays :
      StartsFull s.read_index → s'.payload_read ≡ s.payload_read → s'.read_index ≡ s.read_index
  pub shorter : length s'.read_index ≤ length s.read_index
  pub behind : length bytes ≤ s'.read_offset
  pub again :
      (k : ℕ)
      → k ≤ length bytes
      → left s'.read_index (s'.read_offset - k)
        ≡ drop (length bytes - k) bytes ++ left s'.read_index s'.read_offset

-- What a call comes to.
abbrev pub Outcome : MessageIn → Option (MessageIn × Option (List ℕ)) → Type 0
Outcome s r =
    ((s' : MessageIn) × (r ≡ some (s', none))
      × (left s.read_index s.read_offset ≡ [])
      × (s'.message_list ≡ s.message_list))
    ⊎ ((s' : MessageIn) × (bytes : List ℕ) × (r ≡ some (s', some bytes)) × Gives s s' bytes)

hand_out-some :
    (s : MessageIn) (m : Message)
    → s.read_offset < m.body_length
    → hand_out m s
      ≡ (record s { read_offset = m.body_length }, some (drop s.read_offset (payload m)))
unfolding hand_out
hand_out-some s m h = elim (Bool-cases (s.read_offset == 0)) [
  | inl start ↦ rw (start, drop_none s.read_offset (payload m) ((==_iff s.read_offset 0).0 start))
  | inr later ↦ rw (later, lt→ltb s.read_offset m.body_length h)
]

hand_out-Gives :
    (s : MessageIn) (m : Message) (ms : List Message)
    → s.read_index ≡ m ∷ ms
    → All Sized (m ∷ ms)
    → s.read_offset < m.body_length
    → Gives s (record s { read_offset = m.body_length }) (drop s.read_offset (payload m))
hand_out-Gives s m ms e sized h = record {
  split = rw (e, spent);
  some_bytes = omega (arith, rest);
  sized = rw e sized;
  fits = rw e (omega arith);
  same_list = refl;
  grows = omega arith;
  stays = λ f q. refl;
  shorter = omega arith;
  behind = omega (arith, rest);
  again = λ k hk.
      rw (e, spent, drop-drop) (ap (λ t. drop t (payload m) ++ payloads ms) (omega (arith, rest)));
}
  where
    spent : drop m.body_length (payload m) ≡ []
    spent = drop-length m.body_length (payload m) (omega (arith, length-payload m sized.0))

    rest : length (drop s.read_offset (payload m)) ≡ m.body_length - s.read_offset
    rest = omega (arith, length-drop s.read_offset (payload m), length-payload m sized.0)

-- Past a message that has been read to its end.
abbrev advance : List Message → MessageIn → MessageIn
advance ms s = record s {
  payload_read = s.payload_read + s.read_offset;
  read_offset = 0;
  read_index = ms;
}

pub left_start : (ms : List Message) → left ms 0 ≡ payloads ms
unfolding payloads
left_start [] = refl
left_start (m ∷ ms) = refl

pub Fits-start : (ms : List Message) → Fits 0 ms
Fits-start [] = refl
Fits-start (m ∷ ms) = omega arith

left_end :
    (s : MessageIn) (m : Message) (ms : List Message)
    → s.read_index ≡ m ∷ ms
    → Sized m
    → s.read_offset ≡ m.body_length
    → left s.read_index s.read_offset ≡ left ms 0
left_end s m ms e sized h = rw (
  e,
  drop-length s.read_offset (payload m) (omega (arith, length-payload m sized)),
  left_start ms,
)

advance-Gives :
    (s s' : MessageIn) (m : Message) (ms : List Message) (bytes : List ℕ)
    → s.read_index ≡ m ∷ ms
    → Sized m
    → s.read_offset ≡ m.body_length
    → Gives (advance ms s) s' bytes
    → Gives s s' bytes
advance-Gives s s' m ms bytes e sized h g = record {
  split = left_end s m ms e sized h ∙ g.split;
  some_bytes = g.some_bytes;
  sized = g.sized;
  fits = g.fits;
  same_list = g.same_list;
  grows = omega (arith, g.grows);
  stays = λ full same. absurd (omega (arith, g.grows, full_head full));
  shorter = rw e (omega (arith, g.shorter));
  behind = g.behind;
  again = g.again;
}
  where
    full_head : StartsFull s.read_index → 0 < m.body_length
    full_head full = rw e at full

-- `Next` from the iterator on: it hands out bytes just when some are left, and ends otherwise.
pub next_loop-Outcome :
    (ms : List Message) (fuel : ℕ) (s : MessageIn)
    → s.read_index ≡ ms
    → length ms < fuel
    → All Sized ms
    → Fits s.read_offset ms
    → Outcome s (next_loop fuel s)
unfolding next_loop
next_loop-Outcome ms zero s e h sized fits = elim h [ ]
next_loop-Outcome [] (suc fuel) s e h sized fits = inl (s, simp (e, next_loop), rw e, refl)
next_loop-Outcome (m ∷ ms) (suc fuel) s e h sized fits =
    elim (Bool-cases (s.read_offset == m.body_length)) [
      | inl spent ↦
          elim (next_loop-Outcome ms fuel (advance ms s) refl (omega arith) sized.1
            (Fits-start ms)) [
              | inl (s', r, nil, same) ↦ inl (
                s',
                simp (e, next_loop, spent) r,
                left_end s m ms e sized.0 (same_offset spent) ∙ nil,
                same,
              )
              | inr (s', bytes, r, g) ↦ inr (
                s',
                bytes,
                simp (e, next_loop, spent) r,
                advance-Gives s s' m ms bytes e sized.0 (same_offset spent) g,
              )
            ]
      | inr more ↦ inr (
        record s { read_offset = m.body_length },
        drop s.read_offset (payload m),
        simp (e, next_loop, more, not_empty more, hand_out-some s m (room more)),
        hand_out-Gives s m ms e sized (room more),
      )
    ]
  where
    same_offset : (s.read_offset == m.body_length) ≡ true → s.read_offset ≡ m.body_length
    same_offset t = (==_iff s.read_offset m.body_length).0 t

    room : (s.read_offset == m.body_length) ≡ false → s.read_offset < m.body_length
    room t = ground (arith, fits)

    not_empty : (s.read_offset == m.body_length) ≡ false → (m.body_length == 0) ≡ false
    not_empty t = ground (arith, room t)
