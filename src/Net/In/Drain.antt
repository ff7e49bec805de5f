-- ===== src/Net/In/Drain.antt =====
-- Reading a stream: `ReadString`, `ReadBuffer` and `Skip` of common/net-message.cpp.
use tec.Base.{
  refl, All, ℕ, zero, suc, ◌+◌, ◌-◌, ◌≤◌, ◌<◌, ◌≡◌, ap, sym, ◌∙◌, inl, inr, some, List, [], ◌++◌,
  length, take, drop, arith, append_assoc, append-nil, length-append, leb, ◌==◌, ==_iff, Bool-cases,
  true, false, take-append_le, take-append_ge, drop-append_le, drop-append_ge, leb→le, take-length,
  take_none, drop_none,
}
use tec.Net.Out.Fragments.{payloads}
use tec.Net.In.{reset, to_string, MessageIn, read_string, read_buffer, skip, back_up}
use tec.Net.In.Cursor.{Sized, StartsFull, left_start, Fits-start}
use tec.Net.In.Read.{Place, IsReadable, Handed, unread, next-Handed}

-- `ReadString` on a stream that `Next` serves returns, and has appended all bytes that were left, given
-- fuel for a round of its loop for every byte and for a round of the loop of `Next` for every message.
pub read_string-lem :
    (g fuel : ℕ) (s : MessageIn) (body : List ℕ)
    → IsReadable s
    → length s.message_list < g
    → length (unread s) < fuel
    → (s' : MessageIn) × (read_string g fuel s body ≡ some (s', body ++ unread s))
unfolding read_string
read_string-lem g zero s body v hg h = elim h [ ]
read_string-lem g (suc fuel) s body v hg h = elim (next-Handed g s v hg) [
  | inl (s', call, nil) ↦ (s', rw (call, read_string, nil, append-nil))
  | inr (s', bytes, call, done) ↦
      let (s'', e) =
        read_string-lem g fuel s' (body ++ bytes) done.readable
          (omega (arith, ap length done.same_list))
          (omega (arith, ap length done.split, length-append bytes (unread s'), done.some_bytes)) in
      (s'', rw (call, read_string, done.split, ← append_assoc body bytes (unread s')) e)
]

-- The parts of a stream when its next bytes fit into what is wanted, or go beyond it.
module _ (s s' : MessageIn) (bytes : List ℕ) (done : Handed s s' bytes) where
  take_past :
      (n : ℕ) → length bytes ≤ n → take n (unread s) ≡ bytes ++ take (n - length bytes) (unread s')
  take_past n h = rw done.split (take-append_ge n bytes (unread s') h)

  drop_past : (n : ℕ) → length bytes ≤ n → drop (n - length bytes) (unread s') ≡ drop n (unread s)
  drop_past n h = rw done.split (sym (drop-append_ge n bytes (unread s') h))

  take_part : (n : ℕ) → n ≤ length bytes → take n (unread s) ≡ take n bytes
  take_part n h = rw done.split (take-append_le n bytes (unread s') h)

  drop_part :
      (n : ℕ)
      → n ≤ length bytes
      → IsReadable (back_up (length bytes - n) s')
        × (unread (back_up (length bytes - n) s') ≡ drop n (unread s))
  drop_part n h =
      let (v, e) = done.again (length bytes - n) (omega arith) in
      let same : length bytes - (length bytes - n) ≡ n = omega arith in
      (v, e ∙ rw (same, done.split) (sym (drop-append_le n bytes (unread s') h)))

  length_split : length (unread s) ≡ length bytes + length (unread s')
  length_split = omega (arith, ap length done.split, length-append bytes (unread s'))

  list_kept : length s'.message_list ≡ length s.message_list
  list_kept = ap length done.same_list

leb→gt : (a b : ℕ) → leb a b ≡ false → b < a
leb→gt a b h = ground arith

-- `ReadBuffer` on a stream that `Next` serves returns, given that fuel, and has written the bytes that
-- were left, as many as there is room for; where there were as many, just the others are left, so that a
-- next read goes on behind the bytes written.
pub read_buffer-lem :
    (g fuel : ℕ) (s : MessageIn) (room : ℕ) (written : List ℕ)
    → IsReadable s
    → length s.message_list < g
    → room < fuel
    → (s' : MessageIn) × (read_buffer g fuel s room written
        ≡ some (s', written ++ take room (unread s)))
      × (room ≤ length (unread s) → IsReadable s' × (unread s' ≡ drop room (unread s)))
unfolding read_buffer
read_buffer-lem g zero s room written v hg h = elim h [ ]
read_buffer-lem g (suc fuel) s room written v hg h = elim (Bool-cases (room == 0)) [
  | inl full ↦
      let z : room ≡ 0 = (==_iff room 0).0 full in
      (
        s,
        rw (full, take_none room (unread s) z, append-nil),
        λ _. (v, sym (drop_none room (unread s) z)),
      )
  | inr more ↦ elim (next-Handed g s v hg) [
    | inl (s', call, nil) ↦ (
      s',
      rw (more, call, nil, take-length {A = ℕ} room [] (omega arith), append-nil),
      λ k. absurd (ground (arith, ap length nil)),
    )
    | inr (s', bytes, call, done) ↦ elim (Bool-cases (leb (length bytes) room)) [
      | inl fits ↦
          let small : length bytes ≤ room = leb→le (length bytes) room fits in
          let (s'', e, rest) =
            read_buffer-lem g fuel s' (room - length bytes) (written ++ bytes) done.readable
              (omega (arith, list_kept s s' bytes done)) (omega (arith, done.some_bytes)) in
          (
            s'',
            rw
                (
                  more,
                  call,
                  fits,
                  take_past s s' bytes done room small,
                  ← append_assoc written bytes,
                )
                e,
            λ k.
                let (v', e') = rest (omega (arith, length_split s s' bytes done)) in
                (v', e' ∙ drop_past s s' bytes done room small),
          )
      | inr over ↦
          let big : room ≤ length bytes = omega (arith, leb→gt (length bytes) room over) in
          (
            back_up (length bytes - room) s',
            rw (more, call, over, take_part s s' bytes done room big),
            λ k. drop_part s s' bytes done room big,
          )
    ]
  ]
]

-- `Skip` on a stream that `Next` serves returns, given that fuel, with true just when as many bytes
-- were left as it is to skip, and then just those behind them are left.
pub skip-lem :
    (g fuel : ℕ) (s : MessageIn) (count : ℕ)
    → IsReadable s
    → length s.message_list < g
    → count < fuel
    → (s' : MessageIn) × (skip g fuel s count ≡ some (s', leb count (length (unread s))))
      × (count ≤ length (unread s) → IsReadable s' × (unread s' ≡ drop count (unread s)))
unfolding skip
skip-lem g zero s count v hg h = elim h [ ]
skip-lem g (suc fuel) s count v hg h = elim (Bool-cases (count == 0)) [
  | inl full ↦
      let z : count ≡ 0 = (==_iff count 0).0 full in
      let passed : leb count (length (unread s)) ≡ true = ground arith in
      (s, rw (full, passed), λ _. (v, sym (drop_none count (unread s) z)))
  | inr more ↦ elim (next-Handed g s v hg) [
    | inl (s', call, nil) ↦
        let short : leb count (length (unread s)) ≡ false = ground (arith, ap length nil) in
        (s', rw (more, call, short), λ k. absurd (ground (arith, ap length nil)))
    | inr (s', bytes, call, done) ↦ elim (Bool-cases (leb (length bytes) count)) [
      | inl fits ↦
          let small : length bytes ≤ count = leb→le (length bytes) count fits in
          let (s'', e, rest) =
            skip-lem g fuel s' (count - length bytes) done.readable
              (omega (arith, list_kept s s' bytes done)) (omega (arith, done.some_bytes)) in
          let same : leb (count - length bytes) (length (unread s'))
              ≡ leb count (length (unread s)) =
            ground (arith, length_split s s' bytes done) in
          (
            s'',
            rw (more, call, fits, e, same),
            λ k.
                let (v', e') = rest (omega (arith, length_split s s' bytes done)) in
                (v', e' ∙ drop_past s s' bytes done count small),
          )
      | inr over ↦
          let big : count ≤ length bytes = omega (arith, leb→gt (length bytes) count over) in
          let passed : leb count (length (unread s)) ≡ true =
            ground (arith, length_split s s' bytes done) in
          (
            back_up (length bytes - count) s',
            rw (more, call, over, passed),
            λ k. drop_part s s' bytes done count big,
          )
    ]
  ]
]

-- A rewound stream whose first message is not empty.
pub reset-IsReadable :
    (s : MessageIn)
    → All Sized s.message_list
    → StartsFull s.message_list
    → IsReadable (reset s) × (unread (reset s) ≡ payloads s.message_list)
unfolding reset unread
reset-IsReadable s sized full = (
  record { sized = sized; place = Place.start refl (Fits-start s.message_list) full },
  left_start s.message_list,
)

-- `ToString` behind a `Reset` returns the bodies of all messages, one after another, if the first one
-- is not empty, with fuel for a round of each loop for every message and every byte.
pub to_string-payloads :
    (fuel : ℕ) (s : MessageIn)
    → All Sized s.message_list
    → StartsFull s.message_list
    → length s.message_list + length (payloads s.message_list) < fuel
    → (s' : MessageIn) × (to_string fuel (reset s) ≡ some (s', payloads s.message_list))
unfolding to_string
to_string-payloads fuel s sized full h =
    let (v, e) = reset-IsReadable s sized full in
    let (s', r) =
      read_string-lem fuel fuel (reset s) [] v (omega (arith, reset_list s))
        (omega (arith, ap length e)) in
    (s', r ∙ ap (λ t. some (s', t)) e)
  where
    reset_list : (s : MessageIn) → length (reset s).message_list ≡ length s.message_list
    reset_list s = unfold reset in refl
