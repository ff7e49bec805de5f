-- ===== src/Net/In/Read.antt =====
-- `MessageIn::Next` of common/net-message.cpp: the streams that it serves, and what a call does.
use tec.Base.{
  ℕ, ◌-◌, ◌≤◌, ◌<◌, ◌≡◌, refl, ap, sym, ◌∙◌, ◌⊎◌, inl, inr, none, some, List, [], ◌∷◌, ◌++◌, length,
  drop, arith, ◌==◌, ==_iff, Bool-cases, All, true, false,
}
use tec.Net.Message.{Message}
use tec.Net.In.{MessageIn, rewind, next, back_up}
use tec.Net.In.Cursor.{Sized, left, Fits, StartsFull, Gives, next_loop-Outcome}

-- Where a stream stands that `Next` serves: at the start of a list whose first message is not empty,
-- or behind the start, once bytes were counted as read.
pub data Place (s : MessageIn) : Type 0 where
  start :
      s.payload_read ≡ 0 → Fits s.read_offset s.message_list → StartsFull s.message_list → Place s
  later :
      0 < s.payload_read
      → All Sized s.read_index
      → Fits s.read_offset s.read_index
      → length s.read_index ≤ length s.message_list
      → Place s

pub record IsReadable (s : MessageIn) : Type 0 where
  pub sized : All Sized s.message_list
  pub place : Place s

-- The bytes still to be read.
unfoldable pub unread : MessageIn → List ℕ
unread s = left (rewind s).read_index s.read_offset

record Ready (s : MessageIn) : Type 0 where
  sized : All Sized s.read_index
  fits : Fits s.read_offset s.read_index
  index_in : length s.read_index ≤ length s.message_list
  from_start : s.payload_read ≡ 0 → (s.read_index ≡ s.message_list) × StartsFull s.message_list

is_zero : (n : ℕ) → n ≡ 0 → (n == 0) ≡ true
is_zero n h = ground arith

is_positive : (n : ℕ) → 0 < n → (n == 0) ≡ false
is_positive n h = ground arith

rewind-Ready :
    (s : MessageIn)
    → IsReadable s
    → Ready (rewind s)
      × ((rewind s).message_list ≡ s.message_list)
      × ((rewind s).payload_read ≡ s.payload_read)
      × ((rewind s).read_offset ≡ s.read_offset)
rewind-Ready s v = go v.place
  where
    go :
        Place s
        → Ready (rewind s)
          × ((rewind s).message_list ≡ s.message_list)
          × ((rewind s).payload_read ≡ s.payload_read)
          × ((rewind s).read_offset ≡ s.read_offset)
    go (start z fits full) = rw (is_zero s.payload_read z) (
      record {
        sized = v.sized;
        fits = fits;
        index_in = omega arith;
        from_start = λ _. (refl, full);
      },
      refl,
      refl,
      refl,
    )
    go (later pos sized fits short) = rw (is_positive s.payload_read pos) (
      record {
        sized = sized;
        fits = fits;
        index_in = short;
        from_start = λ z. absurd (omega arith);
      },
      refl,
      refl,
      refl,
    )

Ready-unread :
    (s : MessageIn)
    → (s.payload_read ≡ 0 → s.read_index ≡ s.message_list)
    → unread s ≡ left s.read_index s.read_offset
unfolding unread
Ready-unread s h = elim (Bool-cases (s.payload_read == 0)) [
  | inl z ↦ rw z (ap (λ l. left l s.read_offset) (sym (h ((==_iff s.payload_read 0).0 z))))
  | inr p ↦ rw p
]

Gives-front :
    (s s' : MessageIn) (bytes : List ℕ)
    → Ready s
    → Gives s s' bytes
    → s'.payload_read ≡ 0
    → (s'.read_index ≡ s'.message_list) × StartsFull s'.message_list
Gives-front s s' bytes r g z =
    let zs : s.payload_read ≡ 0 = omega (arith, g.grows) in
    let (at_front, full) = r.from_start zs in
    let full' : StartsFull s.read_index = rw at_front full in
    (g.stays full' (z ∙ sym zs) ∙ at_front ∙ sym g.same_list, rw g.same_list full)

Fits-le : (i j : ℕ) (ms : List Message) → i ≤ j → Fits j ms → Fits i ms
Fits-le i j [] h f = omega arith
Fits-le i j (m ∷ ms) h f = omega arith

-- A stream at its iterator is one that `Next` serves.
at_iterator :
    (s : MessageIn)
    → All Sized s.message_list
    → All Sized s.read_index
    → Fits s.read_offset s.read_index
    → length s.read_index ≤ length s.message_list
    → (s.payload_read ≡ 0 → (s.read_index ≡ s.message_list) × StartsFull s.message_list)
    → IsReadable s × (unread s ≡ left s.read_index s.read_offset)
at_iterator s all sized fits short front = (
  record { sized = all; place = place (Bool-cases (s.payload_read == 0)) },
  Ready-unread s (λ z. (front z).0),
)
  where
    place : ((s.payload_read == 0) ≡ true) ⊎ ((s.payload_read == 0) ≡ false) → Place s
    place (inl z) =
        let z' : s.payload_read ≡ 0 = (==_iff s.payload_read 0).0 z in
        start z' (rw (← (front z').0) fits) (front z').1
    place (inr p) = later (ground arith) sized fits short

-- What a call of `Next` that returns bytes does to a stream.
pub record Handed (s s' : MessageIn) (bytes : List ℕ) : Type 0 where
  pub split : unread s ≡ bytes ++ unread s'
  pub some_bytes : 0 < length bytes
  pub readable : IsReadable s'
  pub same_list : s'.message_list ≡ s.message_list
  pub again :
      (k : ℕ)
      → k ≤ length bytes
      → IsReadable (back_up k s')
        × (unread (back_up k s') ≡ drop (length bytes - k) bytes ++ unread s')

back_up-some :
    (k : ℕ) (s : MessageIn)
    → k ≤ s.read_offset
    → back_up k s ≡ record s { read_offset = s.read_offset - k }
unfolding back_up
back_up-some k s h = ground arith

Gives-Handed :
    (s s' : MessageIn) (bytes : List ℕ)
    → IsReadable s
    → Ready (rewind s)
    → (rewind s).message_list ≡ s.message_list
    → unread s ≡ left (rewind s).read_index (rewind s).read_offset
    → Gives (rewind s) s' bytes
    → Handed s s' bytes
Gives-Handed s s' bytes v r same e g =
    let list : s'.message_list ≡ s.message_list = g.same_list ∙ same in
    let all : All Sized s'.message_list = rw list v.sized in
    let short : length s'.read_index ≤ length s'.message_list =
      omega (arith, g.shorter, r.index_in, ap length list, ap length same) in
    let (readable, here) =
      at_iterator s' all g.sized g.fits short (Gives-front (rewind s) s' bytes r g) in
    record {
      split = e ∙ g.split ∙ ap (◌++◌ bytes) (sym here);
      some_bytes = g.some_bytes;
      readable = readable;
      same_list = list;
      again = λ k hk.
          let (back, there) =
            at_iterator (record s' { read_offset = s'.read_offset - k }) all g.sized
              (Fits-le (s'.read_offset - k) s'.read_offset s'.read_index (omega arith) g.fits) short
              (Gives-front (rewind s) s' bytes r g) in
          rw (back_up-some k s' (omega (arith, g.behind)))
            (back, there ∙ g.again k hk ∙ ap (◌++◌ (drop (length bytes - k) bytes)) (sym here));
    }

-- With fuel for its messages, `Next` on a stream that it serves returns: it hands out the next bytes
-- that are left, at least one, and it ends just when none is left.
pub next-Handed :
    (g : ℕ) (s : MessageIn)
    → IsReadable s
    → length s.message_list < g
    → ((s' : MessageIn) × (next g s ≡ some (s', none)) × (unread s ≡ []))
      ⊎ ((s' : MessageIn) × (bytes : List ℕ) × (next g s ≡ some (s', some bytes))
          × Handed s s' bytes)
unfolding next
next-Handed g s v h =
    let (r, same, _, off) = rewind-Ready s v in
    let e : unread s ≡ left (rewind s).read_index (rewind s).read_offset =
      (unfold unread in ap (left (rewind s).read_index) (sym off)) in
    elim (next_loop-Outcome (rewind s).read_index g (rewind s) refl
      (omega (arith, r.index_in, ap length same)) r.sized r.fits) [
        | inl (s', call, nil, _) ↦ inl (s', call, e ∙ nil)
        | inr (s', bytes, call, gives) ↦
            inr (s', bytes, call, Gives-Handed s s' bytes v r same e gives)
      ]
