-- ===== src/RingBuffer/Refine.antt =====
-- The ring buffer of common/ring-buffer.hpp against a bounded queue, oldest value first.
use native.Mathlib.Decide.{ℕ_discrete}
use native.Mathlib.Nat.{mod-add-mod}
use tec.Base.{
  ℕ, zero, suc, ◌+◌, ◌-◌, ◌%◌, ◌^◌, ◌≤◌, ◌<◌, ◌≡◌, ◌≢◌, refl, sym, ap, ◌∙◌, some, List, [], ◌∷◌,
  ◌++◌, arith, length, get_elem?, length-set, ◌==◌, if◌then◌else◌, length_zero,
}
use tec.RingBuffer.Window.{window, length-window, window-set, get_elem?-window, get_elem?-some}
use tec.RingBuffer.{
  RingBuffer, add_size, index, pop_back, push_front, full, back, empty, size, clear, Op, push, pop,
  wipe, step, run,
}

-- The bounded queue: what each call does to the values held.
module _ {ℓ} {T : Type ℓ} (n : ℕ) where
  unfoldable pub queue_step : List T → Op T → List T
  queue_step q (push x) = if length q == n then q else q ++ (x ∷ [])
  queue_step [] pop = []
  queue_step (y ∷ q) pop = q
  queue_step q wipe = []

  unfoldable pub queue_run : List T → List (Op T) → List T
  queue_run q [] = q
  queue_run q (o ∷ os) = queue_run (queue_step q o) os

pub record IsValid {ℓ} {T : Type ℓ} (n : ℕ) (r : RingBuffer T) : Type 0 where
  pub cells : length r.buffer ≡ n
  pub small : n < 2 ^ 63
  pub read_in : r.read < n
  pub held : r.elements ≤ n
  pub write_at : r.write ≡ (r.read + r.elements) % n

module _ {T : Type 0} where
  abbrev pub contents : ℕ → RingBuffer T → List T
  contents n r = window r.buffer n r.read r.elements

  pub length-contents :
      {n : ℕ} {r : RingBuffer T} → IsValid n r → length (contents n r) ≡ r.elements
  length-contents {n} {r} v = length-window r.buffer n r.read r.elements v.cells v.read_in

  queue_step-wipe : (n : ℕ) (q : List T) → queue_step n q wipe ≡ []
  unfolding queue_step
  queue_step-wipe n [] = refl
  queue_step-wipe n (x ∷ q) = refl

  window_next :
      (buf : List T) (n i k : ℕ) (x : T)
      → get_elem? buf i ≡ some x
      → k ≢ 0
      → window buf n i k ≡ x ∷ window buf n ((i + 1) % n) (k - 1)
  window_next buf n i zero x e h = absurd (h refl)
  window_next buf n i (suc k) x e h =
      rw e (ap (λ t. x ∷ window buf n ((i + 1) % n) t) (omega arith))

  get_elem?-window_zero :
      (buf : List T) (n i k : ℕ)
      → length buf ≡ n
      → i < n
      → 0 < k
      → get_elem? buf i ≡ get_elem? (window buf n i k) 0
  get_elem?-window_zero buf n i zero e hi h = elim h [ ]
  get_elem?-window_zero buf n i (suc k) e hi h =
      let (x, hit) = get_elem?-some buf i (omega arith) in rw hit

  next_write :
      {n : ℕ} (r : RingBuffer T)
      → IsValid n r
      → add_size r.write 1 % n ≡ (r.read + (r.elements + 1)) % n
  next_write {n} r v = grind (arith, mod-add-mod (r.read + r.elements) n 1, v.write_at)

  no_wrap : {n : ℕ} (r : RingBuffer T) → IsValid n r → add_size r.read 1 ≡ r.read + 1
  no_wrap r v = omega arith

  next_read :
      {n : ℕ} (r : RingBuffer T)
      → IsValid n r
      → r.elements ≢ 0
      → (add_size r.read 1 % n + (r.elements - 1)) % n ≡ (r.read + r.elements) % n
  next_read {n} r v ne =
      rw (no_wrap r v, mod-add-mod (r.read + 1) n (r.elements - 1)) (ap (λ t. t % n) (omega arith))

  push-ok :
      {n : ℕ} {r : RingBuffer T} (x : T)
      → IsValid n r
      → r.elements ≢ n
      → let r' = push_front n x r in IsValid n r' × (contents n r' ≡ contents n r ++ (x ∷ []))
  unfolding push_front
  push-ok {n} {r} x v ne = ground (
    arith,
    length-set r.buffer r.write x,
    next_write r v,
    window-set r.buffer n r.read r.elements r.write x,
  )

  -- A push on any valid buffer.
  push-lem :
      {n : ℕ} {r : RingBuffer T} (x : T)
      → IsValid n r
      → let r' = push_front n x r in
        IsValid n r' × (contents n r' ≡ queue_step n (contents n r) (push x))
  unfolding push_front queue_step
  push-lem {n} {r} x v = ground (arith, push-ok x v, length-contents v)

  pop-none :
      {n : ℕ} {r : RingBuffer T}
      → IsValid n r
      → r.elements ≡ 0
      → (pop_back n r ≡ r) × (contents n r ≡ [])
  unfolding pop_back
  pop-none {n} {r} v e = (rw e, length_zero (contents n r) (omega (arith, length-contents v)))

  pop-ok :
      {n : ℕ} {r : RingBuffer T}
      → IsValid n r
      → r.elements ≢ 0
      → (x : T) → get_elem? r.buffer r.read ≡ some x
      → IsValid n (pop_back n r) × (contents n r ≡ x ∷ contents n (pop_back n r))
  unfolding pop_back
  pop-ok {n} {r} v ne x hit =
      ground (arith, window_next r.buffer n r.read r.elements x hit, next_read r v ne, no_wrap r v)

  pop-lem :
      {n : ℕ} {r : RingBuffer T}
      → IsValid n r
      → IsValid n (pop_back n r) × (contents n (pop_back n r) ≡ queue_step n (contents n r) pop)
  unfolding queue_step
  pop-lem {n} {r} v = elim (ℕ_discrete r.elements 0) [
    | yes e ↦ let (same, nil) = pop-none v e in rw (same, nil) (v, refl)
    | no ne ↦
        let (x, hit) = get_elem?-some r.buffer r.read (omega arith) in
        let (kept, split) = pop-ok v ne x hit in (kept, rw split)
  ]

  -- What `clear` leaves.
  clear-lem :
      {n : ℕ} {r : RingBuffer T} → IsValid n r → IsValid n (clear r) × (contents n (clear r) ≡ [])
  unfolding clear
  clear-lem v = ground arith

  step-lem :
      {n : ℕ} {r : RingBuffer T} (o : Op T)
      → IsValid n r
      → IsValid n (step n r o) × (contents n (step n r o) ≡ queue_step n (contents n r) o)
  unfolding step
  step-lem (push x) v = push-lem x v
  step-lem pop v = pop-lem v
  step-lem {n} {r} wipe v =
      let (ok, e) = clear-lem v in (ok, e ∙ sym (queue_step-wipe n (contents n r)))

  -- Whatever calls are made of a valid buffer, it stays valid, its write index stays `elements` cells
  -- behind its read index, and the values that it holds are those of the bounded queue that drops a
  -- push when it is full: values leave in the order in which they came, none is lost or made up.
  pub run-queue_run :
      {n : ℕ} (os : List (Op T)) {r : RingBuffer T}
      → IsValid n r
      → IsValid n (run n r os) × (contents n (run n r os) ≡ queue_run n (contents n r) os)
  unfolding run queue_run
  run-queue_run [] v = (v, refl)
  run-queue_run {n} (o ∷ os) v =
      let (kept, e) = step-lem o v in
      let (end, e') = run-queue_run os kept in (end, e' ∙ ap (λ q. queue_run n q os) e)

  -- On a valid buffer `operator[]` reads the value at that place of the queue, `back` the oldest
  -- one, and `size`, `empty` and `full` tell its length.
  pub index-contents :
      {n : ℕ} {r : RingBuffer T}
      → IsValid n r
      → ((p : ℕ) → p < r.elements → index n r p ≡ get_elem? (contents n r) p)
        × (0 < r.elements → back r ≡ get_elem? (contents n r) 0)
        × (size r ≡ length (contents n r))
        × (empty r ≡ (length (contents n r) == 0))
        × (full n r ≡ (length (contents n r) == n))
  unfolding index back size empty full
  index-contents {n} {r} v = (
    λ p h.
        let e : add_size r.read p ≡ r.read + p = omega arith in
        rw e (sym (get_elem?-window r.buffer n r.read r.elements p v.cells v.read_in h)),
    λ h. get_elem?-window_zero r.buffer n r.read r.elements v.cells v.read_in h,
    sym (length-contents v),
    rw (length-contents v),
    rw (length-contents v),
  )
