-- ===== src/Console/Lines.antt =====
-- The lines that the console keeps (client/gui/console.cpp, common/ring-buffer.hpp).
use tec.Base.{
  ℕ, suc, ◌-◌, ◌<◌, ◌≡◌, refl, sym, ap, ◌∙◌, true, false, List, [], ◌∷◌, ◌++◌, arith, length,
  length-append, ◌==◌, if◌then◌else◌, append_assoc, append-nil, Bool-cases, inl, inr, drop_none,
}
use tec.Base.Newest.{newest, newest-append}
use tec.RingBuffer.{RingBuffer, push, pop, full, pop_back, push_front, run, step}
use tec.RingBuffer.Refine.{IsValid, contents, queue_run, queue_step, run-queue_run, length-contents}
use tec.Console.{Console, println}

module _ {T : Type 0} where
  -- To a bounded queue with room a value is added.
  queue-room :
      (n : ℕ) (q : List T) (x : T)
      → length q < n
      → queue_run n q (push x ∷ []) ≡ newest n (q ++ (x ∷ []))
  unfolding queue_run queue_step
  queue-room n q x room =
      let no : (length q == n) ≡ false = ground (arith, room) in
      rw no (
        sym (
          drop_none (length (q ++ (x ∷ [])) - n) (q ++ (x ∷ []))
            (omega (arith, length-append q (x ∷ [])))))

  -- Of a full one the oldest value is taken first.
  queue-full :
      (n : ℕ) (y : T) (q : List T) (x : T)
      → length (y ∷ q) ≡ n
      → queue_run n (y ∷ q) (pop ∷ push x ∷ []) ≡ newest n ((y ∷ q) ++ (x ∷ []))
  unfolding queue_run queue_step
  queue-full n y q x filled =
      let no : (length q == n) ≡ false = ground (arith, filled) in
      let one : suc (length (q ++ (x ∷ []))) - n ≡ 1 = omega (arith, length-append q (x ∷ [])) in
      rw (no, one) refl

  print-room :
      {n : ℕ} {r : RingBuffer T} (x : T)
      → IsValid n r
      → full n r ≡ false
      → let r' : RingBuffer T = push_front n x (if full n r then pop_back n r else r) in
        IsValid n r' × (contents n r' ≡ newest n (contents n r ++ (x ∷ [])))
  unfolding run step full
  print-room {n} {r} x v room =
      let (kept, e) = run-queue_run (push x ∷ []) v in
      let few : length (contents n r) < n = ground (arith, length-contents v, v.held, room) in
      rw room (kept, e ∙ queue-room n (contents n r) x few)

  print-full :
      {n : ℕ} {r : RingBuffer T} (x : T)
      → 0 < n
      → IsValid n r
      → full n r ≡ true
      → let r' : RingBuffer T = push_front n x (if full n r then pop_back n r else r) in
        IsValid n r' × (contents n r' ≡ newest n (contents n r ++ (x ∷ [])))
  unfolding run step full
  print-full {n} {r} x pos v filled =
      let (kept, e) = run-queue_run (pop ∷ push x ∷ []) v in
      let count : length (contents n r) ≡ n = ground (arith, length-contents v, filled) in
      rw filled (kept, e ∙ turned (contents n r) count)
    where
      turned :
          (q : List T) → length q ≡ n → queue_run n q (pop ∷ push x ∷ []) ≡ newest n (q ++ (x ∷ []))
      turned [] h = absurd (omega arith)
      turned (y ∷ q) h = queue-full n y q x h

module _ {K X : Type 0} (n : ℕ) (white : K) where
  println-contents :
      (line : K × List ℕ) (c : Console K X)
      → 0 < n
      → IsValid n c.buf
      → let c' : Console K X = println n white line c in
        IsValid n c'.buf × (contents n c'.buf ≡ newest n (contents n c.buf ++ (line ∷ [])))
  unfolding println
  println-contents line c pos v = elim (Bool-cases (full n c.buf)) [
    | inl filled ↦ print-full line pos v filled
    | inr room ↦ print-room line v room
  ]

  -- Lines printed one after another.
  unfoldable pub print_all : List (K × List ℕ) → Console K X → Console K X
  print_all [] c = c
  print_all (line ∷ rest) c = print_all rest (println n white line c)

  -- Whatever lines are printed on a console whose ring buffer is valid, it stays valid, and the console
  -- then has the last n, as many as the buffer can hold, of the lines that it had and the lines
  -- printed, in order: none of them is dropped while an older one is kept.
  pub print_all-newest :
      (lines : List (K × List ℕ)) (c : Console K X)
      → 0 < n
      → IsValid n c.buf
      → let c' : Console K X = print_all lines c in
        IsValid n c'.buf × (contents n c'.buf ≡ newest n (contents n c.buf ++ lines))
  unfolding print_all
  print_all-newest [] c pos v = (
    v,
    rw (append-nil (contents n c.buf)) (
        sym (
          drop_none (length (contents n c.buf) - n) (contents n c.buf)
            (omega (arith, length-contents v, v.held)))),
  )
  print_all-newest (line ∷ rest) c pos v =
      let (kept, e) = println-contents line c pos v in
      let (end, e') = print_all-newest rest (println n white line c) pos kept in
      (
        end,
        e'
            ∙ ap (λ q. newest n (q ++ rest)) e
            ∙ newest-append n (contents n c.buf ++ (line ∷ [])) rest
            ∙ ap (newest n) (append_assoc (contents n c.buf) (line ∷ []) rest),
      )
