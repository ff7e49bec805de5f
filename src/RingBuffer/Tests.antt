-- ===== src/RingBuffer/Tests.antt =====
-- Tests of the ring buffer (common/ring-buffer.hpp) on a buffer of three cells.
use tec.RingBuffer.{RingBuffer, Op, push, pop, run}
use tec.RingBuffer.Refine.{IsValid, contents, queue_run, run-queue_run}
use tec.Base.{ℕ, ◌≡◌, refl, arith, List, [], ◌∷◌}

-- Two values, the second one over the end of the array.
abbrev wrapped : RingBuffer ℕ
wrapped = record { buffer = 9 ∷ 7 ∷ 8 ∷ []; write = 1; read = 2; elements = 2 }

abbrev script : List (Op ℕ)
script = push 1 ∷ push 2 ∷ pop ∷ push 3 ∷ []

wrapped-IsValid : IsValid 3 wrapped
wrapped-IsValid = record {
  cells = refl;
  small = omega arith;
  read_in = omega arith;
  held = omega arith;
  write_at = refl;
}

contents-wrapped : contents 3 wrapped ≡ 8 ∷ 9 ∷ []
contents-wrapped = refl

run-queue_run_example :
    IsValid 3 (run 3 wrapped script)
    × (contents 3 (run 3 wrapped script) ≡ queue_run 3 (contents 3 wrapped) script)
run-queue_run_example = run-queue_run script wrapped-IsValid
