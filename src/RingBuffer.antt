-- ===== src/RingBuffer.antt =====
-- common/ring-buffer.hpp: `RingBuffer<T, N>`, a fixed array with a write and a read index.
-- `buffer` is the array, so it has N cells; `std::size_t` sums wrap at 2^64.
pub mod Window
pub mod Refine
pub mod Tests
use tec.Base.{
  ℕ, ◌+◌, ◌-◌, ◌%◌, ◌^◌, Bool, Option, List, [], ◌∷◌, get_elem?, set, ◌==◌, if◌then◌else◌,
}

pub record RingBuffer {ℓ} (T : Type ℓ) : Type ℓ where
  pub buffer : List T
  pub write : ℕ
  pub read : ℕ
  pub elements : ℕ

abbrev pub add_size : ℕ → ℕ → ℕ
add_size a b = (a + b) % 2 ^ 64

module _ {ℓ} {T : Type ℓ} (n : ℕ) where
  -- `operator[]`: no check against `elements`. `none` is a read outside the array.
  pub index : RingBuffer T → ℕ → Option T
  index r pos = get_elem? r.buffer (add_size r.read pos % n)

  -- `elements-- ` runs only on a buffer that is not empty.
  pub pop_back : RingBuffer T → RingBuffer T
  pop_back r =
      if r.elements == 0
      then r
      else record r { read = add_size r.read 1 % n; elements = r.elements - 1 }

  -- A full buffer drops the value.
  pub push_front : T → RingBuffer T → RingBuffer T
  push_front value r = if r.elements == n then r else record r {
    buffer = set r.buffer r.write value;
    write = add_size r.write 1 % n;
    elements = add_size r.elements 1;
  }

  unfoldable pub full : RingBuffer T → Bool
  full r = r.elements == n

module _ {ℓ} {T : Type ℓ} where
  pub back : RingBuffer T → Option T
  back r = get_elem? r.buffer r.read

  pub empty : RingBuffer T → Bool
  empty r = r.elements == 0

  pub size : RingBuffer T → ℕ
  size r = r.elements

  pub clear : RingBuffer T → RingBuffer T
  clear r = record r { write = 0; read = 0; elements = 0 }

-- The calls that change a buffer.
pub data Op {ℓ} (T : Type ℓ) : Type ℓ where
  push : T → Op T
  pop : Op T
  wipe : Op T

module _ {ℓ} {T : Type ℓ} (n : ℕ) where
  unfoldable pub step : RingBuffer T → Op T → RingBuffer T
  step r (push x) = push_front n x r
  step r pop = pop_back n r
  step r wipe = clear r

  unfoldable pub run : RingBuffer T → List (Op T) → RingBuffer T
  run r [] = r
  run r (o ∷ os) = run (step r o) os
