-- ===== src/Net/Message/Words.antt =====
-- The words of a header: `encode_32` and `decode_32` of common/net-message.hpp undo one another.
use tec.Base.Bits.{bit_or-shift}
use tec.Base.{ℕ, ◌+◌, ◌*◌, ◌/◌, ◌%◌, ◌^◌, ◌<◌, ◌≡◌, ◌∙◌, List, [], ◌∷◌, ◌++◌, arith}
use tec.Net.Message.{encode_32, decode_32, encode_64, decode_64}

-- A word put together from four bytes.
decode_sum :
    (a b c d : ℕ) (rest : List ℕ)
    → a < 256
    → b < 256
    → c < 256
    → decode_32 (a ∷ b ∷ c ∷ d ∷ rest) ≡ a + b * 2 ^ 8 + c * 2 ^ 16 + d * 2 ^ 24
unfolding decode_32
decode_sum a b c d rest ha hb hc = rw (
  bit_or-shift 8 a b ha,
  bit_or-shift 16 (a + b * 2 ^ 8) c (omega arith),
  bit_or-shift 24 (a + b * 2 ^ 8 + c * 2 ^ 16) d (omega arith),
)

pub decode_32-encode_32 : (v : ℕ) (rest : List ℕ) → v < 2 ^ 32 → decode_32 (encode_32 v ++ rest) ≡ v
unfolding encode_32
decode_32-encode_32 v rest h =
    decode_sum (v % 256) (v / 2 ^ 8 % 256) (v / 2 ^ 16 % 256) (v / 2 ^ 24 % 256) rest (omega arith)
      (omega arith) (omega arith)
    ∙ omega arith

-- Every 32-bit word reads back from the bytes that `encode_32` writes for it, whatever follows them,
-- and every four bytes are what `encode_32` writes for the word read from them.
pub words_32 :
    (v a b c d : ℕ) (rest : List ℕ)
    → v < 2 ^ 32
    → a < 256
    → b < 256
    → c < 256
    → d < 256
    → (decode_32 (encode_32 v ++ rest) ≡ v)
      × (encode_32 (decode_32 (a ∷ b ∷ c ∷ d ∷ rest)) ≡ a ∷ b ∷ c ∷ d ∷ [])
      × (decode_32 (a ∷ b ∷ c ∷ d ∷ rest) < 2 ^ 32)
unfolding encode_32
words_32 v a b c d rest hv ha hb hc hd =
    let sum = decode_sum a b c d rest ha hb hc in
    (decode_32-encode_32 v rest hv, rw sum (ground arith), omega (arith, sum))

-- The eight bytes of a 64-bit word, as a sum.
decode_sum_64 :
    (a b c d e f g h : ℕ)
    → a < 256
    → b < 256
    → c < 256
    → d < 256
    → e < 256
    → f < 256
    → g < 256
    → decode_64 (a ∷ b ∷ c ∷ d ∷ e ∷ f ∷ g ∷ h ∷ [])
      ≡ a + b * 2 ^ 8 + c * 2 ^ 16 + d * 2 ^ 24 + e * 2 ^ 32 + f * 2 ^ 40 + g * 2 ^ 48 + h * 2 ^ 56
unfolding decode_64
decode_sum_64 a b c d e f g h ha hb hc hd he hf hg = rw (
  bit_or-shift 8 a b ha,
  bit_or-shift 16 (a + b * 2 ^ 8) c (omega arith),
  bit_or-shift 24 (a + b * 2 ^ 8 + c * 2 ^ 16) d (omega arith),
  bit_or-shift 32 (a + b * 2 ^ 8 + c * 2 ^ 16 + d * 2 ^ 24) e (omega arith),
  bit_or-shift 40 (a + b * 2 ^ 8 + c * 2 ^ 16 + d * 2 ^ 24 + e * 2 ^ 32) f (omega arith),
  bit_or-shift 48 (a + b * 2 ^ 8 + c * 2 ^ 16 + d * 2 ^ 24 + e * 2 ^ 32 + f * 2 ^ 40) g
      (omega arith),
  bit_or-shift 56 (a + b * 2 ^ 8 + c * 2 ^ 16 + d * 2 ^ 24 + e * 2 ^ 32 + f * 2 ^ 40 + g * 2 ^ 48) h
      (omega arith),
)

-- Every 64-bit word reads back from the bytes that `encode_64` writes for it.
pub decode_64-encode_64 : (v : ℕ) → v < 2 ^ 64 → decode_64 (encode_64 v) ≡ v
unfolding encode_64
decode_64-encode_64 v h =
    decode_sum_64 (v % 256) (v / 2 ^ 8 % 256) (v / 2 ^ 16 % 256) (v / 2 ^ 24 % 256)
      (v / 2 ^ 32 % 256) (v / 2 ^ 40 % 256) (v / 2 ^ 48 % 256) (v / 2 ^ 56 % 256) (omega arith)
      (omega arith) (omega arith) (omega arith) (omega arith) (omega arith) (omega arith)
    ∙ omega arith
