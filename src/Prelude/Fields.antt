-- ===== src/Prelude/Fields.antt =====
-- Bit fields: `bits` digits of a word, from digit `shift` on.
use Prim.Native.Nat.{ℕ, ◌+◌, ◌-◌, ◌*◌, ◌/◌, ◌%◌, ◌^◌, ◌<◌, bit_and, bit_or}
use mathlib.Core.Path.{◌≡◌, ap, ◌∙◌}
use native.Mathlib.Nat.{one-le-pow, mul-div_left}
use native.Mathlib.Omega.{arith}
use hip_moi.Prelude.Bits.{bit_and_above, bit_and_ones, bit_or_above}

abbrev pub field : ℕ → ℕ → ℕ → ℕ
field shift bits word = word / 2 ^ shift % 2 ^ bits

-- `(word & mask) >> shift` reads the field.
pub read_field :
    (shift bits word : ℕ)
    → bit_and word ((2 ^ bits - 1) * 2 ^ shift) / 2 ^ shift ≡ field shift bits word
read_field shift bits word =
    ap (λ t. t / 2 ^ shift) (bit_and_above shift (2 ^ bits - 1) word)
    ∙ mul-div_left (bit_and (word / 2 ^ shift) (2 ^ bits - 1)) (one-le-pow shift 2 (omega arith))
    ∙ bit_and_ones bits (word / 2 ^ shift)

-- `word | (v << shift)` adds the field `v` above `shift` digits.
pub add_field :
    (shift v word t : ℕ)
    → word ≡ t
    → t < 2 ^ shift
    → bit_or word (v * 2 ^ shift) ≡ t + v * 2 ^ shift
add_field shift v word t e h = ap (λ w. bit_or w (v * 2 ^ shift)) e ∙ bit_or_above shift v t h
