-- ===== src/Prelude/Bits.antt =====
-- What `&` and `|` do to a number written as `q * 2 ^ k + r`: both work digit by digit, so
-- the part above digit `k` and the part below it do not meet.
use Prim.Native.Nat.{
  ℕ, zero, suc, ◌+◌, ◌-◌, ◌*◌, ◌/◌, ◌%◌, ◌^◌, ◌≤◌, ◌<◌, min, max, bit_and, bit_or, digits, bitwise,
  bit_and-bitwise, bit_or-bitwise,
}
use mathlib.Core.Path.{◌≡◌, refl, ap, sym, ◌∙◌}
use native.Mathlib.Nat.{pow-suc, one-le-pow, le_refl, div-div-eq-div-mul, mod-add-div}
use mathlib.Core.Logic.{◌≢◌}
use native.Mathlib.Omega.{arith}

-- More fuel than digits makes no difference.
module _ (z : ℕ → ℕ) (f : ℕ → ℕ → ℕ) where
  digits_extra : (e n a b : ℕ) → a ≤ n → digits z f (n + e) a b ≡ digits z f n a b
  digits_extra e n zero b h = blank (n + e) ∙ sym (blank n)
    where
      blank : (m : ℕ) → digits z f m 0 b ≡ z b
      blank zero = refl
      blank (suc m) = refl
  digits_extra e zero (suc a) b h = absurd (omega arith)
  digits_extra e (suc n) (suc a) b h =
      let same : suc n + e ≡ suc (n + e) = omega arith in
      ap (λ m. digits z f m (suc a) b) same
      ∙ ap (λ t. t * 2 + f (suc a % 2) (b % 2)) (digits_extra e n (suc a / 2) (b / 2) (omega arith))

  bitwise-unroll :
      (a b : ℕ)
      → bitwise z f (suc a) b ≡ bitwise z f (suc a / 2) (b / 2) * 2 + f (suc a % 2) (b % 2)
  bitwise-unroll a b =
      let half = suc a / 2 in
      let spare : a ≡ half + (a - half) = omega arith in
      ap (λ t. t * 2 + f (suc a % 2) (b % 2))
        (ap (λ m. digits z f m half (b / 2)) spare
          ∙ digits_extra (a - half) half half (b / 2) (le_refl _))

pub bit_or_digit : (a b : ℕ) → bit_or a b ≡ bit_or (a / 2) (b / 2) * 2 + max (a % 2) (b % 2)
bit_or_digit zero b = omega (arith, bit_or-bitwise 0 b, bit_or-bitwise 0 (b / 2))
bit_or_digit (suc a) b =
    bit_or-bitwise (suc a) b
    ∙ bitwise-unroll (λ y. y) max a b
    ∙ ap (λ t. t * 2 + max (suc a % 2) (b % 2)) (sym (bit_or-bitwise (suc a / 2) (b / 2)))

pub bit_and_digit : (a b : ℕ) → bit_and a b ≡ bit_and (a / 2) (b / 2) * 2 + min (a % 2) (b % 2)
bit_and_digit zero b = omega (arith, bit_and-bitwise 0 b, bit_and-bitwise 0 (b / 2))
bit_and_digit (suc a) b =
    bit_and-bitwise (suc a) b
    ∙ bitwise-unroll (λ y. zero) min a b
    ∙ ap (λ t. t * 2 + min (suc a % 2) (b % 2)) (sym (bit_and-bitwise (suc a / 2) (b / 2)))

pub zero-bit_and : (b : ℕ) → bit_and 0 b ≡ 0
zero-bit_and b = bit_and-bitwise 0 b

pub zero-bit_or : (b : ℕ) → bit_or 0 b ≡ b
zero-bit_or b = bit_or-bitwise 0 b

below : (n a : ℕ) → a ≤ n → bit_and a 0 ≡ 0
below n zero h = zero-bit_and 0
below zero (suc a) h = absurd (omega arith)
below (suc n) (suc a) h = omega (arith, bit_and_digit (suc a) 0, below n (suc a / 2) (omega arith))

pub bit_and-zero : (a : ℕ) → bit_and a 0 ≡ 0
bit_and-zero a = below a a (le_refl a)

twice_pow : (q k : ℕ) → q * 2 ^ suc k ≡ q * 2 ^ k * 2
twice_pow q k = omega (arith, ap (λ (t : ℕ). q * t) (pow-suc 2 k))

-- `r | (q << k)`, when `r` has at most `k` digits, is a sum.
pub bit_or_above : (k q r : ℕ) → r < 2 ^ k → bit_or r (q * 2 ^ k) ≡ r + q * 2 ^ k
bit_or_above zero q zero h = zero-bit_or (q * 1) ∙ omega arith
bit_or_above zero q (suc r) h = absurd (omega arith)
bit_or_above (suc k) q r h = ground (
  arith,
  bit_or_digit r (q * 2 ^ suc k),
  twice_pow q k,
  pow-suc 2 k,
  bit_or_above k q (r / 2) (omega (arith, pow-suc 2 k)),
)

div_pow_suc : (a k : ℕ) → a / 2 ^ suc k ≡ a / 2 / 2 ^ k
div_pow_suc a k = ap (λ t. a / t) (pow-suc 2 k ∙ omega arith) ∙ sym (div-div-eq-div-mul a 2 (2 ^ k))

mod_pow_suc : (a k : ℕ) → a % 2 ^ suc k ≡ a / 2 % 2 ^ k * 2 + a % 2
mod_pow_suc a k =
    let q = a / 2 / 2 ^ k in
    omega (
      arith,
      mod-add-div a (2 ^ suc k),
      mod-add-div (a / 2) (2 ^ k),
      ap (λ (t : ℕ). 2 ^ suc k * t) (div_pow_suc a k),
      ap (λ (t : ℕ). t * q) (pow-suc 2 k),
    )

-- `&` with a mask of `w` ones keeps the `w` lowest digits.
pub bit_and_ones : (w a : ℕ) → bit_and a (2 ^ w - 1) ≡ a % 2 ^ w
bit_and_ones zero a = bit_and-zero a ∙ omega arith
bit_and_ones (suc w) a =
    let halved : (2 ^ suc w - 1) / 2 ≡ 2 ^ w - 1 = omega (arith, pow-suc 2 w) in
    omega (
      arith,
      bit_and_digit a (2 ^ suc w - 1),
      ap (bit_and (a / 2)) halved,
      pow-suc 2 w,
      one-le-pow w 2,
      bit_and_ones w (a / 2),
      mod_pow_suc a w,
    )

-- `&` with a mask that stands `k` digits up acts on the digits from `k` on.
pub bit_and_above : (k m a : ℕ) → bit_and a (m * 2 ^ k) ≡ bit_and (a / 2 ^ k) m * 2 ^ k
bit_and_above zero m a =
    let same : m * 1 ≡ m = omega arith in
    let whole : a / 1 ≡ a = omega arith in ap (bit_and a) same ∙ rw whole (omega arith)
bit_and_above (suc k) m a =
    let halved : m * 2 ^ suc k / 2 ≡ m * 2 ^ k = omega (arith, twice_pow m k) in
    omega (
      arith,
      bit_and_digit a (m * 2 ^ suc k),
      ap (bit_and (a / 2)) halved,
      twice_pow m k,
      twice_pow (bit_and (a / 2 / 2 ^ k) m) k,
      ap (λ (t : ℕ). bit_and t m * 2 ^ suc k) (div_pow_suc a k),
      bit_and_above k m (a / 2),
    )

bit_and_bound : (n a b : ℕ) → a ≤ n → bit_and a b ≤ b
bit_and_bound n zero b h = omega (arith, zero-bit_and b)
bit_and_bound zero (suc a) b h = absurd (omega arith)
bit_and_bound (suc n) (suc a) b h =
    omega (arith, bit_and_digit (suc a) b, bit_and_bound n (suc a / 2) (b / 2) (omega arith))

pub bit_and-le_right : (a b : ℕ) → bit_and a b ≤ b
bit_and-le_right a b = bit_and_bound a a b (le_refl a)

bit_or-zero : (n a : ℕ) → a ≤ n → bit_or a 0 ≡ a
bit_or-zero n zero h = zero-bit_or 0
bit_or-zero zero (suc a) h = absurd (omega arith)
bit_or-zero (suc n) (suc a) h =
    omega (arith, bit_or_digit (suc a) 0, bit_or-zero n (suc a / 2) (omega arith))

div_pow : (q a : ℕ) → a / 2 ^ suc q ≡ a / 2 / 2 ^ q
div_pow q a =
    let factors : 2 ^ suc q ≡ 2 * 2 ^ q = omega (arith, pow-suc 2 q) in
    ap (λ n. a / n) factors ∙ sym (div-div-eq-div-mul a 2 (2 ^ q))

-- A digit of `m | (1 << k)` other than the one at `k` is that of `m`.
pub digit_of_or : (q k m : ℕ) → q ≢ k → bit_or m (2 ^ k) / 2 ^ q % 2 ≡ m / 2 ^ q % 2
digit_of_or zero zero m ne = absurd (ne refl)
digit_of_or zero (suc k) m ne = omega (arith, bit_or_digit m (2 ^ suc k), pow-suc 2 k)
digit_of_or (suc q) zero m ne =
    let half : bit_or m 1 / 2 ≡ m / 2 =
      omega (arith, bit_or_digit m 1, bit_or-zero (m / 2) (m / 2) (le_refl (m / 2))) in
    rw (div_pow q (bit_or m 1), div_pow q m, half) refl
digit_of_or (suc q) (suc k) m ne =
    let halved : 2 ^ suc k / 2 ≡ 2 ^ k = omega (arith, pow-suc 2 k) in
    let half : bit_or m (2 ^ suc k) / 2 ≡ bit_or (m / 2) (2 ^ k) =
      omega (arith, bit_or_digit m (2 ^ suc k), ap (bit_or (m / 2)) halved, pow-suc 2 k) in
    rw (div_pow q (bit_or m (2 ^ suc k)), div_pow q m, half)
      (digit_of_or q k (m / 2) (λ e. ne (ap suc e)))
