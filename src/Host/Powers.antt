-- ===== src/Host/Powers.antt =====
-- `ceil_power_of_two`, and the generations of launches.
use native.Mathlib.Nat.{pow-suc}
use native.Mathlib.Decide.{ℕ_discrete}
use hip_moi.Prelude.{
  ℕ, zero, suc, ◌+◌, ◌*◌, ◌^◌, ◌≤◌, ◌<◌, ◌≡◌, ◌≢◌, ◌⊎◌, inl, inr, refl, ap, ◌∙◌, ltb, Bool-cases,
  arith, u64,
}
use hip_moi.Host.{ceil_power_from, ceil_power_of_two, next_generation}

-- From a power of two, the loop ends at the first power of two that is not below the value.
ceil_power_from_lem :
    (value fuel k : ℕ)
    → value ≤ 2 ^ 63
    → k + fuel ≡ 64
    → k ≤ 63
    → ((k ≡ 0) ⊎ (2 ^ k < 2 * value))
    → (j : ℕ) × (ceil_power_from value fuel (2 ^ k) ≡ 2 ^ j)
      × (value ≤ 2 ^ j)
      × (j ≤ 63)
      × ((j ≡ 0) ⊎ (2 ^ j < 2 * value))
unfolding ceil_power_from
ceil_power_from_lem value zero k small e h low = absurd (omega arith)
ceil_power_from_lem value (suc fuel) k small e h low = elim (Bool-cases (ltb (2 ^ k) value)) [
  | inr done ↦ (k, rw done refl, ground arith, h, low)
  | inl more ↦
      let below : 2 ^ k < value = ground arith in
      let k_small : k < 63 = elim (ℕ_discrete k 63) [
        | yes e ↦ absurd (omega (arith, ap (λ (n : ℕ). 2 ^ n) e))
        | no ne ↦ omega arith
      ] in
      let bound : 2 ^ k < 2 ^ 63 = omega (arith, small) in
      let next : u64 (2 ^ k * 2) ≡ 2 ^ suc k = omega (arith, pow-suc 2 k) in
      let (j, is, enough, jsmall, least) =
        ceil_power_from_lem value fuel (suc k) small (omega arith) k_small
          (inr (omega (arith, pow-suc 2 k))) in
      let step : ceil_power_from value (suc fuel) (2 ^ k) ≡ ceil_power_from value fuel (2 ^ suc k) =
        simp more (ap (ceil_power_from value fuel) next) in
      (j, step ∙ is, enough, jsmall, least)
]

-- For a value of at most 2 ^ 63 the loop ends at a power of two which is not below the value and,
-- unless it is 1, less than twice the value.
pub ceil_power_of_two_lem :
    (value : ℕ)
    → value ≤ 2 ^ 63
    → (j : ℕ) × (ceil_power_of_two value ≡ 2 ^ j)
      × (value ≤ 2 ^ j)
      × (j ≤ 63)
      × ((j ≡ 0) ⊎ (2 ^ j < 2 * value))
unfolding ceil_power_of_two
ceil_power_of_two_lem value small =
    ceil_power_from_lem value 64 0 small refl (omega arith) (inl refl)

-- No launch has generation 0, which the cleared tables carry, and a launch has another generation
-- than the one before it.
pub next_generation-fresh :
    (generation : ℕ)
    → generation < 2 ^ 64
    → (next_generation generation ≢ 0) × (next_generation generation ≢ generation)
unfolding next_generation
next_generation-fresh generation h = ground arith
