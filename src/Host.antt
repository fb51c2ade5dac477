-- ===== src/Host.antt =====
-- The layout of the host's buffer in include/hip_moi/host_context.hpp: one allocation that the
-- host cuts into slices, one for each array of the storage.
pub mod Slices
pub mod Powers
pub mod Layout
pub mod Reports
pub mod Device
use hip_moi.Prelude.{
  ℕ, zero, suc, ◌+◌, ◌-◌, ◌*◌, ◌%◌, ◌==◌, if◌then◌else◌, ltb, Option, none, some, List, [], ◌∷◌,
  ◌++◌, ◌^◌, ℤ, pos, negsuc, is_pos, u32_of_int, u64,
}
use mathlib.Core.Option

-- An array of `capacity` elements of a type with this `sizeof` and `alignof`.
pub record Slice : Type 0 where
  pub capacity : ℤ
  pub size : ℕ
  pub alignment : ℕ

unfoldable pub align_up : ℕ → ℕ → ℕ
align_up offset alignment =
    let remainder = offset % alignment in
    if remainder == 0 then offset else u64 (offset + (alignment - remainder))

-- `static_cast<std::size_t>(capacity) * sizeof(T)`, of a positive capacity
abbrev pub slice_bytes : Slice → ℕ
slice_bytes s = u64 (u32_of_int s.capacity * s.size)

unfoldable pub append_slice_size : ℕ → Slice → ℕ
append_slice_size offset s =
    if is_pos s.capacity then u64 (align_up offset s.alignment + slice_bytes s) else offset

-- Where the slice begins, from the base of the buffer, and the offset behind it.
unfoldable pub assign_slice : ℕ → Slice → Option ℕ × ℕ
assign_slice offset s =
    if is_pos s.capacity
    then (some (align_up offset s.alignment), u64 (align_up offset s.alignment + slice_bytes s))
    else (none, offset)

-- The calls of `append_slice_size` and of `assign_slice`, one after the other.
unfoldable pub append_slices : ℕ → List Slice → ℕ
append_slices offset [] = offset
append_slices offset (s ∷ slices) = append_slices (append_slice_size offset s) slices

unfoldable pub assign_slices : ℕ → List Slice → List (Option ℕ) × ℕ
assign_slices offset [] = ([], offset)
assign_slices offset (s ∷ slices) =
    let (start, next) = assign_slice offset s in
    let (starts, end) = assign_slices next slices in (start ∷ starts, end)

-- The capacities that `compute_layout_or_abort` settles on.
pub record Capacities : Type 0 where
  pub diagnostic_capacity : ℤ
  pub subgroup_capacity : ℤ
  pub atomic_object_capacity : ℤ
  pub exact_shadow_entry_capacity : ℤ
  pub sampled_watchpoint_capacity : ℤ

-- `static_cast<std::size_t>(x)` of an `int`
abbrev pub size_of_int : ℤ → ℕ
size_of_int (pos n) = n
size_of_int (negsuc n) = 2 ^ 64 - suc n

abbrev pub acquired_subgroup_epoch_token_count : Capacities → ℕ
acquired_subgroup_epoch_token_count c =
    u64 (size_of_int c.subgroup_capacity * size_of_int c.subgroup_capacity)

-- `none` where the program aborts.
unfoldable pub checked_capacity : ℕ → Option ℤ
checked_capacity capacity = if ltb (2 ^ 31 - 1) capacity then none else some (pos capacity)

abbrev pub slice_of : ℤ → ℕ → ℕ → Slice
slice_of capacity size alignment = record {
  capacity = capacity;
  size = size;
  alignment = alignment;
}

-- The slices before the two counters, and those behind them, for a number of tokens; with the sizes
-- and alignments of the structs of context.hpp on a 64-bit device.
abbrev pub first_slices : Capacities → List Slice
first_slices c = slice_of c.diagnostic_capacity 64 8 ∷ slice_of c.subgroup_capacity 4 4 ∷ []

abbrev pub last_slices : Capacities → ℤ → List Slice
last_slices c token_count =
    slice_of c.atomic_object_capacity 32 8
    ∷ slice_of c.atomic_object_capacity 24 8
    ∷ slice_of token_count 4 4
    ∷ slice_of c.exact_shadow_entry_capacity 8 8
    ∷ slice_of c.sampled_watchpoint_capacity 8 8
    ∷ []

unfoldable pub layout_byte_count : Capacities → Option ℕ
layout_byte_count c =
    Option.map (λ k. append_slices 0 (first_slices c ++ slice_of (pos 2) 4 4 ∷ last_slices c k))
      (checked_capacity (acquired_subgroup_epoch_token_count c))

-- The starts of the slices and `layout_bytes_`.
unfoldable pub assign_layout_slices : Capacities → Option (List (Option ℕ) × ℕ)
assign_layout_slices c =
    Option.map
      (λ k.
        assign_slices 0
          (first_slices c ++ slice_of (pos 1) 4 4 ∷ slice_of (pos 1) 4 4 ∷ last_slices c k))
      (checked_capacity (acquired_subgroup_epoch_token_count c))

unfoldable pub ceil_power_from : ℕ → ℕ → ℕ → ℕ
ceil_power_from value zero result = result
ceil_power_from value (suc fuel) result =
    let rest = ceil_power_from value fuel (u64 (result * 2)) in
    if ltb result value then rest else result

-- 64 rounds
unfoldable pub ceil_power_of_two : ℕ → ℕ
unfolding ceil_power_from
ceil_power_of_two value = ceil_power_from value 64 1

unfoldable pub next_generation : ℕ → ℕ
next_generation generation = let g = u64 (generation + 1) in if g == 0 then 1 else g
