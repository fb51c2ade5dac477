-- ===== src/Context/Sampling.antt =====
-- How the sampled backend of include/hip_moi/context.hpp chooses the access that publishes, the
-- lane that does so, and the slot of the watchpoint table.
use hip_moi.Prelude.{
  ℕ, ◌+◌, ◌*◌, ◌%◌, ◌^◌, ◌<◌, Bool, false, ◌&&◌, not, leb, ltb, ◌==◌, if◌then◌else◌, is_pos,
  u32_of_int, u32, sub32, ◌>>>◌, bit_xor, bit_and, bit_and-le_right, bit_or, arith,
}
use hip_moi.Common.Kinds.{SiteId}
use hip_moi.Common.Hash.{mix32}
use hip_moi.Context.Storage.{Storage, Thread, Context}
use hip_moi.Context.Subgroups.{subgroup_id, lane_in_subgroup}

unfoldable pub flat_workgroup_id : Thread → ℕ
flat_workgroup_id t = u32 (t.block_x + t.grid_x * (t.block_y + t.grid_y * t.block_z))

unfoldable pub sampled_site_seed : SiteId → ℕ
sampled_site_seed site = u32 (bit_xor site.value (site.value >>> 32))

unfoldable pub sampled_selection_seed : Context → SiteId → ℕ
unfolding flat_workgroup_id sampled_site_seed
sampled_selection_seed c site = mix32 (
    bit_xor
      (bit_xor
        (bit_xor (u32 (u32 c.storage.generation * 0x9e3779b9))
          (u32 (u32 (flat_workgroup_id c.thread + 1) * 0x85ebca6b)))
        (u32 (u32 (subgroup_id c + 1) * 0xc2b2ae35)))
      (u32 (sampled_site_seed site * 0x27d4eb2d)))

-- `value & (count - 1)` for a power of two, `value % count` for any other count.
unfoldable pub map_sampled_index : ℕ → ℕ → ℕ
map_sampled_index value count =
    if count == 0
    then 0
    else if bit_and count (sub32 count 1) == 0
    then bit_and value (sub32 count 1)
    else value % count

-- Every mapped index is below the count, for a positive 32-bit count.
pub map_sampled_index-lt :
    (value count : ℕ) → 0 < count → count < 2 ^ 32 → map_sampled_index value count < count
unfolding map_sampled_index
map_sampled_index-lt value count h small = ground (arith, bit_and-le_right value (sub32 count 1))

unfoldable pub sampled_should_publish : Context → ℕ → Bool
unfolding map_sampled_index
sampled_should_publish c selection_seed =
    let subgroup_threads : ℕ =
      if is_pos c.cfg.threads_per_subgroup then u32_of_int c.cfg.threads_per_subgroup else 1 in
    let skip : ℕ =
      if c.storage.sampled_watchpoint_sample_skip == 0
      then 1
      else c.storage.sampled_watchpoint_sample_skip in
    let power_of_two = bit_and skip (sub32 skip 1) == 0 in
    let remainder : ℕ =
      if power_of_two then bit_and selection_seed (sub32 skip 1) else selection_seed % skip in
    if ltb 1 skip && not (remainder == 0)
    then false
    else lane_in_subgroup c == map_sampled_index (selection_seed >>> 16) subgroup_threads

unfoldable pub sampled_watchpoint_slot : Storage → ℕ → ℕ → ℕ
unfolding map_sampled_index
sampled_watchpoint_slot s start_cell epoch =
    map_sampled_index
      (mix32 (
        bit_xor (bit_xor (u32 (epoch * 0x85ebca6b)) (u32 (u32 s.generation * 0xc2b2ae35)))
          (u32 (start_cell * 0x165667b1))))
      (u32_of_int s.sampled_watchpoint_capacity)

unfoldable pub sampled_probe_step : Storage → ℕ → ℕ → ℕ
unfolding map_sampled_index
sampled_probe_step s selection_seed start_cell =
    let capacity = u32_of_int s.sampled_watchpoint_capacity in
    if leb capacity 1
    then 0
    else map_sampled_index
        (bit_or (mix32 (bit_xor selection_seed (u32 (start_cell * 0x94d049bb)))) 1) capacity
