-- ===== src/Tests/Layout.antt =====
-- Examples for the layout of the host's buffer.
use hip_moi.Prelude.{ℕ, ◌*◌, ◌^◌, ◌≤◌, ◌<◌, ◌≡◌, ◌⊎◌, refl, Option, some, List, pos, arith}
use hip_moi.Host.{
  Capacities, checked_capacity, acquired_subgroup_epoch_token_count, assign_layout_slices,
  layout_byte_count, ceil_power_of_two,
}
use hip_moi.Host.Slices.{Packed, layout_slices, assign_layout_slices-Packed}
use hip_moi.Host.Powers.{ceil_power_of_two_lem}

abbrev small_layout : Capacities
small_layout = record {
  diagnostic_capacity = pos 4;
  subgroup_capacity = pos 3;
  atomic_object_capacity = pos 8;
  exact_shadow_entry_capacity = pos 16;
  sampled_watchpoint_capacity = pos 0;
}

nine_tokens : checked_capacity (acquired_subgroup_epoch_token_count small_layout) ≡ some (pos 9)
unfolding checked_capacity
nine_tokens = refl

assign_layout_slices-Packed_example :
    (starts : List (Option ℕ)) × (end : ℕ) × (assign_layout_slices small_layout
      ≡ some (starts, end))
    × (layout_byte_count small_layout ≡ some end)
    × Packed 0 (layout_slices small_layout (pos 9)) starts end
assign_layout_slices-Packed_example = assign_layout_slices-Packed small_layout (pos 9) nine_tokens

ceil_power_of_two_lem_example :
    (j : ℕ) × (ceil_power_of_two 100 ≡ 2 ^ j)
    × (100 ≤ 2 ^ j)
    × (j ≤ 63)
    × ((j ≡ 0) ⊎ (2 ^ j < 2 * 100))
ceil_power_of_two_lem_example = ceil_power_of_two_lem 100 (omega arith)
