-- ===== src/Tests/Hosts.antt =====
-- A host context with a small budget, and examples for its checks and launches.
use hip_moi.Prelude.{
  ℕ, zero, suc, ◌+◌, ◌*◌, ◌<◌, ◌≡◌, ◌≤◌, ◌⊎◌, ◌↔◌, refl, true, false, Option, none, some, List, [],
  ◌∷◌, ℤ, pos, arith, replicate, get_or, set, is_pos,
}
use hip_moi.Common.Kinds.{AccessKind, exact_shadow}
use hip_moi.Shadow.Kinds.{shadow_kind_from_access_kind, shadow_kind_is_empty, shadow_kind_conflicts}
use hip_moi.Shadow.Exact.{
  exact_shadow_entries_conflict, decode_exact_shadow_entry, pack_exact_shadow_entry,
}
use hip_moi.Context.Storage.{no_record, Storage}
use hip_moi.Context.Subgroups.{
  subgroup_id, thread_id, configured_subgroup_count, current_epoch, epoch_at,
}
use hip_moi.Context.Diagnostics.{emit_diagnostic}
use hip_moi.Context.Exact.{record_exact_shadow_access, record_cells, record_cell, reports}
use hip_moi.Context.Acquires.{current_access_acquired_prior_epoch, token_index}
use hip_moi.Context.Releases.{record_atomic_release_at_epoch_impl}
use hip_moi.Context.Releases.Lookup.{HasObjects, released_epoch}
use hip_moi.Context.Kernel.{on, release, here, next}
use hip_moi.Host.{
  Capacities, assign_layout_slices, assign_slices, assign_slice, layout_byte_count, append_slices,
  append_slice_size, align_up, checked_capacity, ceil_power_from,
}
use hip_moi.Host.Slices.{layout_slices}
use hip_moi.Host.Layout.{
  HostContextOptions, default_options, compute_layout, shrink_auto_capacities,
  shrink_one_auto_capacity, stderr, fixed_capacities, backend_capacity,
}
use hip_moi.Host.Layout.Budget.{shrink_auto_capacities-ends}
use hip_moi.Host.Layout.Counts.{IntOptions}
use hip_moi.Host.Layout.Success.{compute_layout-succeeds}
use hip_moi.Host.Layout.Contained.{Contained, compute_layout-Contained}
use hip_moi.Host.Reports.{Printed}
use hip_moi.Host.Device.{
  Runtime, success, HostContext, allocated, construct, cleared_regions, check, destroy, aborted,
}
use hip_moi.Host.Device.Checks.{Clean, check-Clean, destroy-aborts}
use hip_moi.Host.Device.Detected.{Reads, racing_accesses_checked}
use hip_moi.Host.Device.Regions.{Inside, construct-Inside}
use hip_moi.Host.Device.Launch.{Arrays, launch_ref, constructed}
use hip_moi.Host.Device.Launch.Stale.{Launches-fresh}
use hip_moi.Tests.State.{blank, states, tokens, buffer, context_at, launched, site_at}
use hip_moi.Tests.Accesses.{
  four_cells, first_bytes, second_bytes, first_quiet, clashing, no_token, thread0, thread1,
  thread1_next, after_first, cells_kept,
}

abbrev small_options : HostContextOptions
small_options = record default_options {
  storage_bytes = 256;
  diagnostic_capacity = pos 1;
  subgroup_capacity = pos 2;
}

-- The device's memory is the count that its kernels left; the calls succeed.
abbrev counting : Runtime ℕ
counting = record {
  malloc = λ byte_count m. (success, 4096, m);
  memset = λ ptr value byte_count m. (success, m);
  free = λ base m. m;
  device_synchronize = λ m. (success, m);
  copy_int = λ ptr m. (success, pos m);
  copy_diagnostics = λ ptr n m. (success, []);
}

abbrev small_capacities : Capacities
small_capacities = record {
  diagnostic_capacity = pos 1;
  subgroup_capacity = pos 2;
  atomic_object_capacity = pos 1;
  exact_shadow_entry_capacity = pos 13;
  sampled_watchpoint_capacity = pos 0;
}

abbrev small_starts : List (Option ℕ)
small_starts =
    some 0 ∷ some 64 ∷ some 72 ∷ some 76 ∷ some 80 ∷ some 112 ∷ some 136 ∷ some 152 ∷ none ∷ []

abbrev small_host : HostContext
small_host = allocated small_options 4096 small_capacities small_starts 256

laid_out : compute_layout small_options ≡ some (small_capacities, 256)
unfolding compute_layout ceil_power_from append_slices append_slice_size align_up
laid_out = refl

compute_layout-Contained_example :
    (k : ℤ) × (starts : List (Option ℕ)) × (assign_layout_slices small_capacities
      ≡ some (starts, 256))
    × Contained 256 (layout_slices small_capacities k) starts
    × (is_pos (pos 1) ≡ true)
    × (is_pos (pos 13) ≡ true)
compute_layout-Contained_example = compute_layout-Contained small_options laid_out

abbrev fixed_small : Capacities
fixed_small = record small_capacities { exact_shadow_entry_capacity = pos 0 }

fixed_small_options : fixed_capacities small_options ≡ some fixed_small
unfolding fixed_capacities ceil_power_from
fixed_small_options = refl

fixed_small_bytes : layout_byte_count fixed_small ≡ some 152
unfolding layout_byte_count append_slices append_slice_size align_up checked_capacity
fixed_small_bytes = refl

compute_layout-succeeds_example :
    (c : Capacities) × (layout_bytes : ℕ) × (compute_layout small_options ≡ some (c, layout_bytes))
    × (m : ℕ) × (backend_capacity exact_shadow c ≡ pos m)
    × (256 < 152 + 8 * (m + 2))
compute_layout-succeeds_example =
    compute_layout-succeeds small_options refl (omega arith) fixed_small_options fixed_small_bytes
      refl (omega arith)

-- Too many entries by one for the budget.
abbrev too_many : Capacities
too_many = record small_capacities { exact_shadow_entry_capacity = pos 14 }

shrunk : shrink_auto_capacities small_options 14 too_many ≡ some small_capacities
unfolding shrink_auto_capacities layout_byte_count append_slices append_slice_size align_up
shrunk = refl

counted : layout_byte_count small_capacities ≡ some 256
unfolding layout_byte_count append_slices append_slice_size align_up checked_capacity
counted = refl

shrink_auto_capacities-ends_example :
    (256 ≤ 256) ⊎ ((shrink_one_auto_capacity small_options small_capacities).0 ≡ false)
shrink_auto_capacities-ends_example =
    shrink_auto_capacities-ends small_options 14 too_many (omega arith) shrunk counted

check-Clean_example :
    ((check counting (some stderr) small_host 3).0 ≡ true) ↔ Clean counting small_host 3
check-Clean_example = check-Clean counting (some stderr) small_host 3

destroy-aborts_example :
    ((p : Printed) × (destroy counting small_host 3 ≡ aborted p))
    ↔ ((true ≡ false) × (true ≡ true) × (¬ Clean counting small_host 3))
destroy-aborts_example = destroy-aborts counting small_host 3

abbrev small_arrays : Arrays
small_arrays = record {
  diagnostics = blank ∷ [];
  subgroup_states = states;
  diagnostic_count = pos 0;
  simulated_barrier_arrival_count = pos 0;
  exact_shadow_entries = replicate 13 0;
  sampled_watchpoints = [];
  atomic_objects = no_record ∷ [];
  atomic_address_cache = [];
  acquired_subgroup_epoch_tokens = tokens;
}

made : construct counting small_options 0 ≡ some (small_host, 0)
unfolding construct compute_layout assign_layout_slices assign_slices assign_slice ceil_power_from
    append_slices append_slice_size align_up layout_byte_count
made = refl

small_ints : IntOptions small_options
small_ints = record {
  exact = omega arith;
  sampled = omega arith;
  diagnostics = omega arith;
  subgroups = omega arith;
}

construct-Inside_example :
    (base : ℕ) × (small_host.device_storage ≡ some base)
    × Inside base 256 (cleared_regions small_host.capacities small_host.pointers)
construct-Inside_example = construct-Inside counting small_options 0 0 small_host small_ints made

clear_record : (j : ℕ) → (get_or small_arrays.atomic_objects j no_record).generation ≡ 0
unfolding get_or
clear_record zero = refl
clear_record (suc j) = refl

-- Thread 0 releases once.
abbrev first_release : Storage
first_release =
    (record_atomic_release_at_epoch_impl false
      (on (context_at 0 launched) ((launch_ref small_host small_arrays).0)) 640 4 7
      (site_at 5)).storage

Launches-fresh_example :
    ((x p : ℕ) → released_epoch (launch_ref small_host small_arrays).0 x p ≡ none)
    × ((capacity : ℕ) × HasObjects first_release capacity)
Launches-fresh_example =
    Launches-fresh counting first_release
      (constructed small_options 0 0 small_host small_arrays made (refl, clear_record))
      (omega arith)
      (next here (
        release ((launch_ref small_host small_arrays).0) (context_at 0 launched) false 640 4 7
          (site_at 5)))

abbrev raced : Storage
raced = (record_exact_shadow_access thread1_next 1006 4 AccessKind.load 6 (site_at 22)).storage

one_reported : raced.diagnostic_count ≡ some (pos 1)
unfolding record_exact_shadow_access record_cells record_cell reports exact_shadow_entries_conflict
    decode_exact_shadow_entry pack_exact_shadow_entry shadow_kind_from_access_kind
    shadow_kind_is_empty get_or set subgroup_id thread_id configured_subgroup_count current_epoch
    epoch_at emit_diagnostic current_access_acquired_prior_epoch token_index shadow_kind_conflicts
one_reported = refl

read_count : Reads counting (some stderr) small_host 1 raced
read_count m' n synchronized copied =
    let same : m' ≡ 1 = cc in let one : n ≡ pos 1 = cc in rw one one_reported

racing_accesses_checked_example : (check counting (some stderr) small_host 1).0 ≡ false
unfolding current_epoch epoch_at get_or subgroup_id thread_id configured_subgroup_count
racing_accesses_checked_example =
    racing_accesses_checked counting (some stderr) small_host 1 thread0 thread1 1000 8 0 1006 4 6 4
      AccessKind.store AccessKind.load (site_at 21) (site_at 22) four_cells first_bytes second_bytes
      after_first cells_kept buffer 0 7 read_count first_quiet (omega arith) (omega arith)
      (omega arith) (omega arith) (omega arith) refl clashing no_token
