-- ===== src/Host/Device/Launch.antt =====
-- `launch_ref` of include/hip_moi/host_context.hpp, and the launches of one host context, one after
-- the other, on the arrays of the device that it keeps between them.
pub mod Stale
use hip_moi.Prelude.{
  ℕ, zero, suc, ◌+◌, ◌-◌, ◌*◌, ◌^◌, ◌≤◌, ◌<◌, ◌≡◌, ◌≢◌, refl, sym, ap, subst, ◌∙◌, Bool, true,
  false, if◌then◌else◌, Option, none, some, List, ℤ, pos, get_or, length, arith, is_pos, u32,
  u32_of_int,
}
use mathlib.Core.Option
use hip_moi.Common.Kinds.{SubgroupState, backend_kind_value}
use hip_moi.Context.Storage.{
  Diagnostic, AtomicObjectRecord, AtomicAddressCacheRecord, no_record, Storage,
}
use hip_moi.Host.{next_generation}
use hip_moi.Host.Layout.{HostContextOptions}
use hip_moi.Host.Device.{Runtime, HostContext, construct}
use hip_moi.Context.Objects.{claimed_generation, find_from, find_atomic_object_record}
use hip_moi.Context.Releases.Lookup.{HasObjects, released_epoch}
use hip_moi.Context.Kernel.{Steps}
use hip_moi.Context.Kernel.Records.{Past, HasRecords, Steps-HasRecords}

-- What the nine pointers point to.
pub record Arrays : Type 0 where
  pub diagnostics : List Diagnostic
  pub subgroup_states : List SubgroupState
  pub diagnostic_count : ℤ
  pub simulated_barrier_arrival_count : ℤ
  pub exact_shadow_entries : List ℕ
  pub sampled_watchpoints : List ℕ
  pub atomic_objects : List AtomicObjectRecord
  pub atomic_address_cache : List AtomicAddressCacheRecord
  pub acquired_subgroup_epoch_tokens : List ℕ

-- An array, unless its pointer is null.
abbrev pub behind : {A : Type 0} → Option ℕ → A → Option A
behind none a = none
behind (some ptr) a = some a

-- The array, if its pointer was not null, as a launch leaves it.
abbrev pub left_in : {A : Type 0} → A → Option A → A
left_in a none = a
left_in a (some b) = b

unfoldable pub launch_ref : HostContext → Arrays → Storage × HostContext
unfolding next_generation
launch_ref h a = (
  record {
    diagnostics = behind h.pointers.diagnostics a.diagnostics;
    diagnostic_capacity = h.capacities.diagnostic_capacity;
    subgroup_states = behind h.pointers.subgroup_states a.subgroup_states;
    subgroup_capacity = h.capacities.subgroup_capacity;
    diagnostic_count = behind h.pointers.diagnostic_count a.diagnostic_count;
    simulated_barrier_arrival_count =
        behind h.pointers.simulated_barrier_arrival_count a.simulated_barrier_arrival_count;
    exact_shadow_entries = behind h.pointers.exact_shadow_entries a.exact_shadow_entries;
    exact_shadow_entry_capacity = h.capacities.exact_shadow_entry_capacity;
    sampled_watchpoints = behind h.pointers.sampled_watchpoints a.sampled_watchpoints;
    sampled_watchpoint_capacity = h.capacities.sampled_watchpoint_capacity;
    generation = next_generation h.generation;
    backend = backend_kind_value h.options.backend;
    sampled_watchpoint_sample_skip = h.options.sampled_watchpoint_sample_skip;
    sampled_watchpoint_probe_count = h.options.sampled_watchpoint_probe_count;
    sampled_watchpoint_delay_iters = h.options.sampled_watchpoint_delay_iters;
    sampled_watchpoint_report_conflicts = if h.options.sampled_watchpoint_reports then 1 else 0;
    atomic_objects = behind h.pointers.atomic_objects a.atomic_objects;
    atomic_address_cache = a.atomic_address_cache;
    atomic_object_capacity = h.capacities.atomic_object_capacity;
    acquired_subgroup_epoch_tokens =
        behind h.pointers.acquired_subgroup_epoch_tokens a.acquired_subgroup_epoch_tokens;
  },
  record h { diagnostics_consumed = false; generation = next_generation h.generation },
)

unfoldable pub device_ref : HostContext → Arrays → Storage × HostContext
unfolding launch_ref
device_ref h a = launch_ref h a

unfoldable pub ref : HostContext → Arrays → Storage × HostContext
unfolding launch_ref
ref h a = launch_ref h a

-- The arrays that a launch on `a` leaves.
abbrev pub arrays_after : Arrays → Storage → Arrays
arrays_after a s = record {
  diagnostics = left_in a.diagnostics s.diagnostics;
  subgroup_states = left_in a.subgroup_states s.subgroup_states;
  diagnostic_count = left_in a.diagnostic_count s.diagnostic_count;
  simulated_barrier_arrival_count =
      left_in a.simulated_barrier_arrival_count s.simulated_barrier_arrival_count;
  exact_shadow_entries = left_in a.exact_shadow_entries s.exact_shadow_entries;
  sampled_watchpoints = left_in a.sampled_watchpoints s.sampled_watchpoints;
  atomic_objects = left_in a.atomic_objects s.atomic_objects;
  atomic_address_cache = s.atomic_address_cache;
  acquired_subgroup_epoch_tokens =
      left_in a.acquired_subgroup_epoch_tokens s.acquired_subgroup_epoch_tokens;
}

-- The records of releases that the host clears at its construction.
abbrev pub Cleared : HostContext → Arrays → Type 0
Cleared h a =
    (h.capacities.atomic_object_capacity ≡ pos (length a.atomic_objects))
    × ((j : ℕ) → (get_or a.atomic_objects j no_record).generation ≡ 0)

-- A host context and its arrays, after its construction and any number of launches, which fit the
-- 64-bit generation.
pub data Launches {M : Type 0} (hip : Runtime M) : HostContext → Arrays → Type 0 where
  constructed :
      (o : HostContextOptions) (m m' : M) (h : HostContext) (a : Arrays)
      → construct hip o m ≡ some (h, m')
      → Cleared h a
      → Launches hip h a
  launched :
      (h : HostContext) (a : Arrays) (s : Storage)
      → Launches hip h a
      → h.generation < 2 ^ 64 - 2
      → Steps (launch_ref h a).0 s
      → Launches hip (launch_ref h a).1 (arrays_after a s)
