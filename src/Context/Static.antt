-- ===== src/Context/Static.antt =====
-- `static_context_storage` of include/hip_moi/context.hpp, storage in the LDS of one workgroup, and
-- the construction of a context.
use hip_moi.Prelude.{ℕ, if◌then◌else◌, none, some, List, [], ℤ, pos, false, ltb}
use hip_moi.Common.Kinds.{BackendKind, backend_kind_value, SubgroupState}
use hip_moi.Context.Storage.{Config, Diagnostic, Storage, Thread, Context}

-- The template's arguments, of which the first two are positive as sizes of arrays, and the arrays.
pub record StaticContextStorage : Type 0 where
  pub diagnostic_capacity : ℕ
  pub subgroup_capacity : ℕ
  pub exact_shadow_entry_capacity : ℕ
  pub sampled_watchpoint_capacity : ℕ
  pub diagnostics : List Diagnostic
  pub subgroup_states : List SubgroupState
  pub diagnostic_count : ℤ
  pub simulated_barrier_arrival_count : ℤ
  pub exact_shadow_entries : List ℕ
  pub sampled_watchpoints : List ℕ

unfoldable pub static_ref : StaticContextStorage → BackendKind → Storage
static_ref s backend = record {
  diagnostics = some (s.diagnostics);
  diagnostic_capacity = pos (s.diagnostic_capacity);
  subgroup_states = some (s.subgroup_states);
  subgroup_capacity = pos (s.subgroup_capacity);
  diagnostic_count = some (s.diagnostic_count);
  simulated_barrier_arrival_count = some (s.simulated_barrier_arrival_count);
  exact_shadow_entries =
      if ltb 0 s.exact_shadow_entry_capacity then some (s.exact_shadow_entries) else none;
  exact_shadow_entry_capacity = pos (s.exact_shadow_entry_capacity);
  sampled_watchpoints =
      if ltb 0 s.sampled_watchpoint_capacity then some (s.sampled_watchpoints) else none;
  sampled_watchpoint_capacity = pos (s.sampled_watchpoint_capacity);
  generation = 1;
  backend = backend_kind_value backend;
  sampled_watchpoint_sample_skip = 1;
  sampled_watchpoint_probe_count = 1;
  sampled_watchpoint_delay_iters = 0;
  sampled_watchpoint_report_conflicts = 1;
  atomic_objects = none;
  atomic_address_cache = [];
  atomic_object_capacity = pos 0;
  acquired_subgroup_epoch_tokens = none;
}

-- The constructor; the members that it leaves out have their initial values.
unfoldable pub make_context : Storage → Config → Thread → Context
make_context storage cfg thread = record {
  storage = storage;
  cfg = cfg;
  thread = thread;
  last_observed_atomic_address = 0;
  last_observed_atomic_valid = false;
  pending_release_fence_epoch_token = 0;
  pending_release_fence_site_id = 0;
}
