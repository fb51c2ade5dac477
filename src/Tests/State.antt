-- ===== src/Tests/State.antt =====
-- A small workgroup for the tests: two threads, each a subgroup of its own.
use hip_moi.Prelude.{ℕ, some, List, [], ◌∷◌, pos, false}
use hip_moi.Common.Kinds.{SiteId, SubgroupState}
use hip_moi.Context.Storage.{
  Diagnostic, AtomicObjectRecord, no_record, AtomicAddressCacheRecord, Storage, Thread, Context,
}

abbrev pub blank : Diagnostic
blank = record {
  kind = 0;
  epoch = 0;
  first_subgroup_id = 0;
  second_subgroup_id = 0;
  first_addr = 0;
  second_addr = 0;
  first_size = 0;
  second_size = 0;
  first_site_id = 0;
  second_site_id = 0;
  expected_thread_count = 0;
  observed_thread_count = 0;
}

abbrev pub buffer : List Diagnostic
buffer = blank ∷ blank ∷ []

abbrev pub states : List SubgroupState
states = record { epoch = 5 } ∷ record { epoch = 5 } ∷ []

abbrev pub tokens : List ℕ
tokens = 0 ∷ 0 ∷ 0 ∷ 0 ∷ []

abbrev pub empty_words : List ℕ
empty_words = 0 ∷ 0 ∷ 0 ∷ 0 ∷ []

abbrev pub stale_objects : List AtomicObjectRecord
stale_objects = no_record ∷ no_record ∷ []

abbrev pub empty_cache : List AtomicAddressCacheRecord
empty_cache =
    record { generation = 0; address = 0; producer_mask = 0 }
    ∷ record { generation = 0; address = 0; producer_mask = 0 }
    ∷ []

abbrev pub launched : Storage
launched = record {
  diagnostics = some buffer;
  diagnostic_capacity = pos 2;
  subgroup_states = some states;
  subgroup_capacity = pos 2;
  diagnostic_count = some (pos 0);
  simulated_barrier_arrival_count = some (pos 0);
  exact_shadow_entries = some empty_words;
  exact_shadow_entry_capacity = pos 4;
  sampled_watchpoints = some empty_words;
  sampled_watchpoint_capacity = pos 4;
  generation = 1;
  backend = 0;
  sampled_watchpoint_sample_skip = 0;
  sampled_watchpoint_probe_count = 1;
  sampled_watchpoint_delay_iters = 0;
  sampled_watchpoint_report_conflicts = 1;
  atomic_objects = some stale_objects;
  atomic_address_cache = empty_cache;
  atomic_object_capacity = pos 2;
  acquired_subgroup_epoch_tokens = some tokens;
}

abbrev pub thread_at : ℕ → Thread
thread_at x = record {
  thread_x = x;
  thread_y = 0;
  thread_z = 0;
  dim_x = 2;
  dim_y = 1;
  block_x = 0;
  block_y = 0;
  block_z = 0;
  dim_z = 1;
  grid_x = 1;
  grid_y = 1;
}

-- The context of the thread with number `x` on a storage.
abbrev pub context_at : ℕ → Storage → Context
context_at x s = record {
  storage = s;
  cfg = record { thread_count = pos 2; threads_per_subgroup = pos 1; subgroup_count = pos 2 };
  thread = thread_at x;
  last_observed_atomic_address = 0;
  last_observed_atomic_valid = false;
  pending_release_fence_epoch_token = 0;
  pending_release_fence_site_id = 0;
}

abbrev pub site_at : ℕ → SiteId
site_at n = record { value = n }
