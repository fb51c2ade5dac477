-- ===== src/Context/Storage.antt =====
-- The structs at the head of include/hip_moi/context.hpp, and the state of one thread's context.
-- A pointer of `storage_ref` stands here for the array behind it, and `none` for `nullptr`; no two
-- of the arrays overlap. The cache of producer masks, which the code finds behind the table of
-- atomic objects, is a field of its own.
use hip_moi.Prelude.{ℕ, zero, suc, ◌+◌, ◌-◌, ◌^◌, ◌==◌, if◌then◌else◌, Bool, Option, List, ℤ}
use hip_moi.Common.Kinds.{SubgroupState}

pub record Config : Type 0 where
  pub thread_count : ℤ
  pub threads_per_subgroup : ℤ
  pub subgroup_count : ℤ

pub record Diagnostic : Type 0 where
  pub kind : ℕ
  pub epoch : ℕ
  pub first_subgroup_id : ℕ
  pub second_subgroup_id : ℕ
  pub first_addr : ℕ
  pub second_addr : ℕ
  pub first_size : ℕ
  pub second_size : ℕ
  pub first_site_id : ℕ
  pub second_site_id : ℕ
  pub expected_thread_count : ℕ
  pub observed_thread_count : ℕ

pub record AtomicObjectRecord : Type 0 where
  pub generation : ℕ
  pub address : ℕ
  pub releasing_subgroup_id : ℕ
  pub releasing_epoch : ℕ
  pub release_site_id : ℕ

pub record AtomicAddressCacheRecord : Type 0 where
  pub generation : ℕ
  pub address : ℕ
  pub producer_mask : ℕ

pub record Storage : Type 0 where
  pub diagnostics : Option (List Diagnostic)
  pub diagnostic_capacity : ℤ
  pub subgroup_states : Option (List SubgroupState)
  pub subgroup_capacity : ℤ
  pub diagnostic_count : Option ℤ
  pub simulated_barrier_arrival_count : Option ℤ
  pub exact_shadow_entries : Option (List ℕ)
  pub exact_shadow_entry_capacity : ℤ
  pub sampled_watchpoints : Option (List ℕ)
  pub sampled_watchpoint_capacity : ℤ
  pub generation : ℕ
  pub backend : ℕ
  pub sampled_watchpoint_sample_skip : ℕ
  pub sampled_watchpoint_probe_count : ℕ
  pub sampled_watchpoint_delay_iters : ℕ
  pub sampled_watchpoint_report_conflicts : ℕ
  pub atomic_objects : Option (List AtomicObjectRecord)
  pub atomic_address_cache : List AtomicAddressCacheRecord
  pub atomic_object_capacity : ℤ
  pub acquired_subgroup_epoch_tokens : Option (List ℕ)

-- `threadIdx`, `blockDim`, `blockIdx` and `gridDim`
pub record Thread : Type 0 where
  pub thread_x : ℕ
  pub thread_y : ℕ
  pub thread_z : ℕ
  pub dim_x : ℕ
  pub dim_y : ℕ
  pub block_x : ℕ
  pub block_y : ℕ
  pub block_z : ℕ
  pub dim_z : ℕ
  pub grid_x : ℕ
  pub grid_y : ℕ

-- The `context` of one thread: the shared storage, and the members of its own.
pub record Context : Type 0 where
  pub storage : Storage
  pub cfg : Config
  pub thread : Thread
  pub last_observed_atomic_address : ℕ
  pub last_observed_atomic_valid : Bool
  pub pending_release_fence_epoch_token : ℕ
  pub pending_release_fence_site_id : ℕ

abbrev pub no_record : AtomicObjectRecord
no_record = record {
  generation = 0;
  address = 0;
  releasing_subgroup_id = 0;
  releasing_epoch = 0;
  release_site_id = 0;
}

-- `++` on an `int`, which wraps from 2 ^ 31 - 1
unfoldable pub int_suc : ℤ → ℤ
int_suc (ℤ.pos n) = if n == 2 ^ 31 - 1 then ℤ.negsuc n else ℤ.pos (n + 1)
int_suc (ℤ.negsuc zero) = ℤ.pos 0
int_suc (ℤ.negsuc (suc n)) = ℤ.negsuc n
