-- ===== src/Common/Kinds.antt =====
-- The enumerations and small structs at the head of include/hip_moi/common.hpp.
use hip_moi.Prelude.{ℕ, Bool, true, false}

pub record SiteId : Type 0 where
  pub value : ℕ

abbrev pub no_site_id : SiteId
no_site_id = record { value = 0 }

pub data AccessKind : Type 0 where
  load store : AccessKind

pub data DiagnosticKind : Type 0 where
  none_kind access_conflict metadata_full barrier_divergence : DiagnosticKind

-- `static_cast<uint32_t>(kind)`
abbrev pub diagnostic_kind_value : DiagnosticKind → ℕ
diagnostic_kind_value none_kind = 0
diagnostic_kind_value access_conflict = 1
diagnostic_kind_value metadata_full = 2
diagnostic_kind_value barrier_divergence = 3

pub data BackendKind : Type 0 where
  exact_shadow sampled_watchpoint : BackendKind

abbrev pub backend_kind_value : BackendKind → ℕ
backend_kind_value exact_shadow = 0
backend_kind_value sampled_watchpoint = 1

pub data AtomicMemoryOrder : Type 0 where
  relaxed acquire release acq_rel seq_cst : AtomicMemoryOrder

pub data AtomicMemoryScope : Type 0 where
  workgroup agent system : AtomicMemoryScope

-- The arguments of the template `sampled_watchpoint_policy`.
pub record SampledWatchpointPolicy : Type 0 where
  pub sample_skip : ℕ
  pub probe_count : ℕ
  pub delay_iters : ℕ
  pub report_conflicts : Bool
  pub static_watchpoint_capacity : ℕ

pub record SubgroupState : Type 0 where
  pub epoch : ℕ

pub is_write : AccessKind → Bool
is_write store = true
is_write load = false

unfoldable pub atomic_order_has_acquire : AtomicMemoryOrder → Bool
atomic_order_has_acquire acquire = true
atomic_order_has_acquire acq_rel = true
atomic_order_has_acquire seq_cst = true
atomic_order_has_acquire relaxed = false
atomic_order_has_acquire release = false

unfoldable pub atomic_order_has_release : AtomicMemoryOrder → Bool
atomic_order_has_release release = true
atomic_order_has_release acq_rel = true
atomic_order_has_release seq_cst = true
atomic_order_has_release relaxed = false
atomic_order_has_release acquire = false
