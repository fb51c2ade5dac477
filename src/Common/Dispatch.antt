-- ===== src/Common/Dispatch.antt =====
-- The atomic operations of include/hip_moi/common.hpp: which builtin each of them issues, with
-- which order and scope. The builtins themselves are a parameter.
pub mod Orders
use hip_moi.Prelude.{ℕ, Bool}
use hip_moi.Common.Kinds.{
  AtomicMemoryOrder, relaxed, acquire, release, acq_rel, seq_cst, AtomicMemoryScope, workgroup,
  agent, system,
}

-- `__ATOMIC_RELAXED` and the others
pub data BuiltinOrder : Type 0 where
  atomic_relaxed atomic_acquire atomic_release atomic_acq_rel atomic_seq_cst : BuiltinOrder

-- `__HIP_MEMORY_SCOPE_WORKGROUP` and the others; a fence names the same scopes by a string.
pub data BuiltinScope : Type 0 where
  scope_workgroup scope_agent scope_system : BuiltinScope

-- The builtins on a value type `T`, as changes of the device's state `S`. A fetch returns the
-- old value; a compare-exchange returns whether it wrote, and what it leaves in `*expected`.
pub record Builtins (S T : Type 0) : Type 0 where
  pub hip_atomic_load : ℕ → BuiltinOrder → BuiltinScope → S → T × S
  pub hip_atomic_store : ℕ → T → BuiltinOrder → BuiltinScope → S → S
  pub hip_atomic_fetch_add : ℕ → T → BuiltinOrder → BuiltinScope → S → T × S
  pub hip_atomic_fetch_or : ℕ → T → BuiltinOrder → BuiltinScope → S → T × S
  pub hip_atomic_fetch_and : ℕ → T → BuiltinOrder → BuiltinScope → S → T × S
  pub hip_atomic_fetch_xor : ℕ → T → BuiltinOrder → BuiltinScope → S → T × S
  pub hip_atomic_exchange : ℕ → T → BuiltinOrder → BuiltinScope → S → T × S
  pub hip_atomic_compare_exchange_strong :
      ℕ → T → T → BuiltinOrder → BuiltinOrder → BuiltinScope → S → Bool × T × S
  pub amdgcn_fence : BuiltinOrder → BuiltinScope → S → S
  pub threadfence_system : S → S

unfoldable pub atomic_order_value : AtomicMemoryOrder → BuiltinOrder
atomic_order_value relaxed = atomic_relaxed
atomic_order_value acquire = atomic_acquire
atomic_order_value release = atomic_release
atomic_order_value acq_rel = atomic_acq_rel
atomic_order_value seq_cst = atomic_seq_cst

unfoldable pub atomic_compare_exchange_failure_order_value : AtomicMemoryOrder → BuiltinOrder
atomic_compare_exchange_failure_order_value relaxed = atomic_relaxed
atomic_compare_exchange_failure_order_value acquire = atomic_acquire
atomic_compare_exchange_failure_order_value seq_cst = atomic_seq_cst
atomic_compare_exchange_failure_order_value release = atomic_relaxed
atomic_compare_exchange_failure_order_value acq_rel = atomic_acquire

module _ {S T : Type 0} (b : Builtins S T) where
  unfoldable pub atomic_load_with_scope : BuiltinScope → ℕ → AtomicMemoryOrder → S → T × S
  atomic_load_with_scope scope ptr relaxed = b.hip_atomic_load ptr atomic_relaxed scope
  atomic_load_with_scope scope ptr acquire = b.hip_atomic_load ptr atomic_acquire scope
  atomic_load_with_scope scope ptr seq_cst = b.hip_atomic_load ptr atomic_seq_cst scope
  atomic_load_with_scope scope ptr release = b.hip_atomic_load ptr atomic_seq_cst scope
  atomic_load_with_scope scope ptr acq_rel = b.hip_atomic_load ptr atomic_seq_cst scope

  unfoldable pub atomic_store_with_scope : BuiltinScope → ℕ → T → AtomicMemoryOrder → S → S
  atomic_store_with_scope scope ptr v relaxed = b.hip_atomic_store ptr v atomic_relaxed scope
  atomic_store_with_scope scope ptr v release = b.hip_atomic_store ptr v atomic_release scope
  atomic_store_with_scope scope ptr v seq_cst = b.hip_atomic_store ptr v atomic_seq_cst scope
  atomic_store_with_scope scope ptr v acquire = b.hip_atomic_store ptr v atomic_seq_cst scope
  atomic_store_with_scope scope ptr v acq_rel = b.hip_atomic_store ptr v atomic_seq_cst scope

  unfoldable pub atomic_fetch_add_with_scope : BuiltinScope → ℕ → T → AtomicMemoryOrder → S → T × S
  atomic_fetch_add_with_scope scope ptr v relaxed =
      b.hip_atomic_fetch_add ptr v atomic_relaxed scope
  atomic_fetch_add_with_scope scope ptr v acquire =
      b.hip_atomic_fetch_add ptr v atomic_acquire scope
  atomic_fetch_add_with_scope scope ptr v release =
      b.hip_atomic_fetch_add ptr v atomic_release scope
  atomic_fetch_add_with_scope scope ptr v acq_rel =
      b.hip_atomic_fetch_add ptr v atomic_acq_rel scope
  atomic_fetch_add_with_scope scope ptr v seq_cst =
      b.hip_atomic_fetch_add ptr v atomic_seq_cst scope

  unfoldable pub atomic_fetch_or_with_scope : BuiltinScope → ℕ → T → AtomicMemoryOrder → S → T × S
  atomic_fetch_or_with_scope scope ptr v relaxed = b.hip_atomic_fetch_or ptr v atomic_relaxed scope
  atomic_fetch_or_with_scope scope ptr v acquire = b.hip_atomic_fetch_or ptr v atomic_acquire scope
  atomic_fetch_or_with_scope scope ptr v release = b.hip_atomic_fetch_or ptr v atomic_release scope
  atomic_fetch_or_with_scope scope ptr v acq_rel = b.hip_atomic_fetch_or ptr v atomic_acq_rel scope
  atomic_fetch_or_with_scope scope ptr v seq_cst = b.hip_atomic_fetch_or ptr v atomic_seq_cst scope

  unfoldable pub atomic_fetch_and_with_scope : BuiltinScope → ℕ → T → AtomicMemoryOrder → S → T × S
  atomic_fetch_and_with_scope scope ptr v relaxed =
      b.hip_atomic_fetch_and ptr v atomic_relaxed scope
  atomic_fetch_and_with_scope scope ptr v acquire =
      b.hip_atomic_fetch_and ptr v atomic_acquire scope
  atomic_fetch_and_with_scope scope ptr v release =
      b.hip_atomic_fetch_and ptr v atomic_release scope
  atomic_fetch_and_with_scope scope ptr v acq_rel =
      b.hip_atomic_fetch_and ptr v atomic_acq_rel scope
  atomic_fetch_and_with_scope scope ptr v seq_cst =
      b.hip_atomic_fetch_and ptr v atomic_seq_cst scope

  unfoldable pub atomic_fetch_xor_with_scope : BuiltinScope → ℕ → T → AtomicMemoryOrder → S → T × S
  atomic_fetch_xor_with_scope scope ptr v relaxed =
      b.hip_atomic_fetch_xor ptr v atomic_relaxed scope
  atomic_fetch_xor_with_scope scope ptr v acquire =
      b.hip_atomic_fetch_xor ptr v atomic_acquire scope
  atomic_fetch_xor_with_scope scope ptr v release =
      b.hip_atomic_fetch_xor ptr v atomic_release scope
  atomic_fetch_xor_with_scope scope ptr v acq_rel =
      b.hip_atomic_fetch_xor ptr v atomic_acq_rel scope
  atomic_fetch_xor_with_scope scope ptr v seq_cst =
      b.hip_atomic_fetch_xor ptr v atomic_seq_cst scope

  unfoldable pub atomic_exchange_with_scope : BuiltinScope → ℕ → T → AtomicMemoryOrder → S → T × S
  unfolding atomic_order_value
  atomic_exchange_with_scope scope ptr v order =
      b.hip_atomic_exchange ptr v (atomic_order_value order) scope

  unfoldable pub atomic_compare_exchange_strong_with_scope :
      BuiltinScope → ℕ → T → T → AtomicMemoryOrder → AtomicMemoryOrder → S → Bool × T × S
  unfolding atomic_order_value atomic_compare_exchange_failure_order_value
  atomic_compare_exchange_strong_with_scope scope ptr expected desired success failure =
      b.hip_atomic_compare_exchange_strong ptr expected desired (atomic_order_value success)
        (atomic_compare_exchange_failure_order_value failure) scope

  unfoldable pub atomic_fence_workgroup : AtomicMemoryOrder → S → S
  atomic_fence_workgroup relaxed = λ s. s
  atomic_fence_workgroup acquire = b.amdgcn_fence atomic_acquire scope_workgroup
  atomic_fence_workgroup release = b.amdgcn_fence atomic_release scope_workgroup
  atomic_fence_workgroup acq_rel = b.amdgcn_fence atomic_acq_rel scope_workgroup
  atomic_fence_workgroup seq_cst = b.amdgcn_fence atomic_seq_cst scope_workgroup

  unfoldable pub atomic_fence_agent : AtomicMemoryOrder → S → S
  atomic_fence_agent relaxed = λ s. s
  atomic_fence_agent acquire = b.amdgcn_fence atomic_acquire scope_agent
  atomic_fence_agent release = b.amdgcn_fence atomic_release scope_agent
  atomic_fence_agent acq_rel = b.amdgcn_fence atomic_acq_rel scope_agent
  atomic_fence_agent seq_cst = b.amdgcn_fence atomic_seq_cst scope_agent

  unfoldable pub atomic_fence_system : AtomicMemoryOrder → S → S
  atomic_fence_system relaxed = λ s. s
  atomic_fence_system acquire = b.threadfence_system
  atomic_fence_system release = b.threadfence_system
  atomic_fence_system acq_rel = b.threadfence_system
  atomic_fence_system seq_cst = b.threadfence_system

  unfoldable pub atomic_load_dispatch : ℕ → AtomicMemoryOrder → AtomicMemoryScope → S → T × S
  unfolding atomic_load_with_scope
  atomic_load_dispatch ptr order workgroup = atomic_load_with_scope scope_workgroup ptr order
  atomic_load_dispatch ptr order agent = atomic_load_with_scope scope_agent ptr order
  atomic_load_dispatch ptr order system = atomic_load_with_scope scope_system ptr order

  unfoldable pub atomic_store_dispatch : ℕ → T → AtomicMemoryOrder → AtomicMemoryScope → S → S
  unfolding atomic_store_with_scope
  atomic_store_dispatch ptr v order workgroup = atomic_store_with_scope scope_workgroup ptr v order
  atomic_store_dispatch ptr v order agent = atomic_store_with_scope scope_agent ptr v order
  atomic_store_dispatch ptr v order system = atomic_store_with_scope scope_system ptr v order

  unfoldable pub atomic_fetch_add_dispatch :
      ℕ → T → AtomicMemoryOrder → AtomicMemoryScope → S → T × S
  unfolding atomic_fetch_add_with_scope
  atomic_fetch_add_dispatch ptr v order workgroup =
      atomic_fetch_add_with_scope scope_workgroup ptr v order
  atomic_fetch_add_dispatch ptr v order agent = atomic_fetch_add_with_scope scope_agent ptr v order
  atomic_fetch_add_dispatch ptr v order system =
      atomic_fetch_add_with_scope scope_system ptr v order

  unfoldable pub atomic_fetch_or_dispatch :
      ℕ → T → AtomicMemoryOrder → AtomicMemoryScope → S → T × S
  unfolding atomic_fetch_or_with_scope
  atomic_fetch_or_dispatch ptr v order workgroup =
      atomic_fetch_or_with_scope scope_workgroup ptr v order
  atomic_fetch_or_dispatch ptr v order agent = atomic_fetch_or_with_scope scope_agent ptr v order
  atomic_fetch_or_dispatch ptr v order system = atomic_fetch_or_with_scope scope_system ptr v order

  unfoldable pub atomic_fetch_and_dispatch :
      ℕ → T → AtomicMemoryOrder → AtomicMemoryScope → S → T × S
  unfolding atomic_fetch_and_with_scope
  atomic_fetch_and_dispatch ptr v order workgroup =
      atomic_fetch_and_with_scope scope_workgroup ptr v order
  atomic_fetch_and_dispatch ptr v order agent = atomic_fetch_and_with_scope scope_agent ptr v order
  atomic_fetch_and_dispatch ptr v order system =
      atomic_fetch_and_with_scope scope_system ptr v order

  unfoldable pub atomic_fetch_xor_dispatch :
      ℕ → T → AtomicMemoryOrder → AtomicMemoryScope → S → T × S
  unfolding atomic_fetch_xor_with_scope
  atomic_fetch_xor_dispatch ptr v order workgroup =
      atomic_fetch_xor_with_scope scope_workgroup ptr v order
  atomic_fetch_xor_dispatch ptr v order agent = atomic_fetch_xor_with_scope scope_agent ptr v order
  atomic_fetch_xor_dispatch ptr v order system =
      atomic_fetch_xor_with_scope scope_system ptr v order

  unfoldable pub atomic_exchange_dispatch :
      ℕ → T → AtomicMemoryOrder → AtomicMemoryScope → S → T × S
  unfolding atomic_exchange_with_scope
  atomic_exchange_dispatch ptr v order workgroup =
      atomic_exchange_with_scope scope_workgroup ptr v order
  atomic_exchange_dispatch ptr v order agent = atomic_exchange_with_scope scope_agent ptr v order
  atomic_exchange_dispatch ptr v order system = atomic_exchange_with_scope scope_system ptr v order

  unfoldable pub atomic_compare_exchange_strong_dispatch :
      ℕ → T → T → AtomicMemoryOrder → AtomicMemoryOrder → AtomicMemoryScope → S → Bool × T × S
  unfolding atomic_compare_exchange_strong_with_scope
  atomic_compare_exchange_strong_dispatch ptr expected desired success failure workgroup =
      atomic_compare_exchange_strong_with_scope scope_workgroup ptr expected desired success failure
  atomic_compare_exchange_strong_dispatch ptr expected desired success failure agent =
      atomic_compare_exchange_strong_with_scope scope_agent ptr expected desired success failure
  atomic_compare_exchange_strong_dispatch ptr expected desired success failure system =
      atomic_compare_exchange_strong_with_scope scope_system ptr expected desired success failure

  unfoldable pub atomic_fence_dispatch : AtomicMemoryOrder → AtomicMemoryScope → S → S
  unfolding atomic_fence_workgroup atomic_fence_agent atomic_fence_system
  atomic_fence_dispatch order workgroup = atomic_fence_workgroup order
  atomic_fence_dispatch order agent = atomic_fence_agent order
  atomic_fence_dispatch order system = atomic_fence_system order
