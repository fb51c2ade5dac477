-- ===== src/Common/Dispatch/Orders.antt =====
-- The builtin that a dispatched operation issues has an order which is legal for it and is as
-- strong as the order asked for, and the scope asked for.
use hip_moi.Prelude.{ℕ, ◌≡◌, refl, ◌≢◌, ◌⊎◌, inl, inr, Bool, true, false, arith}
use hip_moi.Common.Kinds.{
  AtomicMemoryOrder, relaxed, acquire, release, seq_cst, AtomicMemoryScope, workgroup, agent,
  system, atomic_order_has_acquire, atomic_order_has_release,
}
use hip_moi.Common.Dispatch.{
  BuiltinOrder, atomic_relaxed, atomic_acquire, atomic_release, atomic_acq_rel, atomic_seq_cst,
  BuiltinScope, scope_workgroup, scope_agent, scope_system, Builtins, atomic_load_dispatch,
  atomic_store_dispatch, atomic_fetch_add_dispatch, atomic_fetch_or_dispatch,
  atomic_fetch_and_dispatch, atomic_fetch_xor_dispatch, atomic_exchange_dispatch,
  atomic_compare_exchange_strong_dispatch, atomic_fence_dispatch, atomic_order_value,
  atomic_compare_exchange_failure_order_value,
}

abbrev pub acquires : BuiltinOrder → Bool
acquires atomic_relaxed = false
acquires atomic_release = false
acquires _ = true

abbrev pub releases : BuiltinOrder → Bool
releases atomic_relaxed = false
releases atomic_acquire = false
releases _ = true

abbrev pub scope_value : AtomicMemoryScope → BuiltinScope
scope_value workgroup = scope_workgroup
scope_value agent = scope_agent
scope_value system = scope_system

-- An order that a load, or the failure of a compare-exchange, may have.
abbrev pub IsLoadOrder : BuiltinOrder → Type 0
IsLoadOrder o = (o ≢ atomic_release) × (o ≢ atomic_acq_rel)

abbrev pub IsStoreOrder : BuiltinOrder → Type 0
IsStoreOrder o = (o ≢ atomic_acquire) × (o ≢ atomic_acq_rel)

abbrev pub in_total_order : BuiltinOrder → Bool
in_total_order atomic_seq_cst = true
in_total_order _ = false

abbrev pub asks_total_order : AtomicMemoryOrder → Bool
asks_total_order seq_cst = true
asks_total_order _ = false

-- The order acquires, releases, and is sequentially consistent, each exactly if that was asked for.
abbrev pub SameOrder : AtomicMemoryOrder → BuiltinOrder → Type 0
SameOrder order o =
    (acquires o ≡ atomic_order_has_acquire order)
    × (releases o ≡ atomic_order_has_release order)
    × (in_total_order o ≡ asks_total_order order)

module _ {S T : Type 0} (b : Builtins S T) where
  -- A dispatched load issues one builtin load of the same address at the scope asked for, with an
  -- order that is legal for a load, and that acquires if the order asked for does.
  load_dispatch_order :
      (ptr : ℕ) (order : AtomicMemoryOrder) (scope : AtomicMemoryScope)
      → (o : BuiltinOrder) × (atomic_load_dispatch b ptr order scope
          ≡ b.hip_atomic_load ptr o (scope_value scope))
        × IsLoadOrder o
        × (atomic_order_has_acquire order ≡ true → acquires o ≡ true)
  unfolding atomic_load_dispatch atomic_order_has_acquire
  load_dispatch_order ptr relaxed scope = (atomic_relaxed, ground arith, ground arith, ground arith)
  load_dispatch_order ptr acquire scope = (atomic_acquire, ground arith, ground arith, ground arith)
  load_dispatch_order ptr _ scope = (atomic_seq_cst, ground arith, ground arith, ground arith)

  -- A dispatched store issues one builtin store of the same value at the scope asked for, with an
  -- order that is legal for a store, and that releases if the order asked for does.
  store_dispatch_order :
      (ptr : ℕ) (v : T) (order : AtomicMemoryOrder) (scope : AtomicMemoryScope)
      → (o : BuiltinOrder) × (atomic_store_dispatch b ptr v order scope
          ≡ b.hip_atomic_store ptr v o (scope_value scope))
        × IsStoreOrder o
        × (atomic_order_has_release order ≡ true → releases o ≡ true)
  unfolding atomic_store_dispatch atomic_order_has_release
  store_dispatch_order ptr v relaxed scope =
      (atomic_relaxed, ground arith, ground arith, ground arith)
  store_dispatch_order ptr v release scope =
      (atomic_release, ground arith, ground arith, ground arith)
  store_dispatch_order ptr v _ scope = (atomic_seq_cst, ground arith, ground arith, ground arith)

  -- Each dispatched read-modify-write issues its own builtin on the same operands at the scope
  -- asked for, all with one order, which acquires, releases, and is sequentially consistent, each
  -- exactly if the order asked for does.
  pub rmw_dispatch_order :
      (ptr : ℕ) (v : T) (order : AtomicMemoryOrder) (scope : AtomicMemoryScope)
      → (o : BuiltinOrder) × SameOrder order o
        × (atomic_fetch_add_dispatch b ptr v order scope
            ≡ b.hip_atomic_fetch_add ptr v o (scope_value scope))
        × (atomic_fetch_or_dispatch b ptr v order scope
            ≡ b.hip_atomic_fetch_or ptr v o (scope_value scope))
        × (atomic_fetch_and_dispatch b ptr v order scope
            ≡ b.hip_atomic_fetch_and ptr v o (scope_value scope))
        × (atomic_fetch_xor_dispatch b ptr v order scope
            ≡ b.hip_atomic_fetch_xor ptr v o (scope_value scope))
        × (atomic_exchange_dispatch b ptr v order scope
            ≡ b.hip_atomic_exchange ptr v o (scope_value scope))
  unfolding atomic_fetch_add_dispatch atomic_fetch_or_dispatch atomic_fetch_and_dispatch
      atomic_fetch_xor_dispatch atomic_exchange_dispatch atomic_order_has_acquire
      atomic_order_has_release
  rmw_dispatch_order ptr v order scope = (
    atomic_order_value order,
    (ground arith, ground arith, ground arith),
    ground arith,
    ground arith,
    ground arith,
    ground arith,
    ground arith,
  )

  -- A dispatched compare-exchange issues one builtin at the scope asked for; its success order
  -- acquires, releases, and is sequentially consistent, each exactly if the one asked for does; its
  -- failure order is legal for a load, and acquires and is sequentially consistent, each exactly if
  -- the failure order asked for does.
  pub compare_exchange_dispatch_order :
      (ptr : ℕ) (expected desired : T) (success failure : AtomicMemoryOrder)
      (scope : AtomicMemoryScope)
      → (o f : BuiltinOrder) × (atomic_compare_exchange_strong_dispatch b ptr expected desired
            success failure scope
          ≡ b.hip_atomic_compare_exchange_strong ptr expected desired o f (scope_value scope))
        × SameOrder success o
        × IsLoadOrder f
        × (acquires f ≡ atomic_order_has_acquire failure)
        × (in_total_order f ≡ asks_total_order failure)
  unfolding atomic_compare_exchange_strong_dispatch atomic_order_has_acquire
      atomic_order_has_release atomic_order_value atomic_compare_exchange_failure_order_value
  compare_exchange_dispatch_order ptr expected desired success failure scope = (
    atomic_order_value success,
    atomic_compare_exchange_failure_order_value failure,
    ground arith,
    (ground arith, ground arith, ground arith),
    (ground arith, ground arith),
    ground arith,
    ground arith,
  )

  -- A dispatched fence of order `relaxed` does nothing; any other issues, at the two inner scopes,
  -- one builtin fence at the scope asked for which acquires, releases, and is sequentially
  -- consistent, each exactly if the order asked for does, and at system scope the full fence.
  pub fence_dispatch_order :
      (order : AtomicMemoryOrder) (scope : AtomicMemoryScope) (s : S)
      → ((order ≡ relaxed) × (atomic_fence_dispatch b order scope s ≡ s))
        ⊎ ((order ≢ relaxed)
            × (scope ≢ system)
            × ((o : BuiltinOrder) × (atomic_fence_dispatch b order scope s
                  ≡ b.amdgcn_fence o (scope_value scope) s)
                × SameOrder order o))
        ⊎ ((order ≢ relaxed)
            × (scope ≡ system)
            × (atomic_fence_dispatch b order scope s ≡ b.threadfence_system s))
  unfolding atomic_fence_dispatch atomic_order_has_acquire atomic_order_has_release
      atomic_order_value
  fence_dispatch_order relaxed scope s = inl (refl, ground arith)
  fence_dispatch_order order workgroup s = inr (
      inl (
        ground arith,
        ground arith,
        (atomic_order_value order, ground arith, (ground arith, ground arith, ground arith)),
      ))
  fence_dispatch_order order agent s = inr (
      inl (
        ground arith,
        ground arith,
        (atomic_order_value order, ground arith, (ground arith, ground arith, ground arith)),
      ))
  fence_dispatch_order order system s = inr (inr (ground arith, refl, ground arith))
