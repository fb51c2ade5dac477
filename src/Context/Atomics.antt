-- ===== src/Context/Atomics.antt =====
-- The public atomic operations of include/hip_moi/context.hpp. Each issues the builtin that its
-- dispatch selects on the device's state `S`, and keeps the ordering metadata in the context.
pub mod HappensBefore
pub mod Passing
use hip_moi.Prelude.{ℕ, ◌+◌, Bool, true, false, ◌&&◌, if◌then◌else◌, u32}
use hip_moi.Common.Kinds.{
  SiteId, AtomicMemoryOrder, acquire, release, AtomicMemoryScope, atomic_order_has_acquire,
  atomic_order_has_release,
}
use hip_moi.Common.Dispatch.{
  Builtins, atomic_load_dispatch, atomic_store_dispatch, atomic_fetch_add_dispatch,
  atomic_fetch_or_dispatch, atomic_fetch_and_dispatch, atomic_fetch_xor_dispatch,
  atomic_exchange_dispatch, atomic_compare_exchange_strong_dispatch, atomic_fence_dispatch,
}
use hip_moi.Context.Storage.{Context}
use hip_moi.Context.Subgroups.{subgroup_epoch}
use hip_moi.Context.Releases.{
  record_atomic_release, record_atomic_rmw_release, consume_pending_release_fence,
  remember_observed_atomic,
}
use hip_moi.Context.Acquires.{record_atomic_acquire, rmw_acquire_retry_count}

-- What the operations below do to the context; `size` is `sizeof(T)`.
unfoldable pub after_load : Context → ℕ → AtomicMemoryOrder → Context
after_load c ptr order =
    remember_observed_atomic
      (if atomic_order_has_acquire order then record_atomic_acquire c ptr 1 else c) ptr

unfoldable pub before_store : Context → ℕ → ℕ → AtomicMemoryOrder → SiteId → Context
before_store c ptr size order site =
    if atomic_order_has_release order
    then record_atomic_release c ptr size site
    else consume_pending_release_fence c ptr size site

unfoldable pub rmw_release : Context → ℕ → ℕ → AtomicMemoryOrder → SiteId → Context
rmw_release c ptr size order site =
    if atomic_order_has_release order
    then record_atomic_rmw_release c ptr size site
    else consume_pending_release_fence c ptr size site

unfoldable pub rmw_acquire : Context → ℕ → AtomicMemoryOrder → Context
rmw_acquire c ptr order =
    if atomic_order_has_acquire order
    then record_atomic_acquire c ptr rmw_acquire_retry_count
    else c

unfoldable pub after_rmw : Context → ℕ → ℕ → AtomicMemoryOrder → SiteId → Context
unfolding rmw_release rmw_acquire
after_rmw c ptr size order site =
    remember_observed_atomic (rmw_acquire (rmw_release c ptr size order site) ptr order) ptr

unfoldable pub after_compare_exchange :
    Bool → Context → ℕ → ℕ → AtomicMemoryOrder → AtomicMemoryOrder → SiteId → Context
unfolding rmw_release rmw_acquire
after_compare_exchange exchanged c ptr size success_order failure_order site =
    remember_observed_atomic
      (if exchanged
        then rmw_acquire (rmw_release c ptr size success_order site) ptr success_order
        else rmw_acquire c ptr failure_order)
      ptr

unfoldable pub before_fence : Context → AtomicMemoryOrder → SiteId → Context
before_fence c order site =
    if atomic_order_has_release order
    then record c {
      pending_release_fence_epoch_token = u32 (subgroup_epoch c + 1);
      pending_release_fence_site_id = site.value;
    }
    else c

unfoldable pub after_fence : Context → AtomicMemoryOrder → Context
after_fence c order =
    if atomic_order_has_acquire order && c.last_observed_atomic_valid
    then record_atomic_acquire c c.last_observed_atomic_address rmw_acquire_retry_count
    else c

module _ {S T : Type 0} (b : Builtins S T) (size : ℕ) where
  unfoldable pub atomic_load :
      Context → ℕ → AtomicMemoryOrder → AtomicMemoryScope → SiteId → S → T × S × Context
  unfolding after_load
  atomic_load c ptr order scope site s =
      let (value, s') = atomic_load_dispatch b ptr order scope s in
      (value, s', after_load c ptr order)

  unfoldable pub atomic_store :
      Context → ℕ → T → AtomicMemoryOrder → AtomicMemoryScope → SiteId → S → S × Context
  unfolding before_store
  atomic_store c ptr value order scope site s =
      let c' = before_store c ptr size order site in
      (atomic_store_dispatch b ptr value order scope s, c')

  unfoldable pub atomic_fetch_add :
      Context → ℕ → T → AtomicMemoryOrder → AtomicMemoryScope → SiteId → S → T × S × Context
  unfolding after_rmw
  atomic_fetch_add c ptr value order scope site s =
      let (old, s') = atomic_fetch_add_dispatch b ptr value order scope s in
      (old, s', after_rmw c ptr size order site)

  unfoldable pub atomic_fetch_or :
      Context → ℕ → T → AtomicMemoryOrder → AtomicMemoryScope → SiteId → S → T × S × Context
  unfolding after_rmw
  atomic_fetch_or c ptr value order scope site s =
      let (old, s') = atomic_fetch_or_dispatch b ptr value order scope s in
      (old, s', after_rmw c ptr size order site)

  unfoldable pub atomic_fetch_and :
      Context → ℕ → T → AtomicMemoryOrder → AtomicMemoryScope → SiteId → S → T × S × Context
  unfolding after_rmw
  atomic_fetch_and c ptr value order scope site s =
      let (old, s') = atomic_fetch_and_dispatch b ptr value order scope s in
      (old, s', after_rmw c ptr size order site)

  unfoldable pub atomic_fetch_xor :
      Context → ℕ → T → AtomicMemoryOrder → AtomicMemoryScope → SiteId → S → T × S × Context
  unfolding after_rmw
  atomic_fetch_xor c ptr value order scope site s =
      let (old, s') = atomic_fetch_xor_dispatch b ptr value order scope s in
      (old, s', after_rmw c ptr size order site)

  unfoldable pub atomic_exchange :
      Context → ℕ → T → AtomicMemoryOrder → AtomicMemoryScope → SiteId → S → T × S × Context
  unfolding after_rmw
  atomic_exchange c ptr value order scope site s =
      let (old, s') = atomic_exchange_dispatch b ptr value order scope s in
      (old, s', after_rmw c ptr size order site)

  unfoldable pub atomic_compare_exchange_strong :
      Context
      → ℕ
      → T
      → T
      → AtomicMemoryOrder
      → AtomicMemoryOrder
      → AtomicMemoryScope
      → SiteId
      → S
      → Bool × T × S × Context
  unfolding after_compare_exchange
  atomic_compare_exchange_strong c ptr expected desired success_order failure_order scope site s =
      let (exchanged, seen, s') =
        atomic_compare_exchange_strong_dispatch b ptr expected desired success_order failure_order
          scope s in
      (
        exchanged,
        seen,
        s',
        after_compare_exchange exchanged c ptr size success_order failure_order site,
      )

  unfoldable pub atomic_fence :
      Context → AtomicMemoryOrder → AtomicMemoryScope → SiteId → S → S × Context
  unfolding before_fence after_fence
  atomic_fence c order scope site s =
      (atomic_fence_dispatch b order scope s, after_fence (before_fence c order site) order)

  -- The fences beside a barrier, which keep no metadata.
  unfoldable pub release_fence : Context → AtomicMemoryScope → SiteId → S → S × Context
  release_fence c scope site s = (atomic_fence_dispatch b release scope s, c)

  unfoldable pub acquire_fence : Context → AtomicMemoryScope → SiteId → S → S × Context
  acquire_fence c scope site s = (atomic_fence_dispatch b acquire scope s, c)
