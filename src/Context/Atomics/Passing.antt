-- ===== src/Context/Atomics/Passing.antt =====
-- A message between two subgroups through the public atomics of include/hip_moi/context.hpp: one
-- stores to a flag, the other loads from it.
use hip_moi.Prelude.{
  ℕ, ◌+◌, ◌≤◌, ◌<◌, ◌≡◌, ◌≢◌, max, refl, ap, ◌∙◌, true, false, pos, inl, inr, Bool-cases, ◌^◌,
}
use hip_moi.Common.Kinds.{
  SiteId, AtomicMemoryOrder, AtomicMemoryScope, atomic_order_has_acquire, atomic_order_has_release,
}
use hip_moi.Common.Dispatch.{Builtins}
use hip_moi.Context.Storage.{Storage, Context}
use hip_moi.Context.Subgroups.{subgroup_id, subgroup_epoch}
use hip_moi.Context.Releases.{record_atomic_release, record_atomic_release_at_epoch_impl}
use hip_moi.Context.Releases.Lookup.{HasObjects, HasRoom, released_epoch, or_zero}
use hip_moi.Context.Acquires.{
  try_record_atomic_acquire, record_atomic_acquire, current_access_acquired_prior_epoch,
}
use hip_moi.Context.Acquires.Tokens.{HasTokens}
use hip_moi.Context.Atomics.{atomic_load, atomic_store, after_load, before_store}
use hip_moi.Context.Atomics.HappensBefore.{on, release_acquire_ordered}
use hip_moi.Context.Releases.{remember_observed_atomic}

-- One attempt.
once :
    (c : Context) (address : ℕ)
    → record_atomic_acquire c address 1 ≡ (try_record_atomic_acquire c address).1
unfolding record_atomic_acquire
once c address = elim (Bool-cases (try_record_atomic_acquire c address).0) [
  | inl done ↦ rw done refl
  | inr failed ↦ rw failed refl
]

module _ {S T : Type 0} (b : Builtins S T) (size : ℕ) (c1 c2 : Context) (ptr : ℕ) (value : T)
    (store_order load_order : AtomicMemoryOrder) (store_scope load_scope : AtomicMemoryScope)
    (store_site load_site : SiteId) (memory memory' : S) where
  -- The context of the thread that stores, after its store.
  abbrev pub stored : Context
  stored = (atomic_store b size c1 ptr value store_order store_scope store_site memory).1

  -- The context of the thread that loads, after its load from the storage that the store left.
  abbrev pub loaded : Context
  loaded =
      (atomic_load b size (on c2 (stored.storage)) ptr load_order load_scope load_site memory').2

  stored_as :
      atomic_order_has_release store_order ≡ true
      → stored
        ≡ record_atomic_release_at_epoch_impl false c1 ptr size (subgroup_epoch c1) store_site
  unfolding atomic_store before_store record_atomic_release
  stored_as releases = rw releases refl

  loaded_as :
      atomic_order_has_acquire load_order ≡ true
      → loaded.storage ≡ (try_record_atomic_acquire (on c2 (stored.storage)) ptr).1.storage
  unfolding atomic_load after_load remember_observed_atomic
  loaded_as acquires =
      rw acquires (ap (λ (x : Context). x.storage) (once (on c2 (stored.storage)) ptr))

  -- When one subgroup stores to a flag with an order that releases, in a table with room for the
  -- record, and a thread of another one then loads from the flag with an order that acquires,
  -- accesses that the first made up to its epoch count as ordered before the second's, by the test
  -- that suppresses conflicts (while epochs stay below 2 ^ 32 - 1).
  pub store_load_ordered :
      (objects_capacity capacity prior : ℕ)
      → atomic_order_has_release store_order ≡ true
      → atomic_order_has_acquire load_order ≡ true
      → (objects : HasObjects c1.storage objects_capacity)
      → HasRoom c1.storage objects_capacity ptr (subgroup_id c1)
      → c1.storage.subgroup_capacity ≡ pos capacity
      → HasTokens c1.storage capacity
      → subgroup_id c1 < capacity
      → subgroup_id (on c2 (stored.storage)) < capacity
      → subgroup_id c1 ≢ subgroup_id (on c2 (stored.storage))
      → prior ≤ subgroup_epoch c1
      → max (or_zero (released_epoch c1.storage ptr (subgroup_id c1))) (subgroup_epoch c1) + 1
        < 2 ^ 32
      → current_access_acquired_prior_epoch loaded.storage
          (subgroup_id c1)
          prior
          (subgroup_id (on c2 (stored.storage)))
        ≡ true
  unfolding subgroup_id
  store_load_ordered objects_capacity capacity prior releases acquires objects room sized tokens h1
        h2 apart early small =
      let released = stored_as releases in
      let ordered =
        release_acquire_ordered false c1 c2 ptr size (subgroup_epoch c1) objects_capacity capacity
          store_site objects room sized tokens prior h1 h2 apart early small in
      ap
        (λ (s : Storage).
          current_access_acquired_prior_epoch s (subgroup_id c1) prior
            (subgroup_id (on c2 (stored.storage))))
        (loaded_as acquires
          ∙ ap (λ (x : Context). (try_record_atomic_acquire (on c2 (x.storage)) ptr).1.storage)
              released)
      ∙ ordered
