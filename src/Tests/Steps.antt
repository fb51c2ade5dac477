-- ===== src/Tests/Steps.antt =====
-- Examples for messages between subgroups and for sequences of steps.
use hip_moi.Prelude.{◌+◌, ◌^◌, ◌≡◌, ◌≢◌, ◌<◌, refl, none, true, max, arith, get_or}
use hip_moi.Common.Kinds.{
  acquire, release, agent, atomic_order_has_acquire, atomic_order_has_release,
}
use hip_moi.Common.Hash.{mix32}
use hip_moi.Context.Storage.{Context, Storage}
use hip_moi.Context.Subgroups.{
  subgroup_id, subgroup_epoch, thread_id, configured_subgroup_count, current_epoch, epoch_at,
}
use hip_moi.Context.Objects.{
  find_atomic_object_record, find_from, probe_start, probe_index, atomic_record_seed,
}
use hip_moi.Context.Releases.{record_atomic_release_at_epoch_impl}
use hip_moi.Context.Releases.Lookup.{released_epoch, or_zero}
use hip_moi.Context.Acquires.{current_access_acquired_prior_epoch}
use hip_moi.Context.Atomics.Passing.{stored, loaded, store_load_ordered}
use hip_moi.Context.Kernel
use hip_moi.Context.Kernel.{Steps, here, next}
use hip_moi.Context.Kernel.Records.{HasRecords, Steps-HasRecords}
use hip_moi.Tests.State.{launched, site_at}
use hip_moi.Tests.Releases.{
  two_objects, old_records, first_free, four_tokens, first_inside, thread0, thread1,
}
use hip_moi.Tests.Shadow.{one_word}

abbrev after_load : Context
after_load =
    loaded one_word 4 thread0 thread1 64 7 release acquire agent agent (site_at 31) (site_at 32) 0 0

abbrev after_store : Context
after_store =
    stored one_word 4 thread0 thread1 64 7 release acquire agent agent (site_at 31) (site_at 32) 0 0

reader_inside : subgroup_id (Kernel.on thread1 (after_store.storage)) < 2
unfolding subgroup_id thread_id configured_subgroup_count
reader_inside = omega arith

two_subgroups : subgroup_id thread0 ≢ subgroup_id (Kernel.on thread1 (after_store.storage))
unfolding subgroup_id thread_id configured_subgroup_count
two_subgroups = λ e. absurd (omega arith)

nothing_before : released_epoch launched 64 (subgroup_id thread0) ≡ none
unfolding released_epoch find_atomic_object_record find_from get_or subgroup_id thread_id
    configured_subgroup_count probe_start probe_index mix32 atomic_record_seed
nothing_before = refl

fifth_epoch : subgroup_epoch thread0 ≡ 5
unfolding subgroup_id thread_id configured_subgroup_count current_epoch epoch_at get_or
fifth_epoch = refl

small_epochs :
    max (or_zero (released_epoch launched 64 (subgroup_id thread0))) (subgroup_epoch thread0) + 1
    < 2 ^ 32
small_epochs = rw (nothing_before, fifth_epoch) (omega arith)

store_load_ordered_example :
    current_access_acquired_prior_epoch after_load.storage
      (subgroup_id thread0)
      4
      (subgroup_id (Kernel.on thread1 (after_store.storage)))
    ≡ true
unfolding atomic_order_has_release atomic_order_has_acquire
store_load_ordered_example =
    store_load_ordered one_word 4 thread0 thread1 64 7 release acquire agent agent (site_at 31)
      (site_at 32) 0 0 2 2 4 refl refl two_objects (first_free 64 (subgroup_id thread0)) refl
      four_tokens first_inside reader_inside two_subgroups (omega (arith, fifth_epoch)) small_epochs

at_start : HasRecords launched 2 1
at_start = record { table = two_objects; running = refl; past = old_records }

abbrev after_release : Storage
after_release =
    (record_atomic_release_at_epoch_impl true (Kernel.on thread0 launched) 64 4 5
      (site_at 31)).storage

Steps-HasRecords_example : HasRecords after_release 2 1
Steps-HasRecords_example =
    Steps-HasRecords 2 1 (next here (Kernel.release launched thread0 true 64 4 5 (site_at 31)))
      at_start
