-- ===== src/Tests/Releases.antt =====
-- Examples for releases and acquires, on a small workgroup.
use hip_moi.Prelude.{
  ℕ, zero, suc, ◌+◌, ◌^◌, ◌≡◌, refl, ◌≢◌, inl, ◌↔◌, ◌<◌, ◌≤◌, max, true, none, some, List, arith,
  get_or,
}
use hip_moi.Context.Storage.{AtomicObjectRecord, no_record, Context}
use hip_moi.Context.Subgroups.{subgroup_id, thread_id, configured_subgroup_count}
use hip_moi.Context.Objects.{
  probe_start, probe_index, claim_attempts, found, claimed_generation, find_atomic_object_record,
  find_from, atomic_record_seed,
}
use hip_moi.Common.Hash.{mix32}
use hip_moi.Context.Objects.Probing.{IsCapacity, probe_start-lt, probe_index-permutes}
use hip_moi.Context.Objects.Lookup.{stale-IsTable}
use hip_moi.Context.Objects.Epochs.{Serves, claim_attempts-found}
use hip_moi.Context.Releases.{record_atomic_release_at_epoch_impl}
use hip_moi.Context.Releases.Lookup.{
  HasObjects, HasRoom, released_epoch, or_zero, release-released_epoch,
  release-released_epoch_other,
}
use hip_moi.Context.Acquires.{try_record_atomic_acquire, current_access_acquired_prior_epoch}
use hip_moi.Context.Acquires.Tokens.{token, HasTokens, imported_token}
use hip_moi.Context.Atomics.HappensBefore.{acquire-token, release_acquire_ordered}
use hip_moi.Tests.State.{stale_objects, tokens, launched, context_at, site_at}

pub two_slots : IsCapacity 2
two_slots = (omega arith, omega arith)

pub this_launch : 1 ≢ claimed_generation
this_launch = λ e. absurd (omega arith)

all_stale : (j : ℕ) → j < 2 → (get_or stale_objects j no_record).generation ≢ 1
unfolding get_or
all_stale zero h e = absurd (omega arith)
all_stale (suc zero) h e = absurd (omega arith)
all_stale (suc (suc j)) h e = absurd (omega arith)

pub two_objects : HasObjects launched 2
two_objects = record {
  objects = stale_objects;
  there = refl;
  sized = refl;
  room = two_slots;
  launched = this_launch;
  table =
      stale-IsTable 1 2 this_launch two_slots (probe_start 2)
        (λ a p. probe_start-lt 2 a p two_slots) stale_objects refl all_stale;
}

pub old_records : (j : ℕ) → (get_or two_objects.objects j no_record).generation ≤ 1
unfolding two_objects get_or
old_records zero = omega arith
old_records (suc zero) = omega arith
old_records (suc (suc j)) = omega arith

abbrev pub thread0 : Context
thread0 = context_at 0 launched

abbrev pub thread1 : Context
thread1 = context_at 1 launched

stale_slot : (j : ℕ) → (get_or stale_objects j no_record).generation ≢ 1
unfolding get_or
stale_slot zero e = absurd (omega arith)
stale_slot (suc zero) e = absurd (omega arith)
stale_slot (suc (suc j)) e = absurd (omega arith)

free_slot : (j : ℕ) → (get_or stale_objects j no_record).generation ≢ claimed_generation
unfolding get_or
free_slot zero e = absurd (omega arith)
free_slot (suc zero) e = absurd (omega arith)
free_slot (suc (suc j)) e = absurd (omega arith)

free_record : (address p j : ℕ) → Serves 1 address p (get_or stale_objects j no_record)
free_record address p j = inl (stale_slot j, free_slot j)

pub first_free : (address p : ℕ) → HasRoom launched 2 address p
first_free address p =
    (0, omega arith, free_record address p (probe_index 2 (probe_start 2 address p) 0))

abbrev released : Context
released = record_atomic_release_at_epoch_impl true thread0 64 4 5 (site_at 31)

release-released_epoch_example :
    released_epoch released.storage 64 (subgroup_id thread0)
    ≡ some (max (or_zero (released_epoch launched 64 (subgroup_id thread0))) 5)
release-released_epoch_example =
    release-released_epoch true thread0 64 4 5 2 (site_at 31) two_objects
      (first_free 64 (subgroup_id thread0))

release-released_epoch_other_example :
    released_epoch released.storage 72 0 ≡ released_epoch launched 72 0
release-released_epoch_other_example =
    release-released_epoch_other true thread0 64 4 5 2 (site_at 31) two_objects
      (first_free 64 (subgroup_id thread0)) 72 0 (λ e. absurd (omega (arith, e.0)))

claim_attempts-found_example :
    (i : ℕ) × (objects' : List AtomicObjectRecord) × (claim_attempts 1 2
        (probe_start 2 64 0)
        64
        0
        (suc 3)
        stale_objects
      ≡ found i objects')
claim_attempts-found_example =
    claim_attempts-found 1 2 (probe_start 2 64 0) 64 0 this_launch two_slots
      (probe_start-lt 2 64 0 two_slots) 3 0 stale_objects (omega arith)
      (free_record 64 0 (probe_index 2 (probe_start 2 64 0) 0))

probe_index-permutes_example :
    (probe_index 7 3 5 < 7)
    × (p : ℕ) × (p < 7)
    × (probe_index 7 3 p ≡ 1)
    × ((probe_index 7 3 5 ≡ 1) ↔ (5 ≡ p))
probe_index-permutes_example =
    probe_index-permutes 7 3 1 5 (omega arith, omega arith) (omega arith) (omega arith)
      (omega arith)

pub four_tokens : HasTokens launched 2
four_tokens = record { tokens = tokens; there = refl; sized = refl; small = omega arith }

pub first_inside : subgroup_id thread0 < 2
unfolding subgroup_id thread_id configured_subgroup_count
first_inside = omega arith

second_inside : subgroup_id thread1 < 2
unfolding subgroup_id thread_id configured_subgroup_count
second_inside = omega arith

other_subgroup : 0 ≢ subgroup_id thread1
unfolding subgroup_id thread_id configured_subgroup_count
other_subgroup = λ e. absurd (omega arith)

acquire-token_example :
    token (try_record_atomic_acquire thread1 64).1.storage 2 (subgroup_id thread1) 0
    ≡ imported_token (token launched 2 (subgroup_id thread1) 0) (released_epoch launched 64 0)
acquire-token_example =
    acquire-token thread1 64 2 refl four_tokens second_inside 0 (omega arith) other_subgroup

abbrev reader : Context
reader = context_at 1 released.storage

reader_inside : subgroup_id reader < 2
unfolding subgroup_id thread_id configured_subgroup_count
reader_inside = omega arith

two_subgroups : subgroup_id thread0 ≢ subgroup_id reader
unfolding subgroup_id thread_id configured_subgroup_count
two_subgroups = λ e. absurd (omega arith)

nothing_before : released_epoch launched 64 (subgroup_id thread0) ≡ none
unfolding released_epoch find_atomic_object_record find_from get_or subgroup_id thread_id
    configured_subgroup_count probe_start probe_index mix32 atomic_record_seed
nothing_before = refl

small_epochs : max (or_zero (released_epoch launched 64 (subgroup_id thread0))) 5 + 1 < 2 ^ 32
small_epochs = rw nothing_before (omega arith)

release_acquire_ordered_example :
    current_access_acquired_prior_epoch
      (try_record_atomic_acquire reader 64).1.storage
      (subgroup_id thread0)
      4
      (subgroup_id reader)
    ≡ true
release_acquire_ordered_example =
    release_acquire_ordered true thread0 thread1 64 4 5 2 2 (site_at 31) two_objects
      (first_free 64 (subgroup_id thread0)) refl four_tokens 4 first_inside reader_inside
      two_subgroups (omega arith) small_epochs
