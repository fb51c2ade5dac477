-- ===== src/Context/Objects.antt =====
-- The table of release records of include/hip_moi/context.hpp: open addressing, keyed by the
-- atomic object's address and the releasing subgroup. Between the volatile read of a slot and the
-- compare-and-swap on it nothing else runs; a slot that another thread has claimed and not yet
-- published is a slot whose generation is `claimed_generation`.
pub mod Probing
pub mod Claim
pub mod Lookup
pub mod Epochs
use hip_moi.Prelude.{
  ℕ, zero, suc, ◌+◌, ◌-◌, ◌*◌, ◌^◌, max, Bool, true, false, ◌&&◌, not, ltb, leb, ◌==◌,
  if◌then◌else◌, Option, none, some, List, [], ℤ, is_pos, u32_of_int, get_or, set, u32, sub32,
  ◌>>>◌, bit_xor, bit_and,
}
use hip_moi.Common.Kinds.{SiteId}
use hip_moi.Common.Hash.{mix32}
use hip_moi.Context.Storage.{AtomicObjectRecord, no_record, Storage, Context}
use hip_moi.Context.Subgroups.{is_some, subgroup_id}
use hip_moi.Context.Diagnostics.{emit_atomic_metadata_full}

abbrev pub claimed_generation : ℕ
claimed_generation = 2 ^ 64 - 1

unfoldable pub atomic_record_seed : ℕ → ℕ → ℕ
atomic_record_seed address producer =
    bit_xor (bit_xor (u32 (address >>> 2)) (u32 (address >>> 34))) (u32 (producer * 0x9e3779b9))

-- Where the probes for a key begin.
unfoldable pub probe_start : ℕ → ℕ → ℕ → ℕ
unfolding atomic_record_seed
probe_start capacity address producer =
    bit_and (mix32 (atomic_record_seed address producer)) (sub32 capacity 1)

unfoldable pub probe_index : ℕ → ℕ → ℕ → ℕ
probe_index capacity start probe =
    let index = u32 (start + probe) in if leb capacity index then sub32 index capacity else index

abbrev pub is_for : AtomicObjectRecord → ℕ → ℕ → Bool
is_for r address producer = (r.address == address) && (r.releasing_subgroup_id == producer)

-- Is the table there at all?
abbrev pub has_objects : Storage → Bool
has_objects s = is_some s.atomic_objects && is_pos s.atomic_object_capacity

-- What one pass over the table came to: the record's index and the table, or whether a slot
-- claimed by another thread was met.
pub data Scan : Type 0 where
  found : ℕ → List AtomicObjectRecord → Scan
  exhausted : Bool → Scan

-- `atomicCAS(&record->generation, expected, claimed)` and, when it succeeds, the four writes.
unfoldable pub claim_slot :
    List AtomicObjectRecord → ℕ → ℕ → ℕ → ℕ → Option (List AtomicObjectRecord)
claim_slot objects index expected address producer =
    if (get_or objects index no_record).generation == expected
    then some (
        set objects index (record {
          generation = claimed_generation;
          address = address;
          releasing_subgroup_id = producer;
          releasing_epoch = 0;
          release_site_id = 0;
        }))
    else none

abbrev pub slot : ℕ → ℕ → ℕ → List AtomicObjectRecord → AtomicObjectRecord
slot capacity start probe objects = get_or objects (probe_index capacity start probe) no_record

module _ (generation capacity start address producer : ℕ) where
  -- The inner loop of `find_or_claim_atomic_object_record`, with `left` probes to go.
  unfoldable pub claim_from : ℕ → ℕ → Bool → List AtomicObjectRecord → Scan
  unfolding claim_slot
  claim_from zero probe saw_claimed_slot objects = exhausted saw_claimed_slot
  claim_from (suc left) probe saw_claimed_slot objects =
      let index = probe_index capacity start probe in
      let r = slot capacity start probe objects in
      let pass = claim_from left (probe + 1) saw_claimed_slot objects in
      let claimed = claim_from left (probe + 1) true objects in
      let taken : Scan = elim (claim_slot objects index r.generation address producer) [
        | some objects' ↦ found index objects'
        | none ↦ claimed
      ] in
      if r.generation == generation
      then if is_for r address producer then found index objects else pass
      else if r.generation == claimed_generation
      then claimed
      else taken

  -- The outer loop, with `left` attempts to go.
  unfoldable pub claim_attempts : ℕ → List AtomicObjectRecord → Scan
  claim_attempts zero objects = exhausted true
  claim_attempts (suc left) objects =
      let again = claim_attempts left objects in
      elim (claim_from capacity 0 false objects) [
        | found index objects' ↦ found index objects'
        | exhausted saw ↦ if saw then again else exhausted false
      ]

  -- The loop of `find_atomic_object_record`, with `left` probes to go.
  unfoldable pub find_from : ℕ → ℕ → List AtomicObjectRecord → Option ℕ
  find_from zero probe objects = none
  find_from (suc left) probe objects =
      let r = slot capacity start probe objects in
      let rest = find_from left (probe + 1) objects in
      if r.generation == claimed_generation
      then rest
      else if not (r.generation == generation)
      then none
      else if is_for r address producer
      then some (probe_index capacity start probe)
      else rest

-- The writes of `record_atomic_release_at_epoch_impl` to the record at `index`; the last one, of
-- the generation, publishes it.
unfoldable pub publish : ℕ → ℕ → ℕ → ℕ → ℕ → ℕ → List AtomicObjectRecord → List AtomicObjectRecord
publish generation index address producer epoch site objects = set objects index (record {
  generation = generation;
  address = address;
  releasing_subgroup_id = producer;
  releasing_epoch = max (get_or objects index no_record).releasing_epoch epoch;
  release_site_id = site;
})

abbrev pub objects_of : Option (List AtomicObjectRecord) → List AtomicObjectRecord
objects_of none = []
objects_of (some objects) = objects

-- The index of a key's record, for the pointer that the code returns.
unfoldable pub find_atomic_object_record : Storage → ℕ → ℕ → Option ℕ
find_atomic_object_record s address producer =
    let capacity = u32_of_int s.atomic_object_capacity in
    if has_objects s
    then find_from s.generation capacity (probe_start capacity address producer) address producer
        capacity 0 (objects_of s.atomic_objects)
    else none

unfoldable pub scan_result : Context → ℕ → ℕ → SiteId → Scan → Option ℕ × Context
scan_result c address byte_count site (found index objects) =
    (some index, record c { storage = record (c.storage) { atomic_objects = some objects } })
scan_result c address byte_count site (exhausted saw) =
    (none, emit_atomic_metadata_full c address byte_count site)

unfoldable pub find_or_claim_atomic_object_record :
    Context → ℕ → ℕ → ℕ → SiteId → Option ℕ × Context
unfolding scan_result
find_or_claim_atomic_object_record c address byte_count producer site =
    let s = c.storage in
    let capacity = u32_of_int s.atomic_object_capacity in
    if has_objects s
    then scan_result c address byte_count site (
        claim_attempts s.generation capacity (probe_start capacity address producer) address
          producer 4 (objects_of s.atomic_objects))
    else (none, emit_atomic_metadata_full c address byte_count site)
