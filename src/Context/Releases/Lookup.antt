-- ===== src/Context/Releases/Lookup.antt =====
-- The releases of include/hip_moi/context.hpp as updates of a map from an address and a subgroup to
-- the greatest epoch that the subgroup has released through the address in this launch.
use hip_moi.Prelude.{
  ℕ, ◌<◌, max, ◌≡◌, refl, sym, ap, ap₂, subst, ◌∙◌, ◌≢◌, inl, inr, Bool, true, Option, none, some,
  List, pos, is_pos, u32, arith, get_or, Option-cases,
}
use mathlib.Core.Option
use hip_moi.Common.Kinds.{SiteId}
use hip_moi.Context.Storage.{AtomicObjectRecord, no_record, Storage, Context}
use hip_moi.Context.Subgroups.{subgroup_id}
use hip_moi.Context.Objects.{
  probe_start, slot, objects_of, publish, find_from, find_atomic_object_record, claimed_generation,
  find_or_claim_atomic_object_record, claim_attempts, found, scan_result,
}
use hip_moi.Context.Objects.Probing.{IsCapacity, probe_start-lt}
use hip_moi.Context.Objects.Claim.{Claimed, claim_attempts-Claimed}
use hip_moi.Context.Objects.Lookup.{
  IsTable, search-published, published-IsTable, search_other, record_other, epoch_published,
}
use hip_moi.Context.Objects.Epochs.{Serves, epoch_found, claimed_epoch, claim_attempts-found}
use hip_moi.Context.Producers.{cache_atomic_release}
use hip_moi.Context.Releases.{publish_release, record_atomic_release_at_epoch_impl}

-- A table of release records is there, in this launch.
pub record HasObjects (s : Storage) (capacity : ℕ) : Type 0 where
  pub objects : List AtomicObjectRecord
  pub there : s.atomic_objects ≡ some objects
  pub sized : s.atomic_object_capacity ≡ pos capacity
  pub room : IsCapacity capacity
  pub launched : s.generation ≢ claimed_generation
  pub table :
      IsTable s.generation capacity launched room
        (probe_start capacity)
        (λ a p. probe_start-lt capacity a p room)
        objects

-- The epoch that the search for a key finds, if any.
unfoldable pub released_epoch : Storage → ℕ → ℕ → Option ℕ
released_epoch s address producer =
    Option.map (λ i. (get_or (objects_of s.atomic_objects) i no_record).releasing_epoch)
      (find_atomic_object_record s address producer)

abbrev pub or_zero : Option ℕ → ℕ
or_zero none = 0
or_zero (some n) = n

-- Some slot that the claim for this key probes is left from another launch, or is the key's own.
abbrev pub HasRoom : Storage → ℕ → ℕ → ℕ → Type 0
HasRoom s capacity address producer =
    (q : ℕ) × (q < capacity)
    × Serves s.generation address producer
        (slot capacity (probe_start capacity address producer) q (objects_of s.atomic_objects))

-- What a search in a given table comes to.
find_is :
    (s : Storage) (capacity a p : ℕ) (objects : List AtomicObjectRecord)
    → s.atomic_objects ≡ some objects
    → s.atomic_object_capacity ≡ pos capacity
    → IsCapacity capacity
    → find_atomic_object_record s a p
      ≡ find_from s.generation capacity (probe_start capacity a p) a p capacity 0 objects
unfolding find_atomic_object_record
find_is s capacity a p objects there sized room =
    let positive : is_pos (pos capacity) ≡ true = ground (arith, room.0) in
    let held : u32 capacity ≡ capacity = omega (arith, room.1) in
    simp (there, sized, positive, held) refl

epoch_is :
    (s : Storage) (generation capacity a p : ℕ) (objects : List AtomicObjectRecord)
    → s.generation ≡ generation
    → s.atomic_objects ≡ some objects
    → s.atomic_object_capacity ≡ pos capacity
    → IsCapacity capacity
    → released_epoch s a p
      ≡ Option.map
          (λ i. (get_or objects i no_record).releasing_epoch)
          (find_from generation capacity (probe_start capacity a p) a p capacity 0 objects)
unfolding released_epoch
epoch_is s generation capacity a p objects launch there sized room =
    ap (λ o. Option.map (λ i. (get_or (objects_of s.atomic_objects) i no_record).releasing_epoch) o)
      (find_is s capacity a p objects there sized room)
    ∙ ap₂
        (λ o g.
          Option.map (λ i. (get_or (objects_of o) i no_record).releasing_epoch)
            (find_from g capacity (probe_start capacity a p) a p capacity 0 objects))
        there launch

-- A release writes the table of records and the cache beside it, nothing else.
pub publish_frame :
    (use_address_cache : Bool) (c : Context) (address epoch i : ℕ) (site : SiteId)
    → let c' = publish_release use_address_cache c address epoch site i in
      c' ≡ record c {
        storage = record (c.storage) {
          atomic_objects =
              Option.map
                (publish c.storage.generation i address (subgroup_id c) epoch site.value)
                c.storage.atomic_objects;
          atomic_address_cache = c'.storage.atomic_address_cache;
        };
      }
unfolding publish_release cache_atomic_release
publish_frame use_address_cache c address epoch i site = ground arith

module _ (use_address_cache : Bool) (c : Context) (address byte_count epoch capacity : ℕ)
    (site : SiteId) (h : HasObjects c.storage capacity)
    (free : HasRoom c.storage capacity address (subgroup_id c)) where
  abbrev pub after_release : Context
  after_release =
      record_atomic_release_at_epoch_impl use_address_cache c address byte_count epoch site

  abbrev producer : ℕ
  producer = subgroup_id c

  abbrev home : ℕ → ℕ → ℕ
  home = probe_start capacity

  with_objects : List AtomicObjectRecord → Context
  with_objects objects = record c { storage = record (c.storage) { atomic_objects = some objects } }

  claim_result :
      (i : ℕ) (objects' : List AtomicObjectRecord)
      → claim_attempts c.storage.generation capacity
          (home address producer)
          address
          producer
          4
          h.objects
        ≡ found i objects'
      → find_or_claim_atomic_object_record c address byte_count producer site
        ≡ (some i, with_objects objects')
  unfolding find_or_claim_atomic_object_record with_objects scan_result
  claim_result i objects' e =
      let positive : is_pos (pos capacity) ≡ true = ground (arith, h.room.0) in
      let held : u32 capacity ≡ capacity = omega (arith, h.room.1) in
      simp (h.there, h.sized, positive, held, e) refl

  claim_run :
      (i : ℕ) (objects' : List AtomicObjectRecord)
      → find_or_claim_atomic_object_record c address byte_count producer site
        ≡ (some i, with_objects objects')
      → after_release
        ≡ publish_release use_address_cache (with_objects objects') address epoch site i
  unfolding record_atomic_release_at_epoch_impl
  claim_run i objects' e =
      ap
        (λ (r : Option ℕ × Context). elim r.0 [
          | none ↦ r.1
          | some index ↦ publish_release use_address_cache (r.1) address epoch site index
        ])
        e

  -- What the release comes to.
  released_as :
      (i : ℕ) × (objects' : List AtomicObjectRecord) × Claimed c.storage.generation address producer
        capacity
        (home address producer)
        0
        i
        h.objects
        objects'
      × (after_release
          ≡ publish_release use_address_cache (with_objects objects') address epoch site i)
  unfolding record_atomic_release_at_epoch_impl find_or_claim_atomic_object_record with_objects
  released_as =
      let (q, hi, serves) = free in
      let (i, objects', e) =
        claim_attempts-found c.storage.generation capacity (home address producer) address producer
          h.launched h.room (probe_start-lt capacity address producer h.room) 3 q h.objects hi
          (subst
            (λ o.
              Serves c.storage.generation address producer
                (slot capacity (home address producer) q (objects_of o)))
            h.there serves) in
      let claim =
        claim_attempts-Claimed c.storage.generation address producer capacity
          (home address producer) 4 h.objects objects' i e in
      (i, objects', claim, claim_run i objects' (claim_result i objects' e))

  index : ℕ
  index = released_as.0

  claimed_objects : List AtomicObjectRecord
  claimed_objects = released_as.1

  claim :
      Claimed c.storage.generation address producer capacity
        (home address producer)
        0
        index
        h.objects
        claimed_objects
  unfolding index claimed_objects
  claim = released_as.2

  published : List AtomicObjectRecord
  unfolding index claimed_objects
  published = publish c.storage.generation index address producer epoch site.value claimed_objects

  after_frame : after_release ≡ record c {
    storage = record (c.storage) {
      atomic_objects = some published;
      atomic_address_cache = after_release.storage.atomic_address_cache;
    };
  }
  unfolding published index claimed_objects with_objects subgroup_id
  after_frame =
      subst
        (λ (x : Context). x ≡ record c {
          storage = record (c.storage) {
            atomic_objects = some published;
            atomic_address_cache = x.storage.atomic_address_cache;
          };
        })
        (sym released_as.3)
        (publish_frame use_address_cache (with_objects claimed_objects) address epoch index site)

  table_after : after_release.storage.atomic_objects ≡ some published
  table_after = ap (λ (x : Context). x.storage.atomic_objects) after_frame

  capacity_after : after_release.storage.atomic_object_capacity ≡ pos capacity
  capacity_after = ap (λ (x : Context). x.storage.atomic_object_capacity) after_frame ∙ h.sized

  generation_after : after_release.storage.generation ≡ c.storage.generation
  generation_after = ap (λ (x : Context). x.storage.generation) after_frame

  -- A release changes the table of records and the cache beside it, and nothing else.
  pub release_frame : after_release ≡ record c {
    storage = record (c.storage) {
      atomic_objects = after_release.storage.atomic_objects;
      atomic_address_cache = after_release.storage.atomic_address_cache;
    };
  }
  release_frame =
      after_frame
      ∙ ap
          (λ (o : Option (List AtomicObjectRecord)). record c {
            storage = record (c.storage) {
              atomic_objects = o;
              atomic_address_cache = after_release.storage.atomic_address_cache;
            };
          })
          (sym table_after)

  abbrev home_inside : (a p : ℕ) → home a p < capacity
  home_inside a p = probe_start-lt capacity a p h.room

  epoch_before :
      (a p : ℕ)
      → released_epoch c.storage a p
        ≡ Option.map
            (λ i. (get_or h.objects i no_record).releasing_epoch)
            (find_from c.storage.generation capacity (home a p) a p capacity 0 h.objects)
  epoch_before a p =
      epoch_is c.storage c.storage.generation capacity a p h.objects refl h.there h.sized h.room

  epoch_after :
      (a p : ℕ)
      → released_epoch after_release.storage a p
        ≡ Option.map
            (λ i. (get_or published i no_record).releasing_epoch)
            (find_from c.storage.generation capacity (home a p) a p capacity 0 published)
  epoch_after a p =
      epoch_is after_release.storage c.storage.generation capacity a p published generation_after
        table_after capacity_after h.room

  found_or_zero :
      (objects : List AtomicObjectRecord) (o : Option ℕ)
      → epoch_found objects o
        ≡ or_zero (Option.map (λ i. (get_or objects i no_record).releasing_epoch) o)
  found_or_zero objects none = refl
  found_or_zero objects (some i) = refl

  -- After a release that finds a slot, in a table that leads each search to its record, a search
  -- for its key yields the greater one of the epoch released before (0 where there was none) and
  -- the epoch of this release.
  pub release-released_epoch :
      released_epoch after_release.storage address producer
      ≡ some (max (or_zero (released_epoch c.storage address producer)) epoch)
  unfolding published
  release-released_epoch =
      let hit =
        search-published c.storage.generation capacity h.launched h.room home home_inside address
          producer epoch site.value index h.objects claimed_objects h.table claim in
      let new =
        epoch_published c.storage.generation capacity h.launched h.room home home_inside address
          producer epoch site.value index h.objects claimed_objects h.table claim in
      let old =
        claimed_epoch c.storage.generation capacity (home address producer) address producer
          h.launched h.room (home_inside address producer) h.objects claimed_objects index
          h.table.sized claim in
      epoch_after address producer
      ∙ rw (hit, epoch_before address producer)
          (ap some (new ∙ ap (λ e. max e epoch) (old ∙ found_or_zero h.objects _)))

  -- After a release that finds a slot, in a table that leads each search to its record, a search
  -- for any other key yields what it did before.
  pub release-released_epoch_other :
      (a p : ℕ)
      → ¬ ((a ≡ address) × (p ≡ producer))
      → released_epoch after_release.storage a p ≡ released_epoch c.storage a p
  unfolding published
  release-released_epoch_other a p other =
      let search = find_from c.storage.generation capacity (home a p) a p capacity 0 h.objects in
      let same =
        search_other c.storage.generation capacity h.launched h.room home home_inside address
          producer epoch site.value index h.objects claimed_objects h.table claim a p other in
      let record_same =
        record_other c.storage.generation capacity h.launched h.room home home_inside address
          producer epoch site.value index h.objects claimed_objects h.table claim a p other in
      epoch_after a p
      ∙ ap (λ o. Option.map (λ i. (get_or published i no_record).releasing_epoch) o) same
      ∙ elim (Option-cases search) [
        | inl absent ↦ rw absent refl
        | inr (j, e) ↦ rw e (ap (λ r. some (r.releasing_epoch)) (record_same j e))
      ]
      ∙ sym (epoch_before a p)

  -- After a release that finds a slot, the table still leads each search to its record.
  pub release-HasObjects : HasObjects after_release.storage capacity
  unfolding published
  release-HasObjects =
      let (launched, table) =
        subst
          (λ g.
            (l : g ≢ claimed_generation) × IsTable g capacity l h.room home home_inside published)
          (sym generation_after)
          (
            h.launched,
            published-IsTable c.storage.generation capacity h.launched h.room home home_inside
                address producer epoch site.value index h.objects claimed_objects h.table claim,
          ) in
      record {
        objects = published;
        there = table_after;
        sized = capacity_after;
        room = h.room;
        launched = launched;
        table = table;
      }
