-- ===== src/Context/Kernel/Records.antt =====
-- The table of release records through a launch.
use hip_moi.Prelude.{
  ℕ, ◌≤◌, ◌<◌, ◌≡◌, ◌≢◌, inl, inr, refl, sym, ap, subst, ◌∙◌, Bool, true, arith, Option, none, some,
  List, pos, set, get_or, length, length-set, get_or-set_self, get_or-set_ne, u32, is_pos,
}
use native.Mathlib.Decide.{ℕ_discrete}
use hip_moi.Common.Kinds.{SiteId}
use hip_moi.Context.Storage.{AtomicObjectRecord, no_record, Storage, Context}
use hip_moi.Context.Subgroups.{subgroup_id}
use hip_moi.Context.Diagnostics.{emit_atomic_metadata_full}
use hip_moi.Context.Objects.{
  claimed_generation, publish, claim_attempts, found, exhausted, Scan, probe_start,
  find_or_claim_atomic_object_record, scan_result,
}
use hip_moi.Context.Objects.Probing.{IsCapacity, probe_index-lt, probe_start-lt}
use hip_moi.Context.Objects.Claim.{Takes, fresh, claim_attempts-Claimed, Scan-cases}
use hip_moi.Context.Objects.Lookup.{IsTable, published-IsTable}
use hip_moi.Context.Releases.{publish_release, record_atomic_release_at_epoch_impl}
use hip_moi.Context.Releases.Lookup.{HasObjects, publish_frame}
use hip_moi.Context.Kernel.{
  Step, init, boundary, arrival, departure, emission, access, policy_access, release, acquire,
  Steps, here, next, on,
}
use hip_moi.Context.Kernel.Fixed.{simulated_release-SameTable, policy_access-SameTable}
use hip_moi.Context.Kernel.Frames.{
  SameTable, emit-SameTable, init-SameTable, close-SameTable, arrival-SameTable, access-SameTable,
  acquire-SameTable,
}

-- Every record is of the launch `generation` or of an earlier one.
abbrev pub Past : ℕ → List AtomicObjectRecord → Type 0
Past generation objects = (j : ℕ) → (get_or objects j no_record).generation ≤ generation

-- A table that leads each search to its record, in the launch `generation`, and holds no record of
-- a later launch.
pub record HasRecords (s : Storage) (capacity generation : ℕ) : Type 0 where
  pub table : HasObjects s capacity
  pub running : s.generation ≡ generation
  pub past : Past generation table.objects

-- The table of `s'`, which is one for the launch of `s`.
moved_records :
    (s s' : Storage) (capacity generation : ℕ) (objects : List AtomicObjectRecord)
    → s'.atomic_objects ≡ some objects
    → s'.atomic_object_capacity ≡ pos capacity
    → s'.generation ≡ s.generation
    → (room : IsCapacity capacity) (launched : s.generation ≢ claimed_generation)
    → IsTable s.generation capacity launched room
        (probe_start capacity)
        (λ a p. probe_start-lt capacity a p room)
        objects
    → s.generation ≡ generation
    → Past generation objects
    → HasRecords s' capacity generation
moved_records s s' capacity generation objects there sized same room launched table running past =
    let (launched', table') =
      subst
        (λ g.
          (l : g ≢ claimed_generation) × IsTable g capacity l room (probe_start capacity)
            (λ a p. probe_start-lt capacity a p room) objects)
        (sym same) (launched, table) in
    record {
      table = record {
        objects = objects;
        there = there;
        sized = sized;
        room = room;
        launched = launched';
        table = table';
      };
      running = same ∙ running;
      past = past;
    }

SameTable-HasRecords :
    {s s' : Storage} (capacity generation : ℕ)
    → SameTable s s'
    → HasRecords s capacity generation
    → HasRecords s' capacity generation
SameTable-HasRecords {s} {s'} capacity generation same h =
    moved_records s s' capacity generation h.table.objects (same.objects ∙ h.table.there)
      (same.capacity ∙ h.table.sized) (same.generation) h.table.room (h.table.launched)
      h.table.table h.running h.past

set-Past :
    (generation i : ℕ) (objects : List AtomicObjectRecord) (r : AtomicObjectRecord)
    → ((j : ℕ) → i ≢ j → (get_or objects j no_record).generation ≤ generation)
    → i < length objects
    → r.generation ≤ generation
    → Past generation (set objects i r)
set-Past generation i objects r others inside now j = elim (ℕ_discrete i j) [
  | yes same ↦
      subst (λ k. (get_or (set objects i r) k no_record).generation ≤ generation) same
        (rw (get_or-set_self objects i r no_record inside) now)
  | no other ↦ rw (get_or-set_ne objects i j r no_record other) (others j other)
]

-- Publishing in a slot that a claim took.
published-Past :
    (generation address producer i epoch site : ℕ) (objects objects' : List AtomicObjectRecord)
    → Past generation objects
    → i < length objects
    → Takes generation address producer i objects objects'
    → Past generation (publish generation i address producer epoch site objects')
unfolding publish
published-Past generation address producer i epoch site objects objects' past inside
      (inl (same, _)) =
    set-Past generation i objects' _ (λ j _. rw same (past j)) (rw same inside) (omega arith)
published-Past generation address producer i epoch site objects objects' past inside
      (inr (_, _, made)) =
    let kept = length-set objects i (fresh generation address producer) in
    set-Past generation i objects' _
      (λ j other.
        rw (made, get_or-set_ne objects i j (fresh generation address producer) no_record other)
          (past j))
      (rw (made, kept) inside) (omega arith)

module _ (use_address_cache : Bool) (c : Context) (address byte_count epoch capacity generation : ℕ)
    (site : SiteId) (h : HasRecords c.storage capacity generation) where
  abbrev after : Storage
  after =
      (record_atomic_release_at_epoch_impl use_address_cache c address byte_count epoch
        site).storage

  abbrev scan : Scan
  scan =
      claim_attempts c.storage.generation capacity (probe_start capacity address (subgroup_id c))
        address (subgroup_id c) 4 h.table.objects

  abbrev claimed : List AtomicObjectRecord → Context
  claimed objects = record c { storage = record (c.storage) { atomic_objects = some objects } }

  claims :
      find_or_claim_atomic_object_record c address byte_count (subgroup_id c) site
      ≡ scan_result c address byte_count site scan
  unfolding find_or_claim_atomic_object_record
  claims =
      let positive : is_pos (pos capacity) ≡ true = ground (arith, h.table.room.0) in
      let held : u32 capacity ≡ capacity = omega (arith, h.table.room.1) in
      simp (h.table.there, h.table.sized, positive, held) refl

  abbrev finish : Option ℕ × Context → Context
  finish (none, c') = c'
  finish (some index, c') = publish_release use_address_cache c' address epoch site index

  finishes :
      record_atomic_release_at_epoch_impl use_address_cache c address byte_count epoch site
      ≡ finish (find_or_claim_atomic_object_record c address byte_count (subgroup_id c) site)
  unfolding record_atomic_release_at_epoch_impl
  finishes =
      finish_lem (find_or_claim_atomic_object_record c address byte_count (subgroup_id c) site)
    where
      finish_lem :
          (r : Option ℕ × Context)
          → (elim r.0 [
            | none ↦ r.1
            | some index ↦ publish_release use_address_cache (r.1) address epoch site index
          ])
            ≡ finish r
      finish_lem (none, c') = refl
      finish_lem (some i, c') = refl

  scanned :
      (r : Scan) → scan ≡ r → after ≡ (finish (scan_result c address byte_count site r)).storage
  scanned r e =
      ap (λ (x : Context). x.storage)
        (finishes ∙ ap finish (claims ∙ ap (scan_result c address byte_count site) e))

  full-HasRecords : (saw : Bool) → scan ≡ exhausted saw → HasRecords after capacity generation
  unfolding scan_result emit_atomic_metadata_full
  full-HasRecords saw e =
      subst (λ s. HasRecords s capacity generation) (sym (scanned (exhausted saw) e))
        (SameTable-HasRecords capacity generation (emit-SameTable c.storage _) h)

  found-HasRecords :
      (i : ℕ) (objects : List AtomicObjectRecord)
      → scan ≡ found i objects
      → HasRecords after capacity generation
  unfolding scan_result subgroup_id
  found-HasRecords i objects e =
      let claim =
        claim_attempts-Claimed c.storage.generation address (subgroup_id c) capacity
          (probe_start capacity address (subgroup_id c)) 4 h.table.objects objects i e in
      let inside : i < length h.table.objects =
        rw (claim.at, h.table.table.sized)
          (probe_index-lt capacity (probe_start capacity address (subgroup_id c)) claim.last
            h.table.room (probe_start-lt capacity address (subgroup_id c) h.table.room)
            claim.inside) in
      let past =
        published-Past generation address (subgroup_id c) i epoch site.value h.table.objects objects
          h.past inside
          (subst (λ g. Takes g address (subgroup_id c) i h.table.objects objects) h.running
            claim.takes) in
      let frame = publish_frame use_address_cache (claimed objects) address epoch i site in
      subst (λ s. HasRecords s capacity generation) (sym (scanned (found i objects) e))
        (moved_records c.storage
          (publish_release use_address_cache (claimed objects) address epoch site i).storage
          capacity generation
          (publish c.storage.generation i address (subgroup_id c) epoch site.value objects)
          (ap (λ (x : Context). x.storage.atomic_objects) frame)
          (ap (λ (x : Context). x.storage.atomic_object_capacity) frame ∙ h.table.sized)
          (ap (λ (x : Context). x.storage.generation) frame) h.table.room h.table.launched
          (published-IsTable c.storage.generation capacity h.table.launched h.table.room
            (probe_start capacity) (λ a p. probe_start-lt capacity a p h.table.room) address
            (subgroup_id c) epoch site.value i h.table.objects objects h.table.table claim)
          h.running
          (subst
            (λ g. Past generation (publish g i address (subgroup_id c) epoch site.value objects))
            (sym h.running) past))

  release-HasRecords : HasRecords after capacity generation
  release-HasRecords = elim (Scan-cases scan) [
    | inl (i, objects, e) ↦ found-HasRecords i objects e
    | inr (saw, e) ↦ full-HasRecords saw e
  ]

-- Whatever step a thread makes, the table of release records still leads each search to its record,
-- and holds no record of a later launch than the one that runs.
pub Step-HasRecords :
    {s s' : Storage} (capacity generation : ℕ)
    → Step s s'
    → HasRecords s capacity generation
    → HasRecords s' capacity generation
Step-HasRecords capacity generation (init s c) h =
    SameTable-HasRecords capacity generation (init-SameTable (on c s)) h
Step-HasRecords capacity generation (boundary s c advance_epochs) h =
    SameTable-HasRecords capacity generation (close-SameTable advance_epochs (on c s)) h
Step-HasRecords capacity generation (arrival s c participates) h =
    SameTable-HasRecords capacity generation (arrival-SameTable participates (on c s)) h
Step-HasRecords capacity generation (emission s d) h =
    SameTable-HasRecords capacity generation (emit-SameTable s d) h
Step-HasRecords capacity generation (access s c ptr byte_count kind offset site) h =
    SameTable-HasRecords capacity generation
      (access-SameTable (on c s) ptr byte_count kind offset site) h
Step-HasRecords capacity generation (departure s c site) h =
    SameTable-HasRecords capacity generation (simulated_release-SameTable site (on c s)) h
Step-HasRecords capacity generation (policy_access s c backend p ptr byte_count kind offset site)
      h =
    SameTable-HasRecords capacity generation
      (policy_access-SameTable backend p (on c s) ptr byte_count kind offset site) h
Step-HasRecords capacity generation (release s c use_address_cache address byte_count epoch site)
      h =
    release-HasRecords use_address_cache (on c s) address byte_count epoch capacity generation site
      h
Step-HasRecords capacity generation (acquire s c address) h =
    SameTable-HasRecords capacity generation (acquire-SameTable (on c s) address) h

-- Through any sequence of steps of any threads in a launch (workgroup starts, barriers, the
-- arrivals and the decision of simulated barriers, emissions, accesses of both backends with or
-- without a compile-time policy, releases and attempts to acquire), the table of release records
-- leads each search to its record, and holds no record of a later launch than the one that runs.
pub Steps-HasRecords :
    {s s' : Storage} (capacity generation : ℕ)
    → Steps s s'
    → HasRecords s capacity generation
    → HasRecords s' capacity generation
Steps-HasRecords capacity generation here h = h
Steps-HasRecords capacity generation (next steps step) h =
    Step-HasRecords capacity generation step (Steps-HasRecords capacity generation steps h)
