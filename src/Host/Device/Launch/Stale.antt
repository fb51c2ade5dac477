-- ===== src/Host/Device/Launch/Stale.antt =====
-- What a launch finds in the table of release records, after any number of launches.
use hip_moi.Prelude.{
  ℕ, zero, suc, ◌+◌, ◌-◌, ◌^◌, ◌<◌, ◌≡◌, ◌≢◌, inl, inr, refl, sym, ap, subst, ◌∙◌, true, Option,
  none, some, List, pos, length, arith, is_pos, u32, Option-cases,
}
use native.Mathlib.Nat.{one-le-pow}
use hip_moi.Context.Storage.{AtomicObjectRecord, Storage}
use hip_moi.Context.Objects.{
  claimed_generation, find_from, find_atomic_object_record, probe_start, probe_index,
}
use hip_moi.Context.Objects.Probing.{IsCapacity, probe_start-lt}
use hip_moi.Context.Objects.Lookup.{stale-IsTable}
use hip_moi.Context.Releases.Lookup.{HasObjects, released_epoch}
use hip_moi.Context.Kernel.{Steps}
use hip_moi.Context.Kernel.Records.{Past, HasRecords, Steps-HasRecords}
use hip_moi.Host.{
  Capacities, next_generation, checked_capacity, acquired_subgroup_epoch_token_count, assign_slice,
  assign_slices, assign_layout_slices,
}
use hip_moi.Host.Layout.{HostContextOptions}
use hip_moi.Host.Layout.Budget.{compute_layout-Settled}
use hip_moi.Host.Device.{Runtime, HostContext, construct, pointers_at}
use hip_moi.Host.Device.Construction.{some_pair, construct-allocate, allocate-allocated}
use hip_moi.Host.Device.Launch.{
  Arrays, left_in, launch_ref, arrays_after, Cleared, Launches, constructed, launched,
}

-- The host has a table of release records, with none of a launch to come.
pub record Held (h : HostContext) (a : Arrays) : Type 0 where
  pub capacity : ℕ
  pub sized : h.capacities.atomic_object_capacity ≡ pos capacity
  pub room : IsCapacity capacity
  pub pointer : (ptr : ℕ) × (h.pointers.atomic_objects ≡ some ptr)
  pub long : length a.atomic_objects ≡ capacity
  pub past : Past h.generation a.atomic_objects

next_generation-suc :
    (generation : ℕ) → generation < 2 ^ 64 - 2 → next_generation generation ≡ generation + 1
unfolding next_generation
next_generation-suc generation small = ground arith

-- A launch finds the table in order.
pub launch-HasRecords :
    (h : HostContext) (a : Arrays) (held : Held h a)
    → h.generation < 2 ^ 64 - 2
    → HasRecords (launch_ref h a).0 held.capacity (h.generation + 1)
unfolding launch_ref
launch-HasRecords h a held small =
    let later = next_generation-suc h.generation small in
    let launched : next_generation h.generation ≢ claimed_generation = λ e. omega (arith, later) in
    record {
      table = record {
        objects = a.atomic_objects;
        there = rw (held.pointer.1) refl;
        sized = held.sized;
        room = held.room;
        launched = launched;
        table =
            stale-IsTable (next_generation h.generation) held.capacity launched held.room
              (probe_start held.capacity) (λ x p. probe_start-lt held.capacity x p held.room)
              a.atomic_objects held.long (λ j _ e. omega (arith, held.past j, later));
      };
      running = later;
      past = λ j. omega (arith, held.past j);
    }

-- Every search ends at the first slot, whose record is of an earlier launch.
find-none :
    (generation capacity start x p : ℕ) (objects : List AtomicObjectRecord)
    → generation < 2 ^ 64 - 2
    → 0 < capacity
    → Past generation objects
    → find_from (generation + 1) capacity start x p capacity 0 objects ≡ none
unfolding find_from
find-none generation zero start x p objects small positive past = absurd (omega arith)
find-none generation (suc n) start x p objects small positive past =
    ground (arith, past (probe_index (suc n) start 0))

-- Before its first release a launch finds no release of any subgroup through any address.
pub launch-none :
    (h : HostContext) (a : Arrays)
    → Held h a
    → h.generation < 2 ^ 64 - 2
    → (x p : ℕ) → released_epoch (launch_ref h a).0 x p ≡ none
unfolding released_epoch launch_ref find_atomic_object_record
launch-none h a held small x p =
    let later = next_generation-suc h.generation small in
    let positive : is_pos (pos held.capacity) ≡ true = ground (arith, held.room.0) in
    let held_capacity : u32 held.capacity ≡ held.capacity = omega (arith, held.room.1) in
    simp
      (
        held.pointer.1,
        held.sized,
        positive,
        held_capacity,
        later,
        find-none h.generation held.capacity (probe_start held.capacity x p) x p a.atomic_objects
            small held.room.0 held.past,
      )
      refl

after-Held :
    (h : HostContext) (a : Arrays) (s : Storage)
    → Held h a
    → h.generation < 2 ^ 64 - 2
    → Steps (launch_ref h a).0 s
    → Held (launch_ref h a).1 (arrays_after a s)
unfolding launch_ref
after-Held h a s held small steps =
    let records =
      Steps-HasRecords held.capacity (h.generation + 1) steps (launch-HasRecords h a held small) in
    let is : left_in a.atomic_objects s.atomic_objects ≡ records.table.objects =
      rw (records.table.there) refl in
    record {
      capacity = held.capacity;
      sized = held.sized;
      room = held.room;
      pointer = held.pointer;
      long = ap length is ∙ records.table.table.sized;
      past =
          rw (next_generation-suc h.generation small)
            (subst (λ os. Past (h.generation + 1) os) (sym is) records.past);
    }

-- The pointer to an array with a positive capacity is not null.
objects_pointer :
    (c : Capacities) (base : ℕ) (starts : List (Option ℕ)) (end : ℕ)
    → is_pos c.atomic_object_capacity ≡ true
    → assign_layout_slices c ≡ some (starts, end)
    → (ptr : ℕ) × ((pointers_at base starts).atomic_objects ≡ some ptr)
unfolding assign_layout_slices assign_slices assign_slice pointers_at
objects_pointer c base starts end positive h =
    elim (Option-cases (checked_capacity (acquired_subgroup_epoch_token_count c))) [
      | inl aborts ↦ cc (rw aborts at h)
      | inr (k, found) ↦
          let (same, _) = some_pair (rw found at h) in
          subst
            (λ (l : List (Option ℕ)). (ptr : ℕ) × ((pointers_at base l).atomic_objects ≡ some ptr))
            same (rw positive (_, refl))
    ]

positive_room : (j : ℕ) → 0 < 2 ^ j
positive_room j = omega (arith, one-le-pow j 2)

positive_pow : (j : ℕ) → is_pos (pos (2 ^ j)) ≡ true
positive_pow j = ground (arith, positive_room j)

module _ {M : Type 0} (hip : Runtime M) where
  constructed-Held :
      (o : HostContextOptions) (m m' : M) (h : HostContext) (a : Arrays)
      → construct hip o m ≡ some (h, m')
      → Cleared h a
      → Held h a
  constructed-Held o m m' h a e (sized, clear) =
      let (m1, _, e1) = construct-allocate hip o m m' h e in
      let (c, bytes, base, starts, end, laid_out, assigned, same) =
        allocate-allocated hip o m m1 h e1 in
      let settled = compute_layout-Settled o laid_out in
      let (j, is, small) = settled.given.atomics in
      let capacities : h.capacities ≡ c = ap (λ (x : HostContext). x.capacities) (sym same) in
      let long : pos (length a.atomic_objects) ≡ pos (2 ^ j) =
        sym sized ∙ ap (λ (x : Capacities). x.atomic_object_capacity) capacities ∙ is in
      let long' : length a.atomic_objects ≡ 2 ^ j = cc in
      let positive : is_pos c.atomic_object_capacity ≡ true = rw is (positive_pow j) in
      let (ptr, there) = objects_pointer c base starts end positive assigned in
      record {
        capacity = 2 ^ j;
        sized = sized ∙ long;
        room = (positive_room j, small);
        pointer = (ptr, ap (λ (x : HostContext). x.pointers.atomic_objects) (sym same) ∙ there);
        long = long';
        past = λ k. omega (arith, clear k);
      }

  -- Through every launch of a host context, its table of release records is in order.
  pub Launches-Held : {h : HostContext} {a : Arrays} → Launches hip h a → Held h a
  Launches-Held (constructed o m m' h a e cleared) = constructed-Held o m m' h a e cleared
  Launches-Held (launched h a s before small steps) =
      after-Held h a s (Launches-Held before) small steps

  -- After the construction of a host context with a cleared table and any number of launches, with
  -- whatever steps of their threads, and while the generation is below 2 ^ 64 - 2, a new launch
  -- finds no release of any subgroup through any address at its start, and at every point of it the
  -- table leads each search to its record.
  pub Launches-fresh :
      {h : HostContext} {a : Arrays} (s : Storage)
      → Launches hip h a
      → h.generation < 2 ^ 64 - 2
      → Steps (launch_ref h a).0 s
      → ((x p : ℕ) → released_epoch (launch_ref h a).0 x p ≡ none)
        × ((capacity : ℕ) × HasObjects s capacity)
  Launches-fresh {h} {a} s before small steps =
      let held = Launches-Held before in
      let records =
        Steps-HasRecords held.capacity (h.generation + 1) steps
          (launch-HasRecords h a held small) in
      (launch-none h a held small, (held.capacity, records.table))
