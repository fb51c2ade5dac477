-- ===== src/Context/Barriers/Simulated.antt =====
-- A whole workgroup at a simulated barrier: all threads arrive, then thread 0 compares the number of
-- arrivals with the number of threads.
use hip_moi.Prelude.{
  ℕ, suc, ◌+◌, ◌-◌, ◌^◌, ◌<◌, ◌≡◌, refl, sym, ap, subst, ◌∙◌, Bool, true, false, ◌==◌, ◌&&◌, ltb,
  inl, inr, Bool-cases, u32, Option, none, some, List, [], ◌∷◌, ℤ, pos, u32_of_int, set, arith,
  if◌then◌else◌,
}
use mathlib.Core.Option
use hip_moi.Common.Kinds.{SiteId, diagnostic_kind_value, barrier_divergence}
use hip_moi.Context.Storage.{Diagnostic, Storage, Context, int_suc}
use hip_moi.Context.Subgroups.{configured_subgroup_count, thread_id, current_epoch}
use hip_moi.Context.Diagnostics.{emit_barrier_divergence}
use hip_moi.Context.Diagnostics.Counting.{Emitted, emit-Emitted, emit_frame, fits}
use hip_moi.Context.Barriers.Epochs.{HasStates, states_after, barrier-current_epoch}
use hip_moi.Context.Barriers.{
  barrier, close_current_epoch, simulated_arrival, simulated_release, reset_arrivals,
  expected_threads, int_eq,
}

-- The threads of a workgroup arrive one after the other, each with its own `participates`.
unfoldable pub arrivals : List (Bool × Context) → Storage → Storage
arrivals [] s = s
arrivals ((participates, c) ∷ threads) s =
    arrivals threads (simulated_arrival participates (record c { storage = s })).storage

-- How many of them take part.
unfoldable pub participants : List (Bool × Context) → ℕ
participants [] = 0
participants ((participates, c) ∷ threads) =
    let rest = participants threads in if participates then suc rest else rest

arrived : Storage → ℕ → Storage
arrived s n = record s { simulated_barrier_arrival_count = some (pos n) }

-- From a count of `n`, the arrivals raise it by the number of threads that take part, in whatever
-- order they come, and change nothing else (below 2 ^ 31 arrivals).
pub arrivals-count :
    (threads : List (Bool × Context)) (s : Storage) (n : ℕ)
    → n + participants threads < 2 ^ 31
    → arrivals threads (record s { simulated_barrier_arrival_count = some (pos n) })
      ≡ record s { simulated_barrier_arrival_count = some (pos (n + participants threads)) }
unfolding arrivals participants simulated_arrival int_suc
arrivals-count [] s n h =
    let same : n ≡ n + 0 = omega arith in
    ap (λ (k : ℕ). record s { simulated_barrier_arrival_count = some (pos k) }) same
arrivals-count ((true, c) ∷ threads) s n h =
    let fresh : (n == 2 ^ 31 - 1) ≡ false = ground arith in
    let more : n + 1 + participants threads ≡ n + suc (participants threads) = omega arith in
    rw fresh (arrivals-count threads s (n + 1) (omega arith))
    ∙ ap (λ (k : ℕ). record s { simulated_barrier_arrival_count = some (pos k) }) more
arrivals-count ((false, c) ∷ threads) s n h = arrivals-count threads s n h

release_is :
    (site : SiteId) (c : Context) (observed : ℤ)
    → c.storage.simulated_barrier_arrival_count ≡ some observed
    → thread_id c.thread ≡ 0
    → simulated_release site c
      ≡ reset_arrivals (
          if int_eq observed (expected_threads c)
          then close_current_epoch true c
          else emit_barrier_divergence c (expected_threads c) observed site)
unfolding simulated_release
release_is site c observed there first =
    ap
      (λ (o : Option ℤ). elim o [
        | none ↦ c
        | some n ↦
            if thread_id c.thread == 0
            then reset_arrivals (
                if int_eq n (expected_threads c)
                then close_current_epoch true c
                else emit_barrier_divergence c (expected_threads c) n site)
            else c
      ])
      there
    ∙ simp first refl

-- When the arrivals at a simulated barrier are as many as the workgroup has threads, thread 0
-- closes the epoch as a barrier does, and resets the count.
simulated_release-barrier :
    (site : SiteId) (c : Context) (observed : ℤ)
    → c.storage.simulated_barrier_arrival_count ≡ some observed
    → thread_id c.thread ≡ 0
    → int_eq observed (expected_threads c) ≡ true
    → simulated_release site c ≡ reset_arrivals (barrier c site)
unfolding barrier
simulated_release-barrier site c observed there first all =
    release_is site c observed there first ∙ simp all refl

-- When the arrivals at a simulated barrier are not as many as the threads, and the diagnostic
-- buffer is there with fewer than 2 ^ 31 diagnostics, thread 0 emits one diagnostic, with both
-- numbers, resets the count, and leaves the epochs.
pub simulated_release-divergence :
    (site : SiteId) (c : Context) (observed : ℤ) (buffer : List Diagnostic) (n : ℕ)
    → c.storage.simulated_barrier_arrival_count ≡ some observed
    → thread_id c.thread ≡ 0
    → int_eq observed (expected_threads c) ≡ false
    → Emitted c.storage buffer n
    → n + 1 < 2 ^ 31
    → let c' = simulated_release site c in
      (c'.storage.subgroup_states ≡ c.storage.subgroup_states)
      × (c'.storage.simulated_barrier_arrival_count ≡ some (pos 0))
      × ((d : Diagnostic) × (d.kind ≡ diagnostic_kind_value barrier_divergence)
          × (d.expected_thread_count ≡ u32_of_int (expected_threads c))
          × (d.observed_thread_count ≡ u32_of_int observed)
          × Emitted c'.storage
              (if fits n c.storage.diagnostic_capacity then set buffer n d else buffer)
              (n + 1))
unfolding reset_arrivals emit_barrier_divergence
simulated_release-divergence site c observed buffer n there first some_missing e small =
    let emitted = emit_barrier_divergence c (expected_threads c) observed site in
    let d : Diagnostic = record {
      kind = diagnostic_kind_value barrier_divergence;
      epoch = current_epoch c.storage 0;
      first_subgroup_id = 0;
      second_subgroup_id = 0;
      first_addr = 0;
      second_addr = 0;
      first_size = 0;
      second_size = 0;
      first_site_id = site.value;
      second_site_id = site.value;
      expected_thread_count = u32_of_int (expected_threads c);
      observed_thread_count = u32_of_int observed;
    } in
    let frame = emit_frame c.storage d in
    let is : simulated_release site c ≡ reset_arrivals emitted =
      release_is site c observed there first ∙ simp some_missing refl in
    let counted = emit-Emitted c.storage d buffer n small e in
    subst
      (λ (x : Context).
        (x.storage.subgroup_states ≡ c.storage.subgroup_states)
        × (x.storage.simulated_barrier_arrival_count ≡ some (pos 0))
        × ((d : Diagnostic) × (d.kind ≡ diagnostic_kind_value barrier_divergence)
            × (d.expected_thread_count ≡ u32_of_int (expected_threads c))
            × (d.observed_thread_count ≡ u32_of_int observed)
            × Emitted x.storage
                (if fits n c.storage.diagnostic_capacity then set buffer n d else buffer) (n + 1)))
      (sym is)
      (
        ap (λ (s : Storage). s.subgroup_states) frame,
        ap (λ (s : Storage). Option.map (λ _. pos 0) s.simulated_barrier_arrival_count) frame
            ∙ rw there refl,
        (
          d,
          refl,
          refl,
          refl,
          record { there = counted.there; room = counted.room; counted = counted.counted },
        ),
      )

-- The storage when all threads of a workgroup have arrived, from a count of 0.
all_arrived :
    (threads : List (Bool × Context)) (s : Storage)
    → s.simulated_barrier_arrival_count ≡ some (pos 0)
    → participants threads < 2 ^ 31
    → arrivals threads s ≡ arrived s (participants threads)
unfolding arrived
all_arrived threads s there few =
    let cleared : s ≡ record s { simulated_barrier_arrival_count = some (pos 0) } =
      ap (λ o. record s { simulated_barrier_arrival_count = o }) there in
    let total : 0 + participants threads ≡ participants threads = omega arith in
    ap (arrivals threads) cleared
    ∙ arrivals-count threads s 0 (omega (arith, few))
    ∙ ap (λ (k : ℕ). record s { simulated_barrier_arrival_count = some (pos k) }) total

arrived-HasStates :
    (s : Storage) (n capacity : ℕ) → HasStates s capacity → HasStates (arrived s n) capacity
unfolding arrived
arrived-HasStates s n capacity h = record {
  states = h.states;
  there = h.there;
  long = h.long;
  sized = h.sized;
  positive = h.positive;
  small = h.small;
}

divergence_frame :
    (c : Context) (expected observed : ℤ) (site : SiteId)
    → let emitted = (emit_barrier_divergence c expected observed site).storage in
      emitted ≡ record (c.storage) {
        diagnostics = emitted.diagnostics;
        diagnostic_count = emitted.diagnostic_count;
      }
unfolding emit_barrier_divergence
divergence_frame c expected observed site = emit_frame c.storage _

-- What thread 0 does when `n` threads have arrived.
released :
    (site : SiteId) (c : Context) (s : Storage) (n capacity i expected : ℕ)
    → HasStates s capacity
    → thread_id c.thread ≡ 0
    → expected_threads c ≡ pos expected
    → i < capacity
    → let c' = simulated_release site (record c { storage = arrived s n }) in
      (c'.storage.simulated_barrier_arrival_count ≡ some (pos 0))
      × (current_epoch c'.storage i ≡ (
          if (n == expected) && ltb i (configured_subgroup_count c.cfg)
          then u32 (current_epoch s i + 1)
          else current_epoch s i))
unfolding arrived expected_threads reset_arrivals emit_barrier_divergence current_epoch
released site c s n capacity i expected h first count inside =
    let c0 : Context = record c { storage = arrived s n } in
    elim (Bool-cases (n == expected)) [
      | inl all ↦
          let is : simulated_release site c0 ≡ reset_arrivals (barrier c0 site) =
            simulated_release-barrier site c0 (pos n) refl first
              (ap (int_eq (pos n)) count ∙ all) in
          let stored = arrived-HasStates s n capacity h in
          let frame = states_after c0 site capacity stored first in
          (
            ap (λ (x : Context). x.storage.simulated_barrier_arrival_count) is
                ∙ ap (λ (x : Context). (reset_arrivals x).storage.simulated_barrier_arrival_count)
                    frame,
            ap (λ (x : Context). current_epoch x.storage i) is
                ∙ barrier-current_epoch c0 site capacity i stored first inside
                ∙ rw all refl,
          )
      | inr some_missing ↦
          let emitted = emit_barrier_divergence c0 (expected_threads c0) (pos n) site in
          let is : simulated_release site c0 ≡ reset_arrivals emitted =
            release_is site c0 (pos n) refl first
            ∙ simp (ap (int_eq (pos n)) count ∙ some_missing) refl in
          let frame = divergence_frame c0 (expected_threads c0) (pos n) site in
          (
            ap (λ (x : Context). x.storage.simulated_barrier_arrival_count) is
                ∙ ap (λ (x : Storage). Option.map (λ _. pos 0) x.simulated_barrier_arrival_count)
                    frame,
            ap (λ (x : Context). current_epoch x.storage i) is
                ∙ ap (λ (x : Storage). current_epoch x i) frame
                ∙ rw some_missing refl,
          )
    ]

-- When all threads of a workgroup have arrived at a simulated barrier, in any order and from a
-- count of 0 (with fewer than 2 ^ 31 of them taking part, and a state stored for each subgroup up
-- to the capacity), thread 0 resets the count, and advances the epoch of each configured subgroup
-- that is stored by one, modulo 2 ^ 32, if as many took part as the workgroup has threads; every
-- other stored epoch stays, and so does each of them if the numbers differ.
pub simulated_release-current_epoch :
    (threads : List (Bool × Context)) (site : SiteId) (c : Context) (s : Storage)
    (capacity i expected : ℕ)
    → HasStates s capacity
    → s.simulated_barrier_arrival_count ≡ some (pos 0)
    → participants threads < 2 ^ 31
    → thread_id c.thread ≡ 0
    → expected_threads c ≡ pos expected
    → i < capacity
    → let c' = simulated_release site (record c { storage = arrivals threads s }) in
      (c'.storage.simulated_barrier_arrival_count ≡ some (pos 0))
      × (current_epoch c'.storage i ≡ (
          if (participants threads == expected) && ltb i (configured_subgroup_count c.cfg)
          then u32 (current_epoch s i + 1)
          else current_epoch s i))
simulated_release-current_epoch threads site c s capacity i expected h there few first count
      inside =
    rw (all_arrived threads s there few)
      (released site c s (participants threads) capacity i expected h first count inside)
