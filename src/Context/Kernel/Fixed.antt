-- ===== src/Context/Kernel/Fixed.antt =====
-- The steps of an access under a compile-time policy, and of thread 0 at a simulated barrier, leave
-- the table of release records alone.
use hip_moi.Prelude.{
  ℕ, ◌+◌, ◌-◌, inl, inr, refl, ap, true, Bool-cases, if◌then◌else◌, ◌&&◌, ◌||◌, ltb, ◌==◌, is_pos,
  u32_of_int, ◌>>>◌, min, set, some, get_or, ℤ, none, Option,
}
use hip_moi.Common.Kinds.{
  SiteId, AccessKind, BackendKind, exact_shadow, sampled_watchpoint, SampledWatchpointPolicy,
}
use hip_moi.Shadow.Sampled.{
  SampledWatchpointEntry, decode_sampled_watchpoint_entry, granule_shift, max_start,
}
use hip_moi.Context.Storage.{Storage, Context}
use hip_moi.Context.Subgroups.{subgroup_epoch, is_some, thread_id}
use hip_moi.Context.Diagnostics.{emit_barrier_divergence}
use hip_moi.Context.Barriers.{
  simulated_release, reset_arrivals, close_current_epoch, expected_threads, int_eq,
}
use hip_moi.Context.Exact.{words_of, last_byte_offset}
use hip_moi.Context.Sampling.{sampled_selection_seed, sampled_watchpoint_slot, sampled_probe_step}
use hip_moi.Context.Sampled.{compare_watchpoint, scan_probes, watchpoint_word}
use hip_moi.Context.Policy.{
  policy_should_publish, policy_scan_conflicts, policy_record_range, policy_record_access,
  policy_record_access_at,
}
use hip_moi.Context.Policy.Options.{compare_frame, scan_frame}
use hip_moi.Context.Kernel.Frames.{
  SameTable, same, then_same, full-SameTable, exact-SameTable, chunks-SameTable, emit-SameTable,
  close-SameTable,
}

compare-SameTable :
    (current : SampledWatchpointEntry) (o n : ℕ) (site : SiteId) (v : ℕ) (s : Storage)
    → SameTable s (compare_watchpoint current o n site v s)
compare-SameTable current o n site v s =
    let e = compare_frame current o n site v s in
    record {
      objects = ap (λ (t : Storage). t.atomic_objects) e;
      capacity = ap (λ (t : Storage). t.atomic_object_capacity) e;
      generation = ap (λ (t : Storage). t.generation) e;
    }

scan-SameTable :
    (current : SampledWatchpointEntry) (slot o n : ℕ) (site : SiteId) (step left probe : ℕ)
    (s : Storage)
    → SameTable s (scan_probes current slot o n site step left probe s)
scan-SameTable current slot o n site step left probe s =
    let e = scan_frame current slot o n site step left probe s in
    record {
      objects = ap (λ (t : Storage). t.atomic_objects) e;
      capacity = ap (λ (t : Storage). t.atomic_object_capacity) e;
      generation = ap (λ (t : Storage). t.generation) e;
    }

policy_range-SameTable :
    (p : SampledWatchpointPolicy) (c : Context) (kind : AccessKind) (start count o n : ℕ)
    (site : SiteId) (seed : ℕ)
    → SameTable c.storage (policy_record_range p c kind start count o n site seed).storage
unfolding policy_record_range policy_scan_conflicts
policy_range-SameTable p c kind start count o n site seed =
    let s = c.storage in
    let packed = watchpoint_word c kind start count in
    let slot = sampled_watchpoint_slot s start (subgroup_epoch c) in
    let current = decode_sampled_watchpoint_entry packed in
    let words = words_of s.sampled_watchpoints in
    let s' = record s { sampled_watchpoints = some (set words slot packed) } in
    let s1 = compare_watchpoint current o n site (get_or words slot 0) s' in
    let capacity = u32_of_int s1.sampled_watchpoint_capacity in
    let probes : ℕ = if p.probe_count == 0 then capacity else p.probe_count in
    let stored : SameTable s s' = record { objects = refl; capacity = refl; generation = refl } in
    elim (Bool-cases p.report_conflicts) [
      | inr off ↦ rw off stored
      | inl on ↦ rw on (
          then_same stored (
            then_same (compare-SameTable current o n site (get_or words slot 0) s') (
              scan-SameTable current slot o n site (sampled_probe_step s1 seed start)
                (min probes capacity) 0 s1)))
    ]

policy_sampled-SameTable :
    (p : SampledWatchpointPolicy) (c : Context) (ptr n : ℕ) (kind : AccessKind) (o : ℕ)
    (site : SiteId)
    → SameTable c.storage (policy_record_access p c ptr n kind o site).storage
unfolding policy_record_access
policy_sampled-SameTable p c ptr n kind o site =
    let s = c.storage in
    let seed = sampled_selection_seed c site in
    let start = o >>> granule_shift in
    let end_cell = (last_byte_offset o n >>> granule_shift) + 1 in
    elim (Bool-cases (is_some s.sampled_watchpoints && is_pos s.sampled_watchpoint_capacity)) [
      | inr off ↦ rw off (full-SameTable c ptr n o site)
      | inl there ↦ elim (Bool-cases (policy_should_publish p c seed)) [
        | inr skipped ↦ rw (there, skipped) (same s)
        | inl chosen ↦ elim (Bool-cases (ltb max_start start || ltb (max_start + 1) end_cell)) [
          | inl outside ↦ rw (there, chosen, outside) (full-SameTable c ptr n o site)
          | inr inside ↦
              rw (there, chosen, inside)
                (chunks-SameTable (λ i m c'. policy_record_range p c' kind i m o n site seed)
                  (λ i m c'. policy_range-SameTable p c' kind i m o n site seed) (end_cell - start)
                  start end_cell c)
        ]
      ]
    ]

pub policy_access-SameTable :
    (backend : BackendKind) (p : SampledWatchpointPolicy) (c : Context) (ptr n : ℕ)
    (kind : AccessKind) (o : ℕ) (site : SiteId)
    → SameTable c.storage (policy_record_access_at backend p c ptr n kind o site).storage
unfolding policy_record_access_at
policy_access-SameTable sampled_watchpoint p c ptr n kind o site = elim (Bool-cases (n == 0)) [
  | inl empty ↦ rw empty (same c.storage)
  | inr some_bytes ↦ rw some_bytes (policy_sampled-SameTable p c ptr n kind o site)
]
policy_access-SameTable exact_shadow p c ptr n kind o site = elim (Bool-cases (n == 0)) [
  | inl empty ↦ rw empty (same c.storage)
  | inr some_bytes ↦ rw some_bytes (exact-SameTable c ptr n kind o site)
]

reset-SameTable : (c : Context) → SameTable c.storage (reset_arrivals c).storage
unfolding reset_arrivals
reset-SameTable c = record { objects = refl; capacity = refl; generation = refl }

divergence-SameTable :
    (c : Context) (expected observed : ℤ) (site : SiteId)
    → SameTable c.storage (emit_barrier_divergence c expected observed site).storage
unfolding emit_barrier_divergence
divergence-SameTable c expected observed site = emit-SameTable c.storage _

-- Thread 0's step, by the count that it reads.
by_count :
    (site : SiteId) (c : Context) (count : Option ℤ)
    → let after : Context = elim count [
      | none ↦ c
      | some observed ↦
          if thread_id c.thread == 0
          then reset_arrivals (
              if int_eq observed (expected_threads c)
              then close_current_epoch true c
              else emit_barrier_divergence c (expected_threads c) observed site)
          else c
    ] in
      SameTable c.storage after.storage
by_count site c none = same c.storage
by_count site c (some observed) = elim (Bool-cases (thread_id c.thread == 0)) [
  | inr other ↦ rw other (same c.storage)
  | inl first ↦ elim (Bool-cases (int_eq observed (expected_threads c))) [
    | inl all ↦
        rw (first, all)
          (then_same (close-SameTable true c) (reset-SameTable (close_current_epoch true c)))
    | inr some_missing ↦
        rw (first, some_missing)
          (then_same (divergence-SameTable c (expected_threads c) observed site)
            (reset-SameTable (emit_barrier_divergence c (expected_threads c) observed site)))
  ]
]

pub simulated_release-SameTable :
    (site : SiteId) (c : Context) → SameTable c.storage (simulated_release site c).storage
unfolding simulated_release
simulated_release-SameTable site c = by_count site c c.storage.simulated_barrier_arrival_count
