-- ===== src/Context/Policy/Options.antt =====
-- A policy and the options of a storage that say the same give the same sampled backend.
use hip_moi.Prelude.{
  ℕ, zero, suc, ◌+◌, ◌-◌, min, ◌≡◌, refl, sym, ap, subst, ◌∙◌, inl, inr, true, false, not, ltb,
  ◌==◌, if◌then◌else◌, some, u32, u32_of_int, get_or, set, Bool-cases, arith, ◌>>>◌, ◌*◌,
}
use hip_moi.Common.Kinds.{
  SiteId, AccessKind, SampledWatchpointPolicy, sampled_watchpoint, backend_kind_value,
}
use hip_moi.Shadow.Sampled.{SampledWatchpointEntry, decode_sampled_watchpoint_entry, granule_shift}
use hip_moi.Context.Storage.{Storage, Context}
use hip_moi.Context.Subgroups.{subgroup_epoch}
use hip_moi.Context.Diagnostics.Counting.{emit_frame}
use hip_moi.Context.Exact.{words_of, last_byte_offset}
use hip_moi.Context.Sampling.{
  sampled_selection_seed, sampled_should_publish, sampled_watchpoint_slot, sampled_probe_step,
  map_sampled_index,
}
use hip_moi.Context.Sampled.{
  watchpoint_conflict, emit_sampled_watchpoint_conflict, compare_watchpoint, scan_probes,
  scan_sampled_watchpoint_conflicts, watchpoint_word, record_sampled_watchpoint_range, each_chunk,
  chunk_of, record_sampled_watchpoint_access,
}
use hip_moi.Context.Sampled.Reports.{is_loud}
use hip_moi.Context.Access.{record_access_at}
use hip_moi.Context.Policy.{
  policy_samples, policy_should_publish, policy_scan_conflicts, policy_record_range,
  policy_record_access, policy_record_access_at,
}

-- The storage asks for what the policy fixes.
pub record Follows (p : SampledWatchpointPolicy) (s : Storage) : Type 0 where
  pub skip : s.sampled_watchpoint_sample_skip ≡ p.sample_skip
  pub probes : s.sampled_watchpoint_probe_count ≡ p.probe_count
  pub reports : (s.sampled_watchpoint_report_conflicts == 0) ≡ not p.report_conflicts

should_publish_same :
    (p : SampledWatchpointPolicy) (c : Context) (seed : ℕ)
    → Follows p c.storage
    → policy_should_publish p c seed ≡ sampled_should_publish c seed
unfolding policy_should_publish policy_samples sampled_should_publish
should_publish_same p c seed f = ground (arith, f.skip)

-- Comparing and scanning write only to the diagnostics.
pub compare_frame :
    (current : SampledWatchpointEntry) (o n : ℕ) (site : SiteId) (v : ℕ) (s : Storage)
    → let s' = compare_watchpoint current o n site v s in
      s' ≡ record s { diagnostics = s'.diagnostics; diagnostic_count = s'.diagnostic_count }
unfolding compare_watchpoint emit_sampled_watchpoint_conflict
compare_frame current o n site v s = elim (Bool-cases (is_loud s current v)) [
  | inr quiet ↦ rw quiet refl
  | inl loud ↦
      rw loud
        (emit_frame s (watchpoint_conflict (decode_sampled_watchpoint_entry v) current o n site))
]

pub scan_frame :
    (current : SampledWatchpointEntry) (slot o n : ℕ) (site : SiteId) (step left probe : ℕ)
    (s : Storage)
    → let s' = scan_probes current slot o n site step left probe s in
      s' ≡ record s { diagnostics = s'.diagnostics; diagnostic_count = s'.diagnostic_count }
unfolding scan_probes
scan_frame current slot o n site step zero probe s = refl
scan_frame current slot o n site step (suc left) probe s =
    let index =
      map_sampled_index (u32 (slot + u32 (probe * step)))
        (u32_of_int s.sampled_watchpoint_capacity) in
    let s1 =
      compare_watchpoint current o n site (get_or (words_of s.sampled_watchpoints) index 0) s in
    let s2 = scan_probes current slot o n site step left (probe + 1) s1 in
    scan_frame current slot o n site step left (probe + 1) s1
    ∙ ap
        (λ (t : Storage). record t {
          diagnostics = s2.diagnostics;
          diagnostic_count = s2.diagnostic_count;
        })
        (compare_frame current o n site (get_or (words_of s.sampled_watchpoints) index 0) s)

module _ (current : SampledWatchpointEntry) (slot start o n : ℕ) (site : SiteId) (seed : ℕ) where
  checked_frame :
      (v : ℕ) (s : Storage)
      → let s' =
          scan_sampled_watchpoint_conflicts current slot start o n site seed
            (compare_watchpoint current o n site v s) in
        s' ≡ record s { diagnostics = s'.diagnostics; diagnostic_count = s'.diagnostic_count }
  unfolding scan_sampled_watchpoint_conflicts
  checked_frame v s =
      let s1 = compare_watchpoint current o n site v s in
      let capacity = u32_of_int s1.sampled_watchpoint_capacity in
      let probes : ℕ =
        if s1.sampled_watchpoint_probe_count == 0
        then capacity
        else s1.sampled_watchpoint_probe_count in
      let step = sampled_probe_step s1 seed start in
      let s2 = scan_probes current slot o n site step (min probes capacity) 0 s1 in
      scan_frame current slot o n site step (min probes capacity) 0 s1
      ∙ ap
          (λ (t : Storage). record t {
            diagnostics = s2.diagnostics;
            diagnostic_count = s2.diagnostic_count;
          })
          (compare_frame current o n site v s)

  scan_same :
      (p : SampledWatchpointPolicy) (s : Storage)
      → s.sampled_watchpoint_probe_count ≡ p.probe_count
      → policy_scan_conflicts p current slot start o n site seed s
        ≡ scan_sampled_watchpoint_conflicts current slot start o n site seed s
  unfolding policy_scan_conflicts scan_sampled_watchpoint_conflicts
  scan_same p s e = simp e refl

  checked_same :
      (p : SampledWatchpointPolicy) (v : ℕ) (s : Storage)
      → s.sampled_watchpoint_probe_count ≡ p.probe_count
      → policy_scan_conflicts p current slot start o n site seed
          (compare_watchpoint current o n site v s)
        ≡ scan_sampled_watchpoint_conflicts current slot start o n site seed
            (compare_watchpoint current o n site v s)
  checked_same p v s e = scan_same p (compare_watchpoint current o n site v s) (
      ap (λ (t : Storage). t.sampled_watchpoint_probe_count) (compare_frame current o n site v s)
      ∙ e)

-- A publication writes the words and the diagnostics.
pub record_range_frame :
    (c : Context) (kind : AccessKind) (start count o n : ℕ) (site : SiteId) (seed : ℕ)
    → let c' = record_sampled_watchpoint_range c kind start count o n site seed in
      c' ≡ record c {
        storage = record (c.storage) {
          sampled_watchpoints = some (
              set
                (words_of c.storage.sampled_watchpoints)
                (sampled_watchpoint_slot c.storage start (subgroup_epoch c))
                (watchpoint_word c kind start count));
          diagnostics = c'.storage.diagnostics;
          diagnostic_count = c'.storage.diagnostic_count;
        };
      }
unfolding record_sampled_watchpoint_range
record_range_frame c kind start count o n site seed =
    let s = c.storage in
    let packed = watchpoint_word c kind start count in
    let slot = sampled_watchpoint_slot s start (subgroup_epoch c) in
    let s' = record s {
      sampled_watchpoints = some (set (words_of s.sampled_watchpoints) slot packed);
    } in
    elim (Bool-cases (s.sampled_watchpoint_report_conflicts == 0)) [
      | inl off ↦ rw off refl
      | inr on ↦ rw on (
          ap (λ (t : Storage). record c { storage = t })
            (checked_frame (decode_sampled_watchpoint_entry packed) slot start o n site seed
              (get_or (words_of s.sampled_watchpoints) slot 0) s'))
    ]

range_same :
    (p : SampledWatchpointPolicy) (c : Context) (kind : AccessKind) (start count o n : ℕ)
    (site : SiteId) (seed : ℕ)
    → Follows p c.storage
    → policy_record_range p c kind start count o n site seed
      ≡ record_sampled_watchpoint_range c kind start count o n site seed
unfolding record_sampled_watchpoint_range policy_record_range
range_same p c kind start count o n site seed f =
    let s = c.storage in
    let packed = watchpoint_word c kind start count in
    let slot = sampled_watchpoint_slot s start (subgroup_epoch c) in
    let s' = record s {
      sampled_watchpoints = some (set (words_of s.sampled_watchpoints) slot packed);
    } in
    elim (Bool-cases p.report_conflicts) [
      | inr off ↦
          let none_asked : (s.sampled_watchpoint_report_conflicts == 0) ≡ true =
            f.reports ∙ rw off refl in
          simp (none_asked, off) refl
      | inl on ↦
          let asked : (s.sampled_watchpoint_report_conflicts == 0) ≡ false =
            f.reports ∙ rw on refl in
          simp (asked, on)
            (ap (λ (t : Storage). record c { storage = t })
              (checked_same (decode_sampled_watchpoint_entry packed) slot start o n site seed p
                (get_or (words_of s.sampled_watchpoints) slot 0) s' f.probes))
    ]

range-Follows :
    (p : SampledWatchpointPolicy) (c : Context) (kind : AccessKind) (start count o n : ℕ)
    (site : SiteId) (seed : ℕ)
    → Follows p c.storage
    → Follows p (record_sampled_watchpoint_range c kind start count o n site seed).storage
range-Follows p c kind start count o n site seed f =
    subst (λ (x : Context). Follows p x.storage)
      (sym (record_range_frame c kind start count o n site seed))
      (record { skip = f.skip; probes = f.probes; reports = f.reports })

chunks_same :
    (p : SampledWatchpointPolicy) (kind : AccessKind) (o n : ℕ) (site : SiteId)
    (seed fuel start end : ℕ) (c : Context)
    → Follows p c.storage
    → each_chunk
        (λ a count c'. policy_record_range p c' kind a count o n site seed)
        fuel
        start
        end
        c
      ≡ each_chunk
          (λ a count c'. record_sampled_watchpoint_range c' kind a count o n site seed)
          fuel
          start
          end
          c
unfolding each_chunk
chunks_same p kind o n site seed zero start end c f = refl
chunks_same p kind o n site seed (suc fuel) start end c f =
    let chunk = chunk_of (end - start) in
    let c1 = record_sampled_watchpoint_range c kind start chunk o n site seed in
    let rest =
      ap
        (each_chunk (λ a count c'. policy_record_range p c' kind a count o n site seed) fuel
          (start + chunk) end)
        (range_same p c kind start chunk o n site seed f)
      ∙ chunks_same p kind o n site seed fuel (start + chunk) end c1
          (range-Follows p c kind start chunk o n site seed f) in
    ap (λ (x : Context). if ltb start end then x else c) rest

-- When the storage selects the sampled backend, and asks for the skip, the probes and the reports
-- that a policy fixes, an access under the policy leaves the same context as one with the options
-- of the storage.
pub policy_record_access_at-record_access_at :
    (p : SampledWatchpointPolicy) (c : Context) (ptr byte_count : ℕ) (kind : AccessKind)
    (lds_byte_offset : ℕ) (site : SiteId)
    → Follows p c.storage
    → c.storage.backend ≡ backend_kind_value sampled_watchpoint
    → policy_record_access_at sampled_watchpoint p c ptr byte_count kind lds_byte_offset site
      ≡ record_access_at c ptr byte_count kind lds_byte_offset site
unfolding policy_record_access_at record_access_at policy_record_access
    record_sampled_watchpoint_access
policy_record_access_at-record_access_at p c ptr byte_count kind lds_byte_offset site f backend =
    let start = lds_byte_offset >>> granule_shift in
    let end = (last_byte_offset lds_byte_offset byte_count >>> granule_shift) + 1 in
    let seed = sampled_selection_seed c site in
    simp
      (
        backend,
        should_publish_same p c seed f,
        chunks_same p kind lds_byte_offset byte_count site seed (end - start) start end c f,
      )
      refl
