-- ===== src/Context/Sampled/Reports.antt =====
-- What publishing a range of cells reports: at least the conflict with the entry that it displaces.
use native.Mathlib.Nat.{le_refl}
use hip_moi.Prelude.{
  ℕ, zero, suc, ◌+◌, ◌*◌, ◌^◌, ◌≤◌, ◌<◌, min, ◌≡◌, inl, inr, refl, ap, Bool, true, false, ◌&&◌, not,
  ◌==◌, some, List, if◌then◌else◌, u32, u32_of_int, get_or, set, Bool-cases, arith,
}
use hip_moi.Common.Kinds.{SiteId, AccessKind}
use hip_moi.Shadow.Sampled.{
  SampledWatchpointEntry, decode_sampled_watchpoint_entry, sampled_watchpoints_conflict,
}
use hip_moi.Context.Storage.{Diagnostic, Storage, Context}
use hip_moi.Context.Subgroups.{subgroup_epoch}
use hip_moi.Context.Diagnostics.Counting.{Emitted, emit-Emitted, emit_frame, fits}
use hip_moi.Context.Acquires.{current_access_acquired_prior_epoch}
use hip_moi.Context.Exact.{words_of}
use hip_moi.Context.Sampling.{map_sampled_index, sampled_probe_step, sampled_watchpoint_slot}
use hip_moi.Context.Sampled.{
  watchpoint_conflict, emit_sampled_watchpoint_conflict, compare_watchpoint, scan_probes,
  scan_sampled_watchpoint_conflicts, watchpoint_word, record_sampled_watchpoint_range,
}

-- Is the prior entry one to report against `current`?
abbrev pub is_loud : Storage → SampledWatchpointEntry → ℕ → Bool
is_loud s current prior_value =
    let prior = decode_sampled_watchpoint_entry prior_value in
    sampled_watchpoints_conflict current prior
    && not (current_access_acquired_prior_epoch s prior.owner_id prior.epoch current.owner_id)

-- Some number of diagnostics from `low` to `high` was emitted.
abbrev pub Between : Storage → ℕ → ℕ → Type 0
Between s low high =
    (buffer : List Diagnostic) × (n : ℕ) × Emitted s buffer n × (low ≤ n) × (n ≤ high)

module _ (current : SampledWatchpointEntry) (lds_byte_offset byte_count : ℕ) (site : SiteId) where
  compare_loud :
      (prior_value : ℕ) (s : Storage) (buffer : List Diagnostic) (n : ℕ)
      → Emitted s buffer n
      → n + 1 < 2 ^ 31
      → is_loud s current prior_value ≡ true
      → Between
          (compare_watchpoint current lds_byte_offset byte_count site prior_value s)
          (n + 1)
          (n + 1)
  unfolding compare_watchpoint emit_sampled_watchpoint_conflict
  compare_loud prior_value s buffer n e small loud =
      let d =
        watchpoint_conflict (decode_sampled_watchpoint_entry prior_value) current lds_byte_offset
          byte_count site in
      let buffer' = if fits n s.diagnostic_capacity then set buffer n d else buffer in
      rw loud (buffer', n + 1, emit-Emitted s d buffer n small e, le_refl (n + 1), le_refl (n + 1))

  compare-Between :
      (prior_value : ℕ) (s : Storage) (low high : ℕ)
      → Between s low high
      → high + 1 < 2 ^ 31
      → Between
          (compare_watchpoint current lds_byte_offset byte_count site prior_value s)
          low
          (high + 1)
  unfolding compare_watchpoint
  compare-Between prior_value s low high (buffer, n, e, lo, hi) small =
      elim (Bool-cases (is_loud s current prior_value)) [
        | inl loud ↦
            let (buffer', n', e', lo', hi') =
              compare_loud prior_value s buffer n e (omega arith) loud in
            (buffer', n', e', omega arith, omega arith)
        | inr quiet ↦ rw quiet (buffer, n, e, lo, omega arith)
      ]

  compare_capacity :
      (prior_value : ℕ) (s : Storage)
      → (compare_watchpoint current lds_byte_offset byte_count site prior_value
          s).sampled_watchpoint_capacity
        ≡ s.sampled_watchpoint_capacity
  unfolding compare_watchpoint emit_sampled_watchpoint_conflict
  compare_capacity prior_value s = elim (Bool-cases (is_loud s current prior_value)) [
    | inr quiet ↦ rw quiet refl
    | inl loud ↦
        let d =
          watchpoint_conflict (decode_sampled_watchpoint_entry prior_value) current lds_byte_offset
            byte_count site in
        rw loud (ap (λ (t : Storage). t.sampled_watchpoint_capacity) (emit_frame s d))
  ]

  scan-Between :
      (slot step left probe : ℕ) (s : Storage) (low high : ℕ)
      → Between s low high
      → high + left < 2 ^ 31
      → Between
          (scan_probes current slot lds_byte_offset byte_count site step left probe s)
          low
          (high + left)
  unfolding scan_probes
  scan-Between slot step zero probe s low high (buffer, n, e, lo, hi) small =
      (buffer, n, e, lo, omega arith)
  scan-Between slot step (suc left) probe s low high b small =
      let index =
        map_sampled_index (u32 (slot + u32 (probe * step)))
          (u32_of_int s.sampled_watchpoint_capacity) in
      let word = get_or (words_of s.sampled_watchpoints) index 0 in
      let (buffer, n, e, lo, hi) =
        scan-Between slot step left (probe + 1)
          (compare_watchpoint current lds_byte_offset byte_count site word s) low (high + 1)
          (compare-Between word s low high b (omega arith)) (omega arith) in
      (buffer, n, e, lo, omega arith)

-- When the storage asks for reports and the entry in the slot that a publication displaces
-- conflicts with it, with no token for that entry, publishing a range emits at least one diagnostic
-- (with fewer than 2 ^ 31 in all), whatever the further probes find.
pub displaced_reported :
    (c : Context) (kind : AccessKind) (start_cell cell_count lds_byte_offset byte_count : ℕ)
    (site : SiteId) (selection_seed : ℕ) (buffer : List Diagnostic) (n : ℕ)
    → let slot = sampled_watchpoint_slot c.storage start_cell (subgroup_epoch c) in
      let current =
        decode_sampled_watchpoint_entry (watchpoint_word c kind start_cell cell_count) in
      Emitted c.storage buffer n
      → n + 1 + u32_of_int c.storage.sampled_watchpoint_capacity < 2 ^ 31
      → (c.storage.sampled_watchpoint_report_conflicts == 0) ≡ false
      → is_loud c.storage current (get_or (words_of c.storage.sampled_watchpoints) slot 0) ≡ true
      → (buffer' : List Diagnostic) × (n' : ℕ) × Emitted
          (record_sampled_watchpoint_range c kind start_cell cell_count lds_byte_offset byte_count
            site selection_seed).storage
          buffer'
          n'
        × (n < n')
unfolding record_sampled_watchpoint_range scan_sampled_watchpoint_conflicts
    current_access_acquired_prior_epoch
displaced_reported c kind start_cell cell_count lds_byte_offset byte_count site selection_seed
      buffer n e small on loud =
    let s = c.storage in
    let slot = sampled_watchpoint_slot s start_cell (subgroup_epoch c) in
    let packed = watchpoint_word c kind start_cell cell_count in
    let current = decode_sampled_watchpoint_entry packed in
    let word = get_or (words_of s.sampled_watchpoints) slot 0 in
    let s' = record s {
      sampled_watchpoints = some (set (words_of s.sampled_watchpoints) slot packed);
    } in
    let kept : Emitted s' buffer n = record {
      there = e.there;
      room = e.room;
      counted = e.counted;
    } in
    let first =
      compare_loud current lds_byte_offset byte_count site word s' buffer n kept (omega arith)
        loud in
    let s1 = compare_watchpoint current lds_byte_offset byte_count site word s' in
    let capacity = u32_of_int s1.sampled_watchpoint_capacity in
    let same : capacity ≡ u32_of_int s.sampled_watchpoint_capacity =
      ap u32_of_int (compare_capacity current lds_byte_offset byte_count site word s') in
    let probes : ℕ =
      if s1.sampled_watchpoint_probe_count == 0
      then capacity
      else s1.sampled_watchpoint_probe_count in
    let (buffer', n', e', lo, _) =
      scan-Between current lds_byte_offset byte_count site slot
        (sampled_probe_step s1 selection_seed start_cell) (min probes capacity) 0 s1 (n + 1) (n + 1)
        first (omega (arith, same)) in
    let more : n < n' = omega (arith, lo) in rw on (buffer', n', e', more)
