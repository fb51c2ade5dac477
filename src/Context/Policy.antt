-- ===== src/Context/Policy.antt =====
-- The overloads of include/hip_moi/context.hpp on a `sampled_watchpoint_policy`: the sampled backend
-- with its options fixed at compile time. The delay after a publication changes no state.
pub mod Options
use hip_moi.Prelude.{
  ℕ, ◌+◌, ◌-◌, min, Bool, true, false, ◌&&◌, ◌||◌, not, ltb, ◌==◌, if◌then◌else◌, some, is_pos,
  u32_of_int, get_or, set, ◌%◌, sub32, ◌>>>◌, bit_and,
}
use hip_moi.Common.Kinds.{
  SiteId, AccessKind, BackendKind, exact_shadow, sampled_watchpoint, SampledWatchpointPolicy,
}
use hip_moi.Shadow.Sampled.{
  SampledWatchpointEntry, decode_sampled_watchpoint_entry, granule_shift, max_start,
}
use hip_moi.Context.Storage.{Storage, Context}
use hip_moi.Context.Subgroups.{subgroup_epoch, lane_in_subgroup, is_some}
use hip_moi.Context.Diagnostics.{emit_shadow_metadata_full}
use hip_moi.Context.Exact.{words_of, last_byte_offset, record_exact_shadow_access}
use hip_moi.Context.Sampling.{
  sampled_selection_seed, sampled_watchpoint_slot, sampled_probe_step, map_sampled_index,
}
use hip_moi.Context.Sampled.{compare_watchpoint, scan_probes, watchpoint_word, each_chunk}

-- Is the site's seed one that the policy samples?
unfoldable pub policy_samples : SampledWatchpointPolicy → ℕ → Bool
policy_samples p selection_seed =
    if ltb 1 p.sample_skip
    then if bit_and p.sample_skip (sub32 p.sample_skip 1) == 0
      then bit_and selection_seed (sub32 p.sample_skip 1) == 0
      else selection_seed % p.sample_skip == 0
    else true

-- `sampled_should_publish<SampledPolicy>`
unfoldable pub policy_should_publish : SampledWatchpointPolicy → Context → ℕ → Bool
unfolding policy_samples
policy_should_publish p c selection_seed =
    let subgroup_threads : ℕ =
      if is_pos c.cfg.threads_per_subgroup then u32_of_int c.cfg.threads_per_subgroup else 1 in
    if policy_samples p selection_seed
    then lane_in_subgroup c == map_sampled_index (selection_seed >>> 16) subgroup_threads
    else false

-- `scan_sampled_watchpoint_conflicts<SampledPolicy>`
unfoldable pub policy_scan_conflicts :
    SampledWatchpointPolicy
    → SampledWatchpointEntry
    → ℕ
    → ℕ
    → ℕ
    → ℕ
    → SiteId
    → ℕ
    → Storage
    → Storage
policy_scan_conflicts p current slot start_cell lds_byte_offset byte_count site selection_seed s =
    let capacity = u32_of_int s.sampled_watchpoint_capacity in
    let probes : ℕ = if p.probe_count == 0 then capacity else p.probe_count in
    scan_probes current slot lds_byte_offset byte_count site
      (sampled_probe_step s selection_seed start_cell) (min probes capacity) 0 s

-- `record_sampled_watchpoint_range<SampledPolicy>`
unfoldable pub policy_record_range :
    SampledWatchpointPolicy → Context → AccessKind → ℕ → ℕ → ℕ → ℕ → SiteId → ℕ → Context
unfolding policy_scan_conflicts
policy_record_range p c kind start_cell cell_count lds_byte_offset byte_count site selection_seed =
    let s = c.storage in
    let packed = watchpoint_word c kind start_cell cell_count in
    let slot = sampled_watchpoint_slot s start_cell (subgroup_epoch c) in
    let current = decode_sampled_watchpoint_entry packed in
    let words = words_of s.sampled_watchpoints in
    let s' = record s { sampled_watchpoints = some (set words slot packed) } in
    let checked =
      policy_scan_conflicts p current slot start_cell lds_byte_offset byte_count site selection_seed
        (compare_watchpoint current lds_byte_offset byte_count site (get_or words slot 0) s') in
    record c { storage = if p.report_conflicts then checked else s' }

-- `record_sampled_watchpoint_access<SampledPolicy>`
unfoldable pub policy_record_access :
    SampledWatchpointPolicy → Context → ℕ → ℕ → AccessKind → ℕ → SiteId → Context
policy_record_access p c ptr byte_count kind lds_byte_offset site =
    let s = c.storage in
    let selection_seed = sampled_selection_seed c site in
    let start_cell = lds_byte_offset >>> granule_shift in
    let end_cell = (last_byte_offset lds_byte_offset byte_count >>> granule_shift) + 1 in
    let full = emit_shadow_metadata_full c ptr byte_count lds_byte_offset site in
    if is_some s.sampled_watchpoints && is_pos s.sampled_watchpoint_capacity
    then if policy_should_publish p c selection_seed
      then if ltb max_start start_cell || ltb (max_start + 1) end_cell
        then full
        else each_chunk
            (λ start count c'.
              policy_record_range p c' kind start count lds_byte_offset byte_count site
                selection_seed)
            (end_cell - start_cell) start_cell end_cell c
      else c
    else full

-- `record_access_at<Backend, SampledPolicy>`
unfoldable pub policy_record_access_at :
    BackendKind → SampledWatchpointPolicy → Context → ℕ → ℕ → AccessKind → ℕ → SiteId → Context
policy_record_access_at backend p c ptr byte_count kind lds_byte_offset site =
    if byte_count == 0 then c else elim backend [
      | sampled_watchpoint ↦ policy_record_access p c ptr byte_count kind lds_byte_offset site
      | exact_shadow ↦ record_exact_shadow_access c ptr byte_count kind lds_byte_offset site
    ]

-- `memory` holds the values of type `T` in the LDS; `size` is `sizeof(T)`.
module _ {T : Type 0} (size : ℕ) (memory : ℕ → T) where
  unfoldable pub policy_lds_load_at :
      BackendKind → SampledWatchpointPolicy → Context → ℕ → ℕ → SiteId → T × Context
  policy_lds_load_at backend p c ptr lds_byte_offset site = (
    memory ptr,
    policy_record_access_at backend p c ptr size AccessKind.load lds_byte_offset site,
  )

  unfoldable pub policy_lds_store_at :
      BackendKind → SampledWatchpointPolicy → Context → ℕ → T → ℕ → SiteId → (ℕ → T) × Context
  policy_lds_store_at backend p c ptr value lds_byte_offset site = (
    λ a. if a == ptr then value else memory a,
    policy_record_access_at backend p c ptr size AccessKind.store lds_byte_offset site,
  )
