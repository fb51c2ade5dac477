-- ===== src/Context/Sampled.antt =====
-- The sampled watchpoint backend of include/hip_moi/context.hpp, with the options read from the
-- storage. The delay after a publication changes no state.
pub mod Chunks
pub mod Reports
use hip_moi.Prelude.{
  ℕ, zero, suc, ◌+◌, ◌-◌, ◌*◌, ◌^◌, min, Bool, true, false, ◌&&◌, ◌||◌, not, leb, ltb, ◌==◌,
  if◌then◌else◌, Option, none, some, List, [], is_pos, u32_of_int, get_or, set, u32, u64, sub64,
  shl32, ◌>>>◌,
}
use hip_moi.Common.Kinds.{SiteId, AccessKind, diagnostic_kind_value, access_conflict}
use hip_moi.Shadow.Kinds.{shadow_kind_from_access_kind}
use hip_moi.Shadow.Sampled.{
  SampledWatchpointEntry, pack_sampled_watchpoint_entry, decode_sampled_watchpoint_entry,
  sampled_watchpoints_conflict, granule_shift, max_start, max_count,
}
use hip_moi.Context.Storage.{Diagnostic, Storage, Context}
use hip_moi.Context.Subgroups.{subgroup_id, subgroup_epoch, is_some}
use hip_moi.Context.Diagnostics.{emit_diagnostic, emit_shadow_metadata_full}
use hip_moi.Context.Acquires.{current_access_acquired_prior_epoch}
use hip_moi.Context.Exact.{words_of, last_byte_offset}
use hip_moi.Context.Sampling.{
  sampled_selection_seed, sampled_should_publish, sampled_watchpoint_slot, sampled_probe_step,
  map_sampled_index,
}

abbrev pub watchpoint_conflict :
    SampledWatchpointEntry → SampledWatchpointEntry → ℕ → ℕ → SiteId → Diagnostic
watchpoint_conflict prior current current_lds_offset current_byte_count site = record {
  kind = diagnostic_kind_value access_conflict;
  epoch = current.epoch;
  first_subgroup_id = prior.owner_id;
  second_subgroup_id = current.owner_id;
  first_addr = shl32 prior.start_cell granule_shift;
  second_addr = current_lds_offset;
  first_size = shl32 prior.cell_count granule_shift;
  second_size = current_byte_count;
  first_site_id = 0;
  second_site_id = site.value;
  expected_thread_count = 0;
  observed_thread_count = 0;
}

unfoldable pub emit_sampled_watchpoint_conflict :
    Storage → SampledWatchpointEntry → SampledWatchpointEntry → ℕ → ℕ → SiteId → Storage
emit_sampled_watchpoint_conflict s prior current current_lds_offset current_byte_count site =
    emit_diagnostic s (watchpoint_conflict prior current current_lds_offset current_byte_count site)

-- Compare with one prior word, and report a conflict that no token suppresses.
unfoldable pub compare_watchpoint : SampledWatchpointEntry → ℕ → ℕ → SiteId → ℕ → Storage → Storage
unfolding emit_sampled_watchpoint_conflict
compare_watchpoint current lds_byte_offset byte_count site prior_value s =
    let prior = decode_sampled_watchpoint_entry prior_value in
    if sampled_watchpoints_conflict current prior
      && not (current_access_acquired_prior_epoch s prior.owner_id prior.epoch current.owner_id)
    then emit_sampled_watchpoint_conflict s prior current lds_byte_offset byte_count site
    else s

-- The loop of `scan_sampled_watchpoint_conflicts`, with `left` probes to go.
unfoldable pub scan_probes :
    SampledWatchpointEntry → ℕ → ℕ → ℕ → SiteId → ℕ → ℕ → ℕ → Storage → Storage
unfolding compare_watchpoint
scan_probes current slot lds_byte_offset byte_count site step zero probe s = s
scan_probes current slot lds_byte_offset byte_count site step (suc left) probe s =
    let index =
      map_sampled_index (u32 (slot + u32 (probe * step)))
        (u32_of_int s.sampled_watchpoint_capacity) in
    scan_probes current slot lds_byte_offset byte_count site step left (probe + 1) (
      compare_watchpoint current lds_byte_offset byte_count site
        (get_or (words_of s.sampled_watchpoints) index 0) s)

unfoldable pub scan_sampled_watchpoint_conflicts :
    SampledWatchpointEntry → ℕ → ℕ → ℕ → ℕ → SiteId → ℕ → Storage → Storage
unfolding scan_probes
scan_sampled_watchpoint_conflicts current slot start_cell lds_byte_offset byte_count site
      selection_seed s =
    let capacity = u32_of_int s.sampled_watchpoint_capacity in
    let probes : ℕ =
      if s.sampled_watchpoint_probe_count == 0
      then capacity
      else s.sampled_watchpoint_probe_count in
    scan_probes current slot lds_byte_offset byte_count site
      (sampled_probe_step s selection_seed start_cell) (min probes capacity) 0 s

unfoldable pub watchpoint_word : Context → AccessKind → ℕ → ℕ → ℕ
watchpoint_word c kind start_cell cell_count =
    pack_sampled_watchpoint_entry (shadow_kind_from_access_kind kind) (subgroup_id c)
      (subgroup_epoch c) (u32 c.storage.generation) start_cell cell_count false

unfoldable pub record_sampled_watchpoint_range :
    Context → AccessKind → ℕ → ℕ → ℕ → ℕ → SiteId → ℕ → Context
unfolding watchpoint_word compare_watchpoint scan_sampled_watchpoint_conflicts
record_sampled_watchpoint_range c kind start_cell cell_count lds_byte_offset byte_count site
      selection_seed =
    let s = c.storage in
    let packed = watchpoint_word c kind start_cell cell_count in
    let slot = sampled_watchpoint_slot s start_cell (subgroup_epoch c) in
    let current = decode_sampled_watchpoint_entry packed in
    let words = words_of s.sampled_watchpoints in
    let s' = record s { sampled_watchpoints = some (set words slot packed) } in
    let checked =
      scan_sampled_watchpoint_conflicts current slot start_cell lds_byte_offset byte_count site
        selection_seed
        (compare_watchpoint current lds_byte_offset byte_count site (get_or words slot 0) s') in
    record c { storage = if not (s.sampled_watchpoint_report_conflicts == 0) then checked else s' }

-- The size of the next chunk.
abbrev pub chunk_of : ℕ → ℕ
chunk_of remaining = if ltb max_count remaining then max_count else remaining

-- `while(start_cell < end_cell)` over the chunks, on fuel; `step` records one chunk.
unfoldable pub each_chunk {ℓ} : {S : Type ℓ} → (ℕ → ℕ → S → S) → ℕ → ℕ → ℕ → S → S
each_chunk step zero start_cell end_cell s = s
each_chunk step (suc fuel) start_cell end_cell s =
    let chunk = chunk_of (end_cell - start_cell) in
    let next = each_chunk step fuel (start_cell + chunk) end_cell (step start_cell chunk s) in
    if ltb start_cell end_cell then next else s

unfoldable pub record_sampled_watchpoint_access :
    Context → ℕ → ℕ → AccessKind → ℕ → SiteId → Context
record_sampled_watchpoint_access c ptr byte_count kind lds_byte_offset site =
    let s = c.storage in
    let selection_seed = sampled_selection_seed c site in
    let start_cell = lds_byte_offset >>> granule_shift in
    let end_cell = (last_byte_offset lds_byte_offset byte_count >>> granule_shift) + 1 in
    let full = emit_shadow_metadata_full c ptr byte_count lds_byte_offset site in
    if is_some s.sampled_watchpoints && is_pos s.sampled_watchpoint_capacity
    then if sampled_should_publish c selection_seed
      then if ltb max_start start_cell || ltb (max_start + 1) end_cell
        then full
        else each_chunk
            (λ start count c'.
              record_sampled_watchpoint_range c' kind start count lds_byte_offset byte_count site
                selection_seed)
            (end_cell - start_cell) start_cell end_cell c
      else c
    else full
