-- ===== src/Tests/Watchpoints.antt =====
-- An example for the sampled backend: every slot holds a store of the first thread.
use hip_moi.Prelude.{ℕ, ◌<◌, ◌≡◌, refl, true, some, List, [], ◌∷◌, get_or, arith}
use hip_moi.Common.Kinds.{AccessKind}
use hip_moi.Common.Hash.{mix32}
use hip_moi.Shadow.Kinds.{shadow_kind_from_access_kind, shadow_kind_is_empty, shadow_kind_conflicts}
use hip_moi.Shadow.Sampled.{
  decode_sampled_watchpoint_entry, pack_sampled_watchpoint_entry, encode_sampled_cell_count,
  range_end_cell, cell_ranges_overlap, sampled_watchpoints_conflict,
}
use hip_moi.Context.Storage.{Diagnostic, Storage, Context}
use hip_moi.Context.Subgroups.{
  subgroup_id, subgroup_epoch, thread_id, configured_subgroup_count, current_epoch, epoch_at,
}
use hip_moi.Context.Diagnostics.Counting.{Emitted}
use hip_moi.Context.Acquires.{current_access_acquired_prior_epoch, token_index}
use hip_moi.Context.Exact.{words_of}
use hip_moi.Context.Sampling.{sampled_watchpoint_slot, map_sampled_index}
use hip_moi.Context.Sampled.{watchpoint_word, record_sampled_watchpoint_range}
use hip_moi.Context.Sampled.Reports.{is_loud, displaced_reported}
use hip_moi.Tests.State.{buffer, launched, context_at, site_at}

abbrev published : ℕ
published = watchpoint_word (context_at 0 launched) AccessKind.store 0 2

abbrev watched : Storage
watched = record launched {
  sampled_watchpoints = some (published ∷ published ∷ published ∷ published ∷ []);
}

abbrev thread1 : Context
thread1 = context_at 1 watched

none-Emitted : Emitted watched buffer 0
none-Emitted = record { there = refl; room = refl; counted = refl }

loud :
    is_loud watched
      (decode_sampled_watchpoint_entry (watchpoint_word thread1 AccessKind.load 1 1))
      (get_or
        (words_of watched.sampled_watchpoints)
        (sampled_watchpoint_slot watched 1 (subgroup_epoch thread1))
        0)
    ≡ true
unfolding watchpoint_word decode_sampled_watchpoint_entry pack_sampled_watchpoint_entry
    encode_sampled_cell_count range_end_cell cell_ranges_overlap sampled_watchpoints_conflict
    shadow_kind_from_access_kind shadow_kind_is_empty shadow_kind_conflicts subgroup_id thread_id
    configured_subgroup_count current_epoch epoch_at current_access_acquired_prior_epoch token_index
    sampled_watchpoint_slot map_sampled_index mix32 get_or
loud = refl

displaced_reported_example :
    (buffer' : List Diagnostic) × (n' : ℕ) × Emitted
      (record_sampled_watchpoint_range thread1 AccessKind.load 1 1 4 4 (site_at 9) 77).storage
      buffer'
      n'
    × (0 < n')
displaced_reported_example =
    displaced_reported thread1 AccessKind.load 1 1 4 4 (site_at 9) 77 buffer 0 none-Emitted
      (omega arith) refl loud
