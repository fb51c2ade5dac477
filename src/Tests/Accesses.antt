-- ===== src/Tests/Accesses.antt =====
-- Examples for the exact backend and the barriers, on a small workgroup.
use hip_moi.Prelude.{
  ℕ, zero, ◌+◌, ◌-◌, suc, ◌==◌, Bool, true, ◌%◌, ◌^◌, ◌≡◌, refl, ◌≢◌, inl, inr, ◌<◌, false, some,
  List, [], ◌∷◌, pos, arith, get_or, set, leb, ltb, ◌&&◌, ◌++◌, u32, u32_of_int, if◌then◌else◌,
}
use hip_moi.Common.Kinds.{AccessKind, diagnostic_kind_value, barrier_divergence}
use hip_moi.Shadow.Exact.{
  pack_exact_shadow_entry, decode_exact_shadow_entry, exact_shadow_entries_conflict,
}
use hip_moi.Shadow.Kinds.{shadow_kind_from_access_kind, shadow_kind_is_empty}
use hip_moi.Shadow.Exact.Conflict.{Clash}
use hip_moi.Context.Storage.{Diagnostic, Storage, Context}
use hip_moi.Context.Subgroups.{
  subgroup_id, thread_id, configured_subgroup_count, current_epoch, epoch_at,
}
use hip_moi.Context.Diagnostics.{emit_diagnostic}
use hip_moi.Context.Diagnostics.Counting.{Emitted, fits, emit-Emitted}
use hip_moi.Context.Acquires.{current_access_acquired_prior_epoch, token_index}
use hip_moi.Context.Exact.{reports, record_cell, record_cells, record_exact_shadow_access}
use hip_moi.Context.Exact.Cells.{word, word-record_cells, reported, count-record_cells}
use hip_moi.Context.Access.Detection.{
  HasCells, Within, access_of, after-HasCells, ordered_accesses_quiet,
}
use hip_moi.Context.Access.Racing.{racing_accesses_reported}
use hip_moi.Context.Barriers.{barrier, simulated_release, expected_threads}
use hip_moi.Context.Barriers.Epochs.{HasStates, barrier-current_epoch, barrier-other_threads}
use hip_moi.Context.Barriers.Simulated.{
  arrivals, participants, simulated_release-current_epoch, simulated_release-divergence,
}
use hip_moi.Context.Sampled.{each_chunk}
use hip_moi.Context.Sampled.Chunks.{cells, visit, each_chunk-cells}
use hip_moi.Tests.State.{blank, buffer, states, launched, context_at, site_at}

none-Emitted : Emitted launched buffer 0
none-Emitted = record { there = refl; room = refl; counted = refl }

emit-Emitted_example :
    Emitted
      (emit_diagnostic launched blank)
      (if fits 0 (pos 2) then set buffer 0 blank else buffer)
      1
emit-Emitted_example = emit-Emitted launched blank buffer 0 (omega arith) none-Emitted

word-record_cells_example :
    word (record_cells 77 8 4 2 1 launched) 2
    ≡ (if leb 1 2 && ltb 2 (1 + 2) then 77 else word launched 2)
word-record_cells_example = word-record_cells 77 8 4 2 1 launched 2 (omega arith)

count-record_cells_example :
    (buffer' : List Diagnostic) × Emitted
      (record_cells 77 8 4 2 1 launched)
      buffer'
      (0 + reported 77 8 4 launched 2 1)
count-record_cells_example =
    count-record_cells 77 8 4 2 1 launched buffer 0 (omega arith) (omega arith) none-Emitted

pub four_cells : HasCells launched 4
four_cells = record {
  words = 0 ∷ 0 ∷ 0 ∷ 0 ∷ [];
  there = refl;
  sized = refl;
  capacity = refl;
  positive = omega arith;
  small = omega arith;
}

pub first_bytes : Within 4 0 8
first_bytes = record { some_bytes = omega arith; inside = omega arith }

pub second_bytes : Within 4 6 4
second_bytes = record { some_bytes = omega arith; inside = omega arith }

abbrev pub thread0 : Context
thread0 = context_at 0 launched

abbrev pub thread1 : Context
thread1 = context_at 1 launched

abbrev pub after_first : Storage
after_first = (record_exact_shadow_access thread0 1000 8 AccessKind.store 0 (site_at 21)).storage

abbrev pub thread1_next : Context
thread1_next = context_at 1 after_first

pub first_quiet : Emitted after_first buffer 0
unfolding record_exact_shadow_access record_cells record_cell reports exact_shadow_entries_conflict
    decode_exact_shadow_entry pack_exact_shadow_entry shadow_kind_from_access_kind
    shadow_kind_is_empty get_or set subgroup_id thread_id configured_subgroup_count current_epoch
    epoch_at
first_quiet = record { there = refl; room = refl; counted = refl }

pub clashing :
    Clash
      (access_of thread1_next AccessKind.load (site_at 22))
      (access_of thread0 AccessKind.store (site_at 21))
unfolding record_exact_shadow_access record_cells record_cell reports exact_shadow_entries_conflict
    decode_exact_shadow_entry pack_exact_shadow_entry shadow_kind_from_access_kind
    shadow_kind_is_empty get_or set subgroup_id thread_id configured_subgroup_count current_epoch
    epoch_at
clashing = record {
  a_write = inr refl;
  epochs = refl;
  generations = refl;
  subgroups = λ e. absurd (omega arith);
}

pub no_token :
    current_access_acquired_prior_epoch after_first
      (subgroup_id thread0 % 2 ^ 10)
      (5 % 2 ^ 10)
      (subgroup_id thread1_next % 2 ^ 10)
    ≡ false
unfolding record_exact_shadow_access record_cells record_cell reports exact_shadow_entries_conflict
    decode_exact_shadow_entry pack_exact_shadow_entry shadow_kind_from_access_kind
    shadow_kind_is_empty get_or set subgroup_id thread_id configured_subgroup_count current_epoch
    epoch_at current_access_acquired_prior_epoch token_index
no_token = refl

pub cells_kept : HasCells after_first 4
cells_kept =
    after-HasCells thread0 thread1 1000 8 0 1006 4 6 4 AccessKind.store AccessKind.load (site_at 21)
      (site_at 22) four_cells first_bytes second_bytes

racing_accesses_reported_example :
    (buffer' : List Diagnostic) × (m : ℕ) × (0 < m)
    × Emitted
        (record_exact_shadow_access thread1_next 1006 4 AccessKind.load 6 (site_at 22)).storage
        buffer'
        m
unfolding current_epoch epoch_at get_or subgroup_id thread_id configured_subgroup_count
racing_accesses_reported_example =
    racing_accesses_reported thread0 thread1 1000 8 0 1006 4 6 4 AccessKind.store AccessKind.load
      (site_at 21) (site_at 22) four_cells first_bytes second_bytes after_first cells_kept buffer 0
      7 first_quiet (omega arith) (omega arith) (omega arith) (omega arith) (omega arith) refl
      clashing no_token

-- Two loads do not clash.
both_load :
    ¬ Clash
      (access_of
        (context_at 1
          (record_exact_shadow_access thread0 1000 8 AccessKind.load 0 (site_at 21)).storage)
        AccessKind.load
        (site_at 22))
      (access_of thread0 AccessKind.load (site_at 21))
both_load c = elim c.a_write [ inl e ↦ absurd (ground arith) | inr e ↦ absurd (ground arith) ]

cleared : (j : ℕ) → word launched j ≡ 0
unfolding get_or
cleared zero = refl
cleared (suc zero) = refl
cleared (suc (suc zero)) = refl
cleared (suc (suc (suc zero))) = refl
cleared (suc (suc (suc (suc j)))) = refl

ordered_accesses_quiet_example :
    (buffer' : List Diagnostic) × Emitted
      (record_exact_shadow_access
        (context_at 1
          (record_exact_shadow_access thread0 1000 8 AccessKind.load 0 (site_at 21)).storage)
        1006
        4
        AccessKind.load
        6
        (site_at 22)).storage
      buffer'
      0
ordered_accesses_quiet_example =
    ordered_accesses_quiet thread0 thread1 1000 8 0 1006 4 6 4 AccessKind.load AccessKind.load
      (site_at 21) (site_at 22) four_cells first_bytes second_bytes buffer 0 none-Emitted
      (omega arith) cleared (inl both_load)

two_states : HasStates launched 2
two_states = record {
  states = states;
  there = refl;
  long = refl;
  sized = refl;
  positive = omega arith;
  small = omega arith;
}

first_thread : thread_id thread0.thread ≡ 0
unfolding thread_id
first_thread = refl

second_thread : thread_id thread1.thread ≢ 0
unfolding thread_id
second_thread = λ e. absurd (omega arith)

barrier-current_epoch_example : current_epoch (barrier thread0 (site_at 3)).storage 1 ≡ (
    if ltb 1 (configured_subgroup_count thread0.cfg)
    then u32 (current_epoch launched 1 + 1)
    else current_epoch launched 1)
barrier-current_epoch_example =
    barrier-current_epoch thread0 (site_at 3) 2 1 two_states first_thread (omega arith)

barrier-other_threads_example : barrier thread1 (site_at 3) ≡ thread1
barrier-other_threads_example = barrier-other_threads thread1 (site_at 3) second_thread

abbrev both_threads : List (Bool × Context)
both_threads = (true, thread1) ∷ (true, thread0) ∷ []

simulated_release-current_epoch_example :
    (let c' =
        simulated_release
          (site_at 3)
          (record thread0 { storage = arrivals both_threads launched }) in
      (c'.storage.simulated_barrier_arrival_count ≡ some (pos 0))
      × (current_epoch c'.storage 1 ≡ (
          if (participants both_threads == 2) && ltb 1 (configured_subgroup_count thread0.cfg)
          then u32 (current_epoch launched 1 + 1)
          else current_epoch launched 1)))
unfolding participants expected_threads
simulated_release-current_epoch_example =
    simulated_release-current_epoch both_threads (site_at 3) thread0 launched 2 1 2 two_states refl
      (omega arith) first_thread refl (omega arith)

simulated_release-divergence_example :
    (let c' = simulated_release (site_at 3) thread0 in
      (c'.storage.subgroup_states ≡ some states)
      × (c'.storage.simulated_barrier_arrival_count ≡ some (pos 0))
      × ((d : Diagnostic) × (d.kind ≡ diagnostic_kind_value barrier_divergence)
          × (d.expected_thread_count ≡ u32_of_int (expected_threads thread0))
          × (d.observed_thread_count ≡ u32_of_int (pos 0))
          × Emitted c'.storage (if fits 0 (pos 2) then set buffer 0 d else buffer) 1))
unfolding expected_threads thread_id
simulated_release-divergence_example =
    simulated_release-divergence (site_at 3) thread0 (pos 0) buffer 0 refl refl refl none-Emitted
      (omega arith)

each_chunk-cells_example : each_chunk visit 40 3 43 [] ≡ [] ++ cells 3 (43 - 3)
each_chunk-cells_example = each_chunk-cells 40 3 43 [] (omega arith)
