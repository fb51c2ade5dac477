-- ===== src/Context/Barriers.antt =====
-- `init_workgroup`, the barriers and the epoch counters of include/hip_moi/context.hpp. A
-- `__syncthreads` lets every thread of the workgroup reach it; here it is the boundary between one
-- function for what a thread does before it and one for what it does after it.
pub mod Epochs
pub mod Simulated
use hip_moi.Prelude.{
  ℕ, zero, suc, ◌+◌, ◌-◌, ◌*◌, ◌^◌, Bool, true, false, ◌&&◌, not, ltb, ◌==◌, if◌then◌else◌, none,
  some, List, [], ◌∷◌, ℤ, pos, negsuc, is_pos, u32_of_int, u32,
}
use mathlib.Core.Option
use hip_moi.Common.Kinds.{SiteId, SubgroupState}
use hip_moi.Context.Storage.{Storage, Context, int_suc}
use hip_moi.Context.Subgroups.{configured_subgroup_count, stored_subgroup_count, thread_id, is_some}
use hip_moi.Context.Diagnostics.{emit_subgroup_capacity_full, emit_barrier_divergence}

-- `for(i = 0; i < n; ++i) xs[i] = v`
unfoldable pub fill {ℓ} : {A : Type ℓ} → ℕ → A → List A → List A
fill zero v xs = xs
fill (suc n) v [] = []
fill (suc n) v (x ∷ xs) = v ∷ fill n v xs

-- `for(i = 0; i < n; ++i) ++xs[i].epoch`
unfoldable pub advance : ℕ → List SubgroupState → List SubgroupState
advance zero xs = xs
advance (suc n) [] = []
advance (suc n) (x ∷ xs) = record { epoch = u32 (x.epoch + 1) } ∷ advance n xs

-- The number of rounds of `for(int i = 0; i < x; ++i)`.
abbrev rounds : ℤ → ℕ
rounds (pos n) = n
rounds (negsuc n) = 0

-- `x * x`
abbrev square : ℤ → ℕ
square (pos n) = n * n
square (negsuc n) = suc n * suc n

unfoldable pub cleared_counters : Storage → Storage
unfolding fill
cleared_counters s = record s {
  diagnostic_count = Option.map (λ _. pos 0) s.diagnostic_count;
  simulated_barrier_arrival_count = Option.map (λ _. pos 0) s.simulated_barrier_arrival_count;
  subgroup_states =
      Option.map (fill (rounds s.subgroup_capacity) (record { epoch = 0 })) s.subgroup_states;
  acquired_subgroup_epoch_tokens =
      Option.map (fill (square s.subgroup_capacity) 0) s.acquired_subgroup_epoch_tokens;
}

unfoldable pub init_workgroup : Context → Context
unfolding cleared_counters
init_workgroup c =
    let c' = record c { storage = cleared_counters c.storage } in
    let room =
      if is_pos c.storage.subgroup_capacity then u32_of_int c.storage.subgroup_capacity else 0 in
    if thread_id c.thread == 0
    then if ltb room (configured_subgroup_count c.cfg) then emit_subgroup_capacity_full c' else c'
    else c

unfoldable pub close_current_epoch : Bool → Context → Context
unfolding advance
close_current_epoch advance_epochs c =
    if (thread_id c.thread == 0)
      && is_some c.storage.subgroup_states
      && is_pos c.storage.subgroup_capacity
      && advance_epochs
    then record c {
      storage = record (c.storage) {
        subgroup_states =
            Option.map (advance (stored_subgroup_count c.storage c.cfg)) c.storage.subgroup_states;
      };
    }
    else c

-- Both boundaries of `barrier` and of `close_epoch` enclose this one step of each thread.
unfoldable pub barrier : Context → SiteId → Context
unfolding close_current_epoch
barrier c site = close_current_epoch true c

unfoldable pub syncthreads : Context → Context
unfolding barrier
syncthreads c = barrier c (record { value = 0 })

unfoldable pub close_epoch : Context → Context
unfolding close_current_epoch
close_epoch c = close_current_epoch true c

unfoldable pub finish : Context → Context
unfolding close_epoch
finish c = close_epoch c

unfoldable pub error_count : Context → ℤ
error_count c = elim c.storage.diagnostic_count [ none ↦ pos 0 | some n ↦ n ]

unfoldable pub has_error : Context → Bool
unfolding error_count
has_error c = elim (error_count c) [ pos n ↦ not (n == 0) | negsuc n ↦ true ]

-- `simulate_syncthreads` up to its first `__syncthreads`
unfoldable pub simulated_arrival : Bool → Context → Context
simulated_arrival participates c =
    if participates
    then record c {
      storage = record (c.storage) {
        simulated_barrier_arrival_count =
            Option.map int_suc c.storage.simulated_barrier_arrival_count;
      };
    }
    else c

abbrev pub int_eq : ℤ → ℤ → Bool
int_eq (pos a) (pos b) = a == b
int_eq (negsuc a) (negsuc b) = a == b
int_eq _ _ = false

-- `static_cast<int>(x)` of a 32-bit unsigned number
abbrev pub int_of_u32 : ℕ → ℤ
int_of_u32 a = if ltb a (2 ^ 31) then pos a else negsuc (2 ^ 32 - 1 - a)

unfoldable pub expected_threads : Context → ℤ
expected_threads c =
    if is_pos c.cfg.thread_count
    then c.cfg.thread_count
    else int_of_u32 (u32 (c.thread.dim_x * c.thread.dim_y * c.thread.dim_z))

unfoldable pub reset_arrivals : Context → Context
reset_arrivals c = record c {
  storage = record (c.storage) {
    simulated_barrier_arrival_count =
        Option.map (λ _. pos 0) c.storage.simulated_barrier_arrival_count;
  };
}

-- `simulate_syncthreads` between its two `__syncthreads`
unfoldable pub simulated_release : SiteId → Context → Context
unfolding close_current_epoch reset_arrivals expected_threads
simulated_release site c = elim c.storage.simulated_barrier_arrival_count [
  | none ↦ c
  | some observed ↦
      if thread_id c.thread == 0
      then reset_arrivals (
          if int_eq observed (expected_threads c)
          then close_current_epoch true c
          else emit_barrier_divergence c (expected_threads c) observed site)
      else c
]
