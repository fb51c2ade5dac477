-- ===== src/Host/Device.antt =====
-- `host_context` of include/hip_moi/host_context.hpp: its members, construction, launches, the
-- report of diagnostics and destruction. The HIP runtime is a parameter, over a memory `M` of the
-- device; no part of what its calls do is assumed here.
pub mod Checks
pub mod Construction
pub mod Detected
pub mod Launch
pub mod Regions
use Prim.Native.String.{String}
use hip_moi.Prelude.{
  ℕ, ◌+◌, ◌*◌, ◌==◌, Bool, true, false, not, ◌&&◌, ◌||◌, if◌then◌else◌, Option, none, some, List,
  [], ◌∷◌, ◌++◌, ℤ, pos, negsuc, is_pos, is_zero, lt_int, u64, ◌>>=◌, ◌>>◌, guard,
}
use mathlib.Core.Option
use hip_moi.Common.Kinds.{BackendKind, backend_kind_value, SubgroupState}
use hip_moi.Context.Storage.{Diagnostic, AtomicObjectRecord, AtomicAddressCacheRecord, Storage}
use hip_moi.Host.{
  Capacities, size_of_int, acquired_subgroup_epoch_token_count, assign_layout_slices,
  next_generation,
}
use hip_moi.Host.Layout.{HostContextOptions, Stream, stderr, validate_options, compute_layout}
use hip_moi.Host.Reports.{
  Line, unconsumed_diagnostics, check_failed, Printed, report_hip_error, report_diagnostics,
}

-- `hipError_t`
pub data Status : Type 0 where
  success : Status
  failure : ℕ → Status

-- The calls of the HIP runtime: each returns its status and what it writes. A copy to the host is
-- one function for each type that the host reads.
pub record Runtime (M : Type 0) : Type 0 where
  pub malloc : ℕ → M → Status × ℕ × M
  pub memset : Option ℕ → ℕ → ℕ → M → Status × M
  pub free : ℕ → M → M
  pub device_synchronize : M → Status × M
  pub copy_int : Option ℕ → M → Status × ℤ
  pub copy_diagnostics : Option ℕ → ℕ → M → Status × List Diagnostic

-- The members that `assign_layout_slices` sets.
pub record Pointers : Type 0 where
  pub diagnostics : Option ℕ
  pub subgroup_states : Option ℕ
  pub diagnostic_count : Option ℕ
  pub simulated_barrier_arrival_count : Option ℕ
  pub atomic_objects : Option ℕ
  pub atomic_address_cache : Option ℕ
  pub acquired_subgroup_epoch_tokens : Option ℕ
  pub exact_shadow_entries : Option ℕ
  pub sampled_watchpoints : Option ℕ

abbrev pub null_pointers : Pointers
null_pointers = record {
  diagnostics = none;
  subgroup_states = none;
  diagnostic_count = none;
  simulated_barrier_arrival_count = none;
  atomic_objects = none;
  atomic_address_cache = none;
  acquired_subgroup_epoch_tokens = none;
  exact_shadow_entries = none;
  sampled_watchpoints = none;
}

pub record HostContext : Type 0 where
  pub options : HostContextOptions
  pub diagnostics_consumed : Bool
  pub destructor_reports : Bool
  pub destructor_aborts : Bool
  pub diagnostic_stream : Option Stream
  pub last_diagnostic_count : ℤ
  pub storage_bytes : ℕ
  pub layout_bytes : ℕ
  pub capacities : Capacities
  pub generation : ℕ
  pub device_storage : Option ℕ
  pub pointers : Pointers

-- The nine slices, from the address of the allocation on, in the order of their assignment.
unfoldable pub pointers_at : ℕ → List (Option ℕ) → Pointers
pointers_at base
      (diagnostics ∷ states ∷ count ∷ arrivals ∷ objects ∷ cache ∷ tokens ∷ exact ∷ sampled ∷ []) =
    let at = λ (start : Option ℕ). Option.map (λ offset. base + offset) start in
    record {
      diagnostics = at diagnostics;
      subgroup_states = at states;
      diagnostic_count = at count;
      simulated_barrier_arrival_count = at arrivals;
      atomic_objects = at objects;
      atomic_address_cache = at cache;
      acquired_subgroup_epoch_tokens = at tokens;
      exact_shadow_entries = at exact;
      sampled_watchpoints = at sampled;
    }
pointers_at base _ = null_pointers

-- The members once the storage is allocated at `base`: those that nothing has set have their initial
-- values.
abbrev pub allocated : HostContextOptions → ℕ → Capacities → List (Option ℕ) → ℕ → HostContext
allocated o base capacities starts assigned_bytes = record {
  options = o;
  diagnostics_consumed = true;
  destructor_reports = o.destructor_reports;
  destructor_aborts = o.destructor_aborts;
  diagnostic_stream = o.diagnostic_stream;
  last_diagnostic_count = pos 0;
  storage_bytes = o.storage_bytes;
  layout_bytes = assigned_bytes;
  capacities = capacities;
  generation = 1;
  device_storage = some base;
  pointers = pointers_at base starts;
}

-- The arrays that the host clears, with their sizes in bytes.
abbrev pub cleared_regions : Capacities → Pointers → List (Option ℕ × ℕ)
cleared_regions c p =
    (p.diagnostics, u64 (size_of_int c.diagnostic_capacity * 64))
    ∷ (p.subgroup_states, u64 (size_of_int c.subgroup_capacity * 4))
    ∷ (p.diagnostic_count, 4)
    ∷ (p.simulated_barrier_arrival_count, 4)
    ∷ (p.atomic_objects, u64 (size_of_int c.atomic_object_capacity * 32))
    ∷ (p.atomic_address_cache, u64 (size_of_int c.atomic_object_capacity * 24))
    ∷ (p.acquired_subgroup_epoch_tokens, u64 (acquired_subgroup_epoch_token_count c * 4))
    ∷ (p.exact_shadow_entries, u64 (size_of_int c.exact_shadow_entry_capacity * 8))
    ∷ (p.sampled_watchpoints, u64 (size_of_int c.sampled_watchpoint_capacity * 8))
    ∷ []

-- What ends well, or aborts; with what was printed, but for the message of an abort in `construct`.
pub data Outcome (M : Type 0) : Type 0 where
  finished : HostContext → M → Printed → Outcome M
  aborted : Printed → Outcome M

pub record Consumed (M : Type 0) : Type 0 where
  pub count : ℤ
  pub host : HostContext
  pub memory : M
  pub printed : Printed

-- The stream of the destructor, and what it prints there before it aborts.
abbrev pub destructor_stream : HostContext → Option Stream
destructor_stream h = if h.destructor_reports then h.diagnostic_stream else none

abbrev pub abort_warning : Option Stream → Printed
abort_warning none = []
abort_warning (some stream) = (stream, unconsumed_diagnostics) ∷ []

module _ {M : Type 0} (hip : Runtime M) where
  abbrev pub must_succeed : Status → Option (Unit {0})
  must_succeed success = some tt
  must_succeed (failure code) = none

  unfoldable pub hip_memset : Option ℕ → ℕ → ℕ → M → Option M
  hip_memset ptr value byte_count m =
      if byte_count == 0
      then some m
      else do let (status, m') = hip.memset ptr value byte_count m; must_succeed status; some m'

  unfoldable pub clear_regions : List (Option ℕ × ℕ) → M → Option M
  unfolding hip_memset
  clear_regions [] m = some m
  clear_regions ((ptr, byte_count) ∷ regions) m =
      hip_memset ptr 0 byte_count m >>= clear_regions regions

  unfoldable pub clear_device_metadata : HostContext → M → Option M
  unfolding clear_regions
  clear_device_metadata h = clear_regions (cleared_regions h.capacities h.pointers)

  -- `allocate_or_abort`
  unfoldable pub allocate : HostContextOptions → M → Option (HostContext × M)
  unfolding compute_layout assign_layout_slices pointers_at
  allocate o m = do
    layout ← compute_layout o
    let (status, base, m') = hip.malloc o.storage_bytes m
    must_succeed status
    slices ← assign_layout_slices layout.0
    some (allocated o base (layout.0) (slices.0) (slices.1), m')

  -- The constructor.
  unfoldable pub construct : HostContextOptions → M → Option (HostContext × M)
  unfolding validate_options allocate clear_device_metadata
  construct o m = do
    validate_options o
    made ← allocate o m
    cleared ← clear_device_metadata (made.0) (made.1)
    some (made.0, cleared)

  -- The count cannot be had.
  abbrev pub consume_failed : Option Stream → HostContext → M → String → ℕ → Consumed M
  consume_failed stream h m operation code = record {
    count = negsuc 0;
    host = record h { diagnostics_consumed = true; last_diagnostic_count = negsuc 0 };
    memory = m;
    printed = report_hip_error stream operation code;
  }

  -- `stored_count`
  abbrev pub stored_count : HostContext → ℤ → ℤ
  stored_count h count =
      if lt_int h.capacities.diagnostic_capacity count
      then h.capacities.diagnostic_capacity
      else count

  unfoldable pub consume_copied :
      Option Stream → HostContext → M → ℤ → Status × List Diagnostic → Consumed M
  unfolding report_hip_error report_diagnostics
  consume_copied stream h m count (success, ds) = record {
    count = count;
    host = record h { diagnostics_consumed = true; last_diagnostic_count = count };
    memory = m;
    printed = report_diagnostics stream ds (stored_count h count) count;
  }
  consume_copied stream h m count (failure code, ds) =
      consume_failed stream h m "hipMemcpy(diagnostics)" code

  unfoldable pub consume_counted : Option Stream → HostContext → M → Status × ℤ → Consumed M
  unfolding report_hip_error consume_copied
  consume_counted stream h m (success, count) =
      if is_pos count
      then consume_copied stream h m count
          (hip.copy_diagnostics h.pointers.diagnostics (size_of_int (stored_count h count)) m)
      else record {
        count = count;
        host = record h { diagnostics_consumed = true; last_diagnostic_count = count };
        memory = m;
        printed = [];
      }
  consume_counted stream h m (failure code, count) =
      consume_failed stream h m "hipMemcpy(diagnostic_count)" code

  unfoldable pub consume_synchronized : Option Stream → HostContext → Status × M → Consumed M
  unfolding report_hip_error consume_counted
  consume_synchronized stream h (success, m) =
      consume_counted stream h m (hip.copy_int h.pointers.diagnostic_count m)
  consume_synchronized stream h (failure code, m) =
      consume_failed stream h m "hipDeviceSynchronize" code

  unfoldable pub consume_diagnostics : Option Stream → HostContext → M → Consumed M
  unfolding consume_synchronized
  consume_diagnostics stream h m = consume_synchronized stream h (hip.device_synchronize m)

  unfoldable pub check : Option Stream → HostContext → M → Bool × Consumed M
  unfolding consume_diagnostics
  check stream h m =
      let consumed = consume_diagnostics stream h m in (is_zero consumed.count, consumed)

  unfoldable pub check_or_abort : HostContext → M → String → ℕ → Outcome M
  unfolding check
  check_or_abort h m source_file source_line =
      let (passed, consumed) = check (some stderr) h m in
      if passed
      then finished consumed.host consumed.memory consumed.printed
      else aborted (consumed.printed ++ (stderr, check_failed source_file source_line) ∷ [])

  unfoldable pub release : HostContext → M → HostContext × M
  release h m = (
    record h { device_storage = none; pointers = null_pointers },
    elim h.device_storage [ none ↦ m | some base ↦ hip.free base m ],
  )

  abbrev pub released : HostContext → M → Printed → Outcome M
  released h m printed = let (h', m') = release h m in finished h' m' printed

  -- The destructor.
  unfoldable pub destroy : HostContext → M → Outcome M
  unfolding release consume_diagnostics
  destroy h m =
      let consumed = consume_diagnostics (destructor_stream h) h m in
      if not h.diagnostics_consumed && (h.destructor_reports || h.destructor_aborts)
      then if not (is_zero consumed.count) && h.destructor_aborts
        then aborted (consumed.printed ++ abort_warning (destructor_stream h))
        else released consumed.host consumed.memory consumed.printed
      else released h m []

unfoldable pub set_destructor_reporting_enabled : Bool → HostContext → HostContext
set_destructor_reporting_enabled enabled h = record h { destructor_reports = enabled }

unfoldable pub set_destructor_abort_enabled : Bool → HostContext → HostContext
set_destructor_abort_enabled enabled h = record h { destructor_aborts = enabled }

unfoldable pub disable_destructor_reporting : HostContext → HostContext
unfolding set_destructor_reporting_enabled
disable_destructor_reporting h = set_destructor_reporting_enabled false h

unfoldable pub disable_destructor_abort : HostContext → HostContext
unfolding set_destructor_abort_enabled
disable_destructor_abort h = set_destructor_abort_enabled false h

unfoldable pub disable_destructor_check : HostContext → HostContext
unfolding disable_destructor_reporting disable_destructor_abort
disable_destructor_check h = disable_destructor_abort (disable_destructor_reporting h)
