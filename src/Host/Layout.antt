-- ===== src/Host/Layout.antt =====
-- The capacities that `compute_layout_or_abort` of include/hip_moi/host_context.hpp chooses for a
-- budget of bytes, with `none` where the host aborts.
pub mod Budget
pub mod Contained
pub mod Counts
pub mod Growth
pub mod Success
use hip_moi.Prelude.{
  ℕ, zero, suc, ◌+◌, ◌-◌, ◌*◌, ◌/◌, ◌^◌, Bool, true, false, not, ◌&&◌, ◌||◌, ltb, leb, ◌==◌,
  if◌then◌else◌, Option, none, some, ℤ, pos, negsuc, is_pos, is_zero, ◌>>=◌, ◌>>◌, guard,
}
use hip_moi.Common.Kinds.{BackendKind, exact_shadow, sampled_watchpoint}
use mathlib.Core.Option
use hip_moi.Host.{Capacities, layout_byte_count, checked_capacity, ceil_power_of_two}

-- A `FILE*` that is not null.
pub data Stream : Type 0 where
  stderr : Stream
  file : ℕ → Stream

pub record HostContextOptions : Type 0 where
  pub storage_bytes : ℕ
  pub exact_shadow_entry_capacity : ℤ
  pub sampled_watchpoint_capacity : ℤ
  pub diagnostic_capacity : ℤ
  pub sampled_watchpoint_sample_skip : ℕ
  pub sampled_watchpoint_probe_count : ℕ
  pub sampled_watchpoint_delay_iters : ℕ
  pub sampled_watchpoint_reports : Bool
  pub subgroup_capacity : ℤ
  pub backend : BackendKind
  pub destructor_reports : Bool
  pub destructor_aborts : Bool
  pub diagnostic_stream : Option Stream

-- The default member initializers.
abbrev pub default_options : HostContextOptions
default_options = record {
  storage_bytes = 16 * 1024 * 1024;
  exact_shadow_entry_capacity = negsuc 0;
  sampled_watchpoint_capacity = negsuc 0;
  diagnostic_capacity = negsuc 0;
  sampled_watchpoint_sample_skip = 1;
  sampled_watchpoint_probe_count = 1;
  sampled_watchpoint_delay_iters = 0;
  sampled_watchpoint_reports = true;
  subgroup_capacity = pos 64;
  backend = exact_shadow;
  destructor_reports = true;
  destructor_aborts = true;
  diagnostic_stream = some stderr;
}

abbrev pub make_exact_shadow_options : HostContextOptions
make_exact_shadow_options = record default_options { backend = exact_shadow }

abbrev pub make_sampled_watchpoint_reporting_options : HostContextOptions
make_sampled_watchpoint_reporting_options = record default_options {
  backend = sampled_watchpoint;
  sampled_watchpoint_reports = true;
  exact_shadow_entry_capacity = pos 0;
  sampled_watchpoint_capacity = negsuc 0;
}

abbrev pub make_sampled_watchpoint_publish_only_options : HostContextOptions
make_sampled_watchpoint_publish_only_options = record make_sampled_watchpoint_reporting_options {
  sampled_watchpoint_reports = false;
}

abbrev pub make_one_watchpoint_publish_only_options : HostContextOptions
make_one_watchpoint_publish_only_options = record make_sampled_watchpoint_publish_only_options {
  sampled_watchpoint_capacity = pos 1;
  sampled_watchpoint_sample_skip = 32;
  sampled_watchpoint_probe_count = 1;
  sampled_watchpoint_delay_iters = 32;
}

abbrev pub is_auto_capacity : ℤ → Bool
is_auto_capacity (pos n) = false
is_auto_capacity (negsuc n) = true

-- `capacity < -1`
abbrev pub is_below_auto : ℤ → Bool
is_below_auto (negsuc (suc n)) = true
is_below_auto (negsuc zero) = false
is_below_auto (pos n) = false

unfoldable pub validate_options : HostContextOptions → Option (Unit {0})
validate_options o = do
  guard (
      not (
        (o.storage_bytes == 0)
        || is_below_auto o.exact_shadow_entry_capacity
        || is_below_auto o.sampled_watchpoint_capacity
        || is_below_auto o.diagnostic_capacity
        || not (is_pos o.subgroup_capacity)))
  guard (not (is_zero o.diagnostic_capacity))

-- The number of elements of `size` bytes in a sixty-fourth of the storage, with one at least and
-- 256 KiB at most.
abbrev pub auto_bytes : ℕ → ℕ → ℕ
auto_bytes storage_bytes size =
    let bytes = storage_bytes / 64 in
    let raised = if ltb bytes size then size else bytes in
    if ltb (256 * 1024) raised then 256 * 1024 else raised

abbrev pub auto_capacity : ℕ → ℕ → ℕ
auto_capacity storage_bytes size =
    let capacity = auto_bytes storage_bytes size / size in if capacity == 0 then 1 else capacity

unfoldable pub auto_diagnostic_capacity : ℕ → Option ℤ
unfolding checked_capacity
auto_diagnostic_capacity storage_bytes = checked_capacity (auto_capacity storage_bytes 64)

unfoldable pub auto_atomic_object_capacity : ℕ → Option ℤ
unfolding checked_capacity ceil_power_of_two
auto_atomic_object_capacity storage_bytes =
    checked_capacity (ceil_power_of_two (auto_capacity storage_bytes 32))

unfoldable pub capacity_from_bytes : ℕ → ℕ → Option ℤ
unfolding checked_capacity
capacity_from_bytes byte_count element_size = checked_capacity (byte_count / element_size)

-- `--x` of a positive `int`
abbrev pub decrement : ℤ → ℤ
decrement (pos n) = pos (n - 1)
decrement (negsuc n) = negsuc (suc n)

-- Is there a capacity to shrink, and the capacities after it.
unfoldable pub shrink_one_auto_capacity : HostContextOptions → Capacities → Bool × Capacities
shrink_one_auto_capacity o c =
    if is_auto_capacity o.sampled_watchpoint_capacity && is_pos c.sampled_watchpoint_capacity
    then (true, record c { sampled_watchpoint_capacity = decrement c.sampled_watchpoint_capacity })
    else if is_auto_capacity o.exact_shadow_entry_capacity && is_pos c.exact_shadow_entry_capacity
    then (true, record c { exact_shadow_entry_capacity = decrement c.exact_shadow_entry_capacity })
    else (false, c)

-- `while(layout_byte_count() > storage_bytes_ && shrink_one_auto_capacity())`, on fuel
unfoldable pub shrink_auto_capacities : HostContextOptions → ℕ → Capacities → Option Capacities
unfolding shrink_one_auto_capacity layout_byte_count checked_capacity
shrink_auto_capacities o zero c = some c
shrink_auto_capacities o (suc fuel) c = do
  bytes ← layout_byte_count c
  let next = shrink_one_auto_capacity o c
  let rest = shrink_auto_capacities o fuel next.1
  if ltb o.storage_bytes bytes && next.0 then rest else some c

-- One round for each element that the capacities could lose.
abbrev pub shrink_fuel : Capacities → ℕ
shrink_fuel c = size_of c.sampled_watchpoint_capacity + size_of c.exact_shadow_entry_capacity
  where
    size_of : ℤ → ℕ
    size_of (pos n) = n
    size_of (negsuc n) = 0

-- `diagnostic_capacity_`
unfoldable pub chosen_diagnostic_capacity : HostContextOptions → Option ℤ
unfolding auto_diagnostic_capacity
chosen_diagnostic_capacity o =
    if is_auto_capacity o.diagnostic_capacity
    then auto_diagnostic_capacity o.storage_bytes
    else some o.diagnostic_capacity

abbrev pub fixed_with : HostContextOptions → ℤ → ℤ → Capacities
fixed_with o atomic diagnostic = record {
  diagnostic_capacity = diagnostic;
  subgroup_capacity = o.subgroup_capacity;
  atomic_object_capacity = atomic;
  exact_shadow_entry_capacity =
      if is_auto_capacity o.exact_shadow_entry_capacity
      then pos 0
      else o.exact_shadow_entry_capacity;
  sampled_watchpoint_capacity =
      if is_auto_capacity o.sampled_watchpoint_capacity
      then pos 0
      else o.sampled_watchpoint_capacity;
}

-- The capacities before the rest of the budget is given out.
unfoldable pub fixed_capacities : HostContextOptions → Option Capacities
unfolding chosen_diagnostic_capacity auto_atomic_object_capacity
fixed_capacities o = do
  atomic ← auto_atomic_object_capacity o.storage_bytes
  diagnostic ← chosen_diagnostic_capacity o
  some (fixed_with o atomic diagnostic)

-- The rest of the budget goes to the table of the backend.
unfoldable pub fill_capacities :
    BackendKind → HostContextOptions → ℕ → Capacities → Option Capacities
unfolding capacity_from_bytes
fill_capacities sampled_watchpoint o remaining_bytes c =
    if is_auto_capacity o.sampled_watchpoint_capacity
    then Option.map (λ n. record c { sampled_watchpoint_capacity = n })
        (capacity_from_bytes remaining_bytes 8)
    else some c
fill_capacities exact_shadow o remaining_bytes c =
    if is_auto_capacity o.exact_shadow_entry_capacity
    then Option.map (λ n. record c { exact_shadow_entry_capacity = n })
        (capacity_from_bytes remaining_bytes 8)
    else some c

abbrev pub backend_capacity : BackendKind → Capacities → ℤ
backend_capacity exact_shadow c = c.exact_shadow_entry_capacity
backend_capacity sampled_watchpoint c = c.sampled_watchpoint_capacity

-- The capacities and `layout_bytes_`.
unfoldable pub compute_layout : HostContextOptions → Option (Capacities × ℕ)
unfolding fixed_capacities fill_capacities shrink_auto_capacities layout_byte_count checked_capacity
compute_layout o = do
  fixed ← fixed_capacities o
  fixed_bytes ← layout_byte_count fixed
  guard (leb fixed_bytes o.storage_bytes)
  filled ← fill_capacities o.backend o (o.storage_bytes - fixed_bytes) fixed
  c ← shrink_auto_capacities o (shrink_fuel filled) filled
  layout_bytes ← layout_byte_count c
  guard (leb layout_bytes o.storage_bytes)
  guard (is_pos c.diagnostic_capacity)
  guard (is_pos (backend_capacity o.backend c))
  some (c, layout_bytes)
