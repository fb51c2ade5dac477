-- ===== src/Host/Reports.antt =====
-- What include/hip_moi/host_context.hpp prints: one value for each call of `fprintf`, with the
-- arguments that the format shows.
use Prim.Native.String.{String}
use hip_moi.Prelude.{
  ℕ, ◌+◌, ◌==◌, if◌then◌else◌, Option, none, some, List, [], ◌∷◌, ◌++◌, ℤ, lt_int,
}
use hip_moi.Common.Kinds.{diagnostic_kind_value, barrier_divergence}
use hip_moi.Context.Storage.{Diagnostic}
use hip_moi.Host.Layout.{Stream}

pub data Line : Type 0 where
  call_failed : String → ℕ → Line
  diagnostic_total : ℤ → Line
  divergence_line : (index : ℕ) → String → (epoch expected observed site : ℕ) → Line
  conflict_line :
      (index : ℕ)
      → String
      → (epoch first_subgroup second_subgroup first_addr second_addr first_size second_size
          first_site second_site : ℕ)
      → Line
  stored_part : ℤ → ℤ → Line
  unconsumed_diagnostics : Line
  check_failed : String → ℕ → Line

-- The lines of all streams, in order.
abbrev pub Printed : Type 0
Printed = List (Stream × Line)

-- The value of an enumerator is its place in the declaration.
unfoldable pub diagnostic_kind_name : ℕ → String
diagnostic_kind_name kind =
    if kind == 0
    then "none"
    else if kind == 1
    then "access_conflict"
    else if kind == 2
    then "metadata_full"
    else if kind == 3
    then "barrier_divergence"
    else "unknown"

unfoldable pub report_hip_error : Option Stream → String → ℕ → Printed
report_hip_error none operation status = []
report_hip_error (some stream) operation status = (stream, call_failed operation status) ∷ []

unfoldable pub report_diagnostic : ℕ → Diagnostic → String → Line
report_diagnostic index d kind_name =
    if d.kind == diagnostic_kind_value barrier_divergence
    then divergence_line index kind_name d.epoch d.expected_thread_count d.observed_thread_count
        d.first_site_id
    else conflict_line index kind_name d.epoch d.first_subgroup_id d.second_subgroup_id d.first_addr
        d.second_addr d.first_size d.second_size d.first_site_id d.second_site_id

-- The loop over the stored diagnostics, from number `index` on.
unfoldable pub report_each : Stream → ℕ → List Diagnostic → Printed
unfolding report_diagnostic diagnostic_kind_name
report_each stream index [] = []
report_each stream index (d ∷ ds) =
    (stream, report_diagnostic index d (diagnostic_kind_name d.kind))
    ∷ report_each stream (index + 1) ds

unfoldable pub report_diagnostics : Option Stream → List Diagnostic → ℤ → ℤ → Printed
unfolding report_each
report_diagnostics none ds stored_count diagnostic_count = []
report_diagnostics (some stream) ds stored_count diagnostic_count =
    (stream, diagnostic_total diagnostic_count)
    ∷ (report_each stream 0 ds
        ++ (if lt_int stored_count diagnostic_count
            then (stream, stored_part stored_count diagnostic_count) ∷ []
            else []))
