-- ===== src/Context/Diagnostics.antt =====
-- The diagnostic buffer: `emit_diagnostic` of include/hip_moi/common.hpp, and the emitters of
-- include/hip_moi/context.hpp that are not about a conflict.
pub mod Counting
use hip_moi.Prelude.{
  ℕ, Bool, true, false, ltb, if◌then◌else◌, none, some, List, ℤ, pos, negsuc, is_pos, u32_of_int,
  set,
}
use hip_moi.Common.Kinds.{SiteId, diagnostic_kind_value, metadata_full, barrier_divergence}
use hip_moi.Context.Storage.{Diagnostic, Storage, Context, int_suc}
use hip_moi.Context.Subgroups.{
  configured_subgroup_count, current_epoch, subgroup_id, subgroup_epoch,
}

-- `index < capacity`, on two ints
int_ltb : ℤ → ℤ → Bool
int_ltb (pos a) (pos b) = ltb a b
int_ltb (pos a) (negsuc b) = false
int_ltb (negsuc a) (pos b) = true
int_ltb (negsuc a) (negsuc b) = ltb b a

-- `diagnostics[index] = d`; a negative index, past 2 ^ 31 diagnostics, writes outside the array.
put_diagnostic : List Diagnostic → ℤ → Diagnostic → List Diagnostic
put_diagnostic ds (pos i) d = set ds i d
put_diagnostic ds (negsuc i) d = ds

append_diagnostic : Storage → List Diagnostic → ℤ → Diagnostic → Storage
append_diagnostic s ds index d = record s {
  diagnostic_count = some (int_suc index);
  diagnostics =
      some (if int_ltb index s.diagnostic_capacity then put_diagnostic ds index d else ds);
}

unfoldable pub emit_diagnostic : Storage → Diagnostic → Storage
unfolding append_diagnostic int_ltb put_diagnostic int_suc
emit_diagnostic s d =
    if is_pos s.diagnostic_capacity
    then elim s.diagnostics [
      | none ↦ s
      | some ds ↦ elim s.diagnostic_count [ none ↦ s | some index ↦ append_diagnostic s ds index d ]
    ]
    else s

unfoldable pub emit_shadow_metadata_full : Context → ℕ → ℕ → ℕ → SiteId → Context
emit_shadow_metadata_full c ptr byte_count lds_byte_offset site = record c {
  storage = emit_diagnostic c.storage (record {
    kind = diagnostic_kind_value metadata_full;
    epoch = subgroup_epoch c;
    first_subgroup_id = subgroup_id c;
    second_subgroup_id = subgroup_id c;
    first_addr = ptr;
    second_addr = lds_byte_offset;
    first_size = byte_count;
    second_size = byte_count;
    first_site_id = site.value;
    second_site_id = site.value;
    expected_thread_count = 0;
    observed_thread_count = 0;
  });
}

unfoldable pub emit_atomic_metadata_full : Context → ℕ → ℕ → SiteId → Context
emit_atomic_metadata_full c address byte_count site = record c {
  storage = emit_diagnostic c.storage (record {
    kind = diagnostic_kind_value metadata_full;
    epoch = subgroup_epoch c;
    first_subgroup_id = subgroup_id c;
    second_subgroup_id = subgroup_id c;
    first_addr = address;
    second_addr = address;
    first_size = byte_count;
    second_size = byte_count;
    first_site_id = site.value;
    second_site_id = site.value;
    expected_thread_count = 0;
    observed_thread_count = 0;
  });
}

unfoldable pub emit_barrier_divergence : Context → ℤ → ℤ → SiteId → Context
emit_barrier_divergence c expected_count observed_count site = record c {
  storage = emit_diagnostic c.storage (record {
    kind = diagnostic_kind_value barrier_divergence;
    epoch = current_epoch c.storage 0;
    first_subgroup_id = 0;
    second_subgroup_id = 0;
    first_addr = 0;
    second_addr = 0;
    first_size = 0;
    second_size = 0;
    first_site_id = site.value;
    second_site_id = site.value;
    expected_thread_count = u32_of_int expected_count;
    observed_thread_count = u32_of_int observed_count;
  });
}

unfoldable pub emit_subgroup_capacity_full : Context → Context
emit_subgroup_capacity_full c = record c {
  storage = emit_diagnostic c.storage (record {
    kind = diagnostic_kind_value metadata_full;
    epoch = 0;
    first_subgroup_id = u32_of_int c.storage.subgroup_capacity;
    second_subgroup_id = configured_subgroup_count c.cfg;
    first_addr = 0;
    second_addr = 0;
    first_size = 0;
    second_size = 0;
    first_site_id = 0;
    second_site_id = 0;
    expected_thread_count = 0;
    observed_thread_count = 0;
  });
}
