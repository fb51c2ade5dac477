-- ===== src/Context/Exact.antt =====
-- The exact shadow backend of include/hip_moi/context.hpp: one access exchanges the word of every
-- cell that it covers and reports the conflicts that no token suppresses.
pub mod Cells
use hip_moi.Prelude.{
  ℕ, zero, suc, ◌+◌, ◌-◌, ◌*◌, ◌^◌, Bool, true, false, ◌&&◌, not, leb, if◌then◌else◌, Option, none,
  some, List, [], is_pos, u32_of_int, get_or, set, u32, u64, sub64, shl32, ◌>>>◌,
}
use hip_moi.Common.Kinds.{SiteId, AccessKind, diagnostic_kind_value, access_conflict}
use hip_moi.Shadow.Kinds.{shadow_kind_from_access_kind}
use hip_moi.Shadow.Exact.{
  ExactShadowEntry, pack_exact_shadow_entry, decode_exact_shadow_entry,
  exact_shadow_entries_conflict, granule_shift, granule_bytes,
}
use hip_moi.Context.Storage.{Diagnostic, Storage, Context}
use hip_moi.Context.Subgroups.{subgroup_id, subgroup_epoch, is_some}
use hip_moi.Context.Diagnostics.{emit_diagnostic, emit_shadow_metadata_full}
use hip_moi.Context.Acquires.{current_access_acquired_prior_epoch}

abbrev pub words_of : Option (List ℕ) → List ℕ
words_of none = []
words_of (some words) = words

abbrev pub shadow_conflict : ExactShadowEntry → ExactShadowEntry → ℕ → ℕ → ℕ → Diagnostic
shadow_conflict prior current current_byte_count current_lds_offset cell = record {
  kind = diagnostic_kind_value access_conflict;
  epoch = current.epoch;
  first_subgroup_id = prior.owner_id;
  second_subgroup_id = current.owner_id;
  first_addr = shl32 cell granule_shift;
  second_addr = current_lds_offset;
  first_size = granule_bytes;
  second_size = current_byte_count;
  first_site_id = prior.site_id;
  second_site_id = current.site_id;
  expected_thread_count = 0;
  observed_thread_count = 0;
}

unfoldable pub emit_shadow_conflict :
    Storage → ExactShadowEntry → ExactShadowEntry → ℕ → ℕ → ℕ → Storage
emit_shadow_conflict s prior current current_byte_count current_lds_offset cell =
    emit_diagnostic s (shadow_conflict prior current current_byte_count current_lds_offset cell)

-- Is the entry that `current` replaces one to report?
unfoldable pub reports : Storage → ExactShadowEntry → ExactShadowEntry → Bool
reports s current prior =
    exact_shadow_entries_conflict current prior
    && not (current_access_acquired_prior_epoch s prior.owner_id prior.epoch current.owner_id)

-- `atomic_exchange_shadow_entry` on one cell
abbrev pub exchange_cell : Storage → ℕ → ℕ → Storage
exchange_cell s cell packed = record s {
  exact_shadow_entries = some (set (words_of s.exact_shadow_entries) cell packed);
}

-- The body of the loop over the cells.
unfoldable pub record_cell : ℕ → ℕ → ℕ → ℕ → Storage → Storage
unfolding reports emit_shadow_conflict
record_cell packed byte_count lds_byte_offset cell s =
    let current = decode_exact_shadow_entry packed in
    let prior = decode_exact_shadow_entry (get_or (words_of s.exact_shadow_entries) cell 0) in
    let s' = exchange_cell s cell packed in
    if reports s' current prior
    then emit_shadow_conflict s' prior current byte_count lds_byte_offset cell
    else s'

-- The loop, with `left` cells to go.
unfoldable pub record_cells : ℕ → ℕ → ℕ → ℕ → ℕ → Storage → Storage
record_cells packed byte_count lds_byte_offset zero cell s = s
record_cells packed byte_count lds_byte_offset (suc left) cell s =
    record_cells packed byte_count lds_byte_offset left (cell + 1)
      (record_cell packed byte_count lds_byte_offset cell s)

abbrev pub last_byte_offset : ℕ → ℕ → ℕ
last_byte_offset lds_byte_offset byte_count = sub64 (u64 (lds_byte_offset + byte_count)) 1

-- The word that an access of this thread writes.
unfoldable pub access_word : Context → AccessKind → SiteId → ℕ
access_word c kind site =
    pack_exact_shadow_entry (shadow_kind_from_access_kind kind) (subgroup_id c) (subgroup_epoch c)
      (u32 c.storage.generation) site.value

unfoldable pub record_exact_shadow_access : Context → ℕ → ℕ → AccessKind → ℕ → SiteId → Context
unfolding access_word
record_exact_shadow_access c ptr byte_count kind lds_byte_offset site =
    let s = c.storage in
    let first_cell = lds_byte_offset >>> granule_shift in
    let last_cell = last_byte_offset lds_byte_offset byte_count >>> granule_shift in
    let full = emit_shadow_metadata_full c ptr byte_count lds_byte_offset site in
    if is_some s.exact_shadow_entries && is_pos s.exact_shadow_entry_capacity
    then if leb (u32_of_int s.exact_shadow_entry_capacity) last_cell then full else record c {
      storage =
          record_cells (access_word c kind site) byte_count lds_byte_offset
            (u32 last_cell + 1 - first_cell) first_cell s;
    }
    else full
