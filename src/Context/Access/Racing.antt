-- ===== src/Context/Access/Racing.antt =====
-- Two accesses through the exact shadow backend: when a later one is reported.
use hip_moi.Prelude.{
  ℕ, ◌+◌, ◌%◌, ◌/◌, ◌^◌, ◌≤◌, ◌<◌, ◌≡◌, refl, ◌∙◌, false, true, List, arith, Bool,
}
use hip_moi.Common.Kinds.{SiteId, AccessKind}
use hip_moi.Shadow.Exact.{decode_exact_shadow_entry, exact_shadow_entries_conflict}
use hip_moi.Shadow.Exact.Conflict.{packed_access, recorded, Clash, conflict-Clash}
use hip_moi.Context.Storage.{Diagnostic, Storage, Context}
use hip_moi.Context.Subgroups.{subgroup_id, subgroup_epoch}
use hip_moi.Context.Diagnostics.Counting.{Emitted}
use hip_moi.Context.Acquires.{current_access_acquired_prior_epoch}
use hip_moi.Context.Exact.{reports, record_exact_shadow_access}
use hip_moi.Context.Exact.Cells.{word}
use hip_moi.Context.Access.Detection.{
  HasCells, Within, covered, access_of, access-count, reports-packed, reported-positive, word-after,
}

-- The first access from `c1`, and the second one by the thread of `c2` on a later storage.
module _ (c1 c2 : Context) (ptr1 count1 offset1 ptr2 count2 offset2 cells : ℕ)
    (kind1 kind2 : AccessKind) (site1 site2 : SiteId) (table : HasCells c1.storage cells)
    (within1 : Within cells offset1 count1) (within2 : Within cells offset2 count2)
    (between : Storage) (kept : HasCells between cells) where
  abbrev pub left : Storage
  left = (record_exact_shadow_access c1 ptr1 count1 kind1 offset1 site1).storage

  abbrev pub later : Context
  later = record c2 { storage = between }

  abbrev pub finally : Storage
  finally = (record_exact_shadow_access later ptr2 count2 kind2 offset2 site2).storage

  abbrev first_word : ℕ
  first_word = packed_access (access_of c1 kind1 site1)

  abbrev second_word : ℕ
  second_word = packed_access (access_of later kind2 site2)

  -- Does the second thread hold a token for the first access?
  abbrev pub acquired : Bool
  acquired =
      current_access_acquired_prior_epoch between (subgroup_id c1 % 2 ^ 10)
        (subgroup_epoch c1 % 2 ^ 10) (subgroup_id later % 2 ^ 10)

  -- A first access lies within an exact table of fewer than 2 ^ 29 cells. A second one follows on
  -- any storage whose table has as many cells, lies within it, and shares with the first a byte
  -- whose cell still holds what it held right after the first access. When one of the two is a
  -- store, their epochs agree modulo 2 ^ 10, their launches modulo 2 ^ 20, their subgroups differ
  -- modulo 2 ^ 10, and by these fields the second thread holds no token that covers the first
  -- access when it makes its own, then the second access emits at least one diagnostic, if before
  -- it the diagnostic buffer and its count are there, with a positive capacity, and the count and
  -- the cells of the table are together below 2 ^ 31.
  pub racing_accesses_reported :
      (buffer : List Diagnostic) (m byte : ℕ)
      → Emitted between buffer m
      → m + cells < 2 ^ 31
      → offset1 ≤ byte
      → byte < offset1 + count1
      → offset2 ≤ byte
      → byte < offset2 + count2
      → word between (byte / 4) ≡ word left (byte / 4)
      → Clash (access_of later kind2 site2) (access_of c1 kind1 site1)
      → acquired ≡ false
      → (buffer' : List Diagnostic) × (m' : ℕ) × (m < m') × Emitted finally buffer' m'
  racing_accesses_reported buffer m byte e small lo1 hi1 lo2 hi2 untouched clash fresh =
      let (buffer', done) =
        access-count later ptr2 count2 kind2 offset2 cells site2 buffer m kept within2 e small in
      let cell = byte / 4 in
      let written =
        word-after c1 c2 ptr1 count1 offset1 ptr2 count2 offset2 cells kind1 kind2 site1 site2 table
          within1 within2 cell in
      let held : word between cell ≡ first_word = untouched ∙ written ∙ ground arith in
      let conflict : exact_shadow_entries_conflict (recorded (access_of later kind2 site2))
            (recorded (access_of c1 kind1 site1))
          ≡ true =
        (conflict-Clash (access_of later kind2 site2) (access_of c1 kind1 site1)).1 clash in
      let loud : reports between (decode_exact_shadow_entry second_word)
            (decode_exact_shadow_entry (word between cell))
          ≡ true =
        rw
          (
            held,
            reports-packed between (access_of later kind2 site2) (access_of c1 kind1 site1),
            conflict,
            fresh,
          )
          refl in
      let some_reported =
        reported-positive second_word count2 offset2 between (covered offset2 count2) (offset2 / 4)
          cell (omega arith) (omega arith) loud in
      (buffer', _, omega arith, done)
