-- ===== src/Host/Device/Detected.antt =====
-- From two accesses of a kernel to the check of the host.
use hip_moi.Prelude.{
  ℕ, ◌+◌, ◌^◌, ◌%◌, ◌/◌, ◌≤◌, ◌<◌, ◌≡◌, false, Option, some, List, ℤ, pos, arith, Bool-cases, inl,
  inr,
}
use hip_moi.Common.Kinds.{SiteId, AccessKind}
use hip_moi.Context.Storage.{Diagnostic, Storage, Context}
use hip_moi.Context.Diagnostics.Counting.{Emitted}
use hip_moi.Context.Access.Detection.{HasCells, Within, access_of}
use hip_moi.Context.Access.Racing.{racing_accesses_reported}
use hip_moi.Context.Exact.Cells.{word}
use hip_moi.Context.Exact.{record_exact_shadow_access}
use hip_moi.Context.Acquires.{current_access_acquired_prior_epoch}
use hip_moi.Context.Subgroups.{subgroup_id, subgroup_epoch}
use hip_moi.Shadow.Exact.Conflict.{Clash}
use hip_moi.Host.Layout.{Stream}
use hip_moi.Host.Device.{success, Runtime, HostContext, check}
use hip_moi.Host.Device.Checks.{check-Clean}

module _ {M : Type 0} (hip : Runtime M) (stream : Option Stream) (h : HostContext) (m : M) where
  -- The copy of the count reads what the kernel left.
  abbrev pub Reads : Storage → Type 0
  Reads s =
      (m' : M) (n : ℤ)
      → hip.device_synchronize m ≡ (success, m')
      → hip.copy_int h.pointers.diagnostic_count m' ≡ (success, n)
      → s.diagnostic_count ≡ some n

  Emitted-check :
      (s : Storage) (buffer : List Diagnostic) (n : ℕ)
      → Reads s
      → Emitted s buffer n
      → 0 < n
      → (check hip stream h m).0 ≡ false
  Emitted-check s buffer n reads e some_reported = elim (Bool-cases (check hip stream h m).0) [
    | inr failed ↦ failed
    | inl passed ↦
        let (m', synchronized, copied) = (check-Clean hip stream h m).0 passed in
        let zero_count = reads m' (pos 0) synchronized copied in absurd (ground (arith, e.counted))
  ]

  module _ (c1 c2 : Context) (ptr1 count1 offset1 ptr2 count2 offset2 cells : ℕ)
      (kind1 kind2 : AccessKind) (site1 site2 : SiteId) (table : HasCells c1.storage cells)
      (within1 : Within cells offset1 count1) (within2 : Within cells offset2 count2)
      (between : Storage) (kept : HasCells between cells) where
    abbrev left : Storage
    left = (record_exact_shadow_access c1 ptr1 count1 kind1 offset1 site1).storage

    abbrev later : Context
    later = record c2 { storage = between }

    abbrev at_end : Storage
    at_end = (record_exact_shadow_access later ptr2 count2 kind2 offset2 site2).storage

    -- A first access lies within an exact table of fewer than 2 ^ 29 cells. A second one follows on
    -- any storage whose table has as many cells, lies within it, and shares with the first a byte
    -- whose cell still holds what it held right after the first access. When one of the two is a
    -- store, their epochs agree modulo 2 ^ 10, their launches modulo 2 ^ 20, their subgroups differ
    -- modulo 2 ^ 10, by these fields the second thread holds no token that covers the first access
    -- when it makes its own, and before the second access the diagnostic buffer and its count are
    -- there, with a positive capacity, and the count and the cells of the table together below 2 ^
    -- 31, then a check of the host right after the second access does not pass, if a copy of the
    -- count to the host reads what the access left.
    pub racing_accesses_checked :
        (buffer : List Diagnostic) (n byte : ℕ)
        → Reads at_end
        → Emitted between buffer n
        → n + cells < 2 ^ 31
        → offset1 ≤ byte
        → byte < offset1 + count1
        → offset2 ≤ byte
        → byte < offset2 + count2
        → word between (byte / 4) ≡ word left (byte / 4)
        → Clash (access_of later kind2 site2) (access_of c1 kind1 site1)
        → current_access_acquired_prior_epoch between
            (subgroup_id c1 % 2 ^ 10)
            (subgroup_epoch c1 % 2 ^ 10)
            (subgroup_id later % 2 ^ 10)
          ≡ false
        → (check hip stream h m).0 ≡ false
    racing_accesses_checked buffer n byte reads e small lo1 hi1 lo2 hi2 untouched clash fresh =
        let (buffer', n', more, emitted) =
          racing_accesses_reported c1 c2 ptr1 count1 offset1 ptr2 count2 offset2 cells kind1 kind2
            site1 site2 table within1 within2 between kept buffer n byte e small lo1 hi1 lo2 hi2
            untouched clash fresh in
        Emitted-check at_end buffer' n' reads emitted (omega arith)
