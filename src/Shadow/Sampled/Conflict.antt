-- ===== src/Shadow/Sampled/Conflict.antt =====
-- When two sampled watchpoints conflict, in terms of the cells that they stand for.
use hip_moi.Prelude.{ℕ, ◌+◌, ◌^◌, ◌≤◌, ◌<◌, ◌≡◌, ◌≢◌, ◌↔◌, ◌⊎◌, true, false, arith, max}
use hip_moi.Shadow.Kinds.{read, write, shadow_kind_conflicts}
use hip_moi.Shadow.Sampled.{
  SampledWatchpointEntry, cell_ranges_overlap, sampled_watchpoints_conflict,
}

-- `cell` is one of the `count` cells from `start` on.
abbrev pub InRange : ℕ → ℕ → ℕ → Type 0
InRange start count cell = (start ≤ cell) × (cell < start + count)

-- For non-empty cell ranges that end below 2 ^ 32, the overlap test holds exactly when some cell
-- lies in both.
pub overlap_iff :
    (s n t m : ℕ)
    → 0 < n
    → 0 < m
    → s + n < 2 ^ 32
    → t + m < 2 ^ 32
    → (cell_ranges_overlap s n t m ≡ true) ↔ ((cell : ℕ) × InRange s n cell × InRange t m cell)
unfolding cell_ranges_overlap
overlap_iff s n t m hn hm hs ht =
    (λ h. (max s t, ground arith, ground arith), λ (cell, p, q). ground arith)

-- Two watchpoints that stand for plain reads or writes.
abbrev pub Plain : SampledWatchpointEntry → Type 0
Plain e = (e.kind ≡ read) ⊎ (e.kind ≡ write)

pub record RangeClash (a b : SampledWatchpointEntry) : Type 0 where
  pub both_valid : (a.valid ≡ true) × (b.valid ≡ true)
  pub unconsumed : b.consumed ≡ false
  pub a_write : (a.kind ≡ write) ⊎ (b.kind ≡ write)
  pub epochs : a.epoch ≡ b.epoch
  pub generations : a.generation ≡ b.generation
  pub owners : a.owner_id ≢ b.owner_id
  pub overlap :
      (cell : ℕ) × InRange a.start_cell a.cell_count cell × InRange b.start_cell b.cell_count cell

-- The range is not empty and does not wrap, as those of decoded words.
abbrev pub IsRange : SampledWatchpointEntry → Type 0
IsRange e = (0 < e.cell_count) × (e.start_cell + e.cell_count < 2 ^ 32)

conflict_parts :
    (a b : SampledWatchpointEntry)
    → Plain a
    → Plain b
    → (sampled_watchpoints_conflict a b ≡ true) ↔ (
        (a.valid ≡ true)
        × (b.valid ≡ true)
        × (b.consumed ≡ false)
        × ((a.kind ≡ write) ⊎ (b.kind ≡ write))
        × (a.epoch ≡ b.epoch)
        × (a.generation ≡ b.generation)
        × (a.owner_id ≢ b.owner_id)
        × (cell_ranges_overlap a.start_cell a.cell_count b.start_cell b.cell_count ≡ true))
unfolding sampled_watchpoints_conflict shadow_kind_conflicts cell_ranges_overlap
conflict_parts a b pa pb = ground arith

-- Between watchpoints of reads and writes over non-empty ranges that do not wrap, the conflict test
-- holds exactly when both are valid, the prior one is not consumed, one of them is a write, epoch
-- and generation agree, the owners differ, and some cell lies in both ranges.
pub watchpoints_conflict_iff :
    (a b : SampledWatchpointEntry)
    → Plain a
    → Plain b
    → IsRange a
    → IsRange b
    → (sampled_watchpoints_conflict a b ≡ true) ↔ RangeClash a b
watchpoints_conflict_iff a b pa pb ra rb =
    let shared =
      overlap_iff a.start_cell a.cell_count b.start_cell b.cell_count ra.0 rb.0 ra.1 rb.1 in
    let parts = conflict_parts a b pa pb in
    (
      λ h.
          let (va, vb, c, w, e, g, o, both) = parts.0 h in
          record {
            both_valid = (va, vb);
            unconsumed = c;
            a_write = w;
            epochs = e;
            generations = g;
            owners = o;
            overlap = shared.0 both;
          },
      λ r. parts.1 (
        r.both_valid.0,
        r.both_valid.1,
        r.unconsumed,
        r.a_write,
        r.epochs,
        r.generations,
        r.owners,
        shared.1 r.overlap,
      ),
    )
