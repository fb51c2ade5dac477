-- ===== src/SampledContext/Fast.antt =====
-- The access whose size is known at compile time skips the loop over chunks: it computes the range
-- at once, and its test of the range is one comparison.
use hip_moi.Prelude.{
  ℕ, zero, suc, ◌+◌, ◌-◌, ◌/◌, ◌^◌, ◌≤◌, ◌<◌, ◌≡◌, inl, inr, refl, sym, Bool, true, false, ◌||◌,
  leb, ltb, ◌==◌, if◌then◌else◌, Bool-cases, arith, ◌>>>◌, bit_and_ones,
}
use hip_moi.Common.Kinds.{SiteId, AccessKind, SampledWatchpointPolicy}
use hip_moi.Shadow.Sampled.{granule_shift, max_start, max_count}
use hip_moi.Context.Exact.{last_byte_offset}
use hip_moi.Context.Sampled.{each_chunk, chunk_of}
use hip_moi.SampledContext.{
  SampledWatchpointContext, record_range, record_chunks, record_runtime_access,
  max_spanned_sampled_cells, max_valid_sampled_start_byte, fits_sampled_encoding, spanned_cells,
  record_static_access, own_should_publish, own_sampled_selection_seed, sampled_storage_available,
}

no_chunk :
    {S : Type 0} (step : ℕ → ℕ → S → S) (fuel end_cell : ℕ) (s : S)
    → each_chunk step fuel end_cell end_cell s ≡ s
unfolding each_chunk
no_chunk step zero end_cell s = refl
no_chunk step (suc fuel) end_cell s =
    let done : ltb end_cell end_cell ≡ false = ground arith in rw done refl

-- A range of at most 32 cells is one chunk.
one_chunk :
    {S : Type 0} (step : ℕ → ℕ → S → S) (fuel start end_cell : ℕ) (s : S)
    → 0 < fuel
    → start < end_cell
    → end_cell ≤ start + 32
    → each_chunk step fuel start end_cell s ≡ step start (end_cell - start) s
unfolding each_chunk
one_chunk step zero start end_cell s positive some_cells few = absurd (omega arith)
one_chunk step (suc fuel) start end_cell s positive some_cells few =
    let more : ltb start end_cell ≡ true = ground arith in
    let whole : chunk_of (end_cell - start) ≡ end_cell - start = ground arith in
    let ends : start + (end_cell - start) ≡ end_cell = omega arith in
    rw (more, whole, ends) (no_chunk step fuel end_cell (step start (end_cell - start) s))

module _ (byte_count offset : ℕ) (positive : 0 < byte_count) (small : byte_count < 2 ^ 32)
    (offset_small : offset < 2 ^ 32) where
  abbrev start : ℕ
  start = offset >>> granule_shift

  abbrev end_cell : ℕ
  end_cell = (last_byte_offset offset byte_count >>> granule_shift) + 1

  end_lem : end_cell ≡ (offset + byte_count - 1) / 4 + 1
  end_lem = omega arith

  abbrev outside : Bool
  outside = ltb max_start start || ltb (max_start + 1) end_cell

  -- An access that no entry can encode is outside.
  unfit-outside : fits_sampled_encoding byte_count ≡ false → outside ≡ true
  unfolding fits_sampled_encoding
  unfit-outside h = ground (arith, end_lem)

  fit_lem : fits_sampled_encoding byte_count ≡ true → byte_count ≤ 65536
  unfolding fits_sampled_encoding
  fit_lem h = ground arith

  module _ (fits : byte_count ≤ 65536) where
    spanned_lem : spanned_cells byte_count offset ≡ end_cell - start
    spanned_lem = omega (arith, bit_and_ones 2 offset)

    outside_lem : outside ≡ ltb (max_valid_sampled_start_byte byte_count) offset
    unfolding max_valid_sampled_start_byte
    outside_lem = ground (arith, end_lem)

    few_cells : leb (max_spanned_sampled_cells byte_count) max_count ≡ true → end_cell ≤ start + 32
    unfolding max_spanned_sampled_cells
    few_cells h = ground (arith, end_lem)

  -- The loop, for an access that is short enough.
  short-record_chunks :
      (p : SampledWatchpointPolicy) (kind : AccessKind) (c : SampledWatchpointContext)
      → byte_count ≤ 65536
      → leb (max_spanned_sampled_cells byte_count) max_count ≡ true
      → record_chunks p byte_count kind offset c ≡ (
          if ltb (max_valid_sampled_start_byte byte_count) offset
          then c
          else record_range p kind start (spanned_cells byte_count offset) c)
  unfolding record_chunks
  short-record_chunks p kind c fits short =
      let some_cells : start < end_cell = omega (arith, end_lem) in
      let loop =
        one_chunk (record_range p kind) (end_cell - start) start end_cell c (omega arith) some_cells
          (few_cells fits short) in
      rw (outside_lem fits, spanned_lem fits, loop) refl

  unfit-record_chunks :
      (p : SampledWatchpointPolicy) (kind : AccessKind) (c : SampledWatchpointContext)
      → fits_sampled_encoding byte_count ≡ false
      → record_chunks p byte_count kind offset c ≡ c
  unfolding record_chunks
  unfit-record_chunks p kind c unfit = rw (unfit-outside unfit) refl

  -- For any non-empty access with a 32-bit size and offset, the access whose size is known at
  -- compile time, with its short cut past the loop, leaves the same context as the one whose size
  -- is known when it runs.
  pub record_static_access-record_runtime_access :
      (p : SampledWatchpointPolicy) (kind : AccessKind) (site : SiteId)
      (c : SampledWatchpointContext)
      → record_static_access p byte_count kind offset site c
        ≡ record_runtime_access p byte_count kind offset site c
  unfolding record_static_access record_runtime_access
  record_static_access-record_runtime_access p kind site c =
      let some_bytes : (byte_count == 0) ≡ false = ground arith in
      elim (Bool-cases (sampled_storage_available p c.storage)) [
        | inr off ↦ rw (some_bytes, off) refl
        | inl on ↦ elim (Bool-cases (own_should_publish p c (own_sampled_selection_seed c site))) [
          | inr skipped ↦ rw (some_bytes, on, skipped) refl
          | inl chosen ↦ elim (Bool-cases (fits_sampled_encoding byte_count)) [
            | inr unfit ↦
                rw (some_bytes, on, chosen, unfit) (sym (unfit-record_chunks p kind c unfit))
            | inl fit ↦ elim (Bool-cases (leb (max_spanned_sampled_cells byte_count) max_count)) [
              | inr long ↦ rw (some_bytes, on, chosen, fit, long) refl
              | inl short ↦
                  rw (some_bytes, on, chosen, fit, short)
                    (sym (short-record_chunks p kind c (fit_lem fit) short))
            ]
          ]
        ]
      ]
