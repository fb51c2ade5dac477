-- ===== src/Host/Device/Regions.antt =====
-- What the host clears lies in its allocation.
use hip_moi.Prelude.{
  ℕ, zero, suc, ◌+◌, ◌*◌, ◌%◌, ◌^◌, ◌≤◌, ◌≡◌, inl, inr, refl, sym, subst, ◌∙◌, true, false,
  Bool-cases, Option, none, some, List, [], ◌∷◌, ℤ, pos, negsuc, is_pos, arith, u64,
}
use mathlib.Core.Option
use hip_moi.Host.{
  Slice, slice_bytes, Capacities, size_of_int, assign_layout_slices, assign_slices, assign_slice,
  align_up, checked_capacity, acquired_subgroup_epoch_token_count,
}
use hip_moi.Host.Slices.{layout_slices, assign_layout_slices-Packed}
use hip_moi.Host.Layout.{HostContextOptions, is_auto_capacity, validate_options, compute_layout}
use hip_moi.Host.Layout.Budget.{checked_value, compute_layout-Settled}
use hip_moi.Host.Layout.Contained.{Contained, Packed-Contained, token_capacity}
use hip_moi.Host.Layout.Counts.{IsCount, IntOptions, positive-IsCount, compute_layout-TablesCount}
use hip_moi.Host.Device.Construction.{some_pair, construct-allocate, allocate-allocated}
use hip_moi.Host.Device.{Runtime, HostContext, construct, pointers_at, cleared_regions}

-- Each region is empty, or lies in the `limit` bytes at `base`.
abbrev pub Inside : ℕ → ℕ → List (Option ℕ × ℕ) → Type 0
Inside base limit [] = ◌≡◌ {A = ℕ} 0 0
Inside base limit ((none, byte_count) ∷ regions) = (byte_count ≡ 0) × Inside base limit regions
Inside base limit ((some ptr, byte_count) ∷ regions) =
    (base ≤ ptr) × (ptr + byte_count ≤ base + limit) × Inside base limit regions

-- The regions of slices that begin at `starts`.
abbrev regions_at : ℕ → List Slice → List (Option ℕ) → List (Option ℕ × ℕ)
regions_at base [] starts = []
regions_at base (s ∷ slices) [] = []
regions_at base (s ∷ slices) (start ∷ starts) =
    (Option.map (λ offset. base + offset) start, u64 (size_of_int s.capacity * s.size))
    ∷ regions_at base slices starts

-- No capacity is negative, or too large for an `int`.
abbrev Counted : List Slice → Type 0
Counted [] = ◌≡◌ {A = ℕ} 0 0
Counted (s ∷ slices) = IsCount s.capacity × Counted slices

region_bytes :
    (s : Slice) → IsCount s.capacity → u64 (size_of_int s.capacity * s.size) ≡ slice_bytes s
region_bytes s (n, same, small) = let held : n % 2 ^ 32 ≡ n = omega arith in rw (same, held) refl

empty_region :
    (s : Slice)
    → IsCount s.capacity
    → is_pos s.capacity ≡ false
    → u64 (size_of_int s.capacity * s.size) ≡ 0
empty_region s (zero, same, small) absent = rw same (omega arith)
empty_region s (suc n, same, small) absent = absurd (cc (rw same at absent))

regions_at-Inside :
    (base limit : ℕ) (slices : List Slice) (offset : ℕ)
    → Counted slices
    → Contained limit slices (assign_slices offset slices).0
    → Inside base limit (regions_at base slices (assign_slices offset slices).0)
unfolding assign_slices assign_slice
regions_at-Inside base limit [] offset counted inside = refl
regions_at-Inside base limit (s ∷ slices) offset counted inside =
    elim (Bool-cases (is_pos s.capacity)) [
      | inr absent ↦ rw absent (
        empty_region s counted.0 absent,
        regions_at-Inside base limit slices offset counted.1 (rw absent at inside),
      )
      | inl there ↦
          let at_start = rw there at inside in
          rw there (
            omega arith,
            omega (arith, region_bytes s counted.0, at_start.1),
            regions_at-Inside base limit slices (u64 (align_up offset s.alignment + slice_bytes s))
                counted.1 at_start.2,
          )
    ]

-- What the host clears are the slices that it assigns.
cleared_regions-regions_at :
    (c : Capacities) (base : ℕ) (k : ℤ)
    → pos (acquired_subgroup_epoch_token_count c) ≡ k
    → cleared_regions c (pointers_at base (assign_slices 0 (layout_slices c k)).0)
      ≡ regions_at base (layout_slices c k) (assign_slices 0 (layout_slices c k)).0
unfolding assign_slices pointers_at
cleared_regions-regions_at c base k same = rw (← same) refl

positive_given : (x : ℤ) → is_pos x ≡ true → is_auto_capacity x ≡ false
positive_given (pos n) h = refl
positive_given (negsuc n) h = absurd (cc)

validated-subgroups :
    (o : HostContextOptions) → validate_options o ≡ some tt → is_pos o.subgroup_capacity ≡ true
unfolding validate_options
validated-subgroups o valid = elim (Bool-cases (is_pos o.subgroup_capacity)) [
  | inl there ↦ there
  | inr absent ↦ absurd (ground (arith, absent))
]

layout_slices-Counted :
    (o : HostContextOptions) {c : Capacities} {layout_bytes : ℕ} (k : ℤ)
    → IntOptions o
    → validate_options o ≡ some tt
    → compute_layout o ≡ some (c, layout_bytes)
    → checked_capacity (acquired_subgroup_epoch_token_count c) ≡ some k
    → Counted (layout_slices c k)
layout_slices-Counted o {c} k ints valid laid tokens =
    let t = compute_layout-TablesCount o ints laid in
    let f = (compute_layout-Settled o laid).given in
    let (value, small) = checked_value (acquired_subgroup_epoch_token_count c) tokens in
    let atomics : IsCount c.atomic_object_capacity = (2 ^ f.atomics.0, f.atomics.1, f.atomics.2) in
    let subgroups : IsCount c.subgroup_capacity = subst IsCount (sym f.subgroups) (
      positive-IsCount o.subgroup_capacity
        (positive_given o.subgroup_capacity (validated-subgroups o valid)) ints.subgroups) in
    let one : IsCount (pos 1) = (1, refl, omega arith) in
    let tokens_count : IsCount k = (acquired_subgroup_epoch_token_count c, sym value, small) in
    (t.2, (subgroups, (one, (one, (atomics, (atomics, (tokens_count, (t.0, (t.1, refl)))))))))

laid_out-Inside :
    (o : HostContextOptions) (c : Capacities) (base : ℕ) {bytes end : ℕ} {starts : List (Option ℕ)}
    → IntOptions o
    → validate_options o ≡ some tt
    → compute_layout o ≡ some (c, bytes)
    → assign_layout_slices c ≡ some (starts, end)
    → Inside base o.storage_bytes (cleared_regions c (pointers_at base starts))
unfolding assign_layout_slices
laid_out-Inside o c base {bytes} {end} {starts} ints valid laid assigned =
    let settled = compute_layout-Settled o laid in
    let (k, found) = token_capacity c settled.counted in
    let (begins, stop, is, counted, packed) = assign_layout_slices-Packed c k found in
    let slices = layout_slices c k in
    let all : assign_layout_slices c ≡ some (assign_slices 0 slices) = simp found refl in
    let (same_begins, _) = some_pair (sym is ∙ all) in
    let (same_starts, _) = some_pair (sym all ∙ assigned) in
    let same_stop : stop ≡ bytes = cc settled.counted in
    let contained =
      Packed-Contained slices begins 0 stop o.storage_bytes (omega (arith, settled.fits)) packed in
    let inside =
      regions_at-Inside base o.storage_bytes slices 0
        (layout_slices-Counted o k ints valid laid found)
        (subst (Contained o.storage_bytes slices) same_begins contained) in
    let regions = cleared_regions-regions_at c base k (checked_value _ found).0 in
    subst (λ l. Inside base o.storage_bytes (cleared_regions c (pointers_at base l))) same_starts
      (subst (Inside base o.storage_bytes) (sym regions) inside)

module _ {M : Type 0} (hip : Runtime M) where
  -- When a host context is constructed and its options hold values of an `int`, each array that the
  -- host clears is empty or lies within the storage bytes that it has allocated.
  pub construct-Inside :
      (o : HostContextOptions) (m m' : M) (h : HostContext)
      → IntOptions o
      → construct hip o m ≡ some (h, m')
      → (base : ℕ) × (h.device_storage ≡ some base)
        × Inside base o.storage_bytes (cleared_regions h.capacities h.pointers)
  construct-Inside o m m' h ints e =
      let (m1, valid, e1) = construct-allocate hip o m m' h e in
      let (c, bytes, base, starts, end, laid, assigned, same) =
        allocate-allocated hip o m m1 h e1 in
      subst
        (λ x.
          (base : ℕ) × (x.device_storage ≡ some base)
          × Inside base o.storage_bytes (cleared_regions x.capacities x.pointers))
        same (base, refl, laid_out-Inside o c base ints valid laid assigned)
