-- ===== src/Host/Layout/Contained.antt =====
-- The slices of the chosen capacities lie in the host's buffer.
use hip_moi.Prelude.{
  ℕ, ◌+◌, ◌%◌, ◌≤◌, ◌≡◌, inl, inr, refl, true, Option, none, some, Option-cases, List, [], ◌∷◌, ℤ,
  is_pos, arith,
}
use hip_moi.Host.{
  Slice, slice_bytes, Capacities, layout_byte_count, assign_layout_slices, checked_capacity,
  acquired_subgroup_epoch_token_count,
}
use hip_moi.Host.Slices.{Packed, layout_slices, assign_layout_slices-Packed}
use hip_moi.Host.Layout.{HostContextOptions, backend_capacity, compute_layout}
use hip_moi.Host.Layout.Budget.{compute_layout-Settled}

-- Each slice is aligned and lies below `limit`, as far as it is assigned.
abbrev pub Contained : ℕ → List Slice → List (Option ℕ) → Type 0
Contained limit [] starts = starts ≡ []
Contained limit (s ∷ slices) (none ∷ starts) = Contained limit slices starts
Contained limit (s ∷ slices) (some start ∷ starts) =
    (start % s.alignment ≡ 0) × (start + slice_bytes s ≤ limit) × Contained limit slices starts
Contained limit (s ∷ slices) [] = ◌≡◌ {A = ℕ} 0 1

Packed-le :
    (slices : List Slice) (starts : List (Option ℕ)) (offset end : ℕ)
    → Packed offset slices starts end
    → offset ≤ end
Packed-le [] [] offset end p = omega arith
Packed-le [] (x ∷ xs) offset end p = absurd (p refl)
Packed-le (s ∷ slices) [] offset end p = absurd (p refl)
Packed-le (s ∷ slices) (none ∷ starts) offset end p = Packed-le slices starts offset end p.1
Packed-le (s ∷ slices) (some start ∷ starts) offset end p =
    omega (arith, Packed-le slices starts (start + slice_bytes s) end p.3)

pub Packed-Contained :
    (slices : List Slice) (starts : List (Option ℕ)) (offset end limit : ℕ)
    → end ≤ limit
    → Packed offset slices starts end
    → Contained limit slices starts
Packed-Contained [] [] offset end limit h p = refl
Packed-Contained [] (x ∷ xs) offset end limit h p = absurd (p refl)
Packed-Contained (s ∷ slices) [] offset end limit h p = absurd (p refl)
Packed-Contained (s ∷ slices) (none ∷ starts) offset end limit h p =
    Packed-Contained slices starts offset end limit h p.1
Packed-Contained (s ∷ slices) (some start ∷ starts) offset end limit h p = (
  p.2,
  omega (arith, Packed-le slices starts (start + slice_bytes s) end p.3),
  Packed-Contained slices starts (start + slice_bytes s) end limit h p.3,
)

pub token_capacity :
    (c : Capacities) {bytes : ℕ}
    → layout_byte_count c ≡ some bytes
    → (k : ℤ) × (checked_capacity (acquired_subgroup_epoch_token_count c) ≡ some k)
unfolding layout_byte_count
token_capacity c h =
    elim (Option-cases (checked_capacity (acquired_subgroup_epoch_token_count c))) [
      | inl aborts ↦ absurd (cc (rw aborts at h))
      | inr found ↦ found
    ]

-- When the host does not abort on its options, the slices that it assigns end at the byte count of
-- the layout, each one is aligned and lies within the storage bytes that the host allocates, and
-- the buffer of diagnostics and the table of the backend are not empty.
pub compute_layout-Contained :
    (o : HostContextOptions) {c : Capacities} {layout_bytes : ℕ}
    → compute_layout o ≡ some (c, layout_bytes)
    → (k : ℤ) × (starts : List (Option ℕ)) × (assign_layout_slices c ≡ some (starts, layout_bytes))
      × Contained o.storage_bytes (layout_slices c k) starts
      × (is_pos c.diagnostic_capacity ≡ true)
      × (is_pos (backend_capacity o.backend c) ≡ true)
compute_layout-Contained o {c} {layout_bytes} h =
    let s = compute_layout-Settled o h in
    let (k, tokens) = token_capacity c s.counted in
    let (starts, end, assigned, counted, packed) = assign_layout_slices-Packed c k tokens in
    let same : end ≡ layout_bytes = cc s.counted in
    let fits : end ≤ o.storage_bytes = omega (arith, s.fits) in
    (
      k,
      starts,
      rw same at assigned,
      Packed-Contained (layout_slices c k) starts 0 end o.storage_bytes fits packed,
      s.diagnostics,
      s.table,
    )
