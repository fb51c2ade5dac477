-- ===== src/Host/Slices.antt =====
-- The slices of the host's buffer are aligned, in order and disjoint, and end where the layout does.
use native.Mathlib.Nat.{le_refl, mod-lt, mod-add-div, mul-suc, mul-mod_right}
use hip_moi.Prelude.{
  ℕ, ◌+◌, ◌-◌, ◌*◌, ◌/◌, ◌%◌, ◌^◌, ◌≤◌, ◌<◌, ◌≡◌, ◌≢◌, inl, inr, refl, sym, ap, ◌∙◌, ◌==◌, true,
  false, Bool-cases, Option-cases, arith, u64, Option, none, some, List, [], ◌∷◌, ◌++◌, ℤ, pos,
  negsuc, is_pos, u32_of_int,
}
use hip_moi.Host.{
  Slice, align_up, slice_bytes, append_slice_size, assign_slice, append_slices, assign_slices,
  Capacities, first_slices, last_slices, slice_of, assign_layout_slices, layout_byte_count,
  checked_capacity, acquired_subgroup_epoch_token_count,
}
use mathlib.Core.Option

-- Enough room that no offset wraps.
abbrev pub worst : List Slice → ℕ
worst [] = 0
worst (s ∷ slices) = s.alignment + slice_bytes s + worst slices

abbrev pub Aligned : List Slice → Type 0
Aligned [] = worst [] ≡ 0
Aligned (s ∷ slices) = (0 < s.alignment) × Aligned slices

-- The slices with a positive capacity begin at `starts`, in order from `offset` on, each behind the
-- one before, and end at `end`; the others have no start.
abbrev pub Packed : ℕ → List Slice → List (Option ℕ) → ℕ → Type 0
Packed offset [] [] end = offset ≡ end
Packed offset (s ∷ slices) (none ∷ starts) end =
    (is_pos s.capacity ≡ false) × Packed offset slices starts end
Packed offset (s ∷ slices) (some start ∷ starts) end =
    (is_pos s.capacity ≡ true)
    × (offset ≤ start)
    × (start % s.alignment ≡ 0)
    × Packed (start + slice_bytes s) slices starts end
Packed offset _ _ end = worst [] ≢ 0

pub align_up_lem :
    (offset alignment : ℕ)
    → 0 < alignment
    → offset + alignment < 2 ^ 64
    → (offset ≤ align_up offset alignment)
      × (align_up offset alignment < offset + alignment)
      × (align_up offset alignment % alignment ≡ 0)
unfolding align_up
align_up_lem offset alignment h small =
    let r = offset % alignment in
    elim (Bool-cases (r == 0)) [
      | inl even ↦ rw even (le_refl offset, omega arith, ground arith)
      | inr odd ↦
          let less : r < alignment = mod-lt offset h in
          let whole = mod-add-div offset alignment in
          let sum : offset + (alignment - r) ≡ alignment * (offset / alignment + 1) =
            omega (arith, mul-suc alignment (offset / alignment)) in
          let positive : 0 < r = ground arith in
          let held : u64 (offset + (alignment - r)) ≡ offset + (alignment - r) = omega arith in
          let even : (offset + (alignment - r)) % alignment ≡ 0 =
            rw sum (mul-mod_right alignment (offset / alignment + 1)) in
          rw (odd, held) (omega arith, omega arith, even)
    ]

pub assign_slices-Packed :
    (slices : List Slice) (offset : ℕ)
    → Aligned slices
    → offset + worst slices < 2 ^ 64
    → Packed offset slices (assign_slices offset slices).0 (assign_slices offset slices).1
unfolding assign_slices assign_slice
assign_slices-Packed [] offset aligned small = refl
assign_slices-Packed (s ∷ slices) offset aligned small = elim (Bool-cases (is_pos s.capacity)) [
  | inr absent ↦ rw absent (absent, assign_slices-Packed slices offset aligned.1 (omega arith))
  | inl there ↦
      let (lo, hi, even) = align_up_lem offset s.alignment aligned.0 (omega arith) in
      let start = align_up offset s.alignment in
      let next : u64 (start + slice_bytes s) ≡ start + slice_bytes s = omega arith in
      rw (there, next)
        (
          there,
          lo,
          even,
          assign_slices-Packed slices (start + slice_bytes s) aligned.1 (omega arith),
        )
]

-- The bytes that the layout counts are those that the assignment uses.
pub assign_slices-append_slices :
    (slices : List Slice) (offset : ℕ)
    → (assign_slices offset slices).1 ≡ append_slices offset slices
unfolding assign_slices append_slices assign_slice append_slice_size
assign_slices-append_slices [] offset = refl
assign_slices-append_slices (s ∷ slices) offset = elim (Bool-cases (is_pos s.capacity)) [
  | inr absent ↦ rw absent (assign_slices-append_slices slices offset)
  | inl there ↦
      rw there
        (assign_slices-append_slices slices (u64 (align_up offset s.alignment + slice_bytes s)))
]

pub append_slices-append :
    (xs ys : List Slice) (offset : ℕ)
    → append_slices offset (xs ++ ys) ≡ append_slices (append_slices offset xs) ys
unfolding append_slices
append_slices-append [] ys offset = refl
append_slices-append (x ∷ xs) ys offset = append_slices-append xs ys (append_slice_size offset x)

-- Two counters in one slice, or each in a slice of its own.
counters_lem :
    (offset : ℕ)
    → append_slice_size (append_slice_size offset (slice_of (pos 1) 4 4)) (slice_of (pos 1) 4 4)
      ≡ append_slice_size offset (slice_of (pos 2) 4 4)
unfolding append_slice_size align_up
counters_lem offset = ground arith

-- The layout that the host assigns ends where the one that it counts does, or both abort.
pub assign_layout_slices-layout_byte_count :
    (c : Capacities)
    → Option.map (λ (l : List (Option ℕ) × ℕ). l.1) (assign_layout_slices c) ≡ layout_byte_count c
unfolding assign_layout_slices layout_byte_count append_slices
assign_layout_slices-layout_byte_count c =
    elim (Option-cases (checked_capacity (acquired_subgroup_epoch_token_count c))) [
      | inl aborts ↦ simp aborts refl
      | inr (k, e) ↦
          let assigned =
            assign_slices-append_slices
              (first_slices c ++ slice_of (pos 1) 4 4 ∷ slice_of (pos 1) 4 4 ∷ last_slices c k) 0 in
          simp e (
            ap some (
              assigned
              ∙ ap (λ o. append_slices o (last_slices c k))
                  (counters_lem (append_slices 0 (first_slices c)))))
    ]

pub u32_of_int-lt : (x : ℤ) → u32_of_int x < 2 ^ 32
u32_of_int-lt (pos n) = omega arith
u32_of_int-lt (negsuc n) = omega arith

-- The slices of the layout for `k` tokens.
abbrev pub layout_slices : Capacities → ℤ → List Slice
layout_slices c k = first_slices c ++ slice_of (pos 1) 4 4 ∷ slice_of (pos 1) 4 4 ∷ last_slices c k

layout-worst : (c : Capacities) (k : ℤ) → 0 + worst (layout_slices c k) < 2 ^ 64
layout-worst c k = omega (
  arith,
  u32_of_int-lt c.diagnostic_capacity,
  u32_of_int-lt c.subgroup_capacity,
  u32_of_int-lt c.atomic_object_capacity,
  u32_of_int-lt k,
  u32_of_int-lt c.exact_shadow_entry_capacity,
  u32_of_int-lt c.sampled_watchpoint_capacity,
)

layout-Aligned : (c : Capacities) (k : ℤ) → Aligned (layout_slices c k)
layout-Aligned c k = ground arith

-- When the number of tokens fits an `int`, the host assigns a slice of its buffer to each array
-- with a positive capacity, and to no other: the slices are aligned, in order, each behind the one
-- before and without a wrap, and the last one ends at the byte count that the layout computes.
pub assign_layout_slices-Packed :
    (c : Capacities) (k : ℤ)
    → checked_capacity (acquired_subgroup_epoch_token_count c) ≡ some k
    → (starts : List (Option ℕ)) × (end : ℕ) × (assign_layout_slices c ≡ some (starts, end))
      × (layout_byte_count c ≡ some end)
      × Packed 0 (layout_slices c k) starts end
unfolding assign_layout_slices
assign_layout_slices-Packed c k e =
    let assigned = assign_slices 0 (layout_slices c k) in
    let is : assign_layout_slices c ≡ some assigned = simp e refl in
    (
      assigned.0,
      assigned.1,
      is,
      sym (assign_layout_slices-layout_byte_count c)
          ∙ ap (λ o. Option.map (λ (l : List (Option ℕ) × ℕ). l.1) o) is,
      assign_slices-Packed (layout_slices c k) 0 (layout-Aligned c k) (layout-worst c k),
    )
