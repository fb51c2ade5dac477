-- ===== src/Host/Layout/Growth.antt =====
-- How the layout grows with the table of words of the backend.
use hip_moi.Prelude.{
  ℕ, zero, suc, ◌+◌, ◌*◌, ◌%◌, ◌^◌, ◌≤◌, ◌<◌, ◌≡◌, inl, inr, refl, Bool-cases, some, Option-cases,
  List, [], ◌∷◌, ◌++◌, ℤ, pos, is_pos, arith, u64,
}
use hip_moi.Common.Kinds.{BackendKind, exact_shadow, sampled_watchpoint}
use hip_moi.Host.{
  Slice, align_up, slice_bytes, slice_of, append_slice_size, append_slices, Capacities,
  first_slices, layout_byte_count, checked_capacity, acquired_subgroup_epoch_token_count,
}
use hip_moi.Host.Slices.{worst, Aligned, align_up_lem, u32_of_int-lt}

-- One slice takes its bytes and less than its alignment more.
append-le :
    (s : Slice) (offset : ℕ)
    → 0 < s.alignment
    → offset + (s.alignment + slice_bytes s) < 2 ^ 64
    → (offset ≤ append_slice_size offset s)
      × (append_slice_size offset s ≤ offset + (s.alignment + slice_bytes s))
unfolding append_slice_size
append-le s offset positive small =
    let (lo, hi, _) = align_up_lem offset s.alignment positive (omega arith) in
    elim (Bool-cases (is_pos s.capacity)) [
      | inr absent ↦ rw absent (omega arith, omega arith)
      | inl there ↦ rw there (omega arith, omega arith)
    ]

append_slices-le :
    (slices : List Slice) (offset : ℕ)
    → Aligned slices
    → offset + worst slices < 2 ^ 64
    → append_slices offset slices ≤ offset + worst slices
unfolding append_slices
append_slices-le [] offset aligned small = omega arith
append_slices-le (s ∷ slices) offset aligned small =
    let (lo, hi) = append-le s offset aligned.0 (omega arith) in
    let rest = append_slices-le slices (append_slice_size offset s) aligned.1 (omega arith) in
    omega arith

-- The table of 8-byte words with `n` elements.
abbrev words : ℕ → Slice
words n = slice_of (pos n) 8 8

align_up-aligned : (offset : ℕ) → offset % 8 ≡ 0 → align_up offset 8 ≡ offset
unfolding align_up
align_up-aligned offset even = ground arith

word_bytes : (n : ℕ) → n < 2 ^ 31 → slice_bytes (words n) ≡ 8 * n
word_bytes n few = omega arith

after_grows :
    (offset n : ℕ)
    → offset < 2 ^ 62
    → n < 2 ^ 31
    → append_slice_size offset (words n) ≤ append_slice_size offset (words 0) + 8 * n + 7
unfolding append_slice_size
after_grows offset zero small few = omega arith
after_grows offset (suc n) small few =
    let (lo, hi, _) = align_up_lem offset 8 (omega arith) (omega arith) in
    omega (arith, word_bytes (suc n) few)

-- A table of `n` words before another slice of words, against an empty one.
before_grows :
    (offset n : ℕ) (other : ℤ)
    → offset < 2 ^ 62
    → n < 2 ^ 31
    → append_slice_size (append_slice_size offset (words n)) (slice_of other 8 8)
      ≤ append_slice_size (append_slice_size offset (words 0)) (slice_of other 8 8) + 8 * n + 7
unfolding append_slice_size
before_grows offset zero other small few = omega arith
before_grows offset (suc n) other small few =
    let (lo, hi, even) = align_up_lem offset 8 (omega arith) (omega arith) in
    let here : u64 (align_up offset 8 + slice_bytes (words (suc n)))
        ≡ align_up offset 8 + 8 * suc n =
      omega (arith, word_bytes (suc n) few) in
    let next : align_up (align_up offset 8 + 8 * suc n) 8 ≡ align_up offset 8 + 8 * suc n =
      align_up-aligned (align_up offset 8 + 8 * suc n) (omega arith) in
    elim (Bool-cases (is_pos other)) [
      | inr absent ↦ rw (here, absent) (omega arith)
      | inl there ↦ rw (here, there, next) (omega (arith, u32_of_int-lt other))
    ]

-- The slices before the two tables.
abbrev six : Capacities → ℤ → List Slice
six c k =
    first_slices c
    ++ slice_of (pos 2) 4 4
      ∷ slice_of c.atomic_object_capacity 32 8
      ∷ slice_of c.atomic_object_capacity 24 8
      ∷ slice_of k 4 4
      ∷ []

six-lt : (c : Capacities) (k : ℤ) → append_slices 0 (six c k) < 2 ^ 61
six-lt c k =
    let bound : 0 + worst (six c k) < 2 ^ 61 = omega (
      arith,
      u32_of_int-lt c.diagnostic_capacity,
      u32_of_int-lt c.subgroup_capacity,
      u32_of_int-lt c.atomic_object_capacity,
      u32_of_int-lt k,
    ) in
    omega (arith, bound, append_slices-le (six c k) 0 (ground arith) (omega (arith, bound)))

-- A slice of words after the six.
seven-lt :
    (c : Capacities) (k words_capacity : ℤ)
    → append_slice_size (append_slices 0 (six c k)) (slice_of words_capacity 8 8) < 2 ^ 62
seven-lt c k words_capacity =
    let few = u32_of_int-lt words_capacity in
    let s = slice_of words_capacity 8 8 in
    let room : append_slices 0 (six c k) + (8 + slice_bytes s) < 2 ^ 62 =
      omega (arith, six-lt c k, few) in
    omega (arith, room, append-le s (append_slices 0 (six c k)) (omega arith) (omega (arith, room)))

-- The capacities with `n` elements in the table of the backend.
abbrev pub with_table : BackendKind → Capacities → ℕ → Capacities
with_table exact_shadow c n = record c { exact_shadow_entry_capacity = pos n }
with_table sampled_watchpoint c n = record c { sampled_watchpoint_capacity = pos n }

pub layout_grows :
    (b : BackendKind) (c : Capacities) (n : ℕ) {bytes : ℕ}
    → n < 2 ^ 31
    → layout_byte_count (with_table b c 0) ≡ some bytes
    → (bytes' : ℕ) × (layout_byte_count (with_table b c n) ≡ some bytes')
      × (bytes' ≤ bytes + 8 * n + 7)
unfolding layout_byte_count append_slices
layout_grows exact_shadow c n {bytes} few h =
    elim (Option-cases (checked_capacity (acquired_subgroup_epoch_token_count c))) [
      | inl aborts ↦ cc (rw aborts at h)
      | inr (k, found) ↦
          let off = append_slices 0 (six c k) in
          let other = c.sampled_watchpoint_capacity in
          let was : append_slice_size (append_slice_size off (words 0)) (slice_of other 8 8)
              ≡ bytes =
            cc (rw found at h) in
          (
            append_slice_size (append_slice_size off (words n)) (slice_of other 8 8),
            rw found refl,
            omega (arith, was, before_grows off n other (omega (arith, six-lt c k)) few),
          )
    ]
layout_grows sampled_watchpoint c n {bytes} few h =
    elim (Option-cases (checked_capacity (acquired_subgroup_epoch_token_count c))) [
      | inl aborts ↦ cc (rw aborts at h)
      | inr (k, found) ↦
          let off = append_slices 0 (six c k) in
          let e = append_slice_size off (slice_of c.exact_shadow_entry_capacity 8 8) in
          let was : append_slice_size e (words 0) ≡ bytes = cc (rw found at h) in
          (
            append_slice_size e (words n),
            rw found refl,
            omega (arith, was, after_grows e n (seven-lt c k c.exact_shadow_entry_capacity) few),
          )
    ]
