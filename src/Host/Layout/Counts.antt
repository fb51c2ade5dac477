-- ===== src/Host/Layout/Counts.antt =====
-- The capacities that the host chooses are not negative.
use hip_moi.Prelude.{
  ℕ, zero, suc, ◌-◌, ◌^◌, ◌<◌, ◌≡◌, inl, inr, refl, sym, subst, false, ◌&&◌, ltb, leb, Bool-cases,
  Option-cases, some, ℤ, pos, negsuc, is_pos, if◌then◌else◌, bind-some, guard-some, arith,
}
use hip_moi.Common.Kinds.{BackendKind, exact_shadow, sampled_watchpoint}
use hip_moi.Host.{Capacities, layout_byte_count}
use hip_moi.Host.Layout.{
  HostContextOptions, is_auto_capacity, fixed_with, auto_atomic_object_capacity, decrement,
  chosen_diagnostic_capacity, auto_diagnostic_capacity, capacity_from_bytes,
  shrink_one_auto_capacity, shrink_auto_capacities, shrink_fuel, fixed_capacities, fill_capacities,
  backend_capacity, compute_layout,
}
use hip_moi.Host.Layout.Budget.{checked_value, some_pair}

abbrev pub IsCount : ℤ → Type 0
IsCount x = (n : ℕ) × (x ≡ pos n) × (n < 2 ^ 31)

-- The capacities that the options may leave to the host.
abbrev pub TablesCount : Capacities → Type 0
TablesCount c =
    IsCount c.exact_shadow_entry_capacity
    × IsCount c.sampled_watchpoint_capacity
    × IsCount c.diagnostic_capacity

-- What an `int` holds.
abbrev pub IsInt : ℤ → Type 0
IsInt (pos n) = n < 2 ^ 31
IsInt (negsuc n) = n < 2 ^ 31

pub record IntOptions (o : HostContextOptions) : Type 0 where
  pub exact : IsInt o.exact_shadow_entry_capacity
  pub sampled : IsInt o.sampled_watchpoint_capacity
  pub diagnostics : IsInt o.diagnostic_capacity
  pub subgroups : IsInt o.subgroup_capacity

given-IsCount : (x : ℤ) → IsInt x → IsCount (if is_auto_capacity x then pos 0 else x)
given-IsCount (pos n) int = (n, refl, int)
given-IsCount (negsuc n) int = (0, refl, omega arith)

pub positive-IsCount : (x : ℤ) → is_auto_capacity x ≡ false → IsInt x → IsCount x
positive-IsCount (pos n) given int = (n, refl, int)
positive-IsCount (negsuc n) given int = absurd (cc)

chosen-IsCount :
    (o : HostContextOptions) (k : ℤ)
    → IsInt o.diagnostic_capacity
    → chosen_diagnostic_capacity o ≡ some k
    → IsCount k
unfolding chosen_diagnostic_capacity auto_diagnostic_capacity
chosen-IsCount o k int h = elim (Bool-cases (is_auto_capacity o.diagnostic_capacity)) [
  | inl auto ↦ let (same, small) = checked_value _ (rw auto at h) in (_, sym same, small)
  | inr given ↦
      let same : o.diagnostic_capacity ≡ k = cc (rw given at h) in
      subst IsCount same (positive-IsCount o.diagnostic_capacity given int)
]

fixed-TablesCount :
    (o : HostContextOptions) {c : Capacities}
    → IntOptions o
    → fixed_capacities o ≡ some c
    → TablesCount c
unfolding fixed_capacities
fixed-TablesCount o {c} ints h =
    let (atomic, he, h1) = bind-some (auto_atomic_object_capacity o.storage_bytes) _ h in
    let (diagnostic, hd, h2) = bind-some (chosen_diagnostic_capacity o) _ h1 in
    let same : fixed_with o atomic diagnostic ≡ c = cc in
    subst TablesCount same (
      given-IsCount o.exact_shadow_entry_capacity ints.exact,
      given-IsCount o.sampled_watchpoint_capacity ints.sampled,
      chosen-IsCount o diagnostic ints.diagnostics hd,
    )

capacity_from_bytes-IsCount :
    (bytes size : ℕ) → (k : ℤ) → capacity_from_bytes bytes size ≡ some k → IsCount k
unfolding capacity_from_bytes
capacity_from_bytes-IsCount bytes size k h = (_, sym (checked_value _ h).0, (checked_value _ h).1)

fill-TablesCount :
    (b : BackendKind) (o : HostContextOptions) (bytes : ℕ) (c : Capacities) {c' : Capacities}
    → TablesCount c
    → fill_capacities b o bytes c ≡ some c'
    → TablesCount c'
unfolding fill_capacities
fill-TablesCount sampled_watchpoint o bytes c {c'} t h =
    elim (Bool-cases (is_auto_capacity o.sampled_watchpoint_capacity)) [
      | inl auto ↦ elim (Option-cases (capacity_from_bytes bytes 8)) [
        | inl aborts ↦ absurd (cc (rw (auto, aborts) at h))
        | inr (k, found) ↦
            let same : record c { sampled_watchpoint_capacity = k } ≡ c' =
              cc (rw (auto, found) at h) in
            subst TablesCount same (t.0, capacity_from_bytes-IsCount bytes 8 k found, t.2)
      ]
      | inr given ↦ let same : c ≡ c' = cc (rw given at h) in subst TablesCount same t
    ]
fill-TablesCount exact_shadow o bytes c {c'} t h =
    elim (Bool-cases (is_auto_capacity o.exact_shadow_entry_capacity)) [
      | inl auto ↦ elim (Option-cases (capacity_from_bytes bytes 8)) [
        | inl aborts ↦ absurd (cc (rw (auto, aborts) at h))
        | inr (k, found) ↦
            let same : record c { exact_shadow_entry_capacity = k } ≡ c' =
              cc (rw (auto, found) at h) in
            subst TablesCount same (capacity_from_bytes-IsCount bytes 8 k found, t.1, t.2)
      ]
      | inr given ↦ let same : c ≡ c' = cc (rw given at h) in subst TablesCount same t
    ]

pos-injective : {m n : ℕ} → pos m ≡ pos n → m ≡ n
pos-injective h = cc

decrement-IsCount : (x : ℤ) → IsCount x → IsCount (decrement x)
decrement-IsCount (pos n) (m, same, small) = (n - 1, refl, omega (arith, pos-injective same))
decrement-IsCount (negsuc n) (m, same, small) = absurd (cc)

shrink_one-TablesCount :
    (o : HostContextOptions) (c : Capacities)
    → TablesCount c
    → TablesCount (shrink_one_auto_capacity o c).1
unfolding shrink_one_auto_capacity
shrink_one-TablesCount o c t =
    elim (Bool-cases
      (is_auto_capacity o.sampled_watchpoint_capacity && is_pos c.sampled_watchpoint_capacity)) [
        | inl sampled ↦ rw sampled (t.0, decrement-IsCount c.sampled_watchpoint_capacity t.1, t.2)
        | inr kept ↦
            elim (Bool-cases (
              is_auto_capacity o.exact_shadow_entry_capacity
              && is_pos c.exact_shadow_entry_capacity)) [
                | inl exact ↦
                    rw (kept, exact) (decrement-IsCount c.exact_shadow_entry_capacity t.0, t.1, t.2)
                | inr both ↦ rw (kept, both) t
              ]
      ]

shrink-TablesCount :
    (o : HostContextOptions) (fuel : ℕ) (c : Capacities) {c' : Capacities}
    → TablesCount c
    → shrink_auto_capacities o fuel c ≡ some c'
    → TablesCount c'
unfolding shrink_auto_capacities
shrink-TablesCount o zero c {c'} t h = let same : c ≡ c' = cc in subst TablesCount same t
shrink-TablesCount o (suc fuel) c {c'} t h =
    let (bytes, _, h1) = bind-some (layout_byte_count c) _ h in
    let next = shrink_one_auto_capacity o c in
    elim (Bool-cases (ltb o.storage_bytes bytes && next.0)) [
      | inl more ↦ shrink-TablesCount o fuel next.1 (shrink_one-TablesCount o c t) (rw more at h1)
      | inr done ↦ let same : c ≡ c' = cc (rw done at h1) in subst TablesCount same t
    ]

pub compute_layout-TablesCount :
    (o : HostContextOptions) {c : Capacities} {layout_bytes : ℕ}
    → IntOptions o
    → compute_layout o ≡ some (c, layout_bytes)
    → TablesCount c
unfolding compute_layout
compute_layout-TablesCount o {c} {layout_bytes} ints h =
    let (fixed, hf, h1) = bind-some (fixed_capacities o) _ h in
    let (fixed_bytes, _, h2) = bind-some (layout_byte_count fixed) _ h1 in
    let (_, h3) = guard-some (leb fixed_bytes o.storage_bytes) _ h2 in
    let (filled, hl, h4) =
      bind-some (fill_capacities o.backend o (o.storage_bytes - fixed_bytes) fixed) _ h3 in
    let (c', hs, h5) = bind-some (shrink_auto_capacities o (shrink_fuel filled) filled) _ h4 in
    let (bytes, hb, h6) = bind-some (layout_byte_count c') _ h5 in
    let (fits, h7) = guard-some (leb bytes o.storage_bytes) _ h6 in
    let (diagnostics, h8) = guard-some (is_pos c'.diagnostic_capacity) _ h7 in
    let (table, h9) = guard-some (is_pos (backend_capacity o.backend c')) _ h8 in
    let (same, _) = some_pair h9 in
    subst TablesCount same (
      shrink-TablesCount o (shrink_fuel filled) filled
        (fill-TablesCount o.backend o (o.storage_bytes - fixed_bytes) fixed
          (fixed-TablesCount o ints hf) hl)
        hs)
