-- ===== src/Host/Layout/Success.antt =====
-- When the host does not abort for want of storage.
use hip_moi.Prelude.{
  ℕ, zero, suc, ◌+◌, ◌-◌, ◌*◌, ◌/◌, ◌^◌, ◌≤◌, ◌<◌, ◌≡◌, inl, inr, refl, sym, subst, true, false,
  ltb, leb, Bool-cases, some, ℤ, pos, is_pos, bind-some, arith,
}
use hip_moi.Common.Kinds.{BackendKind, exact_shadow, sampled_watchpoint}
use hip_moi.Host.{Capacities, layout_byte_count, checked_capacity}
use hip_moi.Host.Layout.Growth.{with_table, layout_grows}
use hip_moi.Host.Layout.{
  HostContextOptions, fixed_with, auto_atomic_object_capacity, chosen_diagnostic_capacity,
  is_auto_capacity, capacity_from_bytes, shrink_one_auto_capacity, shrink_auto_capacities,
  shrink_fuel, fixed_capacities, fill_capacities, backend_capacity, compute_layout,
}

-- The option of the table of the backend.
abbrev pub table_option : BackendKind → HostContextOptions → ℤ
table_option exact_shadow o = o.exact_shadow_entry_capacity
table_option sampled_watchpoint o = o.sampled_watchpoint_capacity

-- The capacities before the tables, with `n` elements in the table of the backend.
abbrev tables : HostContextOptions → BackendKind → ℤ → ℤ → ℕ → Capacities
tables o b atomic diagnostic n = with_table b (fixed_with o atomic diagnostic) n

tables-zero :
    (o : HostContextOptions) (b : BackendKind) (atomic diagnostic : ℤ)
    → is_auto_capacity (table_option b o) ≡ true
    → tables o b atomic diagnostic 0 ≡ fixed_with o atomic diagnostic
tables-zero o exact_shadow atomic diagnostic auto = rw auto refl
tables-zero o sampled_watchpoint atomic diagnostic auto = rw auto refl

shrink_one-tables :
    (o : HostContextOptions) (b : BackendKind) (atomic diagnostic : ℤ) (n : ℕ)
    → is_auto_capacity (table_option b o) ≡ true
    → shrink_one_auto_capacity o (tables o b atomic diagnostic (suc n))
      ≡ (true, tables o b atomic diagnostic n)
unfolding shrink_one_auto_capacity
shrink_one-tables o exact_shadow atomic diagnostic n auto =
    let back : suc n - 1 ≡ n = omega arith in
    elim (Bool-cases (is_auto_capacity o.sampled_watchpoint_capacity)) [
      | inl both ↦ rw (both, auto, back) refl
      | inr one ↦ rw (one, auto, back) refl
    ]
shrink_one-tables o sampled_watchpoint atomic diagnostic n auto =
    let back : suc n - 1 ≡ n = omega arith in rw (auto, back) refl

shrink_auto_capacities-stops :
    (o : HostContextOptions) (fuel : ℕ) (c : Capacities) {bytes : ℕ}
    → layout_byte_count c ≡ some bytes
    → bytes ≤ o.storage_bytes
    → shrink_auto_capacities o fuel c ≡ some c
unfolding shrink_auto_capacities
shrink_auto_capacities-stops o zero c h fits = refl
shrink_auto_capacities-stops o (suc fuel) c {bytes} h fits =
    let enough : ltb o.storage_bytes bytes ≡ false = ground arith in rw (h, enough) refl

fill-tables :
    (o : HostContextOptions) (b : BackendKind) (atomic diagnostic : ℤ) (bytes : ℕ)
    → is_auto_capacity (table_option b o) ≡ true
    → bytes < 2 ^ 34
    → fill_capacities b o bytes (fixed_with o atomic diagnostic)
      ≡ some (tables o b atomic diagnostic (bytes / 8))
unfolding fill_capacities capacity_from_bytes checked_capacity
fill-tables o exact_shadow atomic diagnostic bytes auto few =
    let small : ltb (2 ^ 31 - 1) (bytes / 8) ≡ false = ground arith in rw (auto, small) refl
fill-tables o sampled_watchpoint atomic diagnostic bytes auto few =
    let small : ltb (2 ^ 31 - 1) (bytes / 8) ≡ false = ground arith in rw (auto, small) refl

-- The loop shrinks the table by one element at most when its words go a few bytes past the budget.
shrink-tables :
    (o : HostContextOptions) (b : BackendKind) (atomic diagnostic : ℤ) (fuel n : ℕ) {bytes : ℕ}
    → is_auto_capacity (table_option b o) ≡ true
    → suc n < 2 ^ 31
    → layout_byte_count (fixed_with o atomic diagnostic) ≡ some bytes
    → bytes + 8 * suc n ≤ o.storage_bytes
    → 0 < fuel
    → (m : ℕ) × (n ≤ m)
      × (shrink_auto_capacities o fuel (tables o b atomic diagnostic (suc n))
          ≡ some (tables o b atomic diagnostic m))
      × (layout_bytes : ℕ) × (layout_byte_count (tables o b atomic diagnostic m)
          ≡ some layout_bytes)
      × (layout_bytes ≤ o.storage_bytes)
unfolding shrink_auto_capacities
shrink-tables o b atomic diagnostic zero n auto few h room fuelled = absurd (omega arith)
shrink-tables o b atomic diagnostic (suc fuel) n {bytes} auto few h room fuelled =
    let fixed = fixed_with o atomic diagnostic in
    let start : layout_byte_count (tables o b atomic diagnostic 0) ≡ some bytes =
      rw (tables-zero o b atomic diagnostic auto) h in
    let (full, counted, near) = layout_grows b fixed (suc n) few start in
    let (less, counted_less, near_less) = layout_grows b fixed n (omega arith) start in
    let next = shrink_one-tables o b atomic diagnostic n auto in
    elim (Bool-cases (ltb o.storage_bytes full)) [
      | inl over ↦ (
        n,
        omega arith,
        rw (counted, over, next)
            (shrink_auto_capacities-stops o fuel (tables o b atomic diagnostic n) counted_less
              (omega arith)),
        less,
        counted_less,
        omega arith,
      )
      | inr fits ↦ (suc n, omega arith, rw (counted, fits) refl, full, counted, ground arith)
    ]

backend_capacity-tables :
    (o : HostContextOptions) (b : BackendKind) (atomic diagnostic : ℤ) (m : ℕ)
    → backend_capacity b (tables o b atomic diagnostic m) ≡ pos m
backend_capacity-tables o exact_shadow atomic diagnostic m = refl
backend_capacity-tables o sampled_watchpoint atomic diagnostic m = refl

pos-IsPos : (m : ℕ) → 0 < m → is_pos (pos m) ≡ true
pos-IsPos zero h = absurd (omega arith)
pos-IsPos (suc m) h = refl

table_fuel :
    (o : HostContextOptions) (b : BackendKind) (atomic diagnostic : ℤ) (m : ℕ)
    → 0 < shrink_fuel (tables o b atomic diagnostic (suc m))
table_fuel o exact_shadow atomic diagnostic m = ground arith
table_fuel o sampled_watchpoint atomic diagnostic m = ground arith

diagnostics_kept :
    (o : HostContextOptions) (b : BackendKind) (atomic diagnostic : ℤ) (m : ℕ)
    → (tables o b atomic diagnostic m).diagnostic_capacity ≡ diagnostic
diagnostics_kept o exact_shadow atomic diagnostic m = refl
diagnostics_kept o sampled_watchpoint atomic diagnostic m = refl

fixed_capacities-fixed_with :
    (o : HostContextOptions) {fixed : Capacities}
    → fixed_capacities o ≡ some fixed
    → (atomic : ℤ) × (diagnostic : ℤ) × (fixed_with o atomic diagnostic ≡ fixed)
unfolding fixed_capacities
fixed_capacities-fixed_with o h =
    let (atomic, _, h1) = bind-some (auto_atomic_object_capacity o.storage_bytes) _ h in
    let (diagnostic, _, h2) = bind-some (chosen_diagnostic_capacity o) _ h1 in
    (atomic, diagnostic, cc)

-- The last steps, when the loop has settled on `c`.
settles :
    (o : HostContextOptions) (fixed filled c : Capacities) {bytes layout_bytes : ℕ}
    → fixed_capacities o ≡ some fixed
    → layout_byte_count fixed ≡ some bytes
    → bytes ≤ o.storage_bytes
    → fill_capacities o.backend o (o.storage_bytes - bytes) fixed ≡ some filled
    → shrink_auto_capacities o (shrink_fuel filled) filled ≡ some c
    → layout_byte_count c ≡ some layout_bytes
    → layout_bytes ≤ o.storage_bytes
    → is_pos c.diagnostic_capacity ≡ true
    → is_pos (backend_capacity o.backend c) ≡ true
    → compute_layout o ≡ some (c, layout_bytes)
unfolding compute_layout
settles o fixed filled c {bytes} {layout_bytes} found counted room fills shrinks laid fits d t =
    let roomy : leb bytes o.storage_bytes ≡ true = ground arith in
    let fitting : leb layout_bytes o.storage_bytes ≡ true = ground arith in
    rw (found, counted, roomy, fills, shrinks, laid, fitting, d, t) refl

-- The host finds a layout, and does not abort, when the table of its backend is to be sized
-- automatically, its budget is below 2 ^ 34 bytes, there is a diagnostic slot, and the capacities
-- that are fixed before the table leave 16 bytes of the budget or more; the table then has every
-- whole word of what they leave but one at most.
pub compute_layout-succeeds :
    (o : HostContextOptions) {fixed : Capacities} {bytes : ℕ}
    → is_auto_capacity (table_option o.backend o) ≡ true
    → o.storage_bytes < 2 ^ 34
    → fixed_capacities o ≡ some fixed
    → layout_byte_count fixed ≡ some bytes
    → is_pos fixed.diagnostic_capacity ≡ true
    → bytes + 16 ≤ o.storage_bytes
    → (c : Capacities) × (layout_bytes : ℕ) × (compute_layout o ≡ some (c, layout_bytes))
      × (m : ℕ) × (backend_capacity o.backend c ≡ pos m)
      × (o.storage_bytes < bytes + 8 * (m + 2))
compute_layout-succeeds o {fixed} {bytes} auto few found counted diagnosed room =
    let (atomic, diagnostic, same) = fixed_capacities-fixed_with o found in
    let start : layout_byte_count (fixed_with o atomic diagnostic) ≡ some bytes = rw same counted in
    let (n, words) : (n : ℕ) × ((o.storage_bytes - bytes) / 8 ≡ suc n) =
      ((o.storage_bytes - bytes) / 8 - 1, omega arith) in
    let fills : fill_capacities o.backend o (o.storage_bytes - bytes) fixed
        ≡ some (tables o o.backend atomic diagnostic (suc n)) =
      subst
        (λ k.
          fill_capacities o.backend o (o.storage_bytes - bytes) k
          ≡ some (tables o o.backend atomic diagnostic (suc n)))
        same
        (rw (← words) (
          fill-tables o o.backend atomic diagnostic (o.storage_bytes - bytes) auto
            (omega arith))) in
    let (m, close, shrinks, layout_bytes, laid, fits) =
      shrink-tables o o.backend atomic diagnostic
        (shrink_fuel (tables o o.backend atomic diagnostic (suc n))) n auto (omega arith) start
        (omega arith) (table_fuel o o.backend atomic diagnostic n) in
    let c = tables o o.backend atomic diagnostic m in
    let table = backend_capacity-tables o o.backend atomic diagnostic m in
    let diagnostic_there : is_pos c.diagnostic_capacity ≡ true =
      rw (diagnostics_kept o o.backend atomic diagnostic m)
        (subst (λ k. is_pos k.diagnostic_capacity ≡ true) (sym same) diagnosed) in
    (
      c,
      layout_bytes,
      settles o fixed (tables o o.backend atomic diagnostic (suc n)) c found counted (omega arith)
          fills shrinks laid fits diagnostic_there (rw table (pos-IsPos m (omega arith))),
      m,
      table,
      omega arith,
    )
