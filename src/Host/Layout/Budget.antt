-- ===== src/Host/Layout/Budget.antt =====
-- The capacities that the host chooses respect its options, and their slices lie in its buffer.
use hip_moi.Prelude.{
  ℕ, zero, suc, ◌-◌, ◌*◌, ◌^◌, ◌≤◌, ◌<◌, ◌≡◌, ◌⊎◌, inl, inr, refl, sym, ap, subst, ◌∙◌, true, false,
  ◌&&◌, ltb, leb, Bool-cases, Option, none, some, ℤ, pos, is_pos, bind-some, guard-some, arith,
}
use mathlib.Core.Option
use hip_moi.Common.Kinds.{BackendKind, exact_shadow, sampled_watchpoint}
use hip_moi.Host.{Capacities, layout_byte_count, checked_capacity, ceil_power_of_two}
use hip_moi.Host.Powers.{ceil_power_of_two_lem}
use hip_moi.Host.Layout.{
  HostContextOptions, is_auto_capacity, auto_bytes, auto_capacity, chosen_diagnostic_capacity,
  fixed_with, auto_atomic_object_capacity, capacity_from_bytes, shrink_one_auto_capacity,
  shrink_auto_capacities, shrink_fuel, fixed_capacities, fill_capacities, backend_capacity,
  compute_layout,
}

-- What the options fix of the capacities.
pub record Fixed (o : HostContextOptions) (c : Capacities) : Type 0 where
  pub subgroups : c.subgroup_capacity ≡ o.subgroup_capacity
  pub atomics : (j : ℕ) × (c.atomic_object_capacity ≡ pos (2 ^ j)) × (2 ^ j < 2 ^ 31)
  pub diagnostics :
      is_auto_capacity o.diagnostic_capacity ≡ false → c.diagnostic_capacity ≡ o.diagnostic_capacity
  pub exact :
      is_auto_capacity o.exact_shadow_entry_capacity ≡ false
      → c.exact_shadow_entry_capacity ≡ o.exact_shadow_entry_capacity
  pub sampled :
      is_auto_capacity o.sampled_watchpoint_capacity ≡ false
      → c.sampled_watchpoint_capacity ≡ o.sampled_watchpoint_capacity

pub checked_value : (n : ℕ) {k : ℤ} → checked_capacity n ≡ some k → (pos n ≡ k) × (n < 2 ^ 31)
unfolding checked_capacity
checked_value n h = ground arith

auto_atomic_lem :
    (storage_bytes : ℕ) {k : ℤ}
    → auto_atomic_object_capacity storage_bytes ≡ some k
    → (j : ℕ) × (k ≡ pos (2 ^ j)) × (2 ^ j < 2 ^ 31)
unfolding auto_atomic_object_capacity
auto_atomic_lem storage_bytes h =
    let capacity = auto_capacity storage_bytes 32 in
    let few : auto_bytes storage_bytes 32 ≤ 256 * 1024 = ground arith in
    let small : capacity ≤ 2 ^ 63 = ground arith in
    let (j, is, _, _, _) = ceil_power_of_two_lem capacity small in
    let (value, small_value) = checked_value (ceil_power_of_two capacity) h in
    (j, sym value ∙ ap pos is, omega (arith, is))

chosen_given :
    (o : HostContextOptions) {k : ℤ}
    → is_auto_capacity o.diagnostic_capacity ≡ false
    → chosen_diagnostic_capacity o ≡ some k
    → k ≡ o.diagnostic_capacity
unfolding chosen_diagnostic_capacity
chosen_given o given h = ground arith

fixed_capacities-Fixed :
    (o : HostContextOptions) {c : Capacities} → fixed_capacities o ≡ some c → Fixed o c
unfolding fixed_capacities
fixed_capacities-Fixed o {c} h =
    let (atomic, he, h1) = bind-some (auto_atomic_object_capacity o.storage_bytes) _ h in
    let (diagnostic, hd, h2) = bind-some (chosen_diagnostic_capacity o) _ h1 in
    let (j, is, small) = auto_atomic_lem o.storage_bytes he in
    let same : fixed_with o atomic diagnostic ≡ c = cc in
    subst (Fixed o) same (record {
      subgroups = refl;
      atomics = (j, is, small);
      diagnostics = λ given. chosen_given o given hd;
      exact = λ given. rw given refl;
      sampled = λ given. rw given refl;
    })

map-some :
    (f : ℤ → Capacities) (x : Option ℤ) {c : Capacities}
    → Option.map f x ≡ some c
    → (n : ℤ) × (f n ≡ c)
map-some f none h = cc
map-some f (some n) h = (n, cc)

fill_capacities-Fixed :
    (b : BackendKind) (o : HostContextOptions) (bytes : ℕ) (c : Capacities) {c' : Capacities}
    → Fixed o c
    → fill_capacities b o bytes c ≡ some c'
    → Fixed o c'
unfolding fill_capacities
fill_capacities-Fixed sampled_watchpoint o bytes c f h =
    elim (Bool-cases (is_auto_capacity o.sampled_watchpoint_capacity)) [
      | inl auto ↦
          let (n, same) = map-some _ (capacity_from_bytes bytes 8) (rw auto at h) in
          subst (Fixed o) same (record {
            subgroups = f.subgroups;
            atomics = f.atomics;
            diagnostics = f.diagnostics;
            exact = f.exact;
            sampled = λ given. cc;
          })
      | inr given ↦ subst (Fixed o) (cc (rw given at h)) f
    ]
fill_capacities-Fixed exact_shadow o bytes c f h =
    elim (Bool-cases (is_auto_capacity o.exact_shadow_entry_capacity)) [
      | inl auto ↦
          let (n, same) = map-some _ (capacity_from_bytes bytes 8) (rw auto at h) in
          subst (Fixed o) same (record {
            subgroups = f.subgroups;
            atomics = f.atomics;
            diagnostics = f.diagnostics;
            exact = λ given. cc;
            sampled = f.sampled;
          })
      | inr given ↦ subst (Fixed o) (cc (rw given at h)) f
    ]

shrink_one-Fixed :
    (o : HostContextOptions) (c : Capacities) → Fixed o c → Fixed o (shrink_one_auto_capacity o c).1
unfolding shrink_one_auto_capacity
shrink_one-Fixed o c f = record {
  subgroups = ground (arith, f.subgroups);
  atomics = (f.atomics.0, ground (arith, f.atomics.1), f.atomics.2);
  diagnostics = λ given. ground (arith, f.diagnostics given);
  exact = λ given. ground (arith, f.exact given);
  sampled = λ given. ground (arith, f.sampled given);
}

shrink-Fixed :
    (o : HostContextOptions) (fuel : ℕ) (c : Capacities) {c' : Capacities}
    → Fixed o c
    → shrink_auto_capacities o fuel c ≡ some c'
    → Fixed o c'
unfolding shrink_auto_capacities
shrink-Fixed o zero c f h = subst (Fixed o) (cc) f
shrink-Fixed o (suc fuel) c f h =
    let (bytes, _, h1) = bind-some (layout_byte_count c) _ h in
    let next = shrink_one_auto_capacity o c in
    elim (Bool-cases (ltb o.storage_bytes bytes && next.0)) [
      | inl more ↦ shrink-Fixed o fuel next.1 (shrink_one-Fixed o c f) (rw more at h1)
      | inr done ↦ subst (Fixed o) (cc (rw done at h1)) f
    ]

shrink_one_less :
    (o : HostContextOptions) (c : Capacities)
    → (shrink_one_auto_capacity o c).0 ≡ true
    → shrink_fuel (shrink_one_auto_capacity o c).1 < shrink_fuel c
unfolding shrink_one_auto_capacity
shrink_one_less o c h = ground arith

shrink_one_spent :
    (o : HostContextOptions) (c : Capacities)
    → shrink_fuel c ≤ 0
    → (shrink_one_auto_capacity o c).0 ≡ false
shrink_one_spent o c h = elim (Bool-cases (shrink_one_auto_capacity o c).0) [
  | inl more ↦ absurd (omega (arith, shrink_one_less o c more))
  | inr none_left ↦ none_left
]

-- The loop that shrinks the capacities ends by its own test when it has one round for each element
-- that the capacities could lose: then the layout fits the budget, or no capacity is left that it
-- may shrink.
pub shrink_auto_capacities-ends :
    (o : HostContextOptions) (fuel : ℕ) (c : Capacities) {c' : Capacities} {bytes : ℕ}
    → shrink_fuel c ≤ fuel
    → shrink_auto_capacities o fuel c ≡ some c'
    → layout_byte_count c' ≡ some bytes
    → (bytes ≤ o.storage_bytes) ⊎ ((shrink_one_auto_capacity o c').0 ≡ false)
unfolding shrink_auto_capacities
shrink_auto_capacities-ends o zero c {c'} enough h e =
    let same : c ≡ c' = cc in
    inr (subst (λ k. (shrink_one_auto_capacity o k).0 ≡ false) same (shrink_one_spent o c enough))
shrink_auto_capacities-ends o (suc fuel) c {c'} {bytes} enough h e =
    let (count, counted, h1) = bind-some (layout_byte_count c) _ h in
    let next = shrink_one_auto_capacity o c in
    elim (Bool-cases (ltb o.storage_bytes count && next.0)) [
      | inl more ↦
          shrink_auto_capacities-ends o fuel next.1
            (omega (arith, shrink_one_less o c (ground arith))) (rw more at h1) e
      | inr done ↦
          let same : c ≡ c' = cc (rw done at h1) in
          let same_bytes : count ≡ bytes = cc in
          elim (Bool-cases next.0) [
            | inl more ↦ inl (ground arith)
            | inr none_left ↦
                inr (subst (λ k. (shrink_one_auto_capacity o k).0 ≡ false) same none_left)
          ]
    ]

-- What the host settles on.
pub record Settled (o : HostContextOptions) (c : Capacities) (layout_bytes : ℕ) : Type 0 where
  pub given : Fixed o c
  pub counted : layout_byte_count c ≡ some layout_bytes
  pub fits : layout_bytes ≤ o.storage_bytes
  pub diagnostics : is_pos c.diagnostic_capacity ≡ true
  pub table : is_pos (backend_capacity o.backend c) ≡ true

le_of_leb : (a b : ℕ) → leb a b ≡ true → a ≤ b
le_of_leb a b h = ground arith

pub some_pair :
    {c c' : Capacities} {m n : ℕ}
    → ◌≡◌ {A = Option (Capacities × ℕ)} (some (c, m)) (some (c', n))
    → (c ≡ c') × (m ≡ n)
some_pair h = (cc, cc)

pub compute_layout-Settled :
    (o : HostContextOptions) {c : Capacities} {layout_bytes : ℕ}
    → compute_layout o ≡ some (c, layout_bytes)
    → Settled o c layout_bytes
unfolding compute_layout
compute_layout-Settled o {c} {layout_bytes} h =
    let (fixed, hf, h1) = bind-some (fixed_capacities o) _ h in
    let (fixed_bytes, _, h2) = bind-some (layout_byte_count fixed) _ h1 in
    let (_, h3) = guard-some (leb fixed_bytes o.storage_bytes) _ h2 in
    let (filled, hl, h4) =
      bind-some (fill_capacities o.backend o (o.storage_bytes - fixed_bytes) fixed) _ h3 in
    let (c', hs, h5) = bind-some (shrink_auto_capacities o (shrink_fuel filled) filled) _ h4 in
    let (bytes, hb, h6) = bind-some (layout_byte_count c') _ h5 in
    let (fits, h7) = guard-some (leb bytes o.storage_bytes) _ h6 in
    let (diagnostics, h8) = guard-some (is_pos c'.diagnostic_capacity) _ h7 in
    let (table, h9) = guard-some (is_pos (backend_capacity o.backend c')) _ h8 in
    let (same_capacities, same_bytes) = some_pair h9 in
    subst (λ b. Settled o c b) same_bytes
      (subst (λ k. Settled o k bytes) same_capacities
        (record {
          given =
              shrink-Fixed o (shrink_fuel filled) filled
                (fill_capacities-Fixed o.backend o (o.storage_bytes - fixed_bytes) fixed
                  (fixed_capacities-Fixed o hf) hl)
                hs;
          counted = hb;
          fits = le_of_leb bytes o.storage_bytes fits;
          diagnostics = diagnostics;
          table = table;
        }))
