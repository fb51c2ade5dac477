-- ===== src/Host/Device/Checks.antt =====
-- When a check of the host passes, and when its destructor aborts.
use hip_moi.Prelude.{
  zero, suc, ◌≡◌, ◌↔◌, inl, inr, refl, sym, subst, Bool, true, false, Bool-cases, Option, ℤ, pos,
  negsuc, is_zero, is_pos, List, ◌++◌, arith,
}
use hip_moi.Context.Storage.{Diagnostic}
use hip_moi.Host.{size_of_int}
use hip_moi.Host.Layout.{Stream}
use hip_moi.Host.Reports.{Printed}
use hip_moi.Host.Device.{
  Status, success, failure, Runtime, HostContext, aborted, stored_count, consume_copied,
  consume_counted, consume_synchronized, consume_diagnostics, check, destroy, destructor_stream,
  abort_warning,
}

module _ {M : Type 0} (hip : Runtime M) where
  -- The device was synchronized, its count of diagnostics was copied, and it is 0.
  abbrev pub Clean : HostContext → M → Type 0
  Clean h m =
      (m' : M) × (hip.device_synchronize m ≡ (success, m'))
      × (hip.copy_int h.pointers.diagnostic_count m' ≡ (success, pos 0))

  copied-ne-zero :
      (stream : Option Stream) (h : HostContext) (m : M) (count : ℤ)
      (copied : Status × List Diagnostic)
      → is_pos count ≡ true
      → is_zero (consume_copied hip stream h m count copied).count ≡ false
  unfolding consume_copied
  copied-ne-zero stream h m (pos n) (success, ds) positive = ground arith
  copied-ne-zero stream h m (negsuc n) (success, ds) positive = cc
  copied-ne-zero stream h m count (failure code, ds) positive = refl

  counted-zero :
      (stream : Option Stream) (h : HostContext) (m : M) (counted : Status × ℤ)
      → (is_zero (consume_counted hip stream h m counted).count ≡ true)
        ↔ (counted ≡ (success, pos 0))
  unfolding consume_counted
  counted-zero stream h m (success, pos zero) = (λ e. refl, λ e. refl)
  counted-zero stream h m (success, pos (suc n)) =
      let copied =
        hip.copy_diagnostics h.pointers.diagnostics (size_of_int (stored_count hip h (pos (suc n))))
          m in
      let fails = copied-ne-zero stream h m (pos (suc n)) copied refl in (λ e. cc, λ e. cc)
  counted-zero stream h m (success, negsuc n) = (λ e. cc, λ e. cc)
  counted-zero stream h m (failure code, count) = (λ e. cc, λ e. cc)

  same_memory : {m m' : M} → ◌≡◌ {A = Status × M} (success, m) (success, m') → m ≡ m'
  same_memory e = cc

  synchronized-zero :
      (stream : Option Stream) (h : HostContext) (synchronized : Status × M)
      → (is_zero (consume_synchronized hip stream h synchronized).count ≡ true) ↔ (
          (m' : M) × (synchronized ≡ (success, m'))
          × (hip.copy_int h.pointers.diagnostic_count m' ≡ (success, pos 0)))
  unfolding consume_synchronized
  synchronized-zero stream h (success, m) = (
    λ e. (m, refl, (counted-zero stream h m (hip.copy_int h.pointers.diagnostic_count m)).0 e),
    λ (m', same, counted).
        (counted-zero stream h m (hip.copy_int h.pointers.diagnostic_count m)).1 (
          subst (λ x. hip.copy_int h.pointers.diagnostic_count x ≡ (success, pos 0))
            (sym (same_memory same)) counted),
  )
  synchronized-zero stream h (failure code, m) = (λ e. cc, λ (m', same, counted). cc)

  -- A check of the host passes exactly when the device can be synchronized, its count of
  -- diagnostics can be copied, and the count is 0; so no failure of a call makes it pass.
  pub check-Clean :
      (stream : Option Stream) (h : HostContext) (m : M)
      → ((check hip stream h m).0 ≡ true) ↔ Clean h m
  unfolding check consume_diagnostics
  check-Clean stream h m = synchronized-zero stream h (hip.device_synchronize m)

  -- Every way through `consume_diagnostics` marks the diagnostics as consumed, remembers the count
  -- that it returns, and changes no other member.
  pub consume_diagnostics-host :
      (stream : Option Stream) (h : HostContext) (m : M)
      → (consume_diagnostics hip stream h m).host ≡ record h {
        diagnostics_consumed = true;
        last_diagnostic_count = (consume_diagnostics hip stream h m).count;
      }
  unfolding consume_diagnostics consume_synchronized consume_counted consume_copied
  consume_diagnostics-host stream h m = ground arith

  not_true : {b : Bool} → ¬ (b ≡ true) → b ≡ false
  not_true {b} h = elim (Bool-cases b) [ inl e ↦ absurd (h e) | inr e ↦ e ]

  dirty_aborts :
      (h : HostContext) (m : M)
      → h.diagnostics_consumed ≡ false
      → h.destructor_aborts ≡ true
      → is_zero (consume_diagnostics hip (destructor_stream h) h m).count ≡ false
      → (p : Printed) × (destroy hip h m ≡ aborted p)
  unfolding destroy
  dirty_aborts h m unread enabled dirty = (
    (consume_diagnostics hip (destructor_stream h) h m).printed
        ++ abort_warning (destructor_stream h),
    ground arith,
  )

  clean_finishes :
      (h : HostContext) (m : M) (p : Printed)
      → destroy hip h m ≡ aborted p
      → (h.diagnostics_consumed ≡ false)
        × (h.destructor_aborts ≡ true)
        × (is_zero (consume_diagnostics hip (destructor_stream h) h m).count ≡ false)
  unfolding destroy
  clean_finishes h m p e = ground arith

  -- The destructor aborts exactly when nothing has consumed the diagnostics since the last launch,
  -- aborts are enabled, and a check would not pass.
  pub destroy-aborts :
      (h : HostContext) (m : M)
      → ((p : Printed) × (destroy hip h m ≡ aborted p))
        ↔ ((h.diagnostics_consumed ≡ false) × (h.destructor_aborts ≡ true) × (¬ Clean h m))
  unfolding check
  destroy-aborts h m =
      let clean = check-Clean (destructor_stream h) h m in
      (
        λ (p, e).
            let (unread, enabled, dirty) = clean_finishes h m p e in
            (unread, enabled, λ c. cc (clean.1 c)),
        λ (unread, enabled, dirty).
            dirty_aborts h m unread enabled (not_true (λ e. dirty (clean.0 e))),
      )
