-- ===== src/Host/Device/Construction.antt =====
-- What a construction that does not abort has gone through.
use hip_moi.Prelude.{ℕ, ◌≡◌, Option, some, List, bind-some, subst}
use hip_moi.Host.{Capacities, assign_layout_slices}
use hip_moi.Host.Layout.{HostContextOptions, compute_layout, validate_options}
use hip_moi.Host.Device.{
  Runtime, HostContext, allocate, allocated, construct, must_succeed, clear_device_metadata,
}

pub some_pair :
    {A B : Type 0} {a a' : A} {b b' : B}
    → ◌≡◌ {A = Option (A × B)} (some (a, b)) (some (a', b'))
    → (a ≡ a') × (b ≡ b')
some_pair h = (cc, cc)

module _ {M : Type 0} (hip : Runtime M) where
  pub construct-allocate :
      (o : HostContextOptions) (m m' : M) (h : HostContext)
      → construct hip o m ≡ some (h, m')
      → (m1 : M) × (validate_options o ≡ some tt) × (allocate hip o m ≡ some (h, m1))
  unfolding construct
  construct-allocate o m m' h e =
      let (_, valid, e1) = bind-some (validate_options o) _ e in
      let (made, ha, e2) = bind-some (allocate hip o m) _ e1 in
      let (_, _, e3) = bind-some (clear_device_metadata hip (made.0) (made.1)) _ e2 in
      let (same, _) = some_pair e3 in
      (made.1, valid, subst (λ x. allocate hip o m ≡ some (x, made.1)) same ha)

  -- A host context was allocated for the capacities that its options give.
  pub allocate-allocated :
      (o : HostContextOptions) (m m' : M) (h : HostContext)
      → allocate hip o m ≡ some (h, m')
      → (c : Capacities) × (bytes : ℕ) × (base : ℕ) × (starts : List (Option ℕ)) × (end : ℕ)
        × (compute_layout o ≡ some (c, bytes))
        × (assign_layout_slices c ≡ some (starts, end))
        × (allocated o base c starts end ≡ h)
  unfolding allocate
  allocate-allocated o m m' h e =
      let (layout, hl, e1) = bind-some (compute_layout o) _ e in
      let (_, _, e2) = bind-some (must_succeed hip (hip.malloc o.storage_bytes m).0) _ e1 in
      let (slices, hs, e3) = bind-some (assign_layout_slices (layout.0)) _ e2 in
      let (same, _) = some_pair e3 in
      (layout.0, layout.1, (hip.malloc o.storage_bytes m).1, slices.0, slices.1, hl, hs, same)
