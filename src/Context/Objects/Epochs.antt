-- ===== src/Context/Objects/Epochs.antt =====
-- The epoch that a release finds in the record it claims: the one released before for its key, or
-- 0 where the key had no record. And when a claim is sure to succeed.
use native.Mathlib.Decide.{ℕ_discrete, dec_lt}
use hip_moi.Prelude.{
  ℕ, zero, suc, ◌+◌, ◌≤◌, ◌<◌, ◌≡◌, refl, sym, ap, subst, ◌∙◌, ◌≢◌, ◌⊎◌, inl, inr, Bool, true,
  false, ◌==◌, Option, none, some, List, arith, length, get_or, set, get_or-set_self, Option-cases,
  Bool-cases,
}
use hip_moi.Context.Storage.{AtomicObjectRecord, no_record}
use hip_moi.Context.Objects.{
  probe_index, slot, is_for, find_from, claim_from, claim_attempts, claimed_generation, Scan, found,
}
use hip_moi.Context.Objects.Probing.{
  IsCapacity, probe_index-lt, Lives, Passes, Chain, find_from-Chain, Chain-find_from,
}
use hip_moi.Context.Objects.Claim.{Claimed, fresh}

-- The epoch of the record that a search found, or 0.
abbrev pub epoch_found : List AtomicObjectRecord → Option ℕ → ℕ
epoch_found objects none = 0
epoch_found objects (some i) = (get_or objects i no_record).releasing_epoch

-- A record that a claim for the key may end at: one left from another launch, or the key's own.
abbrev pub Serves : ℕ → ℕ → ℕ → AtomicObjectRecord → Type 0
Serves generation address producer r =
    ((r.generation ≢ generation) × (r.generation ≢ claimed_generation))
    ⊎ Lives generation address producer r

module _ (generation capacity start address producer : ℕ)
    (launched : generation ≢ claimed_generation) (room : IsCapacity capacity)
    (inside : start < capacity) where
  -- A record that is the key's is not passed, nor is it stale.
  Lives-Passes :
      (r : AtomicObjectRecord)
      → Lives generation address producer r
      → ¬ Passes generation address producer r
  Lives-Passes r lives passes =
      let published = lives.published in let keyed = lives.keyed in ground (arith, launched)

  Stale : AtomicObjectRecord → Type 0
  Stale r = (r.generation ≢ generation) × (r.generation ≢ claimed_generation)

  no-Chain :
      (objects : List AtomicObjectRecord) (last last' : ℕ)
      → ((q : ℕ) → q < last → Passes generation address producer (slot capacity start q objects))
      → ((slot capacity start last objects).generation ≢ generation)
      → ((slot capacity start last objects).generation ≢ claimed_generation)
      → ¬ Chain generation address producer capacity start 0 last' objects
  no-Chain objects last last' passing old free chain = elim (dec_lt last' last) [
    | yes before ↦
        Lives-Passes (slot capacity start last' objects) chain.living (passing last' before)
    | no more ↦ elim (dec_lt last last') [
      | yes after ↦ let passed = chain.passing last (omega arith) after in ground arith
      | no same ↦
          let e : last' ≡ last = omega arith in
          let lives =
            subst (λ q. Lives generation address producer (slot capacity start q objects)) e
              chain.living in
          old lives.published
    ]
  ]

  -- The record that was claimed carries the epoch that a search for its key would have found.
  pub claimed_epoch :
      (objects objects' : List AtomicObjectRecord) (i : ℕ)
      → length objects ≡ capacity
      → Claimed generation address producer capacity start 0 i objects objects'
      → (get_or objects' i no_record).releasing_epoch
        ≡ epoch_found objects
            (find_from generation capacity start address producer capacity 0 objects)
  claimed_epoch objects objects' i sized claim =
      let search = find_from generation capacity start address producer capacity 0 objects in
      elim claim.takes [
        | inl (same, lives) ↦
            let there =
              subst (λ j. Lives generation address producer (get_or objects j no_record)) claim.at
                lives in
            let hit : search ≡ some (probe_index capacity start claim.last) =
              Chain-find_from generation address producer capacity start launched capacity 0
                claim.last objects (omega arith)
                (record {
                  ordered = claim.ordered;
                  inside = claim.inside;
                  passing = claim.passing;
                  living = there;
                }) in
            rw (hit, same, claim.at) refl
        | inr (old, free, made) ↦
            let small : i < length objects =
              rw (sized, claim.at)
                (probe_index-lt capacity start claim.last room inside claim.inside) in
            let new : get_or objects' i no_record ≡ fresh generation address producer =
              ap (λ os. get_or os i no_record) made ∙ get_or-set_self objects i _ no_record small in
            let old' =
              subst (λ j. (get_or objects j no_record).generation ≢ generation) claim.at old in
            let free' =
              subst (λ j. (get_or objects j no_record).generation ≢ claimed_generation) claim.at
                free in
            elim (Option-cases search) [
              | inl absent ↦ rw (absent, new) refl
              | inr (k, e) ↦
                  let (last, chain, _) =
                    find_from-Chain generation address producer capacity start launched capacity 0
                      objects k (omega arith) e in
                  absurd (
                    no-Chain objects claim.last last (λ q hi. claim.passing q (omega arith) hi) old'
                      free' chain)
            ]
      ]

  abbrev Ends : Scan → Type 0
  Ends scan = (i : ℕ) × (objects' : List AtomicObjectRecord) × (scan ≡ found i objects')

  -- One probe of a claim ends the pass or goes on.
  claim_from_step :
      (left first : ℕ) (saw : Bool) (objects : List AtomicObjectRecord)
      → let here =
          claim_from generation capacity start address producer (suc left) first saw objects in
        Ends here
        ⊎ ((¬ Serves generation address producer (slot capacity start first objects))
            × (saw' : Bool) × (here
                ≡ claim_from generation capacity start address producer left
                    (first + 1)
                    saw'
                    objects))
  unfolding claim_from
  claim_from_step left first saw objects =
      let r = slot capacity start first objects in
      elim (Bool-cases (r.generation == generation)) [
        | inl live ↦ elim (Bool-cases (is_for r address producer)) [
          | inl mine ↦ inl (probe_index capacity start first, objects, ground arith)
          | inr other ↦ inr (
            λ serves. elim serves [
              | inl (old, _) ↦ old (ground arith)
              | inr lives ↦ let keyed = lives.keyed in cc
            ],
            saw,
            ground arith,
          )
        ]
        | inr dead ↦ elim (Bool-cases (r.generation == claimed_generation)) [
          | inl taken ↦ inr (
            λ serves. elim serves [
              | inl (_, free) ↦ free (ground arith)
              | inr lives ↦ let published = lives.published in absurd (ground (arith, launched))
            ],
            true,
            ground arith,
          )
          | inr free ↦ inl (
            probe_index capacity start first,
            set objects (probe_index capacity start first) (fresh generation address producer),
            ground arith,
          )
        ]
      ]

  -- A pass that probes a stale record, or the key's own, ends at a record.
  claim_from-Ends :
      (left first q : ℕ) (saw : Bool) (objects : List AtomicObjectRecord)
      → first ≤ q
      → q < first + left
      → Serves generation address producer (slot capacity start q objects)
      → Ends (claim_from generation capacity start address producer left first saw objects)
  claim_from-Ends zero first q saw objects lo hi serves = absurd (omega arith)
  claim_from-Ends (suc left) first q saw objects lo hi serves =
      elim (claim_from_step left first saw objects) [
        | inl done ↦ done
        | inr (none_here, saw', e) ↦ elim (ℕ_discrete first q) [
          | yes same ↦ absurd (
              none_here (
                subst (λ k. Serves generation address producer (slot capacity start k objects))
                  (sym same) serves))
          | no ne ↦
              let (i, objects', h) =
                claim_from-Ends left (first + 1) q saw' objects (omega arith) (omega arith)
                  serves in
              (i, objects', e ∙ h)
        ]
      ]

  -- A claim over a table with a slot among its probes that is left from another launch, or is the
  -- key's own, ends at a record.
  pub claim_attempts-found :
      (n q : ℕ) (objects : List AtomicObjectRecord)
      → q < capacity
      → Serves generation address producer (slot capacity start q objects)
      → (i : ℕ) × (objects' : List AtomicObjectRecord) × (claim_attempts generation capacity start
            address producer
            (suc n)
            objects
          ≡ found i objects')
  unfolding claim_attempts
  claim_attempts-found n q objects hi serves =
      let (i, objects', e) =
        claim_from-Ends capacity 0 q false objects (omega arith) (omega arith) serves in
      (i, objects', ground arith)
