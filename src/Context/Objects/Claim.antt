-- ===== src/Context/Objects/Claim.antt =====
-- What a release does to the table: the record that it claims and publishes is the one that a
-- search for its key finds afterwards, and searches for other keys find what they found before.
use native.Mathlib.Decide.{dec_lt}
use hip_moi.Prelude.{
  ℕ, zero, suc, ◌+◌, ◌≤◌, ◌<◌, ◌≡◌, refl, subst, ◌≢◌, ◌⊎◌, inl, inr, Bool, true, false, ◌==◌, List,
  arith, get_or, set, Bool-cases,
}
use hip_moi.Context.Storage.{AtomicObjectRecord, no_record}
use hip_moi.Context.Objects.{
  probe_index, slot, is_for, claim_from, claim_attempts, claimed_generation, Scan, found, exhausted,
}
use hip_moi.Context.Objects.Probing.{Lives, Passes}

pub Scan-cases :
    (s : Scan)
    → ((i : ℕ) × (objects : List AtomicObjectRecord) × (s ≡ found i objects))
      ⊎ ((saw : Bool) × (s ≡ exhausted saw))
Scan-cases (found i objects) = inl (i, objects, refl)
Scan-cases (exhausted saw) = inr (saw, refl)

module _ (generation address producer : ℕ) where
  abbrev pub fresh : AtomicObjectRecord
  fresh = record {
    generation = claimed_generation;
    address = address;
    releasing_subgroup_id = producer;
    releasing_epoch = 0;
    release_site_id = 0;
  }

  -- The record at `i` was the key's already, or was left from an earlier launch and is now claimed.
  abbrev pub Takes : ℕ → List AtomicObjectRecord → List AtomicObjectRecord → Type 0
  Takes i objects objects' =
      ((objects' ≡ objects) × Lives generation address producer (get_or objects i no_record))
      ⊎ (((get_or objects i no_record).generation ≢ generation)
          × ((get_or objects i no_record).generation ≢ claimed_generation)
          × (objects' ≡ set objects i fresh))

  module _ (capacity start : ℕ) where
    pub record Claimed (first i : ℕ) (objects objects' : List AtomicObjectRecord) : Type 0 where
      pub last : ℕ
      pub at : i ≡ probe_index capacity start last
      pub ordered : first ≤ last
      pub inside : last < capacity
      pub passing :
          (q : ℕ)
          → first ≤ q
          → q < last
          → Passes generation address producer (slot capacity start q objects)
      pub takes : Takes i objects objects'

    here :
        (left first : ℕ) (objects objects' : List AtomicObjectRecord)
        → first + suc left ≡ capacity
        → Takes (probe_index capacity start first) objects objects'
        → Claimed first (probe_index capacity start first) objects objects'
    here left first objects objects' e t = record {
      last = first;
      at = refl;
      ordered = omega arith;
      inside = omega arith;
      passing = λ q lo hi. absurd (omega arith);
      takes = t;
    }

    later :
        (first i : ℕ) (objects objects' : List AtomicObjectRecord)
        → Passes generation address producer (slot capacity start first objects)
        → Claimed (first + 1) i objects objects'
        → Claimed first i objects objects'
    later first i objects objects' p c = record {
      last = c.last;
      at = c.at;
      ordered = omega (arith, c.ordered);
      inside = c.inside;
      passing = λ q lo hi. elim (dec_lt first q) [
        | yes after ↦ c.passing q (omega arith) hi
        | no now ↦ let same : q ≡ first = omega arith in rw same p
      ];
      takes = c.takes;
    }

    claim_from-Claimed :
        (left first : ℕ) (saw : Bool) (objects objects' : List AtomicObjectRecord) (i : ℕ)
        → first + left ≡ capacity
        → claim_from generation capacity start address producer left first saw objects
          ≡ found i objects'
        → Claimed first i objects objects'
    unfolding claim_from
    claim_from-Claimed zero first saw objects objects' i e h = cc
    claim_from-Claimed (suc left) first saw objects objects' i e h =
        let r = slot capacity start first objects in
        elim (Bool-cases (r.generation == generation)) [
          | inl live ↦ elim (Bool-cases (is_for r address producer)) [
            | inl mine ↦
                let at : probe_index capacity start first ≡ i = ground arith in
                let same : objects' ≡ objects = ground arith in
                subst (λ j. Claimed first j objects objects') at
                  (here left first objects objects' e
                    (inl (same, record { published = ground arith; keyed = mine })))
            | inr other ↦ later first i objects objects' (inr (ground arith, other)) (
                claim_from-Claimed left (first + 1) saw objects objects' i (omega arith)
                  (ground arith))
          ]
          | inr dead ↦ elim (Bool-cases (r.generation == claimed_generation)) [
            | inl taken ↦ later first i objects objects' (inl (ground arith)) (
                claim_from-Claimed left (first + 1) true objects objects' i (omega arith)
                  (ground arith))
            | inr free ↦
                let at : probe_index capacity start first ≡ i = ground arith in
                let made : objects' ≡ set objects (probe_index capacity start first) fresh =
                  ground arith in
                subst (λ j. Claimed first j objects objects') at
                  (here left first objects objects' e (inr (ground arith, ground arith, made)))
          ]
        ]

    pub claim_attempts-Claimed :
        (n : ℕ) (objects objects' : List AtomicObjectRecord) (i : ℕ)
        → claim_attempts generation capacity start address producer n objects ≡ found i objects'
        → Claimed 0 i objects objects'
    unfolding claim_attempts
    claim_attempts-Claimed zero objects objects' i h = cc
    claim_attempts-Claimed (suc n) objects objects' i h =
        elim (Scan-cases
          (claim_from generation capacity start address producer capacity 0 false objects)) [
            | inl (j, o, e) ↦
                claim_from-Claimed capacity 0 false objects objects' i (omega arith) (ground arith)
            | inr (true, e) ↦ claim_attempts-Claimed n objects objects' i (ground arith)
            | inr (false, e) ↦ absurd (ground arith)
          ]
