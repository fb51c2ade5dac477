-- ===== src/Context/Objects/Probing.antt =====
-- The probe sequence of a key visits each slot of the table once, and finding a record means
-- that a chain of live or claimed slots leads to it.
use hip_moi.Prelude.{
  ℕ, zero, suc, ◌+◌, ◌-◌, ◌^◌, ◌≤◌, ◌<◌, ◌≡◌, ◌≢◌, ◌↔◌, ◌⊎◌, inl, inr, true, false, ◌==◌, none,
  some, List, arith, bit_and-le_right, sub32, Bool-cases,
}
use native.Mathlib.Decide.{dec_lt}
use hip_moi.Common.Hash.{mix32}
use hip_moi.Context.Storage.{AtomicObjectRecord}
use hip_moi.Context.Objects.{
  probe_index, probe_start, atomic_record_seed, slot, is_for, find_from, claimed_generation,
}

-- The capacity of a table, a positive `int`.
abbrev pub IsCapacity : ℕ → Type 0
IsCapacity capacity = (0 < capacity) × (capacity < 2 ^ 31)

pub probe_start-lt :
    (capacity address producer : ℕ)
    → IsCapacity capacity
    → probe_start capacity address producer < capacity
unfolding probe_start
probe_start-lt capacity address producer h =
    omega (arith, bit_and-le_right (mix32 (atomic_record_seed address producer)) (sub32 capacity 1))

-- Every probe stays inside the table.
pub probe_index-lt :
    (capacity start probe : ℕ)
    → IsCapacity capacity
    → start < capacity
    → probe < capacity
    → probe_index capacity start probe < capacity
unfolding probe_index
probe_index-lt capacity start probe h hs hp = ground arith

-- In one pass over a table with a positive `int` capacity, every probe stays inside the table, and
-- each slot of the table is met by exactly one probe.
pub probe_index-permutes :
    (capacity start j q : ℕ)
    → IsCapacity capacity
    → start < capacity
    → j < capacity
    → q < capacity
    → (probe_index capacity start q < capacity)
      × (p : ℕ) × (p < capacity)
      × (probe_index capacity start p ≡ j)
      × ((probe_index capacity start q ≡ j) ↔ (q ≡ p))
unfolding probe_index
probe_index-permutes capacity start j q h hs hj hq =
    let inside = probe_index-lt capacity start q h hs hq in
    elim (dec_lt j start) [
      | yes before ↦
          let p = j + capacity - start in
          let at : probe_index capacity start p ≡ j = ground arith in
          (inside, p, omega arith, at, (λ e. ground arith, λ e. ground arith))
      | no behind ↦
          let p = j - start in
          let at : probe_index capacity start p ≡ j = ground arith in
          (inside, p, omega arith, at, (λ e. ground arith, λ e. ground arith))
    ]

module _ (generation address producer : ℕ) where
  -- The record is the key's, published in this launch.
  pub record Lives (r : AtomicObjectRecord) : Type 0 where
    pub published : r.generation ≡ generation
    pub keyed : is_for r address producer ≡ true

  -- A search for the key goes on past the record.
  abbrev pub Passes : AtomicObjectRecord → Type 0
  Passes r =
      (r.generation ≡ claimed_generation)
      ⊎ ((r.generation ≡ generation) × (is_for r address producer ≡ false))

  -- From probe `first` on, the search passes up to probe `last`, where the key's record lives.
  pub record Chain (capacity start first last : ℕ) (objects : List AtomicObjectRecord)
      : Type 0 where
    pub ordered : first ≤ last
    pub inside : last < capacity
    pub passing : (q : ℕ) → first ≤ q → q < last → Passes (slot capacity start q objects)
    pub living : Lives (slot capacity start last objects)

  module _ (capacity start : ℕ) (launched : generation ≢ claimed_generation) where
    abbrev Found : ℕ → ℕ → List AtomicObjectRecord → ℕ → Type 0
    Found first last objects i =
        Chain capacity start first last objects × (i ≡ probe_index capacity start last)

    extend :
        (first last : ℕ) (objects : List AtomicObjectRecord)
        → Passes (slot capacity start first objects)
        → Chain capacity start (first + 1) last objects
        → Chain capacity start first last objects
    extend first last objects here rest = record {
      ordered = omega arith;
      inside = rest.inside;
      passing = λ q lo hi. elim (dec_lt first q) [
        | yes later ↦ rest.passing q (omega arith) hi
        | no now ↦ let same : q ≡ first = omega arith in rw same here
      ];
      living = rest.living;
    }

    -- One probe: the search goes on, ends at the record, or gives up.
    find_from_step :
        (left first : ℕ) (objects : List AtomicObjectRecord)
        → let r = slot capacity start first objects in
          let here =
            find_from generation capacity start address producer (suc left) first objects in
          (Passes r
            × (here
                ≡ find_from generation capacity start address producer left (first + 1) objects))
          ⊎ (Lives r × (here ≡ some (probe_index capacity start first)))
          ⊎ (here ≡ none)
    unfolding find_from
    find_from_step left first objects =
        let r = slot capacity start first objects in
        elim (Bool-cases (r.generation == claimed_generation)) [
          | inl c ↦ inl (ground arith, ground arith)
          | inr n ↦ elim (Bool-cases (r.generation == generation)) [
            | inr stale ↦ inr (inr (ground arith))
            | inl live ↦ elim (Bool-cases (is_for r address producer)) [
              | inl mine ↦
                  inr (inl (record { published = ground arith; keyed = mine }, ground arith))
              | inr other ↦ inl (inr (ground arith, other), ground arith)
            ]
          ]
        ]

    -- A search that finds a record was led there by a chain.
    pub find_from-Chain :
        (left first : ℕ) (objects : List AtomicObjectRecord) (i : ℕ)
        → first + left ≡ capacity
        → find_from generation capacity start address producer left first objects ≡ some i
        → (last : ℕ) × Chain capacity start first last objects
          × (i ≡ probe_index capacity start last)
    unfolding find_from
    find_from-Chain zero first objects i e h = cc
    find_from-Chain (suc left) first objects i e h = elim (find_from_step left first objects) [
      | inl (here, more) ↦
          let (last, chain, at) = find_from-Chain left (first + 1) objects i (omega arith) (cc) in
          (last, extend first last objects here chain, at)
      | inr (inl (lives, done)) ↦ (
        first,
        record {
          ordered = omega arith;
          inside = omega arith;
          passing = λ q lo hi. absurd (omega arith);
          living = lives;
        },
        cc,
      )
      | inr (inr lost) ↦ cc
    ]

    -- A chain leads the search to its record.
    pub Chain-find_from :
        (left first last : ℕ) (objects : List AtomicObjectRecord)
        → first + left ≡ capacity
        → Chain capacity start first last objects
        → find_from generation capacity start address producer left first objects
          ≡ some (probe_index capacity start last)
    unfolding find_from
    Chain-find_from zero first last objects e c = absurd (omega (arith, c.ordered, c.inside))
    Chain-find_from (suc left) first last objects e c = elim (dec_lt first last) [
      | yes more ↦
          let here = c.passing first (omega arith) more in
          let rest = Chain-find_from left (first + 1) last objects (omega arith) (record {
            ordered = omega arith;
            inside = c.inside;
            passing = λ q lo hi. c.passing q (omega arith) hi;
            living = c.living;
          }) in
          ground arith
      | no end ↦
          let same : first ≡ last = omega (arith, c.ordered) in
          let lives = c.living in rw same (ground arith)
    ]
