-- ===== src/Context/Objects/Lookup.antt =====
-- The table of release records as a map: after a release the search for its key finds the greatest
-- epoch released so far, and every other search finds what it found before.
use native.Mathlib.Decide.{ℕ_discrete}
use hip_moi.Prelude.{
  ℕ, ◌<◌, max, ◌≡◌, sym, ap, subst, ◌∙◌, ◌≢◌, ◌⊎◌, inl, inr, true, Option, none, some, List, arith,
  length, get_or, length-set, get_or-set_self, get_or-set_ne, Option-cases, ==_refl,
}
use hip_moi.Context.Storage.{AtomicObjectRecord, no_record}
use hip_moi.Context.Objects.{probe_index, is_for, find_from, claimed_generation, publish}
use hip_moi.Context.Objects.Probing.{
  IsCapacity, probe_index-lt, Lives, Passes, Chain, find_from-Chain, Chain-find_from,
}
use hip_moi.Context.Objects.Claim.{Claimed}

abbrev at : List AtomicObjectRecord → ℕ → AtomicObjectRecord
at objects i = get_or objects i no_record

module _ (generation capacity : ℕ) (launched : generation ≢ claimed_generation)
    (room : IsCapacity capacity) (home : ℕ → ℕ → ℕ)
    (home_inside : (a p : ℕ) → home a p < capacity) where
  -- The search for the key of the record `r` leads to the slot `j`.
  abbrev pub Reached : List AtomicObjectRecord → AtomicObjectRecord → ℕ → Type 0
  Reached objects r j =
      (last : ℕ) × Chain generation r.address r.releasing_subgroup_id capacity
        (home r.address r.releasing_subgroup_id) 0 last objects
      × (j ≡ probe_index capacity (home r.address r.releasing_subgroup_id) last)

  abbrev Leads : List AtomicObjectRecord → ℕ → ℕ → ℕ → Type 0
  Leads objects a p j =
      (last : ℕ) × Chain generation a p capacity (home a p) 0 last objects
      × (j ≡ probe_index capacity (home a p) last)

  Reached-Leads :
      (objects : List AtomicObjectRecord) (r : AtomicObjectRecord) (a p j : ℕ)
      → is_for r a p ≡ true
      → Reached objects r j
      → Leads objects a p j
  Reached-Leads objects r a p j keyed reached =
      let same_address : r.address ≡ a = ground arith in
      let same_producer : r.releasing_subgroup_id ≡ p = ground arith in
      subst (λ q. Leads objects a q j) same_producer
        (subst (λ b. Leads objects b r.releasing_subgroup_id j) same_address reached)

  -- Each published record is reached by the search for its own key.
  pub record IsTable (objects : List AtomicObjectRecord) : Type 0 where
    pub sized : length objects ≡ capacity
    pub reachable :
        (j : ℕ)
        → j < capacity
        → (at objects j).generation ≡ generation
        → Reached objects (at objects j) j

  -- A table that no one has published in yet, in this launch.
  pub stale-IsTable :
      (objects : List AtomicObjectRecord)
      → length objects ≡ capacity
      → ((j : ℕ) → j < capacity → (at objects j).generation ≢ generation)
      → IsTable objects
  stale-IsTable objects sized stale = record {
    sized = sized;
    reachable = λ j h g. absurd (stale j h g);
  }

  abbrev pub search : ℕ → ℕ → List AtomicObjectRecord → Option ℕ
  search address producer =
      find_from generation capacity (home address producer) address producer capacity 0

  Passes-again :
      (r r' : AtomicObjectRecord) (address producer a p : ℕ)
      → Passes generation a p r
      → Lives generation address producer r
        ⊎ ((r.generation ≢ generation) × (r.generation ≢ claimed_generation))
      → r'.generation ≡ generation
      → r'.address ≡ address
      → r'.releasing_subgroup_id ≡ producer
      → Passes generation a p r'
  Passes-again r r' address producer a p before taken g e f = ground (arith, launched)

  module _ (address producer epoch site i : ℕ) (objects objects' : List AtomicObjectRecord)
      (table : IsTable objects)
      (claim : Claimed generation address producer capacity
        (home address producer)
        0
        i
        objects
        objects') where
    abbrev published : List AtomicObjectRecord
    published = publish generation i address producer epoch site objects'

    inside : i < capacity
    inside = rw claim.at (
        probe_index-lt capacity (home address producer) claim.last room
          (home_inside address producer) claim.inside)

    sized : length objects' ≡ capacity
    sized = elim claim.takes [
      | inl (same, _) ↦ rw same table.sized
      | inr (_, _, made) ↦ rw (made, length-set) table.sized
    ]

    others : (j : ℕ) → j ≢ i → at published j ≡ at objects j
    unfolding publish
    others j ne = get_or-set_ne objects' i j _ no_record (λ e. ne (sym e)) ∙ elim claim.takes [
      | inl (same, _) ↦ ap (λ t. at t j) same
      | inr (_, _, made) ↦
          ap (λ t. at t j) made ∙ get_or-set_ne objects i j _ no_record (λ e. ne (sym e))
    ]

    self : at published i ≡ record {
      generation = generation;
      address = address;
      releasing_subgroup_id = producer;
      releasing_epoch = max (at objects' i).releasing_epoch epoch;
      release_site_id = site;
    }
    unfolding publish
    self = get_or-set_self objects' i _ no_record (rw sized inside)

    self_generation : (at published i).generation ≡ generation
    self_generation = ap (λ r. r.generation) self

    self_address : (at published i).address ≡ address
    self_address = ap (λ r. r.address) self

    self_producer : (at published i).releasing_subgroup_id ≡ producer
    self_producer = ap (λ r. r.releasing_subgroup_id) self

    pub epoch_published :
        (at published i).releasing_epoch ≡ max (at objects' i).releasing_epoch epoch
    epoch_published = ap (λ r. r.releasing_epoch) self

    self-Lives : Lives generation address producer (at published i)
    self-Lives = record {
      published = self_generation;
      keyed = rw (self_address, self_producer, ==_refl address, ==_refl producer);
    }

    -- A record that a search passed is still passed: the slot at `i` was not stale then, so its
    -- key is what it was.
    taken_record :
        Lives generation address producer (at objects i)
        ⊎ (((at objects i).generation ≢ generation)
            × ((at objects i).generation ≢ claimed_generation))
    taken_record = elim claim.takes [
      | inl (_, lives) ↦ inl lives
      | inr (stale, free, _) ↦ inr (stale, free)
    ]

    still-Passes :
        (a p j : ℕ) → Passes generation a p (at objects j) → Passes generation a p (at published j)
    still-Passes a p j before = elim (ℕ_discrete j i) [
      | no ne ↦ rw (others j ne) before
      | yes same ↦
          let old = subst (λ k. Passes generation a p (at objects k)) same before in
          subst (λ k. Passes generation a p (at published k)) (sym same)
            (Passes-again (at objects i) (at published i) address producer a p old taken_record
              self_generation self_address self_producer)
    ]

    moved :
        (a p start first last : ℕ)
        → probe_index capacity start last ≢ i
        → Chain generation a p capacity start first last objects
        → Chain generation a p capacity start first last published
    moved a p start first last ne c = record {
      ordered = c.ordered;
      inside = c.inside;
      passing = λ q lo hi. still-Passes a p (probe_index capacity start q) (c.passing q lo hi);
      living = rw (others (probe_index capacity start last) ne) c.living;
    }

    -- The chain of the key itself.
    own : Chain generation address producer capacity (home address producer) 0 claim.last published
    own = record {
      ordered = claim.ordered;
      inside = claim.inside;
      passing = λ q lo hi.
          still-Passes address producer (probe_index capacity (home address producer) q)
            (claim.passing q lo hi);
      living = subst (λ j. Lives generation address producer (at published j)) claim.at self-Lives;
    }

    pub search-published : search address producer published ≡ some i
    search-published =
        Chain-find_from generation address producer capacity (home address producer) launched
          capacity 0 claim.last published (omega arith) own
        ∙ ap some (sym claim.at)

    length-published : length published ≡ capacity
    unfolding publish
    length-published = length-set objects' i _ ∙ sized

    pub published-IsTable : IsTable published
    published-IsTable = record {
      sized = length-published;
      reachable = λ j h g. elim (ℕ_discrete j i) [
        | yes same ↦
            subst (λ k. Reached published (at published k) k) (sym same)
              (subst (λ r. Reached published r i) (sym self) (claim.last, own, claim.at))
        | no ne ↦
            let r = at objects j in
            let (last, chain, e) = table.reachable j h (rw (← others j ne) g) in
            subst (λ r. Reached published r j) (sym (others j ne))
              (
                last,
                moved r.address r.releasing_subgroup_id (home r.address r.releasing_subgroup_id) 0
                    last (λ q. ne (e ∙ q)) chain,
                e,
              )
      ];
    }

    module _ (a p : ℕ) (other : ¬ ((a ≡ address) × (p ≡ producer))) where
      -- The slot of another key's record is not the one that was taken.
      apart : (j : ℕ) → Lives generation a p (at objects j) → j ≢ i
      apart j lives e =
          let there = subst (λ k. Lives generation a p (at objects k)) e lives in
          elim taken_record [
            | inl mine ↦ other (ground arith, ground arith)
            | inr (stale, _) ↦ stale there.published
          ]

      apart_after : (j : ℕ) → Lives generation a p (at published j) → j ≢ i
      apart_after j lives e =
          let there = subst (λ k. Lives generation a p (at published k)) e lives in
          let key_address = self_address in
          let key_producer = self_producer in other (ground arith, ground arith)

      kept : (j : ℕ) → search a p objects ≡ some j → search a p published ≡ some j
      kept j h =
          let (last, chain, e) =
            find_from-Chain generation a p capacity (home a p) launched capacity 0 objects j
              (omega arith) h in
          let ne = apart (probe_index capacity (home a p) last) chain.living in
          Chain-find_from generation a p capacity (home a p) launched capacity 0 last published
            (omega arith) (moved a p (home a p) 0 last ne chain)
          ∙ ap some (sym e)

      -- The record that another search finds is left as it was.
      pub record_other : (j : ℕ) → search a p objects ≡ some j → at published j ≡ at objects j
      record_other j h =
          let (last, chain, e) =
            find_from-Chain generation a p capacity (home a p) launched capacity 0 objects j
              (omega arith) h in
          others j
            (λ same. apart (probe_index capacity (home a p) last) chain.living (sym e ∙ same))

      was_there : (j : ℕ) → search a p published ≡ some j → search a p objects ≢ none
      was_there j h absent =
          let (last, chain, e) =
            find_from-Chain generation a p capacity (home a p) launched capacity 0 published j
              (omega arith) h in
          let k = probe_index capacity (home a p) last in
          let ne = apart_after k chain.living in
          let lives : Lives generation a p (at objects k) = rw (← others k ne) chain.living in
          let small = probe_index-lt capacity (home a p) last room (home_inside a p) chain.inside in
          let reached = table.reachable k small lives.published in
          let (last', chain', e') =
            Reached-Leads objects (at objects k) a p k lives.keyed reached in
          let hit =
            Chain-find_from generation a p capacity (home a p) launched capacity 0 last' objects
              (omega arith) chain' in
          absurd (ground arith)

      pub search_other : search a p published ≡ search a p objects
      search_other = elim (Option-cases (search a p objects)) [
        | inr (j, e) ↦ kept j e ∙ sym e
        | inl absent ↦ elim (Option-cases (search a p published)) [
          | inl gone ↦ gone ∙ sym absent
          | inr (j, e) ↦ absurd (was_there j e absent)
        ]
      ]
