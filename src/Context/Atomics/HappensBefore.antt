-- ===== src/Context/Atomics/HappensBefore.antt =====
-- An acquire that reads an address after a release through it orders the producer's accesses
-- before the consumer's.
use hip_moi.Prelude.{
  ℕ, ◌+◌, ◌^◌, ◌<◌, ◌≤◌, max, ◌≡◌, refl, sym, ap, subst, ◌∙◌, ◌≢◌, inl, inr, Bool, true, false,
  ◌&&◌, not, ◌==◌, ltb, leb, bit_and, ◌>>>◌, ◌||◌, some, pos, is_pos, u32, arith, if◌then◌else◌,
  Bool-cases,
}
use native.Mathlib.Nat.{zero-div, mul-le-mul_right}
use hip_moi.Common.Kinds.{SiteId}
use hip_moi.Context.Storage.{Storage, Context}
use hip_moi.Context.Subgroups.{subgroup_id, configured_subgroup_count}
use hip_moi.Context.Objects.{has_objects, claimed_generation}
use hip_moi.Context.Producers.{atomic_address_cache_index, cache_slot}
use hip_moi.Context.Releases.{record_atomic_release_at_epoch_impl}
use hip_moi.Context.Releases.Lookup.{
  HasObjects, HasRoom, released_epoch, or_zero, release-released_epoch, release_frame,
}
use hip_moi.Context.Acquires.{
  Imports, try_record_atomic_acquire, try_record_atomic_acquire_from_cache,
  try_record_atomic_acquire_from_table, current_access_acquired_prior_epoch,
}
use hip_moi.Context.Acquires.Tokens.{token, HasTokens, imported_token}
use hip_moi.Context.Acquires.Loops.{Going, Marked, IsDone, listed_lem, cached_lem}

module _ (c : Context) (address capacity : ℕ) (sized : c.storage.subgroup_capacity ≡ pos capacity)
    (table : HasTokens c.storage capacity) (inside : subgroup_id c < capacity) where
  abbrev consumer : ℕ
  consumer = subgroup_id c

  abbrev nothing : Imports
  nothing = record { any = false; producers = 0; storage = c.storage }

  at_first : Going c.storage address consumer capacity inside c.storage
  at_first = record { same = refl; table = table; between = λ p h. inl refl }

  none-Marked : Marked c.storage address consumer capacity inside nothing
  none-Marked p h known =
      let empty : (ltb p 64 && not (bit_and (0 >>> p) 1 == 0)) ≡ false =
        rw (zero-div (2 ^ p)) (ground arith) in
      cc

  abbrev Cached : Imports → Type 0
  Cached m =
      Going c.storage address consumer capacity inside m.storage
      × Marked c.storage address consumer capacity inside m

  from_cache : Cached (try_record_atomic_acquire_from_cache c.storage address consumer capacity)
  unfolding try_record_atomic_acquire_from_cache
  from_cache =
      let r =
        cache_slot c.storage.atomic_address_cache (atomic_address_cache_index c.storage address) in
      elim (Bool-cases (
        has_objects c.storage
        && (r.generation == c.storage.generation)
        && not (r.generation == claimed_generation)
        && (r.address == address))) [
          | inl hit ↦ rw hit (
              cached_lem c.storage address consumer capacity inside r.producer_mask capacity 0
                nothing (omega arith) at_first none-Marked)
          | inr miss ↦ rw miss (at_first, none-Marked)
        ]

  cached : Imports
  cached =
      if ltb 2 (configured_subgroup_count c.cfg)
      then try_record_atomic_acquire_from_cache c.storage address consumer capacity
      else nothing

  cached-Cached : Cached cached
  unfolding cached
  cached-Cached = elim (Bool-cases (ltb 2 (configured_subgroup_count c.cfg))) [
    | inl many ↦ rw many from_cache
    | inr few ↦ rw few (at_first, none-Marked)
  ]

  listed : Imports
  listed =
      try_record_atomic_acquire_from_table cached.storage address consumer capacity cached.producers

  abbrev pub after_acquire : Context
  after_acquire = (try_record_atomic_acquire c address).1

  acquired_pair :
      try_record_atomic_acquire c address
      ≡ (listed.any || cached.any, record c { storage = listed.storage })
  unfolding listed cached try_record_atomic_acquire
  acquired_pair =
      let positive : is_pos (pos capacity) ≡ true = ground (arith, inside) in
      let held : u32 capacity ≡ capacity =
        omega (arith, table.small, mul-le-mul_right capacity inside) in
      let within : ltb (subgroup_id c) capacity ≡ true = ground (arith, inside) in
      simp (sized, table.there, positive, held, within) refl

  acquired_as : after_acquire ≡ record c { storage = listed.storage }
  acquired_as = ap (λ (r : Bool × Context). r.1) acquired_pair

  listing :
      Going c.storage address consumer capacity inside listed.storage
      × ((p : ℕ)
          → p < capacity
          → IsDone c.storage address consumer capacity inside cached.storage p
          → IsDone c.storage address consumer capacity inside listed.storage p)
      × ((p : ℕ)
          → p < capacity
          → p ≢ consumer
          → 0 ≤ p
          → IsDone c.storage address consumer capacity inside listed.storage p)
  unfolding listed try_record_atomic_acquire_from_table
  listing =
      listed_lem c.storage address consumer capacity inside cached.producers capacity 0
        (record { any = false; producers = 0; storage = cached.storage }) (omega arith)
        cached-Cached.0 cached-Cached.1

  -- With a square table of tokens, one attempt to acquire raises the consumer's token for every
  -- other subgroup to one more than the epoch that the subgroup released through the address, if it
  -- released one and if the token is not as high already; whether the producer is found by the
  -- cache or by the table.
  pub acquire-token :
      (p : ℕ)
      → p < capacity
      → p ≢ subgroup_id c
      → token after_acquire.storage capacity consumer p
        ≡ imported_token (token c.storage capacity consumer p) (released_epoch c.storage address p)
  acquire-token p h ne =
      ap (λ (x : Context). token x.storage capacity consumer p) acquired_as
      ∙ listing.2 p h ne (omega arith)

  -- Nothing but the tokens changes.
  pub acquire_frame : after_acquire ≡ record c {
    storage = record (c.storage) {
      acquired_subgroup_epoch_tokens = after_acquire.storage.acquired_subgroup_epoch_tokens;
    };
  }
  acquire_frame =
      subst
        (λ (x : Context). x ≡ record c {
          storage = record (c.storage) {
            acquired_subgroup_epoch_tokens = x.storage.acquired_subgroup_epoch_tokens;
          };
        })
        (sym acquired_as) (ap (λ (s : Storage). record c { storage = s }) listing.0.same)

  pub acquire-HasTokens : HasTokens after_acquire.storage capacity
  acquire-HasTokens =
      subst (λ (x : Context). HasTokens x.storage capacity) (sym acquired_as) listing.0.table

-- The state `storage` after the producer's release, as the thread of `c` finds it.
abbrev pub on : Context → Storage → Context
on c s = record c { storage = s }

-- The token covers an epoch.
token_covers :
    (s : Storage) (capacity current prior epoch : ℕ)
    → s.subgroup_capacity ≡ pos capacity
    → HasTokens s capacity
    → current < capacity
    → prior < capacity
    → u32 (epoch + 1) ≤ token s capacity current prior
    → current_access_acquired_prior_epoch s prior epoch current ≡ true
unfolding current_access_acquired_prior_epoch
token_covers s capacity current prior epoch sized table c p enough =
    let positive : is_pos (pos capacity) ≡ true = ground (arith, c) in
    let held : u32 capacity ≡ capacity = omega (arith, table.small, mul-le-mul_right capacity c) in
    let within : ltb current capacity ≡ true = ground (arith, c) in
    let within' : ltb prior capacity ≡ true = ground (arith, p) in
    let covers : leb (u32 (epoch + 1)) (token s capacity current prior) ≡ true =
      ground (arith, enough) in
    simp (sized, positive, held, within, within', covers) (rw table.there refl)

module _ (use_address_cache : Bool) (c1 c2 : Context)
    (address byte_count epoch objects_capacity capacity : ℕ) (site : SiteId)
    (objects : HasObjects c1.storage objects_capacity)
    (free : HasRoom c1.storage objects_capacity address (subgroup_id c1))
    (sized : c1.storage.subgroup_capacity ≡ pos capacity)
    (table : HasTokens c1.storage capacity) where
  abbrev pub released : Context
  released = record_atomic_release_at_epoch_impl use_address_cache c1 address byte_count epoch site

  abbrev pub reader : Context
  reader = on c2 (released.storage)

  abbrev pub acquirer : Context
  acquirer = (try_record_atomic_acquire reader address).1

  frame : released ≡ record c1 {
    storage = record (c1.storage) {
      atomic_objects = released.storage.atomic_objects;
      atomic_address_cache = released.storage.atomic_address_cache;
    };
  }
  frame =
      release_frame use_address_cache c1 address byte_count epoch objects_capacity site objects free

  reader_sized : reader.storage.subgroup_capacity ≡ pos capacity
  reader_sized = ap (λ (x : Context). x.storage.subgroup_capacity) frame ∙ sized

  reader-HasTokens : HasTokens reader.storage capacity
  reader-HasTokens = record {
    tokens = table.tokens;
    there = ap (λ (x : Context). x.storage.acquired_subgroup_epoch_tokens) frame ∙ table.there;
    sized = table.sized;
    small = table.small;
  }

  -- The table of release records is there, leads each search to its record, and has a slot among
  -- the probes of this release that is left from another launch or is the key's own; the table of
  -- tokens is a square one (of fewer than 2 ^ 32 tokens) for all subgroups below the capacity. When
  -- one of these subgroups releases through an address at an epoch, and a thread of another one
  -- then makes one attempt to acquire through the address, on the storage that the release leaves,
  -- then every epoch of the first up to the released one counts as ordered before the second's
  -- accesses, by the test that suppresses conflicts (on the numbers as they are, before any bit
  -- field shortens them), while the epochs that it has released through the address stay below 2 ^
  -- 32 - 1.
  pub release_acquire_ordered :
      (prior : ℕ)
      → subgroup_id c1 < capacity
      → subgroup_id reader < capacity
      → subgroup_id c1 ≢ subgroup_id reader
      → prior ≤ epoch
      → max (or_zero (released_epoch c1.storage address (subgroup_id c1))) epoch + 1 < 2 ^ 32
      → current_access_acquired_prior_epoch acquirer.storage
          (subgroup_id c1)
          prior
          (subgroup_id reader)
        ≡ true
  release_acquire_ordered prior h1 h2 apart early small =
      let newest = max (or_zero (released_epoch c1.storage address (subgroup_id c1))) epoch in
      let there : released_epoch reader.storage address (subgroup_id c1) ≡ some newest =
        release-released_epoch use_address_cache c1 address byte_count epoch objects_capacity site
          objects free in
      let raised =
        acquire-token reader address capacity reader_sized reader-HasTokens h2 (subgroup_id c1) h1
          apart in
      let tokens = acquire-HasTokens reader address capacity reader_sized reader-HasTokens h2 in
      let wide =
        ap (λ (x : Context). x.storage.subgroup_capacity)
          (acquire_frame reader address capacity reader_sized reader-HasTokens h2)
        ∙ reader_sized in
      let enough : u32 (prior + 1)
          ≤ token acquirer.storage capacity (subgroup_id reader) (subgroup_id c1) =
        rw (raised, there) (omega arith) in
      token_covers acquirer.storage capacity (subgroup_id reader) (subgroup_id c1) prior wide tokens
        h2 h1 enough
