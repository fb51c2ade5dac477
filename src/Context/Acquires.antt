-- ===== src/Context/Acquires.antt =====
-- The acquire side of the atomics of include/hip_moi/context.hpp: importing release records as
-- tokens of the consumer for each producer, and asking for a token at an access.
pub mod Tokens
pub mod Loops
use hip_moi.Prelude.{
  ℕ, zero, suc, ◌+◌, ◌-◌, ◌*◌, ◌^◌, ◌%◌, ◌/◌, max, Bool, true, false, ◌&&◌, ◌||◌, not, ltb, leb,
  ◌==◌, if◌then◌else◌, Option, none, some, List, [], is_pos, u32_of_int, get_or, set, u32, shl64,
  ◌>>>◌, bit_and, bit_or,
}
use mathlib.Core.Option
use hip_moi.Context.Storage.{
  AtomicObjectRecord, no_record, AtomicAddressCacheRecord, Storage, Context,
}
use hip_moi.Context.Subgroups.{configured_subgroup_count, subgroup_id, is_some}
use hip_moi.Context.Objects.{find_atomic_object_record, has_objects, objects_of, claimed_generation}
use hip_moi.Context.Producers.{atomic_address_cache_index, cache_slot}

abbrev pub tokens_of : Option (List ℕ) → List ℕ
tokens_of none = []
tokens_of (some tokens) = tokens

-- The number of the token that `consumer` holds for `producer`.
unfoldable pub token_index : ℕ → ℕ → ℕ → ℕ
token_index capacity consumer producer = u32 (consumer * capacity + producer)

-- `atomicMax(&tokens[index], token)`
unfoldable pub raise_token : ℕ → ℕ → List ℕ → List ℕ
raise_token index token tokens = set tokens index (max (get_or tokens index 0) token)

unfoldable pub try_import_atomic_release_from_producer : Storage → ℕ → ℕ → ℕ → ℕ → Bool × Storage
try_import_atomic_release_from_producer s address consumer capacity producer =
    elim (find_atomic_object_record s address producer) [
      | none ↦ (false, s)
      | some i ↦ (
        true,
        record s {
          acquired_subgroup_epoch_tokens =
              Option.map
                (raise_token (token_index capacity consumer producer)
                  (u32 ((get_or (objects_of s.atomic_objects) i no_record).releasing_epoch + 1)))
                s.acquired_subgroup_epoch_tokens;
        },
      )
    ]

-- The loop's state: whether a record was imported, from which producers, and the storage.
pub record Imports : Type 0 where
  pub any : Bool
  pub producers : ℕ
  pub storage : Storage

-- One import, noted in the mask of imported producers where the loop keeps it.
unfoldable pub import_one : ℕ → ℕ → ℕ → Bool → ℕ → Imports → Imports
import_one address consumer capacity noted producer m =
    let (done, s) =
      try_import_atomic_release_from_producer m.storage address consumer capacity producer in
    record {
      any = m.any || done;
      producers = if done && noted then bit_or m.producers (shl64 1 producer) else m.producers;
      storage = s;
    }

-- The loop of `try_record_atomic_acquire_from_cache`, with `left` producers to go.
unfoldable pub import_cached : ℕ → ℕ → ℕ → ℕ → ℕ → ℕ → Imports → Imports
import_cached address consumer capacity producer_mask zero producer m = m
import_cached address consumer capacity producer_mask (suc left) producer m =
    import_cached address consumer capacity producer_mask left (producer + 1) (
      if (producer == consumer)
        || leb 64 producer
        || (bit_and producer_mask (shl64 1 producer) == 0)
      then m
      else import_one address consumer capacity true producer m)

unfoldable pub try_record_atomic_acquire_from_cache : Storage → ℕ → ℕ → ℕ → Imports
unfolding import_cached
try_record_atomic_acquire_from_cache s address consumer capacity =
    let r = cache_slot s.atomic_address_cache (atomic_address_cache_index s address) in
    let nothing : Imports = record { any = false; producers = 0; storage = s } in
    if has_objects s
      && (r.generation == s.generation)
      && not (r.generation == claimed_generation)
      && (r.address == address)
    then import_cached address consumer capacity r.producer_mask capacity 0 nothing
    else nothing

-- The loop of `try_record_atomic_acquire_from_table`, with `left` producers to go.
unfoldable pub import_listed : ℕ → ℕ → ℕ → ℕ → ℕ → ℕ → Imports → Imports
import_listed address consumer capacity imported_producers zero producer m = m
import_listed address consumer capacity imported_producers (suc left) producer m =
    import_listed address consumer capacity imported_producers left (producer + 1) (
      if (producer == consumer)
        || (ltb producer 64 && not (bit_and (imported_producers >>> producer) 1 == 0))
      then m
      else import_one address consumer capacity false producer m)

unfoldable pub try_record_atomic_acquire_from_table : Storage → ℕ → ℕ → ℕ → ℕ → Imports
unfolding import_listed
try_record_atomic_acquire_from_table s address consumer capacity imported_producers =
    import_listed address consumer capacity imported_producers capacity 0
      (record { any = false; producers = 0; storage = s })

unfoldable pub try_record_atomic_acquire : Context → ℕ → Bool × Context
unfolding try_record_atomic_acquire_from_cache try_record_atomic_acquire_from_table
try_record_atomic_acquire c address =
    let s = c.storage in
    let consumer = subgroup_id c in
    let capacity = u32_of_int s.subgroup_capacity in
    let cached : Imports =
      if ltb 2 (configured_subgroup_count c.cfg)
      then try_record_atomic_acquire_from_cache s address consumer capacity
      else record { any = false; producers = 0; storage = s } in
    let listed =
      try_record_atomic_acquire_from_table cached.storage address consumer capacity
        cached.producers in
    if is_some s.acquired_subgroup_epoch_tokens
      && is_pos s.subgroup_capacity
      && ltb consumer capacity
    then (listed.any || cached.any, record c { storage = listed.storage })
    else (true, c)

-- `kAtomicRmwAcquireRetryCount`
abbrev pub rmw_acquire_retry_count : ℕ
rmw_acquire_retry_count = 4

-- The delay between two attempts changes no state.
unfoldable pub record_atomic_acquire : Context → ℕ → ℕ → Context
record_atomic_acquire c address zero = c
record_atomic_acquire c address (suc attempts) =
    let (done, c') = try_record_atomic_acquire c address in
    let again = record_atomic_acquire c' address attempts in if done then c' else again

unfoldable pub current_access_acquired_prior_epoch : Storage → ℕ → ℕ → ℕ → Bool
current_access_acquired_prior_epoch s prior_owner_id prior_epoch current_owner_id =
    let capacity = u32_of_int s.subgroup_capacity in
    let index = token_index capacity current_owner_id prior_owner_id in
    is_some s.acquired_subgroup_epoch_tokens
    && is_pos s.subgroup_capacity
    && ltb current_owner_id capacity
    && ltb prior_owner_id capacity
    && leb (u32 (prior_epoch + 1)) (get_or (tokens_of s.acquired_subgroup_epoch_tokens) index 0)
