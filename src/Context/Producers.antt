-- ===== src/Context/Producers.antt =====
-- The direct-mapped cache of producer masks of include/hip_moi/context.hpp: which subgroups have
-- released through an address. Nothing else runs between the read of a slot and the
-- compare-and-swap on it.
use hip_moi.Prelude.{
  ℕ, zero, suc, ◌&&◌, ltb, ◌==◌, if◌then◌else◌, List, u32_of_int, get_or, set, u32, sub32, shl64,
  ◌>>>◌, bit_xor, bit_and, bit_or,
}
use hip_moi.Common.Hash.{mix32}
use hip_moi.Context.Storage.{AtomicAddressCacheRecord, Storage}
use hip_moi.Context.Objects.{has_objects, claimed_generation}

unfoldable pub atomic_address_cache_index : Storage → ℕ → ℕ
atomic_address_cache_index s address =
    bit_and (mix32 (bit_xor (u32 (address >>> 2)) (u32 (address >>> 34))))
      (sub32 (u32_of_int s.atomic_object_capacity) 1)

abbrev pub cache_slot : List AtomicAddressCacheRecord → ℕ → AtomicAddressCacheRecord
cache_slot cache index =
    get_or cache index (record { generation = 0; address = 0; producer_mask = 0 })

-- The loop of `cache_atomic_release`, with `left` attempts to go.
cache_attempts : ℕ → ℕ → ℕ → ℕ → ℕ → List AtomicAddressCacheRecord → List AtomicAddressCacheRecord
cache_attempts generation address producer index zero cache = cache
cache_attempts generation address producer index (suc left) cache =
    let r = cache_slot cache index in
    let bit = shl64 1 producer in
    let rest = cache_attempts generation address producer index left cache in
    if r.generation == generation
    then if r.address == address
      then set cache index (record r { producer_mask = bit_or r.producer_mask bit })
      else cache
    else if r.generation == claimed_generation
    then rest
    else if (cache_slot cache index).generation == r.generation
    then set cache index
        (record { generation = generation; address = address; producer_mask = bit })
    else rest

unfoldable pub cache_atomic_release : Storage → ℕ → ℕ → Storage
unfolding cache_attempts
cache_atomic_release s address producer =
    if has_objects s && ltb producer 64
    then record s {
      atomic_address_cache =
          cache_attempts s.generation address producer (atomic_address_cache_index s address) 4
            s.atomic_address_cache;
    }
    else s
