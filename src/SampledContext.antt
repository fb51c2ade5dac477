-- ===== src/SampledContext.antt =====
-- include/hip_moi/sampled_watchpoint_context.hpp: a context for kernels that only publish sampled
-- watchpoints. It repeats a part of the sampled backend of `context`, with an epoch of each thread's
-- own in place of the shared ones.
pub mod Fast
pub mod Publishing
use hip_moi.Prelude.{
  ℕ, ◌+◌, ◌-◌, ◌*◌, ◌/◌, ◌%◌, ◌^◌, Bool, true, false, ◌&&◌, ◌||◌, not, leb, ltb, ◌==◌,
  if◌then◌else◌, Option, none, some, List, ℤ, is_pos, u32_of_int, set, u32, u64, sub32, shl32,
  ◌>>>◌, bit_xor, bit_and,
}
use hip_moi.Common.Kinds.{
  SiteId, AccessKind, AtomicMemoryScope, acquire, release, SampledWatchpointPolicy,
}
use hip_moi.Common.Hash.{mix32}
use hip_moi.Common.Dispatch.{Builtins, atomic_fence_dispatch}
use hip_moi.Shadow.Kinds.{shadow_kind_from_access_kind}
use hip_moi.Shadow.Sampled.{
  pack_sampled_watchpoint_entry, granule_shift, granule_bytes, max_start, max_count,
}
use hip_moi.Context.Storage.{Thread, Storage}
use hip_moi.Context.Subgroups.{is_some}
use hip_moi.Context.Exact.{words_of, last_byte_offset}
use hip_moi.Context.Sampled.{each_chunk}

pub record SampledStorage : Type 0 where
  pub sampled_watchpoints : Option (List ℕ)
  pub sampled_watchpoint_capacity : ℤ
  pub generation : ℕ

pub record SampledWatchpointContext : Type 0 where
  pub storage : SampledStorage
  pub threads_per_subgroup : ℤ
  pub epoch : ℕ
  pub thread : Thread

unfoldable pub make_sampled_watchpoint_storage_ref : Storage → SampledStorage
make_sampled_watchpoint_storage_ref s = record {
  sampled_watchpoints = s.sampled_watchpoints;
  sampled_watchpoint_capacity = s.sampled_watchpoint_capacity;
  generation = s.generation;
}

unfoldable pub make_sampled_watchpoint_context : Storage → ℤ → Thread → SampledWatchpointContext
unfolding make_sampled_watchpoint_storage_ref
make_sampled_watchpoint_context s threads_per_subgroup thread = record {
  storage = make_sampled_watchpoint_storage_ref s;
  threads_per_subgroup = threads_per_subgroup;
  epoch = 0;
  thread = thread;
}

unfoldable pub own_init_workgroup : SampledWatchpointContext → SampledWatchpointContext
own_init_workgroup c = record c { epoch = 0 }

unfoldable pub own_barrier : SampledWatchpointContext → SampledWatchpointContext
own_barrier c = record c { epoch = u32 (c.epoch + 1) }

unfoldable pub own_syncthreads : SampledWatchpointContext → SampledWatchpointContext
unfolding own_barrier
own_syncthreads c = own_barrier c

-- The fences issue the builtin and leave the context alone.
module _ {S T : Type 0} (b : Builtins S T) where
  unfoldable pub own_release_fence : AtomicMemoryScope → S → S
  own_release_fence scope s = atomic_fence_dispatch b release scope s

  unfoldable pub own_acquire_fence : AtomicMemoryScope → S → S
  own_acquire_fence scope s = atomic_fence_dispatch b acquire scope s

unfoldable pub own_thread_id : SampledWatchpointContext → ℕ
own_thread_id c =
    u32 (
      c.thread.thread_x + c.thread.dim_x * (c.thread.thread_y + c.thread.dim_y * c.thread.thread_z))

-- Unlike the subgroup number of `context`, it is not bounded by a number of subgroups.
unfoldable pub own_subgroup_id : SampledWatchpointContext → ℕ
unfolding own_thread_id
own_subgroup_id c =
    if is_pos c.threads_per_subgroup then own_thread_id c / u32_of_int c.threads_per_subgroup else 0

unfoldable pub own_lane_in_subgroup : SampledWatchpointContext → ℕ
unfolding own_thread_id
own_lane_in_subgroup c =
    if is_pos c.threads_per_subgroup
    then own_thread_id c % u32_of_int c.threads_per_subgroup
    else own_thread_id c

unfoldable pub own_flat_workgroup_id : SampledWatchpointContext → ℕ
own_flat_workgroup_id c =
    u32
      (c.thread.block_x + c.thread.grid_x * (c.thread.block_y + c.thread.grid_y * c.thread.block_z))

unfoldable pub own_sampled_site_seed : SiteId → ℕ
own_sampled_site_seed site = u32 (bit_xor site.value (site.value >>> 32))

unfoldable pub own_sampled_selection_seed : SampledWatchpointContext → SiteId → ℕ
unfolding own_flat_workgroup_id own_sampled_site_seed
own_sampled_selection_seed c site = mix32 (
    bit_xor
      (bit_xor
        (bit_xor (u32 (u32 c.storage.generation * 0x9e3779b9))
          (u32 (u32 (own_flat_workgroup_id c + 1) * 0x85ebca6b)))
        (u32 (u32 (own_subgroup_id c + 1) * 0xc2b2ae35)))
      (u32 (own_sampled_site_seed site * 0x27d4eb2d)))

unfoldable pub own_map_sampled_index : ℕ → ℕ → ℕ
own_map_sampled_index value count =
    if count == 0
    then 0
    else if bit_and count (sub32 count 1) == 0
    then bit_and value (sub32 count 1)
    else value % count

unfoldable pub own_samples : SampledWatchpointPolicy → ℕ → Bool
own_samples p selection_seed =
    if ltb 1 p.sample_skip
    then if bit_and p.sample_skip (sub32 p.sample_skip 1) == 0
      then bit_and selection_seed (sub32 p.sample_skip 1) == 0
      else selection_seed % p.sample_skip == 0
    else true

unfoldable pub own_should_publish : SampledWatchpointPolicy → SampledWatchpointContext → ℕ → Bool
unfolding own_samples own_map_sampled_index
own_should_publish p c selection_seed =
    let subgroup_threads : ℕ =
      if is_pos c.threads_per_subgroup then u32_of_int c.threads_per_subgroup else 1 in
    if own_samples p selection_seed
    then own_lane_in_subgroup c == own_map_sampled_index (selection_seed >>> 16) subgroup_threads
    else false

unfoldable pub own_slot : SampledWatchpointPolicy → SampledWatchpointContext → ℕ → ℕ → ℕ
unfolding own_map_sampled_index
own_slot p c start_cell epoch =
    let seed =
      bit_xor (bit_xor (u32 (epoch * 0x85ebca6b)) (u32 (u32 c.storage.generation * 0xc2b2ae35)))
        (u32 (start_cell * 0x165667b1)) in
    if p.static_watchpoint_capacity == 1
    then 0
    else if ltb 1 p.static_watchpoint_capacity
    then own_map_sampled_index (mix32 seed) p.static_watchpoint_capacity
    else own_map_sampled_index (mix32 seed) (u32_of_int c.storage.sampled_watchpoint_capacity)

unfoldable pub sampled_storage_available : SampledWatchpointPolicy → SampledStorage → Bool
sampled_storage_available p s =
    if ltb 0 p.static_watchpoint_capacity
    then is_some s.sampled_watchpoints
    else is_some s.sampled_watchpoints && is_pos s.sampled_watchpoint_capacity

-- One exchange of the slot's word; the delay behind it changes no state.
unfoldable pub record_range :
    SampledWatchpointPolicy
    → AccessKind
    → ℕ
    → ℕ
    → SampledWatchpointContext
    → SampledWatchpointContext
record_range p kind start_cell cell_count c =
    let packed =
      pack_sampled_watchpoint_entry (shadow_kind_from_access_kind kind) (own_subgroup_id c) c.epoch
        (u32 c.storage.generation) start_cell cell_count false in
    record c {
      storage = record (c.storage) {
        sampled_watchpoints =
            some (
              set (words_of c.storage.sampled_watchpoints) (own_slot p c start_cell c.epoch)
                packed);
      };
    }

-- The chunks of an access whose size is known when it runs.
unfoldable pub record_chunks :
    SampledWatchpointPolicy
    → ℕ
    → AccessKind
    → ℕ
    → SampledWatchpointContext
    → SampledWatchpointContext
record_chunks p byte_count kind lds_byte_offset c =
    let start_cell = lds_byte_offset >>> granule_shift in
    let end_cell = (last_byte_offset lds_byte_offset byte_count >>> granule_shift) + 1 in
    if ltb max_start start_cell || ltb (max_start + 1) end_cell
    then c
    else each_chunk (record_range p kind) (end_cell - start_cell) start_cell end_cell c

unfoldable pub record_runtime_access :
    SampledWatchpointPolicy
    → ℕ
    → AccessKind
    → ℕ
    → SiteId
    → SampledWatchpointContext
    → SampledWatchpointContext
unfolding record_chunks
record_runtime_access p byte_count kind lds_byte_offset site c =
    if (byte_count == 0) || not (sampled_storage_available p c.storage)
    then c
    else if own_should_publish p c (own_sampled_selection_seed c site)
    then record_chunks p byte_count kind lds_byte_offset c
    else c

-- The functions on `ByteCount`, with their 32-bit arithmetic.
unfoldable pub max_spanned_sampled_cells : ℕ → ℕ
max_spanned_sampled_cells byte_count = sub32 (byte_count + 2 * granule_bytes) 2 >>> granule_shift

unfoldable pub max_valid_sampled_start_byte : ℕ → ℕ
max_valid_sampled_start_byte byte_count = sub32 (shl32 (max_start + 1) granule_shift) byte_count

unfoldable pub fits_sampled_encoding : ℕ → Bool
fits_sampled_encoding byte_count =
    ltb 0 byte_count && leb byte_count (shl32 (max_start + 1) granule_shift)

abbrev pub spanned_cells : ℕ → ℕ → ℕ
spanned_cells byte_count lds_byte_offset =
    sub32 (bit_and lds_byte_offset (granule_bytes - 1) + byte_count + granule_bytes) 1
    >>> granule_shift

-- `record_access_at<SampledPolicy, ByteCount>`: the size is known at compile time.
unfoldable pub record_static_access :
    SampledWatchpointPolicy
    → ℕ
    → AccessKind
    → ℕ
    → SiteId
    → SampledWatchpointContext
    → SampledWatchpointContext
unfolding record_chunks max_spanned_sampled_cells max_valid_sampled_start_byte fits_sampled_encoding
record_static_access p byte_count kind lds_byte_offset site c =
    if sampled_storage_available p c.storage
      && own_should_publish p c (own_sampled_selection_seed c site)
      && fits_sampled_encoding byte_count
    then if leb (max_spanned_sampled_cells byte_count) max_count
      then if ltb (max_valid_sampled_start_byte byte_count) lds_byte_offset
        then c
        else record_range p kind (lds_byte_offset >>> granule_shift)
            (spanned_cells byte_count lds_byte_offset) c
      else record_chunks p byte_count kind lds_byte_offset c
    else c

-- The access of a value of `size` bytes: the overload on `sizeof(T)` for scalars.
unfoldable pub record_sized_access :
    SampledWatchpointPolicy
    → ℕ
    → AccessKind
    → ℕ
    → SiteId
    → SampledWatchpointContext
    → SampledWatchpointContext
unfolding record_static_access record_runtime_access
record_sized_access p size kind lds_byte_offset site c =
    if leb size granule_bytes
    then record_static_access p size kind lds_byte_offset site c
    else record_runtime_access p size kind lds_byte_offset site c

module _ {T : Type 0} (size : ℕ) (memory : ℕ → T) where
  unfoldable pub own_lds_load_at :
      SampledWatchpointPolicy
      → SampledWatchpointContext
      → ℕ
      → ℕ
      → SiteId
      → T × SampledWatchpointContext
  own_lds_load_at p c ptr lds_byte_offset site =
      (memory ptr, record_sized_access p size AccessKind.load lds_byte_offset site c)

  unfoldable pub own_lds_store_at :
      SampledWatchpointPolicy
      → SampledWatchpointContext
      → ℕ
      → T
      → ℕ
      → SiteId
      → (ℕ → T) × SampledWatchpointContext
  own_lds_store_at p c ptr value lds_byte_offset site = (
    λ a. if a == ptr then value else memory a,
    record_sized_access p size AccessKind.store lds_byte_offset site c,
  )
