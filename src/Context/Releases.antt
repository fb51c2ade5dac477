-- ===== src/Context/Releases.antt =====
-- The release side of the atomics of include/hip_moi/context.hpp.
pub mod Lookup
use hip_moi.Prelude.{
  ℕ, ◌+◌, ◌-◌, Bool, true, false, ltb, ◌==◌, not, if◌then◌else◌, Option, none, some, u32, sub32,
}
use mathlib.Core.Option
use hip_moi.Common.Kinds.{SiteId}
use hip_moi.Context.Storage.{Storage, Context}
use hip_moi.Context.Subgroups.{configured_subgroup_count, subgroup_id, subgroup_epoch}
use hip_moi.Context.Objects.{find_or_claim_atomic_object_record, publish}
use hip_moi.Context.Producers.{cache_atomic_release}

unfoldable pub publish_release : Bool → Context → ℕ → ℕ → SiteId → ℕ → Context
publish_release use_address_cache c address releasing_epoch site index =
    let s = record (c.storage) {
      atomic_objects =
          Option.map
            (publish c.storage.generation index address (subgroup_id c) releasing_epoch site.value)
            c.storage.atomic_objects;
    } in
    record c {
      storage = if use_address_cache then cache_atomic_release s address (subgroup_id c) else s;
    }

-- The generation is published last, behind the cache; here the order does not show, since the
-- cache is another array.
unfoldable pub record_atomic_release_at_epoch_impl : Bool → Context → ℕ → ℕ → ℕ → SiteId → Context
record_atomic_release_at_epoch_impl use_address_cache c address byte_count releasing_epoch site =
    let (claim, c') =
      find_or_claim_atomic_object_record c address byte_count (subgroup_id c) site in
    elim claim [
      | none ↦ c'
      | some index ↦ publish_release use_address_cache c' address releasing_epoch site index
    ]

unfoldable pub record_atomic_release_at_epoch : Context → ℕ → ℕ → ℕ → SiteId → Context
record_atomic_release_at_epoch c address byte_count releasing_epoch site =
    record_atomic_release_at_epoch_impl false c address byte_count releasing_epoch site

unfoldable pub record_atomic_release : Context → ℕ → ℕ → SiteId → Context
record_atomic_release c address byte_count site =
    record_atomic_release_at_epoch_impl false c address byte_count (subgroup_epoch c) site

unfoldable pub should_cache_atomic_rmw_release : Context → Bool
should_cache_atomic_rmw_release c = ltb 2 (configured_subgroup_count c.cfg)

unfoldable pub record_atomic_rmw_release : Context → ℕ → ℕ → SiteId → Context
unfolding should_cache_atomic_rmw_release
record_atomic_rmw_release c address byte_count site =
    if should_cache_atomic_rmw_release c
    then record_atomic_release_at_epoch_impl true c address byte_count (subgroup_epoch c) site
    else record_atomic_release c address byte_count site

unfoldable pub remember_observed_atomic : Context → ℕ → Context
remember_observed_atomic c address = record c {
  last_observed_atomic_address = address;
  last_observed_atomic_valid = true;
}

unfoldable pub consume_pending_release_fence : Context → ℕ → ℕ → SiteId → Context
consume_pending_release_fence c address byte_count site =
    let release_site : ℕ =
      if not (c.pending_release_fence_site_id == 0)
      then c.pending_release_fence_site_id
      else site.value in
    if c.pending_release_fence_epoch_token == 0
    then c
    else record (record_atomic_release_at_epoch c address byte_count
        (sub32 c.pending_release_fence_epoch_token 1) (record { value = release_site })) {
          pending_release_fence_epoch_token = 0;
          pending_release_fence_site_id = 0;
        }
