-- ===== src/Context/Access.antt =====
-- The instrumented LDS accesses of include/hip_moi/context.hpp: the choice of the backend, then the
-- load or store itself on the LDS `memory` that the program sees.
pub mod Detection
pub mod Racing
use hip_moi.Prelude.{ℕ, Bool, ◌==◌, if◌then◌else◌}
use hip_moi.Common.Kinds.{
  SiteId, AccessKind, BackendKind, exact_shadow, sampled_watchpoint, backend_kind_value,
}
use hip_moi.Context.Storage.{Context}
use hip_moi.Context.Exact.{record_exact_shadow_access}
use hip_moi.Context.Sampled.{record_sampled_watchpoint_access}

-- The backend that the storage selects.
unfoldable pub record_access_at : Context → ℕ → ℕ → AccessKind → ℕ → SiteId → Context
record_access_at c ptr byte_count kind lds_byte_offset site =
    if byte_count == 0
    then c
    else if c.storage.backend == backend_kind_value sampled_watchpoint
    then record_sampled_watchpoint_access c ptr byte_count kind lds_byte_offset site
    else record_exact_shadow_access c ptr byte_count kind lds_byte_offset site

-- The backend that a template argument selects.
unfoldable pub record_access_at_backend :
    BackendKind → Context → ℕ → ℕ → AccessKind → ℕ → SiteId → Context
record_access_at_backend backend c ptr byte_count kind lds_byte_offset site =
    if byte_count == 0 then c else elim backend [
      | sampled_watchpoint ↦
          record_sampled_watchpoint_access c ptr byte_count kind lds_byte_offset site
      | exact_shadow ↦ record_exact_shadow_access c ptr byte_count kind lds_byte_offset site
    ]

-- `memory` holds the values of type `T` in the LDS; `size` is `sizeof(T)`.
module _ {T : Type 0} (size : ℕ) (memory : ℕ → T) where
  unfoldable pub lds_load_at : Context → ℕ → ℕ → SiteId → T × Context
  lds_load_at c ptr lds_byte_offset site =
      (memory ptr, record_access_at c ptr size AccessKind.load lds_byte_offset site)

  unfoldable pub lds_store_at : Context → ℕ → T → ℕ → SiteId → (ℕ → T) × Context
  lds_store_at c ptr value lds_byte_offset site = (
    λ p. if p == ptr then value else memory p,
    record_access_at c ptr size AccessKind.store lds_byte_offset site,
  )

  unfoldable pub lds_load_at_backend : BackendKind → Context → ℕ → ℕ → SiteId → T × Context
  lds_load_at_backend backend c ptr lds_byte_offset site =
      (memory ptr, record_access_at_backend backend c ptr size AccessKind.load lds_byte_offset site)

  unfoldable pub lds_store_at_backend :
      BackendKind → Context → ℕ → T → ℕ → SiteId → (ℕ → T) × Context
  lds_store_at_backend backend c ptr value lds_byte_offset site = (
    λ p. if p == ptr then value else memory p,
    record_access_at_backend backend c ptr size AccessKind.store lds_byte_offset site,
  )
