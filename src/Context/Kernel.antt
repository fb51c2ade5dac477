-- ===== src/Context/Kernel.antt =====
-- A launch as a sequence of steps of its threads on the storage that they share: the calls of
-- include/hip_moi/context.hpp which change it, in any order and by any threads. The members that a
-- context has of its own are those of the context that a step names.
pub mod Fixed
pub mod Frames
pub mod Records
use hip_moi.Prelude.{ℕ, Bool}
use hip_moi.Common.Kinds.{SiteId, AccessKind, BackendKind, SampledWatchpointPolicy}
use hip_moi.Context.Storage.{Diagnostic, Storage, Context}
use hip_moi.Context.Diagnostics.{emit_diagnostic}
use hip_moi.Context.Barriers.{
  init_workgroup, close_current_epoch, simulated_arrival, simulated_release,
}
use hip_moi.Context.Releases.{record_atomic_release_at_epoch_impl}
use hip_moi.Context.Acquires.{try_record_atomic_acquire}
use hip_moi.Context.Access.{record_access_at}
use hip_moi.Context.Policy.{policy_record_access_at}

-- The thread of `c`, on the storage `s`.
abbrev pub on : Context → Storage → Context
on c s = record c { storage = s }

pub data Step : Storage → Storage → Type 0 where
  init : (s : Storage) (c : Context) → Step s (init_workgroup (on c s)).storage
  boundary :
      (s : Storage) (c : Context) (advance_epochs : Bool)
      → Step s (close_current_epoch advance_epochs (on c s)).storage
  arrival :
      (s : Storage) (c : Context) (participates : Bool)
      → Step s (simulated_arrival participates (on c s)).storage
  departure :
      (s : Storage) (c : Context) (site : SiteId) → Step s (simulated_release site (on c s)).storage
  emission : (s : Storage) (d : Diagnostic) → Step s (emit_diagnostic s d)
  access :
      (s : Storage) (c : Context) (ptr byte_count : ℕ) (kind : AccessKind) (lds_byte_offset : ℕ)
      (site : SiteId)
      → Step s (record_access_at (on c s) ptr byte_count kind lds_byte_offset site).storage
  policy_access :
      (s : Storage) (c : Context) (backend : BackendKind) (p : SampledWatchpointPolicy)
      (ptr byte_count : ℕ) (kind : AccessKind) (lds_byte_offset : ℕ) (site : SiteId)
      → Step s
          (policy_record_access_at backend p
            (on c s)
            ptr
            byte_count
            kind
            lds_byte_offset
            site).storage
  release :
      (s : Storage) (c : Context) (use_address_cache : Bool) (address byte_count epoch : ℕ)
      (site : SiteId)
      → Step s
          (record_atomic_release_at_epoch_impl use_address_cache
            (on c s)
            address
            byte_count
            epoch
            site).storage
  acquire :
      (s : Storage) (c : Context) (address : ℕ)
      → Step s (try_record_atomic_acquire (on c s) address).1.storage

pub data Steps (s : Storage) : Storage → Type 0 where
  here : Steps s s
  next : {t u : Storage} → Steps s t → Step t u → Steps s u
