-- ===== src/Context/Kernel/Frames.antt =====
-- The steps that leave the table of release records alone.
use hip_moi.Prelude.{
  ℕ, zero, suc, ◌+◌, ◌-◌, ◌≡◌, inl, inr, refl, ap, ◌∙◌, Bool, true, false, Bool-cases,
  if◌then◌else◌, ◌&&◌, ◌||◌, not, ltb, leb, ◌==◌, arith, is_pos, u32, u32_of_int, ◌>>>◌, bit_and,
  shl64,
}
use hip_moi.Common.Kinds.{SiteId, AccessKind, sampled_watchpoint, backend_kind_value}
use hip_moi.Context.Storage.{Diagnostic, Storage, Context}
use hip_moi.Context.Subgroups.{is_some, subgroup_id, configured_subgroup_count}
use hip_moi.Context.Diagnostics.{
  emit_diagnostic, emit_shadow_metadata_full, emit_subgroup_capacity_full,
}
use hip_moi.Context.Barriers.{init_workgroup, close_current_epoch, simulated_arrival}
use hip_moi.Context.Objects.{has_objects, claimed_generation}
use hip_moi.Context.Producers.{atomic_address_cache_index, cache_slot}
use hip_moi.Context.Acquires.{
  Imports, try_import_atomic_release_from_producer, import_one, import_cached, import_listed,
  try_record_atomic_acquire_from_cache, try_record_atomic_acquire_from_table,
  try_record_atomic_acquire,
}
use hip_moi.Context.Exact.{last_byte_offset, access_word, record_cells, record_exact_shadow_access}
use hip_moi.Shadow.Exact.{granule_shift}
use hip_moi.Shadow.Sampled.{max_start}
use hip_moi.Shadow.Sampled
use hip_moi.Context.Exact.Cells.{record_cells_frame}
use hip_moi.Context.Sampling.{sampled_selection_seed, sampled_should_publish}
use hip_moi.Context.Sampled.{
  record_sampled_watchpoint_range, each_chunk, chunk_of, record_sampled_watchpoint_access,
}
use hip_moi.Context.Policy.Options.{record_range_frame}
use hip_moi.Context.Access.{record_access_at}

-- The table of release records, its capacity and the launch are those of `s`.
pub record SameTable (s s' : Storage) : Type 0 where
  pub objects : s'.atomic_objects ≡ s.atomic_objects
  pub capacity : s'.atomic_object_capacity ≡ s.atomic_object_capacity
  pub generation : s'.generation ≡ s.generation

pub same : (s : Storage) → SameTable s s
same s = record { objects = refl; capacity = refl; generation = refl }

pub then_same : {s t u : Storage} → SameTable s t → SameTable t u → SameTable s u
then_same p q = record {
  objects = q.objects ∙ p.objects;
  capacity = q.capacity ∙ p.capacity;
  generation = q.generation ∙ p.generation;
}

pub emit-SameTable : (s : Storage) (d : Diagnostic) → SameTable s (emit_diagnostic s d)
unfolding emit_diagnostic
emit-SameTable s d = record {
  objects = ground arith;
  capacity = ground arith;
  generation = ground arith;
}

pub init-SameTable : (c : Context) → SameTable c.storage (init_workgroup c).storage
unfolding init_workgroup emit_subgroup_capacity_full emit_diagnostic
init-SameTable c = record {
  objects = ground arith;
  capacity = ground arith;
  generation = ground arith;
}

pub close-SameTable :
    (b : Bool) (c : Context) → SameTable c.storage (close_current_epoch b c).storage
unfolding close_current_epoch
close-SameTable b c = record {
  objects = ground arith;
  capacity = ground arith;
  generation = ground arith;
}

pub arrival-SameTable :
    (b : Bool) (c : Context) → SameTable c.storage (simulated_arrival b c).storage
unfolding simulated_arrival
arrival-SameTable true c = record { objects = refl; capacity = refl; generation = refl }
arrival-SameTable false c = same c.storage

pub full-SameTable :
    (c : Context) (ptr n o : ℕ) (site : SiteId)
    → SameTable c.storage (emit_shadow_metadata_full c ptr n o site).storage
unfolding emit_shadow_metadata_full emit_diagnostic
full-SameTable c ptr n o site = record {
  objects = ground arith;
  capacity = ground arith;
  generation = ground arith;
}

cells-SameTable :
    (packed n o left cell : ℕ) (s : Storage) → SameTable s (record_cells packed n o left cell s)
cells-SameTable packed n o left cell s =
    let e = record_cells_frame packed n o left cell s in
    record {
      objects = ap (λ (t : Storage). t.atomic_objects) e;
      capacity = ap (λ (t : Storage). t.atomic_object_capacity) e;
      generation = ap (λ (t : Storage). t.generation) e;
    }

pub exact-SameTable :
    (c : Context) (ptr n : ℕ) (kind : AccessKind) (o : ℕ) (site : SiteId)
    → SameTable c.storage (record_exact_shadow_access c ptr n kind o site).storage
unfolding record_exact_shadow_access
exact-SameTable c ptr n kind o site =
    let s = c.storage in
    let last_cell = last_byte_offset o n >>> granule_shift in
    elim (Bool-cases (is_some s.exact_shadow_entries && is_pos s.exact_shadow_entry_capacity)) [
      | inr off ↦ rw off (full-SameTable c ptr n o site)
      | inl there ↦ elim (Bool-cases (leb (u32_of_int s.exact_shadow_entry_capacity) last_cell)) [
        | inl outside ↦ rw (there, outside) (full-SameTable c ptr n o site)
        | inr inside ↦
            rw (there, inside)
              (cells-SameTable (access_word c kind site) n o
                (u32 last_cell + 1 - (o >>> granule_shift)) (o >>> granule_shift) s)
      ]
    ]

range-SameTable :
    (c : Context) (kind : AccessKind) (start count o n : ℕ) (site : SiteId) (seed : ℕ)
    → SameTable c.storage (record_sampled_watchpoint_range c kind start count o n site seed).storage
range-SameTable c kind start count o n site seed =
    let e = record_range_frame c kind start count o n site seed in
    record {
      objects = ap (λ (t : Context). t.storage.atomic_objects) e;
      capacity = ap (λ (t : Context). t.storage.atomic_object_capacity) e;
      generation = ap (λ (t : Context). t.storage.generation) e;
    }

-- A loop over chunks, of which none touches the table.
pub chunks-SameTable :
    (visit : ℕ → ℕ → Context → Context)
    → ((start count : ℕ) (c : Context) → SameTable c.storage (visit start count c).storage)
    → (fuel start end_cell : ℕ) (c : Context)
    → SameTable c.storage (each_chunk visit fuel start end_cell c).storage
unfolding each_chunk
chunks-SameTable visit kept zero start end_cell c = same c.storage
chunks-SameTable visit kept (suc fuel) start end_cell c =
    let chunk = chunk_of (end_cell - start) in
    elim (Bool-cases (ltb start end_cell)) [
      | inr done ↦ rw done (same c.storage)
      | inl more ↦ rw more (
          then_same (kept start chunk c)
            (chunks-SameTable visit kept fuel (start + chunk) end_cell (visit start chunk c)))
    ]

sampled-SameTable :
    (c : Context) (ptr n : ℕ) (kind : AccessKind) (o : ℕ) (site : SiteId)
    → SameTable c.storage (record_sampled_watchpoint_access c ptr n kind o site).storage
unfolding record_sampled_watchpoint_access
sampled-SameTable c ptr n kind o site =
    let s = c.storage in
    let seed = sampled_selection_seed c site in
    let start = o >>> Sampled.granule_shift in
    let end_cell = (last_byte_offset o n >>> Sampled.granule_shift) + 1 in
    elim (Bool-cases (is_some s.sampled_watchpoints && is_pos s.sampled_watchpoint_capacity)) [
      | inr off ↦ rw off (full-SameTable c ptr n o site)
      | inl there ↦ elim (Bool-cases (sampled_should_publish c seed)) [
        | inr skipped ↦ rw (there, skipped) (same s)
        | inl chosen ↦ elim (Bool-cases (ltb max_start start || ltb (max_start + 1) end_cell)) [
          | inl outside ↦ rw (there, chosen, outside) (full-SameTable c ptr n o site)
          | inr inside ↦
              rw (there, chosen, inside)
                (chunks-SameTable
                  (λ i m c'. record_sampled_watchpoint_range c' kind i m o n site seed)
                  (λ i m c'. range-SameTable c' kind i m o n site seed) (end_cell - start) start
                  end_cell c)
        ]
      ]
    ]

pub access-SameTable :
    (c : Context) (ptr n : ℕ) (kind : AccessKind) (o : ℕ) (site : SiteId)
    → SameTable c.storage (record_access_at c ptr n kind o site).storage
unfolding record_access_at
access-SameTable c ptr n kind o site = elim (Bool-cases (n == 0)) [
  | inl empty ↦ rw empty (same c.storage)
  | inr some_bytes ↦
      elim (Bool-cases (c.storage.backend == backend_kind_value sampled_watchpoint)) [
        | inl sampling ↦ rw (some_bytes, sampling) (sampled-SameTable c ptr n kind o site)
        | inr exact ↦ rw (some_bytes, exact) (exact-SameTable c ptr n kind o site)
      ]
]

skipped-SameTable :
    (skipped : Bool) (m done : Imports)
    → SameTable m.storage done.storage
    → SameTable m.storage (if skipped then m else done).storage
skipped-SameTable true m done h = same m.storage
skipped-SameTable false m done h = h

module _ (address consumer capacity : ℕ) where
  import-SameTable :
      (noted : Bool) (producer : ℕ) (m : Imports)
      → SameTable m.storage (import_one address consumer capacity noted producer m).storage
  unfolding import_one try_import_atomic_release_from_producer
  import-SameTable noted producer m = record {
    objects = ground arith;
    capacity = ground arith;
    generation = ground arith;
  }

  cached-SameTable :
      (mask left producer : ℕ) (m : Imports)
      → SameTable m.storage (import_cached address consumer capacity mask left producer m).storage
  unfolding import_cached
  cached-SameTable mask zero producer m = same m.storage
  cached-SameTable mask (suc left) producer m =
      let passed =
        (producer == consumer) || leb 64 producer || (bit_and mask (shl64 1 producer) == 0) in
      let done = import_one address consumer capacity true producer m in
      then_same (skipped-SameTable passed m done (import-SameTable true producer m))
        (cached-SameTable mask left (producer + 1) (if passed then m else done))

  listed-SameTable :
      (imported left producer : ℕ) (m : Imports)
      → SameTable m.storage
          (import_listed address consumer capacity imported left producer m).storage
  unfolding import_listed
  listed-SameTable imported zero producer m = same m.storage
  listed-SameTable imported (suc left) producer m =
      let passed =
        (producer == consumer)
        || (ltb producer 64 && not (bit_and (imported >>> producer) 1 == 0)) in
      let done = import_one address consumer capacity false producer m in
      then_same (skipped-SameTable passed m done (import-SameTable false producer m))
        (listed-SameTable imported left (producer + 1) (if passed then m else done))

  from_cache-SameTable :
      (s : Storage)
      → SameTable s (try_record_atomic_acquire_from_cache s address consumer capacity).storage
  unfolding try_record_atomic_acquire_from_cache
  from_cache-SameTable s =
      let r = cache_slot s.atomic_address_cache (atomic_address_cache_index s address) in
      elim (Bool-cases (
        has_objects s
        && (r.generation == s.generation)
        && not (r.generation == claimed_generation)
        && (r.address == address))) [
          | inr missing ↦ rw missing (same s)
          | inl cached ↦ rw cached (
              cached-SameTable r.producer_mask capacity 0
                (record { any = false; producers = 0; storage = s }))
        ]

pub acquire-SameTable :
    (c : Context) (address : ℕ)
    → SameTable c.storage (try_record_atomic_acquire c address).1.storage
unfolding try_record_atomic_acquire try_record_atomic_acquire_from_table
acquire-SameTable c address =
    let s = c.storage in
    let consumer = subgroup_id c in
    let capacity = u32_of_int s.subgroup_capacity in
    let nothing : Imports = record { any = false; producers = 0; storage = s } in
    let cached = try_record_atomic_acquire_from_cache s address consumer capacity in
    let listed = λ (m : Imports).
      listed-SameTable address consumer capacity m.producers capacity 0
        (record { any = false; producers = 0; storage = m.storage }) in
    elim (Bool-cases (
      is_some s.acquired_subgroup_epoch_tokens
      && is_pos s.subgroup_capacity
      && ltb consumer capacity)) [
        | inr off ↦ rw off (same s)
        | inl there ↦ elim (Bool-cases (ltb 2 (configured_subgroup_count c.cfg))) [
          | inl many ↦
              rw (there, many)
                (then_same (from_cache-SameTable address consumer capacity s) (listed cached))
          | inr few ↦ rw (there, few) (listed nothing)
        ]
      ]
