-- ===== src/SampledContext/Publishing.antt =====
-- The context that only publishes, beside `context` under a policy that reports nothing: their
-- accesses write the same words.
use hip_moi.Prelude.{
  ℕ, zero, suc, ◌+◌, ◌-◌, ◌≡◌, inl, inr, refl, sym, ap, subst, ◌∙◌, false, ◌&&◌, ◌||◌, ltb, ◌==◌,
  Bool-cases, ◌>>>◌, is_pos, some, set,
}
use hip_moi.Common.Kinds.{SiteId, AccessKind, SampledWatchpointPolicy, sampled_watchpoint}
use hip_moi.Shadow.Sampled.{granule_shift, max_start}
use hip_moi.Context.Storage.{Storage, Context}
use hip_moi.Context.Subgroups.{
  subgroup_id, subgroup_epoch, lane_in_subgroup, is_some, current_epoch,
}
use hip_moi.Context.Diagnostics.{emit_shadow_metadata_full}
use hip_moi.Context.Diagnostics.Counting.{emit_frame}
use hip_moi.Context.Exact.{last_byte_offset, words_of}
use hip_moi.Context.Sampling.{map_sampled_index, sampled_selection_seed, sampled_watchpoint_slot}
use hip_moi.Context.Sampled.{each_chunk, chunk_of, watchpoint_word}
use hip_moi.Context.Policy.{
  policy_should_publish, policy_record_range, policy_record_access, policy_record_access_at,
}
use hip_moi.SampledContext.{
  SampledWatchpointContext, own_subgroup_id, own_lane_in_subgroup, own_should_publish,
  own_map_sampled_index, own_slot, record_range, record_chunks, record_runtime_access,
  sampled_storage_available, own_sampled_selection_seed,
}

-- The two contexts are of one thread and see one table, at one epoch and in one subgroup.
pub record Mirrors (o : SampledWatchpointContext) (c : Context) : Type 0 where
  pub words : o.storage.sampled_watchpoints ≡ c.storage.sampled_watchpoints
  pub capacity : o.storage.sampled_watchpoint_capacity ≡ c.storage.sampled_watchpoint_capacity
  pub generation : o.storage.generation ≡ c.storage.generation
  pub threads : o.threads_per_subgroup ≡ c.cfg.threads_per_subgroup
  pub thread : o.thread ≡ c.thread
  pub subgroup : own_subgroup_id o ≡ subgroup_id c
  pub epoch : o.epoch ≡ subgroup_epoch c

-- A policy that reports nothing, over the capacity of the storage.
pub record PublishOnly (p : SampledWatchpointPolicy) : Type 0 where
  pub quiet : p.report_conflicts ≡ false
  pub dynamic : p.static_watchpoint_capacity ≡ 0

index_same : (value count : ℕ) → own_map_sampled_index value count ≡ map_sampled_index value count
unfolding own_map_sampled_index map_sampled_index
index_same value count = refl

seed_same :
    (o : SampledWatchpointContext) (c : Context) (site : SiteId)
    → Mirrors o c
    → own_sampled_selection_seed o site ≡ sampled_selection_seed c site
unfolding own_sampled_selection_seed sampled_selection_seed
seed_same o c site m = simp (m.generation, m.thread, m.subgroup) refl

lane_same :
    (o : SampledWatchpointContext) (c : Context)
    → Mirrors o c
    → own_lane_in_subgroup o ≡ lane_in_subgroup c
unfolding own_lane_in_subgroup lane_in_subgroup
lane_same o c m = rw (m.threads, m.thread) refl

publish_same :
    (p : SampledWatchpointPolicy) (o : SampledWatchpointContext) (c : Context) (seed : ℕ)
    → Mirrors o c
    → own_should_publish p o seed ≡ policy_should_publish p c seed
unfolding own_should_publish policy_should_publish map_sampled_index
publish_same p o c seed m = rw (lane_same o c m, m.threads) refl

slot_same :
    (p : SampledWatchpointPolicy) (o : SampledWatchpointContext) (c : Context) (start epoch : ℕ)
    → PublishOnly p
    → Mirrors o c
    → own_slot p o start epoch ≡ sampled_watchpoint_slot c.storage start epoch
unfolding own_slot sampled_watchpoint_slot
slot_same p o c start epoch q m = rw (q.dynamic, m.generation, m.capacity) refl

-- The word that both write for a range, in the same place.
written_same :
    (p : SampledWatchpointPolicy) (o : SampledWatchpointContext) (c : Context) (kind : AccessKind)
    (start count : ℕ)
    → PublishOnly p
    → Mirrors o c
    → (record_range p kind start count o).storage.sampled_watchpoints
      ≡ some (
          set
            (words_of c.storage.sampled_watchpoints)
            (sampled_watchpoint_slot c.storage start (subgroup_epoch c))
            (watchpoint_word c kind start count))
unfolding record_range watchpoint_word
written_same p o c kind start count q m =
    simp (m.words, m.subgroup, m.epoch, m.generation, slot_same p o c start (subgroup_epoch c) q m)
      refl

-- One range.
range-Mirrors :
    (p : SampledWatchpointPolicy) (o : SampledWatchpointContext) (c : Context) (kind : AccessKind)
    (start count offset n : ℕ) (site : SiteId) (seed : ℕ)
    → PublishOnly p
    → Mirrors o c
    → Mirrors
        (record_range p kind start count o)
        (policy_record_range p c kind start count offset n site seed)
unfolding record_range policy_record_range own_subgroup_id subgroup_id current_epoch
range-Mirrors p o c kind start count offset n site seed q m = simp (q.quiet) (record {
  words = written_same p o c kind start count q m;
  capacity = m.capacity;
  generation = m.generation;
  threads = m.threads;
  thread = m.thread;
  subgroup = m.subgroup;
  epoch = m.epoch;
})

chunks-Mirrors :
    (p : SampledWatchpointPolicy) (kind : AccessKind) (offset n : ℕ) (site : SiteId)
    (seed fuel start end_cell : ℕ) (o : SampledWatchpointContext) (c : Context)
    → PublishOnly p
    → Mirrors o c
    → Mirrors (each_chunk (record_range p kind) fuel start end_cell o) (
        each_chunk
          (λ i count c'. policy_record_range p c' kind i count offset n site seed)
          fuel
          start
          end_cell
          c)
unfolding each_chunk
chunks-Mirrors p kind offset n site seed zero start end_cell o c q m = m
chunks-Mirrors p kind offset n site seed (suc fuel) start end_cell o c q m =
    let chunk = chunk_of (end_cell - start) in
    elim (Bool-cases (ltb start end_cell)) [
      | inr done ↦ rw done m
      | inl more ↦ rw more (
          chunks-Mirrors p kind offset n site seed fuel (start + chunk) end_cell
            (record_range p kind start chunk o)
            (policy_record_range p c kind start chunk offset n site seed) q
            (range-Mirrors p o c kind start chunk offset n site seed q m))
    ]

-- A diagnostic of the other context makes no difference.
full-Mirrors :
    (o : SampledWatchpointContext) (c : Context) (ptr n offset : ℕ) (site : SiteId)
    → Mirrors o c
    → Mirrors o (emit_shadow_metadata_full c ptr n offset site)
unfolding emit_shadow_metadata_full subgroup_id current_epoch
full-Mirrors o c ptr n offset site m =
    subst (λ (t : Storage). Mirrors o (record c { storage = t })) (sym (emit_frame c.storage _))
      (record {
        words = m.words;
        capacity = m.capacity;
        generation = m.generation;
        threads = m.threads;
        thread = m.thread;
        subgroup = m.subgroup;
        epoch = m.epoch;
      })

-- Under a policy that reports nothing and leaves the capacity to the storage, an access of
-- `sampled_watchpoint_context` keeps step with that of `context` under the policy: when both are of
-- one thread and see the same table, epoch and subgroup before it, they do after it.
pub record_runtime_access-Mirrors :
    (p : SampledWatchpointPolicy) (o : SampledWatchpointContext) (c : Context) (ptr byte_count : ℕ)
    (kind : AccessKind) (offset : ℕ) (site : SiteId)
    → PublishOnly p
    → Mirrors o c
    → Mirrors
        (record_runtime_access p byte_count kind offset site o)
        (policy_record_access_at sampled_watchpoint p c ptr byte_count kind offset site)
unfolding record_runtime_access policy_record_access_at policy_record_access record_chunks
    sampled_storage_available
record_runtime_access-Mirrors p o c ptr byte_count kind offset site q m =
    let s = c.storage in
    let seed = sampled_selection_seed c site in
    let start = offset >>> granule_shift in
    let end_cell = (last_byte_offset offset byte_count >>> granule_shift) + 1 in
    let here : sampled_storage_available p o.storage
        ≡ (is_some s.sampled_watchpoints && is_pos s.sampled_watchpoint_capacity) =
      rw (q.dynamic, m.words, m.capacity) refl in
    let chosen_same : own_should_publish p o (own_sampled_selection_seed o site)
        ≡ policy_should_publish p c seed =
      ap (own_should_publish p o) (seed_same o c site m) ∙ publish_same p o c seed m in
    let full = full-Mirrors o c ptr byte_count offset site m in
    elim (Bool-cases (byte_count == 0)) [
      | inl empty ↦ rw empty m
      | inr some_bytes ↦
          elim (Bool-cases
            (is_some s.sampled_watchpoints && is_pos s.sampled_watchpoint_capacity)) [
              | inr off ↦ let off' = here ∙ off in rw (some_bytes, off, off') full
              | inl on ↦
                  let on' = here ∙ on in
                  elim (Bool-cases (policy_should_publish p c seed)) [
                    | inr skipped ↦
                        let skipped' = chosen_same ∙ skipped in
                        rw (some_bytes, on, on', skipped, skipped') m
                    | inl chosen ↦
                        let chosen' = chosen_same ∙ chosen in
                        elim (Bool-cases (ltb max_start start || ltb (max_start + 1) end_cell)) [
                          | inl outside ↦ rw (some_bytes, on, on', chosen, chosen', outside) full
                          | inr inside ↦
                              rw (some_bytes, on, on', chosen, chosen', inside)
                                (chunks-Mirrors p kind offset byte_count site seed
                                  (end_cell - start) start end_cell o c q m)
                        ]
                  ]
            ]
    ]
