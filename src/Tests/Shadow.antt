-- ===== src/Tests/Shadow.antt =====
-- Examples for the packed words and for common.hpp.
use hip_moi.Prelude.{ℕ, ◌+◌, ◌≡◌, refl, ◌≢◌, ◌↔◌, ◌⊎◌, inl, inr, true, false, arith}
use hip_moi.Common.Kinds.{
  load, store, relaxed, acquire, release, acq_rel, seq_cst, workgroup, agent, system,
  atomic_order_has_acquire,
}
use hip_moi.Common.Ranges.{byte_ranges_overlap, InBytes, byte_overlap_iff}
use hip_moi.Common.Dispatch.{
  Builtins, BuiltinOrder, atomic_fetch_add_dispatch, atomic_fetch_or_dispatch,
  atomic_fetch_and_dispatch, atomic_fetch_xor_dispatch, atomic_exchange_dispatch,
  atomic_compare_exchange_strong_dispatch, atomic_fence_dispatch,
}
use hip_moi.Common.Dispatch.Orders.{
  rmw_dispatch_order, compare_exchange_dispatch_order, fence_dispatch_order, scope_value,
  IsLoadOrder, SameOrder, acquires, in_total_order, asks_total_order,
}
use hip_moi.Shadow.Kinds.{read, write}
use hip_moi.Shadow.Exact.{
  pack_exact_shadow_entry, decode_exact_shadow_entry, exact_shadow_entries_conflict,
}
use hip_moi.Shadow.Exact.RoundTrip.{decode-pack, pack-decode}
use hip_moi.Shadow.Exact.Conflict.{Access, packed_access, packed_conflict_iff, Clash}
use hip_moi.Shadow.Sampled.{
  SampledWatchpointEntry, pack_sampled_watchpoint_entry, decode_sampled_watchpoint_entry,
  sampled_watchpoints_conflict,
}
use hip_moi.Shadow.Sampled.RoundTrip.{decode-pack_watchpoint, recorded_range}
use hip_moi.Shadow.Sampled.Conflict.{RangeClash, watchpoints_conflict_iff}

abbrev stored : Access
stored = record { kind = store; subgroup = 3; epoch = 7; generation = 2; site = 11 }

abbrev loaded : Access
loaded = record { kind = load; subgroup = 4; epoch = 7; generation = 2; site = 12 }

packed_conflict_iff_example :
    (exact_shadow_entries_conflict
        (decode_exact_shadow_entry (packed_access stored))
        (decode_exact_shadow_entry (packed_access loaded))
      ≡ true)
    ↔ Clash stored loaded
packed_conflict_iff_example = packed_conflict_iff stored loaded

decode-pack_example :
    decode_exact_shadow_entry (pack_exact_shadow_entry write 1030 5 3 9)
    ≡ record { kind = write; owner_id = 6; epoch = 5; generation = 3; site_id = 9 }
decode-pack_example = decode-pack write 1030 5 3 9

pack-decode_example :
    (let entry = decode_exact_shadow_entry 81985529216486895 in
      pack_exact_shadow_entry entry.kind entry.owner_id entry.epoch entry.generation entry.site_id
      ≡ 81985529216486895)
pack-decode_example = pack-decode 81985529216486895 (omega arith)

decode-pack_watchpoint_example :
    decode_sampled_watchpoint_entry (pack_sampled_watchpoint_entry read 3 5 1 16383 32 false)
    ≡ recorded_range read 3 5 1 16383 32 false
decode-pack_watchpoint_example =
    decode-pack_watchpoint read 3 5 1 16383 32 false (omega arith) (omega arith) (omega arith)

abbrev watched : SampledWatchpointEntry
watched = recorded_range write 3 5 1 8 4 false

abbrev other_watched : SampledWatchpointEntry
other_watched = recorded_range read 2 5 1 10 32 false

watchpoints_conflict_iff_example :
    (sampled_watchpoints_conflict watched other_watched ≡ true) ↔ RangeClash watched other_watched
watchpoints_conflict_iff_example =
    watchpoints_conflict_iff watched other_watched (inr refl) (inl refl) (omega arith, omega arith)
      (omega arith, omega arith)

byte_overlap_iff_example :
    (byte_ranges_overlap 100 8 104 4 ≡ true)
    ↔ ((byte : ℕ) × InBytes 100 8 byte × InBytes 104 4 byte)
byte_overlap_iff_example =
    byte_overlap_iff 100 8 104 4 (omega arith) (omega arith) (omega arith) (omega arith)

-- One word of memory, at every address, for the builtins.
abbrev pub one_word : Builtins ℕ ℕ
one_word = record {
  hip_atomic_load = λ ptr order scope s. (s, s);
  hip_atomic_store = λ ptr v order scope s. v;
  hip_atomic_fetch_add = λ ptr v order scope s. (s, s + v);
  hip_atomic_fetch_or = λ ptr v order scope s. (s, v);
  hip_atomic_fetch_and = λ ptr v order scope s. (s, 0);
  hip_atomic_fetch_xor = λ ptr v order scope s. (s, v + 1);
  hip_atomic_exchange = λ ptr v order scope s. (s, v);
  hip_atomic_compare_exchange_strong =
      λ ptr expected desired order failure scope s. (true, s, desired);
  amdgcn_fence = λ order scope s. s;
  threadfence_system = λ s. s;
}

rmw_dispatch_order_example :
    (o : BuiltinOrder) × SameOrder seq_cst o
    × (atomic_fetch_add_dispatch one_word 64 7 seq_cst workgroup
        ≡ one_word.hip_atomic_fetch_add 64 7 o (scope_value workgroup))
    × (atomic_fetch_or_dispatch one_word 64 7 seq_cst workgroup
        ≡ one_word.hip_atomic_fetch_or 64 7 o (scope_value workgroup))
    × (atomic_fetch_and_dispatch one_word 64 7 seq_cst workgroup
        ≡ one_word.hip_atomic_fetch_and 64 7 o (scope_value workgroup))
    × (atomic_fetch_xor_dispatch one_word 64 7 seq_cst workgroup
        ≡ one_word.hip_atomic_fetch_xor 64 7 o (scope_value workgroup))
    × (atomic_exchange_dispatch one_word 64 7 seq_cst workgroup
        ≡ one_word.hip_atomic_exchange 64 7 o (scope_value workgroup))
rmw_dispatch_order_example = rmw_dispatch_order one_word 64 7 seq_cst workgroup

compare_exchange_dispatch_order_example :
    (o f : BuiltinOrder) × (atomic_compare_exchange_strong_dispatch one_word 64 1 2 acq_rel release
        agent
      ≡ one_word.hip_atomic_compare_exchange_strong 64 1 2 o f (scope_value agent))
    × SameOrder acq_rel o
    × IsLoadOrder f
    × (acquires f ≡ atomic_order_has_acquire release)
    × (in_total_order f ≡ asks_total_order release)
compare_exchange_dispatch_order_example =
    compare_exchange_dispatch_order one_word 64 1 2 acq_rel release agent

fence_dispatch_order_example :
    ((acquire ≡ relaxed) × (atomic_fence_dispatch one_word acquire workgroup 5 ≡ 5))
    ⊎ ((acquire ≢ relaxed)
        × (workgroup ≢ system)
        × ((o : BuiltinOrder) × (atomic_fence_dispatch one_word acquire workgroup 5
              ≡ one_word.amdgcn_fence o (scope_value workgroup) 5)
            × SameOrder acquire o))
    ⊎ ((acquire ≢ relaxed)
        × (workgroup ≡ system)
        × (atomic_fence_dispatch one_word acquire workgroup 5 ≡ one_word.threadfence_system 5))
fence_dispatch_order_example = fence_dispatch_order one_word acquire workgroup 5
