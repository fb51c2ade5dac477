-- ===== src/Shadow/Exact/Conflict.antt =====
-- When two accesses conflict in the exact shadow table, in terms of the accesses themselves.
use hip_moi.Prelude.{ℕ, ◌%◌, ◌^◌, ◌≡◌, ◌∙◌, refl, ◌≢◌, ◌↔◌, ◌⊎◌, true, false, arith}
use hip_moi.Common.Kinds.{AccessKind, load, store}
use hip_moi.Shadow.Kinds.{
  ShadowAccessKind, shadow_kind_from_access_kind, shadow_kind_is_empty, shadow_kind_conflicts,
  shadow_kind_value, shadow_kind_of,
}
use hip_moi.Shadow.Exact.{
  ExactShadowEntry, pack_exact_shadow_entry, decode_exact_shadow_entry,
  exact_shadow_entries_conflict,
}
use hip_moi.Shadow.Exact.RoundTrip.{decode-pack}

-- What one access of a subgroup leaves behind.
pub record Access : Type 0 where
  pub kind : AccessKind
  pub subgroup : ℕ
  pub epoch : ℕ
  pub generation : ℕ
  pub site : ℕ

abbrev pub packed_access : Access → ℕ
packed_access a =
    pack_exact_shadow_entry (shadow_kind_from_access_kind a.kind) a.subgroup a.epoch a.generation
      a.site

-- The entry that an access is decoded to.
abbrev pub recorded : Access → ExactShadowEntry
recorded a = record {
  kind = shadow_kind_from_access_kind a.kind;
  owner_id = a.subgroup % 2 ^ 10;
  epoch = a.epoch % 2 ^ 10;
  generation = a.generation % 2 ^ 20;
  site_id = a.site % 2 ^ 21;
}

pub decode-packed_access : (a : Access) → decode_exact_shadow_entry (packed_access a) ≡ recorded a
unfolding shadow_kind_from_access_kind
decode-packed_access a =
    decode-pack (shadow_kind_from_access_kind a.kind) a.subgroup a.epoch a.generation a.site ∙ λ i.
    record {
      kind = named a.kind i;
      owner_id = a.subgroup % 2 ^ 10;
      epoch = a.epoch % 2 ^ 10;
      generation = a.generation % 2 ^ 20;
      site_id = a.site % 2 ^ 21;
    }
  where
    named :
        (k : AccessKind)
        → shadow_kind_of (shadow_kind_value (shadow_kind_from_access_kind k) % 2 ^ 3)
          ≡ shadow_kind_from_access_kind k
    named load = refl
    named store = refl

-- Two accesses may race: one of them writes, and subgroups differ within one epoch and launch,
-- as far as the bit fields tell these apart.
pub record Clash (a b : Access) : Type 0 where
  pub a_write : (a.kind ≡ store) ⊎ (b.kind ≡ store)
  pub epochs : a.epoch % 2 ^ 10 ≡ b.epoch % 2 ^ 10
  pub generations : a.generation % 2 ^ 20 ≡ b.generation % 2 ^ 20
  pub subgroups : a.subgroup % 2 ^ 10 ≢ b.subgroup % 2 ^ 10

pub conflict-Clash :
    (a b : Access) → (exact_shadow_entries_conflict (recorded a) (recorded b) ≡ true) ↔ Clash a b
unfolding exact_shadow_entries_conflict shadow_kind_conflicts shadow_kind_from_access_kind
conflict-Clash a b = ground arith

-- The conflict test on two packed words, after decoding, holds exactly when one of the two accesses
-- is a store, their epochs agree modulo 2 ^ 10, their generations modulo 2 ^ 20, and their
-- subgroups differ modulo 2 ^ 10.
pub packed_conflict_iff :
    (a b : Access)
    → (exact_shadow_entries_conflict
          (decode_exact_shadow_entry (packed_access a))
          (decode_exact_shadow_entry (packed_access b))
        ≡ true)
      ↔ Clash a b
packed_conflict_iff a b = rw (decode-packed_access a, decode-packed_access b) (conflict-Clash a b)

-- A word that was cleared to zero is an empty entry and conflicts with no entry.
pub cleared_no_conflict :
    (current : ExactShadowEntry)
    → exact_shadow_entries_conflict current (decode_exact_shadow_entry 0) ≡ false
unfolding exact_shadow_entries_conflict decode_exact_shadow_entry shadow_kind_is_empty
cleared_no_conflict current = refl

-- The conflict test does not depend on which of two entries came first.
pub shadow_kind_conflicts_symm :
    (a b : ShadowAccessKind) → shadow_kind_conflicts a b ≡ shadow_kind_conflicts b a
unfolding shadow_kind_conflicts
shadow_kind_conflicts_symm a b = ground arith
