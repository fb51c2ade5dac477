-- ===== src/Shadow/Exact.antt =====
-- The exact shadow entry of include/hip_moi/shadow.hpp: its layout, packing and decoding, and
-- the raw conflict test.
pub mod RoundTrip
pub mod Conflict
use hip_moi.Prelude.{ℕ, ◌/◌, ◌^◌, Bool, ◌&&◌, not, ◌==◌, bit_and, bit_or, u32, shl64}
use hip_moi.Shadow.Kinds.{
  ShadowAccessKind, shadow_kind_value, shadow_kind_of, low_bit_mask, bit_field_mask,
  shadow_kind_is_empty, shadow_kind_conflicts,
}

abbrev pub granule_shift : ℕ
granule_shift = 2

abbrev pub granule_bytes : ℕ
granule_bytes = 4

abbrev pub access_kind_shift : ℕ
access_kind_shift = 0

abbrev pub access_kind_bits : ℕ
access_kind_bits = 3

abbrev pub owner_shift : ℕ
owner_shift = 3

abbrev pub owner_bits : ℕ
owner_bits = 10

abbrev pub epoch_shift : ℕ
epoch_shift = 13

abbrev pub epoch_bits : ℕ
epoch_bits = 10

abbrev pub generation_shift : ℕ
generation_shift = 23

abbrev pub generation_bits : ℕ
generation_bits = 20

abbrev pub site_shift : ℕ
site_shift = 43

abbrev pub site_bits : ℕ
site_bits = 21

pub record ExactShadowEntry : Type 0 where
  pub kind : ShadowAccessKind
  pub owner_id : ℕ
  pub epoch : ℕ
  pub generation : ℕ
  pub site_id : ℕ

-- `(value & low_bit_mask(bits)) << shift`
abbrev pub placed : ℕ → ℕ → ℕ → ℕ
placed shift bits value = shl64 (bit_and value (low_bit_mask bits)) shift

unfoldable pub pack_exact_shadow_entry : ShadowAccessKind → ℕ → ℕ → ℕ → ℕ → ℕ
pack_exact_shadow_entry kind owner_id epoch generation site_id =
    bit_or
      (bit_or
        (bit_or
          (bit_or (placed access_kind_shift access_kind_bits (shadow_kind_value kind))
            (placed owner_shift owner_bits owner_id))
          (placed epoch_shift epoch_bits epoch))
        (placed generation_shift generation_bits generation))
      (placed site_shift site_bits site_id)

-- `static_cast<uint32_t>((value & mask) >> shift)`
abbrev pub taken : ℕ → ℕ → ℕ → ℕ
taken shift bits value = u32 (bit_and value (bit_field_mask shift bits) / 2 ^ shift)

unfoldable pub decode_exact_shadow_entry : ℕ → ExactShadowEntry
decode_exact_shadow_entry value = record {
  kind = shadow_kind_of (taken access_kind_shift access_kind_bits value);
  owner_id = taken owner_shift owner_bits value;
  epoch = taken epoch_shift epoch_bits value;
  generation = taken generation_shift generation_bits value;
  site_id = taken site_shift site_bits value;
}

unfoldable pub exact_shadow_entries_conflict : ExactShadowEntry → ExactShadowEntry → Bool
exact_shadow_entries_conflict current prior =
    not (shadow_kind_is_empty prior.kind)
    && (current.epoch == prior.epoch)
    && (current.generation == prior.generation)
    && not (current.owner_id == prior.owner_id)
    && shadow_kind_conflicts current.kind prior.kind
