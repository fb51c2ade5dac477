-- ===== src/Shadow/Sampled.antt =====
-- The sampled watchpoint entry of include/hip_moi/shadow.hpp: its layout, packing and decoding,
-- the overlap of cell ranges, and the raw conflict test.
pub mod RoundTrip
pub mod Conflict
use hip_moi.Prelude.{
  ℕ, ◌+◌, ◌-◌, ◌/◌, ◌^◌, Bool, ◌&&◌, not, ◌==◌, ltb, if◌then◌else◌, bit_and, bit_or, u32, u64,
  sub32,
}
use hip_moi.Shadow.Kinds.{
  ShadowAccessKind, shadow_kind_value, shadow_kind_of, bit_field_mask, shadow_kind_conflicts,
}
use hip_moi.Shadow.Exact.{placed, taken}

abbrev pub granule_shift : ℕ
granule_shift = 2

abbrev pub granule_bytes : ℕ
granule_bytes = 4

abbrev pub valid_shift : ℕ
valid_shift = 0

abbrev pub consumed_shift : ℕ
consumed_shift = 1

abbrev pub access_kind_shift : ℕ
access_kind_shift = 2

abbrev pub access_kind_bits : ℕ
access_kind_bits = 3

abbrev pub owner_shift : ℕ
owner_shift = 5

abbrev pub owner_bits : ℕ
owner_bits = 10

abbrev pub epoch_shift : ℕ
epoch_shift = 15

abbrev pub epoch_bits : ℕ
epoch_bits = 10

abbrev pub generation_shift : ℕ
generation_shift = 25

abbrev pub generation_bits : ℕ
generation_bits = 20

abbrev pub start_shift : ℕ
start_shift = 45

abbrev pub start_bits : ℕ
start_bits = 14

abbrev pub count_shift : ℕ
count_shift = 59

abbrev pub count_bits : ℕ
count_bits = 5

abbrev pub max_start : ℕ
max_start = 2 ^ 14 - 1

abbrev pub max_count : ℕ
max_count = 2 ^ 5

abbrev pub valid_mask : ℕ
valid_mask = 2 ^ 0

abbrev pub consumed_mask : ℕ
consumed_mask = 2 ^ 1

pub record SampledWatchpointEntry : Type 0 where
  pub valid : Bool
  pub consumed : Bool
  pub kind : ShadowAccessKind
  pub owner_id : ℕ
  pub epoch : ℕ
  pub generation : ℕ
  pub start_cell : ℕ
  pub cell_count : ℕ

unfoldable pub encode_sampled_cell_count : ℕ → ℕ
encode_sampled_cell_count cell_count = if cell_count == 0 then 0 else sub32 cell_count 1

unfoldable pub pack_sampled_watchpoint_entry : ShadowAccessKind → ℕ → ℕ → ℕ → ℕ → ℕ → Bool → ℕ
unfolding encode_sampled_cell_count
pack_sampled_watchpoint_entry kind owner_id epoch generation start_cell cell_count consumed =
    bit_or
      (bit_or
        (bit_or
          (bit_or
            (bit_or
              (bit_or (bit_or valid_mask (if consumed then consumed_mask else 0))
                (placed access_kind_shift access_kind_bits (shadow_kind_value kind)))
              (placed owner_shift owner_bits owner_id))
            (placed epoch_shift epoch_bits epoch))
          (placed generation_shift generation_bits generation))
        (placed start_shift start_bits start_cell))
      (placed count_shift count_bits (encode_sampled_cell_count cell_count))

unfoldable pub decode_sampled_watchpoint_entry : ℕ → SampledWatchpointEntry
decode_sampled_watchpoint_entry value = record {
  valid = not (bit_and value valid_mask == 0);
  consumed = not (bit_and value consumed_mask == 0);
  kind = shadow_kind_of (taken access_kind_shift access_kind_bits value);
  owner_id = taken owner_shift owner_bits value;
  epoch = taken epoch_shift epoch_bits value;
  generation = taken generation_shift generation_bits value;
  start_cell = taken start_shift start_bits value;
  cell_count =
      u32 (u64 (bit_and value (bit_field_mask count_shift count_bits) / 2 ^ count_shift + 1));
}

unfoldable pub range_end_cell : ℕ → ℕ → ℕ
range_end_cell start_cell cell_count = u32 (start_cell + cell_count)

unfoldable pub cell_ranges_overlap : ℕ → ℕ → ℕ → ℕ → Bool
unfolding range_end_cell
cell_ranges_overlap first_start first_count second_start second_count =
    ltb first_start (range_end_cell second_start second_count)
    && ltb second_start (range_end_cell first_start first_count)

unfoldable pub sampled_watchpoints_conflict : SampledWatchpointEntry → SampledWatchpointEntry → Bool
unfolding cell_ranges_overlap
sampled_watchpoints_conflict current prior =
    current.valid
    && prior.valid
    && not prior.consumed
    && (current.epoch == prior.epoch)
    && (current.generation == prior.generation)
    && not (current.owner_id == prior.owner_id)
    && shadow_kind_conflicts current.kind prior.kind
    && cell_ranges_overlap current.start_cell current.cell_count prior.start_cell prior.cell_count
