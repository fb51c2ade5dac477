-- ===== src/Shadow/Sampled/RoundTrip.antt =====
-- Packing a sampled watchpoint keeps the low bits of every field, and decoding reads them back;
-- a cell count from 1 to 32 survives, by the count less one in five bits.
use hip_moi.Prelude.{
  ◌/◌, ◌≤◌, bit_and, not, ◌==◌, ap, ◌∙◌, bit_and_ones, bit_and_above, read_field, field, u32, u64,
  ℕ, ◌+◌, ◌*◌, ◌%◌, ◌^◌, ◌<◌, ◌≡◌, refl, arith, bit_or, Bool, true, false, if◌then◌else◌, add_field,
}
use hip_moi.Shadow.Kinds.{shadow_kind_of, bit_field_mask, ShadowAccessKind, shadow_kind_value}
use hip_moi.Shadow.Exact.{taken, placed}
use hip_moi.Shadow.Sampled.{
  SampledWatchpointEntry, decode_sampled_watchpoint_entry, pack_sampled_watchpoint_entry,
  encode_sampled_cell_count,
}

abbrev pub flag : Bool → ℕ
flag true = 1
flag false = 0

-- The sum that the fields of a packed watchpoint make.
abbrev pub fields_sum : ℕ → ℕ → ℕ → ℕ → ℕ → ℕ → ℕ → ℕ
fields_sum consumed kind owner epoch generation start count =
    1
    + consumed * 2 ^ 1
    + kind % 2 ^ 3 * 2 ^ 2
    + owner % 2 ^ 10 * 2 ^ 5
    + epoch % 2 ^ 10 * 2 ^ 15
    + generation % 2 ^ 20 * 2 ^ 25
    + start % 2 ^ 14 * 2 ^ 45
    + count % 2 ^ 5 * 2 ^ 59

flags_lem : (c : Bool) → bit_or 1 (if c then 2 else 0) ≡ 1 + flag c * 2 ^ 1
flags_lem true = refl
flags_lem false = refl

pub pack_as_sum :
    (kind : ShadowAccessKind) (owner epoch generation start count : ℕ) (consumed : Bool)
    → pack_sampled_watchpoint_entry kind owner epoch generation start count consumed
      ≡ fields_sum
          (flag consumed)
          (shadow_kind_value kind)
          owner
          epoch
          generation
          start
          (encode_sampled_cell_count count)
unfolding pack_sampled_watchpoint_entry
pack_as_sum kind owner epoch generation start count consumed =
    let v = shadow_kind_value kind in
    let n = encode_sampled_cell_count count in
    let f = flags_lem consumed in
    let small : flag consumed < 2 = ground arith in
    let k : placed 2 3 v ≡ v % 2 ^ 3 * 2 ^ 2 = omega (arith, bit_and_ones 3 v) in
    let o : placed 5 10 owner ≡ owner % 2 ^ 10 * 2 ^ 5 = omega (arith, bit_and_ones 10 owner) in
    let e : placed 15 10 epoch ≡ epoch % 2 ^ 10 * 2 ^ 15 = omega (arith, bit_and_ones 10 epoch) in
    let g : placed 25 20 generation ≡ generation % 2 ^ 20 * 2 ^ 25 =
      omega (arith, bit_and_ones 20 generation) in
    let s : placed 45 14 start ≡ start % 2 ^ 14 * 2 ^ 45 = omega (arith, bit_and_ones 14 start) in
    let c : placed 59 5 n ≡ n % 2 ^ 5 * 2 ^ 59 = omega (arith, bit_and_ones 5 n) in
    let with_kind = add_field 2 (v % 2 ^ 3) _ _ f (omega arith) in
    let with_owner = add_field 5 (owner % 2 ^ 10) _ _ with_kind (omega arith) in
    let with_epoch = add_field 15 (epoch % 2 ^ 10) _ _ with_owner (omega arith) in
    let with_generation = add_field 25 (generation % 2 ^ 20) _ _ with_epoch (omega arith) in
    let with_start = add_field 45 (start % 2 ^ 14) _ _ with_generation (omega arith) in
    rw (k, o, e, g, s, c) (add_field 59 (n % 2 ^ 5) _ _ with_start (omega arith))

test_bit : (v : ℕ) → not (v % 2 == 0) ≡ (v % 2 == 1)
test_bit v = ground arith

valid_lem : (w : ℕ) → not (bit_and w 1 == 0) ≡ (field 0 1 w == 1)
valid_lem w = ground (arith, bit_and_ones 1 w)

consumed_lem : (w : ℕ) → not (bit_and w 2 == 0) ≡ (field 1 1 w == 1)
consumed_lem w = ground (arith, bit_and_above 1 1 w, bit_and_ones 1 (w / 2))

-- Each field of a decoded watchpoint is a field of the word; the count is one more than its field.
pub decode_fields :
    (w : ℕ)
    → decode_sampled_watchpoint_entry w ≡ record {
      valid = field 0 1 w == 1;
      consumed = field 1 1 w == 1;
      kind = shadow_kind_of (field 2 3 w);
      owner_id = field 5 10 w;
      epoch = field 15 10 w;
      generation = field 25 20 w;
      start_cell = field 45 14 w;
      cell_count = field 59 5 w + 1;
    }
unfolding decode_sampled_watchpoint_entry
decode_fields w =
    let k : taken 2 3 w ≡ field 2 3 w = omega (arith, read_field 2 3 w) in
    let o : taken 5 10 w ≡ field 5 10 w = omega (arith, read_field 5 10 w) in
    let e : taken 15 10 w ≡ field 15 10 w = omega (arith, read_field 15 10 w) in
    let g : taken 25 20 w ≡ field 25 20 w = omega (arith, read_field 25 20 w) in
    let s : taken 45 14 w ≡ field 45 14 w = omega (arith, read_field 45 14 w) in
    let c : u32 (u64 (bit_and w (bit_field_mask 59 5) / 2 ^ 59 + 1)) ≡ field 59 5 w + 1 =
      omega (arith, read_field 59 5 w) in
    λ i. record {
      valid = valid_lem w i;
      consumed = consumed_lem w i;
      kind = shadow_kind_of (k i);
      owner_id = o i;
      epoch = e i;
      generation = g i;
      start_cell = s i;
      cell_count = c i;
    }

-- What a publication of the cells from `start` on, `count` of them, is decoded to.
abbrev pub recorded_range : ShadowAccessKind → ℕ → ℕ → ℕ → ℕ → ℕ → Bool → SampledWatchpointEntry
recorded_range kind owner epoch generation start count consumed = record {
  valid = true;
  consumed = consumed;
  kind = shadow_kind_of (shadow_kind_value kind % 2 ^ 3);
  owner_id = owner % 2 ^ 10;
  epoch = epoch % 2 ^ 10;
  generation = generation % 2 ^ 20;
  start_cell = start;
  cell_count = count;
}

-- For a start cell below 2 ^ 14 and a count from 1 to 32, decoding a packed watchpoint gives the
-- range and both flags back whole, and every other field reduced to the width of its bit field.
pub decode-pack_watchpoint :
    (kind : ShadowAccessKind) (owner epoch generation start count : ℕ) (consumed : Bool)
    → start < 2 ^ 14
    → 1 ≤ count
    → count ≤ 32
    → decode_sampled_watchpoint_entry
        (pack_sampled_watchpoint_entry kind owner epoch generation start count consumed)
      ≡ recorded_range kind owner epoch generation start count consumed
decode-pack_watchpoint kind owner epoch generation start count consumed h lo hi =
    let w = pack_sampled_watchpoint_entry kind owner epoch generation start count consumed in
    let sum = pack_as_sum kind owner epoch generation start count consumed in
    let n : encode_sampled_cell_count count + 1 ≡ count =
      unfold encode_sampled_cell_count in ground arith in
    let small : flag consumed < 2 = ground arith in
    let v : field 0 1 w ≡ 1 = omega (arith, sum) in
    let f : field 1 1 w ≡ flag consumed = omega (arith, sum) in
    let k : field 2 3 w ≡ shadow_kind_value kind % 2 ^ 3 = omega (arith, sum) in
    let o : field 5 10 w ≡ owner % 2 ^ 10 = omega (arith, sum) in
    let e : field 15 10 w ≡ epoch % 2 ^ 10 = omega (arith, sum) in
    let g : field 25 20 w ≡ generation % 2 ^ 20 = omega (arith, sum) in
    let s : field 45 14 w ≡ start = omega (arith, sum) in
    let c : field 59 5 w + 1 ≡ count = omega (arith, sum) in
    let b : (flag consumed == 1) ≡ consumed = ground arith in
    decode_fields w ∙ λ i. record {
      valid = v i == 1;
      consumed = (ap (λ t. t == 1) f ∙ b) i;
      kind = shadow_kind_of (k i);
      owner_id = o i;
      epoch = e i;
      generation = g i;
      start_cell = s i;
      cell_count = c i;
    }
