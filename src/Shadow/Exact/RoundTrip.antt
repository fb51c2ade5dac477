-- ===== src/Shadow/Exact/RoundTrip.antt =====
-- Packing an exact shadow entry keeps the low bits of every field, and decoding reads them back.
use hip_moi.Prelude.{
  ℕ, ◌+◌, ◌*◌, ◌%◌, ◌^◌, ◌<◌, ◌≡◌, ◌∙◌, arith, bit_and_ones, read_field, add_field, field,
}
use hip_moi.Shadow.Kinds.{ShadowAccessKind, shadow_kind_value, shadow_kind_of}
use hip_moi.Shadow.Exact.{pack_exact_shadow_entry, decode_exact_shadow_entry, placed, taken}

pub shadow_kind_value-of : (v : ℕ) → shadow_kind_value (shadow_kind_of v) ≡ v
shadow_kind_value-of v = ground arith

pack_as_sum :
    (kind : ShadowAccessKind) (owner epoch generation site : ℕ)
    → pack_exact_shadow_entry kind owner epoch generation site
      ≡ shadow_kind_value kind % 2 ^ 3
        + owner % 2 ^ 10 * 2 ^ 3
        + epoch % 2 ^ 10 * 2 ^ 13
        + generation % 2 ^ 20 * 2 ^ 23
        + site % 2 ^ 21 * 2 ^ 43
unfolding pack_exact_shadow_entry
pack_as_sum kind owner epoch generation site =
    let v = shadow_kind_value kind in
    let k : placed 0 3 v ≡ v % 2 ^ 3 = omega (arith, bit_and_ones 3 v) in
    let o : placed 3 10 owner ≡ owner % 2 ^ 10 * 2 ^ 3 = omega (arith, bit_and_ones 10 owner) in
    let e : placed 13 10 epoch ≡ epoch % 2 ^ 10 * 2 ^ 13 = omega (arith, bit_and_ones 10 epoch) in
    let g : placed 23 20 generation ≡ generation % 2 ^ 20 * 2 ^ 23 =
      omega (arith, bit_and_ones 20 generation) in
    let s : placed 43 21 site ≡ site % 2 ^ 21 * 2 ^ 43 = omega (arith, bit_and_ones 21 site) in
    let with_owner = add_field 3 (owner % 2 ^ 10) (placed 0 3 v) (v % 2 ^ 3) k (omega arith) in
    let with_epoch = add_field 13 (epoch % 2 ^ 10) _ _ with_owner (omega arith) in
    let with_generation = add_field 23 (generation % 2 ^ 20) _ _ with_epoch (omega arith) in
    rw (o, e, g, s) (add_field 43 (site % 2 ^ 21) _ _ with_generation (omega arith))

-- Each field of a decoded word is a field of the word.
pub decode_fields :
    (w : ℕ)
    → decode_exact_shadow_entry w ≡ record {
      kind = shadow_kind_of (field 0 3 w);
      owner_id = field 3 10 w;
      epoch = field 13 10 w;
      generation = field 23 20 w;
      site_id = field 43 21 w;
    }
unfolding decode_exact_shadow_entry
decode_fields w =
    let k : taken 0 3 w ≡ field 0 3 w = omega (arith, read_field 0 3 w) in
    let o : taken 3 10 w ≡ field 3 10 w = omega (arith, read_field 3 10 w) in
    let e : taken 13 10 w ≡ field 13 10 w = omega (arith, read_field 13 10 w) in
    let g : taken 23 20 w ≡ field 23 20 w = omega (arith, read_field 23 20 w) in
    let s : taken 43 21 w ≡ field 43 21 w = omega (arith, read_field 43 21 w) in
    λ i. record {
      kind = shadow_kind_of (k i);
      owner_id = o i;
      epoch = e i;
      generation = g i;
      site_id = s i;
    }

pub pack-lt :
    (kind : ShadowAccessKind) (owner epoch generation site : ℕ)
    → pack_exact_shadow_entry kind owner epoch generation site < 2 ^ 64
pack-lt kind owner epoch generation site =
    rw (pack_as_sum kind owner epoch generation site) (omega arith)

-- Decoding a packed entry gives each field back, reduced to the width of its bit field.
pub decode-pack :
    (kind : ShadowAccessKind) (owner epoch generation site : ℕ)
    → decode_exact_shadow_entry (pack_exact_shadow_entry kind owner epoch generation site)
      ≡ record {
        kind = shadow_kind_of (shadow_kind_value kind % 2 ^ 3);
        owner_id = owner % 2 ^ 10;
        epoch = epoch % 2 ^ 10;
        generation = generation % 2 ^ 20;
        site_id = site % 2 ^ 21;
      }
decode-pack kind owner epoch generation site =
    let w = pack_exact_shadow_entry kind owner epoch generation site in
    let sum = pack_as_sum kind owner epoch generation site in
    let k : field 0 3 w ≡ shadow_kind_value kind % 2 ^ 3 = omega (arith, sum) in
    let o : field 3 10 w ≡ owner % 2 ^ 10 = omega (arith, sum) in
    let e : field 13 10 w ≡ epoch % 2 ^ 10 = omega (arith, sum) in
    let g : field 23 20 w ≡ generation % 2 ^ 20 = omega (arith, sum) in
    let s : field 43 21 w ≡ site % 2 ^ 21 = omega (arith, sum) in
    decode_fields w ∙ λ i. record {
      kind = shadow_kind_of (k i);
      owner_id = o i;
      epoch = e i;
      generation = g i;
      site_id = s i;
    }

-- Packing the fields of a decoded 64-bit word gives the word back: the five fields use every bit.
pub pack-decode :
    (w : ℕ)
    → w < 2 ^ 64
    → let entry = decode_exact_shadow_entry w in
      pack_exact_shadow_entry entry.kind entry.owner_id entry.epoch entry.generation entry.site_id
      ≡ w
pack-decode w h =
    let k = shadow_kind_value-of (field 0 3 w) in
    rw (decode_fields w) (
      pack_as_sum (shadow_kind_of (field 0 3 w)) (field 3 10 w) (field 13 10 w) (field 23 20 w)
        (field 43 21 w)
      ∙ rw k (omega arith))
