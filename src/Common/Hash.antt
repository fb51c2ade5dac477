-- ===== src/Common/Hash.antt =====
-- Site identifiers and the two mixing functions of include/hip_moi/common.hpp.
use hip_moi.Prelude.{
  ℕ, ◌*◌, ◌%◌, ◌^◌, ◌≢◌, List, [], ◌∷◌, arith, ◌==◌, if◌then◌else◌, bit_xor, u32, u64, shl64, ◌>>>◌,
}

fnv_bytes : ℕ → List ℕ → ℕ
fnv_bytes hash [] = hash
fnv_bytes hash (c ∷ text) = fnv_bytes (u64 (bit_xor hash (c % 2 ^ 8) * 1099511628211)) text

-- A text is the list of its bytes, without the terminating zero.
unfoldable pub fnv1a64 : List ℕ → ℕ
unfolding fnv_bytes
fnv1a64 text = fnv_bytes 14695981039346656037 text

unfoldable pub mix64 : ℕ → ℕ
mix64 v =
    let a = u64 (bit_xor v (v >>> 30) * 0xbf58476d1ce4e5b9) in
    let b = u64 (bit_xor a (a >>> 27) * 0x94d049bb133111eb) in bit_xor b (b >>> 31)

unfoldable pub mix32 : ℕ → ℕ
mix32 v =
    let a = u32 (bit_xor v (v >>> 16) * 0x7feb352d) in
    let b = u32 (bit_xor a (a >>> 15) * 0x846ca68b) in bit_xor b (b >>> 16)

unfoldable pub make_site_id : List ℕ → ℕ → ℕ → ℕ → ℕ
make_site_id file line column counter =
    let value = mix64 (
      bit_xor (bit_xor (bit_xor (fnv1a64 file) (u64 (line * 0x9e3779b97f4a7c15))) (shl64 column 32))
        counter) in
    if value == 0 then 1 else value

-- A site identifier made from any source position is not zero, the value of `no_site_id`.
pub make_site_id-ne-zero :
    (file : List ℕ) (line column counter : ℕ) → make_site_id file line column counter ≢ 0
unfolding make_site_id
make_site_id-ne-zero file line column counter = ground arith
