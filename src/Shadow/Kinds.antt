-- ===== src/Shadow/Kinds.antt =====
-- The access kinds of include/hip_moi/shadow.hpp and its bit masks.
use hip_moi.Prelude.{
  ℕ, zero, suc, ◌-◌, ◌^◌, Bool, true, false, not, ◌||◌, leb, if◌then◌else◌, sub64, shl64,
}
use hip_moi.Common.Kinds.{AccessKind}

-- `unnamed` is a value of the underlying type that no enumerator names; a decoded word can
-- hold one of 5, 6 and 7.
pub data ShadowAccessKind : Type 0 where
  empty read write read_write atomic : ShadowAccessKind
  unnamed : ℕ → ShadowAccessKind

-- `static_cast<uint64_t>(kind)`
abbrev pub shadow_kind_value : ShadowAccessKind → ℕ
shadow_kind_value empty = 0
shadow_kind_value read = 1
shadow_kind_value write = 2
shadow_kind_value read_write = 3
shadow_kind_value atomic = 4
shadow_kind_value (unnamed v) = v

-- `static_cast<shadow_access_kind>(v)`
abbrev pub shadow_kind_of : ℕ → ShadowAccessKind
shadow_kind_of zero = empty
shadow_kind_of (suc zero) = read
shadow_kind_of (suc (suc zero)) = write
shadow_kind_of (suc (suc (suc zero))) = read_write
shadow_kind_of (suc (suc (suc (suc zero)))) = atomic
shadow_kind_of (suc (suc (suc (suc (suc v))))) = unnamed (suc (suc (suc (suc (suc v)))))

abbrev pub low_bit_mask : ℕ → ℕ
low_bit_mask bits = if leb 64 bits then 2 ^ 64 - 1 else sub64 (shl64 1 bits) 1

abbrev pub bit_field_mask : ℕ → ℕ → ℕ
bit_field_mask shift bits = shl64 (low_bit_mask bits) shift

unfoldable pub shadow_kind_from_access_kind : AccessKind → ShadowAccessKind
shadow_kind_from_access_kind AccessKind.store = write
shadow_kind_from_access_kind AccessKind.load = read

unfoldable pub shadow_kind_is_empty : ShadowAccessKind → Bool
shadow_kind_is_empty empty = true
shadow_kind_is_empty _ = false

is_read : ShadowAccessKind → Bool
is_read read = true
is_read _ = false

is_atomic : ShadowAccessKind → Bool
is_atomic atomic = true
is_atomic _ = false

unfoldable pub shadow_kind_conflicts : ShadowAccessKind → ShadowAccessKind → Bool
unfolding shadow_kind_is_empty is_read is_atomic
shadow_kind_conflicts current prior =
    if shadow_kind_is_empty current || shadow_kind_is_empty prior
    then false
    else if is_read current
    then not (is_read prior)
    else if is_atomic current
    then not (is_atomic prior)
    else true
