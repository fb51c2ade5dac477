-- ===== src/Common/Ranges.antt =====
-- `byte_ranges_overlap` of include/hip_moi/common.hpp.
use hip_moi.Prelude.{
  ℕ, ◌+◌, ◌-◌, ◌^◌, ◌≤◌, ◌<◌, ◌≡◌, ◌↔◌, Bool, true, ◌&&◌, ltb, if◌then◌else◌, arith, max,
}

-- `UINTPTR_MAX` on a 64-bit device
abbrev pub uintptr_max : ℕ
uintptr_max = 2 ^ 64 - 1

range_end : ℕ → ℕ → ℕ
range_end address byte_count =
    if ltb (uintptr_max - address) byte_count then uintptr_max else address + byte_count

unfoldable pub byte_ranges_overlap : ℕ → ℕ → ℕ → ℕ → Bool
unfolding range_end
byte_ranges_overlap first_address first_byte_count second_address second_byte_count =
    ltb first_address (range_end second_address second_byte_count)
    && ltb second_address (range_end first_address first_byte_count)

-- `byte` is one of the `count` bytes from `address` on, the last byte of the address space left out.
abbrev pub InBytes : ℕ → ℕ → ℕ → Type 0
InBytes address count byte = (address ≤ byte) × (byte < address + count) × (byte < uintptr_max)

-- For two non-empty byte ranges at 64-bit addresses, whose ends may pass the address space, the
-- overlap test holds exactly when some byte other than the last of the space lies in both.
pub byte_overlap_iff :
    (a n b m : ℕ)
    → a ≤ uintptr_max
    → b ≤ uintptr_max
    → 0 < n
    → 0 < m
    → (byte_ranges_overlap a n b m ≡ true) ↔ ((byte : ℕ) × InBytes a n byte × InBytes b m byte)
unfolding byte_ranges_overlap
byte_overlap_iff a n b m ha hb hn hm =
    (λ h. (max a b, ground arith, ground arith), λ (byte, p, q). ground arith)

-- The members of an access record that the overload below asks for.
pub record AccessRecord : Type 0 where
  pub address : ℕ
  pub byte_count : ℕ

unfoldable pub records_overlap : AccessRecord → AccessRecord → Bool
unfolding byte_ranges_overlap
records_overlap first second =
    byte_ranges_overlap first.address first.byte_count second.address second.byte_count
