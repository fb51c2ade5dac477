-- ===== src/Context/Diagnostics/Counting.antt =====
-- What emitting a diagnostic changes, and how many were emitted.
use hip_moi.Prelude.{
  ℕ, ◌+◌, ◌^◌, ◌<◌, ◌≡◌, Bool, true, false, if◌then◌else◌, ltb, some, List, ℤ, pos, negsuc, is_pos,
  arith, set,
}
use hip_moi.Context.Storage.{Diagnostic, Storage}
use hip_moi.Context.Diagnostics.{emit_diagnostic}

-- Emitting changes the buffer and its count, and nothing else.
pub emit_frame :
    (s : Storage) (d : Diagnostic)
    → emit_diagnostic s d ≡ record s {
      diagnostics = (emit_diagnostic s d).diagnostics;
      diagnostic_count = (emit_diagnostic s d).diagnostic_count;
    }
unfolding emit_diagnostic
emit_frame s d = ground arith

-- The diagnostic buffer is `buffer`, and `n` diagnostics were emitted.
pub record Emitted (s : Storage) (buffer : List Diagnostic) (n : ℕ) : Type 0 where
  pub there : s.diagnostics ≡ some buffer
  pub room : is_pos s.diagnostic_capacity ≡ true
  pub counted : s.diagnostic_count ≡ some (pos n)

-- Does the diagnostic with number `n` have a place in the buffer?
abbrev pub fits : ℕ → ℤ → Bool
fits n (pos capacity) = ltb n capacity
fits n (negsuc c) = false

-- With the buffer there, a positive capacity and fewer than 2 ^ 31 diagnostics, a diagnostic is
-- counted whether or not the buffer has a place for it, and is stored where it has.
pub emit-Emitted :
    (s : Storage) (d : Diagnostic) (buffer : List Diagnostic) (n : ℕ)
    → n + 1 < 2 ^ 31
    → Emitted s buffer n
    → Emitted
        (emit_diagnostic s d)
        (if fits n s.diagnostic_capacity then set buffer n d else buffer)
        (n + 1)
unfolding emit_diagnostic
emit-Emitted s d buffer n small h = record {
  there = ground arith;
  room = ground arith;
  counted = ground arith;
}
