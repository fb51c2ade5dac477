-- ===== src/Context/Sampled/Chunks.antt =====
-- The chunks that the sampled backend cuts an access into.
use hip_moi.Prelude.{
  ℕ, zero, suc, ◌+◌, ◌-◌, ◌<◌, ◌≤◌, ◌≡◌, refl, sym, ap, ◌∙◌, inl, inr, ltb, List, [], ◌∷◌, ◌++◌,
  arith, Bool-cases,
}
use mathlib.Core.List.{append-nil, append_assoc}
use hip_moi.Context.Sampled.{each_chunk, chunk_of}

-- The cells of one chunk, one after the other.
unfoldable pub cells : ℕ → ℕ → List ℕ
cells start zero = []
cells start (suc count) = start ∷ cells (start + 1) count

cells-append : (start m n : ℕ) → cells start m ++ cells (start + m) n ≡ cells start (m + n)
unfolding cells
cells-append start zero n =
    let here : start + 0 ≡ start = omega arith in
    let total : 0 + n ≡ n = omega arith in rw (here, total) refl
cells-append start (suc m) n =
    let next : start + suc m ≡ start + 1 + m = omega arith in
    let total : suc m + n ≡ suc (m + n) = omega arith in
    rw (total, next) (ap (λ xs. start ∷ xs) (cells-append (start + 1) m n))

-- A chunk of what remains has at least one cell and no more than the entry can hold.
pub chunk_of-bounds :
    (remaining : ℕ)
    → 0 < remaining
    → (0 < chunk_of remaining) × (chunk_of remaining ≤ 32) × (chunk_of remaining ≤ remaining)
chunk_of-bounds remaining h = ground arith

-- Recording the cells of each chunk in turn.
abbrev pub visit : ℕ → ℕ → List ℕ → List ℕ
visit start count before = before ++ cells start count

-- The chunks of an access cover each of its cells once and in order, when the loop has at least as
-- much fuel as there are cells.
pub each_chunk-cells :
    (fuel start end_cell : ℕ) (before : List ℕ)
    → end_cell ≤ start + fuel
    → each_chunk visit fuel start end_cell before ≡ before ++ cells start (end_cell - start)
unfolding each_chunk cells
each_chunk-cells zero start end_cell before h =
    let none_left : end_cell - start ≡ 0 = omega arith in rw none_left (sym (append-nil before))
each_chunk-cells (suc fuel) start end_cell before h = elim (Bool-cases (ltb start end_cell)) [
  | inr done ↦
      let none_left : end_cell - start ≡ 0 = ground arith in
      rw (done, none_left) (sym (append-nil before))
  | inl more ↦
      let chunk = chunk_of (end_cell - start) in
      let (some_cells, _, fits) = chunk_of-bounds (end_cell - start) (ground arith) in
      let rest =
        each_chunk-cells fuel (start + chunk) end_cell (visit start chunk before) (omega arith) in
      let left : end_cell - (start + chunk) ≡ end_cell - start - chunk = omega arith in
      let total : chunk + (end_cell - start - chunk) ≡ end_cell - start = omega arith in
      rw more (
        rest
        ∙ append_assoc before (cells start chunk)
            (cells (start + chunk) (end_cell - (start + chunk)))
        ∙ ap (λ xs. before ++ xs)
            (rw left (cells-append start chunk (end_cell - start - chunk))
              ∙ ap (cells start) total))
]
