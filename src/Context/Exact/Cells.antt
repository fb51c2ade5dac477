-- ===== src/Context/Exact/Cells.antt =====
-- What the loop over the covered cells does: the words that it writes, and how many diagnostics
-- it emits.
use hip_moi.Prelude.{
  ℕ, zero, suc, ◌+◌, ◌^◌, ◌≤◌, ◌<◌, ◌≡◌, refl, ap, subst, ◌∙◌, inl, inr, ◌&&◌, if◌then◌else◌, leb,
  ltb, some, List, arith, length, get_or, set, length-set, get_or-set_self, get_or-set_ne,
  Bool-cases,
}
use native.Mathlib.Numerals.{unary_clauses}
use hip_moi.Shadow.Exact.{ExactShadowEntry, decode_exact_shadow_entry}
use hip_moi.Context.Storage.{Diagnostic, Storage}
use hip_moi.Context.Diagnostics.Counting.{emit_frame, Emitted, emit-Emitted, fits}
use hip_moi.Context.Acquires.{current_access_acquired_prior_epoch}
use hip_moi.Context.Exact.{
  words_of, reports, record_cell, record_cells, exchange_cell, shadow_conflict,
}

abbrev pub word : Storage → ℕ → ℕ
word s cell = get_or (words_of s.exact_shadow_entries) cell 0

module _ (packed byte_count lds_byte_offset : ℕ) where
  abbrev current : ExactShadowEntry
  current = decode_exact_shadow_entry packed

  -- One cell: its word is exchanged, and only the diagnostics may change beside.
  record_cell_frame :
      (cell : ℕ) (s : Storage)
      → let s' = record_cell packed byte_count lds_byte_offset cell s in
        s' ≡ record s {
          exact_shadow_entries = some (set (words_of s.exact_shadow_entries) cell packed);
          diagnostics = s'.diagnostics;
          diagnostic_count = s'.diagnostic_count;
        }
  unfolding record_cell
  record_cell_frame cell s =
      let next = exchange_cell s cell packed in
      let prior = decode_exact_shadow_entry (word s cell) in
      elim (Bool-cases (reports next current prior)) [
        | inr quiet ↦ rw quiet
        | inl loud ↦
            rw loud
              (emit_frame next (shadow_conflict prior current byte_count lds_byte_offset cell))
      ]

  -- The loop leaves all but the words and the diagnostics alone.
  pub record_cells_frame :
      (left cell : ℕ) (s : Storage)
      → let s' = record_cells packed byte_count lds_byte_offset left cell s in
        s' ≡ record s {
          exact_shadow_entries = s'.exact_shadow_entries;
          diagnostics = s'.diagnostics;
          diagnostic_count = s'.diagnostic_count;
        }
  unfolding record_cells
  record_cells_frame zero cell s = refl
  record_cells_frame (suc left) cell s =
      let s' = record_cell packed byte_count lds_byte_offset cell s in
      let s'' = record_cells packed byte_count lds_byte_offset left (cell + 1) s' in
      record_cells_frame left (cell + 1) s'
      ∙ ap
          (λ (t : Storage). record t {
            exact_shadow_entries = s''.exact_shadow_entries;
            diagnostics = s''.diagnostics;
            diagnostic_count = s''.diagnostic_count;
          })
          (record_cell_frame cell s)

  word_of_cell :
      (cell : ℕ) (s : Storage) (j : ℕ)
      → word (record_cell packed byte_count lds_byte_offset cell s) j
        ≡ get_or (set (words_of s.exact_shadow_entries) cell packed) j 0
  word_of_cell cell s j = ap (λ (t : Storage). word t j) (record_cell_frame cell s)

  length_of_cell :
      (cell : ℕ) (s : Storage)
      → length
          (words_of (record_cell packed byte_count lds_byte_offset cell s).exact_shadow_entries)
        ≡ length (words_of s.exact_shadow_entries)
  length_of_cell cell s =
      ap (λ (t : Storage). length (words_of t.exact_shadow_entries)) (record_cell_frame cell s)
      ∙ length-set (words_of s.exact_shadow_entries) cell packed

  -- The table is there after the loop, with as many words.
  pub table_kept :
      (left cell : ℕ) (s : Storage) (words : List ℕ)
      → s.exact_shadow_entries ≡ some words
      → (words' : List ℕ) × ((record_cells packed byte_count lds_byte_offset left cell
            s).exact_shadow_entries
          ≡ some words')
        × (length words' ≡ length words)
  unfolding record_cells
  table_kept zero cell s words h = (words, h, refl)
  table_kept (suc left) cell s words h =
      let s' = record_cell packed byte_count lds_byte_offset cell s in
      let next = set (words_of s.exact_shadow_entries) cell packed in
      let (words', there, sized) =
        table_kept left (cell + 1) s' next
          (ap (λ (t : Storage). t.exact_shadow_entries) (record_cell_frame cell s)) in
      (words', there, sized ∙ length-set (words_of s.exact_shadow_entries) cell packed ∙ rw h refl)

  -- After the loop over cells within the table each covered cell of the table holds the new word,
  -- and each other cell what it held.
  pub word-record_cells :
      (left cell : ℕ) (s : Storage) (j : ℕ)
      → cell + left ≤ length (words_of s.exact_shadow_entries)
      → word (record_cells packed byte_count lds_byte_offset left cell s) j
        ≡ (if leb cell j && ltb j (cell + left) then packed else word s j)
  unfolding record_cells
  word-record_cells zero cell s j h = ground arith
  word-record_cells (suc left) cell s j h =
      let s' = record_cell packed byte_count lds_byte_offset cell s in
      let rest =
        word-record_cells left (cell + 1) s' j (rw (length_of_cell cell s) (omega arith)) in
      ground (
        arith,
        word_of_cell cell s j,
        get_or-set_self (words_of s.exact_shadow_entries) cell packed 0,
        get_or-set_ne (words_of s.exact_shadow_entries) cell j packed 0,
      )

  -- How many of the covered cells hold an entry to report, before the access.
  unfoldable pub reported : Storage → ℕ → ℕ → ℕ
  reported s zero cell = 0
  reported s (suc left) cell =
      let rest = reported s left (cell + 1) in
      if reports s current (decode_exact_shadow_entry (word s cell)) then suc rest else rest

  reports_frame :
      (s s' : Storage) (prior : ExactShadowEntry)
      → s'.acquired_subgroup_epoch_tokens ≡ s.acquired_subgroup_epoch_tokens
      → s'.subgroup_capacity ≡ s.subgroup_capacity
      → reports s' current prior ≡ reports s current prior
  unfolding reports current_access_acquired_prior_epoch
  reports_frame s s' prior t c = rw (t, c)

  -- A cell that is written does not change what later cells report.
  reported_frame :
      (s s' : Storage) (left cell : ℕ)
      → s'.acquired_subgroup_epoch_tokens ≡ s.acquired_subgroup_epoch_tokens
      → s'.subgroup_capacity ≡ s.subgroup_capacity
      → ((j : ℕ) → cell ≤ j → word s' j ≡ word s j)
      → reported s' left cell ≡ reported s left cell
  unfolding reported
  reported_frame s s' zero cell t c w = refl
  reported_frame s s' (suc left) cell t c w =
      let rest = reported_frame s s' left (cell + 1) t c (λ j h. w j (omega arith)) in
      rw (
        w cell (omega arith),
        reports_frame s s' (decode_exact_shadow_entry (word s cell)) t c,
        rest,
      )

  count_of_cell :
      (cell : ℕ) (s : Storage) (buffer : List Diagnostic) (n : ℕ)
      → n + 1 < 2 ^ 31
      → Emitted s buffer n
      → (buffer' : List Diagnostic) × Emitted
          (record_cell packed byte_count lds_byte_offset cell s)
          buffer'
          (if reports s current (decode_exact_shadow_entry (word s cell)) then n + 1 else n)
  unfolding record_cell
  count_of_cell cell s buffer n small h =
      let next = exchange_cell s cell packed in
      let prior = decode_exact_shadow_entry (word s cell) in
      let kept : Emitted next buffer n = record {
        there = h.there;
        room = h.room;
        counted = h.counted;
      } in
      let same = reports_frame s next prior refl refl in
      elim (Bool-cases (reports s current prior)) [
        | inr quiet ↦ (buffer, rw (same, quiet) kept)
        | inl loud ↦
            let d = shadow_conflict prior current byte_count lds_byte_offset cell in
            let buffer' = if fits n s.diagnostic_capacity then set buffer n d else buffer in
            (buffer', rw (same, loud) (emit-Emitted next d buffer n small kept))
      ]

  -- Within the table, with the diagnostic buffer there and fewer than 2 ^ 31 diagnostics, the loop
  -- over the cells of an access emits one diagnostic for each covered cell whose entry is one to
  -- report, and no other.
  pub count-record_cells :
      (left cell : ℕ) (s : Storage) (buffer : List Diagnostic) (n : ℕ)
      → cell + left ≤ length (words_of s.exact_shadow_entries)
      → n + left < 2 ^ 31
      → Emitted s buffer n
      → (buffer' : List Diagnostic) × Emitted
          (record_cells packed byte_count lds_byte_offset left cell s)
          buffer'
          (n + reported s left cell)
  unfolding record_cells reported
  count-record_cells zero cell s buffer n inside small h = (buffer, simp unary_clauses h)
  count-record_cells (suc left) cell s buffer n inside small h =
      let s' = record_cell packed byte_count lds_byte_offset cell s in
      let here = reports s current (decode_exact_shadow_entry (word s cell)) in
      let (buffer', h') = count_of_cell cell s buffer n (omega arith) h in
      let later : reported s' left (cell + 1) ≡ reported s left (cell + 1) =
        reported_frame s s' left (cell + 1)
          (ap (λ (t : Storage). t.acquired_subgroup_epoch_tokens) (record_cell_frame cell s))
          (ap (λ (t : Storage). t.subgroup_capacity) (record_cell_frame cell s))
          (λ j lo.
            word_of_cell cell s j
            ∙ get_or-set_ne (words_of s.exact_shadow_entries) cell j packed 0 (omega arith)) in
      let inside' : cell + 1 + left ≤ length (words_of s'.exact_shadow_entries) =
        rw (length_of_cell cell s) (omega arith) in
      let n' = if here then n + 1 else n in
      let (last, done) =
        count-record_cells left (cell + 1) s' buffer' n' inside' (ground arith) h' in
      let total : n' + reported s' left (cell + 1) ≡ n + reported s (suc left) cell =
        rw later (ground arith) in
      (
        last,
        subst
            (λ k. Emitted (record_cells packed byte_count lds_byte_offset (suc left) cell s) last k)
            total done,
      )
