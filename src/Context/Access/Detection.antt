-- ===== src/Context/Access/Detection.antt =====
-- Two accesses through the exact shadow backend: which cells they meet, and when they are quiet.
use hip_moi.Prelude.{
  ℕ, zero, suc, ◌+◌, ◌-◌, ◌*◌, ◌%◌, ◌/◌, ◌^◌, ◌≤◌, ◌<◌, ◌≡◌, refl, ap, subst, ◌∙◌, ◌⊎◌, inl, inr,
  Bool, true, false, ◌&&◌, not, if◌then◌else◌, leb, ltb, some, List, pos, is_pos, u32_of_int, ◌>>>◌,
  arith, length, Bool-cases, u32,
}
use native.Mathlib.Decide.{ℕ_discrete}
use hip_moi.Common.Kinds.{SiteId, AccessKind}
use hip_moi.Shadow.Exact.{
  granule_shift, ExactShadowEntry, decode_exact_shadow_entry, exact_shadow_entries_conflict,
}
use hip_moi.Shadow.Exact.Conflict.{
  Access, packed_access, recorded, decode-packed_access, Clash, conflict-Clash, cleared_no_conflict,
}
use hip_moi.Context.Storage.{Diagnostic, Storage, Context}
use hip_moi.Context.Subgroups.{subgroup_id, subgroup_epoch}
use hip_moi.Context.Diagnostics.Counting.{Emitted}
use hip_moi.Context.Acquires.{current_access_acquired_prior_epoch}
use hip_moi.Context.Exact.{
  words_of, reports, record_cells, access_word, last_byte_offset, record_exact_shadow_access,
}
use hip_moi.Context.Exact.Cells.{
  word, word-record_cells, record_cells_frame, table_kept, reported, count-record_cells,
}

-- The storage has an exact shadow table of `cells` cells.
pub record HasCells (s : Storage) (cells : ℕ) : Type 0 where
  pub words : List ℕ
  pub there : s.exact_shadow_entries ≡ some words
  pub sized : length words ≡ cells
  pub capacity : s.exact_shadow_entry_capacity ≡ pos cells
  pub positive : 0 < cells
  pub small : cells < 2 ^ 29

-- The bytes of an access, within the table.
pub record Within (cells lds_byte_offset byte_count : ℕ) : Type 0 where
  pub some_bytes : 0 < byte_count
  pub inside : lds_byte_offset + byte_count ≤ 4 * cells

-- How many cells an access covers.
abbrev pub covered : ℕ → ℕ → ℕ
covered lds_byte_offset byte_count =
    (lds_byte_offset + byte_count - 1) / 4 + 1 - lds_byte_offset / 4

abbrev pub access_of : Context → AccessKind → SiteId → Access
access_of c kind site = record {
  kind = kind;
  subgroup = subgroup_id c;
  epoch = subgroup_epoch c;
  generation = u32 c.storage.generation;
  site = site.value;
}

-- An access within the table runs the loop over the cells that it covers.
pub access-record_cells :
    (c : Context) (ptr byte_count : ℕ) (kind : AccessKind) (lds_byte_offset cells : ℕ)
    (site : SiteId)
    → HasCells c.storage cells
    → Within cells lds_byte_offset byte_count
    → (record_exact_shadow_access c ptr byte_count kind lds_byte_offset site).storage
      ≡ record_cells
          (packed_access (access_of c kind site))
          byte_count
          lds_byte_offset
          (covered lds_byte_offset byte_count)
          (lds_byte_offset / 4)
          c.storage
unfolding record_exact_shadow_access access_word
access-record_cells c ptr byte_count kind lds_byte_offset cells site h w =
    let last : last_byte_offset lds_byte_offset byte_count >>> granule_shift
        ≡ (lds_byte_offset + byte_count - 1) / 4 =
      omega (arith, w.some_bytes, w.inside, h.small) in
    let held : u32 ((lds_byte_offset + byte_count - 1) / 4)
        ≡ (lds_byte_offset + byte_count - 1) / 4 =
      omega (arith, w.some_bytes, w.inside, h.small) in
    let positive : is_pos (pos cells) ≡ true = ground (arith, h.positive) in
    let fitting : leb (u32_of_int (pos cells)) ((lds_byte_offset + byte_count - 1) / 4) ≡ false =
      ground (arith, w.some_bytes, w.inside, h.small) in
    rw (h.capacity, last, positive, fitting, held, h.there) refl

-- When an access reports the word of another one.
pub reports-packed :
    (s : Storage) (current prior : Access)
    → reports s
        (decode_exact_shadow_entry (packed_access current))
        (decode_exact_shadow_entry (packed_access prior))
      ≡ (exact_shadow_entries_conflict (recorded current) (recorded prior)
          && not (
              current_access_acquired_prior_epoch s
                (prior.subgroup % 2 ^ 10)
                (prior.epoch % 2 ^ 10)
                (current.subgroup % 2 ^ 10)))
unfolding reports
reports-packed s current prior = rw (decode-packed_access prior, decode-packed_access current) refl

-- How many diagnostics an access within the table emits.
pub access-count :
    (c : Context) (ptr byte_count : ℕ) (kind : AccessKind) (lds_byte_offset cells : ℕ)
    (site : SiteId) (buffer : List Diagnostic) (m : ℕ)
    → HasCells c.storage cells
    → Within cells lds_byte_offset byte_count
    → Emitted c.storage buffer m
    → m + cells < 2 ^ 31
    → (buffer' : List Diagnostic) × Emitted
        (record_exact_shadow_access c ptr byte_count kind lds_byte_offset site).storage
        buffer'
        (m
          + reported
              (packed_access (access_of c kind site))
              byte_count
              lds_byte_offset
              c.storage
              (covered lds_byte_offset byte_count)
              (lds_byte_offset / 4))
access-count c ptr byte_count kind lds_byte_offset cells site buffer m h w e small =
    let long : length (words_of c.storage.exact_shadow_entries) ≡ cells = rw h.there h.sized in
    let (buffer', done) =
      count-record_cells (packed_access (access_of c kind site)) byte_count lds_byte_offset
        (covered lds_byte_offset byte_count) (lds_byte_offset / 4) c.storage buffer m
        (rw long (omega (arith, w.inside, w.some_bytes))) (omega (arith, w.inside, w.some_bytes))
        e in
    (buffer', rw (access-record_cells c ptr byte_count kind lds_byte_offset cells site h w) done)

module _ (packed byte_count lds_byte_offset : ℕ) where
  -- A covered cell whose entry is one to report makes the count positive.
  pub reported-positive :
      (s : Storage) (left cell j : ℕ)
      → cell ≤ j
      → j < cell + left
      → reports s (decode_exact_shadow_entry packed) (decode_exact_shadow_entry (word s j)) ≡ true
      → 0 < reported packed byte_count lds_byte_offset s left cell
  unfolding reported
  reported-positive s zero cell j lo hi r = absurd (omega arith)
  reported-positive s (suc left) cell j lo hi r = elim (ℕ_discrete cell j) [
    | yes same ↦ rw (same, r) (omega arith)
    | no ne ↦
        let rest = reported-positive s left (cell + 1) j (omega arith) (omega arith) r in
        ground arith
  ]

  reported-zero :
      (s : Storage) (left cell : ℕ)
      → ((j : ℕ)
          → cell ≤ j
          → j < cell + left
          → reports s (decode_exact_shadow_entry packed) (decode_exact_shadow_entry (word s j))
            ≡ false)
      → reported packed byte_count lds_byte_offset s left cell ≡ 0
  unfolding reported
  reported-zero s zero cell r = refl
  reported-zero s (suc left) cell r =
      rw (r cell (omega arith) (omega arith))
        (reported-zero s left (cell + 1) (λ j lo hi. r j (omega arith) (omega arith)))

cleared_quiet :
    (s : Storage) (current : ExactShadowEntry)
    → reports s current (decode_exact_shadow_entry 0) ≡ false
unfolding reports
cleared_quiet s current = rw (cleared_no_conflict current) refl

-- The two accesses: the first one from `c1`, then the second one by the
-- thread of `c2` on the storage that it leaves.
module _ (c1 c2 : Context) (ptr1 count1 offset1 ptr2 count2 offset2 cells : ℕ)
    (kind1 kind2 : AccessKind) (site1 site2 : SiteId) (table : HasCells c1.storage cells)
    (within1 : Within cells offset1 count1) (within2 : Within cells offset2 count2) where
  abbrev pub after : Storage
  after = (record_exact_shadow_access c1 ptr1 count1 kind1 offset1 site1).storage

  abbrev pub second : Context
  second = record c2 { storage = after }

  abbrev pub finally : Storage
  finally = (record_exact_shadow_access second ptr2 count2 kind2 offset2 site2).storage

  abbrev first_word : ℕ
  first_word = packed_access (access_of c1 kind1 site1)

  abbrev second_word : ℕ
  second_word = packed_access (access_of second kind2 site2)

  -- Does the second thread hold a token for the first access?
  abbrev pub acquired : Bool
  acquired =
      current_access_acquired_prior_epoch after (subgroup_id c1 % 2 ^ 10)
        (subgroup_epoch c1 % 2 ^ 10) (subgroup_id second % 2 ^ 10)

  first_loop :
      after
      ≡ record_cells first_word count1 offset1 (covered offset1 count1) (offset1 / 4) c1.storage
  first_loop = access-record_cells c1 ptr1 count1 kind1 offset1 cells site1 table within1

  words_length : length (words_of c1.storage.exact_shadow_entries) ≡ cells
  words_length = rw table.there table.sized

  pub word-after :
      (j : ℕ)
      → word after j ≡ (
          if leb (offset1 / 4) j && ltb j (offset1 / 4 + covered offset1 count1)
          then first_word
          else word c1.storage j)
  word-after j = rw first_loop (
      word-record_cells first_word count1 offset1 (covered offset1 count1) (offset1 / 4) c1.storage
        j (rw words_length (omega (arith, within1.inside, within1.some_bytes))))

  pub after-HasCells : HasCells after cells
  after-HasCells =
      let (words', there, sized) =
        table_kept first_word count1 offset1 (covered offset1 count1) (offset1 / 4) c1.storage
          table.words table.there in
      record {
        words = words';
        there = rw first_loop there;
        sized = sized ∙ table.sized;
        capacity =
            ap (λ (s : Storage). s.exact_shadow_entry_capacity)
              (first_loop
                ∙ record_cells_frame first_word count1 offset1 (covered offset1 count1)
                    (offset1 / 4) c1.storage)
            ∙ table.capacity;
        positive = table.positive;
        small = table.small;
      }

  quiet_pair :
      (¬ Clash (access_of second kind2 site2) (access_of c1 kind1 site1)) ⊎ (acquired ≡ true)
      → reports after (decode_exact_shadow_entry second_word) (decode_exact_shadow_entry first_word)
        ≡ false
  quiet_pair fine =
      let conflict =
        exact_shadow_entries_conflict (recorded (access_of second kind2 site2))
          (recorded (access_of c1 kind1 site1)) in
      reports-packed after (access_of second kind2 site2) (access_of c1 kind1 site1) ∙ elim fine [
        | inr held ↦ rw held (ground arith)
        | inl apart ↦ elim (Bool-cases conflict) [
          | inr quiet ↦ rw quiet refl
          | inl loud ↦ absurd (
              apart
                ((conflict-Clash (access_of second kind2 site2) (access_of c1 kind1 site1)).0 loud))
        ]
      ]

  -- From a cleared exact table of fewer than 2 ^ 29 cells, two accesses within it, the second
  -- recorded right after the first on the storage that it leaves, emit no diagnostic when the bit
  -- fields show no clash (both load, or the epochs differ modulo 2 ^ 10, or the launches modulo 2 ^
  -- 20, or the subgroups agree modulo 2 ^ 10), or when by these fields the second thread holds a
  -- token that covers the first access; with the diagnostic buffer and its count there, a positive
  -- capacity, and the count and the cells of the table together below 2 ^ 31.
  pub ordered_accesses_quiet :
      (buffer : List Diagnostic) (n : ℕ)
      → Emitted c1.storage buffer n
      → n + cells < 2 ^ 31
      → ((j : ℕ) → word c1.storage j ≡ 0)
      → (¬ Clash (access_of second kind2 site2) (access_of c1 kind1 site1)) ⊎ (acquired ≡ true)
      → (buffer' : List Diagnostic) × Emitted finally buffer' n
  ordered_accesses_quiet buffer n e few empty fine =
      let (before, first_done) =
        access-count c1 ptr1 count1 kind1 offset1 cells site1 buffer n table within1 e few in
      let none_first : reported first_word count1 offset1 c1.storage (covered offset1 count1)
            (offset1 / 4)
          ≡ 0 =
        reported-zero first_word count1 offset1 c1.storage (covered offset1 count1) (offset1 / 4)
          (λ j lo hi.
            rw (empty j) (cleared_quiet c1.storage (decode_exact_shadow_entry first_word))) in
      let between : Emitted after before n =
        let plus : n
              + reported first_word count1 offset1 c1.storage (covered offset1 count1) (offset1 / 4)
            ≡ n =
          omega (arith, none_first) in
        subst (λ k. Emitted after before k) plus first_done in
      let (buffer', done) =
        access-count second ptr2 count2 kind2 offset2 cells site2 before n after-HasCells within2
          between few in
      let none_second : reported second_word count2 offset2 after (covered offset2 count2)
            (offset2 / 4)
          ≡ 0 =
        reported-zero second_word count2 offset2 after (covered offset2 count2) (offset2 / 4)
          (λ j lo hi.
            elim (Bool-cases
              (leb (offset1 / 4) j && ltb j (offset1 / 4 + covered offset1 count1))) [
                | inl first_cell ↦ rw (word-after j, first_cell) (quiet_pair fine)
                | inr other ↦
                    rw (word-after j, other, empty j)
                      (cleared_quiet after (decode_exact_shadow_entry second_word))
              ]) in
      let plus : n
            + reported second_word count2 offset2 after (covered offset2 count2) (offset2 / 4)
          ≡ n =
        omega (arith, none_second) in
      (buffer', subst (λ k. Emitted finally buffer' k) plus done)
