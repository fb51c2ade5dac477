-- ===== src/Context/Acquires/Loops.antt =====
-- The two loops of an acquire, the one over the cached producers and the one over all others: after
-- both, the consumer holds for every producer the token that its release record gives.
use native.Mathlib.Nat.{pow-suc, pow-le-pow_right}
use native.Mathlib.Decide.{ℕ_discrete}
use hip_moi.Prelude.{
  ℕ, zero, suc, ◌+◌, ◌^◌, ◌<◌, ◌≤◌, ◌≡◌, refl, sym, ap, subst, ◌∙◌, ◌≢◌, ◌⊎◌, inl, inr, Bool, true,
  false, ◌&&◌, ◌||◌, not, ◌==◌, ltb, leb, Option, none, some, shl64, ◌>>>◌, arith, if◌then◌else◌,
  Bool-cases, bit_and, bit_or, bit_and_ones, digit_of_or,
}
use hip_moi.Context.Storage.{Storage}
use hip_moi.Context.Releases.Lookup.{released_epoch}
use hip_moi.Context.Objects.{find_atomic_object_record}
use hip_moi.Context.Acquires.{
  try_import_atomic_release_from_producer, Imports, import_one, import_cached, import_listed,
}
use hip_moi.Context.Acquires.Tokens.{token, HasTokens, imported_token, import_lem}

-- `s0` is the storage before the acquire.
module _ (s0 : Storage) (address consumer capacity : ℕ) (inside : consumer < capacity) where
  abbrev held : ℕ → ℕ
  held p = token s0 capacity consumer p

  abbrev pub wanted : ℕ → ℕ
  wanted p = imported_token (held p) (released_epoch s0 address p)

  -- The consumer's token for `p` is the one to hold after the acquire.
  abbrev pub IsDone : Storage → ℕ → Type 0
  IsDone s p = token s capacity consumer p ≡ wanted p

  -- What holds between any two imports.
  pub record Going (s : Storage) : Type 0 where
    pub same : s ≡ record s0 { acquired_subgroup_epoch_tokens = s.acquired_subgroup_epoch_tokens }
    pub table : HasTokens s capacity
    pub between : (p : ℕ) → p < capacity → (token s capacity consumer p ≡ held p) ⊎ IsDone s p

  epochs_same :
      (s : Storage) (p : ℕ) → Going s → released_epoch s address p ≡ released_epoch s0 address p
  unfolding released_epoch find_atomic_object_record
  epochs_same s p g = ap (λ (t : Storage). released_epoch t address p) g.same

  imported_again :
      (t n : ℕ) (o : Option ℕ)
      → (t ≡ n) ⊎ (t ≡ imported_token n o)
      → imported_token t o ≡ imported_token n o
  imported_again t n none h = ground arith
  imported_again t n (some e) h = ground arith

  -- One import keeps what holds, and does the token of its producer.
  record Step (s s' : Storage) (producer : ℕ) : Type 0 where
    going : Going s'
    done : IsDone s' producer
    kept : (p : ℕ) → p < capacity → IsDone s p → IsDone s' p

  import-Step :
      (s : Storage) (producer : ℕ)
      → Going s
      → producer < capacity
      → Step s
          (try_import_atomic_release_from_producer s address consumer capacity producer).1
          producer
  import-Step s producer g hp =
      let s' = (try_import_atomic_release_from_producer s address consumer capacity producer).1 in
      let i = import_lem s address consumer capacity producer g.table inside hp in
      let done : IsDone s' producer =
        i.raised ∙ rw (epochs_same s producer g) (imported_again _ _ _ (g.between producer hp)) in
      record {
        going = record {
          same =
              i.same
              ∙ ap
                  (λ (t : Storage). record t {
                    acquired_subgroup_epoch_tokens = s'.acquired_subgroup_epoch_tokens;
                  })
                  g.same;
          table = i.table;
          between = λ p h. elim (ℕ_discrete p producer) [
            | yes e ↦ inr (subst (λ q. IsDone s' q) (sym e) done)
            | no ne ↦ rw (i.others p h ne) (g.between p h)
          ];
        };
        done = done;
        kept = λ p h d. elim (ℕ_discrete p producer) [
          | yes e ↦ subst (λ q. IsDone s' q) (sym e) done
          | no ne ↦ i.others p h ne ∙ d
        ];
      }

  -- The producers that the mask names.
  abbrev pub noted : ℕ → ℕ → Bool
  noted mask p = ltb p 64 && not (bit_and (mask >>> p) 1 == 0)

  -- What a round of a loop does to the storage.
  record Round (s s' : Storage) (first : ℕ) : Type 0 where
    going : Going s'
    kept : (p : ℕ) → p < capacity → IsDone s p → IsDone s' p

  abbrev listed_round : ℕ → ℕ → Imports → Imports
  listed_round mask first m =
      if (first == consumer) || noted mask first
      then m
      else import_one address consumer capacity false first m

  listed_round_lem :
      (mask first : ℕ) (m : Imports)
      → first < capacity
      → Going m.storage
      → (noted mask first ≡ true → IsDone m.storage first)
      → Round m.storage (listed_round mask first m).storage first
        × (first ≢ consumer → IsDone (listed_round mask first m).storage first)
  unfolding import_one
  listed_round_lem mask first m h g marked =
      let step = import-Step m.storage first g h in
      elim (Bool-cases (first == consumer)) [
        | inl own ↦
            rw own (record { going = g; kept = λ p hp d. d }, λ ne. absurd (ne (ground arith)))
        | inr other ↦ elim (Bool-cases (noted mask first)) [
          | inl known ↦
              rw (other, known) (record { going = g; kept = λ p hp d. d }, λ ne. marked known)
          | inr new ↦
              rw (other, new) (record { going = step.going; kept = step.kept }, λ ne. step.done)
        ]
      ]

  pub listed_lem :
      (mask left first : ℕ) (m : Imports)
      → first + left ≡ capacity
      → Going m.storage
      → ((p : ℕ) → p < capacity → noted mask p ≡ true → IsDone m.storage p)
      → let m' = import_listed address consumer capacity mask left first m in
        Going m'.storage
        × ((p : ℕ) → p < capacity → IsDone m.storage p → IsDone m'.storage p)
        × ((p : ℕ) → p < capacity → p ≢ consumer → first ≤ p → IsDone m'.storage p)
  unfolding import_listed
  listed_lem mask zero first m e g marks = (g, λ p h d. d, λ p h ne lo. absurd (omega arith))
  listed_lem mask (suc left) first m e g marks =
      let m1 = listed_round mask first m in
      let (round, done) =
        listed_round_lem mask first m (omega arith) g (marks first (omega arith)) in
      let (going, kept, finished) =
        listed_lem mask left (first + 1) m1 (omega arith) round.going
          (λ p h known. round.kept p h (marks p h known)) in
      (
        going,
        λ p h d. kept p h (round.kept p h d),
        λ p h ne lo. elim (ℕ_discrete first p) [
          | yes same ↦
              kept p h (subst (λ q. IsDone m1.storage q) same (done (λ c. ne (sym same ∙ c))))
          | no later ↦ finished p h ne (omega arith)
        ],
      )

  -- The mask of imported producers names only producers whose token is done.
  abbrev pub Marked : Imports → Type 0
  Marked m = (p : ℕ) → p < capacity → noted m.producers p ≡ true → IsDone m.storage p

  abbrev cached_round : ℕ → ℕ → Imports → Imports
  cached_round producer_mask first m =
      if (first == consumer) || leb 64 first || (bit_and producer_mask (shl64 1 first) == 0)
      then m
      else import_one address consumer capacity true first m

  noted_or : (mask p k : ℕ) → k < 64 → p ≢ k → noted (bit_or mask (shl64 1 k)) p ≡ noted mask p
  noted_or mask p k small ne =
      let bit : shl64 1 k ≡ 2 ^ k =
        omega
          (arith, pow-suc 2 k, pow-le-pow_right {n = 2} (omega arith) {i = suc k} {j = 64} small) in
      let digit = digit_of_or p k mask ne in
      rw (bit, bit_and_ones 1 (bit_or mask (2 ^ k) >>> p), bit_and_ones 1 (mask >>> p))
        (rw digit refl)

  noted_if :
      (there : Bool) (mask p k : ℕ)
      → k < 64
      → p ≢ k
      → noted (if there && true then bit_or mask (shl64 1 k) else mask) p ≡ noted mask p
  noted_if true mask p k small ne = noted_or mask p k small ne
  noted_if false mask p k small ne = refl

  cached_round_lem :
      (producer_mask first : ℕ) (m : Imports)
      → first < capacity
      → Going m.storage
      → Marked m
      → Round m.storage (cached_round producer_mask first m).storage first
        × Marked (cached_round producer_mask first m)
  unfolding import_one
  cached_round_lem producer_mask first m h g marked =
      let step = import-Step m.storage first g h in
      let there =
        (try_import_atomic_release_from_producer m.storage address consumer capacity first).0 in
      elim (Bool-cases
        ((first == consumer) || leb 64 first || (bit_and producer_mask (shl64 1 first) == 0))) [
          | inl skipped ↦ rw skipped (record { going = g; kept = λ p hp d. d }, marked)
          | inr taken ↦
              let small : first < 64 = ground arith in
              rw taken (
                record { going = step.going; kept = step.kept },
                λ p hp known. elim (ℕ_discrete p first) [
                  | yes same ↦
                      subst
                        (λ q.
                          IsDone
                            (try_import_atomic_release_from_producer m.storage address consumer
                              capacity first).1
                            q)
                        (sym same) step.done
                  | no ne ↦
                      step.kept p hp
                        (marked p hp (sym (noted_if there m.producers p first small ne) ∙ known))
                ],
              )
        ]

  pub cached_lem :
      (producer_mask left first : ℕ) (m : Imports)
      → first + left ≡ capacity
      → Going m.storage
      → Marked m
      → let m' = import_cached address consumer capacity producer_mask left first m in
        Going m'.storage × Marked m'
  unfolding import_cached
  cached_lem producer_mask zero first m e g marks = (g, marks)
  cached_lem producer_mask (suc left) first m e g marks =
      let (round, marks') = cached_round_lem producer_mask first m (omega arith) g marks in
      cached_lem producer_mask left (first + 1) (cached_round producer_mask first m) (omega arith)
        round.going marks'
