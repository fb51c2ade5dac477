-- ===== src/Context/Acquires/Tokens.antt =====
-- What an acquire leaves in the table of tokens.
use native.Mathlib.Nat.{mul-le-mul_right, suc-mul}
use hip_moi.Prelude.{
  ℕ, ◌+◌, ◌*◌, ◌^◌, ◌<◌, max, ◌≡◌, refl, sym, ap, subst, ◌∙◌, ◌≢◌, ◌⊎◌, inl, inr, Option, none,
  some, List, u32, arith, length, get_or, length-set, get_or-set_self, get_or-set_ne, Option-cases,
}
use mathlib.Core.Option
use hip_moi.Context.Storage.{no_record, Storage}
use hip_moi.Context.Objects.{objects_of, find_atomic_object_record}
use hip_moi.Context.Releases.Lookup.{released_epoch}
use hip_moi.Context.Acquires.{
  tokens_of, token_index, raise_token, try_import_atomic_release_from_producer,
}

-- The token that `consumer` holds for `producer`.
abbrev pub token : Storage → ℕ → ℕ → ℕ → ℕ
token s capacity consumer producer =
    get_or (tokens_of s.acquired_subgroup_epoch_tokens) (token_index capacity consumer producer) 0

-- The square table of tokens is there.
pub record HasTokens (s : Storage) (capacity : ℕ) : Type 0 where
  pub tokens : List ℕ
  pub there : s.acquired_subgroup_epoch_tokens ≡ some tokens
  pub sized : length tokens ≡ capacity * capacity
  pub small : capacity * capacity < 2 ^ 32

token_small :
    (capacity consumer producer : ℕ)
    → capacity * capacity < 2 ^ 32
    → consumer < capacity
    → producer < capacity
    → (consumer * capacity + producer < capacity * capacity)
token_small capacity consumer producer small c p =
    omega (arith, mul-le-mul_right capacity c, suc-mul consumer capacity)

pub token_index-lt :
    (capacity consumer producer : ℕ)
    → capacity * capacity < 2 ^ 32
    → consumer < capacity
    → producer < capacity
    → token_index capacity consumer producer < capacity * capacity
unfolding token_index
token_index-lt capacity consumer producer small c p =
    omega (arith, token_small capacity consumer producer small c p)

pub token_index-injective :
    (capacity consumer p q : ℕ)
    → capacity * capacity < 2 ^ 32
    → consumer < capacity
    → p < capacity
    → q < capacity
    → token_index capacity consumer p ≡ token_index capacity consumer q
    → p ≡ q
unfolding token_index
token_index-injective capacity consumer p q small c hp hq e =
    let first = token_small capacity consumer p small c hp in
    let second = token_small capacity consumer q small c hq in omega arith

-- What one import makes of the token for the producer of the record.
abbrev pub imported_token : ℕ → Option ℕ → ℕ
imported_token held none = held
imported_token held (some epoch) = max held (u32 (epoch + 1))

-- An import that finds no record, or one, at its index.
import_cases :
    (s : Storage) (address consumer capacity producer : ℕ)
    → let r = try_import_atomic_release_from_producer s address consumer capacity producer in
      ((r.1 ≡ s) × (released_epoch s address producer ≡ none))
      ⊎ ((epoch : ℕ) × (released_epoch s address producer ≡ some epoch)
          × (r.1 ≡ record s {
            acquired_subgroup_epoch_tokens =
                Option.map
                  (raise_token (token_index capacity consumer producer) (u32 (epoch + 1)))
                  s.acquired_subgroup_epoch_tokens;
          }))
unfolding try_import_atomic_release_from_producer released_epoch
import_cases s address consumer capacity producer =
    elim (Option-cases (find_atomic_object_record s address producer)) [
      | inl absent ↦ inl (
        rw (try_import_atomic_release_from_producer, absent) refl,
        rw (released_epoch, absent) refl,
      )
      | inr (i, e) ↦ inr (
        (get_or (objects_of s.atomic_objects) i no_record).releasing_epoch,
        rw (released_epoch, e) refl,
        rw (try_import_atomic_release_from_producer, e) refl,
      )
    ]

-- After one import the token for its producer is the imported one, and the others are as before.
pub record Import (s s' : Storage) (address consumer capacity producer : ℕ) : Type 0 where
  pub same : s' ≡ record s { acquired_subgroup_epoch_tokens = s'.acquired_subgroup_epoch_tokens }
  pub table : HasTokens s' capacity
  pub raised :
      token s' capacity consumer producer
      ≡ imported_token (token s capacity consumer producer) (released_epoch s address producer)
  pub others :
      (q : ℕ)
      → q < capacity
      → q ≢ producer
      → token s' capacity consumer q ≡ token s capacity consumer q

pub import_lem :
    (s : Storage) (address consumer capacity producer : ℕ)
    → HasTokens s capacity
    → consumer < capacity
    → producer < capacity
    → Import s
        (try_import_atomic_release_from_producer s address consumer capacity producer).1
        address
        consumer
        capacity
        producer
unfolding raise_token token_index released_epoch find_atomic_object_record
import_lem s address consumer capacity producer h c p =
    elim (import_cases s address consumer capacity producer) [
      | inl (kept, absent) ↦
          subst (λ s'. Import s s' address consumer capacity producer) (sym kept)
            (record { same = refl; table = h; raised = rw absent refl; others = λ q hq ne. refl })
      | inr (epoch, there, made) ↦
          let index = token_index capacity consumer producer in
          let tokens' = raise_token index (u32 (epoch + 1)) h.tokens in
          let inside : index < length h.tokens =
            rw h.sized (token_index-lt capacity consumer producer h.small c p) in
          subst (λ s'. Import s s' address consumer capacity producer) (sym made)
            (record {
              same = refl;
              table = record {
                tokens = tokens';
                there = ap (λ o. Option.map (raise_token index (u32 (epoch + 1))) o) h.there;
                sized = length-set h.tokens index _ ∙ h.sized;
                small = h.small;
              };
              raised = rw (h.there, there) (get_or-set_self h.tokens index _ 0 inside);
              others = λ q hq ne. rw h.there (
                  get_or-set_ne h.tokens index (token_index capacity consumer q) _ 0 (λ e.
                    ne
                      (sym (token_index-injective capacity consumer producer q h.small c p hq e))));
            })
    ]
