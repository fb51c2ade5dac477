-- ===== src/Context/Barriers/Epochs.antt =====
-- What a barrier does to the epochs of the subgroups, and what `init_workgroup` clears.
use hip_moi.Prelude.{
  ℕ, zero, suc, ◌+◌, ◌^◌, ◌<◌, ◌≤◌, min, ◌≡◌, refl, ap, ◌∙◌, ◌≢◌, true, ltb, some, List, [], ◌∷◌,
  pos, is_pos, u32, arith, length, get_or, get_or-head, get_or-tail, if◌then◌else◌,
}
use hip_moi.Common.Kinds.{SiteId, SubgroupState}
use hip_moi.Context.Storage.{Storage, Context}
use hip_moi.Context.Subgroups.{
  configured_subgroup_count, stored_subgroup_count, current_epoch, epoch_at, thread_id,
}
use hip_moi.Context.Barriers.{advance, close_current_epoch, barrier}

abbrev zero_epoch : SubgroupState
zero_epoch = record { epoch = 0 }

get_or-advance :
    (n i : ℕ) (xs : List SubgroupState)
    → n ≤ length xs
    → (get_or (advance n xs) i zero_epoch).epoch ≡ (
        if ltb i n
        then u32 ((get_or xs i zero_epoch).epoch + 1)
        else (get_or xs i zero_epoch).epoch)
unfolding advance
get_or-advance zero i xs h = ground arith
get_or-advance (suc n) i [] h = absurd (omega arith)
get_or-advance (suc n) zero (x ∷ xs) h =
    rw
      (
        get_or-head (record { epoch = u32 (x.epoch + 1) }) (advance n xs) zero_epoch,
        get_or-head x xs zero_epoch,
      )
      (ground arith)
get_or-advance (suc n) (suc i) (x ∷ xs) h =
    rw
      (
        get_or-tail (record { epoch = u32 (x.epoch + 1) }) (advance n xs) i zero_epoch,
        get_or-tail x xs i zero_epoch,
        get_or-advance n i xs (omega arith),
      )
      (ground arith)

-- The state of each subgroup is stored.
pub record HasStates (s : Storage) (capacity : ℕ) : Type 0 where
  pub states : List SubgroupState
  pub there : s.subgroup_states ≡ some states
  pub long : length states ≡ capacity
  pub sized : s.subgroup_capacity ≡ pos capacity
  pub positive : 0 < capacity
  pub small : capacity < 2 ^ 31

pub states_after :
    (c : Context) (site : SiteId) (capacity : ℕ) (h : HasStates c.storage capacity)
    → thread_id c.thread ≡ 0
    → barrier c site ≡ record c {
      storage = record (c.storage) {
        subgroup_states = some (advance (min (configured_subgroup_count c.cfg) capacity) h.states);
      };
    }
unfolding barrier close_current_epoch stored_subgroup_count
states_after c site capacity h first =
    let positive : is_pos (pos capacity) ≡ true = ground (arith, h.positive) in
    let held : u32 capacity ≡ capacity = omega (arith, h.small) in
    simp (h.there, h.sized, first, positive, held) refl

epoch_is :
    (s : Storage) (capacity i : ℕ) (states : List SubgroupState)
    → s.subgroup_states ≡ some states
    → s.subgroup_capacity ≡ pos capacity
    → i < capacity
    → capacity < 2 ^ 31
    → current_epoch s i ≡ (get_or states i zero_epoch).epoch
unfolding current_epoch epoch_at
epoch_is s capacity i states there sized inside small =
    let held : u32 capacity ≡ capacity = omega arith in
    let within : ltb i capacity ≡ true = ground arith in simp (there, sized, held, within) refl

-- With a state stored for each subgroup up to the capacity, thread 0 advances the epoch of each
-- configured subgroup that is stored by one, modulo 2 ^ 32, at a barrier, and leaves the epoch of
-- any other.
pub barrier-current_epoch :
    (c : Context) (site : SiteId) (capacity i : ℕ)
    → HasStates c.storage capacity
    → thread_id c.thread ≡ 0
    → i < capacity
    → current_epoch (barrier c site).storage i ≡ (
        if ltb i (configured_subgroup_count c.cfg)
        then u32 (current_epoch c.storage i + 1)
        else current_epoch c.storage i)
barrier-current_epoch c site capacity i h first inside =
    let n = min (configured_subgroup_count c.cfg) capacity in
    let frame = states_after c site capacity h first in
    let after : current_epoch (barrier c site).storage i
        ≡ (get_or (advance n h.states) i zero_epoch).epoch =
      epoch_is (barrier c site).storage capacity i (advance n h.states)
        (ap (λ (x : Context). x.storage.subgroup_states) frame)
        (ap (λ (x : Context). x.storage.subgroup_capacity) frame ∙ h.sized) inside h.small in
    let before : current_epoch c.storage i ≡ (get_or h.states i zero_epoch).epoch =
      epoch_is c.storage capacity i h.states h.there h.sized inside h.small in
    let step = get_or-advance n i h.states (omega (arith, h.long)) in ground arith

-- At a barrier, a thread other than thread 0 changes nothing.
pub barrier-other_threads :
    (c : Context) (site : SiteId) → thread_id c.thread ≢ 0 → barrier c site ≡ c
unfolding barrier close_current_epoch
barrier-other_threads c site other = ground arith
