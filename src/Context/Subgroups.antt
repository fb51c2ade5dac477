-- ===== src/Context/Subgroups.antt =====
-- Subgroups and their epochs: the subgroup counts and `current_epoch` of
-- include/hip_moi/common.hpp, the thread, subgroup and lane numbers of
-- include/hip_moi/context.hpp.
use hip_moi.Prelude.{
  ℕ, ◌+◌, ◌*◌, ◌/◌, ◌%◌, min, Bool, true, false, ◌&&◌, ltb, if◌then◌else◌, Option, none, some, List,
  is_pos, u32_of_int, get_or, u32, sub32,
}
use hip_moi.Common.Kinds.{SubgroupState}
use hip_moi.Context.Storage.{Config, Storage, Thread, Context}

unfoldable pub configured_subgroup_count : Config → ℕ
configured_subgroup_count cfg =
    if is_pos cfg.subgroup_count then u32_of_int cfg.subgroup_count else 1

abbrev pub is_some {ℓ} : {A : Type ℓ} → Option A → Bool
is_some none = false
is_some (some a) = true

unfoldable pub stored_subgroup_count : Storage → Config → ℕ
unfolding configured_subgroup_count
stored_subgroup_count s cfg =
    if is_some s.subgroup_states && is_pos s.subgroup_capacity
    then min (configured_subgroup_count cfg) (u32_of_int s.subgroup_capacity)
    else 0

unfoldable pub epoch_at : Option (List SubgroupState) → ℕ → ℕ
epoch_at none i = 0
epoch_at (some states) i = (get_or states i (record { epoch = 0 })).epoch

unfoldable pub current_epoch : Storage → ℕ → ℕ
unfolding epoch_at
current_epoch s subgroup =
    if is_some s.subgroup_states && ltb subgroup (u32_of_int s.subgroup_capacity)
    then epoch_at s.subgroup_states subgroup
    else 0

unfoldable pub thread_id : Thread → ℕ
thread_id t = u32 (t.thread_x + t.dim_x * (t.thread_y + t.dim_y * t.thread_z))

unfoldable pub subgroup_id : Context → ℕ
unfolding thread_id configured_subgroup_count
subgroup_id c =
    let subgroup = thread_id c.thread / u32_of_int c.cfg.threads_per_subgroup in
    let subgroup_count = configured_subgroup_count c.cfg in
    if is_pos c.cfg.threads_per_subgroup
    then if ltb subgroup subgroup_count then subgroup else sub32 subgroup_count 1
    else 0

unfoldable pub lane_in_subgroup : Context → ℕ
unfolding thread_id
lane_in_subgroup c =
    if is_pos c.cfg.threads_per_subgroup
    then thread_id c.thread % u32_of_int c.cfg.threads_per_subgroup
    else thread_id c.thread

abbrev pub subgroup_epoch : Context → ℕ
subgroup_epoch c = current_epoch c.storage (subgroup_id c)
