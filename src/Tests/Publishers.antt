-- ===== src/Tests/Publishers.antt =====
-- Examples for policies and for the context that only publishes.
use hip_moi.Prelude.{◌≡◌, refl, true, false, pos, arith, get_or}
use hip_moi.Common.Kinds.{AccessKind, SampledWatchpointPolicy, sampled_watchpoint}
use hip_moi.Context.Storage.{Storage}
use hip_moi.Context.Subgroups.{
  subgroup_id, thread_id, configured_subgroup_count, current_epoch, epoch_at,
}
use hip_moi.Context.Access.{record_access_at}
use hip_moi.Context.Policy.{policy_record_access_at}
use hip_moi.Context.Policy.Options.{Follows, policy_record_access_at-record_access_at}
use hip_moi.SampledContext.{
  SampledWatchpointContext, record_static_access, record_runtime_access, own_subgroup_id,
  own_thread_id,
}
use hip_moi.SampledContext.Fast.{record_static_access-record_runtime_access}
use hip_moi.SampledContext.Publishing.{Mirrors, PublishOnly, record_runtime_access-Mirrors}
use hip_moi.Tests.State.{launched, thread_at, context_at, site_at}

abbrev quiet_policy : SampledWatchpointPolicy
quiet_policy = record {
  sample_skip = 0;
  probe_count = 1;
  delay_iters = 0;
  report_conflicts = false;
  static_watchpoint_capacity = 0;
}

abbrev loud_policy : SampledWatchpointPolicy
loud_policy = record quiet_policy { report_conflicts = true }

abbrev sampling : Storage
sampling = record launched { backend = 1 }

loud_storage : Follows loud_policy sampling
loud_storage = record { skip = refl; probes = refl; reports = refl }

policy_record_access_at-record_access_at_example :
    policy_record_access_at sampled_watchpoint loud_policy
      (context_at 1 sampling)
      1000
      8
      AccessKind.store
      4
      (site_at 9)
    ≡ record_access_at (context_at 1 sampling) 1000 8 AccessKind.store 4 (site_at 9)
policy_record_access_at-record_access_at_example =
    policy_record_access_at-record_access_at loud_policy (context_at 1 sampling) 1000 8
      AccessKind.store 4 (site_at 9) loud_storage refl

-- The second thread, at the epoch of its subgroup.
abbrev publisher : SampledWatchpointContext
publisher = record {
  storage = record {
    sampled_watchpoints = launched.sampled_watchpoints;
    sampled_watchpoint_capacity = pos 4;
    generation = 1;
  };
  threads_per_subgroup = pos 1;
  epoch = 5;
  thread = thread_at 1;
}

record_static_access-record_runtime_access_example :
    record_static_access quiet_policy 4 AccessKind.store 6 (site_at 9) publisher
    ≡ record_runtime_access quiet_policy 4 AccessKind.store 6 (site_at 9) publisher
record_static_access-record_runtime_access_example =
    record_static_access-record_runtime_access 4 6 (omega arith) (omega arith) (omega arith)
      quiet_policy AccessKind.store (site_at 9) publisher

publishing : PublishOnly quiet_policy
publishing = record { quiet = refl; dynamic = refl }

one_thread : Mirrors publisher (context_at 1 launched)
unfolding own_subgroup_id own_thread_id subgroup_id thread_id configured_subgroup_count
    current_epoch epoch_at get_or
one_thread = record {
  words = refl;
  capacity = refl;
  generation = refl;
  threads = refl;
  thread = refl;
  subgroup = refl;
  epoch = refl;
}

record_runtime_access-Mirrors_example :
    Mirrors (record_runtime_access quiet_policy 8 AccessKind.store 4 (site_at 9) publisher) (
      policy_record_access_at sampled_watchpoint quiet_policy
        (context_at 1 launched)
        1000
        8
        AccessKind.store
        4
        (site_at 9))
record_runtime_access-Mirrors_example =
    record_runtime_access-Mirrors quiet_policy publisher (context_at 1 launched) 1000 8
      AccessKind.store 4 (site_at 9) publishing one_thread
