-- ===== src/Lib.antt =====
-- A model of hip-moi, the header-only checker for data races on the LDS (workgroup-local memory) of
-- HIP kernels, in include/hip_moi.
--
-- An instrumented kernel makes one `context` per thread over storage that a workgroup shares. Each
-- LDS load or store is recorded before it happens: the exact backend exchanges the shadow word of
-- every 4-byte cell that the access covers, the sampled backend publishes one watchpoint for a
-- range of cells now and then. A recorded word carries the subgroup, its epoch and the generation of
-- the launch; a prior word of the same epoch and launch, by another subgroup, is a conflict when one
-- of the two accesses is a store. Barriers advance the epochs. An instrumented atomic with release
-- order records the subgroup's epoch under the address; one with acquire order imports such records
-- as tokens, and a conflict with an access that a token covers is not reported.
--
-- Files and what they model:
--   Prelude: names of the libraries, tests, arrays as lists, `int`, machine words with the modulus
--     written out, and the lemmas on `&` and `|`.
--   Common (include/hip_moi/common.hpp): Kinds has the enumerations, Hash the site identifiers and
--     mixing functions, Ranges `byte_ranges_overlap`, Dispatch the switch from orders and scopes to
--     compiler builtins. The builtins are a parameter of the model.
--   Shadow (include/hip_moi/shadow.hpp): Kinds, and in Exact and Sampled the layout, the packing, the
--     decoding and the conflict test of the two kinds of words.
--   Context (include/hip_moi/context.hpp): Storage has the structs; Subgroups the numbers of
--     threads and the epochs; Diagnostics `emit_diagnostic` and the emitters; Barriers
--     `init_workgroup`, `barrier` and `simulate_syncthreads`; Objects the table of release records
--     (`find_or_claim_atomic_object_record`, `find_atomic_object_record`); Producers the cache of
--     producer masks; Releases and Acquires the two sides of the ordering metadata; Atomics the
--     public atomic operations and fences; Exact, Sampling and Sampled the two backends; Access the
--     `lds_load_at` and `lds_store_at` entry points; Policy their overloads on a compile-time policy;
--     Static `static_context_storage`; Kernel the steps of the threads of a launch as a relation.
--   SampledContext (include/hip_moi/sampled_watchpoint_context.hpp): the context that only publishes
--     watchpoints; the names of its functions that `context` has too begin with `own_` here.
--   Host (include/hip_moi/host_context.hpp): the slices that `assign_layout_slices` cuts the host's
--     buffer into, against `layout_byte_count`; `ceil_power_of_two` and `next_generation`; in Layout
--     the options and the capacities that `compute_layout_or_abort` chooses; in Reports the lines
--     that are printed; in Device `host_context` itself, from its constructor to its destructor, with
--     `launch_ref` and the launches of one host context in Device/Launch. The HIP runtime is a
--     parameter, a record of its calls with any results.
--   Tests: a workgroup of two threads, a small host context, and examples at concrete inputs.
--
-- State is passed on: an operation of a context takes the context, whose field `storage` is the
-- shared state, and returns the next one. A pointer is the array behind it, or `none`. An operation
-- runs as one step; what other threads do between two operations is another step on the same storage.
-- A slot of the release table that another thread is filling is one whose generation is
-- `claimed_generation`. A `__syncthreads` is the boundary between two functions of a thread.
--
-- Bounds and fuel: `int` counters wrap at 2 ^ 31, so the theorems on diagnostics ask for fewer
-- emissions than that. The loops over cells, probes and producers recurse on the number of rounds
-- that the code computes. The loop over chunks recurses on fuel, and gets one unit for each cell
-- of the access, which is enough since each chunk has at least one cell. `ceil_power_of_two` gets 64
-- rounds, which is enough up to 2 ^ 63. The loops with a fixed number of attempts (four) recurse on
-- that number. The loop that shrinks the capacities gets one round for each element of the two
-- tables, and is proved to end by its own test.
--
-- Not modelled: the text of the messages before an abort in the construction of a host context
-- (the model returns `none` there), the delay loops, which change no state, memory fences of the
-- device, interleavings inside one operation, and what the HIP runtime and the compiler builtins do.
mod Prelude
pub mod Common
pub mod Shadow
pub mod Context
pub mod SampledContext
pub mod Host
mod Tests
