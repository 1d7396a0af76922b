-- ===== src/Lib.antt =====
-- The serving platform's decision logic, as executable functions and theorems on them.
--
-- A request enters at the gateway, which checks its limits (Limits) and asks admission control for a
-- reservation (Admission), in memory or, for several processes, in a Redis hash (RedisAdmission).
-- Admitted requests wait in the weighted fair queue (FairQueue); a routing policy chooses a worker for
-- each (Routing), from the snapshots of the registry (Registry), with the placements that no heartbeat
-- shows yet reserved (Reservations), and the scheduler assigns the request to it (Scheduler). The request
-- record goes through one table of states (Domain). The requests of a lost worker are retried or ended
-- (Recovery), by the supervisor that owns a lease (Coordination). A worker queues the requests that are
-- assigned to it, loads and evicts models and runs batches (Worker) on a runtime, of which the simulated
-- one accounts for device memory (SimulatedGpu); a wrapper can make a runtime fail on chosen calls
-- (FaultInjection). A server batches the requests of its own queue
-- (Batching). The token engine of a worker (TokenEngine) reserves blocks of the key/value cache for each
-- sequence (KvCache), keeps the states of prefixes that were computed (PrefixCache), and its policy
-- decides between prefill and decode in each iteration (TokenPolicy). A model spread over devices is cut
-- into tensor shards (Shard).
--
-- Files, each with child modules for its proofs and a Tests module with runs at small inputs:
-- - KvCache: inference/kv_cache.py, a function for each method, with the block loops apart.
-- - Domain: serving_platform/domain/models.py, the records, their checks and the transition table.
-- - Admission: serving_platform/admission/controller.py.
-- - RedisAdmission: serving_platform/admission/redis_controller.py, a function for each script and method;
--   RedisAdmission.Commands: the commands of the hash, with the laws that Redis documents for them.
-- - FairQueue: serving_platform/scheduling/fair_queue.py.
-- - Registry: serving_platform/registry/in_memory.py.
-- - Routing: serving_platform/routing/policies.py, the two filters and three policies.
-- - Reservations: serving_platform/routing/reservations.py.
-- - Scheduler: apps/control_plane/scheduler.py.
-- - Recovery: recover_failed_worker of apps/control_plane/service.py, over the store of
--   serving_platform/request_state/in_memory.py.
-- - Worker: apps/worker/service.py, the queue and the life cycle; Worker.Batch: execute_batch;
--   Worker.Models: loading, unloading and eviction.
-- - SimulatedGpu: runtime/simulated_gpu/runtime.py.
-- - FaultInjection: runtime/fault_injection.py.
-- - Coordination: serving_platform/coordination/lease.py and the loop of apps/control_plane/reliability.py.
-- - PrefixCache: inference/prefix_cache.py; PrefixCache.Radix: its tree of nodes.
-- - Limits: apps/gateway/limits.py.
-- - Batching: scheduler/request.py and scheduler/queue.py; Batching.Process: scheduler/no_batching.py and
--   process_batch; Batching.Collect: collect_batch of scheduler/dynamic_batch.py.
-- - TokenPolicy: inference/token_scheduling.py. TokenEngine: inference/token_types.py and the life cycle of
--   a sequence in inference/token_engine.py. Shard: runtime/distributed/config.py.
-- - Common: lists, dictionaries, sorting and tests on the native numbers. Fixtures: data for the tests.
--
-- How the code is read:
-- - Identifiers and other strings are numbers in their lexicographic order, and the empty string is 0. A
--   prompt is the list of its words, or a number where only its identity counts.
-- - A time is a number of clock ticks, and each reading of the clock is an argument. A method that holds a
--   lock is one step; histories of steps are lists of calls.
-- - A dictionary is an association list in the order of insertion. An exception is `raise`, and a method
--   that can raise returns the state it leaves as well.
-- - A number that the code checks not to be negative is a natural number, so its check for negative values
--   is left out, except the token counts of KvCache, which are integers. A subtraction is written out where
--   the code goes below 0.
-- - Watermarks, temperatures and shares are in thousandths. The score of the fair queue is compared without
--   its division. Texts of messages, scores that only explain a decision, and metrics are left out.
-- - Loops are structural recursion. `pop` of the fair queue recurses on the number of visits, which the code
--   counts down as well, and the first loop of `collect_batch` on the number of deferred requests to scan,
--   which is the code's own counter; so there is no fuel that could run out.
-- - The requests of a worker are objects that the program shares: its queue holds references, and the state
--   holds what they refer to. `execute_batch` and `load_model` are a locked part, the runtime's work, and a
--   locked part after it, as two functions, between which others may change the objects.
-- - A Redis script is one step. The hash of the admission counters and the key of the lease are parameters
--   with their commands, and the documented laws of these commands are hypotheses, for a
--   positive time to live and for numbers below 10^14, which HINCRBY, Lua's doubles and its JSON encoder keep
--   exactly; the tests have a hash that
--   is a function of the field, and a key that is an optional token. A key may expire at any time.
-- - What other code does is an argument: the outcome of a model call and the requests that leave meanwhile,
--   the deliveries of a queue, the answer of a routing policy to `select_and_reserve`, the tokens of a
--   backend.
--
-- Not modelled: the HTTP service, authentication, configuration and metrics of the gateway, the worker
-- processes and their transport, the Redis request store, the Hugging Face and CUDA runtimes, benchmarks and
-- deployment, which are input and output or calls of other libraries; and the policies whose scores are
-- fractions, the batches of the token engine, the paged cache and the rest of the control plane.
pub mod Common
pub mod KvCache
pub mod Domain
pub mod Admission
pub mod FairQueue
mod Fixtures
pub mod Shard
pub mod TokenPolicy
pub mod Registry
pub mod Limits
pub mod Batching
pub mod TokenEngine
pub mod Recovery
pub mod Reservations
pub mod PrefixCache
pub mod RedisAdmission
pub mod Routing
pub mod Worker
pub mod SimulatedGpu
pub mod Coordination
pub mod Scheduler
pub mod FaultInjection
