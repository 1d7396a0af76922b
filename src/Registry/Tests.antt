-- ===== src/Registry/Tests.antt =====
-- The registry with one worker.
use gpu_aware_llm_serving_pl.Common.{List, ◌≡◌, mem, refl, [], ◌∷◌, some, none, ok, raise}
use gpu_aware_llm_serving_pl.Common.Dict.{keys, lookup, insert, erase}
use gpu_aware_llm_serving_pl.Common.Sort.{sorted}
use gpu_aware_llm_serving_pl.Domain.{WorkerState, suspect, unhealthy}
use gpu_aware_llm_serving_pl.Fixtures.{worker}
use gpu_aware_llm_serving_pl.Registry.{
  Registry, init_registry, register, heartbeat, mark_suspect, age_worker, age_workers, expired_ids,
  expire_stale, refreshed, blamed, runtime_error,
}
use gpu_aware_llm_serving_pl.Registry.Keeping
use gpu_aware_llm_serving_pl.Registry.Liveness.{
  IsAged, expire_stale-IsAged, heartbeats, marks_suspect, expires, step, run, run-lost,
}

program : Unit {0}
unfolding lookup insert erase sorted init_registry register heartbeat mark_suspect age_worker
    age_workers expired_ids expire_stale step run
program = tt

abbrev empty : Registry
empty = record { heartbeat_timeout_seconds = 30; suspect_after_seconds = 15; workers = [] }

init_empty : init_registry 30 none ≡ ok empty
unfolding program
init_empty = refl

abbrev one : Registry
one = record empty { workers = (3, refreshed worker 100 0) ∷ [] }

registered : register empty worker 100 ≡ one
unfolding program
registered = refl

abbrev dead : WorkerState
dead = blamed (refreshed worker 100 0) unhealthy 1

expiry : (expire_stale one 131).1 ≡ 3 ∷ []
unfolding program
expiry = refl

no_recovery : (heartbeat (expire_stale one 131).0 worker 140).1 ≡ raise runtime_error
unfolding program
no_recovery = refl

abbrev history : List Keeping.Call
history = Keeping.registers worker 90 ∷ Keeping.heartbeats worker 100 ∷ []

heard : lookup 3 (Keeping.run history empty).workers ≡ some (refreshed worker 100 1)
unfolding program Keeping.step Keeping.run
heard = refl

expire_stale-IsAged_example :
    (keys (expire_stale (Keeping.run history empty) 120).0.workers
      ≡ keys (Keeping.run history empty).workers)
    × (w : WorkerState) × (lookup 3 (expire_stale (Keeping.run history empty) 120).0.workers
        ≡ some w)
    × IsAged
        (Keeping.run history empty)
        120
        (refreshed worker 100 1)
        w
        (mem 3 (expire_stale (Keeping.run history empty) 120).1)
expire_stale-IsAged_example =
    expire_stale-IsAged 30 none empty history 120 3 (refreshed worker 100 1) init_empty heard

delayed :
    lookup 3 (expire_stale one 120).0.workers ≡ some (blamed (refreshed worker 100 0) suspect 2)
unfolding program
delayed = refl

run-lost_example :
    lookup 3
      (run
        (heartbeats worker 140 ∷ marks_suspect 3 7 ∷ expires 190 ∷ [])
        (expire_stale one 131).0).workers
    ≡ some dead
unfolding program
run-lost_example =
    run-lost 3 dead (heartbeats worker 140 ∷ marks_suspect 3 7 ∷ expires 190 ∷ [])
      (expire_stale one 131).0 refl refl
