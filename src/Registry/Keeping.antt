-- ===== src/Registry/Keeping.antt =====
-- How serving_platform/registry/in_memory.py keeps its workers by their identifiers.
use gpu_aware_llm_serving_pl.Common.{
  ℕ, ◌+◌, ◌≡◌, refl, some, List, [], ◌∷◌, ◌==◌, ok, arith, Option-cases, Bool-cases, inl, inr,
  subst, ap, sym, ◌∙◌, Bool,
}
use mathlib.Core.Option
use gpu_aware_llm_serving_pl.Common.Dict.{Dict, IsDict, lookup, insert}
use gpu_aware_llm_serving_pl.Domain.{WorkerState, suspect}
use gpu_aware_llm_serving_pl.Registry.{
  Registry, register, heartbeat, mark_suspect, age_worker, age_workers, expire_stale, is_lost,
  refreshed, blamed,
}
use gpu_aware_llm_serving_pl.Common.{Result, if_cases, Option}
use gpu_aware_llm_serving_pl.Registry.{RegistryError, init_registry, unregister}
use gpu_aware_llm_serving_pl.Common.Dict.{erase, insert-IsDict, erase-IsDict}

-- Each worker stands under its own identifier.
abbrev pub IsKeyed : Dict WorkerState → Type 0
IsKeyed [] = Unit
IsKeyed ((i, w) ∷ d) = (w.worker_id ≡ i) × IsKeyed d

pub lookup-age_workers :
    (g : Registry) (now i : ℕ) (d : Dict WorkerState)
    → lookup i (age_workers g now d) ≡ Option.map (age_worker g now) (lookup i d)
unfolding lookup age_workers
lookup-age_workers g now i [] = refl
lookup-age_workers g now i ((j, w) ∷ d) = elim (Bool-cases (j == i)) [
  | inl e ↦ rw e refl
  | inr e ↦ rw e (lookup-age_workers g now i d)
]

-- Each worker stands once, and under its own identifier.
pub record WellKept (g : Registry) : Type 0 where
  pub is_dict : IsDict g.workers
  pub keyed : IsKeyed g.workers

insert-IsKeyed :
    (k : ℕ) (v : WorkerState) (d : Dict WorkerState)
    → v.worker_id ≡ k
    → IsKeyed d
    → IsKeyed (insert k v d)
unfolding insert
insert-IsKeyed k v [] e h = (e, tt)
insert-IsKeyed k v ((i, w) ∷ d) e h = ground (arith, e, insert-IsKeyed k v d e h.1)

lookup-IsKeyed :
    (k : ℕ) (v : WorkerState) (d : Dict WorkerState)
    → IsKeyed d
    → lookup k d ≡ some v
    → v.worker_id ≡ k
unfolding lookup
lookup-IsKeyed k v [] h e = absurd (ground (arith, e))
lookup-IsKeyed k v ((i, w) ∷ d) h e = ground (arith, h.0, e, lookup-IsKeyed k v d h.1)

insert-WellKept :
    (g : Registry) (v : WorkerState)
    → WellKept g
    → WellKept (record g { workers = insert v.worker_id v g.workers })
insert-WellKept g v h = record {
  is_dict = insert-IsDict v.worker_id v g.workers h.is_dict;
  keyed = insert-IsKeyed v.worker_id v g.workers refl h.keyed;
}

register-WellKept :
    (g : Registry) (w : WorkerState) (now : ℕ) → WellKept g → WellKept (register g w now)
unfolding register
register-WellKept g w now h = insert-WellKept g (refreshed w now 0) h

age_worker-id :
    (g : Registry) (now : ℕ) (w : WorkerState) → (age_worker g now w).worker_id ≡ w.worker_id
unfolding age_worker
age_worker-id g now w = ground arith

age_workers-IsKeyed :
    (g : Registry) (now : ℕ) (d : Dict WorkerState) → IsKeyed d → IsKeyed (age_workers g now d)
unfolding age_workers
age_workers-IsKeyed g now [] h = tt
age_workers-IsKeyed g now ((i, w) ∷ d) h =
    (age_worker-id g now w ∙ h.0, age_workers-IsKeyed g now d h.1)

age_workers-IsDict :
    (g : Registry) (now : ℕ) (d : Dict WorkerState) → IsDict d → IsDict (age_workers g now d)
unfolding age_workers
age_workers-IsDict g now [] h = tt
age_workers-IsDict g now ((i, w) ∷ d) h = (
  lookup-age_workers g now i d ∙ ap (Option.map (age_worker g now)) h.0,
  age_workers-IsDict g now d h.1,
)

erase-IsKeyed : (k : ℕ) (d : Dict WorkerState) → IsKeyed d → IsKeyed (erase k d)
unfolding erase
erase-IsKeyed k [] h = tt
erase-IsKeyed k ((i, w) ∷ d) h = ground (arith, erase-IsKeyed k d h.1)

init_registry-WellKept :
    (timeout : ℕ) (after : Option ℕ) (g : Registry)
    → init_registry timeout after ≡ ok g
    → WellKept g
unfolding init_registry
init_registry-WellKept timeout after g e =
    let empty : g.workers ≡ [] = ground (arith, e) in
    record { is_dict = subst IsDict (sym empty) tt; keyed = subst IsKeyed (sym empty) tt }

unregister-WellKept : (g : Registry) (i : ℕ) → WellKept g → WellKept (unregister g i)
unfolding unregister
unregister-WellKept g i h = record {
  is_dict = erase-IsDict i g.workers h.is_dict;
  keyed = erase-IsKeyed i g.workers h.keyed;
}

heartbeat-WellKept :
    (g : Registry) (w : WorkerState) (now : ℕ) → WellKept g → WellKept (heartbeat g w now).0
unfolding heartbeat
heartbeat-WellKept g w now h = elim (Option-cases (lookup w.worker_id g.workers)) [
  | inl e ↦ rw (e, heartbeat) h
  | inr (old, e) ↦
      rw (e, heartbeat)
        (if_cases {A = Registry × Result RegistryError Bool} (λ x. WellKept x.0)
          (is_lost old.health_status) (λ k. h)
          (λ k. insert-WellKept g (refreshed w now (old.heartbeat_sequence + 1)) h))
]

mark_suspect-WellKept :
    (g : Registry) (i code : ℕ) → WellKept g → WellKept (mark_suspect g i code).0
unfolding mark_suspect
mark_suspect-WellKept g i code h = elim (Option-cases (lookup i g.workers)) [
  | inl e ↦
      rw (e, mark_suspect)
        (if_cases {A = Registry × Result RegistryError Bool} (λ x. WellKept x.0) (code == 0)
          (λ k. h) (λ k. h))
  | inr (w, e) ↦
      rw (e, mark_suspect)
        (if_cases {A = Registry × Result RegistryError Bool} (λ x. WellKept x.0) (code == 0)
          (λ k. h)
          (λ k.
            if_cases {A = Registry × Result RegistryError Bool} (λ x. WellKept x.0)
              (is_lost w.health_status) (λ j. h)
              (λ j. record {
                is_dict = insert-IsDict i (blamed w suspect code) g.workers h.is_dict;
                keyed =
                    insert-IsKeyed i (blamed w suspect code) g.workers
                      (lookup-IsKeyed i w g.workers h.keyed e) h.keyed;
              })))
]

expire_stale-WellKept : (g : Registry) (now : ℕ) → WellKept g → WellKept (expire_stale g now).0
unfolding expire_stale
expire_stale-WellKept g now h = record {
  is_dict = age_workers-IsDict g now g.workers h.is_dict;
  keyed = age_workers-IsKeyed g now g.workers h.keyed;
}

pub data Call : Type 0 where
  registers : WorkerState → ℕ → Call
  unregisters : ℕ → Call
  heartbeats : WorkerState → ℕ → Call
  marks_suspect : ℕ → ℕ → Call
  expires : ℕ → Call

-- Any call that changes the registry.
unfoldable pub step : Call → Registry → Registry
step (registers w now) g = register g w now
step (unregisters i) g = unregister g i
step (heartbeats w now) g = (heartbeat g w now).0
step (marks_suspect i code) g = (mark_suspect g i code).0
step (expires now) g = (expire_stale g now).0

unfoldable pub run : List Call → Registry → Registry
unfolding step
run [] g = g
run (c ∷ cs) g = run cs (step c g)

step-WellKept : (c : Call) (g : Registry) → WellKept g → WellKept (step c g)
unfolding step
step-WellKept (registers w now) g h = register-WellKept g w now h
step-WellKept (unregisters i) g h = unregister-WellKept g i h
step-WellKept (heartbeats w now) g h = heartbeat-WellKept g w now h
step-WellKept (marks_suspect i code) g h = mark_suspect-WellKept g i code h
step-WellKept (expires now) g h = expire_stale-WellKept g now h

run-WellKept : (cs : List Call) (g : Registry) → WellKept g → WellKept (run cs g)
unfolding run
run-WellKept [] g h = h
run-WellKept (c ∷ cs) g h = run-WellKept cs (step c g) (step-WellKept c g h)

-- After any calls on a new registry, each worker stands once and under its own identifier.
pub run-init_registry-WellKept :
    (timeout : ℕ) (after : Option ℕ) (g : Registry) (cs : List Call)
    → init_registry timeout after ≡ ok g
    → WellKept (run cs g)
run-init_registry-WellKept timeout after g cs e =
    run-WellKept cs g (init_registry-WellKept timeout after g e)
