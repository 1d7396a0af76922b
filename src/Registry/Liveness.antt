-- ===== src/Registry/Liveness.antt =====
-- Who counts as alive in serving_platform/registry/in_memory.py.
use gpu_aware_llm_serving_pl.Common.{
  Option, ◌⊎◌, ℕ, ◌+◌, ◌-◌, ◌≤◌, ◌≡◌, refl, true, some, List, [], ◌∷◌, ◌==◌, ok, arith,
  Option-cases, Bool-cases, inl, inr, subst, ap, sym, ◌∙◌, none, false, mem, ltb, ◌<◌, ==_iff, Bool,
}
use mathlib.Core.Option
use gpu_aware_llm_serving_pl.Common.Dict.{Dict, IsDict, keys, lookup, insert, lookup-insert}
use gpu_aware_llm_serving_pl.Common.Sort.{sorted, mem-sorted}
use gpu_aware_llm_serving_pl.Domain.{WorkerState, suspect, unhealthy}
use gpu_aware_llm_serving_pl.Registry.{
  init_registry, Registry, register, heartbeat, mark_suspect, age_worker, age_workers, expire_stale,
  is_lost, is_watched, is_healthy, is_expired, expired_ids, heartbeat_expired, heartbeat_delayed,
  refreshed, blamed,
}
use gpu_aware_llm_serving_pl.Registry.Keeping
use gpu_aware_llm_serving_pl.Registry.Keeping.{
  run-init_registry-WellKept, IsKeyed, WellKept, lookup-age_workers,
}

lost_stays :
    (g : Registry) (now : ℕ) (w : WorkerState)
    → is_lost w.health_status ≡ true
    → age_worker g now w ≡ w
unfolding age_worker
lost_stays g now w e = ground arith

keys-age_workers :
    (g : Registry) (now : ℕ) (d : Dict WorkerState) → keys (age_workers g now d) ≡ keys d
unfolding age_workers
keys-age_workers g now [] = refl
keys-age_workers g now ((i, w) ∷ d) = ap (λ ks. i ∷ ks) (keys-age_workers g now d)

mem_absent :
    (g : Registry) (now i : ℕ) (d : Dict WorkerState)
    → IsKeyed d
    → lookup i d ≡ none
    → mem i (expired_ids g now d) ≡ false
unfolding lookup expired_ids
mem_absent g now i [] k e = refl
mem_absent g now i ((j, w) ∷ d) k e = ground (arith, k.0, e, mem_absent g now i d k.1)

mem-expired_ids :
    (g : Registry) (now i : ℕ) (old : WorkerState) (d : Dict WorkerState)
    → IsDict d
    → IsKeyed d
    → lookup i d ≡ some old
    → mem i (expired_ids g now d) ≡ is_expired g now old
unfolding lookup expired_ids
mem-expired_ids g now i old ((j, w) ∷ d) u k e = elim (Bool-cases (j == i)) [
  | inl q ↦
      let same : w ≡ old = ground (arith, q, e) in
      let here : j ≡ i = (==_iff j i).0 q in
      let rest : mem i (expired_ids g now d) ≡ false =
        mem_absent g now i d k.1 (subst (λ x. lookup x d ≡ none) here u.0) in
      subst (λ x. mem i (expired_ids g now ((j, w) ∷ d)) ≡ is_expired g now x) same
        (ground (arith, k.0, here, rest))
  | inr q ↦ ground (arith, k.0, q, e, mem-expired_ids g now i old d u.1 k.1)
]
mem-expired_ids g now i old [] u k e = absurd (ground (arith, e))

-- A healthy or suspect worker that was not heard of for more than the timeout becomes unhealthy and is reported.
abbrev pub IsExpired : Registry → ℕ → WorkerState → WorkerState → Bool → Type 0
IsExpired g now old w reported =
    (is_watched old.health_status ≡ true)
    × (g.heartbeat_timeout_seconds < now - old.last_heartbeat)
    × (w ≡ record old {
      health_status = unhealthy;
      consecutive_failures = old.consecutive_failures + 1;
      last_error_code = some heartbeat_expired;
    })
    × (reported ≡ true)

-- A healthy one that was heard of within the timeout, but not within the suspicion time, becomes suspect.
abbrev pub IsDelayed : Registry → ℕ → WorkerState → WorkerState → Bool → Type 0
IsDelayed g now old w reported =
    (is_healthy old.health_status ≡ true)
    × (now - old.last_heartbeat ≤ g.heartbeat_timeout_seconds)
    × (g.suspect_after_seconds < now - old.last_heartbeat)
    × (w ≡ record old {
      health_status = suspect;
      consecutive_failures = old.consecutive_failures + 1;
      last_error_code = some heartbeat_delayed;
    })
    × (reported ≡ false)

-- Any other worker stays as it is.
abbrev pub IsKept : Registry → ℕ → WorkerState → WorkerState → Bool → Type 0
IsKept g now old w reported =
    ((is_watched old.health_status ≡ false)
      ⊎ ((now - old.last_heartbeat ≤ g.heartbeat_timeout_seconds)
          × ((is_healthy old.health_status ≡ false)
              ⊎ (now - old.last_heartbeat ≤ g.suspect_after_seconds))))
    × (w ≡ old)
    × (reported ≡ false)

abbrev pub IsAged : Registry → ℕ → WorkerState → WorkerState → Bool → Type 0
IsAged g now old w reported =
    IsExpired g now old w reported ⊎ (IsDelayed g now old w reported ⊎ IsKept g now old w reported)

age_worker-IsAged :
    (g : Registry) (now : ℕ) (old : WorkerState)
    → IsAged g now old (age_worker g now old) (is_expired g now old)
unfolding age_worker
age_worker-IsAged g now old = elim (Bool-cases (is_watched old.health_status)) [
  | inr e ↦ inr (inr (inl e, ground (arith, e), ground (arith, e)))
  | inl e ↦ elim (Bool-cases (ltb g.heartbeat_timeout_seconds (now - old.last_heartbeat))) [
    | inl l ↦ inl (e, ground (arith, l), rw (age_worker, e, l) refl, rw (e, l) refl)
    | inr l ↦ elim (Bool-cases (is_healthy old.health_status)) [
      | inr k ↦
          inr (inr (inr (ground (arith, l), inl k), rw (age_worker, e, l, k) refl, rw (e, l) refl))
      | inl k ↦ elim (Bool-cases (ltb g.suspect_after_seconds (now - old.last_heartbeat))) [
        | inl m ↦ inr (
            inl (
              k,
              ground (arith, l),
              ground (arith, m),
              rw (age_worker, e, l, k, m) refl,
              rw (e, l) refl,
            ))
        | inr m ↦ inr (
            inr (
              inr (ground (arith, l), inr (ground (arith, m))),
              rw (age_worker, e, l, k, m) refl,
              rw (e, l) refl,
            ))
      ]
    ]
  ]
]

-- For a registry in which each worker stands once and under its own identifier.
expire_stale_kept :
    (g : Registry) (now i : ℕ) (old : WorkerState)
    → WellKept g
    → lookup i g.workers ≡ some old
    → let x = expire_stale g now in
      (keys x.0.workers ≡ keys g.workers)
      × (w : WorkerState) × (lookup i x.0.workers ≡ some w)
      × IsAged g now old w (mem i x.1)
unfolding expire_stale
expire_stale_kept g now i old h e =
    let reported : mem i (sorted (λ j. j) (expired_ids g now g.workers)) ≡ is_expired g now old =
      mem-sorted (λ j. j) i (expired_ids g now g.workers)
      ∙ mem-expired_ids g now i old g.workers h.is_dict h.keyed e in
    (
      keys-age_workers g now g.workers,
      age_worker g now old,
      lookup-age_workers g now i g.workers ∙ ap (Option.map (age_worker g now)) e,
      subst (IsAged g now old (age_worker g now old)) (sym reported) (age_worker-IsAged g now old),
    )

-- What `expire_stale` does to each registered worker, after any registrations, removals, heartbeats, failure reports and
-- expiry checks on a new registry. One that is healthy or suspect and was not heard of for more than the timeout
-- becomes unhealthy with one failure more and the code of an expired heartbeat, and its identifier is returned. One
-- that is healthy and was not heard of for more than the suspicion time, but for no more than the timeout, becomes
-- suspect with one failure more and the code of a delayed heartbeat. Any other stays exactly as it was, and none but
-- the expired are returned. The registered identifiers are the same.
pub expire_stale-IsAged :
    (timeout : ℕ) (after : Option ℕ) (g : Registry) (cs : List Keeping.Call) (now i : ℕ)
    (old : WorkerState)
    → init_registry timeout after ≡ ok g
    → lookup i (Keeping.run cs g).workers ≡ some old
    → let x = expire_stale (Keeping.run cs g) now in
      (keys x.0.workers ≡ keys (Keeping.run cs g).workers)
      × (w : WorkerState) × (lookup i x.0.workers ≡ some w)
      × IsAged (Keeping.run cs g) now old w (mem i x.1)
expire_stale-IsAged timeout after g cs now i old s e =
    expire_stale_kept (Keeping.run cs g) now i old (run-init_registry-WellKept timeout after g cs s)
      e

pub data Call : Type 0 where
  heartbeats : WorkerState → ℕ → Call
  marks_suspect : ℕ → ℕ → Call
  expires : ℕ → Call

-- Any call but a registration and its removal.
unfoldable pub step : Call → Registry → Registry
step (heartbeats w now) g = (heartbeat g w now).0
step (marks_suspect i code) g = (mark_suspect g i code).0
step (expires now) g = (expire_stale g now).0

unfoldable pub run : List Call → Registry → Registry
unfolding step
run [] g = g
run (c ∷ cs) g = run cs (step c g)

step-lost :
    (i : ℕ) (w : WorkerState) (c : Call) (g : Registry)
    → is_lost w.health_status ≡ true
    → lookup i g.workers ≡ some w
    → lookup i (step c g).workers ≡ some w
unfolding step heartbeat mark_suspect expire_stale
step-lost i w (heartbeats v now) g h e = elim (Option-cases (lookup v.worker_id g.workers)) [
  | inl q ↦ rw (q, step, heartbeat) e
  | inr (old, q) ↦
      rw (q, step, heartbeat)
        (ground (
          arith,
          lookup-insert v.worker_id i (refreshed v now (old.heartbeat_sequence + 1)) g.workers,
        ))
]
step-lost i w (marks_suspect j code) g h e = elim (Option-cases (lookup j g.workers)) [
  | inl q ↦ rw (q, step, mark_suspect) (ground arith)
  | inr (old, q) ↦
      rw (q, step, mark_suspect)
        (ground (arith, lookup-insert j i (blamed old suspect code) g.workers))
]
step-lost i w (expires now) g h e =
    rw (lookup-age_workers g now i g.workers, e) (ap some (lost_stays g now w h))

-- A worker that was lost (unhealthy or stopped) stays exactly as it is, whatever heartbeats, failure
-- reports and expiry checks follow: only a new registration or its removal changes it.
pub run-lost :
    (i : ℕ) (w : WorkerState) (cs : List Call) (g : Registry)
    → is_lost w.health_status ≡ true
    → lookup i g.workers ≡ some w
    → lookup i (run cs g).workers ≡ some w
unfolding run
run-lost i w [] g h e = e
run-lost i w (c ∷ cs) g h e = run-lost i w cs (step c g) h (step-lost i w c g h e)

-- A registration makes a worker healthy again, whatever it was, and clears its failures; the next
-- heartbeat is then accepted and is the first of its sequence.
pub heartbeat-register :
    (g : Registry) (w v : WorkerState) (now later : ℕ)
    → v.worker_id ≡ w.worker_id
    → let r = heartbeat (register g w now) v later in
      (r.1 ≡ ok true) × (lookup w.worker_id r.0.workers ≡ some (refreshed v later 1))
unfolding heartbeat register
heartbeat-register g w v now later same =
    let there : lookup v.worker_id (insert w.worker_id (refreshed w now 0) g.workers)
        ≡ some (refreshed w now 0) =
      rw (same, lookup-insert) (ground arith) in
    rw (there, heartbeat) (refl, rw (same, lookup-insert) (ground arith))
