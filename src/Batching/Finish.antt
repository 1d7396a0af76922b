-- ===== src/Batching/Finish.antt =====
-- What scheduler/dynamic_batch.py and scheduler/no_batching.py promise to a caller: every request ends.
use gpu_aware_llm_serving_pl.Common.{
  ℕ, ◌≡◌, Bool, true, false, not, List, [], ◌∷◌, keep, map, All, arith, if_cases, Bool-cases, inl,
  inr, refl,
}
use gpu_aware_llm_serving_pl.Batching.{
  grace_period_expired, exception, Message, failed, RequestStatus, InferenceRequest, finish,
  terminal, is_final, is_cancelled, Future, pending,
}
use gpu_aware_llm_serving_pl.Batching.Process.{
  uneven_zip, Outcome, Generation, returned, raised, task_cancelled, begin, settle, settle_all,
  fail_with, conclude, process_batch, process_one, conclude_one, is_running,
}

-- The caller waits no more.
abbrev pub is_waiting : Future → Bool
is_waiting pending = true
is_waiting _ = false

abbrev pub IsOver : InferenceRequest → Type 0
IsOver r = (terminal r ≡ true) × (is_waiting r.future ≡ false)

-- A request that was cancelled is over already.
abbrev pub IsSound : InferenceRequest → Type 0
IsSound r = is_cancelled r.status ≡ true → is_waiting r.future ≡ false

finish-IsOver :
    (s : RequestStatus) (m : Message) (now : ℕ) (r : InferenceRequest)
    → is_final s ≡ true
    → IsOver (finish s m now r)
unfolding finish terminal
finish-IsOver s m now r h = (h, ground arith)

settle-IsOver :
    (limit later : ℕ) (g : Generation) (r : InferenceRequest) → IsOver (settle limit later g r)
unfolding settle finish terminal
settle-IsOver limit later g r = ground arith

begin-IsOver :
    (limit now : ℕ) (r : InferenceRequest)
    → IsSound r
    → is_running (begin limit now r) ≡ false
    → IsOver (begin limit now r)
unfolding begin finish terminal
begin-IsOver limit now r s h = ground arith

map-IsOver :
    (f : InferenceRequest → InferenceRequest)
    → ((r : InferenceRequest) → IsOver (f r))
    → (rs : List InferenceRequest) → All IsOver (map f rs)
map-IsOver f h [] = tt
map-IsOver f h (r ∷ rs) = (h r, map-IsOver f h rs)

settle_all-IsOver :
    (limit later : ℕ) (gs : List Generation) (rs : List InferenceRequest)
    → (settle_all limit later gs rs).1 ≡ false
    → All IsOver (settle_all limit later gs rs).0
unfolding settle_all
settle_all-IsOver limit later [] [] h = tt
settle_all-IsOver limit later [] (r ∷ rs) h = cc
settle_all-IsOver limit later (g ∷ gs) [] h = cc
settle_all-IsOver limit later (g ∷ gs) (r ∷ rs) h =
    (settle-IsOver limit later g r, settle_all-IsOver limit later gs rs h)

fail_with-IsOver : (later e : ℕ) (r : InferenceRequest) → IsOver (fail_with later e r)
unfolding fail_with
fail_with-IsOver later e r =
    finish-IsOver failed (exception e) later (record r { completed_at = later }) refl

conclude-IsOver :
    (limit later : ℕ) (o : Outcome (List Generation)) (rs : List InferenceRequest)
    → All IsOver (conclude limit later o rs)
unfolding conclude
conclude-IsOver limit later (returned gs) rs =
    if_cases (All IsOver) (settle_all limit later gs rs).1
      (λ h.
        map-IsOver (fail_with later uneven_zip) (fail_with-IsOver later uneven_zip)
          (settle_all limit later gs rs).0)
      (settle_all-IsOver limit later gs rs)
conclude-IsOver limit later (raised e) rs =
    map-IsOver (fail_with later e) (fail_with-IsOver later e) rs
conclude-IsOver limit later task_cancelled rs =
    map-IsOver (finish failed grace_period_expired later)
      (λ r. finish-IsOver failed grace_period_expired later r refl) rs

set_aside-IsOver :
    (limit now : ℕ) (rs : List InferenceRequest)
    → All IsSound rs
    → All IsOver (keep (λ r. not (is_running r)) (map (begin limit now) rs))
set_aside-IsOver limit now [] h = tt
set_aside-IsOver limit now (r ∷ rs) (s, h) = elim (Bool-cases (is_running (begin limit now r))) [
  | inl e ↦ rw e (set_aside-IsOver limit now rs h)
  | inr e ↦ rw e (begin-IsOver limit now r s e, set_aside-IsOver limit now rs h)
]

conclude_one-IsOver :
    (limit later : ℕ) (o : Outcome Generation) (r : InferenceRequest)
    → IsOver (conclude_one limit later o r)
unfolding conclude_one
conclude_one-IsOver limit later (returned g) r = settle-IsOver limit later g r
conclude_one-IsOver limit later (raised e) r = fail_with-IsOver later e r
conclude_one-IsOver limit later task_cancelled r =
    finish-IsOver failed grace_period_expired later r refl

-- Whatever the worker does, and whoever leaves meanwhile, when a batch has been processed every request of it has a
-- terminal status and no caller waits for it, if no caller waited for a request that was cancelled before.
pub process_batch-IsOver :
    (limit now later : ℕ) (leaving : List ℕ) (o : Outcome (List Generation))
    (rs : List InferenceRequest)
    → All IsSound rs
    → All IsOver (process_batch limit now later leaving o rs).set_aside
      × All IsOver (process_batch limit now later leaving o rs).active
unfolding process_batch
process_batch-IsOver limit now later leaving o rs h =
    (set_aside-IsOver limit now rs h, conclude-IsOver limit later o _)

-- A single request ends the same way.
pub process_one-IsOver :
    (limit now later : ℕ) (leaving : List ℕ) (o : Outcome Generation) (r : InferenceRequest)
    → IsSound r
    → IsOver (process_one limit now later leaving o r)
unfolding process_one
process_one-IsOver limit now later leaving o r s =
    if_cases IsOver (is_running (begin limit now r)) (λ h. conclude_one-IsOver limit later o _)
      (begin-IsOver limit now r s)
