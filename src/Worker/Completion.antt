-- ===== src/Worker/Completion.antt =====
-- The end of `execute_batch` in apps/worker/service.py: the requests of the batch and the counters.
use gpu_aware_llm_serving_pl.Common.{
  ℕ, ◌-◌, ◌≡◌, refl, sym, ap, ◌∙◌, subst, Bool, true, false, ◌||◌, List, [], ◌∷◌, ◌==◌, Result, ok,
  raise, arith, Bool-cases, inl, inr, if_cases, All,
}
use gpu_aware_llm_serving_pl.Common.Dict.{lookup-insert}
use gpu_aware_llm_serving_pl.Domain.{
  RequestRecord, RequestState, transition, terminal, is_terminal, is_allowed,
}
use gpu_aware_llm_serving_pl.Worker.{Worker, WorkerError, put, get}
use gpu_aware_llm_serving_pl.Worker.Batch.{
  batch, begin_batch, settle, leave_one, leave, answers, outcome, finish_for, finish_batch,
  RuntimeResult,
}
use gpu_aware_llm_serving_pl.Worker.Objects.{
  moved, Moved, transition-Moved, Later, unchanged-Later, both-Later, Moved-Later,
}
use gpu_aware_llm_serving_pl.Worker.Start.{uses, uses_same}
use gpu_aware_llm_serving_pl.Worker.Batches.{begin_batch-Began}

-- The request runs, or is over.
abbrev pub is_running : RequestState → Bool
is_running RequestState.running = true
is_running _ = false

unfoldable pub IsSettling : RequestRecord → Type 0
IsSettling r = (is_running r.status || terminal r) ≡ true

put-IsSettling :
    (i k : ℕ) (r : RequestRecord) (objects : ℕ → RequestRecord)
    → terminal r ≡ true
    → IsSettling (objects k)
    → IsSettling (put i r objects k)
unfolding IsSettling
put-IsSettling i k r objects e h =
    if_cases {A = RequestRecord} (λ x. (is_running x.status || terminal x) ≡ true) (i == k)
      (λ _. ground (arith, e)) (λ _. h)

put-All :
    (i : ℕ) (r : RequestRecord) (objects : ℕ → RequestRecord) (is : List ℕ)
    → terminal r ≡ true
    → All (λ k. IsSettling (objects k)) is
    → All (λ k. IsSettling (put i r objects k)) is
put-All i r objects [] e h = tt
put-All i r objects (k ∷ is) e (h, hs) =
    (put-IsSettling i k r objects e h, put-All i r objects is e hs)

record Settled (objects objects' : ℕ → RequestRecord) (is : List ℕ) : Type 0 where
  later : Later objects objects'
  over : All (λ k. terminal (objects' k) ≡ true) is

is_running-true : (s : RequestState) → is_running s ≡ true → s ≡ RequestState.running
is_running-true RequestState.running e = refl
is_running-true _ e = ground (arith, e)

-- A running request takes a transition to the target.
allowed_settling :
    (r : RequestRecord) (t : RequestState) (now : ℕ)
    → is_allowed RequestState.running t ≡ true
    → IsSettling r
    → terminal r ≡ false
    → (r' : RequestRecord) × (transition r t now ≡ ok r')
unfolding IsSettling transition is_terminal
allowed_settling r t now a h live =
    let status : r.status ≡ RequestState.running =
      is_running-true r.status (ground (arith, h, live)) in
    let allowed : is_allowed r.status t ≡ true = ap (λ s. is_allowed s t) status ∙ a in
    (moved r t now, rw (allowed, transition) refl)

settle-Settled :
    (t : RequestState) (now : ℕ) (objects : ℕ → RequestRecord) (is : List ℕ)
    → is_terminal t ≡ true
    → is_allowed RequestState.running t ≡ true
    → All (λ k. IsSettling (objects k)) is
    → ((settle t now objects is).1 ≡ true) × Settled objects (settle t now objects is).0 is
unfolding settle
settle-Settled t now objects [] o a h =
    (refl, record { later = unchanged-Later objects; over = tt })
settle-Settled t now objects (i ∷ is) o a (h, hs) = elim (Bool-cases (terminal (objects i))) [
  | inl done ↦
      let (d, s) = settle-Settled t now objects is o a hs in
      rw (done, settle) (d, record { later = s.later; over = (s.later.over i done, s.over) })
  | inr live ↦
      let (r, e) = allowed_settling (objects i) t now a h live in
      let m : Moved (objects i) r t = transition-Moved (objects i) r t now e in
      let over : terminal r ≡ true = ap is_terminal m.status ∙ o in
      let l : Later objects (put i r objects) = Moved-Later i r t objects m in
      let (d, s) = settle-Settled t now (put i r objects) is o a (put-All i r objects is over hs) in
      let put_over : terminal (put i r objects i) ≡ true = ground (arith, over) in
      rw (live, e, settle)
        (d, record { later = both-Later l s.later; over = (s.later.over i put_over, s.over) })
]

record Left (w w' : Worker) (is : List ℕ) : Type 0 where
  objects : w'.objects ≡ w.objects
  queue : w'.queue ≡ w.queue
  batches : w'.active_batch_count ≡ w.active_batch_count
  active :
      (m : ℕ)
      → get m w'.active_requests_by_model ≡ get m w.active_requests_by_model - uses w.objects m is

leave-Left : (w : Worker) (is : List ℕ) → Left w (leave w is) is
unfolding leave
leave-Left w [] = record { objects = refl; queue = refl; batches = refl; active = λ m. omega arith }
leave-Left w (i ∷ is) =
    let p = leave-Left (leave_one w i) is in
    let r = w.objects i in
    record {
      objects = p.objects;
      queue = p.queue;
      batches = p.batches;
      active = λ m.
          let n = p.active m in
          ground (
            arith,
            n,
            lookup-insert r.model_id m (get r.model_id w.active_requests_by_model - 1)
                w.active_requests_by_model,
          );
    }

-- What the caller of `execute_batch` gets.
abbrev pub reply :
    (ℕ → RequestRecord)
    → List ℕ
    → Result WorkerError (List RuntimeResult)
    → Result WorkerError (List (ℕ × RuntimeResult))
reply objects is (raise e) = raise e
reply objects is (ok results) = ok (answers objects is results)

-- The state after a batch that is over.
record Finished (w : Worker) (is : List ℕ) (o : Result WorkerError (List RuntimeResult))
    (x : Worker × Result WorkerError (List (ℕ × RuntimeResult))) : Type 0 where
  over : All (λ k. terminal (x.0.objects k) ≡ true) is
  queue : x.0.queue ≡ w.queue
  batches : x.0.active_batch_count ≡ w.active_batch_count - 1
  active :
      (m : ℕ)
      → get m x.0.active_requests_by_model ≡ get m w.active_requests_by_model - uses w.objects m is
  answer : x.1 ≡ reply x.0.objects is o

finish_for-Finished :
    (w : Worker) (now : ℕ) (is : List ℕ) (o : Result WorkerError (List RuntimeResult))
    → All (λ k. IsSettling (w.objects k)) is
    → Finished w is o (finish_for w now is o)
unfolding finish_for is_terminal is_allowed
finish_for-Finished w now is (raise e) h =
    let (d, s) = settle-Settled RequestState.failed now w.objects is refl refl h in
    let x = (settle RequestState.failed now w.objects is).0 in
    let p =
      leave-Left (record w { objects = x; active_batch_count = w.active_batch_count - 1 }) is in
    record {
      over = subst (λ y. All (λ k. terminal (y k) ≡ true) is) (sym p.objects) s.over;
      queue = p.queue;
      batches = p.batches;
      active = λ m.
          p.active m
          ∙ ap (λ n. get m w.active_requests_by_model - n)
              (uses_same x w.objects m is s.later.fixed);
      answer = rw d refl;
    }
finish_for-Finished w now is (ok results) h =
    let p = leave-Left (record w { active_batch_count = w.active_batch_count - 1 }) is in
    let ready : All
        (λ k.
          IsSettling
            ((leave (record w { active_batch_count = w.active_batch_count - 1 }) is).objects k))
        is =
      subst (λ y. All (λ k. IsSettling (y k)) is) (sym p.objects) h in
    let (d, s) = settle-Settled RequestState.completed now _ is refl refl ready in
    record {
      over = s.over;
      queue = p.queue;
      batches = p.batches;
      active = p.active;
      answer = rw d refl;
    }

-- A batch starts, others change the objects in the meantime, each request of the batch still running or being over,
-- and the runtime answers or raises. Then every request of the batch is over, the queue is as the start of the batch
-- left it, the number of active batches and the active requests of every model are what they were before the batch,
-- and the caller gets the results of the completed requests, or the exception.
pub finish_batch-begin_batch :
    (w w' : Worker) (now later first m : ℕ) (is : List ℕ) (objects : ℕ → RequestRecord)
    (generated : Result WorkerError (List RuntimeResult))
    → begin_batch w now ≡ (w', batch first is)
    → Later w'.objects objects
    → All (λ k. IsSettling (objects k)) is
    → let x = finish_batch (record w' { objects = objects }) later first is generated in
      All (λ k. terminal (x.0.objects k) ≡ true) is
      × (x.0.queue ≡ w'.queue)
      × (x.0.active_batch_count ≡ w.active_batch_count)
      × (get m x.0.active_requests_by_model ≡ get m w.active_requests_by_model)
      × (x.1 ≡ reply x.0.objects is (outcome (objects first).stream is generated))
unfolding finish_batch
finish_batch-begin_batch w w' now later first m is objects generated e l h =
    let b = begin_batch-Began w w' now first is e in
    let f =
      finish_for-Finished (record w' { objects = objects }) later is
        (outcome (objects first).stream is generated) h in
    let a = b.active m in
    let z = f.active m in
    let same : uses objects m is ≡ uses w.objects m is =
      uses_same objects w.objects m is (both-Later b.later l).fixed in
    (f.over, f.queue, omega (arith, f.batches, b.batches), omega (arith, a, z, same), f.answer)
