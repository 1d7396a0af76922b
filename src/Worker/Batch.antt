-- ===== src/Worker/Batch.antt =====
-- `execute_batch` of apps/worker/service.py: the locked part that takes a batch off the queue, and the parts after the
-- runtime's answer. Between the two, others may change the objects.
use gpu_aware_llm_serving_pl.Common.{
  ℕ, zero, suc, ◌+◌, ◌-◌, Bool, true, false, not, ◌&&◌, ◌||◌, List, [], ◌∷◌, ◌++◌, leb, ◌==◌,
  if◌then◌else◌, length, Result, ok, raise,
}
use gpu_aware_llm_serving_pl.Common.Dict.{insert, erase}
use gpu_aware_llm_serving_pl.Domain.{
  RequestRecord, RequestState, timed_out, transition, terminal, estimated_tokens, DomainError,
}
use gpu_aware_llm_serving_pl.Worker.{
  Worker, WorkerError, runtime_error, invalid_transition, get, put,
}

abbrev pub is_overdue : RequestRecord → ℕ → Bool
is_overdue r now = terminal r || leb r.deadline now

-- The object is timed out, if it is not terminal.
unfoldable pub expire : RequestRecord → ℕ → Result DomainError RequestRecord
expire r now = if terminal r then ok r else transition r timed_out now

-- Where the scan of the queue stands: `failed` says that a transition raised.
pub record Scan : Type 0 where
  pub objects : ℕ → RequestRecord
  pub selected : List ℕ
  pub deferred : List ℕ
  pub queue : List ℕ
  pub failed : Bool

abbrev pub scan : (ℕ → RequestRecord) → List ℕ → Bool → Scan
scan objects queue failed = record {
  objects = objects;
  selected = [];
  deferred = [];
  queue = queue;
  failed = failed;
}

-- The first loop: requests at the head of the queue that are over.
unfoldable pub skip_overdue : (ℕ → RequestRecord) → ℕ → List ℕ → Scan
unfolding expire
skip_overdue objects now [] = scan objects [] false
skip_overdue objects now (i ∷ q) = elim (is_overdue (objects i) now) [
  | false ↦ scan objects (i ∷ q) false
  | true ↦ elim (expire (objects i) now) [
    | raise e ↦ scan objects q true
    | ok r ↦ skip_overdue (put i r objects) now q
  ]
]

abbrev pub is_same : Bool → Bool → Bool
is_same true b = b
is_same false b = not b

unfoldable pub is_compatible : RequestRecord → RequestRecord → Bool
is_compatible first candidate =
    (candidate.model_id == first.model_id)
    && (candidate.max_new_tokens == first.max_new_tokens)
    && (candidate.temperature == first.temperature)
    && is_same candidate.stream first.stream

abbrev pub select : ℕ → Scan → Scan
select i s = record s { selected = i ∷ s.selected }

abbrev pub defer : ℕ → Scan → Scan
defer i s = record s { deferred = i ∷ s.deferred }

-- The second loop, with the places left in the batch and the tokens in it.
unfoldable pub choose : ℕ → RequestRecord → ℕ → ℕ → ℕ → (ℕ → RequestRecord) → List ℕ → Scan
unfolding is_compatible expire
choose limit first now zero tokens objects q = scan objects q false
choose limit first now (suc room) tokens objects [] = scan objects [] false
choose limit first now (suc room) tokens objects (i ∷ q) = elim (is_overdue (objects i) now) [
  | true ↦ elim (expire (objects i) now) [
    | raise e ↦ scan objects q true
    | ok r ↦ choose limit first now (suc room) tokens (put i r objects) q
  ]
  | false ↦
      elim (is_compatible first (objects i) && leb (tokens + estimated_tokens (objects i)) limit) [
        | true ↦
            select i (choose limit first now room (tokens + estimated_tokens (objects i)) objects q)
        | false ↦ defer i (choose limit first now (suc room) tokens objects q)
      ]
]

-- A request starts to run, with its new record.
abbrev pub enter : Worker → ℕ → RequestRecord → Worker
enter w i r = record w {
  objects = put i r w.objects;
  active_requests_by_model =
      insert r.model_id (get r.model_id w.active_requests_by_model + 1) w.active_requests_by_model;
  active_requests = insert r.request_id i w.active_requests;
}

-- The loop that makes the selected requests run; true where no transition raised.
unfoldable pub run_selected : Worker → ℕ → List ℕ → Worker × Bool
run_selected w now [] = (w, true)
run_selected w now (i ∷ is) = elim (transition (w.objects i) RequestState.running now) [
  | raise e ↦ (w, false)
  | ok r ↦ run_selected (enter w i r) now is
]

pub data Begun : Type 0 where
  nothing : Begun
  batch : ℕ → List ℕ → Begun
  refused : Begun

-- The batch counts as active.
abbrev pub launch : Worker → ℕ → ℕ → Worker
launch w m now = record w {
  model_last_used = insert m now w.model_last_used;
  active_batch_count = w.active_batch_count + 1;
}

-- The end of the locked part, from the first request on.
unfoldable pub begin_with : Worker → ℕ → ℕ → Scan → Worker × Begun
unfolding run_selected
begin_with w now first s =
    if s.failed
    then (record w { objects = s.objects; queue = s.queue }, refused)
    else let (w', done) =
        run_selected (record w { objects = s.objects; queue = s.deferred ++ s.queue }) now
          (first ∷ s.selected) in
      if done
      then (launch w' (s.objects first).model_id now, batch first (first ∷ s.selected))
      else (w', refused)

unfoldable pub begin_after : Worker → ℕ → List ℕ → Worker × Begun
unfolding begin_with choose
begin_after w now [] = (w, nothing)
begin_after w now (first ∷ q) =
    let r = w.objects first in
    begin_with w now first
      (choose w.max_batch_tokens r now (w.max_batch_size - 1) (estimated_tokens r) w.objects q)

-- `execute_batch` up to the call of the runtime.
unfoldable pub begin_batch : Worker → ℕ → Worker × Begun
unfolding skip_overdue begin_after
begin_batch w now =
    let s = skip_overdue w.objects now w.queue in
    let w' : Worker = record w { objects = s.objects; queue = s.queue } in
    if s.failed then (w', refused) else begin_after w' now s.queue

pub record RuntimeResult : Type 0 where
  pub text : List ℕ
  pub output_tokens : ℕ

-- Every object of the batch that is not terminal takes the transition; true where none raised.
unfoldable pub settle : RequestState → ℕ → (ℕ → RequestRecord) → List ℕ → (ℕ → RequestRecord) × Bool
settle target now objects [] = (objects, true)
settle target now objects (i ∷ is) = elim (terminal (objects i)) [
  | true ↦ settle target now objects is
  | false ↦ elim (transition (objects i) target now) [
    | raise e ↦ (objects, false)
    | ok r ↦ settle target now (put i r objects) is
  ]
]

-- One request less in the counters.
abbrev pub leave_one : Worker → ℕ → Worker
leave_one w i =
    let r = w.objects i in
    record w {
      active_requests_by_model =
          insert r.model_id (get r.model_id w.active_requests_by_model - 1)
            w.active_requests_by_model;
      active_requests = erase r.request_id w.active_requests;
    }

-- The loop of the `finally` clause.
unfoldable pub leave : Worker → List ℕ → Worker
leave w [] = w
leave w (i ∷ is) = leave (leave_one w i) is

abbrev pub is_completed : RequestState → Bool
is_completed RequestState.completed = true
is_completed _ = false

-- The requests that are completed, with their results.
unfoldable pub answers :
    (ℕ → RequestRecord) → List ℕ → List RuntimeResult → List (ℕ × RuntimeResult)
answers objects [] results = []
answers objects (i ∷ is) [] = []
answers objects (i ∷ is) (x ∷ xs) =
    let rest = answers objects is xs in
    if is_completed (objects i).status then ((objects i).request_id, x) ∷ rest else rest

-- The results that the batch goes on with: the runtime raised, or answered for another number of requests.
unfoldable pub outcome :
    Bool
    → List ℕ
    → Result WorkerError (List RuntimeResult)
    → Result WorkerError (List RuntimeResult)
outcome stream selected (raise e) = if stream then raise runtime_error else raise e
outcome stream selected (ok results) =
    if stream
    then raise runtime_error
    else if length results == length selected
    then ok results
    else raise runtime_error

-- The `except` and `finally` clauses, or the `finally` clause and what follows.
unfoldable pub finish_for :
    Worker
    → ℕ
    → List ℕ
    → Result WorkerError (List RuntimeResult)
    → Worker × Result WorkerError (List (ℕ × RuntimeResult))
unfolding settle leave answers
finish_for w now selected (raise e) =
    let (objects, done) = settle RequestState.failed now w.objects selected in
    (
      leave (record w { objects = objects; active_batch_count = w.active_batch_count - 1 })
          selected,
      raise (if done then e else invalid_transition),
    )
finish_for w now selected (ok results) =
    let w' = leave (record w { active_batch_count = w.active_batch_count - 1 }) selected in
    let (objects, done) = settle RequestState.completed now w'.objects selected in
    (
      record w' { objects = objects },
      if done then ok (answers objects selected results) else raise invalid_transition,
    )

-- `execute_batch` from the runtime's answer on. A batch of streaming requests does not call the runtime.
unfoldable pub finish_batch :
    Worker
    → ℕ
    → ℕ
    → List ℕ
    → Result WorkerError (List RuntimeResult)
    → Worker × Result WorkerError (List (ℕ × RuntimeResult))
unfolding outcome finish_for
finish_batch w now first selected generated =
    finish_for w now selected (outcome (w.objects first).stream selected generated)
