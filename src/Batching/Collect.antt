-- ===== src/Batching/Collect.antt =====
-- `collect_batch` of scheduler/dynamic_batch.py.
-- The deliveries of the queue are an argument, each with the clock before and after it; what the collection does
-- to the queue (items taken, tasks marked done, items put back) stands in its result.
use gpu_aware_llm_serving_pl.Common.{
  ℕ, zero, suc, ◌+◌, ◌-◌, Bool, true, false, ◌&&◌, Option, none, some, List, [], ◌∷◌, ◌++◌, ltb,
  leb, ◌==◌, if◌then◌else◌, length, map, to_nat,
}
use gpu_aware_llm_serving_pl.Batching.{
  InferenceRequest, timeout, no_message, timed_out, is_cancelled, finish,
}

pub record Settings : Type 0 where
  pub request_timeout_seconds : ℕ
  pub max_total_batch_tokens : ℕ
  pub max_batch_size : ℕ
  pub max_wait : ℕ

pub record Collection : Type 0 where
  pub requests : List InferenceRequest
  pub total_estimated_tokens : ℕ
  pub queued_items : ℕ
  pub deferred : List InferenceRequest
  pub finished : List InferenceRequest
  pub taken : List (Option InferenceRequest)
  pub put_back : List (Option InferenceRequest)
  pub tasks_done : ℕ

unfoldable pub is_compatible : InferenceRequest → InferenceRequest → Bool
is_compatible candidate first =
    (candidate.max_new_tokens == first.max_new_tokens)
    && (candidate.temperature == first.temperature)

abbrev pub cost : InferenceRequest → ℕ
cost r = r.estimated_tokens + r.max_new_tokens

-- Whether a deque for deferred requests is given.
pub data Mode : Type 0 where
  deferring direct : Mode

abbrev pub dropped : Bool → InferenceRequest → Collection → Collection
dropped from_queue r c = record c {
  finished = c.finished ++ r ∷ [];
  tasks_done = c.tasks_done + to_nat from_queue;
}

-- A request that does not join is deferred, or put back, which ends the collection. A bounded queue that others filled
-- meanwhile, on which `put_nowait` raises, is left out.
abbrev pub postponed : Mode → Bool → InferenceRequest → Collection → Collection × Bool
postponed deferring from_queue r c = (
  record c { deferred = c.deferred ++ r ∷ []; tasks_done = c.tasks_done + to_nat from_queue },
  false,
)
postponed direct from_queue r c = (
  record c { put_back = c.put_back ++ some r ∷ []; tasks_done = c.tasks_done + to_nat from_queue },
  true,
)

abbrev pub joined : Bool → InferenceRequest → Collection → Collection
joined from_queue r c = record c {
  requests = c.requests ++ r ∷ [];
  total_estimated_tokens = c.total_estimated_tokens + cost r;
  queued_items = c.queued_items + to_nat from_queue;
}

-- `consider`, with whether the collection stops.
unfoldable pub consider :
    Settings
    → Mode
    → InferenceRequest
    → ℕ
    → Bool
    → InferenceRequest
    → Collection
    → Collection × Bool
unfolding timed_out finish is_compatible
consider s mode first now from_queue r c =
    if timed_out s.request_timeout_seconds now r
    then (dropped from_queue (finish timeout no_message now r) c, false)
    else if is_cancelled r.status
    then (dropped from_queue r c, false)
    else if is_compatible r first
        && leb (c.total_estimated_tokens + cost r) s.max_total_batch_tokens
    then (joined from_queue r c, false)
    else postponed mode from_queue r c

unfoldable pub has_space : Settings → Collection → Bool
has_space s c = ltb (length c.requests) s.max_batch_size

-- The first loop: the number counts the deferred requests still to scan.
unfoldable pub scan : Settings → Mode → InferenceRequest → (ℕ → ℕ) → ℕ → Collection → Collection
unfolding consider has_space
scan s mode first now zero c = c
scan s mode first now (suc n) c = elim (has_space s c) [
  | false ↦ c
  | true ↦ elim c.deferred [
    | [] ↦ c
    | r ∷ rs ↦
        scan s mode first now n
          (consider s mode first (now n) false r (record c { deferred = rs })).0
  ]
]

-- One turn of the second loop: the clock, what the queue delivers (nothing before the time is up; the
-- sentinel; a request), and the clock after it.
pub record Wait : Type 0 where
  pub clock : ℕ
  pub delivery : Option (Option InferenceRequest)
  pub after : ℕ

unfoldable pub gather : Settings → Mode → InferenceRequest → ℕ → List Wait → Collection → Collection
unfolding consider has_space
gather s mode first deadline [] c = c
gather s mode first deadline (w ∷ ws) c = elim (has_space s c && ltb w.clock deadline) [
  | false ↦ c
  | true ↦ elim w.delivery [
    | none ↦ c
    | some none ↦ record c {
      taken = none ∷ c.taken;
      tasks_done = c.tasks_done + 1;
      put_back = c.put_back ++ none ∷ [];
    }
    | some (some r) ↦
        let (next, stop) =
          consider s mode first w.after true r (record c { taken = some r ∷ c.taken }) in
        let rest = gather s mode first deadline ws next in if stop then next else rest
  ]
]

abbrev pub start : InferenceRequest → List InferenceRequest → Collection
start first deferred = record {
  requests = first ∷ [];
  total_estimated_tokens = cost first;
  queued_items = 0;
  deferred = deferred;
  finished = [];
  taken = [];
  put_back = [];
  tasks_done = 0;
}

abbrev pub given : Mode → List InferenceRequest → List InferenceRequest
given deferring deferred = deferred
given direct deferred = []

-- `now` gives the clock for each deferred request, by how many are left.
unfoldable pub collect_batch :
    Settings
    → Mode
    → InferenceRequest
    → List InferenceRequest
    → ℕ
    → (ℕ → ℕ)
    → List Wait
    → ℕ
    → Collection
unfolding scan gather
collect_batch s mode first deferred started now waits ended =
    let c =
      gather s mode first (started + s.max_wait) waits (
        scan s mode first now (length (given mode deferred)) (start first (given mode deferred))) in
    record c {
      requests =
          map {A = InferenceRequest} {B = InferenceRequest}
            (λ r. record r { batch_collection_ms = ended - started }) c.requests;
    }
