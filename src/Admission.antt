-- ===== src/Admission.antt =====
-- serving_platform/admission/controller.py: tenant and global reservations. A lock makes each method one
-- step; the clock's reading is an argument. Reasons are left out, they repeat the codes in prose.
pub mod Ledger
pub mod Histories
mod Tests
use gpu_aware_llm_serving_pl.Common.{
  ℕ, ◌+◌, ◌-◌, ◌≡◌, Bool, true, false, not, ◌&&◌, ◌||◌, Option, none, some, List, [], ◌∷◌, ltb, leb,
  ◌==◌, if◌then◌else◌, length, keep, distinct, map, Result, ok, raise,
}
use gpu_aware_llm_serving_pl.Common.Dict.{Dict, lookup, insert, erase, has, share, total}
use gpu_aware_llm_serving_pl.Domain.{
  RequestRecord, ModelDefinition, WorkerState, TenantLimits, HealthStatus, healthy,
  estimated_tokens,
}

pub data AdmissionError : Type 0 where
  value_error key_error runtime_error : AdmissionError

pub data Code : Type 0 where
  already_admitted unknown_tenant unsupported_model context_window_exceeded deadline_exceeded : Code
  no_healthy_capacity global_queue_full tenant_queue_full tenant_concurrency_limit : Code
  tenant_token_quota admitted : Code

pub record Decision : Type 0 where
  pub admitted : Bool
  pub code : Code

abbrev pub accept : Code → Decision
accept c = record { admitted = true; code = c }

abbrev pub refuse : Code → Decision
refuse c = record { admitted = false; code = c }

-- The tuple (tenant_id, tokens, running).
pub record Reservation : Type 0 where
  pub tenant_id : ℕ
  pub tokens : ℕ
  pub running : Bool

pub record Controller : Type 0 where
  pub tenants : Dict TenantLimits
  pub global_queue_capacity : ℕ
  pub queued : Dict ℕ
  pub running : Dict ℕ
  pub tokens : Dict ℕ
  pub reserved : Dict Reservation

-- `counter[key]`, which is 0 for a key that is not there.
abbrev pub get : ℕ → Dict ℕ → ℕ
get k c = share (λ n. n) (lookup k c)

-- {tenant.tenant_id: tenant for tenant in tenants}
unfoldable pub index_tenants : List TenantLimits → Dict TenantLimits → Dict TenantLimits
index_tenants [] d = d
index_tenants (t ∷ ts) d = index_tenants ts (insert t.tenant_id t d)

unfoldable pub fresh_controller : List TenantLimits → ℕ → Controller
unfolding index_tenants
fresh_controller tenants capacity = record {
  tenants = index_tenants tenants [];
  global_queue_capacity = capacity;
  queued = [];
  running = [];
  tokens = [];
  reserved = [];
}

unfoldable pub init_controller : List TenantLimits → ℕ → Result AdmissionError Controller
unfolding fresh_controller
init_controller tenants capacity =
    if capacity == 0
    then raise value_error
    else if not (distinct (map (λ t. t.tenant_id) tenants))
    then raise value_error
    else ok (fresh_controller tenants capacity)

-- worker.health_status == HealthStatus.HEALTHY
abbrev pub is_healthy_status : HealthStatus → Bool
is_healthy_status healthy = true
is_healthy_status _ = false

unfoldable pub is_healthy : WorkerState → Bool
is_healthy w = is_healthy_status w.health_status && not w.draining

unfoldable pub reserve : Controller → RequestRecord → TenantLimits → Controller
reserve c r t = record c {
  queued = insert t.tenant_id (get t.tenant_id c.queued + 1) c.queued;
  tokens = insert t.tenant_id (get t.tenant_id c.tokens + estimated_tokens r) c.tokens;
  reserved =
      insert r.request_id
        (record { tenant_id = t.tenant_id; tokens = estimated_tokens r; running = false })
        c.reserved;
}

-- The tests of `decide` from the model on, in the source's order.
unfoldable pub refusal :
    Controller → RequestRecord → TenantLimits → ModelDefinition → List WorkerState → ℕ → Option Code
refusal c r t m workers now =
    if ltb m.max_context_tokens (estimated_tokens r)
    then some context_window_exceeded
    else if leb r.deadline now
    then some deadline_exceeded
    else if length (keep is_healthy workers) == 0
    then some no_healthy_capacity
    else if leb c.global_queue_capacity (total (λ n. n) c.queued)
    then some global_queue_full
    else if leb t.max_queued_requests (get t.tenant_id c.queued)
    then some tenant_queue_full
    else if leb t.max_concurrent_requests (get t.tenant_id c.running)
    then some tenant_concurrency_limit
    else if ltb t.token_quota (get t.tenant_id c.tokens + estimated_tokens r)
    then some tenant_token_quota
    else none

-- `decide` for a new request, given what `self.tenants.get` returns.
unfoldable pub decide_for :
    Controller
    → RequestRecord
    → Option ModelDefinition
    → List WorkerState
    → ℕ
    → Option TenantLimits
    → Controller × Decision
decide_for c r model workers now none = (c, refuse unknown_tenant)
decide_for c r none workers now (some t) = (c, refuse unsupported_model)
decide_for c r (some m) workers now (some t) = elim (refusal c r t m workers now) [
  | some code ↦ (c, refuse code)
  | none ↦ (reserve c r t, accept Code.admitted)
]

unfoldable pub decide :
    Controller
    → RequestRecord
    → Option ModelDefinition
    → List WorkerState
    → ℕ
    → Controller × Decision
unfolding decide_for
decide c r model workers now =
    if has r.request_id c.reserved
    then (c, accept already_admitted)
    else decide_for c r model workers now (lookup r.tenant_id c.tenants)

-- if self._queued[tenant_id] > 0: self._queued[tenant_id] -= 1
unfoldable pub leave_queue : ℕ → Dict ℕ → Dict ℕ
leave_queue t queued = if ltb 0 (get t queued) then insert t (get t queued - 1) queued else queued

-- The counters and the reservation of a request that starts to run.
unfoldable pub started : Controller → ℕ → Reservation → Controller
started c request_id v = record c {
  queued = leave_queue v.tenant_id c.queued;
  running = insert v.tenant_id (get v.tenant_id c.running + 1) c.running;
  reserved = insert request_id (record v { running = true }) c.reserved;
}

-- What `mark_running` does for a reservation that still waits.
unfoldable pub start : Controller → ℕ → Reservation → Controller × Result AdmissionError Bool
start c request_id v = elim (lookup v.tenant_id c.tenants) [
  | none ↦ (c, raise key_error)
  | some t ↦
      if leb t.max_concurrent_requests (get v.tenant_id c.running)
      then (c, raise runtime_error)
      else (started c request_id v, ok true)
]

unfoldable pub mark_running : Controller → ℕ → Controller × Result AdmissionError Bool
unfolding start
mark_running c request_id = elim (lookup request_id c.reserved) [
  | none ↦ (c, raise key_error)
  | some v ↦ if v.running then (c, ok true) else start c request_id v
]

-- What `release` does once the reservation is popped: to the counter of its state and to the tokens.
unfoldable pub drop_running : Controller → ℕ → Reservation → Controller
drop_running c request_id v = record c {
  reserved = erase request_id c.reserved;
  running = insert v.tenant_id (get v.tenant_id c.running - 1) c.running;
  tokens = insert v.tenant_id (get v.tenant_id c.tokens - v.tokens) c.tokens;
}

unfoldable pub drop_waiting : Controller → ℕ → Reservation → Controller
drop_waiting c request_id v = record c {
  reserved = erase request_id c.reserved;
  queued = insert v.tenant_id (get v.tenant_id c.queued - 1) c.queued;
  tokens = insert v.tenant_id (get v.tenant_id c.tokens - v.tokens) c.tokens;
}

unfoldable pub release : Controller → ℕ → Controller
release c request_id = elim (lookup request_id c.reserved) [
  | none ↦ c
  | some v ↦ if v.running then drop_running c request_id v else drop_waiting c request_id v
]

-- (queued, running, reserved tokens) of a tenant.
abbrev pub snapshot : Controller → ℕ → ℕ × ℕ × ℕ
snapshot c t = (get t c.queued, get t c.running, get t c.tokens)
