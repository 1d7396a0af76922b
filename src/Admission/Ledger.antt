-- ===== src/Admission/Ledger.antt =====
-- The counters of serving_platform/admission/controller.py are the sums over its reservations.
use gpu_aware_llm_serving_pl.Common.{
  ℕ, ◌+◌, ◌-◌, ◌≤◌, ◌<◌, ◌≡◌, true, false, none, some, List, ◌==◌, ltb, if◌then◌else◌, to_nat,
  arith, Bool-cases, inl, inr, not,
}
use gpu_aware_llm_serving_pl.Common.Dict.{
  Dict, lookup, has, total, IsDict, lookup-insert, lookup-erase, insert-IsDict, erase-IsDict,
  total-insert, total-erase, share-le-total,
}
use gpu_aware_llm_serving_pl.Domain.{
  RequestRecord, TenantLimits, ModelDefinition, WorkerState, estimated_tokens,
}
use gpu_aware_llm_serving_pl.Admission.{
  drop_waiting, drop_running, Controller, Reservation, get, reserve, refusal, started, leave_queue,
  drop_running, drop_waiting,
}

-- What a reservation adds to its tenant's counters.
abbrev pub waits : ℕ → Reservation → ℕ
waits t v = if v.tenant_id == t then to_nat (not v.running) else 0

abbrev pub runs : ℕ → Reservation → ℕ
runs t v = if v.tenant_id == t then to_nat v.running else 0

abbrev pub holds : ℕ → Reservation → ℕ
holds t v = if v.tenant_id == t then v.tokens else 0

-- Each counter is what the reservations add up to.
pub record Ledger (c : Controller) : Type 0 where
  pub queued : (t : ℕ) → get t c.queued ≡ total (waits t) c.reserved
  pub running : (t : ℕ) → get t c.running ≡ total (runs t) c.reserved
  pub tokens : (t : ℕ) → get t c.tokens ≡ total (holds t) c.reserved
  pub is_dict : IsDict c.reserved
  pub configured :
      (i : ℕ) (v : Reservation) → lookup i c.reserved ≡ some v → has v.tenant_id c.tenants ≡ true
  pub keyed : (k : ℕ) (t : TenantLimits) → lookup k c.tenants ≡ some t → t.tenant_id ≡ k

-- No counter of a tenant is over its limit, nor the global queue over its capacity.
pub record Bounded (c : Controller) : Type 0 where
  pub queued :
      (k : ℕ) (t : TenantLimits)
      → lookup k c.tenants ≡ some t
      → get k c.queued ≤ t.max_queued_requests
  pub running :
      (k : ℕ) (t : TenantLimits)
      → lookup k c.tenants ≡ some t
      → get k c.running ≤ t.max_concurrent_requests
  pub tokens :
      (k : ℕ) (t : TenantLimits) → lookup k c.tenants ≡ some t → get k c.tokens ≤ t.token_quota
  pub global : total (λ n. n) c.queued ≤ c.global_queue_capacity

module _ (c : Controller) (r : RequestRecord) (t : TenantLimits) (h : Ledger c)
    (new : lookup r.request_id c.reserved ≡ none) where
  pub reserve-Ledger : has t.tenant_id c.tenants ≡ true → Ledger (reserve c r t)
  unfolding reserve
  reserve-Ledger known = record {
    queued = λ u. ground (
      arith,
      h.queued u,
      new,
      lookup-insert t.tenant_id u (get t.tenant_id c.queued + 1) c.queued,
      total-insert (waits u) r.request_id
          (record { tenant_id = t.tenant_id; tokens = estimated_tokens r; running = false })
          c.reserved,
    );
    running = λ u. ground (
      arith,
      h.running u,
      new,
      total-insert (runs u) r.request_id
          (record { tenant_id = t.tenant_id; tokens = estimated_tokens r; running = false })
          c.reserved,
    );
    tokens = λ u. ground (
      arith,
      h.tokens u,
      new,
      lookup-insert t.tenant_id u (get t.tenant_id c.tokens + estimated_tokens r) c.tokens,
      total-insert (holds u) r.request_id
          (record { tenant_id = t.tenant_id; tokens = estimated_tokens r; running = false })
          c.reserved,
    );
    is_dict = insert-IsDict r.request_id _ c.reserved h.is_dict;
    configured = λ i v e. ground (
      arith,
      known,
      h.configured i v,
      lookup-insert r.request_id i
          (record { tenant_id = t.tenant_id; tokens = estimated_tokens r; running = false })
          c.reserved,
    );
    keyed = h.keyed;
  }

  pub reserve-Bounded :
      (m : ModelDefinition) (workers : List WorkerState) (now : ℕ)
      → lookup t.tenant_id c.tenants ≡ some t
      → refusal c r t m workers now ≡ none
      → Bounded c
      → Bounded (reserve c r t)
  unfolding reserve refusal
  reserve-Bounded m workers now found e b = record {
    queued = λ k u q.
        ground (
          arith,
          b.queued k u,
          lookup-insert t.tenant_id k (get t.tenant_id c.queued + 1) c.queued,
        );
    running = λ k u q. b.running k u q;
    tokens = λ k u q. ground (
      arith,
      b.tokens k u,
      lookup-insert t.tenant_id k (get t.tenant_id c.tokens + estimated_tokens r) c.tokens,
    );
    global = ground (
      arith,
      b.global,
      total-insert (λ (n : ℕ). n) t.tenant_id (get t.tenant_id c.queued + 1) c.queued,
    );
  }

module _ (c : Controller) (i : ℕ) (v : Reservation) (h : Ledger c) (b : Bounded c)
    (e : lookup i c.reserved ≡ some v) where
  pub drop_running-Ledger : v.running ≡ true → Ledger (drop_running c i v)
  unfolding drop_running
  drop_running-Ledger is = record {
    running = λ u. ground (
      arith,
      h.running u,
      h.running v.tenant_id,
      share-le-total (runs v.tenant_id) i c.reserved,
      e,
      lookup-insert v.tenant_id u (get v.tenant_id c.running - 1) c.running,
      total-erase (runs u) i c.reserved h.is_dict,
    );
    queued = λ u. ground (arith, h.queued u, e, total-erase (waits u) i c.reserved h.is_dict);
    tokens = λ u. ground (
      arith,
      h.tokens u,
      h.tokens v.tenant_id,
      share-le-total (holds v.tenant_id) i c.reserved,
      e,
      lookup-insert v.tenant_id u (get v.tenant_id c.tokens - v.tokens) c.tokens,
      total-erase (holds u) i c.reserved h.is_dict,
    );
    is_dict = erase-IsDict i c.reserved h.is_dict;
    configured = λ j w q. ground (arith, h.configured j w, lookup-erase i j c.reserved);
    keyed = h.keyed;
  }

  pub drop_waiting-Ledger : v.running ≡ false → Ledger (drop_waiting c i v)
  unfolding drop_waiting
  drop_waiting-Ledger is = record {
    queued = λ u. ground (
      arith,
      h.queued u,
      h.queued v.tenant_id,
      share-le-total (waits v.tenant_id) i c.reserved,
      e,
      lookup-insert v.tenant_id u (get v.tenant_id c.queued - 1) c.queued,
      total-erase (waits u) i c.reserved h.is_dict,
    );
    running = λ u. ground (arith, h.running u, e, total-erase (runs u) i c.reserved h.is_dict);
    tokens = λ u. ground (
      arith,
      h.tokens u,
      h.tokens v.tenant_id,
      share-le-total (holds v.tenant_id) i c.reserved,
      e,
      lookup-insert v.tenant_id u (get v.tenant_id c.tokens - v.tokens) c.tokens,
      total-erase (holds u) i c.reserved h.is_dict,
    );
    is_dict = erase-IsDict i c.reserved h.is_dict;
    configured = λ j w q. ground (arith, h.configured j w, lookup-erase i j c.reserved);
    keyed = h.keyed;
  }

  pub drop_running-Bounded : Bounded (drop_running c i v)
  unfolding drop_running
  drop_running-Bounded = record {
    queued = b.queued;
    running = λ k u q. ground (
      arith,
      b.running k u,
      lookup-insert v.tenant_id k (get v.tenant_id c.running - 1) c.running,
    );
    tokens = λ k u q. ground (
      arith,
      b.tokens k u,
      lookup-insert v.tenant_id k (get v.tenant_id c.tokens - v.tokens) c.tokens,
    );
    global = b.global;
  }

  pub drop_waiting-Bounded : Bounded (drop_waiting c i v)
  unfolding drop_waiting
  drop_waiting-Bounded = record {
    queued = λ k u q.
        ground (
          arith,
          b.queued k u,
          lookup-insert v.tenant_id k (get v.tenant_id c.queued - 1) c.queued,
        );
    running = b.running;
    tokens = λ k u q. ground (
      arith,
      b.tokens k u,
      lookup-insert v.tenant_id k (get v.tenant_id c.tokens - v.tokens) c.tokens,
    );
    global = ground (
      arith,
      b.global,
      total-insert (λ (n : ℕ). n) v.tenant_id (get v.tenant_id c.queued - 1) c.queued,
    );
  }

get-leave_queue : (t u : ℕ) (q : Dict ℕ) → get u (leave_queue t q) ≡ get u q - to_nat (t == u)
unfolding leave_queue
get-leave_queue t u q = ground (arith, lookup-insert t u (get t q - 1) q)

total-leave_queue : (t : ℕ) (q : Dict ℕ) → total (λ n. n) (leave_queue t q) ≤ total (λ n. n) q
unfolding leave_queue
total-leave_queue t q = elim (Bool-cases (ltb 0 (get t q))) [
  | inl e ↦ rw e (omega (arith, total-insert (λ (n : ℕ). n) t (get t q - 1) q))
  | inr e ↦ rw e (omega arith)
]

module _ (c : Controller) (i : ℕ) (v : Reservation) (h : Ledger c)
    (e : lookup i c.reserved ≡ some v) (waiting : v.running ≡ false) where
  pub started-Ledger : Ledger (started c i v)
  unfolding started
  started-Ledger = record {
    queued = λ u. ground (
      arith,
      waiting,
      h.queued u,
      e,
      get-leave_queue v.tenant_id u c.queued,
      total-insert (waits u) i (record v { running = true }) c.reserved,
    );
    running = λ u. ground (
      arith,
      waiting,
      h.running u,
      e,
      lookup-insert v.tenant_id u (get v.tenant_id c.running + 1) c.running,
      total-insert (runs u) i (record v { running = true }) c.reserved,
    );
    tokens = λ u.
        ground
          (arith, h.tokens u, e, total-insert (holds u) i (record v { running = true }) c.reserved);
    is_dict = insert-IsDict i _ c.reserved h.is_dict;
    configured = λ j w q. ground (
      arith,
      h.configured j w,
      h.configured i v,
      e,
      lookup-insert i j (record v { running = true }) c.reserved,
    );
    keyed = h.keyed;
  }

  pub started-Bounded :
      (t : TenantLimits)
      → lookup v.tenant_id c.tenants ≡ some t
      → get v.tenant_id c.running < t.max_concurrent_requests
      → Bounded c
      → Bounded (started c i v)
  unfolding started
  started-Bounded t found room b = record {
    queued = λ k u q. ground (arith, b.queued k u, get-leave_queue v.tenant_id k c.queued);
    running = λ k u q. ground (
      arith,
      b.running k u,
      lookup-insert v.tenant_id k (get v.tenant_id c.running + 1) c.running,
    );
    tokens = b.tokens;
    global = omega (arith, b.global, total-leave_queue v.tenant_id c.queued);
  }
