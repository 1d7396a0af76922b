-- ===== src/Admission/Histories.antt =====
-- Histories of serving_platform/admission/controller.py: what holds after any calls.
use gpu_aware_llm_serving_pl.Common.{
  sym, ◌∙◌, subst, ap, ℕ, ◌+◌, ◌-◌, ◌≡◌, refl, Bool, true, false, none, some, List, [], ◌∷◌, leb,
  Option, if_cases, Result, ok, arith, Bool-cases, Option-cases, inl, inr,
}
use gpu_aware_llm_serving_pl.Common.Dict.{Dict, lookup, insert, has, total, lookup-insert}
use gpu_aware_llm_serving_pl.Domain.{RequestRecord, TenantLimits, ModelDefinition, WorkerState}
use gpu_aware_llm_serving_pl.Admission.{
  estimated_tokens, fresh_controller, decide_for, Controller, AdmissionError, Decision, Reservation,
  get, index_tenants, init_controller, reserve, refusal, decide, start, mark_running, release,
  drop_running, drop_waiting, snapshot, accept, already_admitted,
}
use gpu_aware_llm_serving_pl.Admission.Ledger.{
  Ledger, Bounded, reserve-Ledger, reserve-Bounded, drop_running-Ledger, drop_running-Bounded,
  drop_waiting-Ledger, drop_waiting-Bounded, started-Ledger, started-Bounded,
}

pub record Inv (c : Controller) : Type 0 where
  pub ledger : Ledger c
  pub bounded : Bounded c

abbrev IsKeyed : Dict TenantLimits → Type 0
IsKeyed d = (k : ℕ) (t : TenantLimits) → lookup k d ≡ some t → t.tenant_id ≡ k

index_tenants-IsKeyed :
    (ts : List TenantLimits) (d : Dict TenantLimits) → IsKeyed d → IsKeyed (index_tenants ts d)
unfolding index_tenants
index_tenants-IsKeyed [] d h = h
index_tenants-IsKeyed (t ∷ ts) d h =
    index_tenants-IsKeyed ts _ (λ k u e. ground (arith, h k u, lookup-insert t.tenant_id k t d))

fresh_controller-Inv : (ts : List TenantLimits) (n : ℕ) → Inv (fresh_controller ts n)
unfolding fresh_controller lookup total
fresh_controller-Inv ts n = record {
  ledger = record {
    queued = λ t. refl;
    running = λ t. refl;
    tokens = λ t. refl;
    is_dict = tt;
    configured = λ i v e. cc;
    keyed = index_tenants-IsKeyed ts [] (λ k t e. cc);
  };
  bounded = record {
    queued = λ k t e. omega arith;
    running = λ k t e. omega arith;
    tokens = λ k t e. omega arith;
    global = omega arith;
  };
}

pub init_controller-Inv :
    (ts : List TenantLimits) (n : ℕ) (c : Controller) → init_controller ts n ≡ ok c → Inv c
unfolding init_controller
init_controller-Inv ts n c e =
    let same : c ≡ fresh_controller ts n = ground arith in
    subst Inv (sym same) (fresh_controller-Inv ts n)

decide-Inv :
    (c : Controller) (r : RequestRecord) (model : Option ModelDefinition)
    (workers : List WorkerState) (now : ℕ)
    → Inv c
    → Inv (decide c r model workers now).0
unfolding decide
decide-Inv c r model workers now h =
    if_cases (λ (s : Controller × Decision). Inv s.0) (has r.request_id c.reserved) (λ _. h)
      (λ new. go model (lookup r.tenant_id c.tenants) refl (ground arith))
  where
    go :
        (model : Option ModelDefinition) (o : Option TenantLimits)
        → lookup r.tenant_id c.tenants ≡ o
        → lookup r.request_id c.reserved ≡ none
        → Inv (decide_for c r model workers now o).0
    go model none e new = h
    go none (some t) e new = h
    go (some m) (some t) e new = elim (Option-cases (refusal c r t m workers now)) [
      | inr (code, q) ↦ rw (q, decide_for) h
      | inl q ↦
          let key = h.ledger.keyed r.tenant_id t e in
          rw (q, decide_for)
            (record {
              ledger = reserve-Ledger c r t h.ledger new (ground (arith, key));
              bounded =
                  reserve-Bounded c r t h.ledger new m workers now
                    (ap (λ k. lookup k c.tenants) key ∙ e) q h.bounded;
            })
    ]

abbrev Kept : Controller × Result AdmissionError Bool → Type 0
Kept r = Inv r.0

start-Inv :
    (c : Controller) (i : ℕ) (v : Reservation)
    → Inv c
    → lookup i c.reserved ≡ some v
    → v.running ≡ false
    → Inv (start c i v).0
unfolding start
start-Inv c i v h e waiting = elim (Option-cases (lookup v.tenant_id c.tenants)) [
  | inl q ↦ rw (q, start) h
  | inr (t, q) ↦
      rw (q, start)
        (if_cases Kept (leb t.max_concurrent_requests (get v.tenant_id c.running)) (λ _. h)
          (λ room. record {
            ledger = started-Ledger c i v h.ledger e waiting;
            bounded = started-Bounded c i v h.ledger e waiting t q (ground arith) h.bounded;
          }))
]

mark_running-Inv : (c : Controller) (i : ℕ) → Inv c → Inv (mark_running c i).0
unfolding mark_running
mark_running-Inv c i h = elim (Option-cases (lookup i c.reserved)) [
  | inl e ↦ rw (e, mark_running) h
  | inr (v, e) ↦
      rw (e, mark_running)
        (if_cases Kept v.running (λ _. h) (λ waiting. start-Inv c i v h e waiting))
]

release-Inv : (c : Controller) (i : ℕ) → Inv c → Inv (release c i)
unfolding release
release-Inv c i h = elim (Option-cases (lookup i c.reserved)) [
  | inl e ↦ rw (e, release) h
  | inr (v, e) ↦
      rw (e, release)
        (if_cases Inv v.running
          (λ q. record {
            ledger = drop_running-Ledger c i v h.ledger h.bounded e q;
            bounded = drop_running-Bounded c i v h.ledger h.bounded e;
          })
          (λ q. record {
            ledger = drop_waiting-Ledger c i v h.ledger h.bounded e q;
            bounded = drop_waiting-Bounded c i v h.ledger h.bounded e;
          }))
]

pub data Call : Type 0 where
  decides : RequestRecord → Option ModelDefinition → List WorkerState → ℕ → Call
  marks_running releases : ℕ → Call

unfoldable pub step : Call → Controller → Controller
step (decides r model workers now) c = (decide c r model workers now).0
step (marks_running i) c = (mark_running c i).0
step (releases i) c = release c i

unfoldable pub run : List Call → Controller → Controller
unfolding step
run [] c = c
run (k ∷ ks) c = run ks (step k c)

pub step-Inv : (k : Call) (c : Controller) → Inv c → Inv (step k c)
unfolding step
step-Inv (decides r model workers now) c h = decide-Inv c r model workers now h
step-Inv (marks_running i) c h = mark_running-Inv c i h
step-Inv (releases i) c h = release-Inv c i h

pub run-Inv : (ks : List Call) (c : Controller) → Inv c → Inv (run ks c)
unfolding run
run-Inv [] c h = h
run-Inv (k ∷ ks) c h = run-Inv ks (step k c) (step-Inv k c h)

-- After any history of calls on a new controller, refused and raising ones included, each tenant's
-- queued, running and token counters are what the outstanding reservations add up to, none is over
-- the tenant's limits, and the queued requests of all tenants are within the global capacity.
pub run-init_controller-Inv :
    (ts : List TenantLimits) (n : ℕ) (ks : List Call) (c : Controller)
    → init_controller ts n ≡ ok c
    → Inv (run ks c)
run-init_controller-Inv ts n ks c e = run-Inv ks c (init_controller-Inv ts n c e)

release-reserve :
    (c : Controller) (r : RequestRecord) (t : TenantLimits) (u : ℕ)
    → snapshot (release (reserve c r t) r.request_id) u ≡ snapshot c u
unfolding release reserve drop_waiting drop_running
release-reserve c r t u =
    let v : Reservation = record {
      tenant_id = t.tenant_id;
      tokens = estimated_tokens r;
      running = false;
    } in
    let q = get t.tenant_id c.queued in
    let k = get t.tenant_id c.tokens in
    let found : lookup r.request_id (insert r.request_id v c.reserved) ≡ some v =
      rw lookup-insert (ground arith) in
    rw (found, release)
      (ground (
        arith,
        lookup-insert t.tenant_id t.tenant_id (q + 1) c.queued,
        lookup-insert t.tenant_id u (q + 1) c.queued,
        lookup-insert t.tenant_id u (get t.tenant_id (insert t.tenant_id (q + 1) c.queued) - 1)
            (insert t.tenant_id (q + 1) c.queued),
        lookup-insert t.tenant_id t.tenant_id (k + estimated_tokens r) c.tokens,
        lookup-insert t.tenant_id u (k + estimated_tokens r) c.tokens,
        lookup-insert t.tenant_id u
            (get t.tenant_id (insert t.tenant_id (k + estimated_tokens r) c.tokens)
              - estimated_tokens r)
            (insert t.tenant_id (k + estimated_tokens r) c.tokens),
      ))

-- A request that was not reserved yet leaves no trace once it is released: whether `decide` admitted
-- or refused it, every tenant's queued, running and token counters are then as they were before.
pub release-decide :
    (c : Controller) (r : RequestRecord) (model : Option ModelDefinition)
    (workers : List WorkerState) (now u : ℕ)
    → lookup r.request_id c.reserved ≡ none
    → snapshot (release (decide c r model workers now).0 r.request_id) u ≡ snapshot c u
unfolding decide
release-decide c r model workers now u new =
    rw (new, decide) (go model (lookup r.tenant_id c.tenants))
  where
    same : snapshot (release c r.request_id) u ≡ snapshot c u
    same = unfold release in rw (new, release)

    go :
        (model : Option ModelDefinition) (o : Option TenantLimits)
        → snapshot (release (decide_for c r model workers now o).0 r.request_id) u ≡ snapshot c u
    go model none = same
    go none (some t) = same
    go (some m) (some t) = elim (Option-cases (refusal c r t m workers now)) [
      | inr (code, q) ↦ rw (q, decide_for) same
      | inl q ↦ rw (q, decide_for) (release-reserve c r t u)
    ]

decide-has :
    (c : Controller) (r : RequestRecord) (model : Option ModelDefinition)
    (workers : List WorkerState) (now : ℕ)
    → has r.request_id c.reserved ≡ true
    → decide c r model workers now ≡ (c, accept already_admitted)
unfolding decide
decide-has c r model workers now h = rw h

reserve-has :
    (c : Controller) (r : RequestRecord) (t : TenantLimits)
    → has r.request_id (reserve c r t).reserved ≡ true
unfolding reserve
reserve-has c r t = rw lookup-insert (ground arith)

decide_reserves :
    (c : Controller) (r : RequestRecord) (model : Option ModelDefinition)
    (workers : List WorkerState) (now : ℕ)
    → (decide c r model workers now).1.admitted ≡ true
    → has r.request_id (decide c r model workers now).0.reserved ≡ true
unfolding decide
decide_reserves c r model workers now = elim (Bool-cases (has r.request_id c.reserved)) [
  | inl old ↦ rw (old, decide) (λ _. old)
  | inr new ↦ rw (new, decide) (go model (lookup r.tenant_id c.tenants))
]
  where
    go :
        (model : Option ModelDefinition) (o : Option TenantLimits)
        → (decide_for c r model workers now o).1.admitted ≡ true
        → has r.request_id (decide_for c r model workers now o).0.reserved ≡ true
    go model none = λ e. cc
    go none (some t) = λ e. cc
    go (some m) (some t) = elim (Option-cases (refusal c r t m workers now)) [
      | inr (code, q) ↦ rw (q, decide_for) (λ e. cc)
      | inl q ↦ rw (q, decide_for) (λ _. reserve-has c r t)
    ]

-- Deciding a second time on a request that was admitted accepts it again and reserves nothing more.
pub decide_again :
    (c : Controller) (r : RequestRecord) (model : Option ModelDefinition)
    (workers : List WorkerState) (now later : ℕ) (model' : Option ModelDefinition)
    (workers' : List WorkerState)
    → (decide c r model workers now).1.admitted ≡ true
    → let c' = (decide c r model workers now).0 in
      decide c' r model' workers' later ≡ (c', accept already_admitted)
decide_again c r model workers now later model' workers' e =
    decide-has _ r model' workers' later (decide_reserves c r model workers now e)
