-- ===== src/RedisAdmission/Refinement.antt =====
-- The controller of serving_platform/admission/redis_controller.py answers as the one of
-- serving_platform/admission/controller.py does.
use gpu_aware_llm_serving_pl.Common.{
  ℕ, ◌<◌, ◌≡◌, refl, sym, subst, ap, ◌∙◌, Bool, not, Option, none, some, List, [], ◌∷◌, ◌==◌, arith,
  Option-cases, inl, inr, keep, any, length,
}
use gpu_aware_llm_serving_pl.Common.Dict.{lookup}
use gpu_aware_llm_serving_pl.Domain.{
  RequestRecord, TenantLimits, ModelDefinition, WorkerState, estimated_tokens,
}
use gpu_aware_llm_serving_pl.Admission.{
  Controller, Reservation, Code, Decision, refuse, accept, get, refusal, is_healthy,
  unsupported_model, unknown_tenant,
}
use gpu_aware_llm_serving_pl.Admission
use gpu_aware_llm_serving_pl.Admission.Histories.{Inv}
use gpu_aware_llm_serving_pl.RedisAdmission.{
  RedisController, early_refusal, script_refusal, reserve_script, decision_of, decide_for, scripted,
}
use gpu_aware_llm_serving_pl.RedisAdmission.Commands.{Hash, plus, exact_limit}
use gpu_aware_llm_serving_pl.RedisAdmission.Simulation.{
  Simulates, HoldsState, Room, reserve-HoldsState,
}

abbrev or_code : Option Code → Option Code → Option Code
or_code none x = x
or_code (some c) x = some c

any-keep :
    (p : WorkerState → Bool) (ws : List WorkerState) → not (any p ws) ≡ (length (keep p ws) == 0)
any-keep p [] = refl
any-keep p (w ∷ ws) = ground (arith, any-keep p ws)

module _ {S : Type 0} (h : Hash S) (s : S) (c : Controller) (p : HoldsState h s c) where
  -- The tests of the script are those of the controller in memory, for a request without a reservation.
  refusal-script_refusal :
      (r : RequestRecord) (t : TenantLimits) (m : ModelDefinition) (ws : List WorkerState) (now : ℕ)
      → lookup r.request_id c.reserved ≡ none
      → refusal c r t m ws now
        ≡ or_code
            (early_refusal r (some m) ws now)
            (script_refusal h s r.request_id (estimated_tokens r) c.global_queue_capacity t)
  unfolding refusal early_refusal script_refusal plus
  refusal-script_refusal r t m ws now new = ground (
    arith,
    any-keep is_healthy ws,
    p.global.1,
    (p.queues t.tenant_id).1,
    (p.runs t.tenant_id).1,
    (p.quotas t.tenant_id).1,
    p.saved r.request_id,
    new,
  )

  -- Where the script refuses a new request, the decision is a refusal with its code.
  decision_of-refuse :
      (id used n : ℕ) (t : TenantLimits) (code : Code)
      → lookup id c.reserved ≡ none
      → script_refusal h s id used n t ≡ some code
      → decision_of code ≡ refuse code
  unfolding script_refusal
  decision_of-refuse id used n t code new e = ground (arith, p.saved id, new, e)

-- Answers that agree, and states that still do.
abbrev pub Agree :
    {S : Type 0} → Hash S → RedisController → S × Decision → Controller × Decision → Type 0
Agree h rc x y = (x.1 ≡ y.1) × Simulates h x.0 rc y.0

module _ {S : Type 0} (h : Hash S) (s : S) (rc : RedisController) (c : Controller)
    (p : Simulates h s rc c) (i : Inv c) where
  pub same-Simulates :
      (c' : Controller) (s' : S)
      → c'.tenants ≡ c.tenants
      → c'.global_queue_capacity ≡ c.global_queue_capacity
      → HoldsState h s' c'
      → Simulates h s' rc c'
  same-Simulates c' s' t g q = record {
    tenants = p.tenants ∙ sym t;
    capacity = p.capacity ∙ sym g;
    state = q;
    small = record {
      limits = λ k u e. p.small.limits k u (subst (λ d. lookup k d ≡ some u) t e);
      capacity = subst (λ n. n < exact_limit) (sym g) p.small.capacity;
    };
  }

  -- An accepted request leaves room, since the limits are exact.
  refusal-Room :
      (r : RequestRecord) (m : ModelDefinition) (ws : List WorkerState) (now : ℕ) (t : TenantLimits)
      → lookup t.tenant_id c.tenants ≡ some t
      → refusal c r t m ws now ≡ none
      → Room c r t
  unfolding refusal
  refusal-Room r m ws now t known e =
      let (queued, concurrent, quota) = p.small.limits t.tenant_id t known in
      record {
        global = ground (arith, p.small.capacity);
        queued = ground (arith, queued);
        tokens = ground (arith, quota);
        limit = concurrent;
      }

  -- The script's part of a decision.
  script-Agree :
      (r : RequestRecord) (m : ModelDefinition) (ws : List WorkerState) (now : ℕ) (t : TenantLimits)
      → lookup r.request_id c.reserved ≡ none
      → lookup t.tenant_id c.tenants ≡ some t
      → early_refusal r (some m) ws now ≡ none
      → Agree h rc
          (scripted h
            (reserve_script h s r.request_id (estimated_tokens r) c.global_queue_capacity t))
          (Admission.decide_for c r (some m) ws now (some t))
  unfolding reserve_script Admission.decide_for Admission.reserve
  script-Agree r m ws now t new known early =
      let x = script_refusal h s r.request_id (estimated_tokens r) c.global_queue_capacity t in
      let same : refusal c r t m ws now ≡ x =
        refusal-script_refusal h s c p.state r t m ws now new ∙ ap (λ o. or_code o x) early in
      elim (Option-cases x) [
        | inl e ↦
            rw (e, reserve_script, same ∙ e, Admission.decide_for)
              (
                refl,
                same-Simulates (Admission.reserve c r t) _ refl refl (
                    reserve-HoldsState h s c p.state r t known
                      (refusal-Room r m ws now t known (same ∙ e))),
              )
        | inr (code, e) ↦
            rw (e, reserve_script, same ∙ e, Admission.decide_for)
              (
                decision_of-refuse h s c p.state r.request_id (estimated_tokens r)
                    c.global_queue_capacity t code new e,
                p,
              )
      ]

  pub decide_for-Agree :
      (r : RequestRecord) (model : Option ModelDefinition) (ws : List WorkerState) (now : ℕ)
      (o : Option TenantLimits)
      → lookup r.request_id c.reserved ≡ none
      → ((t : TenantLimits) → o ≡ some t → lookup t.tenant_id c.tenants ≡ some t)
      → Agree h rc
          (decide_for h s c.global_queue_capacity r model ws now o)
          (Admission.decide_for c r model ws now o)
  unfolding decide_for Admission.decide_for early_refusal
  decide_for-Agree r model ws now none new known = (refl, p)
  decide_for-Agree r none ws now (some t) new known = (refl, p)
  decide_for-Agree r (some m) ws now (some t) new known =
      elim (Option-cases (early_refusal r (some m) ws now)) [
        | inl e ↦ rw e (script-Agree r m ws now t new (known t refl) e)
        | inr (code, e) ↦
            let same : refusal c r t m ws now ≡ some code =
              refusal-script_refusal h s c p.state r t m ws now new
              ∙ ap
                  (λ o. or_code o (
                    script_refusal h s r.request_id (estimated_tokens r) c.global_queue_capacity t))
                  e in
            rw (e, same, Admission.decide_for) (refl, p)
      ]
