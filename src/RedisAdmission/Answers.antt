-- ===== src/RedisAdmission/Answers.antt =====
-- Histories of serving_platform/admission/redis_controller.py next to those of
-- serving_platform/admission/controller.py.
use gpu_aware_llm_serving_pl.Common.{
  ℕ, ◌≡◌, refl, sym, ap, ◌∙◌, subst, Bool, true, false, Option, none, some, List, leb,
  if◌then◌else◌, arith, Bool-cases, Option-cases, inl, inr, if_cases, Result, ok, raise,
}
use gpu_aware_llm_serving_pl.Common.Dict.{lookup, has, share}
use gpu_aware_llm_serving_pl.Domain.{RequestRecord, TenantLimits, ModelDefinition, WorkerState}
use gpu_aware_llm_serving_pl.Admission.{
  Controller, Reservation, Code, already_admitted, Decision, refuse, accept, get, unknown_tenant,
  AdmissionError,
}
use gpu_aware_llm_serving_pl.Admission
use gpu_aware_llm_serving_pl.Admission.Histories.{Inv}
use gpu_aware_llm_serving_pl.RedisAdmission.{
  now_running, script_start, already_running, concurrency_limit_reached, script_drop, encoded_in,
  status_of, marked, dropped, RedisController, RedisError, value_error, key_error, runtime_error,
  early_refusal, script_refusal, reserve_script, decide, decide_for, mark_running,
  mark_running_script, release, release_script,
}
use gpu_aware_llm_serving_pl.RedisAdmission.Commands.{Hash}
use gpu_aware_llm_serving_pl.RedisAdmission.Simulation.{
  stored, Simulates, limit_of, encode, started-HoldsState, drop_running-HoldsState,
  drop_waiting-HoldsState,
}
use gpu_aware_llm_serving_pl.RedisAdmission.Refinement.{same-Simulates, decide_for-Agree}

-- The exception of one class for that of the other.
abbrev pub outcome : Result AdmissionError Bool → Result RedisError Bool
outcome (ok b) = ok b
outcome (raise Admission.value_error) = raise value_error
outcome (raise Admission.key_error) = raise key_error
outcome (raise Admission.runtime_error) = raise runtime_error

abbrev repeated_code : Option Code → Decision
repeated_code (some code) = refuse code
repeated_code none = accept already_admitted

-- The answer to a request that has its reservation already.
abbrev repeated :
    RequestRecord → Option ModelDefinition → List WorkerState → ℕ → Option TenantLimits → Decision
repeated r model ws now none = refuse unknown_tenant
repeated r model ws now (some t) = repeated_code (early_refusal r model ws now)

abbrev pub expected :
    Controller → RequestRecord → Option ModelDefinition → List WorkerState → ℕ → Decision
expected c r model ws now =
    if has r.request_id c.reserved
    then repeated r model ws now (lookup r.tenant_id c.tenants)
    else (Admission.decide c r model ws now).1

module _ {S : Type 0} (h : Hash S) (s : S) (rc : RedisController) (c : Controller)
    (p : Simulates h s rc c) (i : Inv c) where
  -- A repeated decision changes nothing.
  repeated-decide_for :
      (r : RequestRecord) (model : Option ModelDefinition) (ws : List WorkerState) (now : ℕ)
      (v : Reservation) (o : Option TenantLimits)
      → lookup r.request_id c.reserved ≡ some v
      → decide_for h s c.global_queue_capacity r model ws now o ≡ (s, repeated r model ws now o)
  unfolding decide_for
  repeated-decide_for r model ws now v none e = refl
  repeated-decide_for r model ws now v (some t) e =
      elim (Option-cases (early_refusal r model ws now)) [
        | inl n ↦ rw (n, reserve_script, script_refusal, p.state.saved r.request_id, e) refl
        | inr (code, n) ↦ rw n refl
      ]

  same_decide :
      (r : RequestRecord) (model : Option ModelDefinition) (ws : List WorkerState) (now : ℕ)
      → decide h s rc r model ws now
        ≡ decide_for h s c.global_queue_capacity r model ws now (lookup r.tenant_id c.tenants)
  unfolding decide
  same_decide r model ws now =
      ap (λ n. decide_for h s n r model ws now (lookup r.tenant_id rc.tenants)) p.capacity
      ∙ ap (λ d. decide_for h s c.global_queue_capacity r model ws now (lookup r.tenant_id d))
          p.tenants

  pub decide-Agree :
      (r : RequestRecord) (model : Option ModelDefinition) (ws : List WorkerState) (now : ℕ)
      → ((decide h s rc r model ws now).1 ≡ expected c r model ws now)
        × Simulates h (decide h s rc r model ws now).0 rc (Admission.decide c r model ws now).0
  unfolding Admission.decide
  decide-Agree r model ws now = elim (Option-cases (lookup r.request_id c.reserved)) [
    | inl new ↦
        rw (same_decide r model ws now, new)
          (decide_for-Agree h s rc c p i r model ws now (lookup r.tenant_id c.tenants) new (λ t e.
            subst (λ k. lookup k c.tenants ≡ some t) (sym (i.ledger.keyed r.tenant_id t e)) e))
    | inr (v, e) ↦
        rw
          (
            same_decide r model ws now,
            repeated-decide_for r model ws now v (lookup r.tenant_id c.tenants) e,
            e,
          )
          (refl, p)
  ]

  same_release :
      (id : ℕ)
      → release h s id ≡ dropped h s id (encoded_in (stored c.tenants (lookup id c.reserved)))
  unfolding release release_script
  same_release id = ap (λ o. dropped h s id (encoded_in o)) (p.state.saved id)

  drop-Simulates :
      (id : ℕ) (v : Reservation)
      → lookup id c.reserved ≡ some v
      → Simulates h
          (script_drop h s id (encode c.tenants v))
          rc
          (if v.running then Admission.drop_running c id v else Admission.drop_waiting c id v)
  unfolding Admission.drop_running Admission.drop_waiting
  drop-Simulates id v e =
      if_cases (λ d. Simulates h (script_drop h s id (encode c.tenants v)) rc d) v.running
        (λ w.
          same-Simulates h s rc c p i (Admission.drop_running c id v) _ refl refl
            (drop_running-HoldsState h s c p.state id v e i.ledger i.bounded p.small w))
        (λ w.
          same-Simulates h s rc c p i (Admission.drop_waiting c id v) _ refl refl
            (drop_waiting-HoldsState h s c p.state id v e i.ledger i.bounded p.small w))

  pub release-Simulates : (id : ℕ) → Simulates h (release h s id) rc (Admission.release c id)
  unfolding Admission.release
  release-Simulates id = elim (Option-cases (lookup id c.reserved)) [
    | inl e ↦ rw (same_release id, Admission.release, e) p
    | inr (v, e) ↦ rw (same_release id, Admission.release, e) (drop-Simulates id v e)
  ]

  same_mark_running :
      (id : ℕ)
      → mark_running h s id ≡ (
        (marked h s id (encoded_in (stored c.tenants (lookup id c.reserved)))).0,
        status_of (marked h s id (encoded_in (stored c.tenants (lookup id c.reserved)))).1,
      )
  unfolding mark_running mark_running_script
  same_mark_running id =
      ap (λ o. let (s', status) = marked h s id (encoded_in o) in (s', status_of status))
        (p.state.saved id)

  -- A waiting reservation of a tenant that is configured.
  start-Agree :
      (id : ℕ) (v : Reservation) (t : TenantLimits)
      → lookup id c.reserved ≡ some v
      → v.running ≡ false
      → lookup v.tenant_id c.tenants ≡ some t
      → (status_of (marked h s id (some (encode c.tenants v))).1
          ≡ outcome (Admission.start c id v).1)
        × Simulates h (marked h s id (some (encode c.tenants v))).0 rc (Admission.start c id v).0
  unfolding Admission.start Admission.started
  start-Agree id v t e w known =
      let limit : limit_of c.tenants v.tenant_id ≡ t.max_concurrent_requests =
        ap (share (λ l. l.max_concurrent_requests)) known in
      elim (Bool-cases (leb t.max_concurrent_requests (get v.tenant_id c.running))) [
        | inl full ↦
            let there : marked h s id (some (encode c.tenants v)) ≡ (s, concurrency_limit_reached) =
              ground (arith, limit, full, w, (p.state.runs v.tenant_id).1) in
            let here : Admission.start c id v ≡ (c, raise Admission.runtime_error) =
              rw (Admission.start, known, full) refl in
            rw (there, here) (refl, p)
        | inr free ↦
            let there : marked h s id (some (encode c.tenants v))
                ≡ (script_start h s id (encode c.tenants v), now_running) =
              ground (arith, limit, free, w, (p.state.runs v.tenant_id).1) in
            let here : Admission.start c id v ≡ (Admission.started c id v, ok true) =
              rw (Admission.start, known, free) refl in
            rw (there, here)
              (
                refl,
                same-Simulates h s rc c p i (Admission.started c id v) _ refl refl (
                    started-HoldsState h s c p.state id v e i.ledger i.bounded p.small w
                      (ground (arith, free, (p.small.limits v.tenant_id t known).1))),
              )
      ]

  pub mark_running-Agree :
      (id : ℕ)
      → ((mark_running h s id).1 ≡ outcome (Admission.mark_running c id).1)
        × Simulates h (mark_running h s id).0 rc (Admission.mark_running c id).0
  unfolding Admission.mark_running
  mark_running-Agree id = elim (Option-cases (lookup id c.reserved)) [
    | inl e ↦ rw (same_mark_running id, Admission.mark_running, e) (refl, p)
    | inr (v, e) ↦ elim (Bool-cases v.running) [
      | inl w ↦
          let there : marked h s id (some (encode c.tenants v)) ≡ (s, already_running) =
            ground (arith, w) in
          let here : Admission.mark_running c id ≡ (c, ok true) = ground (arith, e, w) in
          rw (same_mark_running id, e, there, here) (refl, p)
      | inr w ↦
          let here : Admission.mark_running c id ≡ Admission.start c id v = ground (arith, e, w) in
          elim (Option-cases (lookup v.tenant_id c.tenants)) [
            | inl missing ↦ ground (arith, missing, i.ledger.configured id v e)
            | inr (t, known) ↦ rw (same_mark_running id, e, here) (start-Agree id v t e w known)
          ]
    ]
  ]
