-- ===== src/RedisAdmission/Histories.antt =====
-- Calls on serving_platform/admission/redis_controller.py and the same calls on
-- serving_platform/admission/controller.py, both from the start.
use gpu_aware_llm_serving_pl.Common.{
  ℕ, ◌<◌, ◌≡◌, All, ◌==◌, Bool-cases, inl, inr, refl, sym, ap, ◌∙◌, subst, true, Option, none, some,
  List, [], ◌∷◌, if◌then◌else◌, pos, arith, ok,
}
use gpu_aware_llm_serving_pl.Common.Dict.{Dict, lookup, has, total, lookup-insert}
use gpu_aware_llm_serving_pl.Domain.{RequestRecord, TenantLimits, ModelDefinition, WorkerState}
use gpu_aware_llm_serving_pl.Admission.{
  Controller, Reservation, Code, Decision, get, fresh_controller, index_tenants,
}
use gpu_aware_llm_serving_pl.Admission
use gpu_aware_llm_serving_pl.Admission.Histories.{
  Inv, Call, decides, marks_running, releases, step, run, step-Inv, run-Inv, init_controller-Inv,
}
use gpu_aware_llm_serving_pl.RedisAdmission.{
  reservation, number_in, global_queued, RedisController, decide, mark_running, release, snapshot,
  init_controller, configure_script,
}
use gpu_aware_llm_serving_pl.RedisAdmission.Commands.{
  is_number, is_field, exact_limit, Hash, Field, fingerprint, digest,
}
use gpu_aware_llm_serving_pl.RedisAdmission.Simulation.{Simulates, IsSmall}
use gpu_aware_llm_serving_pl.RedisAdmission.Answers.{
  outcome, expected, decide-Agree, mark_running-Agree, release-Simulates,
}

index_tenants-IsSmall :
    (ts : List TenantLimits) (d : Dict TenantLimits)
    → All IsSmall ts
    → ((k : ℕ) (t : TenantLimits) → lookup k d ≡ some t → IsSmall t)
    → (k : ℕ) (t : TenantLimits) → lookup k (index_tenants ts d) ≡ some t
    → IsSmall t
unfolding index_tenants
index_tenants-IsSmall [] d a h = h
index_tenants-IsSmall (u ∷ us) d (a, more) h = index_tenants-IsSmall us _ more (λ k t e.
    elim (Bool-cases (u.tenant_id == k)) [
      | inl q ↦
          let same : u ≡ t = ground (arith, q, e, lookup-insert u.tenant_id k u d) in
          subst IsSmall same a
      | inr q ↦ h k t (ground (arith, q, e, lookup-insert u.tenant_id k u d))
    ])

-- A request that is not reserved in memory.
decide-none :
    (c : Controller) (r : RequestRecord) (model : Option ModelDefinition) (ws : List WorkerState)
    (now : ℕ)
    → lookup r.request_id c.reserved ≡ none
    → expected c r model ws now ≡ (Admission.decide c r model ws now).1
decide-none c r model ws now new = rw new refl

module _ {S : Type 0} (h : Hash S) where
  unfoldable pub step_hash : RedisController → S → Call → S
  step_hash rc s (decides r model ws now) = (decide h s rc r model ws now).0
  step_hash rc s (marks_running i) = (mark_running h s i).0
  step_hash rc s (releases i) = release h s i

  unfoldable pub run_hash : RedisController → List Call → S → S
  unfolding step_hash
  run_hash rc [] s = s
  run_hash rc (k ∷ ks) s = run_hash rc ks (step_hash rc s k)

  step_hash-Simulates :
      (rc : RedisController) (s : S) (c : Controller) (k : Call)
      → Inv c
      → Simulates h s rc c
      → Simulates h (step_hash rc s k) rc (step k c)
  unfolding step_hash step
  step_hash-Simulates rc s c (decides r model ws now) i p =
      (decide-Agree h s rc c p i r model ws now).1
  step_hash-Simulates rc s c (marks_running id) i p = (mark_running-Agree h s rc c p i id).1
  step_hash-Simulates rc s c (releases id) i p = release-Simulates h s rc c p i id

  run_hash-Simulates :
      (rc : RedisController) (ks : List Call) (s : S) (c : Controller)
      → Inv c
      → Simulates h s rc c
      → Simulates h (run_hash rc ks s) rc (run ks c)
  unfolding run_hash run
  run_hash-Simulates rc [] s c i p = p
  run_hash-Simulates rc (k ∷ ks) s c i p =
      run_hash-Simulates rc ks _ _ (step-Inv k c i) (step_hash-Simulates rc s c k i p)

  abbrev pub IsEmpty : S → Type 0
  IsEmpty s = (f : Field) → h.hget s f ≡ none

  -- The first process to start stores the fingerprint.
  init_controller-ok :
      (s : S) (ts : List TenantLimits) (n print : ℕ) (c : Controller)
      → IsEmpty s
      → Admission.init_controller ts n ≡ ok c
      → init_controller h s ts n print ≡ (
        h.hset s fingerprint (digest print),
        ok (record { tenants = c.tenants; global_queue_capacity = c.global_queue_capacity }),
      )
  unfolding init_controller configure_script Admission.init_controller fresh_controller
  init_controller-ok s ts n print c new e = ground (arith, e, new fingerprint)

  fresh_controller-Simulates :
      (s : S) (ts : List TenantLimits) (n print : ℕ)
      → IsEmpty s
      → All IsSmall ts
      → n < exact_limit
      → Simulates h
          (h.hset s fingerprint (digest print))
          (record { tenants = (fresh_controller ts n).tenants; global_queue_capacity = n })
          (fresh_controller ts n)
  unfolding fresh_controller lookup total
  fresh_controller-Simulates s ts n print new small fits =
      let at : (f : Field)
          → h.hget (h.hset s fingerprint (digest print)) f
            ≡ (if is_field fingerprint f then some (digest print) else none) =
        λ f.
          h.hget-hset s fingerprint f (digest print) refl
          ∙ ap (λ o. if is_field fingerprint f then some (digest print) else o) (new f) in
      record {
        tenants = refl;
        capacity = refl;
        state = record {
          global = (ap is_number (at global_queued), ap number_in (at global_queued));
          queues = λ u. (ap is_number (at (Field.queued u)), ap number_in (at (Field.queued u)));
          runs = λ u. (ap is_number (at (Field.running u)), ap number_in (at (Field.running u)));
          quotas = λ u. (ap is_number (at (Field.tokens u)), ap number_in (at (Field.tokens u)));
          saved = λ i. at (reservation i);
        };
        small = record {
          limits = index_tenants-IsSmall ts [] small (λ k t e. cc);
          capacity = fits;
        };
      }

  init_controller-Simulates :
      (s : S) (ts : List TenantLimits) (n print : ℕ) (c : Controller)
      → IsEmpty s
      → All IsSmall ts
      → n < exact_limit
      → Admission.init_controller ts n ≡ ok c
      → Simulates h
          (h.hset s fingerprint (digest print))
          (record { tenants = c.tenants; global_queue_capacity = c.global_queue_capacity })
          c
  unfolding Admission.init_controller fresh_controller
  init_controller-Simulates s ts n print c new small fits e =
      let same : c ≡ fresh_controller ts n = ground (arith, e) in
      subst
        (λ d.
          Simulates h (h.hset s fingerprint (digest print))
            (record { tenants = d.tenants; global_queue_capacity = d.global_queue_capacity }) d)
        (sym same) (fresh_controller-Simulates s ts n print new small fits)

  snapshot_lem :
      (s : S) (rc : RedisController) (c : Controller) (t : ℕ)
      → Simulates h s rc c
      → has t c.tenants ≡ true
      → snapshot h s rc t ≡ ok (pos (get t c.queued), pos (get t c.running), pos (get t c.tokens))
  unfolding snapshot
  snapshot_lem s rc c t p known = ground (
    arith,
    ap (has t) p.tenants,
    known,
    (p.state.queues t).1,
    (p.state.runs t).1,
    (p.state.quotas t).1,
  )

  -- On a hash that is empty at first, with a capacity and limits below 10^14, the Redis controller starts where the
  -- controller in memory does. After the same calls on both, `decide` answers a request that holds no reservation
  -- the same on both, `mark_running` has the same outcome, and the counters of a configured tenant are the same.
  pub run_hash-run :
      (s : S) (ts : List TenantLimits) (n print : ℕ) (c : Controller) (ks : List Call)
      (r : RequestRecord) (model : Option ModelDefinition) (ws : List WorkerState) (now id t : ℕ)
      → IsEmpty s
      → All IsSmall ts
      → n < exact_limit
      → Admission.init_controller ts n ≡ ok c
      → lookup r.request_id (run ks c).reserved ≡ none
      → has t (run ks c).tenants ≡ true
      → let rc : RedisController = record {
        tenants = c.tenants;
        global_queue_capacity = c.global_queue_capacity;
      } in
        let s' = (init_controller h s ts n print).0 in
        let x = run_hash rc ks s' in
        let y = run ks c in
        ((init_controller h s ts n print).1 ≡ ok rc)
        × ((decide h x rc r model ws now).1 ≡ (Admission.decide y r model ws now).1)
        × ((mark_running h x id).1 ≡ outcome (Admission.mark_running y id).1)
        × (snapshot h x rc t
            ≡ ok (pos (get t y.queued), pos (get t y.running), pos (get t y.tokens)))
  run_hash-run s ts n print c ks r model ws now id t new small fits e fresh known =
      let rc : RedisController = record {
        tenants = c.tenants;
        global_queue_capacity = c.global_queue_capacity;
      } in
      let i : Inv c = init_controller-Inv ts n c e in
      let start : (init_controller h s ts n print) ≡ (h.hset s fingerprint (digest print), ok rc) =
        init_controller-ok s ts n print c new e in
      let p : Simulates h (run_hash rc ks (h.hset s fingerprint (digest print))) rc (run ks c) =
        run_hash-Simulates rc ks _ c i
          (init_controller-Simulates s ts n print c new small fits e) in
      rw start (
        refl,
        (decide-Agree h _ rc (run ks c) p (run-Inv ks c i) r model ws now).0
            ∙ decide-none (run ks c) r model ws now fresh,
        (mark_running-Agree h _ rc (run ks c) p (run-Inv ks c i) id).0,
        snapshot_lem _ rc (run ks c) t p known,
      )
