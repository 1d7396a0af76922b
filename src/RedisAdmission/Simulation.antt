-- ===== src/RedisAdmission/Simulation.antt =====
-- The hash of serving_platform/admission/redis_controller.py against the state of
-- serving_platform/admission/controller.py.
use gpu_aware_llm_serving_pl.Common.{
  ℕ, ◌+◌, ◌-◌, ◌≤◌, ◌<◌, ◌≡◌, refl, sym, ap, ◌∙◌, true, false, Option, none, some, ◌==◌,
  if◌then◌else◌, arith, if_cases, Option-cases, inl, inr,
}
use gpu_aware_llm_serving_pl.Common.Dict.{
  Dict, lookup, insert, erase, total, share, lookup-insert, lookup-erase, total-insert,
  share-le-total,
}
use gpu_aware_llm_serving_pl.Domain.{RequestRecord, TenantLimits, estimated_tokens}
use gpu_aware_llm_serving_pl.Admission.{
  Controller, Reservation, get, reserve, started, leave_queue, drop_running, drop_waiting,
}
use gpu_aware_llm_serving_pl.Admission.Ledger.{Ledger, Bounded, waits, runs, holds}
use gpu_aware_llm_serving_pl.RedisAdmission.{
  RedisController, script_reserve, script_start, script_drop,
}
use gpu_aware_llm_serving_pl.RedisAdmission.Commands.{Value, encoded, Encoded, Hash, exact_limit}
use gpu_aware_llm_serving_pl.RedisAdmission.Counters.{
  Holds, same-Holds, add_global, add_queued, add_running, add_tokens, sub_global, sub_queued,
  sub_running, sub_tokens, set_reservation, del_reservation,
}

-- The concurrency limit that a script stores with a reservation.
abbrev pub limit_of : Dict TenantLimits → ℕ → ℕ
limit_of tenants t = share (λ l. l.max_concurrent_requests) (lookup t tenants)

abbrev pub encode : Dict TenantLimits → Reservation → Encoded
encode tenants v = record {
  tenant = v.tenant_id;
  tokens = v.tokens;
  running = v.running;
  concurrency_limit = limit_of tenants v.tenant_id;
}

abbrev pub stored : Dict TenantLimits → Option Reservation → Option Value
stored tenants none = none
stored tenants (some v) = some (encoded (encode tenants v))

-- The hash holds the counters and the reservations of the controller in memory.
abbrev pub HoldsState : {S : Type 0} → Hash S → S → Controller → Type 0
HoldsState h s c =
    Holds h s (total (λ n. n) c.queued) (λ u. get u c.queued) (λ u. get u c.running)
      (λ u. get u c.tokens) (λ i. stored c.tenants (lookup i c.reserved))

-- The numbers of the configuration are exact in Redis and Lua.
abbrev pub IsSmall : TenantLimits → Type 0
IsSmall t =
    (t.max_queued_requests < exact_limit)
    × (t.max_concurrent_requests < exact_limit)
    × (t.token_quota < exact_limit)

pub record AreSmall (c : Controller) : Type 0 where
  pub limits : (k : ℕ) (t : TenantLimits) → lookup k c.tenants ≡ some t → IsSmall t
  pub capacity : c.global_queue_capacity < exact_limit

-- What a reservation needs, which is what the tests of the script leave.
pub record Room (c : Controller) (r : RequestRecord) (t : TenantLimits) : Type 0 where
  pub global : total (λ n. n) c.queued + 1 < exact_limit
  pub queued : get t.tenant_id c.queued + 1 < exact_limit
  pub tokens : get t.tenant_id c.tokens + estimated_tokens r < exact_limit
  pub limit : t.max_concurrent_requests < exact_limit

pub record Simulates {S : Type 0} (h : Hash S) (s : S) (rc : RedisController) (c : Controller)
    : Type 0 where
  pub tenants : rc.tenants ≡ c.tenants
  pub capacity : rc.global_queue_capacity ≡ c.global_queue_capacity
  pub state : HoldsState h s c
  pub small : AreSmall c

-- A counter of one tenant changed, as a function of the tenant.
get-insert : (a n u : ℕ) (d : Dict ℕ) → (if a == u then n else get u d) ≡ get u (insert a n d)
get-insert a n u d = ground (arith, lookup-insert a u n d)

saved-insert :
    (tenants : Dict TenantLimits) (i j : ℕ) (v : Reservation) (d : Dict Reservation)
    → (if i == j then some (encoded (encode tenants v)) else stored tenants (lookup j d))
      ≡ stored tenants (lookup j (insert i v d))
saved-insert tenants i j v d = rw (lookup-insert i j v d) (
    if_cases
      (λ o.
        (if i == j then some (encoded (encode tenants v)) else stored tenants (lookup j d))
        ≡ stored tenants o)
      (i == j) (λ e. rw e refl) (λ e. rw e refl))

saved-erase :
    (tenants : Dict TenantLimits) (i j : ℕ) (d : Dict Reservation)
    → (if i == j then none else stored tenants (lookup j d)) ≡ stored tenants (lookup j (erase i d))
saved-erase tenants i j d = rw (lookup-erase i j d) (
    if_cases (λ o. (if i == j then none else stored tenants (lookup j d)) ≡ stored tenants o)
      (i == j) (λ e. rw e refl) (λ e. rw e refl))

module _ {S : Type 0} (h : Hash S) (s : S) (c : Controller) (p : HoldsState h s c) where
  pub reserve-HoldsState :
      (r : RequestRecord) (t : TenantLimits)
      → lookup t.tenant_id c.tenants ≡ some t
      → Room c r t
      → HoldsState h (script_reserve h s r.request_id (estimated_tokens r) t) (reserve c r t)
  unfolding script_reserve reserve
  reserve-HoldsState r t known room =
      let a = t.tenant_id in
      let v : Reservation = record {
        tenant_id = a;
        tokens = estimated_tokens r;
        running = false;
      } in
      let limit : t.max_concurrent_requests ≡ limit_of c.tenants a =
        sym (ap (share (λ l. l.max_concurrent_requests)) known) in
      same-Holds h
        (set_reservation h r.request_id _ (ground (arith, room.tokens, room.limit)) (
          add_tokens h a (estimated_tokens r) room.tokens
            (add_queued h a 1 room.queued (add_global h 1 room.global p))))
        (omega (arith, total-insert (λ n. n) a (get a c.queued + 1) c.queued))
        (λ u. ground (arith, lookup-insert a u (get a c.queued + 1) c.queued)) (λ u. refl)
        (λ u. ground (arith, lookup-insert a u (get a c.tokens + estimated_tokens r) c.tokens))
        (λ i.
          ap
            (λ n.
              if r.request_id == i
              then some (
                  encoded (record {
                    tenant = a;
                    tokens = estimated_tokens r;
                    running = false;
                    concurrency_limit = n;
                  }))
              else stored c.tenants (lookup i c.reserved))
            limit
          ∙ saved-insert c.tenants r.request_id i v c.reserved)

  module _ (id : ℕ) (v : Reservation) (known : lookup id c.reserved ≡ some v) (l : Ledger c)
      (b : Bounded c) (small : AreSmall c) where
    global-lt : total (λ n. n) c.queued < exact_limit
    global-lt = omega (arith, b.global, small.capacity)

    queued-lt : get v.tenant_id c.queued < exact_limit
    queued-lt = omega (arith, global-lt, share-le-total (λ n. n) v.tenant_id c.queued)

    -- The limits of the tenant, which is configured.
    limits_of : (t : TenantLimits) × (lookup v.tenant_id c.tenants ≡ some t) × IsSmall t
    limits_of = elim (Option-cases (lookup v.tenant_id c.tenants)) [
      | inl e ↦ ground (arith, e, l.configured id v known)
      | inr (t, e) ↦ (t, e, small.limits v.tenant_id t e)
    ]

    running-lt : get v.tenant_id c.running < exact_limit
    running-lt = let (t, e, s) = limits_of in omega (arith, b.running v.tenant_id t e, s.1)

    tokens-lt : get v.tenant_id c.tokens < exact_limit
    tokens-lt = let (t, e, s) = limits_of in omega (arith, b.tokens v.tenant_id t e, s.2)

    limit-lt : limit_of c.tenants v.tenant_id < exact_limit
    limit-lt = let (t, e, s) = limits_of in rw e s.1

    waiting-le : v.running ≡ false → 1 ≤ get v.tenant_id c.queued
    waiting-le w =
        ground
          (arith, l.queued v.tenant_id, known, w, share-le-total (waits v.tenant_id) id c.reserved)

    running-le : v.running ≡ true → 1 ≤ get v.tenant_id c.running
    running-le w =
        ground
          (arith, l.running v.tenant_id, known, w, share-le-total (runs v.tenant_id) id c.reserved)

    tokens-le : v.tokens ≤ get v.tenant_id c.tokens
    tokens-le =
        ground
          (arith, l.tokens v.tenant_id, known, share-le-total (holds v.tenant_id) id c.reserved)

    -- One request less in the queue of the tenant, and in all.
    queued-le : v.running ≡ false → 1 ≤ total (λ n. n) c.queued
    queued-le w = omega (arith, waiting-le w, share-le-total (λ n. n) v.tenant_id c.queued)

    total-less :
        v.running ≡ false
        → total (λ n. n) c.queued - 1
          ≡ total (λ n. n) (insert v.tenant_id (get v.tenant_id c.queued - 1) c.queued)
    total-less w = omega (
      arith,
      waiting-le w,
      queued-le w,
      total-insert (λ n. n) v.tenant_id (get v.tenant_id c.queued - 1) c.queued,
    )

    leave_queue-insert :
        v.running ≡ false
        → leave_queue v.tenant_id c.queued
          ≡ insert v.tenant_id (get v.tenant_id c.queued - 1) c.queued
    unfolding leave_queue
    leave_queue-insert w = ground (arith, waiting-le w)

    pub started-HoldsState :
        v.running ≡ false
        → get v.tenant_id c.running + 1 < exact_limit
        → HoldsState h (script_start h s id (encode c.tenants v)) (started c id v)
    unfolding script_start started
    started-HoldsState w room =
        let a = v.tenant_id in
        same-Holds h
          (set_reservation h id _ (ground (arith, tokens-le, tokens-lt, limit-lt)) (
            add_running h a 1 room (
              sub_queued h a 1 (waiting-le w) queued-lt
                (sub_global h 1 (queued-le w) global-lt p))))
          (total-less w ∙ ap (total (λ n. n)) (sym (leave_queue-insert w)))
          (λ u.
            ground (arith, lookup-insert a u (get a c.queued - 1) c.queued, leave_queue-insert w))
          (λ u. ground (arith, lookup-insert a u (get a c.running + 1) c.running)) (λ u. refl)
          (λ i. saved-insert c.tenants id i (record v { running = true }) c.reserved)

    pub drop_running-HoldsState :
        v.running ≡ true
        → HoldsState h (script_drop h s id (encode c.tenants v)) (drop_running c id v)
    unfolding script_drop drop_running
    drop_running-HoldsState w =
        let a = v.tenant_id in
        rw w (
          same-Holds h
            (del_reservation h id (
              sub_tokens h a v.tokens tokens-le tokens-lt
                (sub_running h a 1 (running-le w) running-lt p)))
            refl (λ u. refl)
            (λ u. ground (arith, lookup-insert a u (get a c.running - 1) c.running))
            (λ u. ground (arith, lookup-insert a u (get a c.tokens - v.tokens) c.tokens))
            (λ i. saved-erase c.tenants id i c.reserved))

    pub drop_waiting-HoldsState :
        v.running ≡ false
        → HoldsState h (script_drop h s id (encode c.tenants v)) (drop_waiting c id v)
    unfolding script_drop drop_waiting
    drop_waiting-HoldsState w =
        let a = v.tenant_id in
        rw w (
          same-Holds h
            (del_reservation h id (
              sub_tokens h a v.tokens tokens-le tokens-lt (
                sub_queued h a 1 (waiting-le w) queued-lt
                  (sub_global h 1 (queued-le w) global-lt p))))
            (total-less w) (λ u. ground (arith, lookup-insert a u (get a c.queued - 1) c.queued))
            (λ u. refl)
            (λ u. ground (arith, lookup-insert a u (get a c.tokens - v.tokens) c.tokens))
            (λ i. saved-erase c.tenants id i c.reserved))
