-- ===== src/RedisAdmission.antt =====
-- serving_platform/admission/redis_controller.py: the admission counters in a Redis hash, changed by scripts.
-- Each script is one step, as Redis runs it; the hash is a parameter, with the documented laws of its commands.
-- The name of the state key, the texts of the answers and the digest of the configuration are left out: a fingerprint
-- is a number.
pub mod Commands
pub mod Counters
pub mod Simulation
pub mod Refinement
pub mod Answers
pub mod Histories
mod Tests
use gpu_aware_llm_serving_pl.Common.{
  ℕ, suc, ◌+◌, ◌≡◌, Bool, true, false, not, ◌&&◌, ◌||◌, Option, none, some, List, [], ◌∷◌, ltb, leb,
  ◌==◌, if◌then◌else◌, ℤ, pos, negsuc, Result, ok, raise, any, map, distinct,
}
use gpu_aware_llm_serving_pl.Common.Dict.{Dict, lookup, has}
use gpu_aware_llm_serving_pl.Domain.{
  RequestRecord, TenantLimits, ModelDefinition, WorkerState, estimated_tokens,
}
use gpu_aware_llm_serving_pl.Admission.{
  Code, already_admitted, unknown_tenant, unsupported_model, context_window_exceeded,
  deadline_exceeded, no_healthy_capacity, global_queue_full, tenant_queue_full,
  tenant_concurrency_limit, tenant_token_quota, Decision, accept, refuse, is_healthy, index_tenants,
}
use gpu_aware_llm_serving_pl.RedisAdmission.Commands.{
  Field, fingerprint, reservation, global_queued, queued, running, tokens, Value, digest, encoded,
  Encoded, Hash, neg, plus, number_in, is_below,
}

pub data ScriptStatus : Type 0 where
  missing already_running concurrency_limit_reached now_running : ScriptStatus

pub data ConfigStatus : Type 0 where
  configured existing conflict : ConfigStatus

pub data RedisError : Type 0 where
  value_error key_error runtime_error : RedisError

-- cjson.decode, for a reservation that is there.
abbrev pub encoded_in : Option Value → Option Encoded
encoded_in (some (encoded e)) = some e
encoded_in _ = none

abbrev pub is_present : Option Value → Bool
is_present none = false
is_present (some v) = true

module _ {S : Type 0} (h : Hash S) where
  abbrev pub number_at : S → Field → ℤ
  number_at s f = number_in (h.hget s f)

  abbrev pub config_of : S → ℕ → Option Value → S × ConfigStatus
  config_of s print none = (h.hset s fingerprint (digest print), configured)
  config_of s print (some (digest d)) = (s, if d == print then existing else conflict)
  config_of s print (some v) = (s, conflict)

  -- CONFIGURE_SCRIPT
  unfoldable pub configure_script : S → ℕ → S × ConfigStatus
  configure_script s print = config_of s print (h.hget s fingerprint)

  -- The tests of RESERVE_SCRIPT, in its order: its answer, or nothing where it goes on.
  unfoldable pub script_refusal : S → ℕ → ℕ → ℕ → TenantLimits → Option Code
  script_refusal s id used global_limit t =
      if is_present (h.hget s (reservation id))
      then some already_admitted
      else if not (is_below (number_at s global_queued) global_limit)
      then some global_queue_full
      else if not (is_below (number_at s (queued t.tenant_id)) t.max_queued_requests)
      then some tenant_queue_full
      else if not (is_below (number_at s (running t.tenant_id)) t.max_concurrent_requests)
      then some tenant_concurrency_limit
      else if not
          (is_below (plus (number_at s (tokens t.tenant_id)) (pos used)) (suc t.token_quota))
      then some tenant_token_quota
      else none

  -- The commands at the end of RESERVE_SCRIPT.
  unfoldable pub script_reserve : S → ℕ → ℕ → TenantLimits → S
  script_reserve s id used t =
      h.hset
        (h.hincrby (h.hincrby (h.hincrby s global_queued (pos 1)) (queued t.tenant_id) (pos 1))
          (tokens t.tenant_id) (pos used))
        (reservation id)
        (encoded (record {
          tenant = t.tenant_id;
          tokens = used;
          running = false;
          concurrency_limit = t.max_concurrent_requests;
        }))

  -- RESERVE_SCRIPT
  unfoldable pub reserve_script : S → ℕ → ℕ → ℕ → TenantLimits → S × Code
  unfolding script_refusal script_reserve
  reserve_script s id used global_limit t = elim (script_refusal s id used global_limit t) [
    | some code ↦ (s, code)
    | none ↦ (script_reserve s id used t, Code.admitted)
  ]

  -- The commands at the end of MARK_RUNNING_SCRIPT.
  unfoldable pub script_start : S → ℕ → Encoded → S
  script_start s id e =
      h.hset
        (h.hincrby (h.hincrby (h.hincrby s global_queued (neg 1)) (queued e.tenant) (neg 1))
          (running e.tenant) (pos 1))
        (reservation id) (encoded (record e { running = true }))

  abbrev pub marked : S → ℕ → Option Encoded → S × ScriptStatus
  marked s id none = (s, missing)
  marked s id (some e) =
      if e.running
      then (s, already_running)
      else if not (is_below (number_at s (running e.tenant)) e.concurrency_limit)
      then (s, concurrency_limit_reached)
      else (script_start s id e, now_running)

  -- MARK_RUNNING_SCRIPT
  unfoldable pub mark_running_script : S → ℕ → S × ScriptStatus
  unfolding script_start
  mark_running_script s id = marked s id (encoded_in (h.hget s (reservation id)))

  unfoldable pub script_drop : S → ℕ → Encoded → S
  script_drop s id e =
      h.hdel
        (h.hincrby
          (if e.running
            then h.hincrby s (running e.tenant) (neg 1)
            else h.hincrby (h.hincrby s global_queued (neg 1)) (queued e.tenant) (neg 1))
          (tokens e.tenant) (neg e.tokens))
        (reservation id)

  abbrev pub dropped : S → ℕ → Option Encoded → S
  dropped s id none = s
  dropped s id (some e) = script_drop s id e

  -- RELEASE_SCRIPT
  unfoldable pub release_script : S → ℕ → S
  unfolding script_drop
  release_script s id = dropped s id (encoded_in (h.hget s (reservation id)))

-- The process's own part of the controller; the hash is shared.
pub record RedisController : Type 0 where
  pub tenants : Dict TenantLimits
  pub global_queue_capacity : ℕ

-- The tests of `decide` before the script.
unfoldable pub early_refusal :
    RequestRecord → Option ModelDefinition → List WorkerState → ℕ → Option Code
early_refusal r none workers now = some unsupported_model
early_refusal r (some m) workers now =
    if ltb m.max_context_tokens (estimated_tokens r)
    then some context_window_exceeded
    else if leb r.deadline now
    then some deadline_exceeded
    else if not (any is_healthy workers)
    then some no_healthy_capacity
    else none

-- `result in {"admitted", "already_admitted"}`
abbrev pub decision_of : Code → Decision
decision_of Code.admitted = accept Code.admitted
decision_of already_admitted = accept already_admitted
decision_of code = refuse code

abbrev pub status_of : ScriptStatus → Result RedisError Bool
status_of missing = raise key_error
status_of concurrency_limit_reached = raise runtime_error
status_of already_running = ok true
status_of now_running = ok true

module _ {S : Type 0} (h : Hash S) where
  unfoldable pub init_controller :
      S → List TenantLimits → ℕ → ℕ → S × Result RedisError RedisController
  unfolding configure_script index_tenants
  init_controller s tenants capacity print =
      if (capacity == 0) || not (distinct (map (λ t. t.tenant_id) tenants))
      then (s, raise value_error)
      else let (s', status) = configure_script h s print in
        (
          s',
          elim status [
            | conflict ↦ raise value_error
            | _ ↦
                ok (record { tenants = index_tenants tenants []; global_queue_capacity = capacity })
          ],
        )

  abbrev pub scripted : S × Code → S × Decision
  scripted (s, code) = (s, decision_of code)

  abbrev pub decide_with : S → RequestRecord → ℕ → TenantLimits → Option Code → S × Decision
  decide_with s r capacity t (some code) = (s, refuse code)
  decide_with s r capacity t none =
      scripted (reserve_script h s r.request_id (estimated_tokens r) capacity t)

  -- `decide`, given what `self.tenants.get` returns.
  unfoldable pub decide_for :
      S
      → ℕ
      → RequestRecord
      → Option ModelDefinition
      → List WorkerState
      → ℕ
      → Option TenantLimits
      → S × Decision
  unfolding early_refusal reserve_script
  decide_for s capacity r model workers now none = (s, refuse unknown_tenant)
  decide_for s capacity r model workers now (some t) =
      decide_with s r capacity t (early_refusal r model workers now)

  unfoldable pub decide :
      S
      → RedisController
      → RequestRecord
      → Option ModelDefinition
      → List WorkerState
      → ℕ
      → S × Decision
  unfolding decide_for
  decide s c r model workers now =
      decide_for s c.global_queue_capacity r model workers now (lookup r.tenant_id c.tenants)

  unfoldable pub mark_running : S → ℕ → S × Result RedisError Bool
  unfolding mark_running_script
  mark_running s id = let (s', status) = mark_running_script h s id in (s', status_of status)

  unfoldable pub release : S → ℕ → S
  unfolding release_script
  release s id = release_script h s id

  -- SNAPSHOT_SCRIPT: queued, running and reserved tokens of a configured tenant.
  unfoldable pub snapshot : S → RedisController → ℕ → Result RedisError (ℤ × ℤ × ℤ)
  snapshot s c t =
      if has t c.tenants
      then ok (number_at h s (queued t), number_at h s (running t), number_at h s (tokens t))
      else raise key_error
