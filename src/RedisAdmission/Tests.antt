-- ===== src/RedisAdmission/Tests.antt =====
-- The Redis controller on a hash that is a function of its fields.
use gpu_aware_llm_serving_pl.Common.{
  ◌≡◌, refl, ap, true, none, some, List, [], ◌∷◌, ok, if◌then◌else◌, Option, ℤ, pos, arith,
  if_cases, ==_iff,
}
use gpu_aware_llm_serving_pl.Common.Dict.{has, lookup, insert, erase, total}
use gpu_aware_llm_serving_pl.Domain.{TenantLimits}
use gpu_aware_llm_serving_pl.Fixtures.{request, model, workers, tenant}
use gpu_aware_llm_serving_pl.Admission.{
  Controller, get, refuse, accept, deadline_exceeded, already_admitted,
}
use gpu_aware_llm_serving_pl.Admission
use gpu_aware_llm_serving_pl.Admission.Histories.{Call, decides, marks_running, step, run}
use gpu_aware_llm_serving_pl.RedisAdmission.{
  RedisController, decide, mark_running, release, snapshot, init_controller, configure_script,
  decide_for, early_refusal, reserve_script, script_refusal, script_reserve, mark_running_script,
  script_start, release_script, script_drop,
}
use gpu_aware_llm_serving_pl.RedisAdmission.Commands.{
  Hash, Field, Value, number, plus, diff, fingerprint, global_queued, reservation, queued, running,
  tokens, is_field, number_in,
}
use gpu_aware_llm_serving_pl.RedisAdmission.Answers.{outcome}
use gpu_aware_llm_serving_pl.RedisAdmission.Histories.{step_hash, run_hash, run_hash-run}

abbrev put : (Field → Option Value) → Field → Option Value → Field → Option Value
put s f o g = if is_field f g then o else s g

is_field-true : (f g : Field) → is_field f g ≡ true → f ≡ g
is_field-true fingerprint fingerprint e = refl
is_field-true global_queued global_queued e = refl
is_field-true (reservation a) (reservation b) e = ap reservation ((==_iff a b).0 e)
is_field-true (queued a) (queued b) e = ap queued ((==_iff a b).0 e)
is_field-true (running a) (running b) e = ap running ((==_iff a b).0 e)
is_field-true (tokens a) (tokens b) e = ap tokens ((==_iff a b).0 e)
is_field-true _ _ e = ground (arith, e)

same_number :
    (s : Field → Option Value) (f g : Field) (d : ℤ)
    → put s f (some (number (plus (number_in (s f)) d))) g
      ≡ (if is_field f g then some (number (plus (number_in (s g)) d)) else s g)
same_number s f g d =
    if_cases {A = Option Value} (λ o. put s f (some (number (plus (number_in (s f)) d))) g ≡ o)
      (is_field f g)
      (λ e. rw e (ap (λ x. some (number (plus (number_in (s x)) d))) (is_field-true f g e)))
      (λ e. rw e refl)

abbrev hash : Hash (Field → Option Value)
hash = record {
  hget = λ s f. s f;
  hset = λ s f v. put s f (some v);
  hincrby = λ s f d. put s f (some (number (plus (number_in (s f)) d)));
  hdel = λ s f. put s f none;
  hget-hset = λ s f g v x. refl;
  hget-hincrby = λ s f g d n x. same_number s f g d;
  hget-hdel = λ s f g. refl;
}

abbrev empty : Field → Option Value
empty f = none

abbrev tenants : List TenantLimits
tenants = tenant 1 ∷ []

abbrev memory : Controller
memory = record {
  tenants = (1, tenant 1) ∷ [];
  global_queue_capacity = 4;
  queued = [];
  running = [];
  tokens = [];
  reserved = [];
}

abbrev shared : RedisController
shared = record { tenants = (1, tenant 1) ∷ []; global_queue_capacity = 4 }

abbrev calls : List Call
calls =
    decides (request 7) (some model) workers 20
    ∷ marks_running 7
    ∷ decides (request 8) (some model) workers 21
    ∷ []

program : Unit {0}
unfolding lookup insert erase total Admission.init_controller Admission.decide
    Admission.mark_running Admission.release Admission.reserve Admission.refusal
    Admission.is_healthy Admission.leave_queue Admission.started Admission.start step run decide
    mark_running release snapshot init_controller configure_script decide_for early_refusal
    reserve_script script_refusal script_reserve mark_running_script script_start release_script
    script_drop step_hash run_hash plus diff
program = tt

abbrev after : Field → Option Value
after = run_hash hash shared calls (init_controller hash empty tenants 4 9).0

one_runs : snapshot hash after shared 1 ≡ ok (pos 0, pos 1, pos 10)
unfolding program
one_runs = refl

-- A repeated submission after its deadline is refused here, and answered by `already_admitted` in memory.
late_again :
    (decide hash after shared (request 7) (some model) workers 200).1 ≡ refuse deadline_exceeded
unfolding program
late_again = refl

late_again_memory :
    (Admission.decide (run calls memory) (request 7) (some model) workers 200).1
    ≡ accept already_admitted
unfolding program
late_again_memory = refl

init_memory : Admission.init_controller tenants 4 ≡ ok memory
unfolding program
init_memory = refl

one_known : has 1 (run calls memory).tenants ≡ true
unfolding program
one_known = refl

not_reserved : lookup 8 (run calls memory).reserved ≡ none
unfolding program
not_reserved = refl

run_hash-run_example :
    ((init_controller hash empty tenants 4 9).1 ≡ ok shared)
    × ((decide hash after shared (request 8) (some model) workers 30).1
        ≡ (Admission.decide (run calls memory) (request 8) (some model) workers 30).1)
    × ((mark_running hash after 7).1 ≡ outcome (Admission.mark_running (run calls memory) 7).1)
    × (snapshot hash after shared 1
        ≡ ok (
          pos (get 1 (run calls memory).queued),
          pos (get 1 (run calls memory).running),
          pos (get 1 (run calls memory).tokens),
        ))
run_hash-run_example =
    run_hash-run hash empty tenants 4 9 memory calls (request 8) (some model) workers 30 7 1
      (λ f. refl) ((omega arith, omega arith, omega arith), tt) (omega arith) init_memory
      not_reserved one_known
