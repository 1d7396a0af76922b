-- ===== src/Coordination/Tests.antt =====
-- Two supervisors and one key, which is an optional token.
use gpu_aware_llm_serving_pl.Common.{
  ℕ, ◌≡◌, refl, true, false, not, Option, none, some, List, [], ◌∷◌, ok, if◌then◌else◌, arith,
}
use gpu_aware_llm_serving_pl.Common.Dict.{is_some}
use gpu_aware_llm_serving_pl.Coordination.{
  Clock, Key, Lease, Plane, acquire, renew, release, is_owner, claim, supervise,
}
use gpu_aware_llm_serving_pl.Coordination.Ownership.{
  Event, acquires, renews, releases, lapses, step, run, run-is_owner,
}

program : Unit {0}
unfolding acquire renew release is_owner claim step run
program = tt

abbrev first_token : Option ℕ → ℕ → Option ℕ
first_token none v = some v
first_token (some u) v = some u

first_token_lem : (s : Option ℕ) (v : ℕ) → first_token s v ≡ (if is_some s then s else some v)
first_token_lem none v = refl
first_token_lem (some u) v = refl

abbrev key : Key (Option ℕ)
key = record {
  get = λ s. s;
  set_nx = λ s v px. (first_token s v, not (is_some s));
  pexpire = λ s px. (s, is_some s);
  del = λ s. (none, is_some s);
  lapse = λ s. none;
  get-set_nx = λ s v px p. first_token_lem s v;
  answer_set_nx = λ s v px p. refl;
  get-pexpire = λ s px p. refl;
  get-del = λ s. refl;
  get-lapse = λ s. refl;
}

abbrev lease : ℕ → Lease
lease t = record { owner_token = t; ttl_ms = 500; ttl_positive = omega arith }

abbrev plane : Plane
plane = record {
  registry = record { heartbeat_timeout_seconds = 30; suspect_after_seconds = 15; workers = [] };
  queue = none;
  store = [];
}

abbrev events : List Event
events = acquires (lease 8) ∷ renews (lease 8) ∷ renews (lease 7) ∷ releases (lease 8) ∷ []

taken_over : is_owner key (run key (some 7) (lapses ∷ acquires (lease 8) ∷ [])) (lease 8) ≡ true
unfolding program
taken_over = refl

abbrev readings : ℕ → Clock
readings i = record {
  first = 100;
  second = 100;
  transition_at = 100;
  failed_at = 100;
  enqueue_at = 100;
}

run-is_owner_example :
    let s' = run key (some 7) events in
    (is_owner key s' (lease 7) ≡ true)
    × (is_owner key s' (lease 8) ≡ false)
    × (release key s' (lease 8) ≡ (s', false))
    × ((supervise key (lease 8) false 3 100 readings s' plane).1 ≡ (plane, ok tt))
unfolding program
run-is_owner_example =
    run-is_owner key (some 7) (lease 7) (lease 8) events false 3 100 readings plane refl refl
      (λ e. omega (arith, e))
