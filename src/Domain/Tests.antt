-- ===== src/Domain/Tests.antt =====
-- The request state machine on a small request.
use gpu_aware_llm_serving_pl.Common.{ℕ, ◌≡◌, refl, true, none, some, List, [], ◌∷◌}
use gpu_aware_llm_serving_pl.Domain.{
  stamp, RequestState, RequestRecord, is_terminal, is_allowed, transition, init_request, received,
  validated, admitted, queued, assigned, running, streaming, completed, cancelled,
}
use gpu_aware_llm_serving_pl.Domain.Lifecycle.{
  attempt, attempts, attempts-terminal, Traced, init_request-attempts-Traced,
}

abbrev request : RequestRecord
request = record {
  request_id = 7;
  tenant_id = 1;
  model_id = 2;
  prompt = 5 ∷ 6 ∷ [];
  prompt_tokens = 2;
  max_new_tokens = 8;
  priority = 0;
  deadline = 100;
  stream = true;
  temperature = 0;
  created_at = 10;
  status = received;
  assigned_worker_id = none;
  attempt_count = 0;
  retry_reasons = [];
  payload_available = true;
  transition_timestamps = λ s. none;
}

abbrev created : RequestRecord
created = record request { transition_timestamps = stamp (λ s. none) received 10 }

abbrev journey : List (RequestState × ℕ)
journey =
    (validated, 11)
    ∷ (admitted, 12)
    ∷ (completed, 13)
    ∷ (queued, 13)
    ∷ (assigned, 14)
    ∷ (queued, 15)
    ∷ (running, 16)
    ∷ (streaming, 17)
    ∷ (completed, 18)
    ∷ (cancelled, 19)
    ∷ []

program : Unit {0}
unfolding is_terminal is_allowed transition init_request attempt attempts
program = tt

journey_ends : (attempts created journey).status ≡ completed
unfolding program
journey_ends = refl

journey_admitted : (attempts created journey).transition_timestamps admitted ≡ some 12
unfolding program
journey_admitted = refl

attempts-terminal_example :
    attempts (attempts created journey) ((queued, 20) ∷ []) ≡ attempts created journey
unfolding program
attempts-terminal_example = attempts-terminal (attempts created journey) ((queued, 20) ∷ []) refl

init_request-attempts-Traced_example :
    Traced (attempts created journey).status (attempts created journey).transition_timestamps
unfolding init_request
init_request-attempts-Traced_example =
    init_request-attempts-Traced request created journey refl (λ s. refl) refl
