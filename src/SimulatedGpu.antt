-- ===== src/SimulatedGpu.antt =====
-- runtime/simulated_gpu/runtime.py: the runtime that keeps account of device memory and validates generations. A prompt
-- is the list of its words. Left out: the time that a call takes, the text of a result, which a digest gives, and the
-- throughput in the configuration. A stream is the list of all its chunks.
pub mod Memory
mod Tests
use gpu_aware_llm_serving_pl.Common.{
  ℕ, ◌+◌, ◌-◌, ◌%◌, ◌≡◌, Bool, true, false, not, ◌&&◌, ◌||◌, Option, none, some, List, [], ◌∷◌, ltb,
  leb, ◌==◌, if◌then◌else◌, length, mem, any, map, distinct, sum_of, keep, range_from, Result, ok,
  raise,
}
use gpu_aware_llm_serving_pl.Common.Dict.{Dict, lookup, insert, share}
use gpu_aware_llm_serving_pl.Domain.{ModelDefinition, RuntimeType, simulated}

pub data RuntimeError : Type 0 where
  value_error runtime_error memory_error : RuntimeError

pub record Runtime : Type 0 where
  pub total_memory_bytes : ℕ
  pub failure_every_n_calls : Option ℕ
  pub models : Dict ModelDefinition
  pub loaded : List ℕ
  pub calls : ℕ

abbrev pub is_zero : Option ℕ → Bool
is_zero none = false
is_zero (some n) = n == 0

abbrev pub is_simulated : RuntimeType → Bool
is_simulated simulated = true
is_simulated _ = false

-- {model.model_id: model for model in definitions}
unfoldable pub index_models : List ModelDefinition → Dict ModelDefinition → Dict ModelDefinition
index_models [] d = d
index_models (m ∷ ms) d = index_models ms (insert m.model_id m d)

-- The checks of the configuration, then those of the constructor.
unfoldable pub init_runtime : List ModelDefinition → ℕ → Option ℕ → Result RuntimeError Runtime
unfolding index_models
init_runtime models total interval =
    if (total == 0) || is_zero interval
    then raise value_error
    else if any (λ m. not (is_simulated m.runtime_type)) models
    then raise value_error
    else if not (distinct (map (λ m. m.model_id) models))
    then raise value_error
    else ok (record {
      total_memory_bytes = total;
      failure_every_n_calls = interval;
      models = index_models models [];
      loaded = [];
      calls = 0;
    })

abbrev pub memory_of : Runtime → ℕ → ℕ
memory_of g m = share (λ d. d.estimated_memory_bytes) (lookup m g.models)

-- The sum in `capacity`; the loaded models are registered.
abbrev pub used : Runtime → ℕ
used g = sum_of (memory_of g) g.loaded

-- (total, available, allocated) memory.
unfoldable pub capacity : Runtime → ℕ × ℕ × ℕ
capacity g = (g.total_memory_bytes, g.total_memory_bytes - used g, used g)

abbrev pub is_same_type : RuntimeType → RuntimeType → Bool
is_same_type simulated simulated = true
is_same_type RuntimeType.huggingface RuntimeType.huggingface = true
is_same_type _ _ = false

abbrev pub is_same_list : List ℕ → List ℕ → Bool
is_same_list [] [] = true
is_same_list (x ∷ xs) (y ∷ ys) = (x == y) && is_same_list xs ys
is_same_list _ _ = false

-- `registered == model`
unfoldable pub is_same_model : ModelDefinition → ModelDefinition → Bool
is_same_model a b =
    (a.model_id == b.model_id)
    && (a.revision == b.revision)
    && is_same_type a.runtime_type b.runtime_type
    && (a.estimated_memory_bytes == b.estimated_memory_bytes)
    && is_same_list a.supported_dtypes b.supported_dtypes
    && (a.default_dtype == b.default_dtype)
    && (a.max_context_tokens == b.max_context_tokens)
    && (a.max_batch_tokens == b.max_batch_tokens)
    && (a.load_timeout_seconds == b.load_timeout_seconds)
    && (a.idle_eviction_seconds == b.idle_eviction_seconds)

unfoldable pub load_for :
    Runtime → ModelDefinition → Option ModelDefinition → Runtime × Result RuntimeError Bool
unfolding is_same_model
load_for g model none = (g, raise value_error)
load_for g model (some registered) =
    if not (is_same_model registered model)
    then (g, raise value_error)
    else if mem model.model_id g.loaded
    then (g, ok true)
    else if ltb g.total_memory_bytes (used g + model.estimated_memory_bytes)
    then (g, raise memory_error)
    else (record g { loaded = model.model_id ∷ g.loaded }, ok true)

unfoldable pub load_model : Runtime → ModelDefinition → Runtime × Result RuntimeError Bool
unfolding load_for
load_model g model = load_for g model (lookup model.model_id g.models)

unfoldable pub unload_for :
    Runtime → ℕ → Option ModelDefinition → Runtime × Result RuntimeError Bool
unload_for g m none = (g, raise value_error)
unload_for g m (some d) = (record g { loaded = keep (λ k. not (k == m)) g.loaded }, ok true)

unfoldable pub unload_model : Runtime → ℕ → Runtime × Result RuntimeError Bool
unfolding unload_for
unload_model g m = unload_for g m (lookup m g.models)

unfoldable pub is_model_loaded : Runtime → ℕ → Result RuntimeError Bool
is_model_loaded g m = elim (lookup m g.models) [
  | none ↦ raise value_error
  | some d ↦ ok (mem m g.loaded)
]

-- Also `warmup_model`.
unfoldable pub require_loaded : Runtime → ℕ → Result RuntimeError ModelDefinition
require_loaded g m = elim (lookup m g.models) [
  | none ↦ raise value_error
  | some d ↦ if mem m g.loaded then ok d else raise runtime_error
]

unfoldable pub count_prompt_tokens : Runtime → ℕ → List ℕ → Result RuntimeError ℕ
count_prompt_tokens g m prompt = elim (lookup m g.models) [
  | none ↦ raise value_error
  | some d ↦ ok (length prompt)
]

abbrev pub request_sizes : List (List ℕ) → ℕ → List ℕ
request_sizes prompts n = map (λ p. length p + n) prompts

abbrev pub check_sizes : ModelDefinition → List (List ℕ) → ℕ → Result RuntimeError ModelDefinition
check_sizes d prompts n =
    if (length prompts == 0) || any (λ p. length p == 0) prompts
    then raise value_error
    else if n == 0
    then raise value_error
    else if any (λ size. ltb d.max_context_tokens size) (request_sizes prompts n)
    then raise value_error
    else if ltb d.max_batch_tokens (sum_of (λ size. size) (request_sizes prompts n))
    then raise value_error
    else ok d

unfoldable pub validate_generation :
    Runtime → ℕ → List (List ℕ) → ℕ → Result RuntimeError ModelDefinition
unfolding require_loaded
validate_generation g m prompts n = elim (require_loaded g m) [
  | raise e ↦ raise e
  | ok d ↦ check_sizes d prompts n
]

abbrev pub is_failing : Option ℕ → ℕ → Bool
is_failing none calls = false
is_failing (some interval) calls = calls % interval == 0

unfoldable pub before_generation : Runtime → Runtime × Result RuntimeError Bool
before_generation g = (
  record g { calls = g.calls + 1 },
  if is_failing g.failure_every_n_calls (g.calls + 1) then raise runtime_error else ok true,
)

pub record GenerationResult : Type 0 where
  pub input_tokens : ℕ
  pub output_tokens : ℕ

-- A generation that is valid.
unfoldable pub generate_valid {ℓ} : {A : Type ℓ} → Runtime → A → Runtime × Result RuntimeError A
unfolding before_generation
generate_valid g results =
    let (g', answer) = before_generation g in
    (g', elim answer [ raise e ↦ raise e | ok x ↦ ok results ])

unfoldable pub generate :
    Runtime → ℕ → List (List ℕ) → ℕ → Runtime × Result RuntimeError (List GenerationResult)
unfolding validate_generation generate_valid
generate g m prompts n = elim (validate_generation g m prompts n) [
  | raise e ↦ (g, raise e)
  | ok d ↦
      generate_valid g (map (λ p. record { input_tokens = length p; output_tokens = n }) prompts)
]

-- The numbers of the tokens, one in each chunk.
unfoldable pub stream : Runtime → ℕ → List ℕ → ℕ → Runtime × Result RuntimeError (List ℕ)
unfolding validate_generation generate_valid
stream g m prompt n = elim (validate_generation g m (prompt ∷ []) n) [
  | raise e ↦ (g, raise e)
  | ok d ↦ generate_valid g (range_from 1 n)
]
