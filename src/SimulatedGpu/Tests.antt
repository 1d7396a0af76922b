-- ===== src/SimulatedGpu/Tests.antt =====
-- A device of 25 bytes and three models of 10 bytes.
use gpu_aware_llm_serving_pl.Common.{ℕ, ◌+◌, ◌≡◌, refl, some, List, [], ◌∷◌, ok, raise}
use gpu_aware_llm_serving_pl.Common.Dict.{lookup, insert}
use gpu_aware_llm_serving_pl.Domain.{ModelDefinition}
use gpu_aware_llm_serving_pl.Fixtures.{model}
use gpu_aware_llm_serving_pl.SimulatedGpu.{
  Runtime, memory_error, runtime_error, init_runtime, index_models, capacity, is_same_model,
  load_for, load_model, unload_for, unload_model, require_loaded, validate_generation,
  before_generation, generate_valid, generate, stream,
}
use gpu_aware_llm_serving_pl.SimulatedGpu.Memory.{
  IsFitting, Call, loads, unloads, generates, step, run, run-init_runtime-IsFitting,
}

program : Unit {0}
unfolding lookup insert init_runtime index_models capacity is_same_model load_for load_model
    unload_for unload_model require_loaded validate_generation before_generation generate_valid
    generate stream step run
program = tt

abbrev named : ℕ → ModelDefinition
named m = record model { model_id = m }

abbrev models : List ModelDefinition
models = named 1 ∷ named 2 ∷ named 3 ∷ []

abbrev device : Runtime
device = record {
  total_memory_bytes = 25;
  failure_every_n_calls = some 2;
  models = (1, named 1) ∷ (2, named 2) ∷ (3, named 3) ∷ [];
  loaded = [];
  calls = 0;
}

init_device : init_runtime models 25 (some 2) ≡ ok device
unfolding program
init_device = refl

abbrev calls : List Call
calls =
    loads (named 1)
    ∷ loads (named 2)
    ∷ loads (named 3)
    ∷ unloads 1
    ∷ generates 2 ((5 ∷ []) ∷ []) 4
    ∷ []

third_refused :
    (load_model (run (loads (named 1) ∷ loads (named 2) ∷ []) device) (named 3)).1
    ≡ raise memory_error
unfolding program
third_refused = refl

second_call_fails : (stream (run calls device) 2 (5 ∷ []) 3).1 ≡ raise runtime_error
unfolding program
second_call_fails = refl

run-init_runtime-IsFitting_example :
    IsFitting (run calls device)
    × ((capacity (run calls device)).1 + (capacity (run calls device)).2
        ≡ (capacity (run calls device)).0)
run-init_runtime-IsFitting_example =
    run-init_runtime-IsFitting models 25 (some 2) device calls init_device
