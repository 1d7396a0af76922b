-- ===== src/SimulatedGpu/Memory.antt =====
-- The memory that runtime/simulated_gpu/runtime.py accounts for.
use gpu_aware_llm_serving_pl.Common.{
  ℕ, ◌+◌, ◌≤◌, ◌≡◌, refl, ap, ◌∙◌, true, not, ◌&&◌, Option, none, some, List, [], ◌∷◌, ltb, ◌==◌,
  mem, distinct, sum_of, keep, ok, arith, Bool-cases, Result-cases, inl, inr,
}
use gpu_aware_llm_serving_pl.Common.Dict.{has, share, lookup}
use gpu_aware_llm_serving_pl.Domain.{ModelDefinition}
use gpu_aware_llm_serving_pl.SimulatedGpu.{
  Runtime, init_runtime, memory_of, used, capacity, is_same_model, load_for, load_model, unload_for,
  unload_model, validate_generation, before_generation, generate_valid, generate, stream,
}

pub record IsFitting (g : Runtime) : Type 0 where
  pub within : used g ≤ g.total_memory_bytes
  pub once : distinct g.loaded ≡ true
  pub registered : (m : ℕ) → mem m g.loaded ≡ true → has m g.models ≡ true

is_same_model_memory :
    (a b : ModelDefinition)
    → is_same_model a b ≡ true
    → a.estimated_memory_bytes ≡ b.estimated_memory_bytes
unfolding is_same_model
is_same_model_memory a b e = ground (arith, e)

load_for-IsFitting :
    (g : Runtime) (model : ModelDefinition) (o : Option ModelDefinition)
    → lookup model.model_id g.models ≡ o
    → IsFitting g
    → IsFitting (load_for g model o).0
unfolding load_for
load_for-IsFitting g model none e h = h
load_for-IsFitting g model (some d) e h = elim (Bool-cases (is_same_model d model)) [
  | inr other ↦ rw (other, load_for) h
  | inl same ↦ elim (Bool-cases (mem model.model_id g.loaded)) [
    | inl there ↦ rw (same, there, load_for) h
    | inr new ↦
        elim (Bool-cases (ltb g.total_memory_bytes (used g + model.estimated_memory_bytes))) [
          | inl full ↦ rw (same, new, full, load_for) h
          | inr fits ↦
              let bytes : memory_of g model.model_id ≡ model.estimated_memory_bytes =
                ap (share (λ x. x.estimated_memory_bytes)) e ∙ is_same_model_memory d model same in
              rw (same, new, fits, load_for)
                (record {
                  within = ground (arith, fits, bytes);
                  once = ground (arith, new, h.once);
                  registered = λ m k. let r = h.registered m in ground (arith, e, k, r);
                })
        ]
  ]
]

mem-keep :
    (a m : ℕ) (xs : List ℕ) → mem a (keep (λ k. not (k == m)) xs) ≡ (mem a xs && not (a == m))
mem-keep a m [] = refl
mem-keep a m (x ∷ xs) = ground (arith, mem-keep a m xs)

distinct-keep :
    (m : ℕ) (xs : List ℕ) → distinct xs ≡ true → distinct (keep (λ k. not (k == m)) xs) ≡ true
distinct-keep m [] h = refl
distinct-keep m (x ∷ xs) h = ground (arith, h, distinct-keep m xs, mem-keep x m xs)

sum_of-keep-le :
    (f : ℕ → ℕ) (m : ℕ) (xs : List ℕ) → sum_of f (keep (λ k. not (k == m)) xs) ≤ sum_of f xs
sum_of-keep-le f m [] = omega arith
sum_of-keep-le f m (x ∷ xs) = ground (arith, sum_of-keep-le f m xs)

unload_for-IsFitting :
    (g : Runtime) (m : ℕ) (o : Option ModelDefinition)
    → IsFitting g
    → IsFitting (unload_for g m o).0
unfolding unload_for
unload_for-IsFitting g m none h = h
unload_for-IsFitting g m (some d) h = record {
  within = omega (arith, sum_of-keep-le (memory_of g) m g.loaded, h.within);
  once = distinct-keep m g.loaded h.once;
  registered = λ a k. let r = h.registered a in ground (arith, k, r, mem-keep a m g.loaded);
}

generate-IsFitting :
    (g : Runtime) (m : ℕ) (prompts : List (List ℕ)) (n : ℕ)
    → IsFitting g
    → IsFitting (generate g m prompts n).0
unfolding generate generate_valid before_generation
generate-IsFitting g m prompts n h = elim (Result-cases (validate_generation g m prompts n)) [
  | inl (x, e) ↦ rw (e, generate) h
  | inr (d, e) ↦
      rw (e, generate) (record { within = h.within; once = h.once; registered = h.registered })
]

stream-IsFitting :
    (g : Runtime) (m : ℕ) (prompt : List ℕ) (n : ℕ)
    → IsFitting g
    → IsFitting (stream g m prompt n).0
unfolding stream generate_valid before_generation
stream-IsFitting g m prompt n h = elim (Result-cases (validate_generation g m (prompt ∷ []) n)) [
  | inl (x, e) ↦ rw (e, stream) h
  | inr (d, e) ↦
      rw (e, stream) (record { within = h.within; once = h.once; registered = h.registered })
]

pub data Call : Type 0 where
  loads : ModelDefinition → Call
  unloads : ℕ → Call
  generates : ℕ → List (List ℕ) → ℕ → Call
  streams : ℕ → List ℕ → ℕ → Call

unfoldable pub step : Call → Runtime → Runtime
step (loads model) g = (load_model g model).0
step (unloads m) g = (unload_model g m).0
step (generates m prompts n) g = (generate g m prompts n).0
step (streams m prompt n) g = (stream g m prompt n).0

unfoldable pub run : List Call → Runtime → Runtime
unfolding step
run [] g = g
run (k ∷ ks) g = run ks (step k g)

step-IsFitting : (k : Call) (g : Runtime) → IsFitting g → IsFitting (step k g)
unfolding step load_model unload_model
step-IsFitting (loads model) g h =
    load_for-IsFitting g model (lookup model.model_id g.models) refl h
step-IsFitting (unloads m) g h = unload_for-IsFitting g m (lookup m g.models) h
step-IsFitting (generates m prompts n) g h = generate-IsFitting g m prompts n h
step-IsFitting (streams m prompt n) g h = stream-IsFitting g m prompt n h

run-IsFitting : (ks : List Call) (g : Runtime) → IsFitting g → IsFitting (run ks g)
unfolding run
run-IsFitting [] g h = h
run-IsFitting (k ∷ ks) g h = run-IsFitting ks (step k g) (step-IsFitting k g h)

init_runtime-IsFitting :
    (models : List ModelDefinition) (total : ℕ) (interval : Option ℕ) (g : Runtime)
    → init_runtime models total interval ≡ ok g
    → IsFitting g
unfolding init_runtime
init_runtime-IsFitting models total interval g e =
    let empty : g.loaded ≡ [] = ground (arith, e) in
    record {
      within = rw empty (omega arith);
      once = rw empty refl;
      registered = λ m k. ground (arith, k, empty);
    }

-- After any calls on a new runtime, failed ones included, the loaded models are registered, each is loaded once, and
-- their memory is within the memory of the device, so that the available and the allocated memory that it reports add
-- up to the total.
pub run-init_runtime-IsFitting :
    (models : List ModelDefinition) (total : ℕ) (interval : Option ℕ) (g : Runtime) (ks : List Call)
    → init_runtime models total interval ≡ ok g
    → let (t, available, allocated) = capacity (run ks g) in
      IsFitting (run ks g) × (available + allocated ≡ t)
unfolding capacity
run-init_runtime-IsFitting models total interval g ks e =
    let h = run-IsFitting ks g (init_runtime-IsFitting models total interval g e) in
    (h, omega (arith, h.within))
