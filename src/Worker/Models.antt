-- ===== src/Worker/Models.antt =====
-- The resident models of apps/worker/service.py: loading, with evictions and joined loads, unloading and idle
-- evictions. A load takes three steps: a locked part that decides, the runtime's work, and a locked part at its end.
-- A thread that waits for another's load goes on, at the end of it, with `resume_load`.
use gpu_aware_llm_serving_pl.Common.{
  ℕ, ◌+◌, ◌-◌, Bool, true, false, not, ◌||◌, Option, none, some, List, [], ◌∷◌, ltb, leb, ◌==◌,
  if◌then◌else◌, length, mem, any, keep, Result, ok, raise,
}
use gpu_aware_llm_serving_pl.Common.Dict.{Dict, lookup, insert, erase, has}
use mathlib.Core.Option
use gpu_aware_llm_serving_pl.Common.Sort.{sorted}
use gpu_aware_llm_serving_pl.Domain.{ModelDefinition}
use gpu_aware_llm_serving_pl.Worker.{
  Worker, WorkerError, memory_error, runtime_error, key_error, runtime_failure, is_accepting, get,
}

-- A request of the queue, or an active one, is for the model.
abbrev pub is_queued : Worker → ℕ → Bool
is_queued w m = any (λ i. (w.objects i).model_id == m) w.queue

abbrev pub is_used : Worker → ℕ → Bool
is_used w m = not (get m w.active_requests_by_model == 0) || is_queued w m

-- `sorted` by the pair of the time of the last use, which is 0 if there is none, and the name.
unfoldable pub by_last_use : Worker → List ℕ
by_last_use w = sorted (λ m. get m w.model_last_used) (sorted (λ m. m) w.resident_models)

-- The models to evict, and the memory that they free.
pub data Evictions : Type 0 where
  unknown : Evictions
  evictions : List ℕ → ℕ → Evictions

abbrev pub evict_also : ℕ → ℕ → Evictions → Evictions
evict_also m bytes unknown = unknown
evict_also m bytes (evictions ms freed) = evictions (m ∷ ms) (bytes + freed)

-- The loop over the resident models, until `free` with what is freed reaches `needed`. A model without a definition
-- is a KeyError.
unfoldable pub choose_evictions : Worker → ℕ → ℕ → List ℕ → Evictions
choose_evictions w needed free [] = evictions [] 0
choose_evictions w needed free (m ∷ ms) = elim (is_used w m) [
  | true ↦ choose_evictions w needed free ms
  | false ↦ elim (lookup m w.model_definitions) [
    | none ↦ unknown
    | some d ↦ elim (leb needed (free + d.estimated_memory_bytes)) [
      | true ↦ evictions (m ∷ []) d.estimated_memory_bytes
      | false ↦
          evict_also m d.estimated_memory_bytes
            (choose_evictions w needed (free + d.estimated_memory_bytes) ms)
    ]
  ]
]

-- What a load needs at least of the free memory: `usable >= required`, with all terms on the positive side.
abbrev pub needed_memory : Worker → ModelDefinition → ℕ
needed_memory w model =
    model.estimated_memory_bytes + w.reserved_model_memory_bytes + w.memory_safety_reserve_bytes

unfoldable pub plan_evictions : Worker → ModelDefinition → Option ℕ → Evictions
unfolding choose_evictions by_last_use
plan_evictions w model none = evictions [] 0
plan_evictions w model (some free) =
    if ltb free (needed_memory w model)
    then choose_evictions w (needed_memory w model) free (by_last_use w)
    else evictions [] 0

-- `usable < required` after the loop.
abbrev pub is_short : Worker → ModelDefinition → Option ℕ → ℕ → Bool
is_short w model none freed = false
is_short w model (some free) freed = ltb (free + freed) (needed_memory w model)

abbrev pub without : List ℕ → List ℕ → List ℕ
without gone ms = keep (λ m. not (mem m gone)) ms

unfoldable pub erase_all : List ℕ → Dict ℕ → Dict ℕ
erase_all [] d = d
erase_all (m ∷ ms) d = erase_all ms (erase m d)

-- A load begins with the attempt's number and the models to evict.
pub data LoadStep : Type 0 where
  cached : LoadStep
  joins : ℕ → LoadStep
  begins : ℕ → List ℕ → LoadStep
  refused : WorkerError → LoadStep

unfoldable pub admit_load : Worker → ModelDefinition → List ℕ → Worker
unfolding erase_all
admit_load w model gone = record w {
  resident_models = without gone w.resident_models;
  model_last_used = erase_all gone w.model_last_used;
  cache_misses = w.cache_misses + 1;
  cold_starts = w.cold_starts + 1;
  load_attempts = insert model.model_id (get model.model_id w.load_attempts + 1) w.load_attempts;
  loading_models = model.model_id ∷ w.loading_models;
  reserved_model_memory_bytes = w.reserved_model_memory_bytes + model.estimated_memory_bytes;
}

abbrev pub reserve_for : Worker → ModelDefinition → Option ℕ → Evictions → Worker × LoadStep
reserve_for w model free unknown = (w, refused key_error)
reserve_for w model free (evictions ms freed) =
    if is_short w model free freed
    then (w, refused memory_error)
    else (admit_load w model ms, begins (get model.model_id w.load_attempts + 1) ms)

-- The locked part from the reading of the free memory on.
unfoldable pub reserve_load : Worker → ModelDefinition → Option ℕ → Worker × LoadStep
unfolding plan_evictions admit_load
reserve_load w model free = reserve_for w model free (plan_evictions w model free)

abbrev pub hit : Worker → ℕ → ℕ → Worker
hit w m now = record w {
  cache_hits = w.cache_hits + 1;
  model_last_used = insert m now w.model_last_used;
}

unfoldable pub begin_load : Worker → ModelDefinition → Option ℕ → ℕ → Worker × LoadStep
unfolding reserve_load
begin_load w model free now =
    let m = model.model_id in
    if not (is_accepting w)
    then (w, refused runtime_error)
    else if mem m w.resident_models
    then (hit w m now, cached)
    else if mem m w.loading_models
    then (record w { coalesced_loads = w.coalesced_loads + 1 }, joins (get m w.load_attempts))
    else reserve_load w model free

-- `failed is not None and failed[0] == waiting_for_attempt`
abbrev pub is_attempt : Option ℕ → ℕ → Bool
is_attempt none attempt = false
is_attempt (some n) attempt = n == attempt

-- A thread that joined a load, once the model is not being loaded.
unfoldable pub resume_load : Worker → ModelDefinition → ℕ → Option ℕ → ℕ → Worker × LoadStep
unfolding reserve_load
resume_load w model attempt free now =
    let m = model.model_id in
    if mem m w.resident_models
    then (hit w m now, cached)
    else if is_attempt (lookup m w.load_failures) attempt
    then (w, refused runtime_error)
    else reserve_load w model free

-- The `finally` clause; sets have one entry for an element.
abbrev pub end_load : Worker → ModelDefinition → Worker
end_load w model = record w {
  loading_models = without (model.model_id ∷ []) w.loading_models;
  reserved_model_memory_bytes = w.reserved_model_memory_bytes - model.estimated_memory_bytes;
}

-- An element joins a set.
abbrev pub add : ℕ → List ℕ → List ℕ
add m ms = if mem m ms then ms else m ∷ ms

unfoldable pub finish_load : Worker → ModelDefinition → List ℕ → ℕ → Worker
finish_load w model gone now =
    end_load
      (record w {
        model_definitions = insert model.model_id model w.model_definitions;
        resident_models = add model.model_id w.resident_models;
        model_last_used = insert model.model_id now w.model_last_used;
        model_evictions = w.model_evictions + length gone;
        load_failures = erase model.model_id w.load_failures;
      })
      model

-- The evicted models that the runtime still holds are resident again, with the definitions that the load began with.
unfoldable pub restore : Worker → (ℕ → Bool) → ℕ → List (ℕ × ModelDefinition) → Worker
restore w loaded now [] = w
restore w loaded now ((m, d) ∷ ms) =
    restore
      (if loaded m
        then record w {
          resident_models = add m w.resident_models;
          model_definitions = insert m d w.model_definitions;
          model_last_used = insert m now w.model_last_used;
        }
        else w)
      loaded now ms

unfoldable pub fail_load :
    Worker → ModelDefinition → ℕ → List (ℕ × ModelDefinition) → (ℕ → Bool) → ℕ → Worker
unfolding restore
fail_load w model attempt gone loaded now =
    end_load
      (restore
        (record w {
          model_load_failures = w.model_load_failures + 1;
          load_failures = insert model.model_id attempt w.load_failures;
        })
        loaded now gone)
      model

-- `unload_model`, with the answer of the runtime's `unload_model`.
unfoldable pub unload_model : Worker → ℕ → Bool → ℕ → Worker × Result WorkerError Bool
unload_model w m unloads now =
    if is_queued w m
    then (w, raise runtime_error)
    else if not (mem m w.resident_models)
    then (w, ok true)
    else let gone : Worker = record w {
      resident_models = without (m ∷ []) w.resident_models;
      model_last_used = erase m w.model_last_used;
    } in
      if unloads then (gone, ok true) else (
        record gone {
          resident_models = add m gone.resident_models;
          model_last_used = insert m now gone.model_last_used;
        },
        raise runtime_failure,
      )

-- `now - last_used.get(model_id, now) >= idle_eviction_seconds`, with both terms on the positive side.
abbrev pub is_idle_for : Option ℕ → ℕ → ModelDefinition → Bool
is_idle_for none now d = d.idle_eviction_seconds == 0
is_idle_for (some last) now d = leb (last + d.idle_eviction_seconds) now

-- The comprehension of `evict_idle_models`; nothing stands for a KeyError.
unfoldable pub eligible : Worker → ℕ → List ℕ → Option (List ℕ)
eligible w now [] = some []
eligible w now (m ∷ ms) =
    let rest = eligible w now ms in
    if is_used w m then rest else elim (lookup m w.model_definitions) [
      | none ↦ none
      | some d ↦
          if is_idle_for (lookup m w.model_last_used) now d
          then Option.map (λ l. m ∷ l) rest
          else rest
    ]

-- The loop of `evict_idle_models`: it stops at a model that is not unloaded.
unfoldable pub unload_all : Worker → List ℕ → (ℕ → Bool) → ℕ → Worker × Result WorkerError (List ℕ)
unfolding unload_model
unload_all w [] unloads now = (w, ok [])
unload_all w (m ∷ ms) unloads now =
    let (w', answer) = unload_model w m (unloads m) now in
    elim answer [
      | raise e ↦ (w', raise e)
      | ok x ↦ elim (unload_all w' ms unloads now).1 [
        | raise e ↦ ((unload_all w' ms unloads now).0, raise e)
        | ok done ↦ ((unload_all w' ms unloads now).0, ok (m ∷ done))
      ]
    ]

abbrev counted : Worker × Result WorkerError (List ℕ) → Worker × Result WorkerError (List ℕ)
counted (w, raise e) = (w, raise e)
counted (w, ok done) = (record w { model_evictions = w.model_evictions + length done }, ok done)

abbrev evict_eligible :
    Worker → Option (List ℕ) → (ℕ → Bool) → ℕ → Worker × Result WorkerError (List ℕ)
evict_eligible w none unloads now = (w, raise key_error)
evict_eligible w (some ms) unloads now =
    if any (λ m. not (has m w.model_last_used)) ms
    then (w, raise key_error)
    else counted (unload_all w (sorted (λ m. get m w.model_last_used) ms) unloads now)

-- The order of models that were last used at the same time is that of the list of resident models.
unfoldable pub evict_idle_models : Worker → (ℕ → Bool) → ℕ → Worker × Result WorkerError (List ℕ)
unfolding eligible unload_all
evict_idle_models w unloads now = evict_eligible w (eligible w now w.resident_models) unloads now
