-- ===== src/TokenEngine/Tests.antt =====
-- An engine for two sequences, and the theorem on its blocks.
use gpu_aware_llm_serving_pl.Common.{
  ok, Bool, true, ℕ, ◌++◌, ◌≡◌, refl, false, List, [], ◌∷◌, raise,
}
use gpu_aware_llm_serving_pl.Common.Dict.{lookup, insert, erase, keys}
use gpu_aware_llm_serving_pl.KvCache.{
  Allocator, fresh_allocator, update_pressure, blocks_for_tokens, mark_blocks, release_block,
  release_blocks, fail_capacity, allocate_locked, allocate, release, init_allocator,
}
use gpu_aware_llm_serving_pl.KvCache.Preserve.{init_allocator-Inv}
use gpu_aware_llm_serving_pl.TokenEngine.{
  eos, SamplingParameters, Engine, Sequence, init_sampling, invalid_value, engine_capacity,
  scheduled, with_blocks, reserve, cancel, phase, check_interruption, retire, complete, fail,
  accept_token, finish_interrupted, complete_all, shutdown, cancel_all, release_blocks_of, finish,
  active_sequence_count,
}
use gpu_aware_llm_serving_pl.TokenEngine.Ending.{IsOwning}
use gpu_aware_llm_serving_pl.TokenEngine.Owners.{
  completes, Call, reserves, cancels, accepts, run, step, run-IsOwning,
}

program : Unit {0}
unfolding lookup insert erase fresh_allocator update_pressure blocks_for_tokens mark_blocks
    release_block release_blocks fail_capacity allocate_locked allocate release init_sampling
    scheduled with_blocks reserve cancel phase check_interruption retire complete fail accept_token
    finish_interrupted complete_all cancel_all release_blocks_of finish shutdown run step
    active_sequence_count
program = tt

abbrev sampling : SamplingParameters
sampling = record { max_new_tokens = 1; temperature = 0; top_p = 1000; stop_token_ids = [] }

no_repeated_stop : init_sampling 1 0 1000 (5 ∷ 5 ∷ []) ≡ raise invalid_value
unfolding program
no_repeated_stop = refl

abbrev pool : Allocator
pool = record {
  total_blocks = 4;
  block_size_tokens = 16;
  bytes_per_block = 1;
  high_watermark = 900;
  low_watermark = 700;
  free = 0 ∷ 1 ∷ 2 ∷ 3 ∷ [];
  owners = [];
  references = [];
  allocation_failures = 0;
  pressure = false;
}

abbrev engine : Engine
engine = record {
  max_active_sequences = 2;
  kv_allocator = pool;
  active = [];
  finished = [];
  released = [];
  closed = false;
}

-- A backend whose `release_sequence` does not raise, and one in which it always does.
abbrev sound : ℕ → Bool
sound _ = false

abbrev broken : ℕ → Bool
broken _ = true

abbrev first_sequence : Sequence
first_sequence = scheduled 1 7 sampling 100 (0 ∷ 1 ∷ []) 5

-- The first sequence ends with its first token.
abbrev calls : List Call
calls =
    reserves 1 7 sampling 100 20 5
    ∷ reserves 2 7 sampling 100 20 6
    ∷ accepts sound first_sequence 9 10 []
    ∷ cancels 2
    ∷ []

remaining : keys (run calls engine).active ≡ 2 ∷ []
unfolding program
remaining = refl

blocks_back : (run calls engine).kv_allocator.free ≡ 1 ∷ 0 ∷ []
unfolding program
blocks_back = refl

too_many : (reserve (run calls engine) 3 7 sampling 100 90 7).1 ≡ raise engine_capacity
unfolding program
too_many = refl

stopped : keys (shutdown sound (run calls engine)).0.active ≡ []
unfolding program
stopped = refl

-- The backend knows the second sequence and raises when it is released: the sequence stays active with its blocks.
abbrev broken_calls : List Call
broken_calls =
    calls
    ++ completes broken
        (record (scheduled 2 7 sampling 100 (2 ∷ 3 ∷ []) 6) { backend_created = true }) eos
      ∷ []

stays_active : keys (run broken_calls engine).active ≡ 2 ∷ []
unfolding program
stays_active = refl

init_allocator-pool : init_allocator 4 16 1 900 700 ≡ ok pool
unfolding init_allocator program
init_allocator-pool = refl

run-IsOwning_example : IsOwning (run broken_calls engine)
unfolding lookup
run-IsOwning_example = run-IsOwning broken_calls engine (record {
  books = init_allocator-Inv 4 16 1 900 700 pool init_allocator-pool;
  owned = λ id. refl;
})
