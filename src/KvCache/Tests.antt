-- ===== src/KvCache/Tests.antt =====
-- The allocator of inference/kv_cache.py on small pools.
use gpu_aware_llm_serving_pl.Common.{
  ℕ, ◌+◌, ◌*◌, ◌≤◌, ◌<◌, ◌≡◌, ◌≢◌, refl, false, List, [], ◌∷◌, length, count, ok, raise, pos,
  negsuc,
}
use gpu_aware_llm_serving_pl.Common.Dict.{lookup, insert, erase, total}
use gpu_aware_llm_serving_pl.KvCache.{
  Allocator, capacity_error, ownership_error, value_error, init_allocator, fresh_allocator,
  blocks_for_tokens, update_pressure, mark_blocks, retain_blocks, release_block, release_blocks,
  cut_blocks, is_shared, fail_capacity, allocate_locked, allocate, retain, grow, shrink,
  resize_locked, resize_owned, resize, release, block_table, table, token_capacity, snapshot,
}
use gpu_aware_llm_serving_pl.KvCache.Blocks.{ref}
use gpu_aware_llm_serving_pl.KvCache.Invariant.{Inv}
use gpu_aware_llm_serving_pl.KvCache.Preserve.{init_allocator-Inv}
use gpu_aware_llm_serving_pl.KvCache.Results.{
  Call, allocates, resizes, retains, releases, step, run, run-init_allocator-Inv, allocate_ok,
  allocate_raises, release-allocate,
}

program : Unit {0}
unfolding lookup insert erase init_allocator fresh_allocator blocks_for_tokens update_pressure
    mark_blocks retain_blocks release_block release_blocks cut_blocks is_shared fail_capacity
    allocate_locked allocate retain grow shrink resize_locked resize_owned resize release
    block_table table token_capacity snapshot step run
program = tt

abbrev pool : Allocator
pool = record {
  total_blocks = 4;
  block_size_tokens = 16;
  bytes_per_block = 1;
  high_watermark = 900;
  low_watermark = 700;
  free = 0 ∷ 1 ∷ 2 ∷ 3 ∷ [];
  owners = [];
  references = [];
  allocation_failures = 0;
  pressure = false;
}

init_pool : init_allocator 4 16 1 900 700 ≡ ok pool
unfolding program
init_pool = refl

pool-Inv : Inv pool
pool-Inv = init_allocator-Inv 4 16 1 900 700 pool init_pool

abbrev granted : List ℕ
granted = 0 ∷ 1 ∷ []

-- Two tables share block 0; the second one outlives the first.
abbrev history : List Call
history =
    allocates 1 (pos 20)
    ∷ retains 2 (0 ∷ [])
    ∷ resizes 1 (pos 40)
    ∷ releases 1
    ∷ allocates 3 (pos 99)
    ∷ resizes 2 (pos 33)
    ∷ []

shared : (snapshot (run history pool)).used_blocks ≡ 3
unfolding program
shared = refl

shared_table : block_table (run history pool) 2 ≡ ok (0 ∷ 1 ∷ 2 ∷ [])
unfolding program
shared_table = refl

refused_resize :
    (resize (run (allocates 1 (pos 20) ∷ retains 2 (0 ∷ []) ∷ []) pool) 1 (pos 40)).1
    ≡ raise ownership_error
unfolding program
refused_resize = refl

negative : (allocate pool 1 (negsuc 0)).1 ≡ raise value_error
unfolding program
negative = refl

run-init_allocator-Inv_example : Inv (run history pool)
run-init_allocator-Inv_example = run-init_allocator-Inv 4 16 1 900 700 history pool init_pool

allocate_ok_example :
    (20 ≤ length granted * pool.block_size_tokens)
    × (length granted * pool.block_size_tokens < 20 + pool.block_size_tokens)
    × ((b : ℕ) → count b granted ≢ 0 → (count b pool.free ≡ 1) × (total (count b) pool.owners ≡ 0))
    × (block_table (allocate pool 1 (pos 20)).0 1 ≡ ok granted)
unfolding program
allocate_ok_example = allocate_ok pool 1 (0 ∷ 1 ∷ []) 20 pool-Inv refl

allocate_raises_example :
    ((allocate pool 1 (pos 99)).0.free ≡ pool.free)
    × ((allocate pool 1 (pos 99)).0.owners ≡ pool.owners)
    × ((allocate pool 1 (pos 99)).0.references ≡ pool.references)
unfolding program
allocate_raises_example = allocate_raises pool 1 (pos 99) capacity_error refl

release-allocate_example :
    let a' = (release (allocate pool 1 (pos 20)).0 1).0 in
    (ref 1 a'.references ≡ ref 1 pool.references) × (count 1 a'.free ≡ count 1 pool.free)
unfolding program
release-allocate_example = release-allocate pool 1 20 (0 ∷ 1 ∷ []) 1 pool-Inv refl
