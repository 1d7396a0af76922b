-- ===== src/Shard/Tests.antt =====
-- Ten columns over three ranks.
use gpu_aware_llm_serving_pl.Common.{◌⊎◌, ℕ, ◌≡◌, ◌≤◌, ◌<◌, ◌/◌, ◌+◌, refl, ok, raise, arith}
use gpu_aware_llm_serving_pl.Shard.{TensorShard, balanced_shard, shard_size, value_error}
use gpu_aware_llm_serving_pl.Shard.Partition.{balanced_shard_lem, balanced_shard_covers}

abbrev shard : ℕ → ℕ → ℕ → TensorShard
shard r from to = record { rank = r; world_size = 3; start = from; end = to }

no_rank : balanced_shard 10 3 3 ≡ raise value_error
unfolding balanced_shard
no_rank = refl

last_rank : balanced_shard 10 2 3 ≡ ok (shard 2 7 10)
unfolding balanced_shard
last_rank = refl

balanced_shard_lem_example :
    let ranks : ℕ = 2 in
    (10 / 3 ≤ shard_size (shard 0 0 4))
    × (shard_size (shard 0 0 4) ≤ 10 / 3 + 1)
    × (shard_size (shard 2 7 10) ≤ shard_size (shard 0 0 4))
    × ((ranks ≡ 0) ⊎ (4 ≤ (shard 2 7 10).start))
unfolding balanced_shard
balanced_shard_lem_example = balanced_shard_lem 10 0 2 3 (shard 0 0 4) (shard 2 7 10) refl refl

balanced_shard_covers_example :
    (rank : ℕ) × (s : TensorShard) × (balanced_shard 10 rank 3 ≡ ok s)
    × (s.rank ≡ rank)
    × (s.start ≤ 5)
    × (5 < s.end)
balanced_shard_covers_example = balanced_shard_covers 10 3 5 (omega arith) (omega arith)
