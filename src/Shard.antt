-- ===== src/Shard.antt =====
-- runtime/distributed/config.py: the balanced shards of a tensor axis.
mod Partition
mod Tests
use gpu_aware_llm_serving_pl.Common.{
  ℕ, ◌+◌, ◌-◌, ◌*◌, ◌/◌, ◌%◌, ◌≡◌, Bool, ◌||◌, ◌==◌, ltb, leb, not, if◌then◌else◌, to_nat, min,
  Result, ok, raise,
}

pub data ShardError : Type 0 where
  value_error : ShardError

pub record TensorShard : Type 0 where
  pub rank : ℕ
  pub world_size : ℕ
  pub start : ℕ
  pub end : ℕ

abbrev pub shard_size : TensorShard → ℕ
shard_size s = s.end - s.start

-- base, remainder = divmod(total_size, world_size)
abbrev pub shard_start : ℕ → ℕ → ℕ → ℕ
shard_start total rank world = rank * (total / world) + min rank (total % world)

unfoldable pub balanced_shard : ℕ → ℕ → ℕ → Result ShardError TensorShard
balanced_shard total rank world =
    if (total == 0) || (world == 0) || not (ltb rank world)
    then raise value_error
    else ok (record {
      rank = rank;
      world_size = world;
      start = shard_start total rank world;
      end = shard_start total rank world + (total / world + to_nat (ltb rank (total % world)));
    })
