-- ===== src/Shard/Partition.antt =====
-- How the shards of runtime/distributed/config.py lie next to each other.
use native.Mathlib.Nat.{div-add-mod, mod-lt}
use gpu_aware_llm_serving_pl.Common.{
  ◌⊎◌, suc, ℕ, ◌+◌, ◌/◌, ◌%◌, ◌≡◌, ◌≤◌, ◌<◌, ltb, to_nat, ok, arith, zero, suc, refl, Bool-cases,
  inl, inr,
}
use gpu_aware_llm_serving_pl.Shard.{TensorShard, shard_size, shard_start, balanced_shard}

-- What a rank gets, and that it raises exactly for dimensions that make no sense.
module _ (total rank world : ℕ) (s : TensorShard) (e : balanced_shard total rank world ≡ ok s) where
  shard_fields :
      (s.start ≡ shard_start total rank world)
      × (s.end ≡ shard_start total rank world + (total / world + to_nat (ltb rank (total % world))))
      × (rank < world)
  unfolding balanced_shard
  shard_fields = ground arith

shard_start_next :
    (total rank world : ℕ)
    → shard_start total (rank + 1) world
      ≡ shard_start total rank world + (total / world + to_nat (ltb rank (total % world)))
shard_start_next total rank world = ground arith

-- Later ranks start no earlier.
shard_start_le :
    (total rank world k : ℕ) → shard_start total rank world ≤ shard_start total (rank + k) world
shard_start_le total rank world zero = ground arith
shard_start_le total rank world (suc k) =
    ground (arith, shard_start_le total rank world k, shard_start_next total (rank + k) world)

-- Where two ranks get a shard, the second rank no lower than the first: the size of the first shard is the quotient of
-- the total size by the number of ranks, or one more, the second is not larger, and they are shards of the same rank
-- or the first ends where the second starts or before.
pub balanced_shard_lem :
    (total a k world : ℕ) (s t : TensorShard)
    → balanced_shard total a world ≡ ok s
    → balanced_shard total (a + k) world ≡ ok t
    → (total / world ≤ shard_size s)
      × (shard_size s ≤ total / world + 1)
      × (shard_size t ≤ shard_size s)
      × ((k ≡ 0) ⊎ (s.end ≤ t.start))
balanced_shard_lem total a zero world s t e f =
    ground (arith, shard_fields total a world s e, shard_fields total (a + 0) world t f)
balanced_shard_lem total a (suc k) world s t e f = ground (
  arith,
  shard_fields total a world s e,
  shard_fields total (a + suc k) world t f,
  shard_start_next total a world,
  shard_start_le total (a + 1) world k,
)

shard_start_end : (total world : ℕ) → 0 < world → shard_start total world world ≡ total
shard_start_end total world h =
    let whole = div-add-mod total world in
    let rest = mod-lt total {m = world} h in ground (arith, whole, rest)

rank_of :
    (total world x n : ℕ)
    → x < shard_start total n world
    → (rank : ℕ) × (rank < n)
      × (shard_start total rank world ≤ x)
      × (x < shard_start total (rank + 1) world)
rank_of total world x zero h = absurd (ground arith)
rank_of total world x (suc n) h = elim (Bool-cases (ltb x (shard_start total n world))) [
  | inl l ↦
      let (rank, p, q, r) = rank_of total world x n (ground arith) in (rank, omega arith, q, r)
  | inr l ↦ (n, omega arith, ground arith, ground arith)
]

-- Where there is a rank at all, every index of the dimension lies between the start and the end of the shard that some
-- rank gets.
pub balanced_shard_covers :
    (total world x : ℕ)
    → 0 < world
    → x < total
    → (rank : ℕ) × (s : TensorShard) × (balanced_shard total rank world ≡ ok s)
      × (s.rank ≡ rank)
      × (s.start ≤ x)
      × (x < s.end)
unfolding balanced_shard
balanced_shard_covers total world x p h =
    let inside : x < shard_start total world world = rw (shard_start_end total world p) h in
    let (rank, low, from, to) = rank_of total world x world inside in
    (
      rank,
      record {
        rank = rank;
        world_size = world;
        start = shard_start total rank world;
        end = shard_start total rank world + (total / world + to_nat (ltb rank (total % world)));
      },
      ground arith,
      refl,
      from,
      ground (arith, to, shard_start_next total rank world),
    )
