-- ===== src/KvCache.antt =====
-- inference/kv_cache.py: the block allocator. A lock makes each method atomic, so a method is one
-- step. The free stack's top is the head of the list. Watermarks are in thousandths.
pub mod Blocks
pub mod Invariant
pub mod Preserve
pub mod Resize
pub mod Results
mod Tests
use gpu_aware_llm_serving_pl.Common.{
  ℕ, ◌+◌, ◌-◌, ◌*◌, ◌/◌, Bool, true, false, not, ◌&&◌, ◌||◌, none, some, List, [], ◌∷◌, ◌++◌, ltb,
  leb, ◌==◌, if◌then◌else◌, length, take, drop, any, distinct, range_from, Result, ok, raise, ℤ,
  pos, negsuc,
}
use gpu_aware_llm_serving_pl.Common.Dict.{Dict, lookup, insert, erase, has, size}

pub data KvError : Type 0 where
  value_error ownership_error capacity_error key_error : KvError

pub record Allocator : Type 0 where
  pub total_blocks : ℕ
  pub block_size_tokens : ℕ
  pub bytes_per_block : ℕ
  pub high_watermark : ℕ
  pub low_watermark : ℕ
  pub free : List ℕ
  pub owners : Dict (List ℕ)
  pub references : Dict ℕ
  pub allocation_failures : ℕ
  pub pressure : Bool

-- The fields as the constructor sets them, once its checks have passed.
unfoldable pub fresh_allocator : ℕ → ℕ → ℕ → ℕ → ℕ → Allocator
fresh_allocator total size bytes high low = record {
  total_blocks = total;
  block_size_tokens = size;
  bytes_per_block = bytes;
  high_watermark = high;
  low_watermark = low;
  free = range_from 0 total;
  owners = [];
  references = [];
  allocation_failures = 0;
  pressure = false;
}

unfoldable pub init_allocator : ℕ → ℕ → ℕ → ℕ → ℕ → Result KvError Allocator
init_allocator total size bytes high low =
    if (total == 0) || (size == 0) || (bytes == 0)
    then raise value_error
    else if not (ltb 0 low && ltb low high && leb high 1000)
    then raise value_error
    else ok (fresh_allocator total size bytes high low)

unfoldable pub blocks_for_tokens : Allocator → ℤ → Result KvError ℕ
blocks_for_tokens a (pos n) = ok ((n + a.block_size_tokens - 1) / a.block_size_tokens)
blocks_for_tokens a (negsuc n) = raise value_error

-- utilization >= high, and utilization <= low, without the division.
unfoldable pub update_pressure : Allocator → Allocator
update_pressure a =
    if not a.pressure && leb (a.high_watermark * a.total_blocks) (size a.references * 1000)
    then record a { pressure = true }
    else if a.pressure && leb (size a.references * 1000) (a.low_watermark * a.total_blocks)
    then record a { pressure = false }
    else a

-- for block_id in blocks: self._references[block_id] = 1
unfoldable pub mark_blocks : List ℕ → Dict ℕ → Dict ℕ
mark_blocks [] refs = refs
mark_blocks (b ∷ bs) refs = mark_blocks bs (insert b 1 refs)

-- for block_id in block_ids: self._references[block_id] += 1
unfoldable pub retain_blocks : List ℕ → Dict ℕ → Result KvError (Dict ℕ)
retain_blocks [] refs = ok refs
retain_blocks (b ∷ bs) refs = elim (lookup b refs) [
  | none ↦ raise key_error
  | some r ↦ retain_blocks bs (insert b (r + 1) refs)
]

-- One reference less; a block goes back to the free stack with its last one.
unfoldable pub release_block : ℕ → ℕ → Allocator → Allocator
release_block b r a =
    if r == 1
    then record a { references = erase b a.references; free = b ∷ a.free }
    else record a { references = insert b (r - 1) a.references }

-- The loop of `release`.
unfoldable pub release_blocks : List ℕ → Allocator → Allocator × Result KvError Bool
release_blocks [] a = (a, ok true)
release_blocks (b ∷ bs) a = elim (lookup b a.references) [
  | none ↦ (a, raise key_error)
  | some r ↦ release_blocks bs (release_block b r a)
]

-- The loop of `resize` over the blocks that are cut off.
unfoldable pub cut_blocks : List ℕ → Allocator → Allocator × Result KvError Bool
cut_blocks [] a = (a, ok true)
cut_blocks (b ∷ bs) a = elim (lookup b a.references) [
  | none ↦ (a, raise key_error)
  | some r ↦ cut_blocks bs (record a { references = erase b a.references; free = b ∷ a.free })
]

-- any(self._references[block_id] != 1 for block_id in blocks)
unfoldable pub is_shared : List ℕ → Dict ℕ → Result KvError Bool
is_shared [] refs = ok false
is_shared (b ∷ bs) refs =
    let rest = is_shared bs refs in
    elim (lookup b refs) [ none ↦ raise key_error | some r ↦ if r == 1 then rest else ok true ]

unfoldable pub fail_capacity : Allocator → Allocator × Result KvError (List ℕ)
unfolding update_pressure
fail_capacity a = (
  update_pressure (record a { allocation_failures = a.allocation_failures + 1 }),
  raise capacity_error,
)

-- What `allocate` does when it holds the lock.
unfoldable pub allocate_locked : Allocator → ℕ → ℕ → Allocator × Result KvError (List ℕ)
allocate_locked a owner required =
    if has owner a.owners
    then (a, raise ownership_error)
    else if ltb (length a.free) required
    then fail_capacity a
    else (
      update_pressure (record a {
        free = drop required a.free;
        owners = insert owner (take required a.free) a.owners;
        references = mark_blocks (take required a.free) a.references;
      }),
      ok (take required a.free),
    )

unfoldable pub allocate : Allocator → ℕ → ℤ → Allocator × Result KvError (List ℕ)
allocate a owner tokens =
    if owner == 0 then (a, raise value_error) else elim (blocks_for_tokens a tokens) [
      | raise e ↦ (a, raise e)
      | ok required ↦ allocate_locked a owner required
    ]

unfoldable pub retain : Allocator → ℕ → List ℕ → Allocator × Result KvError Bool
retain a owner blocks =
    if (owner == 0) || (length blocks == 0)
    then (a, raise value_error)
    else if not (distinct blocks)
    then (a, raise value_error)
    else if has owner a.owners
    then (a, raise ownership_error)
    else if any (λ b. not (has b a.references)) blocks
    then (a, raise ownership_error)
    else elim (retain_blocks blocks a.references) [
      | raise e ↦ (record a { owners = insert owner blocks a.owners }, raise e)
      | ok refs ↦ (
        update_pressure (record a { owners = insert owner blocks a.owners; references = refs }),
        ok true,
      )
    ]

unfoldable pub grow : Allocator → ℕ → List ℕ → ℕ → Allocator × Result KvError (List ℕ)
grow a owner blocks additional = (
  update_pressure (record a {
    free = drop additional a.free;
    owners = insert owner (blocks ++ take additional a.free) a.owners;
    references = mark_blocks (take additional a.free) a.references;
  }),
  ok (blocks ++ take additional a.free),
)

unfoldable pub shrink : Allocator → ℕ → List ℕ → ℕ → Allocator × Result KvError (List ℕ)
shrink a owner blocks required =
    let (a', done) = cut_blocks (drop required blocks) a in
    elim done [
      | raise e ↦ (a', raise e)
      | ok _ ↦ (
        update_pressure (record a' { owners = insert owner (take required blocks) a'.owners }),
        ok (take required blocks),
      )
    ]

unfoldable pub resize_locked : Allocator → ℕ → List ℕ → ℕ → Allocator × Result KvError (List ℕ)
resize_locked a owner blocks required =
    if ltb (length a.free) (required - length blocks)
    then fail_capacity a
    else if ltb (length blocks) required
    then grow a owner blocks (required - length blocks)
    else if ltb required (length blocks)
    then shrink a owner blocks required
    else (update_pressure a, ok blocks)

-- The test on `any(...)`, whose value is the last argument.
unfoldable pub resize_owned :
    Allocator → ℕ → List ℕ → ℕ → Result KvError Bool → Allocator × Result KvError (List ℕ)
resize_owned a owner blocks required (raise e) = (a, raise e)
resize_owned a owner blocks required (ok true) = (a, raise ownership_error)
resize_owned a owner blocks required (ok false) = resize_locked a owner blocks required

unfoldable pub resize : Allocator → ℕ → ℤ → Allocator × Result KvError (List ℕ)
resize a owner tokens = elim (blocks_for_tokens a tokens) [
  | raise e ↦ (a, raise e)
  | ok required ↦ elim (lookup owner a.owners) [
    | none ↦ (a, raise ownership_error)
    | some blocks ↦ resize_owned a owner blocks required (is_shared blocks a.references)
  ]
]

unfoldable pub release : Allocator → ℕ → Allocator × Result KvError Bool
release a owner = elim (lookup owner a.owners) [
  | none ↦ (a, ok false)
  | some blocks ↦
      let (a', done) = release_blocks blocks (record a { owners = erase owner a.owners }) in
      elim done [ raise e ↦ (a', raise e) | ok _ ↦ (update_pressure a', ok true) ]
]

unfoldable pub block_table : Allocator → ℕ → Result KvError (List ℕ)
block_table a owner = elim (lookup owner a.owners) [
  | none ↦ raise ownership_error
  | some blocks ↦ ok blocks
]

-- `KVBlockTable` and its `token_capacity`.
pub record BlockTable : Type 0 where
  pub owner_id : ℕ
  pub block_ids : List ℕ
  pub block_size_tokens : ℕ

unfoldable pub token_capacity : BlockTable → ℕ
token_capacity t = length t.block_ids * t.block_size_tokens

unfoldable pub table : Allocator → ℕ → Result KvError BlockTable
table a owner = elim (block_table a owner) [
  | raise e ↦ raise e
  | ok blocks ↦
      ok (record { owner_id = owner; block_ids = blocks; block_size_tokens = a.block_size_tokens })
]

-- The utilization is left out: it is `used_blocks / total_blocks`.
pub record Snapshot : Type 0 where
  pub total_blocks : ℕ
  pub used_blocks : ℕ
  pub free_blocks : ℕ
  pub bytes_used : ℕ
  pub allocation_failures : ℕ
  pub pressure : Bool

unfoldable pub snapshot : Allocator → Snapshot
snapshot a = record {
  total_blocks = a.total_blocks;
  used_blocks = size a.references;
  free_blocks = length a.free;
  bytes_used = size a.references * a.bytes_per_block;
  allocation_failures = a.allocation_failures;
  pressure = a.pressure;
}
