-- ===== src/KvCache/Results.antt =====
-- What the callers of inference/kv_cache.py rely on: histories, capacity, isolation, atomic failure.
use native.Mathlib.Nat.{div-add-mod, mod-lt}
use gpu_aware_llm_serving_pl.Common.{
  ℕ, ◌+◌, ◌-◌, ◌*◌, ◌/◌, ◌≤◌, ◌<◌, ◌≡◌, ◌≢◌, none, some, List, [], ◌∷◌, length, take, count,
  count-take-drop, length-take, ok, raise, arith, ◌∙◌, ℤ, pos, negsuc, ap,
}
use gpu_aware_llm_serving_pl.Common.Dict.{
  lookup, insert, erase, size, share, total, lookup-insert, total-insert, total-erase,
}
use gpu_aware_llm_serving_pl.KvCache.{
  Allocator, KvError, update_pressure, fail_capacity, blocks_for_tokens, allocate_locked, allocate,
  retain, resize, release, block_table, init_allocator,
}
use gpu_aware_llm_serving_pl.KvCache.Blocks.{ref, release_blocks_frame}
use gpu_aware_llm_serving_pl.KvCache.Invariant.{Inv}
use gpu_aware_llm_serving_pl.KvCache.Preserve.{
  init_allocator-Inv, allocate-Inv, retain-Inv, release-Inv, release_owner-Inv,
}
use gpu_aware_llm_serving_pl.KvCache.Resize.{resize-Inv}

pub data Call : Type 0 where
  allocates resizes : ℕ → ℤ → Call
  retains : ℕ → List ℕ → Call
  releases : ℕ → Call

-- A call that raises leaves the state that it had reached.
unfoldable pub step : Call → Allocator → Allocator
step (allocates o n) a = (allocate a o n).0
step (resizes o n) a = (resize a o n).0
step (retains o bs) a = (retain a o bs).0
step (releases o) a = (release a o).0

unfoldable pub run : List Call → Allocator → Allocator
unfolding step
run [] a = a
run (c ∷ cs) a = run cs (step c a)

step-Inv : (c : Call) (a : Allocator) → Inv a → Inv (step c a)
unfolding step
step-Inv (allocates o n) a h = allocate-Inv a o n h
step-Inv (resizes o n) a h = resize-Inv a o n h
step-Inv (retains o bs) a h = retain-Inv a o bs h
step-Inv (releases o) a h = (release-Inv a o h).0

run-Inv : (cs : List Call) (a : Allocator) → Inv a → Inv (run cs a)
unfolding run
run-Inv [] a h = h
run-Inv (c ∷ cs) a h = run-Inv cs (step c a) (step-Inv c a h)

-- After any history of calls on a new allocator, raising ones included, the invariant holds: each
-- block of the pool is free or allocated and never both, a block's reference count is the number of
-- tables that hold it, no table holds a block twice, and the pressure flag fits the watermarks.
pub run-init_allocator-Inv :
    (n size bytes high low : ℕ) (cs : List Call) (a : Allocator)
    → init_allocator n size bytes high low ≡ ok a
    → Inv (run cs a)
run-init_allocator-Inv n size bytes high low cs a e =
    run-Inv cs a (init_allocator-Inv n size bytes high low a e)

-- ceil(n / size) blocks hold n tokens, and no block of them is spare.
ceil_bounds :
    (n size : ℕ)
    → 0 < size
    → (n ≤ ((n + size - 1) / size) * size) × (((n + size - 1) / size) * size < n + size)
ceil_bounds n size p =
    let whole = div-add-mod (n + size - 1) size in
    let rest = mod-lt (n + size - 1) p in (omega (arith, whole, rest), omega (arith, whole, rest))

module _ (a : Allocator) (owner : ℕ) (bs : List ℕ) where
  allocate_locked_ok :
      (required : ℕ)
      → (allocate_locked a owner required).1 ≡ ok bs
      → (required ≤ length a.free)
        × (bs ≡ take required a.free)
        × (lookup owner a.owners ≡ none)
        × ((allocate_locked a owner required).0.owners ≡ insert owner bs a.owners)
        × ((allocate_locked a owner required).0.total_blocks ≡ a.total_blocks)
  unfolding allocate_locked update_pressure fail_capacity
  allocate_locked_ok required e = ground arith

  allocate_some :
      (tokens : ℕ)
      → (allocate a owner (pos tokens)).1 ≡ ok bs
      → allocate a owner (pos tokens)
        ≡ allocate_locked a owner ((tokens + a.block_size_tokens - 1) / a.block_size_tokens)
  unfolding allocate blocks_for_tokens
  allocate_some tokens e = ground arith

  -- A granted allocation has just enough blocks for its tokens, all of them taken from the free
  -- stack; no table holds one of them, and they are now the owner's table.
  pub allocate_ok :
      (tokens : ℕ)
      → Inv a
      → (allocate a owner (pos tokens)).1 ≡ ok bs
      → (tokens ≤ length bs * a.block_size_tokens)
        × (length bs * a.block_size_tokens < tokens + a.block_size_tokens)
        × ((b : ℕ) → count b bs ≢ 0 → (count b a.free ≡ 1) × (total (count b) a.owners ≡ 0))
        × (block_table (allocate a owner (pos tokens)).0 owner ≡ ok bs)
  unfolding block_table
  allocate_ok tokens h e =
      let required = (tokens + a.block_size_tokens - 1) / a.block_size_tokens in
      let locked = allocate_some tokens e in
      let (room, taken, new, owners, _) = allocate_locked_ok required (rw (← locked) e) in
      let ceil = ceil_bounds tokens a.block_size_tokens h.sizes.some_tokens in
      let long : length bs ≡ required = rw taken (omega (arith, length-take required a.free)) in
      (
        rw long ceil.0,
        rw long ceil.1,
        λ b m. ground (
          arith,
          h.books.blocks.partition b,
          h.books.counted b,
          count-take-drop b required a.free,
          ap (count b) taken,
        ),
        rw (locked, owners, lookup-insert, block_table) (ground arith),
      )

-- A refused allocation changes no block, no table and no reference count.
pub allocate_raises :
    (a : Allocator) (owner : ℕ) (tokens : ℤ) (x : KvError)
    → (allocate a owner tokens).1 ≡ raise x
    → ((allocate a owner tokens).0.free ≡ a.free)
      × ((allocate a owner tokens).0.owners ≡ a.owners)
      × ((allocate a owner tokens).0.references ≡ a.references)
unfolding allocate blocks_for_tokens allocate_locked update_pressure fail_capacity
allocate_raises a owner (pos n) x e = ground arith
allocate_raises a owner (negsuc n) x e = ground arith

release_frame :
    (a : Allocator) (owner : ℕ) (bs : List ℕ)
    → Inv a
    → lookup owner a.owners ≡ some bs
    → ((release a owner).0.owners ≡ erase owner a.owners)
      × ((release a owner).0.total_blocks ≡ a.total_blocks)
unfolding release update_pressure
release_frame a owner bs h e =
    let frame = release_blocks_frame bs (record a { owners = erase owner a.owners }) in
    let done = (release_owner-Inv a owner bs h e).0 in rw (e, release, done) (ground (arith, frame))

-- A block's references and its place in the free stack follow from the block tables.
free_of_tables :
    (a a' : Allocator) (b : ℕ)
    → Inv a
    → Inv a'
    → a'.total_blocks ≡ a.total_blocks
    → total (count b) a'.owners ≡ total (count b) a.owners
    → (ref b a'.references ≡ ref b a.references) × (count b a'.free ≡ count b a.free)
free_of_tables a a' b h h' same tables = ground (
  arith,
  h.books.counted b,
  h'.books.counted b,
  h.books.blocks.partition b,
  h'.books.blocks.partition b,
  h.books.blocks.positive b,
  h'.books.blocks.positive b,
)

-- Releasing what was just allocated gives every block back: reference counts and free stack are as
-- before the allocation, for every block.
pub release-allocate :
    (a : Allocator) (owner tokens : ℕ) (bs : List ℕ) (b : ℕ)
    → Inv a
    → (allocate a owner (pos tokens)).1 ≡ ok bs
    → let a' = (release (allocate a owner (pos tokens)).0 owner).0 in
      (ref b a'.references ≡ ref b a.references) × (count b a'.free ≡ count b a.free)
release-allocate a owner tokens bs b h e =
    let required = (tokens + a.block_size_tokens - 1) / a.block_size_tokens in
    let locked = allocate_some a owner bs tokens e in
    let c = (allocate a owner (pos tokens)).0 in
    let inv = allocate-Inv a owner (pos tokens) h in
    let (_, _, new, owners, blocks) = allocate_locked_ok a owner bs required (rw (← locked) e) in
    let owners' : c.owners ≡ insert owner bs a.owners = rw locked owners in
    let blocks' : c.total_blocks ≡ a.total_blocks = rw locked blocks in
    let here : lookup owner c.owners ≡ some bs = rw (owners', lookup-insert) (ground arith) in
    let (left, same) = release_frame c owner bs inv here in
    free_of_tables a _ b h (release-Inv c owner inv).0 (same ∙ blocks') (
      omega (
        arith,
        ap (total (count b)) left,
        ap (total (count b)) owners',
        ap (share (count b)) here,
        ap (share (count b)) new,
        total-erase (count b) owner c.owners inv.books.owners_dict,
        total-insert (count b) owner bs a.owners,
      ))
