-- ===== src/KvCache/Preserve.antt =====
-- The methods of inference/kv_cache.py keep the invariant.
use gpu_aware_llm_serving_pl.Common.{
  ℕ, ◌≤◌, ◌<◌, ◌≡◌, refl, true, false, some, List, [], ◌++◌, ◌==◌, length, take, drop, count,
  count-append, any, not, distinct, ◌||◌, count-distinct, count-range_from, length-range_from,
  Result, ok, arith, if_cases, Option-cases, inl, inr, subst, sym, ℤ, pos, negsuc, ap,
}
use gpu_aware_llm_serving_pl.Common.Dict.{
  Dict, lookup, insert, erase, has, size, share, total, IsDict, lookup-insert, lookup-erase,
  insert-IsDict, erase-IsDict, total-insert, total-erase, share-le-total,
}
use gpu_aware_llm_serving_pl.KvCache.{
  Allocator, KvError, init_allocator, fresh_allocator, mark_blocks, update_pressure, fail_capacity,
  allocate_locked, allocate, blocks_for_tokens, retain, release, release_blocks,
}
use gpu_aware_llm_serving_pl.KvCache.Blocks.{
  BlocksInv, Retained, release_blocks_lem, release_blocks_frame, any-not-has, retain_blocks_lem,
}
use gpu_aware_llm_serving_pl.KvCache.Invariant.{
  Inv, update_pressure-Inv, taken_once, claim-BlocksInv, ref-claim,
}

-- The state that a method leaves is a valid one, whether it returns or raises.
abbrev pub Kept : {A : Type 0} → Allocator × Result KvError A → Type 0
Kept r = Inv r.0

fresh_allocator-Inv :
    (n size bytes high low : ℕ)
    → 0 < n
    → 0 < size
    → low < high
    → Inv (fresh_allocator n size bytes high low)
unfolding fresh_allocator total lookup
fresh_allocator-Inv n size bytes high low p q r = record {
  sizes = record { some_blocks = p; some_tokens = q; low_lt_high = r };
  books = record {
    blocks = record {
      partition = λ b. ground (arith, count-range_from b 0 n);
      positive = λ b e. cc;
      references_dict = tt;
      sized = omega (arith, length-range_from 0 n);
    };
    counted = λ b. refl;
    tables = λ o b. omega arith;
    owners_dict = tt;
  };
  flag = record { on = λ e. cc; off = λ e. grind arith };
}

pub init_allocator-Inv :
    (n size bytes high low : ℕ) (a : Allocator)
    → init_allocator n size bytes high low ≡ ok a
    → Inv a
unfolding init_allocator
init_allocator-Inv n size bytes high low a e =
    ground (arith, fresh_allocator-Inv n size bytes high low)

pub fail_capacity-Inv : (a : Allocator) → Inv a → Inv (fail_capacity a).0
unfolding fail_capacity
fail_capacity-Inv a h =
    let open_books = h.books in
    update_pressure-Inv _
      (record {
        some_blocks = h.sizes.some_blocks;
        some_tokens = h.sizes.some_tokens;
        low_lt_high = h.sizes.low_lt_high;
      })
      (record {
        blocks = record {
          partition = h.books.blocks.partition;
          positive = h.books.blocks.positive;
          references_dict = h.books.blocks.references_dict;
          sized = h.books.blocks.sized;
        };
        counted = h.books.counted;
        tables = h.books.tables;
        owners_dict = h.books.owners_dict;
      })

-- Blocks taken from the free stack, put behind the blocks that an owner has.
module _ (a : Allocator) (owner n : ℕ) (blocks : List ℕ) (h : Inv a) where
  pub claim-Inv :
      n ≤ length a.free
      → ((b : ℕ) → share (count b) (lookup owner a.owners) ≡ count b blocks)
      → Inv (
          update_pressure (record a {
            free = drop n a.free;
            owners = insert owner (blocks ++ take n a.free) a.owners;
            references = mark_blocks (take n a.free) a.references;
          }))
  claim-Inv enough had =
      update_pressure-Inv _
        (record {
          some_blocks = h.sizes.some_blocks;
          some_tokens = h.sizes.some_tokens;
          low_lt_high = h.sizes.low_lt_high;
        })
        (record {
          blocks = claim-BlocksInv a n _ h.books.blocks enough;
          counted = λ b. omega (
            arith,
            h.books.counted b,
            had b,
            ref-claim a n [] h.books.blocks b,
            count-append b blocks (take n a.free),
            total-insert (count b) owner (blocks ++ take n a.free) a.owners,
          );
          tables = λ o b. ground (
            arith,
            had b,
            h.books.tables o b,
            h.books.tables owner b,
            h.books.counted b,
            taken_once a n [] h.books.blocks b,
            count-append b blocks (take n a.free),
            share-le-total (count b) owner a.owners,
            lookup-insert owner o (blocks ++ take n a.free) a.owners,
          );
          owners_dict = insert-IsDict owner _ a.owners h.books.owners_dict;
        })

allocate_locked-Inv :
    (a : Allocator) (owner required : ℕ) → Inv a → Inv (allocate_locked a owner required).0
unfolding allocate_locked
allocate_locked-Inv a owner required h =
    ground (arith, fail_capacity-Inv a h, claim-Inv a owner required [] h)

pub allocate-Inv :
    (a : Allocator) (owner : ℕ) (tokens : ℤ) → Inv a → Inv (allocate a owner tokens).0
unfolding allocate blocks_for_tokens
allocate-Inv a owner (pos n) h =
    if_cases Kept (owner == 0) (λ _. h) (λ _. allocate_locked-Inv a owner _ h)
allocate-Inv a owner (negsuc n) h = if_cases Kept (owner == 0) (λ _. h) (λ _. h)

retain_refs-Inv :
    (a : Allocator) (owner : ℕ) (bs : List ℕ) (refs : Dict ℕ)
    → Inv a
    → has owner a.owners ≡ false
    → ((b : ℕ) → count b bs ≤ 1)
    → Retained bs a.references refs
    → Inv (update_pressure (record a { owners = insert owner bs a.owners; references = refs }))
retain_refs-Inv a owner bs refs h new once t =
    update_pressure-Inv _
      (record {
        some_blocks = h.sizes.some_blocks;
        some_tokens = h.sizes.some_tokens;
        low_lt_high = h.sizes.low_lt_high;
      })
      (record {
        blocks = record {
          partition = λ b. rw (t.same_blocks b) (h.books.blocks.partition b);
          positive = λ b. ground (arith, t.added b, t.same_blocks b, h.books.blocks.positive b);
          references_dict = t.is_dict;
          sized = rw t.same_size h.books.blocks.sized;
        };
        counted = λ b.
            ground (arith, h.books.counted b, t.added b, total-insert (count b) owner bs a.owners);
        tables =
            λ o b. ground (arith, h.books.tables o b, once b, lookup-insert owner o bs a.owners);
        owners_dict = insert-IsDict owner bs a.owners h.books.owners_dict;
      })

pub retain-Inv : (a : Allocator) (owner : ℕ) (bs : List ℕ) → Inv a → Inv (retain a owner bs).0
unfolding retain
retain-Inv a owner bs h =
    if_cases Kept ((owner == 0) || (length bs == 0)) (λ _. h)
      λ _.
        if_cases Kept (not (distinct bs)) (λ _. h)
          λ apart.
            if_cases Kept (has owner a.owners) (λ _. h)
              λ new.
                if_cases Kept (any (λ b. not (has b a.references)) bs) (λ _. h)
                  λ known.
                    let (refs, t) =
                      retain_blocks_lem bs a.references h.books.blocks.references_dict
                        (λ b. any-not-has bs a.references b known) in
                    rw (t.runs) (
                      retain_refs-Inv a owner bs refs h new
                        (λ b. count-distinct b bs (ground arith)) t)

pub release_owner-Inv :
    (a : Allocator) (owner : ℕ) (bs : List ℕ)
    → Inv a
    → lookup owner a.owners ≡ some bs
    → let (a', done) = release_blocks bs (record a { owners = erase owner a.owners }) in
      (done ≡ ok true) × Inv (update_pressure a')
release_owner-Inv a owner bs h e =
    let c = record a { owners = erase owner a.owners } in
    let books : BlocksInv c = record {
      partition = h.books.blocks.partition;
      positive = h.books.blocks.positive;
      references_dict = h.books.blocks.references_dict;
      sized = h.books.blocks.sized;
    } in
    let less = λ (b : ℕ). total-erase (count b) owner a.owners h.books.owners_dict in
    let (done, inv, taken) =
      release_blocks_lem bs c books (λ b. ground (arith, h.books.counted b, less b)) in
    let frame = release_blocks_frame bs c in
    (
      done,
      update_pressure-Inv _
          (record {
            some_blocks = ground (arith, frame, h.sizes);
            some_tokens = ground (arith, frame, h.sizes);
            low_lt_high = ground (arith, frame, h.sizes);
          })
          (record {
            blocks = inv;
            counted = λ b. ground (arith, frame, taken b, h.books.counted b, less b);
            tables =
                λ o b. ground (arith, frame, h.books.tables o b, lookup-erase owner o a.owners);
            owners_dict =
                subst IsDict (sym (ap (λ d. d.owners) frame))
                  (erase-IsDict owner a.owners h.books.owners_dict);
          }),
    )

pub release-Inv :
    (a : Allocator) (owner : ℕ)
    → Inv a
    → Inv (release a owner).0 × ((release a owner).1 ≡ ok (has owner a.owners))
unfolding release
release-Inv a owner h = elim (Option-cases (lookup owner a.owners)) [
  | inl e ↦ rw (e, release) (h, refl)
  | inr (bs, e) ↦
      let (done, inv) = release_owner-Inv a owner bs h e in rw (e, release, done) (inv, refl)
]
