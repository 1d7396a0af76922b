-- ===== src/KvCache/Resize.antt =====
-- `resize` of inference/kv_cache.py keeps the invariant.
use gpu_aware_llm_serving_pl.Common.{
  ℕ, ◌+◌, ◌-◌, ◌/◌, ◌≤◌, ◌≡◌, ◌≢◌, refl, true, false, some, List, ltb, length, take, drop, count,
  count-take-drop, Result, ok, raise, arith, if_cases, Option-cases, inl, inr, Bool, ℤ, pos, negsuc,
  ap,
}
use gpu_aware_llm_serving_pl.Common.Dict.{lookup, lookup-insert, insert-IsDict, total-insert}
use gpu_aware_llm_serving_pl.KvCache.{
  Allocator, KvError, blocks_for_tokens, grow, shrink, cut_blocks, resize_locked, resize_owned,
  resize, is_shared,
}
use gpu_aware_llm_serving_pl.KvCache.Blocks.{
  ref, BlocksInv, release_blocks_lem, release_blocks_frame, cut_blocks-release_blocks,
  is_shared-false,
}
use gpu_aware_llm_serving_pl.KvCache.Invariant.{Inv, update_pressure-Inv}
use gpu_aware_llm_serving_pl.KvCache.Preserve.{Kept, fail_capacity-Inv, claim-Inv}

module _ (a : Allocator) (owner : ℕ) (blocks : List ℕ) (h : Inv a)
    (owned : lookup owner a.owners ≡ some blocks)
    (single : (b : ℕ) → count b blocks ≢ 0 → lookup b a.references ≡ some 1) where
  once : (b : ℕ) → count b blocks ≤ 1
  once b = ground (arith, h.books.tables owner b)

  cut_blocks_lem :
      (required : ℕ)
      → let r = cut_blocks (drop required blocks) a in
        (r.1 ≡ ok true)
        × BlocksInv r.0
        × ((b : ℕ) → ref b r.0.references + count b (drop required blocks) ≡ ref b a.references)
        × (record r.0 { free = a.free; references = a.references } ≡ a)
  cut_blocks_lem required =
      let cut = drop required blocks in
      let parts = λ (b : ℕ). count-take-drop b required blocks in
      let (done, inv, taken) =
        release_blocks_lem cut a h.books.blocks (λ b. ground (arith, once b, parts b, single b)) in
      rw
        (cut_blocks-release_blocks cut a (λ b. ground (arith, once b, parts b))
          (λ b m. single b (ground (arith, parts b))))
        (done, inv, taken, release_blocks_frame cut a)

  shrink_lem :
      (required : ℕ)
      → ((shrink a owner blocks required).1 ≡ ok (take required blocks))
        × Inv (shrink a owner blocks required).0
  unfolding shrink
  shrink_lem required =
      let parts = λ (b : ℕ). count-take-drop b required blocks in
      let (done, inv, taken, frame) = cut_blocks_lem required in
      let swap = λ (b : ℕ). total-insert (count b) owner (take required blocks) a.owners in
      rw (shrink, done)
        (
          refl,
          update_pressure-Inv _
              (record {
                some_blocks = ground (arith, frame, h.sizes);
                some_tokens = ground (arith, frame, h.sizes);
                low_lt_high = ground (arith, frame, h.sizes);
              })
              (record {
                blocks = record {
                  partition = inv.partition;
                  positive = inv.positive;
                  references_dict = inv.references_dict;
                  sized = inv.sized;
                };
                counted = λ b.
                    rw (ap (λ d. d.owners) frame)
                      (ground (arith, taken b, h.books.counted b, swap b, parts b, owned));
                tables = λ o b. rw (ap (λ d. d.owners) frame) (
                    ground (
                      arith,
                      h.books.tables o b,
                      once b,
                      parts b,
                      lookup-insert owner o (take required blocks) a.owners,
                    ));
                owners_dict =
                    rw (ap (λ d. d.owners) frame)
                      (insert-IsDict owner _ a.owners h.books.owners_dict);
              }),
        )

  resize_locked-Inv : (required : ℕ) → Inv (resize_locked a owner blocks required).0
  unfolding resize_locked grow
  resize_locked-Inv required =
      if_cases Kept (ltb (length a.free) (required - length blocks)) (λ _. fail_capacity-Inv a h)
        λ room.
          if_cases Kept (ltb (length blocks) required)
            (λ _. claim-Inv a owner _ blocks h (ground arith) (λ b. ground (arith, owned)))
            λ _.
              if_cases Kept (ltb required (length blocks)) (λ _. (shrink_lem required).1)
                (λ _. update_pressure-Inv a h.sizes h.books)

pub resize-Inv : (a : Allocator) (owner : ℕ) (tokens : ℤ) → Inv a → Inv (resize a owner tokens).0
unfolding resize resize_owned blocks_for_tokens
resize-Inv a owner (negsuc n) h = h
resize-Inv a owner (pos n) h = elim (Option-cases (lookup owner a.owners)) [
  | inl e ↦ rw (e, resize) h
  | inr (bs, e) ↦ rw (e, resize) (go bs e (is_shared bs a.references) refl)
]
  where
    required : ℕ
    required = (n + a.block_size_tokens - 1) / a.block_size_tokens

    go :
        (bs : List ℕ)
        → lookup owner a.owners ≡ some bs
        → (r : Result KvError Bool) → is_shared bs a.references ≡ r
        → Kept (resize_owned a owner bs required r)
    go bs e (raise x) q = h
    go bs e (ok true) q = h
    go bs e (ok false) q =
        resize_locked-Inv a owner bs h e (λ b. is_shared-false bs a.references b q) required
