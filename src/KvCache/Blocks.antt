-- ===== src/KvCache/Blocks.antt =====
-- The loops of inference/kv_cache.py over block identifiers: what they do to the free stack and the
-- reference counts.
use gpu_aware_llm_serving_pl.Common.{
  ℕ, ◌+◌, ◌-◌, ◌≤◌, ◌≡◌, ◌≢◌, refl, true, false, not, some, any, List, [], ◌∷◌, ltb, ◌==◌,
  if◌then◌else◌, to_nat, length, count, ok, arith, Option-cases, inl, inr,
}
use gpu_aware_llm_serving_pl.Common.Dict.{
  Dict, lookup, insert, has, size, share, IsDict, lookup-insert, lookup-erase, insert-IsDict,
  erase-IsDict, size-insert, size-erase,
}
use gpu_aware_llm_serving_pl.KvCache.{
  Allocator, mark_blocks, release_block, release_blocks, cut_blocks, is_shared, retain_blocks,
}

-- The reference count of a block, 0 for a block that is not allocated.
abbrev pub ref : ℕ → Dict ℕ → ℕ
ref b refs = share (λ r. r) (lookup b refs)

pub record BlocksInv (a : Allocator) : Type 0 where
  pub partition :
      (b : ℕ) → count b a.free + to_nat (has b a.references) ≡ to_nat (ltb b a.total_blocks)
  pub positive : (b : ℕ) → lookup b a.references ≢ some 0
  pub references_dict : IsDict a.references
  pub sized : length a.free + size a.references ≡ a.total_blocks

pub lookup-mark_blocks :
    (b : ℕ) (bs : List ℕ) (refs : Dict ℕ)
    → lookup b (mark_blocks bs refs) ≡ (if ltb 0 (count b bs) then some 1 else lookup b refs)
unfolding mark_blocks
lookup-mark_blocks b [] refs = refl
lookup-mark_blocks b (x ∷ bs) refs =
    ground (arith, lookup-mark_blocks b bs (insert x 1 refs), lookup-insert x b 1 refs)

pub mark_blocks-IsDict : (bs : List ℕ) (refs : Dict ℕ) → IsDict refs → IsDict (mark_blocks bs refs)
unfolding mark_blocks
mark_blocks-IsDict [] refs h = h
mark_blocks-IsDict (x ∷ bs) refs h = mark_blocks-IsDict bs _ (insert-IsDict x 1 refs h)

pub size-mark_blocks :
    (bs : List ℕ) (refs : Dict ℕ)
    → ((b : ℕ) → count b bs + to_nat (has b refs) ≤ 1)
    → size (mark_blocks bs refs) ≡ size refs + length bs
unfolding mark_blocks
size-mark_blocks [] refs h = omega arith
size-mark_blocks (x ∷ bs) refs h = ground (
  arith,
  h x,
  size-insert x 1 refs,
  size-mark_blocks bs (insert x 1 refs) (λ b. ground (arith, h b, h x, lookup-insert x b 1 refs)),
)

release_block-BlocksInv :
    (b r : ℕ) (a : Allocator)
    → lookup b a.references ≡ some r
    → BlocksInv a
    → BlocksInv (release_block b r a)
unfolding release_block
release_block-BlocksInv b r a e h = record {
  partition = λ c.
      ground (
        arith,
        h.partition c,
        lookup-erase b c a.references,
        lookup-insert b c (r - 1) a.references,
      );
  positive = λ c. ground (
    arith,
    h.positive c,
    h.positive b,
    lookup-erase b c a.references,
    lookup-insert b c (r - 1) a.references,
  );
  references_dict = ground (
    arith,
    erase-IsDict b a.references h.references_dict,
    insert-IsDict b (r - 1) a.references h.references_dict,
  );
  sized = ground (
    arith,
    h.sized,
    size-erase b a.references h.references_dict,
    size-insert b (r - 1) a.references,
  );
}

ref-release_block :
    (c b r : ℕ) (a : Allocator)
    → lookup b a.references ≡ some r
    → r ≢ 0
    → ref c (release_block b r a).references + to_nat (b == c) ≡ ref c a.references
unfolding release_block
ref-release_block c b r a e p =
    ground (arith, lookup-erase b c a.references, lookup-insert b c (r - 1) a.references)

-- The loop of `release` ends with no error, and takes one reference for each block of the list.
pub release_blocks_lem :
    (bs : List ℕ) (a : Allocator)
    → BlocksInv a
    → ((b : ℕ) → count b bs ≤ ref b a.references)
    → ((release_blocks bs a).1 ≡ ok true)
      × BlocksInv (release_blocks bs a).0
      × ((b : ℕ) → ref b (release_blocks bs a).0.references + count b bs ≡ ref b a.references)
unfolding release_blocks
release_blocks_lem [] a h enough = (refl, h, λ b. omega arith)
release_blocks_lem (x ∷ bs) a h enough = elim (Option-cases (lookup x a.references)) [
  | inl e ↦ absurd (ground (arith, enough x))
  | inr (r, e) ↦
      let step = λ (c : ℕ). ref-release_block c x r a e (ground (arith, h.positive x)) in
      let (done, inv, taken) =
        release_blocks_lem bs (release_block x r a) (release_block-BlocksInv x r a e h)
          (λ c. ground (arith, enough c, step c)) in
      rw (e, release_blocks) (done, inv, λ c. ground (arith, taken c, step c))
]

-- The loop of `release` touches the free stack and the reference counts alone.
pub release_blocks_frame :
    (bs : List ℕ) (a : Allocator)
    → record (release_blocks bs a).0 { free = a.free; references = a.references } ≡ a
unfolding release_blocks release_block
release_blocks_frame [] a = refl
release_blocks_frame (x ∷ bs) a = elim (Option-cases (lookup x a.references)) [
  | inl e ↦ rw (e, release_blocks) refl
  | inr (r, e) ↦
      rw (e, release_blocks) (ground (arith, release_blocks_frame bs (release_block x r a)))
]

-- Where each block has one reference, the loop of `resize` does what the loop of `release` does.
pub cut_blocks-release_blocks :
    (bs : List ℕ) (a : Allocator)
    → ((b : ℕ) → count b bs ≤ 1)
    → ((b : ℕ) → count b bs ≢ 0 → lookup b a.references ≡ some 1)
    → cut_blocks bs a ≡ release_blocks bs a
unfolding cut_blocks release_blocks release_block
cut_blocks-release_blocks [] a once single = refl
cut_blocks-release_blocks (x ∷ bs) a once single =
    let e : lookup x a.references ≡ some 1 = single x (ground arith) in
    rw (e, cut_blocks, release_blocks)
      (cut_blocks-release_blocks bs _ (λ b. ground (arith, once b))
        (λ b m. ground (arith, single b, once b, lookup-erase x b a.references)))

pub is_shared-false :
    (bs : List ℕ) (refs : Dict ℕ) (b : ℕ)
    → is_shared bs refs ≡ ok false
    → count b bs ≢ 0
    → lookup b refs ≡ some 1
unfolding is_shared
is_shared-false [] refs b h m = absurd (m refl)
is_shared-false (x ∷ bs) refs b h m = elim (Option-cases (lookup x refs)) [
  | inl e ↦ cc
  | inr (r, e) ↦ ground (arith, is_shared-false bs refs b)
]

pub any-not-has :
    (bs : List ℕ) (refs : Dict ℕ) (b : ℕ)
    → any (λ b. not (has b refs)) bs ≡ false
    → count b bs ≢ 0
    → has b refs ≡ true
any-not-has [] refs b h m = absurd (m refl)
any-not-has (x ∷ bs) refs b h m = ground (arith, any-not-has bs refs b)

pub record Retained (bs : List ℕ) (refs refs' : Dict ℕ) : Type 0 where
  pub runs : retain_blocks bs refs ≡ ok refs'
  pub added : (b : ℕ) → ref b refs' ≡ ref b refs + count b bs
  pub same_blocks : (b : ℕ) → has b refs' ≡ has b refs
  pub is_dict : IsDict refs'
  pub same_size : size refs' ≡ size refs

-- The loop of `retain` adds one reference for each block of the list.
pub retain_blocks_lem :
    (bs : List ℕ) (refs : Dict ℕ)
    → IsDict refs
    → ((b : ℕ) → count b bs ≢ 0 → has b refs ≡ true)
    → (refs' : Dict ℕ) × Retained bs refs refs'
unfolding retain_blocks
retain_blocks_lem [] refs d h = (
  refs,
  record {
    runs = refl;
    added = λ b. omega arith;
    same_blocks = λ b. refl;
    is_dict = d;
    same_size = refl;
  },
)
retain_blocks_lem (x ∷ bs) refs d h = elim (Option-cases (lookup x refs)) [
  | inl e ↦ absurd (ground (arith, h x))
  | inr (r, e) ↦
      let (refs', t) =
        retain_blocks_lem bs (insert x (r + 1) refs) (insert-IsDict x (r + 1) refs d)
          (λ b m. ground (arith, h b, lookup-insert x b (r + 1) refs)) in
      (
        refs',
        record {
          runs = rw (e, retain_blocks) t.runs;
          added = λ b. ground (arith, t.added b, lookup-insert x b (r + 1) refs);
          same_blocks = λ b. ground (arith, t.same_blocks b, lookup-insert x b (r + 1) refs);
          is_dict = t.is_dict;
          same_size = ground (arith, t.same_size, size-insert x (r + 1) refs);
        },
      )
]
