-- ===== src/TokenEngine/Ending.antt =====
-- How the allocator of inference/token_engine.py lets go of a sequence that ends, and what it keeps where a call raises.
use gpu_aware_llm_serving_pl.Common.{
  false, drop, ◌/◌, ◌-◌, take, ℕ, ◌+◌, ◌≡◌, refl, Bool, true, not, ◌&&◌, ◌||◌, none, List, ◌∷◌,
  ◌==◌, length, Result, ok, raise, pos, arith, if_cases, Option-cases, inl, inr, ap, sym,
  if◌then◌else◌, ◌∙◌, drop, take,
}
use gpu_aware_llm_serving_pl.Common.Dict.{
  Dict, lookup, insert, erase, has, lookup-insert, lookup-erase,
}
use gpu_aware_llm_serving_pl.KvCache.{
  Allocator, KvError, mark_blocks, allocate, release, release_blocks, allocate_locked,
  update_pressure, fail_capacity, blocks_for_tokens,
}
use gpu_aware_llm_serving_pl.KvCache.Blocks.{release_blocks_frame}
use gpu_aware_llm_serving_pl.KvCache.Invariant.{Inv}
use gpu_aware_llm_serving_pl.KvCache.Preserve.{release-Inv}
use gpu_aware_llm_serving_pl.TokenEngine.{
  EngineError, Engine, Sequence, FinishReason, SequencePhase, Event, failed, phase_for,
  generation_complete, sequence_failure, complete, fail, retire, store, release_blocks_of, finish,
}

owners-update_pressure : (a : Allocator) → (update_pressure a).owners ≡ a.owners
unfolding update_pressure
owners-update_pressure a = ground arith

has_absent :
    (d : Dict (List ℕ)) (owner id : ℕ)
    → lookup owner d ≡ none
    → has id d ≡ (not (owner == id) && has id d)
has_absent d owner id e = ground arith

-- However the loop over the blocks ends.
owners-release_end :
    (x : Allocator × Result KvError Bool)
    → (elim x.1 as (λ r. Allocator × Result KvError Bool) [
      | raise e ↦ (x.0, raise e)
      | ok b ↦ (update_pressure x.0, ok true)
    ]).0.owners
      ≡ x.0.owners
owners-release_end (a, ok b) = owners-update_pressure a
owners-release_end (a, raise e) = refl

has-release :
    (a : Allocator) (owner id : ℕ)
    → has id (release a owner).0.owners ≡ (not (owner == id) && has id a.owners)
unfolding release
has-release a owner id = elim (Option-cases (lookup owner a.owners)) [
  | inl e ↦ rw (e, release) (has_absent a.owners owner id e)
  | inr (bs, e) ↦
      let a' = record a { owners = erase owner a.owners } in
      let same : (release_blocks bs a').0.owners ≡ erase owner a.owners =
        ap (λ x. x.owners) (release_blocks_frame bs a') in
      rw (e, release)
        (ap (has id) (owners-release_end (release_blocks bs a') ∙ same)
          ∙ ground (arith, lookup-erase owner id a.owners))
]

pub has-allocate :
    (a : Allocator) (owner tokens : ℕ) (bs : List ℕ)
    → (allocate a owner (pos tokens)).1 ≡ ok bs
    → (id : ℕ)
    → has id (allocate a owner (pos tokens)).0.owners ≡ ((owner == id) || has id a.owners)
unfolding allocate blocks_for_tokens allocate_locked fail_capacity
has-allocate a owner tokens bs h id = ground (
  arith,
  h,
  lookup-insert owner id (take ((tokens + a.block_size_tokens - 1) / a.block_size_tokens) a.free)
      a.owners,
  owners-update_pressure (record a {
    free = drop ((tokens + a.block_size_tokens - 1) / a.block_size_tokens) a.free;
    owners =
        insert owner (take ((tokens + a.block_size_tokens - 1) / a.block_size_tokens) a.free)
          a.owners;
    references =
        mark_blocks (take ((tokens + a.block_size_tokens - 1) / a.block_size_tokens) a.free)
          a.references;
  }),
)

abbrev pub Outcome : Type 0
Outcome = Engine × Result EngineError (Unit {0})

-- The books of the allocator are in order, and the sequences that own blocks are the active ones.
pub record IsOwning (e : Engine) : Type 0 where
  pub books : Inv e.kv_allocator
  pub owned : (id : ℕ) → has id e.kv_allocator.owners ≡ has id e.active

pub has-insert_same :
    {V : Type 0} (k id : ℕ) (v : V) (d : Dict V) → has k d ≡ true → has id (insert k v d) ≡ has id d
has-insert_same k id v d h = ground (arith, lookup-insert k id v d)

release_blocks_of-IsOwning :
    (e : Engine) (s : Sequence) (v : Event) (b : Bool) (r : Allocator × Result KvError Bool)
    → r.1 ≡ ok b
    → Inv r.0
    → ((id : ℕ) → has id r.0.owners ≡ (not (s.request_id == id) && has id e.active))
    → IsOwning (release_blocks_of e s v r).0
unfolding release_blocks_of finish
release_blocks_of-IsOwning e s v b (a, ok _) k inv left = record {
  books = inv;
  owned = λ id. ground (arith, left id, lookup-erase s.request_id id e.active);
}
release_blocks_of-IsOwning e s v b (a, raise x) k inv left = absurd (ground arith)

-- Also where the backend raises; the allocator does not, since its books are in order.
retire-IsOwning :
    (backend : ℕ → Bool) (e : Engine) (s : Sequence) (p : SequencePhase) (v : Event)
    → has s.request_id e.active ≡ true
    → IsOwning e
    → IsOwning (retire backend e s p v).0
unfolding retire
retire-IsOwning backend e s p v here h =
    if_cases {A = Outcome} (λ x. IsOwning x.0) (s.backend_created && backend s.request_id)
      (λ k. record {
        books = h.books;
        owned = λ id.
            h.owned id
            ∙ sym (has-insert_same s.request_id id (record s { phase = p }) e.active here);
      })
      (λ k.
        release_blocks_of-IsOwning
          (record e {
            released = if s.backend_created then s.request_id ∷ e.released else e.released;
          })
          (record s { phase = p; backend_created = false }) v
          (has s.request_id e.kv_allocator.owners) (release e.kv_allocator s.request_id)
          (release-Inv e.kv_allocator s.request_id h.books).1
          (release-Inv e.kv_allocator s.request_id h.books).0
          (λ id.
            has-release e.kv_allocator s.request_id id
            ∙ ap (λ b. not (s.request_id == id) && b) (h.owned id)))

module _ (backend : ℕ → Bool) where
  pub complete-IsOwning :
      (e : Engine) (s : Sequence) (r : FinishReason)
      → IsOwning e
      → IsOwning (complete backend e s r).0
  unfolding complete
  complete-IsOwning e s r h =
      if_cases {A = Outcome} (λ x. IsOwning x.0) (has s.request_id e.active)
        (λ k.
          retire-IsOwning backend e s (phase_for r)
            (generation_complete r (length s.prompt_token_ids) (length s.generated_token_ids)) k h)
        (λ k. h)

  pub fail-IsOwning :
      (e : Engine) (s : Sequence) (x : ℕ) → IsOwning e → IsOwning (fail backend e s x).0
  unfolding fail
  fail-IsOwning e s x h =
      if_cases {A = Outcome} (λ x. IsOwning x.0) (has s.request_id e.active)
        (λ k. retire-IsOwning backend e s failed (sequence_failure x) k h) (λ k. h)

pub store-IsOwning : (e : Engine) (s : Sequence) → IsOwning e → IsOwning (store e s)
store-IsOwning e s h =
    if_cases IsOwning (has s.request_id e.active)
      (λ k. record {
        books = h.books;
        owned = λ id. h.owned id ∙ sym (has-insert_same s.request_id id s e.active k);
      })
      (λ k.
        if_cases IsOwning (has s.request_id e.finished)
          (λ j. record { books = h.books; owned = h.owned }) (λ j. h))
