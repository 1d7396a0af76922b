-- ===== src/Batching/Gather.antt =====
-- What a collected batch of scheduler/dynamic_batch.py is, and that no request is lost on the way.
use gpu_aware_llm_serving_pl.Common.{
  ap, sum_of-append, ℕ, suc, ◌+◌, ◌-◌, ◌≤◌, ◌<◌, ◌≡◌, refl, Bool, true, false, Option, none, some,
  List, [], ◌∷◌, ◌++◌, ◌==◌, length, map, to_nat, All, sum_of, max, arith, length-append,
}
use gpu_aware_llm_serving_pl.Batching.{InferenceRequest}
use gpu_aware_llm_serving_pl.Batching.Collect.{
  postponed, Settings, Collection, Mode, deferring, direct, is_compatible, cost, consider, scan,
  gather, start, Wait, collect_batch, given,
}
use gpu_aware_llm_serving_pl.Batching.Loops.{consider_cases, collect_keeps}

All-append :
    (P : InferenceRequest → Type 0) (rs : List InferenceRequest) (r : InferenceRequest)
    → All P rs
    → P r
    → All P (rs ++ r ∷ [])
All-append P [] r h p = (p, tt)
All-append P (q ∷ rs) r (k, h) p = (k, All-append P rs r h p)

is_compatible_refl : (r : InferenceRequest) → is_compatible r r ≡ true
unfolding is_compatible
is_compatible_refl r = ground arith

module _ (s : Settings) (mode : Mode) (first : InferenceRequest) where
  -- The bounds of a batch: its length, its tokens, and the parameters its requests share.
  abbrev pub IsBatch : Collection → Type 0
  IsBatch c =
      (length c.requests ≤ max 1 s.max_batch_size)
      × (c.total_estimated_tokens ≡ sum_of cost c.requests)
      × (c.total_estimated_tokens ≤ max (cost first) s.max_total_batch_tokens)
      × All (λ r. is_compatible r first ≡ true) c.requests

  postponed-IsBatch :
      (from_queue : Bool) (r : InferenceRequest) (c : Collection)
      → IsBatch c
      → IsBatch (postponed mode from_queue r c).0
  postponed-IsBatch from_queue r c b = elim mode as (λ k. IsBatch (postponed k from_queue r c).0) [
    | deferring ↦ b
    | direct ↦ b
  ]

  consider-IsBatch :
      (now : ℕ) (from_queue : Bool) (r : InferenceRequest) (c : Collection)
      → length c.requests < s.max_batch_size
      → IsBatch c
      → IsBatch (consider s mode first now from_queue r c).0
  consider-IsBatch now from_queue r c h (fits, sums, bound, shared) =
      consider_cases s mode first (λ x. IsBatch x.0) now from_queue r c
        (λ q e. (fits, sums, bound, shared))
        (λ e k. (
          omega (arith, h, length-append c.requests (r ∷ [])),
          omega (arith, sums, sum_of-append cost c.requests (r ∷ [])),
          omega (arith, bound, k),
          All-append _ c.requests r shared e,
        ))
        (postponed-IsBatch from_queue r c (fits, sums, bound, shared))

  abbrev pub stamped : ℕ → Collection → Collection
  stamped t c = record c {
    requests =
        map {A = InferenceRequest} {B = InferenceRequest}
          (λ r. record r { batch_collection_ms = t }) c.requests;
  }

  sum_of-stamped :
      (g : InferenceRequest → ℕ)
      → ((r : InferenceRequest) (t : ℕ) → g (record r { batch_collection_ms = t }) ≡ g r)
      → (t : ℕ) (rs : List InferenceRequest)
      → sum_of g (
          map {A = InferenceRequest} {B = InferenceRequest}
            (λ r. record r { batch_collection_ms = t })
            rs)
        ≡ sum_of g rs
  sum_of-stamped g h t [] = refl
  sum_of-stamped g h t (r ∷ rs) = omega (arith, h r t, sum_of-stamped g h t rs)

  length-stamped :
      (t : ℕ) (rs : List InferenceRequest)
      → length (
          map {A = InferenceRequest} {B = InferenceRequest}
            (λ r. record r { batch_collection_ms = t })
            rs)
        ≡ length rs
  length-stamped t [] = refl
  length-stamped t (r ∷ rs) = ap suc (length-stamped t rs)

  All-stamped :
      (t : ℕ) (rs : List InferenceRequest)
      → All (λ r. is_compatible r first ≡ true) rs
      → All
          (λ r. is_compatible r first ≡ true)
          (map {A = InferenceRequest} {B = InferenceRequest}
            (λ r. record r { batch_collection_ms = t })
            rs)
  unfolding is_compatible
  All-stamped t [] h = tt
  All-stamped t (r ∷ rs) (e, h) = (e, All-stamped t rs h)

  stamped-IsBatch : (t : ℕ) (c : Collection) → IsBatch c → IsBatch (stamped t c)
  stamped-IsBatch t c (fits, sums, bound, shared) = (
    omega (arith, fits, length-stamped t c.requests),
    omega (arith, sums, sum_of-stamped cost (λ r u. refl) t c.requests),
    bound,
    All-stamped t c.requests shared,
  )

  -- Requests that carry a weight by their identifiers.
  module _ (f : ℕ → ℕ) where
    abbrev pub weigh : List InferenceRequest → ℕ
    weigh = sum_of (λ r. f r.request_id)

    abbrev pub weigh_item : Option InferenceRequest → ℕ
    weigh_item none = 0
    weigh_item (some r) = f r.request_id

    abbrev pub weigh_items : List (Option InferenceRequest) → ℕ
    weigh_items = sum_of weigh_item

    -- Where the requests are now, against where they came from; and the queue's count of tasks.
    abbrev pub IsAccounted : List InferenceRequest → Collection → Type 0
    IsAccounted deferred c =
        (weigh c.requests + weigh c.deferred + weigh c.finished + weigh_items c.put_back
          ≡ f first.request_id + weigh deferred + weigh_items c.taken)
        × (c.queued_items + c.tasks_done ≡ length c.taken)

    -- A request that no one holds yet is in one place after it was considered.
    consider-IsAccounted :
        (now : ℕ) (from_queue : Bool) (r : InferenceRequest) (origin : List InferenceRequest)
        (c : Collection)
        → weigh c.requests
            + weigh c.deferred
            + weigh c.finished
            + weigh_items c.put_back
            + f r.request_id
          ≡ f first.request_id + weigh origin + weigh_items c.taken
        → c.queued_items + c.tasks_done + to_nat from_queue ≡ length c.taken
        → IsAccounted origin (consider s mode first now from_queue r c).0
    consider-IsAccounted now from_queue r origin c h k =
        consider_cases s mode first (λ x. IsAccounted origin x.0) now from_queue r c
          (λ q e. (
            omega (arith, h, ap f e, sum_of-append (λ x. f x.request_id) c.finished (q ∷ [])),
            omega (arith, k),
          ))
          (λ e j. (
            omega (arith, h, sum_of-append (λ x. f x.request_id) c.requests (r ∷ [])),
            omega (arith, k),
          ))
          (elim mode as (λ m. IsAccounted origin (postponed m from_queue r c).0) [
            | deferring ↦ (
              omega (arith, h, sum_of-append (λ x. f x.request_id) c.deferred (r ∷ [])),
              omega (arith, k),
            )
            | direct ↦ (
              omega (arith, h, sum_of-append weigh_item c.put_back (some r ∷ [])),
              omega (arith, k),
            )
          ])

  -- A collected batch is no longer than the limit (but for the first request alone), its token count is the
  -- sum over its requests and within the limit (but for the first request alone), and its requests share the
  -- parameters of the first.
  pub collect_batch-IsBatch :
      (deferred : List InferenceRequest) (started : ℕ) (now : ℕ → ℕ) (ws : List Wait) (ended : ℕ)
      → IsBatch (collect_batch s mode first deferred started now ws ended)
  unfolding collect_batch
  collect_batch-IsBatch deferred started now ws ended =
      stamped-IsBatch (ended - started)
        (gather s mode first (started + s.max_wait) ws (
          scan s mode first now (length (given mode deferred)) (start first (given mode deferred))))
        (collect_keeps s mode first IsBatch (λ t r rs c h k b. consider-IsBatch t false r _ h b)
          (λ t r c h b. consider-IsBatch t true r _ h b) (λ c b. b) deferred now
          (started + s.max_wait) ws
          (omega arith, omega arith, omega arith, (is_compatible_refl first, tt)))

  -- Whatever the queue delivers, each identifier stands among the batch, the deferred, the finished and the
  -- requests put back as often as among the first request, the deferred and the items taken; and each item
  -- taken is either marked done or counted as an open item of the batch.
  pub collect_batch-IsAccounted :
      (k : ℕ) (deferred : List InferenceRequest) (started : ℕ) (now : ℕ → ℕ) (ws : List Wait)
      (ended : ℕ)
      → IsAccounted
          (λ i. to_nat (i == k))
          (given mode deferred)
          (collect_batch s mode first deferred started now ws ended)
  unfolding collect_batch
  collect_batch-IsAccounted k deferred started now ws ended =
      let f : ℕ → ℕ = λ i. to_nat (i == k) in
      let origin = given mode deferred in
      let (places, tasks) =
        collect_keeps s mode first (IsAccounted f origin)
          (λ t r rs c h e p.
            consider-IsAccounted f t false r origin (record c { deferred = rs })
              (omega (arith, p.0, ap (weigh f) e)) (omega (arith, p.1)))
          (λ t r c h p.
            consider-IsAccounted f t true r origin (record c { taken = some r ∷ c.taken })
              (omega (arith, p.0)) (omega (arith, p.1)))
          (λ c p. (
            omega (arith, p.0, sum_of-append (weigh_item f) c.put_back (none ∷ [])),
            omega (arith, p.1),
          ))
          deferred now (started + s.max_wait) ws (omega arith, refl) in
      (
        omega
            (arith, places, sum_of-stamped (λ r. f r.request_id) (λ r u. refl) (ended - started) _),
        tasks,
      )
