-- ===== src/Batching/Loops.antt =====
-- The loops of `collect_batch` of scheduler/dynamic_batch.py: what each request considered keeps, they keep.
use gpu_aware_llm_serving_pl.Common.{
  ℕ, zero, suc, ◌+◌, ◌≤◌, ◌<◌, ◌≡◌, refl, Bool, true, false, ◌&&◌, Option, none, some, List, [],
  ◌∷◌, ◌++◌, ltb, leb, length, arith, if_cases,
}
use gpu_aware_llm_serving_pl.Batching.{
  is_cancelled, no_message, timeout, InferenceRequest, timed_out, finish, timeout,
}
use gpu_aware_llm_serving_pl.Batching.Collect.{
  postponed, joined, dropped, Settings, Collection, Mode, is_compatible, cost, consider, has_space,
  scan, gather, start, Wait, given,
}

-- A statement about a case distinction, case by case.
bool_elim :
    (P : Collection → Type 0) (b : Bool) {x y : Collection}
    → (b ≡ true → P x)
    → (b ≡ false → P y)
    → P (elim b [ false ↦ y | true ↦ x ])
bool_elim P true f g = f refl
bool_elim P false f g = g refl

list_elim :
    (P : Collection → Type 0) (xs : List InferenceRequest) {n : Collection}
    {f : InferenceRequest → List InferenceRequest → Collection}
    → (xs ≡ [] → P n)
    → ((y : InferenceRequest) (ys : List InferenceRequest) → xs ≡ y ∷ ys → P (f y ys))
    → P (elim xs [ [] ↦ n | y ∷ ys ↦ f y ys ])
list_elim P [] g h = g refl
list_elim P (y ∷ ys) g h = h y ys refl

delivery_elim :
    (P : Collection → Type 0) (o : Option (Option InferenceRequest)) {n m : Collection}
    {f : InferenceRequest → Collection}
    → P n
    → P m
    → ((r : InferenceRequest) → P (f r))
    → P (elim o [ none ↦ n | some none ↦ m | some (some r) ↦ f r ])
delivery_elim P none p q h = p
delivery_elim P (some none) p q h = q
delivery_elim P (some (some r)) p q h = h r

has_space-true :
    (s : Settings) (c : Collection) → has_space s c ≡ true → length c.requests < s.max_batch_size
unfolding has_space
has_space-true s c e = ground arith

&&-first : (a b : Bool) → (a && b) ≡ true → a ≡ true
&&-first a b h = ground arith

module _ (s : Settings) (mode : Mode) (first : InferenceRequest) where
  -- What holds of a request dropped, joined or postponed holds of a request considered.
  pub consider_cases :
      (P : Collection × Bool → Type 0) (now : ℕ) (from_queue : Bool) (r : InferenceRequest)
      (c : Collection)
      → ((q : InferenceRequest) → q.request_id ≡ r.request_id → P (dropped from_queue q c, false))
      → (is_compatible r first ≡ true
          → c.total_estimated_tokens + cost r ≤ s.max_total_batch_tokens
          → P (joined from_queue r c, false))
      → P (postponed mode from_queue r c)
      → P (consider s mode first now from_queue r c)
  unfolding consider finish
  consider_cases P now from_queue r c drops joins postpones =
      if_cases P (timed_out s.request_timeout_seconds now r)
        (λ h. drops (finish timeout no_message now r) refl)
        (λ h.
          if_cases P (is_cancelled r.status) (λ k. drops r refl)
            (λ k.
              if_cases P
                (is_compatible r first
                  && leb (c.total_estimated_tokens + cost r) s.max_total_batch_tokens)
                (λ j. joins (ground arith) (ground arith)) (λ j. postpones)))

  -- What one request considered keeps, the collection keeps.
  module _ (P : Collection → Type 0)
      (on_scan : (now : ℕ) (r : InferenceRequest) (rs : List InferenceRequest) (c : Collection)
        → length c.requests < s.max_batch_size
        → c.deferred ≡ r ∷ rs
        → P c
        → P (consider s mode first now false r (record c { deferred = rs })).0)
      (on_take : (now : ℕ) (r : InferenceRequest) (c : Collection)
        → length c.requests < s.max_batch_size
        → P c
        → P (consider s mode first now true r (record c { taken = some r ∷ c.taken })).0)
      (on_end : (c : Collection)
        → P c
        → P (record c {
          taken = none ∷ c.taken;
          tasks_done = c.tasks_done + 1;
          put_back = c.put_back ++ none ∷ [];
        })) where
    scan_keeps : (now : ℕ → ℕ) (n : ℕ) (c : Collection) → P c → P (scan s mode first now n c)
    unfolding scan
    scan_keeps now zero c p = p
    scan_keeps now (suc n) c p =
        bool_elim P (has_space s c)
          (λ e.
            list_elim P c.deferred (λ k. p)
              (λ r rs k. scan_keeps now n _ (on_scan (now n) r rs c (has_space-true s c e) k p)))
          (λ e. p)

    gather_keeps :
        (deadline : ℕ) (ws : List Wait) (c : Collection)
        → P c
        → P (gather s mode first deadline ws c)
    unfolding gather
    gather_keeps deadline [] c p = p
    gather_keeps deadline (w ∷ ws) c p =
        bool_elim P (has_space s c && ltb w.clock deadline)
          (λ e. delivery_elim P w.delivery p (on_end c p) (λ r.
            let kept = on_take w.after r c (has_space-true s c (&&-first (has_space s c) _ e)) p in
            if_cases P
              (consider s mode first w.after true r (record c { taken = some r ∷ c.taken })).1
              (λ h. kept) (λ h. gather_keeps deadline ws _ kept)))
          (λ e. p)

    pub collect_keeps :
        (deferred : List InferenceRequest) (now : ℕ → ℕ) (deadline : ℕ) (ws : List Wait)
        → P (start first (given mode deferred))
        → P (
            gather s mode first deadline ws (
              scan s mode first now
                (length (given mode deferred))
                (start first (given mode deferred))))
    collect_keeps deferred now deadline ws p = gather_keeps deadline ws _ (scan_keeps now _ _ p)
