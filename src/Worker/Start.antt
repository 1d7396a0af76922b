-- ===== src/Worker/Start.antt =====
-- The locked part of `execute_batch` in apps/worker/service.py: the batch, the queue and the counters.
use gpu_aware_llm_serving_pl.Common.{
  ℕ, ◌+◌, ◌≡◌, refl, sym, ap, ◌∙◌, subst, true, false, List, [], ◌∷◌, leb, ◌==◌, to_nat, arith,
  Bool-cases, Result-cases, inl, inr, if_cases, count, sum_of, All,
}
use gpu_aware_llm_serving_pl.Common.Dict.{lookup-insert}
use gpu_aware_llm_serving_pl.Domain.{RequestRecord, RequestState, transition, terminal}
use gpu_aware_llm_serving_pl.Worker.{Worker, put, get}
use gpu_aware_llm_serving_pl.Worker.Batch.{
  is_overdue, expire, Scan, skip_overdue, enter, run_selected,
}
use gpu_aware_llm_serving_pl.Worker.Objects.{
  static, Moved, transition-Moved, Later, unchanged-Later, both-Later, Moved-Later,
}
use gpu_aware_llm_serving_pl.Worker.Selection.{expire-Expired, over-count}

-- How many requests of the list are for the model.
abbrev pub uses : (ℕ → RequestRecord) → ℕ → List ℕ → ℕ
uses objects m is = sum_of (λ i. to_nat ((objects i).model_id == m)) is

pub record Ran (w w' : Worker) (is : List ℕ) : Type 0 where
  pub later : Later w.objects w'.objects
  pub stays :
      (k : ℕ)
      → (w.objects k).status ≡ RequestState.running
      → (w'.objects k).status ≡ RequestState.running
  pub status : All (λ k. (w'.objects k).status ≡ RequestState.running) is
  pub queue : w'.queue ≡ w.queue
  pub batches : w'.active_batch_count ≡ w.active_batch_count
  pub active :
      (m : ℕ)
      → get m w'.active_requests_by_model ≡ get m w.active_requests_by_model + uses w.objects m is

put-stays :
    (i k : ℕ) (r : RequestRecord) (objects : ℕ → RequestRecord) (t : RequestState)
    → r.status ≡ t
    → (objects k).status ≡ t
    → (put i r objects k).status ≡ t
put-stays i k r objects t e h =
    if_cases {A = RequestRecord} (λ x. x.status ≡ t) (i == k) (λ _. e) (λ _. h)

pub uses_same :
    (a b : ℕ → RequestRecord) (m : ℕ) (is : List ℕ)
    → ((k : ℕ) → static (a k) ≡ static (b k))
    → uses a m is ≡ uses b m is
uses_same a b m [] same = refl
uses_same a b m (i ∷ is) same =
    let here : (a i).model_id ≡ (b i).model_id = ap (λ x. x.model_id) (same i) in
    rw (here, uses_same a b m is same) refl

enter-Ran :
    (w w' : Worker) (i : ℕ) (is : List ℕ) (r : RequestRecord)
    → Moved (w.objects i) r RequestState.running
    → Ran (enter w i r) w' is
    → Ran w w' (i ∷ is)
enter-Ran w w' i is r m p =
    let l : Later w.objects (put i r w.objects) =
      Moved-Later i r RequestState.running w.objects m in
    let model : r.model_id ≡ (w.objects i).model_id = ap (λ x. x.model_id) m.fixed in
    record {
      later = both-Later l p.later;
      stays = λ k h. p.stays k (put-stays i k r w.objects RequestState.running m.status h);
      status = (p.stays i (ground (arith, m.status)), p.status);
      queue = p.queue;
      batches = p.batches;
      active = λ u.
          let n = p.active u in
          ground (
            arith,
            n,
            model,
            uses_same (put i r w.objects) w.objects u is l.fixed,
            lookup-insert r.model_id u (get r.model_id w.active_requests_by_model + 1)
                w.active_requests_by_model,
          );
    }

pub run_selected-Ran :
    (w : Worker) (now : ℕ) (is : List ℕ)
    → (run_selected w now is).1 ≡ true
    → Ran w (run_selected w now is).0 is
unfolding run_selected
run_selected-Ran w now [] d = record {
  later = unchanged-Later w.objects;
  stays = λ k h. h;
  status = tt;
  queue = refl;
  batches = refl;
  active = λ m. omega arith;
}
run_selected-Ran w now (i ∷ is) d =
    elim (Result-cases (transition (w.objects i) RequestState.running now)) [
      | inl (x, e) ↦
          let no : (run_selected w now (i ∷ is)).1 ≡ false = rw (run_selected, e) refl in
          ground (arith, no, d)
      | inr (r, e) ↦
          let same : run_selected w now (i ∷ is) ≡ run_selected (enter w i r) now is =
            rw (run_selected, e) refl in
          subst (λ x. Ran w x (i ∷ is)) (ap (λ x. x.0) (sym same))
            (enter-Ran w _ i is r (transition-Moved _ r _ now e)
              (run_selected-Ran (enter w i r) now is (ap (λ x. x.1) (sym same) ∙ d)))
    ]

pub record Skipped (objects : ℕ → RequestRecord) (now : ℕ) (q : List ℕ) (s : Scan) : Type 0 where
  pub later : Later objects s.objects
  pub kept :
      (k : ℕ) → s.failed ≡ false → terminal (s.objects k) ≡ false → count k q ≡ count k s.queue
  pub head :
      (i : ℕ) (is : List ℕ)
      → s.failed ≡ false
      → s.queue ≡ i ∷ is
      → leb (s.objects i).deadline now ≡ false

pub skip_overdue-Skipped :
    (objects : ℕ → RequestRecord) (now : ℕ) (q : List ℕ)
    → Skipped objects now q (skip_overdue objects now q)
unfolding skip_overdue
skip_overdue-Skipped objects now [] = record {
  later = unchanged-Later objects;
  kept = λ k f live. refl;
  head = λ i is f e. cc;
}
skip_overdue-Skipped objects now (i ∷ q) = elim (Bool-cases (is_overdue (objects i) now)) [
  | inl late ↦ elim (Result-cases (expire (objects i) now)) [
    | inl (x, e) ↦
        rw (late, e, skip_overdue)
          (record {
            later = unchanged-Later objects;
            kept = λ k f live. ground (arith, f);
            head = λ j is f h. ground (arith, f);
          })
    | inr (r, e) ↦
        let x = expire-Expired i r objects now e in
        let c = skip_overdue-Skipped (put i r objects) now q in
        rw (late, e, skip_overdue)
          (record {
            later = both-Later x.later c.later;
            kept = λ k f live. over-count k q x c.later live ∙ c.kept k f live;
            head = c.head;
          })
  ]
  | inr soon ↦
      rw (soon, skip_overdue)
        (record {
          later = unchanged-Later objects;
          kept = λ k f live. refl;
          head = λ j is f e.
              let same : i ≡ j = cc in
              let early : leb (objects i).deadline now ≡ false = ground (arith, soon) in
              subst (λ k. leb (objects k).deadline now ≡ false) same early;
        })
]
