-- ===== src/Worker/Batches.antt =====
-- A batch that `execute_batch` of apps/worker/service.py starts: nothing of the queue is lost, and the batch keeps to
-- the limits of the worker.
use gpu_aware_llm_serving_pl.Common.{
  ℕ, ◌+◌, ◌-◌, ◌≤◌, ◌≡◌, refl, sym, ap, ◌∙◌, subst, true, false, List, [], ◌∷◌, ◌++◌, leb, length,
  arith, Bool-cases, inl, inr, count, count-append, sum_of, All,
}
use gpu_aware_llm_serving_pl.Domain.{RequestRecord, RequestState, terminal, estimated_tokens}
use gpu_aware_llm_serving_pl.Worker.{Worker, get}
use gpu_aware_llm_serving_pl.Worker.Batch.{
  Scan, skip_overdue, is_compatible, choose, run_selected, launch, batch, nothing, refused,
  begin_with, begin_after, begin_batch,
}
use gpu_aware_llm_serving_pl.Worker.Objects.{live_before, static, Later, both-Later}
use gpu_aware_llm_serving_pl.Worker.Selection.{Fits, Chosen, choose-Chosen}
use gpu_aware_llm_serving_pl.Worker.Start.{
  uses, uses_same, run_selected-Ran, Skipped, skip_overdue-Skipped,
}

-- What `begin_with` does where it starts a batch.
record Entered (w w' : Worker) (first : ℕ) (s : Scan) (f : ℕ) (is : List ℕ) : Type 0 where
  sound : s.failed ≡ false
  first_is : first ≡ f
  list_is : is ≡ f ∷ s.selected
  later : Later s.objects w'.objects
  status : All (λ k. (w'.objects k).status ≡ RequestState.running) is
  queue : w'.queue ≡ s.deferred ++ s.queue
  batches : w'.active_batch_count ≡ w.active_batch_count + 1
  active :
      (m : ℕ)
      → get m w'.active_requests_by_model ≡ get m w.active_requests_by_model + uses s.objects m is

begin_with-Entered :
    (w w' : Worker) (now first f : ℕ) (s : Scan) (is : List ℕ)
    → begin_with w now first s ≡ (w', batch f is)
    → Entered w w' first s f is
unfolding begin_with
begin_with-Entered w w' now first f s is e =
    let ready : Worker = record w { objects = s.objects; queue = s.deferred ++ s.queue } in
    let begun : (begin_with w now first s).1 ≡ batch f is = ap (λ x. x.1) e in
    elim (Bool-cases s.failed) [
      | inl bad ↦
          let no : (begin_with w now first s).1 ≡ refused = rw (begin_with, bad) refl in
          ground (arith, no, begun)
      | inr good ↦
          let x = run_selected ready now (first ∷ s.selected) in
          elim (Bool-cases x.1) [
            | inr stuck ↦
                let no : (begin_with w now first s).1 ≡ refused =
                  rw (begin_with, good, stuck) refl in
                ground (arith, no, begun)
            | inl done ↦
                let p = run_selected-Ran ready now (first ∷ s.selected) done in
                let last : Worker = launch x.0 (s.objects first).model_id now in
                let same : begin_with w now first s ≡ (last, batch first (first ∷ s.selected)) =
                  rw (begin_with, good, done) refl in
                let pair : batch first (first ∷ s.selected) ≡ batch f is =
                  ap (λ x. x.1) (sym same ∙ e) in
                let list : first ∷ s.selected ≡ is = cc in
                let one : first ≡ f = cc in
                let entered : Entered w last first s first (first ∷ s.selected) = record {
                  sound = good;
                  first_is = refl;
                  list_is = refl;
                  later = p.later;
                  status = p.status;
                  queue = p.queue;
                  batches = omega (arith, p.batches);
                  active = p.active;
                } in
                subst (λ y. Entered w y first s f is) (ap (λ x. x.0) (sym same ∙ e))
                  (subst (λ y. Entered w last first s f y) list
                    (subst (λ y. Entered w last first s y (first ∷ s.selected)) one entered))
          ]
    ]

all-Fits :
    (a b : RequestRecord) (now : ℕ) (objects : ℕ → RequestRecord) (is : List ℕ)
    → static a ≡ static b
    → All (λ k. Fits a now (objects k)) is
    → All (λ k. Fits b now (objects k)) is
unfolding is_compatible
all-Fits a b now objects [] same h = tt
all-Fits a b now objects (i ∷ is) same (h, hs) = (
  record {
    compatible = ap (λ x. is_compatible x (objects i)) (sym same) ∙ h.compatible;
    in_time = h.in_time;
  },
  all-Fits a b now objects is same hs,
)

is_compatible_refl : (r : RequestRecord) → is_compatible r r ≡ true
unfolding is_compatible
is_compatible_refl r = elim (Bool-cases r.stream) [
  | inl e ↦ ground (arith, e)
  | inr e ↦ ground (arith, e)
]

-- A batch that `begin_batch` starts.
pub record Began (w w' : Worker) (now first : ℕ) (is : List ℕ) : Type 0 where
  pub later : Later w.objects w'.objects
  pub kept :
      (k : ℕ) → terminal (w'.objects k) ≡ false → count k w.queue ≡ count k is + count k w'.queue
  pub size : 1 ≤ w.max_batch_size → length is ≤ w.max_batch_size
  pub within :
      estimated_tokens (w.objects first) ≤ w.max_batch_tokens
      → sum_of (λ k. estimated_tokens (w.objects k)) is ≤ w.max_batch_tokens
  pub fits : All (λ k. Fits (w.objects first) now (w.objects k)) is
  pub status : All (λ k. (w'.objects k).status ≡ RequestState.running) is
  pub batches : w'.active_batch_count ≡ w.active_batch_count + 1
  pub active :
      (m : ℕ)
      → get m w'.active_requests_by_model ≡ get m w.active_requests_by_model + uses w.objects m is

module _ (w : Worker) (now : ℕ) (s : Scan) (skip : Skipped w.objects now w.queue s)
    (good : s.failed ≡ false) where
  -- The three loops together.
  joined-Began :
      (w' : Worker) (first : ℕ) (q : List ℕ) (t : Scan)
      → s.queue ≡ first ∷ q
      → Chosen w.max_batch_tokens
          (s.objects first)
          now
          (w.max_batch_size - 1)
          (estimated_tokens (s.objects first))
          w.objects
          s.objects
          q
          t
      → Entered
          (record w { objects = s.objects; queue = s.queue })
          w'
          first
          t
          first
          (first ∷ t.selected)
      → Began w w' now first (first ∷ t.selected)
  joined-Began w' first q t sq c n =
      let fixed : static (s.objects first) ≡ static (w.objects first) = skip.later.fixed first in
      let cost : estimated_tokens (s.objects first) ≡ estimated_tokens (w.objects first) =
        ap estimated_tokens fixed in
      let l : Later s.objects w'.objects = both-Later c.later n.later in
      record {
        later = both-Later skip.later l;
        kept = λ k live.
            let here = skip.kept k good (live_before k l live) in
            let there = c.kept k n.sound (live_before k n.later live) in
            let rest : count k w'.queue ≡ count k t.deferred + count k t.queue =
              ap (count k) n.queue ∙ count-append k t.deferred t.queue in
            let top : count k s.queue ≡ count k (first ∷ q) = ap (count k) sq in
            ground (arith, here, there, rest, top);
        size = λ one. omega (arith, c.size);
        within = λ le. let x = c.within (omega (arith, cost)) in omega (arith, cost, x);
        fits = (
          record {
            compatible = is_compatible_refl (w.objects first);
            in_time = ap (λ x. leb x.deadline now) (sym fixed) ∙ skip.head first q good sq;
          },
          all-Fits (s.objects first) (w.objects first) now w.objects t.selected fixed c.fits,
        );
        status = n.status;
        batches = n.batches;
        active = λ m.
            let x = n.active m in
            x
            ∙ ap (λ y. get m w.active_requests_by_model + y)
                (uses_same t.objects w.objects m (first ∷ t.selected)
                  (both-Later skip.later c.later).fixed);
      }

  -- The part after the requests at the head that are over.
  begin_after-Began :
      (w' : Worker) (f : ℕ) (q is : List ℕ)
      → s.queue ≡ q
      → begin_after (record w { objects = s.objects; queue = s.queue }) now q ≡ (w', batch f is)
      → Began w w' now f is
  unfolding begin_after
  begin_after-Began w' f [] is sq e = let no : nothing ≡ batch f is = ap (λ x. x.1) e in cc
  begin_after-Began w' f (first ∷ q) is sq e =
      let r = s.objects first in
      let t =
        choose w.max_batch_tokens r now (w.max_batch_size - 1) (estimated_tokens r) s.objects q in
      let n =
        begin_with-Entered (record w { objects = s.objects; queue = s.queue }) w' now first f t is
          e in
      let c =
        choose-Chosen w.max_batch_tokens r now w.objects (w.max_batch_size - 1) (estimated_tokens r)
          s.objects q skip.later in
      let list : is ≡ first ∷ t.selected = n.list_is ∙ ap (λ x. x ∷ t.selected) (sym n.first_is) in
      let entered : Entered (record w { objects = s.objects; queue = s.queue }) w' first t first
          (first ∷ t.selected) =
        subst (λ y. Entered (record w { objects = s.objects; queue = s.queue }) w' first t first y)
          list
          (subst (λ y. Entered (record w { objects = s.objects; queue = s.queue }) w' first t y is)
            (sym n.first_is) n) in
      subst (λ y. Began w w' now y is) n.first_is
        (subst (λ y. Began w w' now first y) (sym list) (joined-Began w' first q t sq c entered))

pub begin_batch-Began :
    (w w' : Worker) (now first : ℕ) (is : List ℕ)
    → begin_batch w now ≡ (w', batch first is)
    → Began w w' now first is
unfolding begin_batch
begin_batch-Began w w' now first is e =
    let s = skip_overdue w.objects now w.queue in
    let skip = skip_overdue-Skipped w.objects now w.queue in
    let begun : (begin_batch w now).1 ≡ batch first is = ap (λ x. x.1) e in
    elim (Bool-cases s.failed) [
      | inl bad ↦
          let no : (begin_batch w now).1 ≡ refused = rw (begin_batch, bad) refl in
          ground (arith, no, begun)
      | inr good ↦
          let same : begin_batch w now
              ≡ begin_after (record w { objects = s.objects; queue = s.queue }) now s.queue =
            rw (begin_batch, good) refl in
          begin_after-Began w now s skip good w' first s.queue is refl (sym same ∙ e)
    ]

-- A request that is not over when a batch has started is in the batch and in the queue as often, together, as it was
-- in the queue: starting a batch loses no request and doubles none.
pub count-begin_batch :
    (w w' : Worker) (now first k : ℕ) (is : List ℕ)
    → begin_batch w now ≡ (w', batch first is)
    → terminal (w'.objects k) ≡ false
    → count k w.queue ≡ count k is + count k w'.queue
count-begin_batch w w' now first k is e live = (begin_batch-Began w w' now first is e).kept k live

-- A batch that starts has at most `max_batch_size` requests and, its first one being within the token budget, at most
-- `max_batch_tokens` tokens in all; every request in it runs, was in time, and has the model, the token limit, the
-- temperature and the streaming flag of the first one.
pub begin_batch-Fits :
    (w w' : Worker) (now first : ℕ) (is : List ℕ)
    → begin_batch w now ≡ (w', batch first is)
    → 1 ≤ w.max_batch_size
    → estimated_tokens (w.objects first) ≤ w.max_batch_tokens
    → (length is ≤ w.max_batch_size)
      × (sum_of (λ k. estimated_tokens (w.objects k)) is ≤ w.max_batch_tokens)
      × All (λ k. Fits (w.objects first) now (w.objects k)) is
      × All (λ k. (w'.objects k).status ≡ RequestState.running) is
begin_batch-Fits w w' now first is e one le =
    let b = begin_batch-Began w w' now first is e in (b.size one, b.within le, b.fits, b.status)
