-- ===== src/Worker/Soundness.antt =====
-- The locked part of `execute_batch` in apps/worker/service.py does not raise on a queue of requests that wait.
use gpu_aware_llm_serving_pl.Common.{
  ℕ, zero, suc, ◌+◌, ◌-◌, ◌≤◌, ◌≡◌, ◌≢◌, refl, sym, ap, ◌∙◌, subst, true, false, ◌&&◌, List, [],
  ◌∷◌, ◌++◌, leb, ◌==◌, arith, Bool-cases, inl, inr, count, ==_iff, distinct, count-distinct,
}
use gpu_aware_llm_serving_pl.Domain.{RequestRecord, RequestState, is_allowed, estimated_tokens}
use gpu_aware_llm_serving_pl.Worker.{Worker, put}
use gpu_aware_llm_serving_pl.Worker.Batch.{
  is_overdue, Scan, skip_overdue, is_compatible, choose, enter, run_selected, refused, batch,
  begin_with, begin_after, begin_batch,
}
use gpu_aware_llm_serving_pl.Worker.Objects.{moved}
use gpu_aware_llm_serving_pl.Worker.Selection.{expire-Expired}
use gpu_aware_llm_serving_pl.Worker.Progress.{
  AllWaiting, is_waiting-true, queued_allowed, expire_ok, put-AllWaiting, Sound, dropped-Sound,
  select-Sound, defer-Sound,
}

module _ (limit : ℕ) (first : RequestRecord) (now : ℕ) where
  choose-Sound :
      (room tokens : ℕ) (objects : ℕ → RequestRecord) (q : List ℕ)
      → AllWaiting objects q
      → Sound now objects q (choose limit first now room tokens objects q)
  unfolding choose
  choose-Sound zero tokens objects q h = record {
    fine = refl;
    fewer = λ k. omega arith;
    status = λ k l. ground (arith, l);
    quiet = λ k e. refl;
  }
  choose-Sound (suc room) tokens objects [] h = record {
    fine = refl;
    fewer = λ k. omega arith;
    status = λ k l. ground (arith, l);
    quiet = λ k e. refl;
  }
  choose-Sound (suc room) tokens objects (i ∷ q) h =
      elim (Bool-cases (is_overdue (objects i) now)) [
        | inl late ↦
            let (r, e) = expire_ok (objects i) now (h i (ground arith)) in
            rw (late, e, choose)
              (dropped-Sound now objects i q r _ late (
                choose-Sound (suc room) tokens (put i r objects) q
                  (put-AllWaiting i r objects q (expire-Expired i r objects now e).over h)))
        | inr soon ↦
            let rest : AllWaiting objects q = λ k l. h k (omega (arith, l)) in
            elim (Bool-cases (
              is_compatible first (objects i)
              && leb (tokens + estimated_tokens (objects i)) limit)) [
                | inl e ↦
                    rw (soon, e, choose)
                      (select-Sound now objects i q _ soon (h i (ground arith))
                        (choose-Sound room (tokens + estimated_tokens (objects i)) objects q rest))
                | inr e ↦
                    rw (soon, e, choose)
                      (defer-Sound now objects i q _
                        (choose-Sound (suc room) tokens objects q rest))
              ]
      ]

-- The queue after the requests at its head that are over.
record Skippable (now : ℕ) (q : List ℕ) (s : Scan) : Type 0 where
  fine : s.failed ≡ false
  fewer : (k : ℕ) → count k s.queue ≤ count k q
  waiting : AllWaiting s.objects s.queue
  head : (i : ℕ) (is : List ℕ) → s.queue ≡ i ∷ is → is_overdue (s.objects i) now ≡ false

skip_overdue-Skippable :
    (objects : ℕ → RequestRecord) (now : ℕ) (q : List ℕ)
    → AllWaiting objects q
    → Skippable now q (skip_overdue objects now q)
unfolding skip_overdue
skip_overdue-Skippable objects now [] h = record {
  fine = refl;
  fewer = λ k. omega arith;
  waiting = h;
  head = λ i is e. cc;
}
skip_overdue-Skippable objects now (i ∷ q) h = elim (Bool-cases (is_overdue (objects i) now)) [
  | inl late ↦
      let (r, e) = expire_ok (objects i) now (h i (ground arith)) in
      let c =
        skip_overdue-Skippable (put i r objects) now q
          (put-AllWaiting i r objects q (expire-Expired i r objects now e).over h) in
      rw (late, e, skip_overdue)
        (record {
          fine = c.fine;
          fewer = λ k. omega (arith, c.fewer k);
          waiting = c.waiting;
          head = c.head;
        })
  | inr soon ↦
      rw (soon, skip_overdue)
        (record {
          fine = refl;
          fewer = λ k. omega arith;
          waiting = h;
          head = λ j is e.
              let same : i ≡ j = cc in subst (λ k. is_overdue (objects k) now ≡ false) same soon;
        })
]

run_selected_done :
    (w : Worker) (now : ℕ) (is : List ℕ)
    → ((k : ℕ) → count k is ≤ 1)
    → ((k : ℕ) → 1 ≤ count k is → (w.objects k).status ≡ RequestState.queued)
    → (run_selected w now is).1 ≡ true
unfolding run_selected is_allowed
run_selected_done w now [] once h = refl
run_selected_done w now (i ∷ is) once h =
    let e = queued_allowed (w.objects i) RequestState.running now (h i (ground arith)) refl in
    let r = moved (w.objects i) RequestState.running now in
    rw (e, run_selected)
      (run_selected_done (enter w i r) now is (λ k. omega (arith, once k))
        (λ k l. elim (Bool-cases (i == k)) [
          | inl same ↦ let n = once k in ground (arith, n, l, same)
          | inr other ↦
              let here : put i r w.objects k ≡ w.objects k = ground (arith, other) in
              ap (λ x. x.status) here ∙ h k (ground (arith, l))
        ]))

begin_with_batch :
    (w : Worker) (now first : ℕ) (q : List ℕ) (s : Scan)
    → Sound now w.objects q s
    → ((k : ℕ) → count k (first ∷ q) ≤ 1)
    → (w.objects first).status ≡ RequestState.queued
    → is_overdue (w.objects first) now ≡ false
    → (begin_with w now first s).1 ≡ batch first (first ∷ s.selected)
unfolding begin_with
begin_with_batch w now first q s c once queued soon =
    let ready : Worker = record w { objects = s.objects; queue = s.deferred ++ s.queue } in
    let done : (run_selected ready now (first ∷ s.selected)).1 ≡ true =
      run_selected_done ready now (first ∷ s.selected)
        (λ k. let n = once k in omega (arith, n, c.fewer k))
        (λ k l. elim (Bool-cases (first == k)) [
          | inl e ↦
              subst (λ j. (s.objects j).status ≡ RequestState.queued) ((==_iff first k).0 e)
                (ap (λ x. x.status) (c.quiet first soon) ∙ queued)
          | inr e ↦ c.status k (ground (arith, l, e))
        ]) in
    rw (c.fine, begin_with, done) refl

begin_after_not_refused :
    (w : Worker) (now : ℕ) (q : List ℕ)
    → ((k : ℕ) → count k q ≤ 1)
    → AllWaiting w.objects q
    → ((i : ℕ) (is : List ℕ) → q ≡ i ∷ is → is_overdue (w.objects i) now ≡ false)
    → (begin_after w now q).1 ≢ refused
unfolding begin_after
begin_after_not_refused w now [] once h head = λ e. cc
begin_after_not_refused w now (first ∷ q) once h head =
    let soon = head first q refl in
    let r = w.objects first in
    let live = h first (ground arith) in
    let queued : r.status ≡ RequestState.queued =
      is_waiting-true r.status (ground (arith, live, soon)) in
    let c =
      choose-Sound w.max_batch_tokens r now (w.max_batch_size - 1) (estimated_tokens r) w.objects q
        (λ k l. h k (omega (arith, l))) in
    let started = begin_with_batch w now first q _ c once queued soon in
    λ e. ground (arith, e, started)

-- On a queue without repetition whose requests are queued or over, `execute_batch` gets to the runtime or finds nothing
-- to do: no transition of its locked part raises.
pub begin_batch_not_refused :
    (w : Worker) (now : ℕ)
    → distinct w.queue ≡ true
    → AllWaiting w.objects w.queue
    → (begin_batch w now).1 ≢ refused
unfolding begin_batch
begin_batch_not_refused w now once h =
    let s = skip_overdue w.objects now w.queue in
    let c = skip_overdue-Skippable w.objects now w.queue h in
    let ready : Worker = record w { objects = s.objects; queue = s.queue } in
    let single : (k : ℕ) → count k s.queue ≤ 1 =
      λ k. omega (arith, c.fewer k, count-distinct k w.queue once) in
    let same : begin_batch w now ≡ begin_after ready now s.queue = rw (begin_batch, c.fine) refl in
    subst (λ x. x.1 ≢ refused) (sym same)
      (begin_after_not_refused ready now s.queue single c.waiting c.head)
