-- ===== src/Worker/Progress.antt =====
-- A queue of requests that wait, in the loops of `execute_batch` of apps/worker/service.py.
use gpu_aware_llm_serving_pl.Common.{
  ℕ, ◌≤◌, ◌≡◌, refl, ap, ◌∙◌, subst, Bool, true, false, ◌||◌, List, ◌∷◌, ◌==◌, ok, arith,
  Bool-cases, inl, inr, if_cases, count, ==_iff,
}
use gpu_aware_llm_serving_pl.Domain.{
  RequestRecord, RequestState, timed_out, transition, terminal, is_allowed,
}
use gpu_aware_llm_serving_pl.Worker.{put}
use gpu_aware_llm_serving_pl.Worker.Batch.{is_overdue, expire, Scan, select, defer}
use gpu_aware_llm_serving_pl.Worker.Objects.{moved}

abbrev pub is_waiting : RequestState → Bool
is_waiting RequestState.queued = true
is_waiting _ = false

-- The request is queued, or over.
abbrev pub IsWaiting : RequestRecord → Type 0
IsWaiting r = (is_waiting r.status || terminal r) ≡ true

pub is_waiting-true : (s : RequestState) → is_waiting s ≡ true → s ≡ RequestState.queued
is_waiting-true RequestState.queued e = refl
is_waiting-true _ e = ground (arith, e)

pub queued_allowed :
    (r : RequestRecord) (t : RequestState) (now : ℕ)
    → r.status ≡ RequestState.queued
    → is_allowed RequestState.queued t ≡ true
    → transition r t now ≡ ok (moved r t now)
unfolding transition
queued_allowed r t now e a =
    let allowed : is_allowed r.status t ≡ true = ap (λ s. is_allowed s t) e ∙ a in
    rw (allowed, transition) refl

pub expire_ok :
    (r : RequestRecord) (now : ℕ) → IsWaiting r → (r' : RequestRecord) × (expire r now ≡ ok r')
unfolding expire is_allowed
expire_ok r now h = elim (Bool-cases (terminal r)) [
  | inl over ↦ (r, rw (over, expire) refl)
  | inr live ↦ (
    moved r timed_out now,
    rw (live, expire)
        (queued_allowed r timed_out now (is_waiting-true r.status (ground (arith, h, live))) refl),
  )
]

-- Every request of the list waits.
abbrev pub AllWaiting : (ℕ → RequestRecord) → List ℕ → Type 0
AllWaiting objects q = (k : ℕ) → 1 ≤ count k q → IsWaiting (objects k)

put-IsWaiting :
    (i k : ℕ) (r : RequestRecord) (objects : ℕ → RequestRecord)
    → terminal r ≡ true
    → IsWaiting (objects k)
    → IsWaiting (put i r objects k)
put-IsWaiting i k r objects e h =
    if_cases {A = RequestRecord} (λ x. (is_waiting x.status || terminal x) ≡ true) (i == k)
      (λ _. ground (arith, e)) (λ _. h)

pub put-AllWaiting :
    (i : ℕ) (r : RequestRecord) (objects : ℕ → RequestRecord) (q : List ℕ)
    → terminal r ≡ true
    → AllWaiting objects (i ∷ q)
    → AllWaiting (put i r objects) q
put-AllWaiting i r objects q e h = λ k l. put-IsWaiting i k r objects e (h k (ground (arith, l)))

-- An object in time is not the one that is put.
pub put_quiet :
    (i k now : ℕ) (r : RequestRecord) (objects : ℕ → RequestRecord)
    → is_overdue (objects i) now ≡ true
    → is_overdue (objects k) now ≡ false
    → put i r objects k ≡ objects k
put_quiet i k now r objects late soon = elim (Bool-cases (i == k)) [
  | inl e ↦ ground (arith, late, soon, ap (λ j. is_overdue (objects j) now) ((==_iff i k).0 e))
  | inr e ↦ ground (arith, e)
]

pub record Sound (now : ℕ) (objects : ℕ → RequestRecord) (q : List ℕ) (s : Scan) : Type 0 where
  pub fine : s.failed ≡ false
  pub fewer : (k : ℕ) → count k s.selected ≤ count k q
  pub status : (k : ℕ) → 1 ≤ count k s.selected → (s.objects k).status ≡ RequestState.queued
  pub quiet : (k : ℕ) → is_overdue (objects k) now ≡ false → s.objects k ≡ objects k

module _ (now : ℕ) (objects : ℕ → RequestRecord) (i : ℕ) (q : List ℕ) where
  pub dropped-Sound :
      (r : RequestRecord) (s : Scan)
      → is_overdue (objects i) now ≡ true
      → Sound now (put i r objects) q s
      → Sound now objects (i ∷ q) s
  dropped-Sound r s late c = record {
    fine = c.fine;
    fewer = λ k. omega (arith, c.fewer k);
    status = c.status;
    quiet = λ k soon.
        let same = put_quiet i k now r objects late soon in
        c.quiet k (ap (λ x. is_overdue x now) same ∙ soon) ∙ same;
  }

  pub select-Sound :
      (s : Scan)
      → is_overdue (objects i) now ≡ false
      → IsWaiting (objects i)
      → Sound now objects q s
      → Sound now objects (i ∷ q) (select i s)
  select-Sound s soon h c = record {
    fine = c.fine;
    fewer = λ k. omega (arith, c.fewer k);
    status = λ k l. elim (Bool-cases (i == k)) [
      | inl e ↦
          let queued : (objects i).status ≡ RequestState.queued =
            is_waiting-true _ (ground (arith, h, soon)) in
          subst (λ j. (s.objects j).status ≡ RequestState.queued) ((==_iff i k).0 e)
            (ap (λ x. x.status) (c.quiet i soon) ∙ queued)
      | inr e ↦ c.status k (ground (arith, l, e))
    ];
    quiet = c.quiet;
  }

  pub defer-Sound : (s : Scan) → Sound now objects q s → Sound now objects (i ∷ q) (defer i s)
  defer-Sound s c = record {
    fine = c.fine;
    fewer = λ k. omega (arith, c.fewer k);
    status = c.status;
    quiet = c.quiet;
  }
