-- ===== src/Worker/Selection.antt =====
-- What the loops of `execute_batch` in apps/worker/service.py take off the queue.
use gpu_aware_llm_serving_pl.Common.{
  ℕ, zero, suc, ◌+◌, ◌≤◌, ◌≡◌, sym, ap, ◌∙◌, subst, true, false, ◌&&◌, List, [], ◌∷◌, leb, ◌==◌,
  length, ok, arith, Bool-cases, Result-cases, inl, inr, count, sum_of, All,
}
use gpu_aware_llm_serving_pl.Domain.{
  RequestRecord, timed_out, terminal, estimated_tokens, is_terminal,
}
use gpu_aware_llm_serving_pl.Worker.{put}
use gpu_aware_llm_serving_pl.Worker.Batch.{
  is_overdue, expire, Scan, is_compatible, select, defer, choose,
}
use gpu_aware_llm_serving_pl.Worker.Objects.{
  static, Moved, transition-Moved, Later, unchanged-Later, both-Later, put-Later, Moved-Later,
}

-- A request that is over is terminal after `expire`.
pub record Expired (i : ℕ) (r : RequestRecord) (objects : ℕ → RequestRecord) : Type 0 where
  pub later : Later objects (put i r objects)
  pub over : terminal r ≡ true

pub expire-Expired :
    (i : ℕ) (r : RequestRecord) (objects : ℕ → RequestRecord) (now : ℕ)
    → expire (objects i) now ≡ ok r
    → Expired i r objects
unfolding expire is_terminal
expire-Expired i r objects now e = elim (Bool-cases (terminal (objects i))) [
  | inl a ↦
      let same : r ≡ objects i = ground (arith, e, a) in
      record {
        later = put-Later i r objects (ap static same) (λ h. ap terminal same ∙ a);
        over = ap terminal same ∙ a;
      }
  | inr a ↦
      let m : Moved (objects i) r timed_out =
        transition-Moved (objects i) r timed_out now (ground (arith, e, a)) in
      record { later = Moved-Later i r timed_out objects m; over = ap is_terminal m.status }
]

-- An object that is expired does not count any more.
pub over-count :
    (k : ℕ) {i : ℕ} {r : RequestRecord} {objects after : ℕ → RequestRecord} (q : List ℕ)
    → Expired i r objects
    → Later (put i r objects) after
    → terminal (after k) ≡ false
    → count k (i ∷ q) ≡ count k q
over-count k {i} {r} {objects} q x l live = elim (Bool-cases (i == k)) [
  | inl e ↦
      let put_over : terminal (put i r objects k) ≡ true = rw e x.over in
      ground (arith, l.over k put_over, live)
  | inr e ↦ ground (arith, e)
]

-- A request of the batch, as the queue had it: compatible with the first one, and in time.
pub record Fits (first : RequestRecord) (now : ℕ) (r : RequestRecord) : Type 0 where
  pub compatible : is_compatible first r ≡ true
  pub in_time : leb r.deadline now ≡ false

same-Fits :
    {first : RequestRecord} {now : ℕ} {r r' : RequestRecord}
    → static r ≡ static r'
    → Fits first now r
    → Fits first now r'
unfolding is_compatible
same-Fits {first} {now} e f = record {
  compatible = ap (is_compatible first) (sym e) ∙ f.compatible;
  in_time = ap (λ x. leb x.deadline now) (sym e) ∙ f.in_time;
}

pub record Chosen (limit : ℕ) (first : RequestRecord) (now room tokens : ℕ)
    (base objects : ℕ → RequestRecord) (q : List ℕ) (s : Scan) : Type 0 where
  pub later : Later objects s.objects
  pub kept :
      (k : ℕ)
      → s.failed ≡ false
      → terminal (s.objects k) ≡ false
      → count k q ≡ count k s.selected + (count k s.deferred + count k s.queue)
  pub size : length s.selected ≤ room
  pub within : tokens ≤ limit → tokens + sum_of (λ k. estimated_tokens (base k)) s.selected ≤ limit
  pub fits : All (λ k. Fits first now (base k)) s.selected

module _ (limit : ℕ) (first : RequestRecord) (now : ℕ) (base : ℕ → RequestRecord) where
  select-Chosen :
      (room tokens i : ℕ) (objects : ℕ → RequestRecord) (q : List ℕ) (s : Scan)
      → Fits first now (base i)
      → tokens + estimated_tokens (base i) ≤ limit
      → Chosen limit first now room (tokens + estimated_tokens (base i)) base objects q s
      → Chosen limit first now (suc room) tokens base objects (i ∷ q) (select i s)
  select-Chosen room tokens i objects q s fit l c = record {
    later = c.later;
    kept = λ k f live. let n = c.kept k f live in ground (arith, n);
    size = omega (arith, c.size);
    within = λ _. let n = c.within l in omega (arith, n);
    fits = (fit, c.fits);
  }

  defer-Chosen :
      (room tokens i : ℕ) (objects : ℕ → RequestRecord) (q : List ℕ) (s : Scan)
      → Chosen limit first now room tokens base objects q s
      → Chosen limit first now room tokens base objects (i ∷ q) (defer i s)
  defer-Chosen room tokens i objects q s c = record {
    later = c.later;
    kept = λ k f live. let n = c.kept k f live in ground (arith, n);
    size = c.size;
    within = c.within;
    fits = c.fits;
  }

  pub choose-Chosen :
      (room tokens : ℕ) (objects : ℕ → RequestRecord) (q : List ℕ)
      → Later base objects
      → Chosen limit first now room tokens base objects q
          (choose limit first now room tokens objects q)
  unfolding choose
  choose-Chosen zero tokens objects q p = record {
    later = unchanged-Later objects;
    kept = λ k f live. omega arith;
    size = omega arith;
    within = λ l. omega arith;
    fits = tt;
  }
  choose-Chosen (suc room) tokens objects [] p = record {
    later = unchanged-Later objects;
    kept = λ k f live. omega arith;
    size = omega arith;
    within = λ l. omega arith;
    fits = tt;
  }
  choose-Chosen (suc room) tokens objects (i ∷ q) p =
      elim (Bool-cases (is_overdue (objects i) now)) [
        | inl late ↦ elim (Result-cases (expire (objects i) now)) [
          | inl (x, e) ↦
              rw (late, e, choose)
                (record {
                  later = unchanged-Later objects;
                  kept = λ k f live. ground (arith, f);
                  size = omega arith;
                  within = λ l. omega arith;
                  fits = tt;
                })
          | inr (r, e) ↦
              let x = expire-Expired i r objects now e in
              let c = choose-Chosen (suc room) tokens (put i r objects) q (both-Later p x.later) in
              rw (late, e, choose)
                (record {
                  later = both-Later x.later c.later;
                  kept = λ k f live. over-count k q x c.later live ∙ c.kept k f live;
                  size = c.size;
                  within = c.within;
                  fits = c.fits;
                })
        ]
        | inr soon ↦
            let fixed : static (objects i) ≡ static (base i) = p.fixed i in
            let cost : estimated_tokens (objects i) ≡ estimated_tokens (base i) =
              ap estimated_tokens fixed in
            elim (Bool-cases (
              is_compatible first (objects i)
              && leb (tokens + estimated_tokens (objects i)) limit)) [
                | inl e ↦
                    let c =
                      choose-Chosen room (tokens + estimated_tokens (objects i)) objects q p in
                    let fit : Fits first now (objects i) = record {
                      compatible = ground (arith, e);
                      in_time = ground (arith, soon);
                    } in
                    rw (soon, e, choose)
                      (select-Chosen room tokens i objects q _ (same-Fits fixed fit)
                        (ground (arith, e, cost))
                        (subst
                          (λ n. Chosen limit first now room (tokens + n) base objects q (
                            choose limit first now room (tokens + estimated_tokens (objects i))
                              objects q))
                          cost c))
                | inr e ↦
                    let c = choose-Chosen (suc room) tokens objects q p in
                    rw (soon, e, choose) (defer-Chosen (suc room) tokens i objects q _ c)
              ]
      ]
