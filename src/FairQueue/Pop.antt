-- ===== src/FairQueue/Pop.antt =====
-- `pop` of serving_platform/scheduling/fair_queue.py: what leaves the queues, and what it is charged.
use gpu_aware_llm_serving_pl.Common.{
  ℕ, suc, zero, ◌+◌, ◌-◌, ◌≤◌, ◌≡◌, refl, Bool, true, false, not, Option, none, some, List, [], ◌∷◌,
  ◌==◌, if◌then◌else◌, length, keep, any, All, sum_of, to_nat, arith, subst, if_cases, ◌∙◌, sym,
}
use gpu_aware_llm_serving_pl.Common.Dict.{lookup, share, total, lookup-insert, total-insert}
use gpu_aware_llm_serving_pl.Domain.{RequestRecord, terminal, estimated_tokens}
use gpu_aware_llm_serving_pl.FairQueue.{
  return_or, FairQueue, is_better, best, score, remove, get, credit, live, queue_of, or_empty,
  serve, visit, pop_visits, pop,
}

-- The requests of an identifier in a queue that have not ended.
abbrev pub live_count : ℕ → List RequestRecord → ℕ
live_count i = sum_of (λ r. if terminal r then 0 else to_nat (r.request_id == i))

abbrev pub waiting : ℕ → FairQueue → ℕ
waiting i q = total (live_count i) q.queues

abbrev pub popped : ℕ → Option RequestRecord → ℕ
popped i none = 0
popped i (some r) = to_nat (r.request_id == i)

abbrev AllLive : List RequestRecord → Type 0
AllLive = All (λ r. terminal r ≡ false)

live_count-keep :
    (i : ℕ) (rs : List RequestRecord)
    → live_count i (keep (λ r. not (terminal r)) rs) ≡ live_count i rs
live_count-keep i [] = refl
live_count-keep i (r ∷ rs) = ground (arith, live_count-keep i rs)

keep-AllLive : (rs : List RequestRecord) → AllLive (keep (λ r. not (terminal r)) rs)
keep-AllLive [] = tt
keep-AllLive (r ∷ rs) = ground (arith, keep-AllLive rs)

abbrev pub holds_id : ℕ → List RequestRecord → Bool
holds_id i = any (λ s. s.request_id == i)

live_count-remove :
    (i j : ℕ) (rs : List RequestRecord)
    → AllLive rs
    → holds_id j rs ≡ true
    → live_count i (remove j rs) + to_nat (j == i) ≡ live_count i rs
unfolding remove
live_count-remove i j [] h m = cc
live_count-remove i j (r ∷ rs) h m = ground (arith, live_count-remove i j rs)

holds_id_choice :
    (b : Bool) (i : ℕ) (r s : RequestRecord) (rs : List RequestRecord)
    → holds_id i ((if b then s else r) ∷ rs) ≡ true
    → holds_id i (r ∷ s ∷ rs) ≡ true
holds_id_choice true i r s rs h = ground arith
holds_id_choice false i r s rs h = ground arith

holds_id-best :
    (aging now : ℕ) (r : RequestRecord) (rs : List RequestRecord)
    → holds_id (best aging now r rs).request_id (r ∷ rs) ≡ true
unfolding best
holds_id-best aging now r [] = ground arith
holds_id-best aging now r (s ∷ rs) =
    holds_id_choice (is_better aging now s r) _ r s rs
      (holds_id-best aging now (if is_better aging now s r then s else r) rs)

serve-waiting :
    (i t : ℕ) (q : FairQueue) (queue : List RequestRecord) (r : RequestRecord)
    → AllLive queue
    → holds_id r.request_id queue ≡ true
    → live_count i queue ≡ share (live_count i) (lookup t q.queues)
    → waiting i (serve q t queue r).0 + popped i (serve q t queue r).1 ≡ waiting i q
unfolding serve
serve-waiting i t q queue r all m e = ground (
  arith,
  live_count-remove i r.request_id queue all m,
  total-insert (live_count i) t (remove r.request_id queue) q.queues,
  total-insert (live_count i) t queue q.queues,
)

visit-waiting :
    (i t now : ℕ) (q : FairQueue) (queue : List RequestRecord)
    → AllLive queue
    → live_count i queue ≡ share (live_count i) (lookup t q.queues)
    → waiting i (visit q t now queue).0 + popped i (visit q t now queue).1 ≡ waiting i q
unfolding visit
visit-waiting i t now q [] all e = omega (arith, e, total-insert (live_count i) t [] q.queues)
visit-waiting i t now q (r ∷ rs) all e =
    serve-waiting i t q (r ∷ rs) _ all (holds_id-best q.priority_aging_seconds now r rs) e

live_count-queue_of :
    (i : ℕ) (o : Option (List RequestRecord)) → live_count i (or_empty o) ≡ share (live_count i) o
live_count-queue_of i none = refl
live_count-queue_of i (some rs) = refl

return_or-waiting :
    (i w : ℕ) (next : FairQueue → FairQueue × Option RequestRecord)
    → ((q : FairQueue) → waiting i (next q).0 + popped i (next q).1 ≡ waiting i q)
    → (v : FairQueue × Option RequestRecord) → waiting i v.0 + popped i v.1 ≡ w
    → waiting i (return_or next v).0 + popped i (return_or next v).1 ≡ w
return_or-waiting i w next h (q, none) e = omega (arith, h q)
return_or-waiting i w next h (q, some r) e = e

pop_visits-waiting :
    (n i now : ℕ) (q : FairQueue)
    → waiting i (pop_visits n q now).0 + popped i (pop_visits n q now).1 ≡ waiting i q
unfolding pop_visits
pop_visits-waiting zero i now q = omega arith
pop_visits-waiting (suc n) i now q = go q.active refl (pop_visits-waiting n i now)
  where
    go :
        (ts : List ℕ)
        → q.active ≡ ts
        → ((q' : FairQueue)
            → waiting i (pop_visits n q' now).0 + popped i (pop_visits n q' now).1 ≡ waiting i q')
        → waiting i (pop_visits (suc n) q now).0 + popped i (pop_visits (suc n) q now).1
          ≡ waiting i q
    go [] e ih = rw (e, pop_visits) (omega arith)
    go (t ∷ rest) e ih =
        rw (e, pop_visits)
          (return_or-waiting i (waiting i q) (λ q'. pop_visits n q' now) ih
            (visit (record q { active = rest }) t now (live q t))
            (visit-waiting i t now (record q { active = rest }) (live q t)
              (keep-AllLive (queue_of q t))
              (live_count-keep i (queue_of q t) ∙ live_count-queue_of i (lookup t q.queues))))

-- No live request is lost or made up by `pop`: for every identifier, the live requests of that
-- identifier in the queues afterwards, and the returned one if it is of that identifier, are as many
-- as before.
pub pop-waiting :
    (i now : ℕ) (q : FairQueue) → waiting i (pop q now).0 + popped i (pop q now).1 ≡ waiting i q
unfolding pop
pop-waiting i now q = pop_visits-waiting (length q.active) i now q

abbrev IsTop : ℕ → ℕ → RequestRecord → List RequestRecord → Type 0
IsTop aging now r = All (λ s. score aging now s ≤ score aging now r)

better_of : ℕ → ℕ → RequestRecord → RequestRecord → RequestRecord
better_of aging now s r = if is_better aging now s r then s else r

score-better_of :
    (aging now : ℕ) (s r : RequestRecord)
    → (score aging now r ≤ score aging now (better_of aging now s r))
      × (score aging now s ≤ score aging now (better_of aging now s r))
unfolding better_of is_better
score-better_of aging now s r =
    if_cases
      (λ x. (score aging now r ≤ score aging now x) × (score aging now s ≤ score aging now x))
      (is_better aging now s r) (λ h. ground arith) (λ h. ground arith)

best-IsTop :
    (aging now : ℕ) (r : RequestRecord) (rs : List RequestRecord)
    → IsTop aging now (best aging now r rs) (r ∷ rs)
unfolding best better_of
best-IsTop aging now r [] = omega arith
best-IsTop aging now r (s ∷ rs) =
    let (kept, others) = best-IsTop aging now (if is_better aging now s r then s else r) rs in
    let (of_r, of_s) = score-better_of aging now s r in
    (omega (arith, kept, of_r), (omega (arith, kept, of_s), others))

-- A visit that returns a request returns one of the visited queue, whose score no other request of the
-- queue exceeds; the tenant's credit pays for it, and the tenant is charged its tokens.
pub visit_served :
    (q : FairQueue) (t now : ℕ) (queue : List RequestRecord) (r : RequestRecord)
    → (visit q t now queue).1 ≡ some r
    → (holds_id r.request_id queue ≡ true)
      × All (λ s. score q.priority_aging_seconds now s ≤ score q.priority_aging_seconds now r) queue
      × (estimated_tokens r ≤ credit q t)
      × (get t (visit q t now queue).0.deficits + estimated_tokens r ≡ credit q t)
unfolding visit serve
visit_served q t now [] r e = cc
visit_served q t now (s ∷ rs) r e =
    let same : r ≡ best q.priority_aging_seconds now s rs = ground arith in
    (
      subst (λ x. holds_id x.request_id (s ∷ rs) ≡ true) (sym same)
          (holds_id-best q.priority_aging_seconds now s rs),
      subst (λ x. IsTop q.priority_aging_seconds now x (s ∷ rs)) (sym same)
          (best-IsTop q.priority_aging_seconds now s rs),
      ground arith,
      ground (arith, lookup-insert t t (credit q t - estimated_tokens r) q.deficits),
    )
