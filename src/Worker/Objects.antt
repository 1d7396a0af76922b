-- ===== src/Worker/Objects.antt =====
-- What a transition of serving_platform/domain/models.py leaves as it is, for the objects of apps/worker/service.py.
use gpu_aware_llm_serving_pl.Common.{
  none, ℕ, ◌≡◌, refl, ap, ◌∙◌, true, false, ok, arith, Bool-cases, inl, inr, if_cases, ◌==◌, ==_iff,
}
use gpu_aware_llm_serving_pl.Domain.{
  RequestRecord, RequestState, received, transition, stamp, terminal, is_allowed,
}
use gpu_aware_llm_serving_pl.Domain.Lifecycle.{allowed-not-terminal}
use gpu_aware_llm_serving_pl.Worker.{put}

-- The fields that no transition changes.
abbrev pub static : RequestRecord → RequestRecord
static r = record r { status = received; transition_timestamps = λ s. none }

abbrev pub moved : RequestRecord → RequestState → ℕ → RequestRecord
moved r t now = record r { status = t; transition_timestamps = stamp r.transition_timestamps t now }

pub record Moved (r r' : RequestRecord) (t : RequestState) : Type 0 where
  pub fixed : static r' ≡ static r
  pub status : r'.status ≡ t
  pub live : terminal r ≡ false

pub transition-Moved :
    (r r' : RequestRecord) (t : RequestState) (now : ℕ) → transition r t now ≡ ok r' → Moved r r' t
unfolding transition
transition-Moved r r' t now e = elim (Bool-cases (is_allowed r.status t)) [
  | inl a ↦
      let same : r' ≡ moved r t now = ground (arith, e, a) in
      record {
        fixed = ap static same;
        status = ap (λ x. x.status) same;
        live = ground (arith, a, allowed-not-terminal r.status t);
      }
  | inr a ↦ ground (arith, e, a)
]

-- The objects later: the same requests, and those that were terminal still are.
pub record Later (before after : ℕ → RequestRecord) : Type 0 where
  pub fixed : (k : ℕ) → static (after k) ≡ static (before k)
  pub over : (k : ℕ) → terminal (before k) ≡ true → terminal (after k) ≡ true

pub unchanged-Later : (objects : ℕ → RequestRecord) → Later objects objects
unchanged-Later objects = record { fixed = λ k. refl; over = λ k h. h }

pub both-Later : {a b c : ℕ → RequestRecord} → Later a b → Later b c → Later a c
both-Later p q = record { fixed = λ k. q.fixed k ∙ p.fixed k; over = λ k h. q.over k (p.over k h) }

pub live_before :
    {a b : ℕ → RequestRecord} (k : ℕ) → Later a b → terminal (b k) ≡ false → terminal (a k) ≡ false
live_before {a} k p h = elim (Bool-cases (terminal (a k))) [
  | inl t ↦ ground (arith, h, p.over k t)
  | inr live ↦ live
]

pub put-Later :
    (i : ℕ) (r : RequestRecord) (objects : ℕ → RequestRecord)
    → static r ≡ static (objects i)
    → (terminal (objects i) ≡ true → terminal r ≡ true)
    → Later objects (put i r objects)
put-Later i r objects same over = record {
  fixed = λ k.
      if_cases (λ x. static x ≡ static (objects k)) (i == k)
        (λ e. same ∙ ap (λ j. static (objects j)) ((==_iff i k).0 e)) (λ e. refl);
  over = λ k h.
      if_cases (λ x. terminal x ≡ true) (i == k)
        (λ e. over (ap (λ j. terminal (objects j)) ((==_iff i k).0 e) ∙ h)) (λ e. h);
}

pub Moved-Later :
    (i : ℕ) (r : RequestRecord) (t : RequestState) (objects : ℕ → RequestRecord)
    → Moved (objects i) r t
    → Later objects (put i r objects)
Moved-Later i r t objects m = put-Later i r objects m.fixed (λ h. ground (arith, h, m.live))
