-- ===== src/Coordination/Ownership.antt =====
-- Who owns the lease of serving_platform/coordination/lease.py.
use gpu_aware_llm_serving_pl.Common.{
  ℕ, ◌≡◌, ◌≢◌, refl, ap, ◌∙◌, Bool, true, false, some, List, [], ◌∷◌, ◌==◌, any, ok, arith,
  Bool-cases, inl, inr, Option-cases, ==_ne,
}
use gpu_aware_llm_serving_pl.Coordination.{
  Clock, Key, Lease, holds, acquire, renew, release, is_owner, claim, Plane, supervise,
}

-- What a process with a lease may do to the key, and the end of the time to live. A turn of a supervisor renews or
-- acquires, and its end releases.
pub data Event : Type 0 where
  acquires renews releases : Lease → Event
  lapses : Event

module _ {S : Type 0} (h : Key S) where
  unfoldable pub step : S → Event → S
  step s (acquires l) = (acquire h s l).0
  step s (renews l) = (renew h s l).0
  step s (releases l) = (release h s l).0
  step s lapses = h.lapse s

  unfoldable pub run : S → List Event → S
  unfolding step
  run s [] = s
  run s (e ∷ es) = run (step s e) es

-- The token's owner lets go, or its time runs out.
abbrev pub ends : ℕ → Event → Bool
ends t lapses = true
ends t (releases l) = l.owner_token == t
ends t _ = false

module _ {S : Type 0} (h : Key S) (t : ℕ) where
  acquire_kept : (s : S) (l : Lease) → h.get s ≡ some t → h.get (acquire h s l).0 ≡ some t
  unfolding acquire
  acquire_kept s l e = h.get-set_nx s l.owner_token l.ttl_ms l.ttl_positive ∙ ground (arith, e)

  renew_kept : (s : S) (l : Lease) → h.get s ≡ some t → h.get (renew h s l).0 ≡ some t
  unfolding renew
  renew_kept s l e = elim (Bool-cases (holds (h.get s) l.owner_token)) [
    | inl own ↦ rw (own, renew) (h.get-pexpire s l.ttl_ms l.ttl_positive ∙ e)
    | inr other ↦ rw (other, renew) e
  ]

  release_kept :
      (s : S) (l : Lease)
      → (l.owner_token == t) ≡ false
      → h.get s ≡ some t
      → h.get (release h s l).0 ≡ some t
  unfolding release
  release_kept s l n e =
      let other : holds (h.get s) l.owner_token ≡ false = ground (arith, n, e) in
      rw (other, release) e

  step_kept :
      (s : S) (x : Event) → ends t x ≡ false → h.get s ≡ some t → h.get (step h s x) ≡ some t
  unfolding step
  step_kept s (acquires l) n e = acquire_kept s l e
  step_kept s (renews l) n e = renew_kept s l e
  step_kept s (releases l) n e = release_kept s l n e
  step_kept s lapses n e = ground (arith, n)

  run_kept :
      (es : List Event) (s : S)
      → any (ends t) es ≡ false
      → h.get s ≡ some t
      → h.get (run h s es) ≡ some t
  unfolding run
  run_kept [] s n e = e
  run_kept (x ∷ es) s n e =
      run_kept es (step h s x) (ground (arith, n)) (step_kept s x (ground (arith, n)) e)

  -- What a process with another token meets.
  others-release :
      (s : S) (l : Lease)
      → (l.owner_token == t) ≡ false
      → h.get s ≡ some t
      → release h s l ≡ (s, false)
  unfolding release
  others-release s l n e =
      let other : holds (h.get s) l.owner_token ≡ false = ground (arith, n, e) in
      rw (other, release) refl

  others-claim :
      (s : S) (l : Lease) (owner : Bool)
      → (l.owner_token == t) ≡ false
      → h.get s ≡ some t
      → (claim h s l owner).1 ≡ false
  unfolding claim acquire renew
  others-claim s l false n e =
      h.answer_set_nx s l.owner_token l.ttl_ms l.ttl_positive ∙ ground (arith, e)
  others-claim s l true n e =
      let other : holds (h.get s) l.owner_token ≡ false = ground (arith, n, e) in
      rw (other, renew) refl

  others-supervise :
      (s : S) (l : Lease) (owner : Bool) (max_attempts now : ℕ) (clock : ℕ → Clock) (p : Plane)
      → (l.owner_token == t) ≡ false
      → h.get s ≡ some t
      → (supervise h l owner max_attempts now clock s p).1 ≡ (p, ok tt)
  unfolding supervise
  others-supervise s l owner max_attempts now clock p n e =
      rw (others-claim s l owner n e, supervise) refl

is_owner-get :
    {S : Type 0} (h : Key S) (s : S) (l : Lease)
    → is_owner h s l ≡ true
    → h.get s ≡ some l.owner_token
unfolding is_owner
is_owner-get h s l e = elim (Option-cases (h.get s)) [
  | inl none_there ↦ ground (arith, e, none_there)
  | inr (v, there) ↦ let same : v ≡ l.owner_token = ground (arith, e, there) in there ∙ ap some same
]

-- A process that owns the lease owns it after any commands of any processes, as long as its time does not run out and
-- nobody releases it with the owner's token. Until then a process with another token is not the owner, can not release
-- it, and a turn of its supervisor changes neither the registry, nor the queue, nor the requests.
pub run-is_owner :
    {S : Type 0} (h : Key S) (s : S) (mine other : Lease) (es : List Event) (owner : Bool)
    (max_attempts now : ℕ) (clock : ℕ → Clock) (p : Plane)
    → is_owner h s mine ≡ true
    → any (ends mine.owner_token) es ≡ false
    → other.owner_token ≢ mine.owner_token
    → let s' = run h s es in
      (is_owner h s' mine ≡ true)
      × (is_owner h s' other ≡ false)
      × (release h s' other ≡ (s', false))
      × ((supervise h other owner max_attempts now clock s' p).1 ≡ (p, ok tt))
unfolding is_owner
run-is_owner h s mine other es owner max_attempts now clock p own n ne =
    let t = mine.owner_token in
    let u : (other.owner_token == t) ≡ false = ==_ne other.owner_token t ne in
    let there : h.get (run h s es) ≡ some t = run_kept h t es s n (is_owner-get h s mine own) in
    (
      ground (arith, there),
      ground (arith, there, u),
      others-release h t (run h s es) other u there,
      others-supervise h t (run h s es) other owner max_attempts now clock p u there,
    )
