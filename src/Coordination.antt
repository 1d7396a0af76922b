-- ===== src/Coordination.antt =====
-- serving_platform/coordination/lease.py, and one turn of the loop of apps/control_plane/reliability.py, which recovers
-- the requests of lost workers where it owns the lease. The Redis key is a parameter, with the documented laws of its
-- commands; the texts of the key and the token are left out, a token is a number.
pub mod Ownership
mod Tests
use gpu_aware_llm_serving_pl.Common.{
  ℕ, ◌≡◌, Bool, true, false, not, ◌&&◌, ◌||◌, Option, none, some, List, [], ◌∷◌, ◌==◌,
  if◌then◌else◌, max, ◌<◌, arith, Result, ok, raise,
}
use gpu_aware_llm_serving_pl.Common.Dict.{is_some}
use gpu_aware_llm_serving_pl.Registry.{Registry, expire_stale}
use gpu_aware_llm_serving_pl.FairQueue.{FairQueue}
use gpu_aware_llm_serving_pl.Recovery.{
  Clock, Store, RecoveryError, Recovered, recover_failed_worker,
}

-- GET, SET with NX and PX, PEXPIRE and DEL on one key, for a time to live that is positive: PEXPIRE with 0 deletes
-- the key, and SET does not take it. `lapse` is the end of the key's time to live.
pub record Key (S : Type 0) : Type 0 where
  pub get : S → Option ℕ
  pub set_nx : S → ℕ → ℕ → S × Bool
  pub pexpire : S → ℕ → S × Bool
  pub del : S → S × Bool
  pub lapse : S → S
  pub get-set_nx :
      (s : S) (v px : ℕ)
      → 0 < px
      → get (set_nx s v px).0 ≡ (if is_some (get s) then get s else some v)
  pub answer_set_nx : (s : S) (v px : ℕ) → 0 < px → (set_nx s v px).1 ≡ not (is_some (get s))
  pub get-pexpire : (s : S) (px : ℕ) → 0 < px → get (pexpire s px).0 ≡ get s
  pub get-del : (s : S) → get (del s).0 ≡ none
  pub get-lapse : (s : S) → get (lapse s) ≡ none

pub record Lease : Type 0 where
  pub owner_token : ℕ
  pub ttl_ms : ℕ
  pub ttl_positive : 0 < ttl_ms

pub data LeaseError : Type 0 where
  value_error : LeaseError

-- The time to live is in milliseconds.
unfoldable pub init_lease : ℕ → ℕ → Result LeaseError Lease
init_lease ttl token =
    if ttl == 0
    then raise value_error
    else ok (record { owner_token = token; ttl_ms = max 1 ttl; ttl_positive = omega arith })

abbrev pub holds : Option ℕ → ℕ → Bool
holds none token = false
holds (some v) token = v == token

module _ {S : Type 0} (h : Key S) where
  unfoldable pub acquire : S → Lease → S × Bool
  acquire s l = h.set_nx s l.owner_token l.ttl_ms

  -- RENEW_SCRIPT
  unfoldable pub renew : S → Lease → S × Bool
  renew s l = if not (holds (h.get s) l.owner_token) then (s, false) else h.pexpire s l.ttl_ms

  -- RELEASE_SCRIPT
  unfoldable pub release : S → Lease → S × Bool
  release s l = if not (holds (h.get s) l.owner_token) then (s, false) else h.del s

  unfoldable pub is_owner : S → Lease → Bool
  is_owner s l = holds (h.get s) l.owner_token

  -- The supervisor renews the lease it owns, or tries to get it. `owner` is what `is_owner` answered before: others
  -- may come in between.
  unfoldable pub claim : S → Lease → Bool → S × Bool
  unfolding acquire renew
  claim s l owner = if owner then renew s l else acquire s l

-- What the supervisor works on.
pub record Plane : Type 0 where
  pub registry : Registry
  pub queue : Option FairQueue
  pub store : Store

-- The loop over the workers that expired; an exception ends it.
unfoldable pub recover_each :
    ℕ → (ℕ → Clock) → List ℕ → Plane → Plane × Result RecoveryError (Unit {0})
recover_each max_attempts clock [] p = (p, ok tt)
recover_each max_attempts clock (w ∷ ws) p =
    let (c, answer) = recover_failed_worker p.queue p.store w max_attempts clock in
    let p' : Plane = record p { queue = c.queue; store = c.store } in
    elim answer [ raise e ↦ (p', raise e) | ok x ↦ recover_each max_attempts clock ws p' ]

unfoldable pub check : ℕ → ℕ → (ℕ → Clock) → Plane → Plane × Result RecoveryError (Unit {0})
unfolding recover_each
check max_attempts now clock p =
    let (registry, lost) = expire_stale p.registry now in
    recover_each max_attempts clock lost (record p { registry = registry })

-- One turn of `run`, after the wait, for a supervisor with a lease.
unfoldable pub supervise :
    {S : Type 0}
    → Key S
    → Lease
    → Bool
    → ℕ
    → ℕ
    → (ℕ → Clock)
    → S
    → Plane
    → S × (Plane × Result RecoveryError (Unit {0}))
unfolding claim check
supervise h l owner max_attempts now clock s p =
    let (s', owns) = claim h s l owner in
    (s', if owns then check max_attempts now clock p else (p, ok tt))

-- The `finally` clause of `run`, with what `is_owner` answered before.
unfoldable pub resign : {S : Type 0} → Key S → Lease → Bool → S → S
unfolding release
resign h l owner s = if owner then (release h s l).0 else s
