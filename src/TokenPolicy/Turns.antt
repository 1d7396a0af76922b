-- ===== src/TokenPolicy/Turns.antt =====
-- The decisions of inference/token_scheduling.py: one kind of work, within the batch, and turns.
use gpu_aware_llm_serving_pl.Common.{
  ◌+◌, ℕ, suc, zero, ◌≡◌, ◌≢◌, ◌≤◌, ◌<◌, Bool, true, false, List, [], ◌∷◌, length, take,
  length-take, refl, arith, ◌⊎◌, inl, inr,
}
use gpu_aware_llm_serving_pl.TokenPolicy.{
  Policy, PolicyName, Resources, Decision, prefill_first, decode_first, balanced, choose, select,
  is_empty, prefills, decodes,
}

choose_one_kind :
    (n : PolicyName) (turn : Bool) (ws rs : List ℕ)
    → (choose n turn ws rs ≡ prefills ws) ⊎ (choose n turn ws rs ≡ decodes rs)
unfolding choose
choose_one_kind prefill_first turn ws rs = ground arith
choose_one_kind decode_first turn ws rs = ground arith
choose_one_kind balanced turn ws rs = ground arith

-- A decision never mixes prefill and decode, and never names more sequences than a batch holds: it is
-- either the first waiting sequences or the first running ones, as many as fit.
pub select_one_kind :
    (p : Policy) (ws rs : List ℕ) (r : Resources)
    → ((select p ws rs r).1 ≡ prefills (take r.max_batch_size ws))
      ⊎ ((select p ws rs r).1 ≡ decodes (take r.max_batch_size rs))
unfolding select
select_one_kind p ws rs r = choose_one_kind p.name _ _ _

-- The sequences that a decision names.
abbrev pub chosen : Decision → ℕ
chosen d = length d.prefill_ids + length d.decode_ids

choose_works :
    (n : PolicyName) (turn : Bool) (ws rs : List ℕ)
    → 0 < length ws + length rs
    → 0 < chosen (choose n turn ws rs)
unfolding choose
choose_works prefill_first turn [] rs h = omega arith
choose_works prefill_first turn (w ∷ ws) rs h = omega arith
choose_works decode_first turn ws [] h = omega arith
choose_works decode_first turn ws (r ∷ rs) h = omega arith
choose_works balanced true ws (r ∷ rs) h = omega arith
choose_works balanced true [] [] h = h
choose_works balanced true (w ∷ ws) [] h = omega arith
choose_works balanced false [] rs h = omega arith
choose_works balanced false (w ∷ ws) rs h = omega arith

choose_fits :
    (n : PolicyName) (turn : Bool) (k : ℕ) (ws rs : List ℕ)
    → length ws ≤ k
    → length rs ≤ k
    → chosen (choose n turn ws rs) ≤ k
choose_fits n turn k ws rs h g = elim (choose_one_kind n turn ws rs) [
  | inl e ↦ rw e (omega arith)
  | inr e ↦ rw e (omega arith)
]

-- No policy idles while there is work: where a sequence waits or runs and the batch size is positive,
-- the decision names at least one sequence, and at most a batch of them.
pub select_works :
    (p : Policy) (ws rs : List ℕ) (r : Resources)
    → 0 < r.max_batch_size
    → 0 < length ws + length rs
    → (0 < chosen (select p ws rs r).1) × (chosen (select p ws rs r).1 ≤ r.max_batch_size)
unfolding select
select_works p ws rs r size work =
    let waiting = length-take r.max_batch_size ws in
    let running = length-take r.max_batch_size rs in
    (
      choose_works p.name _ _ _ (omega (arith, waiting, running)),
      choose_fits p.name _ r.max_batch_size _ _ (omega (arith, waiting)) (omega (arith, running)),
    )

is_empty-take : (n : ℕ) (ws : List ℕ) → 0 < n → ws ≢ [] → is_empty (take n ws) ≡ false
is_empty-take zero ws p h = absurd (omega arith)
is_empty-take (suc n) [] p h = absurd (h refl)
is_empty-take (suc n) (w ∷ ws) p h = refl

-- Under the balanced policy, with sequences waiting and running at two successive iterations, one of
-- the two iterations decodes the running ones and the other one prefills the waiting ones.
pub select_alternates :
    (p : Policy) (ws rs ws' rs' : List ℕ) (r : Resources)
    → p.name ≡ balanced
    → 0 < r.max_batch_size
    → (ws ≢ []) × (rs ≢ []) × (ws' ≢ []) × (rs' ≢ [])
    → let (p', d) = select p ws rs r in
      let d' = (select p' ws' rs' r).1 in
      ((d ≡ decodes (take r.max_batch_size rs)) × (d' ≡ prefills (take r.max_batch_size ws')))
      ⊎ ((d ≡ prefills (take r.max_batch_size ws)) × (d' ≡ decodes (take r.max_batch_size rs')))
unfolding select choose
select_alternates p ws rs ws' rs' r name size busy = ground (
  arith,
  is_empty-take r.max_batch_size ws size busy.0,
  is_empty-take r.max_batch_size rs size busy.1,
  is_empty-take r.max_batch_size ws' size busy.2,
  is_empty-take r.max_batch_size rs' size busy.3,
)
