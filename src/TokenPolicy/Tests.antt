-- ===== src/TokenPolicy/Tests.antt =====
-- The policies with two waiting and three running sequences.
use gpu_aware_llm_serving_pl.Common.{ℕ, ◌≡◌, refl, List, [], ◌∷◌, false, ◌⊎◌, arith}
use gpu_aware_llm_serving_pl.TokenPolicy.{Policy, Resources, balanced, select, prefills, decodes}
use gpu_aware_llm_serving_pl.TokenPolicy.Turns.{select_alternates}

abbrev policy : Policy
policy = record { name = balanced; balanced_decode_turn = false }

abbrev resources : Resources
resources = record { available_slots = 1; free_kv_blocks = 9; max_batch_size = 2 }

abbrev waiting : List ℕ
waiting = 1 ∷ 2 ∷ []

abbrev running : List ℕ
running = 3 ∷ 4 ∷ 5 ∷ []

decodes_first : (select policy waiting running resources).1 ≡ decodes (3 ∷ 4 ∷ [])
unfolding select
decodes_first = refl

select_alternates_example :
    let (p', d) = select policy waiting running resources in
    let d' = (select p' waiting running resources).1 in
    ((d ≡ decodes (3 ∷ 4 ∷ [])) × (d' ≡ prefills (1 ∷ 2 ∷ [])))
    ⊎ ((d ≡ prefills (1 ∷ 2 ∷ [])) × (d' ≡ decodes (3 ∷ 4 ∷ [])))
select_alternates_example =
    select_alternates policy waiting running waiting running resources refl (omega arith)
      ((λ e. cc), (λ e. cc), (λ e. cc), (λ e. cc))
