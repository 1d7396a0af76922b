-- ===== src/FaultInjection/Tests.antt =====
-- A runtime that counts the calls that reach it, and a rule on its operation 4.
use gpu_aware_llm_serving_pl.Common.{ℕ, ◌+◌, ◌≡◌, refl, List, [], ◌∷◌, Result, ok, raise, count}
use gpu_aware_llm_serving_pl.Common.Dict.{lookup, insert}
use gpu_aware_llm_serving_pl.FaultInjection.{
  Injector, FaultRule, injected, calls, faults, index_rules, init_injector, before, call,
}
use gpu_aware_llm_serving_pl.FaultInjection.Counting.{
  run, names, answer_of, runtime_of, call-run-init_injector,
}

program : Unit {0}
unfolding lookup insert calls index_rules init_injector before call run
program = tt

abbrev reach : ℕ → ℕ × Result ℕ ℕ
reach r = (r + 1, ok r)

abbrev rule : FaultRule
rule = record { operation = 4; fail_on_calls = 2 ∷ []; code = 9 }

abbrev wrapper : Injector ℕ
wrapper = record { runtime = 0; rules = (4, rule) ∷ []; counts = [] }

init_wrapper : init_injector 0 (rule ∷ []) ≡ ok wrapper
unfolding program
init_wrapper = refl

abbrev earlier : List (ℕ × (ℕ → ℕ × Result ℕ ℕ))
earlier = (4, reach) ∷ (5, reach) ∷ []

second_fails :
    (call (run wrapper earlier) 4 reach).1
    ≡ raise (injected (record { operation = 4; call_number = 2; code = 9 }))
unfolding program
second_fails = refl

call-run-init_injector_example :
    let j = run wrapper earlier in
    let fault = faults (lookup 4 (index_rules (rule ∷ []) [])) 4 (count 4 (names earlier) + 1) in
    ((call j 4 reach).1 ≡ answer_of fault (reach j.runtime))
    × ((call j 4 reach).0.runtime ≡ runtime_of fault j.runtime (reach j.runtime))
call-run-init_injector_example =
    call-run-init_injector 0 (rule ∷ []) wrapper earlier 4 reach init_wrapper
