-- ===== src/FaultInjection.antt =====
-- runtime/fault_injection.py: a runtime that fails on chosen calls of an operation. Every operation but `stream` counts its call
-- and then is that of the runtime inside, so one function stands for the seven of them: the inner operation, on any state
-- and with any result, is an argument. The delay of a rule is left out, and
-- so is `stream`, a generator that counts its call when its first chunk is taken.
pub mod Counting
mod Tests
use gpu_aware_llm_serving_pl.Common.{
  ℕ, ◌+◌, ◌≡◌, Bool, true, false, not, ◌&&◌, ◌||◌, Option, none, some, List, [], ◌∷◌, ◌==◌,
  if◌then◌else◌, any, map, mem, distinct, Result, ok, raise,
}
use gpu_aware_llm_serving_pl.Common.Dict.{Dict, lookup, insert, share}

pub data RuleError : Type 0 where
  value_error : RuleError

pub record FaultRule : Type 0 where
  pub operation : ℕ
  pub fail_on_calls : List ℕ
  pub code : ℕ

unfoldable pub init_rule : FaultRule → Result RuleError FaultRule
init_rule r =
    if (r.operation == 0) || (r.code == 0)
    then raise value_error
    else if any (λ c. c == 0) r.fail_on_calls
    then raise value_error
    else if not (distinct r.fail_on_calls)
    then raise value_error
    else ok r

pub record InjectedFault : Type 0 where
  pub operation : ℕ
  pub call_number : ℕ
  pub code : ℕ

pub data CallError (E : Type 0) : Type 0 where
  injected : InjectedFault → CallError E
  from_runtime : E → CallError E

-- {rule.operation: rule for rule in rules}
unfoldable pub index_rules : List FaultRule → Dict FaultRule → Dict FaultRule
index_rules [] d = d
index_rules (r ∷ rs) d = index_rules rs (insert r.operation r d)

pub record Injector (R : Type 0) : Type 0 where
  pub runtime : R
  pub rules : Dict FaultRule
  pub counts : Dict ℕ

-- `self._calls[operation]`, which is 0 for an operation that was not called.
unfoldable pub calls : {R : Type 0} → Injector R → ℕ → ℕ
calls i op = share (λ n. n) (lookup op i.counts)

abbrev pub faults : Option FaultRule → ℕ → ℕ → Option InjectedFault
faults none op n = none
faults (some r) op n =
    if mem n r.fail_on_calls
    then some (record { operation = op; call_number = n; code = r.code })
    else none

module _ {R : Type 0} where
  unfoldable pub init_injector : R → List FaultRule → Result RuleError (Injector R)
  unfolding index_rules
  init_injector runtime rules =
      if not (distinct (map (λ r. r.operation) rules))
      then raise value_error
      else ok (record { runtime = runtime; rules = index_rules rules []; counts = [] })

  -- The state after the count, and the fault that is due.
  unfoldable pub before : Injector R → ℕ → Injector R × Option InjectedFault
  unfolding calls
  before i op = (
    record i { counts = insert op (calls i op + 1) i.counts },
    faults (lookup op i.rules) op (calls i op + 1),
  )

  abbrev pub inner :
      {E A : Type 0} → Injector R → R × Result E A → Injector R × Result (CallError E) A
  inner i (r, ok a) = (record i { runtime = r }, ok a)
  inner i (r, raise e) = (record i { runtime = r }, raise (from_runtime e))

  -- An operation of the wrapper, given that of the runtime.
  unfoldable pub call :
      {E A : Type 0} → Injector R → ℕ → (R → R × Result E A) → Injector R × Result (CallError E) A
  unfolding before
  call i op f =
      let (i', fault) = before i op in
      elim fault [ some x ↦ (i', raise (injected x)) | none ↦ inner i' (f i.runtime) ]
