-- ===== src/PrefixCache/Results.antt =====
-- What the cache of inference/prefix_cache.py promises.
use gpu_aware_llm_serving_pl.Common.{
  ℕ, ◌≤◌, ◌≡◌, ◌≢◌, refl, sym, ap, ◌∙◌, subst, Bool, true, false, not, ◌||◌, Option, none, some,
  List, [], ◌∷◌, ◌++◌, ltb, arith, Bool-cases, inl, inr, length, if_cases, Result, ok,
}
use gpu_aware_llm_serving_pl.PrefixCache.{
  is_some_entry, drop_entry, state_of, Cache, CacheError, Match, is_some_entry, find, init_cache,
  put, clear, longest_prefix, touched, answer, is_enabled, if_exact, insert_entry, evict, get,
  is_over, is_same,
}
use gpu_aware_llm_serving_pl.PrefixCache.Radix.{Entry, walk}
use gpu_aware_llm_serving_pl.PrefixCache.Paths.{entry_at}
use gpu_aware_llm_serving_pl.PrefixCache.Longest.{is_prefix, IsAbsent, walk-Answer}
use gpu_aware_llm_serving_pl.PrefixCache.Entries.{
  tokens_of, is_same_eq, is_same_refl, find_tokens, IsUnique,
}
use gpu_aware_llm_serving_pl.PrefixCache.Invariant.{
  evict-IsIndexed, insert_entry-IsIndexed, without_first-IsIndexed, without_first, IsCache,
  IsIndexed, init_cache-IsCache, put-IsCache, longest_prefix-IsCache, clear-IsCache,
}

pub data Call : Type 0 where
  puts : List ℕ → ℕ → Call
  looks_up : List ℕ → Bool → Call
  clears : Call

unfoldable pub step : Call → Cache → Cache
step (puts ts s) c = (put c ts s).0
step (looks_up ts b) c = (longest_prefix c ts b).0
step clears c = clear c

unfoldable pub run : List Call → Cache → Cache
unfolding step
run [] c = c
run (x ∷ xs) c = run xs (step x c)

step-IsCache : (x : Call) (c : Cache) → IsCache c → IsCache (step x c)
unfolding step
step-IsCache (puts ts s) c h = put-IsCache c ts s h
step-IsCache (looks_up ts b) c h = longest_prefix-IsCache c ts b h
step-IsCache clears c h = clear-IsCache c h

run-IsCache : (xs : List Call) (c : Cache) → IsCache c → IsCache (run xs c)
unfolding run
run-IsCache [] c h = h
run-IsCache (x ∷ xs) c h = run-IsCache xs (step x c) (step-IsCache x c h)

-- After any calls on a new cache, the radix tree leads to an entry exactly where the dictionary has it, no key
-- stands twice, the token count is the sum over the entries, and neither limit is exceeded.
pub run-init_cache-IsCache :
    (n t : ℕ) (xs : List Call) (c : Cache) → init_cache n t ≡ ok c → IsCache (run xs c)
run-init_cache-IsCache n t xs c e = run-IsCache xs c (init_cache-IsCache n t c e)

-- No cached prefix of the tokens is longer than the one returned, and none is there where none is returned.
abbrev pub IsLongest : Cache → List ℕ → Option Match → Type 0
IsLongest c ts none = (us : List ℕ) → is_prefix us ts ≡ true → find us c.entries ≡ none
IsLongest c ts (some m) =
    (is_prefix m.token_ids ts ≡ true)
    × (find m.token_ids c.entries
        ≡ some (record { token_ids = m.token_ids; backend_state = m.backend_state }))
    × (m.exact ≡ is_same m.token_ids ts)
    × ((us : List ℕ)
        → is_prefix us ts ≡ true
        → find us c.entries ≢ none
        → length us ≤ length m.token_ids)

absent-IsLongest :
    (c : Cache) (ts : List ℕ) → IsIndexed c → IsAbsent c.root ts → IsLongest c ts none
absent-IsLongest c ts h absent [] p = h.proper
absent-IsLongest c ts h absent (v ∷ vs) p = sym (h.indexed (v ∷ vs)) ∙ absent v vs p

found-IsLongest :
    (c : Cache) (ts us : List ℕ) (m : Entry)
    → IsIndexed c
    → entry_at c.root us ≡ some m
    → is_prefix us ts ≡ true
    → ((vs : List ℕ) → is_prefix vs ts ≡ true → entry_at c.root vs ≢ none → length vs ≤ length us)
    → IsLongest c ts (touched c ts m).1
unfolding touched
found-IsLongest c ts us m h b p longest =
    let there : find us c.entries ≡ some m = sym (h.indexed us) ∙ b in
    let same : us ≡ m.token_ids = sym (find_tokens us c.entries m there) in
    (
      subst (λ x. is_prefix x ts ≡ true) same p,
      subst (λ x. find x c.entries ≡ some m) same there,
      refl,
      λ vs q f.
          subst (λ x. length vs ≤ length x) same (longest vs q (λ z. f (sym (h.indexed vs) ∙ z))),
    )

answer-IsLongest :
    (c : Cache) (ts : List ℕ) → IsIndexed c → IsLongest c ts (answer c ts (walk c.root ts none)).1
answer-IsLongest c ts h = elim (walk-Answer c.root ts none) [
  | inl (absent, a) ↦
      subst (λ o. IsLongest c ts (answer c ts o).1) (sym a) (absent-IsLongest c ts h absent)
  | inr (u, us, m, a, b, p, longest) ↦
      subst (λ o. IsLongest c ts (answer c ts o).1) (sym a)
        (found-IsLongest c ts (u ∷ us) m h b p longest)
]

if_exact-false : (ts : List ℕ) (o : Option Entry) → if_exact false ts o ≡ o
if_exact-false ts none = refl
if_exact-false ts (some e) = refl

-- A look-up in an enabled cache returns the longest cached prefix of the tokens, with its state, if there is any.
pub longest_prefix-IsLongest :
    (c : Cache) (ts : List ℕ)
    → IsCache c
    → is_enabled c ≡ true
    → IsLongest c ts (longest_prefix c ts false).1
unfolding longest_prefix
longest_prefix-IsLongest c ts h e =
    if_cases {A = Cache × Option Match} (λ x. IsLongest c ts x.1) (not (is_enabled c)) (λ a. cc)
      (λ a.
        subst (λ o. IsLongest c ts (answer c ts o).1)
          (sym (if_exact-false ts (walk c.root ts none))) (answer-IsLongest c ts h.index))

-- The newest entry stays, since it fits alone.
find_last :
    (es : List Entry) (e : Entry)
    → IsUnique (es ++ e ∷ [])
    → find e.token_ids (es ++ e ∷ []) ≡ some e
unfolding find IsUnique
find_last [] e h = ground (arith, is_same_refl e.token_ids)
find_last (x ∷ es) e h = ground (arith, find_last es e h.1, is_same_eq x.token_ids e.token_ids)

evict_keeps :
    (es : List Entry) (e : Entry) (c : Cache)
    → IsIndexed c
    → c.entries ≡ es ++ e ∷ []
    → 1 ≤ c.max_entries
    → length e.token_ids ≤ c.max_tokens
    → find e.token_ids (evict (es ++ e ∷ []) c).entries ≡ some e
unfolding evict
evict_keeps [] e c h k a b =
    let fits : is_over c ≡ false = ground (arith, h.counted, ap tokens_of k, ap length k) in
    rw (fits, evict) (ap (find e.token_ids) k ∙ find_last [] e (subst IsUnique k h.unique))
evict_keeps (x ∷ es) e c h k a b = elim (Bool-cases (is_over c)) [
  | inr o ↦
      rw (o, evict) (ap (find e.token_ids) k ∙ find_last (x ∷ es) e (subst IsUnique k h.unique))
  | inl o ↦
      rw (o, evict)
        (evict_keeps es e (without_first c x (es ++ e ∷ []))
          (without_first-IsIndexed c x (es ++ e ∷ []) h k) refl a b)
]

max_entries-evict : (es : List Entry) (c : Cache) → (evict es c).max_entries ≡ c.max_entries
unfolding evict
max_entries-evict [] c = refl
max_entries-evict (e ∷ es) c = elim (Bool-cases (is_over c)) [
  | inr o ↦ rw (o, evict) refl
  | inl o ↦ rw (o, evict) (max_entries-evict es (without_first c e es))
]

whole_prefix : (us ts : List ℕ) → is_prefix us ts ≡ true → length ts ≤ length us → us ≡ ts
whole_prefix [] [] p q = refl
whole_prefix [] (t ∷ ts) p q = absurd (omega (arith, q))
whole_prefix (u ∷ us) [] p q = cc
whole_prefix (u ∷ us) (t ∷ ts) p q = ground (arith, whole_prefix us ts)

is_prefix_refl : (ts : List ℕ) → is_prefix ts ts ≡ true
is_prefix_refl [] = refl
is_prefix_refl (t ∷ ts) = ground (arith, is_prefix_refl ts)

-- The walk along the tokens of an entry ends at that entry.
walk_whole :
    (c : Cache) (e : Entry) (t : ℕ) (ts : List ℕ)
    → IsIndexed c
    → find (t ∷ ts) c.entries ≡ some e
    → walk c.root (t ∷ ts) none ≡ some e
walk_whole c e t ts h k = elim (walk-Answer c.root (t ∷ ts) none) [
  | inl (absent, a) ↦
      let gone : find (t ∷ ts) c.entries ≡ none =
        sym (h.indexed (t ∷ ts)) ∙ absent t ts (is_prefix_refl (t ∷ ts)) in
      cc
  | inr (u, us, m, a, b, p, longest) ↦
      let there : entry_at c.root (t ∷ ts) ≡ some e = h.indexed (t ∷ ts) ∙ k in
      let far : length (t ∷ ts) ≤ length (u ∷ us) =
        longest (t ∷ ts) (is_prefix_refl (t ∷ ts)) (λ z. cc) in
      a ∙ sym b ∙ ap (entry_at c.root) (whole_prefix (u ∷ us) (t ∷ ts) p far) ∙ there
]

get-found :
    (c : Cache) (e : Entry) (t : ℕ) (ts : List ℕ)
    → IsIndexed c
    → is_enabled c ≡ true
    → find (t ∷ ts) c.entries ≡ some e
    → (get c (t ∷ ts)).1 ≡ some e.backend_state
unfolding get longest_prefix touched
get-found c e t ts h b k =
    let same : is_same e.token_ids (t ∷ ts) ≡ true =
      ap (λ x. is_same x (t ∷ ts)) (find_tokens (t ∷ ts) c.entries e k) ∙ is_same_refl (t ∷ ts) in
    if_cases {A = Cache × Option Match} (λ x. state_of x.1 ≡ some e.backend_state)
      (not (is_enabled c)) (λ a. cc) (λ a. rw (walk_whole c e t ts h k, same) refl)

-- A prefix that is put, if it is not empty and within the token limit, is kept, whatever has to be evicted for it, and
-- the next look-up of exactly these tokens returns the state that was put.
pub get-put :
    (c : Cache) (t : ℕ) (ts : List ℕ) (s : ℕ)
    → IsCache c
    → is_enabled c ≡ true
    → length (t ∷ ts) ≤ c.max_tokens
    → ((put c (t ∷ ts) s).1 ≡ ok true) × ((get (put c (t ∷ ts) s).0 (t ∷ ts)).1 ≡ some s)
unfolding put insert_entry
get-put c t ts s h b fits =
    let e : Entry = record { token_ids = t ∷ ts; backend_state = s } in
    let added = insert_entry c (t ∷ ts) s in
    let kept =
      evict_keeps (drop_entry (t ∷ ts) c.entries) e added
        (insert_entry-IsIndexed c (t ∷ ts) s h.index (λ z. cc)) refl (ground arith) fits in
    let index =
      (evict-IsIndexed added.entries added (insert_entry-IsIndexed c (t ∷ ts) s h.index (λ z. cc))
        refl).0 in
    if_cases {A = Cache × Result CacheError Bool}
      (λ x. (x.1 ≡ ok true) × ((get x.0 (t ∷ ts)).1 ≡ some s))
      (not (is_enabled c) || ltb c.max_tokens (length (t ∷ ts))) (λ a. absurd (ground arith))
      (λ a. (
        ap (λ o. ok (is_some_entry o)) kept,
        get-found (evict added.entries added) e t ts index
            (ap (λ n. ltb 0 n) (max_entries-evict added.entries added) ∙ b) kept,
      ))
