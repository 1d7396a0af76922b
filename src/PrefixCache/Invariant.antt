-- ===== src/PrefixCache/Invariant.antt =====
-- The state of the cache of inference/prefix_cache.py: tree, dictionary, token count and limits agree.
use gpu_aware_llm_serving_pl.Common.{
  ℕ, ◌+◌, ◌-◌, ◌≤◌, ◌≡◌, ◌≢◌, refl, sym, ap, ◌∙◌, subst, Bool, true, false, ◌&&◌, ◌||◌, not, Option,
  none, some, List, [], ◌∷◌, ◌++◌, ltb, ◌==◌, if◌then◌else◌, arith, Option-cases, Bool-cases, inl,
  inr, length, if_cases, Result, ok, to_nat,
}
use gpu_aware_llm_serving_pl.PrefixCache.{
  Cache, CacheError, is_same, if_exact, is_some_entry, find, drop_entry, move_to_end, token_count,
  init_cache, fresh_cache, insert_entry, is_over, evict, put, clear, longest_prefix, touched,
  answer, is_enabled, Match,
}
use gpu_aware_llm_serving_pl.PrefixCache.Radix.{walk, Entry, remove_radix_entry}
use gpu_aware_llm_serving_pl.PrefixCache.Paths.{
  entry_at, entry_at-set_entry, entry_at-remove_radix_entry, entry_at-new_node,
}
use gpu_aware_llm_serving_pl.PrefixCache.Entries.{
  is_same_eq, find_tokens, IsUnique, tokens_of, tokens_of-drop_entry, renewed, renewed-IsUnique,
  find-renewed, tokens_of-renewed, length-renewed,
}

-- The tree is an index of the dictionary, whose tokens are counted.
pub record IsIndexed (c : Cache) : Type 0 where
  pub indexed : (ts : List ℕ) → entry_at c.root ts ≡ find ts c.entries
  pub counted : c.cached_tokens ≡ tokens_of c.entries
  pub unique : IsUnique c.entries
  pub proper : find [] c.entries ≡ none

pub record IsCache (c : Cache) : Type 0 where
  pub index : IsIndexed c
  pub few : length c.entries ≤ c.max_entries
  pub small : c.cached_tokens ≤ c.max_tokens

-- An entry renewed, with the tree that indexes the outcome.
renewed-IsIndexed :
    (c c' : Cache) (e : Entry)
    → IsIndexed c
    → e.token_ids ≢ []
    → c'.entries ≡ renewed c.entries e
    → c'.cached_tokens ≡ tokens_of (renewed c.entries e)
    → ((ts : List ℕ)
        → entry_at c'.root ts ≡ (if is_same e.token_ids ts then some e else entry_at c.root ts))
    → IsIndexed c'
renewed-IsIndexed c c' e h ne entries tokens root = record {
  indexed = λ ts.
      root ts
      ∙ ap (λ o. if is_same e.token_ids ts then some e else o) (h.indexed ts)
      ∙ sym (find-renewed c.entries e ts)
      ∙ ap (find ts) (sym entries);
  counted = tokens ∙ ap tokens_of (sym entries);
  unique = rw entries (renewed-IsUnique c.entries e h.unique);
  proper =
      ap (find []) entries
      ∙ find-renewed c.entries e []
      ∙ ground (arith, h.proper, is_same_eq e.token_ids []);
}

pub insert_entry-IsIndexed :
    (c : Cache) (ts : List ℕ) (s : ℕ) → IsIndexed c → ts ≢ [] → IsIndexed (insert_entry c ts s)
unfolding insert_entry
insert_entry-IsIndexed c ts s h ne =
    let e : Entry = record { token_ids = ts; backend_state = s } in
    renewed-IsIndexed c (insert_entry c ts s) e h ne refl
      (omega (
        arith,
        h.counted,
        tokens_of-renewed c.entries e h.unique,
        tokens_of-drop_entry ts c.entries h.unique,
      ))
      (λ us. entry_at-set_entry c.root ts us e)

-- Without the oldest entry.
abbrev pub without_first : Cache → Entry → List Entry → Cache
without_first c e es = record c {
  entries = es;
  root = remove_radix_entry c.root e.token_ids;
  cached_tokens = c.cached_tokens - length e.token_ids;
  evictions = c.evictions + 1;
}

pub without_first-IsIndexed :
    (c : Cache) (e : Entry) (es : List Entry)
    → IsIndexed c
    → c.entries ≡ e ∷ es
    → IsIndexed (without_first c e es)
unfolding IsUnique find
without_first-IsIndexed c e es h k =
    let unique : IsUnique (e ∷ es) = subst IsUnique k h.unique in
    record {
      indexed = λ ts.
          entry_at-remove_radix_entry c.root e.token_ids ts
          ∙ ground (arith, h.indexed ts, ap (find ts) k, is_same_eq e.token_ids ts, unique.0);
      counted = omega (arith, h.counted, ap tokens_of k);
      unique = unique.1;
      proper = ground (arith, h.proper, ap (find []) k);
    }

pub evict-IsIndexed :
    (es : List Entry) (c : Cache)
    → IsIndexed c
    → c.entries ≡ es
    → IsIndexed (evict es c) × (is_over (evict es c) ≡ false)
unfolding evict
evict-IsIndexed [] c h k = (h, ground (arith, h.counted, ap tokens_of k, ap length k))
evict-IsIndexed (e ∷ es) c h k = elim (Bool-cases (is_over c)) [
  | inr b ↦ rw (b, evict) (h, b)
  | inl b ↦
      rw (b, evict)
        (evict-IsIndexed es (without_first c e es) (without_first-IsIndexed c e es h k) refl)
]

-- The counters of the statistics are no part of the state that matters.
recounted-IsCache :
    (c c' : Cache)
    → IsCache c
    → c'.entries ≡ c.entries
    → c'.root ≡ c.root
    → c'.cached_tokens ≡ c.cached_tokens
    → c'.max_entries ≡ c.max_entries
    → c'.max_tokens ≡ c.max_tokens
    → IsCache c'
recounted-IsCache c c' h entries root tokens e t = record {
  index = record {
    indexed = λ ts. ap (λ r. entry_at r ts) root ∙ h.index.indexed ts ∙ ap (find ts) (sym entries);
    counted = tokens ∙ h.index.counted ∙ ap tokens_of (sym entries);
    unique = subst IsUnique (sym entries) h.index.unique;
    proper = ap (find []) entries ∙ h.index.proper;
  };
  few = omega (arith, h.few, ap length entries);
  small = omega (arith, h.small);
}

-- Within the limits, where nothing is over them.
bounded-IsCache : (c : Cache) → IsIndexed c → is_over c ≡ false → IsCache c
bounded-IsCache c h b = record { index = h; few = ground arith; small = ground arith }

pub put-IsCache : (c : Cache) (ts : List ℕ) (s : ℕ) → IsCache c → IsCache (put c ts s).0
unfolding put
put-IsCache c [] s h = h
put-IsCache c (t ∷ ts) s h =
    if_cases {A = Cache × Result CacheError Bool} (λ x. IsCache x.0)
      (not (is_enabled c) || ltb c.max_tokens (length (t ∷ ts)))
      (λ a. recounted-IsCache c (record c { bypasses = c.bypasses + 1 }) h refl refl refl refl refl)
      (λ a.
        let added = insert_entry c (t ∷ ts) s in
        let (i, b) =
          evict-IsIndexed added.entries added
            (insert_entry-IsIndexed c (t ∷ ts) s h.index (λ e. cc)) refl in
        bounded-IsCache (evict added.entries added) i b)

absent_move_to_end : (ts : List ℕ) (es : List Entry) → find ts es ≡ none → move_to_end ts es ≡ es
unfolding move_to_end
absent_move_to_end ts es h = rw (h, move_to_end) refl

move_to_end_lem :
    (ts : List ℕ) (es : List Entry) (e : Entry)
    → find ts es ≡ some e
    → move_to_end ts es ≡ renewed es e
unfolding move_to_end
move_to_end_lem ts es e h =
    rw (h, move_to_end) (ap (λ x. drop_entry x es ++ e ∷ []) (sym (find_tokens ts es e h)))

renewed_found :
    (o : Option Entry) (e : Entry) (ts : List ℕ) (b : Bool)
    → (b ≡ true → o ≡ some e)
    → o ≡ (if b then some e else o)
renewed_found o e ts true h = h refl
renewed_found o e ts false h = refl

touched-IsCache : (c : Cache) (ts : List ℕ) (e : Entry) → IsCache c → IsCache (touched c ts e).0
unfolding touched
touched-IsCache c ts e h = elim (Option-cases (find e.token_ids c.entries)) [
  | inl k ↦
      recounted-IsCache c (touched c ts e).0 h (absent_move_to_end e.token_ids c.entries k) refl
        refl refl refl
  | inr (x, k) ↦
      let moved : move_to_end e.token_ids c.entries ≡ renewed c.entries x =
        move_to_end_lem e.token_ids c.entries x k in
      let same : x.token_ids ≡ e.token_ids = find_tokens e.token_ids c.entries x k in
      let there : find x.token_ids c.entries ≡ some x = ap (λ y. find y c.entries) same ∙ k in
      let tokens : tokens_of (renewed c.entries x) ≡ tokens_of c.entries =
        omega (arith, tokens_of-renewed c.entries x h.index.unique, ap token_count there) in
      record {
        index =
            renewed-IsIndexed c (touched c ts e).0 x h.index
              (λ z.
                let f : find [] c.entries ≡ some x = ap (λ y. find y c.entries) (sym z) ∙ there in
                cc (h.index.proper))
              moved (h.index.counted ∙ sym tokens)
              (λ us. renewed_found (entry_at c.root us) x us (is_same x.token_ids us) (λ b.
                h.index.indexed us
                ∙ ap (λ y. find y c.entries) (sym (is_same_eq x.token_ids us b))
                ∙ there));
        few = omega (
          arith,
          h.few,
          ap length moved,
          length-renewed c.entries x h.index.unique,
          ap (λ o. to_nat (is_some_entry o)) there,
        );
        small = h.small;
      }
]

answer-IsCache :
    (c : Cache) (ts : List ℕ) (o : Option Entry) → IsCache c → IsCache (answer c ts o).0
answer-IsCache c ts none h = recounted-IsCache c (answer c ts none).0 h refl refl refl refl refl
answer-IsCache c ts (some e) h = touched-IsCache c ts e h

pub longest_prefix-IsCache :
    (c : Cache) (ts : List ℕ) (b : Bool) → IsCache c → IsCache (longest_prefix c ts b).0
unfolding longest_prefix
longest_prefix-IsCache c ts b h =
    if_cases {A = Cache × Option Match} (λ x. IsCache x.0) (not (is_enabled c))
      (λ a. recounted-IsCache c (record c { bypasses = c.bypasses + 1 }) h refl refl refl refl refl)
      (λ a. answer-IsCache c ts (if_exact b ts (walk c.root ts none)) h)

pub clear-IsCache : (c : Cache) → IsCache c → IsCache (clear c)
unfolding clear IsUnique find
clear-IsCache c h = record {
  index = record { indexed = entry_at-new_node; counted = refl; unique = tt; proper = refl };
  few = omega arith;
  small = omega arith;
}

fresh_cache-IsCache : (n t : ℕ) → IsCache (fresh_cache n t)
unfolding fresh_cache IsUnique find
fresh_cache-IsCache n t = record {
  index = record { indexed = entry_at-new_node; counted = refl; unique = tt; proper = refl };
  few = omega arith;
  small = omega arith;
}

pub init_cache-IsCache : (n t : ℕ) (c : Cache) → init_cache n t ≡ ok c → IsCache c
unfolding init_cache
init_cache-IsCache n t c =
    if_cases {A = Result CacheError Cache} (λ x. x ≡ ok c → IsCache c)
      (((n == 0) && not (t == 0)) || (not (n == 0) && (t == 0))) (λ b e. cc)
      (λ b e. let same : fresh_cache n t ≡ c = cc in subst IsCache same (fresh_cache-IsCache n t))
