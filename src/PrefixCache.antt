-- ===== src/PrefixCache.antt =====
-- inference/prefix_cache.py: a bounded cache of prefixes, in the order of their last use, indexed by a radix tree.
pub mod Radix
pub mod Paths
pub mod Longest
pub mod Entries
pub mod Invariant
pub mod Results
mod Tests
use gpu_aware_llm_serving_pl.Common.{
  ℕ, suc, ◌+◌, ◌-◌, ◌≡◌, Bool, true, false, not, ◌&&◌, ◌||◌, Option, none, some, List, [], ◌∷◌,
  ◌++◌, ltb, leb, ◌==◌, if◌then◌else◌, length, to_nat, Result, ok, raise,
}
use gpu_aware_llm_serving_pl.PrefixCache.Radix.{
  Entry, Node, new_node, walk, set_entry, remove_radix_entry,
}

-- Equality of token tuples.
abbrev pub is_same : List ℕ → List ℕ → Bool
is_same [] [] = true
is_same [] (b ∷ us) = false
is_same (a ∷ ts) [] = false
is_same (a ∷ ts) (b ∷ us) = (a == b) && is_same ts us

-- The ordered dictionary: the entries by their tokens, the least recently used first.
unfoldable pub find : List ℕ → List Entry → Option Entry
find ts [] = none
find ts (e ∷ es) = if is_same e.token_ids ts then some e else find ts es

unfoldable pub drop_entry : List ℕ → List Entry → List Entry
drop_entry ts [] = []
drop_entry ts (e ∷ es) =
    let rest = drop_entry ts es in if is_same e.token_ids ts then rest else e ∷ rest

pub record Cache : Type 0 where
  pub max_entries : ℕ
  pub max_tokens : ℕ
  pub entries : List Entry
  pub root : Node
  pub cached_tokens : ℕ
  pub hits : ℕ
  pub misses : ℕ
  pub insertions : ℕ
  pub evictions : ℕ
  pub bypasses : ℕ
  pub exact_hits : ℕ
  pub partial_hits : ℕ
  pub matched_tokens : ℕ

pub data CacheError : Type 0 where
  value_error : CacheError

-- The fields as the constructor sets them.
unfoldable pub fresh_cache : ℕ → ℕ → Cache
fresh_cache max_entries max_tokens = record {
  max_entries = max_entries;
  max_tokens = max_tokens;
  entries = [];
  root = new_node;
  cached_tokens = 0;
  hits = 0;
  misses = 0;
  insertions = 0;
  evictions = 0;
  bypasses = 0;
  exact_hits = 0;
  partial_hits = 0;
  matched_tokens = 0;
}

-- Both limits are zero, which disables the cache, or neither.
unfoldable pub init_cache : ℕ → ℕ → Result CacheError Cache
init_cache max_entries max_tokens =
    if ((max_entries == 0) && not (max_tokens == 0))
      || (not (max_entries == 0) && (max_tokens == 0))
    then raise value_error
    else ok (fresh_cache max_entries max_tokens)

abbrev pub is_enabled : Cache → Bool
is_enabled c = ltb 0 c.max_entries

pub record Match : Type 0 where
  pub token_ids : List ℕ
  pub backend_state : ℕ
  pub exact : Bool

-- `exact_only` drops a match that is shorter than the tokens.
abbrev pub if_exact : Bool → List ℕ → Option Entry → Option Entry
if_exact exact_only ts none = none
if_exact exact_only ts (some e) =
    if exact_only && not (is_same e.token_ids ts) then none else some e

-- `move_to_end`, which raises for a missing key: an entry of the tree is in the dictionary.
unfoldable pub move_to_end : List ℕ → List Entry → List Entry
unfolding find drop_entry
move_to_end ts es = elim (find ts es) [ none ↦ es | some e ↦ drop_entry ts es ++ e ∷ [] ]

unfoldable pub touched : Cache → List ℕ → Entry → Cache × Option Match
unfolding move_to_end
touched c ts e =
    let exact = is_same e.token_ids ts in
    (
      record c {
        entries = move_to_end e.token_ids c.entries;
        hits = c.hits + 1;
        exact_hits = c.exact_hits + to_nat exact;
        partial_hits = c.partial_hits + to_nat (not exact);
        matched_tokens = c.matched_tokens + length e.token_ids;
      },
      some (record { token_ids = e.token_ids; backend_state = e.backend_state; exact = exact }),
    )

abbrev pub answer : Cache → List ℕ → Option Entry → Cache × Option Match
answer c ts none = (record c { misses = c.misses + 1 }, none)
answer c ts (some e) = touched c ts e

unfoldable pub longest_prefix : Cache → List ℕ → Bool → Cache × Option Match
unfolding walk touched
longest_prefix c ts exact_only =
    if not (is_enabled c)
    then (record c { bypasses = c.bypasses + 1 }, none)
    else answer c ts (if_exact exact_only ts (walk c.root ts none))

abbrev pub state_of : Option Match → Option ℕ
state_of none = none
state_of (some m) = some m.backend_state

unfoldable pub get : Cache → List ℕ → Cache × Option ℕ
unfolding longest_prefix
get c ts = let (c', found) = longest_prefix c ts true in (c', state_of found)

abbrev pub token_count : Option Entry → ℕ
token_count none = 0
token_count (some e) = length e.token_ids

-- The entry at the most recent end, before anything is evicted.
unfoldable pub insert_entry : Cache → List ℕ → ℕ → Cache
unfolding find drop_entry set_entry
insert_entry c ts state =
    let e : Entry = record { token_ids = ts; backend_state = state } in
    record c {
      entries = drop_entry ts c.entries ++ e ∷ [];
      root = set_entry c.root ts e;
      cached_tokens = (c.cached_tokens - token_count (find ts c.entries)) + length ts;
      insertions = c.insertions + 1;
    }

abbrev pub is_over : Cache → Bool
is_over c = ltb c.max_entries (length c.entries) || ltb c.max_tokens c.cached_tokens

-- The loop over the entries, which it takes from the front. A loop that found none left would raise in the source.
unfoldable pub evict : List Entry → Cache → Cache
unfolding remove_radix_entry
evict [] c = c
evict (e ∷ es) c = elim (is_over c) [
  | false ↦ c
  | true ↦ evict es (record c {
    entries = es;
    root = remove_radix_entry c.root e.token_ids;
    cached_tokens = c.cached_tokens - length e.token_ids;
    evictions = c.evictions + 1;
  })
]

abbrev pub is_some_entry : Option Entry → Bool
is_some_entry none = false
is_some_entry (some e) = true

unfoldable pub put : Cache → List ℕ → ℕ → Cache × Result CacheError Bool
unfolding insert_entry evict find
put c [] state = (c, raise value_error)
put c (t ∷ ts) state =
    if not (is_enabled c) || ltb c.max_tokens (length (t ∷ ts))
    then (record c { bypasses = c.bypasses + 1 }, ok false)
    else let added = insert_entry c (t ∷ ts) state in
      let c' = evict added.entries added in (c', ok (is_some_entry (find (t ∷ ts) c'.entries)))

unfoldable pub clear : Cache → Cache
clear c = record c { entries = []; root = new_node; cached_tokens = 0 }
