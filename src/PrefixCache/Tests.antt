-- ===== src/PrefixCache/Tests.antt =====
-- A cache of two entries and six tokens.
use gpu_aware_llm_serving_pl.Common.{
  arith, ◌≡◌, refl, true, false, none, some, List, [], ◌∷◌, ok, raise,
}
use gpu_aware_llm_serving_pl.PrefixCache.{
  Cache, find, drop_entry, move_to_end, fresh_cache, init_cache, value_error, touched,
  longest_prefix, get, insert_entry, evict, put, clear,
}
use gpu_aware_llm_serving_pl.PrefixCache.Radix.{
  find_child, put_child, del_child, relinked, walk, set_entry, unset_entry, remove_radix_entry,
}
use gpu_aware_llm_serving_pl.PrefixCache.Invariant.{IsCache}
use gpu_aware_llm_serving_pl.PrefixCache.Results.{
  Call, puts, looks_up, step, run, run-init_cache-IsCache, IsLongest, longest_prefix-IsLongest,
  get-put,
}

program : Unit {0}
unfolding find drop_entry move_to_end fresh_cache init_cache touched longest_prefix get insert_entry
    evict put clear find_child put_child del_child relinked walk set_entry unset_entry
    remove_radix_entry step run
program = tt

abbrev empty : Cache
empty = fresh_cache 2 6

one_limit : init_cache 0 6 ≡ raise value_error
unfolding program
one_limit = refl

-- The second look-up saves the first entry from eviction.
abbrev calls : List Call
calls =
    puts (1 ∷ 2 ∷ []) 10
    ∷ puts (1 ∷ 3 ∷ []) 11
    ∷ looks_up (1 ∷ 2 ∷ 7 ∷ []) false
    ∷ puts (1 ∷ 2 ∷ 4 ∷ []) 12
    ∷ []

abbrev full : Cache
full = run calls empty

kept_entries :
    full.entries
    ≡ record { token_ids = 1 ∷ 2 ∷ []; backend_state = 10 }
      ∷ record { token_ids = 1 ∷ 2 ∷ 4 ∷ []; backend_state = 12 }
      ∷ []
unfolding program
kept_entries = refl

partial :
    (longest_prefix full (1 ∷ 2 ∷ 5 ∷ []) false).1
    ≡ some (record { token_ids = 1 ∷ 2 ∷ []; backend_state = 10; exact = false })
unfolding program
partial = refl

gone : (get full (1 ∷ 3 ∷ [])).1 ≡ none
unfolding program
gone = refl

run-init_cache-IsCache_example : IsCache full
unfolding program
run-init_cache-IsCache_example = run-init_cache-IsCache 2 6 calls empty refl

longest_prefix-IsLongest_example :
    IsLongest full (1 ∷ 2 ∷ 4 ∷ 9 ∷ []) (longest_prefix full (1 ∷ 2 ∷ 4 ∷ 9 ∷ []) false).1
unfolding program
longest_prefix-IsLongest_example =
    longest_prefix-IsLongest full (1 ∷ 2 ∷ 4 ∷ 9 ∷ []) run-init_cache-IsCache_example refl

get-put_example :
    ((put full (5 ∷ 6 ∷ []) 20).1 ≡ ok true)
    × ((get (put full (5 ∷ 6 ∷ []) 20).0 (5 ∷ 6 ∷ [])).1 ≡ some 20)
unfolding program
get-put_example = get-put full 5 (6 ∷ []) 20 run-init_cache-IsCache_example refl (omega arith)
