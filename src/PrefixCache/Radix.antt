-- ===== src/PrefixCache/Radix.antt =====
-- The radix tree of inference/prefix_cache.py: nodes with children by token, and an entry where a cached prefix ends.
-- A backend state is a number that stands for the object. Python's nodes are shared only along one path from the
-- root, so the tree is a value.
use gpu_aware_llm_serving_pl.Common.{
  ℕ, Bool, true, false, Option, none, some, List, [], ◌∷◌, ◌==◌, if◌then◌else◌,
}

pub record Entry : Type 0 where
  pub token_ids : List ℕ
  pub backend_state : ℕ

mutual
  pub data Node : Type 0 where
    node : Children → Option Entry → Node

  pub data Children : Type 0 where
    end : Children
    child : ℕ → Node → Children → Children

abbrev pub entry_of : Node → Option Entry
entry_of (node cs e) = e

abbrev pub children_of : Node → Children
children_of (node cs e) = cs

abbrev pub new_node : Node
new_node = node end none

-- `children.get(token)`.
unfoldable pub find_child : ℕ → Children → Option Node
find_child t end = none
find_child t (child u n cs) = if u == t then some n else find_child t cs

-- `children[token] = node`.
unfoldable pub put_child : ℕ → Node → Children → Children
put_child t m end = child t m end
put_child t m (child u n cs) = if u == t then child t m cs else child u n (put_child t m cs)

-- `del children[token]`.
unfoldable pub del_child : ℕ → Children → Children
del_child t end = end
del_child t (child u n cs) = let rest = del_child t cs in if u == t then rest else child u n rest

abbrev pub or_entry : Option Entry → Option Entry → Option Entry
or_entry none e = e
or_entry (some x) e = some x

-- The loop of `longest_prefix`: the last entry on the path of the tokens.
unfoldable pub walk : Node → List ℕ → Option Entry → Option Entry
unfolding find_child
walk n [] e = e
walk (node cs x) (t ∷ ts) e = elim (find_child t cs) [
  | none ↦ e
  | some m ↦ walk m ts (or_entry (entry_of m) e)
]

abbrev pub or_new : Option Node → Node
or_new none = new_node
or_new (some n) = n

-- The loop of `put`: the path is made where it is missing.
unfoldable pub set_entry : Node → List ℕ → Entry → Node
unfolding find_child put_child
set_entry (node cs e) [] x = node cs (some x)
set_entry (node cs e) (t ∷ ts) x =
    node (put_child t (set_entry (or_new (find_child t cs)) ts x) cs) e

-- `child.entry is None and not child.children`.
abbrev pub is_bare : Node → Bool
is_bare (node end none) = true
is_bare _ = false

unfoldable pub relinked : ℕ → Children → Node → Children
unfolding put_child del_child
relinked t cs m = if is_bare m then del_child t cs else put_child t m cs

-- The tree without the entry at the end of a path, and without the nodes that this leaves bare; nothing where the
-- path is missing. Above a node that stays no node is bare, which is where the source breaks off.
unfoldable pub unset_entry : Node → List ℕ → Option Node
unfolding find_child relinked
unset_entry (node cs e) [] = some (node cs none)
unset_entry (node cs e) (t ∷ ts) = elim (find_child t cs) [
  | none ↦ none
  | some n ↦ elim (unset_entry n ts) [ none ↦ none | some m ↦ some (node (relinked t cs m) e) ]
]

abbrev pub or_else : Option Node → Node → Node
or_else none n = n
or_else (some m) n = m

unfoldable pub remove_radix_entry : Node → List ℕ → Node
unfolding unset_entry
remove_radix_entry root ts = or_else (unset_entry root ts) root
