-- ===== src/Table/SortedIndex.antt =====
-- table/mod.rs: `OrderedField` and `SortedIndex`, the keys of the rows in the order of a field. A tree
-- map is the list of its entries in the order of their keys, and a tree set the list of its elements.
use voltra.Prelude.{
  ℕ, suc, ◌+◌, ◌-◌, ◌^◌, Bool, true, false, Option, none, some, List, [], ◌∷◌, ◌++◌, ltb,
  if◌then◌else◌, ◌==◌, Eq-nat, Eq-list,
}
use voltra.Leaderboard.{bytes_lt}
use voltra.Table.Value.{Bytes, Value, null, bool, number, string, array, object, Serde}
use voltra.Table.FieldIndex.{is_empty}

-- `num_field` has the bit pattern of the double.
pub data OrderedField : Type 0 where
  null_field : OrderedField
  bool_field : Bool → OrderedField
  num_field : ℕ → OrderedField
  str_field : Bytes → OrderedField

abbrev pub rank : OrderedField → ℕ
rank null_field = 0
rank (bool_field b) = 1
rank (num_field n) = 2
rank (str_field s) = 3

unfoldable pub from_value : {N : Type 0} → Serde N → Value N → Option OrderedField
from_value serde null = some null_field
from_value serde (bool b) = some (bool_field b)
from_value serde (number n) = elim (serde.as_f64 n) [ none ↦ none | some x ↦ some (num_field x) ]
from_value serde (string s) = some (str_field s)
from_value serde (array items) = none
from_value serde (object fields) = none

-- The place of a bit pattern in the order of `f64::total_cmp`.
abbrev pub total_rank : ℕ → ℕ
total_rank bits = if ltb bits (2 ^ 63) then bits + 2 ^ 63 else 2 ^ 64 - 1 - bits

abbrev pub bool_lt : Bool → Bool → Bool
bool_lt false true = true
bool_lt _ _ = false

-- Whether `cmp` gives `Less`.
unfoldable pub ordered_lt : OrderedField → OrderedField → Bool
unfolding bytes_lt
ordered_lt (bool_field a) (bool_field b) = bool_lt a b
ordered_lt (num_field a) (num_field b) = ltb (total_rank a) (total_rank b)
ordered_lt (str_field a) (str_field b) = bytes_lt a b
ordered_lt a b = ltb (rank a) (rank b)

abbrev pub Tree : Type 0
Tree = List (OrderedField × List Bytes)

unfoldable pub set_insert : Bytes → List Bytes → List Bytes
unfolding bytes_lt
set_insert key [] = key ∷ []
set_insert key (k ∷ keys) =
    if bytes_lt key k
    then key ∷ k ∷ keys
    else if key == k
    then k ∷ keys
    else k ∷ set_insert key keys

unfoldable pub set_remove : Bytes → List Bytes → List Bytes
set_remove key [] = []
set_remove key (k ∷ keys) = if key == k then keys else k ∷ set_remove key keys

unfoldable pub tree_insert : OrderedField → Bytes → Tree → Tree
unfolding ordered_lt set_insert
tree_insert ord key [] = (ord, key ∷ []) ∷ []
tree_insert ord key ((o, keys) ∷ tree) =
    if ordered_lt ord o
    then (ord, key ∷ []) ∷ (o, keys) ∷ tree
    else if ordered_lt o ord
    then (o, keys) ∷ tree_insert ord key tree
    else (o, set_insert key keys) ∷ tree

unfoldable pub tree_remove : OrderedField → Bytes → Tree → Tree
unfolding ordered_lt set_remove
tree_remove ord key [] = []
tree_remove ord key ((o, keys) ∷ tree) =
    let left = set_remove key keys in
    if ordered_lt ord o
    then (o, keys) ∷ tree
    else if ordered_lt o ord
    then (o, keys) ∷ tree_remove ord key tree
    else if is_empty left
    then tree
    else (o, left) ∷ tree

module _ {N : Type 0} (serde : Serde N) where
  unfoldable pub sorted_insert : Value N → Bytes → Tree → Tree
  unfolding from_value tree_insert
  sorted_insert value key tree = elim (from_value serde value) [
    | none ↦ tree
    | some ord ↦ tree_insert ord key tree
  ]

  unfoldable pub sorted_remove : Value N → Bytes → Tree → Tree
  unfolding from_value tree_remove
  sorted_remove value key tree = elim (from_value serde value) [
    | none ↦ tree
    | some ord ↦ tree_remove ord key tree
  ]

-- The loop that pushes keys until there are `limit`.
unfoldable pub push_keys : ℕ → ℕ → List Bytes → List Bytes
push_keys limit len [] = []
push_keys limit len (k ∷ keys) =
    let rest = push_keys limit (suc len) keys in if suc len == limit then k ∷ [] else k ∷ rest

unfoldable pub ascending : Tree → List Bytes
ascending [] = []
ascending ((o, keys) ∷ tree) = keys ++ ascending tree

-- `rev()` turns the values round, not the keys of one value.
unfoldable pub descending : Tree → List Bytes
descending [] = []
descending ((o, keys) ∷ tree) = descending tree ++ keys

unfoldable pub top_n : ℕ → Bool → Tree → List Bytes
unfolding push_keys ascending descending
top_n limit desc tree = push_keys limit 0 (if desc then descending tree else ascending tree)
