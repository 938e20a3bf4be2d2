-- ===== src/Table/Lru.antt =====
-- table/eviction.rs: `LruTracker`, the time of the last access of each row. The clock is an argument.
use voltra.Prelude.{ℕ, List, [], ◌∷◌, leb, take, if◌then◌else◌, ◌==◌, Eq-nat, Eq-list, Eq-pair}
use voltra.Prelude.Map.{Map, insert, remove}
use voltra.Table.Value.{Bytes}

pub data EvictionPolicy : Type 0 where
  no_eviction : EvictionPolicy
  lru_row_cap : ℕ → EvictionPolicy
  lru_byte_cap : ℕ → EvictionPolicy

abbrev pub LruTracker : Type 0
LruTracker = Map (Bytes × Bytes) ℕ

unfoldable pub touch : Bytes → Bytes → ℕ → LruTracker → LruTracker
touch table key now access = insert (table, key) now access

unfoldable pub untrack : Bytes → Bytes → LruTracker → LruTracker
untrack table key access = remove (table, key) access

unfoldable pub candidates : Bytes → LruTracker → List (ℕ × Bytes)
candidates table [] = []
candidates table (((t, key), at) ∷ access) =
    let rest = candidates table access in if t == table then (at, key) ∷ rest else rest

insert_by_time : ℕ × Bytes → List (ℕ × Bytes) → List (ℕ × Bytes)
insert_by_time c [] = c ∷ []
insert_by_time c (d ∷ rest) = if leb c.0 d.0 then c ∷ d ∷ rest else d ∷ insert_by_time c rest

-- `sort_unstable_by_key`; rows of the same time are in the order of the map.
unfoldable pub sort_by_time : List (ℕ × Bytes) → List (ℕ × Bytes)
unfolding insert_by_time
sort_by_time [] = []
sort_by_time (c ∷ rest) = insert_by_time c (sort_by_time rest)

abbrev pub keys_in : List (ℕ × Bytes) → List Bytes
keys_in [] = []
keys_in ((at, key) ∷ rest) = key ∷ keys_in rest

-- The keys of the pairs that the source gives, whose table is always `table`.
unfoldable pub evict_oldest : Bytes → ℕ → LruTracker → List Bytes
unfolding candidates sort_by_time
evict_oldest table count access = take count (keys_in (sort_by_time (candidates table access)))
