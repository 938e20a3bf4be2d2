-- ===== src/Ttl.antt =====
-- src/ttl.rs: `TtlManager`, which keeps the expiry of each row in an index and, beside it, a heap of
-- entries, of which those the index no longer agrees with are ghosts. The heap is a list in the order
-- in which it pops.
pub mod Heap
pub mod Collect
mod Tests
use voltra.Prelude.{
  ℕ, ◌+◌, ◌%◌, ◌^◌, Bool, true, false, Option, none, some, List, [], ◌∷◌, String, ltb, leb, is_some,
  length, if◌then◌else◌, ◌==◌, Eq-nat, Eq-string, Eq-pair, some_and,
}
use voltra.Prelude.Map.{Map, lookup, insert, remove}

-- A table name and a row key.
abbrev pub Row : Type 0
Row = String × String

pub record TtlEntry : Type 0 where
  pub table_name : String
  pub row_key : String
  pub expires_at_ms : ℕ

abbrev pub row_of : TtlEntry → Row
row_of e = (e.table_name, e.row_key)

pub record TtlManager : Type 0 where
  pub heap : List TtlEntry
  pub index : Map Row ℕ

abbrev pub new : TtlManager
new = record { heap = []; index = [] }

-- `BinaryHeap::push`, under `Reverse` and the order of `expires_at_ms`.
unfoldable pub heap_push : TtlEntry → List TtlEntry → List TtlEntry
heap_push e [] = e ∷ []
heap_push e (f ∷ heap) =
    let rest = heap_push e heap in
    if ltb e.expires_at_ms f.expires_at_ms then e ∷ f ∷ heap else f ∷ rest

unfoldable pub set_expires_at : String → String → ℕ → TtlManager → TtlManager
unfolding heap_push
set_expires_at table key at m = record {
  index = insert (table, key) at m.index;
  heap = heap_push (record { table_name = table; row_key = key; expires_at_ms = at }) m.heap;
}

unfoldable pub set_ttl : String → String → ℕ → ℕ → TtlManager → TtlManager
unfolding set_expires_at
set_ttl table key now ttl m = set_expires_at table key ((now + ttl) % 2 ^ 64) m

unfoldable pub get_ttl : String → String → TtlManager → Option ℕ
get_ttl table key m = lookup (table, key) m.index

unfoldable pub has_ttl : String → String → TtlManager → Bool
has_ttl table key m = is_some (lookup (table, key) m.index)

unfoldable pub cancel_ttl : String → String → TtlManager → Bool × TtlManager
cancel_ttl table key m =
    (is_some (lookup (table, key) m.index), record m { index = remove (table, key) m.index })

-- The loop: the entries collected, and what is left.
unfoldable pub collect : ℕ → List TtlEntry → Map Row ℕ → List TtlEntry × TtlManager
collect now [] index = ([], record { heap = []; index = index })
collect now (e ∷ heap) index =
    let is_valid = some_and (λ at. at == e.expires_at_ms) (lookup (row_of e) index) in
    let index' = if is_valid then remove (row_of e) index else index in
    let (expired, m) = collect now heap index' in
    if leb e.expires_at_ms now
    then (if is_valid then e ∷ expired else expired, m)
    else ([], record { heap = e ∷ heap; index = index })

unfoldable pub collect_expired : ℕ → TtlManager → List TtlEntry × TtlManager
unfolding collect
collect_expired now m = collect now m.heap m.index

unfoldable pub count : TtlManager → ℕ
count m = length m.index
