-- ===== src/Subscriptions/Manager/Listed.antt =====
-- What stands in the index by table after a subscription comes or goes.
use voltra.Prelude.{
  ◌≡◌, refl, sym, true, false, not, ◌&&◌, ◌||◌, none, some, List, [], ◌∷◌, ◌++◌, arith, retain,
  if◌then◌else◌, ◌==◌, Eq-nat, Eq-list, nat_eq_iff, list_eq_iff, Option-cases, Bool-cases, inl, inr,
}
use voltra.Prelude.Map.{Map, lookup, insert, remove, lookup-insert, lookup-remove}
use voltra.Table.Value.{Bytes}
use voltra.Table.FieldIndex.{is_empty}
use voltra.Subscriptions.Candidates.{contains}
use voltra.Subscriptions.Manager.{
  ClientId, TableIndex, or_empty, listed, add_to_index, drop_empty, remove_from_table_index,
}

pub contains-append :
    (k : Bytes) (xs ys : List Bytes) → contains k (xs ++ ys) ≡ (contains k xs || contains k ys)
contains-append k [] ys = refl
contains-append k (x ∷ xs) ys = ground (arith, contains-append k xs ys)

pub listed-add :
    (table t : Bytes) (client c : ClientId) (sub : Bytes) (index : TableIndex)
    → listed t c (add_to_index table client sub index)
      ≡ (if table == t && client == c then listed t c index ++ (sub ∷ []) else listed t c index)
unfolding listed add_to_index
listed-add table t client c sub index = elim (Bool-cases (table == t)) [
  | inr e ↦ ground (
    arith,
    e,
    lookup-insert table t
        (insert client (listed table client index ++ (sub ∷ [])) (or_empty (lookup table index)))
        index,
  )
  | inl e ↦
      let same : table ≡ t = (list_eq_iff table t).0 e in
      let more = listed table client index ++ (sub ∷ []) in
      ground (
        arith,
        e,
        same,
        lookup-insert table t (insert client more (or_empty (lookup table index))) index,
        lookup-insert client c more (or_empty (lookup table index)),
        nat_eq_iff client c,
      )
]

empty-lookup :
    (c : ClientId) (m : Map ClientId (List Bytes)) → is_empty m ≡ true → lookup c m ≡ none
unfolding lookup
empty-lookup c [] h = refl
empty-lookup c (e ∷ m) h = absurd (ground (arith, h))

listed-drop_empty :
    (table t : Bytes) (c : ClientId) (left : Map ClientId (List Bytes)) (index : TableIndex)
    → listed t c (drop_empty table left index)
      ≡ (if table == t then or_empty (lookup c left) else listed t c index)
unfolding listed lookup
listed-drop_empty table t c left index = elim (Bool-cases (is_empty left)) [
  | inl e ↦
      rw (e, drop_empty)
        (ground
          (arith, lookup-remove table t index, empty-lookup c left e, Bool-cases (table == t)))
  | inr e ↦
      rw (e, drop_empty) (ground (arith, lookup-insert table t left index, Bool-cases (table == t)))
]

contains-without :
    (k sub : Bytes) (xs : List Bytes)
    → contains k (retain (λ s. not (s == sub)) xs) ≡ (contains k xs && not (k == sub))
contains-without k sub [] = refl
contains-without k sub (x ∷ xs) =
    ground (arith, contains-without k sub xs, list_eq_iff x k, list_eq_iff x sub, list_eq_iff k sub)

empty-contains : (k : Bytes) (xs : List Bytes) → is_empty xs ≡ true → contains k xs ≡ false
empty-contains k [] h = refl
empty-contains k (x ∷ xs) h = absurd (ground (arith, h))

listed-at :
    (table t : Bytes) (c : ClientId) (m : Map ClientId (List Bytes)) (index : TableIndex)
    → lookup table index ≡ some m
    → (table == t) ≡ true
    → listed t c index ≡ or_empty (lookup c m)
unfolding listed
listed-at table t c m index h e =
    let same : table ≡ t = (list_eq_iff table t).0 e in
    let there : lookup t index ≡ some m = rw (sym same) h in ground (arith, there)

listed_nothing :
    (table t : Bytes) (c : ClientId) (index : TableIndex)
    → lookup table index ≡ none
    → (table == t) ≡ true
    → listed t c index ≡ []
unfolding listed lookup
listed_nothing table t c index h e =
    let same : table ≡ t = (list_eq_iff table t).0 e in
    let there : lookup t index ≡ none = rw (sym same) h in ground (arith, there)

-- The subscriptions of a client without one.
without : ClientId → Bytes → List Bytes → Map ClientId (List Bytes) → Map ClientId (List Bytes)
without client sub subs m =
    let left = retain (λ s. not (s == sub)) subs in
    if is_empty left then remove client m else insert client left m

contains-client :
    (client c : ClientId) (sub k : Bytes) (subs : List Bytes) (m : Map ClientId (List Bytes))
    → lookup client m ≡ some subs
    → contains k (or_empty (lookup c (without client sub subs m)))
      ≡ (contains k (or_empty (lookup c m)) && not (client == c && k == sub))
unfolding without
contains-client client c sub k subs m h = elim (Bool-cases (client == c)) [
  | inr e ↦ ground (
    arith,
    e,
    lookup-remove client c m,
    lookup-insert client c (retain (λ s. not (s == sub)) subs) m,
  )
  | inl e ↦
      let same : client ≡ c = (nat_eq_iff client c).0 e in
      let there : lookup c m ≡ some subs = rw (sym same) h in
      ground (
        arith,
        e,
        there,
        lookup-remove client c m,
        lookup-insert client c (retain (λ s. not (s == sub)) subs) m,
        contains-without k sub subs,
        empty-contains k (retain (λ s. not (s == sub)) subs),
      )
]

-- What stays listed when one subscription goes.
pub listed-remove :
    (table t : Bytes) (client c : ClientId) (sub k : Bytes) (index : TableIndex)
    → contains k (listed t c (remove_from_table_index table client sub index))
      ≡ (contains k (listed t c index) && not (table == t && (client == c && k == sub)))
unfolding remove_from_table_index without
listed-remove table t client c sub k index = elim (Option-cases (lookup table index)) [
  | inl e ↦
      rw (e, remove_from_table_index)
        (ground (arith, Bool-cases (table == t), listed_nothing table t c index e))
  | inr (m, e) ↦ elim (Option-cases (lookup client m)) [
    | inl d ↦
        rw (e, d, remove_from_table_index, listed-drop_empty table t c m index)
          (ground
            (arith, d, Bool-cases (table == t), listed-at table t c m index e, nat_eq_iff client c))
    | inr (subs, d) ↦
        rw
          (
            e,
            d,
            remove_from_table_index,
            listed-drop_empty table t c (without client sub subs m) index,
          )
          (ground (
            arith,
            Bool-cases (table == t),
            listed-at table t c m index e,
            contains-client client c sub k subs m d,
          ))
  ]
]
