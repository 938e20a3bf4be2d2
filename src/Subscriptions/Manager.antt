-- ===== src/Subscriptions/Manager.antt =====
-- src/subscriptions.rs: `SubscriptionManager`, the subscriptions of the clients and their index by table.
-- A query is parsed before, and a channel is whether its buffer is full.
pub mod Batch
pub mod Listed
pub mod Watched
pub mod Reached
pub mod Publish
use voltra.Prelude.{
  ℕ, ◌+◌, ◌%◌, ◌^◌, Bool, true, false, not, ◌&&◌, ◌||◌, Option, none, some, List, [], ◌∷◌, ◌++◌,
  any, is_some, length, retain, if◌then◌else◌, ◌==◌, Eq-nat, Eq-list, Eq-pair,
}
use voltra.Prelude.Map.{Map, lookup, insert, remove}
use voltra.Table.Value.{Bytes, Value, Serde}
use voltra.Table.Store.{RowDelta}
use voltra.Table.FieldIndex.{is_empty}
use voltra.Subscriptions.Predicate.{SubscriptionFilter, Numbers, matches}

abbrev pub ClientId : Type 0
ClientId = ℕ

pub record Subscription (N : Type 0) : Type 0 where
  pub id : Bytes
  pub filter : SubscriptionFilter N

pub record ClientInfo (N : Type 0) : Type 0 where
  pub subscriptions : Map Bytes (Subscription N)
  pub missed_ticks : ℕ
  pub row_cache : Map (Bytes × Bytes) (Value N)

abbrev pub TableIndex : Type 0
TableIndex = Map Bytes (Map ClientId (List Bytes))

pub record SubscriptionManager (N : Type 0) : Type 0 where
  pub clients : Map ClientId (ClientInfo N)
  pub table_index : TableIndex
  pub next_id : ℕ
  pub pending : Map (Bytes × Bytes) (RowDelta N)
  pub tick_enabled : Bool

abbrev pub or_empty {ℓ} : {A : Type ℓ} → Option (List A) → List A
or_empty none = []
or_empty (some xs) = xs

-- The subscriptions of a client that stand under a table.
unfoldable pub listed : Bytes → ClientId → TableIndex → List Bytes
listed table client index = or_empty (lookup client (or_empty (lookup table index)))

unfoldable pub add_to_index : Bytes → ClientId → Bytes → TableIndex → TableIndex
unfolding listed
add_to_index table client sub index =
    insert table
      (insert client (listed table client index ++ (sub ∷ [])) (or_empty (lookup table index)))
      index

abbrev pub drop_empty : Bytes → Map ClientId (List Bytes) → TableIndex → TableIndex
drop_empty table left index = if is_empty left then remove table index else insert table left index

unfoldable pub remove_from_table_index : Bytes → ClientId → Bytes → TableIndex → TableIndex
remove_from_table_index table client sub index = elim (lookup table index) [
  | none ↦ index
  | some client_map ↦ elim (lookup client client_map) [
    | none ↦ drop_empty table client_map index
    | some subs ↦
        let left = retain (λ s. not (s == sub)) subs in
        drop_empty table
          (if is_empty left then remove client client_map else insert client left client_map) index
  ]
]

module _ {N : Type 0} where
  unfoldable pub new_manager : SubscriptionManager N
  new_manager = record {
    clients = [];
    table_index = [];
    next_id = 1;
    pending = [];
    tick_enabled = false;
  }

  abbrev pub new_client : ClientInfo N
  new_client = record { subscriptions = []; missed_ticks = 0; row_cache = [] }

  unfoldable pub register_client : SubscriptionManager N → ClientId × SubscriptionManager N
  register_client m = (
    m.next_id,
    record m {
      clients = insert m.next_id new_client m.clients;
      next_id = (m.next_id + 1) % 2 ^ 64;
    },
  )

  abbrev pub remove_subs : ClientId → Map Bytes (Subscription N) → TableIndex → TableIndex
  remove_subs client [] index = index
  remove_subs client ((id, sub) ∷ subs) index =
      remove_subs client subs (remove_from_table_index sub.filter.table_name client id index)

  unfoldable pub unregister_client : ClientId → SubscriptionManager N → SubscriptionManager N
  unfolding remove_from_table_index
  unregister_client client m = elim (lookup client m.clients) [
    | none ↦ m
    | some info ↦ record m {
      clients = remove client m.clients;
      table_index = remove_subs client info.subscriptions m.table_index;
    }
  ]

  -- `none` is the error of a client that is not known.
  unfoldable pub subscribe :
      ClientId
      → Bytes
      → SubscriptionFilter N
      → SubscriptionManager N
      → Option (SubscriptionManager N)
  unfolding add_to_index
  subscribe client id filter m = elim (lookup client m.clients) [
    | none ↦ none
    | some info ↦
        let sub : Subscription N = record { id = id; filter = filter } in
        let kept = record info { subscriptions = insert id sub info.subscriptions } in
        some (record m {
          clients = insert client kept m.clients;
          table_index = add_to_index filter.table_name client id m.table_index;
        })
  ]

  unfoldable pub unsubscribe :
      ClientId → Bytes → SubscriptionManager N → Option (Bool × SubscriptionManager N)
  unfolding remove_from_table_index
  unsubscribe client id m = elim (lookup client m.clients) [
    | none ↦ none
    | some info ↦ elim (lookup id info.subscriptions) [
      | none ↦ some (false, m)
      | some sub ↦
          let kept = record info { subscriptions = remove id info.subscriptions } in
          some (
            true,
            record m {
              clients = insert client kept m.clients;
              table_index = remove_from_table_index sub.filter.table_name client id m.table_index;
            },
          )
    ]
  ]

  abbrev pub count_subs : Map ClientId (ClientInfo N) → ℕ
  count_subs [] = 0
  count_subs ((id, info) ∷ clients) = length info.subscriptions + count_subs clients

  unfoldable pub active_subscriptions : SubscriptionManager N → ℕ
  active_subscriptions m = count_subs m.clients

  unfoldable pub active_connections : SubscriptionManager N → ℕ
  active_connections m = length m.clients

  unfoldable pub unregister_all : List ClientId → SubscriptionManager N → SubscriptionManager N
  unfolding unregister_client
  unregister_all [] m = m
  unregister_all (client ∷ clients) m = unregister_all clients (unregister_client client m)

  -- The latest change of each row waits for the tick.
  unfoldable pub stage : List (RowDelta N) → SubscriptionManager N → SubscriptionManager N
  stage [] m = m
  stage (d ∷ deltas) m =
      stage deltas (record m { pending = insert (d.table_name, d.row_key) d m.pending })

  module _ (serde : Serde N) (numbers : Numbers N) where
    -- Whether a client has a subscription that a change matches.
    unfoldable pub wanted : SubscriptionManager N → RowDelta N → ClientId → Bytes → Bool
    wanted m delta client id = elim (lookup client m.clients) [
      | none ↦ false
      | some info ↦ elim (lookup id info.subscriptions) [
        | none ↦ false
        | some sub ↦ matches serde numbers sub.filter delta
      ]
    ]

    unfoldable pub match_ids :
        SubscriptionManager N → RowDelta N → ClientId → List Bytes → List (ClientId × Bytes)
    unfolding wanted
    match_ids m delta client [] = []
    match_ids m delta client (id ∷ ids) =
        let rest = match_ids m delta client ids in
        if wanted m delta client id then (client, id) ∷ rest else rest

    unfoldable pub match_clients :
        SubscriptionManager N → RowDelta N → Map ClientId (List Bytes) → List (ClientId × Bytes)
    unfolding match_ids
    match_clients m delta [] = []
    match_clients m delta ((client, ids) ∷ entries) =
        match_ids m delta client ids ++ match_clients m delta entries

    -- The clients and the subscriptions that are told of a change.
    unfoldable pub matching : RowDelta N → SubscriptionManager N → List (ClientId × Bytes)
    unfolding match_clients
    matching delta m = match_clients m delta (or_empty (lookup delta.table_name m.table_index))

    abbrev pub full_clients : (ClientId → Bool) → List (ClientId × Bytes) → List ClientId
    full_clients full [] = []
    full_clients full ((client, id) ∷ told) =
        let rest = full_clients full told in if full client then client ∷ rest else rest

    -- What is sent for each change. The frames of a change are in the order of the index, not sorted by
    -- subscription. When the buffer of a client is full, the client is to be removed, which waits for
    -- the lock of the entry of the index that the loop holds: then the call does not return, `none`.
    unfoldable pub publish_now :
        (ClientId → Bool)
        → List (RowDelta N)
        → SubscriptionManager N
        → Option (List (RowDelta N × List (ClientId × Bytes)))
    unfolding matching
    publish_now full [] m = some []
    publish_now full (d ∷ deltas) m =
        let told = matching d m in
        let rest = publish_now full deltas m in
        if is_empty (full_clients full told)
        then (elim rest [ none ↦ none | some sent ↦ some ((d, told) ∷ sent) ])
        else none

    unfoldable pub publish_deltas :
        (ClientId → Bool)
        → List (RowDelta N)
        → SubscriptionManager N
        → Option (List (RowDelta N × List (ClientId × Bytes)) × SubscriptionManager N)
    unfolding publish_now stage
    publish_deltas full deltas m =
        if is_empty m.clients || is_empty deltas
        then some ([], m)
        else if m.tick_enabled
        then some ([], stage deltas m)
        else (elim (publish_now full deltas m) [ none ↦ none | some sent ↦ some (sent, m) ])
