-- ===== src/Subscriptions/Manager/Batch.antt =====
-- src/subscriptions.rs: the delivery of a tick, with one batch for each client and patches for updates.
pub mod Ticks
use voltra.Prelude.{
  ℕ, ◌+◌, ◌%◌, ◌^◌, Bool, true, false, not, ◌||◌, Option, none, some, List, [], ◌∷◌, ◌++◌, leb, ltb,
  if◌then◌else◌, ◌==◌, ◌>>=◌, Eq-nat, Eq-list, Eq-pair,
}
use voltra.Prelude.Map.{Map, lookup, insert, remove}
use voltra.Table.Value.{
  Bytes, Value, object, Fields, empty_object, field, Serde, get_field, put_field,
}
use voltra.Table.Store.{RowDelta, Operation, update_op, delete_op, other_op}
use voltra.Table.FieldIndex.{is_empty}
use voltra.Subscriptions.Predicate.{Numbers, is_delete}
use voltra.Subscriptions.Manager.{
  ClientId, ClientInfo, SubscriptionManager, or_empty, wanted, unregister_all,
}

pub record SubscriptionDiff (N : Type 0) : Type 0 where
  pub subscription_id : Bytes
  pub table_name : Bytes
  pub row_key : Bytes
  pub operation : Operation
  pub row_data : Option (Value N)

-- "patch"
abbrev pub patch_op : Operation
patch_op = other_op (112 ∷ 97 ∷ 116 ∷ 99 ∷ 104 ∷ [])

-- What becomes of the batch of a client.
pub data Delivery : Type 0 where
  sent full closed not_encoded : Delivery

abbrev pub slow_consumer_evict_after : ℕ
slow_consumer_evict_after = 3

abbrev pub is_update : Operation → Bool
is_update update_op = true
is_update _ = false

abbrev pub Diffs : Type 0 → Type 0
Diffs N = Map ClientId (List (SubscriptionDiff N))

-- The count after a batch that did not fit.
abbrev pub count_missed : Option ℕ → ℕ
count_missed none = slow_consumer_evict_after
count_missed (some n) = (n + 1) % 2 ^ 32

module _ {N : Type 0} where
  abbrev pub update_info :
      (ClientInfo N → ClientInfo N) → ClientId → SubscriptionManager N → SubscriptionManager N
  update_info f client m = elim (lookup client m.clients) [
    | none ↦ m
    | some info ↦ record m { clients = insert client (f info) m.clients }
  ]

  abbrev pub set_missed : ℕ → ClientInfo N → ClientInfo N
  set_missed n info = record info { missed_ticks = n }

  abbrev pub cache_row : RowDelta N → ClientInfo N → ClientInfo N
  cache_row delta info =
      let key : Bytes × Bytes = (delta.table_name, delta.row_key) in
      let kept : Map (Bytes × Bytes) (Value N) = elim delta.row_data [
        | none ↦ info.row_cache
        | some row ↦ insert key row info.row_cache
      ] in
      record info {
        row_cache = if is_delete delta.operation then remove key info.row_cache else kept;
      }

  abbrev pub missed_of : ClientId → SubscriptionManager N → Option ℕ
  missed_of client m = elim (lookup client m.clients) [
    | none ↦ none
    | some info ↦ some info.missed_ticks
  ]

  abbrev pub deliver_one :
      Delivery → ClientId → SubscriptionManager N → SubscriptionManager N × Bool
  deliver_one sent client m = (update_info (set_missed 0) client m, false)
  deliver_one closed client m = (m, true)
  deliver_one not_encoded client m = (m, false)
  deliver_one full client m =
      let missed = count_missed (missed_of client m) in
      (update_info (set_missed missed) client m, leb slow_consumer_evict_after missed)

  -- The clients that are to be removed, with the counts of the others.
  unfoldable pub deliver :
      (ClientId → Delivery)
      → Diffs N
      → SubscriptionManager N
      → List ClientId × SubscriptionManager N
  deliver send [] m = ([], m)
  deliver send ((client, diffs) ∷ entries) m =
      let (after, gone) = deliver_one (send client) client m in
      let (rest, last) = deliver send entries after in (if gone then client ∷ rest else rest, last)

  abbrev pub staged : Map (Bytes × Bytes) (RowDelta N) → List (RowDelta N)
  staged [] = []
  staged ((key, delta) ∷ entries) = delta ∷ staged entries

  module _ (serde : Serde N) (numbers : Numbers N) (packed_len : Value N → ℕ) where
    abbrev pub same : Option (Value N) → Value N → Bool
    same none v = false
    same (some w) v = numbers.value_eq w v

    unfoldable pub changed_fields : Fields N → Fields N → Fields N → Fields N
    changed_fields old empty_object patch = patch
    changed_fields old (field k v rest) patch =
        changed_fields old rest (if same (get_field k old) v then patch else put_field k v patch)

    abbrev pub non_empty : Fields N → Option (Value N)
    non_empty empty_object = none
    non_empty fields = some (object fields)

    unfoldable pub compute_patch : Value N → Value N → Option (Value N)
    unfolding changed_fields
    compute_patch (object old) (object new) = non_empty (changed_fields old new empty_object)
    compute_patch _ _ = none

    -- The patch of an update, where it is shorter than the row.
    unfoldable pub patch_of : RowDelta N → ClientInfo N → Option (Value N)
    unfolding compute_patch
    patch_of delta info =
        if is_update delta.operation
        then (do
          row ← delta.row_data
          old ← lookup (delta.table_name, delta.row_key) info.row_cache
          patch ← compute_patch old row
          if ltb (packed_len patch) (packed_len row) then some patch else none)
        else none

    abbrev pub diff_of : Bytes → RowDelta N → ClientInfo N → SubscriptionDiff N
    diff_of id delta info = elim (patch_of delta info) [
      | none ↦ record {
        subscription_id = id;
        table_name = delta.table_name;
        row_key = delta.row_key;
        operation = delta.operation;
        row_data = delta.row_data;
      }
      | some patch ↦ record {
        subscription_id = id;
        table_name = delta.table_name;
        row_key = delta.row_key;
        operation = patch_op;
        row_data = some patch;
      }
    ]

    -- The first subscription of a client that a change matches.
    unfoldable pub first_wanted :
        SubscriptionManager N → RowDelta N → ClientId → List Bytes → Option Bytes
    unfolding wanted
    first_wanted m delta client [] = none
    first_wanted m delta client (id ∷ ids) =
        let rest = first_wanted m delta client ids in
        if wanted serde numbers m delta client id then some id else rest

    -- The diff for a client, and the row that it then has.
    unfoldable pub diff_client :
        RowDelta N
        → ClientId
        → List Bytes
        → Diffs N × SubscriptionManager N
        → Diffs N × SubscriptionManager N
    unfolding first_wanted patch_of
    diff_client delta client ids (diffs, m) = elim (first_wanted m delta client ids) [
      | none ↦ (diffs, m)
      | some id ↦ elim (lookup client m.clients) [
        | none ↦ (diffs, m)
        | some info ↦ (
          insert client (or_empty (lookup client diffs) ++ (diff_of id delta info ∷ [])) diffs,
          update_info (cache_row delta) client m,
        )
      ]
    ]

    unfoldable pub diff_clients :
        RowDelta N
        → Map ClientId (List Bytes)
        → Diffs N × SubscriptionManager N
        → Diffs N × SubscriptionManager N
    unfolding diff_client
    diff_clients delta [] state = state
    diff_clients delta ((client, ids) ∷ entries) state =
        diff_clients delta entries (diff_client delta client ids state)

    unfoldable pub collect_diffs :
        List (RowDelta N) → Diffs N × SubscriptionManager N → Diffs N × SubscriptionManager N
    unfolding diff_clients
    collect_diffs [] state = state
    collect_diffs (delta ∷ deltas) (diffs, m) =
        collect_diffs deltas
          (diff_clients delta (or_empty (lookup delta.table_name m.table_index)) (diffs, m))

    unfoldable pub publish_batch :
        (ClientId → Delivery) → List (RowDelta N) → SubscriptionManager N → SubscriptionManager N
    unfolding collect_diffs deliver unregister_all
    publish_batch send deltas m =
        let (diffs, told) = collect_diffs deltas ([], m) in
        let (gone, after) = deliver send diffs told in
        if is_empty m.clients || is_empty deltas then m else unregister_all gone after

    -- One round of the task of `start_tick_flusher`.
    unfoldable pub flush_tick :
        (ClientId → Delivery) → SubscriptionManager N → SubscriptionManager N
    unfolding publish_batch
    flush_tick send m =
        if is_empty m.pending
        then m
        else publish_batch send (staged m.pending) (record m { pending = [] })
