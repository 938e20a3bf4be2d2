-- ===== src/Subscriptions/Tests.antt =====
-- Tests of the subscriptions.
use voltra.Prelude.{
  ℕ, ◌≡◌, refl, ap, sym, ◌∙◌, true, Option, none, some, [], ◌∷◌, arith, ◌==◌, Eq-nat, Eq-list,
  list_eq_iff,
}
use voltra.Prelude.Map.{lookup, insert}
use voltra.Table.Value.{
  Bytes, string, object, field, empty_object, get_field, put_field, encode_row, decode_row_bytes,
  value_to_index_key,
}
use voltra.Table.Blobs.{BlobStore}
use voltra.Table.FieldIndex.{index_keys, index_insert}
use voltra.Table.Lru.{no_eviction}
use voltra.Table.Store.{
  StoredRow, RowDelta, insert_op, TableStore, with_eviction, each, reindex, row_key_field,
}
use voltra.Table.Rows.{row_at, write_row_unlocked, create_index, index_lookup, backfill}
use voltra.Table.Lobby.{parse_lobby_key}
use voltra.Table.History.{Reached, start, wrote, indexed}
use voltra.Table.Tests.Codec.{Json, emit, run, stack_code, unpack_pack}
use voltra.Subscriptions.Predicate.{
  Numbers, Predicate, comparison, eq_op, SubscriptionFilter, eval, extract_field, compare,
}
use voltra.Subscriptions.Candidates.{contains, synthetic, index_candidates}
use voltra.Subscriptions.Candidates.Complete.{Faithful, Stamped, index_candidates_complete}
use voltra.Subscriptions.Manager.{
  SubscriptionManager, new_manager, register_client, subscribe, wanted, matching,
}
use voltra.Subscriptions.Manager.Reached.{Live, started, registered, subscribed}
use voltra.Subscriptions.Manager.Publish.{told, matching-wanted}

unfoldable numbers : Numbers ℕ
numbers = record {
  number_eq = λ a b. a == b;
  as_i64 = λ n. some n;
  as_u64 = λ n. some n;
  value_eq = λ v w. emit v [] == emit w [];
}

abbrev table : Bytes
table = 116 ∷ []

abbrev colour : Bytes
colour = 99 ∷ []

abbrev key : Bytes
key = 107 ∷ []

abbrev red : Json
red = string (114 ∷ [])

abbrev is_red : Predicate ℕ
is_red = comparison colour eq_op red

same_emit : (v w : Json) → emit v [] ≡ emit w [] → v ≡ w
same_emit v w h =
    let equal : some v ≡ some w =
      sym (unpack_pack v (emit v []) refl)
      ∙ ap (λ b. run b []) h
      ∙ unpack_pack w (emit w []) refl in
    ground (arith, equal)

red-Faithful : Faithful stack_code numbers red
unfolding numbers stack_code
red-Faithful = record {
  same_value = λ w h.
      ap (value_to_index_key stack_code)
        (same_emit w red ((list_eq_iff (emit w []) (emit red [])).0 h));
  same_number = λ n e v h. absurd (ground (arith, v));
}

abbrev blobs : BlobStore
blobs = record { file = []; next_offset = 0; max_blob_size = 100 }

abbrev coloured : TableStore
coloured = create_index stack_code table colour (with_eviction no_eviction blobs)

abbrev painted : TableStore
painted =
    (write_row_unlocked stack_code table key (object (field colour red empty_object)) coloured).1

painted-Reached : Reached stack_code painted
painted-Reached =
    wrote table key (object (field colour red empty_object)) coloured
      (indexed table colour (with_eviction no_eviction blobs) (start no_eviction blobs))

abbrev no_row : StoredRow
no_row = record { row_id = 0; shard_id = 0; data_bytes = []; blob_offset = none; version = 0 }

abbrev or_none : Option StoredRow → StoredRow
or_none none = no_row
or_none (some row) = row

abbrev row : StoredRow
row = or_none (row_at table key painted)

-- The row with its key.
abbrev stamped : Json
stamped = object (field colour red (field row_key_field (string key) empty_object))

row-Stamped : Stamped stack_code numbers key stamped row
unfolding create_index with_eviction lookup insert parse_lobby_key encode_row decode_row_bytes
    get_field put_field write_row_unlocked stack_code
row-Stamped = record { decodes = refl; has_key = refl }

index_candidates_complete_example : contains key (key ∷ []) ≡ true
unfolding create_index with_eviction lookup insert parse_lobby_key encode_row decode_row_bytes
    get_field put_field write_row_unlocked stack_code index_keys index_insert each reindex backfill
    index_lookup eval extract_field compare index_candidates
index_candidates_complete_example =
    index_candidates_complete stack_code numbers is_red painted table key stamped row (key ∷ [])
      painted-Reached red-Faithful refl row-Stamped refl refl

abbrev watch : SubscriptionFilter ℕ
watch = record { table_name = table; predicate = some is_red; order_by = none; limit = none }

abbrev or_new : Option (SubscriptionManager ℕ) → SubscriptionManager ℕ
or_new none = new_manager
or_new (some m) = m

abbrev watching : SubscriptionManager ℕ
watching = or_new (subscribe 1 (115 ∷ []) watch (register_client new_manager).1)

watching-Live : Live stack_code numbers watching
unfolding subscribe register_client new_manager lookup insert
watching-Live =
    subscribed 1 (115 ∷ []) watch (register_client new_manager).1 watching refl
      (registered new_manager started)

abbrev change : RowDelta ℕ
change = record (synthetic table key stamped) { operation = insert_op }

matching-wanted_example :
    told 1 (115 ∷ []) (matching stack_code numbers change watching)
    ≡ wanted stack_code numbers watching change 1 (115 ∷ [])
matching-wanted_example =
    matching-wanted stack_code numbers watching change 1 (115 ∷ []) watching-Live
