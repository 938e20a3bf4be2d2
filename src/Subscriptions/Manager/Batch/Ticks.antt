-- ===== src/Subscriptions/Manager/Batch/Ticks.antt =====
-- The delivery of a tick keeps the index by table complete.
use voltra.Prelude.{
  ℕ, ◌≡◌, refl, sym, ap, ◌∙◌, ◌||◌, some, List, [], ◌∷◌, arith, Eq-nat, Eq-list, nat_eq_iff,
  Option-cases, Bool-cases, inl, inr,
}
use voltra.Prelude.Map.{Map, lookup, insert}
use voltra.Table.Value.{Bytes, Value, Serde}
use voltra.Table.Store.{RowDelta}
use voltra.Table.FieldIndex.{is_empty}
use voltra.Subscriptions.Predicate.{Numbers}
use voltra.Subscriptions.Manager.{
  ClientId, ClientInfo, SubscriptionManager, or_empty, unregister_all,
}
use voltra.Subscriptions.Manager.Batch.{
  Delivery, sent, full, closed, not_encoded, Diffs, update_info, set_missed, cache_row, missed_of,
  count_missed, deliver_one, deliver, first_wanted, diff_client, diff_clients, collect_diffs,
  publish_batch, staged, flush_tick,
}
use voltra.Subscriptions.Manager.Watched.{Watched, inserted-cases, unregister_all-Watched}

module _ {N : Type 0} where
  update_info-Watched :
      (f : ClientInfo N → ClientInfo N) (client : ClientId) (m : SubscriptionManager N)
      → ((info : ClientInfo N) → (f info).subscriptions ≡ info.subscriptions)
      → Watched m
      → Watched (update_info f client m)
  update_info-Watched f client m keeps w = elim (Option-cases (lookup client m.clients)) [
    | inl e ↦ let same : update_info f client m ≡ m = ground (arith, e) in rw same w
    | inr (info, e) ↦
        let same : update_info f client m
            ≡ record m { clients = insert client (f info) m.clients } =
          ground (arith, e) in
        rw same (λ c i k sub h g. elim (inserted-cases client c (f info) i m.clients h) [
          | inr (o, old) ↦ w c i k sub old g
          | inl (here, new) ↦
              let at : client ≡ c = (nat_eq_iff client c).0 here in
              let there : lookup k info.subscriptions ≡ some sub =
                sym (ap (λ subs. lookup k subs) (ap (λ x. x.subscriptions) new ∙ keeps info)) ∙ g in
              w c info k sub (ap (λ x. lookup x m.clients) (sym at) ∙ e) there
        ])
  ]

  deliver_one-Watched :
      (d : Delivery) (client : ClientId) (m : SubscriptionManager N)
      → Watched m
      → Watched (deliver_one d client m).0
  deliver_one-Watched sent client m w = update_info-Watched (set_missed 0) client m (λ info. refl) w
  deliver_one-Watched closed client m w = w
  deliver_one-Watched not_encoded client m w = w
  deliver_one-Watched full client m w =
      update_info-Watched (set_missed (count_missed (missed_of client m))) client m (λ info. refl) w

  deliver-Watched :
      (send : ClientId → Delivery) (diffs : Diffs N) (m : SubscriptionManager N)
      → Watched m
      → Watched (deliver send diffs m).1
  unfolding deliver
  deliver-Watched send [] m w = w
  deliver-Watched send ((client, ds) ∷ entries) m w =
      deliver-Watched send entries (deliver_one (send client) client m).0
        (deliver_one-Watched (send client) client m w)

  module _ (serde : Serde N) (numbers : Numbers N) (packed_len : Value N → ℕ) where
    diff_client-Watched :
        (delta : RowDelta N) (client : ClientId) (ids : List Bytes) (diffs : Diffs N)
        (m : SubscriptionManager N)
        → Watched m
        → Watched (diff_client serde numbers packed_len delta client ids (diffs, m)).1
    unfolding diff_client
    diff_client-Watched delta client ids diffs m w =
        let step = diff_client serde numbers packed_len delta client ids (diffs, m) in
        elim (Option-cases (first_wanted serde numbers packed_len m delta client ids)) [
          | inl e ↦ let same : step.1 ≡ m = ground (arith, e) in rw same w
          | inr (id, e) ↦ elim (Option-cases (lookup client m.clients)) [
            | inl d ↦ let same : step.1 ≡ m = ground (arith, e, d) in rw same w
            | inr (info, d) ↦
                let same : step.1 ≡ update_info (cache_row delta) client m = ground (arith, e, d) in
                rw same (update_info-Watched (cache_row delta) client m (λ i. refl) w)
          ]
        ]

    diff_clients-Watched :
        (delta : RowDelta N) (entries : Map ClientId (List Bytes)) (diffs : Diffs N)
        (m : SubscriptionManager N)
        → Watched m
        → Watched (diff_clients serde numbers packed_len delta entries (diffs, m)).1
    unfolding diff_clients
    diff_clients-Watched delta [] diffs m w = w
    diff_clients-Watched delta ((client, ids) ∷ entries) diffs m w =
        let next = diff_client serde numbers packed_len delta client ids (diffs, m) in
        diff_clients-Watched delta entries next.0 next.1
          (diff_client-Watched delta client ids diffs m w)

    collect_diffs-Watched :
        (deltas : List (RowDelta N)) (diffs : Diffs N) (m : SubscriptionManager N)
        → Watched m
        → Watched (collect_diffs serde numbers packed_len deltas (diffs, m)).1
    unfolding collect_diffs
    collect_diffs-Watched [] diffs m w = w
    collect_diffs-Watched (delta ∷ deltas) diffs m w =
        let entries = or_empty (lookup delta.table_name m.table_index) in
        let next = diff_clients serde numbers packed_len delta entries (diffs, m) in
        collect_diffs-Watched deltas next.0 next.1 (diff_clients-Watched delta entries diffs m w)

    publish_batch-Watched :
        (send : ClientId → Delivery) (deltas : List (RowDelta N)) (m : SubscriptionManager N)
        → Watched m
        → Watched (publish_batch serde numbers packed_len send deltas m)
    unfolding publish_batch
    publish_batch-Watched send deltas m w =
        let told = collect_diffs serde numbers packed_len deltas ([], m) in
        let after = deliver send told.0 told.1 in
        elim (Bool-cases (is_empty m.clients || is_empty deltas)) [
          | inl e ↦
              let same : publish_batch serde numbers packed_len send deltas m ≡ m =
                ground (arith, e) in
              rw same w
          | inr e ↦
              let same : publish_batch serde numbers packed_len send deltas m
                  ≡ unregister_all after.0 after.1 =
                ground (arith, e) in
              rw same (
                unregister_all-Watched after.0 after.1
                  (deliver-Watched send told.0 told.1 (collect_diffs-Watched deltas [] m w)))
        ]

    pub flush_tick-Watched :
        (send : ClientId → Delivery) (m : SubscriptionManager N)
        → Watched m
        → Watched (flush_tick serde numbers packed_len send m)
    unfolding flush_tick
    flush_tick-Watched send m w = elim (Bool-cases (is_empty m.pending)) [
      | inl e ↦
          let same : flush_tick serde numbers packed_len send m ≡ m = ground (arith, e) in rw same w
      | inr e ↦
          let taken : SubscriptionManager N = record m { pending = [] } in
          let same : flush_tick serde numbers packed_len send m
              ≡ publish_batch serde numbers packed_len send (staged m.pending) taken =
            ground (arith, e) in
          rw same
            (publish_batch-Watched send (staged m.pending) taken (λ c i k sub h g. w c i k sub h g))
    ]
