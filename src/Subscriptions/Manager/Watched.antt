-- ===== src/Subscriptions/Manager/Watched.antt =====
-- The index by table has every subscription, so a change is told to all that match it, and to no other.
use voltra.Prelude.{
  ◌≡◌, refl, sym, ap, ◌∙◌, Bool, true, false, ◌||◌, some, List, [], ◌∷◌, arith, ◌==◌, Eq-nat,
  Eq-list, nat_eq_iff, list_eq_iff, Option-cases, Bool-cases, inl, inr, ◌⊎◌, Eq,
}
use voltra.Prelude.Map.{Map, lookup, insert, remove, lookup-insert, lookup-remove}
use voltra.Table.Value.{Bytes, Serde}
use voltra.Table.Store.{RowDelta}
use voltra.Table.FieldIndex.{is_empty}
use voltra.Subscriptions.Predicate.{SubscriptionFilter, Numbers}
use voltra.Subscriptions.Candidates.{contains}
use voltra.Subscriptions.Manager.{
  ClientId, Subscription, ClientInfo, TableIndex, SubscriptionManager, listed, add_to_index,
  remove_from_table_index, new_manager, new_client, register_client, remove_subs, unregister_client,
  subscribe, unsubscribe, stage, unregister_all, publish_now, publish_deltas,
}
use voltra.Subscriptions.Manager.Listed.{contains-append, listed-add, listed-remove}

module _ {K V : Type 0} ⦃e : Eq K⦄ where
  pub inserted-cases :
      (key k : K) (v w : V) (m : Map K V)
      → lookup k (insert key v m) ≡ some w
      → (((key == k) ≡ true) × (w ≡ v)) ⊎ (((key == k) ≡ false) × (lookup k m ≡ some w))
  inserted-cases key k v w m h = elim (Bool-cases (key == k)) [
    | inl s ↦ inl (s, ground (arith, h, s, lookup-insert key k v m))
    | inr o ↦ inr (o, ground (arith, h, o, lookup-insert key k v m))
  ]

  removed-cases :
      (key k : K) (w : V) (m : Map K V)
      → lookup k (remove key m) ≡ some w
      → ((key == k) ≡ false) × (lookup k m ≡ some w)
  removed-cases key k w m h = elim (Bool-cases (key == k)) [
    | inl s ↦ absurd (ground (arith, h, s, lookup-remove key k m))
    | inr o ↦ (o, ground (arith, h, o, lookup-remove key k m))
  ]

module _ {N : Type 0} where
  -- Every subscription of a client stands under its table.
  abbrev pub Watched : SubscriptionManager N → Type 0
  Watched m =
      (c : ClientId) (info : ClientInfo N) (k : Bytes) (sub : Subscription N)
      → lookup c m.clients ≡ some info
      → lookup k info.subscriptions ≡ some sub
      → contains k (listed sub.filter.table_name c m.table_index) ≡ true

  pub new-Watched : Watched new_manager
  unfolding new_manager lookup
  new-Watched c info k sub h g = absurd (ground (arith, h))

  pub register-Watched : (m : SubscriptionManager N) → Watched m → Watched (register_client m).1
  unfolding register_client lookup
  register-Watched m w c info k sub h g = elim (Bool-cases (m.next_id == c)) [
    | inl e ↦ absurd (ground (arith, h, g, e, lookup-insert m.next_id c new_client m.clients))
    | inr e ↦
        w c info k sub (ground (arith, h, e, lookup-insert m.next_id c new_client m.clients)) g
  ]

  contains-remove_subs :
      (client c : ClientId) (t k : Bytes) (subs : Map Bytes (Subscription N)) (index : TableIndex)
      → (client == c) ≡ false
      → contains k (listed t c (remove_subs client subs index)) ≡ contains k (listed t c index)
  contains-remove_subs client c t k [] index o = refl
  contains-remove_subs client c t k ((id, sub) ∷ subs) index o =
      let table = sub.filter.table_name in
      contains-remove_subs client c t k subs (remove_from_table_index table client id index) o
      ∙ ground (arith, o, listed-remove table t client c id k index)

  pub unregister-Watched :
      (client : ClientId) (m : SubscriptionManager N)
      → Watched m
      → Watched (unregister_client client m)
  unfolding unregister_client
  unregister-Watched client m w = elim (Option-cases (lookup client m.clients)) [
    | inl e ↦ rw (e, unregister_client) w
    | inr (info, e) ↦
        rw (e, unregister_client)
          (λ c i k sub h g. elim (Bool-cases (client == c)) [
            | inl d ↦ absurd (ground (arith, h, d, lookup-remove client c m.clients))
            | inr d ↦
                contains-remove_subs client c sub.filter.table_name k info.subscriptions
                  m.table_index d
                ∙ w c i k sub (ground (arith, h, d, lookup-remove client c m.clients)) g
          ])
  ]

  pub unregister_all-Watched :
      (clients : List ClientId) (m : SubscriptionManager N)
      → Watched m
      → Watched (unregister_all clients m)
  unfolding unregister_all
  unregister_all-Watched [] m w = w
  unregister_all-Watched (client ∷ clients) m w =
      unregister_all-Watched clients (unregister_client client m) (unregister-Watched client m w)

  pub subscribed-Watched :
      (client : ClientId) (id : Bytes) (filter : SubscriptionFilter N)
      (m after : SubscriptionManager N)
      → Watched m
      → subscribe client id filter m ≡ some after
      → Watched after
  unfolding subscribe
  subscribed-Watched client id filter m after w s = elim (Option-cases (lookup client m.clients)) [
    | inl e ↦ absurd (ground (arith, e, s))
    | inr (info, e) ↦
        let sub : Subscription N = record { id = id; filter = filter } in
        let kept : ClientInfo N = record info {
          subscriptions = insert id sub info.subscriptions;
        } in
        let now : after ≡ record m {
          clients = insert client kept m.clients;
          table_index = add_to_index filter.table_name client id m.table_index;
        } =
          ground (arith, e, s) in
        rw now (λ c i k x h g.
          rw (listed-add filter.table_name x.filter.table_name client c id m.table_index)
            (elim (inserted-cases client c kept i m.clients h) [
              | inr (o, old) ↦ ground (arith, o, w c i k x old g)
              | inl (same, new) ↦
                  let here : client ≡ c = (nat_eq_iff client c).0 same in
                  elim (inserted-cases id k sub x info.subscriptions
                    (sym (ap (λ y. lookup k y.subscriptions) new) ∙ g)) [
                      | inl (this, fresh) ↦
                          let table : (filter.table_name == x.filter.table_name) ≡ true =
                            (list_eq_iff filter.table_name x.filter.table_name).1
                              (sym (ap (λ y. y.filter.table_name) fresh)) in
                          let before = listed x.filter.table_name c m.table_index in
                          ground (arith, same, this, table, contains-append k before (id ∷ []))
                      | inr (o, old) ↦
                          let before = listed x.filter.table_name c m.table_index in
                          let found : contains k before ≡ true =
                            rw (sym here) (w client info k x e old) in
                          ground (
                            arith,
                            same,
                            found,
                            Bool-cases (filter.table_name == x.filter.table_name),
                            contains-append k before (id ∷ []),
                          )
                    ]
            ]))
  ]

  pub unsubscribed-Watched :
      (client : ClientId) (id : Bytes) (m after : SubscriptionManager N) (b : Bool)
      → Watched m
      → unsubscribe client id m ≡ some (b, after)
      → Watched after
  unfolding unsubscribe
  unsubscribed-Watched client id m after b w s = elim (Option-cases (lookup client m.clients)) [
    | inl e ↦ absurd (ground (arith, e, s))
    | inr (info, e) ↦ elim (Option-cases (lookup id info.subscriptions)) [
      | inl d ↦ let now : after ≡ m = ground (arith, e, d, s) in rw now w
      | inr (sub, d) ↦
          let kept : ClientInfo N = record info { subscriptions = remove id info.subscriptions } in
          let table = sub.filter.table_name in
          let now : after ≡ record m {
            clients = insert client kept m.clients;
            table_index = remove_from_table_index table client id m.table_index;
          } =
            ground (arith, e, d, s) in
          rw now (λ c i k x h g.
            rw (listed-remove table x.filter.table_name client c id k m.table_index)
              (elim (inserted-cases client c kept i m.clients h) [
                | inr (o, old) ↦ ground (arith, o, w c i k x old g)
                | inl (same, new) ↦
                    let here : client ≡ c = (nat_eq_iff client c).0 same in
                    let (o, old) =
                      removed-cases id k x info.subscriptions
                        (sym (ap (λ y. lookup k y.subscriptions) new) ∙ g) in
                    let found : contains k (listed x.filter.table_name c m.table_index) ≡ true =
                      rw (sym here) (w client info k x e old) in
                    ground (arith, found, o, list_eq_iff id k, list_eq_iff k id)
              ]))
    ]
  ]

  staged-Watched :
      (deltas : List (RowDelta N)) (m : SubscriptionManager N)
      → Watched m
      → Watched (stage deltas m)
  unfolding stage
  staged-Watched [] m w = w
  staged-Watched (d ∷ deltas) m w = staged-Watched deltas _ w

  module _ (serde : Serde N) (numbers : Numbers N) where
    pub published-Watched :
        (full : ClientId → Bool) (deltas : List (RowDelta N)) (m after : SubscriptionManager N)
        (sent : List (RowDelta N × List (ClientId × Bytes)))
        → Watched m
        → publish_deltas serde numbers full deltas m ≡ some (sent, after)
        → Watched after
    unfolding publish_deltas
    published-Watched full deltas m after sent w h =
        elim (Bool-cases (is_empty m.clients || is_empty deltas)) [
          | inl e ↦ let same : after ≡ m = ground (arith, e, h) in rw same w
          | inr e ↦ elim (Bool-cases m.tick_enabled) [
            | inl t ↦
                let later : after ≡ stage deltas m = ground (arith, e, t, h) in
                rw later (staged-Watched deltas m w)
            | inr t ↦ elim (Option-cases (publish_now serde numbers full deltas m)) [
              | inl n ↦ absurd (ground (arith, e, t, n, h))
              | inr (all, n) ↦ let same : after ≡ m = ground (arith, e, t, n, h) in rw same w
            ]
          ]
        ]
