-- ===== src/Subscriptions/Manager/Publish.antt =====
-- src/subscriptions.rs: who is told of a change.
use voltra.Prelude.{
  ◌≡◌, refl, sym, ◌∙◌, Bool, true, false, ◌&&◌, ◌||◌, List, [], ◌∷◌, ◌++◌, arith, any, ◌==◌, Eq-nat,
  Eq-list, nat_eq_iff, list_eq_iff, Option-cases, Bool-cases, inl, inr,
}
use voltra.Prelude.Map.{Map, lookup}
use voltra.Table.Value.{Bytes, Serde}
use voltra.Table.Store.{RowDelta}
use voltra.Subscriptions.Predicate.{Numbers, matches}
use voltra.Subscriptions.Candidates.{contains}
use voltra.Subscriptions.Manager.{
  ClientId, SubscriptionManager, or_empty, listed, wanted, match_ids, match_clients, matching,
}
use voltra.Subscriptions.Manager.Reached.{Live, Live-Watched}
use voltra.Subscriptions.Manager.Watched.{Watched}

-- Whether a subscription of a client is told.
abbrev pub told : ClientId → Bytes → List (ClientId × Bytes) → Bool
told client id entries = any (λ e. e.0 == client && e.1 == id) entries

told-append :
    (c : ClientId) (k : Bytes) (xs ys : List (ClientId × Bytes))
    → told c k (xs ++ ys) ≡ (told c k xs || told c k ys)
told-append c k [] ys = refl
told-append c k (x ∷ xs) ys = ground (arith, told-append c k xs ys)

module _ {N : Type 0} (serde : Serde N) (numbers : Numbers N) (m : SubscriptionManager N)
    (delta : RowDelta N) where
  told-match_ids :
      (client c : ClientId) (k : Bytes) (ids : List Bytes)
      → told c k (match_ids serde numbers m delta client ids)
        ≡ (client == c && (contains k ids && wanted serde numbers m delta c k))
  unfolding match_ids
  told-match_ids client c k [] = ground arith
  told-match_ids client c k (id ∷ ids) = ground (
    arith,
    told-match_ids client c k ids,
    nat_eq_iff client c,
    list_eq_iff id k,
    Bool-cases (wanted serde numbers m delta client id),
  )

  told-match_clients :
      (c : ClientId) (k : Bytes) (entries : Map ClientId (List Bytes))
      → contains k (or_empty (lookup c entries)) ≡ true
      → wanted serde numbers m delta c k ≡ true
      → told c k (match_clients serde numbers m delta entries) ≡ true
  unfolding match_clients lookup
  told-match_clients c k [] h w = absurd (ground (arith, h))
  told-match_clients c k ((client, ids) ∷ entries) h w =
      told-append c k (match_ids serde numbers m delta client ids)
        (match_clients serde numbers m delta entries)
      ∙ (elim (Bool-cases (client == c)) [
        | inl e ↦ ground (arith, e, h, w, told-match_ids client c k ids)
        | inr e ↦ ground (arith, e, h, w, told-match_clients c k entries)
      ])

  told-wanted :
      (c : ClientId) (k : Bytes) (entries : Map ClientId (List Bytes))
      → wanted serde numbers m delta c k ≡ false
      → told c k (match_clients serde numbers m delta entries) ≡ false
  unfolding match_clients
  told-wanted c k [] w = refl
  told-wanted c k ((client, ids) ∷ entries) w =
      told-append c k (match_ids serde numbers m delta client ids)
        (match_clients serde numbers m delta entries)
      ∙ ground (arith, w, told-match_ids client c k ids, told-wanted c k entries w)

  wanted-found :
      (c : ClientId) (k : Bytes)
      → Watched m
      → wanted serde numbers m delta c k ≡ true
      → contains k (listed delta.table_name c m.table_index) ≡ true
  unfolding wanted matches
  wanted-found c k w h = elim (Option-cases (lookup c m.clients)) [
    | inl e ↦ absurd (ground (arith, e, h))
    | inr (info, e) ↦ elim (Option-cases (lookup k info.subscriptions)) [
      | inl d ↦ absurd (ground (arith, e, d, h))
      | inr (sub, d) ↦ elim (Bool-cases (sub.filter.table_name == delta.table_name)) [
        | inr t ↦ absurd (ground (arith, e, d, t, h))
        | inl t ↦
            rw (sym ((list_eq_iff sub.filter.table_name delta.table_name).0 t)) (w c info k sub e d)
      ]
    ]
  ]

-- In a manager that any sequence of operations reaches, the immediate delivery tells a change to a
-- subscription of a client exactly when the client still has the subscription and its filter matches the
-- change: the index by table hides no subscription, and a leftover of it tells nobody.
pub matching-wanted :
    {N : Type 0} (serde : Serde N) (numbers : Numbers N) (m : SubscriptionManager N)
    (delta : RowDelta N) (c : ClientId) (k : Bytes)
    → Live serde numbers m
    → told c k (matching serde numbers delta m) ≡ wanted serde numbers m delta c k
unfolding matching listed
matching-wanted serde numbers m delta c k l =
    let entries = or_empty (lookup delta.table_name m.table_index) in
    elim (Bool-cases (wanted serde numbers m delta c k)) [
      | inl w ↦
          told-match_clients serde numbers m delta c k entries
            (wanted-found serde numbers m delta c k (Live-Watched serde numbers m l) w) w
          ∙ sym w
      | inr w ↦ told-wanted serde numbers m delta c k entries w ∙ sym w
    ]
