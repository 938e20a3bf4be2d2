-- ===== src/Subscriptions/Manager/Reached.antt =====
-- The managers that the operations reach, whose index by table is complete.
use voltra.Prelude.{ℕ, ◌≡◌, Bool, true, some, List}
use voltra.Table.Value.{Bytes, Value, Serde}
use voltra.Table.Store.{RowDelta}
use voltra.Subscriptions.Predicate.{SubscriptionFilter, Numbers}
use voltra.Subscriptions.Manager.{
  ClientId, SubscriptionManager, new_manager, register_client, unregister_client, subscribe,
  unsubscribe, publish_deltas,
}
use voltra.Subscriptions.Manager.Batch.{Delivery, flush_tick}
use voltra.Subscriptions.Manager.Watched.{
  Watched, new-Watched, register-Watched, unregister-Watched, subscribed-Watched,
  unsubscribed-Watched, published-Watched,
}
use voltra.Subscriptions.Manager.Batch.Ticks.{flush_tick-Watched}

module _ {N : Type 0} where
  -- The managers that the operations reach.
  pub data Live (serde : Serde N) (numbers : Numbers N) : SubscriptionManager N → Type 0 where
    started : Live serde numbers new_manager
    registered :
        (m : SubscriptionManager N)
        → Live serde numbers m
        → Live serde numbers (register_client m).1
    unregistered :
        (client : ClientId) (m : SubscriptionManager N)
        → Live serde numbers m
        → Live serde numbers (unregister_client client m)
    subscribed :
        (client : ClientId) (id : Bytes) (filter : SubscriptionFilter N)
        (m after : SubscriptionManager N)
        → subscribe client id filter m ≡ some after
        → Live serde numbers m
        → Live serde numbers after
    unsubscribed :
        (client : ClientId) (id : Bytes) (m after : SubscriptionManager N) (b : Bool)
        → unsubscribe client id m ≡ some (b, after)
        → Live serde numbers m
        → Live serde numbers after
    published :
        (full : ClientId → Bool) (deltas : List (RowDelta N)) (m after : SubscriptionManager N)
        (sent : List (RowDelta N × List (ClientId × Bytes)))
        → publish_deltas serde numbers full deltas m ≡ some (sent, after)
        → Live serde numbers m
        → Live serde numbers after
    ticking :
        (m : SubscriptionManager N)
        → Live serde numbers m
        → Live serde numbers (record m { tick_enabled = true })
    flushed :
        (send : ClientId → Delivery) (packed_len : Value N → ℕ) (m : SubscriptionManager N)
        → Live serde numbers m
        → Live serde numbers (flush_tick serde numbers packed_len send m)

  module _ (serde : Serde N) (numbers : Numbers N) where
    pub Live-Watched : (m : SubscriptionManager N) → Live serde numbers m → Watched m
    Live-Watched _ started = new-Watched
    Live-Watched _ (registered m l) = register-Watched m (Live-Watched m l)
    Live-Watched _ (unregistered client m l) = unregister-Watched client m (Live-Watched m l)
    Live-Watched _ (subscribed client id filter m after e l) =
        subscribed-Watched client id filter m after (Live-Watched m l) e
    Live-Watched _ (unsubscribed client id m after b e l) =
        unsubscribed-Watched client id m after b (Live-Watched m l) e
    Live-Watched _ (published full deltas m after sent e l) =
        published-Watched serde numbers full deltas m after sent (Live-Watched m l) e
    Live-Watched _ (ticking m l) = λ c i k sub h g. Live-Watched m l c i k sub h g
    Live-Watched _ (flushed send packed_len m l) =
        flush_tick-Watched serde numbers packed_len send m (Live-Watched m l)
