-- ===== src/Presence/Tests.antt =====
-- A run with two users, one of which falls silent.
use voltra.Prelude.{ℕ, ◌≡◌, refl, none, some, List, [], ◌∷◌, if◌then◌else◌}
use voltra.Prelude.Map.{lookup, insert, remove}
use voltra.Presence.{
  PresenceManager, new, set_online_at, modify, heartbeat_at, get, timed_out, goes_idle, users_where,
  remove_all, idle_all, sweep,
}
use voltra.Presence.Passes.{times, holds}
use voltra.Presence.Sweep.{Op, connect, beat, tick, apply_all, swept, sweep_exact}

abbrev some_ops : List (Op ℕ)
some_ops = connect "ann" 10 none ∷ connect "bob" 20 (some 7) ∷ tick 45 ∷ beat "bob" 50 ∷ []

abbrev after_ops : PresenceManager ℕ
after_ops = apply_all (new 30 60) some_ops

sweep_exact_example :
    (get "ann" (sweep 75 after_ops).1
      ≡ swept 75 after_ops.heartbeat_timeout_ms after_ops.offline_timeout_ms (get "ann" after_ops))
    × (times "ann" (sweep 75 after_ops).0.1 ≡ (
        if holds (timed_out 75 after_ops.offline_timeout_ms) (get "ann" after_ops) then 1 else 0))
    × (times "ann" (sweep 75 after_ops).0.0 ≡ (
        if holds
          (goes_idle 75 after_ops.heartbeat_timeout_ms after_ops.offline_timeout_ms)
          (get "ann" after_ops)
        then 1
        else 0))
sweep_exact_example = sweep_exact some_ops 30 60 75 "ann"

gone : times "ann" (sweep 75 after_ops).0.1 ≡ 1
unfolding sweep users_where remove_all idle_all insert lookup remove set_online_at heartbeat_at
    modify
gone = refl
