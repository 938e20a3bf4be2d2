-- ===== src/Presence/Sweep.antt =====
-- What `sweep` does to each user, after whatever has been done to the manager.
use voltra.Prelude.{
  ℕ, ◌-◌, ◌≡◌, refl, Option, none, some, List, [], ◌∷◌, String, arith, leb, if◌then◌else◌,
  Eq-string, Option-cases,
}
use voltra.Prelude.Map.{lookup, insert-Distinct, remove-Distinct}
use voltra.Presence.{
  PresenceStatus, PresenceEntry, PresenceManager, new, set_online_at, heartbeat_at, set_status,
  update_metadata, set_offline, get, timed_out, goes_idle, users_where, remove_all, sweep,
}
use voltra.Presence.Passes.{
  idled, holds, Keyed, among-users_where, lookup-remove_all, lookup-idle_all, insert-Keyed,
  remove-Keyed, Sound, modify-Sound, sweep-Sound, times,
}

-- What a caller may do.
pub data Op (J : Type 0) : Type 0 where
  connect : String → ℕ → Option J → Op J
  beat : String → ℕ → Op J
  show : String → PresenceStatus → Op J
  describe : String → J → Op J
  leave : String → Op J
  tick : ℕ → Op J

module _ {J : Type 0} where
  abbrev pub apply : PresenceManager J → Op J → PresenceManager J
  apply p (connect user now metadata) = set_online_at user now metadata p
  apply p (beat user now) = heartbeat_at user now p
  apply p (show user status) = set_status user status p
  apply p (describe user metadata) = update_metadata user metadata p
  apply p (leave user) = (set_offline user p).1
  apply p (tick now) = (sweep now p).1

  abbrev pub apply_all : PresenceManager J → List (Op J) → PresenceManager J
  apply_all p [] = p
  apply_all p (op ∷ ops) = apply_all (apply p op) ops

  apply-Sound : (op : Op J) (p : PresenceManager J) → Sound p → Sound (apply p op)
  apply-Sound (connect user now metadata) p s =
      unfold set_online_at in
      (insert-Distinct user _ p.entries s.0, insert-Keyed user _ p.entries refl s.1)
  apply-Sound (beat user now) p s = unfold heartbeat_at in modify-Sound user _ p (λ _. refl) s
  apply-Sound (show user status) p s = unfold set_status in modify-Sound user _ p (λ _. refl) s
  apply-Sound (describe user metadata) p s =
      unfold update_metadata in modify-Sound user _ p (λ _. refl) s
  apply-Sound (leave user) p s =
      unfold set_offline in (remove-Distinct user p.entries s.0, remove-Keyed user p.entries s.1)
  apply-Sound (tick now) p s = sweep-Sound now p s

  apply_all-Sound : (ops : List (Op J)) (p : PresenceManager J) → Sound p → Sound (apply_all p ops)
  apply_all-Sound [] p s = s
  apply_all-Sound (op ∷ ops) p s = apply_all-Sound ops (apply p op) (apply-Sound op p s)

  -- An entry after a sweep, by the time since its last heartbeat.
  abbrev pub swept : ℕ → ℕ → ℕ → Option (PresenceEntry J) → Option (PresenceEntry J)
  swept now heartbeat offline none = none
  swept now heartbeat offline (some e) =
      let elapsed = now - e.last_heartbeat in
      if leb offline elapsed then none else if leb heartbeat elapsed then idled (some e) else some e

  sweep-entry :
      (now : ℕ) (u : String) (p : PresenceManager J)
      → Sound p
      → let ((newly_idle, removed), p') = sweep now p in
        let o = get u p in
        (get u p' ≡ swept now p.heartbeat_timeout_ms p.offline_timeout_ms o)
        × (times u removed ≡ (if holds (timed_out now p.offline_timeout_ms) o then 1 else 0))
        × (times u newly_idle ≡ (
            if holds (goes_idle now p.heartbeat_timeout_ms p.offline_timeout_ms) o then 1 else 0))
  unfolding sweep get
  sweep-entry now u p s =
      let gone = users_where (timed_out now p.offline_timeout_ms) p.entries in
      let idle =
        users_where (goes_idle now p.heartbeat_timeout_ms p.offline_timeout_ms) p.entries in
      let is_gone = among-users_where (timed_out now p.offline_timeout_ms) u p.entries s.0 s.1 in
      let is_idle =
        among-users_where (goes_idle now p.heartbeat_timeout_ms p.offline_timeout_ms) u p.entries
          s.0 s.1 in
      let after_removal = lookup-remove_all u gone p.entries in
      let after_idle = lookup-idle_all u idle (remove_all gone p.entries).1 in
      ground (
        arith,
        Option-cases (lookup u p.entries),
        is_gone,
        is_idle,
        after_removal.0,
        after_removal.1,
        after_idle.0,
        after_idle.1,
      )

  -- Whatever has been done to a manager since its creation, a sweep removes a user whose heartbeat is
  -- as old as the offline timeout, makes idle an online one whose heartbeat is as old as the other
  -- timeout, leaves every other user alone, and reports each removal and each transition once.
  pub sweep_exact :
      (ops : List (Op J)) (heartbeat offline now : ℕ) (u : String)
      → let p = apply_all (new heartbeat offline) ops in
        let ((newly_idle, removed), p') = sweep now p in
        let o = get u p in
        (get u p' ≡ swept now p.heartbeat_timeout_ms p.offline_timeout_ms o)
        × (times u removed ≡ (if holds (timed_out now p.offline_timeout_ms) o then 1 else 0))
        × (times u newly_idle ≡ (
            if holds (goes_idle now p.heartbeat_timeout_ms p.offline_timeout_ms) o then 1 else 0))
  sweep_exact ops heartbeat offline now u =
      sweep-entry now u (apply_all (new heartbeat offline) ops)
        (apply_all-Sound ops (new heartbeat offline) (tt, unfold Keyed in tt))
