-- ===== src/Presence.antt =====
-- src/presence.rs: `PresenceManager`, the users that are connected, with their heartbeats. The type `J`
-- stands for `serde_json::Value`, and the clock is an argument.
pub mod Passes
pub mod Sweep
mod Tests
use voltra.Prelude.{
  ℕ, ◌-◌, Bool, true, false, ◌&&◌, Option, none, some, List, [], ◌∷◌, String, leb, is_some, length,
  if◌then◌else◌, Eq, ◌==◌, Eq-string, eq_refl,
}
use voltra.Prelude.Map.{Map, lookup, insert, remove}

pub data PresenceStatus : Type 0 where
  online idle away : PresenceStatus
  custom : String → PresenceStatus

abbrev pub status_eq : PresenceStatus → PresenceStatus → Bool
status_eq online online = true
status_eq idle idle = true
status_eq away away = true
status_eq (custom s) (custom t) = s == t
status_eq _ _ = false

pub record PresenceEntry (J : Type 0) : Type 0 where
  pub user_id : String
  pub status : PresenceStatus
  pub last_heartbeat : ℕ
  pub connected_at : ℕ
  pub metadata : Option J

pub record PresenceManager (J : Type 0) : Type 0 where
  pub entries : Map String (PresenceEntry J)
  pub heartbeat_timeout_ms : ℕ
  pub offline_timeout_ms : ℕ

module _ {J : Type 0} where
  abbrev pub new : ℕ → ℕ → PresenceManager J
  new heartbeat offline = record {
    entries = [];
    heartbeat_timeout_ms = heartbeat;
    offline_timeout_ms = offline;
  }

  unfoldable pub set_online_at : String → ℕ → Option J → PresenceManager J → PresenceManager J
  set_online_at user now metadata p =
      let entry : PresenceEntry J = record {
        user_id = user;
        status = online;
        last_heartbeat = now;
        connected_at = now;
        metadata = metadata;
      } in
      record p { entries = insert user entry p.entries }

  -- `get_mut`, and a change of the entry that it finds.
  unfoldable pub modify :
      String → (PresenceEntry J → PresenceEntry J) → PresenceManager J → PresenceManager J
  modify user f p = elim (lookup user p.entries) [
    | none ↦ p
    | some entry ↦ record p { entries = insert user (f entry) p.entries }
  ]

  abbrev pub beaten : ℕ → PresenceEntry J → PresenceEntry J
  beaten now entry = record entry {
    last_heartbeat = now;
    status = if status_eq entry.status idle then online else entry.status;
  }

  unfoldable pub heartbeat_at : String → ℕ → PresenceManager J → PresenceManager J
  unfolding modify
  heartbeat_at user now p = modify user (beaten now) p

  unfoldable pub set_status : String → PresenceStatus → PresenceManager J → PresenceManager J
  unfolding modify
  set_status user status p = modify user (λ entry. record entry { status = status }) p

  unfoldable pub update_metadata : String → J → PresenceManager J → PresenceManager J
  unfolding modify
  update_metadata user metadata p =
      modify user (λ entry. record entry { metadata = some metadata }) p

  unfoldable pub set_offline :
      String → PresenceManager J → Option (PresenceEntry J) × PresenceManager J
  set_offline user p = (lookup user p.entries, record p { entries = remove user p.entries })

  unfoldable pub get : String → PresenceManager J → Option (PresenceEntry J)
  get user p = lookup user p.entries

  unfoldable pub online_users : PresenceManager J → List (PresenceEntry J)
  online_users p = go p.entries
    where
      go : Map String (PresenceEntry J) → List (PresenceEntry J)
      go [] = []
      go ((user, entry) ∷ entries) = entry ∷ go entries

  with_status : PresenceStatus → Map String (PresenceEntry J) → List (PresenceEntry J)
  with_status status [] = []
  with_status status ((user, entry) ∷ entries) =
      let rest = with_status status entries in
      if status_eq entry.status status then entry ∷ rest else rest

  unfoldable pub users_with_status : PresenceStatus → PresenceManager J → List (PresenceEntry J)
  unfolding with_status
  users_with_status status p = with_status status p.entries

  unfoldable pub count : PresenceManager J → ℕ
  count p = length p.entries

  -- The two tests of the first pass of `sweep`.
  abbrev pub timed_out : ℕ → ℕ → PresenceEntry J → Bool
  timed_out now offline entry = leb offline (now - entry.last_heartbeat)

  abbrev pub goes_idle : ℕ → ℕ → ℕ → PresenceEntry J → Bool
  goes_idle now heartbeat offline entry =
      if timed_out now offline entry
      then false
      else leb heartbeat (now - entry.last_heartbeat) && status_eq entry.status online

  -- The users of the entries that pass a test.
  unfoldable pub users_where : (PresenceEntry J → Bool) → Map String (PresenceEntry J) → List String
  users_where test [] = []
  users_where test ((user, entry) ∷ entries) =
      let rest = users_where test entries in if test entry then entry.user_id ∷ rest else rest

  -- The removals: those that succeeded, and what is left.
  unfoldable pub remove_all :
      List String → Map String (PresenceEntry J) → List String × Map String (PresenceEntry J)
  remove_all [] entries = ([], entries)
  remove_all (user ∷ users) entries =
      let (removed, left) = remove_all users (remove user entries) in
      (if is_some (lookup user entries) then user ∷ removed else removed, left)

  abbrev pub set_idle :
      String → PresenceEntry J → Map String (PresenceEntry J) → Map String (PresenceEntry J)
  set_idle user entry entries = insert user (record entry { status = idle }) entries

  -- The transitions: those that were made, and what they make of the entries.
  unfoldable pub idle_all :
      List String → Map String (PresenceEntry J) → List String × Map String (PresenceEntry J)
  idle_all [] entries = ([], entries)
  idle_all (user ∷ users) entries = elim (lookup user entries) [
    | none ↦ idle_all users entries
    | some entry ↦
        if status_eq entry.status online
        then (let (made, left) = idle_all users (set_idle user entry entries) in
            (user ∷ made, left))
        else idle_all users entries
  ]

  -- The users that went idle, those that were removed, and the manager.
  unfoldable pub sweep : ℕ → PresenceManager J → (List String × List String) × PresenceManager J
  unfolding users_where remove_all idle_all
  sweep now p =
      let to_remove = users_where (timed_out now p.offline_timeout_ms) p.entries in
      let to_idle =
        users_where (goes_idle now p.heartbeat_timeout_ms p.offline_timeout_ms) p.entries in
      let (removed, left) = remove_all to_remove p.entries in
      let (newly_idle, entries) = idle_all to_idle left in
      ((newly_idle, removed), record p { entries = entries })
