-- ===== src/Mvcc/Recovery.antt =====
-- src/mvcc/mod.rs: the store with its files, as a sequence of moves: turns of the sequencer with their
-- saves, readers' pins, and sweeps. A crash may follow any move; what comes back is `open_store`.
pub mod Durable
pub mod Restart
use voltra.Prelude.{ℕ, Bool, true, Option, none, List, [], ◌∷◌, ◌+◌, ◌≤◌, length}
use voltra.Mvcc.Store.{Inner, empty_inner, insert_pin, drop_guard, min_active_snapshot}
use voltra.Mvcc.Disk.{AofRecord, Disk, SaveIo}
use voltra.Mvcc.Sequencer.{Batch, Reply, handle_all, open_group, turn}
use voltra.Mvcc.Aof.{Codec}
use voltra.Mvcc.Aof.Replay.{Fit}
use voltra.Mvcc.Gc.{gc_sweep}

pub data Move (D : Type 0) : Type 0 where
  -- The batches of the turn, the clock at its save, and how far the save gets.
  work : List (Batch D) → ℕ → SaveIo → Move D
  pin_at unpin_at sweep_at : ℕ → Move D

abbrev pub System : Type 0 → Type 0
System D = Inner D × Disk D

module _ {D : Type 0} (codec : Codec (AofRecord D)) where
  unfoldable pub move : System D → Move D → System D
  move (inner, disk) (work bs now io) =
      let (inner', disk', replies) = turn codec bs now io (inner, disk) in (inner', disk')
  move (inner, disk) (pin_at ts) = (insert_pin ts inner, disk)
  move (inner, disk) (unpin_at ts) = (drop_guard ts inner, disk)
  move (inner, disk) (sweep_at m) = (gc_sweep m inner, disk)

  unfoldable pub moves : System D → List (Move D) → System D
  moves s [] = s
  moves s (m ∷ ms) = moves (move s m) ms

  -- The records that each turn hands to the log encode within the cap, and decode to themselves.
  abbrev pub LogFits : System D → List (Move D) → Type 0
  LogFits s [] = Unit
  LogFits s (work bs now io ∷ ms) =
      Fit codec (handle_all (min_active_snapshot s.0) bs (open_group s.0)).records
      × LogFits (move s (work bs now io)) ms
  LogFits s (m ∷ ms) = LogFits (move s m) ms

module _ {D : Type 0} where
  -- A new store on an empty data directory.
  abbrev pub fresh : System D
  fresh = (empty_inner, record { attached = true; snap = none; aof = [] })

  -- The batches of a run, and whether its saves were made by `t`.
  abbrev pub uses : Move D → ℕ
  uses (work bs now io) = length bs
  uses _ = 0

  abbrev pub batches : List (Move D) → ℕ
  batches [] = 0
  batches (m ∷ ms) = uses m + batches ms

  abbrev pub SavesBy : ℕ → Move D → Type 0
  SavesBy t (work bs now io) = now ≤ t
  SavesBy t _ = Unit
