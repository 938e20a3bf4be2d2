-- ===== src/Mvcc/Schedule.antt =====
-- src/mvcc/mod.rs: the threads of the store as one sequence of events. The sequencer and the
-- collector each sample `min_active_snapshot` first and prune by the sample later, so their samples
-- are part of the state, and the pins of readers may fall anywhere between. The log of commits,
-- newest first, is the abstract store: what a snapshot must show is read off it alone.
pub mod Invariant
pub mod Snapshots
pub mod Stable
pub mod Books
use voltra.Prelude.{
  ℕ, Bool, true, false, ◌&&◌, ◌||◌, Option, none, some, List, [], ◌∷◌, ◌++◌, leb, ltb, is_some,
  if◌then◌else◌,
}
use voltra.Mvcc.Chain.{Version}
use voltra.Mvcc.Store.{NsKey, Inner, empty_inner, min_active_snapshot, pin_snapshot, drop_guard}
use voltra.Mvcc.Store.Effects.{last_write, or_else}
use voltra.Mvcc.Disk.{AofRecord}
use voltra.Mvcc.Sequencer.{Batch, handle, open_group}
use voltra.Mvcc.Gc.{gc_sweep}

pub data Event (D : Type 0) : Type 0 where
  -- The sequencer begins a group: it samples the floor.
  open_turn : Event D
  -- It handles the next batch of the group.
  next_batch : Batch D → Event D
  -- A reader pins the current timestamp, or drops a pin.
  pin : Event D
  unpin : ℕ → Event D
  -- The collector samples the floor, and sweeps by its sample.
  sample_floor : Event D
  sweep : Event D

pub record World (D : Type 0) : Type 0 where
  pub inner : Inner D
  pub seq_floor : ℕ
  pub gc_floor : ℕ
  pub log : List (AofRecord D)

module _ {D : Type 0} where
  unfoldable pub step : World D → Event D → World D
  step w open_turn = record w { seq_floor = min_active_snapshot w.inner }
  step w (next_batch b) =
      let g = handle w.seq_floor b (open_group w.inner) in
      record w { inner = g.inner; log = g.records ++ w.log }
  step w pin = record w { inner = (pin_snapshot w.inner).1 }
  step w (unpin ts) = record w { inner = drop_guard ts w.inner }
  step w sample_floor = record w { gc_floor = min_active_snapshot w.inner }
  step w sweep = record w { inner = gc_sweep w.gc_floor w.inner }

  unfoldable pub run : World D → List (Event D) → World D
  run w [] = w
  run w (e ∷ es) = run (step w e) es

  abbrev pub boot : World D
  boot = record { inner = empty_inner; seq_floor = 0; gc_floor = 0; log = [] }

  -- The version of `nk` that the log shows at `r`.
  abbrev pub logged_at : ℕ → NsKey → List (AofRecord D) → Option (Version D)
  logged_at r nk [] = none
  logged_at r nk (rec ∷ log) =
      let older = logged_at r nk log in
      if leb rec.ts r then or_else (last_write nk rec.ts rec.ops) older else older

  -- Whether a commit after `r` wrote `nk`.
  abbrev pub written_after : ℕ → NsKey → List (AofRecord D) → Bool
  written_after r nk [] = false
  written_after r nk (rec ∷ log) =
      (ltb r rec.ts && is_some (last_write nk rec.ts rec.ops)) || written_after r nk log
