-- ===== src/Mvcc/Disk.antt =====
-- src/mvcc/mod.rs and src/mvcc/aof.rs: the log and the snapshot file as the engine uses them, `SAVE`
-- and recovery. A `Disk` is the bytes of `mvcc.aof` and what `load_snapshot` returns;
-- `attached` says whether there is a data directory.
pub mod Snapshot
pub mod Replay
pub mod Log
use voltra.Prelude.{
  ℕ, Bool, true, false, Option, none, some, List, [], ◌∷◌, ◌++◌, ltb, leb, if◌then◌else◌,
}
use voltra.Prelude.Map.{Map, insert}
use voltra.Mvcc.Aof.{Codec, append_records, read_log}
use voltra.Mvcc.Chain.{Version, Chain, first, expired}
use voltra.Mvcc.Store.{Bytes, NsKey, Eq-NsKey, WriteOp, Inner, empty_inner, bump_count, apply_ops}

pub record AofRecord (D : Type 0) : Type 0 where
  pub ts : ℕ
  pub ops : List (WriteOp D)

pub record SnapEntry (D : Type 0) : Type 0 where
  pub ns : ℕ
  pub key : Bytes
  pub value : D
  pub expires_at_ms : Option ℕ

pub record SnapFile (D : Type 0) : Type 0 where
  pub ts : ℕ
  pub entries : List (SnapEntry D)

pub record Disk (D : Type 0) : Type 0 where
  pub attached : Bool
  pub snap : Option (SnapFile D)
  pub aof : Bytes

-- How far the file operations of a save get: the snapshot is not renamed into place, the log is not
-- truncated (also a crash between the two), or both are done.
pub data SaveIo : Type 0 where
  snapshot_failed truncate_failed completed : SaveIo

module _ {D : Type 0} where
  -- The group commit of `sequencer_loop`: nothing is written without a data directory.
  unfoldable pub append : Codec (AofRecord D) → List (AofRecord D) → Disk D → Disk D
  unfolding append_records
  append codec records disk =
      if disk.attached then record disk { aof = disk.aof ++ append_records codec records } else disk

  -- The entry that `do_save` writes for a chain.
  unfoldable pub snap_entry : ℕ → NsKey → Chain D → Option (SnapEntry D)
  snap_entry now nk chain = elim (first chain) [
    | none ↦ none
    | some v ↦ elim v.value [
      | none ↦ none
      | some d ↦
          if expired v.expires_at_ms now
          then none
          else some
              (record { ns = nk.ns; key = nk.key; value = d; expires_at_ms = v.expires_at_ms })
    ]
  ]

  unfoldable pub snap_entries : ℕ → Map NsKey (Chain D) → List (SnapEntry D)
  snap_entries now [] = []
  snap_entries now ((nk, chain) ∷ m) =
      let rest = snap_entries now m in
      elim (snap_entry now nk chain) [ none ↦ rest | some e ↦ e ∷ rest ]

  -- The new disk, and whether the save is reported as done.
  unfoldable pub do_save : Inner D → ℕ → SaveIo → Disk D → Disk D × Bool
  do_save inner now io disk =
      let file : SnapFile D = record {
        ts = inner.last_commit;
        entries = snap_entries now inner.chains;
      } in
      if disk.attached
      then elim io [
        | snapshot_failed ↦ (disk, false)
        | truncate_failed ↦ (record disk { snap = some file }, false)
        | completed ↦ (record disk { snap = some file; aof = [] }, true)
      ]
      else (disk, true)

  -- One snapshot entry, put back under the snapshot's timestamp.
  unfoldable pub load_entry : ℕ → SnapEntry D → Inner D → Inner D
  load_entry snap_ts e inner =
      let nk : NsKey = record { ns = e.ns; key = e.key } in
      let version : Version D = record {
        commit_ts = snap_ts;
        value = some e.value;
        expires_at_ms = e.expires_at_ms;
      } in
      let counted = bump_count e.ns 1 inner in
      let timed : Inner D = elim e.expires_at_ms [
        | none ↦ counted
        | some exp ↦ record counted { ttl_index = insert nk exp counted.ttl_index }
      ] in
      record timed { chains = insert nk (record { versions = version ∷ [] }) timed.chains }

  unfoldable pub load_entries : ℕ → List (SnapEntry D) → Inner D → Inner D
  load_entries snap_ts [] inner = inner
  load_entries snap_ts (e ∷ es) inner = load_entries snap_ts es (load_entry snap_ts e inner)

  unfoldable pub load_snap : Option (SnapFile D) → Inner D
  load_snap none = empty_inner
  load_snap (some file) = record (load_entries file.ts file.entries empty_inner) {
    last_commit = file.ts;
  }

  -- The callback that `open` hands to `aof::replay`: the store and `max_ts`.
  unfoldable pub replay_record : ℕ → AofRecord D → Inner D × ℕ → Inner D × ℕ
  replay_record base_ts rec (inner, max_ts) =
      if leb rec.ts base_ts
      then (inner, max_ts)
      else (apply_ops rec.ops rec.ts rec.ts inner, if ltb max_ts rec.ts then rec.ts else max_ts)

  unfoldable pub replay : ℕ → List (AofRecord D) → Inner D × ℕ → Inner D × ℕ
  replay base_ts [] s = s
  replay base_ts (rec ∷ recs) s = replay base_ts recs (replay_record base_ts rec s)

  -- The snapshot, then the records of the log.
  unfoldable pub recover : Option (SnapFile D) → List (AofRecord D) → Inner D
  recover snap aof =
      let inner = load_snap snap in
      let (replayed, max_ts) = replay inner.last_commit aof (inner, inner.last_commit) in
      record replayed { last_commit = max_ts }

  -- The recovery part of `MvccStore::open`.
  unfoldable pub open_store : Codec (AofRecord D) → Disk D → Inner D
  unfolding read_log
  open_store codec disk =
      if disk.attached then recover disk.snap (read_log codec disk.aof) else empty_inner
