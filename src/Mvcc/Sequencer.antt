-- ===== src/Mvcc/Sequencer.antt =====
-- src/mvcc/mod.rs: the sequencer thread. Channels are numbers, and an answer is a message on one;
-- `after_commit` holds the callbacks that wait for the durability point.
pub mod Replies
pub mod Answers
use voltra.Prelude.{
  ℕ, ◌+◌, ◌%◌, Bool, true, false, Option, none, some, List, [], ◌∷◌, ◌++◌, ltb, any, if◌then◌else◌,
}
use voltra.Prelude.Map.{Map, lookup}
use voltra.Mvcc.Chain.{Chain, head_ts}
use voltra.Mvcc.Store.{
  NsKey, Eq-NsKey, WriteOp, Inner, or_default, u64_mod, min_active_snapshot, apply_ops,
}
use voltra.Mvcc.Aof.{Codec}
use voltra.Mvcc.Writer
use voltra.Mvcc.Writer.{Writer, Prog, start, run}
use voltra.Mvcc.Disk
use voltra.Mvcc.Disk.{AofRecord, Disk, SaveIo, do_save}

pub record CommitRequest (D : Type 0) : Type 0 where
  pub read_ts : ℕ
  pub writes : List (WriteOp D)
  pub conflict_keys : List NsKey
  pub resp : ℕ

-- A closure comes with the clock that its `Writer` reads, and with its `AfterCommit` callback.
pub data Batch (D : Type 0) : Type 0 where
  apply : Prog D → ℕ → ℕ → Batch D
  commit : CommitRequest D → Batch D
  save : ℕ → Batch D
  barrier : ℕ → Batch D

pub data Reply : Type 0 where
  called : ℕ → Reply
  committed : ℕ → ℕ → Reply
  conflict : ℕ → Reply
  passed : ℕ → Reply
  saved : ℕ → Bool → Reply

-- What one group of batches has gathered so far.
pub record Group (D : Type 0) : Type 0 where
  pub inner : Inner D
  pub records : List (AofRecord D)
  pub after_commit : List Reply
  pub sent : List Reply
  pub save_req : Option ℕ

module _ {D : Type 0} where
  unfoldable pub next_ts : Inner D → ℕ
  next_ts inner = (inner.last_commit + 1) % u64_mod

  -- `apply_ops`, then the store to `last_commit`.
  unfoldable pub commit_ops : List (WriteOp D) → ℕ → ℕ → Inner D → Inner D
  commit_ops ops ts min_active inner = record (apply_ops ops ts min_active inner) {
    last_commit = ts;
  }

  unfoldable pub has_conflict : CommitRequest D → Inner D → Bool
  has_conflict req inner =
      any (λ nk. ltb req.read_ts (head_ts (or_default (lookup nk inner.chains)))) req.conflict_keys

  abbrev is_empty : List (WriteOp D) → Bool
  is_empty [] = true
  is_empty (op ∷ ops) = false

  -- Effects, if there are any, under the next timestamp.
  unfoldable pub commit_staged : ℕ → List (WriteOp D) → Group D → Group D
  unfolding next_ts commit_ops
  commit_staged min_active ops g =
      let ts = next_ts g.inner in
      if is_empty ops then g else record g {
        inner = commit_ops ops ts min_active g.inner;
        records = g.records ++ record { ts = ts; ops = ops } ∷ [];
      }

  unfoldable pub handle : ℕ → Batch D → Group D → Group D
  unfolding commit_staged has_conflict
  handle min_active (apply f now callback) g =
      let w = run f (start now g.inner) in
      let g' = commit_staged min_active w.staged g in
      record g' { after_commit = g'.after_commit ++ called callback ∷ [] }
  handle min_active (commit req) g =
      if has_conflict req g.inner
      then record g { sent = g.sent ++ conflict req.resp ∷ [] }
      else let ts = next_ts g.inner in
        let g' = commit_staged min_active req.writes g in
        record g' { after_commit = g'.after_commit ++ committed req.resp ts ∷ [] }
  handle min_active (save tx) g = record g { save_req = some tx }
  handle min_active (barrier tx) g = record g { after_commit = g.after_commit ++ passed tx ∷ [] }

  unfoldable pub handle_all : ℕ → List (Batch D) → Group D → Group D
  handle_all min_active [] g = g
  handle_all min_active (b ∷ bs) g = handle_all min_active bs (handle min_active b g)

  abbrev pub open_group : Inner D → Group D
  open_group inner = record {
    inner = inner;
    records = [];
    after_commit = [];
    sent = [];
    save_req = none;
  }

  -- The end of a turn: the save that was asked for, if any, after the callbacks.
  unfoldable pub settle :
      Option ℕ → Inner D → ℕ → SaveIo → Disk D × List Reply → Disk D × List Reply
  settle none inner now io (disk, replies) = (disk, replies)
  settle (some tx) inner now io (disk, replies) =
      let (disk', done) = do_save inner now io disk in (disk', replies ++ saved tx done ∷ [])

  -- One turn of `sequencer_loop`: the batches, the group commit, the callbacks, and the save.
  unfoldable pub turn :
      Codec (AofRecord D)
      → List (Batch D)
      → ℕ
      → SaveIo
      → Inner D × Disk D
      → Inner D × Disk D × List Reply
  turn codec bs now io (inner, disk) =
      let g = handle_all (min_active_snapshot inner) bs (open_group inner) in
      let (disk', replies) =
        settle g.save_req g.inner now io
          (Disk.append codec g.records disk, g.sent ++ g.after_commit) in
      (g.inner, disk', replies)
