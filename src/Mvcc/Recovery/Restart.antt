-- ===== src/Mvcc/Recovery/Restart.antt =====
-- A restart at any point loses nothing that was committed.
use mathlib.Core.List.{append_assoc, append-nil}
use voltra.Prelude.{
  ℕ, ◌+◌, ◌≤◌, ◌<◌, ◌≡◌, refl, ap, sym, ◌∙◌, true, Option, none, some, List, [], ◌∷◌, ◌++◌, arith,
  Bool-cases, inl, inr, length, All,
}
use voltra.Prelude.Map.{lookup}
use voltra.Mvcc.Chain.{first, head_ts, shown, unexpired}
use voltra.Mvcc.Chain.Prune.{visible_at-first}
use voltra.Mvcc.Store.{
  Bytes, NsKey, Inner, WriteOp, u64_mod, get, insert_pin, drop_guard, min_active_snapshot,
}
use voltra.Mvcc.Store.Effects.{chain_of}
use voltra.Mvcc.Disk.{
  AofRecord, SnapFile, Disk, SaveIo, snapshot_failed, truncate_failed, completed, load_snap,
  recover, do_save, open_store, replay,
}
use voltra.Mvcc.Aof.{Codec, append_records}
use voltra.Mvcc.Aof.Replay.{Fit}
use voltra.Mvcc.Disk.Log.{append-attached, append_records-append, Fit-append, opened}
use voltra.Mvcc.Gc.{gc_sweep}
use voltra.Mvcc.Gc.Sweep.{sweep_chains-Distinct, head_ts-gc_sweep, head-gc_sweep}
use voltra.Mvcc.Writer
use voltra.Mvcc.Sequencer.{
  Batch, Group, apply, commit, save, barrier, commit_ops, commit_staged, next_ts, handle,
  handle_all, open_group, has_conflict, turn, settle, Reply,
}
use voltra.Mvcc.Schedule.Snapshots.{get_at-shown}
use voltra.Mvcc.Recovery.{
  Move, work, pin_at, unpin_at, sweep_at, System, move, moves, LogFits, fresh, batches, uses,
  SavesBy,
}
use voltra.Mvcc.Recovery.Durable.{Durable, commit-Durable, save-Durable}

module _ {D : Type 0} where
  -- The files with the records of an open group, for a group that has used `n` timestamps at most.
  abbrev Grouped : ℕ → ℕ → Option (SnapFile D) → List (AofRecord D) → Group D → Type 0
  Grouped t n snap recs g = Durable t g.inner snap (recs ++ g.records) × (g.inner.last_commit ≤ n)

  commit_staged-Grouped :
      (t n m : ℕ) (snap : Option (SnapFile D)) (recs : List (AofRecord D)) (ops : List (WriteOp D))
      (g : Group D)
      → n + 1 < u64_mod
      → Grouped t n snap recs g
      → Grouped t (n + 1) snap recs (commit_staged m ops g)
  unfolding commit_staged
  commit_staged-Grouped t n m snap recs [] g room (d, le) = (d, omega arith)
  commit_staged-Grouped t n m snap recs (op ∷ ops) g room (d, le) = (
    rw (← append_assoc recs g.records _) (
        commit-Durable t g.inner snap (recs ++ g.records) d (op ∷ ops) (next_ts g.inner) m
          (unfold next_ts in omega arith)),
    unfold commit_ops next_ts in omega arith,
  )

  handle-Grouped :
      (t n m : ℕ) (snap : Option (SnapFile D)) (recs : List (AofRecord D)) (b : Batch D)
      (g : Group D)
      → n + 1 < u64_mod
      → Grouped t n snap recs g
      → Grouped t (n + 1) snap recs (handle m b g)
  unfolding handle
  handle-Grouped t n m snap recs (apply f now callback) g room h =
      commit_staged-Grouped t n m snap recs (Writer.run f (Writer.start now g.inner)).staged g room
        h
  handle-Grouped t n m snap recs (commit req) g room h =
      elim (Bool-cases (has_conflict req g.inner)) [
        | inl e ↦ rw (e, handle) (h.0, omega (arith, h.1))
        | inr e ↦ rw (e, handle) (commit_staged-Grouped t n m snap recs req.writes g room h)
      ]
  handle-Grouped t n m snap recs (save tx) g room (d, le) = (d, omega arith)
  handle-Grouped t n m snap recs (barrier tx) g room (d, le) = (d, omega arith)

  handle_all-Grouped :
      (t n m : ℕ) (snap : Option (SnapFile D)) (recs : List (AofRecord D)) (bs : List (Batch D))
      (g : Group D)
      → n + length bs < u64_mod
      → Grouped t n snap recs g
      → Grouped t (n + length bs) snap recs (handle_all m bs g)
  unfolding handle_all
  handle_all-Grouped t n m snap recs [] g room (d, le) = (d, omega arith)
  handle_all-Grouped t n m snap recs (b ∷ bs) g room h =
      let rest =
        handle_all-Grouped t (n + 1) m snap recs bs (handle m b g) (omega arith)
          (handle-Grouped t n m snap recs b g (omega arith) h) in
      (rest.0, omega (arith, rest.1))

  -- A system with a data directory, whose log is that of `recs`, and whose files are durable from `t` on.
  abbrev SoundWith : Codec (AofRecord D) → ℕ → ℕ → List (AofRecord D) → System D → Type 0
  SoundWith codec t n recs (inner, disk) =
      Durable t inner disk.snap recs
      × (inner.last_commit ≤ n)
      × (disk.attached ≡ true)
      × (disk.aof ≡ append_records codec recs)
      × Fit codec recs

  abbrev Sound : Codec (AofRecord D) → ℕ → ℕ → System D → Type 0
  Sound codec t n s = (recs : List (AofRecord D)) × SoundWith codec t n recs s

  settle-Sound :
      (codec : Codec (AofRecord D)) (t n now : ℕ) (req : Option ℕ) (io : SaveIo) (inner : Inner D)
      (disk : Disk D) (replies : List Reply)
      → now ≤ t
      → Sound codec t n (inner, disk)
      → Sound codec t n (inner, (settle req inner now io (disk, replies)).0)
  unfolding settle do_save
  settle-Sound codec t n now none io inner disk replies h s = s
  settle-Sound codec t n now (some tx) snapshot_failed inner disk replies h
        (recs, (d, le, at, log, fit)) =
      (recs, rw at (d, le, refl, log, fit))
  settle-Sound codec t n now (some tx) truncate_failed inner disk replies h
        (recs, (d, le, at, log, fit)) =
      (recs, rw at (save-Durable t inner disk.snap recs d now recs h d.covered, le, refl, log, fit))
  settle-Sound codec t n now (some tx) completed inner disk replies h
        (recs, (d, le, at, log, fit)) =
      (
        [],
        rw at (
          save-Durable t inner disk.snap recs d now [] h tt,
          le,
          refl,
          unfold append_records in refl,
          tt,
        ),
      )

  turn-Sound :
      (codec : Codec (AofRecord D)) (t n now : ℕ) (bs : List (Batch D)) (io : SaveIo) (s : System D)
      → n + length bs < u64_mod
      → now ≤ t
      → Fit codec (handle_all (min_active_snapshot s.0) bs (open_group s.0)).records
      → Sound codec t n s
      → Sound codec t (n + length bs) (move codec s (work bs now io))
  unfolding move turn
  turn-Sound codec t n now bs io (inner, disk) room h fit (recs, (d, le, at, log, fits)) =
      let g = handle_all (min_active_snapshot inner) bs (open_group inner) in
      let grouped =
        handle_all-Grouped t n (min_active_snapshot inner) disk.snap recs bs (open_group inner) room
          (rw append-nil d, le) in
      settle-Sound codec t (n + length bs) now g.save_req io g.inner _ (g.sent ++ g.after_commit) h
        (
          recs ++ g.records,
          rw (append-attached codec g.records disk at) (
            grouped.0,
            grouped.1,
            at,
            ap (λ b. b ++ append_records codec g.records) log
                ∙ sym (append_records-append codec recs g.records),
            Fit-append codec recs g.records fits fit,
          ),
        )

  module _ (t : ℕ) (inner : Inner D) (snap : Option (SnapFile D)) (aof : List (AofRecord D))
      (d : Durable t inner snap aof) where
    pin-Durable : (ts : ℕ) → Durable t (insert_pin ts inner) snap aof
    unfolding insert_pin
    pin-Durable ts = record {
      distinct = d.distinct;
      heads = d.heads;
      covered = d.covered;
      base_le = d.base_le;
      last = d.last;
      rec_heads = d.rec_heads;
      same = d.same;
    }

    unpin-Durable : (ts : ℕ) → Durable t (drop_guard ts inner) snap aof
    unfolding drop_guard
    unpin-Durable ts = record {
      distinct = d.distinct;
      heads = d.heads;
      covered = d.covered;
      base_le = d.base_le;
      last = d.last;
      rec_heads = d.rec_heads;
      same = d.same;
    }

    sweep-Durable : (m : ℕ) → Durable t (gc_sweep m inner) snap aof
    sweep-Durable m = record {
      distinct = unfold gc_sweep in sweep_chains-Distinct m inner.chains d.distinct;
      heads = λ nk.
          unfold gc_sweep in omega (arith, head_ts-gc_sweep m nk inner d.distinct, d.heads nk);
      covered = unfold gc_sweep in d.covered;
      base_le = unfold gc_sweep in d.base_le;
      last = unfold gc_sweep in d.last;
      rec_heads = unfold gc_sweep in d.rec_heads;
      same = λ nk now h. ap (unexpired now) (head-gc_sweep m nk inner d.distinct) ∙ d.same nk now h;
    }

  move-Sound :
      (codec : Codec (AofRecord D)) (t n : ℕ) (m : Move D) (ms : List (Move D)) (s : System D)
      → n + uses m < u64_mod
      → SavesBy t m
      → LogFits codec s (m ∷ ms)
      → Sound codec t n s
      → Sound codec t (n + uses m) (move codec s m) × LogFits codec (move codec s m) ms
  move-Sound codec t n (work bs now io) ms s room by fits h =
      (turn-Sound codec t n now bs io s room by fits.0 h, fits.1)
  move-Sound codec t n (pin_at ts) ms (inner, disk) room by fits (recs, (d, le, at, log, fit)) = (
    unfold move in
        (
          recs,
          (pin-Durable t inner disk.snap recs d ts, unfold insert_pin in omega arith, at, log, fit),
        ),
    fits,
  )
  move-Sound codec t n (unpin_at ts) ms (inner, disk) room by fits (recs, (d, le, at, log, fit)) = (
    unfold move in
        (
          recs,
          (
            unpin-Durable t inner disk.snap recs d ts,
            unfold drop_guard in omega arith,
            at,
            log,
            fit,
          ),
        ),
    fits,
  )
  move-Sound codec t n (sweep_at m) ms (inner, disk) room by fits (recs, (d, le, at, log, fit)) = (
    unfold move in
        (
          recs,
          (sweep-Durable t inner disk.snap recs d m, unfold gc_sweep in omega arith, at, log, fit),
        ),
    fits,
  )

  moves-Sound :
      (codec : Codec (AofRecord D)) (t n : ℕ) (ms : List (Move D)) (s : System D)
      → n + batches ms < u64_mod
      → All (SavesBy t) ms
      → LogFits codec s ms
      → Sound codec t n s
      → Sound codec t (n + batches ms) (moves codec s ms)
  unfolding moves
  moves-Sound codec t n [] s room by fits (recs, (d, le, at, log, fit)) =
      (recs, (d, omega arith, at, log, fit))
  moves-Sound codec t n (m ∷ ms) s room by fits h =
      let (next, left) = move-Sound codec t n m ms s (omega arith) by.0 fits h in
      let (recs, (d, le, at, log, fit)) =
        moves-Sound codec t (n + uses m) ms (move codec s m) (omega arith) by.1 left next in
      (recs, (d, omega (arith, le), at, log, fit))

  fresh-Sound : (codec : Codec (AofRecord D)) (t : ℕ) → Sound codec t 0 fresh
  unfolding recover replay load_snap lookup
  fresh-Sound codec t = (
    [],
    (
      record {
        distinct = tt;
        heads = λ nk. unfold head_ts in omega arith;
        covered = tt;
        base_le = omega arith;
        last = refl;
        rec_heads = λ nk. unfold head_ts in omega arith;
        same = λ nk now h. refl;
      },
      omega arith,
      refl,
      unfold append_records in refl,
      tt,
    ),
  )

  get-first :
      (ns : ℕ) (key : Bytes) (now : ℕ) (inner : Inner D)
      → head_ts (chain_of (record { ns = ns; key = key }) inner) ≤ inner.last_commit
      → get ns key now inner
        ≡ unexpired now (shown (first (chain_of (record { ns = ns; key = key }) inner)))
  unfolding get
  get-first ns key now inner h =
      get_at-shown ns key inner.last_commit now inner
      ∙ ap (λ v. unexpired now (shown v)) (visible_at-first inner.last_commit _ h)

  -- A store that was opened on an empty data directory has run any sequence of turns, pins and sweeps,
  -- of fewer than 2 ^ 64 batches in all, and some of its saves may have failed between the snapshot
  -- and the truncation of the log. Every record that was handed to the log encodes within its cap of 64
  -- MiB, and decodes to itself. A crash after all of it is written loses nothing: the store that `open`
  -- recovers from the bytes of the log has the same last commit and reads every key the same, at any
  -- clock no earlier than those of the saves.
  pub restart_loses_nothing :
      (codec : Codec (AofRecord D)) (ms : List (Move D)) (t ns : ℕ) (key : Bytes) (now : ℕ)
      → batches ms < u64_mod
      → All (SavesBy t) ms
      → LogFits codec fresh ms
      → t ≤ now
      → let (inner, disk) = moves codec fresh ms in
        (get ns key now (open_store codec disk) ≡ get ns key now inner)
        × ((open_store codec disk).last_commit ≡ inner.last_commit)
  restart_loses_nothing codec ms t ns key now room by fits late =
      let (recs, (d, le, at, log, fit)) =
        moves-Sound codec t 0 ms fresh (omega arith) by fits (fresh-Sound codec t) in
      let nk : NsKey = record { ns = ns; key = key } in
      rw (opened codec recs (moves codec fresh ms).1 at log fit) (
        get-first ns key now _ (omega (arith, d.rec_heads nk, d.last))
            ∙ sym (d.same nk now late)
            ∙ sym (get-first ns key now _ (d.heads nk)),
        d.last,
      )
