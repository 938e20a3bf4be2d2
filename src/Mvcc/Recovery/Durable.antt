-- ===== src/Mvcc/Recovery/Durable.antt =====
-- The files always hold what a restart needs.
use voltra.Prelude.{ℕ, ◌≤◌, ◌<◌, ◌≡◌, refl, Option, none, some, List, [], ◌∷◌, ◌++◌, arith, All}
use voltra.Prelude.Map.{Distinct}
use voltra.Mvcc.Chain.{Version, first, head_ts, shown, unexpired}
use voltra.Mvcc.Store.{NsKey, Eq-NsKey, Inner, WriteOp}
use voltra.Mvcc.Store.Effects.{
  chain_of, last_write, or_else, first-apply_ops, head_ts-apply_ops, apply_ops-Distinct,
}
use voltra.Mvcc.Disk.{AofRecord, SnapFile, load_snap, recover}
use voltra.Mvcc.Disk.Snapshot.{saved, load_saved_same, head_ts-load_saved}
use voltra.Mvcc.Disk.Replay.{recover_covered, last_commit-recover, first-recover, head_ts-recover}
use voltra.Mvcc.Sequencer.{commit_ops}

module _ {D : Type 0} where
  abbrev pub Covered : ℕ → List (AofRecord D) → Type 0
  Covered b recs = All (λ (r : AofRecord D). r.ts ≤ b) recs

  -- From the time `t` on, a store that is recovered from the two files reads as `inner` does.
  pub record Durable (t : ℕ) (inner : Inner D) (snap : Option (SnapFile D))
      (aof : List (AofRecord D)) : Type 0 where
    pub distinct : Distinct inner.chains
    pub heads : (nk : NsKey) → head_ts (chain_of nk inner) ≤ inner.last_commit
    pub covered : Covered inner.last_commit aof
    pub base_le : (load_snap snap).last_commit ≤ inner.last_commit
    pub last : (recover snap aof).last_commit ≡ inner.last_commit
    pub rec_heads : (nk : NsKey) → head_ts (chain_of nk (recover snap aof)) ≤ inner.last_commit
    pub same :
        (nk : NsKey) (now : ℕ)
        → t ≤ now
        → unexpired now (shown (first (chain_of nk inner)))
          ≡ unexpired now (shown (first (chain_of nk (recover snap aof))))

  Covered-append :
      (b ts : ℕ) (recs : List (AofRecord D)) (ops : List (WriteOp D))
      → b ≤ ts
      → Covered b recs
      → Covered ts (recs ++ record { ts = ts; ops = ops } ∷ [])
  Covered-append b ts [] ops h c = (omega arith, tt)
  Covered-append b ts (r ∷ recs) ops h c = (omega arith, Covered-append b ts recs ops h c.1)

  unexpired-or_else :
      (now : ℕ) (v a b : Option (Version D))
      → unexpired now (shown a) ≡ unexpired now (shown b)
      → unexpired now (shown (or_else v a)) ≡ unexpired now (shown (or_else v b))
  unexpired-or_else now none a b h = h
  unexpired-or_else now (some v) a b h = refl

  module _ (t : ℕ) (inner : Inner D) (snap : Option (SnapFile D)) (aof : List (AofRecord D))
      (d : Durable t inner snap aof) where
    -- A commit whose record is appended to the log.
    pub commit-Durable :
        (ops : List (WriteOp D)) (ts m : ℕ)
        → inner.last_commit < ts
        → Durable t (commit_ops ops ts m inner) snap (aof ++ record { ts = ts; ops = ops } ∷ [])
    unfolding commit_ops
    commit-Durable ops ts m newer = record {
      distinct = apply_ops-Distinct ops ts m inner d.distinct;
      heads = λ nk. rw (head_ts-apply_ops ops ts m nk inner) (ground (arith, d.heads nk));
      covered = Covered-append inner.last_commit ts aof ops (omega arith) d.covered;
      base_le = omega (arith, d.base_le);
      last = last_commit-recover snap aof rec fresh (omega (arith, d.last));
      rec_heads = λ nk. rw (head_ts-recover snap aof rec fresh nk) (ground (arith, d.rec_heads nk));
      same = λ nk now h. rw (first-apply_ops ops ts m nk inner) (
          rw (first-recover snap aof rec fresh nk)
            (unexpired-or_else now (last_write nk ts ops) _ _ (d.same nk now h)));
    }
      where
        rec : AofRecord D
        rec = record { ts = ts; ops = ops }

        fresh : (load_snap snap).last_commit < ts
        fresh = omega (arith, d.base_le)

    -- A snapshot in place, whether the log is truncated or still holds its old records.
    pub save-Durable :
        (now : ℕ) (rest : List (AofRecord D))
        → now ≤ t
        → Covered inner.last_commit rest
        → Durable t inner (some (saved now inner)) rest
    save-Durable now rest h c = record {
      distinct = d.distinct;
      heads = d.heads;
      covered = c;
      base_le = unfold load_snap in omega arith;
      last = rw covers (unfold load_snap in refl);
      rec_heads = λ nk. rw covers (head_ts-load_saved now nk inner d.distinct);
      same = λ nk later k. rw covers (load_saved_same now later nk inner d.distinct (omega arith));
    }
      where
        covers : recover (some (saved now inner)) rest ≡ load_snap (some (saved now inner))
        covers = recover_covered (some (saved now inner)) rest (unfold load_snap in c)
