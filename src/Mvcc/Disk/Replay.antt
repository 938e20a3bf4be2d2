-- ===== src/Mvcc/Disk/Replay.antt =====
-- Replaying the log: records that the snapshot covers are skipped, and one more record in the log is
-- one more record applied.
use voltra.Prelude.{
  ℕ, ◌≤◌, ◌<◌, ◌≡◌, refl, ap, ◌∙◌, Option, List, [], ◌∷◌, ◌++◌, arith, All, if◌then◌else◌, ltb,
  lt→leb,
}
use voltra.Mvcc.Chain.{first, head_ts}
use voltra.Mvcc.Store.{NsKey, Inner, apply_ops}
use voltra.Mvcc.Store.Effects.{
  chain_of, last_write, or_else, first-apply_ops, head_ts-apply_ops, head_after,
}
use voltra.Mvcc.Disk.{AofRecord, SnapFile, load_snap, replay_record, replay, recover}

module _ {D : Type 0} where
  replay-append :
      (b : ℕ) (recs : List (AofRecord D)) (rec : AofRecord D) (s : Inner D × ℕ)
      → replay b (recs ++ rec ∷ []) s ≡ replay_record b rec (replay b recs s)
  unfolding replay
  replay-append b [] rec s = refl
  replay-append b (r ∷ recs) rec s = replay-append b recs rec (replay_record b r s)

  replay_skip :
      (b : ℕ) (recs : List (AofRecord D)) (s : Inner D × ℕ)
      → All (λ (r : AofRecord D). r.ts ≤ b) recs
      → replay b recs s ≡ s
  unfolding replay replay_record
  replay_skip b [] s h = refl
  replay_skip b (r ∷ recs) (inner, m) h = ground (arith, replay_skip b recs (inner, m) h.1)

  -- A log that the snapshot covers adds nothing to it.
  pub recover_covered :
      (snap : Option (SnapFile D)) (recs : List (AofRecord D))
      → All (λ (r : AofRecord D). r.ts ≤ (load_snap snap).last_commit) recs
      → recover snap recs ≡ load_snap snap
  unfolding recover
  recover_covered snap recs h =
      ap (λ (s : Inner D × ℕ). record (s.0) { last_commit = s.1 })
        (replay_skip (load_snap snap).last_commit recs _ h)

  module _ (snap : Option (SnapFile D)) (recs : List (AofRecord D)) (rec : AofRecord D)
      (fresh : (load_snap snap).last_commit < rec.ts) where
    abbrev before : Inner D × ℕ
    before = replay (load_snap snap).last_commit recs (load_snap snap, (load_snap snap).last_commit)

    abbrev after : Inner D
    after = recover snap (recs ++ rec ∷ [])

    -- What `recover` makes of the log with the record.
    replayed :
        replay
          (load_snap snap).last_commit
          (recs ++ rec ∷ [])
          (load_snap snap, (load_snap snap).last_commit)
        ≡ (
          apply_ops rec.ops rec.ts rec.ts before.0,
          if ltb before.1 rec.ts then rec.ts else before.1,
        )
    unfolding replay_record
    replayed =
        replay-append (load_snap snap).last_commit recs rec _
        ∙ rw (lt→leb rec.ts (load_snap snap).last_commit fresh)

    after_lem : after ≡ record (apply_ops rec.ops rec.ts rec.ts before.0) {
      last_commit = if ltb before.1 rec.ts then rec.ts else before.1;
    }
    unfolding recover
    after_lem = ap (λ (s : Inner D × ℕ). record (s.0) { last_commit = s.1 }) replayed

    pub last_commit-recover : (recover snap recs).last_commit < rec.ts → after.last_commit ≡ rec.ts
    unfolding recover
    last_commit-recover h = ap (λ (i : Inner D). i.last_commit) after_lem ∙ ground arith

    pub first-recover :
        (nk : NsKey)
        → first (chain_of nk after)
          ≡ or_else (last_write nk rec.ts rec.ops) (first (chain_of nk (recover snap recs)))
    unfolding recover
    first-recover nk = rw after_lem (first-apply_ops rec.ops rec.ts rec.ts nk before.0)

    pub head_ts-recover :
        (nk : NsKey)
        → head_ts (chain_of nk after)
          ≡ head_after rec.ts
              (last_write nk rec.ts rec.ops)
              (head_ts (chain_of nk (recover snap recs)))
    unfolding recover
    head_ts-recover nk = rw after_lem (head_ts-apply_ops rec.ops rec.ts rec.ts nk before.0)
