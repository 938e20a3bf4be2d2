-- ===== src/Mvcc/Schedule/Invariant.antt =====
-- The store agrees with its log wherever a snapshot may still look.
use voltra.Prelude.{
  ℕ, ◌+◌, ◌≤◌, ◌<◌, ◌≡◌, refl, ◌∙◌, Option, none, some, List, [], ◌∷◌, ◌++◌, arith, ltb, Bool-cases,
  inl, inr, length,
}
use Prim.Native.Nat.{max}
use voltra.Prelude.Map.{lookup, Distinct}
use voltra.Mvcc.Chain.{Version, visible_at, head_ts, shown}
use voltra.Mvcc.Store.{
  NsKey, WriteOp, u64_mod, min_active_snapshot, pin_snapshot, drop_guard, Eq-NsKey,
}
use voltra.Mvcc.Store.Effects.{
  chain_of, last_write, or_else, visible_at-apply_ops, head_ts-apply_ops, frame-apply_ops,
  apply_ops-Distinct,
}
use voltra.Mvcc.Store.Pins.{
  Within, Within-insert, Within-raise, Within-max, min_active_snapshot-Within, drop_guard-Within,
}
use voltra.Mvcc.Gc.{gc_sweep}
use voltra.Mvcc.Gc.Sweep.{shown-gc_sweep, after-gc_sweep, head_ts-gc_sweep, sweep_chains-Distinct}
use voltra.Mvcc.Sequencer.{
  Batch, apply, commit, save, barrier, handle, open_group, commit_staged, commit_ops, next_ts,
  has_conflict,
}
use voltra.Mvcc.Writer
use voltra.Mvcc.Schedule.{
  Event, World, open_turn, next_batch, pin, unpin, sample_floor, sweep, step, run, boot, logged_at,
  written_after,
}

module _ {D : Type 0} where
  -- `horizon` is the highest floor that was sampled: no version that a read at or above it needs has
  -- been dropped, and every pin is at or above it.
  pub record Inv (horizon : ℕ) (w : World D) : Type 0 where
    pub seq_le : w.seq_floor ≤ horizon
    pub gc_le : w.gc_floor ≤ horizon
    pub pins : Within horizon w.inner.last_commit w.inner.active_snapshots
    pub horizon_le : horizon ≤ w.inner.last_commit
    pub distinct : Distinct w.inner.chains
    pub heads : (nk : NsKey) → head_ts (chain_of nk w.inner) ≤ w.inner.last_commit
    pub agree :
        (nk : NsKey) (r : ℕ)
        → horizon ≤ r
        → shown (visible_at r (chain_of nk w.inner)) ≡ shown (logged_at r nk w.log)
    pub after :
        (nk : NsKey) (r : ℕ)
        → horizon ≤ r
        → ltb r (head_ts (chain_of nk w.inner)) ≡ written_after r nk w.log

  shown-or_else :
      (v a b : Option (Version D)) → shown a ≡ shown b → shown (or_else v a) ≡ shown (or_else v b)
  shown-or_else none a b h = h
  shown-or_else (some v) a b h = refl

  module _ (h : ℕ) (w : World D) (inv : Inv h w) (ops : List (WriteOp D)) (ts : ℕ)
      (newer : w.inner.last_commit < ts) where
    abbrev committed : World D
    committed = record w {
      inner = commit_ops ops ts w.seq_floor w.inner;
      log = record { ts = ts; ops = ops } ∷ w.log;
    }

    agree-commit :
        (nk : NsKey) (r : ℕ)
        → h ≤ r
        → shown (visible_at r (chain_of nk committed.inner)) ≡ shown (logged_at r nk committed.log)
    unfolding commit_ops
    agree-commit nk r k =
        rw (visible_at-apply_ops ops ts w.seq_floor r nk w.inner (omega (arith, inv.seq_le))) (
          ground (
            arith,
            inv.agree nk r k,
            shown-or_else (last_write nk ts ops) (visible_at r (chain_of nk w.inner))
                (logged_at r nk w.log) (inv.agree nk r k),
          ))

    after-commit :
        (nk : NsKey) (r : ℕ)
        → h ≤ r
        → ltb r (head_ts (chain_of nk committed.inner)) ≡ written_after r nk committed.log
    unfolding commit_ops
    after-commit nk r k =
        rw (head_ts-apply_ops ops ts w.seq_floor nk w.inner)
          (ground (arith, inv.after nk r k, inv.heads nk))

    heads-commit : (nk : NsKey) → head_ts (chain_of nk committed.inner) ≤ ts
    unfolding commit_ops
    heads-commit nk =
        rw (head_ts-apply_ops ops ts w.seq_floor nk w.inner) (ground (arith, inv.heads nk))

    pub commit-Inv : Inv h committed
    unfolding commit_ops
    commit-Inv = record {
      seq_le = inv.seq_le;
      gc_le = inv.gc_le;
      pins =
          rw (frame-apply_ops ops ts w.seq_floor w.inner).0
            (Within-raise h w.inner.last_commit ts _ (omega arith) inv.pins);
      horizon_le = omega (arith, inv.horizon_le);
      distinct = apply_ops-Distinct ops ts w.seq_floor w.inner inv.distinct;
      heads = heads-commit;
      agree = agree-commit;
      after = after-commit;
    }

  -- A step of the store: the invariant at some horizon, and one timestamp used at most.
  abbrev pub Steps : World D → World D → Type 0
  Steps w w' = (h : ℕ) × Inv h w' × (w'.inner.last_commit ≤ w.inner.last_commit + 1)

  module _ (h : ℕ) (w : World D) (inv : Inv h w) (room : w.inner.last_commit + 1 < u64_mod) where
    commit_staged-Steps :
        (ops : List (WriteOp D))
        → let g = commit_staged w.seq_floor ops (open_group w.inner) in
          Steps w (record w { inner = g.inner; log = g.records ++ w.log })
    unfolding commit_staged
    commit_staged-Steps [] = (h, inv, omega arith)
    commit_staged-Steps (op ∷ ops) = (
      h,
      commit-Inv h w inv (op ∷ ops) (next_ts w.inner) (unfold next_ts in omega arith),
      unfold next_ts in omega arith,
    )

    batch-Steps : (b : Batch D) → Steps w (step w (next_batch b))
    unfolding step handle
    batch-Steps (apply f now callback) =
        commit_staged-Steps (Writer.run f (Writer.start now w.inner)).staged
    batch-Steps (commit req) = elim (Bool-cases (has_conflict req w.inner)) [
      | inl e ↦ rw (e, handle) (h, inv, omega arith)
      | inr e ↦ rw (e, handle) (commit_staged-Steps req.writes)
    ]
    batch-Steps (save tx) = (h, inv, omega arith)
    batch-Steps (barrier tx) = (h, inv, omega arith)

    sampled : ℕ
    sampled = max h (min_active_snapshot w.inner)

    floor-Within :
        (min_active_snapshot w.inner ≤ w.inner.last_commit)
        × Within (min_active_snapshot w.inner) w.inner.last_commit w.inner.active_snapshots
    floor-Within = min_active_snapshot-Within h w.inner inv.pins

    raised-Inv :
        (s g : ℕ)
        → s ≤ sampled
        → g ≤ sampled
        → Inv sampled (record w { seq_floor = s; gc_floor = g })
    unfolding sampled
    raised-Inv s g a b = record {
      seq_le = a;
      gc_le = b;
      pins = Within-max h (min_active_snapshot w.inner) _ _ inv.pins floor-Within.1;
      horizon_le = omega (arith, inv.horizon_le, floor-Within.0);
      distinct = inv.distinct;
      heads = inv.heads;
      agree = λ nk r k. inv.agree nk r (omega arith);
      after = λ nk r k. inv.after nk r (omega arith);
    }

    pin-Inv : Inv h (step w pin)
    unfolding step pin_snapshot
    pin-Inv = record {
      seq_le = inv.seq_le;
      gc_le = inv.gc_le;
      pins = Within-insert h w.inner.last_commit _ _ _ inv.horizon_le (omega arith) inv.pins;
      horizon_le = inv.horizon_le;
      distinct = inv.distinct;
      heads = inv.heads;
      agree = inv.agree;
      after = inv.after;
    }

    unpin-Inv : (ts : ℕ) → Inv h (step w (unpin ts))
    unfolding step drop_guard
    unpin-Inv ts = record {
      seq_le = inv.seq_le;
      gc_le = inv.gc_le;
      pins = drop_guard-Within h w.inner.last_commit ts w.inner inv.pins;
      horizon_le = inv.horizon_le;
      distinct = inv.distinct;
      heads = inv.heads;
      agree = inv.agree;
      after = inv.after;
    }

    sweep-Inv : Inv h (step w sweep)
    unfolding step
    sweep-Inv = record {
      seq_le = inv.seq_le;
      gc_le = inv.gc_le;
      pins = unfold gc_sweep in inv.pins;
      horizon_le = unfold gc_sweep in inv.horizon_le;
      distinct = unfold gc_sweep in sweep_chains-Distinct w.gc_floor w.inner.chains inv.distinct;
      heads = λ nk.
          unfold gc_sweep in
          omega (arith, head_ts-gc_sweep w.gc_floor nk w.inner inv.distinct, inv.heads nk);
      agree = λ nk r k.
          shown-gc_sweep w.gc_floor r nk w.inner inv.distinct (omega (arith, inv.gc_le))
          ∙ inv.agree nk r k;
      after = λ nk r k.
          after-gc_sweep w.gc_floor r nk w.inner inv.distinct (omega (arith, inv.gc_le))
          ∙ inv.after nk r k;
    }

    pub step-Steps : (e : Event D) → Steps w (step w e)
    unfolding step sampled
    step-Steps open_turn =
        (sampled, raised-Inv _ _ (omega arith) (omega (arith, inv.gc_le)), omega arith)
    step-Steps (next_batch b) = batch-Steps b
    step-Steps pin = (h, pin-Inv, unfold pin_snapshot in omega arith)
    step-Steps (unpin ts) = (h, unpin-Inv ts, unfold drop_guard in omega arith)
    step-Steps sample_floor =
        (sampled, raised-Inv _ _ (omega (arith, inv.seq_le)) (omega arith), omega arith)
    step-Steps sweep = (h, sweep-Inv, unfold gc_sweep in omega arith)

  pub boot-Inv : Inv 0 boot
  unfolding visible_at head_ts lookup
  boot-Inv = record {
    seq_le = omega arith;
    gc_le = omega arith;
    pins = tt;
    horizon_le = omega arith;
    distinct = tt;
    heads = λ nk. omega arith;
    agree = λ nk r k. refl;
    after = λ nk r k. ground arith;
  }

  pub run-Inv :
      (es : List (Event D)) (h : ℕ) (w : World D)
      → Inv h w
      → w.inner.last_commit + length es < u64_mod
      → (k : ℕ) × Inv k (run w es)
  unfolding run
  run-Inv [] h w inv room = (h, inv)
  run-Inv (e ∷ es) h w inv room =
      let (k, inv', used) = step-Steps h w inv (omega arith) e in
      run-Inv es k (step w e) inv' (omega arith)
