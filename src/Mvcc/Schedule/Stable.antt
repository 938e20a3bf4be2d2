-- ===== src/Mvcc/Schedule/Stable.antt =====
-- A transaction sees one state for as long as its snapshot is pinned; a pin that comes too late does
-- not protect it.
use voltra.Prelude.{
  ℕ, ◌+◌, ◌≤◌, ◌<◌, ◌≡◌, refl, sym, ap, ◌∙◌, none, List, [], ◌∷◌, ◌++◌, arith, length, Bool-cases,
  inl, inr, length-append, eq_refl,
}
use voltra.Mvcc.Chain.{visible_at, push, prune}
use voltra.Mvcc.Chain.Prune.{visible_at-push_twice}
use voltra.Mvcc.Store.Effects.{chain_of, op_version, chain_of-apply_op, frame-apply_ops}
use voltra.Mvcc.Store.{
  Bytes, NsKey, Eq-NsKey, Inner, WriteOp, put, u64_mod, get_at, insert_pin, min_active_snapshot,
  apply_ops, first_key,
}
use voltra.Mvcc.Sequencer.{
  apply, commit, save, barrier, handle, open_group, commit_staged, commit_ops, next_ts,
  has_conflict,
}
use voltra.Mvcc.Writer
use voltra.Mvcc.Gc.{gc_sweep}
use voltra.Mvcc.Chain.{shown, unexpired}
use voltra.Mvcc.Store.{drop_guard, pin_snapshot}
use voltra.Mvcc.Schedule.{
  Event, World, open_turn, next_batch, pin, unpin, sample_floor, sweep, step, run, boot, logged_at,
}
use voltra.Mvcc.Schedule.Invariant.{boot-Inv, run-Inv}
use voltra.Mvcc.Schedule.Snapshots.{get_at-shown, Pinned, snapshot_reads}
use voltra.Mvcc.Store.Pins.{Within-lookup}

module _ {D : Type 0} where
  -- The log below a timestamp stays as it is, and the timestamp is used up by one at most.
  abbrev Extends : ℕ → NsKey → World D → World D → Type 0
  Extends r nk w w' =
      (logged_at r nk w'.log ≡ logged_at r nk w.log)
      × (r ≤ w'.inner.last_commit)
      × (w'.inner.last_commit ≤ w.inner.last_commit + 1)

  module _ (r : ℕ) (nk : NsKey) (w : World D) (old : r ≤ w.inner.last_commit)
      (room : w.inner.last_commit + 1 < u64_mod) where
    commit_staged-Extends :
        (ops : List (WriteOp D))
        → let g = commit_staged w.seq_floor ops (open_group w.inner) in
          Extends r nk w (record w { inner = g.inner; log = g.records ++ w.log })
    unfolding commit_staged next_ts commit_ops
    commit_staged-Extends [] = (refl, old, omega arith)
    commit_staged-Extends (op ∷ ops) = (ground arith, omega arith, omega arith)

    step-Extends : (e : Event D) → Extends r nk w (step w e)
    unfolding step handle pin_snapshot drop_guard gc_sweep
    step-Extends open_turn = (refl, old, omega arith)
    step-Extends (next_batch (apply f now callback)) =
        commit_staged-Extends (Writer.run f (Writer.start now w.inner)).staged
    step-Extends (next_batch (commit req)) = elim (Bool-cases (has_conflict req w.inner)) [
      | inl e ↦ rw (e, handle) (refl, old, omega arith)
      | inr e ↦ rw (e, handle) (commit_staged-Extends req.writes)
    ]
    step-Extends (next_batch (save tx)) = (refl, old, omega arith)
    step-Extends (next_batch (barrier tx)) = (refl, old, omega arith)
    step-Extends pin = (refl, old, omega arith)
    step-Extends (unpin ts) = (refl, old, omega arith)
    step-Extends sample_floor = (refl, old, omega arith)
    step-Extends sweep = (refl, old, omega arith)

  logged_at-run :
      (es : List (Event D)) (r : ℕ) (nk : NsKey) (w : World D)
      → r ≤ w.inner.last_commit
      → w.inner.last_commit + length es < u64_mod
      → logged_at r nk (run w es).log ≡ logged_at r nk w.log
  unfolding run
  logged_at-run [] r nk w old room = refl
  logged_at-run (e ∷ es) r nk w old room =
      let s = step-Extends r nk w old (omega arith) e in
      logged_at-run es r nk (step w e) s.1 (omega (arith, s.2)) ∙ s.0

  run-append : (es fs : List (Event D)) (w : World D) → run w (es ++ fs) ≡ run (run w es) fs
  unfolding run
  run-append [] fs w = refl
  run-append (e ∷ es) fs w = run-append es fs (step w e)

  last_commit-run :
      (es : List (Event D)) (nk : NsKey) (w : World D)
      → w.inner.last_commit + length es < u64_mod
      → (run w es).inner.last_commit ≤ w.inner.last_commit + length es
  unfolding run
  last_commit-run [] nk w room = omega arith
  last_commit-run (e ∷ es) nk w room =
      let s = step-Extends 0 nk w (omega arith) (omega arith) e in
      omega (arith, s.2, last_commit-run es nk (step w e) (omega (arith, s.2)))

  -- In a run of fewer than 2 ^ 64 events, a key that is read at a pinned timestamp reads the same, by
  -- the same clock, at any later point at which that timestamp is pinned.
  pub repeatable_read :
      (es fs : List (Event D)) (ns : ℕ) (key : Bytes) (r now : ℕ)
      → length es + length fs < u64_mod
      → Pinned r (run boot es)
      → Pinned r (run boot (es ++ fs))
      → get_at ns key r now (run boot (es ++ fs)).inner ≡ get_at ns key r now (run boot es).inner
  repeatable_read es fs ns key r now room before later =
      let nk : NsKey = record { ns = ns; key = key } in
      let (h, inv) = run-Inv es 0 boot boot-Inv (omega arith) in
      let pinned_le = (Within-lookup h _ r _ inv.pins before).1 in
      let used = last_commit-run es nk boot (omega arith) in
      let same = logged_at-run fs r nk (run boot es) pinned_le (omega arith) in
      snapshot_reads (es ++ fs) ns key r now (omega (arith, length-append es fs)) later
      ∙ ap (λ (w : World D). unexpired now (shown (logged_at r nk w.log))) (run-append es fs boot)
      ∙ ap (λ v. unexpired now (shown v)) same
      ∙ sym (snapshot_reads es ns key r now (omega arith) before)

  chain_of-put :
      (ns : ℕ) (key : Bytes) (a : D) (ts m : ℕ) (inner : Inner D)
      → let nk : NsKey = record { ns = ns; key = key } in
        chain_of nk (commit_ops (put ns key a none ∷ []) ts m inner)
        ≡ prune m (push (op_version ts (put ns key a none)) (chain_of nk inner))
  unfolding commit_ops apply_ops
  chain_of-put ns key a ts m inner =
      let nk : NsKey = record { ns = ns; key = key } in
      rw (chain_of-apply_op ts m (put ns key a none) nk inner) (rw (eq_refl nk))

  floor_unpinned :
      (inner : Inner D)
      → inner.active_snapshots ≡ []
      → min_active_snapshot inner ≡ inner.last_commit
  unfolding min_active_snapshot first_key
  floor_unpinned inner e = rw (e, min_active_snapshot)

  -- A commit without pins: the floor is then its own timestamp.
  commit-unpinned :
      (ops : List (WriteOp D)) (ts m : ℕ) (inner : Inner D)
      → inner.active_snapshots ≡ []
      → (min_active_snapshot (commit_ops ops ts m inner) ≡ ts)
        × ((commit_ops ops ts m inner).last_commit ≡ ts)
  unfolding commit_ops
  commit-unpinned ops ts m inner e =
      (floor_unpinned _ ((frame-apply_ops ops ts m inner).0 ∙ e), refl)

  put_twice_hides :
      (inner : Inner D) (ns : ℕ) (key : Bytes) (a b : D) (r m m' ts ts' : ℕ)
      → r < ts
      → m < ts
      → ts ≤ m'
      → m' < ts'
      → let once = commit_ops (put ns key a none ∷ []) ts m inner in
        visible_at r (
          chain_of
            (record { ns = ns; key = key })
            (commit_ops (put ns key b none ∷ []) ts' m' once))
        ≡ none
  put_twice_hides inner ns key a b r m m' ts ts' h i j k =
      rw (chain_of-put ns key b ts' m' _)
        (rw (chain_of-put ns key a ts m inner) (visible_at-push_twice r m' m _ _ _ h k j i))

  -- While nothing is pinned, two commits that put the same key, each with the floor sampled before it,
  -- may fall between the load of the timestamp and its insertion in `pin_snapshot`. The snapshot then
  -- reads nothing under that key, whatever stood there (the last commit being below 2 ^ 64 - 2).
  pub late_pin_unprotected :
      (inner : Inner D) (ns : ℕ) (key : Bytes) (a b : D) (now : ℕ)
      → inner.active_snapshots ≡ []
      → inner.last_commit + 2 < u64_mod
      → let first_put : WriteOp D = put ns key a none in
        let once = commit_ops (first_put ∷ []) (next_ts inner) (min_active_snapshot inner) inner in
        let twice =
          commit_ops (put ns key b none ∷ []) (next_ts once) (min_active_snapshot once) once in
        get_at ns key inner.last_commit now (insert_pin inner.last_commit twice) ≡ none
  unfolding insert_pin next_ts
  late_pin_unprotected inner ns key a b now none_pinned room =
      let m = min_active_snapshot inner in
      let once = commit_ops (put ns key a none ∷ []) (next_ts inner) m inner in
      let still = commit-unpinned (put ns key a none ∷ []) (next_ts inner) m inner none_pinned in
      let floor = floor_unpinned inner none_pinned in
      get_at-shown ns key inner.last_commit now _
      ∙ ap (λ v. unexpired now (shown v))
          (put_twice_hides inner ns key a b inner.last_commit _ _ _ _ (omega arith)
            (omega (arith, floor)) (omega (arith, still)) (omega (arith, still)))
