-- ===== src/Mvcc/Schedule/Books.antt =====
-- DBSIZE and the TTL index are exact at every point of every schedule.
use voltra.Prelude.{
  ℕ, ◌^◌, ◌≤◌, ◌<◌, ◌≡◌, refl, ap, sym, ◌∙◌, List, [], ◌∷◌, arith, length, Bool-cases, inl, inr,
  Option-cases,
}
use voltra.Prelude.Map.{lookup, Distinct}
use voltra.Mvcc.Chain.{first, head_ts, shown}
use voltra.Mvcc.Chain.Prune.{visible_at-first}
use voltra.Mvcc.Store.{
  Bytes, NsKey, Eq-NsKey, Inner, WriteOp, u64_mod, ns_len, get_expiry, insert_pin, pin_snapshot,
  drop_guard,
}
use voltra.Mvcc.Store.Effects.{chain_of, apply_ops-Distinct}
use voltra.Mvcc.Store.Books.{live_in, Counted, Timed, expiry_of, apply_ops-Counted, apply_ops-Timed}
use voltra.Mvcc.Gc.{gc_sweep}
use voltra.Mvcc.Gc.Sweep.{sweep_chains-Distinct, live_in-sweep_chains, head-gc_sweep}
use voltra.Mvcc.Sequencer.{
  apply, commit, save, barrier, handle, open_group, commit_staged, commit_ops, has_conflict,
}
use voltra.Mvcc.Writer
use voltra.Mvcc.Schedule.{
  Event, World, open_turn, next_batch, pin, unpin, sample_floor, sweep, step, run, boot,
}
use voltra.Mvcc.Schedule.Invariant.{boot-Inv, run-Inv}

-- What every change of the store keeps, every schedule keeps.
module _ {D : Type 0} (P : Inner D → Type 0)
    (on_commit : (ops : List (WriteOp D)) (ts m : ℕ) (inner : Inner D)
      → P inner
      → P (commit_ops ops ts m inner))
    (on_pin : (ts : ℕ) (inner : Inner D) → P inner → P (insert_pin ts inner))
    (on_unpin : (ts : ℕ) (inner : Inner D) → P inner → P (drop_guard ts inner))
    (on_sweep : (m : ℕ) (inner : Inner D) → P inner → P (gc_sweep m inner)) where
  commit_staged_keeps :
      (m : ℕ) (ops : List (WriteOp D)) (inner : Inner D)
      → P inner
      → P (commit_staged m ops (open_group inner)).inner
  unfolding commit_staged
  commit_staged_keeps m [] inner p = p
  commit_staged_keeps m (op ∷ ops) inner p = on_commit (op ∷ ops) _ m inner p

  step_keeps : (e : Event D) (w : World D) → P w.inner → P (step w e).inner
  unfolding step handle pin_snapshot
  step_keeps open_turn w p = p
  step_keeps (next_batch (apply f now callback)) w p =
      commit_staged_keeps w.seq_floor (Writer.run f (Writer.start now w.inner)).staged w.inner p
  step_keeps (next_batch (commit req)) w p = elim (Bool-cases (has_conflict req w.inner)) [
    | inl e ↦ rw (e, handle) p
    | inr e ↦ rw (e, handle) (commit_staged_keeps w.seq_floor req.writes w.inner p)
  ]
  step_keeps (next_batch (save tx)) w p = p
  step_keeps (next_batch (barrier tx)) w p = p
  step_keeps pin w p = on_pin w.inner.last_commit w.inner p
  step_keeps (unpin ts) w p = on_unpin ts w.inner p
  step_keeps sample_floor w p = p
  step_keeps sweep w p = on_sweep w.gc_floor w.inner p

  pub run_keeps : (es : List (Event D)) (w : World D) → P w.inner → P (run w es).inner
  unfolding run
  run_keeps [] w p = p
  run_keeps (e ∷ es) w p = run_keeps es (step w e) (step_keeps e w p)

module _ {D : Type 0} where
  abbrev Kept : Inner D → Type 0
  Kept inner = Distinct inner.chains × Counted inner × Timed inner

  run-Kept : (es : List (Event D)) → Kept (run boot es).inner
  run-Kept es =
      run_keeps Kept on_commit on_pin on_unpin on_sweep es boot
        (tt, unfold lookup live_in in λ ns. refl, unfold lookup in λ nk. refl)
    where
      on_commit :
          (ops : List (WriteOp D)) (ts m : ℕ) (inner : Inner D)
          → Kept inner
          → Kept (commit_ops ops ts m inner)
      on_commit ops ts m inner k =
          unfold commit_ops in
          (
            apply_ops-Distinct ops ts m inner k.0,
            apply_ops-Counted ops ts m inner k.1,
            apply_ops-Timed ops ts m inner k.2,
          )

      on_pin : (ts : ℕ) (inner : Inner D) → Kept inner → Kept (insert_pin ts inner)
      on_pin ts inner k = unfold insert_pin in k

      on_unpin : (ts : ℕ) (inner : Inner D) → Kept inner → Kept (drop_guard ts inner)
      on_unpin ts inner k = unfold drop_guard in k

      on_sweep : (m : ℕ) (inner : Inner D) → Kept inner → Kept (gc_sweep m inner)
      on_sweep m inner k =
          unfold gc_sweep in
          (
            sweep_chains-Distinct m inner.chains k.0,
            λ ns. rw (live_in-sweep_chains ns m inner.chains) (k.1 ns),
            λ nk. k.2 nk ∙ ap expiry_of (sym (head-gc_sweep m nk inner k.0)),
          )

  -- However the store has run, `ns_len` of a namespace is the number of its keys whose newest version
  -- holds a value, if that number is below 2 ^ 63.
  pub dbsize_exact :
      (es : List (Event D)) (ns : ℕ)
      → live_in ns (run boot es).inner.chains < 2 ^ 63
      → ns_len ns (run boot es).inner ≡ live_in ns (run boot es).inner.chains
  unfolding ns_len
  dbsize_exact es ns small = ground (arith, (run-Kept es).1 ns)

  get_expiry-first :
      (ns : ℕ) (key : Bytes) (inner : Inner D)
      → head_ts (chain_of (record { ns = ns; key = key }) inner) ≤ inner.last_commit
      → get_expiry ns key inner
        ≡ expiry_of (shown (first (chain_of (record { ns = ns; key = key }) inner)))
  unfolding get_expiry
  get_expiry-first ns key inner h =
      elim (Option-cases (lookup (record { ns = ns; key = key }) inner.chains)) [
        | inl e ↦ rw (e, get_expiry)
        | inr (c, e) ↦
            rw (e, get_expiry)
              (rw (visible_at-first inner.last_commit c (rw e at h)) (ground arith))
      ]

  -- However the store has run, for fewer than 2 ^ 64 events, the TTL index that drives active expiry
  -- holds for each key exactly the expiry that a reader is told.
  pub ttl_index_exact :
      (es : List (Event D)) (ns : ℕ) (key : Bytes)
      → length es < u64_mod
      → lookup (record { ns = ns; key = key }) (run boot es).inner.ttl_index
        ≡ get_expiry ns key (run boot es).inner
  ttl_index_exact es ns key room =
      let (h, inv) = run-Inv es 0 boot boot-Inv (omega arith) in
      let nk : NsKey = record { ns = ns; key = key } in
      (run-Kept es).2 nk ∙ sym (get_expiry-first ns key (run boot es).inner (inv.heads nk))
