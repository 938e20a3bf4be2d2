-- ===== src/Mvcc/Writer/Commit.antt =====
-- What a closure has read last is what its commit leaves.
use voltra.Prelude.{ℕ, ◌≤◌, ◌≡◌, ap, sym, ◌∙◌, arith}
use voltra.Mvcc.Chain.{head_ts, shown, unexpired}
use voltra.Mvcc.Chain.Prune.{visible_at-first}
use voltra.Mvcc.Store
use voltra.Mvcc.Store.{Bytes, NsKey, Inner}
use voltra.Mvcc.Store.Effects.{chain_of, head_ts-apply_ops, first-apply_ops}
use voltra.Mvcc.Writer
use voltra.Mvcc.Writer.{Prog, start, run}
use voltra.Mvcc.Writer.Overlay.{run-Overlaid, start-Overlaid, get-value}
use voltra.Mvcc.Sequencer.{commit_ops}
use voltra.Mvcc.Schedule.Snapshots.{get_at-shown}

module _ {D : Type 0} where
  -- Whatever a closure does, a `get` at its end returns what a reader gets, by the same clock, once
  -- the staged effects are committed at a timestamp that no version of the key exceeds.
  pub read_your_writes :
      (f : Prog D) (now ts m ns : ℕ) (key : Bytes) (inner : Inner D)
      → head_ts (chain_of (record { ns = ns; key = key }) inner) ≤ ts
      → let w = run f (start now inner) in
        (Writer.get ns key w).0 ≡ Store.get ns key now (commit_ops w.staged ts m inner)
  unfolding commit_ops Store.get
  read_your_writes f now ts m ns key inner h =
      let nk : NsKey = record { ns = ns; key = key } in
      let w = run f (start now inner) in
      let o = run-Overlaid now inner f (start now inner) (start-Overlaid now inner) in
      let below : head_ts (chain_of nk (commit_ops w.staged ts m inner)) ≤ ts =
        rw (head_ts-apply_ops w.staged ts m nk inner) (ground arith) in
      get-value now inner ns key ts w o
      ∙ ap (λ v. unexpired now (shown v)) (sym (first-apply_ops w.staged ts m nk inner))
      ∙ ap (λ v. unexpired now (shown v)) (sym (visible_at-first ts _ below))
      ∙ sym (get_at-shown ns key ts now (commit_ops w.staged ts m inner))
