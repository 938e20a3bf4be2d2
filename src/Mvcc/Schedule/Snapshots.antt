-- ===== src/Mvcc/Schedule/Snapshots.antt =====
-- What the store promises to its transactions, read off the log of commits.
use voltra.Prelude.{
  ℕ, ◌≤◌, ◌<◌, ◌≡◌, refl, ap, ◌∙◌, true, List, [], ◌∷◌, arith, any, ltb, is_some, length, Eq-nat,
  inl, inr, Option-cases,
}
use voltra.Prelude.Map.{lookup}
use voltra.Mvcc.Chain.{visible_at, head_ts}
use voltra.Mvcc.Store.{Bytes, NsKey, Eq-NsKey, Inner, or_default, u64_mod, get_at}
use voltra.Mvcc.Store.Effects.{chain_of}
use voltra.Mvcc.Store.Pins.{Within-lookup}
use voltra.Mvcc.Chain.{shown, unexpired}
use voltra.Mvcc.Sequencer.{CommitRequest, has_conflict}
use voltra.Mvcc.Schedule.{Event, World, run, boot, logged_at, written_after}
use voltra.Mvcc.Schedule.Invariant.{Inv, boot-Inv, run-Inv}

module _ {D : Type 0} where
  pub get_at-shown :
      (ns : ℕ) (key : Bytes) (r now : ℕ) (inner : Inner D)
      → get_at ns key r now inner
        ≡ unexpired now (shown (visible_at r (chain_of (record { ns = ns; key = key }) inner)))
  unfolding get_at visible_at
  get_at-shown ns key r now inner =
      elim (Option-cases (lookup (record { ns = ns; key = key }) inner.chains)) [
        | inl e ↦ rw (e, get_at)
        | inr (c, e) ↦ rw (e, get_at) (ground arith)
      ]

  abbrev pub Pinned : ℕ → World D → Type 0
  Pinned r w = is_some (lookup r w.inner.active_snapshots) ≡ true

  -- In a run of fewer than 2 ^ 64 events from an empty store, with commits, collections, pins and
  -- drops interleaved in any order and a pin being one event, a read at a pinned timestamp returns
  -- what the last commit up to that timestamp wrote to the key, unless it has expired.
  pub snapshot_reads :
      (es : List (Event D)) (ns : ℕ) (key : Bytes) (r now : ℕ)
      → length es < u64_mod
      → Pinned r (run boot es)
      → get_at ns key r now (run boot es).inner
        ≡ unexpired now (shown (logged_at r (record { ns = ns; key = key }) (run boot es).log))
  snapshot_reads es ns key r now room pin =
      let (h, inv) = run-Inv es 0 boot boot-Inv (omega arith) in
      let above = Within-lookup h _ r _ inv.pins pin in
      get_at-shown ns key r now _
      ∙ ap (unexpired now) (inv.agree (record { ns = ns; key = key }) r above.0)

  any-written :
      (h r : ℕ) (w : World D) (nks : List NsKey)
      → Inv h w
      → h ≤ r
      → any (λ nk. ltb r (head_ts (or_default (lookup nk w.inner.chains)))) nks
        ≡ any (λ nk. written_after r nk w.log) nks
  any-written h r w [] inv k = refl
  any-written h r w (nk ∷ nks) inv k = ground (arith, inv.after nk r k, any-written h r w nks inv k)

  -- In such a run, the conflict test of a request whose read timestamp is pinned holds exactly if a
  -- commit after that timestamp wrote one of its keys: no conflict is missed, and none is invented.
  pub conflict_exact :
      (es : List (Event D)) (req : CommitRequest D)
      → length es < u64_mod
      → Pinned req.read_ts (run boot es)
      → has_conflict req (run boot es).inner
        ≡ any (λ nk. written_after req.read_ts nk (run boot es).log) req.conflict_keys
  unfolding has_conflict
  conflict_exact es req room pin =
      let (h, inv) = run-Inv es 0 boot boot-Inv (omega arith) in
      any-written h req.read_ts _ req.conflict_keys inv (Within-lookup h _ _ _ inv.pins pin).0
