-- ===== src/Mvcc/Gc.antt =====
-- src/mvcc/mod.rs: `gc_loop`, the active expiry and the sweep of dead versions.
pub mod Sweep
use voltra.Prelude.{
  ℕ, ◌&&◌, Bool, true, false, not, Option, none, some, List, [], ◌∷◌, leb, is_some, take, map,
  if◌then◌else◌,
}
use voltra.Prelude.Map.{Map}
use voltra.Mvcc.Chain.{Version, Chain, first, prune, expired}
use voltra.Mvcc.Store.{NsKey, Inner}
use voltra.Mvcc.Writer.{Prog, finish, do_clock, do_get_expiry, do_del}

expired_keys : ℕ → Map NsKey ℕ → List NsKey
expired_keys now [] = []
expired_keys now ((nk, e) ∷ m) =
    let rest = expired_keys now m in if leb e now then nk ∷ rest else rest

-- The keys that a round of active expiry samples, 1000 at most.
unfoldable pub sample_expired : {D : Type 0} → ℕ → Inner D → List NsKey
unfolding expired_keys
sample_expired now inner = take 1000 (expired_keys now inner.ttl_index)

-- The closure that it sends: each key is checked again on the sequencer.
unfoldable pub reap : {D : Type 0} → List NsKey → Prog D
reap [] = finish
reap (nk ∷ nks) =
    let rest = reap nks in
    do_get_expiry nk.ns nk.key
      λ exp. do_clock λ now. if expired exp now then do_del nk.ns nk.key (λ _. rest) else rest

module _ {D : Type 0} where
  -- Whether the sweep keeps a chain that it has pruned.
  unfoldable pub keeps : ℕ → Chain D → Bool
  keeps min_active c = elim (first c) [
    | none ↦ false
    | some head ↦ not (not (is_some head.value) && leb head.commit_ts min_active)
  ]

  unfoldable pub sweep_chains : ℕ → Map NsKey (Chain D) → Map NsKey (Chain D)
  unfolding keeps
  sweep_chains min_active [] = []
  sweep_chains min_active ((nk, c) ∷ m) =
      let rest = sweep_chains min_active m in
      let pruned = prune min_active c in
      if keeps min_active pruned then (nk, pruned) ∷ rest else rest

  unfoldable pub gc_sweep : ℕ → Inner D → Inner D
  unfolding sweep_chains
  gc_sweep min_active inner = record inner { chains = sweep_chains min_active inner.chains }
