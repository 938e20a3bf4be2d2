-- ===== src/Mvcc/Gc/Sweep.antt =====
-- What the sweep of `gc_loop` leaves of each chain.
use voltra.Prelude.{
  ℕ, ◌≤◌, ◌≡◌, refl, ap, ◌∙◌, Option, none, some, List, [], ◌∷◌, arith, ltb, if◌then◌else◌,
  Bool-cases, inl, inr,
}
use voltra.Prelude.Map.{Map, lookup, Distinct}
use voltra.Mvcc.Chain.{Version, Chain, first, visible_at, head_ts, prune, shown}
use voltra.Mvcc.Chain.Prune.{visible_at-prune, first-prune}
use voltra.Mvcc.Store.{NsKey, key_eq_iff, Eq-NsKey, Inner, or_default}
use voltra.Mvcc.Store.Effects.{chain_of}
use voltra.Mvcc.Store.Books.{live_in, weight}
use voltra.Mvcc.Gc.{keeps, sweep_chains, gc_sweep}

module _ {D : Type 0} where
  abbrev swept : ℕ → Option (Chain D) → Option (Chain D)
  swept m none = none
  swept m (some c) = if keeps m (prune m c) then some (prune m c) else none

  lookup-sweep_chains :
      (m : ℕ) (nk : NsKey) (chains : Map NsKey (Chain D))
      → Distinct chains
      → lookup nk (sweep_chains m chains) ≡ swept m (lookup nk chains)
  unfolding sweep_chains lookup
  lookup-sweep_chains m nk [] d = refl
  lookup-sweep_chains m nk ((j, c) ∷ chains) d =
      ground (arith, lookup-sweep_chains m nk chains d.1, key_eq_iff j nk)

  pub sweep_chains-Distinct :
      (m : ℕ) (chains : Map NsKey (Chain D)) → Distinct chains → Distinct (sweep_chains m chains)
  unfolding sweep_chains
  sweep_chains-Distinct m [] d = tt
  sweep_chains-Distinct m ((j, c) ∷ chains) d =
      ground (arith, sweep_chains-Distinct m chains d.1, lookup-sweep_chains m j chains d.1)

  -- A dropped chain shows nothing to a snapshot at or above the bound.
  shown-dropped :
      (m r : ℕ) (vs : List (Version D))
      → m ≤ r
      → let p : Chain D = record { versions = vs } in
        shown (visible_at r (or_default (if keeps m p then some p else none)))
        ≡ shown (visible_at r p)
  unfolding keeps visible_at
  shown-dropped m r [] h = refl
  shown-dropped m r (v ∷ vs) h = ground arith

  -- Nor does dropping it hide a write above the bound.
  after-dropped :
      (m r : ℕ) (vs : List (Version D))
      → m ≤ r
      → let p : Chain D = record { versions = vs } in
        ltb r (head_ts (or_default (if keeps m p then some p else none))) ≡ ltb r (head_ts p)
  unfolding keeps head_ts
  after-dropped m r [] h = refl
  after-dropped m r (v ∷ vs) h = ground arith

  shown-swept :
      (m r : ℕ) (o : Option (Chain D))
      → m ≤ r
      → shown (visible_at r (or_default (swept m o))) ≡ shown (visible_at r (or_default o))
  shown-swept m r none h = refl
  shown-swept m r (some c) h =
      shown-dropped m r (prune m c).versions h ∙ ap shown (visible_at-prune m r c h)

  head_ts-prune : (m : ℕ) (c : Chain D) → head_ts (prune m c) ≡ head_ts c
  unfolding head_ts
  head_ts-prune m c = ground (arith, first-prune m c)

  after-swept :
      (m r : ℕ) (o : Option (Chain D))
      → m ≤ r
      → ltb r (head_ts (or_default (swept m o))) ≡ ltb r (head_ts (or_default o))
  after-swept m r none h = refl
  after-swept m r (some c) h =
      after-dropped m r (prune m c).versions h ∙ ap (ltb r) (head_ts-prune m c)

  pub shown-gc_sweep :
      (m r : ℕ) (nk : NsKey) (inner : Inner D)
      → Distinct inner.chains
      → m ≤ r
      → shown (visible_at r (chain_of nk (gc_sweep m inner)))
        ≡ shown (visible_at r (chain_of nk inner))
  unfolding gc_sweep
  shown-gc_sweep m r nk inner d h =
      rw (lookup-sweep_chains m nk inner.chains d) (shown-swept m r (lookup nk inner.chains) h)

  pub after-gc_sweep :
      (m r : ℕ) (nk : NsKey) (inner : Inner D)
      → Distinct inner.chains
      → m ≤ r
      → ltb r (head_ts (chain_of nk (gc_sweep m inner))) ≡ ltb r (head_ts (chain_of nk inner))
  unfolding gc_sweep
  after-gc_sweep m r nk inner d h =
      rw (lookup-sweep_chains m nk inner.chains d) (after-swept m r (lookup nk inner.chains) h)

  head_ts-swept :
      (m : ℕ) (o : Option (Chain D)) → head_ts (or_default (swept m o)) ≤ head_ts (or_default o)
  head_ts-swept m none = omega arith
  head_ts-swept m (some c) = elim (Bool-cases (keeps m (prune m c))) [
    | inl e ↦ rw e (omega (arith, head_ts-prune m c))
    | inr e ↦ rw e (unfold head_ts in omega arith)
  ]

  pub head_ts-gc_sweep :
      (m : ℕ) (nk : NsKey) (inner : Inner D)
      → Distinct inner.chains
      → head_ts (chain_of nk (gc_sweep m inner)) ≤ head_ts (chain_of nk inner)
  unfolding gc_sweep
  head_ts-gc_sweep m nk inner d =
      rw (lookup-sweep_chains m nk inner.chains d) (head_ts-swept m (lookup nk inner.chains))

  -- The newest version shows the same, whatever the bound.
  head-swept :
      (m : ℕ) (o : Option (Chain D))
      → shown (first (or_default (swept m o))) ≡ shown (first (or_default o))
  unfolding keeps
  head-swept m none = refl
  head-swept m (some c) = ground (arith, first-prune m c)

  pub head-gc_sweep :
      (m : ℕ) (nk : NsKey) (inner : Inner D)
      → Distinct inner.chains
      → shown (first (chain_of nk (gc_sweep m inner))) ≡ shown (first (chain_of nk inner))
  unfolding gc_sweep
  head-gc_sweep m nk inner d =
      rw (lookup-sweep_chains m nk inner.chains d) (head-swept m (lookup nk inner.chains))

  pub live_in-sweep_chains :
      (ns m : ℕ) (chains : Map NsKey (Chain D))
      → live_in ns (sweep_chains m chains) ≡ live_in ns chains
  unfolding sweep_chains live_in weight keeps
  live_in-sweep_chains ns m [] = refl
  live_in-sweep_chains ns m ((j, c) ∷ chains) =
      ground (arith, live_in-sweep_chains ns m chains, first-prune m c)
