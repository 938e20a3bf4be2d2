-- ===== src/Mvcc/Store/Effects.antt =====
-- What `apply_ops` does to the chain of each key, and what a snapshot then sees.
use voltra.Prelude.{
  ℕ, ◌≤◌, ◌≡◌, refl, ◌∙◌, Option, none, some, List, [], ◌∷◌, arith, leb, if◌then◌else◌, ◌==◌,
}
use voltra.Prelude.Map.{lookup, lookup-insert, Distinct, insert-Distinct}
use voltra.Mvcc.Chain.{Version, Chain, first, visible_at, head_ts, prune, push}
use voltra.Mvcc.Chain.Prune.{visible_at-prune, first-prune}
use voltra.Mvcc.Store.{
  NsKey, key_eq_iff, Eq-NsKey, WriteOp, put, del, Inner, or_default, bump_count, push_version,
  set_ttl, apply_op, apply_ops,
}

module _ {D : Type 0} where
  abbrev pub chain_of : NsKey → Inner D → Chain D
  chain_of nk inner = or_default (lookup nk inner.chains)

  abbrev pub op_key : WriteOp D → NsKey
  op_key (put ns key value exp) = record { ns = ns; key = key }
  op_key (del ns key) = record { ns = ns; key = key }

  -- The version that an effect committed at `ts` leaves.
  abbrev pub op_version : ℕ → WriteOp D → Version D
  op_version ts (put ns key value exp) = record {
    commit_ts = ts;
    value = some value;
    expires_at_ms = exp;
  }
  op_version ts (del ns key) = record { commit_ts = ts; value = none; expires_at_ms = none }

  chains-apply_op :
      (ts m : ℕ) (op : WriteOp D) (inner : Inner D)
      → (apply_op ts m op inner).chains
        ≡ (push_version (op_key op) (op_version ts op) m inner).chains
  unfolding apply_op set_ttl bump_count
  chains-apply_op ts m (put ns key value exp) inner = ground arith
  chains-apply_op ts m (del ns key) inner = ground arith

  pub chain_of-apply_op :
      (ts m : ℕ) (op : WriteOp D) (nk : NsKey) (inner : Inner D)
      → chain_of nk (apply_op ts m op inner) ≡ (
          if op_key op == nk
          then prune m (push (op_version ts op) (chain_of nk inner))
          else chain_of nk inner)
  chain_of-apply_op ts m op nk inner =
      rw (chains-apply_op ts m op inner)
        (unfold push_version in rw lookup-insert (ground (arith, key_eq_iff (op_key op) nk)))

  -- The last of the effects that write `nk`, as the version that it leaves.
  abbrev pub last_write : NsKey → ℕ → List (WriteOp D) → Option (Version D)
  last_write nk ts [] = none
  last_write nk ts (op ∷ ops) = elim (last_write nk ts ops) [
    | some v ↦ some v
    | none ↦ if op_key op == nk then some (op_version ts op) else none
  ]

  abbrev pub or_else : Option (Version D) → Option (Version D) → Option (Version D)
  or_else none w = w
  or_else (some v) w = some v

  visible_at-push :
      (r : ℕ) (v : Version D) (c : Chain D)
      → visible_at r (push v c) ≡ (if leb v.commit_ts r then some v else visible_at r c)
  unfolding visible_at
  visible_at-push r v c = ground arith

  commit_ts-op_version : (ts : ℕ) (op : WriteOp D) → (op_version ts op).commit_ts ≡ ts
  commit_ts-op_version ts (put ns key value exp) = refl
  commit_ts-op_version ts (del ns key) = refl

  visible_at-apply_op :
      (ts m r : ℕ) (op : WriteOp D) (nk : NsKey) (inner : Inner D)
      → m ≤ r
      → visible_at r (chain_of nk (apply_op ts m op inner)) ≡ (
          if leb ts r
          then (if op_key op == nk
              then some (op_version ts op)
              else visible_at r (chain_of nk inner))
          else visible_at r (chain_of nk inner))
  visible_at-apply_op ts m r op nk inner h = ground (
    arith,
    chain_of-apply_op ts m op nk inner,
    visible_at-prune m r (push (op_version ts op) (chain_of nk inner)) h,
    visible_at-push r (op_version ts op) (chain_of nk inner),
    commit_ts-op_version ts op,
  )

  pub visible_at-apply_ops :
      (ops : List (WriteOp D)) (ts m r : ℕ) (nk : NsKey) (inner : Inner D)
      → m ≤ r
      → visible_at r (chain_of nk (apply_ops ops ts m inner)) ≡ (
          if leb ts r
          then or_else (last_write nk ts ops) (visible_at r (chain_of nk inner))
          else visible_at r (chain_of nk inner))
  unfolding apply_ops
  visible_at-apply_ops [] ts m r nk inner h = ground arith
  visible_at-apply_ops (op ∷ ops) ts m r nk inner h = ground (
    arith,
    visible_at-apply_ops ops ts m r nk (apply_op ts m op inner) h,
    visible_at-apply_op ts m r op nk inner h,
  )

  -- The newest timestamp of a chain after the effects.
  abbrev pub head_after : ℕ → Option (Version D) → ℕ → ℕ
  head_after ts none old = old
  head_after ts (some v) old = ts

  head_ts-apply_op :
      (ts m : ℕ) (op : WriteOp D) (nk : NsKey) (inner : Inner D)
      → head_ts (chain_of nk (apply_op ts m op inner))
        ≡ (if op_key op == nk then ts else head_ts (chain_of nk inner))
  unfolding head_ts
  head_ts-apply_op ts m op nk inner = rw (chain_of-apply_op ts m op nk inner) (
      ground (
        arith,
        first-prune m (push (op_version ts op) (chain_of nk inner)),
        commit_ts-op_version ts op,
      ))

  pub head_ts-apply_ops :
      (ops : List (WriteOp D)) (ts m : ℕ) (nk : NsKey) (inner : Inner D)
      → head_ts (chain_of nk (apply_ops ops ts m inner))
        ≡ head_after ts (last_write nk ts ops) (head_ts (chain_of nk inner))
  unfolding apply_ops
  head_ts-apply_ops [] ts m nk inner = refl
  head_ts-apply_ops (op ∷ ops) ts m nk inner = ground (
    arith,
    head_ts-apply_ops ops ts m nk (apply_op ts m op inner),
    head_ts-apply_op ts m op nk inner,
  )

  -- The effects touch neither the pins nor the last timestamp, and keep the keys distinct.
  pub frame-apply_op :
      (ts m : ℕ) (op : WriteOp D) (inner : Inner D)
      → ((apply_op ts m op inner).active_snapshots ≡ inner.active_snapshots)
        × ((apply_op ts m op inner).last_commit ≡ inner.last_commit)
  unfolding apply_op set_ttl bump_count push_version
  frame-apply_op ts m (put ns key value none) inner = ground arith
  frame-apply_op ts m (put ns key value (some e)) inner = ground arith
  frame-apply_op ts m (del ns key) inner = ground arith

  pub frame-apply_ops :
      (ops : List (WriteOp D)) (ts m : ℕ) (inner : Inner D)
      → ((apply_ops ops ts m inner).active_snapshots ≡ inner.active_snapshots)
        × ((apply_ops ops ts m inner).last_commit ≡ inner.last_commit)
  unfolding apply_ops
  frame-apply_ops [] ts m inner = (refl, refl)
  frame-apply_ops (op ∷ ops) ts m inner =
      let h = frame-apply_ops ops ts m (apply_op ts m op inner) in
      let g = frame-apply_op ts m op inner in (h.0 ∙ g.0, h.1 ∙ g.1)

  pub apply_op-Distinct :
      (ts m : ℕ) (op : WriteOp D) (inner : Inner D)
      → Distinct inner.chains
      → Distinct (apply_op ts m op inner).chains
  apply_op-Distinct ts m op inner d =
      rw (chains-apply_op ts m op inner)
        (unfold push_version in insert-Distinct (op_key op) _ inner.chains d)

  pub apply_ops-Distinct :
      (ops : List (WriteOp D)) (ts m : ℕ) (inner : Inner D)
      → Distinct inner.chains
      → Distinct (apply_ops ops ts m inner).chains
  unfolding apply_ops
  apply_ops-Distinct [] ts m inner d = d
  apply_ops-Distinct (op ∷ ops) ts m inner d =
      apply_ops-Distinct ops ts m (apply_op ts m op inner) (apply_op-Distinct ts m op inner d)

  pub first-apply_op :
      (ts m : ℕ) (op : WriteOp D) (nk : NsKey) (inner : Inner D)
      → first (chain_of nk (apply_op ts m op inner))
        ≡ (if op_key op == nk then some (op_version ts op) else first (chain_of nk inner))
  first-apply_op ts m op nk inner =
      rw (chain_of-apply_op ts m op nk inner)
        (ground (arith, first-prune m (push (op_version ts op) (chain_of nk inner))))

  pub first-apply_ops :
      (ops : List (WriteOp D)) (ts m : ℕ) (nk : NsKey) (inner : Inner D)
      → first (chain_of nk (apply_ops ops ts m inner))
        ≡ or_else (last_write nk ts ops) (first (chain_of nk inner))
  unfolding apply_ops
  first-apply_ops [] ts m nk inner = refl
  first-apply_ops (op ∷ ops) ts m nk inner =
      ground (
        arith,
        first-apply_ops ops ts m nk (apply_op ts m op inner),
        first-apply_op ts m op nk inner,
      )
