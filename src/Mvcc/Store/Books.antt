-- ===== src/Mvcc/Store/Books.antt =====
-- The two books that `apply_ops` keeps beside the chains: the live-key counts (DBSIZE) and the TTL
-- index.
use voltra.Prelude.{
  is_some, ℕ, ◌+◌, ◌%◌, ◌≡◌, refl, Bool, true, false, ◌&&◌, Option, none, some, List, [], ◌∷◌,
  arith, if◌then◌else◌, ◌==◌, Eq-nat, nat_eq_iff,
}
use voltra.Prelude.Map.{Map, lookup, insert, lookup-insert, lookup-remove}
use voltra.Mvcc.Chain.{Version, Chain, first, prune, push, head_live, shown}
use voltra.Mvcc.Chain.Prune.{first-prune}
use voltra.Mvcc.Store.{
  NsKey, key_eq_iff, Eq-NsKey, WriteOp, put, del, Inner, or_default, or_zero, u64_mod, minus_one,
  bump_count, push_version, was_live, set_ttl, apply_op, apply_ops,
}
use voltra.Mvcc.Store.Effects.{chain_of, op_key, first-apply_op}

abbrev one_if : Bool → ℕ
one_if true = 1
one_if false = 0

module _ {D : Type 0} where
  -- What one chain adds to the count of a namespace: whether its newest version holds a value.
  unfoldable pub weight : ℕ → NsKey → Chain D → ℕ
  weight ns nk c = one_if (nk.ns == ns && head_live c)

  unfoldable pub live_in : ℕ → Map NsKey (Chain D) → ℕ
  live_in ns [] = 0
  live_in ns ((nk, c) ∷ m) = weight ns nk c + live_in ns m

  abbrev pub Counted : Inner D → Type 0
  Counted inner = (ns : ℕ) → or_zero (lookup ns inner.counts) ≡ live_in ns inner.chains % u64_mod

  live_in-insert :
      (ns : ℕ) (nk : NsKey) (c : Chain D) (m : Map NsKey (Chain D))
      → live_in ns (insert nk c m) + weight ns nk (or_default (lookup nk m))
        ≡ live_in ns m + weight ns nk c
  unfolding live_in insert lookup
  live_in-insert ns nk c [] = unfold weight in ground arith
  live_in-insert ns nk c ((j, w) ∷ m) = ground (arith, live_in-insert ns nk c m, key_eq_iff j nk)

  -- The weight of a chain that was pushed and pruned is that of the new version.
  weight-push :
      (ns m : ℕ) (nk : NsKey) (v : Version D) (c : Chain D)
      → weight ns nk (prune m (push v c)) ≡ one_if (nk.ns == ns && is_some v.value)
  unfolding weight
  weight-push ns m nk v c = ground (arith, first-prune m (push v c))

  live_in-push_version :
      (ns m : ℕ) (nk : NsKey) (v : Version D) (inner : Inner D)
      → live_in ns (push_version nk v m inner).chains + weight ns nk (chain_of nk inner)
        ≡ live_in ns inner.chains + one_if (nk.ns == ns && is_some v.value)
  unfolding push_version
  live_in-push_version ns m nk v inner = omega (
    arith,
    live_in-insert ns nk (prune m (push v (chain_of nk inner))) inner.chains,
    weight-push ns m nk v (chain_of nk inner),
  )

  weight-was_live :
      (ns : ℕ) (nk : NsKey) (inner : Inner D)
      → weight ns nk (chain_of nk inner) ≡ one_if (nk.ns == ns && was_live nk inner)
  unfolding weight was_live
  weight-was_live ns nk inner = refl

  books-set_ttl :
      (nk : NsKey) (exp : Option ℕ) (inner : Inner D)
      → ((set_ttl nk exp inner).counts ≡ inner.counts)
        × ((set_ttl nk exp inner).chains ≡ inner.chains)
  unfolding set_ttl
  books-set_ttl nk none inner = (refl, refl)
  books-set_ttl nk (some e) inner = (refl, refl)

  counts-bump_count :
      (ns k delta : ℕ) (inner : Inner D)
      → or_zero (lookup ns (bump_count k delta inner).counts) ≡ (
          if k == ns
          then (or_zero (lookup ns inner.counts) + delta) % u64_mod
          else or_zero (lookup ns inner.counts))
  unfolding bump_count
  counts-bump_count ns k delta inner = rw lookup-insert (ground (arith, nat_eq_iff k ns))

  -- The count after a put, and after a deletion, of which the chain was live or not.
  put_count : Bool → ℕ → Inner D → Inner D
  put_count live ns pushed = if live then pushed else bump_count ns 1 pushed

  del_count : Bool → ℕ → Inner D → Inner D
  del_count live ns pushed = if live then bump_count ns minus_one pushed else pushed

  put_count_lem :
      (live : Bool) (ns k l : ℕ) (p : Inner D)
      → or_zero (lookup k p.counts) ≡ l % u64_mod
      → live_in k p.chains + one_if (ns == k && live) ≡ l + one_if (ns == k && true)
      → or_zero (lookup k (put_count live ns p).counts)
        ≡ live_in k (put_count live ns p).chains % u64_mod
  unfolding put_count
  put_count_lem true ns k l p h e = ground arith
  put_count_lem false ns k l p h e =
      rw (counts-bump_count k ns 1 p) (unfold bump_count in ground arith)

  del_count_lem :
      (live : Bool) (ns k l : ℕ) (p : Inner D)
      → or_zero (lookup k p.counts) ≡ l % u64_mod
      → live_in k p.chains + one_if (ns == k && live) ≡ l + one_if (ns == k && false)
      → or_zero (lookup k (del_count live ns p).counts)
        ≡ live_in k (del_count live ns p).chains % u64_mod
  unfolding del_count
  del_count_lem true ns k l p h e =
      rw (counts-bump_count k ns minus_one p) (unfold bump_count in ground arith)
  del_count_lem false ns k l p h e = ground arith

  pushed-live_in :
      (k m : ℕ) (nk : NsKey) (v : Version D) (inner : Inner D)
      → live_in k (push_version nk v m inner).chains + one_if (nk.ns == k && was_live nk inner)
        ≡ live_in k inner.chains + one_if (nk.ns == k && is_some v.value)
  pushed-live_in k m nk v inner =
      omega (arith, live_in-push_version k m nk v inner, weight-was_live k nk inner)

  apply_op-Counted :
      (ts m : ℕ) (op : WriteOp D) (inner : Inner D)
      → Counted inner
      → Counted (apply_op ts m op inner)
  unfolding apply_op put_count del_count
  apply_op-Counted ts m (put ns key value exp) inner counted k =
      let nk : NsKey = record { ns = ns; key = key } in
      let v : Version D = record { commit_ts = ts; value = some value; expires_at_ms = exp } in
      rw ((books-set_ttl nk exp _).0, (books-set_ttl nk exp _).1)
        (put_count_lem (was_live nk inner) ns k (live_in k inner.chains) (push_version nk v m inner)
          (unfold push_version in counted k) (pushed-live_in k m nk v inner))
  apply_op-Counted ts m (del ns key) inner counted k =
      let nk : NsKey = record { ns = ns; key = key } in
      let v : Version D = record { commit_ts = ts; value = none; expires_at_ms = none } in
      rw ((books-set_ttl nk none _).0, (books-set_ttl nk none _).1)
        (del_count_lem (was_live nk inner) ns k (live_in k inner.chains) (push_version nk v m inner)
          (unfold push_version in counted k) (pushed-live_in k m nk v inner))

  pub apply_ops-Counted :
      (ops : List (WriteOp D)) (ts m : ℕ) (inner : Inner D)
      → Counted inner
      → Counted (apply_ops ops ts m inner)
  unfolding apply_ops
  apply_ops-Counted [] ts m inner c = c
  apply_ops-Counted (op ∷ ops) ts m inner c =
      apply_ops-Counted ops ts m (apply_op ts m op inner) (apply_op-Counted ts m op inner c)

  abbrev pub expiry_of : Option (D × Option ℕ) → Option ℕ
  expiry_of none = none
  expiry_of (some (d, exp)) = exp

  -- The index holds the expiry of each key's newest version, where that holds a value.
  abbrev pub Timed : Inner D → Type 0
  Timed inner =
      (nk : NsKey) → lookup nk inner.ttl_index ≡ expiry_of (shown (first (chain_of nk inner)))

  ttl-set_ttl :
      (nk j : NsKey) (exp : Option ℕ) (inner : Inner D)
      → lookup j (set_ttl nk exp inner).ttl_index
        ≡ (if nk == j then exp else lookup j inner.ttl_index)
  unfolding set_ttl
  ttl-set_ttl nk j none inner = lookup-remove nk j inner.ttl_index
  ttl-set_ttl nk j (some e) inner = lookup-insert nk j e inner.ttl_index

  abbrev op_expiry : WriteOp D → Option ℕ
  op_expiry (put ns key value exp) = exp
  op_expiry (del ns key) = none

  ttl-apply_op :
      (ts m : ℕ) (op : WriteOp D) (j : NsKey) (inner : Inner D)
      → lookup j (apply_op ts m op inner).ttl_index
        ≡ (if op_key op == j then op_expiry op else lookup j inner.ttl_index)
  unfolding apply_op push_version bump_count
  ttl-apply_op ts m (put ns key value exp) j inner =
      rw (ttl-set_ttl (record { ns = ns; key = key }) j exp _) (ground arith)
  ttl-apply_op ts m (del ns key) j inner =
      rw (ttl-set_ttl (record { ns = ns; key = key }) j none _) (ground arith)

  apply_op-Timed :
      (ts m : ℕ) (op : WriteOp D) (inner : Inner D) → Timed inner → Timed (apply_op ts m op inner)
  apply_op-Timed ts m (put ns key value exp) inner timed j = ground (
    arith,
    ttl-apply_op ts m (put ns key value exp) j inner,
    first-apply_op ts m (put ns key value exp) j inner,
    timed j,
  )
  apply_op-Timed ts m (del ns key) inner timed j = ground (
    arith,
    ttl-apply_op ts m (del ns key) j inner,
    first-apply_op ts m (del ns key) j inner,
    timed j,
  )

  pub apply_ops-Timed :
      (ops : List (WriteOp D)) (ts m : ℕ) (inner : Inner D)
      → Timed inner
      → Timed (apply_ops ops ts m inner)
  unfolding apply_ops
  apply_ops-Timed [] ts m inner t = t
  apply_ops-Timed (op ∷ ops) ts m inner t =
      apply_ops-Timed ops ts m (apply_op ts m op inner) (apply_op-Timed ts m op inner t)
