-- ===== src/Mvcc/Store.antt =====
-- src/mvcc/mod.rs: keys, the shared state `Inner`, write effects and the read path. The clock is an
-- argument of what reads it.
pub mod Effects
pub mod Pins
pub mod Books
use voltra.Prelude.{
  ℕ, ◌+◌, ◌-◌, ◌%◌, ◌^◌, ◌≡◌, ◌↔◌, Bool, true, false, not, ◌&&◌, Option, none, some, List, [], ◌∷◌,
  arith, ltb, leb, is_some, if◌then◌else◌, Eq, ◌==◌, Eq-nat, Eq-list, list_eq_iff, nat_eq_iff,
}
use voltra.Prelude.Map.{Map, lookup, insert, remove}
use voltra.Mvcc.Chain.{
  Version, Chain, empty_chain, first, visible_at, head_ts, prune, push, head_live, expired,
}

abbrev pub Bytes : Type 0
Bytes = List ℕ

pub record NsKey : Type 0 where
  pub ns : ℕ
  pub key : Bytes

unfoldable pub key_eq : NsKey → NsKey → Bool
key_eq a b = a.ns == b.ns && a.key == b.key

pub key_eq_iff : (a b : NsKey) → (key_eq a b ≡ true) ↔ (a ≡ b)
unfolding key_eq
key_eq_iff a b = ground (arith, list_eq_iff a.key b.key)

instance abbrev pub Eq-NsKey : Eq NsKey
Eq-NsKey = record { equals = key_eq; equals_iff = key_eq_iff }

abbrev pub u64_mod : ℕ
u64_mod = 2 ^ 64

pub data WriteOp (D : Type 0) : Type 0 where
  put : ℕ → Bytes → D → Option ℕ → WriteOp D
  del : ℕ → Bytes → WriteOp D

pub record Inner (D : Type 0) : Type 0 where
  pub chains : Map NsKey (Chain D)
  pub last_commit : ℕ
  -- An `i64`, as its bit pattern.
  pub counts : Map ℕ ℕ
  pub ttl_index : Map NsKey ℕ
  -- Pinned read timestamps, with the number of pins of each.
  pub active_snapshots : Map ℕ ℕ
  pub shutdown : Bool

-- The bit pattern of -1.
abbrev pub minus_one : ℕ
minus_one = 2 ^ 64 - 1

-- The first key of a `BTreeMap`, which is the least.
unfoldable pub first_key : Map ℕ ℕ → Option ℕ
first_key [] = none
first_key ((k, n) ∷ m) = elim (first_key m) [
  | none ↦ some k
  | some j ↦ if ltb j k then some j else some k
]

abbrev pub or_default : {D : Type 0} → Option (Chain D) → Chain D
or_default none = empty_chain
or_default (some c) = c

abbrev pub or_zero : Option ℕ → ℕ
or_zero none = 0
or_zero (some n) = n

ttl_count_in : ℕ → Map NsKey ℕ → ℕ
ttl_count_in ns [] = 0
ttl_count_in ns ((nk, e) ∷ m) = (if nk.ns == ns then 1 else 0) + ttl_count_in ns m

module _ {D : Type 0} where
  unfoldable pub min_active_snapshot : Inner D → ℕ
  min_active_snapshot inner = elim (first_key inner.active_snapshots) [
    | none ↦ inner.last_commit
    | some ts ↦ ts
  ]

  unfoldable pub bump_count : ℕ → ℕ → Inner D → Inner D
  bump_count ns delta inner = record inner {
    counts = insert ns ((or_zero (lookup ns inner.counts) + delta) % u64_mod) inner.counts;
  }

  -- `chains.entry(nk).or_default()`, a new version in front, and the pruning.
  unfoldable pub push_version : NsKey → Version D → ℕ → Inner D → Inner D
  push_version nk v min_active inner = record inner {
    chains =
        insert nk (prune min_active (push v (or_default (lookup nk inner.chains)))) inner.chains;
  }

  unfoldable pub was_live : NsKey → Inner D → Bool
  was_live nk inner = head_live (or_default (lookup nk inner.chains))

  unfoldable pub set_ttl : NsKey → Option ℕ → Inner D → Inner D
  set_ttl nk none inner = record inner { ttl_index = remove nk inner.ttl_index }
  set_ttl nk (some e) inner = record inner { ttl_index = insert nk e inner.ttl_index }

  -- One round of the loop of `apply_ops`.
  unfoldable pub apply_op : ℕ → ℕ → WriteOp D → Inner D → Inner D
  apply_op ts min_active (put ns key value exp) inner =
      let nk : NsKey = record { ns = ns; key = key } in
      let version : Version D = record {
        commit_ts = ts;
        value = some value;
        expires_at_ms = exp;
      } in
      let pushed = push_version nk version min_active inner in
      let counted = if was_live nk inner then pushed else bump_count ns 1 pushed in
      set_ttl nk exp counted
  apply_op ts min_active (del ns key) inner =
      let nk : NsKey = record { ns = ns; key = key } in
      let version : Version D = record { commit_ts = ts; value = none; expires_at_ms = none } in
      let pushed = push_version nk version min_active inner in
      let counted = if was_live nk inner then bump_count ns minus_one pushed else pushed in
      set_ttl nk none counted

  unfoldable pub apply_ops : List (WriteOp D) → ℕ → ℕ → Inner D → Inner D
  apply_ops [] ts min_active inner = inner
  apply_ops (op ∷ ops) ts min_active inner =
      apply_ops ops ts min_active (apply_op ts min_active op inner)

  -- Reads.
  unfoldable pub get_at : ℕ → Bytes → ℕ → ℕ → Inner D → Option D
  get_at ns key ts now inner = elim (lookup (record { ns = ns; key = key }) inner.chains) [
    | none ↦ none
    | some chain ↦ elim (visible_at ts chain) [
      | none ↦ none
      | some v ↦ if expired v.expires_at_ms now then none else v.value
    ]
  ]

  unfoldable pub get : ℕ → Bytes → ℕ → Inner D → Option D
  unfolding get_at
  get ns key now inner = get_at ns key inner.last_commit now inner

  unfoldable pub get_expiry : ℕ → Bytes → Inner D → Option ℕ
  get_expiry ns key inner = elim (lookup (record { ns = ns; key = key }) inner.chains) [
    | none ↦ none
    | some chain ↦ elim (visible_at inner.last_commit chain) [
      | none ↦ none
      | some v ↦ elim v.value [ none ↦ none | some d ↦ v.expires_at_ms ]
    ]
  ]

  -- DBSIZE: a negative count reads as 0.
  unfoldable pub ns_len : ℕ → Inner D → ℕ
  ns_len ns inner = let c = or_zero (lookup ns inner.counts) in if ltb c (2 ^ 63) then c else 0

  unfoldable pub ttl_count : ℕ → Inner D → ℕ
  unfolding ttl_count_in
  ttl_count ns inner = ttl_count_in ns inner.ttl_index

  -- The value that a chain shows at `ts`, unless it has expired.
  unfoldable pub visible_value : ℕ → ℕ → Chain D → Option D
  visible_value ts now chain = elim (visible_at ts chain) [
    | none ↦ none
    | some v ↦ elim v.value [
      | none ↦ none
      | some d ↦ if expired v.expires_at_ms now then none else some d
    ]
  ]

  visible_in : ℕ → ℕ → ℕ → Map NsKey (Chain D) → List (Bytes × D)
  unfolding visible_value
  visible_in ns ts now [] = []
  visible_in ns ts now ((nk, chain) ∷ m) =
      let rest = visible_in ns ts now m in
      if nk.ns == ns
      then elim (visible_value ts now chain) [ none ↦ rest | some d ↦ (nk.key, d) ∷ rest ]
      else rest

  -- What `for_each_visible` hands to its callback, in the order of the map.
  unfoldable pub for_each_visible : ℕ → ℕ → ℕ → Inner D → List (Bytes × D)
  unfolding visible_in
  for_each_visible ns ts now inner = visible_in ns ts now inner.chains

  -- The second half of `pin_snapshot`: the count of the timestamp, under the lock.
  unfoldable pub insert_pin : ℕ → Inner D → Inner D
  insert_pin ts inner = record inner {
    active_snapshots =
        insert ts (or_zero (lookup ts inner.active_snapshots) + 1) inner.active_snapshots;
  }

  unfoldable pub pin_snapshot : Inner D → ℕ × Inner D
  unfolding insert_pin
  pin_snapshot inner = let ts = inner.last_commit in (ts, insert_pin ts inner)

  -- The drop of a `SnapshotGuard`.
  unfoldable pub drop_guard : ℕ → Inner D → Inner D
  drop_guard ts inner =
      let snaps = inner.active_snapshots in
      record inner {
        active_snapshots = elim (lookup ts snaps) [
          | none ↦ snaps
          | some n ↦ if n - 1 == 0 then remove ts snaps else insert ts (n - 1) snaps
        ];
      }

abbrev pub empty_inner : {D : Type 0} → Inner D
empty_inner = record {
  chains = [];
  last_commit = 0;
  counts = [];
  ttl_index = [];
  active_snapshots = [];
  shutdown = false;
}
