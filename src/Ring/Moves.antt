-- ===== src/Ring/Moves.antt =====
-- A cluster that joins takes keys, and no key moves between the others.
use voltra.Prelude.{
  ℕ, suc, zero, ◌+◌, ◌≡◌, ◌⊎◌, refl, ◌∙◌, not, ◌&&◌, some, List, [], ◌∷◌, any, arith, leb, ltb,
  ◌==◌, Eq-nat, Eq-list, list_eq_iff, eq_refl, Bool-cases, Option-cases, inl, inr,
}
use voltra.Table.Value.{Bytes}
use voltra.Ring.{
  ClusterId, ConsistentHashRing, fnv1a, vnode_key, ring_insert, insert_vnodes, known, add_cluster,
  first_from, first, owner, get_cluster, or_nobody, migrating, keys_migrating_to,
}

first_from-insert :
    (hash p : ℕ) (c : ClusterId) (entries : List (ℕ × ClusterId))
    → (first_from hash (ring_insert p c entries) ≡ some c)
      ⊎ (first_from hash (ring_insert p c entries) ≡ first_from hash entries)
unfolding first_from ring_insert
first_from-insert hash p c [] = elim (Bool-cases (leb hash p)) [
  | inl e ↦ inl (ground (arith, e))
  | inr e ↦ inr (ground (arith, e))
]
first_from-insert hash p c ((q, d) ∷ entries) = elim (Bool-cases (leb hash p)) [
  | inl e ↦ elim (Bool-cases (ltb p q)) [
    | inl f ↦ inl (ground (arith, e, f))
    | inr f ↦ elim (Bool-cases (p == q)) [
      | inl g ↦ inl (ground (arith, e, f, g))
      | inr g ↦ elim (Bool-cases (leb hash q)) [
        | inl k ↦ inr (ground (arith, f, g, k))
        | inr k ↦ elim (first_from-insert hash p c entries) [
          | inl i ↦ inl (ground (arith, f, g, k, i))
          | inr i ↦ inr (ground (arith, f, g, k, i))
        ]
      ]
    ]
  ]
  | inr e ↦ elim (Bool-cases (ltb p q)) [
    | inl f ↦ inr (ground (arith, e, f))
    | inr f ↦ elim (Bool-cases (p == q)) [
      | inl g ↦ inr (ground (arith, e, f, g))
      | inr g ↦ elim (Bool-cases (leb hash q)) [
        | inl k ↦ inr (ground (arith, f, g, k))
        | inr k ↦ elim (first_from-insert hash p c entries) [
          | inl i ↦ inl (ground (arith, f, g, k, i))
          | inr i ↦ inr (ground (arith, f, g, k, i))
        ]
      ]
    ]
  ]
]

first-insert :
    (p : ℕ) (c : ClusterId) (entries : List (ℕ × ClusterId))
    → (first (ring_insert p c entries) ≡ some c) ⊎ (first (ring_insert p c entries) ≡ first entries)
unfolding ring_insert
first-insert p c [] = inl refl
first-insert p c ((q, d) ∷ entries) = elim (Bool-cases (ltb p q)) [
  | inl f ↦ inl (ground (arith, f))
  | inr f ↦ elim (Bool-cases (p == q)) [
    | inl g ↦ inl (ground (arith, f, g))
    | inr g ↦ inr (ground (arith, f, g))
  ]
]

-- One virtual node.
owner-insert :
    (hash p : ℕ) (c : ClusterId) (entries : List (ℕ × ClusterId))
    → (owner hash (ring_insert p c entries) ≡ some c)
      ⊎ (owner hash (ring_insert p c entries) ≡ owner hash entries)
unfolding owner
owner-insert hash p c entries = elim (first_from-insert hash p c entries) [
  | inl i ↦ inl (ground (arith, i))
  | inr i ↦ elim (Option-cases (first_from hash entries)) [
    | inr (d, e) ↦ inr (ground (arith, i, e))
    | inl e ↦ elim (first-insert p c entries) [
      | inl f ↦ inl (ground (arith, i, e, f))
      | inr f ↦ inr (ground (arith, i, e, f))
    ]
  ]
]

owner-insert_vnodes :
    (hash i n : ℕ) (c : ClusterId) (entries : List (ℕ × ClusterId))
    → (owner hash (insert_vnodes c i n entries) ≡ some c)
      ⊎ (owner hash (insert_vnodes c i n entries) ≡ owner hash entries)
unfolding insert_vnodes
owner-insert_vnodes hash i zero c entries = inr refl
owner-insert_vnodes hash i (suc n) c entries =
    let p = fnv1a (vnode_key c i) in
    elim (owner-insert_vnodes hash (i + 1) n c (ring_insert p c entries)) [
      | inl e ↦ inl e
      | inr e ↦ elim (owner-insert hash p c entries) [ inl f ↦ inl (e ∙ f) | inr f ↦ inr (e ∙ f) ]
    ]

-- When a cluster joins, a key goes to it or stays where it is: no key moves between the other clusters.
pub get_cluster-add_cluster :
    (c : ClusterId) (r : ConsistentHashRing) (key : Bytes)
    → (get_cluster key (add_cluster c r) ≡ some c)
      ⊎ (get_cluster key (add_cluster c r) ≡ get_cluster key r)
unfolding add_cluster get_cluster
get_cluster-add_cluster c r key = elim (Bool-cases (known c r.cluster_ids)) [
  | inl e ↦ inr (ground (arith, e))
  | inr e ↦ elim (owner-insert_vnodes (fnv1a key) 0 r.vnodes c r.ring) [
    | inl f ↦ inl (ground (arith, e, f))
    | inr f ↦ inr (ground (arith, e, f))
  ]
]

contains-migrating :
    (c k : Bytes) (old new : ConsistentHashRing) (keys : List Bytes)
    → any (λ e. e.0 == k) (migrating c old new keys) ≡ (
        any (λ key. key == k) keys
        && (not (or_nobody (get_cluster k old) == c) && or_nobody (get_cluster k new) == c))
unfolding migrating
contains-migrating c k old new [] = refl
contains-migrating c k old new (key ∷ keys) = elim (Bool-cases (key == k)) [
  | inr e ↦ ground (
    arith,
    e,
    contains-migrating c k old new keys,
    Bool-cases (not (or_nobody (get_cluster key old) == c) && or_nobody (get_cluster key new) == c),
  )
  | inl e ↦
      let same : key ≡ k = (list_eq_iff key k).0 e in
      let moves = not (or_nobody (get_cluster k old) == c) && or_nobody (get_cluster k new) == c in
      rw same (elim (Bool-cases moves) [
        | inl m ↦ ground (arith, m, contains-migrating c k old new keys, eq_refl k)
        | inr m ↦ ground (arith, m, contains-migrating c k old new keys, eq_refl k)
      ])
]

-- The keys that are said to migrate when a cluster joins are those of the given keys whose owner
-- changes, where a key without an owner counts as owned by the empty name.
pub keys_migrating_to_exact :
    (c : ClusterId) (r : ConsistentHashRing) (keys : List Bytes) (key : Bytes)
    → any (λ e. e.0 == key) (keys_migrating_to c keys r) ≡ (
        any (λ k. k == key) keys
        && not (or_nobody (get_cluster key r) == or_nobody (get_cluster key (add_cluster c r))))
unfolding keys_migrating_to
keys_migrating_to_exact c r keys key =
    contains-migrating c key r (add_cluster c r) keys ∙ (elim (get_cluster-add_cluster c r key) [
      | inl e ↦ rw e (ground (arith, eq_refl c))
      | inr e ↦ rw e (ground (arith, eq_refl (or_nobody (get_cluster key r))))
    ])
