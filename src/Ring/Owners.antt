-- ===== src/Ring/Owners.antt =====
-- Every key belongs to a cluster that has joined and not left.
use voltra.Prelude.{
  ℕ, suc, zero, ◌+◌, ◌≤◌, ◌<◌, ◌≡◌, refl, ap, sym, ◌∙◌, Bool, true, false, not, some, List, [], ◌∷◌,
  ◌++◌, All, arith, leb, ltb, retain, ◌==◌, Eq-nat, Eq-list, list_eq_iff, eq_refl, nat_eq_iff,
  Bool-cases, Option-cases, inl, inr,
}
use voltra.Table.Value.{Bytes}
use voltra.Ring.{
  ClusterId, ConsistentHashRing, fnv1a, vnode_key, ring_insert, ring_remove, insert_vnodes,
  remove_vnodes, known, new_ring, add_cluster, remove_cluster, first_from, first, owner,
  get_cluster,
}

-- An entry is a virtual node of a known cluster.
abbrev VnodeOf : List ClusterId → ℕ → ℕ × ClusterId → Type 0
VnodeOf ids n (p, c) = (known c ids ≡ true) × ((i : ℕ) × ((i < n) × (p ≡ fnv1a (vnode_key c i))))

abbrev Placed : ConsistentHashRing → Type 0
Placed r = All (VnodeOf r.cluster_ids r.vnodes) r.ring

All-ring_insert :
    (P : ℕ × ClusterId → Type 0) (p : ℕ) (c : ClusterId) (entries : List (ℕ × ClusterId))
    → P (p, c)
    → All P entries
    → All P (ring_insert p c entries)
unfolding ring_insert
All-ring_insert P p c [] h a = (h, tt)
All-ring_insert P p c ((q, d) ∷ entries) h a = elim (Bool-cases (ltb p q)) [
  | inl f ↦ rw (f, ring_insert) (h, a)
  | inr f ↦ elim (Bool-cases (p == q)) [
    | inl g ↦ rw (f, g, ring_insert) (h, a.1)
    | inr g ↦ rw (f, g, ring_insert) (a.0, All-ring_insert P p c entries h a.1)
  ]
]

All-retain :
    (P Q : ℕ × ClusterId → Type 0) (keep : ℕ × ClusterId → Bool) (entries : List (ℕ × ClusterId))
    → ((e : ℕ × ClusterId) → keep e ≡ true → P e → Q e)
    → All P entries
    → All Q (retain keep entries)
All-retain P Q keep [] h a = tt
All-retain P Q keep (e ∷ entries) h a = elim (Bool-cases (keep e)) [
  | inl k ↦
      let same : retain keep (e ∷ entries) ≡ e ∷ retain keep entries = ground (arith, k) in
      rw same (h e k a.0, All-retain P Q keep entries h a.1)
  | inr k ↦
      let same : retain keep (e ∷ entries) ≡ retain keep entries = ground (arith, k) in
      rw same (All-retain P Q keep entries h a.1)
]

weaken-All :
    {P Q : ℕ × ClusterId → Type 0} (entries : List (ℕ × ClusterId))
    → ((e : ℕ × ClusterId) → P e → Q e)
    → All P entries
    → All Q entries
weaken-All [] h a = tt
weaken-All (e ∷ entries) h a = (h e a.0, weaken-All entries h a.1)

always-All :
    (P : ℕ × ClusterId → Type 0) (entries : List (ℕ × ClusterId))
    → ((e : ℕ × ClusterId) → P e)
    → All P entries
always-All P [] h = tt
always-All P (e ∷ entries) h = (h e, always-All P entries h)

both-All :
    (P Q R : ℕ × ClusterId → Type 0) (entries : List (ℕ × ClusterId))
    → ((e : ℕ × ClusterId) → P e → Q e → R e)
    → All P entries
    → All Q entries
    → All R entries
both-All P Q R [] h a b = tt
both-All P Q R (e ∷ entries) h a b = (h e a.0 b.0, both-All P Q R entries h a.1 b.1)

insert_vnodes-VnodeOf :
    (c : ClusterId) (ids : List ClusterId) (n i left : ℕ) (entries : List (ℕ × ClusterId))
    → i + left ≤ n
    → known c ids ≡ true
    → All (VnodeOf ids n) entries
    → All (VnodeOf ids n) (insert_vnodes c i left entries)
unfolding insert_vnodes
insert_vnodes-VnodeOf c ids n i zero entries h k a = a
insert_vnodes-VnodeOf c ids n i (suc left) entries h k a =
    let p = fnv1a (vnode_key c i) in
    insert_vnodes-VnodeOf c ids n (i + 1) left (ring_insert p c entries) (omega (arith, h)) k
      (All-ring_insert (VnodeOf ids n) p c entries (k, (i, (omega (arith, h), refl))) a)

known-append :
    (d : ClusterId) (ids more : List ClusterId) → known d ids ≡ true → known d (ids ++ more) ≡ true
known-append d [] more h = absurd (ground (arith, h))
known-append d (c ∷ ids) more h = ground (arith, h, Bool-cases (c == d), known-append d ids more)

known_last : (d : ClusterId) (ids : List ClusterId) → known d (ids ++ (d ∷ [])) ≡ true
known_last d [] = ground (arith, eq_refl d)
known_last d (c ∷ ids) = ground (arith, known_last d ids)

known-retain :
    (c d : ClusterId) (ids : List ClusterId)
    → known d ids ≡ true
    → (d == c) ≡ false
    → known d (retain (λ x. not (x == c)) ids) ≡ true
known-retain c d [] h o = absurd (ground (arith, h))
known-retain c d (x ∷ ids) h o = elim (Bool-cases (x == d)) [
  | inl e ↦
      let same : x ≡ d = (list_eq_iff x d).0 e in
      let kept : (x == c) ≡ false = rw same o in ground (arith, e, kept)
  | inr e ↦ ground (arith, e, h, known-retain c d ids, o, Bool-cases (x == c))
]

added-Placed : (c : ClusterId) (r : ConsistentHashRing) → Placed r → Placed (add_cluster c r)
unfolding add_cluster
added-Placed c r a = elim (Bool-cases (known c r.cluster_ids)) [
  | inl e ↦ let same : add_cluster c r ≡ r = ground (arith, e) in rw same a
  | inr e ↦
      let ids = r.cluster_ids ++ (c ∷ []) in
      let same : add_cluster c r
          ≡ record r { ring = insert_vnodes c 0 r.vnodes r.ring; cluster_ids = ids } =
        ground (arith, e) in
      rw same (
        insert_vnodes-VnodeOf c ids r.vnodes 0 r.vnodes r.ring (omega arith)
          (known_last c r.cluster_ids)
          (weaken-All r.ring (λ x v. (known-append x.1 r.cluster_ids (c ∷ []) v.0, v.1)) a))
]

-- Not a virtual node of a cluster from one number to another.
abbrev Outside : ClusterId → ℕ → ℕ → ℕ × ClusterId → Type 0
Outside c low high e = (j : ℕ) → low ≤ j → j < high → (e.0 == fnv1a (vnode_key c j)) ≡ false

All-remove_vnodes :
    (P : ℕ × ClusterId → Type 0) (c : ClusterId) (i n : ℕ) (entries : List (ℕ × ClusterId))
    → All P entries
    → All P (remove_vnodes c i n entries)
unfolding remove_vnodes
All-remove_vnodes P c i zero entries a = a
All-remove_vnodes P c i (suc n) entries a =
    let p = fnv1a (vnode_key c i) in
    All-remove_vnodes P c (i + 1) n (ring_remove p entries)
      (All-retain P P (λ e. not (e.0 == p)) entries (λ e k x. x) a)

remove_vnodes-Outside :
    (c : ClusterId) (high i n : ℕ) (entries : List (ℕ × ClusterId))
    → high ≤ i + n
    → All (Outside c i high) (remove_vnodes c i n entries)
unfolding remove_vnodes
remove_vnodes-Outside c high i zero entries h =
    always-All (Outside c i high) entries (λ e j l u. absurd (omega (arith, l, u, h)))
remove_vnodes-Outside c high i (suc n) entries h =
    let p = fnv1a (vnode_key c i) in
    let gone : All (λ e. (e.0 == p) ≡ false) (ring_remove p entries) =
      All-retain (λ e. 0 ≤ 0) (λ e. (e.0 == p) ≡ false) (λ e. not (e.0 == p)) entries
        (λ e k x. ground (arith, k)) (always-All (λ e. 0 ≤ 0) entries (λ e. omega arith)) in
    let left = remove_vnodes c (i + 1) n (ring_remove p entries) in
    both-All (λ e. (e.0 == p) ≡ false) (Outside c (i + 1) high) (Outside c i high) left
      (λ e here rest j l u. elim (Bool-cases (j == i)) [
        | inl q ↦ let same : j ≡ i = (nat_eq_iff j i).0 q in rw same here
        | inr q ↦ rest j (ground (arith, l, q, nat_eq_iff j i)) u
      ])
      (All-remove_vnodes (λ e. (e.0 == p) ≡ false) c (i + 1) n (ring_remove p entries) gone)
      (remove_vnodes-Outside c high (i + 1) n (ring_remove p entries) (omega (arith, h)))

removed-Placed : (c : ClusterId) (r : ConsistentHashRing) → Placed r → Placed (remove_cluster c r)
unfolding remove_cluster
removed-Placed c r a = elim (Bool-cases (known c r.cluster_ids)) [
  | inr e ↦ let same : remove_cluster c r ≡ r = ground (arith, e) in rw same a
  | inl e ↦
      let ids = retain (λ d. not (d == c)) r.cluster_ids in
      let left = remove_vnodes c 0 r.vnodes r.ring in
      let same : remove_cluster c r ≡ record r { ring = left; cluster_ids = ids } =
        ground (arith, e) in
      rw same (
        both-All (VnodeOf r.cluster_ids r.vnodes) (Outside c 0 r.vnodes) (VnodeOf ids r.vnodes) left
          (λ x v out. elim (Bool-cases (x.1 == c)) [
            | inr o ↦ (known-retain c x.1 r.cluster_ids v.0 o, v.1)
            | inl o ↦
                let same_c : x.1 ≡ c = (list_eq_iff x.1 c).0 o in
                let (i, (below, at)) = v.1 in
                let at_c : x.0 ≡ fnv1a (vnode_key c i) =
                  at ∙ ap (λ d. fnv1a (vnode_key d i)) same_c in
                absurd (
                  ground (
                    arith,
                    out i (omega arith) below,
                    nat_eq_iff x.0 (fnv1a (vnode_key c i)),
                    at_c,
                  ))
          ])
          (All-remove_vnodes (VnodeOf r.cluster_ids r.vnodes) c 0 r.vnodes r.ring a)
          (remove_vnodes-Outside c r.vnodes 0 r.vnodes r.ring (omega arith)))
]

-- The rings that joining and leaving make.
pub data Formed (vnodes : ℕ) : ConsistentHashRing → Type 0 where
  started : Formed vnodes (new_ring vnodes)
  joined :
      (c : ClusterId) (r : ConsistentHashRing) → Formed vnodes r → Formed vnodes (add_cluster c r)
  left :
      (c : ClusterId) (r : ConsistentHashRing)
      → Formed vnodes r
      → Formed vnodes (remove_cluster c r)

Formed-Placed : (vnodes : ℕ) (r : ConsistentHashRing) → Formed vnodes r → Placed r
Formed-Placed vnodes _ started = tt
Formed-Placed vnodes _ (joined c r f) = added-Placed c r (Formed-Placed vnodes r f)
Formed-Placed vnodes _ (left c r f) = removed-Placed c r (Formed-Placed vnodes r f)

first_from-known :
    (ids : List ClusterId) (n hash : ℕ) (c : ClusterId) (entries : List (ℕ × ClusterId))
    → All (VnodeOf ids n) entries
    → first_from hash entries ≡ some c
    → known c ids ≡ true
unfolding first_from
first_from-known ids n hash c [] a h = absurd (ground (arith, h))
first_from-known ids n hash c ((p, d) ∷ entries) a h = elim (Bool-cases (leb hash p)) [
  | inl e ↦ let same : d ≡ c = ground (arith, e, h) in rw (sym same) (a.0.0)
  | inr e ↦ first_from-known ids n hash c entries a.1 (ground (arith, e, h))
]

first-known :
    (ids : List ClusterId) (n : ℕ) (c : ClusterId) (entries : List (ℕ × ClusterId))
    → All (VnodeOf ids n) entries
    → first entries ≡ some c
    → known c ids ≡ true
first-known ids n c [] a h = absurd (ground (arith, h))
first-known ids n c ((p, d) ∷ entries) a h =
    let same : d ≡ c = ground (arith, h) in rw (sym same) (a.0.0)

-- After any sequence of clusters that join and leave, the owner of a key is one that has joined and not
-- left since, although virtual nodes of two clusters may have the same position.
pub get_cluster-known :
    (vnodes : ℕ) (r : ConsistentHashRing) (key : Bytes) (c : ClusterId)
    → Formed vnodes r
    → get_cluster key r ≡ some c
    → known c r.cluster_ids ≡ true
unfolding get_cluster owner
get_cluster-known vnodes r key c f h =
    let placed = Formed-Placed vnodes r f in
    elim (Option-cases (first_from (fnv1a key) r.ring)) [
      | inl e ↦ first-known r.cluster_ids r.vnodes c r.ring placed (ground (arith, e, h))
      | inr (d, e) ↦
          first_from-known r.cluster_ids r.vnodes (fnv1a key) c r.ring placed (ground (arith, e, h))
    ]
