-- ===== src/Ring.antt =====
-- src/cluster/ring.rs: `ConsistentHashRing`, the cluster that a key belongs to.
pub mod Owners
pub mod Moves
mod Tests
use Prim.Native.Nat.{bit_xor}
use voltra.Prelude.{
  ℕ, suc, zero, ◌+◌, ◌*◌, ◌/◌, ◌%◌, ◌^◌, Bool, true, false, not, ◌&&◌, Option, none, some, List, [],
  ◌∷◌, ◌++◌, any, leb, ltb, length, retain, if◌then◌else◌, ◌==◌, Eq-nat, Eq-list,
}
use voltra.Resp.{to_string}
use voltra.Table.Value.{Bytes}

abbrev pub ClusterId : Type 0
ClusterId = Bytes

-- A `BTreeMap` from positions is a list with the positions in order.
pub record ConsistentHashRing : Type 0 where
  pub ring : List (ℕ × ClusterId)
  pub cluster_ids : List ClusterId
  pub vnodes : ℕ

unfoldable pub fnv_loop : ℕ → Bytes → ℕ
fnv_loop hash [] = hash
fnv_loop hash (byte ∷ bytes) = fnv_loop (bit_xor hash byte * 1099511628211 % 2 ^ 64) bytes

unfoldable pub fnv1a : Bytes → ℕ
unfolding fnv_loop
fnv1a s = fnv_loop 14695981039346656037 s

-- `format!("{cluster_id}#vnode{i}")`
abbrev pub vnode_key : ClusterId → ℕ → Bytes
vnode_key cluster i = cluster ++ (b'#' ∷ b'v' ∷ b'n' ∷ b'o' ∷ b'd' ∷ b'e' ∷ []) ++ to_string i

unfoldable pub ring_insert : ℕ → ClusterId → List (ℕ × ClusterId) → List (ℕ × ClusterId)
ring_insert p c [] = (p, c) ∷ []
ring_insert p c ((q, d) ∷ entries) =
    let rest = ring_insert p c entries in
    if ltb p q
    then (p, c) ∷ (q, d) ∷ entries
    else if p == q
    then (p, c) ∷ entries
    else (q, d) ∷ rest

abbrev pub ring_remove : ℕ → List (ℕ × ClusterId) → List (ℕ × ClusterId)
ring_remove p entries = retain (λ e. not (e.0 == p)) entries

-- The virtual nodes from `i` on.
unfoldable pub insert_vnodes : ClusterId → ℕ → ℕ → List (ℕ × ClusterId) → List (ℕ × ClusterId)
unfolding ring_insert fnv1a
insert_vnodes c i zero entries = entries
insert_vnodes c i (suc n) entries =
    insert_vnodes c (i + 1) n (ring_insert (fnv1a (vnode_key c i)) c entries)

unfoldable pub remove_vnodes : ClusterId → ℕ → ℕ → List (ℕ × ClusterId) → List (ℕ × ClusterId)
unfolding fnv1a
remove_vnodes c i zero entries = entries
remove_vnodes c i (suc n) entries =
    remove_vnodes c (i + 1) n (ring_remove (fnv1a (vnode_key c i)) entries)

abbrev pub known : ClusterId → List ClusterId → Bool
known c ids = any (λ d. d == c) ids

abbrev pub new_ring : ℕ → ConsistentHashRing
new_ring vnodes = record { ring = []; cluster_ids = []; vnodes = vnodes }

unfoldable pub add_cluster : ClusterId → ConsistentHashRing → ConsistentHashRing
unfolding insert_vnodes
add_cluster c r = if known c r.cluster_ids then r else record r {
  ring = insert_vnodes c 0 r.vnodes r.ring;
  cluster_ids = r.cluster_ids ++ (c ∷ []);
}

unfoldable pub remove_cluster : ClusterId → ConsistentHashRing → ConsistentHashRing
unfolding remove_vnodes
remove_cluster c r =
    if known c r.cluster_ids
    then record r {
      ring = remove_vnodes c 0 r.vnodes r.ring;
      cluster_ids = retain (λ d. not (d == c)) r.cluster_ids;
    }
    else r

unfoldable pub first_from : ℕ → List (ℕ × ClusterId) → Option ClusterId
first_from hash [] = none
first_from hash ((p, c) ∷ entries) =
    let rest = first_from hash entries in if leb hash p then some c else rest

abbrev pub first : List (ℕ × ClusterId) → Option ClusterId
first [] = none
first ((p, c) ∷ entries) = some c

-- The owner of a position, clockwise.
unfoldable pub owner : ℕ → List (ℕ × ClusterId) → Option ClusterId
unfolding first_from
owner hash entries = elim (first_from hash entries) [ none ↦ first entries | some c ↦ some c ]

unfoldable pub get_cluster : Bytes → ConsistentHashRing → Option ClusterId
unfolding owner fnv1a
get_cluster key r = owner (fnv1a key) r.ring

abbrev pub len : ConsistentHashRing → ℕ
len r = length r.cluster_ids

abbrev pub or_nobody : Option ClusterId → ClusterId
or_nobody none = []
or_nobody (some c) = c

unfoldable pub migrating :
    ClusterId → ConsistentHashRing → ConsistentHashRing → List Bytes → List (Bytes × ClusterId)
unfolding get_cluster
migrating c old new [] = []
migrating c old new (key ∷ keys) =
    let rest = migrating c old new keys in
    let old_owner = or_nobody (get_cluster key old) in
    let new_owner = or_nobody (get_cluster key new) in
    if not (old_owner == c) && new_owner == c then (key, old_owner) ∷ rest else rest

unfoldable pub keys_migrating_to :
    ClusterId → List Bytes → ConsistentHashRing → List (Bytes × ClusterId)
unfolding migrating add_cluster
keys_migrating_to c keys r = migrating c r (add_cluster c r) keys
