-- ===== src/Ring/Tests.antt =====
-- Tests of the ring.
use voltra.Prelude.{◌≡◌, ◌⊎◌, refl, ◌&&◌, not, some, [], ◌∷◌, any, true, ◌==◌, Eq-nat, Eq-list}
use voltra.Resp.{digits_of}
use voltra.Table.Value.{Bytes}
use voltra.Ring.{
  ClusterId, ConsistentHashRing, fnv_loop, fnv1a, known, new_ring, add_cluster, remove_cluster,
  get_cluster, or_nobody, keys_migrating_to,
}
use voltra.Ring.Owners.{started, joined, left, get_cluster-known}
use voltra.Ring.Moves.{get_cluster-add_cluster, keys_migrating_to_exact}

-- The hash of "a".
hashed : fnv1a (97 ∷ []) ≡ 12638187200555641996
unfolding fnv1a fnv_loop
hashed = refl

abbrev africa : ClusterId
africa = 97 ∷ []

abbrev europe : ClusterId
europe = 101 ∷ []

abbrev one_cluster : ConsistentHashRing
one_cluster = add_cluster africa (new_ring 1)

abbrev rejoined : ConsistentHashRing
rejoined = remove_cluster africa (add_cluster europe one_cluster)

get_cluster-known_example : known europe rejoined.cluster_ids ≡ true
unfolding get_cluster remove_cluster add_cluster digits_of
get_cluster-known_example =
    get_cluster-known 1 rejoined (107 ∷ []) europe
      (left africa (add_cluster europe one_cluster)
        (joined europe one_cluster (joined africa (new_ring 1) started)))
      refl

get_cluster-add_cluster_example :
    (get_cluster (107 ∷ []) (add_cluster europe one_cluster) ≡ some europe)
    ⊎ (get_cluster (107 ∷ []) (add_cluster europe one_cluster) ≡ get_cluster (107 ∷ []) one_cluster)
get_cluster-add_cluster_example = get_cluster-add_cluster europe one_cluster (107 ∷ [])

keys_migrating_to_exact_example :
    any (λ e. e.0 == (107 ∷ [])) (keys_migrating_to europe ((107 ∷ []) ∷ []) one_cluster) ≡ (
      any {A = Bytes} (λ k. k == (107 ∷ [])) ((107 ∷ []) ∷ [])
      && not (
          or_nobody (get_cluster (107 ∷ []) one_cluster)
          == or_nobody (get_cluster (107 ∷ []) (add_cluster europe one_cluster))))
keys_migrating_to_exact_example =
    keys_migrating_to_exact europe one_cluster ((107 ∷ []) ∷ []) (107 ∷ [])
