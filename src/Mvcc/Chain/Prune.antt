-- ===== src/Mvcc/Chain/Prune.antt =====
-- What `Chain::prune` keeps: everything that a snapshot at or above its bound can see.
use voltra.Prelude.{ℕ, ◌≤◌, ◌<◌, ◌≡◌, refl, true, false, none, List, [], ◌∷◌, arith, leb, find}
use voltra.Mvcc.Chain.{Version, Chain, first, visible_at, head_ts, prune, push}

module _ {D : Type 0} where
  -- The versions up to the first that is at most `m`.
  pub keep_to : ℕ → List (Version D) → List (Version D)
  keep_to m [] = []
  keep_to m (v ∷ vs) = elim (leb v.commit_ts m) [ true ↦ v ∷ [] | false ↦ v ∷ keep_to m vs ]

  pub prune-keep_to :
      (m : ℕ) (vs : List (Version D)) → (prune m (record { versions = vs })).versions ≡ keep_to m vs
  unfolding prune keep_to
  prune-keep_to m [] = refl
  prune-keep_to m (v ∷ vs) = ground (arith, prune-keep_to m vs)

  find-keep_to :
      (m r : ℕ) (vs : List (Version D))
      → m ≤ r
      → find (λ (v : Version D). leb v.commit_ts r) (keep_to m vs)
        ≡ find (λ (v : Version D). leb v.commit_ts r) vs
  unfolding keep_to
  find-keep_to m r [] h = refl
  find-keep_to m r (v ∷ vs) h = ground (arith, find-keep_to m r vs h)

  -- Pruning at `m` changes no read at `m` or above.
  pub visible_at-prune : (m r : ℕ) (c : Chain D) → m ≤ r → visible_at r (prune m c) ≡ visible_at r c
  unfolding visible_at
  visible_at-prune m r c h = rw (prune-keep_to m c.versions) (find-keep_to m r c.versions h)

  first-keep_to :
      (m : ℕ) (vs : List (Version D))
      → first (record { versions = keep_to m vs }) ≡ first (record { versions = vs })
  unfolding keep_to
  first-keep_to m [] = refl
  first-keep_to m (v ∷ vs) = ground arith

  -- Nor does it change the newest version.
  pub first-prune : (m : ℕ) (c : Chain D) → first (prune m c) ≡ first c
  first-prune m c = rw (prune-keep_to m c.versions) (first-keep_to m c.versions)

  -- Of the versions that are left, only the last can be at or below the bound.
  abbrev pub Pruned : ℕ → List (Version D) → Type 0
  Pruned m [] = Unit
  Pruned m (v ∷ []) = Unit
  Pruned m (v ∷ w ∷ vs) = (m < v.commit_ts) × Pruned m (w ∷ vs)

  keep_to-Pruned : (m : ℕ) (vs : List (Version D)) → Pruned m (keep_to m vs)
  unfolding keep_to
  keep_to-Pruned m [] = tt
  keep_to-Pruned m (v ∷ []) = ground arith
  keep_to-Pruned m (v ∷ w ∷ vs) = ground (arith, keep_to-Pruned m (w ∷ vs))

  pub prune-Pruned : (m : ℕ) (c : Chain D) → Pruned m (prune m c).versions
  prune-Pruned m c = rw (prune-keep_to m c.versions) (keep_to-Pruned m c.versions)

  keep_to_twice :
      (m m' : ℕ) (v w : Version D) (vs : List (Version D))
      → m < v.commit_ts
      → w.commit_ts ≤ m
      → m' < w.commit_ts
      → keep_to m (v ∷ keep_to m' (w ∷ vs)) ≡ v ∷ w ∷ []
  unfolding keep_to
  keep_to_twice m m' v w vs a b c = ground arith

  -- Two pushes, the second pruned at the first: nothing older is left.
  pub visible_at-push_twice :
      (r m m' : ℕ) (v w : Version D) (c : Chain D)
      → r < w.commit_ts
      → m < v.commit_ts
      → w.commit_ts ≤ m
      → m' < w.commit_ts
      → visible_at r (prune m (push v (prune m' (push w c)))) ≡ none
  unfolding visible_at
  visible_at-push_twice r m m' v w c a b d e =
      rw (prune-keep_to m (v ∷ (prune m' (push w c)).versions)) (
        rw (prune-keep_to m' (w ∷ c.versions))
          (rw (keep_to_twice m m' v w c.versions b d e) (ground arith)))

  -- A read at or above the newest timestamp sees the newest version.
  pub visible_at-first : (r : ℕ) (c : Chain D) → head_ts c ≤ r → visible_at r c ≡ first c
  unfolding visible_at head_ts
  visible_at-first r c h = ground arith
