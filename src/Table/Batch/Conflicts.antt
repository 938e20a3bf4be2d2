-- ===== src/Table/Batch/Conflicts.antt =====
-- Whole batches: the versions that they check and leave.
use voltra.Prelude.{
  ℕ, ◌+◌, ◌^◌, ◌<◌, ◌≡◌, refl, ◌∙◌, true, List, [], ◌∷◌, arith, length, Eq-nat, Eq-list,
  Option-cases, Bool-cases, inl, inr,
}
use voltra.Table.Value.{Bytes, Serde}
use voltra.Table.Store.{RowDelta, ok, TableStore}
use voltra.Table.Rows.{row_version}
use voltra.Table.Lru.{EvictionPolicy, no_eviction}
use voltra.Table.Eviction.{evict}
use voltra.Table.Batch.{
  own_delta, apply_deltas, ReadVersions, lock_keys, open_tables, validate, apply_delta_batch,
}
use voltra.Table.Batch.Cases.{Result-cases}
use voltra.Table.Batch.Versions.{
  NotDeleted, count_writes, version-Keeps, plus_none, apply_deltas-Version,
}
use voltra.Table.Batch.Rollback.{open_tables-Keeps}

unevicted :
    {N : Type 0} (policy : EvictionPolicy) (committed : List (RowDelta N)) (s : TableStore)
    → policy ≡ no_eviction
    → evict policy committed s ≡ s
unfolding evict
unevicted policy committed s h = ground (arith, h, Option-cases s.lru)

-- What a batch that succeeds went through.
pub succeeded :
    {N : Type 0} (serde : Serde N) (clock : ℕ → ℕ) (deltas : List (RowDelta N))
    (reads : ReadVersions) (s : TableStore) (c : List (RowDelta N))
    → (deltas ≡ [] → ⊥)
    → s.eviction_policy ≡ no_eviction
    → (apply_delta_batch serde clock deltas reads s).0 ≡ ok c
    → let keys = lock_keys s deltas in
      let opened = open_tables keys s in
      let q = apply_deltas serde (own_delta s) clock 0 [] deltas opened in
      (validate reads keys opened ≡ true)
      × ((q.0 ≡ ok c) × ((apply_delta_batch serde clock deltas reads s).1 ≡ q.1))
unfolding apply_delta_batch
succeeded serde clock [] reads s c d p h = absurd (d refl)
succeeded serde clock (delta ∷ deltas) reads s c d p h =
    let keys = lock_keys s (delta ∷ deltas) in
    let opened = open_tables keys s in
    let q = apply_deltas serde (own_delta s) clock 0 [] (delta ∷ deltas) opened in
    elim (Bool-cases (validate reads keys opened)) [
      | inr v ↦ absurd (ground (arith, v, h))
      | inl v ↦ elim (Result-cases q.0) [
        | inl (e, r) ↦ absurd (ground (arith, v, r, h))
        | inr (committed, r) ↦ (
          v,
          (
            ground (arith, v, r, h),
            rw (v, r, apply_delta_batch) (unevicted s.eviction_policy committed q.1 p),
          ),
        )
      ]
    ]

-- A batch that succeeds, without eviction and without a deletion of the row, counts the version of a row
-- up by the number of its writes of the row, if the version stays below `u64`: from 0 for a row that was
-- not there, so a row that is written has another version than before.
pub apply_delta_batch-version :
    {N : Type 0} (serde : Serde N) (clock : ℕ → ℕ) (deltas : List (RowDelta N))
    (reads : ReadVersions) (s : TableStore) (c : List (RowDelta N)) (t k : Bytes)
    → s.eviction_policy ≡ no_eviction
    → NotDeleted t k deltas
    → row_version t k s + length deltas < 2 ^ 64
    → (apply_delta_batch serde clock deltas reads s).0 ≡ ok c
    → row_version t k (apply_delta_batch serde clock deltas reads s).1
      ≡ row_version t k s + count_writes (own_delta s) t k deltas
unfolding apply_delta_batch
apply_delta_batch-version serde clock [] reads s c t k p d b h = plus_none (row_version t k s)
apply_delta_batch-version serde clock (delta ∷ deltas) reads s c t k p d b h =
    let all = delta ∷ deltas in
    let keys = lock_keys s all in
    let opened = open_tables keys s in
    let same = version-Keeps t k s opened (open_tables-Keeps keys s) in
    let (v, (r, after)) = succeeded serde clock all reads s c (λ e. ground (arith, e)) p h in
    rw after (
      apply_deltas-Version serde (own_delta s) clock 0 t k [] all opened d (omega (arith, same)) c r
      ∙ omega (arith, same))
