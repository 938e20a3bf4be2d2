-- ===== src/Table/Batch/Versions.antt =====
-- The versions of the rows: what a batch read is still there when it commits, and every write counts.
use voltra.Prelude.{
  ℕ, suc, ◌+◌, ◌%◌, ◌^◌, ◌<◌, ◌≤◌, ◌≡◌, refl, sym, ◌∙◌, Bool, true, false, ◌&&◌, Option, List, [],
  ◌∷◌, arith, All, length, if◌then◌else◌, Eq-nat, Eq-list, list_eq_iff, Option-cases, Bool-cases,
  inl, inr,
}
use voltra.Table.Value.{Bytes, Value, Serde}
use voltra.Table.Store.{
  Operation, insert_op, update_op, delete_op, counter_add_op, other_op, StoredRow, RowDelta, Result,
  ok, err, TableStore,
}
use voltra.Table.Rows.{row_at, write_row_unlocked, delete_row_unlocked, row_version}
use voltra.Table.Rows.Changes.{
  is_row, Touches, Keeps, same-Keeps, write_row-Touches, delete_row-Touches, write_row-version,
}
use voltra.Table.Batch.{
  Undo, Action, refuse, fail, write, delete, track, action, counter_action, get_counter_in,
  after_write, take_action, apply_deltas, commit, row_data_value,
}
use voltra.Table.Batch.Cases.{Result-cases, track-tables, action-tables}

abbrev pub is_deletion : Operation → Bool
is_deletion delete_op = true
is_deletion _ = false

-- The deltas of the shard that are about a row.
abbrev pub count_writes : {N : Type 0} → (RowDelta N → Bool) → Bytes → Bytes → List (RowDelta N) → ℕ
count_writes own t k [] = 0
count_writes own t k (d ∷ deltas) =
    (if own d && is_row d.table_name d.row_key t k then 1 else 0) + count_writes own t k deltas

-- No delta of the row is a deletion.
abbrev pub NotDeleted : {N : Type 0} → Bytes → Bytes → List (RowDelta N) → Type 0
NotDeleted t k deltas =
    All (λ d. (is_row d.table_name d.row_key t k && is_deletion d.operation) ≡ false) deltas

pub version-Keeps :
    (t k : Bytes) (s after : TableStore) → Keeps s after → row_version t k after ≡ row_version t k s
unfolding row_version
version-Keeps t k s after h = ground (arith, h.same t k)

version-Touches :
    (name key t k : Bytes) (s after : TableStore)
    → Touches name key s after
    → is_row name key t k ≡ false
    → row_version t k after ≡ row_version t k s
unfolding row_version
version-Touches name key t k s after h o = ground (arith, h.elsewhere t k o)

small : (n : ℕ) → n + 1 < 2 ^ 64 → (n + 1) % 2 ^ 64 ≡ n + 1
small n h = omega arith

pub plus_none : (n : ℕ) → n ≡ n + 0
plus_none n = omega arith

at_most_one : (b : Bool) → (if b then 1 else 0) ≤ 1
at_most_one true = omega arith
at_most_one false = omega arith

module _ {N : Type 0} (serde : Serde N) where
  -- What succeeds leaves the version `n` of a row.
  abbrev Version : Bytes → Bytes → ℕ → Result (List (RowDelta N)) × TableStore → Type 0
  Version t k n q = (c : List (RowDelta N)) → q.0 ≡ ok c → row_version t k q.1 ≡ n

  commit-Version :
      (t k : Bytes) (n : ℕ) (d : RowDelta N) (q : Result (List (RowDelta N)) × TableStore)
      → Version t k n q
      → Version t k n (commit d q)
  commit-Version t k n d (err e, s) v = λ c h. absurd (ground (arith, h))
  commit-Version t k n d (ok rest, s) v = λ c h. v rest refl

  after_write-Version :
      (t k : Bytes) (n : ℕ) (undo : Undo)
      (later : RowDelta N → TableStore → Result (List (RowDelta N)) × TableStore)
      (q : Result (RowDelta N) × TableStore)
      → ((c : RowDelta N) → q.0 ≡ ok c → Version t k n (later c q.1))
      → Version t k n (after_write serde undo later q)
  unfolding after_write
  after_write-Version t k n undo later (err e, s) v = λ c h. absurd (ground (arith, h))
  after_write-Version t k n undo later (ok d, s) v = commit-Version t k n d (later d s) (v d refl)

  write_row-counted :
      (name key t k : Bytes) (value : Value N) (s : TableStore) (c : RowDelta N)
      → row_version t k s + 1 < 2 ^ 64
      → (write_row_unlocked serde name key value s).0 ≡ ok c
      → row_version t k (write_row_unlocked serde name key value s).1
        ≡ row_version t k s + (if is_row name key t k then 1 else 0)
  write_row-counted name key t k value s c b h = elim (Bool-cases (is_row name key t k)) [
    | inl e ↦
        let n : t ≡ name = ground (arith, e, list_eq_iff name t) in
        let j : k ≡ key = ground (arith, e, list_eq_iff key k) in
        rw e (
          rw (n, j)
            (write_row-version serde name key value s c h
              ∙ small (row_version name key s) (rw (sym n, sym j) b)))
    | inr e ↦ rw e (
        version-Touches name key t k s (write_row_unlocked serde name key value s).1
          (write_row-Touches serde name key value s) e
        ∙ plus_none (row_version t k s))
  ]

  action-deletion :
      (op : Operation) (delta : RowDelta N) (s : TableStore)
      → (action serde op delta s).0 ≡ delete
      → is_deletion op ≡ true
  unfolding action counter_action
  action-deletion insert_op delta s h = ground (arith, h, Option-cases (row_data_value serde delta))
  action-deletion update_op delta s h = ground (arith, h, Option-cases (row_data_value serde delta))
  action-deletion delete_op delta s h = refl
  action-deletion counter_add_op delta s h =
      ground (arith, h, Result-cases (get_counter_in serde delta.table_name delta.row_key s))
  action-deletion (other_op name) delta s h = ground (arith, h)

  take_action-Version :
      (t k : Bytes) (n : ℕ) (applied : Undo) (d : RowDelta N) (old : Option StoredRow)
      (later : RowDelta N → TableStore → Result (List (RowDelta N)) × TableStore) (step : Action N)
      (s : TableStore)
      → row_version t k s + 1 < 2 ^ 64
      → (step ≡ delete → is_row d.table_name d.row_key t k ≡ false)
      → ((c : RowDelta N) (after : TableStore)
          → row_version t k after
            ≡ row_version t k s + (if is_row d.table_name d.row_key t k then 1 else 0)
          → Version t k n (later c after))
      → Version t k n (take_action serde applied d old later step s)
  unfolding take_action
  take_action-Version t k n applied d old later (refuse e) s b f v =
      λ c h. absurd (ground (arith, h))
  take_action-Version t k n applied d old later (fail e) s b f v = λ c h. absurd (ground (arith, h))
  take_action-Version t k n applied d old later (write value) s b f v =
      let q = write_row_unlocked serde d.table_name d.row_key value s in
      after_write-Version t k n ((d.table_name, (d.row_key, old)) ∷ applied) later q
        (λ c h. v c q.1 (write_row-counted d.table_name d.row_key t k value s c b h))
  take_action-Version t k n applied d old later delete s b f v =
      let q = delete_row_unlocked serde d.table_name d.row_key s in
      commit-Version t k n q.0 (later q.0 q.1) (
        v q.0 q.1 (
          rw (f refl) (
            version-Touches d.table_name d.row_key t k s q.1
              (delete_row-Touches serde d.table_name d.row_key s) (f refl)
            ∙ plus_none (row_version t k s))))

  pub apply_deltas-Version :
      (own : RowDelta N → Bool) (clock : ℕ → ℕ) (i : ℕ) (t k : Bytes) (applied : Undo)
      (deltas : List (RowDelta N)) (s : TableStore)
      → NotDeleted t k deltas
      → row_version t k s + length deltas < 2 ^ 64
      → Version t k
          (row_version t k s + count_writes own t k deltas)
          (apply_deltas serde own clock i applied deltas s)
  unfolding apply_deltas
  apply_deltas-Version own clock i t k applied [] s d b = λ c h. plus_none (row_version t k s)
  apply_deltas-Version own clock i t k applied (delta ∷ deltas) s d b =
      elim (Bool-cases (own delta)) [
        | inr o ↦
            rw (o, apply_deltas)
              (λ c h.
                apply_deltas-Version own clock (suc i) t k applied deltas s d.1 (omega arith) c h
                ∙ omega arith)
        | inl o ↦
            rw (o, apply_deltas)
              (let q = action serde delta.operation delta s in
                let same =
                  version-Keeps t k s q.1
                    (same-Keeps s q.1 (action-tables serde delta.operation delta s)) in
                let old = row_at delta.table_name delta.row_key s in
                let undo : Undo = (delta.table_name, (delta.row_key, old)) ∷ applied in
                take_action-Version t k _ applied delta old
                  (λ committed after.
                    apply_deltas serde own clock (suc i) undo deltas
                      (track (clock i) committed after))
                  q.0 q.1 (omega (arith, same))
                  (λ a. ground (arith, d.0, action-deletion delta.operation delta s a))
                  (λ committed after v c h.
                    let tracked = track (clock i) committed after in
                    let here = is_row delta.table_name delta.row_key t k in
                    let kept =
                      version-Keeps t k after tracked
                        (same-Keeps after tracked (track-tables (clock i) committed after)) in
                    apply_deltas-Version own clock (suc i) t k undo deltas tracked d.1
                      (omega (arith, kept, v, same, at_most_one here)) c h
                    ∙ omega (arith, kept, v, same)))
      ]
