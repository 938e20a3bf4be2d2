-- ===== src/Table/Routing/Flat.antt =====
-- The tables of the server and of its lobbies are one flat space of names.
use voltra.Prelude.{
  ◌≡◌, refl, sym, ap, ◌∙◌, true, false, Option, none, some, arith, if◌then◌else◌, ◌==◌, Eq-nat,
  Eq-list, list_eq_iff, Option-cases, Bool-cases, inl, inr,
}
use voltra.Prelude.Map.{lookup, lookup-insert}
use voltra.Table.Value.{Bytes, Value, Serde}
use voltra.Table.Blobs.{BlobStore}
use voltra.Table.Store.{StoredRow, Result, TableStore, with_eviction}
use voltra.Table.Rows.{row_at, write_row_unlocked}
use voltra.Table.Rows.Changes.{is_row, Touches, write_row-Touches, delete_row-Touches}
use voltra.Table.Lobby.{parse_lobby_key, parse-lobby_table}
use voltra.Table.Routing.{
  Root, open_blobs, for_lobby, with_file, get_store, put_store, get_lobby_store, put_lobby_store,
  in_lobby, on_table, lobby_row, root_row, set_row, delete_in, delete_row,
}

module _ {A : Type 0} where
  -- An operation that leaves all rows but one.
  abbrev Local : Bytes → (Bytes → TableStore → Result A × TableStore) → Type 0
  Local key op = (name : Bytes) (s : TableStore) → Touches name key s (op name s).1

  in_lobby-elsewhere :
      (op : Bytes → TableStore → Result A × TableStore) (logical key t k : Bytes) (s : TableStore)
      → Local key op
      → is_row logical key t k ≡ false
      → lobby_row t k (in_lobby op logical s).1 ≡ lobby_row t k s
  unfolding lobby_row in_lobby
  in_lobby-elsewhere op logical key t k s l o = elim (Option-cases (parse_lobby_key logical)) [
    | inl e ↦ ground (arith, e, (l logical s).elsewhere t k o)
    | inr (inner, e) ↦ ground (arith, e)
  ]

lobby_rows : Bytes → Bytes → Bytes → Root → Option StoredRow
lobby_rows lid logical key root = lobby_row logical key (get_lobby_store lid root)

root_row-lobby :
    (name key lid logical : Bytes) (root : Root)
    → parse_lobby_key name ≡ some (lid, logical)
    → root_row name key root ≡ lobby_rows lid logical key root
unfolding root_row lobby_rows
root_row-lobby name key lid logical root h = rw (h, root_row) refl

-- The row of a store that may not be there yet: it does not depend on the file.
stored_row : Bytes → Bytes → Option TableStore → Option StoredRow
stored_row logical key none = none
stored_row logical key (some store) = lobby_row logical key store

for_lobby_empty :
    (logical key : Bytes) (blobs : BlobStore) → lobby_row logical key (for_lobby blobs) ≡ none
unfolding lobby_row with_eviction lookup
for_lobby_empty logical key blobs = elim (Option-cases (parse_lobby_key logical)) [
  | inl e ↦ rw (e, lobby_row) refl
  | inr (inner, e) ↦ rw (e, lobby_row) refl
]

with_file-same :
    (bytes logical key : Bytes) (s : TableStore)
    → lobby_row logical key (with_file bytes s) ≡ lobby_row logical key s
unfolding lobby_row
with_file-same bytes logical key s = refl

lobby_rows-stored :
    (lid logical key : Bytes) (root : Root)
    → lobby_rows lid logical key root ≡ stored_row logical key (lookup lid root.lobby_stores)
unfolding lobby_rows get_lobby_store stored_row
lobby_rows-stored lid logical key root = elim (Option-cases (lookup lid root.lobby_stores)) [
  | inl e ↦ rw (e, get_lobby_store) (for_lobby_empty logical key (open_blobs root))
  | inr (store, e) ↦ rw (e, get_lobby_store) (with_file-same root.file logical key store)
]

lobby_rows-store :
    (lid logical key : Bytes) (s : TableStore) (root : Root)
    → lobby_rows lid logical key (put_store s root) ≡ lobby_rows lid logical key root
lobby_rows-store lid logical key s root =
    lobby_rows-stored lid logical key (put_store s root)
    ∙ sym (lobby_rows-stored lid logical key root)

lobby_rows-at :
    (lid logical key : Bytes) (root : Root)
    → lobby_row logical key (get_lobby_store lid root) ≡ lobby_rows lid logical key root
unfolding lobby_rows
lobby_rows-at lid logical key root = refl

root_row-global :
    (name key : Bytes) (root : Root)
    → parse_lobby_key name ≡ none
    → root_row name key root ≡ row_at name key root.store
unfolding root_row
root_row-global name key root h = rw (h, root_row) refl

lobby_rows-put :
    (lid other logical key : Bytes) (s : TableStore) (root : Root)
    → lobby_rows other logical key (put_lobby_store lid s root)
      ≡ (if lid == other then lobby_row logical key s else lobby_rows other logical key root)
lobby_rows-put lid other logical key s root =
    lobby_rows-stored other logical key (put_lobby_store lid s root)
    ∙ (unfold stored_row in
        ground (
          arith,
          lookup-insert lid other s root.lobby_stores,
          Bool-cases (lid == other),
          lobby_rows-stored other logical key root,
        ))

-- Two names of one lobby table are one name.
same_name :
    (name t lid logical : Bytes)
    → parse_lobby_key name ≡ some (lid, logical)
    → parse_lobby_key t ≡ some (lid, logical)
    → name ≡ t
same_name name t lid logical h g =
    ((parse-lobby_table name lid logical).0 h).1 ∙ sym ((parse-lobby_table t lid logical).0 g).1

other_row :
    (name t key k lid logical inner : Bytes)
    → parse_lobby_key name ≡ some (lid, logical)
    → parse_lobby_key t ≡ some (lid, inner)
    → is_row name key t k ≡ false
    → is_row logical key inner k ≡ false
other_row name t key k lid logical inner h g o = elim (Bool-cases (logical == inner)) [
  | inr e ↦ ground (arith, e)
  | inl e ↦
      let same : logical ≡ inner = (list_eq_iff logical inner).0 e in
      let one : name ≡ t = same_name name t lid logical h (rw same g) in
      let equal : (name == t) ≡ true = (list_eq_iff name t).1 one in ground (arith, e, o, equal)
]

module _ {A : Type 0} where
  -- An operation on the row of a name leaves the rows of all other names and keys.
  on_table-elsewhere :
      (op : Bytes → TableStore → Result A × TableStore) (name key t k : Bytes) (root : Root)
      → Local key op
      → is_row name key t k ≡ false
      → root_row t k (on_table op name root).1 ≡ root_row t k root
  unfolding on_table
  on_table-elsewhere op name key t k root l o = elim (Option-cases (parse_lobby_key name)) [
    | inl e ↦
        rw (e, on_table)
          (elim (Option-cases (parse_lobby_key t)) [
            | inl g ↦
                rw
                  (
                    root_row-global t k root g,
                    root_row-global t k (put_store (op name (get_store root)).1 root) g,
                  )
                  ((l name (get_store root)).elsewhere t k o)
            | inr ((other, inner), g) ↦
                rw
                  (
                    root_row-lobby t k other inner root g,
                    root_row-lobby t k other inner (put_store (op name (get_store root)).1 root) g,
                  )
                  (lobby_rows-store other inner k (op name (get_store root)).1 root)
          ])
    | inr ((lid, logical), e) ↦
        rw (e, on_table)
          (elim (Option-cases (parse_lobby_key t)) [
            | inl g ↦
                rw
                  (
                    root_row-global t k root g,
                    root_row-global t k
                        (put_lobby_store lid (in_lobby op logical (get_lobby_store lid root)).1
                          root)
                        g,
                  )
                  refl
            | inr ((other, inner), g) ↦
                let lobby = get_lobby_store lid root in
                let after = (in_lobby op logical lobby).1 in
                rw
                  (
                    root_row-lobby t k other inner (put_lobby_store lid after root) g,
                    root_row-lobby t k other inner root g,
                    lobby_rows-put lid other inner k after root,
                  )
                  (elim (Bool-cases (lid == other)) [
                    | inr f ↦ rw f refl
                    | inl f ↦
                        let same : lid ≡ other = (list_eq_iff lid other).0 f in
                        rw f (
                          in_lobby-elsewhere op logical key inner k lobby l
                            (other_row name t key k lid logical inner e (rw same g) o)
                          ∙ lobby_rows-at lid inner k root
                          ∙ ap (λ i. lobby_rows i inner k root) same)
                  ])
          ])
  ]

-- A write and a deletion of the row of a name and a key, global or of a lobby, leave the rows of every
-- other name or key, in every store: no two table names meet in one table.
pub set_row-elsewhere :
    {N : Type 0} (serde : Serde N) (name key t k : Bytes) (value : Value N) (root : Root)
    → is_row name key t k ≡ false
    → (root_row t k (set_row serde name key value root).1 ≡ root_row t k root)
      × (root_row t k (delete_row serde name key root).1 ≡ root_row t k root)
unfolding set_row delete_row
set_row-elsewhere serde name key t k value root o = (
  on_table-elsewhere (λ table store. write_row_unlocked serde table key value store) name key t k
      root (λ n s. write_row-Touches serde n key value s) o,
  on_table-elsewhere (delete_in serde key) name key t k root
      (λ n s. delete_row-Touches serde n key s) o,
)
