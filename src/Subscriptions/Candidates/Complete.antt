-- ===== src/Subscriptions/Candidates/Complete.antt =====
-- No row that a predicate selects is missing from the candidates of the indexes.
use voltra.Prelude.{
  ◌≡◌, refl, sym, ap, ◌∙◌, Bool, true, false, ◌||◌, some, List, [], ◌∷◌, ◌++◌, arith, any, retain,
  All, ◌==◌, Eq-nat, Eq-list, list_eq_iff, eq_refl, Option-cases, Bool-cases, inl, inr,
}
use voltra.Leaderboard.{bytes_lt}
use voltra.Table.Value.{
  Bytes, Value, bool, number, string, Serde, get, value_to_index_key, decode_row_bytes,
}
use voltra.Table.SortedIndex.{set_insert}
use voltra.Table.Store.{StoredRow, TableStore, row_key_field}
use voltra.Table.Rows.{row_at, index_lookup}
use voltra.Prelude.Map.{lookup}
use voltra.Table.History.{Reached, row_matches, index_lookup-scan}
use voltra.Subscriptions.Predicate.{
  eq_op, ne_op, gt_op, lt_op, ge_op, le_op, Predicate, comparison, in_set, both, either, Numbers,
  compare, extract_field, eval,
}
use voltra.Subscriptions.Candidates.{contains, sorted_set, synthetic, lookup_all, index_candidates}

contains-append :
    (k : Bytes) (xs ys : List Bytes) → contains k (xs ++ ys) ≡ (contains k xs || contains k ys)
contains-append k [] ys = refl
contains-append k (x ∷ xs) ys = ground (arith, contains-append k xs ys)

contains-retain :
    (p : Bytes → Bool) (k : Bytes) (xs : List Bytes)
    → contains k xs ≡ true
    → p k ≡ true
    → contains k (retain p xs) ≡ true
contains-retain p k [] h q = absurd (ground (arith, h))
contains-retain p k (x ∷ xs) h q = elim (Bool-cases (x == k)) [
  | inl e ↦ let same : p x ≡ true = rw ((list_eq_iff x k).0 e) q in ground (arith, same, e)
  | inr e ↦ ground (arith, e, h, contains-retain p k xs, q)
]

contains-set_insert :
    (k key : Bytes) (xs : List Bytes)
    → contains k (set_insert key xs) ≡ ((key == k) || contains k xs)
unfolding set_insert
contains-set_insert k key [] = refl
contains-set_insert k key (x ∷ xs) = elim (Bool-cases (bytes_lt key x)) [
  | inl e ↦ rw e refl
  | inr e ↦ elim (Bool-cases (key == x)) [
    | inl f ↦ let same : key ≡ x = (list_eq_iff key x).0 f in rw (e, f, same) (ground arith)
    | inr f ↦ rw (e, f) (ground (arith, contains-set_insert k key xs))
  ]
]

contains-sorted_set : (k : Bytes) (xs : List Bytes) → contains k (sorted_set xs) ≡ contains k xs
unfolding sorted_set
contains-sorted_set k [] = refl
contains-sorted_set k (x ∷ xs) =
    contains-set_insert k x (sorted_set xs) ∙ rw (contains-sorted_set k xs) refl

module _ {N : Type 0} (serde : Serde N) (numbers : Numbers N) where
  -- Values that equal a constant have its text in an index; only a zero of a float has not.
  pub record Faithful (v : Value N) : Type 0 where
    pub same_value :
        (w : Value N)
        → numbers.value_eq w v ≡ true
        → value_to_index_key serde w ≡ value_to_index_key serde v
    pub same_number :
        (n e : N)
        → v ≡ number e
        → numbers.number_eq n e ≡ true
        → serde.number_to_string n ≡ serde.number_to_string e

  abbrev pub FaithfulIn : Predicate N → Type 0
  FaithfulIn (comparison f op value) = Faithful value
  FaithfulIn (in_set f values) = All Faithful values
  FaithfulIn (both l r) = FaithfulIn l × FaithfulIn r
  FaithfulIn (either l r) = FaithfulIn l × FaithfulIn r

  compare_eq-text :
      (a v : Value N)
      → Faithful v
      → compare serde numbers eq_op (some a) v ≡ true
      → value_to_index_key serde a ≡ value_to_index_key serde v
  unfolding compare
  compare_eq-text (string s) (string e) f h = ap some ((list_eq_iff s e).0 h)
  compare_eq-text (number n) (number e) f h = ap some (f.same_number n e refl h)
  compare_eq-text (bool true) (bool true) f h = refl
  compare_eq-text (bool false) (bool false) f h = refl
  compare_eq-text (bool true) (bool false) f h = absurd (ground (arith, h))
  compare_eq-text (bool false) (bool true) f h = absurd (ground (arith, h))
  compare_eq-text a v f h = absurd (ground (arith, h))

  -- A row with the key that `prepare_value` stamps on objects.
  pub record Stamped (key : Bytes) (value : Value N) (row : StoredRow) : Type 0 where
    pub decodes : decode_row_bytes serde row.data_bytes ≡ some value
    pub has_key : get row_key_field value ≡ some (string key)

  extract-get :
      (table key f : Bytes) (value : Value N) (row : StoredRow)
      → Stamped key value row
      → extract_field serde numbers (synthetic table key value) f ≡ get f value
  unfolding extract_field
  extract-get table key f value row st = elim (Bool-cases (f == row_key_field)) [
    | inl e ↦
        let same : f ≡ row_key_field = (list_eq_iff f row_key_field).0 e in rw same (sym st.has_key)
    | inr e ↦ rw e refl
  ]

  lookup-text :
      (s : TableStore) (table f : Bytes) (v : Value N) (keys : List Bytes)
      → index_lookup serde table f v s ≡ some keys
      → (text : Bytes) × (value_to_index_key serde v ≡ some text)
  unfolding index_lookup
  lookup-text s table f v keys h = elim (Option-cases (value_to_index_key serde v)) [
    | inr (text, e) ↦ (text, e)
    | inl e ↦ elim (Option-cases (lookup table s.tables)) [
      | inl d ↦ absurd (ground (arith, d, h))
      | inr (t, d) ↦ elim (Option-cases (lookup f t.field_indexes)) [
        | inl g ↦ absurd (ground (arith, d, g, h))
        | inr (idx, g) ↦ absurd (ground (arith, d, g, e, h))
      ]
    ]
  ]

  selected :
      (f text : Bytes) (v a value : Value N) (row : StoredRow)
      → decode_row_bytes serde row.data_bytes ≡ some value
      → get f value ≡ some a
      → value_to_index_key serde a ≡ some text
      → value_to_index_key serde v ≡ some text
      → row_matches serde f v (some row) ≡ true
  selected f text v a value row d g ka kv = ground (arith, d, g, ka, kv, eq_refl text)

  -- A row that has the text of a value is among the keys of the index.
  matches-found :
      (s : TableStore) (table f key : Bytes) (v a value : Value N) (row : StoredRow)
      (keys : List Bytes)
      → Reached serde s
      → row_at table key s ≡ some row
      → Stamped key value row
      → get f value ≡ some a
      → value_to_index_key serde a ≡ value_to_index_key serde v
      → index_lookup serde table f v s ≡ some keys
      → contains key keys ≡ true
  matches-found s table f key v a value row keys r here st g same h =
      let (text, known) = lookup-text s table f v keys h in
      index_lookup-scan serde s table f v keys key r h
      ∙ rw here (selected f text v a value row st.decodes g (same ∙ known) known)

  eval_comparison :
      (table key f : Bytes) (v value : Value N) (row : StoredRow)
      → Stamped key value row
      → eval serde numbers (comparison f eq_op v) (synthetic table key value) ≡ true
      → (a : Value N) × ((get f value ≡ some a) × (compare serde numbers eq_op (some a) v ≡ true))
  unfolding eval compare
  eval_comparison table key f v value row st h = elim (Option-cases (get f value)) [
    | inl e ↦ absurd (ground (arith, h, e, extract-get table key f value row st))
    | inr (a, e) ↦ (
      a,
      (
        e,
        sym (ap (λ o. compare serde numbers eq_op o v) (extract-get table key f value row st ∙ e))
            ∙ h,
      ),
    )
  ]

  eval_in :
      (table key f : Bytes) (values : List (Value N)) (value : Value N) (row : StoredRow)
      → Stamped key value row
      → eval serde numbers (in_set f values) (synthetic table key value) ≡ true
      → (a : Value N) × ((get f value ≡ some a) × (any (λ v. numbers.value_eq a v) values ≡ true))
  unfolding eval
  eval_in table key f values value row st h = elim (Option-cases (get f value)) [
    | inl e ↦ absurd (ground (arith, h, e, extract-get table key f value row st))
    | inr (a, e) ↦ (a, (e, ground (arith, h, e, extract-get table key f value row st)))
  ]

  lookup_all-found :
      (s : TableStore) (table f key : Bytes) (values : List (Value N)) (a value : Value N)
      (row : StoredRow) (keys : List Bytes)
      → Reached serde s
      → row_at table key s ≡ some row
      → Stamped key value row
      → get f value ≡ some a
      → All Faithful values
      → any (λ v. numbers.value_eq a v) values ≡ true
      → lookup_all serde table f values s ≡ some keys
      → contains key keys ≡ true
  unfolding lookup_all
  lookup_all-found s table f key [] a value row keys r here st g p m h = absurd (ground (arith, m))
  lookup_all-found s table f key (v ∷ values) a value row keys r here st g p m h =
      elim (Option-cases (index_lookup serde table f v s)) [
        | inl e ↦ absurd (ground (arith, e, h))
        | inr (found, e) ↦ elim (Option-cases (lookup_all serde table f values s)) [
          | inl d ↦ absurd (ground (arith, e, d, h))
          | inr (more, d) ↦
              let all : keys ≡ found ++ more = ground (arith, e, d, h) in
              rw (all, contains-append key found more)
                (elim (Bool-cases (numbers.value_eq a v)) [
                  | inl q ↦
                      rw
                        (matches-found s table f key v a value row found r here st g
                          (p.0.same_value a q) e)
                        refl
                  | inr q ↦
                      let rest =
                        lookup_all-found s table f key values a value row more r here st g p.1
                          (ground (arith, m, q)) d in
                      ground (arith, rest)
                ])
        ]
      ]

  -- After any writes, deletes, index changes and commits that succeed, where nothing is evicted, a row that
  -- a predicate selects is among the keys that the indexes give as candidates, when they give any: the
  -- first answer of a subscription misses nothing that a scan would find. The row decodes to an object
  -- with its key stamped, which leaves out an inventory in the file of blobs; the constants of the
  -- predicate have the texts of the values that equal them.
  pub index_candidates_complete :
      (p : Predicate N) (s : TableStore) (table key : Bytes) (value : Value N) (row : StoredRow)
      (keys : List Bytes)
      → Reached serde s
      → FaithfulIn p
      → row_at table key s ≡ some row
      → Stamped key value row
      → eval serde numbers p (synthetic table key value) ≡ true
      → index_candidates serde p table s ≡ some keys
      → contains key keys ≡ true
  unfolding index_candidates eval
  index_candidates_complete (comparison f eq_op v) s table key value row keys r p here st h e =
      let (a, (g, c)) = eval_comparison table key f v value row st h in
      matches-found s table f key v a value row keys r here st g (compare_eq-text a v p c) e
  index_candidates_complete (comparison f ne_op v) s table key value row keys r p here st h e =
      absurd (ground (arith, e))
  index_candidates_complete (comparison f gt_op v) s table key value row keys r p here st h e =
      absurd (ground (arith, e))
  index_candidates_complete (comparison f lt_op v) s table key value row keys r p here st h e =
      absurd (ground (arith, e))
  index_candidates_complete (comparison f ge_op v) s table key value row keys r p here st h e =
      absurd (ground (arith, e))
  index_candidates_complete (comparison f le_op v) s table key value row keys r p here st h e =
      absurd (ground (arith, e))
  index_candidates_complete (in_set f values) s table key value row keys r p here st h e =
      let (a, (g, m)) = eval_in table key f values value row st h in
      elim (Option-cases (lookup_all serde table f values s)) [
        | inl d ↦ absurd (ground (arith, d, e))
        | inr (found, d) ↦
            let same : keys ≡ sorted_set found = ground (arith, d, e) in
            rw (same, contains-sorted_set key found)
              (lookup_all-found s table f key values a value row found r here st g p m d)
      ]
  index_candidates_complete (both l r) s table key value row keys reached p here st h e =
      let left = index_candidates_complete l s table key value row in
      let right = index_candidates_complete r s table key value row in
      let hl : eval serde numbers l (synthetic table key value) ≡ true = ground (arith, h) in
      let hr : eval serde numbers r (synthetic table key value) ≡ true = ground (arith, h) in
      elim (Option-cases (index_candidates serde l table s)) [
        | inl a ↦ right keys reached p.1 here st hr (ground (arith, a, e))
        | inr (ls, a) ↦ elim (Option-cases (index_candidates serde r table s)) [
          | inl b ↦ left keys reached p.0 here st hl (ground (arith, a, b, e))
          | inr (rs, b) ↦
              let same : keys ≡ retain (λ k. contains k rs) ls = ground (arith, a, b, e) in
              rw same (
                contains-retain (λ k. contains k rs) key ls (left ls reached p.0 here st hl a)
                  (right rs reached p.1 here st hr b))
        ]
      ]
  index_candidates_complete (either l r) s table key value row keys reached p here st h e =
      let left = index_candidates_complete l s table key value row in
      let right = index_candidates_complete r s table key value row in
      elim (Option-cases (index_candidates serde l table s)) [
        | inl a ↦ absurd (ground (arith, a, e))
        | inr (ls, a) ↦ elim (Option-cases (index_candidates serde r table s)) [
          | inl b ↦ absurd (ground (arith, a, b, e))
          | inr (rs, b) ↦
              let same : keys ≡ sorted_set (ls ++ rs) = ground (arith, a, b, e) in
              rw (same, contains-sorted_set key (ls ++ rs), contains-append key ls rs)
                (elim (Bool-cases (eval serde numbers l (synthetic table key value))) [
                  | inl t ↦ rw (left ls reached p.0 here st t a) refl
                  | inr t ↦
                      let found = right rs reached p.1 here st (ground (arith, t, h)) b in
                      ground (arith, found)
                ])
        ]
      ]
