-- ===== src/Table/FieldIndex.antt =====
-- table/mod.rs: `FieldIndex`, the keys of the rows under each text of a field.
use voltra.Prelude.{
  ℕ, ◌≡◌, refl, sym, ap, Bool, true, false, ◌&&◌, Option, none, some, List, [], ◌∷◌, arith, is_some,
  any, length, if◌then◌else◌, Option-cases, Bool-cases, inl, inr, ◌==◌, Eq-nat, Eq-list,
  list_eq_iff,
}
use voltra.Prelude.Map.{
  Map, lookup, insert, remove, lookup-insert, lookup-remove, Distinct, insert-Distinct,
  remove-Distinct,
}
use voltra.Table.Value.{Bytes}

-- A set of keys is a map to the unit.
abbrev pub Keys : Type 0
Keys = Map Bytes Unit

abbrev pub FieldIndex : Type 0
FieldIndex = Map Bytes Keys

abbrev pub is_empty {ℓ} : {A : Type ℓ} → List A → Bool
is_empty [] = true
is_empty _ = false

-- The bucket, or the empty one of `or_insert_with`.
abbrev pub bucket : Option Keys → Keys
bucket none = []
bucket (some keys) = keys

unfoldable pub index_insert : Bytes → Bytes → FieldIndex → FieldIndex
index_insert text key idx = insert text (insert key tt (bucket (lookup text idx))) idx

unfoldable pub index_remove : Bytes → Bytes → FieldIndex → FieldIndex
index_remove text key idx = elim (lookup text idx) [
  | none ↦ idx
  | some keys ↦
      let left = remove key keys in if is_empty left then remove text idx else insert text left idx
]

-- The upkeep for a text of the old value, and for one of the new.
abbrev pub drop_text : Bytes → Option Bytes → FieldIndex → FieldIndex
drop_text key none idx = idx
drop_text key (some text) idx = index_remove text key idx

abbrev pub add_text : Bytes → Option Bytes → FieldIndex → FieldIndex
add_text key none idx = idx
add_text key (some text) idx = index_insert text key idx

abbrev pub keys_of {ℓ κ} : {K : Type ℓ} {V : Type κ} → Map K V → List K
keys_of [] = []
keys_of ((k, v) ∷ m) = k ∷ keys_of m

unfoldable pub index_keys : Bytes → FieldIndex → List Bytes
index_keys text idx = keys_of (bucket (lookup text idx))

unfoldable pub index_counts : FieldIndex → Map Bytes ℕ
index_counts [] = []
index_counts ((text, keys) ∷ idx) = (text, length keys) ∷ index_counts idx

-- Whether a key stands under a text.
unfoldable pub member : Bytes → Bytes → FieldIndex → Bool
member text key idx = is_some (lookup key (bucket (lookup text idx)))

pub member-insert :
    (s k t j : Bytes) (idx : FieldIndex)
    → member t j (index_insert s k idx) ≡ (if s == t && k == j then true else member t j idx)
unfolding member index_insert
member-insert s k t j idx = ground (
  arith,
  list_eq_iff s t,
  lookup-insert s t (insert k tt (bucket (lookup s idx))) idx,
  lookup-insert k j tt (bucket (lookup s idx)),
)

is_empty-lookup : (k : Bytes) (keys : Keys) → is_empty keys ≡ true → lookup k keys ≡ none
unfolding lookup
is_empty-lookup k [] h = refl
is_empty-lookup k (e ∷ keys) h = ground (arith, h)

pub member-remove :
    (s k t j : Bytes) (idx : FieldIndex)
    → member t j (index_remove s k idx) ≡ (if s == t && k == j then false else member t j idx)
unfolding member index_remove lookup
member-remove s k t j idx = elim (Option-cases (lookup s idx)) [
  | inl e ↦ ground (arith, e, list_eq_iff s t)
  | inr (keys, e) ↦ ground (
    arith,
    e,
    list_eq_iff s t,
    is_empty-lookup j (remove k keys),
    lookup-remove s t idx,
    lookup-insert s t (remove k keys) idx,
    lookup-remove k j keys,
  )
]

pub any-keys :
    {V : Type 0} (k : Bytes) (m : Map Bytes V)
    → any (λ j. j == k) (keys_of m) ≡ is_some (lookup k m)
unfolding lookup
any-keys k [] = refl
any-keys k ((j, v) ∷ m) = ground (arith, any-keys k m)

-- No key stands twice under a text.
abbrev pub Tidy : FieldIndex → Type 0
Tidy idx = (text : Bytes) → Distinct (bucket (lookup text idx))

pub insert-Tidy : (s k : Bytes) (idx : FieldIndex) → Tidy idx → Tidy (index_insert s k idx)
unfolding index_insert
insert-Tidy s k idx h t = elim (Bool-cases (s == t)) [
  | inl e ↦
      rw (lookup-insert s t (insert k tt (bucket (lookup s idx))) idx, e)
        (insert-Distinct k tt (bucket (lookup s idx)) (h s))
  | inr e ↦ rw (lookup-insert s t (insert k tt (bucket (lookup s idx))) idx, e) (h t)
]

pub remove-Tidy : (s k : Bytes) (idx : FieldIndex) → Tidy idx → Tidy (index_remove s k idx)
unfolding index_remove
remove-Tidy s k idx h t = elim (Option-cases (lookup s idx)) [
  | inl e ↦ rw (e, index_remove) (h t)
  | inr (keys, e) ↦
      let left = remove k keys in
      let kept : Distinct left = remove-Distinct k keys (rw (sym (ap bucket e)) (h s)) in
      elim (Bool-cases (is_empty left)) [
        | inl m ↦
            rw (e, m, index_remove)
              (elim (Bool-cases (s == t)) [
                | inl f ↦ rw (lookup-remove s t idx, f) tt
                | inr f ↦ rw (lookup-remove s t idx, f) (h t)
              ])
        | inr m ↦
            rw (e, m, index_remove)
              (elim (Bool-cases (s == t)) [
                | inl f ↦ rw (lookup-insert s t left idx, f) kept
                | inr f ↦ rw (lookup-insert s t left idx, f) (h t)
              ])
      ]
]

pub add-Tidy :
    (key : Bytes) (text : Option Bytes) (idx : FieldIndex) → Tidy idx → Tidy (add_text key text idx)
add-Tidy key none idx h = h
add-Tidy key (some text) idx h = insert-Tidy text key idx h

pub drop-Tidy :
    (key : Bytes) (text : Option Bytes) (idx : FieldIndex)
    → Tidy idx
    → Tidy (drop_text key text idx)
drop-Tidy key none idx h = h
drop-Tidy key (some text) idx h = remove-Tidy text key idx h
