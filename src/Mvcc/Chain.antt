-- ===== src/Mvcc/Chain.antt =====
-- src/mvcc/mod.rs: versions and version chains. The value type `D` stands for `Datum`, which the
-- engine moves and never looks into.
pub mod Prune
use voltra.Prelude.{
  ℕ, suc, ◌+◌, ◌≡◌, Bool, true, false, Option, none, some, List, [], ◌∷◌, leb, take, find, some_and,
  if◌then◌else◌,
}

pub record Version (D : Type 0) : Type 0 where
  pub commit_ts : ℕ
  pub value : Option D
  pub expires_at_ms : Option ℕ

-- Newest first.
pub record Chain (D : Type 0) : Type 0 where
  pub versions : List (Version D)

-- `iter().position(p)`
abbrev pub position {ℓ} : {A : Type ℓ} → (A → Bool) → List A → Option ℕ
position p [] = none
position p (x ∷ xs) = elim (p x) [
  | true ↦ some 0
  | false ↦ elim (position p xs) [ none ↦ none | some i ↦ some (suc i) ]
]

-- `expires_at_ms.map(|e| e <= now).unwrap_or(false)`
abbrev pub expired : Option ℕ → ℕ → Bool
expired exp now = some_and (λ e. leb e now) exp

module _ {D : Type 0} where
  abbrev pub empty_chain : Chain D
  empty_chain = record { versions = [] }

  -- `versions.first()`
  abbrev pub first : Chain D → Option (Version D)
  first c = elim c.versions [ [] ↦ none | v ∷ vs ↦ some v ]

  unfoldable pub visible_at : ℕ → Chain D → Option (Version D)
  visible_at ts c = find (λ v. leb v.commit_ts ts) c.versions

  unfoldable pub head_ts : Chain D → ℕ
  head_ts c = elim (first c) [ none ↦ 0 | some v ↦ v.commit_ts ]

  unfoldable pub prune : ℕ → Chain D → Chain D
  prune min_active c = elim (position (λ (v : Version D). leb v.commit_ts min_active) c.versions) [
    | none ↦ c
    | some idx ↦ record { versions = take (idx + 1) c.versions }
  ]

  -- `versions.insert(0, v)`
  abbrev pub push : Version D → Chain D → Chain D
  push v c = record { versions = v ∷ c.versions }

  -- Whether the newest version holds a value.
  abbrev pub head_live : Chain D → Bool
  head_live c = elim (first c) [
    | none ↦ false
    | some v ↦ elim v.value [ none ↦ false | some d ↦ true ]
  ]

  -- A version as a reader sees it: nothing, where it is a tombstone.
  abbrev pub shown : Option (Version D) → Option (D × Option ℕ)
  shown none = none
  shown (some v) = elim v.value [ none ↦ none | some d ↦ some (d, v.expires_at_ms) ]

  -- A value and its expiry, as a read at `now` returns it.
  abbrev pub unexpired : ℕ → Option (D × Option ℕ) → Option D
  unexpired now none = none
  unexpired now (some (d, exp)) = if expired exp now then none else some d
