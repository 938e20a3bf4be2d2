-- ===== src/Table/Lobby.antt =====
-- table/mod.rs: the names of the lobby tables, `l{id}_{table}`, and what the program makes of them.
use voltra.Prelude.{
  ℕ, ◌≡◌, refl, Bool, true, false, ◌&&◌, Option, none, some, [], ◌∷◌, ◌++◌, arith, leb,
  if◌then◌else◌, ◌==◌, ◌>>=◌, Eq-nat, Option-cases, Bool-cases, inl, inr, ◌↔◌,
}
use voltra.Table.Value.{Bytes}

-- What stands before and after the first '_'.
unfoldable pub split_name : Bytes → Option (Bytes × Bytes)
split_name [] = none
split_name (c ∷ name) =
    let rest = split_name name in
    if c == 95 then some ([], name) else do (before, after) ← rest; some (c ∷ before, after)

abbrev pub is_digit : ℕ → Bool
is_digit c = leb 48 c && leb c 57

abbrev pub all_digits : Bytes → Bool
all_digits [] = true
all_digits (c ∷ cs) = is_digit c && all_digits cs

abbrev pub lobby_id : Bytes → Bool
lobby_id [] = false
lobby_id (c ∷ cs) = all_digits (c ∷ cs)

-- A name that begins with "__" does not begin with 'l'.
unfoldable pub parse_lobby_key : Bytes → Option (Bytes × Bytes)
parse_lobby_key [] = none
parse_lobby_key (c ∷ name) =
    if c == 108
    then (do
      (prefix, logical) ← split_name name
      if lobby_id prefix then some (prefix, logical) else none)
    else none

-- `format!("l{}_{}", lid, logical)` of `list_tables`.
unfoldable pub lobby_table : Bytes → Bytes → Bytes
lobby_table lid logical = 108 ∷ (lid ++ (95 ∷ logical))

split_name_joined :
    (lid logical : Bytes)
    → all_digits lid ≡ true
    → split_name (lid ++ (95 ∷ logical)) ≡ some (lid, logical)
unfolding split_name
split_name_joined [] logical h = refl
split_name_joined (c ∷ lid) logical h = ground (arith, h, split_name_joined lid logical)

join_split :
    (name before after : Bytes)
    → split_name name ≡ some (before, after)
    → name ≡ before ++ (95 ∷ after)
unfolding split_name
join_split [] before after h = absurd (ground (arith, h))
join_split (c ∷ name) before after h = elim (Bool-cases (c == 95)) [
  | inl e ↦ ground (arith, e, h)
  | inr e ↦ elim (Option-cases (split_name name)) [
    | inl f ↦ absurd (ground (arith, e, f, h))
    | inr ((b, a), f) ↦ ground (arith, e, f, h, join_split name b a f)
  ]
]

parsed-lobby_table :
    (name lid logical : Bytes)
    → parse_lobby_key name ≡ some (lid, logical)
    → (lobby_id lid ≡ true) × (name ≡ lobby_table lid logical)
unfolding parse_lobby_key lobby_table
parsed-lobby_table [] lid logical h = absurd (ground (arith, h))
parsed-lobby_table (c ∷ name) lid logical h = elim (Option-cases (split_name name)) [
  | inl e ↦ absurd (ground (arith, e, h))
  | inr ((before, after), e) ↦ elim (Bool-cases (lobby_id before)) [
    | inl d ↦ ground (arith, e, d, h, join_split name before after e)
    | inr d ↦ absurd (ground (arith, e, d, h))
  ]
]

parse_joined :
    (lid logical : Bytes)
    → lobby_id lid ≡ true
    → parse_lobby_key (lobby_table lid logical) ≡ some (lid, logical)
unfolding parse_lobby_key lobby_table
parse_joined [] logical h = absurd (ground (arith, h))
parse_joined (c ∷ lid) logical h = ground (arith, h, split_name_joined (c ∷ lid) logical h)

-- A table name is read as table `logical` of lobby `lid` exactly when it is the name that `list_tables`
-- makes of them and `lid` is a non-empty run of digits: no two lobby tables share a name.
pub parse-lobby_table :
    (name lid logical : Bytes)
    → (parse_lobby_key name ≡ some (lid, logical))
      ↔ ((lobby_id lid ≡ true) × (name ≡ lobby_table lid logical))
parse-lobby_table name lid logical =
    (parsed-lobby_table name lid logical, λ h. rw h.1 (parse_joined lid logical h.0))
