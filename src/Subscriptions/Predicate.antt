-- ===== src/Subscriptions/Predicate.antt =====
-- src/subscriptions.rs: the predicates of subscriptions and their test on a change of a row.
use voltra.Prelude.{
  ℕ, ◌+◌, ◌-◌, ◌^◌, Bool, true, false, not, ◌&&◌, ◌||◌, Option, none, some, List, [], ◌∷◌, ◌++◌,
  ltb, any, if◌then◌else◌, ◌==◌, ◌>>=◌, Eq-nat, Eq-list,
}
use voltra.Leaderboard.{bytes_lt, float_le}
use voltra.Table.Value.{Bytes, Value, bool, number, string, Serde, get}
use voltra.Table.Store.{RowDelta, Operation, delete_op, row_data_value, row_key_field}

pub data ComparisonOp : Type 0 where
  eq_op ne_op gt_op lt_op ge_op le_op : ComparisonOp

pub data Predicate (N : Type 0) : Type 0 where
  comparison : Bytes → ComparisonOp → Value N → Predicate N
  in_set : Bytes → List (Value N) → Predicate N
  both : Predicate N → Predicate N → Predicate N
  either : Predicate N → Predicate N → Predicate N

pub data SortDirection : Type 0 where
  asc desc : SortDirection

pub record OrderBy : Type 0 where
  pub order_field : Bytes
  pub direction : SortDirection

pub record SubscriptionFilter (N : Type 0) : Type 0 where
  pub table_name : Bytes
  pub predicate : Option (Predicate N)
  pub order_by : Option OrderBy
  pub limit : Option ℕ

-- What the code calls of `serde_json::Number` and the equality of `Value`. An `i64` is its bit pattern.
pub record Numbers (N : Type 0) : Type 0 where
  pub number_eq : N → N → Bool
  pub as_i64 : N → Option ℕ
  pub as_u64 : N → Option ℕ
  pub value_eq : Value N → Value N → Bool

pub data Ordering : Type 0 where
  less equal greater : Ordering

abbrev pub order : (ℕ → ℕ → Bool) → ℕ → ℕ → Ordering
order lt a b = if lt a b then less else if lt b a then greater else equal

-- The order of the bit patterns of two `i64`.
abbrev pub signed_lt : ℕ → ℕ → Bool
signed_lt a b = ltb (shifted a) (shifted b)
  where
    shifted : ℕ → ℕ
    shifted n = if ltb n (2 ^ 63) then n + 2 ^ 63 else n - 2 ^ 63

-- `f64::partial_cmp`
abbrev pub float_order : ℕ → ℕ → Option Ordering
float_order a b =
    if float_le a b
    then some (if float_le b a then equal else less)
    else if float_le b a
    then some greater
    else none

abbrev pub text_order : Bytes → Bytes → Ordering
text_order a b = if bytes_lt a b then less else if bytes_lt b a then greater else equal

abbrev pub is_delete : Operation → Bool
is_delete delete_op = true
is_delete _ = false

module _ {N : Type 0} (serde : Serde N) (numbers : Numbers N) where
  unfoldable pub compare_number : N → N → Option Ordering
  compare_number l r =
      let floats : Option Ordering = (do a ← serde.as_f64 l; b ← serde.as_f64 r; float_order a b) in
      let unsigned : Option Ordering = elim (numbers.as_u64 l) [
        | none ↦ floats
        | some a ↦ elim (numbers.as_u64 r) [ none ↦ floats | some b ↦ some (order ltb a b) ]
      ] in
      elim (numbers.as_i64 l) [
        | none ↦ unsigned
        | some a ↦ elim (numbers.as_i64 r) [ none ↦ unsigned | some b ↦ some (order signed_lt a b) ]
      ]

  abbrev pub ordered : ComparisonOp → Option Ordering → Bool
  ordered gt_op (some greater) = true
  ordered lt_op (some less) = true
  ordered ge_op (some greater) = true
  ordered ge_op (some equal) = true
  ordered le_op (some less) = true
  ordered le_op (some equal) = true
  ordered _ _ = false

  abbrev pub compare_numbers : ComparisonOp → N → N → Bool
  compare_numbers eq_op n e = numbers.number_eq n e
  compare_numbers ne_op n e = not (numbers.number_eq n e)
  compare_numbers op n e = ordered op (compare_number n e)

  -- Equality and inequality of values that are not numbers.
  abbrev pub equality : ComparisonOp → Bool → Bool
  equality eq_op same = same
  equality ne_op same = not same
  equality _ same = false

  abbrev pub bool_eq : Bool → Bool → Bool
  bool_eq true b = b
  bool_eq false b = not b

  unfoldable pub compare : ComparisonOp → Option (Value N) → Value N → Bool
  unfolding compare_number
  compare op none expected = false
  compare op (some (string s)) (string e) = equality op (s == e)
  compare op (some (number n)) (number e) = compare_numbers op n e
  compare op (some (bool b)) (bool e) = equality op (bool_eq b e)
  compare op (some actual) expected = false

  unfoldable pub extract_field : RowDelta N → Bytes → Option (Value N)
  extract_field delta f =
      if f == row_key_field
      then some (string delta.row_key)
      else (do value ← row_data_value serde delta; get f value)

  unfoldable pub eval : Predicate N → RowDelta N → Bool
  unfolding extract_field compare
  eval (comparison f op value) delta = compare op (extract_field delta f) value
  eval (in_set f values) delta = elim (extract_field delta f) [
    | none ↦ false
    | some v ↦ any (λ value. numbers.value_eq v value) values
  ]
  eval (both l r) delta = eval l delta && eval r delta
  eval (either l r) delta = eval l delta || eval r delta

  unfoldable pub matches : SubscriptionFilter N → RowDelta N → Bool
  unfolding eval
  matches filter delta =
      if filter.table_name == delta.table_name
      then (if is_delete delta.operation
          then true
          else elim filter.predicate [ none ↦ true | some p ↦ eval p delta ])
      else false

  -- A missing field is last.
  unfoldable pub compare_values : Option (Value N) → Option (Value N) → Ordering
  unfolding compare_number
  compare_values none none = equal
  compare_values none (some b) = greater
  compare_values (some a) none = less
  compare_values (some (number a)) (some (number b)) = elim (compare_number a b) [
    | none ↦ equal
    | some o ↦ o
  ]
  compare_values (some (string a)) (some (string b)) = text_order a b
  compare_values (some (bool a)) (some (bool b)) =
      if bool_eq a b then equal else if a then greater else less
  compare_values (some a) (some b) = text_order (serde.json_to_string a) (serde.json_to_string b)

-- The fields that are tested for equality.
unfoldable pub collect_eq_fields : {N : Type 0} → Predicate N → List (Bytes × Value N)
collect_eq_fields (comparison f eq_op value) = (f, value) ∷ []
collect_eq_fields (comparison f op value) = []
collect_eq_fields (in_set f values) = []
collect_eq_fields (both l r) = collect_eq_fields l ++ collect_eq_fields r
collect_eq_fields (either l r) = collect_eq_fields l ++ collect_eq_fields r
