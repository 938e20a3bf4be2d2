-- ===== src/Table/Value.antt =====
-- table/mod.rs: the values of the rows, their text in an index, and their bytes in a row. A text is the
-- list of its bytes. `Value` is `serde_json::Value`, and `Serde` what the code calls of `serde_json`,
-- `rmp_serde` and `zstd`.
use voltra.Prelude.{
  ℕ, zero, suc, ◌≡◌, Bool, true, false, Option, none, some, List, [], ◌∷◌, ltb, length,
  if◌then◌else◌, ◌==◌, ◌>>=◌, Eq-nat, Eq-list, arith, Option-cases, Bool-cases, inl, inr,
}

abbrev pub Bytes : Type 0
Bytes = List ℕ

mutual
  pub data Value (N : Type 0) : Type 0 where
    null : Value N
    bool : Bool → Value N
    number : N → Value N
    string : Bytes → Value N
    array : Items N → Value N
    object : Fields N → Value N

  pub data Items (N : Type 0) : Type 0 where
    empty_array : Items N
    item : Value N → Items N → Items N

  pub data Fields (N : Type 0) : Type 0 where
    empty_object : Fields N
    field : Bytes → Value N → Fields N → Fields N

-- An `i32` and an `i64` are their bit patterns.
pub record Counter : Type 0 where
  pub id : ℕ
  pub name : Bytes
  pub value : ℕ
  pub last_modified : ℕ

-- A double is its bit pattern.
pub record Serde (N : Type 0) : Type 0 where
  pub number_to_string : N → Bytes
  pub json_to_string : Value N → Bytes
  pub number_of_u32 : ℕ → N
  pub as_f64 : N → Option ℕ
  pub json_to_vec : Value N → Option Bytes
  pub json_from_slice : Bytes → Option (Value N)
  pub pack_named : Value N → Option Bytes
  pub unpack : Bytes → Option (Value N)
  pub zstd_encode : Bytes → Option Bytes
  pub zstd_decode : Bytes → Option Bytes
  pub counter_to_value : Counter → Value N
  pub counter_from_value : Value N → Option Counter
  pub pack_unpack : (v : Value N) (b : Bytes) → pack_named v ≡ some b → unpack b ≡ some v
  pub zstd_decode_encode : (b z : Bytes) → zstd_encode b ≡ some z → zstd_decode z ≡ some b

abbrev pub zstd_threshold : ℕ
zstd_threshold = 256

module _ {N : Type 0} where
  unfoldable pub get_field : Bytes → Fields N → Option (Value N)
  get_field f empty_object = none
  get_field f (field g v fields) = if g == f then some v else get_field f fields

  unfoldable pub put_field : Bytes → Value N → Fields N → Fields N
  put_field f v empty_object = field f v empty_object
  put_field f v (field g w fields) =
      if g == f then field f v fields else field g w (put_field f v fields)

  -- `Value::get` with a text.
  abbrev pub get : Bytes → Value N → Option (Value N)
  get f (object fields) = get_field f fields
  get f _ = none

  -- `as_object_mut` and `insert`.
  abbrev pub put : Bytes → Value N → Value N → Value N
  put f v (object fields) = object (put_field f v fields)
  put f v other = other

  abbrev pub is_non_empty_array : Value N → Bool
  is_non_empty_array (array (item v items)) = true
  is_non_empty_array _ = false

  module _ (serde : Serde N) where
    abbrev pub value_to_index_key : Value N → Option Bytes
    value_to_index_key (string s) = some s
    value_to_index_key (number n) = some (serde.number_to_string n)
    value_to_index_key (bool true) = some (116 ∷ 114 ∷ 117 ∷ 101 ∷ [])
    value_to_index_key (bool false) = some (102 ∷ 97 ∷ 108 ∷ 115 ∷ 101 ∷ [])
    value_to_index_key null = none
    value_to_index_key other = some (serde.json_to_string other)

    -- `none` is a `SerializationError`.
    unfoldable pub encode_row : Value N → Option Bytes
    encode_row value = do
      mp ← serde.pack_named value
      if ltb (length mp) zstd_threshold
          then some (0 ∷ mp)
          else do compressed ← serde.zstd_encode mp; some (1 ∷ compressed)

    unfoldable pub decode_row_bytes : Bytes → Option (Value N)
    decode_row_bytes [] = none
    decode_row_bytes (zero ∷ payload) = serde.unpack payload
    decode_row_bytes (suc zero ∷ payload) = do
      decompressed ← serde.zstd_decode payload
      serde.unpack decompressed
    decode_row_bytes (tag ∷ payload) = none

    -- The bytes of a row decode to the value that was encoded, for a small row and for a compressed one.
    pub decode_row-encode_row :
        (value : Value N) (bytes : Bytes)
        → encode_row value ≡ some bytes
        → decode_row_bytes bytes ≡ some value
    unfolding encode_row decode_row_bytes
    decode_row-encode_row value bytes h = elim (Option-cases (serde.pack_named value)) [
      | inl e ↦ absurd (ground (arith, e, h))
      | inr (mp, e) ↦ elim (Bool-cases (ltb (length mp) zstd_threshold)) [
        | inl small ↦
            let plain : bytes ≡ 0 ∷ mp = ground (arith, e, small, h) in
            rw plain (serde.pack_unpack value mp e)
        | inr large ↦ elim (Option-cases (serde.zstd_encode mp)) [
          | inl f ↦ absurd (ground (arith, e, large, f, h))
          | inr (packed, f) ↦
              let squeezed : bytes ≡ 1 ∷ packed = ground (arith, e, large, f, h) in
              rw (squeezed, serde.zstd_decode_encode mp packed f) (serde.pack_unpack value mp e)
        ]
      ]
    ]
