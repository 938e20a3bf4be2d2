-- ===== src/Table/Tests/Codec.antt =====
-- A codec of values: a program that builds the value on a stack.
use voltra.Prelude.{
  ℕ, ◌+◌, ◌-◌, ◌≡◌, refl, ap, sym, ◌∙◌, true, false, Option, none, some, List, [], ◌∷◌, arith, leb,
  if◌then◌else◌, ◌==◌, ◌>>=◌, Eq-nat,
}
use voltra.Table.Value.{
  Bytes, Value, null, bool, number, string, array, object, Items, empty_array, item, Fields,
  empty_object, field, Counter, Serde, get,
}

abbrev pub Json : Type 0
Json = Value ℕ

-- The bytes of a text, each raised by 10, the last one first.
unfoldable pub emit_text : Bytes → Bytes → Bytes
emit_text [] rest = rest
emit_text (c ∷ cs) rest = emit_text cs ((c + 10) ∷ rest)

unfoldable mutual
  unfolding emit_text

  pub emit : Json → Bytes → Bytes
  emit null rest = 0 ∷ rest
  emit (bool true) rest = 1 ∷ rest
  emit (bool false) rest = 2 ∷ rest
  emit (string s) rest = 3 ∷ emit_text s rest
  emit (number n) rest = 3 ∷ (n + 10) ∷ 5 ∷ rest
  emit (array items) rest = emit_items items rest
  emit (object members) rest = emit_fields members rest

  pub emit_items : Items ℕ → Bytes → Bytes
  emit_items empty_array rest = 6 ∷ rest
  emit_items (item v items) rest = emit_items items (emit v (7 ∷ rest))

  pub emit_fields : Fields ℕ → Bytes → Bytes
  emit_fields empty_object rest = 9 ∷ rest
  emit_fields (field f v members) rest = emit_fields members (3 ∷ emit_text f (emit v (8 ∷ rest)))

abbrev prepend : ℕ → List Json → List Json
prepend c (string s ∷ stack) = string (c ∷ s) ∷ stack
prepend c stack = stack

abbrev to_number : List Json → List Json
to_number (string (n ∷ []) ∷ stack) = number n ∷ stack
to_number stack = stack

abbrev add_item : List Json → List Json
add_item (v ∷ array items ∷ stack) = array (item v items) ∷ stack
add_item stack = stack

abbrev add_field : List Json → List Json
add_field (v ∷ string f ∷ object members ∷ stack) = object (field f v members) ∷ stack
add_field stack = stack

abbrev command : ℕ → List Json → List Json
command c stack =
    if c == 0
    then null ∷ stack
    else if c == 1
    then bool true ∷ stack
    else if c == 2
    then bool false ∷ stack
    else if c == 3
    then string [] ∷ stack
    else if c == 5
    then to_number stack
    else if c == 6
    then array empty_array ∷ stack
    else if c == 7
    then add_item stack
    else if c == 8
    then add_field stack
    else object empty_object ∷ stack

abbrev step : ℕ → List Json → List Json
step c stack = if leb 10 c then prepend (c - 10) stack else command c stack

unfoldable pub run : Bytes → List Json → Option Json
run [] (v ∷ []) = some v
run [] _ = none
run (c ∷ code) stack = run code (step c stack)

step_text :
    (c : ℕ) (s : Bytes) (stack : List Json)
    → step (c + 10) (string s ∷ stack) ≡ string (c ∷ s) ∷ stack
step_text c s stack =
    let large : leb 10 (c + 10) ≡ true = ground arith in
    let back : c + 10 - 10 ≡ c = omega arith in rw (large, back) refl

run-text :
    (s : Bytes) (rest : Bytes) (stack : List Json)
    → run (emit_text s rest) (string [] ∷ stack) ≡ run rest (string s ∷ stack)
unfolding emit_text run
run-text [] rest stack = refl
run-text (c ∷ cs) rest stack =
    run-text cs ((c + 10) ∷ rest) stack ∙ ap (λ st. run rest st) (step_text c cs stack)

mutual
  unfolding emit emit_items emit_fields run

  run-emit :
      (v : Json) (rest : Bytes) (stack : List Json) → run (emit v rest) stack ≡ run rest (v ∷ stack)
  run-emit null rest stack = refl
  run-emit (bool true) rest stack = refl
  run-emit (bool false) rest stack = refl
  run-emit (string s) rest stack = run-text s rest stack
  run-emit (number n) rest stack = ap (λ st. run (5 ∷ rest) st) (step_text n [] stack)
  run-emit (array items) rest stack = run-items items rest stack
  run-emit (object members) rest stack = run-fields members rest stack

  run-items :
      (items : Items ℕ) (rest : Bytes) (stack : List Json)
      → run (emit_items items rest) stack ≡ run rest (array items ∷ stack)
  run-items empty_array rest stack = refl
  run-items (item v items) rest stack =
      run-items items (emit v (7 ∷ rest)) stack ∙ run-emit v (7 ∷ rest) (array items ∷ stack)

  run-fields :
      (members : Fields ℕ) (rest : Bytes) (stack : List Json)
      → run (emit_fields members rest) stack ≡ run rest (object members ∷ stack)
  run-fields empty_object rest stack = refl
  run-fields (field f v members) rest stack =
      run-fields members (3 ∷ emit_text f (emit v (8 ∷ rest))) stack
      ∙ run-text f (emit v (8 ∷ rest)) (object members ∷ stack)
      ∙ run-emit v (8 ∷ rest) (string f ∷ object members ∷ stack)

-- "value", and the other fields of a counter by one letter.
abbrev counter_json : Counter → Json
counter_json c = object (
    field (118 ∷ []) (number c.value) (
      field (105 ∷ []) (number c.id) (
        field (110 ∷ []) (string c.name) (field (109 ∷ []) (number c.last_modified) empty_object))))

abbrev number_in : Option Json → Option ℕ
number_in (some (number n)) = some n
number_in _ = none

abbrev text_in : Option Json → Option Bytes
text_in (some (string s)) = some s
text_in _ = none

abbrev counter_in : Json → Option Counter
counter_in v = do
  value ← number_in (get (118 ∷ []) v)
  id ← number_in (get (105 ∷ []) v)
  name ← text_in (get (110 ∷ []) v)
  at ← number_in (get (109 ∷ []) v)
  some (record { id = id; name = name; value = value; last_modified = at })

pub unpack_pack : (v : Json) (b : Bytes) → some (emit v []) ≡ some b → run b [] ≡ some v
unfolding run
unpack_pack v b h = let same : b ≡ emit v [] = ground (arith, h) in rw same (run-emit v [] [])

unfoldable pub stack_code : Serde ℕ
unfolding emit run
stack_code = record {
  number_to_string = λ n. n ∷ [];
  json_to_string = λ v. emit v [];
  number_of_u32 = λ n. n;
  as_f64 = λ n. some n;
  json_to_vec = λ v. some (emit v []);
  json_from_slice = λ b. run b [];
  pack_named = λ v. some (emit v []);
  unpack = λ b. run b [];
  zstd_encode = λ b. some b;
  zstd_decode = λ b. some b;
  counter_to_value = counter_json;
  counter_from_value = counter_in;
  pack_unpack = unpack_pack;
  zstd_decode_encode = λ b z h. sym h;
}
