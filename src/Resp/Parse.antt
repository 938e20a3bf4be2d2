-- ===== src/Resp/Parse.antt =====
-- src/redis/resp.rs: the parser of commands. What is left of the buffer stands for the number of
-- bytes consumed.
use voltra.Prelude.{
  ℕ, zero, suc, ◌+◌, ◌-◌, ◌*◌, ◌^◌, Bool, true, false, ◌&&◌, ◌||◌, Option, none, some, List, [],
  ◌∷◌, ◌++◌, ltb, leb, length, take, drop, if◌then◌else◌, ◌==◌, Eq-nat, Eq-list,
}
use voltra.Resp.{Bytes, ℤ, pos, negsuc, crlf}

pub data Violation : Type 0 where
  invalid_multibulk_length invalid_bulk_length missing_crlf unbalanced_quotes : Violation
  expected_dollar : ℕ → Violation

pub data Parsed : Type 0 where
  incomplete : Parsed
  complete : List Bytes → Bytes → Parsed
  violation : Violation → Parsed

-- The line up to the first CRLF, and what follows it.
unfoldable pub find_crlf : Bytes → Option (Bytes × Bytes)
find_crlf [] = none
find_crlf (c ∷ []) = none
find_crlf (c ∷ d ∷ rest) =
    let later = find_crlf (d ∷ rest) in
    if c == 13 && d == 10
    then some ([], rest)
    else elim later [ none ↦ none | some (line, after) ↦ some (c ∷ line, after) ]

-- The digits of `str::parse`, after what has been read.
unfoldable pub parse_digits : ℕ → Bytes → Option ℕ
parse_digits acc [] = some acc
parse_digits acc (c ∷ cs) =
    let rest = parse_digits (acc * 10 + (c - 48)) cs in if leb 48 c && leb c 57 then rest else none

abbrev pub parse_magnitude : Bytes → Option ℕ
parse_magnitude [] = none
parse_magnitude (c ∷ cs) = parse_digits 0 (c ∷ cs)

abbrev pub within : ℕ → Option ℕ → Option ℕ
within bound none = none
within bound (some n) = if leb n bound then some n else none

abbrev pub negate : Option ℕ → Option ℤ
negate none = none
negate (some zero) = some (pos 0)
negate (some (suc n)) = some (negsuc n)

abbrev pub positive : Option ℕ → Option ℤ
positive none = none
positive (some n) = some (pos n)

-- `parse::<i64>`: a sign and digits, in range.
unfoldable pub parse_int : Bytes → Option ℤ
unfolding parse_digits
parse_int [] = none
parse_int (c ∷ cs) =
    if c == 45
    then negate (within (2 ^ 63) (parse_magnitude cs))
    else if c == 43
    then positive (within (2 ^ 63 - 1) (parse_magnitude cs))
    else positive (within (2 ^ 63 - 1) (parse_magnitude (c ∷ cs)))

abbrev pub max_bulk : ℕ
max_bulk = 512 * 1024 * 1024

abbrev pub max_args : ℕ
max_args = 1024 * 1024

-- One argument: the bytes, and what follows it.
pub data Arg : Type 0 where
  wait : Arg
  bad : Violation → Arg
  got : Bytes → Bytes → Arg

-- The data of an argument of `len` bytes.
unfoldable pub take_data : ℕ → Bytes → Arg
take_data len after =
    if ltb (length after) (len + 2)
    then wait
    else if take 2 (drop len after) == crlf
    then got (take len after) (drop 2 (drop len after))
    else bad missing_crlf

unfoldable pub parse_arg : Bytes → Arg
unfolding find_crlf parse_int take_data
parse_arg [] = wait
parse_arg (c ∷ buf) =
    if c == 36
    then elim (find_crlf buf) [
      | none ↦ wait
      | some (line, after) ↦ elim (parse_int line) [
        | none ↦ bad invalid_bulk_length
        | some (negsuc n) ↦ bad invalid_bulk_length
        | some (pos len) ↦ if leb len max_bulk then take_data len after else bad invalid_bulk_length
      ]
    ]
    else bad (expected_dollar c)

-- The loop over the arguments: `count` more of them.
unfoldable pub parse_args : ℕ → Bytes → Parsed
unfolding parse_arg
parse_args zero buf = complete [] buf
parse_args (suc count) buf = elim (parse_arg buf) [
  | wait ↦ incomplete
  | bad v ↦ violation v
  | got arg rest ↦ elim (parse_args count rest) [
    | incomplete ↦ incomplete
    | violation v ↦ violation v
    | complete args left ↦ complete (arg ∷ args) left
  ]
]

-- After the `*`.
unfoldable pub parse_array_command : Bytes → Parsed
unfolding parse_args
parse_array_command buf = elim (find_crlf buf) [
  | none ↦ incomplete
  | some (line, after) ↦ elim (parse_int line) [
    | none ↦ violation invalid_multibulk_length
    | some (negsuc n) ↦ complete [] after
    | some (pos count) ↦
        if ltb max_args count then violation invalid_multibulk_length else parse_args count after
  ]
]

abbrev pub flush : Bytes → List Bytes → List Bytes
flush [] args = args
flush (c ∷ cur) args = args ++ (c ∷ cur) ∷ []

-- The loop of `split_inline`: whether it is in quotes, the argument so far, and the arguments.
unfoldable pub split : Bool → Bytes → List Bytes → Bytes → Option (List Bytes)
split true cur args [] = none
split false cur args [] = some (flush cur args)
split true cur args (c ∷ []) = if c == 34 then some (flush cur args) else none
split true cur args (c ∷ d ∷ rest) =
    let escaped = split true (cur ++ d ∷ []) args rest in
    let closed = split false cur args (d ∷ rest) in
    let more = split true (cur ++ c ∷ []) args (d ∷ rest) in
    if c == 92 then escaped else if c == 34 then closed else more
split false cur args (c ∷ rest) =
    let opened = split true cur args rest in
    let next = split false [] (flush cur args) rest in
    let more = split false (cur ++ c ∷ []) args rest in
    if c == 34 then opened else if c == 32 || c == 9 then next else more

unfoldable pub split_inline : Bytes → Option (List Bytes)
unfolding split
split_inline line = split false [] [] line

-- The line up to the first line feed, and what follows it.
unfoldable pub find_lf : Bytes → Option (Bytes × Bytes)
find_lf [] = none
find_lf (c ∷ rest) =
    let later = find_lf rest in
    if c == 10
    then some ([], rest)
    else elim later [ none ↦ none | some (line, after) ↦ some (c ∷ line, after) ]

-- `strip_suffix(b"\r")`
abbrev pub strip_cr : Bytes → Bytes
strip_cr [] = []
strip_cr (c ∷ []) = if c == 13 then [] else c ∷ []
strip_cr (c ∷ d ∷ line) = c ∷ strip_cr (d ∷ line)

abbrev pub inline : Option (List Bytes) → Bytes → Parsed
inline none after = violation unbalanced_quotes
inline (some args) after = complete args after

unfoldable pub parse_inline_command : Bytes → Parsed
unfolding find_crlf find_lf split_inline
parse_inline_command buf = elim (find_crlf buf) [
  | some (line, after) ↦ inline (split_inline line) after
  | none ↦ elim (find_lf buf) [
    | none ↦ incomplete
    | some (line, after) ↦ inline (split_inline (strip_cr line)) after
  ]
]

unfoldable pub parse_command : Bytes → Parsed
unfolding parse_array_command parse_inline_command
parse_command [] = incomplete
parse_command (c ∷ buf) =
    if c == 42 then parse_array_command buf else parse_inline_command (c ∷ buf)
