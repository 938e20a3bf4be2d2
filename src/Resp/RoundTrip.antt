-- ===== src/Resp/RoundTrip.antt =====
-- A command that is encoded as an array of bulk strings is parsed as its arguments.
use voltra.Prelude.{
  ℕ, suc, ◌+◌, ◌≤◌, ◌≡◌, refl, ap, ◌∙◌, false, some, List, [], ◌∷◌, ◌++◌, arith, le→leb, ltb,
  length, length-append, take, drop, All, Eq-nat,
}
use mathlib.Core.List.{append_assoc}
use voltra.Resp.{
  Bytes, Items, bulk, array, nil, cons, encode, encode_all, encode_bulk, to_string, count_items,
  text_line, crlf, pos,
}
use voltra.Resp.Parse.{
  complete, parse_command, parse_array_command, parse_args, parse_arg, take_data, got, find_crlf,
  parse_int, max_bulk, max_args,
}
use voltra.Resp.Decimal.{parse_int-to_string, find_crlf-to_string}

-- The array of the arguments, as bulk strings.
abbrev pub bulks : List Bytes → Items
bulks [] = nil
bulks (arg ∷ args) = cons (bulk arg) (bulks args)

count_items-bulks : (args : List Bytes) → count_items (bulks args) ≡ length args
count_items-bulks [] = refl
count_items-bulks (arg ∷ args) = ap suc (count_items-bulks args)

take-length : (xs ys : Bytes) → take (length xs) (xs ++ ys) ≡ xs
take-length [] ys = refl
take-length (x ∷ xs) ys = ap (◌∷◌ x) (take-length xs ys)

drop-length : (xs ys : Bytes) → drop (length xs) (xs ++ ys) ≡ ys
drop-length [] ys = refl
drop-length (x ∷ xs) ys = drop-length xs ys

take_data-arg : (arg rest : Bytes) → take_data (length arg) (arg ++ (crlf ++ rest)) ≡ got arg rest
unfolding take_data
take_data-arg arg rest =
    let fits : ltb (length (arg ++ (crlf ++ rest))) (length arg + 2) ≡ false =
      ground (arith, length-append arg (crlf ++ rest)) in
    rw (fits, drop-length arg (crlf ++ rest), take-length arg (crlf ++ rest), take_data) refl

encode_bulk-append :
    (arg rest : Bytes)
    → encode_bulk arg ++ rest ≡ text_line 36 (to_string (length arg)) ++ (arg ++ (crlf ++ rest))
encode_bulk-append arg rest =
    let head = text_line 36 (to_string (length arg)) in
    append_assoc (head ++ arg) crlf rest ∙ append_assoc head arg (crlf ++ rest)

parse_arg-dollar :
    (buf line after : Bytes) (len : ℕ)
    → find_crlf buf ≡ some (line, after)
    → parse_int line ≡ some (pos len)
    → len ≤ max_bulk
    → parse_arg (36 ∷ buf) ≡ take_data len after
unfolding parse_arg
parse_arg-dollar buf line after len found read small =
    rw (found, read, le→leb len max_bulk small, parse_arg) refl

parse_arg-encode_bulk :
    (arg rest : Bytes) → length arg ≤ max_bulk → parse_arg (encode_bulk arg ++ rest) ≡ got arg rest
parse_arg-encode_bulk arg rest h =
    ap parse_arg (encode_bulk-append arg rest)
    ∙ parse_arg-dollar _ _ _ (length arg) (find_crlf-to_string (length arg) (arg ++ (crlf ++ rest)))
        (parse_int-to_string (length arg) (omega arith)) h
    ∙ take_data-arg arg rest

parse_command-star :
    (buf line after : Bytes) (count : ℕ)
    → find_crlf buf ≡ some (line, after)
    → parse_int line ≡ some (pos count)
    → count ≤ max_args
    → parse_command (42 ∷ buf) ≡ parse_args count after
unfolding parse_command parse_array_command
parse_command-star buf line after count found read few =
    let small : ltb max_args count ≡ false = ground arith in
    rw (found, read, small, parse_array_command) refl

module _ (fmt : ℕ → Bytes) (proto : ℕ) where
  parse_args-bulks :
      (args : List Bytes) (rest : Bytes)
      → All (λ arg. length arg ≤ max_bulk) args
      → parse_args (length args) (encode_all fmt proto (bulks args) ++ rest) ≡ complete args rest
  unfolding encode parse_args
  parse_args-bulks [] rest fit = refl
  parse_args-bulks (arg ∷ args) rest fit =
      let more = encode_all fmt proto (bulks args) ++ rest in
      rw (append_assoc (encode_bulk arg) (encode_all fmt proto (bulks args)) rest) (
        rw (parse_arg-encode_bulk arg more fit.0, parse_args-bulks args rest fit.1, parse_args)
          refl)

  encode-bulks :
      (args : List Bytes) (rest : Bytes)
      → encode fmt proto (array (bulks args)) ++ rest
        ≡ text_line 42 (to_string (length args)) ++ (encode_all fmt proto (bulks args) ++ rest)
  unfolding encode
  encode-bulks args rest =
      let body = encode_all fmt proto (bulks args) in
      ap (λ n. (text_line 42 (to_string n) ++ body) ++ rest) (count_items-bulks args)
      ∙ append_assoc (text_line 42 (to_string (length args))) body rest

  -- A command is read back as its arguments, and what follows it in the buffer is left, if it has no
  -- more than 1024 * 1024 of them and none is longer than 512 MiB.
  pub parse_command-encode :
      (args : List Bytes) (rest : Bytes)
      → length args ≤ max_args
      → All (λ arg. length arg ≤ max_bulk) args
      → parse_command (encode fmt proto (array (bulks args)) ++ rest) ≡ complete args rest
  parse_command-encode args rest few fit =
      ap parse_command (encode-bulks args rest)
      ∙ parse_command-star _ _ _ (length args)
          (find_crlf-to_string (length args) (encode_all fmt proto (bulks args) ++ rest))
          (parse_int-to_string (length args) (omega arith)) few
      ∙ parse_args-bulks args rest fit
