-- ===== src/Sql/Lexer.antt =====
-- src/sql/lexer.rs: `Lexer`. The input is what is left of its bytes from the position on. A byte that is
-- pushed to a text becomes the character of that number, as `ch as char` makes it.
pub mod Ends
pub mod Written
pub mod RoundTrip
use voltra.Prelude.{
  ℕ, suc, zero, ◌+◌, ◌/◌, ◌%◌, ◌^◌, Bool, true, false, not, ◌&&◌, ◌||◌, Option, none, some, List,
  [], ◌∷◌, ◌++◌, any, leb, ltb, length, if◌then◌else◌, ◌==◌, Eq-nat, Eq-list,
}
use voltra.Resp.Parse.{parse_digits}
use voltra.Sql.Token.{
  Bytes, Text, Token, integer, float, string_lit, ident, eq_tok, ne_tok, lt_tok, le_tok, gt_tok,
  ge_tok, plus_tok, minus_tok, star_tok, slash_tok, percent_tok, concat2_tok, l_paren, r_paren,
  comma, dot, semi, eof, keyword_or_ident,
}

-- The bytes of a character in UTF-8.
abbrev pub utf8 : ℕ → Bytes
utf8 c =
    if ltb c 128
    then c ∷ []
    else if ltb c 2048
    then (192 + c / 64) ∷ (128 + c % 64) ∷ []
    else if ltb c 65536
    then (224 + c / 4096) ∷ (128 + c / 64 % 64) ∷ (128 + c % 64) ∷ []
    else (240 + c / 262144) ∷ (128 + c / 4096 % 64) ∷ (128 + c / 64 % 64) ∷ (128 + c % 64) ∷ []

-- `str::as_bytes`
unfoldable pub as_bytes : Text → Bytes
as_bytes [] = []
as_bytes (c ∷ s) = utf8 c ++ as_bytes s

pub data LexError : Type 0 where
  unterminated_string unterminated_escape unterminated_ident bang_alone pipe_alone : LexError
  unexpected : ℕ → LexError

abbrev pub is_whitespace : ℕ → Bool
is_whitespace c = any (λ w. c == w) (9 ∷ 10 ∷ 12 ∷ 13 ∷ 32 ∷ [])

abbrev pub is_digit : ℕ → Bool
is_digit c = leb b'0' c && leb c b'9'

abbrev pub is_letter : ℕ → Bool
is_letter c = leb b'a' c && leb c b'z' || leb b'A' c && leb c b'Z'

abbrev pub to_lower : ℕ → ℕ
to_lower c = if leb b'A' c && leb c b'Z' then c + 32 else c

unfoldable pub skip_whitespace : Bytes → Bytes
skip_whitespace [] = []
skip_whitespace (c ∷ cs) = let rest = skip_whitespace cs in if is_whitespace c then rest else c ∷ cs

unfoldable pub skip_line_comment : Bytes → Bytes
skip_line_comment [] = []
skip_line_comment (c ∷ cs) = let rest = skip_line_comment cs in if c == b'\n' then cs else rest

-- A token with what is left, a comment that is skipped, or an error.
pub data Step : Type 0 where
  emit : Token → Bytes → Step
  skip : Bytes → Step
  fail : LexError → Step

abbrev pub escaped : ℕ → Text
escaped c =
    if c == b'n'
    then b'\n' ∷ []
    else if c == b't'
    then b'\t' ∷ []
    else if c == b'r'
    then b'\r' ∷ []
    else if c == b'\\'
    then b'\\' ∷ []
    else b'\\' ∷ c ∷ []

unfoldable pub read_string : ℕ → Text → Bytes → Step
read_string quote s [] = fail unterminated_string
read_string quote s (c ∷ []) =
    if c == quote
    then emit (string_lit s) []
    else fail (if c == b'\\' then unterminated_escape else unterminated_string)
read_string quote s (c ∷ d ∷ more) = elim (c == quote) [
  | true ↦ elim (d == quote) [
    | true ↦ read_string quote (s ++ (quote ∷ [])) more
    | false ↦ emit (string_lit s) (d ∷ more)
  ]
  | false ↦ elim (c == b'\\') [
    | true ↦ read_string quote (s ++ escaped d) more
    | false ↦ read_string quote (s ++ (c ∷ [])) (d ∷ more)
  ]
]

unfoldable pub read_quoted_ident : Text → Bytes → Step
read_quoted_ident s [] = fail unterminated_ident
read_quoted_ident s (c ∷ cs) =
    let rest = read_quoted_ident (s ++ (c ∷ [])) cs in
    if c == b'`' || c == b'"' then emit (ident s) cs else rest

abbrev pub is_e : ℕ → Bool
is_e c = c == b'e' || c == b'E'

abbrev pub is_sign : ℕ → Bool
is_sign c = c == b'+' || c == b'-'

unfoldable pub number_text : Text → Bool → Bytes → Text × (Bool × Bytes)
number_text s is_float [] = (s, (is_float, []))
number_text s is_float (c ∷ []) =
    if is_digit c
    then (s ++ (c ∷ []), (is_float, []))
    else if is_e c && not (any is_e s)
    then (s ++ (c ∷ []), (true, []))
    else (s, (is_float, c ∷ []))
number_text s is_float (c ∷ d ∷ more) = elim (is_digit c) [
  | true ↦ number_text (s ++ (c ∷ [])) is_float (d ∷ more)
  | false ↦ elim (c == b'.' && (not is_float && is_digit d)) [
    | true ↦ number_text (s ++ (b'.' ∷ [])) true (d ∷ more)
    | false ↦ elim (is_e c && not (any is_e s)) [
      | true ↦ elim (is_sign d) [
        | true ↦ number_text (s ++ (c ∷ d ∷ [])) true more
        | false ↦ number_text (s ++ (c ∷ [])) true (d ∷ more)
      ]
      | false ↦ (s, (is_float, c ∷ d ∷ more))
    ]
  ]
]

-- `parse::<i64>().unwrap_or(0)` of digits.
abbrev pub parse_i64 : Text → ℕ
parse_i64 s = elim (parse_digits 0 s) [ none ↦ 0 | some n ↦ if ltb n (2 ^ 63) then n else 0 ]

unfoldable pub read_ident : Text → Bytes → Step
read_ident s [] = emit (keyword_or_ident s) []
read_ident s (c ∷ cs) =
    let rest = read_ident (s ++ (to_lower c ∷ [])) cs in
    if is_letter c || is_digit c || c == b'_' then rest else emit (keyword_or_ident s) (c ∷ cs)

-- An operator that a second character extends.
abbrev pub longer : ℕ → Step → (Bytes → Step) → Bytes → Step
longer second short long [] = short
longer second short long (c ∷ cs) = if c == second then long cs else short

abbrev pub after_less : Bytes → Step
after_less rest = longer b'=' (longer b'>' (emit lt_tok rest) (emit ne_tok) rest) (emit le_tok) rest

pub data Lexed : Type 0 where
  tokens : List Token → Lexed
  failed : LexError → Lexed
  out_of_fuel : Lexed

module _ (parse_f64 : Text → Option ℕ) where
  abbrev pub number_token : Text × (Bool × Bytes) → Step
  number_token (s, (true, rest)) = emit (float (elim (parse_f64 s) [ none ↦ 0 | some x ↦ x ])) rest
  number_token (s, (false, rest)) = emit (integer (parse_i64 s)) rest

  unfoldable pub read_number : ℕ → Bytes → Step
  unfolding number_text
  read_number first rest = number_token (number_text (first ∷ []) false rest)

  abbrev pub other_token : ℕ → Bytes → Step
  other_token c rest =
      if is_digit c
      then read_number c rest
      else if is_letter c || c == b'_'
      then read_ident (to_lower c ∷ []) rest
      else fail (unexpected c)

  -- One round of the loop of `tokenize`, after the whitespace.
  unfoldable pub next_token : ℕ → Bytes → Step
  unfolding read_string read_quoted_ident read_ident read_number skip_line_comment
  next_token c rest =
      if c == b'\''
      then read_string b'\'' [] rest
      else if c == b'"' || c == b'`'
      then read_quoted_ident [] rest
      else if c == b'('
      then emit l_paren rest
      else if c == b')'
      then emit r_paren rest
      else if c == b','
      then emit comma rest
      else if c == b'.'
      then emit dot rest
      else if c == b';'
      then emit semi rest
      else if c == b'+'
      then emit plus_tok rest
      else if c == b'-'
      then longer b'-' (emit minus_tok rest) (λ more. skip (skip_line_comment more)) rest
      else if c == b'*'
      then emit star_tok rest
      else if c == b'/'
      then emit slash_tok rest
      else if c == b'%'
      then emit percent_tok rest
      else if c == b'='
      then emit eq_tok rest
      else if c == b'!'
      then longer b'=' (fail bang_alone) (emit ne_tok) rest
      else if c == b'<'
      then after_less rest
      else if c == b'>'
      then longer b'=' (emit gt_tok rest) (emit ge_tok) rest
      else if c == b'|'
      then longer b'|' (fail pipe_alone) (emit concat2_tok) rest
      else other_token c rest

  -- The loop of `tokenize`, with the tokens so far.
  unfoldable pub tokenize_loop : ℕ → List Token → Bytes → Lexed
  unfolding skip_whitespace next_token
  tokenize_loop zero so_far input = out_of_fuel
  tokenize_loop (suc fuel) so_far input = elim (skip_whitespace input) [
    | [] ↦ tokens (so_far ++ (eof ∷ []))
    | c ∷ rest ↦ elim (next_token c rest) [
      | emit t more ↦ tokenize_loop fuel (so_far ++ (t ∷ [])) more
      | skip more ↦ tokenize_loop fuel so_far more
      | fail e ↦ failed e
    ]
  ]

  unfoldable pub tokenize : Text → Lexed
  unfolding tokenize_loop as_bytes
  tokenize sql = tokenize_loop (suc (length (as_bytes sql))) [] (as_bytes sql)
