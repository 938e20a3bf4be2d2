-- ===== src/Sql/Tests.antt =====
-- Tests of the lexer of SQL.
use voltra.Prelude.{
  ℕ, suc, ◌+◌, ◌≡◌, ◌≢◌, refl, arith, Option, none, List, [], ◌∷◌, ◌++◌, length, map, Eq-nat,
  Eq-list,
}
use voltra.Prelude.Map.{lookup}
use voltra.Sql.Token.{
  Text, Token, codes, dot, integer, string_lit, le_tok, ident, sub_str_tok, keyword_or_ident, eof,
}
use voltra.Resp.{digits_of}
use voltra.Sql.Lexer.{
  as_bytes, read_string, read_ident, next_token, skip_line_comment, tokens, out_of_fuel,
  tokenize_loop, tokenize,
}
use voltra.Sql.Lexer.Ends.{tokenize_ends}
use voltra.Sql.Lexer.Written.{word, number, literal, symbol, le_sym, spaced}
use voltra.Sql.Lexer.RoundTrip.{tokenize-spaced}

abbrev no_floats : Text → Option ℕ
no_floats s = none

lexed :
    tokenize no_floats (codes "a.substring -- c")
    ≡ tokens (ident (codes "a") ∷ dot ∷ sub_str_tok ∷ eof ∷ [])
unfolding tokenize lookup read_ident next_token keyword_or_ident skip_line_comment as_bytes
lexed = refl

-- The two bytes of "é" come out as two characters.
garbled :
    tokenize no_floats (b'\'' ∷ 233 ∷ b'\'' ∷ []) ≡ tokens (string_lit (195 ∷ 169 ∷ []) ∷ eof ∷ [])
unfolding tokenize read_string next_token as_bytes
garbled = refl

tokenize_ends_example :
    (tokenize no_floats (codes "x | 1") ≢ out_of_fuel)
    × (tokenize_loop no_floats
          (suc (length (as_bytes (codes "x | 1"))) + 3)
          []
          (as_bytes (codes "x | 1"))
        ≡ tokenize no_floats (codes "x | 1"))
tokenize_ends_example = tokenize_ends no_floats (codes "x | 1") 3

abbrev query : List (Text × Token)
query =
    (codes "Select", keyword_or_ident (codes "select"))
    ∷ (codes "'it''s'", string_lit (codes "it's"))
    ∷ (codes "<=", le_tok)
    ∷ (codes "42", integer 42)
    ∷ []

tokenize-spaced_example :
    tokenize no_floats (spaced query) ≡ tokens (map (λ p. p.1) query ++ (eof ∷ []))
unfolding digits_of
tokenize-spaced_example = tokenize-spaced no_floats query (
  word 83 (codes "elect") refl (refl, (refl, (refl, (refl, (refl, tt))))),
  (
    literal (codes "it's") (omega arith, (omega arith, (omega arith, (omega arith, tt)))),
    (symbol (codes "<=") le_tok le_sym, (number 42 (omega arith), tt)),
  ),
)
