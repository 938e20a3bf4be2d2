-- ===== src/Sql/Lexer/Ends.antt =====
-- The loop of the lexer ends: every round takes a character at least.
use voltra.Prelude.{
  ℕ, suc, zero, ◌+◌, ◌≤◌, ◌<◌, ◌≡◌, ◌≢◌, ◌⊎◌, refl, ap, sym, ◌∙◌, Bool, true, false, not, ◌&&◌,
  ◌||◌, Option, List, [], ◌∷◌, ◌++◌, any, arith, length, ◌==◌, Eq-nat, Bool-cases, inl, inr,
}
use voltra.Sql.Token.{
  Bytes, Text, Token, lt_tok, le_tok, ne_tok, gt_tok, ge_tok, minus_tok, concat2_tok, eof,
}
use voltra.Sql.Lexer.{
  as_bytes, bang_alone, pipe_alone, LexError, is_digit, is_letter, to_lower, skip_whitespace,
  skip_line_comment, Step, emit, skip, fail, escaped, read_string, read_quoted_ident, is_e, is_sign,
  number_text, read_ident, longer, after_less, number_token, read_number, other_token, next_token,
  tokens, failed, out_of_fuel, tokenize_loop, tokenize,
}

-- How much a step leaves.
abbrev pub left : Step → ℕ
left (emit t more) = length more
left (skip more) = length more
left (fail e) = 0

skip_whitespace_le : (s : Bytes) → length (skip_whitespace s) ≤ length s
unfolding skip_whitespace
skip_whitespace_le [] = omega arith
skip_whitespace_le (c ∷ cs) = ground (arith, skip_whitespace_le cs)

skip_line_comment_le : (s : Bytes) → length (skip_line_comment s) ≤ length s
unfolding skip_line_comment
skip_line_comment_le [] = omega arith
skip_line_comment_le (c ∷ cs) = ground (arith, skip_line_comment_le cs)

read_string_le : (quote : ℕ) (s : Text) (cs : Bytes) → left (read_string quote s cs) ≤ length cs
unfolding read_string
read_string_le quote s [] = omega arith
read_string_le quote s (c ∷ []) = elim (Bool-cases (c == quote)) [
  | inl e ↦ ground (arith, e)
  | inr e ↦ ground (arith, e)
]
read_string_le quote s (c ∷ d ∷ more) = elim (Bool-cases (c == quote)) [
  | inl e ↦
      ground (arith, e, Bool-cases (d == quote), read_string_le quote (s ++ (quote ∷ [])) more)
  | inr e ↦ elim (Bool-cases (c == b'\\')) [
    | inl b ↦ ground (arith, e, b, read_string_le quote (s ++ escaped d) more)
    | inr b ↦ ground (arith, e, b, read_string_le quote (s ++ (c ∷ [])) (d ∷ more))
  ]
]

read_quoted_ident_le : (s : Text) (cs : Bytes) → left (read_quoted_ident s cs) ≤ length cs
unfolding read_quoted_ident
read_quoted_ident_le s [] = omega arith
read_quoted_ident_le s (c ∷ cs) =
    ground (arith, Bool-cases (c == b'`' || c == b'"'), read_quoted_ident_le (s ++ (c ∷ [])) cs)

read_ident_le : (s : Text) (cs : Bytes) → left (read_ident s cs) ≤ length cs
unfolding read_ident
read_ident_le s [] = omega arith
read_ident_le s (c ∷ cs) = ground (
  arith,
  Bool-cases (is_letter c || is_digit c || c == b'_'),
  read_ident_le (s ++ (to_lower c ∷ [])) cs,
)

number_text_le : (s : Text) (b : Bool) (cs : Bytes) → length (number_text s b cs).1.1 ≤ length cs
unfolding number_text
number_text_le s b [] = omega arith
number_text_le s b (c ∷ []) = elim (Bool-cases (is_digit c)) [
  | inl e ↦ ground (arith, e)
  | inr e ↦ ground (arith, e, Bool-cases (is_e c && not (any is_e s)))
]
number_text_le s b (c ∷ d ∷ more) = elim (Bool-cases (is_digit c)) [
  | inl e ↦ ground (arith, e, number_text_le (s ++ (c ∷ [])) b (d ∷ more))
  | inr e ↦ elim (Bool-cases (c == b'.' && (not b && is_digit d))) [
    | inl f ↦ ground (arith, e, f, number_text_le (s ++ (b'.' ∷ [])) true (d ∷ more))
    | inr f ↦ elim (Bool-cases (is_e c && not (any is_e s))) [
      | inl g ↦ ground (
        arith,
        e,
        f,
        g,
        Bool-cases (is_sign d),
        number_text_le (s ++ (c ∷ d ∷ [])) true more,
        number_text_le (s ++ (c ∷ [])) true (d ∷ more),
      )
      | inr g ↦ ground (arith, e, f, g)
    ]
  ]
]

longer_le :
    (second : ℕ) (short : Step) (long : Bytes → Step) (rest : Bytes)
    → left short ≤ length rest
    → ((more : Bytes) → left (long more) ≤ length more)
    → left (longer second short long rest) ≤ length rest
longer_le second short long [] h k = h
longer_le second short long (c ∷ cs) h k = ground (arith, h, k cs, Bool-cases (c == second))

-- The case of a step, with its equation.
pub data StepCase (s : Step) : Type 0 where
  emits : (t : Token) (more : Bytes) → s ≡ emit t more → StepCase s
  skips : (more : Bytes) → s ≡ skip more → StepCase s
  fails : (e : LexError) → s ≡ fail e → StepCase s

step_case : (s : Step) → StepCase s
step_case (emit t more) = emits t more refl
step_case (skip more) = skips more refl
step_case (fail e) = fails e refl

bytes_case : (s : Bytes) → (s ≡ []) ⊎ ((c : ℕ) × ((rest : Bytes) × (s ≡ c ∷ rest)))
bytes_case [] = inl refl
bytes_case (c ∷ rest) = inr (c, (rest, refl))

module _ (parse_f64 : Text → Option ℕ) where
  number_token_le : (r : Text × (Bool × Bytes)) → left (number_token parse_f64 r) ≤ length r.1.1
  number_token_le (s, (true, rest)) = omega arith
  number_token_le (s, (false, rest)) = omega arith

  other_token_le : (c : ℕ) (rest : Bytes) → left (other_token parse_f64 c rest) ≤ length rest
  unfolding read_number
  other_token_le c rest = elim (Bool-cases (is_digit c)) [
    | inl e ↦ ground (
      arith,
      e,
      number_token_le (number_text (c ∷ []) false rest),
      number_text_le (c ∷ []) false rest,
    )
    | inr e ↦
        ground
          (arith, e, Bool-cases (is_letter c || c == b'_'), read_ident_le (to_lower c ∷ []) rest)
  ]

  operator_le :
      (second : ℕ) (short long : Token) (rest : Bytes)
      → left (longer second (emit short rest) (emit long) rest) ≤ length rest
  operator_le second short long rest =
      longer_le second (emit short rest) (emit long) rest (omega arith) (λ more. omega arith)

  pub next_token_le : (c : ℕ) (rest : Bytes) → left (next_token parse_f64 c rest) ≤ length rest
  unfolding next_token
  next_token_le c rest =
      let less : left (after_less rest) ≤ length rest =
        longer_le b'=' (longer b'>' (emit lt_tok rest) (emit ne_tok) rest) (emit le_tok) rest
          (operator_le b'>' lt_tok ne_tok rest) (λ more. omega arith) in
      ground (
        arith,
        less,
        read_string_le b'\'' [] rest,
        read_quoted_ident_le [] rest,
        longer_le b'-' (emit minus_tok rest) (λ more. skip (skip_line_comment more)) rest
            (omega arith) skip_line_comment_le,
        longer_le b'=' (fail bang_alone) (emit ne_tok) rest (omega arith) (λ more. omega arith),
        longer_le b'|' (fail pipe_alone) (emit concat2_tok) rest (omega arith)
            (λ more. omega arith),
        operator_le b'=' gt_tok ge_tok rest,
        other_token_le c rest,
      )

  module _ (fuel : ℕ) (so_far : List Token) (input : Bytes) where
    pub loop_empty :
        skip_whitespace input ≡ []
        → tokenize_loop parse_f64 (suc fuel) so_far input ≡ tokens (so_far ++ (eof ∷ []))
    unfolding tokenize_loop
    loop_empty h = rw (h, tokenize_loop) refl

    pub loop-emit :
        (c : ℕ) (rest more : Bytes) (t : Token)
        → skip_whitespace input ≡ c ∷ rest
        → next_token parse_f64 c rest ≡ emit t more
        → tokenize_loop parse_f64 (suc fuel) so_far input
          ≡ tokenize_loop parse_f64 fuel (so_far ++ (t ∷ [])) more
    unfolding tokenize_loop
    loop-emit c rest more t h e = rw (h, tokenize_loop, e) refl

    loop-skip :
        (c : ℕ) (rest more : Bytes)
        → skip_whitespace input ≡ c ∷ rest
        → next_token parse_f64 c rest ≡ skip more
        → tokenize_loop parse_f64 (suc fuel) so_far input ≡ tokenize_loop parse_f64 fuel so_far more
    unfolding tokenize_loop
    loop-skip c rest more h e = rw (h, tokenize_loop, e) refl

    loop-fail :
        (c : ℕ) (rest : Bytes) (err : LexError)
        → skip_whitespace input ≡ c ∷ rest
        → next_token parse_f64 c rest ≡ fail err
        → tokenize_loop parse_f64 (suc fuel) so_far input ≡ failed err
    unfolding tokenize_loop
    loop-fail c rest err h e = rw (h, tokenize_loop, e) refl

  shorter :
      (input rest more : Bytes) (c fuel : ℕ)
      → skip_whitespace input ≡ c ∷ rest
      → length more ≤ length rest
      → length input < suc fuel
      → length more < fuel
  shorter input rest more c fuel h l k =
      let taken : length (skip_whitespace input) ≡ suc (length rest) = ap length h ∙ omega arith in
      ground (arith, skip_whitespace_le input, taken, l, k)

  -- Any fuel above the length of the input gives the same tokens.
  loop_fuel :
      (f g : ℕ) (so_far : List Token) (input : Bytes)
      → length input < f
      → length input < g
      → tokenize_loop parse_f64 f so_far input ≡ tokenize_loop parse_f64 g so_far input
  loop_fuel zero g so_far input h k = absurd (omega (arith, h))
  loop_fuel (suc f) zero so_far input h k = absurd (omega (arith, k))
  loop_fuel (suc f) (suc g) so_far input h k = elim (bytes_case (skip_whitespace input)) [
    | inl e ↦ loop_empty f so_far input e ∙ sym (loop_empty g so_far input e)
    | inr (c, (rest, e)) ↦ elim (step_case (next_token parse_f64 c rest)) [
      | emits t more d ↦
          let l : length more ≤ length rest = ground (arith, next_token_le c rest, d) in
          loop-emit f so_far input c rest more t e d
          ∙ loop_fuel f g (so_far ++ (t ∷ [])) more (shorter input rest more c f e l h)
              (shorter input rest more c g e l k)
          ∙ sym (loop-emit g so_far input c rest more t e d)
      | skips more d ↦
          let l : length more ≤ length rest = ground (arith, next_token_le c rest, d) in
          loop-skip f so_far input c rest more e d
          ∙ loop_fuel f g so_far more (shorter input rest more c f e l h)
              (shorter input rest more c g e l k)
          ∙ sym (loop-skip g so_far input c rest more e d)
      | fails err d ↦
          loop-fail f so_far input c rest err e d ∙ sym (loop-fail g so_far input c rest err e d)
    ]
  ]

  loop_ends :
      (f : ℕ) (so_far : List Token) (input : Bytes)
      → length input < f
      → tokenize_loop parse_f64 f so_far input ≢ out_of_fuel
  loop_ends zero so_far input h = absurd (omega (arith, h))
  loop_ends (suc f) so_far input h = elim (bytes_case (skip_whitespace input)) [
    | inl e ↦ λ q. absurd (ground (arith, sym (loop_empty f so_far input e) ∙ q))
    | inr (c, (rest, e)) ↦ elim (step_case (next_token parse_f64 c rest)) [
      | emits t more d ↦
          let l : length more ≤ length rest = ground (arith, next_token_le c rest, d) in
          λ q.
            loop_ends f (so_far ++ (t ∷ [])) more (shorter input rest more c f e l h)
              (sym (loop-emit f so_far input c rest more t e d) ∙ q)
      | skips more d ↦
          let l : length more ≤ length rest = ground (arith, next_token_le c rest, d) in
          λ q.
            loop_ends f so_far more (shorter input rest more c f e l h)
              (sym (loop-skip f so_far input c rest more e d) ∙ q)
      | fails err d ↦
          λ q. absurd (ground (arith, sym (loop-fail f so_far input c rest err e d) ∙ q))
    ]
  ]

-- The lexer ends on every input, with tokens or an error: the loop of as many rounds as the input has
-- bytes, and one more, is not cut short, and with any number of rounds more it gives the same.
pub tokenize_ends :
    (parse_f64 : Text → Option ℕ) (sql : Text) (more : ℕ)
    → (tokenize parse_f64 sql ≢ out_of_fuel)
      × (tokenize_loop parse_f64 (suc (length (as_bytes sql)) + more) [] (as_bytes sql)
          ≡ tokenize parse_f64 sql)
unfolding tokenize
tokenize_ends parse_f64 sql more =
    let bytes = as_bytes sql in
    (
      loop_ends parse_f64 (suc (length bytes)) [] bytes (omega arith),
      loop_fuel parse_f64 (suc (length bytes) + more) (suc (length bytes)) [] bytes (omega arith)
          (omega arith),
    )
