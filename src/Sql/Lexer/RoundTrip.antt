-- ===== src/Sql/Lexer/RoundTrip.antt =====
-- Tokens that are written out with a space after each are read back.
use voltra.Prelude.{
  ℕ, suc, zero, ◌^◌, ◌<◌, ◌≡◌, refl, ap, sym, ◌∙◌, true, false, ◌||◌, Option, List, [], ◌∷◌, ◌++◌,
  map, arith, length, length-append, All, ◌==◌, Eq-nat, Bool-cases, inl, inr, nat_eq_iff,
}
use mathlib.Core.List.{append_assoc, append-nil}
use voltra.Resp.{to_string}
use voltra.Resp.Decimal.{Digit, digits_of-Digit, digits_of-filled, parse_digits-digits_of, limit}
use voltra.Sql.Token.{
  Text, Token, integer, string_lit, eq_tok, ne_tok, lt_tok, le_tok, gt_tok, ge_tok, plus_tok,
  minus_tok, star_tok, slash_tok, percent_tok, concat2_tok, l_paren, r_paren, comma, dot, semi, eof,
  keyword_or_ident,
}
use voltra.Sql.Lexer.{
  is_whitespace, is_digit, is_letter, to_lower, skip_whitespace, emit, read_string, number_text,
  parse_i64, read_ident, number_token, read_number, next_token, tokens, tokenize_loop, tokenize,
}
use voltra.Sql.Lexer.Ends.{loop_empty, loop-emit}
use voltra.Sql.Lexer.Written.{
  in_word, quoted, Symbol, l_paren_sym, r_paren_sym, comma_sym, dot_sym, semi_sym, plus_sym,
  minus_sym, star_sym, slash_sym, percent_sym, eq_sym, ne_sym, other_ne_sym, lt_sym, le_sym, gt_sym,
  ge_sym, concat_sym, Written, word, number, literal, symbol, spaced, as_bytes-Ascii, spaced-Ascii,
}

read_ident-word :
    (s cs r : Text)
    → All (λ d. in_word d ≡ true) cs
    → read_ident s (cs ++ (b' ' ∷ r)) ≡ emit (keyword_or_ident (s ++ map to_lower cs)) (b' ' ∷ r)
unfolding read_ident
read_ident-word s [] r h = ap (λ w. emit (keyword_or_ident w) (b' ' ∷ r)) (sym (append-nil s))
read_ident-word s (c ∷ cs) r h = rw (h.0) (
    read_ident-word (s ++ (to_lower c ∷ [])) cs r h.1
    ∙ ap (λ w. emit (keyword_or_ident w) (b' ' ∷ r))
        (append_assoc s (to_lower c ∷ []) (map to_lower cs)))

read_string-plain :
    (s rest : Text) (c : ℕ)
    → (c == b'\'' || c == b'\\') ≡ false
    → 0 < length rest
    → read_string b'\'' s (c ∷ rest) ≡ read_string b'\'' (s ++ (c ∷ [])) rest
unfolding read_string
read_string-plain s [] c h k = absurd (omega (arith, k))
read_string-plain s (d ∷ more) c h k = ground (arith, h)

quoted-filled : (s r : Text) → 0 < length (quoted s ++ r)
quoted-filled [] r = omega arith
quoted-filled (c ∷ s) r = ground arith

read_string-quoted :
    (s t r : Text)
    → read_string b'\'' s (quoted t ++ (b' ' ∷ r)) ≡ emit (string_lit (s ++ t)) (b' ' ∷ r)
unfolding read_string
read_string-quoted s [] r = ap (λ w. emit (string_lit w) (b' ' ∷ r)) (sym (append-nil s))
read_string-quoted s (c ∷ t) r =
    let tail = quoted t ++ (b' ' ∷ r) in
    let rest : read_string b'\'' (s ++ (c ∷ [])) tail
        ≡ emit (string_lit (s ++ (c ∷ t))) (b' ' ∷ r) =
      read_string-quoted (s ++ (c ∷ [])) t r
      ∙ ap (λ w. emit (string_lit w) (b' ' ∷ r)) (append_assoc s (c ∷ []) t) in
    elim (Bool-cases (c == b'\'')) [
      | inl e ↦ let same : c ≡ b'\'' = (nat_eq_iff c b'\'').0 e in ground (arith, e, same, rest)
      | inr e ↦ elim (Bool-cases (c == b'\\')) [
        | inl f ↦
            let same : c ≡ b'\\' = (nat_eq_iff c b'\\').0 f in ground (arith, e, f, same, rest)
        | inr f ↦
            let neither : (c == b'\'' || c == b'\\') ≡ false = ground (arith, e, f) in
            let plain : quoted (c ∷ t) ++ (b' ' ∷ r) ≡ c ∷ tail = rw neither refl in
            ap (λ w. read_string b'\'' s w) plain
            ∙ read_string-plain s tail c neither (quoted-filled t (b' ' ∷ r))
            ∙ rest
      ]
    ]

number_text-Digit :
    (s more : Text) (c d : ℕ)
    → Digit c
    → number_text s false (c ∷ d ∷ more) ≡ number_text (s ++ (c ∷ [])) false (d ∷ more)
unfolding number_text
number_text-Digit s more c d h =
    let digit : is_digit c ≡ true = ground (arith, h.0, h.1) in ground (arith, digit)

number_text-digits :
    (s ds r : Text)
    → All Digit ds
    → number_text s false (ds ++ (b' ' ∷ r)) ≡ (s ++ ds, (false, b' ' ∷ r))
number_text-digits s [] [] h =
    unfold number_text in ap (λ w. (w, (false, b' ' ∷ []))) (sym (append-nil s))
number_text-digits s [] (d ∷ r) h =
    unfold number_text in ap (λ w. (w, (false, b' ' ∷ d ∷ r))) (sym (append-nil s))
number_text-digits s (c ∷ []) r h =
    number_text-Digit s r c b' ' h.0
    ∙ number_text-digits (s ++ (c ∷ [])) [] r tt
    ∙ ap (λ w. (w, (false, b' ' ∷ r))) (append-nil (s ++ (c ∷ [])))
number_text-digits s (c ∷ d ∷ ds) r h =
    number_text-Digit s (ds ++ (b' ' ∷ r)) c d h.0
    ∙ number_text-digits (s ++ (c ∷ [])) (d ∷ ds) r h.1
    ∙ ap (λ w. (w, (false, b' ' ∷ r))) (append_assoc s (c ∷ []) (d ∷ ds))

module _ (parse_f64 : Text → Option ℕ) where
  -- A text with a space after it is one token.
  record Lexes (t : Text) (k : Token) : Type 0 where
    first : ℕ
    others : Text
    parts : t ≡ first ∷ others
    starts : is_whitespace first ≡ false
    lexed : (r : Text) → next_token parse_f64 first (others ++ (b' ' ∷ r)) ≡ emit k (b' ' ∷ r)

  one :
      (c : ℕ) (k : Token)
      → is_whitespace c ≡ false
      → ((r : Text) → next_token parse_f64 c (b' ' ∷ r) ≡ emit k (b' ' ∷ r))
      → Lexes (c ∷ []) k
  one c k w l = record { first = c; others = []; parts = refl; starts = w; lexed = l }

  two :
      (c d : ℕ) (k : Token)
      → is_whitespace c ≡ false
      → ((r : Text) → next_token parse_f64 c (d ∷ b' ' ∷ r) ≡ emit k (b' ' ∷ r))
      → Lexes (c ∷ d ∷ []) k
  two c d k w l = record { first = c; others = d ∷ []; parts = refl; starts = w; lexed = l }

  symbol-Lexes : (t : Text) (k : Token) → Symbol t k → Lexes t k
  unfolding next_token
  symbol-Lexes _ _ l_paren_sym = one b'(' l_paren refl (λ r. refl)
  symbol-Lexes _ _ r_paren_sym = one b')' r_paren refl (λ r. refl)
  symbol-Lexes _ _ comma_sym = one b',' comma refl (λ r. refl)
  symbol-Lexes _ _ dot_sym = one b'.' dot refl (λ r. refl)
  symbol-Lexes _ _ semi_sym = one b';' semi refl (λ r. refl)
  symbol-Lexes _ _ plus_sym = one b'+' plus_tok refl (λ r. refl)
  symbol-Lexes _ _ minus_sym = one b'-' minus_tok refl (λ r. refl)
  symbol-Lexes _ _ star_sym = one b'*' star_tok refl (λ r. refl)
  symbol-Lexes _ _ slash_sym = one b'/' slash_tok refl (λ r. refl)
  symbol-Lexes _ _ percent_sym = one b'%' percent_tok refl (λ r. refl)
  symbol-Lexes _ _ eq_sym = one b'=' eq_tok refl (λ r. refl)
  symbol-Lexes _ _ ne_sym = two b'!' b'=' ne_tok refl (λ r. refl)
  symbol-Lexes _ _ other_ne_sym = two b'<' b'>' ne_tok refl (λ r. refl)
  symbol-Lexes _ _ lt_sym = one b'<' lt_tok refl (λ r. refl)
  symbol-Lexes _ _ le_sym = two b'<' b'=' le_tok refl (λ r. refl)
  symbol-Lexes _ _ gt_sym = one b'>' gt_tok refl (λ r. refl)
  symbol-Lexes _ _ ge_sym = two b'>' b'=' ge_tok refl (λ r. refl)
  symbol-Lexes _ _ concat_sym = two b'|' b'|' concat2_tok refl (λ r. refl)

  next_token-letter :
      (c : ℕ) (rest : Text)
      → (is_letter c || c == b'_') ≡ true
      → next_token parse_f64 c rest ≡ read_ident (to_lower c ∷ []) rest
  unfolding next_token
  next_token-letter c rest h = ground (arith, h, nat_eq_iff c b'_')

  next_token-Digit :
      (c : ℕ) (rest : Text) → Digit c → next_token parse_f64 c rest ≡ read_number parse_f64 c rest
  unfolding next_token
  next_token-Digit c rest h = ground (arith, h.0, h.1)

  parse_i64-digits : (n : ℕ) → n < 2 ^ 63 → parse_i64 (to_string n) ≡ n
  parse_i64-digits n h =
      let small : n < limit 20 = omega (arith, h) in
      ground (arith, parse_digits-digits_of 19 n small, h)

  number-Lexes :
      (t : Text) (n : ℕ) → parse_i64 t ≡ n → All Digit t → 0 < length t → Lexes t (integer n)
  unfolding read_number
  number-Lexes [] n p d l = absurd (omega (arith, l))
  number-Lexes (c ∷ cs) n p d l = record {
    first = c;
    others = cs;
    parts = refl;
    starts = ground (arith, d.0.0, d.0.1);
    lexed = λ r.
        next_token-Digit c (cs ++ (b' ' ∷ r)) d.0
        ∙ ap (number_token parse_f64) (number_text-digits (c ∷ []) cs r d.1)
        ∙ ap (λ m. emit (integer m) (b' ' ∷ r)) p;
  }

  next_token-quote : (rest : Text) → next_token parse_f64 b'\'' rest ≡ read_string b'\'' [] rest
  unfolding next_token
  next_token-quote rest = refl

  Written-Lexes : (t : Text) (k : Token) → Written t k → Lexes t k
  Written-Lexes _ _ (word c cs h w) = record {
    first = c;
    others = cs;
    parts = refl;
    starts = ground (arith, h, nat_eq_iff c b'_');
    lexed =
        λ r. next_token-letter c (cs ++ (b' ' ∷ r)) h ∙ read_ident-word (to_lower c ∷ []) cs r w;
  }
  Written-Lexes _ _ (number n h) =
      number-Lexes (to_string n) n (parse_i64-digits n h) (digits_of-Digit 20 n)
        (digits_of-filled 19 n)
  Written-Lexes _ _ (literal s h) = record {
    first = b'\'';
    others = quoted s;
    parts = refl;
    starts = refl;
    lexed = λ r. next_token-quote (quoted s ++ (b' ' ∷ r)) ∙ read_string-quoted [] s r;
  }
  Written-Lexes t k (symbol _ _ s) = symbol-Lexes t k s

module _ (parse_f64 : Text → Option ℕ) where
  skip_whitespace-other :
      (c : ℕ) (cs : Text) → is_whitespace c ≡ false → skip_whitespace (c ∷ cs) ≡ c ∷ cs
  unfolding skip_whitespace
  skip_whitespace-other c cs h = ground (arith, h)

  loop_space :
      (fuel : ℕ) (so_far : List Token) (input : Text)
      → tokenize_loop parse_f64 fuel so_far (b' ' ∷ input)
        ≡ tokenize_loop parse_f64 fuel so_far input
  unfolding tokenize_loop skip_whitespace
  loop_space zero so_far input = refl
  loop_space (suc fuel) so_far input = refl

  loop-spaced :
      (fuel : ℕ) (so_far : List Token) (ts : List (Text × Token))
      → length (spaced ts) < fuel
      → All (λ p. Written p.0 p.1) ts
      → tokenize_loop parse_f64 fuel so_far (spaced ts)
        ≡ tokens (so_far ++ (map (λ p. p.1) ts ++ (eof ∷ [])))
  unfolding skip_whitespace
  loop-spaced zero so_far ts h w = absurd (omega (arith, h))
  loop-spaced (suc fuel) so_far [] h w = loop_empty parse_f64 fuel so_far [] refl
  loop-spaced (suc fuel) so_far ((t, k) ∷ ts) h w =
      let l = Written-Lexes parse_f64 t k w.0 in
      let rest = b' ' ∷ spaced ts in
      let input : spaced ((t, k) ∷ ts) ≡ l.first ∷ (l.others ++ rest) =
        ap (λ x. x ++ rest) l.parts in
      let less : length (spaced ts) < fuel =
        ground (arith, h, length-append t rest, ap length l.parts) in
      loop-emit parse_f64 fuel so_far (spaced ((t, k) ∷ ts)) l.first (l.others ++ rest) rest k
        (ap skip_whitespace input ∙ skip_whitespace-other l.first (l.others ++ rest) l.starts)
        (l.lexed (spaced ts))
      ∙ loop_space fuel (so_far ++ (k ∷ [])) (spaced ts)
      ∙ loop-spaced fuel (so_far ++ (k ∷ [])) ts less w.1
      ∙ ap tokens (append_assoc so_far (k ∷ []) (map (λ p. p.1) ts ++ (eof ∷ [])))

-- Tokens that are written out, with a space after each, are read back with the end mark after them: words
-- in any case as keywords or as identifiers, numbers below 2 ^ 63, ASCII texts in single quotes with
-- quotes and backslashes doubled, and operators.
pub tokenize-spaced :
    (parse_f64 : Text → Option ℕ) (ts : List (Text × Token))
    → All (λ p. Written p.0 p.1) ts
    → tokenize parse_f64 (spaced ts) ≡ tokens (map (λ p. p.1) ts ++ (eof ∷ []))
unfolding tokenize
tokenize-spaced parse_f64 ts w =
    rw (as_bytes-Ascii (spaced ts) (spaced-Ascii ts w))
      (loop-spaced parse_f64 (suc (length (spaced ts))) [] ts (omega arith) w)
