-- ===== src/Sql/Lexer/Written.antt =====
-- The texts that stand for tokens; they are ASCII.
use voltra.Prelude.{
  ℕ, ◌^◌, ◌<◌, ◌≡◌, refl, ap, Bool, true, ◌||◌, List, [], ◌∷◌, ◌++◌, map, arith, ltb, All,
  if◌then◌else◌, ◌==◌, Eq-nat, Bool-cases, inl, inr, nat_eq_iff,
}
use voltra.Resp.{to_string}
use voltra.Resp.Decimal.{Digit, digits_of-Digit}
use voltra.Sql.Token.{
  Text, Token, integer, string_lit, eq_tok, ne_tok, lt_tok, le_tok, gt_tok, ge_tok, plus_tok,
  minus_tok, star_tok, slash_tok, percent_tok, concat2_tok, l_paren, r_paren, comma, dot, semi,
  keyword_or_ident,
}
use voltra.Sql.Lexer.{as_bytes, is_digit, is_letter, to_lower}

abbrev pub in_word : ℕ → Bool
in_word c = is_letter c || is_digit c || c == b'_'

-- A text between single quotes, with quotes and backslashes doubled.
abbrev pub quoted : Text → Text
quoted [] = b'\'' ∷ []
quoted (c ∷ s) = if c == b'\'' || c == b'\\' then c ∷ c ∷ quoted s else c ∷ quoted s

pub data Symbol : Text → Token → Type 0 where
  l_paren_sym : Symbol (b'(' ∷ []) l_paren
  r_paren_sym : Symbol (b')' ∷ []) r_paren
  comma_sym : Symbol (b',' ∷ []) comma
  dot_sym : Symbol (b'.' ∷ []) dot
  semi_sym : Symbol (b';' ∷ []) semi
  plus_sym : Symbol (b'+' ∷ []) plus_tok
  minus_sym : Symbol (b'-' ∷ []) minus_tok
  star_sym : Symbol (b'*' ∷ []) star_tok
  slash_sym : Symbol (b'/' ∷ []) slash_tok
  percent_sym : Symbol (b'%' ∷ []) percent_tok
  eq_sym : Symbol (b'=' ∷ []) eq_tok
  ne_sym : Symbol (b'!' ∷ b'=' ∷ []) ne_tok
  other_ne_sym : Symbol (b'<' ∷ b'>' ∷ []) ne_tok
  lt_sym : Symbol (b'<' ∷ []) lt_tok
  le_sym : Symbol (b'<' ∷ b'=' ∷ []) le_tok
  gt_sym : Symbol (b'>' ∷ []) gt_tok
  ge_sym : Symbol (b'>' ∷ b'=' ∷ []) ge_tok
  concat_sym : Symbol (b'|' ∷ b'|' ∷ []) concat2_tok

abbrev pub Ascii : ℕ → Type 0
Ascii c = c < 128

-- The texts that stand for a token: words in any case, numbers, texts in quotes, operators. A text in quotes is ASCII.
pub data Written : Text → Token → Type 0 where
  word :
      (c : ℕ) (cs : Text)
      → (is_letter c || c == b'_') ≡ true
      → All (λ d. in_word d ≡ true) cs
      → Written (c ∷ cs) (keyword_or_ident (map to_lower (c ∷ cs)))
  number : (n : ℕ) → n < 2 ^ 63 → Written (to_string n) (integer n)
  literal : (s : Text) → All Ascii s → Written (b'\'' ∷ quoted s) (string_lit s)
  symbol : (t : Text) (k : Token) → Symbol t k → Written t k

-- Texts with the tokens that they stand for, each with a space after it.
abbrev pub spaced : List (Text × Token) → Text
spaced [] = []
spaced ((t, k) ∷ ts) = t ++ (b' ' ∷ spaced ts)

pub as_bytes-Ascii : (s : Text) → All Ascii s → as_bytes s ≡ s
unfolding as_bytes
as_bytes-Ascii [] a = refl
as_bytes-Ascii (c ∷ s) a =
    let small : ltb c 128 ≡ true = ground (arith, a.0) in
    rw small (ap (λ rest. c ∷ rest) (as_bytes-Ascii s a.1))

Ascii-append : (xs ys : Text) → All Ascii xs → All Ascii ys → All Ascii (xs ++ ys)
Ascii-append [] ys a b = b
Ascii-append (x ∷ xs) ys a b = (a.0, Ascii-append xs ys a.1 b)

word-Ascii : (cs : Text) → All (λ d. in_word d ≡ true) cs → All Ascii cs
word-Ascii [] a = tt
word-Ascii (c ∷ cs) a = (ground (arith, a.0, nat_eq_iff c b'_'), word-Ascii cs a.1)

Digit-Ascii : (cs : Text) → All Digit cs → All Ascii cs
Digit-Ascii [] a = tt
Digit-Ascii (c ∷ cs) a = (omega (arith, a.0.1), Digit-Ascii cs a.1)

quoted-Ascii : (s : Text) → All Ascii s → All Ascii (quoted s)
quoted-Ascii [] a = (omega arith, tt)
quoted-Ascii (c ∷ s) a = elim (Bool-cases (c == b'\'' || c == b'\\')) [
  | inl e ↦
      let twice : quoted (c ∷ s) ≡ c ∷ c ∷ quoted s = rw e refl in
      rw twice (a.0, (a.0, quoted-Ascii s a.1))
  | inr e ↦
      let once : quoted (c ∷ s) ≡ c ∷ quoted s = rw e refl in rw once (a.0, quoted-Ascii s a.1)
]

Symbol-Ascii : (t : Text) (k : Token) → Symbol t k → All Ascii t
Symbol-Ascii _ _ ne_sym = (omega arith, (omega arith, tt))
Symbol-Ascii _ _ other_ne_sym = (omega arith, (omega arith, tt))
Symbol-Ascii _ _ le_sym = (omega arith, (omega arith, tt))
Symbol-Ascii _ _ ge_sym = (omega arith, (omega arith, tt))
Symbol-Ascii _ _ concat_sym = (omega arith, (omega arith, tt))
Symbol-Ascii _ _ l_paren_sym = (omega arith, tt)
Symbol-Ascii _ _ r_paren_sym = (omega arith, tt)
Symbol-Ascii _ _ comma_sym = (omega arith, tt)
Symbol-Ascii _ _ dot_sym = (omega arith, tt)
Symbol-Ascii _ _ semi_sym = (omega arith, tt)
Symbol-Ascii _ _ plus_sym = (omega arith, tt)
Symbol-Ascii _ _ minus_sym = (omega arith, tt)
Symbol-Ascii _ _ star_sym = (omega arith, tt)
Symbol-Ascii _ _ slash_sym = (omega arith, tt)
Symbol-Ascii _ _ percent_sym = (omega arith, tt)
Symbol-Ascii _ _ eq_sym = (omega arith, tt)
Symbol-Ascii _ _ lt_sym = (omega arith, tt)
Symbol-Ascii _ _ gt_sym = (omega arith, tt)

Written-Ascii : (t : Text) (k : Token) → Written t k → All Ascii t
Written-Ascii _ _ (word c cs h w) = (ground (arith, h, nat_eq_iff c b'_'), word-Ascii cs w)
Written-Ascii _ _ (number n h) = Digit-Ascii (to_string n) (digits_of-Digit 20 n)
Written-Ascii _ _ (literal s h) = (omega arith, quoted-Ascii s h)
Written-Ascii t k (symbol _ _ s) = Symbol-Ascii t k s

pub spaced-Ascii :
    (ts : List (Text × Token)) → All (λ p. Written p.0 p.1) ts → All Ascii (spaced ts)
spaced-Ascii [] w = tt
spaced-Ascii ((t, k) ∷ ts) w =
    Ascii-append t (b' ' ∷ spaced ts) (Written-Ascii t k w.0) (omega arith, spaced-Ascii ts w.1)
