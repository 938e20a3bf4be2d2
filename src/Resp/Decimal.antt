-- ===== src/Resp/Decimal.antt =====
-- Numbers in decimal are read back, and hold no line end.
use voltra.Prelude.{
  ℕ, zero, suc, ◌+◌, ◌-◌, ◌*◌, ◌/◌, ◌%◌, ◌^◌, ◌≤◌, ◌<◌, ◌≡◌, refl, ap, ◌∙◌, true, some, [], ◌∷◌,
  ◌++◌, arith, ltb, length, length-append, All, Bool-cases, inl, inr, Eq-nat,
}
use voltra.Resp.{Bytes, pos, digits_of, to_string, crlf}
use voltra.Resp.Parse.{find_crlf, parse_digits, parse_int}

abbrev pub Digit : ℕ → Type 0
Digit c = (48 ≤ c) × (c ≤ 57)

parse_digits-append :
    (acc : ℕ) (xs ys : Bytes) (n : ℕ)
    → parse_digits acc xs ≡ some n
    → parse_digits acc (xs ++ ys) ≡ parse_digits n ys
unfolding parse_digits
parse_digits-append acc [] ys n h = ground (arith, h)
parse_digits-append acc (x ∷ xs) ys n h =
    ground (arith, parse_digits-append (acc * 10 + (x - 48)) xs ys n, h)

All-append : (xs ys : Bytes) → All Digit xs → All Digit ys → All Digit (xs ++ ys)
All-append [] ys a b = b
All-append (x ∷ xs) ys a b = (a.0, All-append xs ys a.1 b)

le→ltb : (n : ℕ) → n < 10 * 1 → ltb n 10 ≡ true
le→ltb n h = ground arith

pub digits_of-Digit : (fuel n : ℕ) → All Digit (digits_of fuel n)
unfolding digits_of
digits_of-Digit zero n = tt
digits_of-Digit (suc fuel) n = elim (Bool-cases (ltb n 10)) [
  | inl small ↦ rw (small, digits_of) ((omega arith, ground (arith, small)), tt)
  | inr big ↦
      rw (big, digits_of)
        (All-append (digits_of fuel (n / 10)) ((48 + n % 10) ∷ []) (digits_of-Digit fuel (n / 10))
          ((omega arith, omega arith), tt))
]

-- The numbers of so many digits at most.
abbrev pub limit : ℕ → ℕ
limit zero = 1
limit (suc fuel) = 10 * limit fuel

parse_digits-last :
    (xs : Bytes) (n d : ℕ)
    → d < 10
    → parse_digits 0 xs ≡ some n
    → parse_digits 0 (xs ++ (48 + d) ∷ []) ≡ some (n * 10 + d)
parse_digits-last xs n d h e =
    parse_digits-append 0 xs ((48 + d) ∷ []) n e ∙ (unfold parse_digits in ground arith)

pub parse_digits-digits_of :
    (fuel n : ℕ) → n < limit (suc fuel) → parse_digits 0 (digits_of (suc fuel) n) ≡ some n
unfolding digits_of
parse_digits-digits_of zero n h = rw (le→ltb n h, digits_of) (unfold parse_digits in ground arith)
parse_digits-digits_of (suc fuel) n h = elim (Bool-cases (ltb n 10)) [
  | inl small ↦ rw (small, digits_of) (unfold parse_digits in ground (arith, small))
  | inr big ↦
      rw (big, digits_of)
        (parse_digits-last (digits_of (suc fuel) (n / 10)) (n / 10) (n % 10) (omega arith)
            (parse_digits-digits_of fuel (n / 10) (omega (arith, h)))
          ∙ ap some (omega arith))
]

-- A first byte that is a digit is no sign.
parse_int-digits :
    (c : ℕ) (cs : Bytes) (n : ℕ)
    → Digit c
    → parse_digits 0 (c ∷ cs) ≡ some n
    → n < 2 ^ 63
    → parse_int (c ∷ cs) ≡ some (pos n)
unfolding parse_int
parse_int-digits c cs n d e h = rw e (ground arith)

parse_int-Digit :
    (xs : Bytes) (n : ℕ)
    → All Digit xs
    → 0 < length xs
    → parse_digits 0 xs ≡ some n
    → n < 2 ^ 63
    → parse_int xs ≡ some (pos n)
parse_int-Digit [] n d l e h = absurd (omega (arith, l))
parse_int-Digit (c ∷ cs) n d l e h = parse_int-digits c cs n d.0 e h

pub digits_of-filled : (fuel n : ℕ) → 0 < length (digits_of (suc fuel) n)
unfolding digits_of
digits_of-filled fuel n =
    ground (arith, length-append (digits_of fuel (n / 10)) ((48 + n % 10) ∷ []))

pub parse_int-to_string : (n : ℕ) → n < 2 ^ 63 → parse_int (to_string n) ≡ some (pos n)
parse_int-to_string n h =
    parse_int-Digit (to_string n) n (digits_of-Digit 20 n) (digits_of-filled 19 n)
      (parse_digits-digits_of 19 n (omega arith)) h

find_crlf-Digit :
    (line rest : Bytes) → All Digit line → find_crlf (line ++ crlf ++ rest) ≡ some (line, rest)
unfolding find_crlf
find_crlf-Digit [] rest d = refl
find_crlf-Digit (c ∷ []) rest d = ground (arith, d.0, find_crlf-Digit [] rest tt)
find_crlf-Digit (c ∷ e ∷ line) rest d = ground (arith, d.0, find_crlf-Digit (e ∷ line) rest d.1)

pub find_crlf-to_string :
    (n : ℕ) (rest : Bytes) → find_crlf (to_string n ++ crlf ++ rest) ≡ some (to_string n, rest)
find_crlf-to_string n rest = find_crlf-Digit (to_string n) rest (digits_of-Digit 20 n)
