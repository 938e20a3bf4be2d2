-- ===== src/Resp/Tests.antt =====
-- Two commands: one as an array, one inline with a quoted argument.
use voltra.Prelude.{◌≤◌, ◌≡◌, refl, List, [], ◌∷◌, ◌++◌, arith, length, All}
use voltra.Resp.{Bytes, array, encode}
use voltra.Resp.Parse.{
  complete, parse_command, parse_inline_command, split_inline, split, find_crlf, max_bulk,
}
use voltra.Resp.RoundTrip.{bulks, parse_command-encode}

-- SET k, with a line end in the value.
abbrev set_k : List Bytes
set_k = (83 ∷ 69 ∷ 84 ∷ []) ∷ (107 ∷ []) ∷ (49 ∷ 13 ∷ 10 ∷ []) ∷ []

set_k-fits : All (λ (arg : Bytes). length arg ≤ max_bulk) set_k
set_k-fits = (omega arith, (omega arith, (omega arith, tt)))

parse_command-encode_example :
    parse_command (encode (λ _. []) 2 (array (bulks set_k)) ++ 42 ∷ []) ≡ complete set_k (42 ∷ [])
parse_command-encode_example =
    parse_command-encode (λ _. []) 2 set_k (42 ∷ []) (omega arith) set_k-fits

-- P "a b"
inline_quoted :
    parse_command (80 ∷ 32 ∷ 34 ∷ 97 ∷ 32 ∷ 98 ∷ 34 ∷ 13 ∷ 10 ∷ [])
    ≡ complete ((80 ∷ []) ∷ (97 ∷ 32 ∷ 98 ∷ []) ∷ []) []
unfolding parse_command parse_inline_command split_inline split find_crlf
inline_quoted = refl
