-- ===== src/Leaderboard/Order.antt =====
-- The encoding of scores: it loses nothing, and turns the order of scores into that of numbers.
use voltra.Prelude.{ℕ, ◌+◌, ◌^◌, ◌<◌, ◌≡◌, true, false, ◌||◌, arith, ltb, ◌==◌, Eq-nat}
use voltra.Leaderboard.{
  SortOrder, highest_first, lowest_first, encode_score, decode_score, magnitude, is_nan, float_lt,
}

-- The score that is decoded from a key is the score that it was made of, for all 64-bit patterns.
pub decode_score-encode_score :
    (order : SortOrder) (bits : ℕ)
    → bits < 2 ^ 64
    → decode_score (encode_score order bits) order ≡ bits
unfolding decode_score encode_score
decode_score-encode_score highest_first bits h = ground arith
decode_score-encode_score lowest_first bits h = ground arith

-- Of two scores that are numbers, and not zeros of two signs, the one with the smaller encoding is
-- the larger if the highest comes first, and the smaller if the lowest does.
pub encode_score-order :
    (a b : ℕ)
    → a < 2 ^ 64
    → b < 2 ^ 64
    → (is_nan a || is_nan b) ≡ false
    → (a == b || ltb 0 (magnitude a + magnitude b)) ≡ true
    → (ltb (encode_score lowest_first a) (encode_score lowest_first b) ≡ float_lt a b)
      × (ltb (encode_score highest_first a) (encode_score highest_first b) ≡ float_lt b a)
unfolding encode_score
encode_score-order a b ha hb nan apart = (ground arith, ground arith)
