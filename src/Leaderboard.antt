-- ===== src/Leaderboard.antt =====
-- src/leaderboard.rs: score keys. A score is the bit pattern of an `f64`, and a player id the bytes of
-- its string. `J` stands for `serde_json::Value`.
pub mod Order
pub mod Board
pub mod Cap
pub mod Keys
pub mod Places
pub mod Index
pub mod Ranks
pub mod Windows
mod Tests
use voltra.Prelude.{
  ℕ, ◌+◌, ◌-◌, ◌%◌, ◌^◌, Bool, true, false, not, ◌&&◌, ◌||◌, Option, none, some, List, [], ◌∷◌, ltb,
  leb, if◌then◌else◌, ◌==◌, Eq-nat, Eq-list,
}

abbrev pub Bytes : Type 0
Bytes = List ℕ

abbrev pub sign_bit : ℕ
sign_bit = 2 ^ 63

-- `!n` of a `u64`.
abbrev pub flip_all : ℕ → ℕ
flip_all n = 2 ^ 64 - 1 - n

-- `n ^ (1 << 63)` of a `u64`.
abbrev pub flip_sign : ℕ → ℕ
flip_sign n = if ltb n sign_bit then n + sign_bit else n - sign_bit

pub data SortOrder : Type 0 where
  highest_first lowest_first : SortOrder

pub record ScoreKey : Type 0 where
  pub encoded : ℕ
  pub timestamp_inverted : ℕ
  pub player_id : Bytes

-- `[u8]::cmp`
unfoldable pub bytes_lt : Bytes → Bytes → Bool
bytes_lt [] [] = false
bytes_lt [] (y ∷ ys) = true
bytes_lt (x ∷ xs) [] = false
bytes_lt (x ∷ xs) (y ∷ ys) = ltb x y || (x == y && bytes_lt xs ys)

unfoldable pub key_lt : ScoreKey → ScoreKey → Bool
unfolding bytes_lt
key_lt a b =
    ltb a.encoded b.encoded
    || (a.encoded == b.encoded
        && (ltb a.timestamp_inverted b.timestamp_inverted
            || (a.timestamp_inverted == b.timestamp_inverted && bytes_lt a.player_id b.player_id)))

unfoldable pub key_eq : ScoreKey → ScoreKey → Bool
key_eq a b =
    a.encoded == b.encoded
    && (a.timestamp_inverted == b.timestamp_inverted && a.player_id == b.player_id)

abbrev pub to_sortable : ℕ → ℕ
to_sortable bits = if ltb bits sign_bit then flip_sign bits else flip_all bits

unfoldable pub encode_score : SortOrder → ℕ → ℕ
encode_score highest_first bits = flip_all (to_sortable bits)
encode_score lowest_first bits = to_sortable bits

-- `ScoreKey::new`
unfoldable pub new_key : ℕ → SortOrder → ℕ → Bytes → ScoreKey
unfolding encode_score
new_key score order timestamp player = record {
  encoded = encode_score order score;
  timestamp_inverted = timestamp;
  player_id = player;
}

abbrev pub from_sortable : ℕ → ℕ
from_sortable s = if ltb s sign_bit then flip_all s else flip_sign s

unfoldable pub decode_score : ℕ → SortOrder → ℕ
decode_score encoded highest_first = from_sortable (flip_all encoded)
decode_score encoded lowest_first = from_sortable encoded

-- The `f64` comparisons, on bit patterns: sign and magnitude, and a NaN compares with nothing.
abbrev pub magnitude : ℕ → ℕ
magnitude n = n % sign_bit

abbrev pub is_nan : ℕ → Bool
is_nan n = ltb 9218868437227405312 (magnitude n)

abbrev pub negative : ℕ → Bool
negative n = leb sign_bit n

abbrev pub float_lt : ℕ → ℕ → Bool
float_lt a b =
    if is_nan a || is_nan b
    then false
    else if negative a
    then if negative b
      then ltb (magnitude b) (magnitude a)
      else ltb 0 (magnitude a) || ltb 0 (magnitude b)
    else if negative b
    then false
    else ltb (magnitude a) (magnitude b)

abbrev pub float_le : ℕ → ℕ → Bool
float_le a b = not (is_nan a || is_nan b) && not (float_lt b a)
