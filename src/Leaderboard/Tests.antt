-- ===== src/Leaderboard/Tests.antt =====
-- A board of two places, and three players.
use voltra.Prelude.{
  ℕ, ◌+◌, ◌*◌, ◌≤◌, ◌-◌, ◌≡◌, refl, true, false, none, some, List, [], ◌∷◌, arith, ltb, length,
  get_elem?,
}
use voltra.Prelude.Map.{lookup, insert, remove}
use voltra.Leaderboard.{
  highest_first, lowest_first, encode_score, decode_score, float_lt, key_lt, key_eq, bytes_lt,
  new_key,
}
use voltra.Leaderboard.Order.{decode_score-encode_score, encode_score-order}
use voltra.Leaderboard.Board.{
  LeaderboardConfig, weekly, Op, submit_score, create_board, apply_all, apply, RankInfo, ok,
  player_rank, top_entries, hundredfold, submit, place, evict, insert_entry, remove_entry,
  count_below, compute_rank, window_expired,
}
use voltra.Leaderboard.Cap.{max_entries_kept}
use voltra.Leaderboard.Ranks.{rank_in_top, line}
use voltra.Leaderboard.Windows.{day, weekly_resets_on_sunday}

-- 1.0 and 2.0
abbrev one : ℕ
one = 4607182418800017408

abbrev two : ℕ
two = 4611686018427387904

decode_score-encode_score_example :
    decode_score (encode_score highest_first one) highest_first ≡ one
decode_score-encode_score_example = decode_score-encode_score highest_first one (omega arith)

encode_score-order_example :
    (ltb (encode_score lowest_first one) (encode_score lowest_first two) ≡ float_lt one two)
    × (ltb (encode_score highest_first one) (encode_score highest_first two) ≡ float_lt two one)
encode_score-order_example = encode_score-order one two (omega arith) (omega arith) refl refl

abbrev two_places : LeaderboardConfig
two_places = record { name = []; sort_order = highest_first; time_window = weekly; max_entries = 2 }

abbrev some_ops : List (Op ℕ)
some_ops =
    submit_score (1 ∷ []) one none 5
    ∷ submit_score (2 ∷ []) two none 6
    ∷ submit_score (3 ∷ []) two none 7
    ∷ []

max_entries_kept_example : length (apply_all (create_board two_places) some_ops).entries ≤ 2
max_entries_kept_example = max_entries_kept two_places some_ops

abbrev second : RankInfo
second = record { rank = 2; score = two; total_players = 2; percentile = hundredfold 0 1 }

told : player_rank (3 ∷ []) (apply_all (create_board two_places) some_ops) ≡ ok second
unfolding player_rank apply submit place evict insert_entry remove_entry count_below compute_rank
    lookup insert remove key_lt key_eq bytes_lt new_key encode_score decode_score
told = refl

rank_in_top_example :
    line (get_elem? (top_entries 2 (apply_all (create_board two_places) some_ops)) (2 - 1))
    ≡ some (2, 3 ∷ [])
rank_in_top_example = rank_in_top two_places some_ops (3 ∷ []) second 2 told (omega arith)

-- Monday falls one day behind the reset, and is no reset.
weekly_resets_on_sunday_example :
    (window_expired weekly (2 * (7 * day) + 3 * day - 1) (2 * (7 * day) + 3 * day) ≡ true)
    × (window_expired weekly (2 * (7 * day) + 3 * day + 5) (2 * (7 * day) + 3 * day + day) ≡ false)
weekly_resets_on_sunday_example =
    weekly_resets_on_sunday 2 5 day (omega arith) (omega arith) (omega arith)
