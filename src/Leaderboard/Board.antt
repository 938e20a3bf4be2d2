-- ===== src/Leaderboard/Board.antt =====
-- src/leaderboard.rs: the boards and their operations. A `BTreeMap` is a list in the order of its keys.
-- An error is the case it stands for, and a percentile the fraction that is rounded to an `f64`.
use voltra.Prelude.{
  ℕ, zero, suc, ◌+◌, ◌-◌, ◌/◌, ◌%◌, ◌^◌, Bool, true, false, ◌||◌, Option, none, some, List, [], ◌∷◌,
  ltb, leb, length, take, drop, is_some, if◌then◌else◌, ◌==◌, Eq-nat, Eq-list,
}
use voltra.Prelude.Map.{Map, lookup, insert, remove}
use voltra.Leaderboard.{
  Bytes, SortOrder, highest_first, lowest_first, ScoreKey, key_lt, key_eq, new_key, decode_score,
  float_le,
}

pub record LeaderboardEntry (J : Type 0) : Type 0 where
  pub player_id : Bytes
  pub score : ℕ
  pub metadata : Option J
  pub updated_at_ms : ℕ

pub data TimeWindow : Type 0 where
  all_time daily weekly monthly : TimeWindow
  custom : ℕ → TimeWindow

pub record LeaderboardConfig : Type 0 where
  pub name : Bytes
  pub sort_order : SortOrder
  pub time_window : TimeWindow
  pub max_entries : ℕ

-- 100, or a hundred times a fraction.
pub data Percentile : Type 0 where
  full : Percentile
  hundredfold : ℕ → ℕ → Percentile

pub record RankInfo : Type 0 where
  pub rank : ℕ
  pub score : ℕ
  pub total_players : ℕ
  pub percentile : Percentile

pub data BoardError : Type 0 where
  board_not_found player_not_found evicted invalid_range : BoardError

pub data Result (A : Type 0) : Type 0 where
  ok : A → Result A
  err : BoardError → Result A

abbrev pub Entries : Type 0 → Type 0
Entries J = List (ScoreKey × LeaderboardEntry J)

pub record LeaderboardData (J : Type 0) : Type 0 where
  pub config : LeaderboardConfig
  pub entries : Entries J
  pub player_index : Map Bytes ScoreKey
  pub window_start_ms : ℕ

abbrev pub compute_percentile : ℕ → ℕ → Percentile
compute_percentile rank total = if leb total 1 then full else hundredfold (total - rank) (total - 1)

abbrev pub dominated : SortOrder → ℕ → ℕ → Bool
dominated highest_first score existing = float_le score existing
dominated lowest_first score existing = float_le existing score

unfoldable pub window_expired : TimeWindow → ℕ → ℕ → Bool
window_expired all_time start now = false
window_expired daily start now = ltb (start / 86400000) (now / 86400000)
window_expired weekly start now =
    ltb ((start + 345600000) % 2 ^ 64 / 604800000) ((now + 345600000) % 2 ^ 64 / 604800000)
window_expired monthly start now = ltb (start / 2629746000) (now / 2629746000)
window_expired (custom duration) start now = leb ((start + duration) % 2 ^ 64) now

module _ {J : Type 0} where
  -- `BTreeMap::insert`
  unfoldable pub insert_entry : ScoreKey → LeaderboardEntry J → Entries J → Entries J
  insert_entry key e [] = (key, e) ∷ []
  insert_entry key e ((k, f) ∷ es) =
      let rest = insert_entry key e es in
      if key_lt key k
      then (key, e) ∷ (k, f) ∷ es
      else if key_eq key k
      then (key, e) ∷ es
      else (k, f) ∷ rest

  -- `BTreeMap::remove`
  unfoldable pub remove_entry : ScoreKey → Entries J → Entries J
  remove_entry key [] = []
  remove_entry key ((k, f) ∷ es) =
      let rest = remove_entry key es in if key_eq key k then es else (k, f) ∷ rest

  -- `range(..key).count()`
  unfoldable pub count_below : ScoreKey → Entries J → ℕ
  count_below key [] = 0
  count_below key ((k, f) ∷ es) = (if key_lt k key then 1 else 0) + count_below key es

  unfoldable pub compute_rank : LeaderboardData J → ScoreKey → ℕ
  unfolding count_below
  compute_rank board key = count_below key board.entries + 1

  -- `iter().next_back()`
  abbrev pub last_entry : Entries J → Option (ScoreKey × LeaderboardEntry J)
  last_entry [] = none
  last_entry (e ∷ []) = some e
  last_entry (e ∷ f ∷ es) = last_entry (f ∷ es)

  abbrev pub drop_worst : ScoreKey × LeaderboardEntry J → LeaderboardData J → LeaderboardData J
  drop_worst (key, e) board = record board {
    player_index = remove key.player_id board.player_index;
    entries = remove_entry key board.entries;
  }

  -- The loop that enforces the cap. Each round removes an entry.
  unfoldable pub evict : ℕ → LeaderboardData J → LeaderboardData J
  unfolding remove_entry
  evict zero board = board
  evict (suc fuel) board =
      if ltb board.config.max_entries (length board.entries)
      then elim (last_entry board.entries) [
        | none ↦ board
        | some worst ↦ evict fuel (drop_worst worst board)
      ]
      else board

  abbrev pub rank_info : LeaderboardData J → ScoreKey → ℕ → RankInfo
  rank_info board key score =
      let rank = compute_rank board key in
      let total = length board.entries in
      record {
        rank = rank;
        score = score;
        total_players = total;
        percentile = compute_percentile rank total;
      }

  -- The new entry, the cap, and the answer.
  unfoldable pub place :
      Bytes → ℕ → Option J → ℕ → LeaderboardData J → Result RankInfo × LeaderboardData J
  unfolding insert_entry evict compute_rank
  place player score metadata now board =
      let key = new_key score board.config.sort_order now player in
      let entry : LeaderboardEntry J = record {
        player_id = player;
        score = score;
        metadata = metadata;
        updated_at_ms = now;
      } in
      let placed : LeaderboardData J = record board {
        entries = insert_entry key entry board.entries;
        player_index = insert player key board.player_index;
      } in
      let capped = evict (length placed.entries) placed in
      if is_some (lookup player capped.player_index)
      then (ok (rank_info capped key score), capped)
      else (err evicted, capped)

  -- `submit_score`, on a board.
  unfoldable pub submit :
      Bytes → ℕ → Option J → ℕ → LeaderboardData J → Result RankInfo × LeaderboardData J
  unfolding place remove_entry compute_rank
  submit player score metadata now board = elim (lookup player board.player_index) [
    | none ↦ place player score metadata now board
    | some key ↦
        let existing = decode_score key.encoded board.config.sort_order in
        if dominated board.config.sort_order score existing
        then (ok (rank_info board key existing), board)
        else place player score metadata now (record board {
          entries = remove_entry key board.entries;
          player_index = remove player board.player_index;
        })
  ]

  -- `enumerate()`, counting from a rank on.
  abbrev pub ranked : ℕ → Entries J → List (ℕ × LeaderboardEntry J)
  ranked n [] = []
  ranked n ((k, e) ∷ es) = (n, e) ∷ ranked (n + 1) es

  unfoldable pub top_entries : ℕ → LeaderboardData J → List (ℕ × LeaderboardEntry J)
  top_entries count board = ranked 1 (take count board.entries)

  unfoldable pub player_rank : Bytes → LeaderboardData J → Result RankInfo
  unfolding compute_rank
  player_rank player board = elim (lookup player board.player_index) [
    | none ↦ err player_not_found
    | some key ↦ ok (rank_info board key (decode_score key.encoded board.config.sort_order))
  ]

  -- The entries of the ranks from `first` to `last`.
  abbrev pub between : ℕ → ℕ → LeaderboardData J → List (ℕ × LeaderboardEntry J)
  between first last board = take (last - first + 1) (drop (first - 1) (ranked 1 board.entries))

  unfoldable pub around : Bytes → ℕ → LeaderboardData J → Result (List (ℕ × LeaderboardEntry J))
  unfolding compute_rank
  around player count board = elim (lookup player board.player_index) [
    | none ↦ err player_not_found
    | some key ↦
        let rank = compute_rank board key in
        let start_rank = if ltb count rank then rank - count else 1 in
        let total = length board.entries in
        let below = (rank + count) % 2 ^ 64 in
        let end_rank = if ltb below total then below else total in
        ok (between start_rank end_rank board)
  ]

  unfoldable pub range : ℕ → ℕ → LeaderboardData J → Result (List (ℕ × LeaderboardEntry J))
  range start_rank end_rank board =
      if start_rank == 0 || ltb end_rank start_rank
      then err invalid_range
      else ok (between start_rank end_rank board)

  unfoldable pub take_player : Bytes → LeaderboardData J → Bool × LeaderboardData J
  unfolding remove_entry
  take_player player board = elim (lookup player board.player_index) [
    | none ↦ (false, board)
    | some key ↦ (
      true,
      record board {
        player_index = remove player board.player_index;
        entries = remove_entry key board.entries;
      },
    )
  ]

  unfoldable pub check_window : ℕ → LeaderboardData J → Bool × LeaderboardData J
  unfolding window_expired
  check_window now board =
      if window_expired board.config.time_window board.window_start_ms now
      then (true, record board { entries = []; player_index = []; window_start_ms = now })
      else (false, board)

-- What a caller may do to a board, and what it leaves.
pub data Op (J : Type 0) : Type 0 where
  submit_score : Bytes → ℕ → Option J → ℕ → Op J
  remove_player : Bytes → Op J
  check_window_expiry : ℕ → Op J

module _ {J : Type 0} where
  abbrev pub create_board : LeaderboardConfig → LeaderboardData J
  create_board config = record {
    config = config;
    entries = [];
    player_index = [];
    window_start_ms = 0;
  }

  unfoldable pub apply : LeaderboardData J → Op J → LeaderboardData J
  unfolding submit take_player check_window
  apply board (submit_score player score metadata now) = (submit player score metadata now board).1
  apply board (remove_player player) = (take_player player board).1
  apply board (check_window_expiry now) = (check_window now board).1

  abbrev pub apply_all : LeaderboardData J → List (Op J) → LeaderboardData J
  apply_all board [] = board
  apply_all board (op ∷ ops) = apply_all (apply board op) ops

-- The engine: the boards by name, and an operation on one of them.
abbrev pub Engine : Type 0 → Type 0
Engine J = Map Bytes (LeaderboardData J)

module _ {J : Type 0} where
  unfoldable pub add_board : LeaderboardConfig → Engine J → Engine J
  add_board config boards = insert config.name (create_board config) boards

  -- `submit_score`
  unfoldable pub engine_submit :
      Bytes → Bytes → ℕ → Option J → ℕ → Engine J → Result RankInfo × Engine J
  unfolding submit
  engine_submit name player score metadata now boards = elim (lookup name boards) [
    | none ↦ (err board_not_found, boards)
    | some board ↦
        let (answer, board') = submit player score metadata now board in
        (answer, insert name board' boards)
  ]

  -- `top`, `get_rank`, `get_around` and `get_range` read one board.
  abbrev pub on_board : {A : Type 0} → Bytes → (LeaderboardData J → Result A) → Engine J → Result A
  on_board name read boards = elim (lookup name boards) [
    | none ↦ err board_not_found
    | some board ↦ read board
  ]

  -- `remove_player` and `check_window_expiry` are false where there is no board.
  abbrev pub change_board :
      Bytes → (LeaderboardData J → Bool × LeaderboardData J) → Engine J → Bool × Engine J
  change_board name change boards = elim (lookup name boards) [
    | none ↦ (false, boards)
    | some board ↦ let (answer, board') = change board in (answer, insert name board' boards)
  ]

  unfoldable pub player_count : Bytes → Engine J → ℕ
  player_count name boards = elim (lookup name boards) [
    | none ↦ 0
    | some board ↦ length board.entries
  ]
