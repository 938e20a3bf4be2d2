-- ===== src/Leaderboard/Cap.antt =====
-- A board never holds more entries than its configuration allows.
use voltra.Prelude.{
  ℕ, zero, suc, ◌+◌, ◌≤◌, ◌≡◌, refl, ap, ◌∙◌, Bool, true, Option, none, some, List, [], ◌∷◌, arith,
  ltb, length, any, is_some, Bool-cases, Option-cases, inl, inr, if◌then◌else◌, Eq-nat, Eq-list,
  eq_refl,
}
use voltra.Prelude.Map.{lookup, insert}
use voltra.Leaderboard.{Bytes, ScoreKey, key_eq, new_key, decode_score}
use voltra.Leaderboard.Board.{
  LeaderboardEntry, LeaderboardConfig, LeaderboardData, Entries, insert_entry, remove_entry,
  last_entry, drop_worst, evict, dominated, place, submit, take_player, check_window,
  window_expired, Op, submit_score, remove_player, check_window_expiry, create_board, apply,
  apply_all,
}

key_eq_refl : (key : ScoreKey) → key_eq key key ≡ true
unfolding key_eq
key_eq_refl key = ground (arith, eq_refl key.player_id)

module _ {J : Type 0} where
  abbrev has_key : ScoreKey → Entries J → Bool
  has_key key es = any (λ e. key_eq key e.0) es

  length-remove_entry :
      (key : ScoreKey) (es : Entries J)
      → length (remove_entry key es) + (if has_key key es then 1 else 0) ≡ length es
  unfolding remove_entry
  length-remove_entry key [] = refl
  length-remove_entry key ((k, f) ∷ es) = ground (arith, length-remove_entry key es)

  last_entry-has_key :
      (w : ScoreKey × LeaderboardEntry J) (es : Entries J)
      → last_entry es ≡ some w
      → has_key w.0 es ≡ true
  last_entry-has_key w [] h = ground (arith, h)
  last_entry-has_key w (e ∷ []) h = ground (arith, h, key_eq_refl w.0)
  last_entry-has_key w (e ∷ f ∷ es) h = ground (arith, last_entry-has_key w (f ∷ es) h)

  last_entry-cons :
      (e : ScoreKey × LeaderboardEntry J) (es : Entries J) → is_some (last_entry (e ∷ es)) ≡ true
  last_entry-cons e [] = refl
  last_entry-cons e (f ∷ es) = last_entry-cons f es

  last_entry-none : (es : Entries J) → last_entry es ≡ none → length es ≡ 0
  last_entry-none [] h = refl
  last_entry-none (e ∷ es) h = ground (arith, h, last_entry-cons e es)

  length-drop_worst :
      (w : ScoreKey × LeaderboardEntry J) (board : LeaderboardData J)
      → last_entry board.entries ≡ some w
      → length (drop_worst w board).entries + 1 ≡ length board.entries
  length-drop_worst w board h =
      ground (arith, length-remove_entry w.0 board.entries, last_entry-has_key w board.entries h)

  abbrev Bounded : LeaderboardData J → Type 0
  Bounded board = length board.entries ≤ board.config.max_entries

  -- As many rounds as there are entries are enough.
  evict-Bounded :
      (fuel : ℕ) (board : LeaderboardData J)
      → length board.entries ≤ fuel + board.config.max_entries
      → Bounded (evict fuel board) × ((evict fuel board).config ≡ board.config)
  unfolding evict
  evict-Bounded zero board h = (omega arith, refl)
  evict-Bounded (suc fuel) board h =
      elim (Bool-cases (ltb board.config.max_entries (length board.entries))) [
        | inr fits ↦ rw (fits, evict) (ground (arith, fits), refl)
        | inl over ↦ elim (Option-cases (last_entry board.entries)) [
          | inl e ↦ rw (over, e, evict) (omega (arith, last_entry-none board.entries e), refl)
          | inr (w, e) ↦
              rw (over, e, evict)
                (evict-Bounded fuel (drop_worst w board)
                  (omega (arith, length-drop_worst w board e)))
        ]
      ]

  -- A board of a configuration, within its cap.
  Within : LeaderboardConfig → LeaderboardData J → Type 0
  Within config board = (length board.entries ≤ config.max_entries) × (board.config ≡ config)

  place-Within :
      (player : Bytes) (score : ℕ) (metadata : Option J) (now : ℕ) (config : LeaderboardConfig)
      (board : LeaderboardData J)
      → board.config ≡ config
      → Within config (place player score metadata now board).1
  unfolding place Within
  place-Within player score metadata now config board c =
      let key = new_key score board.config.sort_order now player in
      let entry : LeaderboardEntry J = record {
        player_id = player;
        score = score;
        metadata = metadata;
        updated_at_ms = now;
      } in
      let placed : LeaderboardData J = record board {
        entries = insert_entry key entry board.entries;
        player_index = insert player key board.player_index;
      } in
      let capped = evict-Bounded (length placed.entries) placed (omega arith) in
      let same = capped.1 ∙ c in
      elim (Bool-cases
        (is_some (lookup player (evict (length placed.entries) placed).player_index))) [
          | inl e ↦
              rw (e, place)
                (omega (arith, capped.0, ap (λ (k : LeaderboardConfig). k.max_entries) same), same)
          | inr e ↦
              rw (e, place)
                (omega (arith, capped.0, ap (λ (k : LeaderboardConfig). k.max_entries) same), same)
        ]

  submit-Within :
      (player : Bytes) (score : ℕ) (metadata : Option J) (now : ℕ) (config : LeaderboardConfig)
      (board : LeaderboardData J)
      → Within config board
      → Within config (submit player score metadata now board).1
  unfolding submit Within
  submit-Within player score metadata now config board w =
      elim (Option-cases (lookup player board.player_index)) [
        | inl e ↦ rw (e, submit) (place-Within player score metadata now config board w.1)
        | inr (key, e) ↦
            elim (Bool-cases (
              dominated board.config.sort_order score
                (decode_score key.encoded board.config.sort_order))) [
                  | inl d ↦ rw (e, d, submit) w
                  | inr d ↦ rw (e, d, submit) (place-Within player score metadata now config _ w.1)
                ]
      ]

  apply-Within :
      (op : Op J) (config : LeaderboardConfig) (board : LeaderboardData J)
      → Within config board
      → Within config (apply board op)
  unfolding apply Within take_player check_window
  apply-Within (submit_score player score metadata now) config board w =
      submit-Within player score metadata now config board w
  apply-Within (remove_player player) config board w =
      elim (Option-cases (lookup player board.player_index)) [
        | inl e ↦ rw (e, apply, take_player) w
        | inr (key, e) ↦
            rw (e, apply, take_player)
              (omega (arith, w.0, length-remove_entry key board.entries), w.1)
      ]
  apply-Within (check_window_expiry now) config board w =
      elim (Bool-cases (window_expired board.config.time_window board.window_start_ms now)) [
        | inl e ↦ rw (e, apply, check_window) (omega arith, w.1)
        | inr e ↦ rw (e, apply, check_window) w
      ]

  apply_all-Within :
      (ops : List (Op J)) (config : LeaderboardConfig) (board : LeaderboardData J)
      → Within config board
      → Within config (apply_all board ops)
  apply_all-Within [] config board w = w
  apply_all-Within (op ∷ ops) config board w =
      apply_all-Within ops config (apply board op) (apply-Within op config board w)

  -- Whatever scores are submitted, players removed and windows reset, a board never holds more entries
  -- than its configuration allows: the rounds of the loop that evicts are enough.
  pub max_entries_kept :
      (config : LeaderboardConfig) (ops : List (Op J))
      → length (apply_all (create_board config) ops).entries ≤ config.max_entries
  unfolding Within
  max_entries_kept config ops =
      (apply_all-Within ops config (create_board config) (unfold Within in (omega arith, refl))).0
