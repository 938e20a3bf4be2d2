-- ===== src/Leaderboard/Index.antt =====
-- What the index of a board says of each player is what the entries say.
use voltra.Prelude.{
  ℕ, zero, suc, ◌+◌, ◌≡◌, refl, ap, sym, ◌∙◌, true, false, Option, none, some, List, [], ◌∷◌, arith,
  ltb, length, is_some, Bool-cases, Option-cases, inl, inr, ◌==◌, Eq-nat, Eq-list, list_eq_iff,
}
use voltra.Prelude.Map.{lookup, insert, remove, lookup-insert, lookup-remove}
use voltra.Leaderboard.{Bytes, ScoreKey, new_key, decode_score}
use voltra.Leaderboard.Keys.{key_eq_iff}
use voltra.Leaderboard.Board.{
  LeaderboardEntry, LeaderboardData, Entries, RankInfo, Result, ok, err, BoardError, insert_entry,
  remove_entry, last_entry, drop_worst, evict, dominated, place, submit, take_player, check_window,
  window_expired, Op, submit_score, remove_player, check_window_expiry, apply, apply_all,
}
use voltra.Leaderboard.Places.{
  Sorted, held, covered, insert_entry-Sorted, remove_entry-Sorted, held-insert_same,
  held-insert_other, held-remove_other,
}

abbrev pub rank_of : Result RankInfo → ℕ
rank_of (ok info) = info.rank
rank_of (err e) = 0

pub told_apart : (e : BoardError) (info : RankInfo) → err e ≡ ok info → ⊥
told_apart e info h = ground (arith, h)

pub suc_of : (m : ℕ) → 1 + m ≡ suc m
suc_of m = omega arith

module _ {J : Type 0} where
  -- The order of the entries, and what the index says of every player.
  pub record Sound (board : LeaderboardData J) : Type 0 where
    pub sorted : Sorted board.entries
    pub covers : (p : Bytes) → covered p (lookup p board.player_index) board.entries ≡ true

  -- A key that another player's index entry has is not the key of this one.
  pub covered-remove :
      (key : ScoreKey) (p : Bytes) (o : Option ScoreKey) (es : Entries J)
      → (key.player_id == p) ≡ false
      → covered p o es ≡ true
      → covered p o (remove_entry key es) ≡ true
  covered-remove key p none es h c = refl
  covered-remove key p (some j) es h c = ground (
    arith,
    held-remove_other key j p es,
    key_eq_iff j key,
    list_eq_iff j.player_id p,
    list_eq_iff key.player_id p,
    h,
    c,
  )

  pub covered-insert :
      (key : ScoreKey) (p : Bytes) (e : LeaderboardEntry J) (o : Option ScoreKey) (es : Entries J)
      → (key.player_id == p) ≡ false
      → covered p o es ≡ true
      → covered p o (insert_entry key e es) ≡ true
  covered-insert key p e none es h c = refl
  covered-insert key p e (some j) es h c = ground (
    arith,
    held-insert_other key j p e es,
    key_eq_iff j key,
    list_eq_iff j.player_id p,
    list_eq_iff key.player_id p,
    h,
    c,
  )

  pub drop-Sound :
      (key : ScoreKey) (board : LeaderboardData J)
      → Sound board
      → Sound (record board {
        player_index = remove key.player_id board.player_index;
        entries = remove_entry key board.entries;
      })
  drop-Sound key board s = record {
    sorted = remove_entry-Sorted key board.entries s.sorted;
    covers = λ p. elim (Bool-cases (key.player_id == p)) [
      | inl e ↦ rw (lookup-remove key.player_id p board.player_index) (rw e refl)
      | inr e ↦
          rw (lookup-remove key.player_id p board.player_index)
            (rw e (covered-remove key p (lookup p board.player_index) board.entries e (s.covers p)))
    ];
  }

  pub evict-Sound : (fuel : ℕ) (board : LeaderboardData J) → Sound board → Sound (evict fuel board)
  unfolding evict
  evict-Sound zero board s = s
  evict-Sound (suc fuel) board s =
      elim (Bool-cases (ltb board.config.max_entries (length board.entries))) [
        | inr fits ↦ rw (fits, evict) s
        | inl over ↦ elim (Option-cases (last_entry board.entries)) [
          | inl e ↦ rw (over, e, evict) s
          | inr (w, e) ↦
              rw (over, e, evict) (evict-Sound fuel (drop_worst w board) (drop-Sound w.0 board s))
        ]
      ]

  pub add-Sound :
      (key : ScoreKey) (e : LeaderboardEntry J) (board : LeaderboardData J)
      → e.player_id ≡ key.player_id
      → Sound board
      → Sound (record board {
        entries = insert_entry key e board.entries;
        player_index = insert key.player_id key board.player_index;
      })
  add-Sound key e board named s = record {
    sorted = insert_entry-Sorted key e board.entries s.sorted;
    covers = λ p. elim (Bool-cases (key.player_id == p)) [
      | inl h ↦ rw (lookup-insert key.player_id p key board.player_index) (
          rw h (
            ground (
              arith,
              held-insert_same key p e board.entries (named ∙ (list_eq_iff key.player_id p).0 h),
              h,
            )))
      | inr h ↦
          rw (lookup-insert key.player_id p key board.player_index) (
            rw h
              (covered-insert key p e (lookup p board.player_index) board.entries h (s.covers p)))
    ];
  }

  pub place-Sound :
      (player : Bytes) (score : ℕ) (metadata : Option J) (now : ℕ) (board : LeaderboardData J)
      → Sound board
      → Sound (place player score metadata now board).1
  unfolding place new_key
  place-Sound player score metadata now board s =
      let key = new_key score board.config.sort_order now player in
      let entry : LeaderboardEntry J = record {
        player_id = player;
        score = score;
        metadata = metadata;
        updated_at_ms = now;
      } in
      let placed : LeaderboardData J = record board {
        entries = insert_entry key entry board.entries;
        player_index = insert player key board.player_index;
      } in
      let done = evict-Sound (length placed.entries) placed (add-Sound key entry board refl s) in
      elim (Bool-cases
        (is_some (lookup player (evict (length placed.entries) placed).player_index))) [
          | inl e ↦ rw (e, place) done
          | inr e ↦ rw (e, place) done
        ]

  -- The key that the index has for a player is the player's.
  pub key_owner :
      (p : Bytes) (key : ScoreKey) (board : LeaderboardData J)
      → Sound board
      → lookup p board.player_index ≡ some key
      → (held key p board.entries ≡ true) × (key.player_id ≡ p)
  key_owner p key board s e =
      let c : covered p (some key) board.entries ≡ true =
        ap (λ o. covered p o board.entries) (sym e) ∙ s.covers p in
      (ground (arith, c), ground (arith, c, list_eq_iff key.player_id p))

  pub drop_player-Sound :
      (p : Bytes) (key : ScoreKey) (board : LeaderboardData J)
      → Sound board
      → lookup p board.player_index ≡ some key
      → Sound (record board {
        player_index = remove p board.player_index;
        entries = remove_entry key board.entries;
      })
  drop_player-Sound p key board s e =
      rw (sym (key_owner p key board s e).1) (drop-Sound key board s)

  pub submit-Sound :
      (player : Bytes) (score : ℕ) (metadata : Option J) (now : ℕ) (board : LeaderboardData J)
      → Sound board
      → Sound (submit player score metadata now board).1
  unfolding submit
  submit-Sound player score metadata now board s =
      elim (Option-cases (lookup player board.player_index)) [
        | inl e ↦ rw (e, submit) (place-Sound player score metadata now board s)
        | inr (key, e) ↦
            let order = board.config.sort_order in
            elim (Bool-cases (dominated order score (decode_score key.encoded order))) [
              | inl d ↦ rw (e, d, submit) s
              | inr d ↦
                  rw (e, d, submit)
                    (place-Sound player score metadata now _
                      (drop_player-Sound player key board s e))
            ]
      ]

  pub apply-Sound : (op : Op J) (board : LeaderboardData J) → Sound board → Sound (apply board op)
  unfolding apply take_player check_window
  apply-Sound (submit_score player score metadata now) board s =
      submit-Sound player score metadata now board s
  apply-Sound (remove_player player) board s =
      elim (Option-cases (lookup player board.player_index)) [
        | inl e ↦ rw (e, apply, take_player) s
        | inr (key, e) ↦ rw (e, apply, take_player) (drop_player-Sound player key board s e)
      ]
  apply-Sound (check_window_expiry now) board s =
      elim (Bool-cases (window_expired board.config.time_window board.window_start_ms now)) [
        | inl e ↦
            rw (e, apply, check_window)
              (record { sorted = unfold Sorted in tt; covers = λ p. unfold lookup in refl })
        | inr e ↦ rw (e, apply, check_window) s
      ]

  pub apply_all-Sound :
      (ops : List (Op J)) (board : LeaderboardData J) → Sound board → Sound (apply_all board ops)
  apply_all-Sound [] board s = s
  apply_all-Sound (op ∷ ops) board s = apply_all-Sound ops (apply board op) (apply-Sound op board s)
