-- ===== src/Leaderboard/Ranks.antt =====
-- The rank that a player is told is the place at which `top` lists the player.
use voltra.Prelude.{
  ℕ, zero, suc, ◌+◌, ◌-◌, ◌≤◌, ◌<◌, ◌≡◌, refl, ap, sym, ◌∙◌, true, false, Option, none, some, List,
  [], ◌∷◌, arith, take, get_elem?, Bool-cases, Option-cases, inl, inr, Eq-nat, Eq-list, list_eq_iff,
}
use voltra.Prelude.Map.{lookup}
use voltra.Leaderboard.{Bytes, ScoreKey, key_eq, key_lt, decode_score}
use voltra.Leaderboard.Keys.{key_eq_iff, key_lt_irrefl, key_lt_asym}
use voltra.Leaderboard.Board.{
  LeaderboardEntry, LeaderboardConfig, LeaderboardData, Entries, RankInfo, rank_info, ok, err,
  player_not_found, count_below, compute_rank, Op, create_board, apply_all, ranked, top_entries,
  player_rank,
}
use voltra.Leaderboard.Places.{Above, Sorted, held}
use voltra.Leaderboard.Index.{rank_of, told_apart, suc_of, Sound, key_owner, apply_all-Sound}

module _ {J : Type 0} where
  count_below-none : (key : ScoreKey) (es : Entries J) → Above key es → count_below key es ≡ 0
  unfolding count_below
  count_below-none key [] a = refl
  count_below-none key ((k, e) ∷ es) a =
      ground (arith, count_below-none key es a.1, key_lt_asym key k a.0)

  held-below : (key : ScoreKey) (p : Bytes) (es : Entries J) → Above key es → held key p es ≡ false
  held-below key p [] a = refl
  held-below key p ((k, e) ∷ es) a =
      ground (arith, held-below key p es a.1, key_eq_iff key k, key_lt_irrefl k, a.0)

  held-Above :
      (k key : ScoreKey) (p : Bytes) (es : Entries J)
      → Above k es
      → held key p es ≡ true
      → key_lt k key ≡ true
  held-Above k key p [] a h = ground (arith, h)
  held-Above k key p ((j, e) ∷ es) a h =
      ground (arith, held-Above k key p es a.1, key_eq_iff key j, a.0, h)

  -- The rank and the player of a line of a ranking.
  abbrev pub line : Option (ℕ × LeaderboardEntry J) → Option (ℕ × Bytes)
  line none = none
  line (some (n, e)) = some (n, e.player_id)

  ranked-held :
      (n count : ℕ) (key : ScoreKey) (p : Bytes) (es : Entries J)
      → Sorted es
      → held key p es ≡ true
      → count_below key es < count
      → line (get_elem? (ranked n (take count es)) (count_below key es))
        ≡ some (n + count_below key es, p)
  unfolding Sorted count_below
  ranked-held n count key p [] s h c = ground (arith, h)
  ranked-held n zero key p ((k, e) ∷ es) s h c = absurd (omega (arith, c))
  ranked-held n (suc count) key p ((k, e) ∷ es) s h c = elim (Bool-cases (key_eq key k)) [
    | inl same ↦
        let eq = (key_eq_iff key k).0 same in
        let here : key_lt k key ≡ false = rw eq (key_lt_irrefl k) in
        let above : Above key es = rw eq s.0 in
        rw (here, count_below-none key es above)
          (ground (arith, h, same, held-below key p es above, list_eq_iff e.player_id p))
    | inr apart ↦
        let below : held key p es ≡ true = ground (arith, h, apart) in
        let before = held-Above k key p es s.0 below in
        let rest = ranked-held (n + 1) count key p es s.1 below (ground (arith, c, before)) in
        rw (before, suc_of (count_below key es)) (rest ∙ ap (λ m. some (m, p)) (omega arith))
  ]

  told_none :
      (board : LeaderboardData J) (player : Bytes)
      → lookup player board.player_index ≡ none
      → player_rank player board ≡ err player_not_found
  unfolding player_rank
  told_none board player e = rw (e, player_rank) refl

  told_some :
      (board : LeaderboardData J) (player : Bytes) (key : ScoreKey)
      → lookup player board.player_index ≡ some key
      → player_rank player board
        ≡ ok (rank_info board key (decode_score key.encoded board.config.sort_order))
  unfolding player_rank
  told_some board player key e = rw (e, player_rank) refl

  board_rank_in_top :
      (board : LeaderboardData J) (player : Bytes) (info : RankInfo) (count : ℕ)
      → Sound board
      → player_rank player board ≡ ok info
      → info.rank ≤ count
      → line (get_elem? (top_entries count board) (info.rank - 1)) ≡ some (info.rank, player)
  unfolding player_rank top_entries compute_rank
  board_rank_in_top board player info count s told listed =
      elim (Option-cases (lookup player board.player_index)) [
        | inl e ↦ absurd (told_apart player_not_found info (sym (told_none board player e) ∙ told))
        | inr (key, e) ↦
            let r : count_below key board.entries + 1 ≡ info.rank =
              unfold compute_rank in ap rank_of (sym (told_some board player key e) ∙ told) in
            let held_key = (key_owner player key board s e).0 in
            let found =
              ranked-held 1 count key player board.entries s.sorted held_key
                (omega (arith, r, listed)) in
            let at : info.rank - 1 ≡ count_below key board.entries = omega (arith, r) in
            rw at (found ∙ ap (λ m. some (m, player)) (omega (arith, r)))
      ]

  -- After whatever scores, removals and resets, the rank that `get_rank` tells of a player is the line
  -- at which `top` lists the player, if it lists that many.
  pub rank_in_top :
      (config : LeaderboardConfig) (ops : List (Op J)) (player : Bytes) (info : RankInfo)
      (count : ℕ)
      → player_rank player (apply_all (create_board config) ops) ≡ ok info
      → info.rank ≤ count
      → line (get_elem? (top_entries count (apply_all (create_board config) ops)) (info.rank - 1))
        ≡ some (info.rank, player)
  rank_in_top config ops player info count told listed =
      board_rank_in_top (apply_all (create_board config) ops) player info count
        (apply_all-Sound ops (create_board config)
          (record { sorted = unfold Sorted in tt; covers = λ p. unfold lookup in refl }))
        told listed
