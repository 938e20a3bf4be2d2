-- ===== src/Leaderboard/Places.antt =====
-- The entries of a board stand in the order of their keys, and each player's entry under its key.
use voltra.Prelude.{
  ◌≡◌, Bool, true, false, ◌&&◌, Option, none, some, [], ◌∷◌, arith, any, All, Bool-cases, inl, inr,
  ◌==◌, Eq-nat, Eq-list, list_eq_iff,
}
use voltra.Leaderboard.{Bytes, ScoreKey, key_eq, key_lt}
use voltra.Leaderboard.Keys.{key_eq_iff, key_lt_trans, key_lt_total}
use voltra.Leaderboard.Board.{LeaderboardEntry, Entries, insert_entry, remove_entry}

module _ {J : Type 0} where
  abbrev pub Above : ScoreKey → Entries J → Type 0
  Above k es = All (λ f. key_lt k f.0 ≡ true) es

  unfoldable pub Sorted : Entries J → Type 0
  Sorted [] = Unit
  Sorted ((k, e) ∷ es) = Above k es × Sorted es

  -- Whether the entry of a player stands under a key.
  abbrev pub held : ScoreKey → Bytes → Entries J → Bool
  held key p es = any (λ e. key_eq key e.0 && e.1.player_id == p) es

  abbrev pub covered : Bytes → Option ScoreKey → Entries J → Bool
  covered p none es = true
  covered p (some key) es = held key p es && key.player_id == p

  Above-insert_entry :
      (k key : ScoreKey) (e : LeaderboardEntry J) (es : Entries J)
      → key_lt k key ≡ true
      → Above k es
      → Above k (insert_entry key e es)
  unfolding insert_entry
  Above-insert_entry k key e [] h a = (h, tt)
  Above-insert_entry k key e ((j, f) ∷ es) h a =
      ground (arith, Above-insert_entry k key e es h a.1, h, a.0, a.1)

  Above-remove_entry :
      (k key : ScoreKey) (es : Entries J) → Above k es → Above k (remove_entry key es)
  unfolding remove_entry
  Above-remove_entry k key [] a = tt
  Above-remove_entry k key ((j, f) ∷ es) a =
      ground (arith, Above-remove_entry k key es a.1, a.0, a.1)

  Above-lower : (j k : ScoreKey) (es : Entries J) → key_lt j k ≡ true → Above k es → Above j es
  Above-lower j k [] h a = tt
  Above-lower j k ((i, f) ∷ es) h a = (key_lt_trans j k i h a.0, Above-lower j k es h a.1)

  pub insert_entry-Sorted :
      (key : ScoreKey) (e : LeaderboardEntry J) (es : Entries J)
      → Sorted es
      → Sorted (insert_entry key e es)
  unfolding insert_entry Sorted
  insert_entry-Sorted key e [] s = (tt, tt)
  insert_entry-Sorted key e ((k, f) ∷ es) s = elim (Bool-cases (key_lt key k)) [
    | inl lt ↦ rw (lt, insert_entry) ((lt, Above-lower key k es lt s.0), s)
    | inr ge ↦ elim (Bool-cases (key_eq key k)) [
      | inl same ↦ rw (ge, same, insert_entry) (rw ((key_eq_iff key k).0 same) s.0, s.1)
      | inr apart ↦
          rw (ge, apart, insert_entry)
            (
              Above-insert_entry k key e es (key_lt_total key k ge apart) s.0,
              insert_entry-Sorted key e es s.1,
            )
    ]
  ]

  pub remove_entry-Sorted :
      (key : ScoreKey) (es : Entries J) → Sorted es → Sorted (remove_entry key es)
  unfolding remove_entry Sorted
  remove_entry-Sorted key [] s = tt
  remove_entry-Sorted key ((k, f) ∷ es) s =
      ground (arith, remove_entry-Sorted key es s.1, Above-remove_entry k key es s.0, s.1)

  pub held-insert_same :
      (key : ScoreKey) (p : Bytes) (e : LeaderboardEntry J) (es : Entries J)
      → e.player_id ≡ p
      → held key p (insert_entry key e es) ≡ true
  unfolding insert_entry
  held-insert_same key p e [] h = ground (arith, list_eq_iff e.player_id p, key_eq_iff key key, h)
  held-insert_same key p e ((k, f) ∷ es) h =
      ground
        (arith, list_eq_iff e.player_id p, key_eq_iff key key, held-insert_same key p e es h, h)

  pub held-insert_other :
      (key j : ScoreKey) (p : Bytes) (e : LeaderboardEntry J) (es : Entries J)
      → key_eq j key ≡ false
      → held j p es ≡ true
      → held j p (insert_entry key e es) ≡ true
  unfolding insert_entry
  held-insert_other key j p e [] h c = ground (arith, c)
  held-insert_other key j p e ((k, f) ∷ es) h c = ground (
    arith,
    held-insert_other key j p e es h,
    key_eq_iff key k,
    key_eq_iff j k,
    key_eq_iff j key,
    h,
    c,
  )

  pub held-remove_other :
      (key j : ScoreKey) (p : Bytes) (es : Entries J)
      → key_eq j key ≡ false
      → held j p es ≡ true
      → held j p (remove_entry key es) ≡ true
  unfolding remove_entry
  held-remove_other key j p [] h c = ground (arith, c)
  held-remove_other key j p ((k, f) ∷ es) h c = ground (
    arith,
    held-remove_other key j p es h,
    key_eq_iff key k,
    key_eq_iff j k,
    key_eq_iff j key,
    h,
    c,
  )
