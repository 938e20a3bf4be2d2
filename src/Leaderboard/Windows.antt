-- ===== src/Leaderboard/Windows.antt =====
-- The weeks of the weekly boards.
use voltra.Prelude.{ℕ, ◌+◌, ◌*◌, ◌-◌, ◌^◌, ◌≤◌, ◌<◌, ◌≡◌, true, false, arith}
use voltra.Leaderboard.Board.{weekly, window_expired}

abbrev pub day : ℕ
day = 86400000

-- The epoch was a Thursday, so that `n` weeks and three days after it a Sunday begins. A weekly board
-- is reset when a Sunday begins, and at no later time within the seven days that follow, the coming
-- Monday included, as far as the sums stay below 2 ^ 64.
pub weekly_resets_on_sunday :
    (n a b : ℕ)
    → a ≤ b
    → b < 7 * day
    → (n + 3) * (7 * day) < 2 ^ 64
    → (window_expired weekly (n * (7 * day) + 3 * day - 1) (n * (7 * day) + 3 * day) ≡ true)
      × (window_expired weekly (n * (7 * day) + 3 * day + a) (n * (7 * day) + 3 * day + b) ≡ false)
unfolding window_expired
weekly_resets_on_sunday n a b le lt room = (ground arith, ground arith)
