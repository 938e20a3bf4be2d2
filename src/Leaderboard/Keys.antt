-- ===== src/Leaderboard/Keys.antt =====
-- The order of score keys is a strict total order.
use voltra.Prelude.{◌≡◌, ◌↔◌, refl, true, false, [], ◌∷◌, arith, ◌==◌, Eq-nat, Eq-list, list_eq_iff}
use voltra.Leaderboard.{Bytes, ScoreKey, bytes_lt, key_lt, key_eq}

pub key_eq_iff : (a b : ScoreKey) → (key_eq a b ≡ true) ↔ (a ≡ b)
unfolding key_eq
key_eq_iff a b = ground (arith, list_eq_iff a.player_id b.player_id)

bytes_lt_irrefl : (xs : Bytes) → bytes_lt xs xs ≡ false
unfolding bytes_lt
bytes_lt_irrefl [] = refl
bytes_lt_irrefl (x ∷ xs) = ground (arith, bytes_lt_irrefl xs)

bytes_lt_trans :
    (xs ys zs : Bytes) → bytes_lt xs ys ≡ true → bytes_lt ys zs ≡ true → bytes_lt xs zs ≡ true
unfolding bytes_lt
bytes_lt_trans [] [] zs p q = ground (arith, p)
bytes_lt_trans (x ∷ xs) [] zs p q = ground (arith, p)
bytes_lt_trans xs (y ∷ ys) [] p q = ground (arith, q)
bytes_lt_trans [] (y ∷ ys) (z ∷ zs) p q = refl
bytes_lt_trans (x ∷ xs) (y ∷ ys) (z ∷ zs) p q = ground (arith, bytes_lt_trans xs ys zs, p, q)

bytes_lt_total :
    (xs ys : Bytes) → bytes_lt xs ys ≡ false → (xs == ys) ≡ false → bytes_lt ys xs ≡ true
unfolding bytes_lt
bytes_lt_total [] [] p q = ground (arith, q)
bytes_lt_total [] (y ∷ ys) p q = ground (arith, p)
bytes_lt_total (x ∷ xs) [] p q = refl
bytes_lt_total (x ∷ xs) (y ∷ ys) p q = ground (arith, bytes_lt_total xs ys, p, q)

pub key_lt_irrefl : (a : ScoreKey) → key_lt a a ≡ false
unfolding key_lt
key_lt_irrefl a = ground (arith, bytes_lt_irrefl a.player_id)

pub key_lt_trans : (a b c : ScoreKey) → key_lt a b ≡ true → key_lt b c ≡ true → key_lt a c ≡ true
unfolding key_lt
key_lt_trans a b c p q = ground (arith, bytes_lt_trans a.player_id b.player_id c.player_id, p, q)

pub key_lt_total : (a b : ScoreKey) → key_lt a b ≡ false → key_eq a b ≡ false → key_lt b a ≡ true
unfolding key_lt key_eq
key_lt_total a b p q = ground (arith, bytes_lt_total a.player_id b.player_id, p, q)

pub key_lt_asym : (a b : ScoreKey) → key_lt a b ≡ true → key_lt b a ≡ false
key_lt_asym a b p = ground (arith, key_lt_trans a b a p, key_lt_irrefl a)
