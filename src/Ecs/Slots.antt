-- ===== src/Ecs/Slots.antt =====
-- Lists as arrays of slots.
use voltra.Prelude.{
  ℕ, zero, suc, ◌<◌, ◌≡◌, refl, ap, false, true, some, List, [], ◌∷◌, ◌++◌, arith, length,
  get_elem?, set, is_some, ◌==◌, Eq-nat,
}

module _ {ℓ} {A : Type ℓ} where
  pub get-append :
      (last : A) (gens : List A) (i : ℕ) (g : A)
      → get_elem? gens i ≡ some g
      → get_elem? (gens ++ last ∷ []) i ≡ some g
  get-append last [] i g h = ground (arith, h)
  get-append last (x ∷ gens) zero g h = h
  get-append last (x ∷ gens) (suc i) g h = get-append last gens i g h

  pub get-last :
      (last : A) (gens : List A) → get_elem? (gens ++ last ∷ []) (length gens) ≡ some last
  get-last last [] = refl
  get-last last (x ∷ gens) = get-last last gens

  pub get-set :
      (gens : List A) (i : ℕ) (v : A) → i < length gens → get_elem? (set gens i v) i ≡ some v
  get-set [] i v h = absurd (omega arith)
  get-set (x ∷ gens) zero v h = refl
  get-set (x ∷ gens) (suc i) v h = get-set gens i v (omega arith)

  pub get-set_other :
      (gens : List A) (i j : ℕ) (v : A)
      → (i == j) ≡ false
      → get_elem? (set gens i v) j ≡ get_elem? gens j
  get-set_other [] i j v h = refl
  get-set_other (x ∷ gens) zero zero v h = ground (arith, h)
  get-set_other (x ∷ gens) zero (suc j) v h = refl
  get-set_other (x ∷ gens) (suc i) zero v h = refl
  get-set_other (x ∷ gens) (suc i) (suc j) v h = get-set_other gens i j v (ground (arith, h))

  pub get-bound : (gens : List A) (i : ℕ) → i < length gens → is_some (get_elem? gens i) ≡ true
  get-bound [] i h = absurd (omega arith)
  get-bound (x ∷ gens) zero h = refl
  get-bound (x ∷ gens) (suc i) h = get-bound gens i (omega arith)

  pub bound-get : (gens : List A) (i : ℕ) (g : A) → get_elem? gens i ≡ some g → i < length gens
  bound-get [] i g h = ground (arith, h)
  bound-get (x ∷ gens) zero g h = omega arith
  bound-get (x ∷ gens) (suc i) g h = omega (arith, bound-get gens i g h)

  pub length-set : (gens : List A) (i : ℕ) (v : A) → length (set gens i v) ≡ length gens
  length-set [] i v = refl
  length-set (x ∷ gens) zero v = refl
  length-set (x ∷ gens) (suc i) v = ap suc (length-set gens i v)
