-- ===== src/Ecs/Live.antt =====
-- Lists of live ids: which are alive, how often an index is in use, and whether the generations are
-- those of the allocator.
use voltra.Prelude.{
  ℕ, ◌+◌, ◌≡◌, refl, ◌∙◌, Bool, true, false, some, List, [], ◌∷◌, ◌++◌, arith, length, get_elem?,
  set, any, if◌then◌else◌, ◌==◌, Eq-nat,
}
use voltra.Ecs.Slots.{get-append, get-set_other}
use voltra.Ecs.{EntityId, id_eq_iff, Eq-EntityId}

abbrev pub alive : EntityId → List EntityId → Bool
alive id ids = any (λ j. j == id) ids

abbrev pub without : EntityId → List EntityId → List EntityId
without id [] = []
without id (j ∷ ids) = if j == id then ids else j ∷ without id ids

abbrev pub at_index : ℕ → List EntityId → ℕ
at_index i [] = 0
at_index i (j ∷ ids) = (if j.index == i then 1 else 0) + at_index i ids

abbrev pub times : ℕ → List ℕ → ℕ
times i [] = 0
times i (j ∷ js) = (if j == i then 1 else 0) + times i js

unfoldable pub Current : List ℕ → List EntityId → Type 0
Current gens [] = Unit
Current gens (j ∷ ids) = (get_elem? gens j.index ≡ some j.generation) × Current gens ids

pub Current-append :
    (gens : List ℕ) (ids : List EntityId) → Current gens ids → Current (gens ++ 0 ∷ []) ids
unfolding Current
Current-append gens [] c = tt
Current-append gens (j ∷ ids) c =
    (get-append 0 gens j.index j.generation c.0, Current-append gens ids c.1)

pub Current-set :
    (gens : List ℕ) (i v : ℕ) (ids : List EntityId)
    → at_index i ids ≡ 0
    → Current gens ids
    → Current (set gens i v) ids
unfolding Current
Current-set gens i v [] a c = tt
Current-set gens i v (j ∷ ids) a c = (
  get-set_other gens i j.index v (ground (arith, a)) ∙ c.0,
  Current-set gens i v ids (ground (arith, a)) c.1,
)

-- An index that no live entity has belongs to none of them.
pub not_alive :
    (id : EntityId) (ids : List EntityId) → at_index id.index ids ≡ 0 → alive id ids ≡ false
not_alive id [] a = refl
not_alive id (j ∷ ids) a = ground (arith, not_alive id ids, id_eq_iff j id, a)

pub at_index-without :
    (i : ℕ) (id : EntityId) (ids : List EntityId)
    → alive id ids ≡ true
    → at_index i ids ≡ (if id.index == i then 1 else 0) + at_index i (without id ids)
at_index-without i id [] a = ground (arith, a)
at_index-without i id (j ∷ ids) a = ground (arith, at_index-without i id ids, id_eq_iff j id, a)

pub length-without :
    (id : EntityId) (ids : List EntityId)
    → alive id ids ≡ true
    → length ids ≡ length (without id ids) + 1
length-without id [] a = ground (arith, a)
length-without id (j ∷ ids) a = ground (arith, length-without id ids, a)

pub Current-without :
    (gens : List ℕ) (id : EntityId) (ids : List EntityId)
    → Current gens ids
    → Current gens (without id ids)
unfolding Current
Current-without gens id [] c = tt
Current-without gens id (j ∷ ids) c = ground (arith, Current-without gens id ids c.1, c.0, c.1)

pub Current-alive :
    (gens : List ℕ) (id : EntityId) (ids : List EntityId)
    → Current gens ids
    → alive id ids ≡ true
    → get_elem? gens id.index ≡ some id.generation
unfolding Current
Current-alive gens id [] c a = ground (arith, a)
Current-alive gens id (j ∷ ids) c a =
    ground (arith, Current-alive gens id ids c.1, c.0, id_eq_iff j id, a)
