-- ===== src/Ecs.antt =====
-- src/runtime/ecs.rs: entity ids with generations, and component maps. An index out of bounds panics,
-- which is `none` here. The type parameters of `World` stand for its five component types.
pub mod Slots
pub mod Live
pub mod Allocator
pub mod Agreement
pub mod Components
mod Tests
use voltra.Prelude.{
  ℕ, suc, ◌+◌, ◌-◌, ◌%◌, ◌^◌, Bool, true, false, ◌&&◌, Option, none, some, List, [], ◌∷◌, ◌++◌, ◌≡◌,
  ◌↔◌, arith, ltb, length, get_elem?, set, map, is_some, if◌then◌else◌, Eq, ◌==◌, Eq-nat,
  nat_eq_iff, ◌>>=◌,
}
use voltra.Prelude.Map.{Map, lookup, insert, remove}

abbrev pub u32_mod : ℕ
u32_mod = 2 ^ 32

pub record EntityId : Type 0 where
  pub index : ℕ
  pub generation : ℕ

unfoldable pub id_eq : EntityId → EntityId → Bool
id_eq a b = a.index == b.index && a.generation == b.generation

pub id_eq_iff : (a b : EntityId) → (id_eq a b ≡ true) ↔ (a ≡ b)
unfolding id_eq
id_eq_iff a b = ground arith

instance abbrev pub Eq-EntityId : Eq EntityId
Eq-EntityId = record { equals = id_eq; equals_iff = id_eq_iff }

-- The free list is a stack, its top first.
pub record EntityAllocator : Type 0 where
  pub generations : List ℕ
  pub free_list : List ℕ

abbrev pub new_allocator : EntityAllocator
new_allocator = record { generations = []; free_list = [] }

unfoldable pub alloc : EntityAllocator → Option (EntityId × EntityAllocator)
alloc a = elim a.free_list [
  | index ∷ free ↦ elim (get_elem? a.generations index) [
    | none ↦ none
    | some gen ↦ some (record { index = index; generation = gen }, record a { free_list = free })
  ]
  | [] ↦
      let index = length a.generations % u32_mod in
      some (
        record { index = index; generation = 0 },
        record a { generations = a.generations ++ 0 ∷ [] },
      )
]

unfoldable pub free : EntityId → EntityAllocator → Option EntityAllocator
free id a = elim (get_elem? a.generations id.index) [
  | none ↦ none
  | some gen ↦ some (record {
    generations = set a.generations id.index ((gen + 1) % u32_mod);
    free_list = id.index ∷ a.free_list;
  })
]

unfoldable pub is_alive : EntityId → EntityAllocator → Bool
is_alive id a = elim (get_elem? a.generations id.index) [
  | none ↦ false
  | some gen ↦ gen == id.generation
]

unfoldable pub entity_count : EntityAllocator → ℕ
entity_count a = length a.generations - length a.free_list

pub record ComponentMap (T : Type 0) : Type 0 where
  pub dense : List (Option T)
  pub sparse : Map EntityId ℕ
  pub len : ℕ

module _ {T : Type 0} where
  abbrev pub new_map : ComponentMap T
  new_map = record { dense = []; sparse = []; len = 0 }

  -- A store to `dense[slot]`.
  abbrev pub store : ℕ → Option T → ComponentMap T → Option (ComponentMap T)
  store slot v m =
      if ltb slot (length m.dense) then some (record m { dense = set m.dense slot v }) else none

  unfoldable pub put : EntityId → T → ComponentMap T → Option (ComponentMap T)
  put id component m = elim (lookup id m.sparse) [
    | some slot ↦ store slot (some component) m
    | none ↦ some (record {
      dense = m.dense ++ some component ∷ [];
      sparse = insert id (length m.dense % u32_mod) m.sparse;
      len = m.len + 1;
    })
  ]

  unfoldable pub get : EntityId → ComponentMap T → Option (Option T)
  get id m = elim (lookup id m.sparse) [ none ↦ some none | some slot ↦ get_elem? m.dense slot ]

  unfoldable pub take_out : EntityId → ComponentMap T → Option (Option T × ComponentMap T)
  take_out id m = elim (lookup id m.sparse) [
    | none ↦ some (none, m)
    | some slot ↦ elim (get_elem? m.dense slot) [
      | none ↦ none
      | some val ↦ some (
        val,
        record {
          dense = set m.dense slot none;
          sparse = remove id m.sparse;
          len = if is_some val then m.len - 1 else m.len;
        },
      )
    ]
  ]

  unfoldable pub has : EntityId → ComponentMap T → Bool
  has id m = is_some (lookup id m.sparse)

  abbrev pub is_empty : ComponentMap T → Bool
  is_empty m = m.len == 0

  unfoldable pub clear : ComponentMap T → ComponentMap T
  clear m = record { dense = map (λ _. none) m.dense; sparse = []; len = 0 }

pub record World (A B C D E : Type 0) : Type 0 where
  pub allocator : EntityAllocator
  pub transforms : ComponentMap A
  pub velocities : ComponentMap B
  pub healths : ComponentMap C
  pub players : ComponentMap D
  pub npcs : ComponentMap E

module _ {A B C D E : Type 0} where
  abbrev pub new_world : World A B C D E
  new_world = record {
    allocator = new_allocator;
    transforms = new_map;
    velocities = new_map;
    healths = new_map;
    players = new_map;
    npcs = new_map;
  }

  unfoldable pub spawn : World A B C D E → Option (EntityId × World A B C D E)
  unfolding alloc
  spawn w = elim (alloc w.allocator) [
    | none ↦ none
    | some (id, a) ↦ some (id, record w { allocator = a })
  ]

  unfoldable pub despawn : EntityId → World A B C D E → Option (World A B C D E)
  unfolding take_out free
  despawn id w = do
    (_, transforms) ← take_out id w.transforms
    (_, velocities) ← take_out id w.velocities
    (_, healths) ← take_out id w.healths
    (_, players) ← take_out id w.players
    (_, npcs) ← take_out id w.npcs
    allocator ← free id w.allocator
    some (record {
      allocator = allocator;
      transforms = transforms;
      velocities = velocities;
      healths = healths;
      players = players;
      npcs = npcs;
    })

  unfoldable pub clear_world : World A B C D E → World A B C D E
  unfolding clear
  clear_world w = record {
    allocator = new_allocator;
    transforms = clear w.transforms;
    velocities = clear w.velocities;
    healths = clear w.healths;
    players = clear w.players;
    npcs = clear w.npcs;
  }
