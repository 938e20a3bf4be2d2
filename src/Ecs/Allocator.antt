-- ===== src/Ecs/Allocator.antt =====
-- Ids of live entities stay apart, as long as only live entities are despawned.
use voltra.Prelude.{
  ℕ, ◌+◌, ◌%◌, ◌≤◌, ◌<◌, ◌≡◌, refl, ap, Bool, true, false, ◌&&◌, Option, some, List, [], ◌∷◌, ◌++◌,
  arith, length, get_elem?, set, if◌then◌else◌, Eq-nat, Bool-cases, Option-cases, inl, inr,
  length-append, ltb, ◌>>=◌,
}
use voltra.Ecs.Slots.{get-last, get-set, get-bound, bound-get, length-set}
use voltra.Ecs.{
  EntityId, Eq-EntityId, EntityAllocator, new_allocator, u32_mod, alloc, free, is_alive,
  entity_count,
}
-- The abstract view: the ids that are alive, and what a caller may do.
use voltra.Ecs.Live.{
  alive, without, at_index, times, Current, Current-append, Current-set, not_alive,
  at_index-without, length-without, Current-without, Current-alive,
}

pub data Op : Type 0 where
  spawn_one : Op
  despawn_one : EntityId → Op

pub record State : Type 0 where
  pub allocator : EntityAllocator
  pub live : List EntityId

abbrev pub start : State
start = record { allocator = new_allocator; live = [] }

-- A despawn of an id that is not alive is not made.
abbrev pub step : State → Op → Option State
step s spawn_one = do
  (id, a) ← alloc s.allocator
  some (record { allocator = a; live = id ∷ s.live })
step s (despawn_one id) =
    if alive id s.live
    then (free id s.allocator >>= λ a. some (record { allocator = a; live = without id s.live }))
    else some s

abbrev pub run : State → List Op → Option State
run s [] = some s
run s (op ∷ ops) = do s' ← step s op; run s' ops

-- How often an index is in use.
-- Each index that has a generation is either free, once, or that of one live entity.
record Inv (n : ℕ) (s : State) : Type 0 where
  current : Current s.allocator.generations s.live
  used :
      (i : ℕ)
      → times i s.allocator.free_list + at_index i s.live
        ≡ (if ltb i (length s.allocator.generations) then 1 else 0)
  size : length s.allocator.free_list + length s.live ≡ length s.allocator.generations
  small : length s.allocator.generations ≤ n

-- What a spawn gives: an id, that no live entity has, and a state that is sound.
record Spawned (n : ℕ) (s : State) : Type 0 where
  id : EntityId
  after : EntityAllocator
  given : alloc s.allocator ≡ some (id, after)
  fresh : alive id s.live ≡ false
  inv : Inv n (record { allocator = after; live = id ∷ s.live })

spawn_new :
    (n : ℕ) (gens : List ℕ) (live : List EntityId)
    → n < u32_mod
    → Inv n (record { allocator = record { generations = gens; free_list = [] }; live = live })
    → Spawned
        (n + 1)
        (record { allocator = record { generations = gens; free_list = [] }; live = live })
unfolding Current
spawn_new n gens live room inv =
    let id : EntityId = record { index = length gens; generation = 0 } in
    let unused : at_index (length gens) live ≡ 0 = ground (arith, inv.used (length gens)) in
    record {
      id = id;
      after = record { generations = gens ++ 0 ∷ []; free_list = [] };
      given =
          unfold alloc in
          ap
            (λ i. some (
              record { index = i; generation = 0 },
              record { generations = gens ++ 0 ∷ []; free_list = [] },
            ))
            (omega (arith, inv.small));
      fresh = not_alive id live unused;
      inv = record {
        current = (get-last 0 gens, Current-append gens live inv.current);
        used = λ i. ground (arith, inv.used i, length-append gens (0 ∷ []));
        size = omega (arith, inv.size, length-append gens (0 ∷ []));
        small = omega (arith, inv.small, length-append gens (0 ∷ []));
      };
    }

spawn_again :
    (n index : ℕ) (gens rest : List ℕ) (live : List EntityId)
    → Inv n (record {
      allocator = record { generations = gens; free_list = index ∷ rest };
      live = live;
    })
    → Spawned (n + 1) (record {
      allocator = record { generations = gens; free_list = index ∷ rest };
      live = live;
    })
unfolding Current alloc
spawn_again n index gens rest live inv = elim (Option-cases (get_elem? gens index)) [
  | inl e ↦ absurd (ground (arith, inv.used index, get-bound gens index, e))
  | inr (gen, e) ↦
      let id : EntityId = record { index = index; generation = gen } in
      let unused : at_index index live ≡ 0 = ground (arith, inv.used index) in
      record {
        id = id;
        after = record { generations = gens; free_list = rest };
        given = rw (e, alloc) refl;
        fresh = not_alive id live unused;
        inv = record {
          current = (e, inv.current);
          used = λ i. ground (arith, inv.used i);
          size = omega (arith, inv.size);
          small = omega (arith, inv.small);
        };
      }
]

spawn_cases :
    (n : ℕ) (gens free_list : List ℕ) (live : List EntityId)
    → n < u32_mod
    → Inv n
        (record { allocator = record { generations = gens; free_list = free_list }; live = live })
    → Spawned
        (n + 1)
        (record { allocator = record { generations = gens; free_list = free_list }; live = live })
spawn_cases n gens [] live room inv = spawn_new n gens live room inv
spawn_cases n gens (i ∷ rest) live room inv = spawn_again n i gens rest live inv

spawn-Inv : (n : ℕ) (s : State) → n < u32_mod → Inv n s → Spawned (n + 1) s
spawn-Inv n s room inv = spawn_cases n s.allocator.generations s.allocator.free_list s.live room inv

-- The despawn of a live entity.
record Freed (n : ℕ) (id : EntityId) (s : State) : Type 0 where
  after : EntityAllocator
  made : free id s.allocator ≡ some after
  inv : Inv n (record { allocator = after; live = without id s.live })

despawn-Inv :
    (n : ℕ) (id : EntityId) (s : State) → alive id s.live ≡ true → Inv n s → Freed (n + 1) id s
unfolding free
despawn-Inv n id s a inv =
    let gens = s.allocator.generations in
    let e = Current-alive gens id s.live inv.current a in
    let bound = bound-get gens id.index id.generation e in
    let without_id = λ (i : ℕ). at_index-without i id s.live a in
    let gone : at_index id.index (without id s.live) ≡ 0 =
      ground (arith, inv.used id.index, without_id id.index) in
    let next = (id.generation + 1) % u32_mod in
    let same = length-set gens id.index next in
    record {
      after = record {
        generations = set gens id.index next;
        free_list = id.index ∷ s.allocator.free_list;
      };
      made = rw (e, free) refl;
      inv = record {
        current =
            Current-set gens id.index next (without id s.live) gone
              (Current-without gens id s.live inv.current);
        used = λ i. rw same (ground (arith, inv.used i, without_id i));
        size = omega (arith, inv.size, same, length-without id s.live a);
        small = omega (arith, inv.small, same);
      };
    }

-- A run does not panic, and ends in a sound state.
record Ran (limit : ℕ) (s : State) (ops : List Op) : Type 0 where
  last : State
  bound : ℕ
  bound_le : bound ≤ limit
  reached : run s ops ≡ some last
  inv : Inv bound last

run-Ran :
    (limit n : ℕ) (s : State) (ops : List Op)
    → n + length ops ≤ limit
    → limit < u32_mod
    → Inv n s
    → Ran limit s ops
run-Ran limit n s [] fits room inv = record {
  last = s;
  bound = n;
  bound_le = omega arith;
  reached = refl;
  inv = inv;
}
run-Ran limit n s (spawn_one ∷ ops) fits room inv =
    let k = spawn-Inv n s (omega arith) inv in
    let rest = run-Ran limit (n + 1) _ ops (omega arith) room k.inv in
    record {
      last = rest.last;
      bound = rest.bound;
      bound_le = rest.bound_le;
      reached = rw k.given rest.reached;
      inv = rest.inv;
    }
run-Ran limit n s (despawn_one id ∷ ops) fits room inv = elim (Bool-cases (alive id s.live)) [
  | inl a ↦
      let k = despawn-Inv n id s a inv in
      let rest = run-Ran limit (n + 1) _ ops (omega arith) room k.inv in
      record {
        last = rest.last;
        bound = rest.bound;
        bound_le = rest.bound_le;
        reached = rw (a, k.made) rest.reached;
        inv = rest.inv;
      }
  | inr a ↦
      let rest = run-Ran limit n s ops (omega arith) room inv in
      record {
        last = rest.last;
        bound = rest.bound;
        bound_le = rest.bound_le;
        reached = rw a rest.reached;
        inv = rest.inv;
      }
]

start-Inv : Inv 0 start
start-Inv = record {
  current = unfold Current in tt;
  used = λ i. ground arith;
  size = refl;
  small = omega arith;
}

abbrev pub all_alive : EntityAllocator → List EntityId → Bool
all_alive a [] = true
all_alive a (id ∷ ids) = is_alive id a && all_alive a ids

all_alive-Current :
    (a : EntityAllocator) (ids : List EntityId) → Current a.generations ids → all_alive a ids ≡ true
unfolding is_alive Current
all_alive-Current a [] c = refl
all_alive-Current a (id ∷ ids) c = ground (arith, c.0, all_alive-Current a ids c.1)

-- In a run of fewer than 2 ^ 32 spawns and despawns, in which only live entities are despawned, no
-- access is out of bounds, `entity_count` counts the live entities, and every one of them is alive. A
-- further spawn gives an id that no live entity has, which is alive like all the others.
pub spawn_fresh :
    (ops : List Op)
    → length ops + 1 < u32_mod
    → (s : State) × (id : EntityId) × (a : EntityAllocator) × (run start ops ≡ some s)
      × (entity_count s.allocator ≡ length s.live)
      × (alloc s.allocator ≡ some (id, a))
      × (alive id s.live ≡ false)
      × (all_alive a (id ∷ s.live) ≡ true)
unfolding entity_count
spawn_fresh ops room =
    let r = run-Ran (length ops) 0 start ops (omega arith) (omega arith) start-Inv in
    let k = spawn-Inv r.bound r.last (omega (arith, r.bound_le)) r.inv in
    (
      r.last,
      k.id,
      k.after,
      r.reached,
      omega (arith, r.inv.size),
      k.given,
      k.fresh,
      all_alive-Current k.after (k.id ∷ r.last.live) k.inv.current,
    )

-- Nothing keeps an entity from being despawned twice: its index is then free twice, and the next two
-- spawns give one and the same id.
pub double_despawn :
    (a : EntityAllocator) (id : EntityId)
    → id.index < length a.generations
    → (j : EntityId) × (c : EntityAllocator) × (b : EntityAllocator) × ((free id a >>= free id)
        ≡ some b)
      × ((alloc b >>= λ x. alloc x.1) ≡ some (j, c))
      × ((alloc b >>= λ x. some x.0) ≡ some j)
unfolding alloc free
double_despawn a id bound =
    let i = id.index in
    elim (Option-cases (get_elem? a.generations i)) [
      | inl e ↦ absurd (ground (arith, get-bound a.generations i bound, e))
      | inr (g, e) ↦
          let once = set a.generations i ((g + 1) % u32_mod) in
          let again = get-set a.generations i ((g + 1) % u32_mod) bound in
          let next = ((g + 1) % u32_mod + 1) % u32_mod in
          let still : i < length once =
            omega (arith, bound, length-set a.generations i ((g + 1) % u32_mod)) in
          let last = get-set once i next still in
          (
            record { index = i; generation = next },
            record { generations = set once i next; free_list = a.free_list },
            record { generations = set once i next; free_list = i ∷ i ∷ a.free_list },
            rw (e, free) (rw (again, free) refl),
            rw (last, alloc) (rw (last, alloc) refl),
            rw (last, alloc) refl,
          )
    ]
