-- ===== src/Ecs/Components.antt =====
-- A component map is a finite map from ids to components, whatever slots its entries stand in.
use voltra.Prelude.{
  ℕ, ◌+◌, ◌-◌, ◌≤◌, ◌<◌, ◌≡◌, refl, ap, sym, true, Option, none, some, List, [], ◌∷◌, arith, length,
  get_elem?, set, ltb, is_some, if◌then◌else◌, Eq-nat, Option-cases, inl, inr,
}
use voltra.Prelude.Map.{Map, lookup, remove}
use voltra.Ecs.{EntityId, Eq-EntityId, ComponentMap, new_map, put, get, take_out, u32_mod}
use voltra.Ecs.Agreement.{
  Op, put_in, take_from, step, run, apply, apply_all, Agree, Inv, put_old, slot_bound, put_new,
  take_old, take_absent,
}

module _ {T : Type 0} where
  -- One operation does not panic, and agrees with its abstract view.
  record Stepped (n : ℕ) (m : ComponentMap T) (s : Map EntityId T) (op : Op T) : Type 0 where
    after : ComponentMap T
    made : step m op ≡ some after
    inv : Inv n after (apply s op)

  Inv-later : (n : ℕ) (m : ComponentMap T) (s : Map EntityId T) → Inv n m s → Inv (n + 1) m s
  Inv-later n m s inv = record {
    agree = inv.agree;
    apart = inv.apart;
    small = omega (arith, inv.small);
  }

  Agree-slot :
      (dense : List (Option T)) (found : Option ℕ) (slot : ℕ) (o : Option T)
      → found ≡ some slot
      → Agree dense found o
      → get_elem? dense slot ≡ some o
  unfolding Agree
  Agree-slot dense none slot o e a = absurd (ground (arith, e))
  Agree-slot dense (some other) slot o e a = ground (arith, e, a.0)

  Agree-none :
      (dense : List (Option T)) (found : Option ℕ) (o : Option T)
      → found ≡ none
      → Agree dense found o
      → o ≡ none
  unfolding Agree
  Agree-none dense none o e a = a
  Agree-none dense (some slot) o e a = absurd (ground (arith, e))

  step-Stepped :
      (n : ℕ) (m : ComponentMap T) (s : Map EntityId T) (op : Op T)
      → n < u32_mod
      → Inv n m s
      → Stepped (n + 1) m s op
  unfolding put take_out
  step-Stepped n m s (put_in id c) room inv = elim (Option-cases (lookup id m.sparse)) [
    | inl e ↦ record { after = _; made = rw (e, put) refl; inv = put_new n id c m s room inv }
    | inr (slot, e) ↦
        let bound = slot_bound n id m s slot inv e in
        let fits : ltb slot (length m.dense) ≡ true = ground (arith, bound) in
        record {
          after = record m { dense = set m.dense slot (some c) };
          made = rw (e, put) (rw fits refl);
          inv = Inv-later n _ _ (put_old n id c m s slot e bound inv);
        }
  ]
  step-Stepped n m s (take_from id) room inv = elim (Option-cases (lookup id m.sparse)) [
    | inl e ↦ record {
      after = m;
      made = rw (e, take_out) refl;
      inv = Inv-later n _ _ (take_absent n id m s e inv);
    }
    | inr (slot, e) ↦
        let at = Agree-slot m.dense (lookup id m.sparse) slot (lookup id s) e (inv.agree id) in
        record {
          after = record {
            dense = set m.dense slot none;
            sparse = remove id m.sparse;
            len = if is_some (lookup id s) then m.len - 1 else m.len;
          };
          made = rw (e, at, take_out) refl;
          inv = Inv-later n _ _ (take_old n id m s slot _ e inv);
        }
  ]

  record Ran (limit : ℕ) (m : ComponentMap T) (s : Map EntityId T) (ops : List (Op T))
      : Type 0 where
    last : ComponentMap T
    bound : ℕ
    reached : run m ops ≡ some last
    inv : Inv bound last (apply_all s ops)

  run-Ran :
      (limit n : ℕ) (m : ComponentMap T) (s : Map EntityId T) (ops : List (Op T))
      → n + length ops ≤ limit
      → limit < u32_mod
      → Inv n m s
      → Ran limit m s ops
  run-Ran limit n m s [] fits room inv = record { last = m; bound = n; reached = refl; inv = inv }
  run-Ran limit n m s (op ∷ ops) fits room inv =
      let k = step-Stepped n m s op (omega arith) inv in
      let rest = run-Ran limit (n + 1) k.after (apply s op) ops (omega arith) room k.inv in
      record {
        last = rest.last;
        bound = rest.bound;
        reached = rw k.made rest.reached;
        inv = rest.inv;
      }

  get-Agree :
      (id : EntityId) (m : ComponentMap T) (o : Option T)
      → Agree m.dense (lookup id m.sparse) o
      → get id m ≡ some o
  unfolding get Agree
  get-Agree id m o a = elim (Option-cases (lookup id m.sparse)) [
    | inl e ↦ rw (e, get) (ap some (sym (Agree-none m.dense (lookup id m.sparse) o e a)))
    | inr (slot, e) ↦ rw (e, get) (Agree-slot m.dense (lookup id m.sparse) slot o e a)
  ]

  -- In a run of fewer than 2 ^ 32 insertions and removals from an empty component map no access is out
  -- of bounds, and an id is then looked up as in the finite map that has had the same insertions and
  -- removals.
  pub components_refine :
      (ops : List (Op T)) (id : EntityId)
      → length ops < u32_mod
      → (m : ComponentMap T) × (run new_map ops ≡ some m)
        × (get id m ≡ some (lookup id (apply_all [] ops)))
  components_refine ops id room =
      let r = run-Ran (length ops) 0 new_map [] ops (omega arith) room new_map-Inv in
      (r.last, r.reached, get-Agree id r.last (lookup id (apply_all [] ops)) (r.inv.agree id))
    where
      new_map-Inv : Inv {T = T} 0 new_map []
      new_map-Inv = record {
        agree = λ j. unfold Agree lookup in refl;
        apart = λ a b slot x y. unfold lookup in absurd (ground (arith, x));
        small = omega arith;
      }
