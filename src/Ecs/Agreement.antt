-- ===== src/Ecs/Agreement.antt =====
-- The slots of a component map agree with a finite map, before and after each change.
use voltra.Prelude.{
  ℕ, ◌+◌, ◌%◌, ◌≤◌, ◌<◌, ◌≡◌, refl, sym, ◌∙◌, true, false, Option, none, some, List, [], ◌∷◌, ◌++◌,
  arith, length, get_elem?, set, is_some, ◌==◌, Eq-nat, Bool-cases, inl, inr, length-append, ◌>>=◌,
}
use voltra.Prelude.Map.{Map, lookup, insert, remove, lookup-insert, lookup-remove}
use voltra.Ecs.Slots.{get-append, get-last, get-set, get-set_other, bound-get, length-set}
use voltra.Ecs.{EntityId, id_eq_iff, Eq-EntityId, ComponentMap, put, take_out, u32_mod}

pub data Op (T : Type 0) : Type 0 where
  put_in : EntityId → T → Op T
  take_from : EntityId → Op T

pub distinct : (a b : EntityId) → (a == b) ≡ false → a ≡ b → ⊥
distinct a b h e = ground (arith, id_eq_iff a b, h, e)

module _ {T : Type 0} where
  abbrev pub step : ComponentMap T → Op T → Option (ComponentMap T)
  step m (put_in id component) = put id component m
  step m (take_from id) = take_out id m >>= λ r. some r.1

  abbrev pub run : ComponentMap T → List (Op T) → Option (ComponentMap T)
  run m [] = some m
  run m (op ∷ ops) = step m op >>= λ m'. run m' ops

  -- The abstract view: the map from ids to components.
  abbrev pub apply : Map EntityId T → Op T → Map EntityId T
  apply s (put_in id component) = insert id component s
  apply s (take_from id) = remove id s

  abbrev pub apply_all : Map EntityId T → List (Op T) → Map EntityId T
  apply_all s [] = s
  apply_all s (op ∷ ops) = apply_all (apply s op) ops

  -- Where an id has a slot, the slot holds its component, and no other id has it.
  unfoldable pub Agree : List (Option T) → Option ℕ → Option T → Type 0
  Agree dense none o = o ≡ none
  Agree dense (some slot) o = (get_elem? dense slot ≡ some o) × (is_some o ≡ true)

  pub record Inv (n : ℕ) (m : ComponentMap T) (s : Map EntityId T) : Type 0 where
    pub agree : (id : EntityId) → Agree m.dense (lookup id m.sparse) (lookup id s)
    pub apart :
        (a b : EntityId) (slot : ℕ)
        → lookup a m.sparse ≡ some slot
        → lookup b m.sparse ≡ some slot
        → a ≡ b
    pub small : length m.dense ≤ n

  pub Agree-other :
      (dense : List (Option T)) (slot : ℕ) (v : Option T) (found : Option ℕ) (o : Option T)
      → (found ≡ some slot → ⊥)
      → Agree dense found o
      → Agree (set dense slot v) found o
  unfolding Agree
  Agree-other dense slot v none o h a = a
  Agree-other dense slot v (some other) o h a = elim (Bool-cases (slot == other)) [
    | inl same ↦ absurd (h (ground (arith, same)))
    | inr apart ↦ (get-set_other dense slot other v apart ∙ a.0, a.1)
  ]

  pub Agree-append :
      (dense : List (Option T)) (v : Option T) (found : Option ℕ) (o : Option T)
      → Agree dense found o
      → Agree (dense ++ v ∷ []) found o
  unfolding Agree
  Agree-append dense v none o a = a
  Agree-append dense v (some slot) o a = (get-append v dense slot o a.0, a.1)

  pub put_old :
      (n : ℕ) (id : EntityId) (c : T) (m : ComponentMap T) (s : Map EntityId T) (slot : ℕ)
      → lookup id m.sparse ≡ some slot
      → slot < length m.dense
      → Inv n m s
      → Inv n (record m { dense = set m.dense slot (some c) }) (insert id c s)
  unfolding Agree
  put_old n id c m s slot e bound inv = record {
    agree = λ j. elim (Bool-cases (id == j)) [
      | inl same ↦
          let at : lookup j m.sparse ≡ some slot = rw (sym ((id_eq_iff id j).0 same)) e in
          rw (at, lookup-insert id j c s, same) (get-set m.dense slot (some c) bound, refl)
      | inr other ↦
          rw (lookup-insert id j c s, other)
            (Agree-other m.dense slot (some c) (lookup j m.sparse) (lookup j s)
              (λ h. distinct id j other (inv.apart id j slot e h)) (inv.agree j))
    ];
    apart = inv.apart;
    small = omega (arith, inv.small, length-set m.dense slot (some c));
  }

  pub Agree-bound :
      (dense : List (Option T)) (found : Option ℕ) (slot : ℕ) (o : Option T)
      → found ≡ some slot
      → Agree dense found o
      → slot < length dense
  unfolding Agree
  Agree-bound dense none slot o e a = ground (arith, e)
  Agree-bound dense (some other) slot o e a = ground (arith, e, bound-get dense other o a.0)

  pub slot_bound :
      (n : ℕ) (id : EntityId) (m : ComponentMap T) (s : Map EntityId T) (slot : ℕ)
      → Inv n m s
      → lookup id m.sparse ≡ some slot
      → slot < length m.dense
  slot_bound n id m s slot inv e =
      Agree-bound m.dense (lookup id m.sparse) slot (lookup id s) e (inv.agree id)

  pub put_new :
      (n : ℕ) (id : EntityId) (c : T) (m : ComponentMap T) (s : Map EntityId T)
      → n < u32_mod
      → Inv n m s
      → Inv
          (n + 1)
          (record {
            dense = m.dense ++ some c ∷ [];
            sparse = insert id (length m.dense % u32_mod) m.sparse;
            len = m.len + 1;
          })
          (insert id c s)
  unfolding Agree
  put_new n id c m s room inv =
      let slot_is : length m.dense % u32_mod ≡ length m.dense = omega (arith, inv.small) in
      record {
        agree = λ j. elim (Bool-cases (id == j)) [
          | inl same ↦
              rw
                (
                  slot_is,
                  lookup-insert id j (length m.dense) m.sparse,
                  lookup-insert id j c s,
                  same,
                )
                (get-last (some c) m.dense, refl)
          | inr other ↦
              rw
                (
                  slot_is,
                  lookup-insert id j (length m.dense) m.sparse,
                  lookup-insert id j c s,
                  other,
                )
                (Agree-append m.dense (some c) (lookup j m.sparse) (lookup j s) (inv.agree j))
        ];
        apart = λ a b slot x y.
            let xs = sym (lookup-insert id a (length m.dense % u32_mod) m.sparse) ∙ x in
            let ys = sym (lookup-insert id b (length m.dense % u32_mod) m.sparse) ∙ y in
            ground (
              arith,
              xs,
              ys,
              slot_is,
              inv.apart a b slot,
              slot_bound n a m s slot inv,
              slot_bound n b m s slot inv,
              id_eq_iff id a,
              id_eq_iff id b,
            );
        small = omega (arith, inv.small, length-append m.dense (some c ∷ []));
      }

  pub take_old :
      (n : ℕ) (id : EntityId) (m : ComponentMap T) (s : Map EntityId T) (slot len : ℕ)
      → lookup id m.sparse ≡ some slot
      → Inv n m s
      → Inv n
          (record { dense = set m.dense slot none; sparse = remove id m.sparse; len = len })
          (remove id s)
  unfolding Agree
  take_old n id m s slot len e inv = record {
    agree = λ j. elim (Bool-cases (id == j)) [
      | inl same ↦ rw (lookup-remove id j m.sparse, lookup-remove id j s, same) refl
      | inr other ↦
          rw (lookup-remove id j m.sparse, lookup-remove id j s, other)
            (Agree-other m.dense slot none (lookup j m.sparse) (lookup j s)
              (λ h. distinct id j other (inv.apart id j slot e h)) (inv.agree j))
    ];
    apart = λ a b other x y. ground (
      arith,
      sym (lookup-remove id a m.sparse) ∙ x,
      sym (lookup-remove id b m.sparse) ∙ y,
      inv.apart a b other,
    );
    small = omega (arith, inv.small, length-set m.dense slot none);
  }

  pub take_absent :
      (n : ℕ) (id : EntityId) (m : ComponentMap T) (s : Map EntityId T)
      → lookup id m.sparse ≡ none
      → Inv n m s
      → Inv n m (remove id s)
  unfolding Agree
  take_absent n id m s e inv = record {
    agree = λ j. elim (Bool-cases (id == j)) [
      | inl same ↦
          let at : lookup j m.sparse ≡ none = rw (sym ((id_eq_iff id j).0 same)) e in
          rw (at, lookup-remove id j s, same) refl
      | inr other ↦ rw (lookup-remove id j s, other) (inv.agree j)
    ];
    apart = inv.apart;
    small = inv.small;
  }
