-- ===== src/Mvcc/Store/Pins.antt =====
-- The pinned timestamps, and the floor that `min_active_snapshot` reads off them.
use voltra.Prelude.{
  ℕ, ◌≤◌, ◌≡◌, none, some, [], ◌∷◌, arith, All, Option-cases, inl, inr, is_some, true, Eq-nat, ◌-◌,
}
use Prim.Native.Nat.{max}
use voltra.Prelude.Map.{Map, lookup, insert, remove}
use voltra.Mvcc.Store.{Inner, first_key, min_active_snapshot, drop_guard}

-- Every key of the pins lies between the two bounds.
abbrev pub Within : ℕ → ℕ → Map ℕ ℕ → Type 0
Within lo hi pins = All (λ (p : ℕ × ℕ). (lo ≤ p.0) × (p.0 ≤ hi)) pins

pub Within-insert :
    (lo hi k n : ℕ) (pins : Map ℕ ℕ)
    → lo ≤ k
    → k ≤ hi
    → Within lo hi pins
    → Within lo hi (insert k n pins)
unfolding insert
Within-insert lo hi k n [] a b h = ((a, b), tt)
Within-insert lo hi k n ((j, m) ∷ pins) a b h = ground (arith, Within-insert lo hi k n pins a b h.1)

pub Within-remove :
    (lo hi k : ℕ) (pins : Map ℕ ℕ) → Within lo hi pins → Within lo hi (remove k pins)
unfolding remove
Within-remove lo hi k [] h = tt
Within-remove lo hi k ((j, m) ∷ pins) h = ground (arith, Within-remove lo hi k pins h.1)

pub Within-raise :
    (lo hi hi' : ℕ) (pins : Map ℕ ℕ) → hi ≤ hi' → Within lo hi pins → Within lo hi' pins
Within-raise lo hi hi' [] a h = tt
Within-raise lo hi hi' ((j, m) ∷ pins) a h = ground (arith, Within-raise lo hi hi' pins a h.1)

Within-lower : (lo lo' hi : ℕ) (pins : Map ℕ ℕ) → lo' ≤ lo → Within lo hi pins → Within lo' hi pins
Within-lower lo lo' hi [] a h = tt
Within-lower lo lo' hi ((j, m) ∷ pins) a h = ground (arith, Within-lower lo lo' hi pins a h.1)

pub Within-max :
    (a b hi : ℕ) (pins : Map ℕ ℕ) → Within a hi pins → Within b hi pins → Within (max a b) hi pins
Within-max a b hi [] h k = tt
Within-max a b hi ((j, m) ∷ pins) h k = ((omega arith, omega arith), Within-max a b hi pins h.1 k.1)

pub Within-lookup :
    (lo hi k : ℕ) (pins : Map ℕ ℕ)
    → Within lo hi pins
    → is_some (lookup k pins) ≡ true
    → (lo ≤ k) × (k ≤ hi)
unfolding lookup
Within-lookup lo hi k [] h e = cc
Within-lookup lo hi k ((j, m) ∷ pins) h e = ground (arith, Within-lookup lo hi k pins h.1)

first_key-none : (lo hi : ℕ) (pins : Map ℕ ℕ) → first_key pins ≡ none → Within lo hi pins
unfolding first_key
first_key-none lo hi [] e = tt
first_key-none lo hi ((j, m) ∷ pins) e = absurd (ground arith)

-- The first key is the least, and within the bounds itself.
first_key-Within :
    (lo hi k : ℕ) (pins : Map ℕ ℕ)
    → Within lo hi pins
    → first_key pins ≡ some k
    → (k ≤ hi) × Within k hi pins
unfolding first_key
first_key-Within lo hi k [] h e = cc
first_key-Within lo hi k ((j, m) ∷ pins) h e = elim (Option-cases (first_key pins)) [
  | inl q ↦ ground (arith, first_key-none j hi pins q)
  | inr (i, q) ↦
      let rest = first_key-Within lo hi i pins h.1 q in
      ground (arith, rest, Within-lower i j hi pins)
]

module _ {D : Type 0} where
  -- The floor is a lower bound of the pins and of the last commit.
  pub min_active_snapshot-Within :
      (lo : ℕ) (inner : Inner D)
      → Within lo inner.last_commit inner.active_snapshots
      → (min_active_snapshot inner ≤ inner.last_commit)
        × Within (min_active_snapshot inner) inner.last_commit inner.active_snapshots
  unfolding min_active_snapshot
  min_active_snapshot-Within lo inner h = elim (Option-cases (first_key inner.active_snapshots)) [
    | inl q ↦ rw (q, min_active_snapshot) (omega arith, first_key-none _ _ inner.active_snapshots q)
    | inr (k, q) ↦
        rw (q, min_active_snapshot)
          (first_key-Within lo inner.last_commit k inner.active_snapshots h q)
  ]

  pub drop_guard-Within :
      (lo hi ts : ℕ) (inner : Inner D)
      → Within lo hi inner.active_snapshots
      → Within lo hi (drop_guard ts inner).active_snapshots
  unfolding drop_guard
  drop_guard-Within lo hi ts inner h = elim (Option-cases (lookup ts pins)) [
    | inl q ↦ rw (q, drop_guard) h
    | inr (n, q) ↦ ground (
      arith,
      Within-remove lo hi ts pins h,
      Within-insert lo hi ts (n - 1) pins,
      Within-lookup lo hi ts pins h,
    )
  ]
    where
      open inner use {active_snapshots as pins}
