-- ===== src/Ttl/Collect.antt =====
-- What `collect_expired` returns, after whatever has been done to the manager.
use voltra.Prelude.{
  ℕ, ◌+◌, ◌≤◌, ◌<◌, ◌%◌, ◌^◌, ◌≡◌, refl, Bool, true, false, Option, none, some, List, [], ◌∷◌,
  String, arith, leb, leb→lt, some_and, All, if◌then◌else◌, ◌==◌, Eq-nat, Eq-string, Eq-pair,
  Bool-cases, inl, inr, pair_eq_iff,
}
use voltra.Prelude.Map.{Map, lookup, remove, lookup-insert, lookup-remove}
use voltra.Ttl.{
  Row, TtlEntry, row_of, TtlManager, new, heap_push, set_expires_at, set_ttl, get_ttl, cancel_ttl,
  collect, collect_expired,
}
-- What a caller may do.
use voltra.Ttl.Heap.{
  Op, set_at, set, cancel, expire, apply, apply_all, times, due, held, Sorted, heap_push-Sorted,
  held-heap_push, held-below,
}

-- Whether what the index says of a row has its entry.
abbrev covered : Row → Option ℕ → List TtlEntry → Bool
covered r none heap = true
covered r (some t) heap = held r t heap

-- Nothing is due where all entries are late.
not_due :
    (now : ℕ) (r : Row) (o : Option ℕ) (s : ℕ) (heap : List TtlEntry)
    → All (λ f. s ≤ f.expires_at_ms) heap
    → now < s
    → covered r o heap ≡ true
    → due now o ≡ false
not_due now r none s heap a h c = refl
not_due now r (some t) s heap a h c = ground (arith, held-below s r t heap a c)

-- Whether the index says of the row of an entry what the entry says.
abbrev is_valid : TtlEntry → Map Row ℕ → Bool
is_valid e index = some_and (λ at. at == e.expires_at_ms) (lookup (row_of e) index)

collect-late :
    (now : ℕ) (e : TtlEntry) (heap : List TtlEntry) (index : Map Row ℕ)
    → leb e.expires_at_ms now ≡ false
    → collect now (e ∷ heap) index ≡ ([], record { heap = e ∷ heap; index = index })
unfolding collect
collect-late now e heap index h = rw h refl

collect-valid :
    (now : ℕ) (e : TtlEntry) (heap : List TtlEntry) (index : Map Row ℕ)
    → leb e.expires_at_ms now ≡ true
    → is_valid e index ≡ true
    → let (expired, m) = collect now heap (remove (row_of e) index) in
      collect now (e ∷ heap) index ≡ (e ∷ expired, m)
unfolding collect
collect-valid now e heap index h v = rw (h, v) refl

collect-ghost :
    (now : ℕ) (e : TtlEntry) (heap : List TtlEntry) (index : Map Row ℕ)
    → leb e.expires_at_ms now ≡ true
    → is_valid e index ≡ false
    → collect now (e ∷ heap) index ≡ collect now heap index
unfolding collect
collect-ghost now e heap index h v = rw (h, v) refl

-- The index loses the row of an entry that is collected, and still covers the others.
covered-valid :
    (r : Row) (e : TtlEntry) (heap : List TtlEntry) (index : Map Row ℕ)
    → covered r (lookup r index) (e ∷ heap) ≡ true
    → covered r (lookup r (remove (row_of e) index)) heap ≡ true
covered-valid r e heap index c =
    rw (lookup-remove (row_of e) r index) (ground (arith, pair_eq_iff (row_of e) r))

-- A ghost is not what covers a row.
covered-ghost :
    (r : Row) (e : TtlEntry) (heap : List TtlEntry) (index : Map Row ℕ)
    → is_valid e index ≡ false
    → covered r (lookup r index) (e ∷ heap) ≡ true
    → covered r (lookup r index) heap ≡ true
covered-ghost r e heap index v c = ground (arith, pair_eq_iff (row_of e) r)

-- A run of the loop, as one row sees it: how often the row is collected, what the index says of it
-- afterwards, and that this has its entry still.
record Collected (now : ℕ) (r : Row) (o : Option ℕ) (run : List TtlEntry × TtlManager)
    : Type 0 where
  once : times r run.0 ≡ (if due now o then 1 else 0)
  left : lookup r run.1.index ≡ (if due now o then none else o)
  covers : covered r (lookup r run.1.index) run.1.heap ≡ true

Collected-late :
    (now : ℕ) (r : Row) (e : TtlEntry) (heap : List TtlEntry) (index : Map Row ℕ)
    → All (λ f. e.expires_at_ms ≤ f.expires_at_ms) heap
    → leb e.expires_at_ms now ≡ false
    → covered r (lookup r index) (e ∷ heap) ≡ true
    → Collected now r (lookup r index) ([], record { heap = e ∷ heap; index = index })
Collected-late now r e heap index a late c =
    let lt = leb→lt e.expires_at_ms now late in
    let nd = not_due now r (lookup r index) e.expires_at_ms (e ∷ heap) (omega arith, a) lt c in
    record { once = rw nd refl; left = rw nd refl; covers = c }

Collected-valid :
    (now : ℕ) (r : Row) (e : TtlEntry) (index : Map Row ℕ) (run : List TtlEntry × TtlManager)
    → leb e.expires_at_ms now ≡ true
    → is_valid e index ≡ true
    → Collected now r (lookup r (remove (row_of e) index)) run
    → Collected now r (lookup r index) (e ∷ run.0, run.1)
Collected-valid now r e index run h v k =
    let removed = lookup-remove (row_of e) r index in
    let same = pair_eq_iff (row_of e) r in
    record {
      once = ground (arith, k.once, removed, same);
      left = ground (arith, k.left, removed, same);
      covers = k.covers;
    }

collect-Collected :
    (now : ℕ) (r : Row) (heap : List TtlEntry) (index : Map Row ℕ)
    → Sorted heap
    → covered r (lookup r index) heap ≡ true
    → Collected now r (lookup r index) (collect now heap index)
unfolding Sorted
collect-Collected now r [] index s c =
    unfold collect in record { once = ground arith; left = ground arith; covers = c }
collect-Collected now r (e ∷ heap) index s c = elim (Bool-cases (leb e.expires_at_ms now)) [
  | inr late ↦
      rw (collect-late now e heap index late) (Collected-late now r e heap index s.0 late c)
  | inl h ↦ elim (Bool-cases (is_valid e index)) [
    | inl v ↦ rw (collect-valid now e heap index h v) (
        Collected-valid now r e index _ h v (
          collect-Collected now r heap (remove (row_of e) index) s.1
            (covered-valid r e heap index c)))
    | inr g ↦
        rw (collect-ghost now e heap index h g)
          (collect-Collected now r heap index s.1 (covered-ghost r e heap index g c))
  ]
]

collect-Sorted :
    (now : ℕ) (heap : List TtlEntry) (index : Map Row ℕ)
    → Sorted heap
    → Sorted (collect now heap index).1.heap
unfolding Sorted
collect-Sorted now [] index s = unfold collect in tt
collect-Sorted now (e ∷ heap) index s = elim (Bool-cases (leb e.expires_at_ms now)) [
  | inr late ↦ rw (collect-late now e heap index late) s
  | inl h ↦ elim (Bool-cases (is_valid e index)) [
    | inl v ↦
        rw (collect-valid now e heap index h v)
          (collect-Sorted now heap (remove (row_of e) index) s.1)
    | inr g ↦ rw (collect-ghost now e heap index h g) (collect-Sorted now heap index s.1)
  ]
]

-- The heap pops in order, and holds an entry for what the index says of each row.
record Sound (m : TtlManager) : Type 0 where
  sorted : Sorted m.heap
  covers : (r : Row) → covered r (lookup r m.index) m.heap ≡ true

covered-heap_push :
    (r : Row) (o : Option ℕ) (e : TtlEntry) (heap : List TtlEntry)
    → covered r o heap ≡ true
    → covered r (if row_of e == r then some e.expires_at_ms else o) (heap_push e heap) ≡ true
covered-heap_push r none e heap c = ground (arith, held-heap_push r e.expires_at_ms e heap)
covered-heap_push r (some t) e heap c =
    ground (arith, held-heap_push r e.expires_at_ms e heap, held-heap_push r t e heap)

set_expires_at-Sound :
    (table key : String) (at : ℕ) (m : TtlManager) → Sound m → Sound (set_expires_at table key at m)
unfolding set_expires_at
set_expires_at-Sound table key at m s =
    let e : TtlEntry = record { table_name = table; row_key = key; expires_at_ms = at } in
    record {
      sorted = heap_push-Sorted e m.heap s.sorted;
      covers = λ r.
          rw (lookup-insert (table, key) r at m.index)
            (covered-heap_push r (lookup r m.index) e m.heap (s.covers r));
    }

apply-Sound : (op : Op) (m : TtlManager) → Sound m → Sound (apply m op)
apply-Sound (set_at table key at) m s = set_expires_at-Sound table key at m s
apply-Sound (set table key now ttl) m s =
    unfold set_ttl in set_expires_at-Sound table key ((now + ttl) % 2 ^ 64) m s
apply-Sound (cancel table key) m s =
    unfold cancel_ttl in
    record {
      sorted = s.sorted;
      covers = λ r. rw (lookup-remove (table, key) r m.index) (ground (arith, s.covers r));
    }
apply-Sound (expire now) m s =
    unfold collect_expired in
    record {
      sorted = collect-Sorted now m.heap m.index s.sorted;
      covers = λ r. (collect-Collected now r m.heap m.index s.sorted (s.covers r)).covers;
    }

apply_all-Sound : (ops : List Op) (m : TtlManager) → Sound m → Sound (apply_all m ops)
apply_all-Sound [] m s = s
apply_all-Sound (op ∷ ops) m s = apply_all-Sound ops (apply m op) (apply-Sound op m s)

-- Whatever has been set, set anew, cancelled and collected before, `collect_expired` returns a row
-- once if the expiry that `get_ttl` tells for it has passed, and not at all otherwise; a row that it
-- returns has no expiry afterwards, and every other row has the one that it had.
pub collect_exact :
    (ops : List Op) (now : ℕ) (table key : String)
    → let m = apply_all new ops in
      let at = get_ttl table key m in
      let (expired, m') = collect_expired now m in
      (times (table, key) expired ≡ (if due now at then 1 else 0))
      × (get_ttl table key m' ≡ (if due now at then none else at))
unfolding get_ttl collect_expired
collect_exact ops now table key =
    let m = apply_all new ops in
    let s =
      apply_all-Sound ops new
        (record { sorted = unfold Sorted in tt; covers = λ r. unfold lookup in refl }) in
    let k = collect-Collected now (table, key) m.heap m.index s.sorted (s.covers (table, key)) in
    (k.once, k.left)
