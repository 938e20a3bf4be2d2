-- ===== src/Ttl/Heap.antt =====
-- The heap pops in the order of expiry, and finds what was pushed.
use voltra.Prelude.{
  ℕ, ◌+◌, ◌≤◌, ◌≡◌, refl, Bool, true, ◌&&◌, ◌||◌, Option, List, [], ◌∷◌, String, arith, leb,
  some_and, any, All, if◌then◌else◌, ◌==◌, Eq-nat, Eq-string, Eq-pair,
}
use voltra.Ttl.{
  Row, TtlEntry, row_of, TtlManager, heap_push, set_expires_at, set_ttl, cancel_ttl,
  collect_expired,
}

-- What a caller may do.

pub data Op : Type 0 where
  set_at : String → String → ℕ → Op
  set : String → String → ℕ → ℕ → Op
  cancel : String → String → Op
  expire : ℕ → Op

abbrev pub apply : TtlManager → Op → TtlManager
apply m (set_at table key at) = set_expires_at table key at m
apply m (set table key now ttl) = set_ttl table key now ttl m
apply m (cancel table key) = (cancel_ttl table key m).1
apply m (expire now) = (collect_expired now m).1

abbrev pub apply_all : TtlManager → List Op → TtlManager
apply_all m [] = m
apply_all m (op ∷ ops) = apply_all (apply m op) ops

-- How often a row is among the entries.
abbrev pub times : Row → List TtlEntry → ℕ
times r [] = 0
times r (e ∷ es) = (if row_of e == r then 1 else 0) + times r es

abbrev pub due : ℕ → Option ℕ → Bool
due now at = some_and (λ t. leb t now) at

abbrev pub held : Row → ℕ → List TtlEntry → Bool
held r t heap = any (λ e. row_of e == r && e.expires_at_ms == t) heap

unfoldable pub AllFrom : ℕ → List TtlEntry → Type 0
AllFrom t es = All (λ e. t ≤ e.expires_at_ms) es

unfoldable pub Sorted : List TtlEntry → Type 0
Sorted [] = Unit
Sorted (e ∷ es) = All (λ f. e.expires_at_ms ≤ f.expires_at_ms) es × Sorted es

pub All-heap_push :
    (t : ℕ) (e : TtlEntry) (heap : List TtlEntry)
    → t ≤ e.expires_at_ms
    → All (λ f. t ≤ f.expires_at_ms) heap
    → All (λ f. t ≤ f.expires_at_ms) (heap_push e heap)
unfolding heap_push
All-heap_push t e [] h a = (h, tt)
All-heap_push t e (f ∷ heap) h a = ground (arith, All-heap_push t e heap h a.1)

pub All-weaken :
    (s t : ℕ) (heap : List TtlEntry)
    → s ≤ t
    → All (λ f. t ≤ f.expires_at_ms) heap
    → All (λ f. s ≤ f.expires_at_ms) heap
All-weaken s t [] h a = tt
All-weaken s t (f ∷ heap) h a = (omega (arith, a.0), All-weaken s t heap h a.1)

pub heap_push-Sorted :
    (e : TtlEntry) (heap : List TtlEntry) → Sorted heap → Sorted (heap_push e heap)
unfolding heap_push Sorted
heap_push-Sorted e [] s = (tt, tt)
heap_push-Sorted e (f ∷ heap) s = ground (
  arith,
  All-weaken e.expires_at_ms f.expires_at_ms heap,
  All-heap_push f.expires_at_ms e heap,
  heap_push-Sorted e heap s.1,
)

pub held-heap_push :
    (r : Row) (t : ℕ) (e : TtlEntry) (heap : List TtlEntry)
    → held r t (heap_push e heap) ≡ (row_of e == r && e.expires_at_ms == t) || held r t heap
unfolding heap_push
held-heap_push r t e [] = refl
held-heap_push r t e (f ∷ heap) = ground (arith, held-heap_push r t e heap)

pub held-below :
    (s : ℕ) (r : Row) (t : ℕ) (heap : List TtlEntry)
    → All (λ f. s ≤ f.expires_at_ms) heap
    → held r t heap ≡ true
    → s ≤ t
held-below s r t [] a h = ground (arith, h)
held-below s r t (f ∷ heap) a h = ground (arith, held-below s r t heap a.1, a.0)
