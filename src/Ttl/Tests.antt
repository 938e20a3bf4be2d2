-- ===== src/Ttl/Tests.antt =====
-- A run with a ghost: the row is set twice, and the first entry is discarded.
use voltra.Prelude.{◌≡◌, refl, none, List, [], ◌∷◌, if◌then◌else◌}
use voltra.Prelude.Map.{lookup, insert, remove}
use voltra.Ttl.{
  new, get_ttl, collect_expired, heap_push, set_expires_at, set_ttl, collect, cancel_ttl,
}
use voltra.Ttl.Heap.{Op, set, set_at, cancel, apply_all, times, due}
use voltra.Ttl.Collect.{collect_exact}

abbrev some_ops : List Op
some_ops =
    set "t" "a" 10 5
    ∷ set_at "t" "b" 12
    ∷ set_at "t" "a" 30
    ∷ cancel "t" "b"
    ∷ set_at "t" "c" 18
    ∷ []

collect_exact_example :
    (times ("t", "c") (collect_expired 20 (apply_all new some_ops)).0
      ≡ (if due 20 (get_ttl "t" "c" (apply_all new some_ops)) then 1 else 0))
    × (get_ttl "t" "c" (collect_expired 20 (apply_all new some_ops)).1 ≡ (
        if due 20 (get_ttl "t" "c" (apply_all new some_ops))
        then none
        else get_ttl "t" "c" (apply_all new some_ops)))
collect_exact_example = collect_exact some_ops 20 "t" "c"

collected_rows : times ("t", "c") (collect_expired 20 (apply_all new some_ops)).0 ≡ 1
unfolding collect_expired collect set_ttl set_expires_at heap_push insert lookup remove cancel_ttl
collected_rows = refl
