-- ===== src/Mvcc/Writer/Overlay.antt =====
-- Read-your-writes: the overlay of a `Writer` always says what its staged effects will leave.
use voltra.Prelude.{
  ℕ, ◌≡◌, refl, Option, none, some, List, [], ◌∷◌, ◌++◌, arith, if◌then◌else◌, ◌==◌,
}
use voltra.Prelude.Map.{lookup, lookup-insert}
use voltra.Mvcc.Chain.{Version, first, shown, unexpired}
use voltra.Mvcc.Store.{Bytes, NsKey, Eq-NsKey, Inner, WriteOp, put, del}
use voltra.Mvcc.Store.Effects.{chain_of, op_key, op_version, last_write, or_else}
use voltra.Mvcc.Writer.{
  Writer, Prog, start, stage_put, stage_del, get, exists, run, finish, do_clock, do_get, do_head_ts,
  do_dbsize, do_get_expiry, do_exists, do_put, do_del, do_live_keys,
}

module _ {D : Type 0} where
  last_write-append :
      (nk : NsKey) (ts : ℕ) (ops : List (WriteOp D)) (op : WriteOp D)
      → last_write nk ts (ops ++ op ∷ [])
        ≡ (if op_key op == nk then some (op_version ts op) else last_write nk ts ops)
  last_write-append nk ts [] op = refl
  last_write-append nk ts (o ∷ ops) op = ground (arith, last_write-append nk ts ops op)

  -- The overlay entry that a last write leaves.
  abbrev entry_of : Option (Version D) → Option (Option (D × Option ℕ))
  entry_of none = none
  entry_of (some v) = some (shown (some v))

  pub record Overlaid (now : ℕ) (inner : Inner D) (w : Writer D) : Type 0 where
    pub entries : (nk : NsKey) (ts : ℕ) → lookup nk w.overlay ≡ entry_of (last_write nk ts w.staged)
    pub same_inner : w.inner ≡ inner
    pub same_now : w.now_ms ≡ now

  get_keeps :
      (P : Writer D → Type 0) (ns : ℕ) (key : Bytes) (w : Writer D)
      → P w
      → P (stage_del ns key w).1
      → P (get ns key w).1
  unfolding get
  get_keeps P ns key w stay reap = ground arith

  module _ (now : ℕ) (inner : Inner D) where
    stage_put-Overlaid :
        (ns : ℕ) (key : Bytes) (value : D) (exp : Option ℕ) (w : Writer D)
        → Overlaid now inner w
        → Overlaid now inner (stage_put ns key value exp w)
    unfolding stage_put
    stage_put-Overlaid ns key value exp w o = record {
      entries = λ nk ts. rw lookup-insert (
          ground (arith, last_write-append nk ts w.staged (put ns key value exp), o.entries nk ts));
      same_inner = o.same_inner;
      same_now = o.same_now;
    }

    stage_del-Overlaid :
        (ns : ℕ) (key : Bytes) (w : Writer D)
        → Overlaid now inner w
        → Overlaid now inner (stage_del ns key w).1
    unfolding stage_del
    stage_del-Overlaid ns key w o = record {
      entries = λ nk ts.
          rw lookup-insert
            (ground (arith, last_write-append nk ts w.staged (del ns key), o.entries nk ts));
      same_inner = o.same_inner;
      same_now = o.same_now;
    }

    get-Overlaid :
        (ns : ℕ) (key : Bytes) (w : Writer D)
        → Overlaid now inner w
        → Overlaid now inner (get ns key w).1
    get-Overlaid ns key w o =
        get_keeps (Overlaid now inner) ns key w o (stage_del-Overlaid ns key w o)

    pub run-Overlaid :
        (f : Prog D) (w : Writer D) → Overlaid now inner w → Overlaid now inner (run f w)
    unfolding run exists
    run-Overlaid finish w o = o
    run-Overlaid (do_clock k) w o = run-Overlaid (k w.now_ms) w o
    run-Overlaid (do_get ns key k) w o =
        run-Overlaid (k (get ns key w).0) (get ns key w).1 (get-Overlaid ns key w o)
    run-Overlaid (do_head_ts ns key k) w o = run-Overlaid (k _) w o
    run-Overlaid (do_dbsize ns k) w o = run-Overlaid (k _) w o
    run-Overlaid (do_get_expiry ns key k) w o = run-Overlaid (k _) w o
    run-Overlaid (do_exists ns key k) w o =
        run-Overlaid (k (exists ns key w).0) (exists ns key w).1 (get-Overlaid ns key w o)
    run-Overlaid (do_put ns key value exp k) w o =
        run-Overlaid k (stage_put ns key value exp w) (stage_put-Overlaid ns key value exp w o)
    run-Overlaid (do_del ns key k) w o =
        run-Overlaid (k (stage_del ns key w).0) (stage_del ns key w).1
          (stage_del-Overlaid ns key w o)
    run-Overlaid (do_live_keys ns k) w o = run-Overlaid (k _) w o

    pub start-Overlaid : Overlaid now inner (start now inner)
    unfolding lookup
    start-Overlaid = record { entries = λ nk ts. refl; same_inner = refl; same_now = refl }

    pub get-value :
        (ns : ℕ) (key : Bytes) (ts : ℕ) (w : Writer D)
        → Overlaid now inner w
        → let nk : NsKey = record { ns = ns; key = key } in
          (get ns key w).0
          ≡ unexpired now (shown (or_else (last_write nk ts w.staged) (first (chain_of nk inner))))
    unfolding get
    get-value ns key ts w o =
        rw (← o.same_inner, ← o.same_now)
          (ground (arith, o.entries (record { ns = ns; key = key }) ts))
