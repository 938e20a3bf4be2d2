-- ===== src/Mvcc/Writer.antt =====
-- src/mvcc/mod.rs: `Writer`, the handle that a `Batch::Apply` closure mutates the store through.
-- A closure is a `Prog`: it can call the methods of the handle and choose what to do by their
-- results, and nothing else, since the fields of the handle are private to the engine.
pub mod Overlay
pub mod Commit
use voltra.Prelude.{
  ℕ, ◌≡◌, Bool, true, false, not, ◌&&◌, Option, none, some, List, [], ◌∷◌, ◌++◌, leb, is_some,
  if◌then◌else◌, ◌==◌, Eq-nat,
}
use voltra.Prelude.Map.{Map, lookup, insert}
use voltra.Mvcc.Chain
use voltra.Mvcc.Chain.{Version, Chain, first, expired}
use voltra.Mvcc.Store
use voltra.Mvcc.Store.{Bytes, NsKey, Eq-NsKey, WriteOp, put, del, Inner, or_default}

pub record Writer (D : Type 0) : Type 0 where
  pub inner : Inner D
  pub staged : List (WriteOp D)
  pub overlay : Map NsKey (Option (D × Option ℕ))
  pub now_ms : ℕ

module _ {D : Type 0} where
  abbrev pub start : ℕ → Inner D → Writer D
  start now inner = record { inner = inner; staged = []; overlay = []; now_ms = now }

  -- A staged entry, read at `now`.
  abbrev pub staged_value : ℕ → Option (D × Option ℕ) → Option D
  staged_value now none = none
  staged_value now (some (d, exp)) = if expired exp now then none else some d

  -- Whether the newest version holds a value that has not expired.
  abbrev pub committed_exists : ℕ → Option (Version D) → Bool
  committed_exists now none = false
  committed_exists now (some v) = is_some v.value && not (expired v.expires_at_ms now)

  abbrev committed_first : NsKey → Inner D → Option (Version D)
  committed_first nk inner = elim (lookup nk inner.chains) [ none ↦ none | some c ↦ first c ]

  -- `Writer::put`
  unfoldable pub stage_put : ℕ → Bytes → D → Option ℕ → Writer D → Writer D
  stage_put ns key value exp w = record w {
    overlay = insert (record { ns = ns; key = key }) (some (value, exp)) w.overlay;
    staged = w.staged ++ put ns key value exp ∷ [];
  }

  -- `Writer::del`
  unfoldable pub stage_del : ℕ → Bytes → Writer D → Bool × Writer D
  stage_del ns key w =
      let nk : NsKey = record { ns = ns; key = key } in
      let existed : Bool = elim (lookup nk w.overlay) [
        | some v ↦ is_some v
        | none ↦ committed_exists w.now_ms (committed_first nk w.inner)
      ] in
      (
        existed,
        record w { overlay = insert nk none w.overlay; staged = w.staged ++ del ns key ∷ [] },
      )

  -- `Writer::get`: the overlay first, then the newest committed version; an expired one is staged
  -- for deletion.
  unfoldable pub get : ℕ → Bytes → Writer D → Option D × Writer D
  unfolding stage_del
  get ns key w =
      let nk : NsKey = record { ns = ns; key = key } in
      elim (lookup nk w.overlay) [
        | some staged ↦ (staged_value w.now_ms staged, w)
        | none ↦ elim (committed_first nk w.inner) [
          | none ↦ (none, w)
          | some v ↦ elim v.value [
            | none ↦ (none, w)
            | some d ↦
                if expired v.expires_at_ms w.now_ms
                then (none, (stage_del ns key w).1)
                else (some d, w)
          ]
        ]
      ]

  unfoldable pub head_ts : ℕ → Bytes → Writer D → ℕ
  head_ts ns key w = elim (lookup (record { ns = ns; key = key }) w.inner.chains) [
    | none ↦ 0
    | some c ↦ Chain.head_ts c
  ]

  unfoldable pub dbsize : ℕ → Writer D → ℕ
  dbsize ns w = Store.ns_len ns w.inner

  unfoldable pub get_expiry : ℕ → Bytes → Writer D → Option ℕ
  get_expiry ns key w =
      let nk : NsKey = record { ns = ns; key = key } in
      elim (lookup nk w.overlay) [
        | some staged ↦ elim staged [ none ↦ none | some (d, e) ↦ e ]
        | none ↦ elim (committed_first nk w.inner) [ none ↦ none | some v ↦ v.expires_at_ms ]
      ]

  unfoldable pub exists : ℕ → Bytes → Writer D → Bool × Writer D
  unfolding get
  exists ns key w = let (value, w') = get ns key w in (is_some value, w')

  committed_keys : ℕ → Writer D → Map NsKey (Chain D) → List Bytes
  committed_keys ns w [] = []
  committed_keys ns w ((nk, chain) ∷ m) =
      let rest = committed_keys ns w m in
      if nk.ns == ns
        && not (is_some (lookup nk w.overlay))
        && committed_exists w.now_ms (first chain)
      then nk.key ∷ rest
      else rest

  overlay_keys : ℕ → Map NsKey (Option (D × Option ℕ)) → List Bytes
  overlay_keys ns [] = []
  overlay_keys ns ((nk, staged) ∷ m) =
      let rest = overlay_keys ns m in if nk.ns == ns && is_some staged then nk.key ∷ rest else rest

  unfoldable pub live_keys : ℕ → Writer D → List Bytes
  unfolding committed_keys overlay_keys
  live_keys ns w = committed_keys ns w w.inner.chains ++ overlay_keys ns w.overlay

pub data Prog (D : Type 0) : Type 0 where
  finish : Prog D
  do_clock : (ℕ → Prog D) → Prog D
  do_get : ℕ → Bytes → (Option D → Prog D) → Prog D
  do_head_ts : ℕ → Bytes → (ℕ → Prog D) → Prog D
  do_dbsize : ℕ → (ℕ → Prog D) → Prog D
  do_get_expiry : ℕ → Bytes → (Option ℕ → Prog D) → Prog D
  do_exists : ℕ → Bytes → (Bool → Prog D) → Prog D
  do_put : ℕ → Bytes → D → Option ℕ → Prog D → Prog D
  do_del : ℕ → Bytes → (Bool → Prog D) → Prog D
  do_live_keys : ℕ → (List Bytes → Prog D) → Prog D

-- The closure, called with the handle.
unfoldable pub run : {D : Type 0} → Prog D → Writer D → Writer D
run finish w = w
run (do_clock k) w = run (k w.now_ms) w
run (do_get ns key k) w = run (k (get ns key w).0) (get ns key w).1
run (do_head_ts ns key k) w = run (k (head_ts ns key w)) w
run (do_dbsize ns k) w = run (k (dbsize ns w)) w
run (do_get_expiry ns key k) w = run (k (get_expiry ns key w)) w
run (do_exists ns key k) w = run (k (exists ns key w).0) (exists ns key w).1
run (do_put ns key value exp k) w = run k (stage_put ns key value exp w)
run (do_del ns key k) w = run (k (stage_del ns key w).0) (stage_del ns key w).1
run (do_live_keys ns k) w = run (k (live_keys ns w)) w
