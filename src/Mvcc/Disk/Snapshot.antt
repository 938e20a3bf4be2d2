-- ===== src/Mvcc/Disk/Snapshot.antt =====
-- Writing the newest versions to a snapshot and loading them back.
use voltra.Prelude.{
  ℕ, ◌≤◌, ◌≡◌, refl, Option, none, some, [], ◌∷◌, arith, if◌then◌else◌, ◌==◌, Option-cases, inl,
  inr,
}
use voltra.Prelude.Map.{Map, lookup, lookup-insert, Distinct}
use voltra.Mvcc.Chain.{Version, Chain, first, head_ts, shown, unexpired}
use voltra.Mvcc.Store.{NsKey, key_eq_iff, Eq-NsKey, Inner, empty_inner, bump_count, or_default}
use voltra.Mvcc.Store.Effects.{chain_of}
use voltra.Mvcc.Disk.{
  SnapEntry, SnapFile, snap_entry, snap_entries, load_entry, load_entries, load_snap,
}

module _ {D : Type 0} where
  abbrev entry_key : SnapEntry D → NsKey
  entry_key e = record { ns = e.ns; key = e.key }

  abbrev entry_version : ℕ → SnapEntry D → Version D
  entry_version ts e = record {
    commit_ts = ts;
    value = some e.value;
    expires_at_ms = e.expires_at_ms;
  }

  first-load_entry :
      (ts : ℕ) (e : SnapEntry D) (nk : NsKey) (inner : Inner D)
      → first (chain_of nk (load_entry ts e inner))
        ≡ (if entry_key e == nk then some (entry_version ts e) else first (chain_of nk inner))
  unfolding load_entry bump_count
  first-load_entry ts e nk inner = elim (Option-cases e.expires_at_ms) [
    | inl q ↦ rw (q, load_entry) (rw lookup-insert (ground arith))
    | inr (x, q) ↦ rw (q, load_entry) (rw lookup-insert (ground arith))
  ]

  -- The newest version of `nk` after a snapshot of `chains` has been loaded over `old`.
  abbrev loaded : ℕ → ℕ → NsKey → Option (Chain D) → Option (Version D) → Option (Version D)
  loaded ts now nk none old = old
  loaded ts now nk (some c) old = elim (snap_entry now nk c) [
    | none ↦ old
    | some e ↦ some (entry_version ts e)
  ]

  key_snap_entry :
      (now : ℕ) (nk : NsKey) (c : Chain D) (e : SnapEntry D)
      → snap_entry now nk c ≡ some e
      → entry_key e ≡ nk
  unfolding snap_entry
  key_snap_entry now nk c e q = ground arith

  first-load_entries :
      (ts now : ℕ) (nk : NsKey) (chains : Map NsKey (Chain D)) (inner : Inner D)
      → Distinct chains
      → first (chain_of nk (load_entries ts (snap_entries now chains) inner))
        ≡ loaded ts now nk (lookup nk chains) (first (chain_of nk inner))
  unfolding snap_entries load_entries lookup
  first-load_entries ts now nk [] inner d = refl
  first-load_entries ts now nk ((j, c) ∷ chains) inner d =
      elim (Option-cases (snap_entry now j c)) [
        | inl q ↦
            rw (q, snap_entries)
              (ground
                (arith, q, first-load_entries ts now nk chains inner d.1, key_eq_iff j nk, d.0))
        | inr (e, q) ↦
            rw (q, snap_entries)
              (ground (
                arith,
                q,
                first-load_entries ts now nk chains (load_entry ts e inner) d.1,
                first-load_entry ts e nk inner,
                key_snap_entry now j c e q,
                key_eq_iff j nk,
                d.0,
              ))
      ]

  -- The file that a save at `now` writes.
  abbrev pub saved : ℕ → Inner D → SnapFile D
  saved now inner = record { ts = inner.last_commit; entries = snap_entries now inner.chains }

  first-load_saved :
      (now : ℕ) (nk : NsKey) (inner : Inner D)
      → Distinct inner.chains
      → first (chain_of nk (load_snap (some (saved now inner))))
        ≡ loaded inner.last_commit now nk (lookup nk inner.chains) none
  unfolding load_snap lookup
  first-load_saved now nk inner d =
      first-load_entries inner.last_commit now nk inner.chains empty_inner d

  loaded_same :
      (ts now t : ℕ) (nk : NsKey) (o : Option (Chain D))
      → now ≤ t
      → unexpired t (shown (first (or_default o))) ≡ unexpired t (shown (loaded ts now nk o none))
  unfolding snap_entry
  loaded_same ts now t nk none h = refl
  loaded_same ts now t nk (some c) h = ground arith

  -- From the time of the save on, the loaded snapshot reads as the store did.
  pub load_saved_same :
      (now t : ℕ) (nk : NsKey) (inner : Inner D)
      → Distinct inner.chains
      → now ≤ t
      → unexpired t (shown (first (chain_of nk inner)))
        ≡ unexpired t (shown (first (chain_of nk (load_snap (some (saved now inner))))))
  load_saved_same now t nk inner d h =
      rw (first-load_saved now nk inner d)
        (loaded_same inner.last_commit now t nk (lookup nk inner.chains) h)

  loaded_ts :
      (ts now : ℕ) (nk : NsKey) (o : Option (Chain D)) (c : Chain D)
      → first c ≡ loaded ts now nk o none
      → head_ts c ≤ ts
  unfolding head_ts
  loaded_ts ts now nk none c e = ground arith
  loaded_ts ts now nk (some b) c e = ground arith

  pub head_ts-load_saved :
      (now : ℕ) (nk : NsKey) (inner : Inner D)
      → Distinct inner.chains
      → head_ts (chain_of nk (load_snap (some (saved now inner)))) ≤ inner.last_commit
  head_ts-load_saved now nk inner d =
      loaded_ts inner.last_commit now nk (lookup nk inner.chains) _
        (first-load_saved now nk inner d)
