-- ===== src/Mvcc/Sequencer/Replies.antt =====
-- What the sequencer answers.
use voltra.Prelude.{
  ℕ, ◌+◌, ◌≤◌, ◌<◌, ◌≡◌, refl, true, false, List, [], ◌∷◌, ◌++◌, arith, length, Bool-cases, inl,
  inr, Option-cases, any, is_some, ltb, ◌==◌,
}
use voltra.Mvcc.Chain.{head_ts}
use voltra.Mvcc.Store.{NsKey, key_eq_iff, Eq-NsKey, Inner, WriteOp, u64_mod}
use voltra.Mvcc.Store.Effects.{chain_of, last_write, head_ts-apply_ops}
use voltra.Mvcc.Sequencer.{
  Batch, Group, CommitRequest, apply, commit, save, barrier, conflict, next_ts, commit_ops,
  commit_staged, has_conflict, handle, handle_all,
}
use voltra.Mvcc.Writer

module _ {D : Type 0} where
  -- A commit that writes `nk`, so that its chain is newer than the reader's snapshot.
  head_ts-commit :
      (m ts : ℕ) (nk : NsKey) (ops : List (WriteOp D)) (inner : Inner D)
      → is_some (last_write nk ts ops) ≡ true
      → head_ts (chain_of nk (commit_ops ops ts m inner)) ≡ ts
  unfolding commit_ops
  head_ts-commit m ts nk ops inner w = rw (head_ts-apply_ops ops ts m nk inner) (ground arith)

  head_ts-commit_staged :
      (m : ℕ) (nk : NsKey) (ops : List (WriteOp D)) (g : Group D)
      → is_some (last_write nk (next_ts g.inner) ops) ≡ true
      → head_ts (chain_of nk (commit_staged m ops g).inner) ≡ next_ts g.inner
  unfolding commit_staged
  head_ts-commit_staged m nk [] g w = cc
  head_ts-commit_staged m nk (op ∷ ops) g w =
      head_ts-commit m (next_ts g.inner) nk (op ∷ ops) g.inner w

  any-conflict :
      (r : ℕ) (nk : NsKey) (nks : List NsKey) (inner : Inner D)
      → any (λ j. j == nk) nks ≡ true
      → r < head_ts (chain_of nk inner)
      → any (λ j. ltb r (head_ts (chain_of j inner))) nks ≡ true
  any-conflict r nk [] inner h k = cc
  any-conflict r nk (j ∷ nks) inner h k =
      ground (arith, any-conflict r nk nks inner, key_eq_iff j nk)

  -- A chain that is newer than a snapshot stays so, whatever is handled, while timestamps do not wrap.
  abbrev Newer : ℕ → NsKey → Group D → Type 0
  Newer r nk g = (r < head_ts (chain_of nk g.inner)) × (r ≤ g.inner.last_commit)

  commit_staged-Newer :
      (m r : ℕ) (nk : NsKey) (ops : List (WriteOp D)) (g : Group D)
      → g.inner.last_commit + 1 < u64_mod
      → Newer r nk g
      → Newer r nk (commit_staged m ops g)
        × ((commit_staged m ops g).inner.last_commit ≤ g.inner.last_commit + 1)
  unfolding commit_staged commit_ops next_ts
  commit_staged-Newer m r nk [] g room h = (h, omega arith)
  commit_staged-Newer m r nk (op ∷ ops) g room h =
      let ts = next_ts g.inner in
      (
        (
          rw (head_ts-apply_ops (op ∷ ops) ts m nk g.inner)
              (ground (arith, h.0, h.1, room, Option-cases (last_write nk ts (op ∷ ops)))),
          omega (arith, h.1, room),
        ),
        omega (arith, room),
      )

  handle-Newer :
      (m r : ℕ) (nk : NsKey) (b : Batch D) (g : Group D)
      → g.inner.last_commit + 1 < u64_mod
      → Newer r nk g
      → Newer r nk (handle m b g) × ((handle m b g).inner.last_commit ≤ g.inner.last_commit + 1)
  unfolding handle
  handle-Newer m r nk (apply f now callback) g room h =
      commit_staged-Newer m r nk (Writer.run f (Writer.start now g.inner)).staged g room h
  handle-Newer m r nk (commit req) g room h = elim (Bool-cases (has_conflict req g.inner)) [
    | inl e ↦ rw (e, handle) (h, omega arith)
    | inr e ↦ rw (e, handle) (commit_staged-Newer m r nk req.writes g room h)
  ]
  handle-Newer m r nk (save tx) g room h = (h, omega arith)
  handle-Newer m r nk (barrier tx) g room h = (h, omega arith)

  handle_all-Newer :
      (m r : ℕ) (nk : NsKey) (bs : List (Batch D)) (g : Group D)
      → g.inner.last_commit + length bs < u64_mod
      → Newer r nk g
      → Newer r nk (handle_all m bs g)
  unfolding handle_all
  handle_all-Newer m r nk [] g room h = h
  handle_all-Newer m r nk (b ∷ bs) g room h =
      let (next, le) = handle-Newer m r nk b g (omega arith) h in
      handle_all-Newer m r nk bs (handle m b g) (omega (arith, le, room)) next

  last_commit-commit_staged :
      (m : ℕ) (ops : List (WriteOp D)) (g : Group D)
      → g.inner.last_commit + 1 < u64_mod
      → (g.inner.last_commit ≤ (commit_staged m ops g).inner.last_commit)
        × ((commit_staged m ops g).inner.last_commit ≤ g.inner.last_commit + 1)
  unfolding commit_staged commit_ops next_ts
  last_commit-commit_staged m [] g room = (omega arith, omega arith)
  last_commit-commit_staged m (op ∷ ops) g room = (omega (arith, room), omega (arith, room))

  -- The chain that a commit has written is newer than what was read before.
  committed-Newer :
      (m : ℕ) (winner : CommitRequest D) (nk : NsKey) (g : Group D) (r : ℕ)
      → g.inner.last_commit + 1 < u64_mod
      → has_conflict winner g.inner ≡ false
      → is_some (last_write nk (next_ts g.inner) winner.writes) ≡ true
      → r ≤ g.inner.last_commit
      → Newer r nk (handle m (commit winner) g)
        × ((handle m (commit winner) g).inner.last_commit ≤ g.inner.last_commit + 1)
  unfolding handle
  committed-Newer m winner nk g r room free writes stale =
      let head = head_ts-commit_staged m nk winner.writes g writes in
      let last = last_commit-commit_staged m winner.writes g room in
      rw (free, handle)
        (
          (rw head (unfold next_ts in omega (arith, room, stale)), omega (arith, last.0, stale)),
          last.1,
        )

  -- First committer wins: once a request that writes `nk` has been committed, and any batches have been
  -- handled after it in the same turn, a request that read before it and depends on `nk` is answered
  -- with a conflict, and changes nothing else (timestamps being below 2 ^ 64). Nothing is swept in
  -- between: a sweep may drop a key that was deleted, if no snapshot is pinned that could see it.
  pub first_committer_wins :
      (m m' m'' : ℕ) (winner loser : CommitRequest D) (between : List (Batch D)) (nk : NsKey)
      (g : Group D)
      → g.inner.last_commit + 1 + length between < u64_mod
      → has_conflict winner g.inner ≡ false
      → is_some (last_write nk (next_ts g.inner) winner.writes) ≡ true
      → any (λ j. j == nk) loser.conflict_keys ≡ true
      → loser.read_ts ≤ g.inner.last_commit
      → let done = handle_all m' between (handle m (commit winner) g) in
        handle m'' (commit loser) done
        ≡ record done { sent = done.sent ++ conflict loser.resp ∷ [] }
  unfolding handle
  first_committer_wins m m' m'' winner loser between nk g room free writes depends stale =
      let won = handle m (commit winner) g in
      let newer = committed-Newer m winner nk g loser.read_ts (omega arith) free writes stale in
      let later =
        handle_all-Newer m' loser.read_ts nk between won (omega (arith, newer.1, room)) newer.0 in
      let done = handle_all m' between won in
      let lost : has_conflict loser done.inner ≡ true =
        unfold has_conflict in
        any-conflict loser.read_ts nk loser.conflict_keys done.inner depends later.0 in
      rw (lost, handle) refl
