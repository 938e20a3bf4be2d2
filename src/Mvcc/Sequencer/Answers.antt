-- ===== src/Mvcc/Sequencer/Answers.antt =====
-- Who is answered in a turn.
use voltra.Prelude.{
  ℕ, ◌+◌, ◌≡◌, refl, ap, ◌∙◌, Bool, false, Option, none, some, List, [], ◌∷◌, ◌++◌, arith,
  Bool-cases, inl, inr, if◌then◌else◌, ◌==◌, Eq-nat,
}
use voltra.Mvcc.Aof.{Codec}
use voltra.Mvcc.Store.{Inner, WriteOp, min_active_snapshot}
use voltra.Mvcc.Disk
use voltra.Mvcc.Disk.{AofRecord, Disk, SaveIo, do_save}
use voltra.Mvcc.Sequencer.{
  Batch, Group, CommitRequest, Reply, apply, commit, save, barrier, conflict, passed, called,
  committed, saved, next_ts, commit_staged, has_conflict, handle, handle_all, open_group, settle,
  turn,
}
use voltra.Mvcc.Writer

-- The ends of the channels and callbacks that wait for an answer, by their numbers.
pub data Waiting : Type 0 where
  callback response barrier_tx save_tx : ℕ → Waiting

abbrev pub reaches : Waiting → Reply → Bool
reaches (callback n) (called m) = m == n
reaches (response n) (committed m ts) = m == n
reaches (response n) (conflict m) = m == n
reaches (barrier_tx n) (passed m) = m == n
reaches (save_tx n) (saved m done) = m == n
reaches _ _ = false

abbrev one : Bool → ℕ
one b = if b then 1 else 0

-- How many answers reach one who waits.
abbrev pub answers : Waiting → List Reply → ℕ
answers w [] = 0
answers w (r ∷ rs) = one (reaches w r) + answers w rs

abbrev is_tx : Waiting → Option ℕ → Bool
is_tx (save_tx n) (some tx) = tx == n
is_tx _ _ = false

answers-append :
    (w : Waiting) (xs ys : List Reply) → answers w (xs ++ ys) ≡ answers w xs + answers w ys
answers-append w [] ys = omega arith
answers-append w (x ∷ xs) ys = omega (arith, answers-append w xs ys)

reaches-saved : (w : Waiting) (tx : ℕ) (done : Bool) → reaches w (saved tx done) ≡ is_tx w (some tx)
reaches-saved (callback k) tx done = refl
reaches-saved (response k) tx done = refl
reaches-saved (barrier_tx k) tx done = refl
reaches-saved (save_tx k) tx done = refl

nobody : (w : Waiting) → is_tx w none ≡ false
nobody (callback k) = refl
nobody (response k) = refl
nobody (barrier_tx k) = refl
nobody (save_tx k) = refl

module _ {D : Type 0} where
  -- Whether a batch that is no save brings one who waits.
  abbrev pub brings : Waiting → Batch D → Bool
  brings (callback n) (apply f now m) = m == n
  brings (response n) (commit req) = req.resp == n
  brings (barrier_tx n) (barrier m) = m == n
  brings _ _ = false

  -- The save that is answered: the last one.
  abbrev pub last_save : Option ℕ → List (Batch D) → Option ℕ
  last_save req [] = req
  last_save req (save tx ∷ bs) = last_save (some tx) bs
  last_save req (b ∷ bs) = last_save req bs

  abbrev brought : Waiting → List (Batch D) → ℕ
  brought w [] = 0
  brought w (b ∷ bs) = one (brings w b) + brought w bs

  -- The answers that are due: one for each batch that is no save, and one for the last save.
  abbrev pub due : Waiting → List (Batch D) → ℕ
  due w bs = brought w bs + one (is_tx w (last_save none bs))

brings-barrier :
    (D : Type 0) (w : Waiting) (n : ℕ) → reaches w (passed n) ≡ brings {D = D} w (barrier n)
brings-barrier D (callback k) n = refl
brings-barrier D (response k) n = refl
brings-barrier D (barrier_tx k) n = refl
brings-barrier D (save_tx k) n = refl

brings-save : (D : Type 0) (w : Waiting) (n : ℕ) → brings {D = D} w (save n) ≡ false
brings-save D (callback k) n = refl
brings-save D (response k) n = refl
brings-save D (barrier_tx k) n = refl
brings-save D (save_tx k) n = refl

module _ {D : Type 0} where
  abbrev gathered : Waiting → Group D → ℕ
  gathered w g = answers w g.sent + answers w g.after_commit

  gathered-commit_staged :
      (w : Waiting) (m : ℕ) (ops : List (WriteOp D)) (g : Group D)
      → (gathered w (commit_staged m ops g) ≡ gathered w g)
        × ((commit_staged m ops g).save_req ≡ g.save_req)
  unfolding commit_staged
  gathered-commit_staged w m [] g = (refl, refl)
  gathered-commit_staged w m (op ∷ ops) g = (refl, refl)

  abbrev next_save : Option ℕ → Batch D → Option ℕ
  next_save req (save tx) = some tx
  next_save req b = req

  -- One answer more, in either of the two lists.
  sent_more :
      (w : Waiting) (r : Reply) (g : Group D)
      → gathered w (record g { sent = g.sent ++ r ∷ [] }) ≡ one (reaches w r) + gathered w g
  sent_more w r g = omega (arith, answers-append w g.sent (r ∷ []))

  waits_more :
      (w : Waiting) (r : Reply) (g : Group D)
      → gathered w (record g { after_commit = g.after_commit ++ r ∷ [] })
        ≡ one (reaches w r) + gathered w g
  waits_more w r g = omega (arith, answers-append w g.after_commit (r ∷ []))

  brings-called :
      (w : Waiting) (f : Writer.Prog D) (now n : ℕ)
      → reaches w (called n) ≡ brings w (apply f now n)
  brings-called (callback k) f now n = refl
  brings-called (response k) f now n = refl
  brings-called (barrier_tx k) f now n = refl
  brings-called (save_tx k) f now n = refl

  brings-commit :
      (w : Waiting) (req : CommitRequest D) (ts : ℕ)
      → (reaches w (conflict req.resp) ≡ brings w (commit req))
        × (reaches w (committed req.resp ts) ≡ brings w (commit req))
  brings-commit (callback k) req ts = (refl, refl)
  brings-commit (response k) req ts = (refl, refl)
  brings-commit (barrier_tx k) req ts = (refl, refl)
  brings-commit (save_tx k) req ts = (refl, refl)

  gathered-handle :
      (w : Waiting) (m : ℕ) (b : Batch D) (g : Group D)
      → (gathered w (handle m b g) ≡ one (brings w b) + gathered w g)
        × ((handle m b g).save_req ≡ next_save g.save_req b)
  unfolding handle
  gathered-handle w m (apply f now hook) g =
      let ops = (Writer.run f (Writer.start now g.inner)).staged in
      let kept = gathered-commit_staged w m ops g in
      (
        waits_more w (called hook) (commit_staged m ops g)
            ∙ ap (λ n. one (reaches w (called hook)) + n) kept.0
            ∙ ap (λ x. one x + gathered w g) (brings-called w f now hook),
        kept.1,
      )
  gathered-handle w m (commit req) g =
      let kept = gathered-commit_staged w m req.writes g in
      let same = brings-commit w req (next_ts g.inner) in
      elim (Bool-cases (has_conflict req g.inner)) [
        | inl e ↦
            rw (e, handle)
              (sent_more w (conflict req.resp) g ∙ ap (λ x. one x + gathered w g) (same.0), refl)
        | inr e ↦
            rw (e, handle)
              (
                waits_more w (committed req.resp (next_ts g.inner)) (commit_staged m req.writes g)
                    ∙ ap (λ n. one (reaches w (committed req.resp (next_ts g.inner))) + n) kept.0
                    ∙ ap (λ x. one x + gathered w g) (same.1),
                kept.1,
              )
      ]
  gathered-handle w m (save tx) g = (omega (arith, ap one (brings-save D w tx)), refl)
  gathered-handle w m (barrier tx) g =
      (waits_more w (passed tx) g ∙ ap (λ x. one x + gathered w g) (brings-barrier D w tx), refl)

  last_save-next :
      (req : Option ℕ) (b : Batch D) (bs : List (Batch D))
      → last_save (next_save req b) bs ≡ last_save req (b ∷ bs)
  last_save-next req (apply f now n) bs = refl
  last_save-next req (commit r) bs = refl
  last_save-next req (save tx) bs = refl
  last_save-next req (barrier n) bs = refl

  gathered-handle_all :
      (w : Waiting) (m : ℕ) (bs : List (Batch D)) (g : Group D)
      → (gathered w (handle_all m bs g) ≡ brought w bs + gathered w g)
        × ((handle_all m bs g).save_req ≡ last_save g.save_req bs)
  unfolding handle_all
  gathered-handle_all w m [] g = (omega arith, refl)
  gathered-handle_all w m (b ∷ bs) g =
      let rest = gathered-handle_all w m bs (handle m b g) in
      let first = gathered-handle w m b g in
      (
        omega (arith, rest.0, first.0),
        rest.1 ∙ ap (λ req. last_save req bs) first.1 ∙ last_save-next g.save_req b bs,
      )

  answers-settle :
      (w : Waiting) (req : Option ℕ) (inner : Inner D) (now : ℕ) (io : SaveIo) (disk : Disk D)
      (rs : List Reply)
      → answers w (settle req inner now io (disk, rs)).1 ≡ answers w rs + one (is_tx w req)
  unfolding settle
  answers-settle w none inner now io disk rs = ground (arith, nobody w)
  answers-settle w (some tx) inner now io disk rs =
      let done = (do_save inner now io disk).1 in
      omega (arith, answers-append w rs (saved tx done ∷ []), ap one (reaches-saved w tx done))

  -- In a turn every closure's callback is called once, every commit request is answered once, with a
  -- timestamp or a conflict, and every barrier is passed once, each on its own channel; of the saves the
  -- last one is answered, once, and the others are not.
  pub one_answer_each :
      (codec : Codec (AofRecord D)) (bs : List (Batch D)) (now : ℕ) (io : SaveIo) (inner : Inner D)
      (disk : Disk D) (w : Waiting)
      → answers w (turn codec bs now io (inner, disk)).2 ≡ due w bs
  unfolding turn
  one_answer_each codec bs now io inner disk w =
      let m = min_active_snapshot inner in
      let g = handle_all m bs (open_group inner) in
      let all = gathered-handle_all w m bs (open_group inner) in
      omega (
        arith,
        answers-settle w g.save_req g.inner now io (Disk.append codec g.records disk)
            (g.sent ++ g.after_commit),
        answers-append w g.sent g.after_commit,
        all.0,
        ap (λ req. one (is_tx w req)) all.1,
      )
