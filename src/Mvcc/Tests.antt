-- ===== src/Mvcc/Tests.antt =====
-- Runs of the store on small inputs, with numbers for values.
use voltra.Prelude.{
  ℕ, ◌^◌, ◌≤◌, ◌<◌, ◌≡◌, ◌+◌, ◌-◌, ◌%◌, if◌then◌else◌, refl, is_some, true, false, Option, none,
  some, List, [], ◌∷◌, ◌++◌, arith, length, any, ◌==◌, Eq-nat,
}
use voltra.Prelude.Map.{lookup, insert, remove}
use voltra.Mvcc.Chain.{head_ts, prune, shown, unexpired}
use voltra.Mvcc.Store
use voltra.Mvcc.Store.{
  Bytes, NsKey, Eq-NsKey, key_eq, WriteOp, put, del, Inner, u64_mod, empty_inner, first_key,
  min_active_snapshot, bump_count, push_version, was_live, set_ttl, apply_op, apply_ops, get_at,
  get, get_expiry, ns_len, insert_pin, pin_snapshot, drop_guard,
}
use voltra.Mvcc.Store.Books.{live_in, weight}
use voltra.Mvcc.Store.Effects.{chain_of, last_write}
use voltra.Mvcc.Writer
use voltra.Mvcc.Writer.{Prog, finish, do_get, do_put, do_del, start, stage_put, stage_del}
use voltra.Mvcc.Writer.Commit.{read_your_writes}
use voltra.Mvcc.Aof.{Codec, max_record}
use voltra.Mvcc.Aof.Replay.{Encodes}
use voltra.Mvcc.Disk.{AofRecord, Disk, completed, truncate_failed, open_store}
use voltra.Mvcc.Sequencer.{
  CommitRequest, Batch, Group, handle_all, commit, save, barrier, next_ts, commit_ops, has_conflict,
  commit_staged, handle, open_group, turn, conflict,
}
use voltra.Mvcc.Sequencer.Replies.{first_committer_wins}
use voltra.Mvcc.Sequencer.Answers.{answers, due, save_tx, one_answer_each}
use voltra.Mvcc.Gc.{gc_sweep, sweep_chains, keeps}
use voltra.Mvcc.Schedule.{
  Event, open_turn, next_batch, pin, sample_floor, sweep, step, run, boot, logged_at, written_after,
}
use voltra.Mvcc.Schedule.Snapshots.{Pinned, snapshot_reads, conflict_exact}
use voltra.Mvcc.Schedule.Stable.{repeatable_read, late_pin_unprotected}
use voltra.Mvcc.Schedule.Books.{dbsize_exact, ttl_index_exact}
use voltra.Mvcc.Recovery.{Move, work, pin_at, sweep_at, move, moves, LogFits, fresh}
use voltra.Mvcc.Recovery.Restart.{restart_loses_nothing}

abbrev a_key : Bytes
a_key = 107 ∷ []

abbrev a_nk : NsKey
a_nk = record { ns = 0; key = a_key }

-- A request that depends on the key, and puts `v` under it.
abbrev put_at : ℕ → ℕ → Option ℕ → CommitRequest ℕ
put_at read v exp = record {
  read_ts = read;
  writes = put 0 a_key v exp ∷ [];
  conflict_keys = a_nk ∷ [];
  resp = v;
}

-- A value, a pin, and a second value with a sweep on both sides of it.
abbrev first_events : List (Event ℕ)
first_events = open_turn ∷ next_batch (commit (put_at 0 5 none)) ∷ pin ∷ []

abbrev later_events : List (Event ℕ)
later_events =
    sample_floor ∷ open_turn ∷ next_batch (commit (put_at 1 6 (some 40))) ∷ sweep ∷ pin ∷ []

first-Pinned : Pinned 1 (run boot first_events)
unfolding run step handle commit_staged has_conflict next_ts commit_ops apply_ops apply_op
    push_version lookup insert key_eq min_active_snapshot first_key prune was_live bump_count
    set_ttl remove head_ts pin_snapshot insert_pin
first-Pinned = refl

later-Pinned : Pinned 1 (run boot (first_events ++ later_events))
unfolding run step handle commit_staged has_conflict next_ts commit_ops apply_ops apply_op
    push_version lookup insert key_eq min_active_snapshot first_key prune was_live bump_count
    set_ttl remove head_ts pin_snapshot insert_pin gc_sweep sweep_chains keeps
later-Pinned = refl

snapshot_reads_example :
    get_at 0 a_key 1 50 (run boot (first_events ++ later_events)).inner
    ≡ unexpired 50 (shown (logged_at 1 a_nk (run boot (first_events ++ later_events)).log))
snapshot_reads_example =
    snapshot_reads (first_events ++ later_events) 0 a_key 1 50 (omega arith) later-Pinned

conflict_exact_example :
    has_conflict (put_at 1 7 none) (run boot (first_events ++ later_events)).inner
    ≡ any (λ nk. written_after 1 nk (run boot (first_events ++ later_events)).log) (a_nk ∷ [])
conflict_exact_example =
    conflict_exact (first_events ++ later_events) (put_at 1 7 none) (omega arith) later-Pinned

repeatable_read_example :
    get_at 0 a_key 1 50 (run boot (first_events ++ later_events)).inner
    ≡ get_at 0 a_key 1 50 (run boot first_events).inner
repeatable_read_example =
    repeatable_read first_events later_events 0 a_key 1 50 (omega arith) first-Pinned later-Pinned

abbrev empty : Inner ℕ
empty = empty_inner

abbrev once_put : Inner ℕ
once_put = commit_ops (put 0 a_key 5 none ∷ []) (next_ts empty) (min_active_snapshot empty) empty

abbrev twice_put : Inner ℕ
twice_put =
    commit_ops (put 0 a_key 6 none ∷ []) (next_ts once_put) (min_active_snapshot once_put) once_put

late_pin_unprotected_example : get_at 0 a_key 0 50 (insert_pin 0 twice_put) ≡ none
late_pin_unprotected_example = late_pin_unprotected empty 0 a_key 5 6 50 refl (omega arith)

one_live : live_in 0 (run boot first_events).inner.chains < 2 ^ 63
unfolding live_in weight run step handle commit_staged has_conflict next_ts commit_ops apply_ops
    apply_op push_version lookup insert key_eq min_active_snapshot first_key prune was_live
    bump_count set_ttl remove head_ts pin_snapshot insert_pin
one_live = omega arith

dbsize_exact_example :
    ns_len 0 (run boot first_events).inner ≡ live_in 0 (run boot first_events).inner.chains
dbsize_exact_example = dbsize_exact first_events 0 one_live

ttl_index_exact_example :
    lookup
      (record { ns = 0; key = a_key })
      (run boot (first_events ++ later_events)).inner.ttl_index
    ≡ get_expiry 0 a_key (run boot (first_events ++ later_events)).inner
ttl_index_exact_example = ttl_index_exact (first_events ++ later_events) 0 a_key (omega arith)

-- The closure reads the key and puts a value where there is none.
abbrev put_if_absent : Prog ℕ
put_if_absent =
    do_get 0 a_key λ old. elim old [ none ↦ do_put 0 a_key 5 none finish | some v ↦ finish ]

empty_head : head_ts (chain_of (record { ns = 0; key = a_key }) empty) ≤ 1
unfolding head_ts lookup
empty_head = omega arith

read_your_writes_example :
    (Writer.get 0 a_key (Writer.run put_if_absent (start 50 empty))).0
    ≡ Store.get 0 a_key 50 (commit_ops (Writer.run put_if_absent (start 50 empty)).staged 1 0 empty)
read_your_writes_example = read_your_writes put_if_absent 50 1 0 0 a_key empty empty_head

free : has_conflict (put_at 0 5 none) empty ≡ false
unfolding has_conflict lookup head_ts
free = refl

depends : any (λ j. j == a_nk) (put_at 0 6 none).conflict_keys ≡ true
unfolding key_eq
depends = refl

writes : is_some (last_write a_nk (next_ts empty) (put_at 0 5 none).writes) ≡ true
unfolding key_eq
writes = refl

-- Another key is written between the two.
abbrev between : List (Batch ℕ)
between =
    commit (record { read_ts = 0; writes = put 1 a_key 8 none ∷ []; conflict_keys = []; resp = 8 })
    ∷ barrier 3
    ∷ []

abbrev decided : Group ℕ
decided = handle_all 0 between (handle 0 (commit (put_at 0 5 none)) (open_group empty))

first_committer_wins_example :
    handle 0 (commit (put_at 0 6 none)) decided
    ≡ record decided { sent = decided.sent ++ conflict 6 ∷ [] }
first_committer_wins_example =
    first_committer_wins 0 0 0 (put_at 0 5 none) (put_at 0 6 none) between a_nk (open_group empty)
      (omega arith) free writes depends (omega arith)

-- A record of one value under a key that does not expire; nothing else is encoded.
abbrev op_bytes : ℕ → List (WriteOp ℕ) → Option Bytes
op_bytes ts (put ns key v none ∷ []) = some (ts ∷ ns ∷ v ∷ 0 ∷ key)
op_bytes ts (put ns key v (some exp) ∷ []) = some (ts ∷ ns ∷ v ∷ (exp + 1) ∷ key)
op_bytes ts ops = none

abbrev one_put : AofRecord ℕ → Option Bytes
one_put rec = op_bytes rec.ts rec.ops

abbrev expiry_of : ℕ → Option ℕ
expiry_of e = if e == 0 then none else some (e - 1)

abbrev put_of : Bytes → Option (AofRecord ℕ)
put_of (ts ∷ ns ∷ v ∷ e ∷ key) = some (record { ts = ts; ops = put ns key v (expiry_of e) ∷ [] })
put_of _ = none

abbrev codec : Codec (AofRecord ℕ)
codec = record { to_vec = one_put; from_slice = put_of; crc32 = λ b. length b % 2 ^ 32 }

abbrev new_system : Inner ℕ × Disk ℕ
new_system = fresh

-- Two saves, of which the first is not answered.
one_answer_each_example :
    answers (save_tx 3) (turn codec (save 1 ∷ barrier 2 ∷ save 3 ∷ []) 9 completed new_system).2
    ≡ due {D = ℕ} (save_tx 3) (save 1 ∷ barrier 2 ∷ save 3 ∷ [])
one_answer_each_example =
    one_answer_each codec (save 1 ∷ barrier 2 ∷ save 3 ∷ []) 9 completed new_system.0 new_system.1
      (save_tx 3)

-- A save that ends before the truncation of the log, and a later commit.
abbrev some_moves : List (Move ℕ)
some_moves =
    work (commit (put_at 0 5 (some 90)) ∷ save 1 ∷ []) 10 truncate_failed
    ∷ pin_at 1
    ∷ work (commit (put_at 1 6 none) ∷ []) 9 completed
    ∷ sweep_at 2
    ∷ []

fits :
    (rec : AofRecord ℕ) (payload : Bytes)
    → one_put rec ≡ some payload
    → put_of payload ≡ some rec
    → 0 < length payload
    → length payload ≤ max_record
    → (b : Bytes) × Encodes codec rec b × (length b ≤ max_record)
fits rec payload e d f l =
    (payload, record { encoded = e; decoded = d; crc_fits = omega arith; not_empty = f }, l)

some_moves-LogFits : LogFits codec fresh some_moves
unfolding handle commit_staged has_conflict next_ts commit_ops handle_all move moves turn lookup
    head_ts insert_pin apply_ops apply_op set_ttl was_live bump_count push_version insert key_eq
    prune min_active_snapshot first_key
some_moves-LogFits = (
  (
    fits (record { ts = 1; ops = put 0 a_key 5 (some 90) ∷ [] }) (1 ∷ 0 ∷ 5 ∷ 91 ∷ a_key) refl refl
        (omega arith) (omega arith),
    tt,
  ),
  (
    (
      fits (record { ts = 2; ops = put 0 a_key 6 none ∷ [] }) (2 ∷ 0 ∷ 6 ∷ 0 ∷ a_key) refl refl
          (omega arith) (omega arith),
      tt,
    ),
    tt,
  ),
)

restart_loses_nothing_example :
    (get 0 a_key 50 (open_store codec (moves codec fresh some_moves).1)
      ≡ get 0 a_key 50 (moves codec fresh some_moves).0)
    × ((open_store codec (moves codec fresh some_moves).1).last_commit
        ≡ (moves codec fresh some_moves).0.last_commit)
restart_loses_nothing_example =
    restart_loses_nothing codec some_moves 10 0 a_key 50 (omega arith)
      (omega arith, (tt, (omega arith, (tt, tt)))) some_moves-LogFits (omega arith)
