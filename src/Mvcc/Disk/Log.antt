-- ===== src/Mvcc/Disk/Log.antt =====
-- The bytes of the log, after records are appended and when they are read.
use mathlib.Core.List.{append_assoc, append-nil}
use voltra.Prelude.{◌≡◌, refl, sym, ap, ◌∙◌, true, List, [], ◌∷◌, ◌++◌, Option-cases, inl, inr}
use voltra.Mvcc.Aof.{Codec, frame, append_records, replay, read_log}
use voltra.Mvcc.Aof.Replay.{Fit, read_log-append_records}
use voltra.Mvcc.Disk.{AofRecord, Disk, append, recover, open_store}

module _ {D : Type 0} where
  pub append-attached :
      (codec : Codec (AofRecord D)) (records : List (AofRecord D)) (disk : Disk D)
      → disk.attached ≡ true
      → append codec records disk ≡ record disk { aof = disk.aof ++ append_records codec records }
  unfolding append
  append-attached codec records disk at = rw at

  -- The log of more records is longer by theirs.
  pub append_records-append :
      (codec : Codec (AofRecord D)) (xs ys : List (AofRecord D))
      → append_records codec (xs ++ ys) ≡ append_records codec xs ++ append_records codec ys
  unfolding append_records
  append_records-append codec [] ys = refl
  append_records-append codec (x ∷ xs) ys = elim (Option-cases (codec.to_vec x)) [
    | inl e ↦ rw (e, append_records) (append_records-append codec xs ys)
    | inr (payload, e) ↦
        rw (e, append_records)
          (ap (λ rest. frame codec payload ++ rest) (append_records-append codec xs ys)
            ∙ sym (
                append_assoc (frame codec payload) (append_records codec xs)
                  (append_records codec ys)))
  ]

  pub Fit-append :
      (codec : Codec (AofRecord D)) (xs ys : List (AofRecord D))
      → Fit codec xs
      → Fit codec ys
      → Fit codec (xs ++ ys)
  Fit-append codec [] ys f g = g
  Fit-append codec (x ∷ xs) ys f g = (f.0, Fit-append codec xs ys f.1 g)

  -- What `open` makes of a log whose records fit.
  pub opened :
      (codec : Codec (AofRecord D)) (recs : List (AofRecord D)) (disk : Disk D)
      → disk.attached ≡ true
      → disk.aof ≡ append_records codec recs
      → Fit codec recs
      → open_store codec disk ≡ recover disk.snap recs
  unfolding open_store replay
  opened codec recs disk at log fits =
      let read : read_log codec disk.aof ≡ recs =
        ap (read_log codec) (log ∙ sym (append-nil (append_records codec recs)))
        ∙ read_log-append_records codec recs [] fits
        ∙ append-nil recs in
      rw (at, read) refl
