-- ===== src/Mvcc/Aof/Replay.antt =====
-- What comes back from the log: every record up to the first that is torn, corrupt or too long.
use voltra.Prelude.{
  ℕ, zero, suc, ◌+◌, ◌/◌, ◌%◌, ◌≤◌, ◌<◌, ◌≡◌, refl, ap, ◌∙◌, none, some, List, [], ◌∷◌, ◌++◌, arith,
  length, take, drop, length-append, Option-cases, inl, inr,
}
use mathlib.Core.Path.{ap₂}
use mathlib.Core.List.{append_assoc, append-nil}
use voltra.Mvcc.Aof.{
  Bytes, Codec, max_record, u32_mod, from_le, frame, append_records, read_record, read_header,
  replay, read_log,
}

take-length : (xs ys : Bytes) → take (length xs) (xs ++ ys) ≡ xs
take-length [] ys = refl
take-length (x ∷ xs) ys = ap (◌∷◌ x) (take-length xs ys)

drop-length : (xs ys : Bytes) → drop (length xs) (xs ++ ys) ≡ ys
drop-length [] ys = refl
drop-length (x ∷ xs) ys = drop-length xs ys

from_le-to_le :
    (n : ℕ)
    → n < u32_mod
    → let m = n % u32_mod in
      from_le (m % 256) (m / 256 % 256) (m / 65536 % 256) (m / 16777216 % 256) ≡ n
from_le-to_le n h = omega arith

-- The checksum is not reduced, as it is a `u32`.
from_le-to_le_u32 :
    (n : ℕ)
    → n < u32_mod
    → from_le (n % 256) (n / 256 % 256) (n / 65536 % 256) (n / 16777216 % 256) ≡ n
from_le-to_le_u32 n h = omega arith

module _ {R : Type 0} (codec : Codec R) where
  -- What the documentation of the two crates promises of a record: it decodes to itself, and the
  -- checksum is a `u32`.
  pub record Encodes (rec : R) (payload : Bytes) : Type 0 where
    pub encoded : codec.to_vec rec ≡ some payload
    pub decoded : codec.from_slice payload ≡ some rec
    pub crc_fits : codec.crc32 payload < u32_mod
    pub not_empty : 0 < length payload

  read_header-frame :
      (payload rest : Bytes)
      → length payload < u32_mod
      → codec.crc32 payload < u32_mod
      → read_header codec (frame codec payload ++ rest)
        ≡ read_record codec (length payload) (codec.crc32 payload) (payload ++ rest)
  unfolding read_header frame
  read_header-frame payload rest a b =
      ap₂ (λ n c. read_record codec n c (payload ++ rest)) (from_le-to_le (length payload) a)
        (from_le-to_le_u32 (codec.crc32 payload) b)

  read_record-payload :
      (rec : R) (payload rest : Bytes)
      → Encodes rec payload
      → length payload ≤ max_record
      → read_record codec (length payload) (codec.crc32 payload) (payload ++ rest)
        ≡ some (rec, rest)
  unfolding read_record
  read_record-payload rec payload rest e fits = ground (
    arith,
    length-append payload rest,
    take-length payload rest,
    drop-length payload rest,
    e.decoded,
  )

  -- A record that encodes within the cap is read back, and the bytes behind it are left.
  read_header-record :
      (rec : R) (payload rest : Bytes)
      → Encodes rec payload
      → length payload ≤ max_record
      → read_header codec (frame codec payload ++ rest) ≡ some (rec, rest)
  read_header-record rec payload rest e fits =
      read_header-frame payload rest (omega arith) e.crc_fits
      ∙ read_record-payload rec payload rest e fits

  -- Every record of the list encodes within the cap.
  abbrev pub Fit : List R → Type 0
  Fit [] = Unit
  Fit (rec ∷ recs) =
      ((payload : Bytes) × Encodes rec payload × (length payload ≤ max_record)) × Fit recs

  length-frame : (payload : Bytes) → length (frame codec payload) ≡ 8 + length payload
  unfolding frame
  length-frame payload = omega arith

  length-drop-le : (n : ℕ) (xs : Bytes) → length (drop n xs) ≤ length xs
  length-drop-le zero xs = omega arith
  length-drop-le (suc n) [] = omega arith
  length-drop-le (suc n) (x ∷ xs) = omega (arith, length-drop-le n xs)

  read_record-shrinks :
      (len crc : ℕ) (buf : Bytes) (rec : R) (rest : Bytes)
      → read_record codec len crc buf ≡ some (rec, rest)
      → length rest ≤ length buf
  unfolding read_record
  read_record-shrinks len crc buf rec rest h = ground (arith, length-drop-le len buf)

  read_header-shrinks :
      (buf : Bytes) (rec : R) (rest : Bytes)
      → read_header codec buf ≡ some (rec, rest)
      → length rest < length buf
  unfolding read_header
  read_header-shrinks (a ∷ b ∷ c ∷ d ∷ e ∷ f ∷ g ∷ h ∷ buf) rec rest q =
      omega (arith, read_record-shrinks (from_le a b c d) (from_le e f g h) buf rec rest q)
  read_header-shrinks _ rec rest q = cc

  -- Any fuel from the length of the file on gives the same records.
  pub replay-fuel :
      (f g : ℕ) (buf : Bytes)
      → length buf ≤ f
      → length buf ≤ g
      → replay codec f buf ≡ replay codec g buf
  unfolding replay read_header
  replay-fuel zero zero buf a b = refl
  replay-fuel zero (suc g) [] a b = refl
  replay-fuel zero (suc g) (x ∷ buf) a b = absurd (omega arith)
  replay-fuel (suc f) zero [] a b = refl
  replay-fuel (suc f) zero (x ∷ buf) a b = absurd (omega arith)
  replay-fuel (suc f) (suc g) buf a b = elim (Option-cases (read_header codec buf)) [
    | inl q ↦ rw (q, replay)
    | inr ((rec, rest), q) ↦
        let shorter = read_header-shrinks buf rec rest q in
        rw (q, replay) (ap (◌∷◌ rec) (replay-fuel f g rest (omega arith) (omega arith)))
  ]

  read_log-stop : (buf : Bytes) → read_header codec buf ≡ none → read_log codec buf ≡ []
  unfolding read_log replay
  read_log-stop [] q = refl
  read_log-stop (x ∷ buf) q = rw (q, replay)

  read_log-step :
      (buf : Bytes) (rec : R) (rest : Bytes)
      → read_header codec buf ≡ some (rec, rest)
      → read_log codec buf ≡ rec ∷ read_log codec rest
  unfolding read_log replay
  read_log-step [] rec rest q = absurd (omega (arith, read_header-shrinks [] rec rest q))
  read_log-step (x ∷ buf) rec rest q =
      let shorter = read_header-shrinks (x ∷ buf) rec rest q in
      rw (q, replay)
        (ap (◌∷◌ rec) (replay-fuel (length buf) (length rest) rest (omega arith) (omega arith)))

  append_records-cons :
      (rec : R) (payload : Bytes) (recs : List R)
      → Encodes rec payload
      → append_records codec (rec ∷ recs) ≡ frame codec payload ++ append_records codec recs
  unfolding append_records
  append_records-cons rec payload recs e = rw (e.encoded, append_records)

  -- Records whose payloads are not empty, within the cap, and decoded as what was encoded, are read
  -- back in order once they are appended, and the reading goes on with whatever follows them.
  pub read_log-append_records :
      (recs : List R) (tail : Bytes)
      → Fit recs
      → read_log codec (append_records codec recs ++ tail) ≡ recs ++ read_log codec tail
  read_log-append_records [] tail fit = unfold append_records in refl
  read_log-append_records (rec ∷ recs) tail ((payload, e, fits), fit) =
      rw (append_records-cons rec payload recs e) (
        rw (append_assoc (frame codec payload) (append_records codec recs) tail) (
          read_log-step _ rec _ (read_header-record rec payload _ e fits)
          ∙ ap (◌∷◌ rec) (read_log-append_records recs tail fit)))

  length-take-lt : (n : ℕ) (xs : Bytes) → n < length xs → length (take n xs) < length xs
  length-take-lt n [] h = absurd (omega arith)
  length-take-lt zero (x ∷ xs) h = omega arith
  length-take-lt (suc n) (x ∷ xs) h = omega (arith, length-take-lt n xs (omega arith))

  read_record-torn :
      (len crc : ℕ) (buf : Bytes) → length buf < len → read_record codec len crc buf ≡ none
  unfolding read_record
  read_record-torn len crc buf h = ground arith

  read_header-torn :
      (payload : Bytes) (n : ℕ)
      → length payload < u32_mod
      → n < 8 + length payload
      → read_header codec (take n (frame codec payload)) ≡ none
  unfolding read_header frame
  read_header-torn payload (suc (suc (suc (suc (suc (suc (suc (suc n)))))))) len short =
      read_record-torn
        (from_le (length payload % u32_mod % 256) (length payload % u32_mod / 256 % 256)
          (length payload % u32_mod / 65536 % 256) (length payload % u32_mod / 16777216 % 256))
        (from_le (codec.crc32 payload % 256) (codec.crc32 payload / 256 % 256)
          (codec.crc32 payload / 65536 % 256) (codec.crc32 payload / 16777216 % 256))
        (take n payload)
        (rw (from_le-to_le (length payload) len) (length-take-lt n payload (omega arith)))
  read_header-torn payload zero len short = refl
  read_header-torn payload (suc zero) len short = refl
  read_header-torn payload (suc (suc zero)) len short = refl
  read_header-torn payload (suc (suc (suc zero))) len short = refl
  read_header-torn payload (suc (suc (suc (suc zero)))) len short = refl
  read_header-torn payload (suc (suc (suc (suc (suc zero))))) len short = refl
  read_header-torn payload (suc (suc (suc (suc (suc (suc zero)))))) len short = refl
  read_header-torn payload (suc (suc (suc (suc (suc (suc (suc zero))))))) len short = refl

  -- After such records, a crash in the middle of a write, after any number of bytes of the frame short
  -- of all of them, loses that record and none before it, if its payload is shorter than 2 ^ 32.
  pub read_log-torn :
      (recs : List R) (payload : Bytes) (n : ℕ)
      → Fit recs
      → length payload < u32_mod
      → n < 8 + length payload
      → read_log codec (append_records codec recs ++ take n (frame codec payload)) ≡ recs
  read_log-torn recs payload n fit len short =
      read_log-append_records recs _ fit
      ∙ ap (◌++◌ recs) (read_log-stop _ (read_header-torn payload n len short))
      ∙ append-nil recs

  read_record-oversize :
      (len crc : ℕ) (buf : Bytes) → max_record < len → read_record codec len crc buf ≡ none
  unfolding read_record
  read_record-oversize len crc buf h = ground arith

  -- After such records, one whose payload is over the cap, and shorter than 2 ^ 32, is written all the
  -- same: the reading stops before it, so that it is lost with every record behind it.
  pub read_log-oversize :
      (recs : List R) (rec : R) (payload : Bytes) (later : List R)
      → Fit recs
      → Encodes rec payload
      → max_record < length payload
      → length payload < u32_mod
      → read_log codec (append_records codec recs ++ append_records codec (rec ∷ later)) ≡ recs
  read_log-oversize recs rec payload later fit e big len =
      read_log-append_records recs _ fit
      ∙ ap (◌++◌ recs) (read_log-stop _ (rw (append_records-cons rec payload later e) hidden))
      ∙ append-nil recs
    where
      hidden : read_header codec (frame codec payload ++ append_records codec later) ≡ none
      hidden = read_header-frame payload _ len e.crc_fits ∙ read_record-oversize _ _ _ big
