-- ===== src/Mvcc/Aof/Tests.antt =====
-- The log with records that are byte strings, encoded as themselves, and a sum for the checksum.
use voltra.Prelude.{
  ℕ, zero, suc, ◌+◌, ◌%◌, ◌<◌, ◌≡◌, refl, ap, some, List, [], ◌∷◌, ◌++◌, arith, length, take,
}
use voltra.Mvcc.Aof.{Bytes, Codec, max_record, u32_mod, frame, append_records, read_log}
use voltra.Mvcc.Aof.Replay.{Encodes, Fit, read_log-append_records, read_log-torn, read_log-oversize}

abbrev sum : Bytes → ℕ
sum [] = 0
sum (x ∷ xs) = (x + sum xs) % u32_mod

sum-bound : (xs : Bytes) → sum xs < u32_mod
sum-bound [] = omega arith
sum-bound (x ∷ xs) = omega arith

abbrev bytes_codec : Codec Bytes
bytes_codec = record { to_vec = some; from_slice = some; crc32 = sum }

encodes : (xs : Bytes) → 0 < length xs → Encodes bytes_codec xs xs
encodes xs h = record { encoded = refl; decoded = refl; crc_fits = sum-bound xs; not_empty = h }

abbrev two_records : List Bytes
two_records = (5 ∷ 6 ∷ []) ∷ (7 ∷ []) ∷ []

two_records-Fit : Fit bytes_codec two_records
two_records-Fit = (
  (5 ∷ 6 ∷ [], encodes (5 ∷ 6 ∷ []) (omega arith), omega arith),
  ((7 ∷ [], encodes (7 ∷ []) (omega arith), omega arith), tt),
)

read_log-append_records_example :
    read_log bytes_codec (append_records bytes_codec two_records ++ 9 ∷ 9 ∷ [])
    ≡ two_records ++ read_log bytes_codec (9 ∷ 9 ∷ [])
read_log-append_records_example =
    read_log-append_records bytes_codec two_records (9 ∷ 9 ∷ []) two_records-Fit

read_log-torn_example :
    read_log bytes_codec
      (append_records bytes_codec two_records ++ take 9 (frame bytes_codec (1 ∷ 2 ∷ 3 ∷ [])))
    ≡ two_records
read_log-torn_example =
    read_log-torn bytes_codec two_records (1 ∷ 2 ∷ 3 ∷ []) 9 two_records-Fit (omega arith)
      (omega arith)

unfoldable zeros : ℕ → Bytes
zeros zero = []
zeros (suc n) = 0 ∷ zeros n

length-zeros : (n : ℕ) → length (zeros n) ≡ n
unfolding zeros
length-zeros zero = refl
length-zeros (suc n) = ap suc (length-zeros n)

too_long : max_record < length (zeros (max_record + 1))
too_long = rw (length-zeros (max_record + 1)) (omega arith)

writable : length (zeros (max_record + 1)) < u32_mod
writable = rw (length-zeros (max_record + 1)) (omega arith)

full : 0 < length (zeros (max_record + 1))
full = rw (length-zeros (max_record + 1)) (omega arith)

read_log-oversize_example :
    read_log bytes_codec (
      append_records bytes_codec two_records
      ++ append_records bytes_codec (zeros (max_record + 1) ∷ two_records))
    ≡ two_records
read_log-oversize_example =
    read_log-oversize bytes_codec two_records (zeros (max_record + 1)) (zeros (max_record + 1))
      two_records two_records-Fit (encodes (zeros (max_record + 1)) full) too_long writable
