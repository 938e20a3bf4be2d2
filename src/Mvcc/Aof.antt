-- ===== src/Mvcc/Aof.antt =====
-- src/mvcc/aof.rs: the framing of the log, `[len: u32 LE][crc32: u32 LE][payload]`, and its replay from
-- bytes. The codec (`rmp_serde`) and the checksum (`crc32fast`) are parameters.
pub mod Replay
mod Tests
use voltra.Prelude.{
  ℕ, zero, suc, ◌+◌, ◌*◌, ◌/◌, ◌%◌, ◌^◌, Bool, true, false, ◌||◌, Option, none, some, List, [], ◌∷◌,
  ◌++◌, ltb, length, take, drop, if◌then◌else◌, ◌==◌, Eq-nat,
}

abbrev pub Bytes : Type 0
Bytes = List ℕ

abbrev pub max_record : ℕ
max_record = 64 * 1024 * 1024

abbrev pub u32_mod : ℕ
u32_mod = 2 ^ 32

-- `u32::from_le_bytes`
abbrev pub from_le : ℕ → ℕ → ℕ → ℕ → ℕ
from_le a b c d = a + 256 * b + 65536 * c + 16777216 * d

-- `u32::to_le_bytes`, and what follows it in the file.
abbrev pub to_le : ℕ → Bytes → Bytes
to_le n rest = (n % 256) ∷ (n / 256 % 256) ∷ (n / 65536 % 256) ∷ (n / 16777216 % 256) ∷ rest

pub record Codec (R : Type 0) : Type 0 where
  pub to_vec : R → Option Bytes
  pub from_slice : Bytes → Option R
  pub crc32 : Bytes → ℕ

module _ {R : Type 0} (codec : Codec R) where
  -- The three writes of a record.
  unfoldable pub frame : Bytes → Bytes
  frame payload = to_le (length payload % u32_mod) (to_le (codec.crc32 payload) payload)

  -- A record that does not encode is dropped.
  unfoldable pub append_records : List R → Bytes
  unfolding frame
  append_records [] = []
  append_records (rec ∷ recs) =
      let rest = append_records recs in
      elim (codec.to_vec rec) [ none ↦ rest | some payload ↦ frame payload ++ rest ]

  -- The body of the loop, after the header: the record that is read, and the bytes behind it.
  unfoldable pub read_record : ℕ → ℕ → Bytes → Option (R × Bytes)
  read_record len crc rest =
      if len == 0 || ltb max_record len
      then none
      else if ltb (length rest) len
      then none
      else if codec.crc32 (take len rest) == crc
      then elim (codec.from_slice (take len rest)) [
        | none ↦ none
        | some rec ↦ some (rec, drop len rest)
      ]
      else none

  unfoldable pub read_header : Bytes → Option (R × Bytes)
  unfolding read_record
  read_header (a ∷ b ∷ c ∷ d ∷ e ∷ f ∷ g ∷ h ∷ rest) =
      read_record (from_le a b c d) (from_le e f g h) rest
  read_header _ = none

  -- The `while` loop: the records handed to the callback, for `fuel` rounds at most.
  unfoldable pub replay : ℕ → Bytes → List R
  replay zero buf = []
  replay (suc fuel) buf = elim (read_header buf) [
    | none ↦ []
    | some (rec, rest) ↦ rec ∷ replay fuel rest
  ]

  -- Each round reads a header at least, so the length of the file is fuel enough.
  unfoldable pub read_log : Bytes → List R
  read_log buf = replay (length buf) buf
