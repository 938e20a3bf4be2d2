-- ===== src/Table/Blobs.antt =====
-- table/mod.rs: `BlobStore`, the file of the payloads that are kept out of the rows. A write and a read
-- of the file do what they are asked; `none` is the error of a payload that is too large, or of a read
-- past the end.
pub mod Loads
use voltra.Prelude.{
  ℕ, zero, suc, ◌+◌, ◌*◌, ◌/◌, ◌%◌, ◌^◌, ◌<◌, ◌≤◌, ◌≡◌, refl, ap, sym, ◌∙◌, true, false, Option,
  none, some, List, [], ◌∷◌, ◌++◌, arith, ltb, leb, length, take, drop, if◌then◌else◌, ◌>>=◌,
  length-append, Option-cases, Bool-cases, inl, inr,
}
use mathlib.Core.List.{append-nil}
use voltra.Table.Value.{Bytes}

pub record BlobStore : Type 0 where
  pub file : Bytes
  pub next_offset : ℕ
  -- `MAX_BLOB_SIZE_BYTES`
  pub max_blob_size : ℕ

-- The little-endian bytes of a number.
abbrev pub to_le : ℕ → ℕ → Bytes
to_le zero n = []
to_le (suc width) n = n % 256 ∷ to_le width (n / 256)

abbrev pub from_le : Bytes → ℕ
from_le [] = 0
from_le (b ∷ bytes) = b + 256 * from_le bytes

unfoldable pub store_blob : Bytes → BlobStore → Option (ℕ × BlobStore)
store_blob payload blobs =
    let len = length payload in
    let offset = blobs.next_offset in
    if ltb blobs.max_blob_size len
    then none
    else some (
      offset,
      record blobs {
        file = blobs.file ++ (to_le 8 (len % 2 ^ 64) ++ payload);
        next_offset = offset + (8 + len);
      },
    )

-- `read_exact`: the bytes, and what follows them.
unfoldable pub read_exact : ℕ → Bytes → Option (Bytes × Bytes)
read_exact n bytes = if leb n (length bytes) then some (take n bytes, drop n bytes) else none

-- The payload whose length stands first.
unfoldable pub load_bytes : Bytes → Option Bytes
unfolding read_exact
load_bytes bytes = do
  (len, rest) ← read_exact 8 bytes
  (payload, _) ← read_exact (from_le len) rest
  some payload

unfoldable pub load_blob : ℕ → BlobStore → Option Bytes
load_blob offset blobs = load_bytes (drop offset blobs.file)
