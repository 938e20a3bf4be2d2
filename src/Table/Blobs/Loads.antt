-- ===== src/Table/Blobs/Loads.antt =====
-- What is stored in the file of blobs is read back.
use voltra.Prelude.{
  ℕ, zero, suc, ◌+◌, ◌/◌, ◌%◌, ◌^◌, ◌<◌, ◌≤◌, ◌≡◌, refl, ap, ◌∙◌, Option, none, some, List, [], ◌∷◌,
  ◌++◌, arith, length, take, drop, ◌>>=◌, length-append, Option-cases, inl, inr,
}
use mathlib.Core.List.{append-nil}
use voltra.Table.Value.{Bytes}
use voltra.Table.Blobs.{BlobStore, to_le, from_le, store_blob, read_exact, load_bytes, load_blob}

take_append : (xs ys : Bytes) → take (length xs) (xs ++ ys) ≡ xs
take_append [] ys = refl
take_append (x ∷ xs) ys = ap (λ zs. x ∷ zs) (take_append xs ys)

drop_append : (xs ys : Bytes) → drop (length xs) (xs ++ ys) ≡ ys
drop_append [] ys = refl
drop_append (x ∷ xs) ys = drop_append xs ys

take_more : (n : ℕ) (xs ys : Bytes) → n ≤ length xs → take n (xs ++ ys) ≡ take n xs
take_more zero xs ys h = refl
take_more (suc n) [] ys h = absurd (omega arith)
take_more (suc n) (x ∷ xs) ys h = ap (λ zs. x ∷ zs) (take_more n xs ys (omega arith))

drop_more : (n : ℕ) (xs ys : Bytes) → n ≤ length xs → drop n (xs ++ ys) ≡ drop n xs ++ ys
drop_more zero xs ys h = refl
drop_more (suc n) [] ys h = absurd (omega arith)
drop_more (suc n) (x ∷ xs) ys h = drop_more n xs ys (omega arith)

length-to_le : (width n : ℕ) → length (to_le width n) ≡ width
length-to_le zero n = refl
length-to_le (suc width) n = ap suc (length-to_le width (n / 256))

from_le-to_le : (n : ℕ) → n < 2 ^ 64 → from_le (to_le 8 n) ≡ n
from_le-to_le n h = omega arith

read_exact-more :
    (n : ℕ) (xs ys p r : Bytes)
    → read_exact n xs ≡ some (p, r)
    → read_exact n (xs ++ ys) ≡ some (p, r ++ ys)
unfolding read_exact
read_exact-more n xs ys p r h =
    ground (arith, length-append xs ys, take_more n xs ys, drop_more n xs ys, h)

read_exact_append : (xs ys : Bytes) → read_exact (length xs) (xs ++ ys) ≡ some (xs, ys)
unfolding read_exact
read_exact_append xs ys = ground (arith, length-append xs ys, take_append xs ys, drop_append xs ys)

load_bytes-more : (xs ys p : Bytes) → load_bytes xs ≡ some p → load_bytes (xs ++ ys) ≡ some p
unfolding load_bytes
load_bytes-more xs ys p h = elim (Option-cases (read_exact 8 xs)) [
  | inl e ↦ ground (arith, e, h)
  | inr ((len, rest), e) ↦ elim (Option-cases (read_exact (from_le len) rest)) [
    | inl f ↦ ground (arith, e, f, h)
    | inr ((payload, r), f) ↦ ground (
      arith,
      e,
      f,
      h,
      read_exact-more 8 xs ys len rest e,
      read_exact-more (from_le len) rest ys payload r f,
    )
  ]
]

load_bytes-empty : load_bytes [] ≡ none
unfolding load_bytes read_exact
load_bytes-empty = refl

load_bytes-stored :
    (n : ℕ) (word payload more : Bytes)
    → length word ≡ n
    → n ≡ 8
    → from_le word ≡ length payload
    → load_bytes (word ++ (payload ++ more)) ≡ some payload
unfolding load_bytes
load_bytes-stored n word payload more l eight h =
    ground
      (arith, l, eight, h, read_exact_append word (payload ++ more), read_exact_append payload more)

-- The whole file is written through `store_blob`.
abbrev pub Written : BlobStore → Type 0
Written blobs = blobs.next_offset ≡ length blobs.file

word : ℕ → Bytes
word len = to_le 8 (len % 2 ^ 64)

-- The store after a payload that fits.
grown : Bytes → BlobStore → BlobStore
unfolding word
grown payload blobs = record blobs {
  file = blobs.file ++ (word (length payload) ++ payload);
  next_offset = blobs.next_offset + (8 + length payload);
}

store_blob-grown :
    (payload : Bytes) (blobs : BlobStore) (q : ℕ × BlobStore)
    → store_blob payload blobs ≡ some q
    → q ≡ (blobs.next_offset, grown payload blobs)
unfolding store_blob grown word
store_blob-grown payload blobs q e = ground (arith, e)

length-word : (n : ℕ) → length (word n) ≡ 8
unfolding word
length-word n = length-to_le 8 (n % 2 ^ 64)

from_le-word : (n : ℕ) → n < 2 ^ 64 → from_le (word n) ≡ n
unfolding word
from_le-word n h = from_le-to_le (n % 2 ^ 64) (omega arith) ∙ omega arith

drop_past : (n : ℕ) (xs : Bytes) → length xs < n → drop n xs ≡ []
drop_past zero xs h = absurd (omega arith)
drop_past (suc n) [] h = refl
drop_past (suc n) (x ∷ xs) h = drop_past n xs (omega arith)

load_blob-grown :
    (offset : ℕ) (payload p : Bytes) (blobs : BlobStore)
    → load_blob offset blobs ≡ some p
    → load_blob offset (grown payload blobs) ≡ some p
unfolding load_blob grown
load_blob-grown offset payload p blobs h = ground (
  arith,
  h,
  drop_past offset blobs.file,
  load_bytes-empty,
  drop_more offset blobs.file (word (length payload) ++ payload),
  load_bytes-more (drop offset blobs.file) (word (length payload) ++ payload) p,
)

load_blob_new :
    (payload : Bytes) (blobs : BlobStore)
    → Written blobs
    → length payload < 2 ^ 64
    → load_blob blobs.next_offset (grown payload blobs) ≡ some payload
unfolding load_blob grown
load_blob_new payload blobs w h = ground (
  arith,
  w,
  drop_append blobs.file (word (length payload) ++ payload),
  ap (λ xs. word (length payload) ++ xs) (append-nil payload),
  load_bytes-stored 8 (word (length payload)) payload [] (length-word (length payload)) refl
      (from_le-word (length payload) h),
)

grown-Written :
    (payload : Bytes) (blobs : BlobStore) → Written blobs → Written (grown payload blobs)
unfolding grown
grown-Written payload blobs w = omega (
  arith,
  w,
  length-append blobs.file (word (length payload) ++ payload),
  length-append (word (length payload)) payload,
  length-word (length payload),
)

-- Payloads stored one after the other.
unfoldable pub store_all : List Bytes → BlobStore → Option BlobStore
store_all [] blobs = some blobs
store_all (payload ∷ payloads) blobs = do
  (_, after) ← store_blob payload blobs
  store_all payloads after

load_blob-kept :
    (payloads : List Bytes) (offset : ℕ) (p : Bytes) (blobs later : BlobStore)
    → load_blob offset blobs ≡ some p
    → store_all payloads blobs ≡ some later
    → load_blob offset later ≡ some p
unfolding store_all
load_blob-kept [] offset p blobs later h e = ground (arith, h, e)
load_blob-kept (payload ∷ payloads) offset p blobs later h e =
    elim (Option-cases (store_blob payload blobs)) [
      | inl f ↦ ground (arith, f, e)
      | inr (q, f) ↦
          load_blob-kept payloads offset p q.1 later
            (ground
              (arith, load_blob-grown offset payload p blobs h, store_blob-grown payload blobs q f))
            (ground (arith, f, e))
    ]

-- A payload that was stored in a file which has only been written by `store_blob` is what `load_blob`
-- gives at its offset, whatever payloads are stored later, if its length fits a `u64`.
pub load_blob-stored :
    (payload : Bytes) (more : List Bytes) (blobs later : BlobStore) (q : ℕ × BlobStore)
    → Written blobs
    → length payload < 2 ^ 64
    → store_blob payload blobs ≡ some q
    → store_all more q.1 ≡ some later
    → load_blob q.0 later ≡ some payload
load_blob-stored payload more blobs later q w h e f =
    load_blob-kept more q.0 payload q.1 later
      (ground (arith, store_blob-grown payload blobs q e, load_blob_new payload blobs w h)) f
