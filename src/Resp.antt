-- ===== src/Resp.antt =====
-- src/redis/resp.rs: the values of the protocol and their encoding. Texts are their bytes, a double is
-- its bit pattern, and `fmt`, which stands for `fmt_f64`, prints it.
pub mod Decimal
pub mod Parse
pub mod RoundTrip
mod Tests
use voltra.Prelude.{
  ℕ, zero, suc, ◌+◌, ◌*◌, ◌/◌, ◌%◌, Bool, true, false, List, [], ◌∷◌, ◌++◌, ltb, leb, length,
  if◌then◌else◌,
}

abbrev pub Bytes : Type 0
Bytes = List ℕ

-- An `i64`; `negsuc n` is -(n + 1).
pub data ℤ : Type 0 where
  pos negsuc : ℕ → ℤ

mutual
  pub data Resp : Type 0 where
    simple : Bytes → Resp
    error : Bytes → Resp
    int : ℤ → Resp
    bulk : Bytes → Resp
    null : Resp
    null_array : Resp
    array : Items → Resp
    double : ℕ → Resp
    boolean : Bool → Resp
    big_num : Bytes → Resp
    verbatim : Bytes → Bytes → Resp
    map_reply : Pairs → Resp
    set_reply : Items → Resp
    push : Items → Resp

  pub data Items : Type 0 where
    nil : Items
    cons : Resp → Items → Items

  pub data Pairs : Type 0 where
    end : Pairs
    pair : Resp → Resp → Pairs → Pairs

-- `to_string` of a number, of `fuel` digits at most: 20 are enough for 64 bits.
unfoldable pub digits_of : ℕ → ℕ → Bytes
digits_of zero n = []
digits_of (suc fuel) n =
    let front = digits_of fuel (n / 10) in
    if ltb n 10 then (48 + n) ∷ [] else front ++ (48 + n % 10) ∷ []

abbrev pub to_string : ℕ → Bytes
to_string n = digits_of 20 n

abbrev pub int_to_string : ℤ → Bytes
int_to_string (pos n) = to_string n
int_to_string (negsuc n) = 45 ∷ to_string (n + 1)

abbrev pub crlf : Bytes
crlf = 13 ∷ 10 ∷ []

abbrev pub count_items : Items → ℕ
count_items nil = 0
count_items (cons v vs) = suc (count_items vs)

abbrev pub count_pairs : Pairs → ℕ
count_pairs end = 0
count_pairs (pair k v ps) = suc (count_pairs ps)

-- A line: its first byte, its text and the end of the line.
abbrev pub text_line : ℕ → Bytes → Bytes
text_line tag text = tag ∷ text ++ crlf

abbrev pub encode_bulk : Bytes → Bytes
encode_bulk b = text_line 36 (to_string (length b)) ++ b ++ crlf

-- What `encode` appends to its output. Where it calls itself on another value for protocol 2, the
-- clause has what that call appends.
module _ (fmt : ℕ → Bytes) (proto : ℕ) where
  unfoldable mutual
    pub encode : Resp → Bytes
    encode (simple s) = text_line 43 s
    encode (error s) = text_line 45 s
    encode (int i) = text_line 58 (int_to_string i)
    encode (bulk b) = encode_bulk b
    encode null = if leb 3 proto then 95 ∷ crlf else 36 ∷ 45 ∷ 49 ∷ crlf
    encode null_array = if leb 3 proto then 95 ∷ crlf else 42 ∷ 45 ∷ 49 ∷ crlf
    encode (array items) = text_line 42 (to_string (count_items items)) ++ encode_all items
    encode (double f) = if leb 3 proto then text_line 44 (fmt f) else encode_bulk (fmt f)
    encode (boolean b) =
        if leb 3 proto
        then 35 ∷ (if b then 116 else 102) ∷ crlf
        else text_line 58 (to_string (if b then 1 else 0))
    encode (big_num s) = if leb 3 proto then text_line 40 s else encode_bulk s
    encode (verbatim format body) =
        if leb 3 proto
        then text_line 61 (to_string (length body + 4)) ++ format ++ 58 ∷ body ++ crlf
        else encode_bulk body
    encode (map_reply pairs) =
        let body = encode_pairs pairs in
        if leb 3 proto
        then text_line 37 (to_string (count_pairs pairs)) ++ body
        else text_line 42 (to_string (count_pairs pairs * 2)) ++ body
    encode (set_reply items) =
        let body = encode_all items in
        text_line (if leb 3 proto then 126 else 42) (to_string (count_items items)) ++ body
    encode (push items) =
        let body = encode_all items in
        text_line (if leb 3 proto then 62 else 42) (to_string (count_items items)) ++ body

    pub encode_all : Items → Bytes
    encode_all nil = []
    encode_all (cons v vs) = encode v ++ encode_all vs

    pub encode_pairs : Pairs → Bytes
    encode_pairs end = []
    encode_pairs (pair k v ps) = encode k ++ encode v ++ encode_pairs ps
