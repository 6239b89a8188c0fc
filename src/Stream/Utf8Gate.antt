-- ===== src/Stream/Utf8Gate.antt =====
-- `Utf8Gate` of src/api_common.h: holds back a character of which only a part has come.
pub mod Whole
use q.Prelude.{
  ℕ, zero, suc, ◌+◌, Bool, true, false, ◌&&◌, Option, none, some, List, [], ◌∷◌, ◌++◌, ltb, leb,
  if◌then◌else◌, Bytes, length, take, drop, get_or, is_empty,
}

-- `(b & 0xC0) == 0x80`
abbrev pub is_cont : ℕ → Bool
is_cont b = leb 128 b && ltb b 192

-- `seq_len`, where `none` is -1; the masks are written as the ranges of a byte that they test.
unfoldable pub seq_len : ℕ → Option ℕ
seq_len b =
    if ltb b 128
    then some 1
    else if leb 192 b && ltb b 224
    then some 2
    else if leb 224 b && ltb b 240
    then some 3
    else if leb 240 b && ltb b 248
    then some 4
    else none

-- The `while`: from the end back over at most four bytes, to the last that is no continuation.
unfoldable pub back_to : ℕ → ℕ → Bytes → ℕ
back_to zero i pend = i
back_to (suc left) zero pend = 0
back_to (suc left) (suc i) pend =
    let i' = back_to left i pend in if is_cont (get_or pend i 0) then i' else i

-- What `seq_len` says of the byte at `i`: the cut.
abbrev pub cut_by : Option ℕ → ℕ → ℕ → ℕ
cut_by none i n = n
cut_by (some l) i n = if ltb n (i + l) then i else n

abbrev pub cut_at : ℕ → Bytes → ℕ
cut_at i pend =
    if ltb i (length pend) then cut_by (seq_len (get_or pend i 0)) i (length pend) else length pend

-- The new `pend`, and the text to emit.
unfoldable pub feed : Bytes → Bytes → Bytes × Bytes
unfolding back_to seq_len
feed pend piece =
    let p = pend ++ piece in let cut = cut_at (back_to 4 (length p) p) p in (drop cut p, take cut p)

-- U+FFFD for a part that is left
unfoldable pub flush : Bytes → Bytes × Bytes
flush pend = ([], if is_empty pend then [] else 239 ∷ 191 ∷ 189 ∷ [])
