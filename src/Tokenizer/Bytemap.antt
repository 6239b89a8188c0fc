-- ===== src/Tokenizer/Bytemap.antt =====
-- `build_byte_maps` and `utf8_chars`: each byte is written as a printable character.
pub mod Inverse
use q.Prelude.{
  ℕ, zero, suc, ◌+◌, ◌-◌, ◌/◌, ◌%◌, Bool, true, false, ◌&&◌, ◌||◌, Option, none, some, List, [],
  ◌∷◌, ◌++◌, ltb, leb, if◌then◌else◌, Bytes, bytes_eq, length, take, drop,
}

-- `cp_to_utf8`; shifts and masks as quotients and remainders.
unfoldable pub cp_to_utf8 : ℕ → Bytes
cp_to_utf8 cp =
    if ltb cp 128
    then cp ∷ []
    else if ltb cp 2048
    then (192 + cp / 64) ∷ ((128 + cp % 64) ∷ [])
    else (224 + cp / 4096) ∷ ((128 + cp / 64 % 64) ∷ ((128 + cp % 64) ∷ []))

abbrev pub direct : ℕ → Bool
direct b = leb 33 b && leb b 126 || leb 161 b && leb b 172 || leb 174 b

-- The `k` with which the loop meets byte `b`.
unfoldable pub indirect_before : ℕ → ℕ
indirect_before zero = 0
indirect_before (suc b) = let k = indirect_before b in if direct b then k else k + 1

unfoldable pub b2u : ℕ → Bytes
unfolding cp_to_utf8 indirect_before
b2u b = cp_to_utf8 (if direct b then b else 256 + indirect_before b)

-- `u2b`, where a later byte would replace an earlier one.
unfoldable pub u2b_below : ℕ → Bytes → Option ℕ
unfolding b2u bytes_eq
u2b_below zero s = none
u2b_below (suc b) s = let before = u2b_below b s in if bytes_eq (b2u b) s then some b else before

unfoldable pub u2b : Bytes → Option ℕ
unfolding u2b_below
u2b s = u2b_below 256 s

-- The length of a character by its first byte, in `utf8_chars`.
abbrev pub char_len : ℕ → ℕ
char_len c =
    if leb 192 c && ltb c 224
    then 2
    else if leb 224 c && ltb c 240
    then 3
    else if leb 240 c && ltb c 248
    then 4
    else 1

-- The loop of `utf8_chars`, with fuel for its rounds.
unfoldable pub chars_loop : ℕ → Bytes → List Bytes
chars_loop zero s = []
chars_loop (suc fuel) [] = []
chars_loop (suc fuel) (c ∷ s) =
    take (char_len c) (c ∷ s) ∷ chars_loop fuel (drop (char_len c) (c ∷ s))

unfoldable pub utf8_chars : Bytes → List Bytes
unfolding chars_loop
utf8_chars s = chars_loop (length s) s
