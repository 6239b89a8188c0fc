-- ===== src/Tokenizer/Bpe.antt =====
-- `Tokenizer::bpe_word`, and `decode_one` that reads its tokens back.
pub mod Merges
pub mod Exhausted
pub mod Scan
pub mod Greedy
pub mod Decodes
use q.Prelude.{
  ℕ, zero, suc, ◌+◌, Bool, true, false, Option, none, some, List, [], ◌∷◌, ◌++◌, ltb, leb, ◌==◌,
  if◌then◌else◌, map, Bytes, bytes_eq, length, take, drop, get_or, ℤ, pos, negsuc,
}
use q.Tokenizer.Bytemap.{b2u, u2b, utf8_chars}

-- The fields, and those of `Impl`. A merge's place in its list is its rank.
pub record Tables : Type 0 where
  pub tokens : List Bytes
  pub types : List ℕ
  pub merges : List Bytes
  pub specials : List (Bytes × ℕ)

-- A lookup in a map from the texts of a list, no two of them equal, to their places.
abbrev pub later_place : Option ℕ → Option ℕ
later_place none = none
later_place (some i) = some (suc i)

unfoldable pub place : Bytes → List Bytes → Option ℕ
unfolding bytes_eq
place s [] = none
place s (t ∷ ts) = let later = later_place (place s ts) in if bytes_eq t s then some 0 else later

unfoldable pub tok2id : Tables → Bytes → Option ℕ
unfolding place
tok2id tb s = place s tb.tokens

-- `merge_rank.find(l + " " + r)`
unfoldable pub merge_rank : Tables → Bytes → Bytes → Option ℕ
unfolding place
merge_rank tb l r = place (l ++ 32 ∷ r) tb.merges

abbrev pub int_max : ℕ
int_max = 2147483647

-- One round of the scan: the best rank and its position.
abbrev pub scan_pair : Option ℕ → ℕ → ℕ × Option ℕ → ℕ × Option ℕ
scan_pair none i (best, bi) = (best, bi)
scan_pair (some k) i (best, bi) = if ltb k best then (k, some i) else (best, bi)

unfoldable pub scan_pairs : Tables → ℕ → ℕ × Option ℕ → List Bytes → ℕ × Option ℕ
scan_pairs tb i best [] = best
scan_pairs tb i best (p ∷ []) = best
scan_pairs tb i best (p ∷ (q ∷ ps)) =
    scan_pairs tb (suc i) (scan_pair (merge_rank tb p q) i best) (q ∷ ps)

-- `parts[bi] += parts[bi + 1]; parts.erase(parts.begin() + bi + 1)`
unfoldable pub merge_at : ℕ → List Bytes → List Bytes
merge_at i [] = []
merge_at i (p ∷ []) = p ∷ []
merge_at zero (p ∷ (q ∷ ps)) = (p ++ q) ∷ ps
merge_at (suc i) (p ∷ (q ∷ ps)) = p ∷ merge_at i (q ∷ ps)

-- The `while`, with fuel for its rounds.
abbrev pub merge_next : Option ℕ → List Bytes → (List Bytes → List Bytes) → List Bytes
merge_next none parts next = parts
merge_next (some bi) parts next = next (merge_at bi parts)

unfoldable pub merge_loop : Tables → ℕ → List Bytes → List Bytes
unfolding scan_pairs merge_at
merge_loop tb zero parts = parts
merge_loop tb (suc fuel) parts =
    if ltb 1 (length parts)
    then merge_next (scan_pairs tb 0 (int_max, none) parts).1 parts (λ ps. merge_loop tb fuel ps)
    else parts

-- The tokens of a part, and those of its characters where it has none.
abbrev pub push_id : Option ℕ → List ℕ → List ℕ
push_id none ids = ids
push_id (some i) ids = i ∷ ids

unfoldable pub emit_chars : Tables → List Bytes → List ℕ
unfolding tok2id
emit_chars tb [] = []
emit_chars tb (u ∷ us) = push_id (tok2id tb u) (emit_chars tb us)

abbrev pub emit_part : Option ℕ → List ℕ → List ℕ
emit_part none fallback = fallback
emit_part (some i) fallback = i ∷ []

unfoldable pub emit_parts : Tables → List Bytes → List ℕ
unfolding tok2id emit_chars
emit_parts tb [] = []
emit_parts tb (p ∷ ps) = emit_part (tok2id tb p) (emit_chars tb (utf8_chars p)) ++ emit_parts tb ps

unfoldable pub bpe_short : Tables → Bytes → List ℕ
unfolding merge_loop emit_parts
bpe_short tb word = emit_parts tb (merge_loop tb (length word) (map b2u word))

abbrev pub word_cap : ℕ
word_cap = 1024

-- The chunks of a long word, with fuel for the rounds of the `for`.
unfoldable pub bpe_chunks : Tables → ℕ → Bytes → List ℕ
unfolding bpe_short
bpe_chunks tb zero word = []
bpe_chunks tb (suc fuel) [] = []
bpe_chunks tb (suc fuel) (c ∷ word) =
    bpe_short tb (take word_cap (c ∷ word)) ++ bpe_chunks tb fuel (drop word_cap (c ∷ word))

unfoldable pub bpe_word : Tables → Bytes → List ℕ
unfolding bpe_chunks
bpe_word tb word =
    if ltb word_cap (length word) then bpe_chunks tb (length word) word else bpe_short tb word

-- The bytes of characters; those that are no image of a byte are left out.
abbrev pub push_byte : Option ℕ → Bytes → Bytes
push_byte none s = s
push_byte (some b) s = b ∷ s

unfoldable pub decode_chars : List Bytes → Bytes
decode_chars [] = []
decode_chars (u ∷ us) = push_byte (u2b u) (decode_chars us)

unfoldable pub decode_one : Tables → ℤ → Bytes
unfolding decode_chars
decode_one tb (negsuc i) = []
decode_one tb (pos i) =
    if leb (length tb.tokens) i
    then []
    else if get_or tb.types i 0 == 3
    then []
    else decode_chars (utf8_chars (get_or tb.tokens i []))

unfoldable pub decode : Tables → List ℤ → Bytes
unfolding decode_one
decode tb [] = []
decode tb (i ∷ ids) = decode_one tb i ++ decode tb ids
