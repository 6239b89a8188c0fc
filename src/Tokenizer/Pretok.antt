-- ===== src/Tokenizer/Pretok.antt =====
-- `Tokenizer::pretokenize`: cuts a text into words, before the merges.
pub mod Pieces
use q.Prelude.{
  ℕ, zero, suc, ◌+◌, ◌-◌, Bool, true, false, not, ◌&&◌, ◌||◌, Option, none, some, List, [], ◌∷◌,
  ltb, leb, ◌==◌, if◌then◌else◌, Bytes, length, take, drop,
}

abbrev pub is_alpha : ℕ → Bool
is_alpha c = leb 65 c && leb c 90 || leb 97 c && leb c 122

-- The classes of a byte: `is_l`, `is_d`, `is_sp`, `is_nl`.
abbrev pub is_l : ℕ → Bool
is_l c = is_alpha c || leb 128 c

abbrev pub is_d : ℕ → Bool
is_d c = leb 48 c && leb c 57

abbrev pub is_sp : ℕ → Bool
is_sp c = c == 32 || leb 9 c && leb c 13

abbrev pub is_nl : ℕ → Bool
is_nl c = c == 13 || c == 10

abbrev pub is_other : ℕ → Bool
is_other c = not (is_sp c) && not (is_l c) && not (is_d c)

-- The class test at the front of a rest, `false` at the end of the text (`j < n &&`).
abbrev pub front : (ℕ → Bool) → Bytes → Bool
front p [] = false
front p (c ∷ s) = p c

-- `while (p(k)) k++`
unfoldable pub run : (ℕ → Bool) → Bytes → ℕ
run p [] = 0
run p (c ∷ s) = let k = run p s in if p c then suc k else 0

abbrev pub to_lower : ℕ → ℕ
to_lower c = if leb 65 c && leb c 90 then c + 32 else c

abbrev pub lower_front : Bytes → ℕ
lower_front [] = 0
lower_front (c ∷ s) = to_lower c

-- The cases of the loop's body, each with the number of bytes that it takes off the rest, or
-- `none` where the next case is tried.
abbrev pub contraction : Bytes → Option ℕ
contraction [] = none
contraction (c1 ∷ s) =
    let c1 = to_lower c1 in
    let c2 = lower_front s in
    if c1 == b's' || c1 == b't' || c1 == b'm' || c1 == b'd'
    then some 2
    else if (c1 == b'r' && c2 == b'e') || (c1 == b'v' && c2 == b'e') || (c1 == b'l' && c2 == b'l')
    then some 3
    else none

abbrev pub take_contraction : ℕ → Bytes → Option ℕ
take_contraction c s = if c == 39 then contraction s else none

abbrev pub take_letters : ℕ → Bytes → Option ℕ
take_letters c s =
    if not (is_nl c) && not (is_l c) && not (is_d c) && front is_l s
    then some (suc (run is_l s))
    else if is_l c
    then some (run is_l (c ∷ s))
    else none

abbrev pub take_digit : ℕ → Option ℕ
take_digit c = if is_d c then some 1 else none

-- A run of other bytes and the line breaks behind it.
abbrev pub other_run : Bytes → ℕ
other_run s = run is_other s + run is_nl (drop (run is_other s) s)

abbrev pub take_other : ℕ → Bytes → Option ℕ
take_other c s =
    if c == 32 && front is_other s
    then some (suc (other_run s))
    else if is_other c
    then some (other_run (c ∷ s))
    else none

abbrev pub blank : ℕ → Bool
blank c = is_sp c && not (is_nl c)

abbrev pub take_breaks : Bytes → Option ℕ
take_breaks s =
    if front is_nl (drop (run blank s) s)
    then some (run blank s + run is_nl (drop (run blank s) s))
    else none

abbrev pub take_spaces : ℕ → Bytes → Option ℕ
take_spaces c s =
    if is_sp c
    then some (let k = run is_sp (c ∷ s) in if ltb k (length (c ∷ s)) && ltb 1 k then k - 1 else k)
    else none

-- The first case that fits, and one byte if none does.
infix 20 ◌orelse◌
abbrev pub ◌orelse◌ : Option ℕ → Option ℕ → Option ℕ
(some k) orelse o = some k
none orelse o = o

abbrev pub or_one : Option ℕ → ℕ
or_one none = 1
or_one (some k) = k

unfoldable pub piece_len : ℕ → Bytes → ℕ
unfolding run
piece_len c s = or_one (
    take_contraction c s orelse (
      take_letters c s orelse (
        take_digit c orelse (take_other c s orelse (take_breaks (c ∷ s) orelse take_spaces c s)))))

-- The loop, with fuel for its rounds.
unfoldable pub pretok_loop : ℕ → Bytes → List Bytes
unfolding piece_len
pretok_loop zero s = []
pretok_loop (suc fuel) [] = []
pretok_loop (suc fuel) (c ∷ s) =
    let k = piece_len c s in take k (c ∷ s) ∷ pretok_loop fuel (drop k (c ∷ s))

unfoldable pub pretokenize : Bytes → List Bytes
unfolding pretok_loop
pretokenize s = pretok_loop (length s) s
