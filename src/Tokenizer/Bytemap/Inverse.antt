-- ===== src/Tokenizer/Bytemap/Inverse.antt =====
-- The byte map is invertible, and its characters are found again in a text of them.
use q.Prelude.{
  ==_iff, joins, length-append, ap, ap₂, ◌∙◌, take-length_add, drop-length_add, append-nil, ℕ, zero,
  suc, ◌+◌, ◌≤◌, ◌<◌, Bool, true, false, ◌&&◌, Option, none, some, [], ◌∷◌, ◌++◌, Bytes, length,
  take, drop, ◌≡◌, refl, arith, map, ◌==◌,
}
use q.Tokenizer.Bytemap.{b2u, u2b, char_len, chars_loop, utf8_chars}

-- A test of all numbers below `n`.
unfoldable pub all_below : ℕ → (ℕ → Bool) → Bool
all_below zero p = true
all_below (suc n) p = p n && all_below n p

pub all_below-elim : (n : ℕ) (p : ℕ → Bool) (b : ℕ) → all_below n p ≡ true → b < n → p b ≡ true
unfolding all_below
all_below-elim zero p b h lt = absurd (omega arith)
all_below-elim (suc n) p b h lt = ground (arith, all_below-elim n p b)

abbrev is_some : Option ℕ → ℕ → Bool
is_some none b = false
is_some (some a) b = a == b

abbrev maps_back : ℕ → Bool
maps_back b = is_some (u2b (b2u b)) b

abbrev short_char : Bytes → Bool
short_char [] = false
short_char (x ∷ s) = (char_len x == length (x ∷ s))

checked : all_below 256 maps_back ≡ true
unfolding all_below u2b
checked = refl

checked_len : all_below 256 (λ b. short_char (b2u b)) ≡ true
unfolding all_below b2u
checked_len = refl

pub u2b-b2u : (b : ℕ) → b < 256 → u2b (b2u b) ≡ some b
u2b-b2u b lt = go (u2b (b2u b)) (all_below-elim 256 maps_back b checked lt)
  where
    go : (o : Option ℕ) → is_some o b ≡ true → o ≡ some b
    go none h = absurd (ground arith)
    go (some a) h = ground arith

-- Every byte is below 256.
abbrev pub AllBytes : Bytes → Type 0
AllBytes [] = Unit
AllBytes (b ∷ s) = (b < 256) × AllBytes s

b2u-short : (b : ℕ) → b < 256 → short_char (b2u b) ≡ true
b2u-short b lt = all_below-elim 256 (λ a. short_char (b2u a)) b checked_len lt

chars_loop-char :
    (u rest : Bytes) (fuel : ℕ)
    → short_char u ≡ true
    → chars_loop (suc fuel) (u ++ rest) ≡ u ∷ chars_loop fuel rest
unfolding chars_loop
chars_loop-char [] rest fuel h = absurd (ground arith)
chars_loop-char (x ∷ u) rest fuel h =
    let e : char_len x ≡ length (x ∷ u) + 0 =
      omega (arith, (==_iff (char_len x) (length (x ∷ u))).0 h) in
    rw e (
      ap₂ (λ a b. a ∷ chars_loop fuel b) (take-length_add 0 (x ∷ u) rest ∙ append-nil _)
        (drop-length_add 0 (x ∷ u) rest))

chars_loop-b2u :
    (w : Bytes) (fuel : ℕ)
    → AllBytes w
    → length w ≤ fuel
    → chars_loop fuel (joins (map b2u w)) ≡ map b2u w
unfolding chars_loop
chars_loop-b2u [] zero a le = refl
chars_loop-b2u [] (suc fuel) a le = refl
chars_loop-b2u (b ∷ w) zero a le = absurd (omega arith)
chars_loop-b2u (b ∷ w) (suc fuel) a le =
    chars_loop-char (b2u b) (joins (map b2u w)) fuel (b2u-short b a.0)
    ∙ ap (◌∷◌ (b2u b)) (chars_loop-b2u w fuel a.1 (omega arith))

joins-longer : (w : Bytes) → AllBytes w → length w ≤ length (joins (map b2u w))
joins-longer [] a = omega arith
joins-longer (b ∷ w) a = go (b2u b) (b2u-short b a.0) (joins-longer w a.1)
  where
    go :
        (u : Bytes)
        → short_char u ≡ true
        → length w ≤ length (joins (map b2u w))
        → suc (length w) ≤ length (u ++ joins (map b2u w))
    go [] h le = absurd (ground arith)
    go (x ∷ u) h le = omega (arith, length-append (x ∷ u) (joins (map b2u w)))

-- The characters of mapped bytes are their images, one by one.
pub utf8_chars-b2u : (w : Bytes) → AllBytes w → utf8_chars (joins (map b2u w)) ≡ map b2u w
unfolding utf8_chars
utf8_chars-b2u w a = chars_loop-b2u w (length (joins (map b2u w))) a (joins-longer w a)

pub AllBytes-take : (n : ℕ) (s : Bytes) → AllBytes s → AllBytes (take n s)
AllBytes-take zero s a = tt
AllBytes-take (suc n) [] a = tt
AllBytes-take (suc n) (c ∷ s) a = (a.0, AllBytes-take n s a.1)

pub AllBytes-drop : (n : ℕ) (s : Bytes) → AllBytes s → AllBytes (drop n s)
AllBytes-drop zero s a = a
AllBytes-drop (suc n) [] a = tt
AllBytes-drop (suc n) (c ∷ s) a = AllBytes-drop n s a.1

pub AllBytes-split : (a b : Bytes) → AllBytes (a ++ b) → AllBytes a × AllBytes b
AllBytes-split [] b h = (tt, h)
AllBytes-split (c ∷ a) b h = let (x, y) = AllBytes-split a b h.1 in ((h.0, x), y)

pub AllBytes-append : (v w : Bytes) → AllBytes v → AllBytes w → AllBytes (v ++ w)
AllBytes-append [] w a b = b
AllBytes-append (c ∷ v) w a b = (a.0, AllBytes-append v w a.1 b)
