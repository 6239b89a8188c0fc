-- ===== src/Toolgram/Signature/Decimal.antt =====
-- `std::to_string` of a size, and that it can be read back.
use q.Prelude.{
  ℕ, zero, suc, ◌+◌, ◌-◌, ◌*◌, ◌/◌, ◌%◌, ◌<◌, Bool-cases, [], ◌∷◌, ◌++◌, ltb, if◌then◌else◌, Bytes,
  ◌≡◌, refl, ap, sym, ◌∙◌, inl, inr, arith, Without, ◌≢◌,
}

-- The decimal digits; a number has fewer digits than the fuel `n + 1`.
unfoldable pub digits : ℕ → ℕ → Bytes
digits zero n = []
digits (suc f) n =
    let more = digits f (n / 10) in
    if ltb n 10 then (b'0' + n) ∷ [] else more ++ (b'0' + n % 10) ∷ []

unfoldable pub to_string : ℕ → Bytes
unfolding digits
to_string n = digits (suc n) n

value : ℕ → Bytes → ℕ
value acc [] = acc
value acc (c ∷ s) = value (acc * 10 + (c - b'0')) s

value-append : (acc : ℕ) (s t : Bytes) → value acc (s ++ t) ≡ value (value acc s) t
unfolding value
value-append acc [] t = refl
value-append acc (c ∷ s) t = value-append (acc * 10 + (c - b'0')) s t

value-digits : (f n : ℕ) → n < f → value 0 (digits f n) ≡ n
unfolding value digits
value-digits zero n h = elim h [ ]
value-digits (suc f) n h = elim (Bool-cases (ltb n 10)) [
  | inl small ↦ rw small (omega arith)
  | inr large ↦
      let big : 10 < suc n = ground arith in
      rw
        (
          large,
          value-append 0 (digits f (n / 10)) ((b'0' + n % 10) ∷ []),
          value-digits f (n / 10) (omega arith),
        )
        (omega arith)
]

pub to_string-injective : (m n : ℕ) → to_string m ≡ to_string n → m ≡ n
unfolding to_string
to_string-injective m n e =
    sym (value-digits (suc m) m (omega arith))
    ∙ ap (value 0) e
    ∙ value-digits (suc n) n (omega arith)

Without-snoc : (c d : ℕ) (s : Bytes) → Without c s → c ≢ d → Without c (s ++ d ∷ [])
Without-snoc c d [] h ne = (ne, tt)
Without-snoc c d (x ∷ s) h ne = (h.0, Without-snoc c d s h.1 ne)

bar-Without-digits : (f n : ℕ) → Without b'|' (digits f n)
unfolding digits
bar-Without-digits zero n = tt
bar-Without-digits (suc f) n = elim (Bool-cases (ltb n 10)) [
  | inl small ↦ let short : n < 10 = ground arith in rw small (omega arith, tt)
  | inr large ↦ rw large (
      Without-snoc b'|' (b'0' + n % 10) (digits f (n / 10)) (bar-Without-digits f (n / 10))
        (omega arith))
]

-- No digit is a bar.
pub bar-Without-to_string : (n : ℕ) → Without b'|' (to_string n)
unfolding to_string
bar-Without-to_string n = bar-Without-digits (suc n) n
