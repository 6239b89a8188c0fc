-- ===== src/Toolgram/Reads/Numbers.antt =====
-- A number, which ends only when the byte behind it is read.
use q.Prelude.{
  ℕ, ◌+◌, ◌<◌, Bool, true, false, List, [], ◌∷◌, ◌++◌, ◌≡◌, ◌≢◌, ◌⊎◌, inl, inr, refl, ◌∙◌, arith,
}
use q.Toolgram.State.{Grammar, St}
use q.Toolgram.Step.{
  is_num_end, step_j_value, step_j_value_req, step_num_minus, step_num_zero, step_num_int,
  step_num_frac, step_num_e, step_num_exp, step_after_val,
}
use q.Toolgram.Machine.{step_in, advance_str}
use q.Toolgram.Json.{
  Digit, digits, digit_text, Whole, whole, Fraction, fraction_text, Sign, sign, Exponent,
  exponent_text, Number, minus_text, number,
}
use q.Toolgram.Reads.{advance_str-append, advance_str-cons}

-- A value may start here.
abbrev pub WantsValue : Grammar → Type 0
WantsValue g = (g.stack ≢ []) × ((g.st ≡ St.j_value) ⊎ (g.st ≡ St.j_value_req))

abbrev pub after_whole : Whole → St
after_whole Whole.nought = St.j_num_zero
after_whole (Whole.leading d h ds) = St.j_num_int

abbrev pub after_fraction : Fraction → St → St
after_fraction Fraction.no_fraction s = s
after_fraction (Fraction.fraction d ds) s = St.j_num_frac

abbrev pub after_exponent : Exponent → St → St
after_exponent Exponent.no_exponent s = s
after_exponent _ s = St.j_num_exp

abbrev loops : St → Bool
loops St.j_num_int = true
loops St.j_num_frac = true
loops St.j_num_exp = true
loops _ = false

step_in-digit :
    (s : St) (g : Grammar) (d : Digit) → loops s ≡ true → step_in s g (digit_text d) ≡ (g, true)
unfolding step_in step_num_int step_num_frac step_num_exp
step_in-digit St.j_num_int g (Digit.digit d lt) h = ground arith
step_in-digit _ g (Digit.digit d lt) h = ground arith

advance_str-digits :
    (ds : List Digit) (g : Grammar)
    → g.dead ≡ false
    → loops g.st ≡ true
    → advance_str g (digits ds) ≡ (g, true)
unfolding advance_str
advance_str-digits [] g d h = refl
advance_str-digits (w ∷ ws) g d h =
    ground (arith, step_in-digit g.st g w h, advance_str-digits ws g d h)

step_in_minus :
    (g : Grammar) → WantsValue g → step_in g.st g b'-' ≡ (record g { st = St.j_num_minus }, true)
unfolding step_in step_j_value step_j_value_req
step_in_minus g (ne, inl e) = ground arith
step_in_minus g (ne, inr e) = ground arith

step_in_nought :
    (g : Grammar)
    → WantsValue g ⊎ (g.st ≡ St.j_num_minus)
    → step_in g.st g b'0' ≡ (record g { st = St.j_num_zero }, true)
unfolding step_in step_j_value step_j_value_req step_num_minus
step_in_nought g (inl (ne, inl e)) = ground arith
step_in_nought g (inl (ne, inr e)) = ground arith
step_in_nought g (inr e) = ground arith

step_in_leading :
    (g : Grammar) (d : ℕ)
    → d < 9
    → WantsValue g ⊎ (g.st ≡ St.j_num_minus)
    → step_in g.st g (b'1' + d) ≡ (record g { st = St.j_num_int }, true)
unfolding step_in step_j_value step_j_value_req step_num_minus
step_in_leading g d lt (inl (ne, inl e)) = ground arith
step_in_leading g d lt (inl (ne, inr e)) = ground arith
step_in_leading g d lt (inr e) = ground arith

advance_str-whole :
    (w : Whole) (g : Grammar)
    → g.dead ≡ false
    → WantsValue g ⊎ (g.st ≡ St.j_num_minus)
    → advance_str g (whole w) ≡ (record g { st = after_whole w }, true)
advance_str-whole Whole.nought g d h =
    advance_str-cons b'0' [] g _ d (step_in_nought g h) ∙ unfold advance_str in refl
advance_str-whole (Whole.leading x lt ds) g d h =
    advance_str-cons (b'1' + x) (digits ds) g _ d (step_in_leading g x lt h)
    ∙ advance_str-digits ds _ d refl

advance_str-fraction :
    (f : Fraction) (g : Grammar)
    → g.dead ≡ false
    → (g.st ≡ St.j_num_zero) ⊎ (g.st ≡ St.j_num_int)
    → advance_str g (fraction_text f) ≡ (record g { st = after_fraction f g.st }, true)
unfolding advance_str step_num_zero step_num_int
advance_str-fraction Fraction.no_fraction g d h = refl
advance_str-fraction (Fraction.fraction (Digit.digit x lt) ds) g d (inl h) =
    ground (arith, advance_str-digits ds (record g { st = St.j_num_frac }) d refl)
advance_str-fraction (Fraction.fraction (Digit.digit x lt) ds) g d (inr h) =
    ground (arith, advance_str-digits ds (record g { st = St.j_num_frac }) d refl)

-- A state in which a value has been read, or a number that may end here.
abbrev pub ended : St → Bool
ended St.j_after_val = true
ended St.j_num_zero = true
ended St.j_num_int = true
ended St.j_num_frac = true
ended St.j_num_exp = true
ended _ = false

abbrev takes_exponent : St → Bool
takes_exponent St.j_num_zero = true
takes_exponent St.j_num_int = true
takes_exponent St.j_num_frac = true
takes_exponent _ = false

advance_str-exponent_digits :
    (s : Sign) (x : Digit) (ds : List Digit) (g : Grammar)
    → g.dead ≡ false
    → g.st ≡ St.j_num_e
    → advance_str g (sign s ++ (digit_text x ∷ digits ds)) ≡ (record g { st = St.j_num_exp }, true)
unfolding advance_str step_num_e
advance_str-exponent_digits Sign.unsigned (Digit.digit x lt) ds g d h =
    ground (arith, advance_str-digits ds (record g { st = St.j_num_exp }) d refl)
advance_str-exponent_digits Sign.plus (Digit.digit x lt) ds g d h =
    ground (arith, advance_str-digits ds (record g { st = St.j_num_exp }) d refl)
advance_str-exponent_digits Sign.minus (Digit.digit x lt) ds g d h =
    ground (arith, advance_str-digits ds (record g { st = St.j_num_exp }) d refl)

step_in_e :
    (s : St) (g : Grammar)
    → takes_exponent s ≡ true
    → (step_in s g b'e' ≡ (record g { st = St.j_num_e }, true))
      × (step_in s g b'E' ≡ (record g { st = St.j_num_e }, true))
unfolding step_in step_num_zero step_num_int step_num_frac
step_in_e St.j_num_zero g h = ground arith
step_in_e _ g h = ground arith

advance_str-exponent :
    (e : Exponent) (g : Grammar)
    → g.dead ≡ false
    → takes_exponent g.st ≡ true
    → advance_str g (exponent_text e) ≡ (record g { st = after_exponent e g.st }, true)
advance_str-exponent Exponent.no_exponent g d h = unfold advance_str in refl
advance_str-exponent (Exponent.small_e s x ds) g d h =
    advance_str-cons b'e' _ g _ d (step_in_e g.st g h).0
    ∙ advance_str-exponent_digits s x ds (record g { st = St.j_num_e }) d refl
advance_str-exponent (Exponent.big_e s x ds) g d h =
    advance_str-cons b'E' _ g _ d (step_in_e g.st g h).1
    ∙ advance_str-exponent_digits s x ds (record g { st = St.j_num_e }) d refl

abbrev pub after_number : Number → St
after_number n = after_exponent n.exp_part (after_fraction n.frac_part (after_whole n.int_part))

takes_exponent-after :
    (w : Whole) (f : Fraction) → takes_exponent (after_fraction f (after_whole w)) ≡ true
takes_exponent-after Whole.nought Fraction.no_fraction = refl
takes_exponent-after (Whole.leading d h ds) Fraction.no_fraction = refl
takes_exponent-after w (Fraction.fraction d ds) = refl

after_whole-cases : (w : Whole) → (after_whole w ≡ St.j_num_zero) ⊎ (after_whole w ≡ St.j_num_int)
after_whole-cases Whole.nought = inl refl
after_whole-cases (Whole.leading d h ds) = inr refl

pub after_number-ended : (n : Number) → ended (after_number n) ≡ true
after_number-ended n = go n.int_part n.frac_part n.exp_part
  where
    go :
        (w : Whole) (f : Fraction) (e : Exponent)
        → ended (after_exponent e (after_fraction f (after_whole w))) ≡ true
    go Whole.nought Fraction.no_fraction Exponent.no_exponent = refl
    go (Whole.leading d h ds) Fraction.no_fraction Exponent.no_exponent = refl
    go w (Fraction.fraction d ds) Exponent.no_exponent = refl
    go w f (Exponent.small_e s x ds) = refl
    go w f (Exponent.big_e s x ds) = refl

-- The number without its sign.
advance_str-unsigned :
    (w : Whole) (f : Fraction) (e : Exponent) (g : Grammar)
    → g.dead ≡ false
    → WantsValue g ⊎ (g.st ≡ St.j_num_minus)
    → advance_str g (whole w ++ (fraction_text f ++ exponent_text e))
      ≡ (record g { st = after_exponent e (after_fraction f (after_whole w)) }, true)
advance_str-unsigned w f e g d h =
    advance_str-append (whole w) _ g _ (advance_str-whole w g d h)
    ∙ advance_str-append (fraction_text f) _ _ _
        (advance_str-fraction f (record g { st = after_whole w }) d (after_whole-cases w))
    ∙ advance_str-exponent e (record g { st = after_fraction f (after_whole w) }) d
        (takes_exponent-after w f)

pub advance_str-number :
    (n : Number) (g : Grammar)
    → g.dead ≡ false
    → WantsValue g
    → advance_str g (number n) ≡ (record g { st = after_number n }, true)
advance_str-number n g d h = go n.negative
  where
    go :
        (b : Bool)
        → advance_str g (
            minus_text b
            ++ (whole n.int_part ++ (fraction_text n.frac_part ++ exponent_text n.exp_part)))
          ≡ (record g { st = after_number n }, true)
    go true =
        advance_str-cons b'-' _ g _ d (step_in_minus g h)
        ∙ advance_str-unsigned n.int_part n.frac_part n.exp_part (record g { st = St.j_num_minus })
            d (inr refl)
    go false = advance_str-unsigned n.int_part n.frac_part n.exp_part g d (inl h)

-- The byte that ends a number does what it does after any other value.
pub step_in-ended :
    (s : St) (g : Grammar) (c : ℕ)
    → g.st ≡ s
    → ended s ≡ true
    → is_num_end c ≡ true
    → step_in s g c ≡ step_after_val (record g { st = St.j_after_val }) c
unfolding step_in step_num_zero step_num_int step_num_frac step_num_exp
step_in-ended St.j_after_val g c e h k = ground arith
step_in-ended _ g c e h k = ground arith
