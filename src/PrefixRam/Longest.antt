-- ===== src/PrefixRam/Longest.antt =====
-- What `find` answers, and what it does to the list.
use q.Prelude.{
  ℕ, ◌≤◌, ◌<◌, true, false, Option, none, some, List, [], ◌∷◌, bytes_eq, bytes_eq_iff, length, take,
  leb, is_empty, Among, ◌≡◌, ◌≢◌, refl, sym, subst, arith, inl, inr, ◌⊎◌, ◌↔◌, if_intro, not, ◌&&◌,
}
use q.PrefixRam.{Blob, fits, better, best_of}

-- The blob is published, and the prompt goes on from its tokens.
pub record Fits (prompt : List ℕ) (b : Blob) : Type 0 where
  pub published : b.toks ≢ []
  pub strict : length b.toks < length prompt
  pub same : b.toks ≡ take (length b.toks) prompt

nonempty : (l : List ℕ) → is_empty l ≡ false → l ≢ []
nonempty [] h e = absurd (cc)
nonempty (x ∷ l) h e = absurd (cc)

is_empty-false : (l : List ℕ) → l ≢ [] → is_empty l ≡ false
is_empty-false [] h = absurd (h refl)
is_empty-false (x ∷ l) h = refl

fits_iff : (prompt : List ℕ) (b : Blob) → (fits prompt b ≡ true) ↔ Fits prompt b
unfolding fits
fits_iff prompt b = (
  λ h.
      let same : bytes_eq b.toks (take (length b.toks) prompt) ≡ true = ground arith in
      record {
        published = nonempty b.toks (ground arith);
        strict = ground arith;
        same = (bytes_eq_iff _ _).0 same;
      },
  λ f.
      let same = (bytes_eq_iff _ _).1 f.same in
      let some_tok = is_empty-false b.toks f.published in let strict = f.strict in ground arith,
)

-- A round of the scan keeps the best, or takes the blob.
Turn : List ℕ → Option Blob → Blob → Option Blob → Type 0
Turn prompt best c next =
    ((next ≡ best)
      × (Fits prompt c → (a : Blob) × (best ≡ some a) × (length c.toks ≤ length a.toks)))
    ⊎ ((next ≡ some c)
        × Fits prompt c
        × ((a : Blob) → best ≡ some a → length a.toks ≤ length c.toks))

better-Turn :
    (prompt : List ℕ) (best : Option Blob) (c : Blob) → Turn prompt best c (better prompt best c)
unfolding better Turn
better-Turn prompt none c =
    if_intro (Turn prompt none c) (fits prompt c)
      (λ h. inr (refl, (fits_iff prompt c).0 h, λ a e. absurd (cc)))
      (λ h. inl (refl, λ f. let g = (fits_iff prompt c).1 f in absurd (cc)))
better-Turn prompt (some b) c =
    if_intro (Turn prompt (some b) c) (not (leb (length c.toks) (length b.toks)) && fits prompt c)
      (λ h.
        let f : fits prompt c ≡ true = ground arith in
        let longer : length b.toks ≤ length c.toks = ground arith in
        inr (
          refl,
          (fits_iff prompt c).0 f,
          λ a e.
              let same : b ≡ a = cc in
              subst (λ (x : Blob). length x.toks ≤ length c.toks) same longer,
        ))
      (λ h. inl (refl, λ f. let g = (fits_iff prompt c).1 f in (b, refl, ground arith)))

-- What a scan gives, from the best so far on.
unfoldable pub GoesUp : List ℕ → Option Blob → List Blob → Option Blob → Type 0
GoesUp prompt best bs none = (best ≡ none) × ((x : Blob) → Among x bs → ¬ Fits prompt x)
GoesUp prompt best bs (some b) =
    ((best ≡ some b) ⊎ (Among b bs × Fits prompt b))
    × ((x : Blob) → Among x bs → Fits prompt x → length x.toks ≤ length b.toks)
    × ((a : Blob) → best ≡ some a → length a.toks ≤ length b.toks)

kept-GoesUp :
    (prompt : List ℕ) (best : Option Blob) (c : Blob) (cs : List Blob) (o : Option Blob)
    → (Fits prompt c → (a : Blob) × (best ≡ some a) × (length c.toks ≤ length a.toks))
    → GoesUp prompt best cs o
    → GoesUp prompt best (c ∷ cs) o
unfolding GoesUp
kept-GoesUp prompt best c cs none low g = (
  g.0,
  λ x a f. elim a [
    | inl e ↦
        let (y, is, h) = low (subst (Fits prompt) (sym e) f) in let none_is = g.0 in absurd (cc)
    | inr r ↦ g.1 x r f
  ],
)
kept-GoesUp prompt best c cs (some b) low g = (
  elim g.0 [ inl e ↦ inl e | inr r ↦ inr (inr r.0, r.1) ],
  λ x a f. elim a [
    | inl e ↦
        let (y, is, h) = low (subst (Fits prompt) (sym e) f) in
        let up = g.2 y is in subst (λ (z : Blob). length z.toks ≤ length b.toks) e (omega arith)
    | inr r ↦ g.1 x r f
  ],
  g.2,
)

taken-GoesUp :
    (prompt : List ℕ) (best : Option Blob) (c : Blob) (cs : List Blob) (o : Option Blob)
    → Fits prompt c
    → ((a : Blob) → best ≡ some a → length a.toks ≤ length c.toks)
    → GoesUp prompt (some c) cs o
    → GoesUp prompt best (c ∷ cs) o
unfolding GoesUp
taken-GoesUp prompt best c cs none f low g = let e = g.0 in absurd (cc)
taken-GoesUp prompt best c cs (some b) f low g = (
  elim g.0 [
    | inl e ↦ let same : c ≡ b = cc in inr (inl same, subst (Fits prompt) same f)
    | inr r ↦ inr (inr r.0, r.1)
  ],
  λ x a h. elim a [
    | inl e ↦ subst (λ (z : Blob). length z.toks ≤ length b.toks) e (g.2 c refl)
    | inr r ↦ g.1 x r h
  ],
  λ a e. omega (arith, g.2 c refl, low a e),
)

pub best_of-GoesUp :
    (prompt : List ℕ) (best : Option Blob) (bs : List Blob)
    → GoesUp prompt best bs (best_of prompt best bs)
unfolding best_of GoesUp Turn
best_of-GoesUp prompt none [] = (refl, λ x a. absurd a)
best_of-GoesUp prompt (some b) [] = (
  inl refl,
  λ x a. absurd a,
  λ a e.
      let same : b ≡ a = cc in
      subst (λ (z : Blob). length z.toks ≤ length b.toks) same (omega arith),
)
best_of-GoesUp prompt best (c ∷ cs) = elim (better-Turn prompt best c) [
  | inl (is, low) ↦ kept-GoesUp prompt best c cs (best_of prompt (better prompt best c) cs) low (
      subst (λ t. GoesUp prompt t cs (best_of prompt (better prompt best c) cs)) is
        (best_of-GoesUp prompt (better prompt best c) cs))
  | inr (is, f, low) ↦
      taken-GoesUp prompt best c cs (best_of prompt (better prompt best c) cs) f low (
        subst (λ t. GoesUp prompt t cs (best_of prompt (better prompt best c) cs)) is
          (best_of-GoesUp prompt (better prompt best c) cs))
]
