-- ===== src/Suffix/Index.antt =====
-- The index holds positions of the stream only.
use q.Prelude.{
  length-drop, ℕ, zero, suc, ◌+◌, ◌-◌, ◌≤◌, ◌<◌, List, [], ◌∷◌, ◌++◌, ◌≡◌, refl, sym, ap, arith,
  ltb, leb, ◌==◌, length, length-append, drop, Bool-cases, inl, inr, subst,
}
use q.Suffix.{SuffixDraft, ng, max_cand, cap_cands, push_pos, index_pos, index_from, reset, append}

-- All positions are the end of a 4-gram of the first `n` tokens.
abbrev pub Ends : ℕ → List ℕ → Type 0
Ends n [] = Unit
Ends n (p ∷ ps) = (3 ≤ p) × (p < n) × Ends n ps

abbrev pub AllEnds : ℕ → List (ℕ × List ℕ) → Type 0
AllEnds n [] = Unit
AllEnds n ((k, v) ∷ rows) = Ends n v × (length v ≤ max_cand) × AllEnds n rows

abbrev pub InBounds : SuffixDraft → Type 0
InBounds d = AllEnds (length d.t) d.idx

Ends-append : (n : ℕ) (v : List ℕ) (i : ℕ) → Ends n v → 3 ≤ i → i < n → Ends n (v ++ i ∷ [])
Ends-append n [] i e ge lt = (ge, lt, tt)
Ends-append n (p ∷ v) i e ge lt = (e.0, e.1, Ends-append n v i e.2 ge lt)

Ends-drop : (n : ℕ) (v : List ℕ) → Ends n v → Ends n (drop 1 v)
Ends-drop n [] e = tt
Ends-drop n (p ∷ v) e = e.2

cap_cands-Ends :
    (n : ℕ) (v : List ℕ) (i : ℕ)
    → Ends n v
    → length v ≤ max_cand
    → 3 ≤ i
    → i < n
    → Ends n (cap_cands (v ++ i ∷ [])) × (length (cap_cands (v ++ i ∷ [])) ≤ max_cand)
cap_cands-Ends n v i e few ge lt =
    let grown = length-append v (i ∷ []) in
    let ends = Ends-append n v i e ge lt in go (v ++ i ∷ []) grown ends
  where
    go :
        (w : List ℕ)
        → length w ≡ length v + 1
        → Ends n w
        → Ends n (cap_cands w) × (length (cap_cands w) ≤ max_cand)
    go w grown ends = elim (Bool-cases (ltb max_cand (length w))) [
      | inl f ↦ rw f (Ends-drop n w ends, omega (arith, length-drop 1 w))
      | inr f ↦ rw f (ends, ground arith)
    ]

push_pos-AllEnds :
    (n key i : ℕ) (rows : List (ℕ × List ℕ))
    → AllEnds n rows
    → 3 ≤ i
    → i < n
    → AllEnds n (push_pos key i rows)
unfolding push_pos
push_pos-AllEnds n key i [] h ge lt =
    let (e, few) = cap_cands-Ends n [] i tt (omega arith) ge lt in (e, few, tt)
push_pos-AllEnds n key i ((k, v) ∷ rows) h ge lt = elim (Bool-cases (k == key)) [
  | inl e ↦ let (x, few) = cap_cands-Ends n v i h.0 h.1 ge lt in rw e (x, few, h.2)
  | inr e ↦ rw e (h.0, h.1, push_pos-AllEnds n key i rows h.2 ge lt)
]

Ends-more : (n : ℕ) (v : List ℕ) → Ends n v → Ends (suc n) v
Ends-more n [] h = tt
Ends-more n (p ∷ v) h = (h.0, omega (arith, h.1), Ends-more n v h.2)

AllEnds-more : (n : ℕ) (rows : List (ℕ × List ℕ)) → AllEnds n rows → AllEnds (suc n) rows
AllEnds-more n [] h = tt
AllEnds-more n ((k, v) ∷ rows) h = (Ends-more n v h.0, h.1, AllEnds-more n rows h.2)

index_pos-t : (i : ℕ) (d : SuffixDraft) → (index_pos i d).t ≡ d.t
unfolding index_pos
index_pos-t i d = refl

index_pos-InBounds :
    (i : ℕ) (d : SuffixDraft) → InBounds d → 3 ≤ i → i < length d.t → InBounds (index_pos i d)
unfolding index_pos
index_pos-InBounds i d h ge lt = push_pos-AllEnds (length d.t) _ i d.idx h ge lt

index_from-InBounds :
    (todo i : ℕ) (d : SuffixDraft)
    → InBounds d
    → 3 ≤ i
    → i + todo ≤ length d.t
    → InBounds (index_from todo i d)
unfolding index_from
index_from-InBounds zero i d h ge le = h
index_from-InBounds (suc todo) i d h ge le =
    index_from-InBounds todo (suc i) (index_pos i d) (index_pos-InBounds i d h ge (omega arith))
      (omega arith) (omega (arith, ap length (index_pos-t i d)))

-- After a reset to any prompt every candidate is the last position of a 4-gram within the prompt,
-- and no hash has more than 64 of them.
pub reset-InBounds : (prompt : List ℕ) → InBounds (reset prompt)
unfolding reset
reset-InBounds [] = tt
reset-InBounds (a ∷ []) = tt
reset-InBounds (a ∷ (b ∷ [])) = tt
reset-InBounds (a ∷ (b ∷ (c ∷ prompt))) =
    index_from-InBounds (length (a ∷ (b ∷ (c ∷ prompt))) - 3) 3
      (record { t = a ∷ (b ∷ (c ∷ prompt)); idx = [] }) tt (omega arith) (omega arith)

-- Appending a token keeps the invariant of the index: every candidate is the last position of a
-- 4-gram within the stream, and no hash has more than 64 of them.
pub append-InBounds : (tok : ℕ) (d : SuffixDraft) → InBounds d → InBounds (append tok d)
unfolding append
append-InBounds tok d h = elim (Bool-cases (leb ng (length (d.t ++ tok ∷ [])))) [
  | inl e ↦ rw e (
      index_pos-InBounds (length (d.t ++ tok ∷ []) - 1) grown more (ground arith)
        (ground (arith, longer)))
  | inr e ↦ rw e more
]
  where
    grown : SuffixDraft
    grown = record d { t = d.t ++ tok ∷ [] }

    longer : length (d.t ++ tok ∷ []) ≡ suc (length d.t)
    longer = omega (arith, length-append d.t (tok ∷ []))

    more : InBounds grown
    more = subst (λ n. AllEnds n d.idx) (sym longer) (AllEnds-more (length d.t) d.idx h)
