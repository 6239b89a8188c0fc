-- ===== src/Tokenizer/Bpe/Exhausted.antt =====
-- Where the scan for the next merge finds nothing, no pair could be merged.
use q.Prelude.{
  Bool-cases, subst, ℕ, zero, suc, ◌≤◌, ◌<◌, Bool, true, false, Option, none, some, List, [], ◌∷◌,
  ◌++◌, ◌≡◌, ◌≢◌, inl, inr, refl, ap, arith, Bytes, length, length-append, get_elem?, bytes_eq,
  bytes_eq_iff, ltb, if◌then◌else◌,
}
use q.Tokenizer.Bpe.{Tables, place, merge_rank, scan_pair, scan_pairs, int_max}

-- The first place of a text in a list is no later than any place of it.
pub place-get :
    (s : Bytes) (ts : List Bytes) (k : ℕ)
    → get_elem? ts k ≡ some s
    → (j : ℕ) × (place s ts ≡ some j) × (j ≤ k)
unfolding place
place-get s [] k h = absurd (cc)
place-get s (t ∷ ts) zero h =
    let same : t ≡ s = cc in
    let hit : bytes_eq t s ≡ true = (bytes_eq_iff t s).1 same in (0, ground arith, omega arith)
place-get s (t ∷ ts) (suc k) h =
    let (j, at, le) = place-get s ts k h in
    elim (Bool-cases (bytes_eq t s)) [
      | inl hit ↦ (0, ground arith, omega arith)
      | inr miss ↦ (suc j, rw (miss, at) refl, omega arith)
    ]

-- No two adjacent parts, joined by a space, are among the merges, of which there are no more than
-- an `int` counts.
abbrev pub NoMerge : Tables → List Bytes → Type 0
NoMerge tb ps =
    (front : List Bytes) (l r : Bytes) (back : List Bytes) (k : ℕ)
    → ps ≡ front ++ l ∷ (r ∷ back)
    → k < int_max
    → get_elem? tb.merges k ≢ some (l ++ 32 ∷ r)

-- The best of a scan is none only where it was none, and where all pairs are out of range.
scan_pair-none :
    (o : Option ℕ) (i best : ℕ) (bi : Option ℕ)
    → (scan_pair o i (best, bi)).1 ≡ none
    → (bi ≡ none) × (scan_pair o i (best, bi) ≡ (best, bi))
scan_pair-none none i best bi h = (h, refl)
scan_pair-none (some k) i best bi h = go (ltb k best) h
  where
    chosen : Bool → ℕ × Option ℕ
    chosen b = if b then (k, some i) else (best, bi)

    go : (b : Bool) → (chosen b).1 ≡ none → (bi ≡ none) × (chosen b ≡ (best, bi))
    go true e = absurd (cc)
    go false e = (e, refl)

scan_pairs-none :
    (tb : Tables) (i best : ℕ) (bi : Option ℕ) (ps : List Bytes)
    → (scan_pairs tb i (best, bi) ps).1 ≡ none
    → bi ≡ none
unfolding scan_pairs
scan_pairs-none tb i best bi [] h = h
scan_pairs-none tb i best bi (p ∷ []) h = h
scan_pairs-none tb i best bi (p ∷ (q ∷ ps)) h =
    let next = scan_pair (merge_rank tb p q) i (best, bi) in
    (scan_pair-none (merge_rank tb p q) i best bi
      (scan_pairs-none tb (suc i) next.0 next.1 (q ∷ ps) h)).0

scan_pairs-step :
    {P : Type 0} (tb : Tables) (i best : ℕ) (p q : Bytes) (ps : List Bytes)
    → (scan_pairs tb i (best, none) (p ∷ (q ∷ ps))).1 ≡ none
    → ((scan_pairs tb (suc i) (best, none) (q ∷ ps)).1 ≡ none → P)
    → P
unfolding scan_pairs
scan_pairs-step tb i best p q ps h next =
    let found = scan_pair (merge_rank tb p q) i (best, none) in
    let stays =
      (scan_pair-none (merge_rank tb p q) i best none
        (scan_pairs-none tb (suc i) found.0 found.1 (q ∷ ps) h)).1 in
    next (subst (λ b. (scan_pairs tb (suc i) b (q ∷ ps)).1 ≡ none) stays h)

scan_pairs-over :
    (tb : Tables) (i best : ℕ) (front : List Bytes) (l r : Bytes) (back : List Bytes) (k : ℕ)
    → (scan_pairs tb i (best, none) (front ++ l ∷ (r ∷ back))).1 ≡ none
    → merge_rank tb l r ≡ some k
    → best ≤ k
unfolding scan_pairs
scan_pairs-over tb i best [] l r back k h ranked =
    let next = scan_pair (merge_rank tb l r) i (best, none) in
    let stays =
      (scan_pair-none (merge_rank tb l r) i best none
        (scan_pairs-none tb (suc i) next.0 next.1 (r ∷ back) h)).1 in
    kept (rw ranked at stays)
  where
    kept : scan_pair (some k) i (best, none) ≡ (best, none) → best ≤ k
    kept e = elim (Bool-cases (ltb k best)) [
      | inl low ↦ absurd (ground arith)
      | inr high ↦ ground arith
    ]
scan_pairs-over tb i best (p ∷ []) l r back k h ranked =
    scan_pairs-step tb i best p l (r ∷ back) h
      (λ g. scan_pairs-over tb (suc i) best [] l r back k g ranked)
scan_pairs-over tb i best (p ∷ (q ∷ front)) l r back k h ranked =
    scan_pairs-step tb i best p q (front ++ l ∷ (r ∷ back)) h
      (λ g. scan_pairs-over tb (suc i) best (q ∷ front) l r back k g ranked)

pub short-NoMerge : (tb : Tables) (ps : List Bytes) → length ps ≤ 1 → NoMerge tb ps
short-NoMerge tb ps short front l r back k cut small listed =
    absurd (omega (arith, ap length cut, length-append front (l ∷ (r ∷ back))))

-- A scan that finds nothing leaves no pair that could be merged.
pub scan_pairs-NoMerge :
    (tb : Tables) (ps : List Bytes) → (scan_pairs tb 0 (int_max, none) ps).1 ≡ none → NoMerge tb ps
scan_pairs-NoMerge tb ps h front l r back k cut small listed =
    let (j, at, le) = place-get (l ++ 32 ∷ r) tb.merges k listed in
    let high =
      scan_pairs-over tb 0 int_max front l r back j
        (subst (λ qs. (scan_pairs tb 0 (int_max, none) qs).1 ≡ none) cut h)
        (unfold merge_rank in at) in
    absurd (omega arith)
