-- ===== src/Tokenizer/Bpe/Greedy.antt =====
-- The merges are the greedy ones: the pair of the lowest rank first, and of those the leftmost.
use q.Prelude.{
  Bool-cases, subst, ℕ, zero, suc, ◌+◌, ◌≤◌, ◌<◌, Option, none, some, List, [], ◌∷◌, ◌++◌, ◌≡◌, inl,
  inr, refl, sym, ap, ◌∙◌, arith, Bytes, length, length-append, get_elem?, ltb,
}
use q.Tokenizer.Bpe.{Tables, merge_rank, scan_pairs, merge_at, merge_next, merge_loop, int_max}
use q.Tokenizer.Bpe.Exhausted.{NoMerge, place-get, short-NoMerge, scan_pairs-NoMerge}
use q.Tokenizer.Bpe.Scan.{get-place, Lowest, Found, scan_pairs-Found}

-- Of the pairs that are merges, the one behind `front` has the first place in the list of merges,
-- and it is the leftmost one of that place.
abbrev pub First : Tables → List Bytes → List Bytes → ℕ → Type 0
First tb ps front k =
    (front' : List Bytes) (l r : Bytes) (back : List Bytes) (k' : ℕ)
    → ps ≡ front' ++ l ∷ (r ∷ back)
    → get_elem? tb.merges k' ≡ some (l ++ 32 ∷ r)
    → (k ≤ k') × (length front' < length front → k < k')

-- The greedy merging of adjacent parts, by the list of merges.
pub data Greedy (tb : Tables) : List Bytes → List Bytes → Type 0 where
  stops : {ps : List Bytes} → NoMerge tb ps → Greedy tb ps ps
  merges :
      {ps qs : List Bytes} (front : List Bytes) (l r : Bytes) (back : List Bytes) (k : ℕ)
      → ps ≡ front ++ l ∷ (r ∷ back)
      → k < int_max
      → get_elem? tb.merges k ≡ some (l ++ 32 ∷ r)
      → First tb ps front k
      → Greedy tb (front ++ (l ++ r) ∷ back) qs
      → Greedy tb ps qs

merge_at-front :
    (front : List Bytes) (l r : Bytes) (back : List Bytes)
    → merge_at (length front) (front ++ l ∷ (r ∷ back)) ≡ front ++ (l ++ r) ∷ back
unfolding merge_at
merge_at-front [] l r back = refl
merge_at-front (x ∷ []) l r back = refl
merge_at-front (x ∷ (y ∷ front)) l r back = ap (◌∷◌ x) (merge_at-front (y ∷ front) l r back)

Lowest-First :
    (tb : Tables) (ps : List Bytes) (d k : ℕ) (w : Lowest tb int_max ps d k) → First tb ps w.front k
unfolding merge_rank
Lowest-First tb ps d k w front' l r back k' cut listed =
    let (j, at, le) = place-get (l ++ 32 ∷ r) tb.merges k' listed in
    let (a, s) = w.lowest front' l r back j cut at in
    let here = w.at in (omega arith, λ h. omega (arith, s (omega arith)))

-- The merging of any parts is the greedy one, and as many rounds as there are parts are enough for
-- it: while two adjacent parts, joined by a space, are among the merges, at a place that an `int`
-- counts below its maximum, the pair with the first place is merged, and the leftmost one of these;
-- at the end no two adjacent parts are such a merge.
pub merge_loop-Greedy :
    (tb : Tables) (fuel : ℕ) (ps : List Bytes)
    → length ps ≤ fuel
    → Greedy tb ps (merge_loop tb fuel ps)
unfolding merge_loop Found
merge_loop-Greedy tb zero ps le = stops (short-NoMerge tb ps (omega arith))
merge_loop-Greedy tb (suc fuel) ps le = elim (Bool-cases (ltb 1 (length ps))) [
  | inr e ↦ rw e (stops (short-NoMerge tb ps (ground arith)))
  | inl e ↦ rw e (
      go (scan_pairs tb 0 (int_max, none) ps) refl (scan_pairs-Found tb 0 int_max none ps)
        (λ qs short. merge_loop-Greedy tb fuel qs short))
]
  where
    merged :
        (d k : ℕ) (w : Lowest tb int_max ps d k)
        → ((qs : List Bytes) → length qs ≤ fuel → Greedy tb qs (merge_loop tb fuel qs))
        → Greedy tb ps (merge_loop tb fuel (merge_at d ps))
    merged d k w later =
        let next = w.front ++ (w.l ++ w.r) ∷ w.back in
        let same : merge_at d ps ≡ next =
          ap (λ i. merge_at i ps) (sym w.at)
          ∙ ap (merge_at (length w.front)) w.cut
          ∙ merge_at-front w.front w.l w.r w.back in
        let less : length next ≤ fuel = omega (
          arith,
          ap length w.cut,
          length-append w.front (w.l ∷ (w.r ∷ w.back)),
          length-append w.front ((w.l ++ w.r) ∷ w.back),
        ) in
        merges w.front w.l w.r w.back k w.cut w.below
          (get-place (w.l ++ 32 ∷ w.r) tb.merges k (unfold merge_rank in w.rank))
          (Lowest-First tb ps d k w)
          (subst (λ qs. Greedy tb next (merge_loop tb fuel qs)) (sym same) (later next less))

    go :
        (best : ℕ × Option ℕ)
        → scan_pairs tb 0 (int_max, none) ps ≡ best
        → Found tb 0 (int_max, none) ps (scan_pairs tb 0 (int_max, none) ps)
        → ((qs : List Bytes) → length qs ≤ fuel → Greedy tb qs (merge_loop tb fuel qs))
        → Greedy tb ps (merge_next best.1 ps (λ qs. merge_loop tb fuel qs))
    go (b, none) is found later =
        stops (scan_pairs-NoMerge tb ps (ap (λ (x : ℕ × Option ℕ). x.1) is))
    go (b, some j) is (inl (kept, all)) later = absurd (cc)
    go (b, some j) is (inr (d, k, at, w)) later =
        let place_at : d ≡ j =
          let both : some j ≡ some (0 + d) = ap (λ (x : ℕ × Option ℕ). x.1) (sym is ∙ at) in
          ground arith in
        subst (λ i. Greedy tb ps (merge_loop tb fuel (merge_at i ps))) place_at (merged d k w later)
