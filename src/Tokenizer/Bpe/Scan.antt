-- ===== src/Tokenizer/Bpe/Scan.antt =====
-- What the scan for the next merge finds: the pair of the lowest rank, and of those the leftmost.
use q.Prelude.{
  Bool-cases, subst, ℕ, suc, ◌+◌, ◌≤◌, ◌<◌, Option, none, some, List, [], ◌∷◌, ◌++◌, ◌≡◌, ◌⊎◌, inl,
  inr, refl, ap, ◌∙◌, arith, Bytes, length, length-append, get_elem?, bytes_eq, bytes_eq_iff, ltb,
  Option-cases,
}
use q.Tokenizer.Bpe.{Tables, place, merge_rank, scan_pair, scan_pairs}

pub get-place :
    (s : Bytes) (ts : List Bytes) (j : ℕ) → place s ts ≡ some j → get_elem? ts j ≡ some s
unfolding place
get-place s [] j h = absurd (cc)
get-place s (t ∷ ts) j h = elim (Bool-cases (bytes_eq t s)) [
  | inl hit ↦
      let same : t ≡ s = (bytes_eq_iff t s).0 hit in
      let first : 0 ≡ j = ground arith in
      subst (λ i. get_elem? (t ∷ ts) i ≡ some s) first (ap some same)
  | inr miss ↦ elim (Option-cases (place s ts)) [
    | inl nowhere ↦ absurd (ground arith)
    | inr (i, at) ↦
        let later : suc i ≡ j = ground arith in
        subst (λ n. get_elem? (t ∷ ts) n ≡ some s) later (get-place s ts i at)
  ]
]

-- No pair has a rank below `b`.
abbrev pub AllFrom : Tables → ℕ → List Bytes → Type 0
AllFrom tb b ps =
    (front : List Bytes) (l r : Bytes) (back : List Bytes) (k : ℕ)
    → ps ≡ front ++ l ∷ (r ∷ back)
    → merge_rank tb l r ≡ some k
    → b ≤ k

-- The pair behind `d` parts has the rank `k` below `b`, none has a lower one, and none in front of
-- it the same.
pub record Lowest (tb : Tables) (b : ℕ) (ps : List Bytes) (d k : ℕ) : Type 0 where
  pub front : List Bytes
  pub l : Bytes
  pub r : Bytes
  pub back : List Bytes
  pub cut : ps ≡ front ++ l ∷ (r ∷ back)
  pub at : length front ≡ d
  pub rank : merge_rank tb l r ≡ some k
  pub below : k < b
  pub lowest :
      (front' : List Bytes) (l' r' : Bytes) (back' : List Bytes) (k' : ℕ)
      → ps ≡ front' ++ l' ∷ (r' ∷ back')
      → merge_rank tb l' r' ≡ some k'
      → (k ≤ k') × (length front' < d → k < k')

-- What is known of the rank of the first pair.
AllFrom-cons :
    (tb : Tables) (b : ℕ) (p q : Bytes) (ps : List Bytes)
    → ((k : ℕ) → merge_rank tb p q ≡ some k → b ≤ k)
    → AllFrom tb b (q ∷ ps)
    → AllFrom tb b (p ∷ (q ∷ ps))
AllFrom-cons tb b p q ps first rest [] l r back k cut ranked =
    let lp : p ≡ l = cc in let rq : q ≡ r = cc in first k (rw (lp, rq) ranked)
AllFrom-cons tb b p q ps first rest (x ∷ front) l r back k cut ranked =
    let tail : q ∷ ps ≡ front ++ l ∷ (r ∷ back) = cc in rest front l r back k tail ranked

Lowest-later :
    (tb : Tables) (b c : ℕ) (p q : Bytes) (ps : List Bytes) (d k : ℕ)
    → c ≤ b
    → ((k : ℕ) → merge_rank tb p q ≡ some k → c ≤ k)
    → Lowest tb c (q ∷ ps) d k
    → Lowest tb b (p ∷ (q ∷ ps)) (suc d) k
Lowest-later tb b c p q ps d k le first w = record {
  front = p ∷ w.front;
  l = w.l;
  r = w.r;
  back = w.back;
  cut = ap (◌∷◌ p) w.cut;
  at = ap suc w.at;
  rank = w.rank;
  below = omega (arith, w.below);
  lowest = low;
}
  where
    low :
        (front' : List Bytes) (l' r' : Bytes) (back' : List Bytes) (k' : ℕ)
        → p ∷ (q ∷ ps) ≡ front' ++ l' ∷ (r' ∷ back')
        → merge_rank tb l' r' ≡ some k'
        → (k ≤ k') × (length front' < suc d → k < k')
    low [] l' r' back' k' cut ranked =
        let lp : p ≡ l' = cc in
        let rq : q ≡ r' = cc in
        let high = first k' (rw (lp, rq) ranked) in
        let below = w.below in (omega arith, λ h. omega arith)
    low (x ∷ front') l' r' back' k' cut ranked =
        let tail : q ∷ ps ≡ front' ++ l' ∷ (r' ∷ back') = cc in
        let (a, s) = w.lowest front' l' r' back' k' tail ranked in (a, λ h. s (omega arith))

Lowest-here :
    (tb : Tables) (b : ℕ) (p q : Bytes) (ps : List Bytes) (k : ℕ)
    → merge_rank tb p q ≡ some k
    → k < b
    → AllFrom tb k (q ∷ ps)
    → Lowest tb b (p ∷ (q ∷ ps)) 0 k
Lowest-here tb b p q ps k ranked lt rest =
    let all = AllFrom-cons tb k p q ps (λ j e. let same : k ≡ j = cc in omega arith) rest in
    record {
      front = [];
      l = p;
      r = q;
      back = ps;
      cut = refl;
      at = refl;
      rank = ranked;
      below = lt;
      lowest = λ front' l' r' back' k' cut e.
          (all front' l' r' back' k' cut e, λ h. absurd (omega arith));
    }

-- What a scan finds.
unfoldable pub Found : Tables → ℕ → ℕ × Option ℕ → List Bytes → ℕ × Option ℕ → Type 0
Found tb i best ps next =
    ((next ≡ best) × AllFrom tb best.0 ps)
    ⊎ ((d : ℕ) × (k : ℕ) × (next ≡ (k, some (i + d))) × Lowest tb best.0 ps d k)

no_pair :
    (p : Bytes) (front : List Bytes) (l r : Bytes) (back : List Bytes)
    → p ∷ [] ≡ front ++ l ∷ (r ∷ back)
    → ⊥
no_pair p front l r back e = omega (arith, ap length e, length-append front (l ∷ (r ∷ back)))

no_pair_nil :
    (front : List Bytes) (l r : Bytes) (back : List Bytes) → [] ≡ front ++ l ∷ (r ∷ back) → ⊥
no_pair_nil front l r back e = omega (arith, ap length e, length-append front (l ∷ (r ∷ back)))

pub scan_pairs-Found :
    (tb : Tables) (i b : ℕ) (bi : Option ℕ) (ps : List Bytes)
    → Found tb i (b, bi) ps (scan_pairs tb i (b, bi) ps)
unfolding scan_pairs Found
scan_pairs-Found tb i b bi [] =
    inl (refl, λ front l r back k cut ranked. absurd (no_pair_nil front l r back cut))
scan_pairs-Found tb i b bi (p ∷ []) =
    inl (refl, λ front l r back k cut ranked. absurd (no_pair p front l r back cut))
scan_pairs-Found tb i b bi (p ∷ (q ∷ ps)) =
    go (merge_rank tb p q) refl (λ c ci. scan_pairs-Found tb (suc i) c ci (q ∷ ps))
  where
    whole : ℕ × Option ℕ → Type 0
    whole best = Found tb i (b, bi) (p ∷ (q ∷ ps)) (scan_pairs tb (suc i) best (q ∷ ps))

    kept :
        ((k : ℕ) → merge_rank tb p q ≡ some k → b ≤ k)
        → Found tb (suc i) (b, bi) (q ∷ ps) (scan_pairs tb (suc i) (b, bi) (q ∷ ps))
        → whole (b, bi)
    kept first (inl (is, all)) = inl (is, AllFrom-cons tb b p q ps first all)
    kept first (inr (d, k, is, w)) = inr (
      suc d,
      k,
      is ∙ ap (λ n. (k, some n)) (omega arith),
      Lowest-later tb b b p q ps d k (omega arith) first w,
    )

    taken :
        (k0 : ℕ)
        → merge_rank tb p q ≡ some k0
        → k0 < b
        → Found tb (suc i) (k0, some i) (q ∷ ps) (scan_pairs tb (suc i) (k0, some i) (q ∷ ps))
        → whole (k0, some i)
    taken k0 e lt (inl (is, all)) =
        inr (0, k0, is ∙ ap (λ n. (k0, some n)) (omega arith), Lowest-here tb b p q ps k0 e lt all)
    taken k0 e lt (inr (d, k, is, w)) = inr (
      suc d,
      k,
      is ∙ ap (λ n. (k, some n)) (omega arith),
      Lowest-later tb b k0 p q ps d k (omega arith) (λ j h. let same : k0 ≡ j = cc in omega arith)
          w,
    )

    go :
        (o : Option ℕ)
        → merge_rank tb p q ≡ o
        → ((c : ℕ) (ci : Option ℕ)
            → Found tb (suc i) (c, ci) (q ∷ ps) (scan_pairs tb (suc i) (c, ci) (q ∷ ps)))
        → whole (scan_pair o i (b, bi))
    go none e rest = kept (λ k h. absurd (cc)) (rest b bi)
    go (some k0) e rest = elim (Bool-cases (ltb k0 b)) [
      | inl lt ↦ rw lt (taken k0 e (ground arith) (rest k0 (some i)))
      | inr ge ↦ rw ge (kept (λ k h. let same : k0 ≡ k = cc in ground arith) (rest b bi))
    ]
