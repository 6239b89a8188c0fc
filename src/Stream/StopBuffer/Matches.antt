-- ===== src/Stream/StopBuffer/Matches.antt =====
-- What the two loops of `feed` compute.
use q.Prelude.{
  subst, ℕ, suc, ◌+◌, ◌≤◌, Option, none, some, List, [], ◌∷◌, ◌≡◌, ◌⊎◌, inl, inr, refl, sym, arith,
  ltb, Bytes, Among, find, length, get_elem?, Bool-cases, if◌then◌else◌,
}
use q.Stream.Holdback.{tail_keep, tail_keep-le}
use q.Stream.StopBuffer.{better, best_match, longest_hold}

better-eq-none :
    (i : ℕ) (o : Option ℕ) (best : Option (ℕ × ℕ))
    → better i o best ≡ none
    → (o ≡ none) × (best ≡ none)
better-eq-none i none best h = (refl, h)
better-eq-none i (some p) none h = absurd (ground arith)
better-eq-none i (some p) (some (q, t)) h = absurd (ground arith)

-- No hit at all.
pub best_match-none :
    (i : ℕ) (ss : List Bytes) (pend : Bytes) (best : Option (ℕ × ℕ))
    → best_match i ss pend best ≡ none
    → (best ≡ none) × ((s : Bytes) → Among s ss → find s pend ≡ none)
unfolding best_match
best_match-none i [] pend best h = (h, λ s a. absurd a)
best_match-none i (t ∷ ss) pend best h =
    let (b, later) = best_match-none (i + 1) ss pend (better i (find t pend) best) h in
    let (here, old) = better-eq-none i (find t pend) best b in
    (old, λ s a. elim a [ inl e ↦ subst (λ x. find x pend ≡ none) e here | inr r ↦ later s r ])

-- What the best hit is: one of the hits, and none is earlier.
pub record Best (i : ℕ) (ss : List Bytes) (pend : Bytes) (best : Option (ℕ × ℕ)) (p n : ℕ)
    : Type 0 where
  pub from :
      (best ≡ some (p, n))
      ⊎ ((k : ℕ) × (s : Bytes) × (n ≡ i + k) × (get_elem? ss k ≡ some s) × (find s pend ≡ some p))
  pub earliest : (s : Bytes) (q : ℕ) → Among s ss → find s pend ≡ some q → p ≤ q
  pub before : (q m : ℕ) → best ≡ some (q, m) → p ≤ q

-- The parts of `Best` that carry over from the rest of the list.
from_later :
    (i : ℕ) (t : Bytes) (ss : List Bytes) (pend : Bytes) (p n : ℕ)
    → ((k : ℕ) × (s : Bytes) × (n ≡ i + 1 + k) × (get_elem? ss k ≡ some s) × (find s pend ≡ some p))
    → (k : ℕ) × (s : Bytes) × (n ≡ i + k) × (get_elem? (t ∷ ss) k ≡ some s) × (find s pend ≡ some p)
from_later i t ss pend p n (k, s, e, g, f) = (suc k, s, omega arith, g, f)

earliest_cons :
    (t : Bytes) (ss : List Bytes) (pend : Bytes) (p : ℕ)
    → ((q : ℕ) → find t pend ≡ some q → p ≤ q)
    → ((s : Bytes) (q : ℕ) → Among s ss → find s pend ≡ some q → p ≤ q)
    → (s : Bytes) (q : ℕ) → Among s (t ∷ ss)
    → find s pend ≡ some q
    → p ≤ q
earliest_cons t ss pend p here later s q (inl e) f =
    here q (subst (λ x. find x pend ≡ some q) (sym e) f)
earliest_cons t ss pend p here later s q (inr a) f = later s q a f

-- The new hit is kept as the best one.
Best-new :
    (i : ℕ) (t : Bytes) (ss : List Bytes) (pend : Bytes) (h : ℕ) (best : Option (ℕ × ℕ)) (p n : ℕ)
    → find t pend ≡ some h
    → ((q m : ℕ) → best ≡ some (q, m) → h ≤ q)
    → Best (i + 1) ss pend (some (h, i)) p n
    → Best i (t ∷ ss) pend best p n
Best-new i t ss pend h best p n e improves b =
    let le : p ≤ h = b.before h i refl in
    record {
      from = elim (b.from) [
        | inl x ↦ inr (0, t, ground arith, refl, ground arith)
        | inr x ↦ inr (from_later i t ss pend p n x)
      ];
      earliest = earliest_cons t ss pend p (λ q f. ground arith) b.earliest;
      before = λ q m x. omega (arith, improves q m x);
    }

-- The old best hit stays.
Best-old :
    (i : ℕ) (t : Bytes) (ss : List Bytes) (pend : Bytes) (best : Option (ℕ × ℕ)) (p n : ℕ)
    → ((q : ℕ) → find t pend ≡ some q → p ≤ q)
    → Best (i + 1) ss pend best p n
    → Best i (t ∷ ss) pend best p n
Best-old i t ss pend best p n here b = record {
  from = elim (b.from) [ inl x ↦ inl x | inr x ↦ inr (from_later i t ss pend p n x) ];
  earliest = earliest_cons t ss pend p here b.earliest;
  before = b.before;
}

better-Best :
    (i : ℕ) (t : Bytes) (ss : List Bytes) (pend : Bytes) (o : Option ℕ) (best : Option (ℕ × ℕ))
    (p n : ℕ)
    → find t pend ≡ o
    → Best (i + 1) ss pend (better i o best) p n
    → Best i (t ∷ ss) pend best p n
better-Best i t ss pend none best p n e b = Best-old i t ss pend best p n (λ q f. cc) b
better-Best i t ss pend (some h) none p n e b =
    Best-new i t ss pend h none p n e (λ q m x. absurd (ground arith)) b
better-Best i t ss pend (some h) (some (q', m')) p n e b = elim (Bool-cases (ltb h q')) [
  | inl lt ↦ Best-new i t ss pend h (some (q', m')) p n e (λ q m x. ground arith) (rw lt at b)
  | inr ge ↦
      let b' : Best (i + 1) ss pend (some (q', m')) p n = rw ge at b in
      Best-old i t ss pend (some (q', m')) p n (λ q f. ground (arith, b'.before q' m' refl)) b'
]

pub best_match-Best :
    (i : ℕ) (ss : List Bytes) (pend : Bytes) (best : Option (ℕ × ℕ)) (p n : ℕ)
    → best_match i ss pend best ≡ some (p, n)
    → Best i ss pend best p n
unfolding best_match
best_match-Best i [] pend best p n h = record {
  from = inl h;
  earliest = λ s q a f. absurd a;
  before = λ q m e. ground arith;
}
best_match-Best i (t ∷ ss) pend best p n h =
    better-Best i t ss pend (find t pend) best p n refl
      (best_match-Best (i + 1) ss pend (better i (find t pend) best) p n h)

-- The hold is at least the kept tail of each stop, and within the buffer.
pub longest_hold-max :
    (ss : List Bytes) (pend : Bytes) (hold : ℕ)
    → (hold ≤ longest_hold ss pend hold)
      × ((s : Bytes) → Among s ss → tail_keep s pend ≤ longest_hold ss pend hold)
unfolding longest_hold
longest_hold-max [] pend hold = (omega arith, λ s a. absurd a)
longest_hold-max (t ∷ ss) pend hold =
    let k = if ltb hold (tail_keep t pend) then tail_keep t pend else hold in
    let (over, each) = longest_hold-max ss pend k in
    let above : (hold ≤ k) × (tail_keep t pend ≤ k) = ground arith in
    (
      omega (arith, above),
      λ s a. elim a [
        | inl e ↦ subst (λ x. tail_keep x pend ≤ longest_hold ss pend k) e (omega (arith, above))
        | inr r ↦ each s r
      ],
    )

pub longest_hold-le :
    (ss : List Bytes) (pend : Bytes) (hold : ℕ)
    → hold ≤ length pend
    → longest_hold ss pend hold ≤ length pend
unfolding longest_hold
longest_hold-le [] pend hold h = h
longest_hold-le (t ∷ ss) pend hold h =
    longest_hold-le ss pend _ (ground (arith, tail_keep-le t pend))
