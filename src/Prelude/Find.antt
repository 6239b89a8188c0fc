-- ===== src/Prelude/Find.antt =====
-- What `find` returns: the first place, or that there is none.
use Prim.Native.Nat.{ℕ, zero, suc, ◌+◌, ◌≤◌, ◌<◌}
use mathlib.Core.Bool.{false}
use mathlib.Core.List.{[], ◌∷◌, ◌++◌}
use mathlib.Core.Logic.{inl, inr, ◌≢◌}
use mathlib.Core.Option
use mathlib.Core.Option.{Option, none, some}
use mathlib.Core.Path.{◌≡◌, refl, ap, ◌∙◌}
use native.Mathlib.Nat.{zero-add, suc-add}
use native.Mathlib.Omega.{arith}
use q.Prelude.Lists.{length, drop, drop-drop}
use q.Prelude.Tests.{Bool-cases, Option-cases}
use q.Prelude.Strings.{Bytes, starts_with, starts_with-split, find, StandsAt}

-- `p` stands nowhere in `s`.
abbrev pub Absent : Bytes → Bytes → Type 0
Absent p s = (i : ℕ) → ¬ StandsAt p s i

pub starts_with_nil : (p : Bytes) → p ≢ [] → starts_with p [] ≡ false
unfolding starts_with
starts_with_nil [] h = absurd (h refl)
starts_with_nil (x ∷ p) h = refl

map-suc-eq-some :
    (o : Option ℕ) {i : ℕ} → Option.map suc o ≡ some i → (j : ℕ) × (o ≡ some j) × (i ≡ suc j)
map-suc-eq-some none h = ground arith
map-suc-eq-some (some j) h = (j, refl, ground arith)

-- A hit is an occurrence inside the string, and no earlier one exists.
pub find-some :
    (p s : Bytes) {i : ℕ}
    → find p s ≡ some i
    → StandsAt p s i × (i ≤ length s) × ((j : ℕ) → j < i → ¬ StandsAt p s j)
unfolding find
find-some p [] {i} h = elim (Bool-cases (starts_with p [])) [
  | inl t ↦ let e : i ≡ 0 = ground arith in rw e (t, omega arith, λ j lt. absurd (omega arith))
  | inr f ↦ absurd (ground arith)
]
find-some p (y ∷ s) {i} h = elim (Bool-cases (starts_with p (y ∷ s))) [
  | inl t ↦ let e : i ≡ 0 = ground arith in rw e (t, omega arith, λ j lt. absurd (omega arith))
  | inr f ↦
      let (k, found, e) = map-suc-eq-some (find p s) (rw f at h) in
      let (at_k, bound, first) = find-some p s found in rw e (at_k, omega arith, earlier f first)
]
  where
    earlier :
        {k : ℕ}
        → starts_with p (y ∷ s) ≡ false
        → ((j : ℕ) → j < k → ¬ StandsAt p s j)
        → (j : ℕ) → j < suc k
        → ¬ StandsAt p (y ∷ s) j
    earlier f first zero lt t = cc
    earlier f first (suc j) lt t = first j (omega arith) t

map-suc-eq-none : (o : Option ℕ) → Option.map suc o ≡ none → o ≡ none
map-suc-eq-none none h = refl
map-suc-eq-none (some j) h = ground arith

pub find-none : (p s : Bytes) → find p s ≡ none → Absent p s
unfolding find
find-none p [] h zero t = ground arith
find-none p [] h (suc i) t = ground arith
find-none p (y ∷ s) h zero t = ground arith
find-none p (y ∷ s) h (suc i) t =
    find-none p s
      (elim (Bool-cases (starts_with p (y ∷ s))) [
        | inl b ↦ absurd (ground arith)
        | inr b ↦ map-suc-eq-none (find p s) (rw b at h)
      ])
      i t

pub find-Absent : (p s : Bytes) → Absent p s → find p s ≡ none
find-Absent p s h = elim (Option-cases (find p s)) [
  | inl e ↦ e
  | inr (i, e) ↦ absurd (h i (find-some p s e).0)
]

-- At a hit the string splits round the occurrence.
pub find_split : (p s : Bytes) {i : ℕ} → find p s ≡ some i → drop i s ≡ p ++ drop (i + length p) s
find_split p s {i} h =
    starts_with-split p (drop i s) (find-some p s h).0 ∙ ap (λ r. p ++ r) (drop-drop i (length p) s)

-- A first byte that cannot start `p` is passed over.
pub find_skip :
    (x y : ℕ) (p s : Bytes) → x ≢ y → find (x ∷ p) (y ∷ s) ≡ Option.map suc (find (x ∷ p) s)
unfolding find
find_skip x y p s h = ground arith

-- No byte of `s` is `c`.
abbrev pub Without : ℕ → Bytes → Type 0
Without c [] = Unit
Without c (x ∷ s) = (c ≢ x) × Without c s

pub find-Without : (c : ℕ) (p s : Bytes) → Without c s → find (c ∷ p) s ≡ none
unfolding find
find-Without c p [] h = refl
find-Without c p (x ∷ s) h = rw (find_skip c x p s h.0, find-Without c p s h.1)

-- Bytes that cannot start `p` only shift a hit.
pub find-Without-append_none :
    (c : ℕ) (p a s : Bytes) → Without c a → find (c ∷ p) s ≡ none → find (c ∷ p) (a ++ s) ≡ none
find-Without-append_none c p [] s h e = e
find-Without-append_none c p (x ∷ a) s h e =
    rw (find_skip c x p (a ++ s) h.0, find-Without-append_none c p a s h.1 e)

pub find-Without-append_some :
    (c : ℕ) (p a s : Bytes) {i : ℕ}
    → Without c a
    → find (c ∷ p) s ≡ some i
    → find (c ∷ p) (a ++ s) ≡ some (length a + i)
find-Without-append_some c p [] s h e = rw (e, zero-add)
find-Without-append_some c p (x ∷ a) s h e =
    rw (find_skip c x p (a ++ s) h.0, find-Without-append_some c p a s h.1 e, suc-add)
