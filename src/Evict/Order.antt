-- ===== src/Evict/Order.antt =====
-- The victims come in order, and all of them.
use q.Prelude.{
  subst, ℕ, ◌+◌, ◌≤◌, Bool, true, false, List, [], ◌∷◌, ◌≡◌, refl, arith, Among, inl, inr, ◌⊎◌,
  if◌then◌else◌, Bool-cases,
}
use q.Evict.{EvictCandidate, goes_first, insert, eviction_order}

-- No victim is behind one that the comparators put it in front of.
abbrev Sorted : Bool → List EvictCandidate → Type 0
Sorted pin [] = Unit
Sorted pin (x ∷ xs) =
    ((y : EvictCandidate) → Among y xs → goes_first pin y x ≡ false) × Sorted pin xs

goes_first-asym :
    (pin : Bool) (x y : EvictCandidate) → goes_first pin x y ≡ true → goes_first pin y x ≡ false
goes_first-asym true x y h = ground arith
goes_first-asym false x y h = ground arith

goes_first_trans :
    (pin : Bool) (x y z : EvictCandidate)
    → goes_first pin y x ≡ false
    → goes_first pin z y ≡ false
    → goes_first pin z x ≡ false
goes_first_trans true x y z h k = ground arith
goes_first_trans false x y z h k = ground arith

insert-Among :
    (pin : Bool) (x z : EvictCandidate) (ys : List EvictCandidate)
    → Among z (insert pin x ys)
    → (x ≡ z) ⊎ Among z ys
unfolding insert
insert-Among pin x z [] (inl e) = inl e
insert-Among pin x z [] (inr e) = absurd e
insert-Among pin x z (y ∷ ys) a = go (goes_first pin y x) a (insert-Among pin x z ys)
  where
    go :
        (b : Bool)
        → Among z (if b then y ∷ insert pin x ys else x ∷ (y ∷ ys))
        → (Among z (insert pin x ys) → (x ≡ z) ⊎ Among z ys)
        → (x ≡ z) ⊎ Among z (y ∷ ys)
    go false w onward = w
    go true (inl e) onward = inr (inl e)
    go true (inr w) onward = elim (onward w) [ inl e ↦ inl e | inr v ↦ inr (inr v) ]

insert-Sorted :
    (pin : Bool) (x : EvictCandidate) (ys : List EvictCandidate)
    → Sorted pin ys
    → Sorted pin (insert pin x ys)
unfolding insert
insert-Sorted pin x [] o = (λ y a. absurd a, tt)
insert-Sorted pin x (y ∷ ys) o = elim (Bool-cases (goes_first pin y x)) [
  | inl e ↦ rw e (
    λ z a. elim (insert-Among pin x z ys a) [
      | inl e' ↦ subst (λ t. goes_first pin t y ≡ false) e' (goes_first-asym pin y x e)
      | inr w ↦ o.0 z w
    ],
    insert-Sorted pin x ys o.1,
  )
  | inr e ↦ rw e (
    λ z a. elim a [
      | inl e' ↦ subst (λ t. goes_first pin t x ≡ false) e' e
      | inr w ↦ goes_first_trans pin x y z e (o.0 z w)
    ],
    o,
  )
]

-- How many of the candidates pass a test.
abbrev pub count : (EvictCandidate → Bool) → List EvictCandidate → ℕ
count p [] = 0
count p (x ∷ xs) = (if p x then 1 else 0) + count p xs

insert-count :
    (pin : Bool) (p : EvictCandidate → Bool) (x : EvictCandidate) (ys : List EvictCandidate)
    → count p (insert pin x ys) ≡ (if p x then 1 else 0) + count p ys
unfolding insert
insert-count pin p x [] = refl
insert-count pin p x (y ∷ ys) = elim (Bool-cases (goes_first pin y x)) [
  | inl e ↦ rw e (omega (arith, insert-count pin p x ys))
  | inr e ↦ rw e refl
]

eviction_order-Sorted :
    (files : List EvictCandidate) (pin : Bool) → Sorted pin (eviction_order files pin)
unfolding eviction_order
eviction_order-Sorted [] pin = tt
eviction_order-Sorted (f ∷ fs) pin =
    insert-Sorted pin f (eviction_order fs pin) (eviction_order-Sorted fs pin)

eviction_order-count :
    (files : List EvictCandidate) (pin : Bool) (p : EvictCandidate → Bool)
    → count p (eviction_order files pin) ≡ count p files
unfolding eviction_order
eviction_order-count [] pin p = refl
eviction_order-count (f ∷ fs) pin p =
    omega (arith, insert-count pin p f (eviction_order fs pin), eviction_order-count fs pin p)

-- Victim `x` may go in front of `y`: with the pin as a leaf in front of a spine, or as one that is
-- not newer, in the same class; without the pin as one that is not newer.
abbrev pub MayPrecede : Bool → EvictCandidate → EvictCandidate → Type 0
MayPrecede true x y =
    ((x.spine ≡ false) × (y.spine ≡ true)) ⊎ ((x.spine ≡ y.spine) × (x.mtime ≤ y.mtime))
MayPrecede false x y = x.mtime ≤ y.mtime

-- Each victim may go in front of all that are behind it.
abbrev pub InOrder : Bool → List EvictCandidate → Type 0
InOrder pin [] = Unit
InOrder pin (x ∷ xs) = ((y : EvictCandidate) → Among y xs → MayPrecede pin x y) × InOrder pin xs

goes_first-MayPrecede :
    (pin : Bool) (x y : EvictCandidate) → goes_first pin y x ≡ false → MayPrecede pin x y
goes_first-MayPrecede false x y h = ground arith
goes_first-MayPrecede true x y h = elim (Bool-cases x.spine) [
  | inl xs ↦ elim (Bool-cases y.spine) [
    | inl ys ↦ inr (cc, ground arith)
    | inr ys ↦ absurd (ground arith)
  ]
  | inr xs ↦ elim (Bool-cases y.spine) [ inl ys ↦ inl (xs, ys) | inr ys ↦ inr (cc, ground arith) ]
]

Sorted-InOrder : (pin : Bool) (xs : List EvictCandidate) → Sorted pin xs → InOrder pin xs
Sorted-InOrder pin [] s = tt
Sorted-InOrder pin (x ∷ xs) s =
    (λ y a. goes_first-MayPrecede pin x y (s.0 y a), Sorted-InOrder pin xs s.1)

-- The victims come in order: with the pin no spine is in front of a leaf, and within a class, or
-- without the pin among all, none is in front of an older one; any test is passed by as many of
-- them as before, so none is lost or doubled.
pub eviction_order-InOrder :
    (files : List EvictCandidate) (pin : Bool)
    → InOrder pin (eviction_order files pin)
      × ((p : EvictCandidate → Bool) → count p (eviction_order files pin) ≡ count p files)
eviction_order-InOrder files pin = (
  Sorted-InOrder pin (eviction_order files pin) (eviction_order-Sorted files pin),
  eviction_order-count files pin,
)
