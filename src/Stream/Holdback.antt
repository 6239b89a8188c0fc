-- ===== src/Stream/Holdback.antt =====
-- The longest tail of a buffer that may still grow into a marker: `tail_keep` of
-- src/stream_split.h, and the inner loop of `StopBuffer::feed` in src/metal/stream_format.h.
use q.Prelude.{
  ℕ, zero, suc, ◌+◌, ◌-◌, ◌≤◌, ◌<◌, min, Bool, true, false, ◌≡◌, ◌⊎◌, inl, inr, refl, ap, ◌∙◌,
  subst, [], ◌∷◌, ◌++◌, arith, if◌then◌else◌, ◌==◌, Bytes, bytes_eq, bytes_eq_iff, starts_with,
  StandsAt, length, length-drop, take, drop, Bool-cases, &&-elim, ==_iff,
}

-- `hold.compare(hold.size() - k, k, marker, k) == 0`
abbrev pub tail_is : ℕ → Bytes → Bytes → Bool
tail_is k marker hold = bytes_eq (drop (length hold - k) hold) (take k marker)

-- `for (k = maxk; k > 0; k--) if (...) return k; return 0;`
unfoldable pub keep_from : ℕ → Bytes → Bytes → ℕ
keep_from zero marker hold = 0
keep_from (suc k) marker hold =
    if tail_is (suc k) marker hold then suc k else keep_from k marker hold

unfoldable pub tail_keep : Bytes → Bytes → ℕ
unfolding keep_from
tail_keep marker hold = keep_from (min (length hold) (length marker - 1)) marker hold

keep_from-le : (k : ℕ) (m h : Bytes) → keep_from k m h ≤ k
unfolding keep_from
keep_from-le zero m h = omega arith
keep_from-le (suc k) m h = ground (arith, keep_from-le k m h)

pub tail_keep-le : (m h : Bytes) → tail_keep m h ≤ length h
unfolding tail_keep
tail_keep-le m h = omega (arith, keep_from-le (min (length h) (length m - 1)) m h)

keep_from-max : (k j : ℕ) (m h : Bytes) → j ≤ k → tail_is j m h ≡ true → j ≤ keep_from k m h
unfolding keep_from
keep_from-max zero j m h le t = le
keep_from-max (suc k) j m h le t = elim (Bool-cases (tail_is (suc k) m h)) [
  | inl e ↦ rw (e, keep_from) le
  | inr e ↦ rw (e, keep_from) (keep_from-max k j m h (below e) t)
]
  where
    below : tail_is (suc k) m h ≡ false → j ≤ k
    below e = elim (Bool-cases (j == suc k)) [
      | inl q ↦
          let at_k : tail_is (suc k) m h ≡ true =
            subst (λ n. tail_is n m h ≡ true) ((==_iff j (suc k)).0 q) t in
          cc
      | inr q ↦ ground arith
    ]

-- A marker that starts in `a ++ b` lies in `a`, or `a` is a proper beginning of it.
starts_with-append-cases :
    (m a b : Bytes)
    → starts_with m (a ++ b) ≡ true
    → (starts_with m a ≡ true) ⊎ ((length a < length m) × (a ≡ take (length a) m))
unfolding starts_with
starts_with-append-cases [] a b h = inl refl
starts_with-append-cases (x ∷ m) [] b h = inr (omega arith, refl)
starts_with-append-cases (x ∷ m) (y ∷ a) b h =
    let (e, rest) = &&-elim (x == y) (starts_with m (a ++ b)) h in
    elim (starts_with-append-cases m a b rest) [
      | inl t ↦ inl (ground arith)
      | inr (lt, p) ↦ inr (omega arith, ground (arith, (==_iff x y).0 e))
    ]

pub drop-append : (j : ℕ) (a b : Bytes) → j ≤ length a → drop j (a ++ b) ≡ drop j a ++ b
drop-append zero a b h = refl
drop-append (suc j) [] b h = absurd (omega arith)
drop-append (suc j) (x ∷ a) b h = drop-append j a b (omega arith)

-- A marker that starts before the kept tail lies in the buffer already, whatever follows.
pub stands_before_tail :
    (m h rest : Bytes) (j : ℕ)
    → j + tail_keep m h < length h
    → StandsAt m (h ++ rest) j
    → StandsAt m h j
stands_before_tail m h rest j lt t =
    elim (starts_with-append-cases m (drop j h) rest
      (subst (λ s. starts_with m s ≡ true) (drop-append j h rest (omega arith)) t)) [
        | inl e ↦ e
        | inr (short, e) ↦ absurd (omega (arith, too_long short e))
      ]
  where
    tail_length : length (drop j h) ≡ length h - j
    tail_length = length-drop j h

    back : length h - (length h - j) ≡ j
    back = omega arith

    too_long :
        length (drop j h) < length m
        → drop j h ≡ take (length (drop j h)) m
        → length h - j ≤ tail_keep m h
    too_long short e =
        unfold tail_keep in
        keep_from-max (min (length h) (length m - 1)) (length h - j) m h
          (omega (arith, tail_length))
          ((bytes_eq_iff _ _).1 (ap (λ n. drop n h) back ∙ e ∙ ap (λ n. take n m) tail_length))
