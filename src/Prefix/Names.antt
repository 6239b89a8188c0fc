-- ===== src/Prefix/Names.antt =====
-- The names of the files: an entry's is taken up by a rescan, and that of its write is swept.
use q.Prelude.{
  ℕ, ◌-◌, ◌≤◌, true, false, not, ◌&&◌, [], ◌∷◌, ◌++◌, Bytes, codes, bytes_eq_iff, length, take,
  drop, length-append, drop-length, take-append-drop, ltb, ◌≡◌, refl, sym, ap, ◌∙◌, arith,
  append_assoc, Bool-cases, inl, inr, ◌⊎◌,
}
use q.Prefix.Keys.{hex, entry_name, suffix, ends_with}
use q.Toolgram.Signature.Decimal.{to_string}
use q.Prefix.Store.{is_torn, is_named}

last_of : ℕ → Bytes → ℕ
last_of d [] = d
last_of d (x ∷ s) = last_of x s

last_of-append : (d : ℕ) (x : Bytes) (c : ℕ) (s : Bytes) → last_of d (x ++ c ∷ s) ≡ last_of c s
unfolding last_of
last_of-append d [] c s = refl
last_of-append d (y ∷ x) c s = last_of-append y x c s

ends_with-append : (x s : Bytes) → ends_with (x ++ s) s ≡ true
ends_with-append x s =
    let whole = length-append x s in
    let start : length (x ++ s) - length s ≡ length x = omega (arith, whole) in
    (bytes_eq_iff _ s).1 (ap (λ k. drop k (x ++ s)) start ∙ drop-length x s)

-- Two endings of one text have the same last byte.
ends_with-last :
    (x : Bytes) (c : ℕ) (s : Bytes) (d : ℕ) (t : Bytes)
    → ends_with (x ++ c ∷ s) (d ∷ t) ≡ true
    → last_of c s ≡ last_of d t
ends_with-last x c s d t h =
    let n = x ++ c ∷ s in
    let k = length n - length (d ∷ t) in
    let tail : drop k n ≡ d ∷ t = (bytes_eq_iff _ (d ∷ t)).0 h in
    let whole : n ≡ take k n ++ d ∷ t = sym (take-append-drop k n) ∙ ap (λ r. take k n ++ r) tail in
    sym (last_of-append 0 x c s) ∙ ap (last_of 0) whole ∙ last_of-append 0 (take k n) d t

-- The name of an entry ends in the suffix.
stem : ℕ → ℕ → Bytes
stem key len = hex 16 key ++ (b'-' ∷ to_string len)

entry_name-stem : (key len : ℕ) → entry_name key len ≡ stem key len ++ suffix
unfolding entry_name stem
entry_name-stem key len = refl

pub entry_name-is_named : (key len : ℕ) → is_named (entry_name key len) ≡ true
unfolding stem
entry_name-is_named key len = rw (entry_name-stem key len) (
    both (stem key len ++ suffix)
      (omega (
        arith,
        length-append (stem key len) suffix,
        length-append (hex 16 key) (b'-' ∷ to_string len),
      ))
      (ends_with-append (stem key len) suffix))
  where
    both :
        (n : Bytes)
        → 7 ≤ length n
        → ends_with n suffix ≡ true
        → (not (ltb (length n) 7) && ends_with n suffix) ≡ true
    both n long e = ground arith

pub entry_name-is_torn : (key len : ℕ) → is_torn (entry_name key len) ≡ false
unfolding last_of
entry_name-is_torn key len =
    rw (entry_name-stem key len)
      (go (Bool-cases (ends_with (stem key len ++ suffix) (codes ".q27pc.tmp"))))
  where
    go :
        (ends_with (stem key len ++ suffix) (codes ".q27pc.tmp") ≡ true)
          ⊎ (ends_with (stem key len ++ suffix) (codes ".q27pc.tmp") ≡ false)
        → is_torn (stem key len ++ suffix) ≡ false
    go (inl h) =
        let bytes : ◌≡◌ {A = ℕ} b'c' b'p' =
          ends_with-last (stem key len) b'.' (codes "q27pc") b'.' (codes "q27pc.tmp") h in
        absurd (omega arith)
    go (inr h) = ground arith

pub tmp_name-is_torn : (key len : ℕ) → is_torn (entry_name key len ++ codes ".tmp") ≡ true
unfolding stem
tmp_name-is_torn key len =
    rw (entry_name-stem key len, append_assoc (stem key len) suffix (codes ".tmp"))
      (both (stem key len ++ codes ".q27pc.tmp")
        (omega (
          arith,
          length-append (stem key len) (codes ".q27pc.tmp"),
          length-append (hex 16 key) (b'-' ∷ to_string len),
        ))
        (ends_with-append (stem key len) (codes ".q27pc.tmp")))
  where
    both : (n : Bytes) → 11 ≤ length n → ends_with n (codes ".q27pc.tmp") ≡ true → is_torn n ≡ true
    both n long e = ground arith
