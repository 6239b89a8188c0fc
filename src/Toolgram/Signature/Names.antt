-- ===== src/Toolgram/Signature/Names.antt =====
-- The allowlist in the key: sorted and joined it still tells which names are registered.
use q.Prelude.{
  true, ◌||◌, List, [], ◌∷◌, ◌++◌, ◌≡◌, refl, sym, ap, ◌∙◌, arith, Bytes, ℕ, Without, Bool-cases,
  inl, inr, starts_with, bytes_eq,
}
use q.Toolgram.State.{string_lt, insert_sorted, sort_names, join_names}
use q.Toolgram.Step.{any_eq, any_prefix}
use q.Toolgram.Signature.Relabel.{SameScans}

-- No name holds the byte.
abbrev pub AllWithout : ℕ → List Bytes → Type 0
AllWithout c [] = Unit
AllWithout c (n ∷ ns) = Without c n × AllWithout c ns

-- Texts without the separator are what stands in front of it.
pub split_at :
    (c : ℕ) (a b x y : Bytes)
    → Without c a
    → Without c b
    → a ++ c ∷ x ≡ b ++ c ∷ y
    → (a ≡ b) × (x ≡ y)
split_at c [] [] x y u v e = (refl, ground arith)
split_at c [] (d ∷ b) x y u v e = absurd (ground arith)
split_at c (d ∷ a) [] x y u v e = absurd (ground arith)
split_at c (d ∷ a) (d' ∷ b) x y u v e =
    let (same, rest) = split_at c a b x y u.1 v.1 (ground arith) in (ground arith, rest)

any_eq-insert_sorted :
    (p n : Bytes) (ns : List Bytes) → any_eq p (insert_sorted n ns) ≡ any_eq p (n ∷ ns)
unfolding any_eq insert_sorted
any_eq-insert_sorted p n [] = refl
any_eq-insert_sorted p n (m ∷ ms) = ground (arith, any_eq-insert_sorted p n ms)

any_prefix-insert_sorted :
    (p n : Bytes) (ns : List Bytes) → any_prefix p (insert_sorted n ns) ≡ any_prefix p (n ∷ ns)
unfolding any_prefix insert_sorted
any_prefix-insert_sorted p n [] = refl
any_prefix-insert_sorted p n (m ∷ ms) = ground (arith, any_prefix-insert_sorted p n ms)

any_eq-sort_names : (p : Bytes) (ns : List Bytes) → any_eq p (sort_names ns) ≡ any_eq p ns
unfolding sort_names any_eq
any_eq-sort_names p [] = refl
any_eq-sort_names p (n ∷ ns) =
    any_eq-insert_sorted p n (sort_names ns) ∙ ap (λ b. bytes_eq n p || b) (any_eq-sort_names p ns)

any_prefix-sort_names :
    (p : Bytes) (ns : List Bytes) → any_prefix p (sort_names ns) ≡ any_prefix p ns
unfolding sort_names any_prefix
any_prefix-sort_names p [] = refl
any_prefix-sort_names p (n ∷ ns) =
    any_prefix-insert_sorted p n (sort_names ns)
    ∙ ap (λ b. starts_with p n || b) (any_prefix-sort_names p ns)

AllWithout-insert_sorted :
    (c : ℕ) (n : Bytes) (ns : List Bytes)
    → Without c n
    → AllWithout c ns
    → AllWithout c (insert_sorted n ns)
unfolding insert_sorted
AllWithout-insert_sorted c n [] h hs = (h, tt)
AllWithout-insert_sorted c n (m ∷ ms) h hs = elim (Bool-cases (string_lt m n)) [
  | inl before ↦ rw before (hs.0, AllWithout-insert_sorted c n ms h hs.1)
  | inr after ↦ rw after (h, hs)
]

AllWithout-sort_names : (c : ℕ) (ns : List Bytes) → AllWithout c ns → AllWithout c (sort_names ns)
unfolding sort_names
AllWithout-sort_names c [] h = tt
AllWithout-sort_names c (n ∷ ns) h =
    AllWithout-insert_sorted c n (sort_names ns) h.0 (AllWithout-sort_names c ns h.1)

join_names-injective :
    (ns ms : List Bytes)
    → AllWithout 0x1f ns
    → AllWithout 0x1f ms
    → join_names ns ≡ join_names ms
    → ns ≡ ms
unfolding join_names
join_names-injective [] [] u v e = refl
join_names-injective [] ([] ∷ ms) u v e = absurd (ground arith)
join_names-injective [] ((x ∷ m) ∷ ms) u v e = absurd (ground arith)
join_names-injective ([] ∷ ns) [] u v e = absurd (ground arith)
join_names-injective ((x ∷ n) ∷ ns) [] u v e = absurd (ground arith)
join_names-injective (n ∷ ns) (m ∷ ms) u v e =
    let (same, rest) = split_at 0x1f n m (join_names ns) (join_names ms) u.0 v.0 e in
    let tails = join_names-injective ns ms u.1 v.1 rest in cc

-- Allowlists with the same key admit the same names.
pub sort_names-SameScans :
    (ns ms : List Bytes)
    → AllWithout 0x1f ns
    → AllWithout 0x1f ms
    → join_names (sort_names ns) ≡ join_names (sort_names ms)
    → SameScans ns ms
sort_names-SameScans ns ms u v e =
    let same =
      join_names-injective (sort_names ns) (sort_names ms) (AllWithout-sort_names 0x1f ns u)
        (AllWithout-sort_names 0x1f ms v) e in
    record {
      same_eq = λ p. sym (any_eq-sort_names p ns) ∙ ap (any_eq p) same ∙ any_eq-sort_names p ms;
      same_prefix = λ p.
          sym (any_prefix-sort_names p ns) ∙ ap (any_prefix p) same ∙ any_prefix-sort_names p ms;
    }

starts_with-Without : (c : ℕ) (p n : Bytes) → starts_with p n ≡ true → Without c n → Without c p
unfolding starts_with
starts_with-Without c [] n h w = tt
starts_with-Without c (x ∷ p) [] h w = absurd (cc)
starts_with-Without c (x ∷ p) (y ∷ n) h w =
    (ground arith, starts_with-Without c p n (ground arith) w.1)

pub any_prefix-Without :
    (c : ℕ) (p : Bytes) (ns : List Bytes) → any_prefix p ns ≡ true → AllWithout c ns → Without c p
unfolding any_prefix
any_prefix-Without c p [] h w = absurd (cc)
any_prefix-Without c p (n ∷ ns) h w = elim (Bool-cases (starts_with p n)) [
  | inl hit ↦ starts_with-Without c p n hit w.0
  | inr miss ↦ any_prefix-Without c p ns (rw miss at h) w.1
]
