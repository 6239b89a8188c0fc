-- ===== src/Toolgram/Names.antt =====
-- The allowlist of tool names: what the two scans over it decide.
use q.Prelude.{
  true, List, [], ◌∷◌, ◌++◌, ◌≡◌, ◌⊎◌, inl, inr, arith, Bytes, bytes_eq_iff, starts_with-append,
  ||-elim, bytes_eq,
}
use q.Toolgram.Step.{any_eq, any_prefix}

-- The name stands in the list.
abbrev pub Registered : Bytes → List Bytes → Type 0
Registered n [] = ⊥
Registered n (m ∷ ms) = (m ≡ n) ⊎ Registered n ms

pub any_eq-Registered : (n : Bytes) (ns : List Bytes) → any_eq n ns ≡ true → Registered n ns
unfolding any_eq
any_eq-Registered n [] h = cc
any_eq-Registered n (m ∷ ms) h = elim (||-elim (bytes_eq m n) (any_eq n ms) h) [
  | inl e ↦ inl ((bytes_eq_iff m n).0 e)
  | inr r ↦ inr (any_eq-Registered n ms r)
]

pub Registered-any_eq : (n : Bytes) (ns : List Bytes) → Registered n ns → any_eq n ns ≡ true
unfolding any_eq
Registered-any_eq n (m ∷ ms) (inl e) = ground (arith, (bytes_eq_iff m n).1 e)
Registered-any_eq n (m ∷ ms) (inr r) = ground (arith, Registered-any_eq n ms r)
Registered-any_eq n [] h = elim h [ ]

pub Registered-any_prefix :
    (p r : Bytes) (ns : List Bytes) → Registered (p ++ r) ns → any_prefix p ns ≡ true
unfolding any_prefix
Registered-any_prefix p r [] h = elim h [ ]
Registered-any_prefix p r (m ∷ ms) (inl e) = rw e (ground (arith, starts_with-append p r))
Registered-any_prefix p r (m ∷ ms) (inr h) = ground (arith, Registered-any_prefix p r ms h)
