-- ===== src/Prefix/Removal.antt =====
-- What the removal of files leaves: no file at their paths, and the others as they were.
use q.Prelude.{
  true, false, Option, none, List, [], ◌∷◌, Bytes, bytes_eq, bytes_eq_iff, Bool-cases,
  if◌then◌else◌, ◌≡◌, ◌⊎◌, refl, sym, ap, ◌∙◌, arith, inl, inr, if_intro,
}
use q.Prefix.Files.{Dir, File, lookup, unlink}
use q.Prefix.Cache.{Entry}
use q.Prefix.Store.{unlink_all}

lookup-unlink :
    (p q : Bytes) (d : Dir) → lookup p (unlink q d) ≡ (if bytes_eq q p then none else lookup p d)
unfolding lookup unlink
lookup-unlink p q [] =
    if_intro (λ (o : Option File). none ≡ o) (bytes_eq q p) (λ e. refl) (λ e. refl)
lookup-unlink p q ((r, f) ∷ d) =
    if_intro (λ l. lookup p l ≡ (if bytes_eq q p then none else lookup p ((r, f) ∷ d)))
      (bytes_eq r q)
      (λ gone.
        let same : r ≡ q = (bytes_eq_iff r q).0 gone in
        lookup-unlink p q d ∙ elim (Bool-cases (bytes_eq q p)) [
          | inl hit ↦ ground arith
          | inr miss ↦
              let other : bytes_eq r p ≡ false = ap (λ s. bytes_eq s p) same ∙ miss in ground arith
        ])
      (λ stays. elim (Bool-cases (bytes_eq r p)) [
        | inl hit ↦
            let same : r ≡ p = (bytes_eq_iff r p).0 hit in
            let apart : bytes_eq q p ≡ false = unequal q r p same stays in ground arith
        | inr miss ↦ rw miss (lookup-unlink p q d)
      ])
  where
    unequal : (q r p : Bytes) → r ≡ p → bytes_eq r q ≡ false → bytes_eq q p ≡ false
    unequal q r p same stays = elim (Bool-cases (bytes_eq q p)) [
      | inl e ↦
          let back : bytes_eq r q ≡ true =
            (bytes_eq_iff r q).1 (same ∙ sym ((bytes_eq_iff q p).0 e)) in
          absurd (cc)
      | inr e ↦ e
    ]

-- The path is that of one of the entries.
abbrev pub PathOf : Bytes → List Entry → Type 0
PathOf p [] = ⊥
PathOf p (e ∷ es) = (e.path ≡ p) ⊎ PathOf p es

pub unlink_all-other :
    (p : Bytes) (es : List Entry) (d : Dir)
    → ¬ PathOf p es
    → lookup p (unlink_all es d) ≡ lookup p d
unfolding unlink_all
unlink_all-other p [] d h = refl
unlink_all-other p (e ∷ es) d h =
    unlink_all-other p es (unlink e.path d) (λ a. h (inr a))
    ∙ lookup-unlink p e.path d
    ∙ elim (Bool-cases (bytes_eq e.path p)) [
      | inl hit ↦ absurd (h (inl ((bytes_eq_iff e.path p).0 hit)))
      | inr miss ↦ rw miss refl
    ]

unlink_all-none :
    (p : Bytes) (es : List Entry) (d : Dir) → lookup p d ≡ none → lookup p (unlink_all es d) ≡ none
unfolding unlink_all
unlink_all-none p [] d h = h
unlink_all-none p (e ∷ es) d h = unlink_all-none p es (unlink e.path d) (
    lookup-unlink p e.path d
    ∙ if_intro (λ (o : Option File). o ≡ none) (bytes_eq e.path p) (λ hit. refl) (λ miss. h))

pub unlink_all-gone :
    (p : Bytes) (es : List Entry) (d : Dir) → PathOf p es → lookup p (unlink_all es d) ≡ none
unfolding unlink_all
unlink_all-gone p [] d h = absurd h
unlink_all-gone p (e ∷ es) d (inr later) = unlink_all-gone p es (unlink e.path d) later
unlink_all-gone p (e ∷ es) d (inl same) =
    let hit : bytes_eq e.path p ≡ true = (bytes_eq_iff e.path p).1 same in
    unlink_all-none p es (unlink e.path d) (lookup-unlink p e.path d ∙ rw hit refl)
