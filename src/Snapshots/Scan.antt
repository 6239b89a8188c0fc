-- ===== src/Snapshots/Scan.antt =====
-- The loop of `best_match`, and what it answers.
use q.Prelude.{
  ℕ, ◌≤◌, true, Option, none, some, List, [], ◌∷◌, Bytes, length, leb, is_empty, Among, ◌≡◌, ◌≢◌,
  refl, sym, subst, ap, ◌∙◌, arith, inl, inr, ◌⊎◌, if_intro, not, ◌&&◌, false≢true,
}
use q.Snapshots.{
  SnapPeekInfo, DirEntry, Infos, DiskSnapshotStore, enabled, info_of, resumes, consider, is_tagged,
  look_at, scan, answer, best_match,
}
use q.Snapshots.Match.{Coherent, info_of-Coherent, Resumable, resumes-Resumable, Resumable-resumes}

module _ (peek : Infos) (tag : Bytes) (prompt : List ℕ) where
  -- What a part of the loop makes of the best so far.
  Improves : List DirEntry → Bytes × ℕ → Bytes × ℕ → Type 0
  Improves es best next =
      ((next ≡ best)
        ⊎ ((e : DirEntry) × Among e es × (next.0 ≡ e.path) × Resumable peek tag prompt e next.1))
      × (best.1 ≤ next.1)
      × ((e : DirEntry) (n : ℕ) → Among e es → Resumable peek tag prompt e n → n ≤ next.1)

  consider-Improves :
      (e : DirEntry) (best : Bytes × ℕ) (o : Option SnapPeekInfo)
      → is_tagged tag e ≡ true
      → peek e.path ≡ o
      → Improves (e ∷ []) best (consider prompt e.path best o)
  unfolding Improves
  consider-Improves e best none tagged read = (
    inl refl,
    omega arith,
    λ x n a m. elim a [
      | inl same ↦ let r = m.read in let no = ap (λ (y : DirEntry). peek y.path) same in absurd (cc)
      | inr never ↦ absurd never
    ],
  )
  consider-Improves e best (some i) tagged read =
      if_intro (Improves (e ∷ []) best) (not (leb (length i.tokens) best.1) && resumes prompt i)
        (λ h.
          let go : resumes prompt i ≡ true = ground arith in
          (
            inr (e, inl refl, refl, resumes-Resumable peek tag prompt e i read tagged go),
            ground arith,
            λ x n a m. elim a [
              | inl same ↦ omega (arith, (known x n same m).1)
              | inr never ↦ absurd never
            ],
          ))
        (λ h. (
          inl refl,
          omega arith,
          λ x n a m. elim a [
            | inl same ↦ let k = known x n same m in let k0 = k.0 in let k1 = k.1 in ground arith
            | inr never ↦ absurd never
          ],
        ))
    where
      known :
          (x : DirEntry) (n : ℕ)
          → e ≡ x
          → Resumable peek tag prompt x n
          → (resumes prompt i ≡ true) × (length i.tokens ≡ n)
      known x n same m =
          Resumable-resumes peek tag prompt x n i
            (sym (ap (λ (y : DirEntry). peek y.path) same) ∙ read) m

  look_at-Improves :
      (e : DirEntry) (meta : Infos) (best : Bytes × ℕ)
      → Coherent peek meta
      → let r = look_at peek tag prompt e (meta, best) in
        Coherent peek r.0 × Improves (e ∷ []) best r.1
  unfolding look_at Improves
  look_at-Improves e meta best coh =
      if_intro (λ (r : Infos × (Bytes × ℕ)). Coherent peek r.0 × Improves (e ∷ []) best r.1)
        (is_tagged tag e)
        (λ tagged.
          let i = info_of-Coherent peek meta e.path coh in
          (i.0, consider-Improves e best (info_of peek e.path meta).1 tagged (sym i.1)))
        (λ other. (
          coh,
          (
            inl refl,
            omega arith,
            λ x n a m. elim a [
              | inl same ↦
                  let t = m.tagged in
                  absurd (false≢true (sym other ∙ (ap (is_tagged tag) same ∙ t)))
              | inr never ↦ absurd never
            ],
          ),
        ))

  Improves-cons :
      (e : DirEntry) (es : List DirEntry) (a b c : Bytes × ℕ)
      → Improves (e ∷ []) a b
      → Improves es b c
      → Improves (e ∷ es) a c
  unfolding Improves
  Improves-cons e es a b c f g = (
    elim g.0 [
      | inl same ↦ elim f.0 [
        | inl is ↦ inl (same ∙ is)
        | inr (x, at, p, m) ↦ inr (
          x,
          elim at [ inl s ↦ inl s | inr never ↦ absurd never ],
          ap (λ (z : Bytes × ℕ). z.0) same ∙ p,
          subst (λ (z : Bytes × ℕ). Resumable peek tag prompt x z.1) (sym same) m,
        )
      ]
      | inr (x, at, p, m) ↦ inr (x, inr at, p, m)
    ],
    omega (arith, f.1, g.1),
    λ x n at m. elim at [ inl s ↦ omega (arith, f.2 x n (inl s) m, g.1) | inr r ↦ g.2 x n r m ],
  )

  scan-Improves :
      (es : List DirEntry) (meta : Infos) (best : Bytes × ℕ)
      → Coherent peek meta
      → let r = scan peek tag prompt es (meta, best) in Coherent peek r.0 × Improves es best r.1
  unfolding scan Improves
  scan-Improves [] meta best coh = (coh, (inl refl, omega arith, λ x n a. absurd a))
  scan-Improves (e ∷ es) meta best coh =
      let turn = look_at-Improves e meta best coh in
      let r = look_at peek tag prompt e (meta, best) in
      let rest = scan-Improves es r.0 r.1 turn.0 in
      (rest.0, Improves-cons e es best r.1 (scan peek tag prompt es r).1 turn.1 rest.1)

-- What an answer of `best_match` says.
abbrev pub Matched :
    Infos
    → List DirEntry
    → List ℕ
    → DiskSnapshotStore
    → DiskSnapshotStore × Option (Bytes × ℕ)
    → Type 0
Matched peek es prompt s (s', none) =
    Coherent peek s'.meta
    × ((e : DirEntry) (n : ℕ) → Among e es → ¬ Resumable peek s.tag prompt e n)
Matched peek es prompt s (s', some (p, n)) =
    Coherent peek s'.meta
    × ((e : DirEntry) × Among e es × (p ≡ e.path) × Resumable peek s.tag prompt e n)
    × ((e : DirEntry) (k : ℕ) → Among e es → Resumable peek s.tag prompt e k → k ≤ n)

-- Where the cached metadata are those of the files, and no path is empty, an enabled store answers
-- with a snapshot of its tag that the prompt goes on from or is equal to, then with its logits, and
-- whose position is its length; none such in the directory is longer. If it answers with none, there
-- is none such. The cached metadata are again those of the files.
pub best_match-Matched :
    (peek : Infos) (es : List DirEntry) (prompt : List ℕ) (s : DiskSnapshotStore)
    → Coherent peek s.meta
    → ((e : DirEntry) → Among e es → e.path ≢ [])
    → enabled s ≡ true
    → Matched peek es prompt s (best_match peek es prompt s)
unfolding best_match Improves
best_match-Matched peek es prompt s coh named on = rw on (
    answered (scan peek s.tag prompt es (s.meta, ([], 0)))
      (scan-Improves peek s.tag prompt es s.meta ([], 0) coh))
  where
    bare : (l : Bytes) → is_empty l ≡ true → l ≡ []
    bare [] h = refl
    bare (x ∷ l) h = absurd (cc)

    answered :
        (r : Infos × (Bytes × ℕ))
        → Coherent peek r.0 × Improves peek s.tag prompt es ([], 0) r.1
        → Matched peek es prompt s (answer s r)
    answered (meta, best) (c, g) =
        if_intro
          (λ (o : Option (Bytes × ℕ)). Matched peek es prompt s (record s { meta = meta }, o))
          (is_empty best.0)
          (λ h. (
            c,
            λ e n at m. elim g.0 [
              | inl same ↦
                  let zero_len = ap (λ (z : Bytes × ℕ). z.1) same in
                  absurd (omega (arith, g.2 e n at m, m.not_empty, zero_len))
              | inr (x, in_es, p, y) ↦ absurd (named x in_es (sym p ∙ bare best.0 h))
            ],
          ))
          (λ h. (
            c,
            elim g.0 [
              | inl same ↦
                  let none_yet = ap (λ (z : Bytes × ℕ). z.0) same in
                  let gone : is_empty best.0 ≡ true = rw none_yet refl in absurd (cc)
              | inr found ↦ found
            ],
            g.2,
          ))
