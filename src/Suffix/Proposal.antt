-- ===== src/Suffix/Proposal.antt =====
-- A proposal continues an earlier occurrence of the stream's suffix.
use q.Prelude.{
  ℕ, zero, suc, ◌+◌, ◌-◌, ◌≤◌, ◌<◌, true, ◌&&◌, Option, none, some, List, [], ◌∷◌, ◌++◌, ◌≡◌, refl,
  sym, ap, ◌∙◌, arith, ltb, leb, ◌==◌, ==_iff, &&-elim, ltb→lt, leb→le, length, length-append,
  get_or, get_or_append_lt, get_or_append_ge, Bool-cases, inl, inr, subst, append_assoc,
}
use mathlib.Core.Option.{some-injective}
use q.Suffix.{
  SuffixDraft, ng, max_ext, at, candidates, same_at, key_matches, extend, keep_best, best_of,
  draft_at, draft, proposal, propose_with, key4,
}
use q.Suffix.Index.{Ends, AllEnds, InBounds}

-- The stream, the pending token, and what is drafted behind it.
abbrev pub stream : SuffixDraft → ℕ → List ℕ → List ℕ
stream d pending out = d.t ++ pending ∷ out

at-stream :
    (d : SuffixDraft) (pending i : ℕ) (out : List ℕ)
    → i ≤ length d.t
    → at d pending i ≡ get_or (stream d pending out) i 0
at-stream d pending i out le = elim (Bool-cases (ltb i (length d.t))) [
  | inl e ↦ rw e (sym (get_or_append_lt d.t (pending ∷ out) i 0 (ground arith)))
  | inr e ↦
      let z : i - length d.t ≡ 0 = ground arith in
      rw e (
        sym (
          get_or_append_ge d.t (pending ∷ out) i 0 (ground arith)
          ∙ ap (λ k. get_or (pending ∷ out) k 0) z))
]

-- The `m` tokens that end at `p` are the last `m` of the stream with the pending token.
pub record Recurs (d : SuffixDraft) (pending p m : ℕ) : Type 0 where
  pub long : ng ≤ m
  pub earlier : p < length d.t
  pub fits : m ≤ suc p
  pub same :
      (j : ℕ)
      → j < m
      → get_or (stream d pending []) (p - j) 0 ≡ get_or (stream d pending []) (length d.t - j) 0

-- One token more.
one_more :
    (d : SuffixDraft) (pending p j : ℕ)
    → p < length d.t
    → same_at d pending p j ≡ true
    → get_or (stream d pending []) (p - j) 0 ≡ get_or (stream d pending []) (length d.t - j) 0
one_more d pending p j lt h =
    get_or_append_lt d.t (pending ∷ []) (p - j) 0 (omega arith)
    ∙ (==_iff (get_or d.t (p - j) 0) (at d pending (length d.t - j))).0 h
    ∙ at-stream d pending (length d.t - j) [] (omega arith)

extend-Recurs :
    (d : SuffixDraft) (pending p left m : ℕ)
    → Recurs d pending p m
    → Recurs d pending p (extend d pending p left m)
unfolding extend
extend-Recurs d pending p zero m r = r
extend-Recurs d pending p (suc left) m r =
    elim (Bool-cases (leb m p && (leb m (length d.t) && same_at d pending p m))) [
      | inr e ↦ rw e r
      | inl e ↦
          let (inside, e') = &&-elim (leb m p) (leb m (length d.t) && same_at d pending p m) e in
          let (_, same) = &&-elim (leb m (length d.t)) (same_at d pending p m) e' in
          rw e (extend-Recurs d pending p left (suc m) (more (leb→le m p inside) same))
    ]
  where
    more : m ≤ p → same_at d pending p m ≡ true → Recurs d pending p (suc m)
    more le h = record {
      long = omega (arith, r.long);
      earlier = r.earlier;
      fits = omega arith;
      same = λ j lt. elim (Bool-cases (ltb j m)) [
        | inl e ↦ r.same j (ground arith)
        | inr e ↦
            let last : j ≡ m = ground arith in
            one_more d pending p j r.earlier
              (subst (λ i. same_at d pending p i ≡ true) (sym last) h)
      ];
    }

key_matches-Recurs :
    (d : SuffixDraft) (pending p : ℕ)
    → 3 ≤ p
    → p < length d.t
    → key_matches d pending p ≡ true
    → Recurs d pending p ng
key_matches-Recurs d pending p ge lt h =
    let (a, h1) = &&-elim (same_at d pending p 0) _ h in
    let (b, h2) = &&-elim (same_at d pending p 1) _ h1 in
    let (c, e) = &&-elim (same_at d pending p 2) (same_at d pending p 3) h2 in
    record {
      long = omega arith;
      earlier = lt;
      fits = omega arith;
      same = λ j small. go j small a b c e;
    }
  where
    go :
        (j : ℕ)
        → j < 4
        → same_at d pending p 0 ≡ true
        → same_at d pending p 1 ≡ true
        → same_at d pending p 2 ≡ true
        → same_at d pending p 3 ≡ true
        → get_or (stream d pending []) (p - j) 0 ≡ get_or (stream d pending []) (length d.t - j) 0
    go zero small a b c e = one_more d pending p 0 lt a
    go (suc zero) small a b c e = one_more d pending p 1 lt b
    go (suc (suc zero)) small a b c e = one_more d pending p 2 lt c
    go (suc (suc (suc zero))) small a b c e = one_more d pending p 3 lt e
    go (suc (suc (suc (suc j)))) small a b c e = absurd (omega arith)

-- The best match so far recurs, if there is one.
abbrev BestRecurs : SuffixDraft → ℕ → ℕ × Option ℕ → Type 0
BestRecurs d pending (m, none) = Unit
BestRecurs d pending (m, some p) = Recurs d pending p m

keep_best-BestRecurs :
    (d : SuffixDraft) (pending p m : ℕ) (best : ℕ × Option ℕ)
    → Recurs d pending p m
    → BestRecurs d pending best
    → BestRecurs d pending (keep_best p m best)
keep_best-BestRecurs d pending p m (bm, bp) r h = elim (Bool-cases (leb bm m)) [
  | inl e ↦ rw e r
  | inr e ↦ rw e h
]

best_of-BestRecurs :
    (d : SuffixDraft) (pending : ℕ) (ps : List ℕ) (best : ℕ × Option ℕ)
    → Ends (length d.t) ps
    → BestRecurs d pending best
    → BestRecurs d pending (best_of d pending ps best)
unfolding best_of
best_of-BestRecurs d pending [] best e h = h
best_of-BestRecurs d pending (p ∷ ps) best e h =
    elim (Bool-cases (ltb p (length d.t) && key_matches d pending p)) [
      | inr f ↦ rw f (best_of-BestRecurs d pending ps best e.2 h)
      | inl f ↦
          let matches = (&&-elim (ltb p (length d.t)) (key_matches d pending p) f).1 in
          rw f (
            best_of-BestRecurs d pending ps
              (keep_best p (extend d pending p (max_ext - ng) ng) best) e.2
              (keep_best-BestRecurs d pending p (extend d pending p (max_ext - ng) ng) best
                (extend-Recurs d pending p (max_ext - ng) ng
                  (key_matches-Recurs d pending p e.0 e.1 matches))
                h))
    ]

candidates-Ends :
    (n key : ℕ) (rows : List (ℕ × List ℕ)) → AllEnds n rows → Ends n (candidates key rows)
unfolding candidates
candidates-Ends n key [] h = tt
candidates-Ends n key ((k, v) ∷ rows) h = elim (Bool-cases (k == key)) [
  | inl e ↦ rw e h.0
  | inr e ↦ rw e (candidates-Ends n key rows h.2)
]

-- Each drafted token is the one that follows in the stream with the draft itself behind it.
abbrev pub Continues : SuffixDraft → ℕ → ℕ → List ℕ → Type 0
Continues d pending p out =
    (i : ℕ) → i < length out → get_or out i 0 ≡ get_or (stream d pending out) (p + 1 + i) 0

draft_at-stream :
    (d : SuffixDraft) (pending src : ℕ) (out : List ℕ)
    → draft_at d pending src out ≡ get_or (stream d pending out) src 0
draft_at-stream d pending src out = elim (Bool-cases (ltb src (length d.t + 1))) [
  | inl e ↦ rw e (at-stream d pending src out (ground arith))
  | inr e ↦
      let past : src - length d.t ≡ suc (src - (length d.t + 1)) = ground arith in
      rw e (
        sym (
          get_or_append_ge d.t (pending ∷ out) src 0 (ground arith)
          ∙ ap (λ k. get_or (pending ∷ out) k 0) past))
]

-- What is drafted later does not change what is read within the draft so far.
stream-get_or :
    (d : SuffixDraft) (pending i x : ℕ) (out : List ℕ)
    → i < length d.t + 1 + length out
    → get_or (stream d pending (out ++ x ∷ [])) i 0 ≡ get_or (stream d pending out) i 0
stream-get_or d pending i x out lt =
    ap (λ l. get_or l i 0) (sym (append_assoc d.t (pending ∷ out) (x ∷ [])))
    ∙ get_or_append_lt (stream d pending out) (x ∷ []) i 0
        (omega (arith, length-append d.t (pending ∷ out)))

get_or_last : (out : List ℕ) (x : ℕ) → get_or (out ++ x ∷ []) (length out) 0 ≡ x
get_or_last [] x = refl
get_or_last (y ∷ out) x = get_or_last out x

draft_at-Continues :
    (d : SuffixDraft) (pending p : ℕ) (out : List ℕ)
    → p < length d.t
    → Continues d pending p out
    → Continues d pending p (out ++ draft_at d pending (p + 1 + length out) out ∷ [])
draft_at-Continues d pending p out lt h i small = elim (Bool-cases (ltb i (length out))) [
  | inl e ↦
      get_or_append_lt out (x ∷ []) i 0 (ltb→lt i (length out) e)
      ∙ h i (ltb→lt i (length out) e)
      ∙ sym (stream-get_or d pending (p + 1 + i) x out inside)
  | inr e ↦
      let last : i ≡ length out = ground (arith, longer) in
      ap (λ k. get_or (out ++ x ∷ []) k 0) last
      ∙ get_or_last out x
      ∙ draft_at-stream d pending (p + 1 + length out) out
      ∙ ap (λ k. get_or (stream d pending out) (p + 1 + k) 0) (sym last)
      ∙ sym (stream-get_or d pending (p + 1 + i) x out inside)
]
  where
    x : ℕ
    x = draft_at d pending (p + 1 + length out) out

    longer : length (out ++ x ∷ []) ≡ suc (length out)
    longer = omega (arith, length-append out (x ∷ []))

    inside : p + 1 + i < length d.t + 1 + length out
    inside = omega (arith, longer)

draft-Continues :
    (d : SuffixDraft) (pending p todo : ℕ) (out : List ℕ)
    → p < length d.t
    → Continues d pending p out
    → Continues d pending p (draft d pending p todo out)
      × (length (draft d pending p todo out) ≡ length out + todo)
unfolding draft
draft-Continues d pending p zero out lt h = (h, omega arith)
draft-Continues d pending p (suc todo) out lt h =
    let x = draft_at d pending (p + 1 + length out) out in
    let (go_on, long) =
      draft-Continues d pending p todo (out ++ x ∷ []) lt
        (draft_at-Continues d pending p out lt h) in
    (go_on, omega (arith, long, length-append out (x ∷ [])))

-- A proposal is drawn from a candidate that recurs.
proposal-Recurs :
    (d : SuffixDraft) (pending k m : ℕ) (best : ℕ × Option ℕ) (out : List ℕ)
    → BestRecurs d pending best
    → proposal d pending k best ≡ some (m, out)
    → (p : ℕ) × Recurs d pending p m × Continues d pending p out × (length out ≡ k)
proposal-Recurs d pending k m (bm, none) out r h = absurd cc
proposal-Recurs d pending k m (bm, some p) out r h =
    let found = some-injective _ _ h in
    let (go_on, long) = draft-Continues d pending p k [] r.earlier (λ i lt. absurd (omega arith)) in
    let same = ap (λ x. x.1) found in
    (
      p,
      subst (λ n. Recurs d pending p n) (ap (λ x. x.0) found) r,
      subst (λ l. Continues d pending p l) same go_on,
      omega (arith, long, ap length same),
    )

-- When the index holds positions of the stream only, a proposal of length `m` with the tokens
-- `out` names an earlier position `p` of the stream such that `m` is at least 4, the `m` tokens
-- that end at `p` are the last `m` of the stream with the pending token behind it, and `out` is
-- `k` tokens, each the one that follows in the stream with the draft itself behind it.
pub propose_with-Recurs :
    (d : SuffixDraft) (pending k m : ℕ) (out : List ℕ)
    → InBounds d
    → propose_with d pending k ≡ some (m, out)
    → (p : ℕ) × Recurs d pending p m × Continues d pending p out × (length out ≡ k)
unfolding propose_with
propose_with-Recurs d pending k m out inside h = elim (Bool-cases (ltb (length d.t) 3)) [
  | inl e ↦ absurd (cc (rw e at h))
  | inr e ↦
      let rows = candidates key d.idx in
      proposal-Recurs d pending k m (best_of d pending rows (0, none)) out
        (best_of-BestRecurs d pending rows (0, none) (candidates-Ends (length d.t) key d.idx inside)
          tt)
        (rw e at h)
]
  where
    n : ℕ
    n = length d.t

    key : ℕ
    key = key4 (at d pending (n - 3)) (at d pending (n - 2)) (at d pending (n - 1)) (at d pending n)
