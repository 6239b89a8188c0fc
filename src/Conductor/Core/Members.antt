-- ===== src/Conductor/Core/Members.antt =====
-- No member is lost or doubled by a round, and those that stay keep their order.
use q.Prelude.{
  ℕ, ◌+◌, ◌/◌, Bool, Option, none, some, List, [], ◌∷◌, ◌++◌, map, length, ltb, Bool-cases, inl,
  inr, ◌≡◌, refl, sym, ap, subst, ◌∙◌, append-nil, append_assoc, arith, if◌then◌else◌, if_intro,
  ap₂,
}
use mathlib.Core.List.{map-append}
use q.Conductor.Trim.{Lane, trim_widths}
use q.Conductor.Core.{
  Hooks, Core, max_k, pre_checks, draft_all, draft, lane_of, grant, fuse, leave_done, fused_phase,
  round_of, settled, round, join, join_all, drained,
}

-- `xs` is what is left of `ys` when some of its elements are taken out.
pub data Remains {N : Type 0} : List N → List N → Type 0 where
  nothing : Remains [] []
  stays : {n : N} {xs ys : List N} → Remains xs ys → Remains (n ∷ xs) (n ∷ ys)
  goes : {n : N} {xs ys : List N} → Remains xs ys → Remains xs (n ∷ ys)

some-injective {ℓ} : {A : Type ℓ} {a b : A} → some a ≡ some b → a ≡ b
some-injective h = cc

module _ {N : Type 0} where
  abbrev pub count : (N → Bool) → List N → ℕ
  count q [] = 0
  count q (n ∷ ns) = (if q n then 1 else 0) + count q ns

  count-append : (q : N → Bool) (xs ys : List N) → count q (xs ++ ys) ≡ count q xs + count q ys
  count-append q [] ys = omega arith
  count-append q (x ∷ xs) ys = omega (arith, count-append q xs ys)

  Remains-trans : {ys zs : List N} → Remains ys zs → {xs : List N} → Remains xs ys → Remains xs zs
  Remains-trans nothing p = p
  Remains-trans (goes r) p = goes (Remains-trans r p)
  Remains-trans (stays r) (stays p) = stays (Remains-trans r p)
  Remains-trans (stays r) (goes p) = goes (Remains-trans r p)

  Remains-refl : (xs : List N) → Remains xs xs
  Remains-refl [] = nothing
  Remains-refl (x ∷ xs) = stays (Remains-refl xs)

  Remains-nil : (xs : List N) → Remains [] xs
  Remains-nil [] = nothing
  Remains-nil (x ∷ xs) = goes (Remains-nil xs)

-- The members keep their names, whatever the hooks do to them.
pub record Keeps {A N : Type 0} (h : Hooks A) (name : A → N) : Type 0 where
  pub pre_keeps : (m : A) → name (h.pre_round m).0 ≡ name m
  pub want_keeps : (m : A) → name (h.want m).0 ≡ name m
  pub granted_keeps : (w : ℕ) (m : A) → name (h.set_granted w m) ≡ name m
  pub solo_keeps : (m : A) → name (h.solo_round m).0 ≡ name m
  pub fused_keeps : (b : List (A × Lane)) (i : ℕ) (m : A) → name (h.fused_round b i m).0 ≡ name m
  pub draft_keeps :
      (f : List A → ℕ → A → A × Lane)
      → h.draft_widths ≡ some f
      → (ms : List A) (i : ℕ) (m : A) → name (f ms i m).0 ≡ name m

-- Who stays and who leaves are the members of before: none is lost, doubled or overtaken.
pub record Splits {A N : Type 0} (name : A → N) (before : List N) (r : List A × List A)
    : Type 0 where
  pub in_order : Remains (map name r.0) before
  pub all_there : (q : N → Bool) → count q (map name r.0) + count q (map name r.1) ≡ count q before

-- What a round does to the core `c`: the new core, and the number it returns. `late` joined while
-- the round ran.
abbrev pub Conserved : {A N : Type 0} → (A → N) → List A → Core A → Core A × ℕ → Type 0
Conserved {N} name late c (c', n) =
    (c'.joins ≡ late)
    × (c'.cap ≡ c.cap)
    × (n ≡ length c'.members)
    × Remains (map name c'.members) (map name (c.members ++ c.joins))
    × ((q : N → Bool)
        → count q (map name c'.members) + count q (map name c'.left)
          ≡ count q (map name (c.members ++ c.joins)) + count q (map name c.left))

join_all-joins :
    {A : Type 0} (ms : List A) (c : Core A) → join_all ms c ≡ record c { joins = c.joins ++ ms }
unfolding join_all join
join_all-joins [] c = ap (λ l. record c { joins = l }) (sym (append-nil c.joins))
join_all-joins (m ∷ ms) c =
    join_all-joins ms (join m c)
    ∙ ap (λ l. record c { joins = l }) (append_assoc c.joins (m ∷ []) ms)

module _ {A N : Type 0} (name : A → N) where
  first : {B : Type 0} → A × B → N
  first (m, b) = name m

  pre_checks-Splits :
      (pre : A → A × Bool)
      → ((m : A) → name (pre m).0 ≡ name m)
      → (ms : List A) → Splits name (map name ms) (pre_checks pre ms)
  unfolding pre_checks
  pre_checks-Splits pre keeps [] = record { in_order = nothing; all_there = λ q. refl }
  pre_checks-Splits pre keeps (m ∷ ms) =
      let rest = pre_checks-Splits pre keeps ms in
      if_intro (Splits name (map name (m ∷ ms))) (pre m).1
        (λ on. record {
          in_order = rw keeps (stays rest.in_order);
          all_there = λ q. rw keeps (omega (arith, rest.all_there q));
        })
        (λ off. record {
          in_order = goes rest.in_order;
          all_there = λ q. rw keeps (omega (arith, rest.all_there q));
        })

  leave_done-Splits : (r : List (A × Bool)) → Splits name (map first r) (leave_done r)
  unfolding leave_done first
  leave_done-Splits [] = record { in_order = nothing; all_there = λ q. refl }
  leave_done-Splits ((m, d) ∷ r) =
      let rest = leave_done-Splits r in
      if_intro (Splits name (name m ∷ map first r)) d
        (λ done. record {
          in_order = goes rest.in_order;
          all_there = λ q. rw (map-append, count-append) (omega (arith, rest.all_there q));
        })
        (λ on. record {
          in_order = stays rest.in_order;
          all_there = λ q. omega (arith, rest.all_there q);
        })

  draft_all-names :
      (f : ℕ → A → A × Lane)
      → ((i : ℕ) (m : A) → name (f i m).0 ≡ name m)
      → (i : ℕ) (ms : List A) → map first (draft_all f i ms) ≡ map name ms
  unfolding draft_all first
  draft_all-names f keeps i [] = refl
  draft_all-names f keeps i (m ∷ ms) = ap₂ (◌∷◌) (keeps i m) (draft_all-names f keeps (i + 1) ms)

  grant-names :
      (set : ℕ → A → A)
      → ((w : ℕ) (m : A) → name (set w m) ≡ name m)
      → (ds : List (A × Lane)) (ls : List Lane) → map first (grant set ds ls) ≡ map first ds
  unfolding grant first
  grant-names set keeps [] ls = refl
  grant-names set keeps (d ∷ ds) [] = refl
  grant-names set keeps ((m, w) ∷ ds) (l ∷ ls) =
      ap₂ (◌∷◌) (keeps l.width m) (grant-names set keeps ds ls)

  fuse-names :
      (f : ℕ → A → A × Bool)
      → ((i : ℕ) (m : A) → name (f i m).0 ≡ name m)
      → (i : ℕ) (ds : List (A × Lane)) → map first (fuse f i ds) ≡ map first ds
  unfolding fuse first
  fuse-names f keeps i [] = refl
  fuse-names f keeps i ((m, l) ∷ ds) = ap₂ (◌∷◌) (keeps i m) (fuse-names f keeps (i + 1) ds)

  module _ (h : Hooks A) (k : Keeps h name) where
    draft-names : (ms : List A) → map first (draft h ms) ≡ map name ms
    unfolding draft
    draft-names ms = go h.draft_widths (k.draft_keeps)
      where
        go :
            (o : Option (List A → ℕ → A → A × Lane))
            → ((f : List A → ℕ → A → A × Lane)
                → o ≡ some f
                → (ms : List A) (i : ℕ) (m : A) → name (f ms i m).0 ≡ name m)
            → map first (elim o [
              | some f ↦ draft_all (f ms) 0 ms
              | none ↦ draft_all (λ i m. h.want m) 0 ms
            ])
              ≡ map name ms
        go none keeps = draft_all-names (λ i m. h.want m) (λ i m. k.want_keeps m) 0 ms
        go (some f) keeps = draft_all-names (f ms) (λ i m. keeps f refl ms i m) 0 ms

    fused_phase-Splits : (cap : ℕ) (ms : List A) → Splits name (map name ms) (fused_phase h cap ms)
    unfolding fused_phase
    fused_phase-Splits cap ms =
        let ds = draft h ms in
        let ls = trim_widths (map lane_of ds) cap in
        let batch = grant h.set_granted ds ls in
        subst (λ b. Splits name b (leave_done (fuse (h.fused_round batch) 0 batch)))
          (fuse-names (h.fused_round batch) (k.fused_keeps batch) 0 batch
            ∙ grant-names h.set_granted k.granted_keeps ds ls
            ∙ draft-names ms)
          (leave_done-Splits (fuse (h.fused_round batch) 0 batch))

    round_of-Splits :
        (cap : ℕ) (ms : List A) (r : List A × List A)
        → round_of h cap ms ≡ some r
        → Splits name (map name ms) r
    unfolding round_of
    round_of-Splits cap [] r e =
        subst (Splits name []) (some-injective e)
          (record { in_order = nothing; all_there = λ q. refl })
    round_of-Splits cap (m ∷ []) r e = subst (Splits name (name m ∷ [])) (some-injective e) (
        if_intro (Splits name (name m ∷ [])) (h.solo_round m).1
          (λ done. record {
            in_order = goes nothing;
            all_there = λ q. rw k.solo_keeps (omega arith);
          })
          (λ on. record {
            in_order = rw k.solo_keeps (stays nothing);
            all_there = λ q. rw k.solo_keeps (omega arith);
          }))
    round_of-Splits cap (m ∷ (n ∷ ms)) r e =
        elim (Bool-cases (ltb (max_k / 2) (length (m ∷ (n ∷ ms))))) [
          | inl over ↦ absurd (ground arith)
          | inr legal ↦
              subst (Splits name (map name (m ∷ (n ∷ ms)))) (some-injective (rw legal at e))
                (fused_phase-Splits cap (m ∷ (n ∷ ms)))
        ]

    -- Where the members keep their names under the hooks, a round that does not abort drains the
    -- joins of before, and has as joins those that were made while it ran, in their order; it keeps
    -- the cap, returns the number of the members, and counts each of those that were members or
    -- had joined before once: among the members, who are in the order of before, or among those for
    -- whom on_leave was called.
    pub round-Splits :
        (c c' : Core A) (n : ℕ)
        → round h c ≡ some (c', n)
        → Conserved name (h.joined (c.members ++ c.joins)) c (c', n)
    unfolding round
    round-Splits c c' n e =
        let late = h.joined (c.members ++ c.joins) in
        let ms = c.members ++ c.joins in
        let checked = pre_checks h.pre_round ms in
        let before = pre_checks-Splits h.pre_round k.pre_keeps ms in
        go late checked before (round_of h c.cap checked.0) (round_of-Splits c.cap checked.0) (
          ap (λ k. settled k checked.1 (round_of h c.cap checked.0))
            (sym (join_all-joins late (drained c)))
          ∙ e)
      where
        go :
            (late : List A) (checked : List A × List A)
            → Splits name (map name (c.members ++ c.joins)) checked
            → (o : Option (List A × List A))
            → ((r : List A × List A) → o ≡ some r → Splits name (map name checked.0) r)
            → settled (record (drained c) { joins = late }) checked.1 o ≡ some (c', n)
            → Conserved name late c (c', n)
        go late checked before none splits eq = absurd (cc)
        go late (on, gone) before (some (stay, done)) splits eq =
            let s = splits (stay, done) refl in
            subst (Conserved name late c) (some-injective eq) (
              refl,
              refl,
              refl,
              Remains-trans before.in_order s.in_order,
              λ q.
                  rw (map-append name c.left (gone ++ done), map-append name gone done)
                    (omega (
                      arith,
                      s.all_there q,
                      before.all_there q,
                      count-append q (map name c.left) (map name gone ++ map name done),
                      count-append q (map name gone) (map name done),
                    )),
            )
