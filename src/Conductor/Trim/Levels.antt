-- ===== src/Conductor/Trim/Levels.antt =====
-- What trimming does to the lanes: it meets the cap where the floor allows, takes from the widest
-- only, and stops in time.
use q.Prelude.{
  ℕ, zero, suc, ◌-◌, ◌*◌, ◌≤◌, ◌<◌, min, true, Option, none, some, List, [], ◌∷◌, length, leb, ltb,
  get_elem?, Bool-cases, inl, inr, ◌⊎◌, ◌≡◌, refl, sym, ap, subst, ◌∙◌, arith, ◌==◌,
}
use q.Conductor.Trim.{Lane, total, pick_from, decrement, trim_loop, trim_widths}
use q.Conductor.Trim.Pick.{
  AllAtMost, AllAtMost-get, Picked, pick-Picked, total-decrement, get_elem?-decrement_self,
  get_elem?-decrement_other,
}

-- The lanes `cur` come from `orig`: each has its class, not more than it wanted, and not less than
-- it wanted or the floor; and no lane is wider by more than one than one that lost.
pub record Trims (orig cur : List Lane) : Type 0 where
  pub same_length : length cur ≡ length orig
  pub bounds :
      (i : ℕ) (l : Lane)
      → get_elem? orig i ≡ some l
      → (l' : Lane) × (get_elem? cur i ≡ some l')
        × (l'.is_suffix ≡ l.is_suffix)
        × (l'.width ≤ l.width)
        × (min 2 l.width ≤ l'.width)
  pub level :
      (i j : ℕ) (l l' m : Lane)
      → get_elem? orig i ≡ some l
      → get_elem? cur i ≡ some l'
      → get_elem? cur j ≡ some m
      → l'.width < l.width
      → m.width ≤ suc l'.width

Trims-refl : (ls : List Lane) → Trims ls ls
Trims-refl ls = record {
  same_length = refl;
  bounds = λ i l h. (l, h, refl, omega arith, omega arith);
  level = λ i j l l' m h h' g lt. absurd (lost i l l' h h' lt);
}
  where
    lost :
        (i : ℕ) (l l' : Lane)
        → get_elem? ls i ≡ some l
        → get_elem? ls i ≡ some l'
        → l'.width < l.width
        → ⊥
    lost i l l' h h' lt =
        let e : ◌≡◌ {A = Option Lane} (some l) (some l') = sym h ∙ h' in ground arith

length-decrement : (i : ℕ) (ls : List Lane) → length (decrement i ls) ≡ length ls
unfolding decrement
length-decrement i [] = refl
length-decrement zero (l ∷ ls) = refl
length-decrement (suc i) (l ∷ ls) = ap suc (length-decrement i ls)

some-injective {ℓ} : {A : Type ℓ} {a b : A} → some a ≡ some b → a ≡ b
some-injective h = cc

module _ (orig cur : List Lane) (k : ℕ) (m : Lane) (t : Trims orig cur)
    (p : Picked cur (some (k, m))) where
  less : Lane
  less = record m { width = m.width - 1 }

  -- A lane of the new list is the victim, or as before.
  now :
      (i : ℕ) (x : Lane)
      → get_elem? (decrement k cur) i ≡ some x
      → ((k ≡ i) × (x ≡ record m { width = m.width - 1 })) ⊎ (get_elem? cur i ≡ some x)
  now i x h = elim (Bool-cases (k == i)) [
    | inl e ↦
        let same : k ≡ i = ground arith in
        inl (
          same,
          some-injective (
              sym h
              ∙ ap (get_elem? (decrement k cur)) (sym same)
              ∙ get_elem?-decrement_self cur k p.0),
        )
    | inr ne ↦ inr (sym (get_elem?-decrement_other cur k i (λ e. ground arith)) ∙ h)
  ]

  decrement-bounds :
      (i : ℕ) (l : Lane)
      → get_elem? orig i ≡ some l
      → (l' : Lane) × (get_elem? (decrement k cur) i ≡ some l')
        × (l'.is_suffix ≡ l.is_suffix)
        × (l'.width ≤ l.width)
        × (min 2 l.width ≤ l'.width)
  decrement-bounds i l h =
      let (l', at, same, low, high) = t.bounds i l h in
      elim (Bool-cases (k == i)) [
        | inl e ↦
            let here : k ≡ i = ground arith in
            let is_m : l' ≡ m = some-injective (sym at ∙ ap (get_elem? cur) (sym here) ∙ p.0) in
            let widths : l'.width ≡ m.width = ap (λ (x : Lane). x.width) is_m in
            (
              record m { width = m.width - 1 },
              ap (get_elem? (decrement k cur)) (sym here) ∙ get_elem?-decrement_self cur k p.0,
              ap (λ (x : Lane). x.is_suffix) (sym is_m) ∙ same,
              omega (arith, widths, low),
              omega (arith, widths, high, p.1),
            )
        | inr ne ↦ (l', get_elem?-decrement_other cur k i (λ e. ground arith) ∙ at, same, low, high)
      ]

  decrement-level :
      (i j : ℕ) (l l' n : Lane)
      → get_elem? orig i ≡ some l
      → get_elem? (decrement k cur) i ≡ some l'
      → get_elem? (decrement k cur) j ≡ some n
      → l'.width < l.width
      → n.width ≤ suc l'.width
  decrement-level i j l l' n h h' g lt = go (now i l' h') (now j n g)
    where
      go :
          ((k ≡ i) × (l' ≡ record m { width = m.width - 1 })) ⊎ (get_elem? cur i ≡ some l')
          → ((k ≡ j) × (n ≡ record m { width = m.width - 1 })) ⊎ (get_elem? cur j ≡ some n)
          → n.width ≤ suc l'.width
      go (inl (e, x)) (inl (f, y)) =
          let a = ap (λ (z : Lane). z.width) x in
          let b = ap (λ (z : Lane). z.width) y in omega (arith, a, b)
      go (inl (e, x)) (inr old) =
          let a = ap (λ (z : Lane). z.width) x in
          omega (arith, a, AllAtMost-get m.width cur j p.2 old, p.1)
      go (inr old) (inl (f, y)) =
          let b = ap (λ (z : Lane). z.width) y in omega (arith, b, t.level i k l l' m h old p.0 lt)
      go (inr old) (inr old') = t.level i j l l' n h old old' lt

  decrement-Trims : Trims orig (decrement k cur)
  decrement-Trims = record {
    same_length = length-decrement k cur ∙ t.same_length;
    bounds = decrement-bounds;
    level = decrement-level;
  }

-- How the loop ends: within the cap, or with every lane at the floor; it never goes below the cap.
pub record Ends (sum cap : ℕ) (orig cur : List Lane) : Type 0 where
  pub trims : Trims orig cur
  pub met : (total cur ≤ cap) ⊎ AllAtMost 2 cur
  pub no_more : (total cur ≡ sum) ⊎ (cap ≤ total cur)

trim_loop-Ends :
    (f cap : ℕ) (orig cur : List Lane)
    → total cur ≤ f
    → Trims orig cur
    → Ends (total cur) cap orig (trim_loop f (total cur) cap cur)
unfolding trim_loop
trim_loop-Ends zero cap orig cur enough t = record {
  trims = t;
  met = inl (omega arith);
  no_more = inl refl;
}
trim_loop-Ends (suc f) cap orig cur enough t = elim (Bool-cases (ltb cap (total cur))) [
  | inr fits ↦ rw fits (record { trims = t; met = inl (ground arith); no_more = inl refl })
  | inl over ↦ rw over (
      victim over (pick_from 0 none cur) (pick-Picked cur) (λ i l p.
        trim_loop-Ends f cap orig (decrement i cur) (omega (arith, total-decrement cur i p.0, p.1))
          (decrement-Trims orig cur i l t p)))
]
  where
    victim :
        ltb cap (total cur) ≡ true
        → (p : Option (ℕ × Lane)) → Picked cur p
        → ((i : ℕ) (l : Lane)
            → Picked cur (some (i, l))
            → Ends
                (total (decrement i cur))
                cap
                orig
                (trim_loop f (total (decrement i cur)) cap (decrement i cur)))
        → Ends (total cur) cap orig (elim p [
          | none ↦ cur
          | some (i, l) ↦ trim_loop f (total cur - 1) cap (decrement i cur)
        ])
    victim over none low rest = record { trims = t; met = inr low; no_more = inl refl }
    victim over (some (i, l)) p rest =
        let down = total-decrement cur i p.0 (omega (arith, p.1)) in
        let back : total (decrement i cur) ≡ total cur - 1 = omega (arith, down) in
        let r = rest i l p in
        subst (λ n. Ends (total cur) cap orig (trim_loop f n cap (decrement i cur))) back
          (record {
            trims = r.trims;
            met = r.met;
            no_more = inr (elim r.no_more [ inl e ↦ ground (arith, e, down) | inr h ↦ h ]);
          })

-- Trimming the widths of two lanes or more ends: every lane keeps its class, gets no more than it
-- wanted and no less than it wanted or 2, and a lane that lost is not narrower by two than any other;
-- the sum is within the cap, or every lane is at 2 or less; and the sum is that of the wishes, or
-- not below the cap.
pub trim_widths-Ends :
    (ls : List Lane) (cap : ℕ) → 2 ≤ length ls → Ends (total ls) cap ls (trim_widths ls cap)
unfolding trim_widths
trim_widths-Ends ls cap two = elim (Bool-cases (leb (length ls) 1)) [
  | inl solo ↦ absurd (ground arith)
  | inr many ↦ rw many (trim_loop-Ends (total ls) cap ls ls (omega arith) (Trims-refl ls))
]

total-AllAtMost : (ls : List Lane) → AllAtMost 2 ls → total ls ≤ 2 * length ls
total-AllAtMost [] a = omega arith
total-AllAtMost (l ∷ ls) a = omega (arith, a.0, total-AllAtMost ls a.1)

-- Where the cap leaves two for each lane, the trimmed widths are within it.
pub trim_widths-fits :
    (ls : List Lane) (cap : ℕ)
    → 2 ≤ length ls
    → 2 * length ls ≤ cap
    → total (trim_widths ls cap) ≤ cap
trim_widths-fits ls cap two room =
    let e = trim_widths-Ends ls cap two in
    elim e.met [
      | inl h ↦ h
      | inr low ↦ omega (arith, total-AllAtMost (trim_widths ls cap) low, e.trims.same_length, room)
    ]
