-- ===== src/Conductor/Trim/Pick.antt =====
-- The victim of a round is a widest lane above the floor, and there is none only if no lane is above.
use q.Prelude.{
  ℕ, zero, suc, ◌+◌, ◌-◌, ◌≤◌, ◌<◌, true, false, Option, none, some, List, [], ◌∷◌, ◌++◌, length,
  leb, get_elem?, Bool-cases, inl, inr, ◌≡◌, refl, sym, ap, subst, arith, append_assoc, append-nil,
  length-append, if◌then◌else◌, ◌⊎◌,
}
use q.Conductor.Trim.{Lane, total, beats, pick_next, pick_from, decrement}

-- No lane is wider than `n`.
abbrev pub AllAtMost : ℕ → List Lane → Type 0
AllAtMost n [] = Unit
AllAtMost n (l ∷ ls) = (l.width ≤ n) × AllAtMost n ls

AllAtMost-weaken : (m n : ℕ) (ls : List Lane) → m ≤ n → AllAtMost m ls → AllAtMost n ls
AllAtMost-weaken m n [] h a = tt
AllAtMost-weaken m n (l ∷ ls) h a = (omega arith, AllAtMost-weaken m n ls h a.1)

AllAtMost-append :
    (n : ℕ) (ls : List Lane) (l : Lane) → AllAtMost n ls → l.width ≤ n → AllAtMost n (ls ++ l ∷ [])
AllAtMost-append n [] l a h = (h, tt)
AllAtMost-append n (m ∷ ls) l a h = (a.0, AllAtMost-append n ls l a.1 h)

pub AllAtMost-get :
    (n : ℕ) (ls : List Lane) (i : ℕ) {l : Lane}
    → AllAtMost n ls
    → get_elem? ls i ≡ some l
    → l.width ≤ n
AllAtMost-get n [] i a h = absurd (cc)
AllAtMost-get n (m ∷ ls) zero a h = ground arith
AllAtMost-get n (m ∷ ls) (suc i) a h = AllAtMost-get n ls i a.1 h

-- What the pick so far says of the lanes so far.
abbrev pub Picked : List Lane → Option (ℕ × Lane) → Type 0
Picked ls none = AllAtMost 2 ls
Picked ls (some (j, m)) = (get_elem? ls j ≡ some m) × (2 < m.width) × AllAtMost m.width ls

get_elem?-append_new : (ls : List Lane) (l : Lane) → get_elem? (ls ++ l ∷ []) (length ls) ≡ some l
get_elem?-append_new [] l = refl
get_elem?-append_new (m ∷ ls) l = get_elem?-append_new ls l

get_elem?-append_old :
    (ls : List Lane) (l : Lane) (i : ℕ) {m : Lane}
    → get_elem? ls i ≡ some m
    → get_elem? (ls ++ l ∷ []) i ≡ some m
get_elem?-append_old [] l i h = absurd (cc)
get_elem?-append_old (x ∷ ls) l zero h = h
get_elem?-append_old (x ∷ ls) l (suc i) h = get_elem?-append_old ls l i h

Picked-skip :
    (ls : List Lane) (l : Lane) (p : Option (ℕ × Lane))
    → Picked ls p
    → l.width ≤ 2
    → Picked (ls ++ l ∷ []) p
Picked-skip ls l none a h = AllAtMost-append 2 ls l a h
Picked-skip ls l (some (j, m)) a h =
    (get_elem?-append_old ls l j a.0, a.1, AllAtMost-append m.width ls l a.2 (omega arith))

Picked-next :
    (ls : List Lane) (l : Lane) (p : Option (ℕ × Lane))
    → Picked ls p
    → 2 < l.width
    → Picked (ls ++ l ∷ []) (pick_next p (length ls) l)
Picked-next ls l none a h = (
  get_elem?-append_new ls l,
  h,
  AllAtMost-append l.width ls l (AllAtMost-weaken 2 l.width ls (omega arith) a) (omega arith),
)
Picked-next ls l (some (j, m)) a h = elim (Bool-cases (beats l m)) [
  | inl wins ↦
      let more : m.width ≤ l.width = ground arith in
      rw wins (
        get_elem?-append_new ls l,
        h,
        AllAtMost-append l.width ls l (AllAtMost-weaken m.width l.width ls more a.2) (omega arith),
      )
  | inr loses ↦
      let less : l.width ≤ m.width = ground arith in
      rw loses (get_elem?-append_old ls l j a.0, a.1, AllAtMost-append m.width ls l a.2 less)
]

pick_from-Picked :
    (done ls : List Lane) (i : ℕ) (p : Option (ℕ × Lane))
    → i ≡ length done
    → Picked done p
    → Picked (done ++ ls) (pick_from i p ls)
unfolding pick_from
pick_from-Picked done [] i p e a = subst (λ x. Picked x p) (sym (append-nil done)) a
pick_from-Picked done (l ∷ ls) i p e a =
    subst (λ x. Picked x (pick_from (i + 1) (if leb l.width 2 then p else pick_next p i l) ls))
      (append_assoc done (l ∷ []) ls)
      (pick_from-Picked (done ++ l ∷ []) ls (i + 1) (if leb l.width 2 then p else pick_next p i l)
        (omega (arith, length-append done (l ∷ []))) (step (Bool-cases (leb l.width 2))))
  where
    step :
        (leb l.width 2 ≡ true) ⊎ (leb l.width 2 ≡ false)
        → Picked (done ++ l ∷ []) (if leb l.width 2 then p else pick_next p i l)
    step (inl low) = rw low (Picked-skip done l p a (ground arith))
    step (inr high) = rw high (rw e (Picked-next done l p a (ground arith)))

pub pick-Picked : (ls : List Lane) → Picked ls (pick_from 0 none ls)
pick-Picked ls = pick_from-Picked [] ls 0 none refl tt

pub total-decrement :
    (ls : List Lane) (i : ℕ) {l : Lane}
    → get_elem? ls i ≡ some l
    → 0 < l.width
    → total (decrement i ls) + 1 ≡ total ls
unfolding decrement
total-decrement [] i h pos = absurd (cc)
total-decrement (m ∷ ls) zero h pos = ground arith
total-decrement (m ∷ ls) (suc i) h pos = omega (arith, total-decrement ls i h pos)

pub get_elem?-decrement_self :
    (ls : List Lane) (i : ℕ) {l : Lane}
    → get_elem? ls i ≡ some l
    → get_elem? (decrement i ls) i ≡ some (record l { width = l.width - 1 })
unfolding decrement
get_elem?-decrement_self [] i h = absurd (cc)
get_elem?-decrement_self (m ∷ ls) zero h = ground arith
get_elem?-decrement_self (m ∷ ls) (suc i) h = get_elem?-decrement_self ls i h

pub get_elem?-decrement_other :
    (ls : List Lane) (i j : ℕ) → (i ≡ j → ⊥) → get_elem? (decrement i ls) j ≡ get_elem? ls j
unfolding decrement
get_elem?-decrement_other [] i j ne = refl
get_elem?-decrement_other (m ∷ ls) zero zero ne = absurd (ne refl)
get_elem?-decrement_other (m ∷ ls) zero (suc j) ne = refl
get_elem?-decrement_other (m ∷ ls) (suc i) zero ne = refl
get_elem?-decrement_other (m ∷ ls) (suc i) (suc j) ne =
    get_elem?-decrement_other ls i j (λ e. ne (ap suc e))
