-- ===== src/Gate/Order.antt =====
-- What the threads can rely on: one holder, first come first served, and no lost wake-up.
use q.Prelude.{
  ◌<◌, ◌%◌, ◌+◌, leb, ℕ, zero, suc, ◌-◌, ◌≤◌, ◌≡◌, refl, sym, ap, ◌∙◌, true, false, List, [], ◌∷◌,
  ◌++◌, Among, inl, inr, arith, length, subst, ◌⊎◌, ◌==◌, Bool, Bool-cases, if_intro,
}
use q.Gate.Wrap.{wrap_small, wrap_gap}
use q.Gate.{
  Gate, word, contended, maybe_yield, Step, acquires, blocks, stir, stirs, erase_ticket, wakes,
  releases, notifies, yields, acquire, block, wake, release, release_notify, Reach, start,
  next_step,
}
use q.Gate.Tickets.{tickets, Shape, free, held, Reach-Shape, Reach-next, erase_first, only}

-- In every state that is reached with fewer than 2 ^ 64 tickets drawn, at most one thread holds the
-- gate, and if one does its ticket is the one that is served; the waiting threads hold the tickets
-- that follow, in the order in which they were drawn, and `nwait` counts them.
pub Reach-alone :
    {g : Gate}
    → Reach g
    → (length g.running ≤ 1)
      × ((t : ℕ) → Among t g.running → t ≡ g.serving)
      × (g.running ++ g.asleep ≡ tickets g.serving (g.next - g.serving))
      × (g.nwait ≡ length g.asleep)
Reach-alone {g} r = go (Reach-Shape r)
  where
    go :
        Shape g
        → (length g.running ≤ 1)
          × ((t : ℕ) → Among t g.running → t ≡ g.serving)
          × (g.running ++ g.asleep ≡ tickets g.serving (g.next - g.serving))
          × (g.nwait ≡ length g.asleep)
    go (free e k a d n) =
        let count : k ≡ g.next - g.serving = omega arith in
        (
          omega (arith, ap length e),
          λ t w. absurd (subst (Among t) e w),
          ap (λ l. l ++ g.asleep) e ∙ a ∙ ap (tickets g.serving) count,
          n,
        )
    go (held e k a d n) =
        let count : suc k ≡ g.next - g.serving = omega arith in
        (
          omega (arith, ap length e),
          λ t w. elim (subst (Among t) e w) [ inl q ↦ sym q | inr x ↦ absurd x ],
          ap (λ l. l ++ g.asleep) e ∙ ap (◌∷◌ g.serving) a ∙ ap (tickets g.serving) count,
          n,
        )

-- Who is blocked although it is its turn has still to be notified.
Noticed : Gate → Type 0
Noticed g = Among g.serving g.blocked → 0 < g.notifying

Among-erase_ticket : (x t : ℕ) (l : List ℕ) → Among x (erase_ticket t l) → Among x l
unfolding erase_ticket
Among-erase_ticket x t [] = λ a. a
Among-erase_ticket x t (y ∷ l) =
    if_intro (λ (m : List ℕ). Among x m → Among x (y ∷ l)) (y == t) (λ hit a. inr a)
      (λ miss a. elim a [ inl e ↦ inl e | inr r ↦ inr (Among-erase_ticket x t l r) ])

Step-Noticed : {g h : Gate} → Step g h → Noticed g → Noticed h
unfolding acquire block stir wake release release_notify maybe_yield Noticed
Step-Noticed {g} (acquires room) k =
    if_intro (λ (h : Gate). Among h.serving h.blocked → 0 < h.notifying) (g.next == g.serving)
      (λ e. k) (λ e a. elim a [ inl own ↦ absurd (ground arith) | inr old ↦ k old ])
Step-Noticed {g} (blocks t w b e) k =
    λ a. elim a [ inl own ↦ absurd (e (sym own)) | inr old ↦ k old ]
Step-Noticed {g} (stirs t b) k = λ a. k (Among-erase_ticket g.serving t g.blocked a)
Step-Noticed {g} (wakes t w b e) k = k
Step-Noticed {g} (releases t w) k = λ a. omega arith
Step-Noticed {g} (notifies p) k = λ a. absurd a
Step-Noticed {g} (yields seen t w room) k =
    if_intro after (contended seen)
      (λ busy.
        if_intro after (leb ((g.next + (word - g.serving)) % word) 1) (λ gone. k)
          (λ go.
            if_intro (λ (l : List ℕ). Among ((g.serving + 1) % word) l → 0 < g.notifying)
              (g.next == (g.serving + 1) % word) (λ mine a. absurd a)
              (λ other a. elim a [ inl own ↦ absurd (ground arith) | inr never ↦ absurd never ])))
      (λ quiet. k)
  where
    after : Gate × Bool → Type 0
    after r = Among (r.0.serving) (r.0.blocked) → 0 < r.0.notifying

Reach-Noticed : {g : Gate} → Reach g → Noticed g
unfolding Noticed
Reach-Noticed start = λ a. absurd a
Reach-Noticed (next_step r st) = Step-Noticed st (Reach-Noticed r)

Among-cases : (t : ℕ) (l : List ℕ) → Among t l ⊎ ¬ Among t l
Among-cases t [] = inr (λ a. a)
Among-cases t (x ∷ xs) = elim (Bool-cases (x == t)) [
  | inl e ↦ inl (inl (ground arith))
  | inr e ↦ elim (Among-cases t xs) [
    | inl later ↦ inl (inr later)
    | inr never ↦ inr (λ a. elim a [ inl same ↦ absurd (ground arith) | inr r ↦ never r ])
  ]
]

-- No wake-up is lost: in a reachable state where nobody holds the gate and somebody waits, it is the
-- turn of the thread that has waited longest, and it is not blocked and can go on; or it is blocked,
-- a release has still to notify, and after that notification the thread can go on.
pub Reach-wakes :
    {g : Gate} (t : ℕ) (rest : List ℕ)
    → Reach g
    → g.running ≡ []
    → g.asleep ≡ t ∷ rest
    → (g.serving ≡ t)
      × (((¬ Among t g.blocked) × Step g (wake t g))
          ⊎ ((0 < g.notifying)
              × Step g (release_notify g)
              × Step (release_notify g) (wake t (release_notify g))))
unfolding release_notify Noticed
Reach-wakes {g} t rest r quiet waiting = go (Reach-Shape r)
  where
    here : Among t g.asleep
    here = subst (Among t) (sym waiting) (inl refl)

    goes_on :
        g.serving ≡ t
        → ((¬ Among t g.blocked) × Step g (wake t g))
          ⊎ ((0 < g.notifying)
              × Step g (release_notify g)
              × Step (release_notify g) (wake t (release_notify g)))
    goes_on first = elim (Among-cases t g.blocked) [
      | inr awake ↦ inl (awake, wakes t here awake first)
      | inl stuck ↦
          let due = Reach-Noticed r (subst (λ s. Among s g.blocked) (sym first) stuck) in
          inr (due, notifies due, wakes t here (λ a. a) first)
    ]

    go :
        Shape g
        → (g.serving ≡ t)
          × (((¬ Among t g.blocked) × Step g (wake t g))
              ⊎ ((0 < g.notifying)
                  × Step g (release_notify g)
                  × Step (release_notify g) (wake t (release_notify g))))
    go (free e zero a d n) = absurd (ground arith)
    go (free e (suc k) a d n) = let first : g.serving ≡ t = cc in (first, goes_on first)
    go (held e k a d n) = absurd (ground arith)

-- A yield that has seen a waiter, while one waits, hands over: the holder has let go, it waits with
-- a new ticket behind all that waited before, and the ticket served next is that of the longest
-- waiter.
pub maybe_yield-rotates :
    {g : Gate} (seen t u : ℕ) (rest : List ℕ)
    → Reach g
    → 0 < seen
    → Among t g.running
    → g.asleep ≡ u ∷ rest
    → ((maybe_yield seen t g).1 ≡ true)
      × ((maybe_yield seen t g).0.running ≡ [])
      × ((maybe_yield seen t g).0.asleep ≡ (u ∷ rest) ++ g.next ∷ [])
      × ((maybe_yield seen t g).0.serving ≡ u)
unfolding maybe_yield
maybe_yield-rotates {g} seen t u rest r saw w waiting = go (Reach-Shape r)
  where
    go :
        Shape g
        → ((maybe_yield seen t g).1 ≡ true)
          × ((maybe_yield seen t g).0.running ≡ [])
          × ((maybe_yield seen t g).0.asleep ≡ (u ∷ rest) ++ g.next ∷ [])
          × ((maybe_yield seen t g).0.serving ≡ u)
    go (free e k a d n) = absurd (subst (Among t) e w)
    go (held e zero a d n) = absurd (ground arith)
    go (held e (suc k) a d n) =
        let size = ap length a in
        let busy : contended seen ≡ true = ground arith in
        let below = Reach-next r in
        let gap = wrap_gap g.next g.serving (omega arith) below in
        let far : leb ((g.next + (word - g.serving)) % word) 1 ≡ false = ground (arith, gap) in
        let up = wrap_small (g.serving + 1) (omega arith) in
        let first : suc g.serving ≡ u = cc in
        rw (busy, far)
          (
            refl,
            erase_first t g.running [] (e ∙ ap (λ x. x ∷ []) (sym (only t e w))),
            ap (λ l. l ++ g.next ∷ []) waiting,
            omega (arith, up),
          )
