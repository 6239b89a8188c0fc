-- ===== src/Gate/Tickets.antt =====
-- The invariant of the gate: the tickets out are consecutive, from the one that is served.
use q.Prelude.{
  ◌%◌, ◌<◌, ℕ, zero, suc, ◌+◌, ◌-◌, ◌≤◌, ◌≡◌, refl, sym, ap, ap₂, ◌∙◌, subst, List, [], ◌∷◌, ◌++◌,
  ◌==◌, leb, Among, inl, inr, arith, length, length-append, Bool-cases,
}
use q.Gate.Wrap.{wrap_small}
use q.Gate.{
  Gate, idle, word, erase_ticket, acquire, wake, release, contended, maybe_yield, Step, acquires,
  stir, stirs, blocks, notifies, block, release_notify, wakes, releases, yields, Reach, start,
  next_step,
}

-- `k` tickets from `n` on.
abbrev pub tickets : ℕ → ℕ → List ℕ
tickets n zero = []
tickets n (suc k) = n ∷ tickets (suc n) k

tickets-append : (k n : ℕ) → tickets n k ++ (n + k) ∷ [] ≡ tickets n (suc k)
tickets-append zero n = ground arith
tickets-append (suc k) n =
    ap (◌∷◌ n) (ap (λ m. tickets (suc n) k ++ m ∷ []) (omega arith) ∙ tickets-append k (suc n))

tickets-ge : (k n t : ℕ) → Among t (tickets n k) → n ≤ t
tickets-ge zero n t a = absurd a
tickets-ge (suc k) n t (inl e) = omega arith
tickets-ge (suc k) n t (inr r) = omega (arith, tickets-ge k (suc n) t r)

drawn : {l : List ℕ} (m k n : ℕ) → l ≡ tickets m k → m + k ≡ n → l ++ n ∷ [] ≡ tickets m (suc k)
drawn m k n e d = ap₂ (λ l x. l ++ x ∷ []) e (sym d) ∙ tickets-append k m

-- Either nobody runs and all tickets wait, or the served ticket runs and the rest wait.
pub data Shape (g : Gate) : Type 0 where
  free :
      g.running ≡ []
      → (k : ℕ) → g.asleep ≡ tickets g.serving k
      → g.serving + k ≡ g.next
      → g.nwait ≡ length g.asleep
      → Shape g
  held :
      g.running ≡ g.serving ∷ []
      → (k : ℕ) → g.asleep ≡ tickets (suc g.serving) k
      → g.serving + suc k ≡ g.next
      → g.nwait ≡ length g.asleep
      → Shape g

pub idle-Shape : Shape idle
idle-Shape = free refl 0 refl refl refl

length-drawn : (l : List ℕ) (n w : ℕ) → w ≡ length l → w + 1 ≡ length (l ++ n ∷ [])
length-drawn l n w e = omega (arith, length-append l (n ∷ []))

pub acquire-Shape : (g : Gate) → g.next + 1 < word → Shape g → Shape (acquire g)
unfolding acquire
acquire-Shape g room (free r zero a d n) = elim (Bool-cases (g.next == g.serving)) [
  | inl e ↦ rw (e, wrap_small (g.next + 1) room) (held (ground arith) 0 a (omega arith) n)
  | inr e ↦ absurd (ground arith)
]
acquire-Shape g room (free r (suc k) a d n) = elim (Bool-cases (g.next == g.serving)) [
  | inl e ↦ absurd (ground arith)
  | inr e ↦
      rw (e, wrap_small (g.next + 1) room)
        (free r (suc (suc k)) (drawn g.serving (suc k) g.next a d) (omega arith)
          (length-drawn g.asleep g.next g.nwait n))
]
acquire-Shape g room (held r k a d n) = elim (Bool-cases (g.next == g.serving)) [
  | inl e ↦ absurd (ground arith)
  | inr e ↦
      rw (e, wrap_small (g.next + 1) room)
        (held r (suc k) (drawn (suc g.serving) k g.next a (omega arith)) (omega arith)
          (length-drawn g.asleep g.next g.nwait n))
]

pub erase_first : (t : ℕ) (l k : List ℕ) → l ≡ t ∷ k → erase_ticket t l ≡ k
unfolding erase_ticket
erase_first t l k e = ap (erase_ticket t) e ∙ ground arith

pub wake-Shape : (g : Gate) (t : ℕ) → Among t g.asleep → g.serving ≡ t → Shape g → Shape (wake t g)
unfolding wake
wake-Shape g t w e (free r zero a d n) = absurd (subst (Among t) a w)
wake-Shape g t w e (free r (suc k) a d n) =
    let rest =
      erase_first t g.asleep (tickets (suc g.serving) k)
        (a ∙ ap (λ s. s ∷ tickets (suc g.serving) k) e) in
    held (ap₂ ◌∷◌ (sym e) r) k rest d (omega (arith, ap length rest, ap length a, n))
wake-Shape g t w e (held r k a d n) =
    absurd (omega (arith, tickets-ge k (suc g.serving) t (subst (Among t) a w)))

pub only : {l : List ℕ} {s : ℕ} (t : ℕ) → l ≡ s ∷ [] → Among t l → t ≡ s
only t r w = elim (subst (Among t) r w) [ inl e ↦ sym e | inr x ↦ absurd x ]

pub release-Shape :
    (g : Gate) (t : ℕ) → Among t g.running → g.next < word → Shape g → Shape (release t g)
unfolding release
release-Shape g t w below (free r k a d n) = absurd (subst (Among t) r w)
release-Shape g t w below (held r k a d n) = rw (wrap_small (g.serving + 1) (omega arith)) (
    free (erase_first t g.running [] (r ∙ ap (λ x. x ∷ []) (sym (only t r w)))) k
      (a ∙ ap (λ m. tickets m k) (omega arith)) (omega arith) n)

pub maybe_yield-Shape :
    (g : Gate) (seen t : ℕ)
    → Among t g.running
    → g.next + 1 < word
    → Shape g
    → Shape (maybe_yield seen t g).0
unfolding maybe_yield
maybe_yield-Shape g seen t w room (free r k a d n) = absurd (subst (Among t) r w)
maybe_yield-Shape g seen t w room (held r k a d n) = elim (Bool-cases (contended seen)) [
  | inr e ↦ rw e (held r k a d n)
  | inl e ↦ elim (Bool-cases (leb ((g.next + (word - g.serving)) % word) 1)) [
    | inl f ↦ rw (e, f) (held r k a d n)
    | inr f ↦
        rw (e, f, wrap_small (g.next + 1) room, wrap_small (g.serving + 1) (omega arith))
          (free (erase_first t g.running [] (r ∙ ap (λ x. x ∷ []) (sym (only t r w)))) (suc k)
            (drawn (suc g.serving) k g.next a (omega arith)
              ∙ ap (λ m. tickets m (suc k)) (omega arith))
            (omega arith) (length-drawn g.asleep g.next g.nwait n))
  ]
]

block-Shape : (g : Gate) (t : ℕ) → Shape g → Shape (block t g)
unfolding block
block-Shape g t (free r k a d n) = free r k a d n
block-Shape g t (held r k a d n) = held r k a d n

stir-Shape : (g : Gate) (t : ℕ) → Shape g → Shape (stir t g)
unfolding stir
stir-Shape g t (free r k a d n) = free r k a d n
stir-Shape g t (held r k a d n) = held r k a d n

notify-Shape : (g : Gate) → Shape g → Shape (release_notify g)
unfolding release_notify
notify-Shape g (free r k a d n) = free r k a d n
notify-Shape g (held r k a d n) = held r k a d n

Step-Shape : {g h : Gate} → Step g h → g.next < word → Shape g → Shape h
Step-Shape {g} (acquires room) below s = acquire-Shape g room s
Step-Shape {g} (blocks t w b e) below s = block-Shape g t s
Step-Shape {g} (stirs t b) below s = stir-Shape g t s
Step-Shape {g} (wakes t w b e) below s = wake-Shape g t w e s
Step-Shape {g} (notifies p) below s = notify-Shape g s
Step-Shape {g} (releases t w) below s = release-Shape g t w below s
Step-Shape {g} (yields seen t w room) below s = maybe_yield-Shape g seen t w room s

-- The counter stays below the wrap-around.
Step-next : {g h : Gate} → Step g h → g.next < word → h.next < word
unfolding acquire block stir wake release release_notify maybe_yield
Step-next {g} (acquires room) below = ground arith
Step-next {g} (blocks t w b e) below = below
Step-next {g} (stirs t b) below = below
Step-next {g} (wakes t w b e) below = below
Step-next {g} (notifies p) below = below
Step-next {g} (releases t w) below = below
Step-next {g} (yields seen t w room) below = ground arith

pub Reach-next : {g : Gate} → Reach g → g.next < word
Reach-next start = omega arith
Reach-next (next_step r st) = Step-next st (Reach-next r)

pub Reach-Shape : {g : Gate} → Reach g → Shape g
Reach-Shape start = idle-Shape
Reach-Shape (next_step r st) = Step-Shape st (Reach-next r) (Reach-Shape r)
