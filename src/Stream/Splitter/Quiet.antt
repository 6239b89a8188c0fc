-- ===== src/Stream/Splitter/Quiet.antt =====
-- Where no marker can start: in front of the first one, and in front of the kept tail.
use q.Prelude.{
  subst, codes, ap₂, ℕ, zero, suc, ◌+◌, ◌≤◌, ◌<◌, true, some, [], ◌∷◌, ◌++◌, ◌≡◌, refl, sym, ap,
  ◌∙◌, arith, Bytes, Among, inl, inr, find, find_split, find-some, length, length-take, length-drop,
  take, drop, take-append-drop, append_assoc, append-nil, starts_with, StandsAt, Absent, Without,
}
use q.Stream.Holdback.{tail_keep, stands_before_tail, drop-append}
use q.Stream.Splitter.{Chan, push_head}
use q.Stream.Splitter.Route.{route, tag, tags, markers, Quiet, route-Quiet}

-- A marker has `<` in front and nowhere else.
abbrev Angled : Bytes → Type 0
Angled m = (r : Bytes) × (m ≡ b'<' ∷ r) × Without b'<' r

markers-Angled : (c : Chan) (m : Bytes) → Among m (markers c) → Angled m
markers-Angled Chan.text m (inl e) = (codes "think>", sym e, omega arith)
markers-Angled Chan.text m (inr (inl e)) = (codes "tool_call>", sym e, omega arith)
markers-Angled Chan.text m (inr (inr (inl e))) = (codes "/tool_call>", sym e, omega arith)
markers-Angled Chan.think m (inl e) = (codes "/think>", sym e, omega arith)
markers-Angled Chan.tool m (inl e) = (codes "/tool_call>", sym e, omega arith)
markers-Angled Chan.text m (inr (inr (inr x))) = elim x [ ]
markers-Angled Chan.think m (inr x) = elim x [ ]
markers-Angled Chan.tool m (inr x) = elim x [ ]

-- A text without `<` that starts in front of a `<` ends in front of it.
starts_with-Without :
    (r a b : Bytes)
    → Without b'<' r
    → starts_with r (a ++ (b'<' ∷ b)) ≡ true
    → starts_with r a ≡ true
unfolding starts_with
starts_with-Without [] a b w h = refl
starts_with-Without (x ∷ r) [] b w h = absurd (ground arith)
starts_with-Without (x ∷ r) (y ∷ a) b w h = ground (arith, starts_with-Without r a b w.1)

starts_with-longer : (m a b : Bytes) → starts_with m a ≡ true → starts_with m (a ++ b) ≡ true
unfolding starts_with
starts_with-longer [] a b h = refl
starts_with-longer (x ∷ m) [] b h = absurd (ground arith)
starts_with-longer (x ∷ m) (y ∷ a) b h = ground (arith, starts_with-longer m a b)

Angled-before :
    (m : Bytes) (a b : Bytes)
    → Angled m
    → 0 < length a
    → starts_with m (a ++ (b'<' ∷ b)) ≡ true
    → starts_with m a ≡ true
unfolding starts_with
Angled-before m [] b g pos h = absurd (omega arith)
Angled-before m (y ∷ a) b (r, e, w) pos h =
    subst (λ n. starts_with n (y ∷ a) ≡ true) (sym e)
      (go (subst (λ n. starts_with n (y ∷ (a ++ (b'<' ∷ b))) ≡ true) e h))
  where
    go :
        starts_with (b'<' ∷ r) (y ∷ (a ++ (b'<' ∷ b))) ≡ true
        → starts_with (b'<' ∷ r) (y ∷ a) ≡ true
    go k = ground (arith, starts_with-Without r a b w)

-- In front of a hit that no other marker precedes, no marker starts, whatever follows the buffer.
module _ (c : Chan) (hold rest : Bytes) (p : Bytes) (e : ℕ) (hit : find p hold ≡ some e) where
  split_hold : hold ++ rest ≡ take e hold ++ (drop e hold ++ rest)
  split_hold =
      ap (λ t. t ++ rest) (sym (take-append-drop e hold))
      ∙ append_assoc (take e hold) (drop e hold) rest

  within : length (take e hold) ≡ e
  within = omega (arith, length-take e hold, (find-some p hold hit).1)

  pub Quiet-before :
      Among p (markers c)
      → ((m : Bytes) (j : ℕ) → Among m (markers c) → j < e → ¬ StandsAt m hold j)
      → Quiet c (take e hold) (drop e hold ++ rest)
  Quiet-before listed first m j among lt h = first m j among (omega (arith, within)) (
      subst (λ t. starts_with m t ≡ true) rejoin
        (starts_with-longer m (drop j (take e hold)) (drop e hold) inside))
    where
      opened : (r : Bytes) × (drop e hold ++ rest ≡ b'<' ∷ r)
      opened =
          let (r, shape, _) = markers-Angled c p listed in
          (
            r ++ (drop (e + length p) hold ++ rest),
            ap (λ t. t ++ rest) (find_split p hold hit)
                ∙ append_assoc p _ rest
                ∙ ap (λ t. t ++ (drop (e + length p) hold ++ rest)) shape,
          )

      inside : starts_with m (drop j (take e hold)) ≡ true
      inside =
          Angled-before m (drop j (take e hold)) opened.0 (markers-Angled c m among)
            (omega (arith, length-drop j (take e hold)))
            (subst (λ t. starts_with m t ≡ true)
              (drop-append j (take e hold) (drop e hold ++ rest) (omega arith)
                ∙ ap (λ t. drop j (take e hold) ++ t) opened.1)
              h)

      rejoin : drop j (take e hold) ++ drop e hold ≡ drop j hold
      rejoin =
          sym (drop-append j (take e hold) (drop e hold) (omega arith))
          ∙ ap (drop j) (take-append-drop e hold)

-- In front of the kept tail of a buffer without markers, none starts.
pub Quiet-tail :
    (c : Chan) (hold rest : Bytes) (keep n : ℕ)
    → ((m : Bytes) → Among m (markers c) → Absent m hold × (tail_keep m hold ≤ keep))
    → n + keep ≤ length hold
    → Quiet c (take n hold) (drop n hold ++ rest)
Quiet-tail c hold rest keep n free bound m j among lt h =
    let (absent, le) = free m among in
    absent j (
      stands_before_tail m hold rest j (omega (arith, length-take n hold)) (
        subst (λ t. StandsAt m t j)
          (sym (append_assoc (take n hold) (drop n hold) rest)
            ∙ ap (λ t. t ++ rest) (take-append-drop n hold))
          h))

tags-push_head : (c : Chan) (n : ℕ) (hold : Bytes) → tags (push_head c n hold) ≡ tag c (take n hold)
tags-push_head c zero hold = refl
tags-push_head c (suc n) hold = append-nil _

-- A round at a marker routes what stands in front of it, and drops it.
pub route_at :
    (c d : Chan) (hold rest : Bytes) (p : Bytes) (e : ℕ)
    → find p hold ≡ some e
    → Among p (markers c)
    → ((m : Bytes) (j : ℕ) → Among m (markers c) → j < e → ¬ StandsAt m hold j)
    → ((b : Bytes) → route 0 c (p ++ b) ≡ route 0 d b)
    → route 0 c (hold ++ rest)
      ≡ tags (push_head c e hold) ++ route 0 d (drop (e + length p) hold ++ rest)
route_at c d hold rest p e hit listed first switch =
    ap (route 0 c) (split_hold c hold rest p e hit)
    ∙ route-Quiet c (take e hold) (drop e hold ++ rest)
        (Quiet-before c hold rest p e hit listed first)
    ∙ ap₂ (λ a b. a ++ b) (sym (tags-push_head c e hold))
        (ap (route 0 c) (ap (λ t. t ++ rest) (find_split p hold hit) ∙ append_assoc p _ rest)
          ∙ switch _)
