-- ===== src/Stream/Splitter/Route.antt =====
-- The routing, byte by byte: what the splitter is meant to do with a whole text.
use q.Prelude.{
  ℕ, zero, suc, ◌<◌, true, false, List, [], ◌∷◌, ◌++◌, ◌≡◌, refl, arith, map, Bytes, starts_with,
  length, Among, StandsAt, append_assoc, inl, inr,
}
use q.Stream.Splitter.{Chan, t_open, t_close, c_open, c_close, Segment}

-- Outside reasoning and calls a `<think>` opens reasoning, a `<tool_call>` opens a call, and a
-- stray `</tool_call>` is dropped; inside, only the closer counts. Every other byte goes to the
-- channel that it stands in. The number counts the bytes of a marker still to be dropped.
unfoldable pub route : ℕ → Chan → Bytes → List (Chan × ℕ)
route k c [] = []
route (suc k) c (x ∷ s) = route k c s
route zero Chan.text (x ∷ s) = elim (starts_with t_open (x ∷ s)) [
  | true ↦ route 6 Chan.think s
  | false ↦ elim (starts_with c_open (x ∷ s)) [
    | true ↦ route 10 Chan.tool s
    | false ↦ elim (starts_with c_close (x ∷ s)) [
      | true ↦ route 11 Chan.text s
      | false ↦ (Chan.text, x) ∷ route 0 Chan.text s
    ]
  ]
]
route zero Chan.think (x ∷ s) = elim (starts_with t_close (x ∷ s)) [
  | true ↦ route 7 Chan.text s
  | false ↦ (Chan.think, x) ∷ route 0 Chan.think s
]
route zero Chan.tool (x ∷ s) = elim (starts_with c_close (x ∷ s)) [
  | true ↦ route 11 Chan.text s
  | false ↦ (Chan.tool, x) ∷ route 0 Chan.tool s
]

-- The bytes of the segments, each with its channel.
abbrev pub tag : Chan → Bytes → List (Chan × ℕ)
tag c s = map (λ x. (c, x)) s

abbrev pub tags : List Segment → List (Chan × ℕ)
tags [] = []
tags ((c, s) ∷ segs) = tag c s ++ tags segs

pub tags-append : (a b : List Segment) → tags (a ++ b) ≡ tags a ++ tags b
tags-append [] b = refl
tags-append ((c, s) ∷ a) b = rw (tags-append a b, append_assoc)

abbrev pub markers : Chan → List Bytes
markers Chan.text = t_open ∷ (c_open ∷ (c_close ∷ []))
markers Chan.think = t_close ∷ []
markers Chan.tool = c_close ∷ []

-- No marker of the channel starts in `a`, within `a ++ b`.
abbrev pub Quiet : Chan → Bytes → Bytes → Type 0
Quiet c a b = (m : Bytes) (j : ℕ) → Among m (markers c) → j < length a → ¬ StandsAt m (a ++ b) j

Quiet-cons : (c : Chan) (x : ℕ) (a b : Bytes) → Quiet c (x ∷ a) b → Quiet c a b
Quiet-cons c x a b q m j among lt = q m (suc j) among (omega arith)

-- Bytes in which no marker starts go to the channel as they are.
pub route-Quiet :
    (c : Chan) (a b : Bytes) → Quiet c a b → route 0 c (a ++ b) ≡ tag c a ++ route 0 c b
unfolding route
route-Quiet c [] b q = refl
route-Quiet Chan.text (x ∷ a) b q = ground (
  arith,
  q t_open 0 (inl refl) (omega arith),
  q c_open 0 (inr (inl refl)) (omega arith),
  q c_close 0 (inr (inr (inl refl))) (omega arith),
  route-Quiet Chan.text a b (Quiet-cons Chan.text x a b q),
)
route-Quiet Chan.think (x ∷ a) b q = ground (
  arith,
  q t_close 0 (inl refl) (omega arith),
  route-Quiet Chan.think a b (Quiet-cons Chan.think x a b q),
)
route-Quiet Chan.tool (x ∷ a) b q = ground (
  arith,
  q c_close 0 (inl refl) (omega arith),
  route-Quiet Chan.tool a b (Quiet-cons Chan.tool x a b q),
)

-- A marker switches the channel.
pub route-marker :
    (b : Bytes)
    → (route 0 Chan.text (t_open ++ b) ≡ route 0 Chan.think b)
      × (route 0 Chan.text (c_open ++ b) ≡ route 0 Chan.tool b)
      × (route 0 Chan.text (c_close ++ b) ≡ route 0 Chan.text b)
      × (route 0 Chan.think (t_close ++ b) ≡ route 0 Chan.text b)
      × (route 0 Chan.tool (c_close ++ b) ≡ route 0 Chan.text b)
unfolding route starts_with
route-marker b = (refl, refl, refl, refl, refl)
