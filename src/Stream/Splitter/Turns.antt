-- ===== src/Stream/Splitter/Turns.antt =====
-- The loop of `feed` routes its input, however the text is cut into pieces.
use q.Prelude.{
  subst, ℕ, ◌+◌, ◌-◌, ◌≤◌, ◌<◌, Bool, true, false, Option, none, some, List, [], ◌∷◌, ◌++◌, ◌≡◌,
  refl, sym, ap, ◌∙◌, arith, Bytes, Among, inl, inr, ltb, Bool-cases, find, find_split,
  length-append, find-some, find-none, length, length-drop, take, drop, append_assoc, append-nil,
  take-append-drop, starts_with, StandsAt, Absent, drop-drop,
}
use q.Stream.Holdback.{tail_keep}
use q.Stream.Splitter.{Chan, Splitter, Segment, Turn, emit_head, closed_at}
use q.Stream.Splitter.Route.{route, tags, markers, route-Quiet}
use q.Stream.Splitter.Quiet.{Quiet-tail, route_at}

-- The buffer holds no marker that its channel looks for.
abbrev pub NoMarker : Splitter → Type 0
NoMarker s = (m : Bytes) → Among m (markers s.chan) → Absent m s.hold

-- What is still held, and what follows it, is routed on as it would have been.
abbrev pub Routes : Splitter → Splitter → List Segment → Type 0
Routes s s' segs =
    (rest : Bytes)
    → route 0 s.chan (s.hold ++ rest) ≡ tags segs ++ route 0 s'.chan (s'.hold ++ rest)

-- A round routes; one that goes on has shortened the buffer, the last one leaves no marker.
abbrev pub RoundFits : Splitter → Turn → Type 0
RoundFits s (s', segs, true) = Routes s s' segs × (length s'.hold < length s.hold)
RoundFits s (s', segs, false) = Routes s s' segs × NoMarker s'

Absent-drop : (m s : Bytes) (n : ℕ) → Absent m s → Absent m (drop n s)
Absent-drop m s n h j at = h (n + j) (subst (λ t. starts_with m t ≡ true) (drop-drop n j s) at)

-- The last round: all but the kept tail goes out.
pub rest_route :
    (s : Splitter) (keep : ℕ)
    → ((m : Bytes) → Among m (markers s.chan) → Absent m s.hold × (tail_keep m s.hold ≤ keep))
    → Routes s (emit_head s keep).0 (emit_head s keep).1
      × NoMarker (emit_head s keep).0
      × ((emit_head s keep).0.chan ≡ s.chan)
rest_route s keep free = elim (Bool-cases (ltb keep (length s.hold))) [
  | inl more ↦
      let n = length s.hold - keep in
      rw more (
        λ rest.
            ap (λ t. route 0 s.chan (t ++ rest)) (sym (take-append-drop n s.hold))
            ∙ ap (route 0 s.chan) (append_assoc (take n s.hold) (drop n s.hold) rest)
            ∙ route-Quiet s.chan (take n s.hold) (drop n s.hold ++ rest)
                (Quiet-tail s.chan s.hold rest keep n free (ground arith))
            ∙ ap (λ t. t ++ route 0 s.chan (drop n s.hold ++ rest)) (sym (append-nil _)),
        λ m a. Absent-drop m s.hold n (free m a).0,
        refl,
      )
  | inr less ↦ rw less (λ rest. refl, λ m a. (free m a).0, refl)
]

pub shorter :
    (p hold : Bytes) (e : ℕ)
    → find p hold ≡ some e
    → 0 < length p
    → length (drop (e + length p) hold) < length hold
shorter p hold e hit pos = omega (
  arith,
  length-drop (e + length p) hold,
  length-drop e hold,
  ap length (find_split p hold hit),
  length-append p (drop (e + length p) hold),
  (find-some p hold hit).1,
)

-- A round in the reasoning or tool channel.
pub closed_round :
    (s : Splitter) (closer : Bytes) (in_tool : Bool) (o : Option ℕ)
    → find closer s.hold ≡ o
    → markers s.chan ≡ closer ∷ []
    → 0 < length closer
    → ((b : Bytes) → route 0 s.chan (closer ++ b) ≡ route 0 Chan.text b)
    → RoundFits s (closed_at s closer in_tool o)
closed_round s closer in_tool (some e) hit only pos switch = (
  λ rest.
      route_at s.chan Chan.text s.hold rest closer e hit
        (subst (Among closer) (sym only) (inl refl))
        (λ m j a lt at. first m (subst (Among m) only a) j lt at) switch,
  shorter closer s.hold e hit pos,
)
  where
    first : (m : Bytes) → Among m (closer ∷ []) → (j : ℕ) → j < e → ¬ StandsAt m s.hold j
    first m (inl q) j lt at =
        (find-some closer s.hold hit).2 j lt (subst (λ n. StandsAt n s.hold j) (sym q) at)
    first m (inr x) j lt at = x
closed_round s closer in_tool none miss only pos switch =
    let (routes, clean, _) = rest_route s (tail_keep closer s.hold) free in (routes, clean)
  where
    free_of :
        (m : Bytes)
        → Among m (closer ∷ [])
        → Absent m s.hold × (tail_keep m s.hold ≤ tail_keep closer s.hold)
    free_of m (inl q) =
        subst (λ n. Absent n s.hold × (tail_keep n s.hold ≤ tail_keep closer s.hold)) q
          (find-none closer s.hold miss, omega arith)
    free_of m (inr x) = absurd x

    free :
        (m : Bytes)
        → Among m (markers s.chan)
        → Absent m s.hold × (tail_keep m s.hold ≤ tail_keep closer s.hold)
    free m a = free_of m (subst (Among m) only a)
