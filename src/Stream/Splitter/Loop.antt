-- ===== src/Stream/Splitter/Loop.antt =====
-- The rounds together: the text channel's round, the loop, and the whole stream.
use q.Prelude.{
  joins, subst, ℕ, zero, suc, ◌+◌, ◌≤◌, ◌<◌, Bool, true, false, Option, none, some, List, [], ◌∷◌,
  ◌++◌, ◌≡◌, refl, sym, ap, ◌∙◌, arith, Bytes, Among, inl, inr, ◌==◌, ◌&&◌, Bool-cases,
  Option-cases, ◌⊎◌, find, find-some, find-none, length, drop, append_assoc, append-nil, StandsAt,
  Absent, if◌then◌else◌, is_empty,
}
use q.Stream.Holdback.{tail_keep}
use q.Stream.Splitter.{
  Chan, Splitter, t_open, t_close, c_open, c_close, Segment, Turn, min_pos, is_pos, push_head,
  emit_head, text_marker, text_keep, text_rest, text_at, text_turn, turn_in, go_on, feed_loop, feed,
  flush, split_all,
}
use q.Stream.Splitter.Route.{route, tag, tags, tags-append, markers, route-Quiet, route-marker}
use q.Stream.Splitter.Quiet.{route_at}
use q.Stream.Splitter.Turns.{NoMarker, Routes, RoundFits, rest_route, shorter, closed_round}

not_before :
    (m hold : Bytes) (e : ℕ)
    → ((q : ℕ) → find m hold ≡ some q → e ≤ q)
    → (j : ℕ) → j < e
    → ¬ StandsAt m hold j
not_before m hold e later j lt at = elim (Option-cases (find m hold)) [
  | inl miss ↦ find-none m hold miss j at
  | inr (q, hit) ↦
      let (_, _, first) = find-some m hold hit in
      let le : e ≤ q = later q hit in first j (omega arith) at
]

-- What `min_pos` of the three searches says.
record Least (a b c : Option ℕ) (e : ℕ) : Type 0 where
  one : (a ≡ some e) ⊎ (b ≡ some e) ⊎ (c ≡ some e)
  le_a : (q : ℕ) → a ≡ some q → e ≤ q
  le_b : (q : ℕ) → b ≡ some q → e ≤ q
  le_c : (q : ℕ) → c ≡ some q → e ≤ q

min_pos-Least : (a b c : Option ℕ) (e : ℕ) → min_pos a (min_pos b c) ≡ some e → Least a b c e
min_pos-Least a b c e h = record {
  one = ground arith;
  le_a = λ q x. ground arith;
  le_b = λ q x. ground arith;
  le_c = λ q x. ground arith;
}

min_pos-none :
    (a b c : Option ℕ) → min_pos a (min_pos b c) ≡ none → (a ≡ none) × (b ≡ none) × (c ≡ none)
min_pos-none a b c h = ground arith

is_pos-eq : (o : Option ℕ) (e : ℕ) → is_pos o e ≡ true → o ≡ some e
is_pos-eq none e h = cc
is_pos-eq (some p) e h = ground arith

is_pos-ne : (o : Option ℕ) (e : ℕ) → is_pos o e ≡ false → ¬ (o ≡ some e)
is_pos-ne none e h = λ x. cc
is_pos-ne (some p) e h = λ x. ground arith

free_text :
    (hold : Bytes)
    → min_pos (find t_open hold) (min_pos (find c_open hold) (find c_close hold)) ≡ none
    → (m : Bytes) → Among m (markers Chan.text)
    → Absent m hold × (tail_keep m hold ≤ text_keep hold)
free_text hold h m (inl q) =
    subst (λ n. Absent n hold × (tail_keep n hold ≤ text_keep hold)) q
      (
        find-none t_open hold
            (min_pos-none (find t_open hold) (find c_open hold) (find c_close hold) h).0,
        omega arith,
      )
free_text hold h m (inr (inl q)) =
    subst (λ n. Absent n hold × (tail_keep n hold ≤ text_keep hold)) q
      (
        find-none c_open hold
            (min_pos-none (find t_open hold) (find c_open hold) (find c_close hold) h).1,
        omega arith,
      )
free_text hold h m (inr (inr (inl q))) =
    subst (λ n. Absent n hold × (tail_keep n hold ≤ text_keep hold)) q
      (
        find-none c_close hold
            (min_pos-none (find t_open hold) (find c_open hold) (find c_close hold) h).2,
        omega arith,
      )
free_text hold h m (inr (inr (inr x))) = elim x [ ]

module _ (s : Splitter) (in_text : s.chan ≡ Chan.text) where
  first_text :
      (e : ℕ)
      → Least (find t_open s.hold) (find c_open s.hold) (find c_close s.hold) e
      → (m : Bytes) (j : ℕ) → Among m (markers Chan.text)
      → j < e
      → ¬ StandsAt m s.hold j
  first_text e l m j (inl q) lt =
      subst (λ n. ¬ StandsAt n s.hold j) q (not_before t_open s.hold e l.le_a j lt)
  first_text e l m j (inr (inl q)) lt =
      subst (λ n. ¬ StandsAt n s.hold j) q (not_before c_open s.hold e l.le_b j lt)
  first_text e l m j (inr (inr (inl q))) lt =
      subst (λ n. ¬ StandsAt n s.hold j) q (not_before c_close s.hold e l.le_c j lt)
  first_text e l m j (inr (inr (inr x))) lt = absurd x

  as_text : (t : Bytes) → route 0 s.chan t ≡ route 0 Chan.text t
  as_text t = ap (λ c. route 0 c t) in_text

  boundary :
      (b : Bool) (segs : List Segment)
      → tags ((if b then (Chan.text, []) ∷ [] else []) ++ segs) ≡ tags segs
  boundary true segs = refl
  boundary false segs = refl

  marker_round :
      (e : ℕ)
      → Least (find t_open s.hold) (find c_open s.hold) (find c_close s.hold) e
      → RoundFits s (text_marker s e)
  marker_round e l = elim (Bool-cases (is_pos (find t_open s.hold) e)) [
    | inl a ↦
        let hit = is_pos-eq (find t_open s.hold) e a in
        rw a (
          λ rest.
              as_text _
              ∙ route_at Chan.text Chan.think s.hold rest t_open e hit (inl refl) (first_text e l)
                  (λ b. (route-marker b).0),
          shorter t_open s.hold e hit (omega arith),
        )
    | inr na ↦ elim (Bool-cases (is_pos (find c_open s.hold) e)) [
      | inl b ↦
          let hit = is_pos-eq (find c_open s.hold) e b in
          rw (na, b)
            (
              λ rest.
                  as_text _
                  ∙ route_at Chan.text Chan.tool s.hold rest c_open e hit (inr (inl refl))
                      (first_text e l) (λ b. (route-marker b).1)
                  ∙ ap (λ t. t ++ route 0 Chan.tool (drop (e + length c_open) s.hold ++ rest))
                      (sym (boundary (e == 0 && s.tool_boundary) (push_head Chan.text e s.hold))),
              shorter c_open s.hold e hit (omega arith),
            )
      | inr nb ↦
          let hit =
            third (is_pos-ne (find t_open s.hold) e na) (is_pos-ne (find c_open s.hold) e nb)
              l.one in
          rw (na, nb)
            (
              λ rest.
                  as_text _
                  ∙ route_at Chan.text Chan.text s.hold rest c_close e hit (inr (inr (inl refl)))
                      (first_text e l) (λ b. (route-marker b).2)
                  ∙ ap (λ t. tags (push_head Chan.text e s.hold) ++ t) (sym (as_text _)),
              shorter c_close s.hold e hit (omega arith),
            )
    ]
  ]
    where
      third :
          {a b c : Option ℕ}
          → ¬ (a ≡ some e)
          → ¬ (b ≡ some e)
          → (a ≡ some e) ⊎ (b ≡ some e) ⊎ (c ≡ some e)
          → c ≡ some e
      third na nb (inl x) = absurd (na x)
      third na nb (inr (inl x)) = absurd (nb x)
      third na nb (inr (inr x)) = x

  text_rest-RoundFits :
      (t : Splitter × List Segment × Bool)
      → Routes s t.0 t.1
      → NoMarker t.0
      → RoundFits s (text_rest t)
  text_rest-RoundFits (s', segs, true) r n = (r, n)
  text_rest-RoundFits (s', segs, false) r n = (r, n)

  text_round : RoundFits s (text_turn s)
  unfolding text_turn
  text_round =
      go (min_pos (find t_open s.hold) (min_pos (find c_open s.hold) (find c_close s.hold))) refl
    where
      go :
          (o : Option ℕ)
          → min_pos (find t_open s.hold) (min_pos (find c_open s.hold) (find c_close s.hold)) ≡ o
          → RoundFits s (text_at s o)
      go (some e) h = marker_round e (min_pos-Least _ _ _ e h)
      go none h =
          let (routes, clean, _) =
            rest_route s (text_keep s.hold)
              (λ m x. free_text s.hold h m (subst (λ c. Among m (markers c)) in_text x)) in
          text_rest-RoundFits (emit_head s (text_keep s.hold)) routes clean

round_in : (c : Chan) (s : Splitter) → s.chan ≡ c → RoundFits s (turn_in c s)
unfolding turn_in
round_in Chan.text s e = text_round s e
round_in Chan.think s e =
    closed_round s t_close false (find t_close s.hold) refl (ap markers e) (omega arith)
      (λ b. ap (λ c. route 0 c (t_close ++ b)) e ∙ (route-marker b).3)
round_in Chan.tool s e =
    closed_round s c_close true (find c_close s.hold) refl (ap markers e) (omega arith)
      (λ b. ap (λ c. route 0 c (c_close ++ b)) e ∙ (route-marker b).4)

-- With fuel above the length of the buffer the loop ends by its `break`.
loop_fits :
    (fuel : ℕ) (s : Splitter)
    → length s.hold < fuel
    → Routes s (feed_loop fuel s).0 (feed_loop fuel s).1 × NoMarker (feed_loop fuel s).0
unfolding feed_loop
loop_fits zero s lt = absurd (omega arith)
loop_fits (suc fuel) s lt = go (turn_in s.chan s) (round_in s.chan s refl) (λ s'. loop_fits fuel s')
  where
    go :
        (t : Turn)
        → RoundFits s t
        → ((s' : Splitter)
            → length s'.hold < fuel
            → Routes s' (feed_loop fuel s').0 (feed_loop fuel s').1
              × NoMarker (feed_loop fuel s').0)
        → Routes s (go_on t (λ s'. feed_loop fuel s')).0 (go_on t (λ s'. feed_loop fuel s')).1
          × NoMarker (go_on t (λ s'. feed_loop fuel s')).0
    go (s', segs, false) fits later = fits
    go (s', segs, true) (routes, less) later =
        let (onward, clean) = later s' (omega arith) in
        (
          λ rest.
              routes rest
              ∙ ap (λ t. tags segs ++ t) (onward rest)
              ∙ sym (append_assoc (tags segs) _ _)
              ∙ ap
                  (λ t.
                    t ++ route 0 (feed_loop fuel s').0.chan ((feed_loop fuel s').0.hold ++ rest))
                  (sym (tags-append segs (feed_loop fuel s').1)),
          clean,
        )

-- What one `feed` emits, and what it leaves in the buffer, route the old buffer and the piece as
-- the whole text would be routed, whatever follows; the buffer is left without a complete marker.
pub feed-Routes :
    (s : Splitter) (piece : Bytes)
    → ((rest : Bytes)
        → route 0 s.chan ((s.hold ++ piece) ++ rest)
          ≡ tags (feed s piece).1 ++ route 0 (feed s piece).0.chan ((feed s piece).0.hold ++ rest))
      × NoMarker (feed s piece).0
unfolding feed
feed-Routes s piece =
    loop_fits (suc (length (s.hold ++ piece))) (record s { hold = s.hold ++ piece }) (omega arith)

-- A buffer without markers is all of its channel.
plain_route :
    (c : Chan) (h : Bytes)
    → ((m : Bytes) → Among m (markers c) → Absent m h)
    → route 0 c h ≡ tag c h
plain_route c h clean =
    ap (route 0 c) (sym (append-nil h))
    ∙ route-Quiet c h []
        (λ m j a lt at. clean m a j (subst (λ t. StandsAt m t j) (append-nil h) at))
    ∙ unfold route in append-nil (tag c h)

is_empty-eq : (h : Bytes) → is_empty h ≡ true → h ≡ []
is_empty-eq [] e = refl
is_empty-eq (x ∷ h) e = absurd (ground arith)

flush-route : (s : Splitter) → NoMarker s → tags (flush s).1 ≡ route 0 s.chan s.hold
unfolding flush
flush-route s clean = elim (Bool-cases (is_empty s.hold)) [
  | inl e ↦ rw e (sym (plain_route s.chan s.hold clean ∙ ap (tag s.chan) (is_empty-eq s.hold e)))
  | inr e ↦ rw e (append-nil _ ∙ sym (plain_route s.chan s.hold clean))
]

-- The tokens of a stream, cut in any way, come out byte by byte in the channels of the whole text:
-- no byte is lost, doubled or moved, no marker is shown, and none is missed between two pieces.
pub split_all-route :
    (pieces : List Bytes) (s : Splitter)
    → NoMarker s
    → tags (split_all s pieces) ≡ route 0 s.chan (s.hold ++ joins pieces)
unfolding split_all
split_all-route [] s clean = flush-route s clean ∙ ap (route 0 s.chan) (sym (append-nil s.hold))
split_all-route (p ∷ ps) s clean =
    let (routes, clean') = feed-Routes s p in
    tags-append (feed s p).1 (split_all (feed s p).0 ps)
    ∙ ap (λ t. tags (feed s p).1 ++ t) (split_all-route ps (feed s p).0 clean')
    ∙ sym (routes (joins ps))
    ∙ ap (route 0 s.chan) (append_assoc s.hold p (joins ps))
