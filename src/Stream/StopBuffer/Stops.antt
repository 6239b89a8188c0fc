-- ===== src/Stream/StopBuffer/Stops.antt =====
-- No stop sequence leaks, however the stream is cut into pieces.
use q.Prelude.{
  joins, subst, zero, suc, true, false, none, List, [], ◌∷◌, ◌++◌, ◌≡◌, ◌≢◌, inl, inr, refl, sym,
  ap, ◌∙◌, arith, Bytes, Among, Option-cases, Bool-cases, append_assoc, append-nil, Absent,
  is_empty, starts_with_nil,
}
use q.Stream.StopBuffer.{StopBuffer, drop_empty, make, best_match, Fed, feed, feed_on, feed_all}
use q.Stream.StopBuffer.Clear.{Clear, Stopped, keep_Clear, hit-Stopped}

-- How a stream of pieces ends, with `out` and `total` for what came before it.
abbrev pub Outcome : List Bytes → Bytes → Bytes → List Bytes → Fed → Type 0
Outcome ss out total ps (b, o, false) = Clear ss (out ++ o) b.pend (total ++ joins ps)
Outcome ss out total ps (b, o, true) =
    (read : List Bytes) × (unread : List Bytes) × (ps ≡ read ++ unread)
    × Stopped ss b.matched (out ++ o) (total ++ joins read)

-- One feed of a buffer in order.
abbrev FeedStep : List Bytes → Bytes → Bytes → Fed → Type 0
FeedStep ss out total (b, o, false) = (b.stops ≡ ss) × Clear ss (out ++ o) b.pend total
FeedStep ss out total (b, o, true) = Stopped ss b.matched (out ++ o) total

none-Among : (ss : List Bytes) → is_empty ss ≡ true → (s : Bytes) → ¬ Among s ss
none-Among [] h s a = a
none-Among (t ∷ ss) h s a = absurd (ground arith)

-- With no stops every piece goes through.
idle_Clear :
    (ss : List Bytes) (out pend total piece : Bytes)
    → is_empty ss ≡ true
    → Clear ss out pend total
    → Clear ss (out ++ piece) pend (total ++ piece)
idle_Clear ss out pend total piece h clear =
    let nothing = clear.idle h in
    let same : out ≡ total =
      sym (append-nil out) ∙ ap (λ t. out ++ t) (sym nothing) ∙ clear.whole in
    record {
      whole =
          ap (λ t. (out ++ piece) ++ t) nothing
          ∙ append-nil (out ++ piece)
          ∙ ap (λ t. t ++ piece) same;
      idle = λ _. nothing;
      no_stop = λ s a. absurd (none-Among ss h s a);
      sealed = λ s rest j a. absurd (none-Among ss h s a);
    }

feed-FeedStep :
    (ss : List Bytes) (b : StopBuffer) (out total piece : Bytes)
    → b.stops ≡ ss
    → Clear ss out b.pend total
    → FeedStep ss out (total ++ piece) (feed b piece)
unfolding feed
feed-FeedStep ss b out total piece e clear = elim (Bool-cases (is_empty b.stops)) [
  | inl idle ↦ rw idle (e, idle_Clear ss out b.pend total piece (rw (← e) idle) clear)
  | inr busy ↦ elim (Option-cases (best_match 0 b.stops (b.pend ++ piece) none)) [
    | inl miss ↦
        rw (busy, miss)
          (
            e,
            keep_Clear ss out b.pend total piece clear (rw (← e) busy) (rw (← e) miss) _
                (rw e refl),
          )
    | inr ((p, n), hit) ↦
        rw (busy, hit) (hit-Stopped ss out b.pend total piece clear p n (rw (← e) hit))
  ]
]

feed_all-Outcome :
    (ps : List Bytes) (ss : List Bytes) (b : StopBuffer) (out total : Bytes)
    → b.stops ≡ ss
    → Clear ss out b.pend total
    → Outcome ss out total ps (feed_all b ps)
unfolding feed_all
feed_all-Outcome [] ss b out total e clear = rw (append-nil, append-nil) clear
feed_all-Outcome (p ∷ ps) ss b out total e clear =
    go (feed b p) (feed-FeedStep ss b out total p e clear)
      (λ b' o. feed_all-Outcome ps ss b' (out ++ o) (total ++ p))
  where
    onward :
        (f : Fed) (o : Bytes)
        → Outcome ss (out ++ o) (total ++ p) ps f
        → Outcome ss out total (p ∷ ps) (f.0, o ++ f.1, f.2)
    onward (b', o', false) o c =
        subst (λ t. Clear ss t b'.pend (total ++ (p ++ joins ps))) (append_assoc out o o')
          (subst (λ t. Clear ss ((out ++ o) ++ o') b'.pend t) (append_assoc total p (joins ps)) c)
    onward (b', o', true) o (read, unread, split, c) = (
      p ∷ read,
      unread,
      ap (◌∷◌ p) split,
      subst (λ t. Stopped ss b'.matched t (total ++ (p ++ joins read))) (append_assoc out o o')
          (subst (λ t. Stopped ss b'.matched ((out ++ o) ++ o') t)
            (append_assoc total p (joins read)) c),
    )

    go :
        (f : Fed)
        → FeedStep ss out (total ++ p) f
        → ((b' : StopBuffer) (o : Bytes)
            → b'.stops ≡ ss
            → Clear ss (out ++ o) b'.pend (total ++ p)
            → Outcome ss (out ++ o) (total ++ p) ps (feed_all b' ps))
        → Outcome ss out total (p ∷ ps) (feed_on f (λ b'. feed_all b' ps))
    go (b', o, true) c later = (
      p ∷ [],
      ps,
      refl,
      subst (λ t. Stopped ss b'.matched (out ++ o) (total ++ t)) (sym (append-nil p)) c,
    )
    go (b', o, false) (e', c) later = onward (feed_all b' ps) o (later b' o e' c)

ne_of_kept : (seqs : List Bytes) (s : Bytes) → Among s (drop_empty seqs) → s ≢ []
unfolding drop_empty
ne_of_kept [] s a = absurd a
ne_of_kept ([] ∷ seqs) s a = ne_of_kept seqs s a
ne_of_kept ((c ∷ t) ∷ seqs) s (inl e) = λ n. cc
ne_of_kept ((c ∷ t) ∷ seqs) s (inr r) = ne_of_kept seqs s r

start_Clear : (seqs : List Bytes) → Clear (drop_empty seqs) [] [] []
start_Clear seqs = record {
  whole = refl;
  idle = λ _. refl;
  no_stop = λ s a j h. absurd (nothing s a j h);
  sealed = λ s rest j a lt. absurd (omega arith);
}
  where
    nothing : (s : Bytes) → Among s (drop_empty seqs) → Absent s []
    nothing s a zero h = absurd (ground (arith, starts_with_nil s (ne_of_kept seqs s a)))
    nothing s a (suc j) h = absurd (ground (arith, starts_with_nil s (ne_of_kept seqs s a)))

-- A new buffer is fed any pieces, until one stops it or they end. If none does, the emitted text
-- and the held text make up the input, no nonempty stop sequence stands anywhere in the input, and
-- none that starts in the emitted text can be completed by whatever follows. If one does, the
-- emitted text is the input in front of an occurrence of the reported stop, and no stop sequence
-- starts within it.
pub feed_all-make :
    (seqs pieces : List Bytes)
    → Outcome (drop_empty seqs) [] [] pieces (feed_all (make seqs) pieces)
feed_all-make seqs pieces =
    feed_all-Outcome pieces (drop_empty seqs) (make seqs) [] [] refl (start_Clear seqs)
