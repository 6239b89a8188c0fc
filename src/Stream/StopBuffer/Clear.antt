-- ===== src/Stream/StopBuffer/Clear.antt =====
-- What one feed does to the text that has been emitted and the text that is held.
use q.Prelude.{
  subst, ℕ, ◌+◌, ◌-◌, ◌≤◌, ◌<◌, true, false, Option, none, some, List, [], ◌++◌, ◌≡◌, ◌⊎◌, inl, inr,
  refl, sym, ap, ◌∙◌, arith, ltb, Bytes, Among, find, length, length-append, length-take-le, take,
  drop, drop-length_add, take-append-drop, get_elem?, Option-cases, Bool-cases, append_assoc,
  append-nil, StandsAt, Absent, find-none, find-some, find_split, is_empty, starts_with,
}
use q.Stream.Holdback.{tail_keep, stands_before_tail}
use q.Stream.StopBuffer.{best_match, longest_hold}
use q.Stream.StopBuffer.Matches.{best_match-none, best_match-Best, longest_hold-max}

-- The emitted text `out` and the held text `pend` make up `total`, which holds no stop; nothing
-- that starts in `out` can become one, whatever follows.
pub record Clear (ss : List Bytes) (out pend total : Bytes) : Type 0 where
  pub whole : out ++ pend ≡ total
  pub idle : is_empty ss ≡ true → pend ≡ []
  pub no_stop : (s : Bytes) → Among s ss → Absent s total
  pub sealed :
      (s : Bytes) (rest : Bytes) (j : ℕ)
      → Among s ss
      → j < length out
      → ¬ StandsAt s (total ++ rest) j

-- `out` is the text in front of the stop numbered `matched`, and no stop starts within `out`.
pub record Stopped (ss : List Bytes) (matched : Option ℕ) (out total : Bytes) : Type 0 where
  pub index : ℕ
  pub stop : Bytes
  pub rest : Bytes
  pub reported : matched ≡ some index
  pub listed : get_elem? ss index ≡ some stop
  pub splits : total ≡ out ++ (stop ++ rest)
  pub earliest : (s : Bytes) (j : ℕ) → Among s ss → j < length out → ¬ StandsAt s total j

-- An occurrence in `a ++ b` starts in `a`, or stands in `b`.
StandsAt-append :
    (s a b : Bytes) (j : ℕ)
    → StandsAt s (a ++ b) j
    → (j < length a) ⊎ ((length a ≤ j) × StandsAt s b (j - length a))
StandsAt-append s a b j h = elim (Bool-cases (ltb j (length a))) [
  | inl lt ↦ inl (ground arith)
  | inr ge ↦
      let le : length a ≤ j = ground arith in
      let e : j ≡ length a + (j - length a) = omega arith in
      inr (
        le,
        subst (λ x. starts_with s x ≡ true) (drop-length_add (j - length a) a b)
            (subst (λ n. StandsAt s (a ++ b) n) e h),
      )
]

module _ (ss : List Bytes) (out pend total piece : Bytes) (clear : Clear ss out pend total) where
  joined : total ++ piece ≡ out ++ (pend ++ piece)
  joined = ap (λ t. t ++ piece) (sym clear.whole) ∙ append_assoc out pend piece

  -- What starts in the emitted text is no stop in the longer stream either.
  old_sealed :
      (s : Bytes) (rest : Bytes) (j : ℕ)
      → Among s ss
      → j < length out
      → ¬ StandsAt s ((total ++ piece) ++ rest) j
  old_sealed s rest j a lt h =
      clear.sealed s (piece ++ rest) j a lt
        (subst (λ t. StandsAt s t j) (append_assoc total piece rest) h)

  old_sealed_end :
      (s : Bytes) (j : ℕ) → Among s ss → j < length out → ¬ StandsAt s (total ++ piece) j
  old_sealed_end s j a lt h =
      old_sealed s [] j a lt (subst (λ t. StandsAt s t j) (sym (append-nil (total ++ piece))) h)

  -- A feed that meets no stop.
  pub keep_Clear :
      is_empty ss ≡ false
      → best_match 0 ss (pend ++ piece) none ≡ none
      → (e : ℕ) → e ≡ length (pend ++ piece) - longest_hold ss (pend ++ piece) 0
      → Clear ss (out ++ take e (pend ++ piece)) (drop e (pend ++ piece)) (total ++ piece)
  keep_Clear busy miss e emit = record {
    whole =
        append_assoc out (take e buffer) (drop e buffer)
        ∙ ap (λ t. out ++ t) (take-append-drop e buffer)
        ∙ sym joined;
    idle = λ h. absurd (ground arith);
    no_stop = λ s a j h.
        elim (StandsAt-append s out buffer j (subst (λ t. StandsAt s t j) joined h)) [
          | inl lt ↦ old_sealed_end s j a lt h
          | inr (_, at) ↦ absent s a (j - length out) at
        ];
    sealed = λ s rest j a lt h.
        elim (StandsAt-append s out (buffer ++ rest) j
          (subst (λ t. StandsAt s t j) (regroup rest) h)) [
            | inl early ↦ old_sealed s rest j a early h
            | inr (le, at) ↦
                absent s a (j - length out)
                  (stands_before_tail s buffer rest (j - length out) (inside s j a lt le) at)
          ];
  }
    where
      buffer : Bytes
      buffer = pend ++ piece

      absent : (s : Bytes) → Among s ss → Absent s buffer
      absent s a = find-none s buffer ((best_match-none 0 ss buffer none miss).1 s a)

      regroup : (rest : Bytes) → (total ++ piece) ++ rest ≡ out ++ (buffer ++ rest)
      regroup rest = ap (λ t. t ++ rest) joined ∙ append_assoc out buffer rest

      inside :
          (s : Bytes) (j : ℕ)
          → Among s ss
          → j < length (out ++ take e buffer)
          → length out ≤ j
          → (j - length out) + tail_keep s buffer < length buffer
      inside s j a lt le = omega (
        arith,
        length-append out (take e buffer),
        length-take-le e buffer,
        (longest_hold-max ss buffer 0).1 s a,
      )

  -- A feed that meets one.
  pub hit-Stopped :
      (p n : ℕ)
      → best_match 0 ss (pend ++ piece) none ≡ some (p, n)
      → Stopped ss (some n) (out ++ take p (pend ++ piece)) (total ++ piece)
  hit-Stopped p n hit = elim ((best_match-Best 0 ss (pend ++ piece) none p n hit).from) [
    | inl x ↦ absurd (ground arith)
    | inr (k, s, e, listed, found) ↦ record {
      index = n;
      stop = s;
      rest = drop (p + length s) (pend ++ piece);
      reported = refl;
      listed = subst (λ i. get_elem? ss i ≡ some s) (omega arith) listed;
      splits =
          joined
          ∙ ap (λ t. out ++ t)
              (sym (take-append-drop p (pend ++ piece))
                ∙ ap (λ t. take p (pend ++ piece) ++ t) (find_split s (pend ++ piece) found))
          ∙ sym (append_assoc out (take p (pend ++ piece)) _);
      earliest = λ s' j a lt h.
          elim (StandsAt-append s' out (pend ++ piece) j (subst (λ t. StandsAt s' t j) joined h)) [
            | inl early ↦ old_sealed_end s' j a early h
            | inr (le, at) ↦ too_early s' j a (inside j lt le) at
          ];
    }
  ]
    where
      inside :
          (j : ℕ) → j < length (out ++ take p (pend ++ piece)) → length out ≤ j → j - length out < p
      inside j lt le =
          omega
            (arith, length-append out (take p (pend ++ piece)), length-take-le p (pend ++ piece))

      too_early :
          (s : Bytes) (j : ℕ)
          → Among s ss
          → j - length out < p
          → ¬ StandsAt s (pend ++ piece) (j - length out)
      too_early s j a lt at = elim (Option-cases (find s (pend ++ piece))) [
        | inl none_found ↦ find-none s (pend ++ piece) none_found (j - length out) at
        | inr (q, f) ↦
            let (_, _, first) = find-some s (pend ++ piece) f in
            let le : p ≤ q = (best_match-Best 0 ss (pend ++ piece) none p n hit).earliest s q a f in
            first (j - length out) (omega arith) at
      ]
