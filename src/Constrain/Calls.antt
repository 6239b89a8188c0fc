-- ===== src/Constrain/Calls.antt =====
-- The callbacks of a round keep the invariant.
use q.Prelude.{
  ℕ, Bool, true, false, Option, none, some, List, [], ◌∷◌, ◌++◌, Bool-cases, inl, inr, ◌≡◌, refl,
  arith, Bytes, ℤ, pos, negsuc, if◌then◌else◌, not, false≢true, drop, is_empty, ◌||◌, ◌+◌, ltb,
  if_intro,
}
use q.Toolgram.State.{Grammar, reset}
use q.Toolgram.Machine.{advance_str, closed}
use q.Toolgram.Signature.Tracked.{Tracked, reset-Tracked}
use q.Constrain.Engine.{is_nonneg, set_tool_constraint, set_tool_masks5}
use q.Constrain.State.{Constrainer, mask_id}
use q.Constrain.Rounds.{
  lane_id, lane_state, lanes, on_drafts, on_pending_peek, on_pending, Verdict, engage, give_up,
  go_on, entered, scan_token, scan_from, scan_round, on_id_fed, on_id, window, opener, rfind,
  ends_before,
}
use q.Constrain.Staged.{
  Staged, Scanned, advance_str-Tracked, advance_str-words, lifted, apply-Staged, on_id_fed-Staged,
  entered-Scanned, mask_id-Staged,
}

lane_id-Staged :
    (s : Constrainer) (prev : ℤ) (r : Grammar × Bool)
    → Staged s
    → (r.1 ≡ true → Tracked r.0)
    → Staged (lane_id s prev r).0
unfolding lane_id
lane_id-Staged s prev (c, true) v t = mask_id-Staged s c v (t refl)
lane_id-Staged s prev (c, false) v t = v

module _ (decode_one : ℕ → Bytes) where
  pub on_id-Staged : (id : ℕ) (s : Constrainer) → Staged s → Staged (on_id decode_one id s)
  unfolding on_id
  on_id-Staged id s v =
      if_intro Staged (not s.enabled) (λ off. v)
        (λ enabled.
          if_intro Staged (ltb 0 s.skip_feed)
            (λ skip. record { ready = v.ready; live = v.live; idle = v.idle })
            (λ feed. if_intro Staged (not s.active) (λ off. v) (λ on. fed_on (ground arith))))
    where
      fed_on : s.active ≡ true → Staged (on_id_fed s (advance_str s.tg (decode_one id)))
      fed_on on =
          on_id_fed-Staged s (advance_str s.tg (decode_one id)).0 v.ready
            (advance_str-words (decode_one id) s.tg v.ready.words)
            (advance_str s.tg (decode_one id)).1 on
            (advance_str-Tracked (decode_one id) s.tg (v.live on))

  on_pending_peek-Staged :
      (s : Constrainer) (g : Grammar) (b : Bool)
      → Staged s
      → s.active ≡ true
      → (b ≡ true → Tracked g)
      → Staged (on_pending_peek s (g, b))
  unfolding on_pending_peek set_tool_constraint
  on_pending_peek-Staged s g false v on t = v
  on_pending_peek-Staged s g true v on t =
      if_intro Staged (closed g)
        (λ done. record { ready = lifted v.ready; live = v.live; idle = λ h. refl })
        (λ more. apply-Staged s g v.ready on (v.live on) (t refl))

  pub on_pending-Staged :
      (id : ℤ) (s : Constrainer) → Staged s → Staged (on_pending decode_one id s)
  unfolding on_pending
  on_pending-Staged (negsuc k) s v = v
  on_pending-Staged (pos id) s v = elim (Bool-cases (not s.enabled || not s.active)) [
    | inl off ↦ rw off v
    | inr on ↦
        let active : s.active ≡ true = ground arith in
        rw on (
          on_pending_peek-Staged s (advance_str s.tg (decode_one id)).0
            (advance_str s.tg (decode_one id)).1 v active
            (advance_str-Tracked (decode_one id) s.tg (v.live active)))
  ]

  pub scan_token-Scanned :
      (s : Constrainer) (bytes : Bytes) → Staged s → s.active ≡ false → Scanned (scan_token s bytes)
  unfolding scan_token
  scan_token-Scanned s bytes v off = at (rfind opener (window (s.tail ++ bytes)))
    where
      s1 : Constrainer
      s1 = record s { tail = window (s.tail ++ bytes) }

      quiet : Scanned (s1, Verdict.go_on)
      quiet = (record { ready = v.ready; live = v.live; idle = v.idle }, λ h. off)

      at :
          (found : Option ℕ)
          → Scanned (elim found [
            | none ↦ (s1, Verdict.go_on)
            | some p ↦
                if ends_before p s1.tail bytes
                then (s1, Verdict.go_on)
                else entered
                    (record s1 { active = true; engaged = s.engaged + 1 })
                    (advance_str (reset s.names s.tg) (drop (p + 11) s1.tail))
          ])
      at none = quiet
      at (some p) =
          let rem = drop (p + 11) s1.tail in
          let start = reset-Tracked s.names s.tg v.ready.clean v.ready.words in
          if_intro Scanned (ends_before p s1.tail bytes) (λ h. quiet)
            (λ h.
              entered-Scanned (record s1 { active = true; engaged = s.engaged + 1 })
                (advance_str (reset s.names s.tg) rem).0 v.ready
                (advance_str-words rem (reset s.names s.tg) start.word_bar)
                (advance_str (reset s.names s.tg) rem).1 refl (v.idle off)
                (advance_str-Tracked rem (reset s.names s.tg) start))

  scan_from-Staged :
      (j : ℕ) (s : Constrainer) (em : List ℕ)
      → Staged s
      → s.active ≡ false
      → Staged (scan_from decode_one j s em).0
  unfolding scan_from
  scan_from-Staged j s [] v off = v
  scan_from-Staged j s (t ∷ em) v off =
      go (scan_token s (decode_one t)) (scan_token-Scanned s (decode_one t) v off)
        (λ s'. scan_from-Staged (j + 1) s' em)
    where
      go :
          (r : Constrainer × Verdict)
          → Scanned r
          → ((s' : Constrainer)
              → Staged s'
              → s'.active ≡ false
              → Staged (scan_from decode_one (j + 1) s' em).0)
          → Staged
              (elim (r.1) as (λ v. Constrainer × Option ℕ) [
                | engage ↦ (record (r.0) { skip_feed = j + 1 }, some (j + 1))
                | give_up ↦ (r.0, none)
                | go_on ↦ scan_from decode_one (j + 1) r.0 em
              ]).0
      go (s', engage) w rest = record { ready = w.0.ready; live = w.0.live; idle = w.0.idle }
      go (s', give_up) w rest = w.0
      go (s', go_on) w rest = rest s' w.0 (w.1 refl)

  pub scan_round-Staged :
      (em : List ℕ) (s : Constrainer) → Staged s → Staged (scan_round decode_one em s).0
  unfolding scan_round
  scan_round-Staged em s v =
      if_intro (λ (r : Constrainer × Option ℕ). Staged r.0)
        (not s.enabled || (is_empty s.names || (s.active || s.pool_dead))) (λ no. v)
        (λ go. scan_from-Staged 0 s em v (ground arith))

  lane_state-Tracked :
      (c : Grammar) (alive : Bool) (d : ℕ)
      → (alive ≡ true → Tracked c)
      → (lane_state decode_one c alive d).1 ≡ true
      → Tracked (lane_state decode_one c alive d).0
  unfolding lane_state
  lane_state-Tracked c true d t = advance_str-Tracked (decode_one d) c (t refl)
  lane_state-Tracked c false d t = λ h. absurd (false≢true h)

  lanes-Staged :
      (dr : List ℕ) (s : Constrainer) (c : Grammar) (alive : Bool) (id0 prev : ℤ)
      → Staged s
      → (alive ≡ true → Tracked c)
      → Staged (lanes decode_one s c alive id0 prev dr).0
  unfolding lanes
  lanes-Staged [] s c alive id0 prev v t = v
  lanes-Staged (d ∷ dr) s c alive id0 prev v t =
      let u = lane_state-Tracked c alive d t in
      let r = lane_state decode_one c alive d in
      let q = lane_id s prev r in
      let id = if is_nonneg q.1 then q.1 else if is_nonneg prev then prev else id0 in
      lanes-Staged dr q.0 r.0 r.1 id0 id (lane_id-Staged s prev r v u) u

  pub on_drafts-Staged :
      (dr : List ℕ) (s : Constrainer) → Staged s → Staged (on_drafts decode_one dr s)
  unfolding on_drafts set_tool_masks5
  on_drafts-Staged dr s v =
      let t = v.ready.staged in
      let q = mask_id s s.staged_state in
      let w =
        lanes-Staged dr q.0 s.staged_state true q.1 q.1 (mask_id-Staged s s.staged_state v t)
          (λ h. t) in
      if_intro Staged (is_nonneg q.1)
        (λ h. record { ready = w.ready; live = w.live; idle = w.idle }) (λ h. w)
