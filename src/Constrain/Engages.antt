-- ===== src/Constrain/Engages.antt =====
-- What a scan that engages leaves behind.
use q.Prelude.{
  ℕ, suc, ◌+◌, ◌≤◌, Bool, true, false, ◌||◌, not, Option, none, some, List, [], ◌∷◌, ◌++◌, length,
  ◌≡◌, refl, sym, ap, ◌∙◌, arith, Bytes, ℤ, pos, negsuc, if_intro, is_empty, drop, if◌then◌else◌,
}
use q.Toolgram.State.{Grammar, reset}
use q.Toolgram.Machine.{advance_str, closed}
use q.Toolgram.Signature.Tracked.{Tracked, reset-Tracked}
use q.Constrain.Engine.{set_tool_constraint}
use q.Constrain.State.{Constrainer, mask_id, apply, apply_slot, drop_constraint}
use q.Constrain.Rounds.{
  Verdict, engage, give_up, go_on, entered, scan_token, scan_from, scan_round, window, opener,
  rfind, ends_before,
}
use q.Constrain.Pool.{mask_id-Uploaded}
use q.Constrain.Staged.{Ready, Staged, Scanned, fed, advance_str-Tracked, advance_str-words}
use q.Constrain.Calls.{scan_token-Scanned}

-- An active constrainer whose own state is staged in lane 0, inside an open call.
abbrev pub Engaged : Constrainer → Type 0
Engaged s =
    (s.active ≡ true)
    × (s.staged_state ≡ s.tg)
    × (closed s.tg ≡ false)
    × ((k : ℕ) × (s.eng.h_mask_id0 ≡ pos k))

abbrev Judged : Constrainer × Verdict → Type 0
Judged r = (r.1 ≡ engage → Engaged r.0) × (r.1 ≡ give_up → r.0.active ≡ false)

apply_slot-active :
    (s : Constrainer) (g : Grammar) (id : ℤ)
    → (apply_slot g (s, id)).active ≡ true
    → ((apply_slot g (s, id)).staged_state ≡ g)
      × ((apply_slot g (s, id)).tg ≡ s.tg)
      × ((k : ℕ) × ((apply_slot g (s, id)).eng.h_mask_id0 ≡ pos k))
unfolding apply_slot drop_constraint set_tool_constraint
apply_slot-active s g (pos k) h = (refl, refl, (k, refl))
apply_slot-active s g (negsuc k) h = absurd (ground arith)

apply-active :
    (s : Constrainer) (g : Grammar)
    → Ready s
    → Tracked g
    → (apply s g).active ≡ true
    → ((apply s g).staged_state ≡ g)
      × ((apply s g).tg ≡ s.tg)
      × ((k : ℕ) × ((apply s g).eng.h_mask_id0 ≡ pos k))
unfolding apply
apply-active s g v t h =
    let u = mask_id-Uploaded s g v.pool_fits t in
    let (same, kept, k) = apply_slot-active (mask_id s g).0 g (mask_id s g).1 h in
    (same, kept ∙ ap (λ (x : Constrainer). x.tg) u.frame, k)

entered-Judged :
    (s : Constrainer) (g : Grammar) (b : Bool)
    → Ready (record s { tg = g })
    → (b ≡ true → Tracked g)
    → Judged (entered s (g, b))
unfolding entered
entered-Judged s g false v t = (λ h. absurd (cc), λ h. absurd (cc))
entered-Judged s g true v t =
    if_intro Judged (closed g) (λ done. (λ h. absurd (cc), λ h. absurd (cc)))
      (λ open_call.
        let s1 = record s { tg = g } in
        if_intro Judged (apply s1 g).active
          (λ on.
            let (same, kept, k) = apply-active s1 g v (t refl) on in
            (λ h. (on, same ∙ sym kept, ap closed kept ∙ open_call, k), λ h. absurd (cc)))
          (λ off. (λ h. absurd (ground arith), λ h. off)))

scan_token-Judged : (s : Constrainer) (bytes : Bytes) → Staged s → Judged (scan_token s bytes)
unfolding scan_token
scan_token-Judged s bytes v = at (rfind opener (window (s.tail ++ bytes)))
  where
    s1 : Constrainer
    s1 = record s { tail = window (s.tail ++ bytes) }

    quiet : Judged (s1, go_on)
    quiet = (λ h. absurd (cc), λ h. absurd (cc))

    at :
        (found : Option ℕ)
        → Judged (elim found [
          | none ↦ (s1, go_on)
          | some p ↦
              if ends_before p s1.tail bytes
              then (s1, go_on)
              else entered
                  (record s1 { active = true; engaged = s.engaged + 1 })
                  (advance_str (reset s.names s.tg) (drop (p + 11) s1.tail))
        ])
    at none = quiet
    at (some p) =
        let rem = drop (p + 11) s1.tail in
        let s2 = record s1 { active = true; engaged = s.engaged + 1 } in
        let start = reset-Tracked s.names s.tg v.ready.clean v.ready.words in
        let r = advance_str (reset s.names s.tg) rem in
        if_intro Judged (ends_before p s1.tail bytes) (λ h. quiet)
          (λ h.
            entered-Judged s2 r.0 r.1
              (fed s2 r.0 v.ready (advance_str-words rem (reset s.names s.tg) start.word_bar))
              (advance_str-Tracked rem (reset s.names s.tg) start))

-- What the result of a scan of `n` tokens from token `j` on says.
abbrev pub Reports : ℕ → ℕ → Constrainer × Option ℕ → Type 0
Reports j n (s, none) = s.active ≡ false
Reports j n (s, some i) = Engaged s × (s.skip_feed ≡ i) × (suc j ≤ i) × (i ≤ j + n)

module _ (decode_one : ℕ → Bytes) where
  scan_from-Reports :
      (j : ℕ) (s : Constrainer) (em : List ℕ)
      → Staged s
      → s.active ≡ false
      → Reports j (length em) (scan_from decode_one j s em)
  unfolding scan_from
  scan_from-Reports j s [] v off = off
  scan_from-Reports j s (t ∷ em) v off =
      go (scan_token s (decode_one t)) (scan_token-Scanned decode_one s (decode_one t) v off)
        (scan_token-Judged s (decode_one t) v) (λ s'. scan_from-Reports (j + 1) s' em)
    where
      widen :
          (r : Constrainer × Option ℕ)
          → Reports (j + 1) (length em) r
          → Reports j (suc (length em)) r
      widen (s', none) h = h
      widen (s', some i) h = (h.0, h.1, omega arith, omega arith)

      go :
          (r : Constrainer × Verdict)
          → Scanned r
          → Judged r
          → ((s' : Constrainer)
              → Staged s'
              → s'.active ≡ false
              → Reports (j + 1) (length em) (scan_from decode_one (j + 1) s' em))
          → Reports j (suc (length em)) (elim (r.1) [
            | engage ↦ (record (r.0) { skip_feed = j + 1 }, some (j + 1))
            | give_up ↦ (r.0, none)
            | go_on ↦ scan_from decode_one (j + 1) r.0 em
          ])
      go (s', engage) w u rest = (u.0 refl, refl, omega arith, omega arith)
      go (s', give_up) w u rest = u.1 refl
      go (s', go_on) w u rest = widen (scan_from decode_one (j + 1) s' em) (rest s' w.0 (w.1 refl))

  -- A scan by an idle constrainer in a state of its invariant returns -1 and stays idle, or it
  -- returns the number of tokens to keep, which is one at least and those of the batch at most; then
  -- it is active inside an open call, its grammar's state is the one that is staged in lane 0, and as
  -- many tokens are marked as consumed.
  pub scan_round-Reports :
      (em : List ℕ) (s : Constrainer)
      → Staged s
      → s.active ≡ false
      → Reports 0 (length em) (scan_round decode_one em s)
  unfolding scan_round
  scan_round-Reports em s v off =
      if_intro (Reports 0 (length em))
        (not s.enabled || (is_empty s.names || (s.active || s.pool_dead))) (λ no. off)
        (λ go. scan_from-Reports 0 s em v off)
