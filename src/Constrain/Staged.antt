-- ===== src/Constrain/Staged.antt =====
-- The invariant of the constrainer, and its steps on one grammar state.
use q.Prelude.{
  ℕ, Bool, true, false, some, List, [], ◌∷◌, get_elem?, ◌≡◌, refl, sym, ap, subst, ◌∙◌, arith,
  Bytes, Without, ℤ, pos, negsuc, false≢true, ◌+◌, if_intro,
}
use q.Toolgram.State.{Grammar}
use q.Toolgram.Machine.{advance, advance_str, closed}
use q.Toolgram.Signature.Tracked.{Tracked, CleanNames, advance-Tracked, advance-words}
use q.Toolgram.MaskCache.{Mask, ToolMaskCache, build_mask}
use q.Toolgram.MaskCache.Exact.{build_mask-SameVocab}
use q.Constrain.Engine.{minus_one, set_tool_constraint}
use q.Constrain.State.{Constrainer, mask_id, apply, apply_slot, drop_constraint}
use q.Constrain.Rounds.{Verdict, entered, on_id_fed}
use q.Constrain.Pool.{PoolFits, PoolFitsAt, moved, Extends, SameVocab, mask_id-Uploaded}

-- One byte, and then the rest.
abbrev run_on : Grammar × Bool → Bytes → Grammar × Bool
run_on r s = elim (r.1) [ true ↦ advance_str r.0 s | false ↦ r ]

run_on_intro :
    (P : Grammar × Bool → Type 0) (r : Grammar × Bool) (s : Bytes)
    → (r.1 ≡ true → P (advance_str r.0 s))
    → (r.1 ≡ false → P r)
    → P (run_on r s)
run_on_intro P (g, true) s p q = p refl
run_on_intro P (g, false) s p q = q refl

-- A text keeps a tracked machine tracked, as long as it is accepted.
pub advance_str-Tracked :
    (s : Bytes) (g : Grammar) → Tracked g → (advance_str g s).1 ≡ true → Tracked (advance_str g s).0
unfolding advance_str
advance_str-Tracked [] g t = λ h. t
advance_str-Tracked (c ∷ s) g t =
    run_on_intro (λ r. r.1 ≡ true → Tracked r.0) (advance g c) s
      (λ ok. advance_str-Tracked s (advance g c).0 (advance-Tracked g c t ok))
      (λ bad h. absurd (cc))

-- The last literal holds no bar, whatever was refused.
pub advance_str-words :
    (s : Bytes) (g : Grammar) → Without b'|' g.lit_word → Without b'|' (advance_str g s).0.lit_word
unfolding advance_str
advance_str-words [] g w = w
advance_str-words (c ∷ s) g w =
    run_on_intro (λ r. Without b'|' r.0.lit_word) (advance g c) s
      (λ ok. advance_str-words s (advance g c).0 (advance-words g c w)) (λ bad. advance-words g c w)

-- The pool entry at the id is the mask of the state.
abbrev pub HoldsMask : List Mask → ToolMaskCache → ℤ → Grammar → Type 0
HoldsMask p c id g = (k : ℕ) → id ≡ pos k → get_elem? p k ≡ some (build_mask c g)

pub record ReadyAt (p : List Mask) (id : ℤ) (c : ToolMaskCache) (m : List ℤ) (ns : List Bytes)
    (w : Bytes) (g : Grammar) : Type 0 where
  pub pool_fits : PoolFitsAt p c m
  pub clean : CleanNames ns
  pub words : Without b'|' w
  pub staged : Tracked g
  pub exact : HoldsMask p c id g

-- What holds also while a call is entered or left.
abbrev pub Ready : Constrainer → Type 0
Ready s =
    ReadyAt s.eng.pool s.eng.h_mask_id0 s.cache s.host2dev s.names s.tg.lit_word s.staged_state

-- Between the calls: an active constrainer has a live grammar, and an idle one no constraint in lane 0.
pub record Staged (s : Constrainer) : Type 0 where
  pub ready : Ready s
  pub live : s.active ≡ true → Tracked s.tg
  pub idle : s.active ≡ false → s.eng.h_mask_id0 ≡ minus_one

moved-Ready :
    (s : Constrainer) (p : List Mask) (c : ToolMaskCache) (m : List ℤ) (r : ℕ)
    → Ready s
    → PoolFits (moved s p c m r)
    → Extends s.eng.pool p
    → SameVocab s.cache c
    → Ready (moved s p c m r)
moved-Ready s p c m r v fits ext same = record {
  pool_fits = fits;
  clean = v.clean;
  words = v.words;
  staged = v.staged;
  exact = λ k e.
      ext k (build_mask s.cache s.staged_state) (v.exact k e)
      ∙ ap some (sym (build_mask-SameVocab s.cache c s.staged_state same));
}

-- No constraint fits any state.
pub lifted :
    {p : List Mask} {id : ℤ} {c : ToolMaskCache} {m : List ℤ} {ns : List Bytes} {w : Bytes}
    {g : Grammar}
    → ReadyAt p id c m ns w g
    → ReadyAt p minus_one c m ns w g
lifted v = record {
  pool_fits = v.pool_fits;
  clean = v.clean;
  words = v.words;
  staged = v.staged;
  exact = λ k e. absurd (cc);
}

pub drop_constraint-Staged :
    (s : Constrainer)
    → Ready s
    → (s.active ≡ false → s.eng.h_mask_id0 ≡ minus_one)
    → Staged (drop_constraint s)
unfolding drop_constraint set_tool_constraint
drop_constraint-Staged s v idle =
    if_intro Staged s.active
      (λ on. record { ready = lifted v; live = λ h. absurd (cc); idle = λ h. refl })
      (λ off. record { ready = v; live = λ h. absurd (cc); idle = idle })

module _ (s : Constrainer) (g : Grammar) (v : Ready s) (on : s.active ≡ true) (live : Tracked s.tg)
    (t : Tracked g) where
  apply_slot-Staged :
      (p : List Mask) (c : ToolMaskCache) (m : List ℤ) (r : ℕ) (id : ℤ)
      → Ready (moved s p c m r)
      → HoldsMask p c id g
      → Staged (apply_slot g (moved s p c m r, id))
  unfolding apply_slot set_tool_constraint
  apply_slot-Staged p c m r (negsuc k) w found =
      drop_constraint-Staged
        (record (moved s p c m r) { pool_drops = s.pool_drops + 1; pool_dead = true }) w
        (λ off. absurd (cc))
  apply_slot-Staged p c m r (pos k) w found = record {
    ready = record {
      pool_fits = w.pool_fits;
      clean = w.clean;
      words = w.words;
      staged = t;
      exact = found;
    };
    live = λ h. live;
    idle = λ off. absurd (cc);
  }

  pub apply-Staged : Staged (apply s g)
  unfolding apply
  apply-Staged =
      let u = mask_id-Uploaded s g v.pool_fits t in
      let s' = (mask_id s g).0 in
      let w =
        moved-Ready s s'.eng.pool s'.cache s'.host2dev s'.rebinds v u.pool_fits u.extends
          u.same_vocab in
      subst (λ x. Staged (apply_slot g (x, (mask_id s g).1))) (sym u.frame)
        (apply_slot-Staged s'.eng.pool s'.cache s'.host2dev s'.rebinds (mask_id s g).1 w (λ k e.
          u.found k e ∙ ap some (sym (build_mask-SameVocab s.cache s'.cache g u.same_vocab))))

-- A scan goes on from an idle constrainer only.
abbrev pub Scanned : Constrainer × Verdict → Type 0
Scanned r = Staged r.0 × (r.1 ≡ Verdict.go_on → r.0.active ≡ false)

-- The call that is entered or left: the grammar has moved, and the constrainer is active.
module _ (s : Constrainer) (g : Grammar) (v : Ready s) (w : Without b'|' g.lit_word) where
  pub fed : Ready (record s { tg = g })
  fed = record {
    pool_fits = v.pool_fits;
    clean = v.clean;
    words = w;
    staged = v.staged;
    exact = v.exact;
  }

  pub on_id_fed-Staged :
      (b : Bool) → s.active ≡ true → (b ≡ true → Tracked g) → Staged (on_id_fed s (g, b))
  unfolding on_id_fed set_tool_constraint
  on_id_fed-Staged false on t =
      drop_constraint-Staged (record s { tg = g }) fed (λ off. absurd (cc))
  on_id_fed-Staged true on t =
      if_intro Staged (closed g)
        (λ done. record { ready = lifted fed; live = λ h. absurd (cc); idle = λ h. refl })
        (λ open_call. record { ready = fed; live = λ h. t refl; idle = λ off. absurd (cc) })

  -- Entering starts without a constraint.
  pub entered-Scanned :
      (b : Bool)
      → s.active ≡ true
      → s.eng.h_mask_id0 ≡ minus_one
      → (b ≡ true → Tracked g)
      → Scanned (entered s (g, b))
  unfolding entered drop_constraint
  entered-Scanned false on none_set t = (
    unfold drop_constraint in drop_constraint-Staged (record s { tg = g }) fed (λ off. absurd (cc)),
    λ h. ground arith,
  )
  entered-Scanned true on none_set t =
      if_intro Scanned (closed g)
        (λ done. (
          record { ready = fed; live = λ h. absurd (false≢true h); idle = λ h. none_set },
          λ h. refl,
        ))
        (λ open_call.
          let a = apply-Staged (record s { tg = g }) g fed on (t refl) (t refl) in
          if_intro Scanned (apply (record s { tg = g }) g).active (λ h. (a, λ e. absurd (cc)))
            (λ h. (a, λ e. h)))

pub mask_id-Staged : (s : Constrainer) (g : Grammar) → Staged s → Tracked g → Staged (mask_id s g).0
mask_id-Staged s g v t =
    let u = mask_id-Uploaded s g v.ready.pool_fits t in
    let s' = (mask_id s g).0 in
    subst Staged (sym u.frame) (record {
      ready =
          moved-Ready s s'.eng.pool s'.cache s'.host2dev s'.rebinds v.ready u.pool_fits u.extends
            u.same_vocab;
      live = v.live;
      idle = v.idle;
    })
