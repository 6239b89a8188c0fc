-- ===== src/Toolgram/Sound.antt =====
-- What the machine guarantees of any text that it has accepted.
use q.Prelude.{ℕ, Bool, true, false, is_empty, List, [], ◌∷◌, subst, ◌≡◌, refl, ◌∙◌, arith, Bytes}
use q.Toolgram.State.{Grammar, St, reset}
use q.Toolgram.Step.{
  any_eq, match_word, step_name_val, step_j_value, step_j_value_req, step_str, step_esc, step_hex,
  step_after_val, step_num_minus, step_num_zero, step_num_int, step_num_frac, step_num_e,
  step_num_exp, step_j_key, step_done,
}
use q.Toolgram.Machine.{step_in, settle, advance, advance_str, done, is_done_st, tool_name}
use q.Toolgram.Names.{Registered, any_eq-Registered}
use q.Toolgram.Valid.{IsValid, StackFits, NameFits, step_in-IsValid, reset-IsValid}

pub step_in_kept :
    (s : St) (g : Grammar) (c : ℕ)
    → ((step_in s g c).0.names ≡ g.names) × ((step_in s g c).0.dead ≡ g.dead)
unfolding step_in match_word step_name_val step_j_value step_j_value_req step_str step_esc step_hex
    step_after_val step_num_minus step_num_zero step_num_int step_num_frac step_num_e step_num_exp
    step_j_key step_done
step_in_kept St.ws_obj_open g c = ground arith
step_in_kept _ g c = ground arith

-- A step keeps the invariant and the allowlist, or kills the machine.
abbrev Stays : List Bytes → Grammar × Bool → Type 0
Stays ns (g, true) = IsValid g × (g.names ≡ ns) × (g.dead ≡ false)
Stays ns (g, false) = g.dead ≡ true

settle-Stays :
    (g : Grammar) (r : Grammar × Bool)
    → g.dead ≡ false
    → (r.1 ≡ true → IsValid r.0)
    → r.0.names ≡ g.names
    → r.0.dead ≡ g.dead
    → Stays g.names (settle r)
settle-Stays g (h, true) d v n e = (v refl, n, e ∙ d)
settle-Stays g (h, false) d v n e = refl

advance-Stays : (g : Grammar) (c : ℕ) → g.dead ≡ false → IsValid g → Stays g.names (advance g c)
advance-Stays g c d v = rw (live g c d) (
    settle-Stays g (step_in g.st g c) d (λ h. step_in-IsValid g.st g c refl v h)
      (step_in_kept g.st g c).0 (step_in_kept g.st g c).1)
  where
    live : (g : Grammar) (c : ℕ) → g.dead ≡ false → advance g c ≡ settle (step_in g.st g c)
    live g c d = unfold advance in rw d

advance_str-Stays :
    (s : Bytes) (g : Grammar) → g.dead ≡ false → IsValid g → Stays g.names (advance_str g s)
unfolding advance_str
advance_str-Stays [] g d v = (v, refl, d)
advance_str-Stays (c ∷ s) g d v =
    go (advance g c) (advance-Stays g c d v) (λ h. advance_str-Stays s h)
  where
    go :
        (r : Grammar × Bool)
        → Stays g.names r
        → ((h : Grammar) → h.dead ≡ false → IsValid h → Stays h.names (advance_str h s))
        → Stays g.names (elim (r.1) [ true ↦ advance_str r.0 s | false ↦ r ])
    go (h, true) (v', n, d') later = subst (λ ns. Stays ns (advance_str h s)) n (later h d' v')
    go (h, false) x later = x

is_done-StackFits : (s : St) (k : Bytes) → is_done_st s ≡ true → StackFits s k → k ≡ []
is_done-StackFits St.done_ k h f = f
is_done-StackFits St.closer_ k h f = f
is_done-StackFits St.closed_ k h f = f
is_done-StackFits _ k h f = absurd (ground arith)

is_done-NameFits :
    (s : St) (p : Bytes) (ns : List Bytes)
    → is_done_st s ≡ true
    → NameFits s p ns
    → any_eq p ns ≡ true
is_done-NameFits St.done_ p ns h f = f
is_done-NameFits St.closer_ p ns h f = f
is_done-NameFits St.closed_ p ns h f = f
is_done-NameFits _ p ns h f = absurd (ground arith)

-- Whatever text the machine was fed from a reset, if `done()` holds then the accepted name is a
-- registered tool, every container of the arguments has been closed, and no byte was refused.
pub done-Registered :
    (ns : List Bytes) (g : Grammar) (s : Bytes)
    → done (advance_str (reset ns g) s).0 ≡ true
    → Registered (tool_name (advance_str (reset ns g) s).0) ns
      × ((advance_str (reset ns g) s).0.stack ≡ [])
      × ((advance_str (reset ns g) s).1 ≡ true)
unfolding done tool_name reset
done-Registered ns g s h =
    go (advance_str (reset ns g) s) h (advance_str-Stays s (reset ns g) refl (reset-IsValid ns g))
  where
    go :
        (r : Grammar × Bool)
        → done r.0 ≡ true
        → Stays ns r
        → Registered (tool_name r.0) ns × (r.0.stack ≡ []) × (r.1 ≡ true)
    go (h, true) e (v, n, d) =
        let at_end : is_done_st h.st ≡ true = ground arith in
        (
          any_eq-Registered h.name_pref ns (
              subst (λ l. any_eq h.name_pref l ≡ true) n
                (is_done-NameFits h.st h.name_pref h.names at_end v.name_fits)),
          is_done-StackFits h.st h.stack at_end v.stack_fits,
          refl,
        )
    go (h, false) e d = absurd (ground arith)

dead_refuses : (g : Grammar) (s : Bytes) → g.dead ≡ true → advance_str g s ≡ (g, is_empty s)
unfolding advance_str
dead_refuses g [] d = refl
dead_refuses g (c ∷ s) d = ground arith
