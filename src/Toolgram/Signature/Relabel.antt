-- ===== src/Toolgram/Signature/Relabel.antt =====
-- How the transitions depend on the allowlist and on the name: through the two scans up to the
-- name, and not at all from `ARG_COMMA` on.
use q.Prelude.{
  ℕ, Bool, true, false, leb, List, [], ◌∷◌, ◌++◌, ◌≡◌, refl, sym, ap, ◌∙◌, arith, Bytes,
  if◌then◌else◌, subst,
}
use q.Toolgram.State.{Grammar, St}
use q.Toolgram.Step.{
  Res, any_eq, any_prefix, match_word, step_name_val, step_j_value, step_j_value_req, step_str,
  step_esc, step_hex, step_after_val, step_num_minus, step_num_zero, step_num_int, step_num_frac,
  step_num_e, step_num_exp, step_j_key, step_done,
}
use q.Toolgram.Machine.{step_in, settle, advance, advance_str, token_ok}
use q.Toolgram.Sound.{step_in_kept}
use q.Toolgram.Signature.{st_index}

-- The two scans of the allowlists agree.
pub record SameScans (ns ms : List Bytes) : Type 0 where
  pub same_eq : (p : Bytes) → any_eq p ns ≡ any_eq p ms
  pub same_prefix : (p : Bytes) → any_prefix p ns ≡ any_prefix p ms

-- The same state of the machine under another allowlist.
abbrev pub relist : List Bytes → Bytes → Grammar → Grammar
relist ns k g = record g { names = ns; names_key = k }

-- And with another name.
abbrev pub rename : List Bytes → Bytes → Bytes → Grammar → Grammar
rename ns k p g = record g { names = ns; names_key = k; name_pref = p }

abbrev on_state : (Grammar → Grammar) → Res → Res
on_state f (g, b) = (f g, b)

abbrev all_steps : Unit {0}
unfolding step_in match_word step_name_val step_j_value step_j_value_req step_str step_esc step_hex
    step_after_val step_num_minus step_num_zero step_num_int step_num_frac step_num_e step_num_exp
    step_j_key step_done
all_steps = tt

step_in-relist :
    (s : St) (g : Grammar) (c : ℕ) (ns : List Bytes) (k : Bytes)
    → any_eq g.name_pref ns ≡ any_eq g.name_pref g.names
    → any_prefix (g.name_pref ++ c ∷ []) ns ≡ any_prefix (g.name_pref ++ c ∷ []) g.names
    → step_in s (relist ns k g) c ≡ on_state (relist ns k) (step_in s g c)
unfolding all_steps
step_in-relist St.ws_obj_open g c ns k e p = ground arith
step_in-relist _ g c ns k e p = ground arith

abbrev pub IsLate : St → Type 0
IsLate s = leb (st_index s) 5 ≡ false

step_in-rename :
    (s : St) (g : Grammar) (c : ℕ) (ns : List Bytes) (k p : Bytes)
    → IsLate s
    → step_in s (rename ns k p g) c ≡ on_state (rename ns k p) (step_in s g c)
unfolding all_steps st_index
step_in-rename St.ws_obj_open g c ns k p h = absurd (cc)
step_in-rename _ g c ns k p h = ground arith

step_in-IsLate : (s : St) (g : Grammar) (c : ℕ) → g.st ≡ s → IsLate s → IsLate (step_in s g c).0.st
unfolding all_steps st_index
step_in-IsLate St.ws_obj_open g c e h = absurd (cc)
step_in-IsLate _ g c e h = ground arith

settle-on_state :
    (f : Grammar → Grammar)
    → ((g : Grammar) → (record (f g) { dead = true }) ≡ f (record g { dead = true }))
    → (r : Res) → settle (on_state f r) ≡ on_state f (settle r)
settle-on_state f keeps (g, true) = refl
settle-on_state f keeps (g, false) = ap (λ h. (h, false)) (keeps g)

guarded :
    (f : Grammar → Grammar)
    → ((g : Grammar) → (record (f g) { dead = true }) ≡ f (record g { dead = true }))
    → (b : Bool) (g : Grammar) (r r' : Res) → r' ≡ on_state f r
    → (if b then (f g, false) else settle r') ≡ on_state f (if b then (g, false) else settle r)
guarded f keeps true g r r' e = refl
guarded f keeps false g r r' e = ap settle e ∙ settle-on_state f keeps r

advance-relist :
    (g : Grammar) (c : ℕ) (ns : List Bytes) (k : Bytes)
    → SameScans ns g.names
    → advance (relist ns k g) c ≡ on_state (relist ns k) (advance g c)
unfolding advance
advance-relist g c ns k same =
    guarded (relist ns k) (λ h. refl) g.dead g (step_in g.st g c) (step_in g.st (relist ns k g) c)
      (step_in-relist g.st g c ns k (same.same_eq g.name_pref)
        (same.same_prefix (g.name_pref ++ c ∷ [])))

advance-rename :
    (g : Grammar) (c : ℕ) (ns : List Bytes) (k p : Bytes)
    → IsLate g.st
    → advance (rename ns k p g) c ≡ on_state (rename ns k p) (advance g c)
unfolding advance
advance-rename g c ns k p late =
    guarded (rename ns k p) (λ h. refl) g.dead g (step_in g.st g c)
      (step_in g.st (rename ns k p g) c) (step_in-rename g.st g c ns k p late)

advance-IsLate : (g : Grammar) (c : ℕ) → IsLate g.st → IsLate (advance g c).0.st
unfolding advance
advance-IsLate g c late = go g.dead (step_in g.st g c) (step_in-IsLate g.st g c refl late)
  where
    go : (b : Bool) (r : Res) → IsLate r.0.st → IsLate (if b then (g, false) else settle r).0.st
    go true r h = late
    go false (h, true) l = l
    go false (h, false) l = l

pub advance-names : (g : Grammar) (c : ℕ) → (advance g c).0.names ≡ g.names
unfolding advance
advance-names g c = go g.dead (step_in g.st g c) (step_in_kept g.st g c).0
  where
    go :
        (b : Bool) (r : Res)
        → r.0.names ≡ g.names
        → (if b then (g, false) else settle r).0.names ≡ g.names
    go true r h = refl
    go false (h, true) e = e
    go false (h, false) e = e

-- One byte, and then the rest of the text.
abbrev run_on : Res → Bytes → Res
run_on r s = elim (r.1) [ true ↦ advance_str r.0 s | false ↦ r ]

run_on-on_state :
    (f : Grammar → Grammar) (r : Res) (s : Bytes)
    → (advance_str (f r.0) s).1 ≡ (advance_str r.0 s).1
    → (run_on (on_state f r) s).1 ≡ (run_on r s).1
run_on-on_state f (g, true) s e = e
run_on-on_state f (g, false) s e = refl

-- Allowlists that scan alike admit the same texts in a state.
pub token_ok-relist :
    (s : Bytes) (g : Grammar) (ns : List Bytes) (k : Bytes)
    → SameScans ns g.names
    → token_ok (relist ns k g) s ≡ token_ok g s
unfolding token_ok advance_str
token_ok-relist [] g ns k same = refl
token_ok-relist (c ∷ s) g ns k same =
    ap (λ r. (run_on r s).1) (advance-relist g c ns k same)
    ∙ run_on-on_state (relist ns k) (advance g c) s (
        token_ok-relist s (advance g c).0 ns k
          (subst (SameScans ns) (sym (advance-names g c)) same))

-- Past the name neither the allowlist nor the name decides anything.
pub token_ok-rename :
    (s : Bytes) (g : Grammar) (ns : List Bytes) (k p : Bytes)
    → IsLate g.st
    → token_ok (rename ns k p g) s ≡ token_ok g s
unfolding token_ok advance_str
token_ok-rename [] g ns k p late = refl
token_ok-rename (c ∷ s) g ns k p late =
    ap (λ r. (run_on r s).1) (advance-rename g c ns k p late)
    ∙ run_on-on_state (rename ns k p) (advance g c) s
        (token_ok-rename s (advance g c).0 ns k p (advance-IsLate g c late))
