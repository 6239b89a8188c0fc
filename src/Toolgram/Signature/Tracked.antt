-- ===== src/Toolgram/Signature/Tracked.antt =====
-- What holds of the machine while it constrains a call: it is alive, its fields fit its state,
-- and its key is that of its allowlist, whose names hold no separator of the signature.
use q.Prelude.{
  ℕ, Bool, true, false, List, [], ◌∷◌, ◌≡◌, refl, sym, ap, subst, ◌∙◌, arith, Bytes, Without,
  if◌then◌else◌,
}
use q.Toolgram.State.{Grammar, St, reset, sort_names, join_names}
use q.Toolgram.Step.{
  Res, match_word, step_name_val, step_j_value, step_j_value_req, step_str, step_esc, step_hex,
  step_after_val, step_num_minus, step_num_zero, step_num_int, step_num_frac, step_num_e,
  step_num_exp, step_j_key, step_done,
}
use q.Toolgram.Machine.{step_in, settle, advance}
use q.Toolgram.Valid.{IsValid, Braces, StackFits, reset-IsValid, step_in-IsValid}
use q.Toolgram.Sound.{step_in_kept}
use q.Toolgram.Signature.Names.{AllWithout}

pub record CleanNames (ns : List Bytes) : Type 0 where
  pub no_bar : AllWithout b'|' ns
  pub no_separator : AllWithout 0x1f ns

pub record Tracked (g : Grammar) : Type 0 where
  pub alive : g.dead ≡ false
  pub valid : IsValid g
  pub keyed : g.names_key ≡ join_names (sort_names g.names)
  pub clean : CleanNames g.names
  pub word_bar : Without b'|' g.lit_word

pub reset-Tracked :
    (ns : List Bytes) (g : Grammar) → CleanNames ns → Without b'|' g.lit_word → Tracked (reset ns g)
unfolding reset
reset-Tracked ns g clean word = record {
  alive = refl;
  valid = unfold reset in reset-IsValid ns g;
  keyed = refl;
  clean = clean;
  word_bar = word;
}

step_in_words :
    (s : St) (g : Grammar) (c : ℕ)
    → Without b'|' g.lit_word
    → Without b'|' (step_in s g c).0.lit_word × ((step_in s g c).0.names_key ≡ g.names_key)
unfolding step_in match_word step_name_val step_j_value step_j_value_req step_str step_esc step_hex
    step_after_val step_num_minus step_num_zero step_num_int step_num_frac step_num_e step_num_exp
    step_j_key step_done
step_in_words St.ws_obj_open g c h = ground arith
step_in_words _ g c h = ground arith

pub advance-words :
    (g : Grammar) (c : ℕ) → Without b'|' g.lit_word → Without b'|' (advance g c).0.lit_word
unfolding advance
advance-words g c w = go g.dead (step_in g.st g c) (step_in_words g.st g c w).0
  where
    go :
        (b : Bool) (r : Res)
        → Without b'|' r.0.lit_word
        → Without b'|' (if b then (g, false) else settle r).0.lit_word
    go true r u = w
    go false (h, true) u = u
    go false (h, false) u = u

-- A byte that is accepted keeps all of it.
pub advance-Tracked :
    (g : Grammar) (c : ℕ) → Tracked g → (advance g c).1 ≡ true → Tracked (advance g c).0
unfolding advance
advance-Tracked g c t =
    go g.dead t.alive (step_in g.st g c) (λ h. step_in-IsValid g.st g c refl t.valid h)
      (step_in_kept g.st g c) (step_in_words g.st g c t.word_bar)
  where
    go :
        (b : Bool)
        → b ≡ false
        → (r : Res) → (r.1 ≡ true → IsValid r.0)
        → (r.0.names ≡ g.names) × (r.0.dead ≡ g.dead)
        → Without b'|' r.0.lit_word × (r.0.names_key ≡ g.names_key)
        → (if b then (g, false) else settle r).1 ≡ true
        → Tracked (if b then (g, false) else settle r).0
    go true d r v k w h = absurd (cc)
    go false d (h, false) v k w e = absurd (cc)
    go false d (h, true) v k w e = record {
      alive = k.1 ∙ t.alive;
      valid = v refl;
      keyed = w.1 ∙ t.keyed ∙ ap (λ l. join_names (sort_names l)) (sym k.0);
      clean = subst CleanNames (sym k.0) t.clean;
      word_bar = w.0;
    }

pub StackFits-Braces : (s : St) (k : Bytes) → StackFits s k → Braces k
StackFits-Braces s [] h = tt
StackFits-Braces St.j_value (c ∷ k) h = h
StackFits-Braces _ (c ∷ k) h = ground arith
