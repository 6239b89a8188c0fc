-- ===== src/Toolgram/Reads.antt =====
-- How the machine reads a text: from a state, over legal bytes only, into a state and a stack.
pub mod Strings
pub mod Numbers
pub mod Values
pub mod Trees
use q.Prelude.{
  ℕ, Bool, true, false, List, [], ◌∷◌, ◌++◌, ◌≡◌, ◌⊎◌, inl, inr, refl, sym, ◌∙◌, ap, arith, Bytes,
  codes, Bool-cases,
}
use q.Toolgram.State.{Grammar, St, is_ws, is_digit}
use q.Toolgram.Step.{
  Res, step_after_val, step_num_zero, step_num_int, step_num_frac, step_num_exp, step_j_value,
  step_j_value_req, step_j_key, step_done,
}
use q.Toolgram.Machine.{step_in, settle, advance, advance_str}
use q.Toolgram.Json.{Blank, blank, blanks}

-- `s` is legal from `g`, and leaves the machine in a state of `P` with the stack `k`. The name and
-- the allowlist stay what they were.
pub record Reads (g : Grammar) (s : Bytes) (P : St → Type 0) (k : Bytes) : Type 0 where
  pub last : Grammar
  pub runs : advance_str g s ≡ (last, true)
  pub alive : last.dead ≡ false
  pub names_kept : last.names ≡ g.names
  pub pref_kept : last.name_pref ≡ g.name_pref
  pub stack_is : last.stack ≡ k
  pub state_is : P last.st

pub advance_str-append :
    (s t : Bytes) (g g' : Grammar)
    → advance_str g s ≡ (g', true)
    → advance_str g (s ++ t) ≡ advance_str g' t
unfolding advance_str
advance_str-append [] t g g' h = ground arith
advance_str-append (c ∷ s) t g g' h = ground (arith, advance_str-append s t (advance g c).0 g')

pub advance_str-cons :
    (c : ℕ) (s : Bytes) (g g' : Grammar)
    → g.dead ≡ false
    → step_in g.st g c ≡ (g', true)
    → advance_str g (c ∷ s) ≡ advance_str g' s
unfolding advance_str
advance_str-cons c s g g' d e = ground arith

pub Reads-append :
    {g : Grammar} {s : Bytes} {P Q : St → Type 0} {k : Bytes} (t : Bytes) (m : Bytes)
    → Reads g s P k
    → ((h : Grammar) → h.dead ≡ false → h.stack ≡ k → P h.st → Reads h t Q m)
    → Reads g (s ++ t) Q m
Reads-append {g} {s} t m r next =
    let q = next r.last r.alive r.stack_is r.state_is in
    record {
      last = q.last;
      runs = advance_str-append s t g r.last r.runs ∙ q.runs;
      alive = q.alive;
      names_kept = q.names_kept ∙ r.names_kept;
      pref_kept = q.pref_kept ∙ r.pref_kept;
      stack_is = q.stack_is;
      state_is = q.state_is;
    }

pub Reads-nil : (g : Grammar) {P : St → Type 0} → g.dead ≡ false → P g.st → Reads g [] P g.stack
unfolding advance_str
Reads-nil g d p = record {
  last = g;
  runs = refl;
  alive = d;
  names_kept = refl;
  pref_kept = refl;
  stack_is = refl;
  state_is = p;
}

pub Reads-intro :
    (g g' : Grammar) (s : Bytes) {P : St → Type 0} {k : Bytes}
    → advance_str g s ≡ (g', true)
    → g'.dead ≡ false
    → g'.names ≡ g.names
    → g'.name_pref ≡ g.name_pref
    → g'.stack ≡ k
    → P g'.st
    → Reads g s P k
Reads-intro g g' s e d n p k st = record {
  last = g';
  runs = e;
  alive = d;
  names_kept = n;
  pref_kept = p;
  stack_is = k;
  state_is = st;
}

-- The states that pass over white space.
abbrev pub skips : St → Bool
skips St.ws_obj_open = true
skips St.key_open_q = true
skips St.key_colon = true
skips St.name_open_q = true
skips St.arg_comma = true
skips St.argkey_open_q = true
skips St.args_colon = true
skips St.j_value = true
skips St.j_value_req = true
skips St.j_key = true
skips St.j_key_req = true
skips St.j_keycolon = true
skips St.j_after_val = true
skips St.obj_close = true
skips St.done_ = true
skips _ = false

step_in-blank :
    (s : St) (g : Grammar) (w : Blank) → skips s ≡ true → step_in s g (blank w) ≡ (g, true)
unfolding step_in step_after_val step_j_value step_j_value_req step_j_key step_done
step_in-blank St.ws_obj_open g Blank.space h = refl
step_in-blank _ g Blank.space h = ground arith
step_in-blank St.ws_obj_open g Blank.newline h = refl
step_in-blank _ g Blank.newline h = ground arith
step_in-blank St.ws_obj_open g Blank.return h = refl
step_in-blank _ g Blank.return h = ground arith
step_in-blank St.ws_obj_open g Blank.tab h = refl
step_in-blank _ g Blank.tab h = ground arith

pub advance_str-blanks :
    (ws : List Blank) (g : Grammar)
    → g.dead ≡ false
    → skips g.st ≡ true
    → advance_str g (blanks ws) ≡ (g, true)
unfolding advance_str
advance_str-blanks [] g d h = refl
advance_str-blanks (w ∷ ws) g d h =
    ground (arith, step_in-blank g.st g w h, advance_str-blanks ws g d h)
