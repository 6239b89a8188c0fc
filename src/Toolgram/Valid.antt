-- ===== src/Toolgram/Valid.antt =====
-- The invariant of the machine: what each state knows of the stack, the literal and the name.
use q.Prelude.{ℕ, ◌<◌, ◌≤◌, true, [], ◌∷◌, ◌≡◌, ◌⊎◌, refl, arith, Bytes, codes, length, List}
use q.Toolgram.State.{Grammar, St, reset}
use q.Toolgram.Step.{
  any_eq, any_prefix, match_word, step_name_val, step_j_value, step_j_value_req, step_str, step_esc,
  step_hex, step_after_val, step_num_minus, step_num_zero, step_num_int, step_num_frac, step_num_e,
  step_num_exp, step_j_key, step_done,
}
use q.Toolgram.Machine.{step_in}

-- Open containers, innermost first.
abbrev pub Braces : Bytes → Type 0
Braces [] = Unit
Braces (c ∷ k) = ((c ≡ b'{') ⊎ (c ≡ b'[')) × Braces k

abbrev pub InObject : Bytes → Type 0
InObject [] = ⊥
InObject (c ∷ k) = (c ≡ b'{') × Braces k

abbrev pub InSome : Bytes → Type 0
InSome [] = ⊥
InSome (c ∷ k) = ((c ≡ b'{') ⊎ (c ≡ b'[')) × Braces k

-- The stack is empty before the arguments and after them, and holds the open containers between.
abbrev pub StackFits : St → Bytes → Type 0
StackFits St.ws_obj_open k = k ≡ []
StackFits St.key_open_q k = k ≡ []
StackFits St.key_name k = k ≡ []
StackFits St.key_colon k = k ≡ []
StackFits St.name_open_q k = k ≡ []
StackFits St.name_val k = k ≡ []
StackFits St.arg_comma k = k ≡ []
StackFits St.argkey_open_q k = k ≡ []
StackFits St.argkey k = k ≡ []
StackFits St.args_colon k = k ≡ []
StackFits St.j_value k = Braces k
StackFits St.j_key k = InObject k
StackFits St.j_key_req k = InObject k
StackFits St.j_keystr k = InObject k
StackFits St.j_keyesc k = InObject k
StackFits St.j_key_u1 k = InObject k
StackFits St.j_key_u2 k = InObject k
StackFits St.j_key_u3 k = InObject k
StackFits St.j_key_u4 k = InObject k
StackFits St.j_keycolon k = InObject k
StackFits St.obj_close k = k ≡ []
StackFits St.done_ k = k ≡ []
StackFits St.closer_ k = k ≡ []
StackFits St.closed_ k = k ≡ []
StackFits _ k = InSome k

-- A literal is matched from inside it.
abbrev pub LitFits : St → ℕ → Bytes → Type 0
LitFits St.key_name i w = i ≤ 4
LitFits St.argkey i w = i ≤ 9
LitFits St.j_lit i w = i < length w
LitFits St.closer_ i w = (i < length w) × (w ≡ codes "</tool_call>")
LitFits _ i w = Unit

-- The name grows as a prefix of a registered name, and past its closing quote it is one.
abbrev pub NameFits : St → Bytes → List Bytes → Type 0
NameFits St.ws_obj_open p ns = p ≡ []
NameFits St.key_open_q p ns = p ≡ []
NameFits St.key_name p ns = p ≡ []
NameFits St.key_colon p ns = p ≡ []
NameFits St.name_open_q p ns = p ≡ []
NameFits St.name_val p ns = (p ≡ []) ⊎ (any_prefix p ns ≡ true)
NameFits _ p ns = any_eq p ns ≡ true

pub record Fits (s : St) (g : Grammar) : Type 0 where
  pub stack_fits : StackFits s g.stack
  pub lit_fits : LitFits s g.lit g.lit_word
  pub name_fits : NameFits s g.name_pref g.names

abbrev pub IsValid : Grammar → Type 0
IsValid g = Fits g.st g

pub reset-IsValid : (ns : List Bytes) (g : Grammar) → IsValid (reset ns g)
unfolding reset
reset-IsValid ns g = record { stack_fits = refl; lit_fits = tt; name_fits = refl }

pub step_in-IsValid :
    (s : St) (g : Grammar) (c : ℕ)
    → g.st ≡ s
    → Fits s g
    → (step_in s g c).1 ≡ true
    → IsValid (step_in s g c).0
unfolding step_in match_word step_name_val step_j_value step_j_value_req step_str step_esc step_hex
    step_after_val step_num_minus step_num_zero step_num_int step_num_frac step_num_e step_num_exp
    step_j_key step_done
step_in-IsValid St.ws_obj_open g c e v h = ground arith
step_in-IsValid _ g c e v h = ground arith
