-- ===== src/Toolgram/Machine.antt =====
-- The `switch` of `step`, and the public operations.
use q.Prelude.{ℕ, Bool, true, false, ◌&&◌, not, [], ◌∷◌, if◌then◌else◌, ◌==◌, Bytes, codes}
use q.Toolgram.State.{Grammar, St, is_ws, is_digit}
use q.Toolgram.Step.{
  Res, accept, reject, goto, expect, expect_reset_lit, match_key, match_word, step_name_val,
  step_j_value, step_j_value_req, step_str, step_esc, step_hex, step_after_val, step_num_minus,
  step_num_zero, step_num_int, step_num_frac, step_num_e, step_num_exp, step_j_key, step_done,
}

unfoldable pub step_in : St → Grammar → ℕ → Res
step_in St.ws_obj_open g c = expect g c b'{' St.key_open_q
step_in St.key_open_q g c = expect_reset_lit g c St.key_name
step_in St.key_name g c = match_key g (codes "name") c St.key_colon
step_in St.key_colon g c = expect g c b':' St.name_open_q
step_in St.name_open_q g c =
    if is_ws c
    then accept g
    else if c == b'"'
    then (record g { name_pref = []; st = St.name_val }, true)
    else reject g
step_in St.name_val g c = step_name_val g c
step_in St.arg_comma g c = expect g c b',' St.argkey_open_q
step_in St.argkey_open_q g c = expect_reset_lit g c St.argkey
step_in St.argkey g c = match_key g (codes "arguments") c St.args_colon
step_in St.args_colon g c = expect g c b':' St.j_value
step_in St.j_value g c = step_j_value g c
step_in St.j_value_req g c = step_j_value_req g c
step_in St.j_str g c = step_str g c St.j_after_val St.j_str_esc
step_in St.j_str_esc g c = step_esc g c St.j_str_u1 St.j_str
step_in St.j_str_u1 g c = step_hex g c St.j_str_u2
step_in St.j_str_u2 g c = step_hex g c St.j_str_u3
step_in St.j_str_u3 g c = step_hex g c St.j_str_u4
step_in St.j_str_u4 g c = step_hex g c St.j_str
step_in St.j_num_minus g c = step_num_minus g c
step_in St.j_num_zero g c = step_num_zero g c
step_in St.j_num_int g c = step_num_int g c
step_in St.j_num_dot g c = if is_digit c then goto g St.j_num_frac else reject g
step_in St.j_num_frac g c = step_num_frac g c
step_in St.j_num_e g c = step_num_e g c
step_in St.j_num_esign g c = if is_digit c then goto g St.j_num_exp else reject g
step_in St.j_num_exp g c = step_num_exp g c
step_in St.j_lit g c = match_word g c St.j_after_val
step_in St.j_key g c = step_j_key g c
step_in St.j_key_req g c = expect g c b'"' St.j_keystr
step_in St.j_keystr g c = step_str g c St.j_keycolon St.j_keyesc
step_in St.j_keyesc g c = step_esc g c St.j_key_u1 St.j_keystr
step_in St.j_key_u1 g c = step_hex g c St.j_key_u2
step_in St.j_key_u2 g c = step_hex g c St.j_key_u3
step_in St.j_key_u3 g c = step_hex g c St.j_key_u4
step_in St.j_key_u4 g c = step_hex g c St.j_keystr
step_in St.j_keycolon g c = expect g c b':' St.j_value
step_in St.j_after_val g c = step_after_val g c
step_in St.obj_close g c = expect g c b'}' St.done_
step_in St.done_ g c = step_done g c
step_in St.closer_ g c = match_word g c St.closed_
step_in St.closed_ g c = accept g

abbrev pub step : Grammar → ℕ → Res
step g c = step_in g.st g c

-- `if (!step(c)) { dead_ = true; return false; }`
abbrev pub settle : Res → Res
settle (g, true) = (g, true)
settle (g, false) = (record g { dead = true }, false)

unfoldable pub advance : Grammar → ℕ → Res
unfolding step_in
advance g c = if g.dead then (g, false) else settle (step g c)

unfoldable pub advance_str : Grammar → Bytes → Res
unfolding advance
advance_str g [] = (g, true)
advance_str g (c ∷ s) = let r = advance g c in elim (r.1) [ true ↦ advance_str r.0 s | false ↦ r ]

abbrev pub is_done_st : St → Bool
is_done_st St.done_ = true
is_done_st St.closer_ = true
is_done_st St.closed_ = true
is_done_st _ = false

abbrev pub is_closed_st : St → Bool
is_closed_st St.closed_ = true
is_closed_st _ = false

unfoldable pub done : Grammar → Bool
done g = not g.dead && is_done_st g.st

unfoldable pub closed : Grammar → Bool
closed g = not g.dead && is_closed_st g.st

unfoldable pub tool_name : Grammar → Bytes
tool_name g = g.name_pref

-- On a copy: the state of `g` is not changed.
unfoldable pub token_ok : Grammar → Bytes → Bool
unfolding advance_str
token_ok g s = (advance_str g s).1
