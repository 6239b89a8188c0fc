-- ===== src/Toolgram/Step.antt =====
-- `step` and its helpers: one byte from each state. A step returns the new fields and whether the
-- byte was legal; what a refused step has written stays written.
use q.Prelude.{
  ℕ, ◌+◌, Bool, true, false, ◌&&◌, ◌||◌, not, none, some, List, [], ◌∷◌, ◌++◌, ◌==◌, ltb,
  if◌then◌else◌, Bytes, codes, length, get_elem?, bytes_eq, starts_with,
}
use q.Toolgram.State.{Grammar, St, is_ws, between, is_digit, is_hex, str_byte, strchr_esc}

abbrev pub Res : Type 0
Res = Grammar × Bool

abbrev pub accept : Grammar → Res
accept g = (g, true)

abbrev pub reject : Grammar → Res
reject g = (g, false)

-- `{ st_ = s; return true; }`
abbrev pub goto : Grammar → St → Res
goto g s = (record g { st = s }, true)

-- `c != w[lit_]`, with `lit_` in range
abbrev pub at_lit : Bytes → ℕ → ℕ → Bool
at_lit w i c = elim (get_elem? w i) [ none ↦ false | some d ↦ c == d ]

-- `!stack_.empty() && stack_.back() == c`
abbrev pub top_is : Bytes → ℕ → Bool
top_is [] c = false
top_is (d ∷ k) c = d == c

abbrev pub tail_of : Bytes → Bytes
tail_of [] = []
tail_of (d ∷ k) = k

abbrev pub is_nil : Bytes → Bool
is_nil [] = true
is_nil (d ∷ k) = false

unfoldable pub pop_or_finish : Grammar → Res
pop_or_finish g =
    let k = tail_of g.stack in
    if is_nil k
    then (record g { stack = k; st = St.obj_close }, true)
    else (record g { stack = k; st = St.j_after_val }, true)

abbrev pub start_lit : Grammar → Bytes → Res
start_lit g w = (record g { lit_word = w; lit = 1; st = St.j_lit }, true)

unfoldable pub value_start : Grammar → ℕ → Bool → Res
unfolding pop_or_finish
value_start g c allow_close =
    if c == b'{'
    then (record g { stack = b'{' ∷ g.stack; st = St.j_key }, true)
    else if c == b'['
    then (record g { stack = b'[' ∷ g.stack; st = St.j_value }, true)
    else if c == b'"'
    then goto g St.j_str
    else if c == b'-'
    then goto g St.j_num_minus
    else if c == b'0'
    then goto g St.j_num_zero
    else if between b'1' b'9' c
    then goto g St.j_num_int
    else if c == b't'
    then start_lit g (codes "true")
    else if c == b'f'
    then start_lit g (codes "false")
    else if c == b'n'
    then start_lit g (codes "null")
    else if allow_close && (c == b']' && top_is g.stack b'[')
    then pop_or_finish g
    else reject g

-- The cases that skip white space and then want one byte.
abbrev pub expect : Grammar → ℕ → ℕ → St → Res
expect g c want next = if is_ws c then accept g else if c == want then goto g next else reject g

-- The cases that skip white space and then open a literal or a name.
abbrev pub expect_reset_lit : Grammar → ℕ → St → Res
expect_reset_lit g c next =
    if is_ws c
    then accept g
    else if c == b'"'
    then (record g { lit = 0; st = next }, true)
    else reject g

-- A fixed key: `KEY_NAME` and `ARGKEY`.
abbrev pub match_key : Grammar → Bytes → ℕ → St → Res
match_key g kw c next =
    if ltb g.lit (length kw)
    then (if at_lit kw g.lit c then (record g { lit = g.lit + 1 }, true) else reject g)
    else if c == b'"'
    then goto g next
    else reject g

-- A word run to its end: `J_LIT` and `CLOSER_`.
unfoldable pub match_word : Grammar → ℕ → St → Res
match_word g c next =
    if ltb g.lit (length g.lit_word)
    then (if at_lit g.lit_word g.lit c
        then (if (g.lit + 1) == length g.lit_word
            then (record g { lit = g.lit + 1; st = next }, true)
            else (record g { lit = g.lit + 1 }, true))
        else reject g)
    else reject g

unfoldable pub any_eq : Bytes → List Bytes → Bool
any_eq p [] = false
any_eq p (n ∷ ns) = bytes_eq n p || any_eq p ns

unfoldable pub any_prefix : Bytes → List Bytes → Bool
any_prefix p [] = false
any_prefix p (n ∷ ns) = starts_with p n || any_prefix p ns

unfoldable pub step_name_val : Grammar → ℕ → Res
unfolding any_eq any_prefix
step_name_val g c =
    if c == b'"'
    then (if any_eq g.name_pref g.names then goto g St.arg_comma else reject g)
    else if any_prefix (g.name_pref ++ c ∷ []) g.names
    then (record g { name_pref = g.name_pref ++ c ∷ [] }, true)
    else reject g

unfoldable pub step_j_value : Grammar → ℕ → Res
unfolding value_start
step_j_value g c =
    if is_ws c
    then accept g
    else if is_nil g.stack
    then (if c == b'{'
        then (record g { stack = b'{' ∷ g.stack; st = St.j_key }, true)
        else reject g)
    else value_start g c true

unfoldable pub step_j_value_req : Grammar → ℕ → Res
unfolding value_start
step_j_value_req g c = if is_ws c then accept g else value_start g c false

unfoldable pub step_str : Grammar → ℕ → St → St → Res
unfolding str_byte
step_str g c close esc =
    if c == b'"' then goto g close else if c == b'\\' then goto g esc else (g, str_byte c)

unfoldable pub step_esc : Grammar → ℕ → St → St → Res
unfolding strchr_esc
step_esc g c u back = if c == b'u' then goto g u else if strchr_esc c then goto g back else reject g

unfoldable pub step_hex : Grammar → ℕ → St → Res
unfolding is_hex
step_hex g c next = if not (is_hex c) then reject g else goto g next

unfoldable pub step_after_val : Grammar → ℕ → Res
unfolding pop_or_finish
step_after_val g c =
    if is_ws c
    then accept g
    else if c == b','
    then goto g (if top_is g.stack b'{' then St.j_key_req else St.j_value_req)
    else if c == b'}' && top_is g.stack b'{'
    then pop_or_finish g
    else if c == b']' && top_is g.stack b'['
    then pop_or_finish g
    else reject g

abbrev pub is_num_end : ℕ → Bool
is_num_end c = is_ws c || (c == b',' || (c == b'}' || c == b']'))

-- `num_end_redispatch`: the byte is read again as one after a value.
unfoldable pub num_end_redispatch : Grammar → ℕ → Res
unfolding step_after_val
num_end_redispatch g c = step_after_val (record g { st = St.j_after_val }) c

abbrev pub is_exp : ℕ → Bool
is_exp c = c == b'e' || c == b'E'

unfoldable pub step_num_minus : Grammar → ℕ → Res
step_num_minus g c =
    if c == b'0'
    then goto g St.j_num_zero
    else if between b'1' b'9' c
    then goto g St.j_num_int
    else reject g

unfoldable pub step_num_zero : Grammar → ℕ → Res
unfolding num_end_redispatch
step_num_zero g c =
    if c == b'.'
    then goto g St.j_num_dot
    else if is_exp c
    then goto g St.j_num_e
    else if is_num_end c
    then num_end_redispatch g c
    else reject g

unfoldable pub step_num_int : Grammar → ℕ → Res
unfolding num_end_redispatch
step_num_int g c =
    if is_digit c
    then accept g
    else if c == b'.'
    then goto g St.j_num_dot
    else if is_exp c
    then goto g St.j_num_e
    else if is_num_end c
    then num_end_redispatch g c
    else reject g

unfoldable pub step_num_frac : Grammar → ℕ → Res
unfolding num_end_redispatch
step_num_frac g c =
    if is_digit c
    then accept g
    else if is_exp c
    then goto g St.j_num_e
    else if is_num_end c
    then num_end_redispatch g c
    else reject g

unfoldable pub step_num_e : Grammar → ℕ → Res
step_num_e g c =
    if c == b'+' || c == b'-'
    then goto g St.j_num_esign
    else if is_digit c
    then goto g St.j_num_exp
    else reject g

unfoldable pub step_num_exp : Grammar → ℕ → Res
unfolding num_end_redispatch
step_num_exp g c =
    if is_digit c then accept g else if is_num_end c then num_end_redispatch g c else reject g

unfoldable pub step_j_key : Grammar → ℕ → Res
unfolding pop_or_finish
step_j_key g c =
    if is_ws c
    then accept g
    else if c == b'"'
    then goto g St.j_keystr
    else if c == b'}' && top_is g.stack b'{'
    then pop_or_finish g
    else reject g

unfoldable pub step_done : Grammar → ℕ → Res
step_done g c =
    if is_ws c
    then accept g
    else if c == b'<'
    then (record g { lit_word = codes "</tool_call>"; lit = 1; st = St.closer_ }, true)
    else reject g
