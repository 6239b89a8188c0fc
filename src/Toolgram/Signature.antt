-- ===== src/Toolgram/Signature.antt =====
-- `signature` of `ToolGrammar`: the key under which the mask of a state is cached.
pub mod Decimal
pub mod Relabel
pub mod Names
pub mod Tracked
pub mod Keys
pub mod Collision
use q.Prelude.{ℕ, ◌+◌, List, [], ◌∷◌, ◌++◌, leb, if◌then◌else◌, Bytes}
use q.Toolgram.State.{Grammar, St}
use Decimal.{to_string}

-- The number of the enumerator.
unfoldable pub st_index : St → ℕ
st_index St.ws_obj_open = 0
st_index St.key_open_q = 1
st_index St.key_name = 2
st_index St.key_colon = 3
st_index St.name_open_q = 4
st_index St.name_val = 5
st_index St.arg_comma = 6
st_index St.argkey_open_q = 7
st_index St.argkey = 8
st_index St.args_colon = 9
st_index St.j_value = 10
st_index St.j_value_req = 11
st_index St.j_str = 12
st_index St.j_str_esc = 13
st_index St.j_str_u1 = 14
st_index St.j_str_u2 = 15
st_index St.j_str_u3 = 16
st_index St.j_str_u4 = 17
st_index St.j_num_minus = 18
st_index St.j_num_zero = 19
st_index St.j_num_int = 20
st_index St.j_num_dot = 21
st_index St.j_num_frac = 22
st_index St.j_num_e = 23
st_index St.j_num_esign = 24
st_index St.j_num_exp = 25
st_index St.j_lit = 26
st_index St.j_key = 27
st_index St.j_key_req = 28
st_index St.j_keystr = 29
st_index St.j_keyesc = 30
st_index St.j_key_u1 = 31
st_index St.j_key_u2 = 32
st_index St.j_key_u3 = 33
st_index St.j_key_u4 = 34
st_index St.j_keycolon = 35
st_index St.j_after_val = 36
st_index St.obj_close = 37
st_index St.done_ = 38
st_index St.closer_ = 39
st_index St.closed_ = 40

-- `s.append(stack_.begin(), stack_.end())`: from the bottom of the stack to its top.
unfoldable pub bottom_up : Bytes → Bytes
bottom_up [] = []
bottom_up (c ∷ k) = bottom_up k ++ c ∷ []

-- The part behind the literal, which only the states up to `NAME_VAL` have.
unfoldable pub name_key : Grammar → Bytes
unfolding st_index
name_key g = if leb (st_index g.st) 5 then b'|' ∷ (g.name_pref ++ (b'|' ∷ g.names_key)) else []

unfoldable pub signature : Grammar → Bytes
unfolding st_index bottom_up name_key to_string
signature g =
    (b'A' + st_index g.st)
    ∷ ((if g.dead then b'!' else b'.')
        ∷ (bottom_up g.stack ++ (b'|' ∷ (to_string g.lit ++ (b'|' ∷ (g.lit_word ++ name_key g))))))
