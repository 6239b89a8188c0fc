-- ===== src/Toolgram/State.antt =====
-- The states, the fields of `ToolGrammar`, its character classes and `reset`.
use q.Prelude.{
  ℕ, Bool, true, false, ◌&&◌, ◌||◌, List, [], ◌∷◌, ◌++◌, ◌==◌, leb, ltb, if◌then◌else◌, Bytes,
}

-- `enum St`, in the order of the source.
pub data St : Type 0 where
  ws_obj_open key_open_q key_name key_colon name_open_q name_val arg_comma argkey_open_q : St
  argkey args_colon : St
  j_value j_value_req j_str j_str_esc j_str_u1 j_str_u2 j_str_u3 j_str_u4 : St
  j_num_minus j_num_zero j_num_int j_num_dot j_num_frac j_num_e j_num_esign j_num_exp : St
  j_lit j_key j_key_req j_keystr j_keyesc j_key_u1 j_key_u2 j_key_u3 j_key_u4 : St
  j_keycolon j_after_val obj_close done_ closer_ closed_ : St

-- The fields of the struct. The head of `stack` is the `back()` of the vector.
pub record Grammar : Type 0 where
  pub names : List Bytes
  pub names_key : Bytes
  pub name_pref : Bytes
  pub lit_word : Bytes
  pub stack : Bytes
  pub lit : ℕ
  pub st : St
  pub dead : Bool

abbrev pub is_ws : ℕ → Bool
is_ws c = c == b' ' || (c == b'\n' || (c == b'\r' || c == b'\t'))

abbrev pub between : ℕ → ℕ → ℕ → Bool
between lo hi c = leb lo c && leb c hi

abbrev pub is_digit : ℕ → Bool
is_digit = between b'0' b'9'

unfoldable pub is_hex : ℕ → Bool
is_hex c = between b'0' b'9' c || (between b'a' b'f' c || between b'A' b'F' c)

unfoldable pub str_byte : ℕ → Bool
str_byte c = leb 0x20 c

unfoldable pub strchr_esc : ℕ → Bool
strchr_esc c =
    c == b'"'
    || (c == b'\\'
        || (c == b'/' || (c == b'b' || (c == b'f' || (c == b'n' || (c == b'r' || c == b't'))))))

-- `operator<` of strings: by bytes, a proper prefix first.
unfoldable pub string_lt : Bytes → Bytes → Bool
string_lt [] [] = false
string_lt [] (y ∷ b) = true
string_lt (x ∷ a) [] = false
string_lt (x ∷ a) (y ∷ b) = ltb x y || (x == y && string_lt a b)

unfoldable pub insert_sorted : Bytes → List Bytes → List Bytes
unfolding string_lt
insert_sorted n [] = n ∷ []
insert_sorted n (m ∷ ms) = if string_lt m n then m ∷ insert_sorted n ms else n ∷ (m ∷ ms)

-- `std::sort` of the names.
unfoldable pub sort_names : List Bytes → List Bytes
unfolding insert_sorted
sort_names [] = []
sort_names (n ∷ ns) = insert_sorted n (sort_names ns)

unfoldable pub join_names : List Bytes → Bytes
join_names [] = []
join_names (n ∷ ns) = n ++ (0x1f ∷ join_names ns)

-- `reset` writes these fields and keeps `lit_word_`.
unfoldable pub reset : List Bytes → Grammar → Grammar
unfolding sort_names join_names
reset tool_names g = record g {
  names = tool_names;
  names_key = join_names (sort_names tool_names);
  st = St.ws_obj_open;
  lit = 0;
  name_pref = [];
  stack = [];
  dead = false;
}

-- The member initialisers.
abbrev pub fresh : Grammar
fresh = record {
  names = [];
  names_key = [];
  name_pref = [];
  lit_word = [];
  stack = [];
  lit = 0;
  st = St.ws_obj_open;
  dead = false;
}
