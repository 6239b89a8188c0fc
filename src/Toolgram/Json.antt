-- ===== src/Toolgram/Json.antt =====
-- The calls that the grammar is meant to admit, written down independently of the machine: JSON
-- values as trees with their white space, and the text of each.
use q.Prelude.{ℕ, ◌+◌, ◌≤◌, ◌<◌, Bool, true, false, List, [], ◌∷◌, ◌++◌, ◌≢◌, Bytes, codes}

pub data Blank : Type 0 where
  space newline return tab : Blank

abbrev pub blank : Blank → ℕ
blank Blank.space = b' '
blank Blank.newline = b'\n'
blank Blank.return = b'\r'
blank Blank.tab = b'\t'

abbrev pub blanks : List Blank → Bytes
blanks [] = []
blanks (w ∷ ws) = blank w ∷ blanks ws

pub data Digit : Type 0 where
  digit : (d : ℕ) → d < 10 → Digit

abbrev pub digit_text : Digit → ℕ
digit_text (Digit.digit d h) = b'0' + d

abbrev pub digits : List Digit → Bytes
digits [] = []
digits (d ∷ ds) = digit_text d ∷ digits ds

pub data Hex : Type 0 where
  decimal : (d : ℕ) → d < 10 → Hex
  lower upper : (d : ℕ) → d < 6 → Hex

abbrev pub hex_text : Hex → ℕ
hex_text (Hex.decimal d h) = b'0' + d
hex_text (Hex.lower d h) = b'a' + d
hex_text (Hex.upper d h) = b'A' + d

pub data Escape : Type 0 where
  quote backslash slash backspace feed line_end carriage tabulator : Escape

abbrev pub escape_text : Escape → ℕ
escape_text Escape.quote = b'"'
escape_text Escape.backslash = b'\\'
escape_text Escape.slash = b'/'
escape_text Escape.backspace = b'b'
escape_text Escape.feed = b'f'
escape_text Escape.line_end = b'n'
escape_text Escape.carriage = b'r'
escape_text Escape.tabulator = b't'

-- One character of a string: a byte that needs no escape, a short escape, or `\uXXXX`.
pub data Piece : Type 0 where
  plain : (c : ℕ) → 0x20 ≤ c → c ≢ b'"' → c ≢ b'\\' → Piece
  escape : Escape → Piece
  unicode : Hex → Hex → Hex → Hex → Piece

abbrev pub piece : Piece → Bytes
piece (Piece.plain c _ _ _) = c ∷ []
piece (Piece.escape e) = b'\\' ∷ (escape_text e ∷ [])
piece (Piece.unicode a b c d) =
    b'\\' ∷ (b'u' ∷ (hex_text a ∷ (hex_text b ∷ (hex_text c ∷ (hex_text d ∷ [])))))

abbrev pub pieces : List Piece → Bytes
pieces [] = []
pieces (p ∷ ps) = piece p ++ pieces ps

pub data Whole : Type 0 where
  nought : Whole
  leading : (d : ℕ) → d < 9 → List Digit → Whole

abbrev pub whole : Whole → Bytes
whole Whole.nought = b'0' ∷ []
whole (Whole.leading d _ ds) = (b'1' + d) ∷ digits ds

pub data Fraction : Type 0 where
  no_fraction : Fraction
  fraction : Digit → List Digit → Fraction

abbrev pub fraction_text : Fraction → Bytes
fraction_text Fraction.no_fraction = []
fraction_text (Fraction.fraction d ds) = b'.' ∷ (digit_text d ∷ digits ds)

pub data Sign : Type 0 where
  unsigned plus minus : Sign

abbrev pub sign : Sign → Bytes
sign Sign.unsigned = []
sign Sign.plus = b'+' ∷ []
sign Sign.minus = b'-' ∷ []

pub data Exponent : Type 0 where
  no_exponent : Exponent
  small_e big_e : Sign → Digit → List Digit → Exponent

abbrev pub exponent_text : Exponent → Bytes
exponent_text Exponent.no_exponent = []
exponent_text (Exponent.small_e s d ds) = b'e' ∷ (sign s ++ (digit_text d ∷ digits ds))
exponent_text (Exponent.big_e s d ds) = b'E' ∷ (sign s ++ (digit_text d ∷ digits ds))

pub data Word : Type 0 where
  true_word false_word null_word : Word

abbrev pub word : Word → Bytes
word Word.true_word = codes "true"
word Word.false_word = codes "false"
word Word.null_word = codes "null"

pub record Number : Type 0 where
  pub negative : Bool
  pub int_part : Whole
  pub frac_part : Fraction
  pub exp_part : Exponent

abbrev pub minus_text : Bool → Bytes
minus_text true = b'-' ∷ []
minus_text false = []

abbrev pub number : Number → Bytes
number n =
    minus_text n.negative
    ++ (whole n.int_part ++ (fraction_text n.frac_part ++ exponent_text n.exp_part))

mutual
  -- An empty array or object may hold white space.
  pub data Value : Type 0 where
    str : List Piece → Value
    num : Number → Value
    lit : Word → Value
    empty_arr empty_obj : List Blank → Value
    arr : Elems → Value
    obj : Fields → Value

  -- The elements up to `]`: white space, the value, white space.
  pub data Elems : Type 0 where
    last_elem : List Blank → Value → List Blank → Elems
    elem : List Blank → Value → List Blank → Elems → Elems

  -- The fields up to `}`: white space, the key, white space, `:`, white space, the value, white
  -- space.
  pub data Fields : Type 0 where
    last_field : List Blank → List Piece → List Blank → List Blank → Value → List Blank → Fields
    field : List Blank → List Piece → List Blank → List Blank → Value → List Blank → Fields → Fields

-- A quoted string.
abbrev pub quoted : List Piece → Bytes
quoted ps = b'"' ∷ (pieces ps ++ b'"' ∷ [])

unfoldable mutual
  pub value : Value → Bytes
  value (Value.str ps) = quoted ps
  value (Value.num n) = number n
  value (Value.lit w) = word w
  value (Value.empty_arr w) = b'[' ∷ (blanks w ++ b']' ∷ [])
  value (Value.empty_obj w) = b'{' ∷ (blanks w ++ b'}' ∷ [])
  value (Value.arr es) = b'[' ∷ elems es
  value (Value.obj fs) = b'{' ∷ fields fs

  pub elems : Elems → Bytes
  elems (Elems.last_elem w v w') = blanks w ++ (value v ++ (blanks w' ++ b']' ∷ []))
  elems (Elems.elem w v w' es) = blanks w ++ (value v ++ (blanks w' ++ b',' ∷ elems es))

  pub fields : Fields → Bytes
  fields (Fields.last_field w k w' w'' v w3) =
      blanks w
      ++ (quoted k ++ (blanks w' ++ (b':' ∷ (blanks w'' ++ (value v ++ (blanks w3 ++ b'}' ∷ []))))))
  fields (Fields.field w k w' w'' v w3 fs) =
      blanks w
      ++ (quoted k
          ++ (blanks w' ++ (b':' ∷ (blanks w'' ++ (value v ++ (blanks w3 ++ b',' ∷ fields fs))))))

-- An object, which the arguments have to be.
pub data Object : Type 0 where
  empty_object : List Blank → Object
  object : Fields → Object

abbrev pub object_value : Object → Value
object_value (Object.empty_object w) = Value.empty_obj w
object_value (Object.object fs) = Value.obj fs

-- A whole call: the white space of each place, the tool's name and the arguments.
pub record Call : Type 0 where
  pub before_open : List Blank
  pub before_name_key : List Blank
  pub before_name_colon : List Blank
  pub before_name : List Blank
  pub before_comma : List Blank
  pub before_args_key : List Blank
  pub before_args_colon : List Blank
  pub before_args : List Blank
  pub after_args : List Blank
  pub after_call : List Blank
  pub tool : Bytes
  pub args : Object

-- The call up to its arguments, with what follows.
unfoldable pub call_head : Call → Bytes → Bytes
call_head c t =
    blanks c.before_open
    ++ (b'{'
        ∷ (blanks c.before_name_key
            ++ (codes "\"name\""
                ++ (blanks c.before_name_colon
                    ++ (b':'
                        ∷ (blanks c.before_name
                            ++ (b'"'
                                ∷ (c.tool
                                    ++ (b'"'
                                        ∷ (blanks c.before_comma
                                            ++ (b','
                                                ∷ (blanks c.before_args_key
                                                    ++ (codes "\"arguments\""
                                                        ++ (blanks c.before_args_colon
                                                            ++ (b':' ∷ t)))))))))))))))

-- The call up to the brace that closes it, with what follows.
unfoldable pub call_body : Call → Bytes → Bytes
unfolding call_head value
call_body c t =
    call_head c
      (blanks c.before_args ++ (value (object_value c.args) ++ (blanks c.after_args ++ (b'}' ∷ t))))

-- The call and its literal closer.
unfoldable pub call_text : Call → Bytes
unfolding call_body
call_text c = call_body c (blanks c.after_call ++ codes "</tool_call>")
