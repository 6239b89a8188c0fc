-- ===== src/Toolgram/Tests.antt =====
-- Runs of the machine on concrete calls, and the theorems at concrete inputs.
use q.Prelude.{
  ◌≡◌, refl, inl, inr, [], ◌∷◌, arith, Bytes, codes, true, false, List, bytes_eq, starts_with,
}
use q.Toolgram.State.{fresh, reset}
use q.Toolgram.Machine.{advance_str, done, closed, tool_name}
use q.Toolgram.Step.{
  match_word, step_name_val, step_j_value, step_j_value_req, step_str, step_esc, step_hex,
  step_after_val, step_num_minus, step_num_zero, step_num_int, step_num_frac, step_num_e,
  step_num_exp, step_j_key, step_done,
}
use q.Toolgram.Json.{
  Blank, Digit, Piece, Whole, Fraction, Sign, Exponent, Number, Word, Value, Elems, Fields, Object,
  Call, call_body, call_text,
}
use q.Toolgram.Names.{Registered}
use q.Toolgram.Complete.{Accepted, call_body-done, call_text-closed}
use q.Toolgram.Sound.{done-Registered}

abbrev tools : List Bytes
tools = codes "read" ∷ codes "run" ∷ []

abbrev program : Unit {0}
unfolding reset advance_str match_word step_name_val step_j_value step_j_value_req step_str step_esc
    step_hex step_after_val step_num_minus step_num_zero step_num_int step_num_frac step_num_e
    step_num_exp step_j_key step_done bytes_eq starts_with done closed
program = tt

a_call :
    closed
      (advance_str (reset tools fresh) (
        codes
          "{\"name\": \"run\", \"arguments\": {\"a\": [1, -2.5e3, {}], \"b\": \"x\\n\"}} </tool_call>")).0
    ≡ true
unfolding program
a_call = refl

trailing_comma :
    (advance_str (reset tools fresh) (codes "{\"name\": \"run\", \"arguments\": {\"a\": [1,]")).1
    ≡ false
unfolding program
trailing_comma = refl

unknown_name : (advance_str (reset tools fresh) (codes "{\"name\": \"rum")).1 ≡ false
unfolding program
unknown_name = refl

abbrev letter_a : Piece
letter_a = Piece.plain b'a' (omega arith) (omega arith) (omega arith)

abbrev letter_b : Piece
letter_b = Piece.plain b'b' (omega arith) (omega arith) (omega arith)

abbrev amount : Number
amount = record {
  negative = true;
  int_part = Whole.leading 0 (omega arith) [];
  frac_part = Fraction.fraction (Digit.digit 5 (omega arith)) [];
  exp_part = Exponent.small_e Sign.plus (Digit.digit 2 (omega arith)) [];
}

-- ` {"name": "run", "arguments": {"a": -1.5e+2, "b": [null, {}]}}\n</tool_call>`
abbrev sample : Call
sample = record {
  before_open = Blank.space ∷ [];
  before_name_key = [];
  before_name_colon = [];
  before_name = Blank.space ∷ [];
  before_comma = [];
  before_args_key = Blank.space ∷ [];
  before_args_colon = [];
  before_args = Blank.space ∷ [];
  after_args = [];
  after_call = Blank.newline ∷ [];
  tool = codes "run";
  args = Object.object (
      Fields.field [] (letter_a ∷ []) [] (Blank.space ∷ []) (Value.num amount) [] (
        Fields.last_field (Blank.space ∷ []) (letter_b ∷ []) [] (Blank.space ∷ [])
          (Value.arr (
            Elems.elem [] (Value.lit Word.null_word) []
              (Elems.last_elem (Blank.space ∷ []) (Value.empty_obj []) [])))
          []));
}

sample_text :
    call_text sample
    ≡ codes " {\"name\": \"run\", \"arguments\": {\"a\": -1.5e+2, \"b\": [null, {}]}}\n</tool_call>"
unfolding call_text
sample_text = refl

call_body-done_example : Accepted done tools fresh sample (call_body sample [])
call_body-done_example = call_body-done tools fresh sample (inr (inl refl)) (omega arith)

call_text-closed_example : Accepted closed tools fresh sample (call_text sample)
call_text-closed_example = call_text-closed tools fresh sample (inr (inl refl)) (omega arith)

abbrev finished : Bytes
finished = codes "{\"name\":\"read\",\"arguments\":{}}"

done-Registered_example :
    Registered (tool_name (advance_str (reset tools fresh) finished).0) tools
    × ((advance_str (reset tools fresh) finished).0.stack ≡ [])
    × ((advance_str (reset tools fresh) finished).1 ≡ true)
unfolding program
done-Registered_example = done-Registered tools fresh finished refl
