-- ===== src/Toolgram/Signature/Collision.antt =====
-- Two allowlists with a bar in their names whose states share a signature.
use q.Prelude.{true, false, List, [], ◌∷◌, ◌++◌, ◌≡◌, refl, Bytes, codes, bytes_eq, starts_with}
use q.Toolgram.State.{Grammar, fresh, reset}
use q.Toolgram.Step.{
  match_word, step_name_val, step_j_value, step_j_value_req, step_str, step_esc, step_hex,
  step_after_val, step_num_minus, step_num_zero, step_num_int, step_num_frac, step_num_e,
  step_num_exp, step_j_key, step_done,
}
use q.Toolgram.Machine.{advance_str, token_ok}
use q.Toolgram.Signature.{signature}

abbrev pub one_list : Bytes → List Bytes
one_list t = (codes "A|a|Ab" ++ t) ∷ (codes "a}" ∷ [])

abbrev pub other_list : Bytes → List Bytes
other_list t = (codes "a|Ab" ++ t) ∷ (codes "a}" ∷ [])

-- The machine behind the opening of a call and the first bytes of a name.
abbrev pub in_name : List Bytes → Bytes → Grammar
in_name ns p = (advance_str (reset ns fresh) (codes "{\"name\":\"" ++ p)).0

-- Whatever text t is, the tools A|a|Ab‹t› and a} with the name begun by a, and the tools a|Ab‹t› and a}
-- with the name begun by a|A, have one signature, but the byte } goes on only in the first.
pub signature_collides :
    (t : Bytes)
    → (signature (in_name (one_list t) (codes "a"))
        ≡ signature (in_name (other_list t) (codes "a|A")))
      × (token_ok (in_name (one_list t) (codes "a")) (codes "}") ≡ true)
      × (token_ok (in_name (other_list t) (codes "a|A")) (codes "}") ≡ false)
unfolding signature reset advance_str token_ok match_word step_name_val step_j_value
    step_j_value_req step_str step_esc step_hex step_after_val step_num_minus step_num_zero
    step_num_int step_num_frac step_num_e step_num_exp step_j_key step_done bytes_eq starts_with
signature_collides t = (refl, refl, refl)
