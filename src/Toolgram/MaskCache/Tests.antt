-- ===== src/Toolgram/MaskCache/Tests.antt =====
-- The signature and the mask cache on concrete states.
use q.Prelude.{List, [], ◌∷◌, ◌≡◌, refl, arith, Bytes, codes, get_elem?, some, true, false, pos}
use q.Toolgram.State.{fresh, reset}
use q.Toolgram.Machine.{token_ok, done}
use q.Toolgram.Signature.{signature}
use q.Toolgram.Signature.Tracked.{Tracked, CleanNames, reset-Tracked}
use q.Toolgram.Signature.Keys.{signature-tokens}
use q.Toolgram.Signature.Collision.{one_list, other_list, in_name, signature_collides}
use q.Toolgram.MaskCache.{init, get, mask, legal}
use q.Toolgram.MaskCache.Exact.{get_all, get-mask}

abbrev tools : List Bytes
tools = codes "run" ∷ (codes "read" ∷ [])

abbrev tools_again : List Bytes
tools_again = codes "read" ∷ (codes "run" ∷ [])

abbrev vocab : List Bytes
vocab = codes "{" ∷ (codes "}" ∷ (codes " {\"name\":" ∷ ([] ∷ (codes "</tool_call>" ∷ []))))

tools-CleanNames : CleanNames tools
tools-CleanNames = record { no_bar = omega arith; no_separator = omega arith }

tools_again-CleanNames : CleanNames tools_again
tools_again-CleanNames = record { no_bar = omega arith; no_separator = omega arith }

first-Tracked : Tracked (reset tools fresh)
first-Tracked = reset-Tracked tools fresh tools-CleanNames tt

second-Tracked : Tracked (reset tools_again fresh)
second-Tracked = reset-Tracked tools_again fresh tools_again-CleanNames tt

same_signature : signature (reset tools fresh) ≡ signature (reset tools_again fresh)
unfolding signature reset
same_signature = refl

signature-tokens_example :
    ((s : Bytes) → token_ok (reset tools fresh) s ≡ token_ok (reset tools_again fresh) s)
    × (done (reset tools fresh) ≡ done (reset tools_again fresh))
signature-tokens_example =
    signature-tokens (reset tools fresh) (reset tools_again fresh) first-Tracked second-Tracked
      same_signature

signature_collides_example :
    (signature (in_name (one_list (codes "x")) (codes "a"))
      ≡ signature (in_name (other_list (codes "x")) (codes "a|A")))
    × (token_ok (in_name (one_list (codes "x")) (codes "a")) (codes "}") ≡ true)
    × (token_ok (in_name (other_list (codes "x")) (codes "a|A")) (codes "}") ≡ false)
signature_collides_example = signature_collides (codes "x")

get-mask_example :
    get_elem?
      (mask
        (get_all
          (get (get_all (init vocab (pos 4)) (reset tools_again fresh ∷ [])) (reset tools fresh)).0
          [])
        (get (get_all (init vocab (pos 4)) (reset tools_again fresh ∷ [])) (reset tools fresh)).1)
      2
    ≡ some (legal (pos 4) (reset tools fresh) 2 (codes " {\"name\":"))
get-mask_example =
    get-mask vocab (pos 4) (reset tools_again fresh ∷ []) [] (reset tools fresh) 2
      (second-Tracked, tt) first-Tracked tt refl
