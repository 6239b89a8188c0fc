-- ===== src/Suffix/Tests.antt =====
-- Tests and witnesses of src/suffixdraft.h on a short stream that repeats.
use q.Prelude.{ℕ, Option, none, some, List, [], ◌∷◌, ◌≡◌, refl, length}
use q.Suffix.{reset, append, propose_with}
use q.Suffix.Index.{InBounds, reset-InBounds, append-InBounds}
use q.Suffix.Proposal.{Recurs, Continues, propose_with-Recurs}

abbrev prompt : List ℕ
prompt = 1 ∷ 2 ∷ 3 ∷ 4 ∷ 5 ∷ 6 ∷ 1 ∷ 2 ∷ 3 ∷ []

abbrev five_out : List ℕ
five_out = 5 ∷ 6 ∷ 1 ∷ 2 ∷ 3 ∷ []

-- The last four with the pending token are the first four again.
abbrev run : Option (ℕ × List ℕ)
unfolding propose_with reset
run = propose_with (reset prompt) 4 5

run_drafts : run ≡ some (4, five_out)
unfolding run
run_drafts = refl

-- A stream of one token: the draft reads itself.
abbrev echo : Option (ℕ × List ℕ)
unfolding propose_with reset append
echo = propose_with (append 7 (append 7 (reset (7 ∷ 7 ∷ 7 ∷ 7 ∷ [])))) 7 4

echo_drafts : echo ≡ some (6, 7 ∷ 7 ∷ 7 ∷ 7 ∷ [])
unfolding echo
echo_drafts = refl

abbrev quiet : Option (ℕ × List ℕ)
unfolding propose_with reset
quiet = propose_with (reset prompt) 9 5

quiet_drafts : quiet ≡ none
unfolding quiet
quiet_drafts = refl

append-InBounds_example : InBounds (append 9 (reset prompt))
append-InBounds_example = append-InBounds 9 (reset prompt) (reset-InBounds prompt)

propose_with-Recurs_example :
    (p : ℕ) × Recurs (reset prompt) 4 p 4
    × Continues (reset prompt) 4 p five_out
    × (length five_out ≡ 5)
unfolding propose_with reset
propose_with-Recurs_example =
    propose_with-Recurs (reset prompt) 4 5 4 five_out (reset-InBounds prompt) refl
