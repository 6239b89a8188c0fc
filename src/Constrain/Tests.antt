-- ===== src/Constrain/Tests.antt =====
-- The constrainer on a small vocabulary, and the theorems at concrete inputs.
use q.Prelude.{
  ℕ, List, [], ◌∷◌, ◌≡◌, refl, arith, Bytes, codes, get_or, some, true, false, pos, bytes_eq,
}
use q.Toolgram.Machine.{token_ok}
use q.Toolgram.Signature.Tracked.{CleanNames}
use q.Toolgram.MaskCache.{get, init}
use q.Constrain.State.{Constrainer, begin}
use q.Constrain.Rounds.{scan_round, on_pending, on_id}
use q.Constrain.Runs.{Call, Request, start, perform_all, start-Staged, begin-Staged}
use q.Constrain.Engages.{Reports, scan_round-Reports}

abbrev tools : List Bytes
tools = codes "run" ∷ []

abbrev vocab : List Bytes
vocab =
    codes "<tool" ∷ (codes "_call>" ∷ (codes "{\"" ∷ (codes "name" ∷ (codes "</tool_call>" ∷ []))))

abbrev decode_one : ℕ → Bytes
decode_one id = get_or vocab id []

abbrev at_start : Constrainer
at_start = start true false false 12 vocab (pos 4)

abbrev call_opens : Request
call_opens = record {
  tools = tools;
  calls =
      Call.scan (0 ∷ (1 ∷ (2 ∷ [])))
      ∷ (Call.token 0 ∷ (Call.token 1 ∷ (Call.pending (pos 2) ∷ [])));
}

clean : CleanNames tools
clean = record { no_bar = omega arith; no_separator = omega arith }

-- The marker completes at the second token, so two tokens are kept.
engages : (scan_round decode_one (0 ∷ (1 ∷ (2 ∷ []))) (begin tools at_start)).1 ≡ some 2
unfolding scan_round begin get init
engages = refl

-- The pending token is on the way into the call, so a constraint is staged.
stages : (perform_all decode_one call_opens.calls (begin tools at_start)).eng.h_mask_id0 ≡ pos 1
unfolding scan_round begin on_pending on_id get init bytes_eq token_ok
stages = refl

scan_round-Reports_example :
    Reports 0 3 (scan_round decode_one (0 ∷ (1 ∷ (2 ∷ []))) (begin tools at_start))
scan_round-Reports_example =
    scan_round-Reports decode_one (0 ∷ (1 ∷ (2 ∷ []))) (begin tools at_start)
      (begin-Staged tools at_start clean (start-Staged true false false 12 vocab (pos 4)) refl)
      begin_idle
  where
    begin_idle : (begin tools at_start).active ≡ false
    begin_idle = unfold begin in refl
