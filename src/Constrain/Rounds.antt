-- ===== src/Constrain/Rounds.antt =====
-- The callbacks of a round: `on_drafts`, `on_pending`, `scan_round` and `on_id`. A token is decoded
-- by a parameter, the tokenizer's `decode_one`.
use q.Prelude.{
  ℕ, suc, ◌+◌, ◌-◌, ◌%◌, ◌^◌, Bool, true, false, ◌||◌, not, Option, none, some, List, [], ◌∷◌, ◌++◌,
  leb, ltb, if◌then◌else◌, Bytes, codes, length, drop, is_empty, starts_with, ℤ, pos, negsuc,
}
use q.Toolgram.State.{Grammar, reset}
use q.Toolgram.Machine.{advance_str, closed}
use q.Constrain.Engine.{set_tool_constraint, set_tool_masks5, is_nonneg, minus_one}
use q.Constrain.State.{Constrainer, mask_id, apply, drop_constraint}

-- `s.rfind(p)`: the last position at which `p` stands.
unfoldable pub rfind : Bytes → Bytes → Option ℕ
unfolding starts_with
rfind p [] = if starts_with p [] then some 0 else none
rfind p (y ∷ s) = elim (rfind p s) [
  | some i ↦ some (suc i)
  | none ↦ if starts_with p (y ∷ s) then some 0 else none
]

abbrev pub opener : Bytes
opener = codes "<tool_call>"

-- What a token does to the scan: it engages and the scan returns, the scan returns -1, or it goes on.
pub data Verdict : Type 0 where
  engage give_up go_on : Verdict

-- The grammar behind the remainder of the token, and whether it took it.
unfoldable pub entered : Constrainer → Grammar × Bool → Constrainer × Verdict
unfolding drop_constraint apply closed
entered s (g, false) = (drop_constraint (record s { tg = g }), go_on)
entered s (g, true) =
    if closed g
    then (record s { tg = g; active = false }, go_on)
    else let s' = apply (record s { tg = g }) g in
      if s'.active then (s', engage) else (s', (if s'.pool_dead then give_up else go_on))

-- The window of the last 64 bytes.
abbrev pub window : Bytes → Bytes
window t = if ltb 64 (length t) then drop (length t - 64) t else t

-- Whether the marker at `p` ends in an earlier token; the difference of the sizes wraps.
abbrev pub ends_before : ℕ → Bytes → Bytes → Bool
ends_before p tail bytes = leb (p + 11) ((length tail + 2 ^ 64 - length bytes) % 2 ^ 64)

-- One token of the batch.
unfoldable pub scan_token : Constrainer → Bytes → Constrainer × Verdict
unfolding rfind entered advance_str reset
scan_token s bytes =
    let tail = window (s.tail ++ bytes) in
    let s1 = record s { tail = tail } in
    elim (rfind opener tail) [
      | none ↦ (s1, go_on)
      | some p ↦
          if ends_before p tail bytes
          then (s1, go_on)
          else entered (record s1 { active = true; engaged = s.engaged + 1 })
              (advance_str (reset s.names s.tg) (drop (p + 11) tail))
    ]

unfoldable pub on_id_fed : Constrainer → Grammar × Bool → Constrainer
unfolding drop_constraint set_tool_constraint closed
on_id_fed s (g, false) = drop_constraint (record s { tg = g })
on_id_fed s (g, true) =
    if closed g
    then record s { tg = g; eng = set_tool_constraint s.eng minus_one; active = false; tail = [] }
    else record s { tg = g }

-- The copy of the grammar behind the pending token, and whether it took the token.
unfoldable pub on_pending_peek : Constrainer → Grammar × Bool → Constrainer
unfolding apply set_tool_constraint closed
on_pending_peek s (peek, false) = s
on_pending_peek s (peek, true) =
    if closed peek then record s { eng = set_tool_constraint s.eng minus_one } else apply s peek

-- The id of a lane: a new one for a legal state, else that of the lane before.
unfoldable pub lane_id : Constrainer → ℤ → Grammar × Bool → Constrainer × ℤ
unfolding mask_id
lane_id s prev (c, true) = mask_id s c
lane_id s prev (c, false) = (s, prev)

module _ (decode_one : ℕ → Bytes) where
  -- The drafts are read while they are legal.
  unfoldable pub lane_state : Grammar → Bool → ℕ → Grammar × Bool
  unfolding advance_str
  lane_state c true d = advance_str c (decode_one d)
  lane_state c false d = (c, false)

  -- The lanes from the next one on: the state over the drafts so far, whether they were legal, the
  -- id of lane 0 and that of the lane before.
  unfoldable pub lanes : Constrainer → Grammar → Bool → ℤ → ℤ → List ℕ → Constrainer × List ℤ
  unfolding lane_state lane_id
  lanes s c alive id0 prev [] = (s, [])
  lanes s c alive id0 prev (d ∷ dr) =
      let r = lane_state c alive d in
      let q = lane_id s prev r in
      let id = if is_nonneg q.1 then q.1 else if is_nonneg prev then prev else id0 in
      let rest = lanes q.0 r.0 r.1 id0 id dr in (rest.0, id ∷ rest.1)

  unfoldable pub on_drafts : List ℕ → Constrainer → Constrainer
  unfolding lanes mask_id set_tool_masks5
  on_drafts dr s =
      let (s0, id0) = mask_id s s.staged_state in
      let (s1, ids) = lanes s0 s.staged_state true id0 id0 dr in
      if is_nonneg id0 then record s1 { eng = set_tool_masks5 s1.eng (id0 ∷ ids) } else s1

  -- The caller's -1 is the early return.
  unfoldable pub on_pending : ℤ → Constrainer → Constrainer
  unfolding on_pending_peek advance_str
  on_pending (negsuc k) s = s
  on_pending (pos id) s =
      if not s.enabled || not s.active
      then s
      else on_pending_peek s (advance_str s.tg (decode_one id))

  -- The loop over the batch from token `j` on; `none` is the result -1.
  unfoldable pub scan_from : ℕ → Constrainer → List ℕ → Constrainer × Option ℕ
  unfolding scan_token
  scan_from j s [] = (s, none)
  scan_from j s (t ∷ em) =
      let (s', v) = scan_token s (decode_one t) in
      elim v [
        | engage ↦ (record s' { skip_feed = j + 1 }, some (j + 1))
        | give_up ↦ (s', none)
        | go_on ↦ scan_from (j + 1) s' em
      ]

  unfoldable pub scan_round : List ℕ → Constrainer → Constrainer × Option ℕ
  unfolding scan_from
  scan_round em s =
      if not s.enabled || (is_empty s.names || (s.active || s.pool_dead))
      then (s, none)
      else scan_from 0 s em

  unfoldable pub on_id : ℕ → Constrainer → Constrainer
  unfolding on_id_fed advance_str
  on_id id s =
      if not s.enabled
      then s
      else if ltb 0 s.skip_feed
      then record s { skip_feed = s.skip_feed - 1 }
      else if not s.active
      then s
      else on_id_fed s (advance_str s.tg (decode_one id))
