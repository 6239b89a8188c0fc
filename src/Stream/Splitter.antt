-- ===== src/Stream/Splitter.antt =====
-- `StreamSplitter` of src/stream_split.h: routes decoded text into the text, reasoning and
-- tool-call channels.
pub mod Route
pub mod Quiet
pub mod Turns
pub mod Loop
use q.Prelude.{
  ℕ, zero, suc, ◌+◌, ◌-◌, max, Bool, true, false, ◌&&◌, Option, none, some, List, [], ◌∷◌, ◌++◌,
  ltb, ◌==◌, if◌then◌else◌, Bytes, codes, find, length, take, drop, is_empty,
}
use q.Stream.Holdback.{tail_keep}

pub data Chan : Type 0 where
  text think tool : Chan

pub record Splitter : Type 0 where
  pub chan : Chan
  pub hold : Bytes
  pub tool_boundary : Bool

abbrev pub fresh : Splitter
fresh = record { chan = Chan.text; hold = []; tool_boundary = false }

abbrev pub t_open : Bytes
t_open = codes "<think>"

abbrev pub t_close : Bytes
t_close = codes "</think>"

abbrev pub c_open : Bytes
c_open = codes "<tool_call>"

abbrev pub c_close : Bytes
c_close = codes "</tool_call>"

abbrev pub Segment : Type 0
Segment = Chan × Bytes

-- `std::min` over positions, where `none` is `npos`
abbrev pub min_pos : Option ℕ → Option ℕ → Option ℕ
min_pos none b = b
min_pos (some p) none = some p
min_pos (some p) (some q) = if ltb q p then some q else some p

-- `e == p`
abbrev pub is_pos : Option ℕ → ℕ → Bool
is_pos none e = false
is_pos (some p) e = p == e

-- `if (n > 0) out.push_back({c, hold.substr(0, n)})`
abbrev pub push_head : Chan → ℕ → Bytes → List Segment
push_head c zero hold = []
push_head c (suc n) hold = (c, take (suc n) hold) ∷ []

-- One round of the `for (;;)`: the new state, what it pushes, and whether the loop goes on.
abbrev pub Turn : Type 0
Turn = Splitter × List Segment × Bool

-- `emit_head`: pushes all but the kept tail.
abbrev pub emit_head : Splitter → ℕ → Splitter × List Segment × Bool
emit_head s keep =
    if ltb keep (length s.hold)
    then (
      record s { hold = drop (length s.hold - keep) s.hold },
      (s.chan, take (length s.hold - keep) s.hold) ∷ [],
      true,
    )
    else (s, [], false)

-- The branch with a marker at `e`, the first of the three.
abbrev pub text_marker : Splitter → ℕ → Turn
text_marker s e =
    if is_pos (find t_open s.hold) e
    then (
      record { chan = Chan.think; hold = drop (e + length t_open) s.hold; tool_boundary = false },
      push_head Chan.text e s.hold,
      true,
    )
    else if is_pos (find c_open s.hold) e
    then (
      record { chan = Chan.tool; hold = drop (e + length c_open) s.hold; tool_boundary = false },
      (if e == 0 && s.tool_boundary then (Chan.text, []) ∷ [] else [])
          ++ push_head Chan.text e s.hold,
      true,
    )
    else (record s { hold = drop (e + length c_close) s.hold }, push_head Chan.text e s.hold, true)

abbrev pub text_keep : Bytes → ℕ
text_keep hold = max (max (tail_keep t_open hold) (tail_keep c_open hold)) (tail_keep c_close hold)

-- The branch without one: `if (emit_head(out, keep)) tool_boundary = false; break;`
abbrev pub text_rest : Splitter × List Segment × Bool → Turn
text_rest (s, segs, true) = (record s { tool_boundary = false }, segs, false)
text_rest (s, segs, false) = (s, segs, false)

abbrev pub text_at : Splitter → Option ℕ → Turn
text_at s (some e) = text_marker s e
text_at s none = text_rest (emit_head s (text_keep s.hold))

unfoldable pub text_turn : Splitter → Turn
text_turn s =
    text_at s (min_pos (find t_open s.hold) (min_pos (find c_open s.hold) (find c_close s.hold)))

-- The other two channels, which wait for their closer.
abbrev pub closed_at : Splitter → Bytes → Bool → Option ℕ → Turn
closed_at s closer in_tool (some p) = (
  record { chan = Chan.text; hold = drop (p + length closer) s.hold; tool_boundary = in_tool },
  push_head s.chan p s.hold,
  true,
)
closed_at s closer in_tool none =
    let (s', segs, _) = emit_head s (tail_keep closer s.hold) in (s', segs, false)

unfoldable pub turn_in : Chan → Splitter → Turn
unfolding text_turn
turn_in Chan.text s = text_turn s
turn_in Chan.think s = closed_at s t_close false (find t_close s.hold)
turn_in Chan.tool s = closed_at s c_close true (find c_close s.hold)

-- The loop, with fuel for its rounds; a round that goes on erases a marker.
abbrev pub go_on : Turn → (Splitter → Splitter × List Segment) → Splitter × List Segment
go_on (s, segs, false) next = (s, segs)
go_on (s, segs, true) next = let (s', segs') = next s in (s', segs ++ segs')

unfoldable pub feed_loop : ℕ → Splitter → Splitter × List Segment
unfolding turn_in
feed_loop zero s = (s, [])
feed_loop (suc fuel) s = go_on (turn_in s.chan s) (λ s'. feed_loop fuel s')

unfoldable pub feed : Splitter → Bytes → Splitter × List Segment
unfolding feed_loop
feed s piece = feed_loop (suc (length (s.hold ++ piece))) (record s { hold = s.hold ++ piece })

unfoldable pub flush : Splitter → Splitter × List Segment
flush s = if is_empty s.hold then (s, []) else (record s { hold = [] }, (s.chan, s.hold) ∷ [])

-- All pieces, and the flush at the end.
abbrev pub then_feed : Splitter × List Segment → (Splitter → List Segment) → List Segment
then_feed (s, segs) next = segs ++ next s

unfoldable pub split_all : Splitter → List Bytes → List Segment
unfolding feed flush
split_all s [] = (flush s).1
split_all s (p ∷ ps) = then_feed (feed s p) (λ s'. split_all s' ps)
