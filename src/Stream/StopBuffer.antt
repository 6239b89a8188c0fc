-- ===== src/Stream/StopBuffer.antt =====
-- `StopBuffer` of src/metal/stream_format.h: stop sequences over an incremental byte stream.
pub mod Matches
pub mod Clear
pub mod Stops
use q.Prelude.{
  ℕ, ◌+◌, ◌-◌, Bool, true, false, Option, none, some, List, [], ◌∷◌, ◌++◌, ltb, if◌then◌else◌,
  Bytes, is_empty, find, length, take, drop,
}
use q.Stream.Holdback.{tail_keep}

pub record StopBuffer : Type 0 where
  pub stops : List Bytes
  pub pend : Bytes
  pub matched : Option ℕ

-- `stops.erase(remove(..., std::string()))`
unfoldable pub drop_empty : List Bytes → List Bytes
drop_empty [] = []
drop_empty (s ∷ ss) = if is_empty s then drop_empty ss else s ∷ drop_empty ss

abbrev pub make : List Bytes → StopBuffer
make seqs = record { stops = drop_empty seqs; pend = []; matched = none }

abbrev pub active : StopBuffer → Bool
active b = if is_empty b.stops then false else true

-- The body of the first loop: a hit replaces the best one if it is strictly earlier.
abbrev pub better : ℕ → Option ℕ → Option (ℕ × ℕ) → Option (ℕ × ℕ)
better s none best = best
better s (some p) none = some (p, s)
better s (some p) (some (q, t)) = if ltb p q then some (p, s) else some (q, t)

unfoldable pub best_match : ℕ → List Bytes → Bytes → Option (ℕ × ℕ) → Option (ℕ × ℕ)
best_match i [] pend best = best
best_match i (s ∷ ss) pend best = best_match (i + 1) ss pend (better i (find s pend) best)

-- The second loop.
unfoldable pub longest_hold : List Bytes → Bytes → ℕ → ℕ
longest_hold [] pend hold = hold
longest_hold (s ∷ ss) pend hold =
    longest_hold ss pend (if ltb hold (tail_keep s pend) then tail_keep s pend else hold)

-- The new buffer, the text to emit, and `stopped`.
abbrev pub Fed : Type 0
Fed = StopBuffer × Bytes × Bool

abbrev pub feed_with : StopBuffer → Bytes → Option (ℕ × ℕ) → Fed
feed_with b pend (some (p, i)) = (record b { pend = []; matched = some i }, take p pend, true)
feed_with b pend none =
    let emit_len = length pend - longest_hold b.stops pend 0 in
    (record b { pend = drop emit_len pend }, take emit_len pend, false)

unfoldable pub feed : StopBuffer → Bytes → Fed
unfolding best_match longest_hold
feed b piece =
    if is_empty b.stops
    then (b, piece, false)
    else feed_with b (b.pend ++ piece) (best_match 0 b.stops (b.pend ++ piece) none)

unfoldable pub flush : StopBuffer → StopBuffer × Bytes
flush b = (record b { pend = [] }, b.pend)

-- The pieces in turn, up to the one that stops the stream; the emitted texts joined.
abbrev pub feed_on : Fed → (StopBuffer → Fed) → Fed
feed_on (b, out, true) next = (b, out, true)
feed_on (b, out, false) next = let (b', out', stopped) = next b in (b', out ++ out', stopped)

unfoldable pub feed_all : StopBuffer → List Bytes → Fed
unfolding feed
feed_all b [] = (b, [], false)
feed_all b (p ∷ ps) = feed_on (feed b p) (λ b'. feed_all b' ps)
