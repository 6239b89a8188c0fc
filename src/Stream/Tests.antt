-- ===== src/Stream/Tests.antt =====
-- Streams cut in the middle of a marker or of a stop sequence, and the theorems at them.
use q.Prelude.{
  joins, starts_with_nil, ◌≢◌, ◌≡◌, refl, zero, suc, inl, inr, [], ◌∷◌, ◌++◌, Bytes, codes, List,
  Absent, starts_with, find, bytes_eq, codes, arith,
}
use q.Stream.Holdback.{tail_keep}
use q.Stream.Utf8Gate
use q.Stream.Utf8Gate.Whole.{
  Utf8Char, Part, begun, two_bytes, three_bytes, text, part_text, feed-text,
}
use q.Stream.StopBuffer
use q.Stream.StopBuffer.Stops.{Outcome, feed_all-make}
use q.Stream.Splitter.{Chan, fresh, split_all, feed}
use q.Stream.Splitter.Route.{route, tags}
use q.Stream.Splitter.Turns.{NoMarker}
use q.Stream.Splitter.Loop.{feed-Routes, split_all-route}

abbrev stop_words : List Bytes
stop_words = codes "END" ∷ [] ∷ codes "\n\n" ∷ []

abbrev cut_stop : List Bytes
cut_stop = codes "one E" ∷ codes "N two E" ∷ codes "ND three" ∷ []

stop_run : (StopBuffer.feed_all (StopBuffer.make stop_words) cut_stop).1 ≡ codes "one EN two "
unfolding StopBuffer.feed_all StopBuffer.drop_empty tail_keep find starts_with bytes_eq
stop_run = refl

feed_all-make_example :
    Outcome
      (StopBuffer.drop_empty stop_words)
      []
      []
      cut_stop
      (StopBuffer.feed_all (StopBuffer.make stop_words) cut_stop)
feed_all-make_example = feed_all-make stop_words cut_stop

abbrev cut_call : List Bytes
cut_call =
    codes "<thi"
    ∷ codes "nk>a<b"
    ∷ codes "</think>hi<tool"
    ∷ codes "_call>{}</tool_call"
    ∷ codes "><tool_call>[]"
    ∷ []

split_run :
    split_all fresh cut_call
    ≡ (Chan.think, codes "a<b")
      ∷ (Chan.text, codes "hi")
      ∷ (Chan.tool, codes "{}")
      ∷ (Chan.text, [])
      ∷ (Chan.tool, codes "[]")
      ∷ []
unfolding split_all tail_keep find starts_with bytes_eq
split_run = refl

Absent-nil : (m : Bytes) → m ≢ [] → Absent m []
Absent-nil m ne zero h = absurd (ground (arith, starts_with_nil m ne))
Absent-nil m ne (suc j) h = absurd (ground (arith, starts_with_nil m ne))

NoMarker-fresh : NoMarker fresh
NoMarker-fresh m (inl e) = Absent-nil m (λ n. cc)
NoMarker-fresh m (inr (inl e)) = Absent-nil m (λ n. cc)
NoMarker-fresh m (inr (inr (inl e))) = Absent-nil m (λ n. cc)
NoMarker-fresh m (inr (inr (inr x))) = elim x [ ]

split_all-route_example : tags (split_all fresh cut_call) ≡ route 0 Chan.text (joins cut_call)
split_all-route_example = split_all-route cut_call fresh NoMarker-fresh

feed-Routes_example :
    ((rest : Bytes)
      → route 0 Chan.text (codes "a<tool_call>b</to" ++ rest)
        ≡ tags (feed fresh (codes "a<tool_call>b</to")).1
          ++ route 0
              (feed fresh (codes "a<tool_call>b</to")).0.chan
              ((feed fresh (codes "a<tool_call>b</to")).0.hold ++ rest))
    × NoMarker (feed fresh (codes "a<tool_call>b</to")).0
feed-Routes_example = feed-Routes fresh (codes "a<tool_call>b</to")

abbrev e_acute : Utf8Char
e_acute = record {
  lead = 195;
  conts = 169 ∷ [];
  all_conts = (omega arith, omega arith, tt);
  complete = two_bytes (omega arith) (omega arith) refl;
}

abbrev dash_begun : Part
dash_begun =
    begun 226 (128 ∷ []) 3 (omega arith, omega arith, tt)
      (three_bytes (omega arith) (omega arith) refl) (omega arith)

feed-text_example :
    Utf8Gate.feed (195 ∷ []) (169 ∷ 226 ∷ 128 ∷ []) ≡ (part_text dash_begun, text (e_acute ∷ []))
feed-text_example = feed-text (195 ∷ []) (169 ∷ 226 ∷ 128 ∷ []) (e_acute ∷ []) dash_begun refl
