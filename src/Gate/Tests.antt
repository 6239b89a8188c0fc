-- ===== src/Gate/Tests.antt =====
-- Two clients share the gate, and the theorems on that run.
use q.Prelude.{arith, ℕ, ◌-◌, ◌≤◌, ◌<◌, ◌≡◌, refl, [], ◌∷◌, ◌++◌, Among, inl, ◌⊎◌, length, true}
use q.Gate.{
  Gate, acquire, wake, release, release_notify, maybe_yield, Step, acquires, releases, yields,
  Reach, start, next_step,
}
use q.Gate.Tickets.{tickets}
use q.Gate.Order.{Reach-alone, Reach-wakes, maybe_yield-rotates}

abbrev one_in : Gate
one_in = record {
  next = 1;
  serving = 0;
  nwait = 0;
  asleep = [];
  running = 0 ∷ [];
  blocked = [];
  notifying = 0;
}

abbrev two_in : Gate
two_in = record {
  next = 2;
  serving = 0;
  nwait = 1;
  asleep = 1 ∷ [];
  running = 0 ∷ [];
  blocked = 1 ∷ [];
  notifying = 0;
}

abbrev yielded : Gate
yielded = record {
  next = 3;
  serving = 1;
  nwait = 2;
  asleep = 1 ∷ 2 ∷ [];
  running = [];
  blocked = 2 ∷ [];
  notifying = 0;
}

Reach-two_in : Reach two_in
unfolding acquire
Reach-two_in = next_step (next_step start (acquires (omega arith))) (acquires (omega arith))

Reach-yielded : Reach yielded
unfolding maybe_yield
Reach-yielded = next_step Reach-two_in (yields 1 0 (inl refl) (omega arith))

Reach-alone_example :
    (length two_in.running ≤ 1)
    × ((t : ℕ) → Among t two_in.running → t ≡ two_in.serving)
    × (two_in.running ++ two_in.asleep ≡ tickets two_in.serving (two_in.next - two_in.serving))
    × (two_in.nwait ≡ length two_in.asleep)
Reach-alone_example = Reach-alone Reach-two_in

-- The holder has released and has not notified yet.
abbrev released : Gate
released = record {
  next = 2;
  serving = 1;
  nwait = 1;
  asleep = 1 ∷ [];
  running = [];
  blocked = 1 ∷ [];
  notifying = 1;
}

Reach-released : Reach released
unfolding release
Reach-released = next_step Reach-two_in (releases 0 (inl refl))

Reach-wakes_example :
    (released.serving ≡ 1)
    × (((¬ Among 1 released.blocked) × Step released (wake 1 released))
        ⊎ ((0 < released.notifying)
            × Step released (release_notify released)
            × Step (release_notify released) (wake 1 (release_notify released))))
Reach-wakes_example = Reach-wakes 1 [] Reach-released refl refl

maybe_yield-rotates_example :
    ((maybe_yield 1 0 two_in).1 ≡ true)
    × ((maybe_yield 1 0 two_in).0.running ≡ [])
    × ((maybe_yield 1 0 two_in).0.asleep ≡ (1 ∷ []) ++ two_in.next ∷ [])
    × ((maybe_yield 1 0 two_in).0.serving ≡ 1)
maybe_yield-rotates_example =
    maybe_yield-rotates 1 0 1 [] Reach-two_in (omega arith) (inl refl) refl
