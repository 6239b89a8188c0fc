-- ===== src/Gate.antt =====
-- `GpuGate` of src/api_common.h: the FIFO ticket lock that time-slices the GPU.
pub mod Wrap
pub mod Tickets
pub mod Order
mod Tests
use q.Prelude.{
  ◌%◌, ℕ, zero, suc, ◌+◌, ◌-◌, ◌≤◌, ◌<◌, ◌≡◌, ◌≢◌, Bool, true, false, List, [], ◌∷◌, ◌++◌, ◌==◌,
  leb, if◌then◌else◌, Among,
}

-- The fields, with the tickets of the threads that wait for their turn, in the order in which they
-- came, and those of the threads that are past `acquire` and not yet at `release`. Of the waiting
-- ones, the `blocked` are in `cv.wait` and were not notified since; the others have still to look at
-- `serving`. `notifying` counts the threads that are past the mutex of `release` and not yet past
-- its `cv.notify_all`.
pub record Gate : Type 0 where
  pub next : ℕ
  pub serving : ℕ
  pub nwait : ℕ
  pub asleep : List ℕ
  pub running : List ℕ
  pub blocked : List ℕ
  pub notifying : ℕ

abbrev pub idle : Gate
idle = record {
  next = 0;
  serving = 0;
  nwait = 0;
  asleep = [];
  running = [];
  blocked = [];
  notifying = 0;
}

-- `uint64_t` counters wrap around at this number.
abbrev pub word : ℕ
word = 18446744073709551616

unfoldable pub erase_ticket : ℕ → List ℕ → List ℕ
erase_ticket t [] = []
erase_ticket t (x ∷ xs) = if x == t then xs else x ∷ erase_ticket t xs

-- `acquire` up to its wait: the ticket is drawn, and it is held at once or waited for.
unfoldable pub acquire : Gate → Gate
acquire g =
    if g.next == g.serving
    then record g { next = (g.next + 1) % word; running = g.next ∷ g.running }
    else record g {
      next = (g.next + 1) % word;
      nwait = g.nwait + 1;
      asleep = g.asleep ++ g.next ∷ [];
      blocked = g.next ∷ g.blocked;
    }

-- A waiting thread that looks and finds that it is not its turn: it blocks again.
unfoldable pub block : ℕ → Gate → Gate
block t g = record g { blocked = t ∷ g.blocked }

-- A wait that ends without a notification, as `cv.wait` may: the thread has to look again.
unfoldable pub stir : ℕ → Gate → Gate
unfolding erase_ticket
stir t g = record g { blocked = erase_ticket t g.blocked }

-- `cv.notify_all()`
abbrev pub notify_all : Gate → Gate
notify_all g = record g { blocked = [] }

-- The end of a wait, when `serving == t`.
unfoldable pub wake : ℕ → Gate → Gate
unfolding erase_ticket
wake t g = record g {
  nwait = g.nwait - 1;
  asleep = erase_ticket t g.asleep;
  running = t ∷ g.running;
}

-- `release` by the holder of ticket `t`, up to the end of its block
unfoldable pub release : ℕ → Gate → Gate
unfolding erase_ticket
release t g = record g {
  serving = (g.serving + 1) % word;
  running = erase_ticket t g.running;
  notifying = suc g.notifying;
}

-- The rest of `release`.
unfoldable pub release_notify : Gate → Gate
release_notify g = notify_all (record g { notifying = g.notifying - 1 })

-- `contended()`, of the value of `nwait` that it reads.
abbrev pub contended : ℕ → Bool
contended nwait = if nwait == 0 then false else true

-- The beginning of a wait for ticket `t`: the thread counts itself, and blocks unless it is its turn.
abbrev pub wait_for : ℕ → Gate → Gate
wait_for t g = record g {
  nwait = g.nwait + 1;
  asleep = g.asleep ++ t ∷ [];
  blocked = (if t == g.serving then g.blocked else t ∷ g.blocked);
}

-- `maybe_yield` by the holder of ticket `t`, up to its wait, and whether it hands over; `seen` is
-- `nwait` as it was read before the mutex, which other threads may have changed since.
unfoldable pub maybe_yield : ℕ → ℕ → Gate → Gate × Bool
unfolding erase_ticket
maybe_yield seen t g =
    if contended seen
    then (if leb ((g.next + (word - g.serving)) % word) 1 then (g, false) else (
      wait_for g.next (
          notify_all (record g {
            next = (g.next + 1) % word;
            serving = (g.serving + 1) % word;
            running = erase_ticket t g.running;
          })),
      true,
    ))
    else (g, false)

-- What the threads do, one critical section at a time, as long as fewer than 2 ^ 64 tickets have
-- been drawn.
pub data Step (g : Gate) : Gate → Type 0 where
  acquires : g.next + 1 < word → Step g (acquire g)
  blocks : (t : ℕ) → Among t g.asleep → ¬ Among t g.blocked → g.serving ≢ t → Step g (block t g)
  stirs : (t : ℕ) → Among t g.blocked → Step g (stir t g)
  wakes : (t : ℕ) → Among t g.asleep → ¬ Among t g.blocked → g.serving ≡ t → Step g (wake t g)
  releases : (t : ℕ) → Among t g.running → Step g (release t g)
  notifies : 0 < g.notifying → Step g (release_notify g)
  yields : (seen t : ℕ) → Among t g.running → g.next + 1 < word → Step g (maybe_yield seen t g).0

pub data Reach : Gate → Type 0 where
  start : Reach idle
  next_step : {g h : Gate} → Reach g → Step g h → Reach h
