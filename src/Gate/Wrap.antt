-- ===== src/Gate/Wrap.antt =====
-- The counters do not wrap while they are below 2 ^ 64.
use q.Prelude.{ℕ, ◌+◌, ◌-◌, ◌≤◌, ◌<◌, ◌%◌, ◌≡◌, arith}
use q.Gate.{word}

pub wrap_small : (n : ℕ) → n < word → n % word ≡ n
wrap_small n h = omega arith

pub wrap_gap : (n s : ℕ) → s ≤ n → n < word → (n + (word - s)) % word ≡ n - s
wrap_gap n s le h = omega arith
