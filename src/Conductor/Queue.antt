-- ===== src/Conductor/Queue.antt =====
-- `TokenQueue`: its methods, one critical section each. `pop` is the part behind the wait, and
-- `none` while the wait goes on. The texts are byte strings; `error` is null or the owned copy.
pub mod Delivery
use q.Prelude.{
  ℕ, Bool, true, false, ◌||◌, not, Option, none, some, List, [], ◌∷◌, ◌++◌, Bytes, codes, is_empty,
  if◌then◌else◌,
}

pub record TokenQueue : Type 0 where
  pub buf : List ℕ
  pub closed : Bool
  pub reason : Bytes
  pub error : Option Bytes

-- The member initialisers.
abbrev pub new_queue : TokenQueue
new_queue = record { buf = []; closed = false; reason = []; error = none }

-- `if (n <= 0) return;` changes nothing for an empty list.
unfoldable pub push : List ℕ → TokenQueue → TokenQueue
push [] q = q
push (id ∷ ids) q = record q { buf = q.buf ++ (id ∷ ids) }

unfoldable pub close : Bytes → TokenQueue → TokenQueue
close why q = record q { closed = true; reason = why }

unfoldable pub fail : Bytes → TokenQueue → TokenQueue
fail what q = record q { error = some what; closed = true; reason = codes "error" }

-- The queue, what is appended to `out`, and the result.
unfoldable pub pop : TokenQueue → Option (TokenQueue × List ℕ × Bool)
pop q =
    if not (is_empty q.buf) || q.closed
    then some (record q { buf = [] }, q.buf, not (is_empty q.buf) || not q.closed)
    else none

unfoldable pub finish_reason : TokenQueue → Bytes
finish_reason q = q.reason

unfoldable pub error_or_null : TokenQueue → Option Bytes
error_or_null q = q.error
