-- ===== src/Conductor/Queue/Delivery.antt =====
-- What a consumer gets out of a queue.
use q.Prelude.{
  ℕ, Bool, true, false, not, Option, none, some, List, [], ◌∷◌, ◌++◌, Bytes, append-nil,
  append_assoc, ◌≡◌, refl, sym, ap, ◌∙◌, arith, Bool-cases, inl, inr, is_empty, ◌||◌, ◌↔◌,
}
use q.Conductor.Queue.{TokenQueue, new_queue, push, close, fail, pop}

-- The critical sections in their order; a `try_pop` that would wait does nothing.
pub data Op : Type 0 where
  push_op : List ℕ → Op
  close_op fail_op : Bytes → Op
  try_pop : Op

-- The queue, what was delivered, and the result of the last pop.
pub record Seen : Type 0 where
  pub queue : TokenQueue
  pub out : List ℕ
  pub more : Bool

abbrev pub popped : Seen → Option (TokenQueue × List ℕ × Bool) → Seen
popped s none = s
popped s (some (q, ids, b)) = record { queue = q; out = s.out ++ ids; more = b }

abbrev pub act : Op → Seen → Seen
act (push_op ids) s = record s { queue = push ids s.queue }
act (close_op why) s = record s { queue = close why s.queue }
act (fail_op what) s = record s { queue = fail what s.queue }
act try_pop s = popped s (pop s.queue)

abbrev pub act_all : List Op → Seen → Seen
act_all [] s = s
act_all (o ∷ os) s = act_all os (act o s)

-- All that the operations push, in their order.
abbrev pub pushed : List Op → List ℕ
pushed [] = []
pushed (push_op ids ∷ os) = ids ++ pushed os
pushed (close_op why ∷ os) = pushed os
pushed (fail_op what ∷ os) = pushed os
pushed (try_pop ∷ os) = pushed os

abbrev pub at_first : Seen
at_first = record { queue = new_queue; out = []; more = true }

buf-push : (ids : List ℕ) (q : TokenQueue) → (push ids q).buf ≡ q.buf ++ ids
unfolding push
buf-push [] q = sym (append-nil q.buf)
buf-push (id ∷ ids) q = refl

try_pop-whole : (s : Seen) → (act try_pop s).out ++ (act try_pop s).queue.buf ≡ s.out ++ s.queue.buf
unfolding pop
try_pop-whole s = elim (Bool-cases (not (is_empty s.queue.buf) || s.queue.closed)) [
  | inl ready ↦ rw ready (append-nil (s.out ++ s.queue.buf))
  | inr waits ↦ rw waits refl
]

act_all-whole :
    (os : List Op) (s : Seen)
    → (act_all os s).out ++ (act_all os s).queue.buf ≡ (s.out ++ s.queue.buf) ++ pushed os
unfolding close fail
act_all-whole [] s = sym (append-nil (s.out ++ s.queue.buf))
act_all-whole (push_op ids ∷ os) s =
    act_all-whole os (act (push_op ids) s)
    ∙ ap (λ b. (s.out ++ b) ++ pushed os) (buf-push ids s.queue)
    ∙ simp append_assoc
act_all-whole (close_op why ∷ os) s = act_all-whole os (act (close_op why) s)
act_all-whole (fail_op what ∷ os) s = act_all-whole os (act (fail_op what) s)
act_all-whole (try_pop ∷ os) s =
    act_all-whole os (act try_pop s) ∙ ap (λ b. b ++ pushed os) (try_pop-whole s)

pop-waits : (q : TokenQueue) → (pop q ≡ none) ↔ ((q.buf ≡ []) × (q.closed ≡ false))
unfolding pop
pop-waits q = (λ h. (ground arith, ground arith), λ h. ground arith)

pop-delivers :
    (q q' : TokenQueue) (ids : List ℕ) (b : Bool)
    → pop q ≡ some (q', ids, b)
    → (ids ≡ q.buf) × (q'.buf ≡ []) × (b ≡ false → (q.buf ≡ []) × (q.closed ≡ true))
unfolding pop
pop-delivers q q' ids b h = (ground arith, ground arith, λ e. (ground arith, ground arith))

-- Whatever sections ran: what was delivered and what is buffered are, in order, all that was pushed.
-- A pop then waits just when nothing is buffered and the queue is not closed; if it does not, it
-- delivers all the rest, and it returns false only if the queue is closed and nothing was left.
pub delivery :
    (os : List Op)
    → let s = act_all os at_first in
      (s.out ++ s.queue.buf ≡ pushed os)
      × ((pop s.queue ≡ none) ↔ ((s.queue.buf ≡ []) × (s.queue.closed ≡ false)))
      × ((q : TokenQueue) (ids : List ℕ) (b : Bool)
          → pop s.queue ≡ some (q, ids, b)
          → (s.out ++ ids ≡ pushed os)
            × (q.buf ≡ [])
            × (b ≡ false → (s.queue.closed ≡ true) × (s.out ≡ pushed os)))
delivery os =
    let s = act_all os at_first in
    let whole = act_all-whole os at_first in
    (
      whole,
      pop-waits s.queue,
      λ q ids b h.
          let (same, empty, last) = pop-delivers s.queue q ids b h in
          (
            ap (λ l. s.out ++ l) same ∙ whole,
            empty,
            λ done. (
              (last done).1,
              sym (append-nil s.out) ∙ ap (λ l. s.out ++ l) (sym (last done).0) ∙ whole,
            ),
          ),
    )
