-- ===== src/Evict/Tests.antt =====
-- Two turns of a conversation and another one: the grown-out-of snapshot is the spine.
use q.Prelude.{
  codes, ℕ, Bool, true, false, some, List, [], ◌∷◌, ◌≡◌, refl, starts_with, map, Bytes, bytes_eq,
  none, if◌then◌else◌, Option,
}
use q.Evict.{EvictCandidate, mark_spine, eviction_order}
use q.Evict.Order.{InOrder, count, eviction_order-InOrder}

abbrev snapshot : Bytes → ℕ → EvictCandidate
snapshot path mtime = record { path = path; size = 1; mtime = mtime; spine = false }

abbrev stored : Bytes → Option (List ℕ)
stored path =
    if bytes_eq path (codes "a")
    then some (1 ∷ 2 ∷ [])
    else if bytes_eq path (codes "b")
    then some (1 ∷ 2 ∷ 3 ∷ [])
    else none

abbrev files : List EvictCandidate
files = snapshot (codes "a") 1 ∷ snapshot (codes "b") 3 ∷ snapshot (codes "c") 2 ∷ []

abbrev paths : List EvictCandidate → List Bytes
paths fs = map (λ f. f.path) fs

pinned :
    paths (eviction_order (mark_spine files stored) true) ≡ codes "c" ∷ codes "b" ∷ codes "a" ∷ []
unfolding eviction_order mark_spine starts_with bytes_eq
pinned = refl

flat :
    paths (eviction_order (mark_spine files stored) false) ≡ codes "a" ∷ codes "c" ∷ codes "b" ∷ []
unfolding eviction_order mark_spine starts_with bytes_eq
flat = refl

eviction_order-InOrder_example :
    InOrder true (eviction_order (mark_spine files stored) true)
    × ((p : EvictCandidate → Bool)
        → count p (eviction_order (mark_spine files stored) true)
          ≡ count p (mark_spine files stored))
eviction_order-InOrder_example = eviction_order-InOrder (mark_spine files stored) true
