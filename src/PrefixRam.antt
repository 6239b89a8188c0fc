-- ===== src/PrefixRam.antt =====
-- src/prefix_ram.h, the tier of the prefix cache in pinned host memory. A blob is known by the number
-- of its allocation, in place of its address. What the blobs hold besides the tokens is left out,
-- and so are the lock and the log lines. `ok` stands for the results of `cudaMallocHost`, `busy` for
-- `use_count() > 1`.
pub mod Longest
pub mod Contents
pub mod Slots
mod Tests
use q.Prelude.{
  ℕ, zero, suc, ◌+◌, ◌-◌, ◌/◌, Bool, false, ◌&&◌, ◌||◌, not, Option, none, some, List, [], ◌∷◌,
  ◌++◌, bytes_eq, length, take, leb, ltb, if◌then◌else◌, ◌==◌, is_empty,
}

pub record Blob : Type 0 where
  pub id : ℕ
  pub toks : List ℕ
  pub cap : ℕ
  pub bytes : ℕ

-- `next` numbers the allocations.
pub record PrefixRam : Type 0 where
  pub lru : List Blob
  pub slot_bytes : ℕ
  pub max_slots : ℕ
  pub next : ℕ

-- `(int)` changes no number of slots that memory has room for.
unfoldable pub init : ℕ → ℕ → PrefixRam → PrefixRam
init budget_bytes slot_bytes r = record r {
  slot_bytes = slot_bytes;
  max_slots = if slot_bytes == 0 then 0 else budget_bytes / slot_bytes;
}

abbrev pub enabled : PrefixRam → Bool
enabled r = ltb 0 r.max_slots

-- A blob of a new allocation.
abbrev pub new_blob : PrefixRam → ℕ → Blob
new_blob r bytes = record { id = r.next; toks = []; cap = r.slot_bytes; bytes = bytes }

-- `while ((int)lru_.size() < max_slots_)`, with fuel; `ok` is asked with the size.
unfoldable pub prealloc_loop : ℕ → (ℕ → Bool) → PrefixRam → PrefixRam
prealloc_loop zero ok r = r
prealloc_loop (suc f) ok r =
    let rest =
      prealloc_loop f ok (record r { lru = r.lru ++ new_blob r 0 ∷ []; next = suc r.next }) in
    if ltb (length r.lru) r.max_slots
    then (if ok (length r.lru) then rest else record r { max_slots = length r.lru })
    else r

-- Each round adds a blob, so as many rounds as there are slots to add are enough.
unfoldable pub prealloc : (ℕ → Bool) → PrefixRam → PrefixRam
unfolding prealloc_loop
prealloc ok r = if enabled r then prealloc_loop (r.max_slots - length r.lru) ok r else r

-- The tests of one blob in `find`, but for the one against the best so far.
unfoldable pub fits : List ℕ → Blob → Bool
fits prompt b =
    not (is_empty b.toks || ltb (length prompt) (length b.toks + 1))
    && bytes_eq b.toks (take (length b.toks) prompt)

unfoldable pub better : List ℕ → Option Blob → Blob → Option Blob
unfolding fits
better prompt none b = if fits prompt b then some b else none
better prompt (some a) b =
    if not (leb (length b.toks) (length a.toks)) && fits prompt b then some b else some a

unfoldable pub best_of : List ℕ → Option Blob → List Blob → Option Blob
unfolding better
best_of prompt best [] = best
best_of prompt best (b ∷ bs) = best_of prompt (better prompt best b) bs

-- `std::find` and `erase`
unfoldable pub remove_first : ℕ → List Blob → List Blob
remove_first i [] = []
remove_first i (b ∷ bs) = let rest = remove_first i bs in if b.id == i then bs else b ∷ rest

abbrev pub any_id : ℕ → List Blob → Bool
any_id i [] = false
any_id i (b ∷ bs) = b.id == i || any_id i bs

unfoldable pub touch : Blob → PrefixRam → PrefixRam
unfolding remove_first
touch b r = if any_id b.id r.lru then record r { lru = remove_first b.id r.lru ++ b ∷ [] } else r

abbrev pub touch_best : PrefixRam → Option Blob → PrefixRam × Option Blob
touch_best r none = (r, none)
touch_best r (some b) = (touch b r, some b)

unfoldable pub find : PrefixRam → List ℕ → PrefixRam × Option Blob
unfolding best_of touch
find r prompt =
    if not (enabled r) || is_empty prompt
    then (r, none)
    else touch_best r (best_of prompt none r.lru)

-- The first blob that only the list holds, and the list without it.
unfoldable pub first_free : (ℕ → Bool) → List Blob → Option (Blob × List Blob)
first_free busy [] = none
first_free busy (b ∷ bs) =
    let rest = first_free busy bs in
    if busy b.id
    then elim rest [ none ↦ none | some (a, left) ↦ some (a, b ∷ left) ]
    else some (b, bs)

abbrev pub reuse : PrefixRam → ℕ → Option (Blob × List Blob) → PrefixRam × Option Blob
reuse r need none = (r, none)
reuse r need (some (b, left)) =
    (record r { lru = left }, some (record b { toks = []; bytes = need }))

unfoldable pub acquire : (ℕ → Bool) → Bool → ℕ → PrefixRam → PrefixRam × Option Blob
unfolding first_free
acquire busy ok need r =
    if not (enabled r) || ltb r.slot_bytes need
    then (r, none)
    else if leb r.max_slots (length r.lru)
    then reuse r need (first_free busy r.lru)
    else if ok
    then (record r { next = suc r.next }, some (new_blob r need))
    else (record r { max_slots = 0 }, none)

-- The blobs but for others with the tokens of `b`, and then but for `b`.
unfoldable pub without_same : Blob → List Blob → List Blob
without_same b [] = []
without_same b (x ∷ xs) =
    let rest = without_same b xs in
    if not (x.id == b.id) && bytes_eq x.toks b.toks then rest else x ∷ rest

unfoldable pub without : Blob → List Blob → List Blob
without b [] = []
without b (x ∷ xs) = let rest = without b xs in if x.id == b.id then rest else x ∷ rest

-- `b` is not null.
unfoldable pub publish : Blob → List ℕ → ℕ → PrefixRam → PrefixRam
unfolding without_same without
publish b prompt len r =
    if not (enabled r) || (leb len 0 || ltb (length prompt) len)
    then r
    else let b' = record b { toks = take len prompt } in
      record r { lru = without b' (without_same b' r.lru) ++ b' ∷ [] }
