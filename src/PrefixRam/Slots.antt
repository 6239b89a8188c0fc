-- ===== src/PrefixRam/Slots.antt =====
-- How many slots the tier pins.
use q.Prelude.{
  ℕ, suc, ◌≤◌, ◌<◌, true, Bool, Option, none, some, List, [], ◌∷◌, length, ◌≡◌, refl, arith, leb,
  ltb, false, subst, if_intro, ◌||◌, not, ap, ◌∙◌,
}
use q.PrefixRam.{Blob, PrefixRam, new_blob, first_free, reuse, acquire, enabled}

-- What a choice of a free blob leaves.
OneLess : List Blob → Option (Blob × List Blob) → Type 0
OneLess bs none = Unit
OneLess bs (some (b, left)) = suc (length left) ≡ length bs

first_free-OneLess : (busy : ℕ → Bool) (bs : List Blob) → OneLess bs (first_free busy bs)
unfolding first_free OneLess
first_free-OneLess busy [] = tt
first_free-OneLess busy (b ∷ bs) =
    if_intro (OneLess (b ∷ bs)) (busy b.id)
      (λ h. onward (first_free busy bs) (first_free-OneLess busy bs)) (λ h. refl)
  where
    onward :
        (o : Option (Blob × List Blob))
        → OneLess bs o
        → OneLess (b ∷ bs) (elim o [ none ↦ none | some (a, left) ↦ some (a, b ∷ left) ])
    onward none l = tt
    onward (some (a, left)) l = ap suc l

-- After an acquire of a full tier that gave a blob: it allocated nothing, a slot is missing in the
-- list, and the next acquire allocates.
abbrev pub Missing : PrefixRam → (ℕ → Bool) → ℕ → PrefixRam × Option Blob → Type 0
Missing r busy need (r', none) = Unit
Missing r busy need (r', some b) =
    (r'.next ≡ r.next)
    × (suc (length r'.lru) ≡ r.max_slots)
    × (acquire busy true need r' ≡ (record r' { next = suc r'.next }, some (new_blob r' need)))

reuse-Missing :
    (r : PrefixRam) (busy : ℕ → Bool) (need need' : ℕ) (o : Option (Blob × List Blob))
    → 0 < r.max_slots
    → length r.lru ≡ r.max_slots
    → need' ≤ r.slot_bytes
    → OneLess r.lru o
    → Missing r busy need' (reuse r need o)
unfolding OneLess acquire
reuse-Missing r busy need need' none on full small l = tt
reuse-Missing r busy need need' (some (b, left)) on full small l = (refl, l ∙ full, allocates)
  where
    allocates :
        acquire busy true need' (record r { lru = left })
        ≡ (record r { lru = left; next = suc r.next }, some (new_blob r need'))
    allocates =
        let short : leb r.max_slots (length left) ≡ false = ground arith in
        let go : (not (enabled r) || ltb r.slot_bytes need') ≡ false = ground arith in
        rw (go, short) refl

-- Where an acquire takes a blob from a full tier, it allocates nothing and the list is one short.
-- If nothing is published in the meantime, the next acquire of a size that fits a slot, where the
-- allocation does not fail, allocates a new blob, whatever blobs are in use.
pub acquire-allocates :
    (busy busy' : ℕ → Bool) (ok : Bool) (need need' : ℕ) (r r' : PrefixRam) (b : Blob)
    → length r.lru ≡ r.max_slots
    → need' ≤ r.slot_bytes
    → acquire busy ok need r ≡ (r', some b)
    → (r'.next ≡ r.next)
      × (suc (length r'.lru) ≡ r.max_slots)
      × (acquire busy' true need' r' ≡ (record r' { next = suc r'.next }, some (new_blob r' need')))
unfolding acquire
acquire-allocates busy busy' ok need need' r r' b full small eq =
    subst (Missing r busy' need') eq taken
  where
    taken : Missing r busy' need' (acquire busy ok need r)
    taken =
        if_intro (Missing r busy' need') (not (enabled r) || ltb r.slot_bytes need) (λ off. tt)
          (λ go.
            let whole : leb r.max_slots (length r.lru) ≡ true = ground arith in
            rw whole (
              reuse-Missing r busy' need need' (first_free busy r.lru) (ground arith) full small
                (first_free-OneLess busy r.lru)))
