-- ===== src/PrefixRam/Tests.antt =====
-- The tier with two slots, and the theorems at concrete inputs.
use q.Prelude.{
  ℕ, suc, Bool, true, false, Option, some, none, List, [], ◌∷◌, length, ◌≡◌, refl, arith, ap,
}
use q.PrefixRam.{Blob, PrefixRam, init, prealloc, acquire, publish, find, new_blob}
use q.PrefixRam.Slots.{acquire-allocates}
use q.PrefixRam.Contents.{Best, find-Best}

abbrev boot : PrefixRam
boot =
    prealloc (λ n. true)
      (init 250 100 (record { lru = []; slot_bytes = 0; max_slots = 0; next = 0 }))

abbrev slot : ℕ → List ℕ → ℕ → Blob
slot i ts n = record { id = i; toks = ts; cap = 100; bytes = n }

abbrev booted : PrefixRam
booted = record {
  lru = slot 0 [] 0 ∷ (slot 1 [] 0 ∷ []);
  slot_bytes = 100;
  max_slots = 2;
  next = 2;
}

boot_pins : boot ≡ booted
unfolding init prealloc
boot_pins = refl

abbrev idle : ℕ → Bool
idle i = false

abbrev taken : PrefixRam
taken = record booted { lru = slot 1 [] 0 ∷ [] }

takes_first : acquire idle true 40 booted ≡ (taken, some (slot 0 [] 40))
unfolding acquire
takes_first = refl

-- The list is longer than the tier has slots.
three_slots :
    (publish
      (new_blob taken 50)
      (5 ∷ (6 ∷ []))
      2
      (publish (slot 0 [] 40) (5 ∷ (7 ∷ [])) 2 taken)).lru
    ≡ slot 1 [] 0 ∷ (slot 0 (5 ∷ (7 ∷ [])) 40 ∷ (slot 2 (5 ∷ (6 ∷ [])) 50 ∷ []))
unfolding publish q.Prelude.bytes_eq
three_slots = refl

acquire-allocates_example :
    (taken.next ≡ booted.next)
    × (suc (length taken.lru) ≡ booted.max_slots)
    × (acquire idle true 50 taken
        ≡ (record taken { next = suc taken.next }, some (new_blob taken 50)))
acquire-allocates_example =
    acquire-allocates idle idle true 40 50 booted taken (slot 0 [] 40) refl (omega arith)
      takes_first

abbrev stocked : PrefixRam
stocked = record booted {
  lru = slot 1 (5 ∷ []) 0 ∷ (slot 0 (5 ∷ (7 ∷ [])) 40 ∷ (slot 2 [] 9 ∷ []));
}

finds_longest : find stocked (5 ∷ (7 ∷ (8 ∷ []))) ≡ (
  record stocked { lru = slot 1 (5 ∷ []) 0 ∷ (slot 2 [] 9 ∷ (slot 0 (5 ∷ (7 ∷ [])) 40 ∷ [])) },
  some (slot 0 (5 ∷ (7 ∷ [])) 40),
)
unfolding find q.Prelude.bytes_eq
finds_longest = refl

find-Best_example : Best stocked (5 ∷ (7 ∷ (8 ∷ []))) (find stocked (5 ∷ (7 ∷ (8 ∷ []))))
find-Best_example = find-Best stocked (5 ∷ (7 ∷ (8 ∷ []))) refl (refl, (refl, (refl, tt)))
