-- ===== src/Evict.antt =====
-- The eviction order of src/metal/snapshot_evict.h.
pub mod Order
mod Tests
use q.Prelude.{
  ℕ, zero, suc, ◌+◌, Bool, true, false, ◌&&◌, Option, none, some, List, [], ◌∷◌, ltb, ◌==◌,
  if◌then◌else◌, Bytes, starts_with, length,
}

pub record EvictCandidate : Type 0 where
  pub path : Bytes
  pub size : ℕ
  pub mtime : ℕ
  pub spine : Bool

-- `std::map` from paths to tokens
abbrev pub Tokens : Type 0
Tokens = Bytes → Option (List ℕ)

-- `a.size() < b.size() && std::equal(a.begin(), a.end(), b.begin())`
abbrev pub strict_prefix : List ℕ → List ℕ → Bool
strict_prefix a b = ltb (length a) (length b) && starts_with a b

abbrev pub longer_one : Option (List ℕ) → List ℕ → Bool → Bool
longer_one none a rest = rest
longer_one (some b) a rest = if strict_prefix a b then true else rest

-- The inner loop, from position `j` on.
unfoldable pub spine_scan : Tokens → ℕ → List ℕ → ℕ → List EvictCandidate → Bool
spine_scan tokens i a j [] = false
spine_scan tokens i a j (f ∷ fs) =
    let rest = spine_scan tokens i a (j + 1) fs in
    if i == j then rest else longer_one (tokens f.path) a rest

abbrev pub spine_bit : Tokens → List EvictCandidate → ℕ → Option (List ℕ) → Bool
spine_bit tokens files i none = false
spine_bit tokens files i (some a) = spine_scan tokens i a 0 files

-- The outer loop over the files from `i` on; the paths and the tokens stay as they are.
unfoldable pub mark_from :
    Tokens → List EvictCandidate → ℕ → List EvictCandidate → List EvictCandidate
unfolding spine_scan
mark_from tokens files i [] = []
mark_from tokens files i (f ∷ fs) =
    record f { spine = spine_bit tokens files i (tokens f.path) }
    ∷ mark_from tokens files (i + 1) fs

unfoldable pub mark_spine : List EvictCandidate → Tokens → List EvictCandidate
unfolding mark_from
mark_spine files tokens = mark_from tokens files 0 files

-- The two comparators.
abbrev pub older : EvictCandidate → EvictCandidate → Bool
older x y = ltb x.mtime y.mtime

abbrev pub goes_first : Bool → EvictCandidate → EvictCandidate → Bool
goes_first false x y = older x y
goes_first true x y =
    if x.spine
    then (if y.spine then older x y else false)
    else (if y.spine then true else older x y)

-- `std::stable_sort`
unfoldable pub insert : Bool → EvictCandidate → List EvictCandidate → List EvictCandidate
insert pin x [] = x ∷ []
insert pin x (y ∷ ys) =
    let rest = insert pin x ys in if goes_first pin y x then y ∷ rest else x ∷ (y ∷ ys)

unfoldable pub eviction_order : List EvictCandidate → Bool → List EvictCandidate
unfolding insert
eviction_order [] pin = []
eviction_order (f ∷ fs) pin = insert pin f (eviction_order fs pin)
