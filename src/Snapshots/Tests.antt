-- ===== src/Snapshots/Tests.antt =====
-- A small directory of snapshots, and the theorems at concrete inputs.
use q.Prelude.{
  ℕ, ◌+◌, ◌≤◌, Bool, true, not, Option, none, some, List, [], ◌∷◌, Bytes, codes, bytes_eq, ◌≡◌,
  refl, ◌⊎◌, if◌then◌else◌, Among, ◌≢◌, inl, inr, ap, ◌∙◌,
}
use q.Snapshots.{SnapPeekInfo, DirEntry, Infos, DiskSnapshotStore, best_match}
use q.Snapshots.Scan.{Matched, best_match-Matched}
use q.Snapshots.Eviction.{evict_past_budget}

abbrev snap : Bytes → ℕ → DirEntry
snap name t = record {
  path = name;
  filename = name;
  is_regular_file = true;
  is_snap = true;
  size = 40;
  mtime = t;
}

abbrev entries : List DirEntry
entries = snap (codes "ta") 3 ∷ (snap (codes "tb") 1 ∷ (snap (codes "tc") 2 ∷ []))

abbrev info : ℕ → List ℕ → SnapPeekInfo
info n ts = record { position = n; logits_resident = true; tokens = ts }

abbrev peek : Infos
peek p =
    if bytes_eq p (codes "ta")
    then some (info 1 (5 ∷ []))
    else if bytes_eq p (codes "tb")
    then some (info 2 (5 ∷ (6 ∷ [])))
    else none

abbrev store : DiskSnapshotStore
store = record {
  dir = codes "d";
  max_bytes = 100;
  tag = codes "t";
  spine_pin = true;
  tokens = λ p. none;
  meta = λ p. none;
  evicted_spine = 0;
  evicted_leaf = 0;
}

finds_two : (best_match peek entries (5 ∷ (6 ∷ (7 ∷ []))) store).1 ≡ some (codes "tb", 2)
unfolding best_match bytes_eq
finds_two = refl

frees_one : (evict_past_budget peek (λ p. true) entries store).2 ≡ (1, 40)
unfolding evict_past_budget bytes_eq q.Evict.mark_spine q.Evict.eviction_order q.Prelude.starts_with
frees_one = refl

nonempty : {a : ℕ} {l : Bytes} → a ∷ l ≡ [] → ⊥
nonempty e = absurd (cc)

named : (e : DirEntry) → Among e entries → e.path ≢ []
named e (inl s) h = nonempty (ap (λ (x : DirEntry). x.path) s ∙ h)
named e (inr (inl s)) h = nonempty (ap (λ (x : DirEntry). x.path) s ∙ h)
named e (inr (inr (inl s))) h = nonempty (ap (λ (x : DirEntry). x.path) s ∙ h)
named e (inr (inr (inr never))) h = absurd never

best_match-Matched_example :
    Matched peek entries
      (5 ∷ (6 ∷ (7 ∷ [])))
      store
      (best_match peek entries (5 ∷ (6 ∷ (7 ∷ []))) store)
best_match-Matched_example =
    best_match-Matched peek entries (5 ∷ (6 ∷ (7 ∷ []))) store (λ p i h. absurd (cc)) named refl

-- The oldest of the leaves cannot be removed, and the next one is.
abbrev not_tb : Bytes → Bool
not_tb p = not (bytes_eq p (codes "tb"))
