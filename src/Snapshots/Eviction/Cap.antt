-- ===== src/Snapshots/Eviction/Cap.antt =====
-- Which files an eviction removes.
use q.Prelude.{◌++◌, length, ℕ, ◌+◌, ◌≤◌, ◌<◌, Bool, List, [], ◌∷◌, Bytes, ◌≡◌, ◌⊎◌, if◌then◌else◌}
use q.Evict.{EvictCandidate}
use q.Evict.Order.{InOrder}
use q.Snapshots.{DirEntry, DiskSnapshotStore}
use q.Snapshots.Eviction.{Evicting, candidates, sizes}
use q.Snapshots.Eviction.Victims.{weigh}

-- The files that can be removed, in their order.
abbrev pub removable : (Bytes → Bool) → List EvictCandidate → List EvictCandidate
removable ok [] = []
removable ok (f ∷ fs) = if ok f.path then f ∷ removable ok fs else removable ok fs

-- Of the files `fs`, which sum up to `total` with others, those are removed that can be of a front
-- part, which ends where the rest fits the budget, or with the list; each was needed.
pub record Removes (ok : Bytes → Bool) (cap total : ℕ) (fs gone : List EvictCandidate)
    : Type 0 where
  pub front : List EvictCandidate
  pub back : List EvictCandidate
  pub cut : fs ≡ front ++ back
  pub picked : gone ≡ removable ok front
  pub ends : (total ≤ cap + sizes gone) ⊎ (back ≡ [])
  pub needed :
      (before : List EvictCandidate) (last : EvictCandidate)
      → gone ≡ before ++ last ∷ []
      → cap + sizes before < total

-- What a loop does from `a` to `b`, of which `g` are the files it removes.
abbrev Ran : (Bytes → Bool) → List EvictCandidate → Evicting → Evicting → Type 0
Ran ok fs a b =
    (g : List EvictCandidate) × Removes ok a.store.max_bytes a.total fs g
    × (b.gone ≡ a.gone ++ g)
    × (b.n ≡ a.n + length g)
    × (b.freed ≡ a.freed + sizes g)

-- What an eviction does: the victims `vs` are the snapshots of the directory in the order in which
-- they may go, and of these it removes `gone`.
pub record Capped (ok : Bytes → Bool) (entries : List DirEntry) (s : DiskSnapshotStore)
    (gone : List EvictCandidate) (n freed : ℕ) : Type 0 where
  pub vs : List EvictCandidate
  pub in_order : InOrder s.spine_pin vs
  pub all_there :
      (g : Bytes → ℕ → ℕ → ℕ)
      → weigh (λ f. g f.path f.size f.mtime) vs
        ≡ weigh (λ f. g f.path f.size f.mtime) (candidates entries)
  pub removes : Removes ok s.max_bytes (sizes (candidates entries)) vs gone
  pub counted : n ≡ length gone
  pub summed : freed ≡ sizes gone
