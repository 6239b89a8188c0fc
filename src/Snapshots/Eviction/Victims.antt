-- ===== src/Snapshots/Eviction/Victims.antt =====
-- The victims are the snapshots of the directory, in order.
use q.Prelude.{
  ℕ, ◌+◌, Bool, true, false, List, [], ◌∷◌, ◌≡◌, refl, ap, ◌∙◌, arith, if_intro, if◌then◌else◌,
}
use q.Evict.{EvictCandidate, Tokens, mark_from, mark_spine, insert, goes_first, eviction_order}
use q.Evict.Order.{InOrder, eviction_order-InOrder}
use q.Snapshots.{DirEntry, Infos, DiskSnapshotStore}
use q.Snapshots.Eviction.{candidates, sizes, victims, read_tokens}

-- The sum of a measure over the files.
abbrev pub weigh : (EvictCandidate → ℕ) → List EvictCandidate → ℕ
weigh g [] = 0
weigh g (f ∷ fs) = g f + weigh g fs

weigh-insert :
    (g : EvictCandidate → ℕ) (pin : Bool) (f : EvictCandidate) (fs : List EvictCandidate)
    → weigh g (insert pin f fs) ≡ g f + weigh g fs
unfolding insert
weigh-insert g pin f [] = refl
weigh-insert g pin f (x ∷ xs) =
    if_intro (λ l. weigh g l ≡ g f + (g x + weigh g xs)) (goes_first pin x f)
      (λ later. omega (arith, weigh-insert g pin f xs)) (λ first. refl)

weigh-eviction_order :
    (g : EvictCandidate → ℕ) (pin : Bool) (fs : List EvictCandidate)
    → weigh g (eviction_order fs pin) ≡ weigh g fs
unfolding eviction_order
weigh-eviction_order g pin [] = refl
weigh-eviction_order g pin (f ∷ fs) =
    weigh-insert g pin f (eviction_order fs pin) ∙ ap (λ n. g f + n) (weigh-eviction_order g pin fs)

weigh-mark_from :
    (g : EvictCandidate → ℕ) (m : Tokens) (all : List EvictCandidate) (i : ℕ)
    (fs : List EvictCandidate)
    → ((f : EvictCandidate) (b : Bool) → g (record f { spine = b }) ≡ g f)
    → weigh g (mark_from m all i fs) ≡ weigh g fs
unfolding mark_from
weigh-mark_from g m all i [] same = refl
weigh-mark_from g m all i (f ∷ fs) same =
    omega (arith, same f _, weigh-mark_from g m all (i + 1) fs same)

pub weigh-victims :
    (g : EvictCandidate → ℕ) (peek : Infos) (entries : List DirEntry) (s : DiskSnapshotStore)
    → ((f : EvictCandidate) (b : Bool) → g (record f { spine = b }) ≡ g f)
    → weigh g (victims peek entries s).0 ≡ weigh g (candidates entries)
unfolding victims mark_spine
weigh-victims g peek entries s same =
    let files = candidates entries in
    let m = read_tokens peek files s.tokens in
    if_intro (λ (v : List EvictCandidate × Tokens). weigh g v.0 ≡ weigh g files) s.spine_pin
      (λ pinned.
        weigh-eviction_order g true (mark_from m files 0 files)
        ∙ weigh-mark_from g m files 0 files same)
      (λ free. weigh-eviction_order g false files)

abbrev pub size_of : EvictCandidate → ℕ
size_of f = f.size

pub sizes-weigh : (fs : List EvictCandidate) → sizes fs ≡ weigh size_of fs
sizes-weigh [] = refl
sizes-weigh (f ∷ fs) = ap (λ n. f.size + n) (sizes-weigh fs)

pub victims-InOrder :
    (peek : Infos) (entries : List DirEntry) (s : DiskSnapshotStore)
    → InOrder s.spine_pin (victims peek entries s).0
unfolding victims
victims-InOrder peek entries s =
    let files = candidates entries in
    let m = read_tokens peek files s.tokens in
    go s.spine_pin (eviction_order (mark_spine files m) true, m)
      (eviction_order files false, s.tokens) (eviction_order-InOrder (mark_spine files m) true).0
      (eviction_order-InOrder files false).0
  where
    go :
        (b : Bool) (x y : List EvictCandidate × Tokens)
        → InOrder true x.0
        → InOrder false y.0
        → let v : List EvictCandidate × Tokens = if b then x else y in InOrder b v.0
    go true x y h k = h
    go false x y h k = k
