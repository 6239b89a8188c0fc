-- ===== src/Snapshots/Eviction.antt =====
-- `evict_past_budget` of the snapshot store.
pub mod Victims
pub mod Cap
use q.Prelude.{
  ℕ, suc, ◌+◌, ◌-◌, Bool, ◌&&◌, ◌||◌, not, Option, none, some, List, [], ◌∷◌, ◌++◌, Bytes, leb,
  if◌then◌else◌, ◌==◌, is_empty, true, false, bytes_eq,
}
use q.Evict.{EvictCandidate, Tokens, mark_spine, eviction_order}
use q.Snapshots.{SnapPeekInfo, DirEntry, Infos, DiskSnapshotStore, enabled, set_key}

-- The loop of the eviction: the store, the total that is left, the numbers that are returned, and the
-- files that were removed from the directory.
pub record Evicting : Type 0 where
  pub store : DiskSnapshotStore
  pub total : ℕ
  pub n : ℕ
  pub freed : ℕ
  pub gone : List EvictCandidate

unfoldable pub forget : EvictCandidate → DiskSnapshotStore → DiskSnapshotStore
unfolding set_key
forget f s = record s {
  tokens = set_key f.path none s.tokens;
  meta = set_key f.path none s.meta;
  evicted_spine = (if f.spine then suc s.evicted_spine else s.evicted_spine);
  evicted_leaf = (if f.spine then s.evicted_leaf else suc s.evicted_leaf);
}

abbrev pub removed : EvictCandidate → Evicting → Evicting
removed f a = record {
  store = forget f a.store;
  total = a.total - f.size;
  n = suc a.n;
  freed = a.freed + f.size;
  gone = a.gone ++ f ∷ [];
}

-- The break is a round that changes nothing, since the total stays within the budget from there on.
unfoldable pub evict_one : (Bytes → Bool) → EvictCandidate → Evicting → Evicting
unfolding forget
evict_one remove_ok f a =
    if leb a.total a.store.max_bytes then a else if remove_ok f.path then removed f a else a

unfoldable pub remove_loop : (Bytes → Bool) → List EvictCandidate → Evicting → Evicting
unfolding evict_one
remove_loop remove_ok [] a = a
remove_loop remove_ok (f ∷ fs) a = remove_loop remove_ok fs (evict_one remove_ok f a)

unfoldable pub candidates : List DirEntry → List EvictCandidate
candidates [] = []
candidates (e ∷ es) =
    let rest = candidates es in
    if e.is_regular_file && e.is_snap
    then record { path = e.path; size = e.size; mtime = e.mtime; spine = false } ∷ rest
    else rest

abbrev pub sizes : List EvictCandidate → ℕ
sizes [] = 0
sizes (f ∷ fs) = f.size + sizes fs

abbrev pub peeked_tokens : Bytes → Option SnapPeekInfo → Tokens → Tokens
peeked_tokens p none m = m
peeked_tokens p (some info) m = set_key p (some info.tokens) m

abbrev pub or_peek : Infos → Bytes → Option (List ℕ) → Tokens → Tokens
or_peek peek p none m = peeked_tokens p (peek p) m
or_peek peek p (some old) m = m

-- The token ids that are not known yet are read.
unfoldable pub read_tokens : Infos → List EvictCandidate → Tokens → Tokens
unfolding set_key
read_tokens peek [] m = m
read_tokens peek (f ∷ fs) m = read_tokens peek fs (or_peek peek f.path (m f.path) m)

-- The files in the order in which they would go, and the known tokens.
unfoldable pub victims : Infos → List DirEntry → DiskSnapshotStore → List EvictCandidate × Tokens
unfolding candidates read_tokens
victims peek entries s =
    let files = candidates entries in
    if s.spine_pin
    then (let m = read_tokens peek files s.tokens in (eviction_order (mark_spine files m) true, m))
    else (eviction_order files false, s.tokens)

-- The store, the files that are removed, and the pair that is returned.
unfoldable pub evict_past_budget :
    Infos
    → (Bytes → Bool)
    → List DirEntry
    → DiskSnapshotStore
    → DiskSnapshotStore × List EvictCandidate × (ℕ × ℕ)
unfolding victims remove_loop
evict_past_budget peek remove_ok entries s =
    let v = victims peek entries s in
    let a = remove_loop remove_ok v.0 (record {
      store = record s { tokens = v.1 };
      total = sizes (candidates entries);
      n = 0;
      freed = 0;
      gone = [];
    }) in
    if not (enabled s) || s.max_bytes == 0
    then (s, [], (0, 0))
    else (a.store, a.gone, (a.n, a.freed))
