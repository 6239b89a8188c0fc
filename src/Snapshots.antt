-- ===== src/Snapshots.antt =====
-- src/metal/disk_snapshot_store.h: the snapshots of the Metal backend on disk. What `peek_` makes of
-- a file, with `none` for its exception, the hash and the entries of the directory are arguments; the
-- maps are functions. The touch of a hit, which changes a time on disk only, and the lock are left out.
pub mod Match
pub mod Scan
pub mod Eviction
mod Tests
use q.Prelude.{
  ℕ, suc, ◌+◌, ◌-◌, Bool, ◌&&◌, ◌||◌, not, Option, none, some, List, [], ◌∷◌, ◌++◌, Bytes, codes,
  bytes_eq, length, leb, ltb, if◌then◌else◌, ◌==◌, is_empty, starts_with, false, true,
}
use q.Evict.{EvictCandidate, Tokens, mark_spine, eviction_order}

pub record SnapPeekInfo : Type 0 where
  pub position : ℕ
  pub logits_resident : Bool
  pub tokens : List ℕ

-- What the file system says of an entry; `is_snap` is that its extension is `.q27snap`.
pub record DirEntry : Type 0 where
  pub path : Bytes
  pub filename : Bytes
  pub is_regular_file : Bool
  pub is_snap : Bool
  pub size : ℕ
  pub mtime : ℕ

abbrev pub Infos : Type 0
Infos = Bytes → Option SnapPeekInfo

pub record DiskSnapshotStore : Type 0 where
  pub dir : Bytes
  pub max_bytes : ℕ
  pub tag : Bytes
  pub spine_pin : Bool
  pub tokens : Tokens
  pub meta : Infos
  pub evicted_spine : ℕ
  pub evicted_leaf : ℕ

unfoldable pub init : Bytes → ℕ → Bytes → Bool → DiskSnapshotStore → DiskSnapshotStore
init dir max_bytes tag pin s = record s {
  dir = dir;
  max_bytes = max_bytes;
  tag = tag;
  spine_pin = pin;
}

abbrev pub enabled : DiskSnapshotStore → Bool
enabled s = not (is_empty s.dir)

-- A map with another value at a key; `none` erases it.
unfoldable pub set_key : {A : Type 0} → Bytes → Option A → (Bytes → Option A) → Bytes → Option A
set_key p v m q = if bytes_eq q p then v else m q

-- The peek of a path that is not cached.
abbrev pub peeked : Infos → Bytes → Option SnapPeekInfo → Infos × Option SnapPeekInfo
peeked meta p none = (meta, none)
peeked meta p (some info) = (set_key p (some info) meta, some info)

abbrev pub cached_or : Infos → Bytes → Infos → Option SnapPeekInfo → Infos × Option SnapPeekInfo
cached_or peek p meta none = peeked meta p (peek p)
cached_or peek p meta (some info) = (meta, some info)

-- The metadata of a path, and the cache behind the lookup.
unfoldable pub info_of : Infos → Bytes → Infos → Infos × Option SnapPeekInfo
unfolding set_key
info_of peek p meta = cached_or peek p meta (meta p)

-- The tests on the metadata but for the one against the best length.
unfoldable pub resumes : List ℕ → SnapPeekInfo → Bool
unfolding starts_with
resumes prompt info =
    (info.position == length info.tokens)
    && (not (is_empty info.tokens || ltb (length prompt) (length info.tokens))
        && (not ((length info.tokens == length prompt) && not info.logits_resident)
            && starts_with info.tokens prompt))

abbrev pub consider : List ℕ → Bytes → Bytes × ℕ → Option SnapPeekInfo → Bytes × ℕ
consider prompt p best none = best
consider prompt p best (some info) =
    if not (leb (length info.tokens) best.1) && resumes prompt info
    then (p, length info.tokens)
    else best

-- The entries that a lookup looks at.
abbrev pub is_tagged : Bytes → DirEntry → Bool
is_tagged tag e = (e.is_regular_file && e.is_snap) && starts_with tag e.filename

-- A round of the loop, on the cache and the best so far.
unfoldable pub look_at :
    Infos → Bytes → List ℕ → DirEntry → Infos × (Bytes × ℕ) → Infos × (Bytes × ℕ)
unfolding info_of resumes
look_at peek tag prompt e (meta, best) =
    if is_tagged tag e
    then (let r = info_of peek e.path meta in (r.0, consider prompt e.path best r.1))
    else (meta, best)

unfoldable pub scan :
    Infos → Bytes → List ℕ → List DirEntry → Infos × (Bytes × ℕ) → Infos × (Bytes × ℕ)
unfolding look_at
scan peek tag prompt [] r = r
scan peek tag prompt (e ∷ es) r = scan peek tag prompt es (look_at peek tag prompt e r)

-- The path and the length, or false.
abbrev pub answer : DiskSnapshotStore → Infos × (Bytes × ℕ) → DiskSnapshotStore × Option (Bytes × ℕ)
answer s (meta, best) = (record s { meta = meta }, if is_empty best.0 then none else some best)

unfoldable pub best_match :
    Infos → List DirEntry → List ℕ → DiskSnapshotStore → DiskSnapshotStore × Option (Bytes × ℕ)
unfolding scan
best_match peek entries prompt s =
    if enabled s then answer s (scan peek s.tag prompt entries (s.meta, ([], 0))) else (s, none)

abbrev pub key_path : (List ℕ → Bytes) → List ℕ → DiskSnapshotStore → Bytes
key_path hash tokens s = s.dir ++ (b'/' ∷ (s.tag ++ (hash tokens ++ codes ".q27snap")))

abbrev pub register : Bytes → List ℕ → Option (List ℕ) → Tokens → Tokens
register p tokens none m = set_key p (some tokens) m
register p tokens (some old) m = m

unfoldable pub path_for : (List ℕ → Bytes) → List ℕ → DiskSnapshotStore → DiskSnapshotStore × Bytes
unfolding set_key
path_for hash tokens s =
    let p = key_path hash tokens s in
    (record s { tokens = register p tokens (s.tokens p) s.tokens }, p)

abbrev pub is_exact : List ℕ → Option SnapPeekInfo → Bool
is_exact tokens none = false
is_exact tokens (some info) =
    info.logits_resident
    && ((info.position == length tokens)
        && ((length info.tokens == length tokens) && bytes_eq info.tokens tokens))

-- `is_file` is what the file system says of the path.
unfoldable pub exact_resident :
    Infos
    → (Bytes → Bool)
    → (List ℕ → Bytes)
    → List ℕ
    → DiskSnapshotStore
    → DiskSnapshotStore × Bool
unfolding info_of
exact_resident peek is_file hash tokens s =
    let p = key_path hash tokens s in
    if (not (enabled s) || is_empty tokens) || not (is_file p)
    then (s, false)
    else (let r = info_of peek p s.meta in (record s { meta = r.0 }, is_exact tokens r.1))

-- The file is removed, too.
unfoldable pub reject : Bytes → DiskSnapshotStore → DiskSnapshotStore
unfolding set_key
reject p s = record s { meta = set_key p none s.meta; tokens = set_key p none s.tokens }

unfoldable pub published : Bytes → DiskSnapshotStore → DiskSnapshotStore
unfolding set_key
published p s = record s { meta = set_key p none s.meta }
