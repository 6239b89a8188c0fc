-- ===== src/Prefix/Store.antt =====
-- `PrefixCache`: what changes its index and its files. The outcomes of the system calls and the time
-- are arguments; `unlink` succeeds.
use q.Prelude.{
  ℕ, ◌+◌, ◌-◌, ◌*◌, Bool, true, false, ◌&&◌, ◌||◌, not, Option, none, some, List, [], ◌∷◌, ◌++◌,
  Bytes, codes, bytes_eq, length, take, drop, leb, ltb, if◌then◌else◌, ◌==◌, is_empty,
}
use q.Prefix.Keys.{prefix_key, entry_name, suffix, ends_with}
use q.Prefix.Files.{PfxHdr, pfx_magic, pfx_version, header_size, Dir, File, unlink, replace}
use q.Prefix.Cache.{PrefixCacheCfg, Entry, PrefixCache, bytes_of}

-- `std::sort` by the time, the oldest first.
unfoldable pub insert_oldest : Entry → List Entry → List Entry
insert_oldest e [] = e ∷ []
insert_oldest e (f ∷ fs) =
    let rest = insert_oldest e fs in if ltb f.mtime e.mtime then f ∷ rest else e ∷ (f ∷ fs)

unfoldable pub sort_oldest : List Entry → List Entry
unfolding insert_oldest
sort_oldest [] = []
sort_oldest (e ∷ es) = insert_oldest e (sort_oldest es)

-- The loop: the entries that are kept, and the doomed ones.
unfoldable pub evict_loop : ℕ → ℕ → List Entry → List Entry × List Entry
evict_loop sum cap [] = ([], [])
evict_loop sum cap (e ∷ es) =
    let rest = evict_loop (sum - e.bytes) cap es in
    if ltb cap sum then (rest.0, e ∷ rest.1) else (e ∷ es, [])

unfoldable pub unlink_all : List Entry → Dir → Dir
unfolding unlink
unlink_all [] d = d
unlink_all (e ∷ es) d = unlink_all es (unlink e.path d)

unfoldable pub evict_to_budget : PrefixCache → Dir → PrefixCache × Dir
unfolding evict_loop sort_oldest unlink_all
evict_to_budget c d =
    if not c.enabled || leb (bytes_of c.index) c.cfg.max_bytes
    then (c, d)
    else let r = evict_loop (bytes_of c.index) c.cfg.max_bytes (sort_oldest c.index) in
      (record c { index = r.0 }, unlink_all r.1 d)

abbrev pub path_in : Bytes → Bytes → Bytes
path_in root name = root ++ (b'/' ∷ name)

-- `remove_if` of the path
unfoldable pub without_path : Bytes → List Entry → List Entry
without_path p [] = []
without_path p (e ∷ es) =
    let rest = without_path p es in if bytes_eq e.path p then rest else e ∷ rest

-- How the system calls of a write end.
pub record Outcome : Type 0 where
  pub open_ok : Bool
  pub writes_ok : Bool
  pub rename_ok : Bool
  pub now : ℕ

-- The file that a write that goes through leaves.
unfoldable pub entry_file : PrefixCache → List ℕ → ℕ → Bytes → Bytes → ℕ → File
unfolding prefix_key
entry_file c toks len gdn kv now = record {
  header = some (record {
    magic = pfx_magic;
    version = pfx_version;
    compat = c.compat;
    tok_hash = prefix_key toks len;
    len = len;
    gdn_bytes = length gdn;
    kv_bytes = length kv;
  });
  tokens = take len toks;
  state = gdn ++ kv;
  size = header_size + len * 4 + length gdn + length kv;
  mtime = now;
}

abbrev pub final_path : PrefixCache → List ℕ → ℕ → Bytes
final_path c toks len = path_in c.cfg.root (entry_name (prefix_key toks len) len)

abbrev pub tmp_path : PrefixCache → List ℕ → ℕ → Bytes
tmp_path c toks len = final_path c toks len ++ codes ".tmp"

abbrev pub new_entry : PrefixCache → List ℕ → ℕ → ℕ → ℕ → ℕ → Entry
new_entry c toks len gdn_n kv_n now = record {
  path = final_path c toks len;
  len = len;
  key = prefix_key toks len;
  bytes = header_size + len * 4 + gdn_n + kv_n;
  mtime = now;
}

unfoldable pub index_entry : PrefixCache → Entry → PrefixCache
unfolding without_path
index_entry c e = record c { index = without_path e.path c.index ++ e ∷ [] }

unfoldable pub write :
    PrefixCache → Dir → List ℕ → ℕ → Bytes → Bytes → Outcome → (PrefixCache × Dir) × Bool
unfolding index_entry evict_to_budget replace unlink entry_file entry_name
write c d toks len gdn kv o =
    if not c.enabled || (leb len 0 || ltb (length toks) len)
    then ((c, d), false)
    else if not o.open_ok
    then ((c, d), false)
    else if not o.writes_ok || not o.rename_ok
    then ((c, unlink (tmp_path c toks len) d), false)
    else (
      evict_to_budget (index_entry c (new_entry c toks len (length gdn) (length kv) o.now)) (
          replace (final_path c toks len) (entry_file c toks len gdn kv o.now)
            (unlink (tmp_path c toks len) d)),
      true,
    )

-- The size that the header announces.
abbrev pub announced : PfxHdr → ℕ
announced h = header_size + h.len * 4 + h.gdn_bytes + h.kv_bytes

abbrev pub well_formed : PrefixCache → PfxHdr → File → Bool
well_formed c h f =
    h.magic == pfx_magic
    && (h.version == pfx_version
        && (h.compat == c.compat && (ltb 0 h.len && f.size == announced h)))

unfoldable pub entry_of : PrefixCache → Bytes → File → Option PfxHdr → Option Entry
entry_of c p f none = none
entry_of c p f (some h) =
    if well_formed c h f
    then some (record { path = p; len = h.len; key = h.tok_hash; bytes = f.size; mtime = f.mtime })
    else none

-- The name in the directory of a path.
abbrev pub name_of : PrefixCache → Bytes → Bytes
name_of c p = drop (length c.cfg.root + 1) p

abbrev pub is_torn : Bytes → Bool
is_torn n = ltb 10 (length n) && ends_with n (codes ".q27pc.tmp")

abbrev pub is_named : Bytes → Bool
is_named n = not (ltb (length n) 7) && ends_with n suffix

abbrev pub add : Option Entry → List Entry → List Entry
add none es = es
add (some e) es = e ∷ es

-- The loop over the directory: what is found, and the files that are left.
unfoldable pub rescan_files : PrefixCache → Dir → List Entry × Dir
unfolding entry_of
rescan_files c [] = ([], [])
rescan_files c ((p, f) ∷ d) =
    let rest = rescan_files c d in
    if is_torn (name_of c p) then rest else (
      (if is_named (name_of c p) then add (entry_of c p f f.header) rest.0 else rest.0),
      (p, f) ∷ rest.1,
    )

unfoldable pub rescan : PrefixCache → Dir → Bool → PrefixCache × Dir
unfolding rescan_files
rescan c d opendir_ok =
    if opendir_ok then (let r = rescan_files c d in (record c { index = r.0 }, r.1)) else (c, d)

-- `init`; `dir_ok` is that the directory is there, as one. The prefetch only reads.
unfoldable pub init :
    PrefixCache → PrefixCacheCfg → ℕ → Bool → Bool → Dir → (PrefixCache × Dir) × Bool
unfolding rescan
init c cfg compat dir_ok opendir_ok d =
    if is_empty cfg.root || not dir_ok
    then ((record c { cfg = cfg; compat = compat }, d), false)
    else (rescan (record c { cfg = cfg; compat = compat; enabled = true }) d opendir_ok, true)
