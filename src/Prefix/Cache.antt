-- ===== src/Prefix/Cache.antt =====
-- `PrefixCache`: its state and its queries.
use q.Prelude.{
  ℕ, ◌+◌, Bool, false, ◌&&◌, ◌||◌, not, Option, none, some, List, [], ◌∷◌, Bytes, bytes_eq, length,
  take, leb, ltb, if◌then◌else◌, ◌==◌, is_empty,
}
use q.Prefix.Keys.{prefix_key}
use q.Prefix.Files.{PfxHdr, pfx_magic, pfx_version, Dir, File, lookup, read_tokens}

pub record PrefixCacheCfg : Type 0 where
  pub root : Bytes
  pub max_bytes : ℕ
  pub min_tokens : ℕ
  pub max_tokens : ℕ
  pub step_tokens : ℕ

pub record Entry : Type 0 where
  pub path : Bytes
  pub len : ℕ
  pub key : ℕ
  pub bytes : ℕ
  pub mtime : ℕ

pub record PrefixCache : Type 0 where
  pub cfg : PrefixCacheCfg
  pub compat : ℕ
  pub enabled : Bool
  pub index : List Entry

-- `bytes()`
abbrev pub bytes_of : List Entry → ℕ
bytes_of [] = 0
bytes_of (e ∷ es) = e.bytes + bytes_of es

-- `std::sort` by the length, the longest first.
unfoldable pub insert_longest : Entry → List Entry → List Entry
insert_longest e [] = e ∷ []
insert_longest e (f ∷ fs) =
    let rest = insert_longest e fs in if ltb e.len f.len then f ∷ rest else e ∷ (f ∷ fs)

unfoldable pub sort_longest : List Entry → List Entry
unfolding insert_longest
sort_longest [] = []
sort_longest (e ∷ es) = insert_longest e (sort_longest es)

-- `verify`: the stored tokens are read back and compared.
unfoldable pub verify_file : Option File → Entry → List ℕ → Bool
unfolding read_tokens
verify_file none e prompt = false
verify_file (some f) e prompt = elim (read_tokens f e.len) [
  | none ↦ false
  | some toks ↦ bytes_eq toks (take e.len prompt)
]

unfoldable pub verify : Dir → Entry → List ℕ → Bool
unfolding verify_file lookup
verify d e prompt = verify_file (lookup e.path d) e prompt

-- The tests of one candidate, each a `continue` where it fails.
unfoldable pub candidate : PrefixCache → Dir → List ℕ → Entry → Bool
unfolding verify prefix_key
candidate c d prompt e =
    not (ltb e.len c.cfg.min_tokens)
    && (not (ltb (length prompt) (e.len + 1))
        && ((prefix_key prompt e.len == e.key) && verify d e prompt))

unfoldable pub first_candidate : PrefixCache → Dir → List ℕ → List Entry → Option Entry
unfolding candidate
first_candidate c d prompt [] = none
first_candidate c d prompt (e ∷ es) =
    let rest = first_candidate c d prompt es in if candidate c d prompt e then some e else rest

unfoldable pub find : PrefixCache → Dir → List ℕ → Option Entry
unfolding first_candidate sort_longest
find c d prompt =
    if not c.enabled || is_empty prompt
    then none
    else first_candidate c d prompt (sort_longest c.index)

unfoldable pub any_entry : ℕ → ℕ → List Entry → Bool
any_entry len key [] = false
any_entry len key (e ∷ es) = (e.len == len && e.key == key) || any_entry len key es

unfoldable pub has : PrefixCache → List ℕ → ℕ → Bool
unfolding any_entry prefix_key
has c toks len =
    if not c.enabled || (leb len 0 || ltb (length toks) len)
    then false
    else any_entry len (prefix_key toks len) c.index

-- The header test of a read.
abbrev pub header_fits : PrefixCache → ℕ → PfxHdr → Bool
header_fits c len h =
    h.magic == pfx_magic && (h.version == pfx_version && (h.compat == c.compat && h.len == len))

-- `read_state`: the bytes that are copied out, or false.
unfoldable pub read_state_file : PrefixCache → Entry → ℕ → Option PfxHdr → File → Option Bytes
read_state_file c e n none f = none
read_state_file c e n (some h) f =
    if header_fits c e.len h && (h.gdn_bytes + h.kv_bytes == n && leb n (length f.state))
    then some (take n f.state)
    else none

unfoldable pub read_state : PrefixCache → Dir → Entry → ℕ → Option Bytes
unfolding read_state_file lookup
read_state c d e n = elim (lookup e.path d) [
  | none ↦ none
  | some f ↦ read_state_file c e n f.header f
]
