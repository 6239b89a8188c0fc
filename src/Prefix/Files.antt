-- ===== src/Prefix/Files.antt =====
-- The files of the cache's directory. A file is what the program reads of it: the header, if there
-- are 64 bytes, the tokens that follow it, and the state behind them, with its size and time. The
-- directory is the list of its files by path; the operating system keeps each path once.
use q.Prelude.{
  ℕ, Option, none, some, List, [], ◌∷◌, ◌++◌, Bytes, bytes_eq, length, take, leb, if◌then◌else◌,
}

-- The fields of `PfxHdr` that are read.
pub record PfxHdr : Type 0 where
  pub magic : ℕ
  pub version : ℕ
  pub compat : ℕ
  pub tok_hash : ℕ
  pub len : ℕ
  pub gdn_bytes : ℕ
  pub kv_bytes : ℕ

abbrev pub pfx_magic : ℕ
pfx_magic = 0x50373251

abbrev pub pfx_version : ℕ
pfx_version = 1

-- `sizeof(PfxHdr)`
abbrev pub header_size : ℕ
header_size = 64

pub record File : Type 0 where
  pub header : Option PfxHdr
  pub tokens : List ℕ
  pub state : Bytes
  pub size : ℕ
  pub mtime : ℕ

abbrev pub Dir : Type 0
Dir = List (Bytes × File)

-- `open` for reading
unfoldable pub lookup : Bytes → Dir → Option File
lookup p [] = none
lookup p ((q, f) ∷ d) = if bytes_eq q p then some f else lookup p d

unfoldable pub unlink : Bytes → Dir → Dir
unlink p [] = []
unlink p ((q, f) ∷ d) = let rest = unlink p d in if bytes_eq q p then rest else (q, f) ∷ rest

-- A whole file is put in the place of the path, as `rename` does with a written one.
unfoldable pub replace : Bytes → File → Dir → Dir
unfolding unlink
replace p f d = unlink p d ++ (p, f) ∷ []

-- `read_full` of `n` tokens behind the header.
unfoldable pub read_tokens : File → ℕ → Option (List ℕ)
read_tokens f n = if leb n (length f.tokens) then some (take n f.tokens) else none
