-- ===== src/Tokenizer/Load.antt =====
-- The constructor of `Tokenizer`: reads a .tok file and checks it. The file's bytes are given.
pub mod Format
pub mod ReadsBack
pub mod Accepts
use q.Prelude.{
  ℕ, zero, suc, ◌+◌, ◌*◌, ◌/◌, Bool, true, false, not, ◌&&◌, ◌||◌, Option, none, some, List, [],
  ◌∷◌, ◌++◌, ltb, leb, ◌==◌, if◌then◌else◌, Bytes, codes, length, take, drop, get_or, is_empty,
}
use q.Tokenizer.Bpe.{Tables, place, int_max}

-- The texts of the `runtime_error`s.
pub data TokError : Type 0 where
  truncated bad_magic bad_version bad_count bad_special bad_merges empty_merge : TokError
  duplicate_merge trailing duplicate_token empty_control : TokError

pub data Result (A : Type 0) : Type 0 where
  ok : A → Result A
  throws : TokError → Result A

-- A `TokReader` is what is left of the file; a read gives its value and the rest.
abbrev pub Reader : Type 0 → Type 0
Reader A = Bytes → Result (A × Bytes)

infixl 5 ◌>>=◌
abbrev pub ◌>>=◌ : {A B : Type 0} → Result A → (A → Result B) → Result B
ok a >>= f = f a
throws e >>= f = throws e

-- `if (bad) throw`
abbrev pub refuse : Bool → TokError → Result (Unit {0})
refuse true e = throws e
refuse false e = ok tt

unfoldable pub read_bytes : ℕ → Reader Bytes
read_bytes n left =
    if ltb (length left) n then throws TokError.truncated else ok (take n left, drop n left)

-- A little-endian number.
unfoldable pub from_le : Bytes → ℕ
from_le [] = 0
from_le (b ∷ s) = b + 256 * from_le s

unfoldable pub read_uint : ℕ → Reader ℕ
unfolding read_bytes from_le
read_uint size left = read_bytes size left >>= λ (s, left'). ok (from_le s, left')

unfoldable pub lp : Reader Bytes
unfolding read_uint read_bytes
lp left = read_uint 2 left >>= λ (n, left'). read_bytes n left'

unfoldable pub read_tokens : ℕ → Reader (List Bytes)
unfolding lp
read_tokens zero left = ok ([], left)
read_tokens (suc n) left =
    lp left >>= λ (t, left'). read_tokens n left' >>= λ (ts, rest). ok (t ∷ ts, rest)

-- A key is in a map that was filled with the listed keys.
abbrev pub is_some : Option ℕ → Bool
is_some none = false
is_some (some i) = true

-- The merges, with those before them.
unfoldable pub read_merges : ℕ → List Bytes → Reader (List Bytes)
unfolding lp place
read_merges zero seen left = ok (seen, left)
read_merges (suc n) seen left = lp left >>= λ (m, left').
    refuse (is_empty m) TokError.empty_merge >>= λ _.
    refuse (is_some (place m seen)) TokError.duplicate_merge >>= λ _.
    read_merges n (seen ++ m ∷ []) left'

-- The loop that fills `tok2id`, with the tokens before and those to come.
unfoldable pub check_tokens : List Bytes → List Bytes → List ℕ → Result (Unit {0})
unfolding place
check_tokens seen [] types = ok tt
check_tokens seen (t ∷ ts) types = refuse (is_some (place t seen)) TokError.duplicate_token >>= λ _.
    refuse (get_or types (length seen) 0 == 3 && is_empty t) TokError.empty_control >>= λ _.
    check_tokens (seen ++ t ∷ []) ts types

unfoldable pub controls : ℕ → List Bytes → List ℕ → List (Bytes × ℕ)
controls i [] types = []
controls i (t ∷ ts) types =
    let later = controls (suc i) ts types in if get_or types i 0 == 3 then (t, i) ∷ later else later

-- `<think>` and `</think>`, where they are tokens and no controls.
abbrev pub added : Bytes → Option ℕ → List ℕ → List (Bytes × ℕ)
added s none types = []
added s (some i) types = if get_or types i 0 == 3 then [] else (s, i) ∷ []

-- `std::sort`, longest first; the order of those of one size is left open by it.
unfoldable pub insert_longest : Bytes × ℕ → List (Bytes × ℕ) → List (Bytes × ℕ)
insert_longest s [] = s ∷ []
insert_longest s (t ∷ ts) =
    let later = insert_longest s ts in
    if ltb (length s.0) (length t.0) then t ∷ later else s ∷ (t ∷ ts)

unfoldable pub longest_first : List (Bytes × ℕ) → List (Bytes × ℕ)
unfolding insert_longest
longest_first [] = []
longest_first (s ∷ ss) = insert_longest s (longest_first ss)

unfoldable pub special_list : List Bytes → List ℕ → List (Bytes × ℕ)
unfolding controls longest_first place
special_list tokens types = longest_first (
    controls 0 tokens types
    ++ (added (codes "<think>") (place (codes "<think>") tokens) types
        ++ added (codes "</think>") (place (codes "</think>") tokens) types))

-- `bos_` and `eos_`, and the tables.
pub record Loaded : Type 0 where
  pub bos : ℕ
  pub eos : ℕ
  pub tables : Tables

abbrev pub max_tokens : ℕ
max_tokens = 4194304

abbrev pub max_merges : ℕ
max_merges = 16777216

abbrev pub magic_word : ℕ
magic_word = 0x54373251

-- The part behind the token count.
unfoldable pub load_tables : ℕ → ℕ → ℕ → Bytes → Result Loaded
unfolding read_tokens read_bytes read_uint read_merges check_tokens special_list
load_tables n bos eos left = read_tokens n left >>= λ (tokens, left).
    read_bytes n left >>= λ (types, left). read_uint 4 left >>= λ (nm, left).
    refuse (ltb max_merges nm || ltb int_max nm || ltb (length left / 2) nm) TokError.bad_merges
    >>= λ _. read_merges nm [] left >>= λ (merges, left).
        refuse (not (is_empty left)) TokError.trailing >>= λ _.
        check_tokens [] tokens types >>= λ _. ok (record {
          bos = bos;
          eos = eos;
          tables = record {
            tokens = tokens;
            types = types;
            merges = merges;
            specials = special_list tokens types;
          };
        })

unfoldable pub load : Bytes → Result Loaded
unfolding read_uint load_tables
load file = read_uint 4 file >>= λ (magic, left). read_uint 4 left >>= λ (ver, left).
    read_uint 4 left >>= λ (n, left). read_uint 4 left >>= λ (bos, left).
    read_uint 4 left >>= λ (eos, left).
    refuse (not (magic == magic_word)) TokError.bad_magic >>= λ _.
    refuse (not (ver == 1)) TokError.bad_version >>= λ _.
    refuse (n == 0 || ltb max_tokens n || ltb int_max n || ltb (length left / 3) n)
      TokError.bad_count
    >>= λ _.
        refuse (leb n bos || leb n eos) TokError.bad_special >>= λ _. load_tables n bos eos left
