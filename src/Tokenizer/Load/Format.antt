-- ===== src/Tokenizer/Load/Format.antt =====
-- The file format of tools/export_tokenizer.py, and that the constructor reads it back.
use q.Prelude.{
  ℕ, suc, ◌/◌, ◌%◌, ◌≤◌, ◌<◌, List, [], ◌∷◌, ◌++◌, ◌≡◌, ◌≢◌, Bytes, length, get_or, Among,
}
use q.Tokenizer.Load.{max_tokens, max_merges, magic_word}

-- `struct.pack("<H", n)` and `struct.pack("<I", n)`
abbrev pub le2 : ℕ → Bytes
le2 n = n % 256 ∷ (n / 256 ∷ [])

abbrev pub le4 : ℕ → Bytes
le4 n = n % 256 ∷ (n / 256 % 256 ∷ (n / 65536 % 256 ∷ (n / 16777216 ∷ [])))

-- Each text with its length in front of it, and the rest of the file.
unfoldable pub write_texts : List Bytes → Bytes → Bytes
write_texts [] rest = rest
write_texts (t ∷ ts) rest = le2 (length t) ++ (t ++ write_texts ts rest)

-- What the script takes from the model file.
pub record Vocab : Type 0 where
  pub tokens : List Bytes
  pub types : Bytes
  pub merges : List Bytes
  pub bos : ℕ
  pub eos : ℕ

unfoldable pub export_tok : Vocab → Bytes
unfolding write_texts
export_tok v =
    le4 magic_word
    ++ (le4 1
        ++ (le4 (length v.tokens)
            ++ (le4 v.bos
                ++ (le4 v.eos
                    ++ write_texts v.tokens
                        (v.types ++ (le4 (length v.merges) ++ write_texts v.merges []))))))

-- No text is too long for its length field.
abbrev pub Short : List Bytes → Type 0
Short [] = Unit
Short (t ∷ ts) = (length t < 65536) × Short ts

-- No text is among those before it.
abbrev pub Apart : List Bytes → List Bytes → Type 0
Apart seen [] = Unit
Apart seen (t ∷ ts) = ¬ Among t seen × Apart (seen ++ t ∷ []) ts

abbrev pub NonEmpty : List Bytes → Type 0
NonEmpty [] = Unit
NonEmpty (t ∷ ts) = (t ≢ []) × NonEmpty ts

-- No control token is the empty text.
abbrev pub Controlled : ℕ → List Bytes → Bytes → Type 0
Controlled i [] types = Unit
Controlled i (t ∷ ts) types = (get_or types i 0 ≡ 3 → t ≢ []) × Controlled (suc i) ts types

pub record IsValid (v : Vocab) : Type 0 where
  pub some_token : 0 < length v.tokens
  pub few_tokens : length v.tokens ≤ max_tokens
  pub few_merges : length v.merges ≤ max_merges
  pub all_typed : length v.types ≡ length v.tokens
  pub bos_in : v.bos < length v.tokens
  pub eos_in : v.eos < length v.tokens
  pub short_tokens : Short v.tokens
  pub short_merges : Short v.merges
  pub apart_tokens : Apart [] v.tokens
  pub apart_merges : Apart [] v.merges
  pub merges_full : NonEmpty v.merges
  pub controls_full : Controlled 0 v.tokens v.types
