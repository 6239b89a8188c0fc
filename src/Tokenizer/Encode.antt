-- ===== src/Tokenizer/Encode.antt =====
-- `Tokenizer::encode`, and the chat prompts that are put together for it.
pub mod Visible
use q.Prelude.{
  ℕ, zero, suc, ◌+◌, Bool, true, false, Option, none, some, List, [], ◌∷◌, ◌++◌, ltb, if◌then◌else◌,
  Bytes, codes, bytes_eq, starts_with, find, length, take, drop, map,
}
use q.StripCtrl.{strip_ctrl}
use q.Tokenizer.Bpe.{Tables, bpe_word, place}
use q.Tokenizer.Pretok.{pretokenize}

-- The first special token that the rest begins with: its id and its size.
unfoldable pub match_special : List (Bytes × ℕ) → Bytes → Option (ℕ × ℕ)
match_special [] rest = none
match_special ((s, id) ∷ specials) rest =
    let later = match_special specials rest in
    if starts_with s rest then some (id, length s) else later

-- `if (p != npos && p < next) next = p`
abbrev pub earlier : Option ℕ → Option ℕ → Option ℕ
earlier none next = next
earlier (some p) none = some p
earlier (some p) (some q) = if ltb p q then some p else some q

unfoldable pub next_special : List (Bytes × ℕ) → Bytes → Option ℕ → Option ℕ
next_special [] rest next = next
next_special ((s, id) ∷ specials) rest next =
    next_special specials rest (earlier (find s rest) next)

abbrev pub span_end : Option ℕ → Bytes → ℕ
span_end none rest = length rest
span_end (some p) rest = p

unfoldable pub bpe_words : Tables → List Bytes → List ℕ
bpe_words tb [] = []
bpe_words tb (w ∷ ws) = bpe_word tb w ++ bpe_words tb ws

-- One round, with the loop for the rest.
abbrev pub encode_round : Tables → Option (ℕ × ℕ) → Bytes → (Bytes → List ℕ) → List ℕ
encode_round tb (some (id, size)) rest next = id ∷ next (drop size rest)
encode_round tb none rest next =
    let end = span_end (next_special tb.specials rest none) rest in
    bpe_words tb (pretokenize (take end rest)) ++ next (drop end rest)

unfoldable pub encode_loop : Tables → ℕ → Bytes → List ℕ
unfolding match_special next_special bpe_words
encode_loop tb zero rest = []
encode_loop tb (suc fuel) [] = []
encode_loop tb (suc fuel) (c ∷ rest) =
    encode_round tb (match_special tb.specials (c ∷ rest)) (c ∷ rest) (λ r. encode_loop tb fuel r)

unfoldable pub encode : Tables → Bytes → List ℕ
unfolding encode_loop
encode tb text = encode_loop tb (length text) text

-- `"<|im_start|>" + strip(role) + "\n" + strip(content) + "<|im_end|>\n"`
abbrev pub chat_turn : Bytes × Bytes → Bytes
chat_turn (role, content) =
    codes "<|im_start|>"
    ++ (strip_ctrl role ++ (codes "\n" ++ (strip_ctrl content ++ codes "<|im_end|>\n")))

unfoldable pub chat_text : List (Bytes × Bytes) → Bytes
chat_text [] = []
chat_text (m ∷ ms) = chat_turn m ++ chat_text ms

unfoldable pub apply_chat_prefix : Tables → List (Bytes × Bytes) → List ℕ
unfolding chat_text encode
apply_chat_prefix tb messages = encode tb (chat_text messages)

-- `token_id`, where `none` is -1
unfoldable pub token_id : Tables → Bytes → Option ℕ
unfolding place
token_id tb s = place s tb.tokens

-- The empty reasoning block that is put behind the opened turn.
abbrev pub no_think : Tables → Option ℕ → Option ℕ → List ℕ
no_think tb (some t1) (some t2) = t1 ∷ (encode tb (codes "\n\n") ++ t2 ∷ encode tb (codes "\n\n"))
no_think tb (some t1) none = encode tb (codes "<think>\n\n</think>\n\n")
no_think tb none t2 = encode tb (codes "<think>\n\n</think>\n\n")

unfoldable pub apply_chat_template : Tables → List (Bytes × Bytes) → Bool → List ℕ
unfolding chat_text encode token_id
apply_chat_template tb messages think =
    encode tb (chat_text messages ++ codes "<|im_start|>assistant\n")
    ++ (if think
        then []
        else no_think tb (token_id tb (codes "<think>")) (token_id tb (codes "</think>")))
