-- ===== src/Tokenizer/Tests.antt =====
-- A vocabulary with a token for each byte, one merge and one control token.
use q.Prelude.{
  subst, ℕ, zero, suc, ◌<◌, ◌≤◌, Bool, true, false, not, ◌||◌, Option, none, some, List, [], ◌∷◌,
  ◌++◌, ◌≡◌, refl, sym, ap, ◌∙◌, arith, map, Bytes, codes, bytes_eq, starts_with, find, length,
  length-append, get_or, replicate, leb, ◌==◌,
}
use q.Tokenizer.Bytemap.{b2u}
use q.Tokenizer.Bytemap.Inverse.{all_below, all_below-elim}
use q.Tokenizer.Pretok.{pretokenize}
use q.Tokenizer.Pretok.Pieces.{Cut, pretokenize-Cut}
use q.Tokenizer.Bpe.{Tables, place, tok2id, merge_rank, merge_loop, bpe_word, decode}
use q.Tokenizer.Bpe.Merges.{Formed, of_byte, of_merge}
use q.Tokenizer.Bpe.Greedy.{Greedy, merge_loop-Greedy}
use q.Tokenizer.Bpe.Decodes.{Covers, ids, place-get}
use q.Tokenizer.Encode.{encode, match_special}
use q.Tokenizer.Load.{TokError, ok, throws, load}
use q.Tokenizer.Load.Format.{Vocab, export_tok, IsValid}
use q.Tokenizer.Load.ReadsBack.{tables_of, load-export_tok}
use q.Tokenizer.Load.Accepts.{Accepts, load-Accepts}
use q.Tokenizer.Encode.Visible.{visible, NoEmpty, decode-encode}

abbrev count_up : ℕ → ℕ → List ℕ
count_up zero k = []
count_up (suc n) k = k ∷ count_up n (suc k)

unfoldable small_vocab : Tables
unfolding b2u
small_vocab = record {
  tokens = map b2u (count_up 256 0) ++ (codes "ab" ∷ (codes "<s>" ∷ []));
  types = replicate 257 1 ++ (3 ∷ []);
  merges = codes "a b" ∷ [];
  specials = (codes "<s>", 257) ∷ [];
}

abbrev is_at : Option ℕ → ℕ → Bool
is_at none b = false
is_at (some i) b = i == b

bytes_listed : all_below 256 (λ b. is_at (tok2id small_vocab (b2u b)) b) ≡ true
unfolding all_below tok2id small_vocab bytes_eq
bytes_listed = refl

control_last : all_below 258 (λ i. not (get_or small_vocab.types i 0 == 3) || i == 257) ≡ true
unfolding all_below small_vocab
control_last = refl

images_short : all_below 256 (λ b. leb (length (b2u b)) 2) ≡ true
unfolding all_below b2u
images_short = refl

vocab_size : length small_vocab.tokens ≡ 258
unfolding small_vocab
vocab_size = refl

last_token : get_or small_vocab.tokens 257 [] ≡ codes "<s>"
unfolding small_vocab
last_token = refl

the_merge :
    (l r : Bytes) (k : ℕ)
    → merge_rank small_vocab l r ≡ some k
    → (k < 1) × (get_or (codes "a b" ∷ []) k [] ≡ l ++ 32 ∷ r)
unfolding merge_rank small_vocab
the_merge l r k ranked = place-get (l ++ 32 ∷ r) (codes "a b" ∷ []) k ranked

token_at :
    (p : Bytes) (i : ℕ)
    → tok2id small_vocab p ≡ some i
    → (i < length small_vocab.tokens) × (get_or small_vocab.tokens i [] ≡ p)
unfolding tok2id
token_at p i e = place-get p small_vocab.tokens i e

Formed-short : (p : Bytes) → Formed small_vocab p → length p ≤ 2
Formed-short p (of_byte b lt e) =
    let short = all_below-elim 256 (λ a. leb (length (b2u a)) 2) b images_short lt in
    let same = ap length e in ground (arith, short)
Formed-short p (of_merge l r k ranked e) =
    let (lt, at) = the_merge l r k ranked in
    let first : k ≡ 0 = omega arith in
    let whole : codes "a b" ≡ l ++ 32 ∷ r =
      subst (λ i. get_or (codes "a b" ∷ []) i [] ≡ l ++ 32 ∷ r) first at in
    omega (arith, ap length whole, ap length e, length-append l (32 ∷ r), length-append l r)

small_vocab-Covers : Covers small_vocab
small_vocab-Covers = record {
  byte_token = λ b lt. (
    b,
    is_at-eq (tok2id small_vocab (b2u b)) b
        (all_below-elim 256 (λ a. is_at (tok2id small_vocab (b2u a)) a) b bytes_listed lt),
  );
  no_control = λ p i f e control.
      let (lt, at) = token_at p i e in
      let size = vocab_size in
      let check =
        all_below-elim 258 (λ j. not (get_or small_vocab.types j 0 == 3) || j == 257) i control_last
          (omega (arith, lt, size)) in
      let last : i ≡ 257 = ground (arith, check, control) in
      let same : codes "<s>" ≡ p =
        sym last_token ∙ subst (λ j. get_or small_vocab.tokens j [] ≡ p) last at in
      omega (arith, ap length same, Formed-short p f);
}
  where
    is_at-eq : (o : Option ℕ) (b : ℕ) → is_at o b ≡ true → o ≡ some b
    is_at-eq none b h = absurd (ground arith)
    is_at-eq (some i) b h = ground arith

small_vocab-NoEmpty : NoEmpty small_vocab.specials
unfolding small_vocab
small_vocab-NoEmpty = (λ e. absurd (omega (arith, ap length e)), tt)

encode_run : encode small_vocab (codes "ab<s>c") ≡ 256 ∷ 257 ∷ 99 ∷ []
unfolding encode small_vocab tok2id merge_rank place bpe_word merge_loop pretokenize starts_with
    find bytes_eq
encode_run = refl

decode-encode_example :
    decode small_vocab (ids (encode small_vocab (codes "ab<s> c")))
    ≡ visible small_vocab 0 (codes "ab<s> c")
decode-encode_example =
    decode-encode small_vocab (codes "ab<s> c") small_vocab-Covers small_vocab-NoEmpty (omega arith)

visible_run : visible small_vocab 0 (codes "ab<s> c") ≡ codes "ab c"
unfolding visible small_vocab decode starts_with match_special
visible_run = refl

pretokenize-Cut_example : Cut (codes "I'll go  1st\n") (pretokenize (codes "I'll go  1st\n"))
pretokenize-Cut_example = pretokenize-Cut (codes "I'll go  1st\n")

pretokenize_run :
    pretokenize (codes "I'll go  12\n")
    ≡ codes "I"
      ∷ codes "'ll"
      ∷ codes " go"
      ∷ codes " "
      ∷ codes " "
      ∷ codes "1"
      ∷ codes "2"
      ∷ codes "\n"
      ∷ []
unfolding pretokenize
pretokenize_run = refl

merge_loop-Greedy_example :
    Greedy small_vocab
      (codes "a" ∷ codes "b" ∷ codes "c" ∷ [])
      (merge_loop small_vocab 3 (codes "a" ∷ codes "b" ∷ codes "c" ∷ []))
merge_loop-Greedy_example =
    merge_loop-Greedy small_vocab 3 (codes "a" ∷ codes "b" ∷ codes "c" ∷ []) (omega arith)

abbrev tiny_vocab : Vocab
tiny_vocab = record {
  tokens = codes "a" ∷ codes "b" ∷ codes "ab" ∷ codes "<s>" ∷ [];
  types = 1 ∷ 1 ∷ 1 ∷ 3 ∷ [];
  merges = codes "a b" ∷ [];
  bos = 3;
  eos = 0;
}

tiny_vocab-IsValid : IsValid tiny_vocab
tiny_vocab-IsValid = record {
  some_token = omega arith;
  few_tokens = omega arith;
  few_merges = omega arith;
  all_typed = refl;
  bos_in = omega arith;
  eos_in = omega arith;
  short_tokens = omega arith;
  short_merges = omega arith;
  apart_tokens = ground arith;
  apart_merges = ground arith;
  merges_full = ground arith;
  controls_full = ground arith;
}

load-export_tok_example :
    load (export_tok tiny_vocab) ≡ ok (record { bos = 3; eos = 0; tables = tables_of tiny_vocab })
load-export_tok_example = load-export_tok tiny_vocab tiny_vocab-IsValid

load-Accepts_example : Accepts (record { bos = 3; eos = 0; tables = tables_of tiny_vocab })
load-Accepts_example =
    load-Accepts (export_tok tiny_vocab)
      (record { bos = 3; eos = 0; tables = tables_of tiny_vocab }) load-export_tok_example

bad_magic_run : load (1 ∷ 2 ∷ 3 ∷ 4 ∷ replicate 16 0) ≡ throws TokError.bad_magic
unfolding load
bad_magic_run = refl

truncated_run : load (1 ∷ 2 ∷ 3 ∷ []) ≡ throws TokError.truncated
unfolding load
truncated_run = refl
