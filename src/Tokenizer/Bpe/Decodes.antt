-- ===== src/Tokenizer/Bpe/Decodes.antt =====
-- The tokens of a word decode to it.
use q.Prelude.{
  ℕ, zero, suc, ◌≤◌, ◌<◌, Bool, true, false, Option, none, some, List, [], ◌∷◌, ◌++◌, ◌≡◌, ◌≢◌, inl,
  inr, refl, sym, ap, ap₂, ◌∙◌, arith, map, Bytes, bytes_eq, bytes_eq_iff, length, length-drop,
  take, drop, take-append-drop, get_or, leb, ltb, ◌==◌, if◌then◌else◌, append_assoc, append-nil,
  Bool-cases, ℤ, pos, subst, Option-cases,
}
use q.Tokenizer.Bytemap.{b2u, utf8_chars}
use q.Tokenizer.Bytemap.Inverse.{AllBytes, AllBytes-take, AllBytes-drop, u2b-b2u, utf8_chars-b2u}
use q.Tokenizer.Bpe.{
  Tables, place, later_place, tok2id, push_id, emit_chars, emit_part, emit_parts, bpe_short,
  bpe_chunks, bpe_word, word_cap, push_byte, decode_chars, decode_one, decode, merge_loop,
}
use q.Tokenizer.Bpe.Merges.{
  Formed, of_byte, image, Represents, b2u-Represents, merge_loop-Represents,
}

-- What the vocabulary file has to give: a token for each byte, and no control token that the
-- merges can make.
pub record Covers (tb : Tables) : Type 0 where
  pub byte_token : (b : ℕ) → b < 256 → (i : ℕ) × (tok2id tb (b2u b) ≡ some i)
  pub no_control :
      (p : Bytes) (i : ℕ) → Formed tb p → tok2id tb p ≡ some i → get_or tb.types i 0 ≢ 3

pub place-get :
    (s : Bytes) (ts : List Bytes) (i : ℕ)
    → place s ts ≡ some i
    → (i < length ts) × (get_or ts i [] ≡ s)
unfolding place
place-get s [] i h = absurd (ground arith)
place-get s (t ∷ ts) i h = go (bytes_eq t s) refl (place s ts) (λ k e. place-get s ts k e) h
  where
    go :
        (b : Bool)
        → bytes_eq t s ≡ b
        → (o : Option ℕ) → ((k : ℕ) → o ≡ some k → (k < length ts) × (get_or ts k [] ≡ s))
        → (if b then some 0 else later_place o) ≡ some i
        → (i < length (t ∷ ts)) × (get_or (t ∷ ts) i [] ≡ s)
    go true e o later h =
        let z : 0 ≡ i = ground (arith, h) in
        subst (λ k. (k < length (t ∷ ts)) × (get_or (t ∷ ts) k [] ≡ s)) z
          (omega arith, (bytes_eq_iff t s).0 e)
    go false e none later h = absurd (ground (arith, h))
    go false e (some k) later h =
        let z : suc k ≡ i = ground (arith, h) in
        let (lt, at) = later k refl in
        subst (λ n. (n < length (t ∷ ts)) × (get_or (t ∷ ts) n [] ≡ s)) z (omega (arith, lt), at)

decode_chars-b2u : (w : Bytes) → AllBytes w → decode_chars (map b2u w) ≡ w
unfolding decode_chars
decode_chars-b2u [] a = refl
decode_chars-b2u (b ∷ w) a =
    ap (λ o. push_byte o (decode_chars (map b2u w))) (u2b-b2u b a.0)
    ∙ ap (◌∷◌ b) (decode_chars-b2u w a.1)

abbrev pub ids : List ℕ → List ℤ
ids ns = map pos ns

pub decode-cons :
    (tb : Tables) (i : ℤ) (l : List ℤ) → decode tb (i ∷ l) ≡ decode_one tb i ++ decode tb l
unfolding decode
decode-cons tb i l = refl

pub decode-append : (tb : Tables) (a b : List ℤ) → decode tb (a ++ b) ≡ decode tb a ++ decode tb b
unfolding decode
decode-append tb [] b = refl
decode-append tb (i ∷ a) b =
    ap (λ t. decode_one tb i ++ t) (decode-append tb a b)
    ∙ sym (append_assoc (decode_one tb i) (decode tb a) (decode tb b))

pub ids-append : (a b : List ℕ) → ids (a ++ b) ≡ ids a ++ ids b
ids-append [] b = refl
ids-append (n ∷ a) b = ap (◌∷◌ (pos n)) (ids-append a b)

module _ (tb : Tables) (ok : Covers tb) where
  decode_one-image :
      (w : Bytes) (i : ℕ)
      → AllBytes w
      → Formed tb (image w)
      → tok2id tb (image w) ≡ some i
      → decode_one tb (pos i) ≡ w
  unfolding decode_one tok2id
  decode_one-image w i a f e =
      let (lt, at) = place-get (image w) tb.tokens i e in
      let inside : leb (length tb.tokens) i ≡ false = ground arith in
      let plain : (get_or tb.types i 0 == 3) ≡ false =
        (let no = ok.no_control (image w) i f e in ground (arith, no)) in
      rw (inside, plain)
        (ap (λ t. decode_chars (utf8_chars t)) at
          ∙ ap decode_chars (utf8_chars-b2u w a)
          ∙ decode_chars-b2u w a)

  decode-chars : (w : Bytes) → AllBytes w → decode tb (ids (emit_chars tb (map b2u w))) ≡ w
  unfolding emit_chars
  decode-chars [] a = unfold decode in refl
  decode-chars (b ∷ w) a =
      let (i, e) = ok.byte_token b a.0 in
      ap (λ o. decode tb (ids (push_id o (emit_chars tb (map b2u w))))) e
      ∙ decode-cons tb (pos i) (ids (emit_chars tb (map b2u w)))
      ∙ ap₂ (λ s t. s ++ t)
          (decode_one-image (b ∷ []) i (a.0, tt) (of_byte b a.0 (append-nil _))
            (ap (tok2id tb) (append-nil _) ∙ e))
          (decode-chars w a.1)

  decode-part :
      (w : Bytes)
      → AllBytes w
      → Formed tb (image w)
      → decode tb (ids (emit_part (tok2id tb (image w)) (emit_chars tb (utf8_chars (image w))))) ≡ w
  decode-part w a f = elim (Option-cases (tok2id tb (image w))) [
    | inl e ↦
        ap (λ o. decode tb (ids (emit_part o (emit_chars tb (utf8_chars (image w)))))) e
        ∙ ap (λ us. decode tb (ids (emit_chars tb us))) (utf8_chars-b2u w a)
        ∙ decode-chars w a
    | inr (i, e) ↦
        ap (λ o. decode tb (ids (emit_part o (emit_chars tb (utf8_chars (image w)))))) e
        ∙ unfold decode in (append-nil _ ∙ decode_one-image w i a f e)
  ]

  decode-emit :
      (ps : List Bytes) (word : Bytes)
      → Represents tb ps word
      → decode tb (ids (emit_parts tb ps)) ≡ word
  unfolding emit_parts
  decode-emit [] word h = unfold decode in sym h
  decode-emit (p ∷ ps) word (w, v, e, a, m, f, h) =
      let part = emit_part (tok2id tb p) (emit_chars tb (utf8_chars p)) in
      ap (decode tb) (ids-append part (emit_parts tb ps))
      ∙ decode-append tb (ids part) (ids (emit_parts tb ps))
      ∙ ap₂ (λ s t. s ++ t)
          (ap (λ q. decode tb (ids (emit_part (tok2id tb q) (emit_chars tb (utf8_chars q))))) m
            ∙ decode-part w a (subst (Formed tb) m f))
          (decode-emit ps v h)
      ∙ sym e

  decode-bpe_short : (word : Bytes) → AllBytes word → decode tb (ids (bpe_short tb word)) ≡ word
  unfolding bpe_short
  decode-bpe_short word a =
      decode-emit (merge_loop tb (length word) (map b2u word)) word
        (merge_loop-Represents tb (length word) (map b2u word) word (b2u-Represents tb word a))

  decode-chunks :
      (fuel : ℕ) (word : Bytes)
      → length word ≤ fuel
      → AllBytes word
      → decode tb (ids (bpe_chunks tb fuel word)) ≡ word
  unfolding bpe_chunks
  decode-chunks zero [] le a = unfold decode in refl
  decode-chunks zero (c ∷ word) le a = absurd (omega arith)
  decode-chunks (suc fuel) [] le a = unfold decode in refl
  decode-chunks (suc fuel) (c ∷ word) le a =
      let front = bpe_short tb (take word_cap (c ∷ word)) in
      let back = bpe_chunks tb fuel (drop word_cap (c ∷ word)) in
      ap (decode tb) (ids-append front back)
      ∙ decode-append tb (ids front) (ids back)
      ∙ ap₂ (λ s t. s ++ t)
          (decode-bpe_short (take word_cap (c ∷ word)) (AllBytes-take word_cap (c ∷ word) a))
          (decode-chunks fuel (drop word_cap (c ∷ word))
            (omega (arith, length-drop word_cap (c ∷ word))) (AllBytes-drop word_cap (c ∷ word) a))
      ∙ take-append-drop word_cap (c ∷ word)

  -- The tokens of a word of any length decode to the word.
  pub decode-bpe_word : (word : Bytes) → AllBytes word → decode tb (ids (bpe_word tb word)) ≡ word
  unfolding bpe_word
  decode-bpe_word word a = elim (Bool-cases (ltb word_cap (length word))) [
    | inl e ↦ rw e (decode-chunks (length word) word (omega arith) a)
    | inr e ↦ rw e (decode-bpe_short word a)
  ]
