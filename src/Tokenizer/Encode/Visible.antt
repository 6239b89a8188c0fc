-- ===== src/Tokenizer/Encode/Visible.antt =====
-- What a text shows after encoding and decoding.
use q.Prelude.{
  subst, ℕ, zero, suc, ◌-◌, ◌≤◌, ◌<◌, true, false, Option, none, some, List, [], ◌∷◌, ◌++◌, ◌≡◌,
  ◌≢◌, ◌⊎◌, inl, inr, refl, sym, ap, ap₂, ◌∙◌, arith, Bytes, starts_with, find, find-some,
  find-none, length, length-drop, take, drop, joins, Bool-cases, pos,
}
use q.Tokenizer.Bytemap.Inverse.{AllBytes, AllBytes-take, AllBytes-drop, AllBytes-split}
use q.Tokenizer.Pretok.{pretokenize}
use q.Tokenizer.Pretok.Pieces.{pretokenize-Cut}
use q.Tokenizer.Bpe.{Tables, bpe_word, decode, decode_one}
use q.Tokenizer.Bpe.Decodes.{Covers, decode-cons, ids, ids-append, decode-append, decode-bpe_word}
use q.Tokenizer.Encode.{
  match_special, earlier, next_special, span_end, bpe_words, encode_round, encode_loop, encode,
}

-- Special tokens show what their id decodes to, nothing for a control token; all other bytes show
-- themselves. The number counts the bytes of a special token still to be passed.
unfoldable pub visible : Tables → ℕ → Bytes → Bytes
visible tb k [] = []
visible tb (suc k) (c ∷ s) = visible tb k s
visible tb zero (c ∷ s) = elim (match_special tb.specials (c ∷ s)) [
  | none ↦ c ∷ visible tb zero s
  | some (id, size) ↦ decode_one tb (pos id) ++ visible tb (size - 1) s
]

-- No special token is the empty text; the constructor and the list of added tokens see to it.
abbrev pub NoEmpty : List (Bytes × ℕ) → Type 0
NoEmpty [] = Unit
NoEmpty ((s, id) ∷ specials) = (s ≢ []) × NoEmpty specials

abbrev Before : Option ℕ → ℕ → Type 0
Before none j = Unit
Before (some q) j = j < q

Before-earlier : (a b : Option ℕ) (j : ℕ) → Before (earlier a b) j → Before a j × Before b j
Before-earlier none b j h = (tt, h)
Before-earlier (some p) none j h = (h, tt)
Before-earlier (some p) (some q) j h = ground arith

find-Before :
    (t s : Bytes) (j : ℕ) (o : Option ℕ)
    → find t s ≡ o
    → Before o j
    → starts_with t (drop j s) ≡ false
find-Before t s j none e b = elim (Bool-cases (starts_with t (drop j s))) [
  | inl at ↦ absurd (find-none t s e j at)
  | inr clear ↦ clear
]
find-Before t s j (some q) e b = elim (Bool-cases (starts_with t (drop j s))) [
  | inl at ↦ absurd ((find-some t s e).2 j b at)
  | inr clear ↦ clear
]

-- In front of the position that the scan finds, no special token stands.
next_special-Before :
    (specials : List (Bytes × ℕ)) (s : Bytes) (next : Option ℕ) (j : ℕ)
    → Before (next_special specials s next) j
    → Before next j × (match_special specials (drop j s) ≡ none)
unfolding next_special match_special
next_special-Before [] s next j h = (h, refl)
next_special-Before ((t, id) ∷ specials) s next j h =
    let (b, none_later) = next_special-Before specials s (earlier (find t s) next) j h in
    let (here, b') = Before-earlier (find t s) next j b in
    let clear = find-Before t s j (find t s) refl here in (b', rw clear none_later)

-- At the position that the scan finds, one stands.
earlier-one : (a b : Option ℕ) (q : ℕ) → earlier a b ≡ some q → (a ≡ some q) ⊎ (b ≡ some q)
earlier-one none b q e = inr e
earlier-one (some p) none q e = inl e
earlier-one (some p) (some r) q e = ground arith

found_here :
    (t : Bytes) (id : ℕ) (specials : List (Bytes × ℕ)) (s : Bytes)
    → starts_with t s ≡ true
    → match_special ((t, id) ∷ specials) s ≢ none
unfolding match_special
found_here t id specials s h n = absurd (ground (arith, rw h at n))

found_later :
    (t : Bytes) (id : ℕ) (specials : List (Bytes × ℕ)) (s : Bytes)
    → match_special specials s ≢ none
    → match_special ((t, id) ∷ specials) s ≢ none
unfolding match_special
found_later t id specials s h n = elim (Bool-cases (starts_with t s)) [
  | inl e ↦ found_here t id specials s e n
  | inr e ↦ h (rw e at n)
]

next_special-hit :
    (specials : List (Bytes × ℕ)) (s : Bytes) (next : Option ℕ) (q : ℕ)
    → next_special specials s next ≡ some q
    → (next ≡ some q) ⊎ ((q ≤ length s) × (match_special specials (drop q s) ≢ none))
unfolding next_special match_special
next_special-hit [] s next q e = inl e
next_special-hit ((t, id) ∷ specials) s next q e =
    elim (next_special-hit specials s (earlier (find t s) next) q e) [
      | inr (le, later) ↦ inr (le, found_later t id specials (drop q s) later)
      | inl f ↦ elim (earlier-one (find t s) next q f) [
        | inr g ↦ inl g
        | inl g ↦ inr ((find-some t s g).1, found_here t id specials (drop q s) (find-some t s g).0)
      ]
    ]

match_special-pos :
    (specials : List (Bytes × ℕ)) (s : Bytes) (id size : ℕ)
    → NoEmpty specials
    → match_special specials s ≡ some (id, size)
    → 0 < size
unfolding match_special
match_special-pos [] s id size ne e = absurd (ground arith)
match_special-pos ((t, i) ∷ specials) s id size ne e = elim (Bool-cases (starts_with t s)) [
  | inl h ↦
      let f : some (i, length t) ≡ some (id, size) = rw h at e in
      let at : length t ≡ size = ground (arith, f) in go t ne.0 at
  | inr h ↦ match_special-pos specials s id size ne.1 (rw h at e)
]
  where
    go : (u : Bytes) → u ≢ [] → length u ≡ size → 0 < size
    go [] n at = absurd (n refl)
    go (c ∷ u) n at = omega (arith, at)

visible-drop : (tb : Tables) (k : ℕ) (s : Bytes) → visible tb k s ≡ visible tb 0 (drop k s)
unfolding visible
visible-drop tb zero s = refl
visible-drop tb (suc k) [] = refl
visible-drop tb (suc k) (c ∷ s) = visible-drop tb k s

visible-plain :
    (tb : Tables) (c : ℕ) (s : Bytes)
    → match_special tb.specials (c ∷ s) ≡ none
    → visible tb 0 (c ∷ s) ≡ c ∷ visible tb 0 s
unfolding visible
visible-plain tb c s e = rw (e, visible) refl

visible-special :
    (tb : Tables) (c : ℕ) (s : Bytes) (id size : ℕ)
    → match_special tb.specials (c ∷ s) ≡ some (id, size)
    → visible tb 0 (c ∷ s) ≡ decode_one tb (pos id) ++ visible tb (size - 1) s
unfolding visible
visible-special tb c s id size e = rw (e, visible) refl

-- A stretch in which no special token starts shows itself.
visible-stretch :
    (tb : Tables) (n : ℕ) (s : Bytes)
    → ((j : ℕ) → j < n → match_special tb.specials (drop j s) ≡ none)
    → visible tb 0 s ≡ take n s ++ visible tb 0 (drop n s)
unfolding visible
visible-stretch tb zero s h = refl
visible-stretch tb (suc n) [] h = refl
visible-stretch tb (suc n) (c ∷ s) h =
    visible-plain tb c s (h 0 (omega arith))
    ∙ (ap (◌∷◌ c) (visible-stretch tb n s (λ j lt. h (suc j) (omega arith))))

module _ (tb : Tables) (ok : Covers tb) where
  decode-words :
      (ws : List Bytes) → AllBytes (joins ws) → decode tb (ids (bpe_words tb ws)) ≡ joins ws
  unfolding bpe_words
  decode-words [] a = unfold decode in refl
  decode-words (w ∷ ws) a =
      let (aw, aws) = AllBytes-split w (joins ws) a in
      ap (decode tb) (ids-append (bpe_word tb w) (bpe_words tb ws))
      ∙ decode-append tb (ids (bpe_word tb w)) (ids (bpe_words tb ws))
      ∙ ap₂ (λ s t. s ++ t) (decode-bpe_word tb ok w aw) (decode-words ws aws)

  decode-span : (s : Bytes) → AllBytes s → decode tb (ids (bpe_words tb (pretokenize s))) ≡ s
  decode-span s a =
      let whole = (pretokenize-Cut s).0 in
      decode-words (pretokenize s) (subst AllBytes (sym whole) a) ∙ whole

  -- One round, where the loop shows the rest.
  round_shows :
      (c : ℕ) (s : Bytes) (next : Bytes → List ℕ)
      → NoEmpty tb.specials
      → AllBytes (c ∷ s)
      → ((r : Bytes) → length r ≤ length s → AllBytes r → decode tb (ids (next r)) ≡ visible tb 0 r)
      → decode tb (ids (encode_round tb (match_special tb.specials (c ∷ s)) (c ∷ s) next))
        ≡ visible tb 0 (c ∷ s)
  round_shows c s next ne a later = go (match_special tb.specials (c ∷ s)) refl
    where
      passed :
          (size : ℕ)
          → 0 < size
          → decode tb (ids (next (drop size (c ∷ s)))) ≡ visible tb (size - 1) s
      passed zero lt = absurd (omega arith)
      passed (suc k) lt =
          later (drop k s) (omega (arith, length-drop k s)) (AllBytes-drop k s a.1)
          ∙ sym (visible-drop tb k s)
          ∙ ap (λ n. visible tb n s) (omega arith)

      stretch :
          (o : Option ℕ)
          → next_special tb.specials (c ∷ s) none ≡ o
          → match_special tb.specials (c ∷ s) ≡ none
          → (0 < span_end o (c ∷ s))
            × ((j : ℕ) → j < span_end o (c ∷ s) → match_special tb.specials (drop j (c ∷ s)) ≡ none)
      stretch none n e = (
        omega arith,
        λ j lt.
            (next_special-Before tb.specials (c ∷ s) none j (subst (λ x. Before x j) (sym n) tt)).1,
      )
      stretch (some zero) n e = elim (next_special-hit tb.specials (c ∷ s) none 0 n) [
        | inl x ↦ absurd (ground arith)
        | inr (le, hit) ↦ absurd (hit e)
      ]
      stretch (some (suc q)) n e = (
        omega arith,
        λ j lt.
            (next_special-Before tb.specials (c ∷ s) none j (subst (λ x. Before x j) (sym n) lt)).1,
      )

      go :
          (o : Option (ℕ × ℕ))
          → match_special tb.specials (c ∷ s) ≡ o
          → decode tb (ids (encode_round tb o (c ∷ s) next)) ≡ visible tb 0 (c ∷ s)
      go (some (id, size)) e =
          decode-cons tb (pos id) (ids (next (drop size (c ∷ s))))
          ∙ ap (λ t. decode_one tb (pos id) ++ t)
              (passed size (match_special-pos tb.specials (c ∷ s) id size ne e))
          ∙ sym (visible-special tb c s id size e)
      go none e =
          let end = span_end (next_special tb.specials (c ∷ s) none) (c ∷ s) in
          let front = bpe_words tb (pretokenize (take end (c ∷ s))) in
          let (pos_end, quiet) = stretch (next_special tb.specials (c ∷ s) none) refl e in
          ap (decode tb) (ids-append front (next (drop end (c ∷ s))))
          ∙ decode-append tb (ids front) (ids (next (drop end (c ∷ s))))
          ∙ ap₂ (λ x y. x ++ y) (decode-span (take end (c ∷ s)) (AllBytes-take end (c ∷ s) a))
              (later (drop end (c ∷ s)) (omega (arith, length-drop end (c ∷ s), pos_end))
                (AllBytes-drop end (c ∷ s) a))
          ∙ sym (visible-stretch tb end (c ∷ s) quiet)

  loop_shows :
      (fuel : ℕ) (s : Bytes)
      → NoEmpty tb.specials
      → length s ≤ fuel
      → AllBytes s
      → decode tb (ids (encode_loop tb fuel s)) ≡ visible tb 0 s
  unfolding encode_loop
  loop_shows zero [] ne le a = unfold decode visible in refl
  loop_shows zero (c ∷ s) ne le a = absurd (omega arith)
  loop_shows (suc fuel) [] ne le a = unfold decode visible in refl
  loop_shows (suc fuel) (c ∷ s) ne le a =
      round_shows c s (λ r. encode_loop tb fuel r) ne a
        (λ r short ar. loop_shows fuel r ne (omega arith) ar)

-- With a vocabulary that covers the bytes, a text decodes after encoding to what it shows: its
-- special tokens show what their ids decode to, and all else is as it was.
pub decode-encode :
    (tb : Tables) (text : Bytes)
    → Covers tb
    → NoEmpty tb.specials
    → AllBytes text
    → decode tb (ids (encode tb text)) ≡ visible tb 0 text
unfolding encode
decode-encode tb text ok ne a = loop_shows tb ok (length text) text ne (omega arith) a
