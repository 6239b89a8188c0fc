-- ===== src/Tokenizer/Bpe/Merges.antt =====
-- The merges keep the text: each part is the image of a piece of the word.
use q.Prelude.{
  subst, ℕ, zero, suc, ◌+◌, ◌<◌, Bool, true, false, Option, none, some, List, [], ◌∷◌, ◌++◌, ◌≡◌,
  ◌⊎◌, inl, inr, refl, sym, ap, ap₂, ◌∙◌, arith, map, Bytes, length, joins, append_assoc,
  append-nil, ltb, if◌then◌else◌,
}
use q.Tokenizer.Bytemap.{b2u}
use q.Tokenizer.Bytemap.Inverse.{AllBytes, AllBytes-append}
use q.Tokenizer.Bpe.{
  Tables, merge_rank, scan_pair, scan_pairs, merge_at, merge_next, merge_loop, int_max,
}

-- A part that the loop can make: the image of a byte, or the two sides of a merge.
pub data Formed (tb : Tables) (p : Bytes) : Type 0 where
  of_byte : (b : ℕ) → b < 256 → p ≡ b2u b → Formed tb p
  of_merge : (l r : Bytes) (k : ℕ) → merge_rank tb l r ≡ some k → p ≡ l ++ r → Formed tb p

abbrev pub image : Bytes → Bytes
image w = joins (map b2u w)

-- The parts are the images of the pieces of a cut of the word.
abbrev pub Represents : Tables → List Bytes → Bytes → Type 0
Represents tb [] word = word ≡ []
Represents tb (p ∷ ps) word =
    (w : Bytes) × (v : Bytes) × (word ≡ w ++ v)
    × AllBytes w
    × (p ≡ image w)
    × Formed tb p
    × Represents tb ps v

-- The pair at a position has a rank.
abbrev pub Ranked : Tables → ℕ → List Bytes → Type 0
Ranked tb i [] = ⊥
Ranked tb i (p ∷ []) = ⊥
Ranked tb zero (p ∷ (q ∷ ps)) = (k : ℕ) × (merge_rank tb p q ≡ some k)
Ranked tb (suc i) (p ∷ (q ∷ ps)) = Ranked tb i (q ∷ ps)

scan_pair-old :
    (o : Option ℕ) (i : ℕ) (best : ℕ × Option ℕ) (j : ℕ)
    → (scan_pair o i best).1 ≡ some j
    → (best.1 ≡ some j) ⊎ ((j ≡ i) × ((k : ℕ) × (o ≡ some k)))
scan_pair-old none i best j h = inl h
scan_pair-old (some k) i (best, bi) j h = go (ltb k best) h
  where
    chosen : Bool → ℕ × Option ℕ
    chosen b = if b then (k, some i) else (best, bi)

    go :
        (b : Bool)
        → (chosen b).1 ≡ some j
        → (bi ≡ some j) ⊎ ((j ≡ i) × ((x : ℕ) × (some k ≡ some x)))
    go true e = inr (ground (arith, e), (k, refl))
    go false e = inl e

pub scan_pairs-Ranked :
    (tb : Tables) (i : ℕ) (best : ℕ × Option ℕ) (ps : List Bytes) (j : ℕ)
    → (scan_pairs tb i best ps).1 ≡ some j
    → (best.1 ≡ some j) ⊎ ((d : ℕ) × (j ≡ i + d) × Ranked tb d ps)
unfolding scan_pairs
scan_pairs-Ranked tb i best [] j h = inl h
scan_pairs-Ranked tb i best (p ∷ []) j h = inl h
scan_pairs-Ranked tb i best (p ∷ (q ∷ ps)) j h =
    elim (scan_pairs-Ranked tb (suc i) (scan_pair (merge_rank tb p q) i best) (q ∷ ps) j h) [
      | inl e ↦ elim (scan_pair-old (merge_rank tb p q) i best j e) [
        | inl old ↦ inl old
        | inr (at, ranked) ↦ inr (0, omega arith, ranked)
      ]
      | inr (d, at, ranked) ↦ inr (suc d, omega arith, ranked)
    ]

image-append : (v w : Bytes) → image (v ++ w) ≡ image v ++ image w
image-append [] w = refl
image-append (b ∷ v) w =
    ap (λ t. b2u b ++ t) (image-append v w) ∙ sym (append_assoc (b2u b) (image v) (image w))

merge_at-Represents :
    (tb : Tables) (i : ℕ) (ps : List Bytes) (word : Bytes)
    → Ranked tb i ps
    → Represents tb ps word
    → Represents tb (merge_at i ps) word
unfolding merge_at
merge_at-Represents tb i [] word r h = absurd r
merge_at-Represents tb i (p ∷ []) word r h = absurd r
merge_at-Represents tb zero (p ∷ (q ∷ ps)) word (k, r)
      (w, v, e, a, m, f, (w', v', e', a', m', f', h)) =
    (
      w ++ w',
      v',
      e ∙ ap (λ t. w ++ t) e' ∙ sym (append_assoc w w' v'),
      AllBytes-append w w' a a',
      ap₂ (λ s t. s ++ t) m m' ∙ sym (image-append w w'),
      of_merge p q k r refl,
      h,
    )
merge_at-Represents tb (suc i) (p ∷ (q ∷ ps)) word r (w, v, e, a, m, f, h) =
    (w, v, e, a, m, f, merge_at-Represents tb i (q ∷ ps) v r h)

pub merge_loop-Represents :
    (tb : Tables) (fuel : ℕ) (ps : List Bytes) (word : Bytes)
    → Represents tb ps word
    → Represents tb (merge_loop tb fuel ps) word
unfolding merge_loop
merge_loop-Represents tb zero ps word h = h
merge_loop-Represents tb (suc fuel) ps word h =
    elim (ltb 1 (length ps))
      as (λ b.
        Represents tb
          (if b
            then merge_next (scan_pairs tb 0 (int_max, none) ps).1 ps (λ qs. merge_loop tb fuel qs)
            else ps)
          word) [
            | true ↦
                go (scan_pairs tb 0 (int_max, none) ps).1
                  (scan_pairs-Ranked tb 0 (int_max, none) ps)
                  (λ qs r. merge_loop-Represents tb fuel qs word r)
            | false ↦ h
          ]
  where
    go :
        (o : Option ℕ)
        → ((j : ℕ)
            → o ≡ some j
            → ◌≡◌ {A = Option ℕ} none (some j) ⊎ ((d : ℕ) × (j ≡ 0 + d) × Ranked tb d ps))
        → ((qs : List Bytes) → Represents tb qs word → Represents tb (merge_loop tb fuel qs) word)
        → Represents tb (merge_next o ps (λ qs. merge_loop tb fuel qs)) word
    go none ranked later = h
    go (some j) ranked later = elim (ranked j refl) [
      | inl e ↦ absurd (ground arith)
      | inr (d, e, r) ↦
          let at : d ≡ j = omega arith in
          later (merge_at j ps)
            (merge_at-Represents tb j ps word (subst (λ i. Ranked tb i ps) at r) h)
    ]

pub b2u-Represents :
    (tb : Tables) (word : Bytes) → AllBytes word → Represents tb (map b2u word) word
b2u-Represents tb [] a = refl
b2u-Represents tb (b ∷ word) a = (
  b ∷ [],
  word,
  refl,
  (a.0, tt),
  sym (append-nil _),
  of_byte b a.0 refl,
  b2u-Represents tb word a.1,
)
