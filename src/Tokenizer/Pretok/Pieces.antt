-- ===== src/Tokenizer/Pretok/Pieces.antt =====
-- The words make up the text, and none is empty.
use q.Prelude.{
  not, ◌&&◌, ◌==◌, if◌then◌else◌, ℕ, zero, suc, ◌≤◌, ◌<◌, Bool, true, false, Option, none, some,
  List, [], ◌∷◌, ◌++◌, ◌≡◌, ◌≢◌, refl, ap, ◌∙◌, arith, Bytes, Among, inl, inr, length, take, drop,
  take-append-drop, joins, length-drop,
}
use q.Tokenizer.Pretok

-- A case that fits takes at least one byte.
abbrev Takes : Option ℕ → Type 0
Takes none = Unit
Takes (some k) = 0 < k

Takes-orelse : (a b : Option ℕ) → Takes a → Takes b → Takes (Pretok.◌orelse◌ a b)
Takes-orelse none b s t = t
Takes-orelse (some k) b s t = s

or_one-pos : (o : Option ℕ) → Takes o → 0 < Pretok.or_one o
or_one-pos none t = omega arith
or_one-pos (some k) t = t

Takes-if : (b : Bool) (k : ℕ) → (b ≡ true → 0 < k) → Takes (if b then some k else none)
Takes-if true k h = h refl
Takes-if false k h = tt

run-pos : (p : ℕ → Bool) (c : ℕ) (s : Bytes) → p c ≡ true → 0 < Pretok.run p (c ∷ s)
unfolding Pretok.run
run-pos p c s h = ground arith

contraction-Takes : (s : Bytes) → Takes (Pretok.contraction s)
contraction-Takes [] = tt
contraction-Takes (c1 ∷ s) = ground arith

take_contraction-Takes : (c : ℕ) (s : Bytes) → Takes (Pretok.take_contraction c s)
take_contraction-Takes c s =
    elim (c == 39) as (λ b. Takes (if b then Pretok.contraction s else none)) [
      | true ↦ contraction-Takes s
      | false ↦ tt
    ]

take_letters-Takes : (c : ℕ) (s : Bytes) → Takes (Pretok.take_letters c s)
take_letters-Takes c s =
    elim (not (Pretok.is_nl c)
        && not (Pretok.is_l c)
        && not (Pretok.is_d c)
        && Pretok.front Pretok.is_l s)
      as (λ b. Takes (
        if b
        then some (suc (Pretok.run Pretok.is_l s))
        else if Pretok.is_l c
        then some (Pretok.run Pretok.is_l (c ∷ s))
        else none)) [
          | true ↦ omega arith
          | false ↦ Takes-if (Pretok.is_l c) _ (run-pos Pretok.is_l c s)
        ]

take_other-Takes : (c : ℕ) (s : Bytes) → Takes (Pretok.take_other c s)
take_other-Takes c s =
    elim (c == 32 && Pretok.front Pretok.is_other s)
      as (λ b. Takes (
        if b
        then some (suc (Pretok.other_run s))
        else if Pretok.is_other c
        then some (Pretok.other_run (c ∷ s))
        else none)) [
          | true ↦ omega arith
          | false ↦
              Takes-if (Pretok.is_other c) _ (λ e. omega (arith, run-pos Pretok.is_other c s e))
        ]

take_breaks-Takes : (s : Bytes) → Takes (Pretok.take_breaks s)
take_breaks-Takes s =
    let rest = drop (Pretok.run Pretok.blank s) s in
    Takes-if (Pretok.front Pretok.is_nl rest) _ (λ e. omega (arith, run-front Pretok.is_nl rest e))
  where
    run-front : (p : ℕ → Bool) (r : Bytes) → Pretok.front p r ≡ true → 0 < Pretok.run p r
    run-front p [] h = absurd (ground arith)
    run-front p (c ∷ r) h = run-pos p c r h

take_spaces-Takes : (c : ℕ) (s : Bytes) → Takes (Pretok.take_spaces c s)
take_spaces-Takes c s =
    Takes-if (Pretok.is_sp c) _ (λ e. let pos = run-pos Pretok.is_sp c s e in ground (arith, pos))

piece_len-pos : (c : ℕ) (s : Bytes) → 0 < Pretok.piece_len c s
unfolding Pretok.piece_len
piece_len-pos c s = or_one-pos _ (
    Takes-orelse _ _ (take_contraction-Takes c s) (
      Takes-orelse _ _ (take_letters-Takes c s) (
        Takes-orelse _ _ (Takes-if (Pretok.is_d c) 1 (λ e. omega arith)) (
          Takes-orelse _ _ (take_other-Takes c s)
            (Takes-orelse _ _ (take_breaks-Takes (c ∷ s)) (take_spaces-Takes c s))))))

-- What a loop with enough fuel gives.
abbrev pub Cut : Bytes → List Bytes → Type 0
Cut s ws = (joins ws ≡ s) × ((w : Bytes) → Among w ws → w ≢ [])

pretok_loop-Cut : (fuel : ℕ) (s : Bytes) → length s ≤ fuel → Cut s (Pretok.pretok_loop fuel s)
unfolding Pretok.pretok_loop
pretok_loop-Cut zero [] le = (refl, λ w a. absurd a)
pretok_loop-Cut zero (c ∷ s) le = absurd (omega arith)
pretok_loop-Cut (suc fuel) [] le = (refl, λ w a. absurd a)
pretok_loop-Cut (suc fuel) (c ∷ s) le =
    go (Pretok.piece_len c s) (piece_len-pos c s) (λ r short. pretok_loop-Cut fuel r short)
  where
    go :
        (k : ℕ)
        → 0 < k
        → ((r : Bytes) → length r ≤ fuel → Cut r (Pretok.pretok_loop fuel r))
        → Cut (c ∷ s) (take k (c ∷ s) ∷ Pretok.pretok_loop fuel (drop k (c ∷ s)))
    go zero pos later = absurd (omega arith)
    go (suc k) pos later =
        let (whole, words) = later (drop k s) (omega (arith, length-drop k s)) in
        (
          ap (λ t. (c ∷ take k s) ++ t) whole ∙ ap (◌∷◌ c) (take-append-drop k s),
          λ w a n. elim a [ inl e ↦ absurd (ground arith) | inr r ↦ words w r n ],
        )

-- The words that a text is cut into are not empty, and one after the other they are the text.
pub pretokenize-Cut : (s : Bytes) → Cut s (Pretok.pretokenize s)
unfolding Pretok.pretokenize
pretokenize-Cut s = pretok_loop-Cut (length s) s (omega arith)
