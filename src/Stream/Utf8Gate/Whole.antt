-- ===== src/Stream/Utf8Gate/Whole.antt =====
-- The gate lets whole characters through and keeps the part of one at the end.
use native.Mathlib.Nat.{zero-add, suc-add}
use q.Prelude.{
  ap₂, drop-length_add, take-length_add, ℕ, zero, suc, ◌+◌, ◌≤◌, ◌<◌, true, false, some, List, [],
  ◌∷◌, ◌++◌, ltb, if◌then◌else◌, ◌≡◌, refl, sym, ap, ◌∙◌, arith, Bytes, length, length-append, take,
  drop, get_or, append_assoc, append-nil,
}
use q.Stream.Utf8Gate

-- Continuation bytes only.
abbrev pub Conts : Bytes → Type 0
Conts [] = Unit
Conts (x ∷ xs) = (128 ≤ x) × (x < 192) × Conts xs

-- The form of a character in UTF-8: its first byte and the number of its bytes.
pub data Leads (b n : ℕ) : Type 0 where
  one_byte : b < 128 → n ≡ 1 → Leads b n
  two_bytes : 192 ≤ b → b < 224 → n ≡ 2 → Leads b n
  three_bytes : 224 ≤ b → b < 240 → n ≡ 3 → Leads b n
  four_bytes : 240 ≤ b → b < 248 → n ≡ 4 → Leads b n

Leads-seq_len : {b n : ℕ} → Leads b n → Utf8Gate.seq_len b ≡ some n
unfolding Utf8Gate.seq_len
Leads-seq_len (one_byte lt e) = ground arith
Leads-seq_len (two_bytes ge lt e) = ground arith
Leads-seq_len (three_bytes ge lt e) = ground arith
Leads-seq_len (four_bytes ge lt e) = ground arith

-- A first byte with the continuation bytes that belong to it, or with fewer.
pub record Utf8Char : Type 0 where
  pub lead : ℕ
  pub conts : Bytes
  pub all_conts : Conts conts
  pub complete : Leads lead (suc (length conts))

pub data Part : Type 0 where
  nothing : Part
  begun :
      (lead : ℕ) (conts : Bytes) (size : ℕ)
      → Conts conts
      → Leads lead size
      → suc (length conts) < size
      → Part

abbrev pub text : List Utf8Char → Bytes
text [] = []
text (c ∷ cs) = (c.lead ∷ c.conts) ++ text cs

abbrev pub part_text : Part → Bytes
part_text nothing = []
part_text (begun lead conts size _ _ _) = lead ∷ conts

seq_len-small : (b l : ℕ) → Utf8Gate.seq_len b ≡ some l → (l ≤ 4) × (Utf8Gate.is_cont b ≡ false)
unfolding Utf8Gate.seq_len
seq_len-small b l e = ground arith

get_or-length_add : (t s : Bytes) (j d : ℕ) → get_or (t ++ s) (length t + j) d ≡ get_or s j d
get_or-length_add [] s j d = rw zero-add
get_or-length_add (y ∷ t) s j d = rw suc-add (get_or-length_add t s j d)

get_or-Conts :
    (cs : Bytes) (j : ℕ) → Conts cs → j < length cs → Utf8Gate.is_cont (get_or cs j 0) ≡ true
get_or-Conts [] j c lt = absurd (omega arith)
get_or-Conts (x ∷ cs) zero c lt = ground arith
get_or-Conts (x ∷ cs) (suc j) c lt = get_or-Conts cs j c.2 (omega arith)

back_to-lead :
    (t : Bytes) (b : ℕ) (cs : Bytes) (left j : ℕ)
    → Utf8Gate.is_cont b ≡ false
    → Conts cs
    → j ≤ length cs
    → j < left
    → Utf8Gate.back_to left (suc (length t + j)) (t ++ b ∷ cs) ≡ length t
unfolding Utf8Gate.back_to
back_to-lead t b cs zero j n c le lt = absurd (omega arith)
back_to-lead t b cs (suc left) zero n c le lt =
    let stop : Utf8Gate.is_cont (get_or (t ++ b ∷ cs) (length t + 0) 0) ≡ false =
      ap Utf8Gate.is_cont (get_or-length_add t (b ∷ cs) 0 0) ∙ n in
    rw stop (omega arith)
back_to-lead t b cs (suc left) (suc j) n c le lt =
    let go_on : Utf8Gate.is_cont (get_or (t ++ b ∷ cs) (length t + suc j) 0) ≡ true =
      ap Utf8Gate.is_cont (get_or-length_add t (b ∷ cs) (suc j) 0)
      ∙ get_or-Conts cs j c (omega arith) in
    let e : length t + suc j ≡ suc (length t + j) = omega arith in
    rw go_on (
      ap (λ i. Utf8Gate.back_to left i (t ++ b ∷ cs)) e
      ∙ back_to-lead t b cs left j n c (omega arith) (omega arith))

-- Behind `t`, a lead byte that announces `l` bytes and as many continuation bytes as there are:
-- the cut is in front of it if some are missing, and behind it if none is.
cut-lead :
    (t : Bytes) (b l : ℕ) (cs : Bytes)
    → Conts cs
    → Utf8Gate.seq_len b ≡ some l
    → suc (length cs) ≤ l
    → Utf8Gate.cut_at (Utf8Gate.back_to 4 (length (t ++ b ∷ cs)) (t ++ b ∷ cs)) (t ++ b ∷ cs)
      ≡ (if ltb (suc (length cs)) l then length t else length (t ++ b ∷ cs))
cut-lead t b l cs c e le =
    let (small, n) = seq_len-small b l e in
    let whole : length (t ++ b ∷ cs) ≡ suc (length t + length cs) =
      omega (arith, length-append t (b ∷ cs)) in
    let back : Utf8Gate.back_to 4 (length (t ++ b ∷ cs)) (t ++ b ∷ cs) ≡ length t =
      ap (λ i. Utf8Gate.back_to 4 i (t ++ b ∷ cs)) whole
      ∙ back_to-lead t b cs 4 (length cs) n c (omega arith) (omega arith) in
    let at : get_or (t ++ b ∷ cs) (length t) 0 ≡ b =
      ap (λ i. get_or (t ++ b ∷ cs) i 0) (omega arith) ∙ get_or-length_add t (b ∷ cs) 0 0 in
    let announced : Utf8Gate.seq_len (get_or (t ++ b ∷ cs) (length t) 0) ≡ some l =
      ap Utf8Gate.seq_len at ∙ e in
    rw (back, announced) ground (arith, whole)

last_char :
    (c : Utf8Char) (cs : List Utf8Char)
    → (init : List Utf8Char) × (z : Utf8Char) × (text (c ∷ cs) ≡ text init ++ (z.lead ∷ z.conts))
last_char c [] = ([], c, append-nil _)
last_char c (d ∷ cs) =
    let (init, z, e) = last_char d cs in
    (
      c ∷ init,
      z,
      ap (λ t. (c.lead ∷ c.conts) ++ t) e ∙ sym (append_assoc (c.lead ∷ c.conts) (text init) _),
    )

cut-text :
    (cs : List Utf8Char) (p : Part)
    → let b = text cs ++ part_text p in
      Utf8Gate.cut_at (Utf8Gate.back_to 4 (length b) b) b ≡ length (text cs)
cut-text cs (begun b conts l c e lt) =
    let missing : ltb (suc (length conts)) l ≡ true = ground arith in
    cut-lead (text cs) b l conts c (Leads-seq_len e) (omega arith) ∙ rw missing refl
cut-text [] nothing = unfold Utf8Gate.back_to in refl
cut-text (d ∷ cs) nothing =
    let (init, z, e) = last_char d cs in
    let all : text (d ∷ cs) ++ [] ≡ text init ++ (z.lead ∷ z.conts) = append-nil _ ∙ e in
    let enough : ltb (suc (length z.conts)) (suc (length z.conts)) ≡ false = ground arith in
    ap (λ b. Utf8Gate.cut_at (Utf8Gate.back_to 4 (length b) b) b) all
    ∙ cut-lead (text init) z.lead (suc (length z.conts)) z.conts z.all_conts
        (Leads-seq_len z.complete) (omega arith)
    ∙ rw enough (ap length (sym e))

-- Where the held bytes and the piece make up whole characters and the beginning of one, or of none,
-- exactly the whole characters go out, and the beginning is held.
pub feed-text :
    (pend piece : Bytes) (cs : List Utf8Char) (p : Part)
    → pend ++ piece ≡ text cs ++ part_text p
    → Utf8Gate.feed pend piece ≡ (part_text p, text cs)
unfolding Utf8Gate.feed
feed-text pend piece cs p e =
    ap (λ b. let n = Utf8Gate.cut_at (Utf8Gate.back_to 4 (length b) b) b in (drop n b, take n b)) e
    ∙ ap (λ n. (drop n (text cs ++ part_text p), take n (text cs ++ part_text p)))
        (cut-text cs p ∙ omega arith)
    ∙ ap₂ (λ a b. (a, b)) (drop-length_add 0 (text cs) (part_text p))
        (take-length_add 0 (text cs) (part_text p) ∙ append-nil _)
