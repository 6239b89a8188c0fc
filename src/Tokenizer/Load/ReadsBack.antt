-- ===== src/Tokenizer/Load/ReadsBack.antt =====
-- What the script writes, the constructor reads back.
use q.Prelude.{
  subst, ℕ, ◌+◌, ◌*◌, ◌/◌, ◌^◌, ◌≤◌, ◌<◌, false, ◌&&◌, ◌||◌, none, List, [], ◌∷◌, ◌++◌, ltb, leb,
  ◌==◌, ◌≡◌, ◌≢◌, refl, sym, ap, ap₂, ◌∙◌, arith, Bytes, bytes_eq, bytes_eq_iff, length,
  length-append, take, drop, take-length_add, drop-length_add, append-nil, append_assoc, get_or,
  is_empty, Among, inl, inr, Bool-cases,
}
use q.Tokenizer.Bpe.{Tables, place, int_max}
use q.Tokenizer.Load.{
  ok, ◌>>=◌, read_bytes, from_le, read_uint, lp, read_tokens, read_merges, check_tokens,
  special_list, max_tokens, max_merges, magic_word, load_tables, load,
}
use q.Tokenizer.Load.Format.{
  le2, le4, write_texts, Vocab, export_tok, Short, Apart, NonEmpty, Controlled, IsValid,
}

read_bytes-append : (s rest : Bytes) → read_bytes (length s) (s ++ rest) ≡ ok (s, rest)
unfolding read_bytes
read_bytes-append s rest =
    let enough : ltb (length (s ++ rest)) (length s) ≡ false =
      (let whole = length-append s rest in ground (arith, whole)) in
    let e : length s ≡ length s + 0 = omega arith in
    rw enough (
      ap₂ (λ a b. ok (a, b))
        (ap (λ n. take n (s ++ rest)) e ∙ take-length_add 0 s rest ∙ append-nil s)
        (ap (λ n. drop n (s ++ rest)) e ∙ drop-length_add 0 s rest))

read_uint-le2 : (n : ℕ) (rest : Bytes) → n < 65536 → read_uint 2 (le2 n ++ rest) ≡ ok (n, rest)
unfolding read_uint from_le
read_uint-le2 n rest lt =
    ap (λ r. r >>= λ (s, left). ok (from_le s, left)) (read_bytes-append (le2 n) rest)
    ∙ ap (λ k. ok (k, rest)) (omega arith)

read_uint-le4 : (n : ℕ) (rest : Bytes) → n < 2 ^ 32 → read_uint 4 (le4 n ++ rest) ≡ ok (n, rest)
unfolding read_uint from_le
read_uint-le4 n rest lt =
    ap (λ r. r >>= λ (s, left). ok (from_le s, left)) (read_bytes-append (le4 n) rest)
    ∙ ap (λ k. ok (k, rest)) (omega arith)

lp-text : (t rest : Bytes) → length t < 65536 → lp (le2 (length t) ++ (t ++ rest)) ≡ ok (t, rest)
unfolding lp
lp-text t rest lt =
    ap (λ r. r >>= λ (n, left). read_bytes n left) (read_uint-le2 (length t) (t ++ rest) lt)
    ∙ read_bytes-append t rest

read_tokens-write_texts :
    (ts : List Bytes) (rest : Bytes)
    → Short ts
    → read_tokens (length ts) (write_texts ts rest) ≡ ok (ts, rest)
unfolding read_tokens write_texts
read_tokens-write_texts [] rest h = refl
read_tokens-write_texts (t ∷ ts) rest h =
    ap (λ r. r >>= λ (u, left). read_tokens (length ts) left >>= λ (us, left). ok (u ∷ us, left))
      (lp-text t (write_texts ts rest) h.0)
    ∙ ap (λ r. r >>= λ (us, left). ok (t ∷ us, left)) (read_tokens-write_texts ts rest h.1)

place-none : (t : Bytes) (ts : List Bytes) → ¬ Among t ts → place t ts ≡ none
unfolding place
place-none t [] h = refl
place-none t (u ∷ ts) h = elim (Bool-cases (bytes_eq u t)) [
  | inl e ↦ absurd (h (inl ((bytes_eq_iff u t).0 e)))
  | inr e ↦ rw (e, place-none t ts (λ a. h (inr a))) refl
]

full : (t : Bytes) → t ≢ [] → is_empty t ≡ false
full [] h = absurd (h refl)
full (c ∷ t) h = refl

read_merges-write_texts :
    (ts seen : List Bytes) (rest : Bytes)
    → Short ts
    → Apart seen ts
    → NonEmpty ts
    → read_merges (length ts) seen (write_texts ts rest) ≡ ok (seen ++ ts, rest)
unfolding read_merges write_texts
read_merges-write_texts [] seen rest s a f = ap (λ l. ok (l, rest)) (sym (append-nil seen))
read_merges-write_texts (t ∷ ts) seen rest s a f =
    rw (lp-text t (write_texts ts rest) s.0, full t f.0, place-none t seen a.0)
      (read_merges-write_texts ts (seen ++ t ∷ []) rest s.1 a.1 f.1
        ∙ ap (λ l. ok (l, rest)) (append_assoc seen (t ∷ []) ts))

check_tokens-ok :
    (ts seen : List Bytes) (types : Bytes)
    → Apart seen ts
    → Controlled (length seen) ts types
    → check_tokens seen ts types ≡ ok tt
unfolding check_tokens
check_tokens-ok [] seen types a c = refl
check_tokens-ok (t ∷ ts) seen types a c =
    rw (place-none t seen a.0, no_empty t c.0)
      (check_tokens-ok ts (seen ++ t ∷ []) types a.1
        (subst (λ i. Controlled i ts types) (omega (arith, length-append seen (t ∷ []))) c.1))
  where
    no_empty :
        (u : Bytes)
        → (get_or types (length seen) 0 ≡ 3 → u ≢ [])
        → (get_or types (length seen) 0 == 3 && is_empty u) ≡ false
    no_empty [] h = ground (arith, h)
    no_empty (b ∷ u) h = ground arith

write_texts-length :
    (ts : List Bytes) (rest : Bytes) → 2 * length ts + length rest ≤ length (write_texts ts rest)
unfolding write_texts
write_texts-length [] rest = omega arith
write_texts-length (t ∷ ts) rest =
    omega (arith, write_texts-length ts rest, length-append t (write_texts ts rest))

-- The tables that a vocabulary stands for.
abbrev pub tables_of : Vocab → Tables
tables_of v = record {
  tokens = v.tokens;
  types = v.types;
  merges = v.merges;
  specials = special_list v.tokens v.types;
}

load_tables-export :
    (v : Vocab)
    → IsValid v
    → load_tables
        (length v.tokens)
        v.bos
        v.eos
        (write_texts v.tokens (v.types ++ (le4 (length v.merges) ++ write_texts v.merges [])))
      ≡ ok (record { bos = v.bos; eos = v.eos; tables = tables_of v })
unfolding load_tables
load_tables-export v valid =
    let types_read : read_bytes (length v.tokens)
          (v.types ++ (le4 (length v.merges) ++ write_texts v.merges []))
        ≡ ok (v.types, le4 (length v.merges) ++ write_texts v.merges []) =
      subst
        (λ n.
          read_bytes n (v.types ++ (le4 (length v.merges) ++ write_texts v.merges []))
          ≡ ok (v.types, le4 (length v.merges) ++ write_texts v.merges []))
        valid.all_typed
        (read_bytes-append v.types (le4 (length v.merges) ++ write_texts v.merges [])) in
    let bounded : (ltb max_merges (length v.merges)
          || ltb int_max (length v.merges)
          || ltb (length (write_texts v.merges []) / 2) (length v.merges))
        ≡ false =
      (let room = write_texts-length v.merges [] in
        let few = valid.few_merges in ground (arith, room, few)) in
    rw
      (
        read_tokens-write_texts v.tokens
            (v.types ++ (le4 (length v.merges) ++ write_texts v.merges [])) valid.short_tokens,
        types_read,
        read_uint-le4 (length v.merges) (write_texts v.merges []) (omega (arith, valid.few_merges)),
        bounded,
        read_merges-write_texts v.merges [] [] valid.short_merges valid.apart_merges
            valid.merges_full,
        check_tokens-ok v.tokens [] v.types valid.apart_tokens valid.controls_full,
      )
      refl

-- The constructor reads back any vocabulary within its bounds that the script can write.
pub load-export_tok :
    (v : Vocab)
    → IsValid v
    → load (export_tok v) ≡ ok (record { bos = v.bos; eos = v.eos; tables = tables_of v })
unfolding load export_tok
load-export_tok v valid =
    let rest = v.types ++ (le4 (length v.merges) ++ write_texts v.merges []) in
    let body = write_texts v.tokens rest in
    let few : length v.tokens < 2 ^ 32 = omega (arith, valid.few_tokens) in
    let counted : (length v.tokens == 0
          || ltb max_tokens (length v.tokens)
          || ltb int_max (length v.tokens)
          || ltb (length body / 3) (length v.tokens))
        ≡ false =
      (let room = write_texts-length v.tokens rest in
        let types_in = length-append v.types (le4 (length v.merges) ++ write_texts v.merges []) in
        let typed = valid.all_typed in
        let most = valid.few_tokens in
        let least = valid.some_token in ground (arith, room, types_in, typed, most, least)) in
    let inside : (leb (length v.tokens) v.bos || leb (length v.tokens) v.eos) ≡ false =
      (let b = valid.bos_in in let e = valid.eos_in in ground (arith, b, e)) in
    rw
      (
        read_uint-le4 magic_word
            (le4 1 ++ (le4 (length v.tokens) ++ (le4 v.bos ++ (le4 v.eos ++ body)))) (omega arith),
        read_uint-le4 1 (le4 (length v.tokens) ++ (le4 v.bos ++ (le4 v.eos ++ body))) (omega arith),
        read_uint-le4 (length v.tokens) (le4 v.bos ++ (le4 v.eos ++ body)) few,
        read_uint-le4 v.bos (le4 v.eos ++ body) (omega (arith, valid.bos_in)),
        read_uint-le4 v.eos body (omega (arith, valid.eos_in)),
        counted,
        inside,
      )
      (load_tables-export v valid)
