-- ===== src/Tokenizer/Load/Accepts.antt =====
-- What the constructor has made sure of when it returns.
use q.Prelude.{
  ◌/◌, inl, inr, ℕ, zero, suc, ◌≤◌, ◌<◌, Bool, true, false, not, ◌&&◌, ◌||◌, Option, none, some,
  List, [], ◌∷◌, ◌++◌, ltb, leb, ◌==◌, if◌then◌else◌, ◌≡◌, ◌≢◌, refl, sym, ap, ◌∙◌, arith, Bytes,
  codes, length, length-append, length-take, take, drop, get_or, is_empty, Bool-cases, subst,
}
use q.Tokenizer.Bpe.{place, int_max}
use q.Tokenizer.Encode.Visible.{NoEmpty}
use q.Tokenizer.Load.{
  TokError, Result, ok, throws, ◌>>=◌, refuse, read_bytes, read_uint, read_tokens, lp, is_some,
  read_merges, check_tokens, controls, added, insert_longest, longest_first, special_list, Loaded,
  max_tokens, max_merges, magic_word, load_tables, load,
}

-- Where a chain returns, its first part has returned, and so has the rest at its value.
returned :
    {A B : Type 0} (first : Result A) (next : A → Result B) {b : B}
    → (first >>= next) ≡ ok b
    → (v : A) × (first ≡ ok v) × (next v ≡ ok b)
returned (throws why) next done = cc
returned (ok v) next done = (v, refl, done)

refuse_passed : (b : Bool) (e : TokError) {u : Unit {0}} → refuse b e ≡ ok u → b ≡ false
refuse_passed true e h = cc
refuse_passed false e h = refl

ok-inj : {A : Type 0} {a b : A} → ok a ≡ ok b → a ≡ b
ok-inj h = cc

-- A control token's text is not empty.
controls-NoEmpty :
    (ts seen : List Bytes) (types : List ℕ)
    → check_tokens seen ts types ≡ ok tt
    → NoEmpty (controls (length seen) ts types)
unfolding check_tokens controls
controls-NoEmpty [] seen types h = tt
controls-NoEmpty (t ∷ ts) seen types h =
    let (u, _, h1) = returned (refuse (is_some (place t seen)) TokError.duplicate_token) _ h in
    let (u', full, h2) =
      returned (refuse (get_or types (length seen) 0 == 3 && is_empty t) TokError.empty_control) _
        h1 in
    let later = controls-NoEmpty ts (seen ++ t ∷ []) types h2 in
    let next : length (seen ++ t ∷ []) ≡ suc (length seen) =
      omega (arith, length-append seen (t ∷ [])) in
    go (get_or types (length seen) 0 == 3) t (refuse_passed _ _ full)
      (subst (λ i. NoEmpty (controls i ts types)) next later)
  where
    go :
        (b : Bool) (s : Bytes)
        → (b && is_empty s) ≡ false
        → NoEmpty (controls (suc (length seen)) ts types)
        → NoEmpty (
            if b
            then (s, length seen) ∷ controls (suc (length seen)) ts types
            else controls (suc (length seen)) ts types)
    go true [] e n = absurd (ground arith)
    go true (c ∷ s) e n = (λ x. absurd (ground arith), n)
    go false s e n = n

NoEmpty-append : (a b : List (Bytes × ℕ)) → NoEmpty a → NoEmpty b → NoEmpty (a ++ b)
NoEmpty-append [] b x y = y
NoEmpty-append ((s, i) ∷ a) b x y = (x.0, NoEmpty-append a b x.1 y)

added-NoEmpty : (s : Bytes) (o : Option ℕ) (types : List ℕ) → s ≢ [] → NoEmpty (added s o types)
added-NoEmpty s none types h = tt
added-NoEmpty s (some i) types h =
    elim (get_or types i 0 == 3) as (λ b. NoEmpty (if b then [] else (s, i) ∷ [])) [
      | true ↦ tt
      | false ↦ (h, tt)
    ]

insert_longest-NoEmpty :
    (s : Bytes) (i : ℕ) (ss : List (Bytes × ℕ))
    → s ≢ []
    → NoEmpty ss
    → NoEmpty (insert_longest (s, i) ss)
unfolding insert_longest
insert_longest-NoEmpty s i [] h n = (h, tt)
insert_longest-NoEmpty s i ((t, j) ∷ ss) h n = elim (Bool-cases (ltb (length s) (length t))) [
  | inl e ↦ rw e (n.0, insert_longest-NoEmpty s i ss h n.1)
  | inr e ↦ rw e (h, n)
]

longest_first-NoEmpty : (ss : List (Bytes × ℕ)) → NoEmpty ss → NoEmpty (longest_first ss)
unfolding longest_first
longest_first-NoEmpty [] n = tt
longest_first-NoEmpty ((s, i) ∷ ss) n =
    insert_longest-NoEmpty s i (longest_first ss) n.0 (longest_first-NoEmpty ss n.1)

special_list-NoEmpty :
    (tokens : List Bytes) (types : List ℕ)
    → check_tokens [] tokens types ≡ ok tt
    → NoEmpty (special_list tokens types)
unfolding special_list
special_list-NoEmpty tokens types h =
    let think = added (codes "<think>") (place (codes "<think>") tokens) types in
    let think_end = added (codes "</think>") (place (codes "</think>") tokens) types in
    longest_first-NoEmpty (controls 0 tokens types ++ (think ++ think_end)) (
      NoEmpty-append (controls 0 tokens types) (think ++ think_end)
        (controls-NoEmpty tokens [] types h)
        (NoEmpty-append think think_end
          (added-NoEmpty (codes "<think>") (place (codes "<think>") tokens) types
            (λ e. absurd (ground arith)))
          (added-NoEmpty (codes "</think>") (place (codes "</think>") tokens) types
            (λ e. absurd (ground arith)))))

read_tokens-length :
    (n : ℕ) (left : Bytes) (ts : List Bytes) (rest : Bytes)
    → read_tokens n left ≡ ok (ts, rest)
    → length ts ≡ n
unfolding read_tokens
read_tokens-length zero left ts rest h =
    sym (ap (λ (p : List Bytes × Bytes). length p.0) (ok-inj h))
read_tokens-length (suc n) left ts rest h =
    let ((t, l1), _, h1) = returned (lp left) _ h in
    let ((us, l2), e2, h2) = returned (read_tokens n l1) _ h1 in
    sym (ap (λ (p : List Bytes × Bytes). length p.0) (ok-inj h2))
    ∙ ap suc (read_tokens-length n l1 us l2 e2)

read_bytes-length : (n : ℕ) (left s rest : Bytes) → read_bytes n left ≡ ok (s, rest) → length s ≡ n
unfolding read_bytes
read_bytes-length n left s rest h = go (ltb (length left) n) refl h
  where
    given : Bool → Result (Bytes × Bytes)
    given b = if b then throws TokError.truncated else ok (take n left, drop n left)

    go : (b : Bool) → ltb (length left) n ≡ b → given b ≡ ok (s, rest) → length s ≡ n
    go true e x = cc
    go false e x =
        let whole = length-take n left in
        sym (ap (λ (p : Bytes × Bytes). length p.0) (ok-inj x)) ∙ ground (arith, whole)

-- What holds of every tokenizer that is constructed.
pub record Accepts (l : Loaded) : Type 0 where
  pub bos_in : l.bos < length l.tables.tokens
  pub eos_in : l.eos < length l.tables.tokens
  pub all_typed : length l.tables.types ≡ length l.tables.tokens
  pub bounded : length l.tables.tokens ≤ max_tokens
  pub no_empty : NoEmpty l.tables.specials

in_range : (n b e : ℕ) → (leb n b || leb n e) ≡ false → (b < n) × (e < n)
in_range n b e h = ground (arith, h)

few_enough :
    (n left : ℕ)
    → (n == 0 || ltb max_tokens n || ltb int_max n || ltb (left / 3) n) ≡ false
    → n ≤ max_tokens
few_enough n left h = ground (arith, h)

load_tables-Accepts :
    (n bos eos : ℕ) (left : Bytes) (l : Loaded)
    → bos < n
    → eos < n
    → n ≤ max_tokens
    → load_tables n bos eos left ≡ ok l
    → Accepts l
unfolding load_tables
load_tables-Accepts n bos eos left l b e most h =
    let ((tokens, l1), e1, h1) = returned (read_tokens n left) _ h in
    let ((types, l2), e2, h2) = returned (read_bytes n l1) _ h1 in
    let ((nm, l3), e3, h3) = returned (read_uint 4 l2) _ h2 in
    let (u4, e4, h4) =
      returned
        (refuse (ltb max_merges nm || ltb int_max nm || ltb (length l3 / 2) nm) TokError.bad_merges)
        _ h3 in
    let ((merges, l5), e5, h5) = returned (read_merges nm [] l3) _ h4 in
    let (u6, e6, h6) = returned (refuse (not (is_empty l5)) TokError.trailing) _ h5 in
    let (u7, e7, h7) = returned (check_tokens [] tokens types) _ h6 in
    let counted = read_tokens-length n left tokens l1 e1 in
    let typed = read_bytes-length n l1 types l2 e2 in
    let built : Loaded = record {
      bos = bos;
      eos = eos;
      tables = record {
        tokens = tokens;
        types = types;
        merges = merges;
        specials = special_list tokens types;
      };
    } in
    let accepted : Accepts built = record {
      bos_in = omega (arith, counted);
      eos_in = omega (arith, counted);
      all_typed = typed ∙ sym counted;
      bounded = omega (arith, counted);
      no_empty = special_list-NoEmpty tokens types e7;
    } in
    subst Accepts (ok-inj h7) accepted

-- Whatever the file, if the constructor does not throw then both special ids are tokens, each token
-- has a type, there are not too many, and no special token is the empty text.
pub load-Accepts : (file : Bytes) (l : Loaded) → load file ≡ ok l → Accepts l
unfolding load
load-Accepts file l h =
    let ((magic, l1), e1, h1) = returned (read_uint 4 file) _ h in
    let ((ver, l2), e2, h2) = returned (read_uint 4 l1) _ h1 in
    let ((n, l3), e3, h3) = returned (read_uint 4 l2) _ h2 in
    let ((bos, l4), e4, h4) = returned (read_uint 4 l3) _ h3 in
    let ((eos, l5), e5, h5) = returned (read_uint 4 l4) _ h4 in
    let (u6, e6, h6) = returned (refuse (not (magic == magic_word)) TokError.bad_magic) _ h5 in
    let (u7, e7, h7) = returned (refuse (not (ver == 1)) TokError.bad_version) _ h6 in
    let (u8, e8, h8) =
      returned
        (refuse (n == 0 || ltb max_tokens n || ltb int_max n || ltb (length l5 / 3) n)
          TokError.bad_count)
        _ h7 in
    let (u9, e9, h9) = returned (refuse (leb n bos || leb n eos) TokError.bad_special) _ h8 in
    let few : (n == 0 || ltb max_tokens n || ltb int_max n || ltb (length l5 / 3) n) ≡ false =
      refuse_passed _ _ e8 in
    let inside : (leb n bos || leb n eos) ≡ false = refuse_passed _ _ e9 in
    let (b, e) = in_range n bos eos inside in
    load_tables-Accepts n bos eos l5 l b e (few_enough n (length l5) few) h9
