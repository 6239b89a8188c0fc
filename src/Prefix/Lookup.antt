-- ===== src/Prefix/Lookup.antt =====
-- What `find` answers: the longest usable entry, verified against the stored tokens.
use q.Prelude.{
  ℕ, ◌≤◌, ◌<◌, true, false, ◌||◌, not, Option, none, some, List, [], ◌∷◌, bytes_eq, bytes_eq_iff,
  length, take, leb, ltb, is_empty, Among, ◌≡◌, refl, sym, subst, ◌∙◌, arith, inl, inr, Bool-cases,
  if_intro, false≢true, ◌↔◌,
}
use q.Prefix.Keys.{prefix_key}
use q.Prefix.Files.{Dir, File, lookup, read_tokens}
use q.Prefix.Cache.{
  Entry, PrefixCache, insert_longest, sort_longest, verify_file, verify, candidate, first_candidate,
  find,
}

-- The entry can be restored for the prompt: its file holds the tokens that the prompt begins with,
-- it is long enough, and it leaves a token to decode from.
pub record Usable (c : PrefixCache) (d : Dir) (prompt : List ℕ) (e : Entry) : Type 0 where
  pub file : File
  pub stored : lookup e.path d ≡ some file
  pub whole : e.len ≤ length file.tokens
  pub same : take e.len file.tokens ≡ take e.len prompt
  pub keyed : prefix_key prompt e.len ≡ e.key
  pub long : c.cfg.min_tokens ≤ e.len
  pub strict : e.len < length prompt

verify_file_iff :
    (o : Option File) (e : Entry) (prompt : List ℕ)
    → verify_file o e prompt ≡ true
    → (f : File) × (o ≡ some f)
      × (e.len ≤ length f.tokens)
      × (take e.len f.tokens ≡ take e.len prompt)
unfolding verify_file read_tokens
verify_file_iff none e prompt h = absurd (cc)
verify_file_iff (some f) e prompt h = elim (Bool-cases (leb e.len (length f.tokens))) [
  | inr short ↦ absurd (ground arith)
  | inl fits ↦
      let same : bytes_eq (take e.len f.tokens) (take e.len prompt) ≡ true = ground arith in
      (f, refl, ground arith, (bytes_eq_iff _ _).0 same)
]

candidate-Usable :
    (c : PrefixCache) (d : Dir) (prompt : List ℕ) (e : Entry)
    → candidate c d prompt e ≡ true
    → Usable c d prompt e
unfolding candidate verify
candidate-Usable c d prompt e h =
    let verified : verify_file (lookup e.path d) e prompt ≡ true = ground arith in
    let (f, stored, whole, same) = verify_file_iff (lookup e.path d) e prompt verified in
    record {
      file = f;
      stored = stored;
      whole = whole;
      same = same;
      keyed = ground arith;
      long = ground arith;
      strict = ground arith;
    }

Usable-candidate :
    (c : PrefixCache) (d : Dir) (prompt : List ℕ) (e : Entry)
    → Usable c d prompt e
    → candidate c d prompt e ≡ true
unfolding candidate verify verify_file read_tokens
Usable-candidate c d prompt e u =
    let same = (bytes_eq_iff _ _).1 u.same in
    let verified : verify_file (some u.file) e prompt ≡ true = ground arith in
    rw u.stored (ground arith)

-- No entry of the list is longer than `n`.
abbrev NoLonger : ℕ → List Entry → Type 0
NoLonger n [] = Unit
NoLonger n (e ∷ es) = (e.len ≤ n) × NoLonger n es

abbrev Descends : List Entry → Type 0
Descends [] = Unit
Descends (e ∷ es) = NoLonger e.len es × Descends es

NoLonger-weaken : (m n : ℕ) (es : List Entry) → m ≤ n → NoLonger m es → NoLonger n es
NoLonger-weaken m n [] h a = tt
NoLonger-weaken m n (e ∷ es) h a = (omega arith, NoLonger-weaken m n es h a.1)

NoLonger-Among : (n : ℕ) (es : List Entry) (e : Entry) → NoLonger n es → Among e es → e.len ≤ n
NoLonger-Among n [] e a h = elim h [ ]
NoLonger-Among n (f ∷ es) e a (inl same) = subst (λ (x : Entry). x.len ≤ n) same a.0
NoLonger-Among n (f ∷ es) e a (inr later) = NoLonger-Among n es e a.1 later

NoLonger-insert_longest :
    (n : ℕ) (e : Entry) (es : List Entry)
    → e.len ≤ n
    → NoLonger n es
    → NoLonger n (insert_longest e es)
unfolding insert_longest
NoLonger-insert_longest n e [] h a = (h, tt)
NoLonger-insert_longest n e (f ∷ es) h a =
    if_intro (NoLonger n) (ltb e.len f.len) (λ longer. (a.0, NoLonger-insert_longest n e es h a.1))
      (λ first. (h, a))

Descends-insert_longest :
    (e : Entry) (es : List Entry) → Descends es → Descends (insert_longest e es)
unfolding insert_longest
Descends-insert_longest e [] a = (tt, tt)
Descends-insert_longest e (f ∷ es) a =
    if_intro Descends (ltb e.len f.len)
      (λ longer.
        (NoLonger-insert_longest f.len e es (ground arith) a.0, Descends-insert_longest e es a.1))
      (λ first.
        let low : f.len ≤ e.len = ground arith in
        ((low, NoLonger-weaken f.len e.len es low a.0), a))

sort_longest-Descends : (es : List Entry) → Descends (sort_longest es)
unfolding sort_longest
sort_longest-Descends [] = tt
sort_longest-Descends (e ∷ es) =
    Descends-insert_longest e (sort_longest es) (sort_longest-Descends es)

Among-insert_longest :
    (x e : Entry) (es : List Entry) → Among x (insert_longest e es) ↔ Among x (e ∷ es)
unfolding insert_longest
Among-insert_longest x e [] = (λ h. h, λ h. h)
Among-insert_longest x e (f ∷ es) =
    let rest = Among-insert_longest x e es in
    if_intro (λ l. Among x l ↔ Among x (e ∷ (f ∷ es))) (ltb e.len f.len)
      (λ longer. (swap_in rest.0, swap_out rest.1)) (λ first. (λ h. h, λ h. h))
  where
    swap_in :
        (Among x (insert_longest e es) → Among x (e ∷ es))
        → Among x (f ∷ insert_longest e es)
        → Among x (e ∷ (f ∷ es))
    swap_in k (inl h) = inr (inl h)
    swap_in k (inr h) = elim (k h) [ inl g ↦ inl g | inr g ↦ inr (inr g) ]

    swap_out :
        (Among x (e ∷ es) → Among x (insert_longest e es))
        → Among x (e ∷ (f ∷ es))
        → Among x (f ∷ insert_longest e es)
    swap_out k (inl h) = inr (k (inl h))
    swap_out k (inr (inl h)) = inl h
    swap_out k (inr (inr h)) = inr (k (inr h))

Among-sort_longest : (x : Entry) (es : List Entry) → Among x (sort_longest es) ↔ Among x es
unfolding sort_longest
Among-sort_longest x [] = (λ h. h, λ h. h)
Among-sort_longest x (e ∷ es) =
    let ins = Among-insert_longest x e (sort_longest es) in
    let rest = Among-sort_longest x es in
    (
      λ h. under (sort_longest es) es rest.0 (ins.0 h),
      λ h. ins.1 (under es (sort_longest es) rest.1 h),
    )
  where
    under : (l m : List Entry) → (Among x l → Among x m) → Among x (e ∷ l) → Among x (e ∷ m)
    under l m k (inl h) = inl h
    under l m k (inr h) = inr (k h)

-- What the answer says about the candidates of a list.
abbrev FirstOf : PrefixCache → Dir → List ℕ → List Entry → Option Entry → Type 0
FirstOf c d prompt es none = (e : Entry) → Among e es → ¬ Usable c d prompt e
FirstOf c d prompt es (some e) =
    Among e es
    × Usable c d prompt e
    × ((x : Entry) → Among x es → Usable c d prompt x → x.len ≤ e.len)

first_candidate-FirstOf :
    (c : PrefixCache) (d : Dir) (prompt : List ℕ) (es : List Entry)
    → Descends es
    → FirstOf c d prompt es (first_candidate c d prompt es)
unfolding first_candidate
first_candidate-FirstOf c d prompt [] a = λ e h. elim h [ ]
first_candidate-FirstOf c d prompt (e ∷ es) a =
    if_intro (FirstOf c d prompt (e ∷ es)) (candidate c d prompt e)
      (λ hit. (inl refl, candidate-Usable c d prompt e hit, here))
      (λ miss.
        later miss (first_candidate c d prompt es) (first_candidate-FirstOf c d prompt es a.1))
  where
    here : (x : Entry) → Among x (e ∷ es) → Usable c d prompt x → x.len ≤ e.len
    here x (inl same) u = subst (λ (y : Entry). y.len ≤ e.len) same (omega arith)
    here x (inr in_rest) u = NoLonger-Among e.len es x a.0 in_rest

    not_here : candidate c d prompt e ≡ false → (x : Entry) → e ≡ x → ¬ Usable c d prompt x
    not_here miss x same u =
        false≢true
          (sym miss ∙ Usable-candidate c d prompt e (subst (Usable c d prompt) (sym same) u))

    later :
        candidate c d prompt e ≡ false
        → (o : Option Entry) → FirstOf c d prompt es o
        → FirstOf c d prompt (e ∷ es) o
    later miss none f = λ x h u. elim h [ inl s ↦ not_here miss x s u | inr r ↦ f x r u ]
    later miss (some y) f =
        (inr f.0, f.1, λ x h u. elim h [ inl s ↦ absurd (not_here miss x s u) | inr r ↦ f.2 x r u ])

-- What an answer of `find` says.
abbrev pub Answers : PrefixCache → Dir → List ℕ → Option Entry → Type 0
Answers c d prompt none = (e : Entry) → Among e c.index → ¬ Usable c d prompt e
Answers c d prompt (some e) =
    Among e c.index
    × Usable c d prompt e
    × ((x : Entry) → Among x c.index → Usable c d prompt x → x.len ≤ e.len)

-- What an enabled cache answers: an entry that is found is one of the index, its file's first tokens
-- are those of the prompt, which is longer, it has the configured length at least, and no entry of
-- the index that can be restored for the prompt is longer. If it finds none, no entry of the index
-- can be restored.
pub find-Answers :
    (c : PrefixCache) (d : Dir) (prompt : List ℕ)
    → c.enabled ≡ true
    → Answers c d prompt (find c d prompt)
unfolding find
find-Answers c d prompt on =
    if_intro (Answers c d prompt) (not c.enabled || is_empty prompt) (λ off e h u. nothing off u)
      (λ go.
        unsorted (first_candidate c d prompt (sort_longest c.index)) (
          first_candidate-FirstOf c d prompt (sort_longest c.index)
            (sort_longest-Descends c.index)))
  where
    nothing : (not c.enabled || is_empty prompt) ≡ true → {e : Entry} → Usable c d prompt e → ⊥
    nothing off u = absurd (ground (arith, u.strict))

    unsorted :
        (o : Option Entry) → FirstOf c d prompt (sort_longest c.index) o → Answers c d prompt o
    unsorted none f = λ e h u. f e ((Among-sort_longest e c.index).1 h) u
    unsorted (some e) f = (
      (Among-sort_longest e c.index).0 f.0,
      f.1,
      λ x h u. f.2 x ((Among-sort_longest x c.index).1 h) u,
    )
