-- ===== src/Toolgram/MaskCache/Exact.antt =====
-- The cached masks are those of the states that they are returned for.
use q.Prelude.{
  ℕ, ◌+◌, ◌-◌, ◌*◌, ◌<◌, zero, suc, true, false, none, some, List, [], ◌∷◌, ◌++◌, length, get_or,
  get_elem?, replicate, Option-cases, Bool-cases, inl, inr, ◌≡◌, refl, sym, ap, subst, ◌∙◌, arith,
  Bytes, bytes_eq, bytes_eq_iff, get_or_append_lt, get_or_append_ge, length-append, ℤ,
}
use q.Toolgram.State.{Grammar}
use q.Toolgram.Machine.{token_ok, done}
use q.Toolgram.Signature.{signature}
use q.Toolgram.Signature.Tracked.{Tracked}
use q.Toolgram.Signature.Keys.{signature-tokens}
use q.Toolgram.MaskCache.{
  Mask, ToolMaskCache, init, mask_eq, find_key, legal, mask_from, build_mask, store, get_in, get,
  mask, size,
}

mask_eq_sound : (a b : Mask) → mask_eq a b ≡ true → a ≡ b
unfolding mask_eq
mask_eq_sound [] [] h = refl
mask_eq_sound (x ∷ a) (y ∷ b) h = ground (arith, mask_eq_sound a b)
mask_eq_sound [] (y ∷ b) h = absurd (cc)
mask_eq_sound (x ∷ a) [] h = absurd (cc)

mask_from-tokens :
    (closer : ℤ) (g h : Grammar) (id : ℕ) (v : List Bytes)
    → ((s : Bytes) → token_ok g s ≡ token_ok h s) × (done g ≡ done h)
    → mask_from closer g id v ≡ mask_from closer h id v
unfolding mask_from
mask_from-tokens closer g h id [] same = refl
mask_from-tokens closer g h id (text ∷ v) same =
    ground (arith, same.0 text, mask_from-tokens closer g h (id + 1) v same)

get_elem?-mask_from :
    (closer : ℤ) (g : Grammar) (id k : ℕ) (v : List Bytes) (pad : Mask) {text : Bytes}
    → get_elem? v k ≡ some text
    → get_elem? (mask_from closer g id v ++ pad) k ≡ some (legal closer g (id + k) text)
unfolding mask_from
get_elem?-mask_from closer g id k [] pad h = absurd (cc)
get_elem?-mask_from closer g id zero (t ∷ v) pad h = ground arith
get_elem?-mask_from closer g id (suc k) (t ∷ v) pad {text} h =
    get_elem?-mask_from closer g (id + 1) k v pad h
    ∙ ap (λ i. some (legal closer g i text)) (omega arith)

-- Each signature in the index has the mask of every state that has the signature, and each content
-- its own mask.
pub record CacheFits (c : ToolMaskCache) : Type 0 where
  pub index_fits :
      (sig : Bytes) (i : ℕ)
      → find_key bytes_eq sig c.index ≡ some i
      → (i < size c) × ((g : Grammar) → Tracked g → signature g ≡ sig → mask c i ≡ build_mask c g)
  pub content_fits :
      (m : Mask) (i : ℕ) → find_key mask_eq m c.content ≡ some i → (i < size c) × (mask c i ≡ m)

pub init-CacheFits : (v : List Bytes) (closer : ℤ) → CacheFits (init v closer)
unfolding init find_key
init-CacheFits v closer = record {
  index_fits = λ sig i h. absurd (cc);
  content_fits = λ m i h. absurd (cc);
}

-- A mask depends on the vocabulary that the cache was made for, and on nothing else in it.
pub build_mask-SameVocab :
    (c c' : ToolMaskCache) (g : Grammar)
    → (c'.vocab ≡ c.vocab) × (c'.closer_id ≡ c.closer_id) × (c'.words ≡ c.words)
    → build_mask c' g ≡ build_mask c g
unfolding build_mask
build_mask-SameVocab c c' g same =
    λ i. mask_from (same.1 i) g 0 (same.0 i) ++ replicate (same.2 i * 32 - length (same.0 i)) false

-- What a call of `get` promises of the cache and of the index that it returns.
pub record Returns (c : ToolMaskCache) (g : Grammar) (c' : ToolMaskCache) (i : ℕ) : Type 0 where
  pub fits : CacheFits c'
  pub inside : i < size c'
  pub exact : mask c' i ≡ build_mask c g
  pub same_vocab : (c'.vocab ≡ c.vocab) × (c'.closer_id ≡ c.closer_id) × (c'.words ≡ c.words)
  pub stable : (j : ℕ) → j < size c → (j < size c') × (mask c' j ≡ mask c j)

same_mask :
    (c : ToolMaskCache) (g h : Grammar)
    → Tracked g
    → Tracked h
    → signature g ≡ signature h
    → build_mask c g ≡ build_mask c h
unfolding build_mask
same_mask c g h t u e =
    ap (λ m. m ++ replicate (c.words * 32 - length c.vocab) false)
      (mask_from-tokens c.closer_id g h 0 c.vocab (signature-tokens g h t u e))

-- A mask is appended with its content.
abbrev pushed : ToolMaskCache → Mask → ToolMaskCache
pushed c m = record c { masks = c.masks ++ m ∷ []; content = (m, size c) ∷ c.content }

mask-pushed_old :
    (c : ToolMaskCache) (m : Mask) (j : ℕ) → j < size c → mask (pushed c m) j ≡ mask c j
unfolding mask
mask-pushed_old c m j lt = get_or_append_lt c.masks (m ∷ []) j [] lt

mask-pushed_new : (c : ToolMaskCache) (m : Mask) → mask (pushed c m) (size c) ≡ m
unfolding mask
mask-pushed_new c m =
    let start : size c - length c.masks ≡ 0 = omega arith in
    get_or_append_ge c.masks (m ∷ []) (size c) [] (omega arith)
    ∙ ap (λ k. get_or (m ∷ []) k []) start

build_mask-pushed :
    (c : ToolMaskCache) (m : Mask) (g : Grammar) → build_mask c g ≡ build_mask (pushed c m) g
unfolding build_mask
build_mask-pushed c m g = refl

size-pushed : (c : ToolMaskCache) (m : Mask) → size (pushed c m) ≡ size c + 1
size-pushed c m = length-append c.masks (m ∷ [])

pushed-CacheFits : (c : ToolMaskCache) (m : Mask) → CacheFits c → CacheFits (pushed c m)
unfolding build_mask find_key
pushed-CacheFits c m v = record {
  index_fits = λ sig i h.
      let (low, own) = v.index_fits sig i h in
      (omega (arith, size-pushed c m), λ g t e. mask-pushed_old c m i low ∙ own g t e);
  content_fits = λ k i h. elim (Bool-cases (mask_eq m k)) [
    | inl hit ↦
        let same : size c ≡ i = ground arith in
        (
          omega (arith, size-pushed c m),
          subst (λ x. mask (pushed c m) x ≡ k) same (mask-pushed_new c m ∙ mask_eq_sound m k hit),
        )
    | inr miss ↦
        let (low, own) = v.content_fits k i (rw miss at h) in
        (omega (arith, size-pushed c m), mask-pushed_old c m i low ∙ own)
  ];
}

module _ (c : ToolMaskCache) (v : CacheFits c) (g : Grammar) (t : Tracked g) where
  index_known :
      (i : ℕ)
      → i < size c
      → mask c i ≡ build_mask c g
      → Returns c g (record c { index = (signature g, i) ∷ c.index }) i
  unfolding find_key mask build_mask
  index_known i low e = record {
    fits = record {
      index_fits = λ sig j h. elim (Bool-cases (bytes_eq (signature g) sig)) [
        | inl hit ↦
            let same : i ≡ j = ground arith in
            (
              omega arith,
              λ k u f.
                  subst (λ x. mask c x ≡ build_mask c k) same
                    (e ∙ same_mask c g k t u ((bytes_eq_iff (signature g) sig).0 hit ∙ sym f)),
            )
        | inr miss ↦ v.index_fits sig j (rw miss at h)
      ];
      content_fits = v.content_fits;
    };
    inside = low;
    exact = e;
    same_vocab = (refl, refl, refl);
    stable = λ j lt. (lt, refl);
  }

module _ (c : ToolMaskCache) (v : CacheFits c) (g : Grammar) (t : Tracked g) where
  stored-Returns :
      let r =
        store c (signature g) (build_mask c g) (find_key mask_eq (build_mask c g) c.content) in
      Returns c g r.0 r.1
  unfolding store
  stored-Returns = elim (Option-cases (find_key mask_eq (build_mask c g) c.content)) [
    | inr (i, e) ↦
        let (low, own) = v.content_fits (build_mask c g) i e in rw e (index_known c v g t i low own)
    | inl e ↦
        let m = build_mask c g in
        let next =
          index_known (pushed c m) (pushed-CacheFits c m v) g t (size c)
            (omega (arith, size-pushed c m)) (mask-pushed_new c m ∙ build_mask-pushed c m g) in
        rw e (record {
          fits = next.fits;
          inside = next.inside;
          exact = next.exact ∙ sym (build_mask-pushed c m g);
          same_vocab = (refl, refl, refl);
          stable = λ j lt. (
            omega (arith, size-pushed c m),
            (next.stable j (omega (arith, size-pushed c m))).1 ∙ mask-pushed_old c m j lt,
          );
        })
  ]

  pub get-Returns : Returns c g (get c g).0 (get c g).1
  unfolding get
  get-Returns = elim (Option-cases (find_key bytes_eq (signature g) c.index)) [
    | inr (i, e) ↦ rw e (known i e)
    | inl e ↦ rw e missed
  ]
    where
      known : (i : ℕ) → find_key bytes_eq (signature g) c.index ≡ some i → Returns c g c i
      known i e = record {
        fits = v;
        inside = (v.index_fits (signature g) i e).0;
        exact = (v.index_fits (signature g) i e).1 g t refl;
        same_vocab = (refl, refl, refl);
        stable = λ j lt. (lt, refl);
      }

      missed : Returns c g (get_in c g none).0 (get_in c g none).1
      missed = unfold get_in in stored-Returns

-- The cache after the masks of a list of states were asked for.
abbrev pub get_all : ToolMaskCache → List Grammar → ToolMaskCache
get_all c [] = c
get_all c (g ∷ gs) = get_all (get c g).0 gs

abbrev pub AllTracked : List Grammar → Type 0
AllTracked [] = Unit
AllTracked (g ∷ gs) = Tracked g × AllTracked gs

record Kept (c c' : ToolMaskCache) : Type 0 where
  fits : CacheFits c'
  same_vocab : c'.vocab ≡ c.vocab
  same_closer : c'.closer_id ≡ c.closer_id
  stable : (j : ℕ) → j < size c → (j < size c') × (mask c' j ≡ mask c j)

get_all-Kept :
    (c : ToolMaskCache) (gs : List Grammar) → CacheFits c → AllTracked gs → Kept c (get_all c gs)
get_all-Kept c [] v t = record {
  fits = v;
  same_vocab = refl;
  same_closer = refl;
  stable = λ j lt. (lt, refl);
}
get_all-Kept c (g ∷ gs) v t =
    let r = get-Returns c v g t.0 in
    let k = get_all-Kept (get c g).0 gs r.fits t.1 in
    record {
      fits = k.fits;
      same_vocab = k.same_vocab ∙ r.same_vocab.0;
      same_closer = k.same_closer ∙ r.same_vocab.1;
      stable =
          λ j lt. let (low, e) = r.stable j lt in let (low', e') = k.stable j low in (low', e' ∙ e);
    }

pub build_mask-bit :
    (c : ToolMaskCache) (g : Grammar) (id : ℕ) {text : Bytes}
    → get_elem? c.vocab id ≡ some text
    → get_elem? (build_mask c g) id ≡ some (legal c.closer_id g id text)
unfolding build_mask
build_mask-bit c g id {text} h =
    get_elem?-mask_from c.closer_id g 0 id c.vocab (replicate (c.words * 32 - length c.vocab) false)
      h
    ∙ ap (λ i. some (legal c.closer_id g i text)) (omega arith)

-- Whatever states the masks of a new cache were asked for before and after, the mask that is returned
-- for a state has, for each token of the vocabulary, the bit of its legality in that state: of the
-- closer that the body is complete, of an empty token false, and of any other that its bytes are
-- accepted. All states are those of live machines that fit, with clean allowlists, as the signature
-- needs.
pub get-mask :
    (vocab : List Bytes) (closer : ℤ) (before after : List Grammar) (g : Grammar) (id : ℕ)
    {text : Bytes}
    → AllTracked before
    → Tracked g
    → AllTracked after
    → get_elem? vocab id ≡ some text
    → get_elem?
        (mask
          (get_all (get (get_all (init vocab closer) before) g).0 after)
          (get (get_all (init vocab closer) before) g).1)
        id
      ≡ some (legal closer g id text)
get-mask vocab closer before after g id {text} t u w at =
    let c = get_all (init vocab closer) before in
    let k = get_all-Kept (init vocab closer) before (init-CacheFits vocab closer) t in
    let r = get-Returns c k.fits g u in
    let vocab_kept : c.vocab ≡ vocab = unfold init in k.same_vocab in
    let closer_kept : c.closer_id ≡ closer = unfold init in k.same_closer in
    let later = get_all-Kept (get c g).0 after r.fits w in
    ap (λ m. get_elem? m id) ((later.stable (get c g).1 r.inside).1 ∙ r.exact)
    ∙ build_mask-bit c g id (ap (λ v. get_elem? v id) vocab_kept ∙ at)
    ∙ ap (λ x. some (legal x g id text)) closer_kept
