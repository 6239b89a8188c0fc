-- ===== src/Constrain/Pool.antt =====
-- The masks in the engine's pool: an id that `mask_id` returns is that of the mask of its state.
use q.Prelude.{
  ℕ, zero, suc, ◌+◌, ◌-◌, ◌<◌, false, some, List, [], ◌∷◌, ◌++◌, leb, length, get_or, get_elem?,
  replicate, Bool-cases, inl, inr, ◌≡◌, refl, sym, ap, subst, ◌∙◌, arith, length-append, ℤ, pos,
  negsuc, if◌then◌else◌, ◌==◌,
}
use q.Toolgram.State.{Grammar}
use q.Toolgram.Signature.Tracked.{Tracked}
use q.Toolgram.MaskCache
use q.Toolgram.MaskCache.{Mask, ToolMaskCache, build_mask, size}
use q.Toolgram.MaskCache.Exact.{CacheFits, Returns, get-Returns}
use q.Constrain.Engine.{mask_pool_used, mask_pool_add, mask_pool_cap}
use q.Constrain.State.{Constrainer, minus_two, grow, set_at, upload, rebind, mask_id}

-- An entry of the map is the pool index of the mask with its cache index.
abbrev pub Mapped : List Mask → ToolMaskCache → List ℤ → Type 0
Mapped p c m =
    (ci k : ℕ)
    → get_or m ci minus_two ≡ pos k
    → (ci < size c) × (get_elem? p k ≡ some (MaskCache.mask c ci))

pub record PoolFitsAt (p : List Mask) (c : ToolMaskCache) (m : List ℤ) : Type 0 where
  pub cache_fits : CacheFits c
  pub mapped : Mapped p c m

abbrev pub PoolFits : Constrainer → Type 0
PoolFits s = PoolFitsAt s.eng.pool s.cache s.host2dev

get_elem?-some_lt {ℓ} :
    {A : Type ℓ} (xs : List A) (i : ℕ) {x : A} → get_elem? xs i ≡ some x → i < length xs
get_elem?-some_lt [] i h = absurd (cc)
get_elem?-some_lt (y ∷ xs) zero h = omega arith
get_elem?-some_lt (y ∷ xs) (suc i) h = omega (arith, get_elem?-some_lt xs i h)

get_elem?-append_some {ℓ} :
    {A : Type ℓ} (xs ys : List A) (i : ℕ) {x : A}
    → get_elem? xs i ≡ some x
    → get_elem? (xs ++ ys) i ≡ some x
get_elem?-append_some [] ys i h = absurd (cc)
get_elem?-append_some (y ∷ xs) ys zero h = h
get_elem?-append_some (y ∷ xs) ys (suc i) h = get_elem?-append_some xs ys i h

get_elem?-append_length {ℓ} :
    {A : Type ℓ} (xs : List A) (x : A) → get_elem? (xs ++ x ∷ []) (length xs) ≡ some x
get_elem?-append_length [] x = refl
get_elem?-append_length (y ∷ xs) x = get_elem?-append_length xs x

get_or-replicate : (n i : ℕ) (d : ℤ) → get_or (replicate n d) i d ≡ d
get_or-replicate zero i d = refl
get_or-replicate (suc n) zero d = refl
get_or-replicate (suc n) (suc i) d = get_or-replicate n i d

get_or-append_replicate :
    (m : List ℤ) (n i : ℕ) (d : ℤ) → get_or (m ++ replicate n d) i d ≡ get_or m i d
get_or-append_replicate [] n i d = get_or-replicate n i d
get_or-append_replicate (x ∷ m) n zero d = refl
get_or-append_replicate (x ∷ m) n (suc i) d = get_or-append_replicate m n i d

-- `resize` adds entries that were never uploaded.
get_or-grow : (m : List ℤ) (n i : ℕ) → get_or (grow m n) i minus_two ≡ get_or m i minus_two
unfolding grow
get_or-grow m n i = elim (Bool-cases (leb (length m) n)) [
  | inl short ↦ rw short (get_or-append_replicate m (n + 1 - length m) i minus_two)
  | inr long ↦ rw long
]

length-grow : (m : List ℤ) (n : ℕ) → n < length (grow m n)
unfolding grow
length-grow m n = elim (Bool-cases (leb (length m) n)) [
  | inl short ↦ rw short (
      omega (
        arith,
        length-append m (replicate (n + 1 - length m) minus_two),
        length-replicate (n + 1 - length m),
      ))
  | inr long ↦ rw long (ground arith)
]
  where
    length-replicate : (k : ℕ) → length (replicate k minus_two) ≡ k
    length-replicate zero = refl
    length-replicate (suc k) = ap suc (length-replicate k)

get_or-set_at :
    (m : List ℤ) (n i : ℕ) (v d : ℤ)
    → n < length m
    → get_or (set_at m n v) i d ≡ (if n == i then v else get_or m i d)
get_or-set_at [] n i v d h = absurd (omega arith)
get_or-set_at (x ∷ m) zero zero v d h = refl
get_or-set_at (x ∷ m) zero (suc i) v d h = ground arith
get_or-set_at (x ∷ m) (suc n) zero v d h = ground arith
get_or-set_at (x ∷ m) (suc n) (suc i) v d h = get_or-set_at m n i v d (omega arith) ∙ ground arith

-- A state with another pool, cache and map.
abbrev pub moved : Constrainer → List Mask → ToolMaskCache → List ℤ → ℕ → Constrainer
moved s p c m r = record s { eng = record s.eng { pool = p }; cache = c; host2dev = m; rebinds = r }

-- Nothing in the pool is overwritten.
abbrev pub Extends : List Mask → List Mask → Type 0
Extends p p' = (k : ℕ) (m : Mask) → get_elem? p k ≡ some m → get_elem? p' k ≡ some m

-- The caches serve the same vocabulary.
abbrev pub SameVocab : ToolMaskCache → ToolMaskCache → Type 0
SameVocab c c' = (c'.vocab ≡ c.vocab) × (c'.closer_id ≡ c.closer_id) × (c'.words ≡ c.words)

-- What an upload for the mask `want` leaves as it was, and what it promises of the id.
pub record Uploaded (s : Constrainer) (want : Mask) (s' : Constrainer) (id : ℤ) : Type 0 where
  pub frame : s' ≡ moved s s'.eng.pool s'.cache s'.host2dev s'.rebinds
  pub pool_fits : PoolFits s'
  pub found : (k : ℕ) → id ≡ pos k → get_elem? s'.eng.pool k ≡ some want
  pub extends : Extends s.eng.pool s'.eng.pool
  pub same_vocab : SameVocab s.cache s'.cache

module _ (s : Constrainer) (ci : ℕ) (v : PoolFits s) (low : ci < length s.host2dev)
    (inside : ci < size s.cache) where
  -- The map with a pool that extends the old one.
  Mapped-set :
      (p : List Mask) (k : ℕ)
      → Extends s.eng.pool p
      → get_elem? p k ≡ some (MaskCache.mask s.cache ci)
      → Mapped p s.cache (set_at s.host2dev ci (pos k))
  Mapped-set p k ext at c j h = elim (Bool-cases (ci == c)) [
    | inl e ↦
        let same : ci ≡ c = ground arith in
        let this : get_or (set_at s.host2dev ci (pos k)) c minus_two ≡ pos k =
          get_or-set_at s.host2dev ci c (pos k) minus_two low ∙ rw e refl in
        let jk : pos k ≡ pos j = sym this ∙ h in
        let kj : k ≡ j = ground arith in
        (
          omega arith,
          subst (λ x. get_elem? p x ≡ some (MaskCache.mask s.cache c)) kj
              (subst (λ x. get_elem? p k ≡ some (MaskCache.mask s.cache x)) same at),
        )
    | inr ne ↦
        let other : get_or s.host2dev c minus_two ≡ pos j =
          sym (get_or-set_at s.host2dev ci c (pos k) minus_two low ∙ rw ne refl) ∙ h in
        let (i, e) = v.mapped c j other in (i, ext j (MaskCache.mask s.cache c) e)
  ]

  Mapped-unset : (k : ℕ) → Mapped s.eng.pool s.cache (set_at s.host2dev ci (negsuc k))
  Mapped-unset k c j h = elim (Bool-cases (ci == c)) [
    | inl e ↦
        let this : get_or (set_at s.host2dev ci (negsuc k)) c minus_two ≡ negsuc k =
          get_or-set_at s.host2dev ci c (negsuc k) minus_two low ∙ rw e refl in
        let clash : negsuc k ≡ pos j = sym this ∙ h in absurd (cc)
    | inr ne ↦
        v.mapped c j (sym (get_or-set_at s.host2dev ci c (negsuc k) minus_two low ∙ rw ne refl) ∙ h)
  ]

  upload-Uploaded :
      (slot : ℤ)
      → get_or s.host2dev ci minus_two ≡ slot
      → Uploaded s (MaskCache.mask s.cache ci) (upload s ci slot).0 (upload s ci slot).1
  unfolding upload mask_pool_add
  upload-Uploaded (pos k) e =
      let here = (v.mapped ci k e).1 in
      record {
        frame = refl;
        pool_fits = record {
          cache_fits = v.cache_fits;
          mapped = Mapped-set s.eng.pool k (λ j m h. h) here;
        };
        found = λ j same.
            subst (λ x. get_elem? s.eng.pool x ≡ some (MaskCache.mask s.cache ci)) (ground arith)
              here;
        extends = λ j m h. h;
        same_vocab = (refl, refl, refl);
      }
  upload-Uploaded (negsuc k) e = elim (Bool-cases (leb mask_pool_cap (mask_pool_used s.eng))) [
    | inl full ↦ rw full (record {
      frame = refl;
      pool_fits = record { cache_fits = v.cache_fits; mapped = Mapped-unset 0 };
      found = λ j same. absurd (cc);
      extends = λ j m h. h;
      same_vocab = (refl, refl, refl);
    })
    | inr room ↦
        let bits = MaskCache.mask s.cache ci in
        let here = get_elem?-append_length s.eng.pool bits in
        let ext : Extends s.eng.pool (s.eng.pool ++ bits ∷ []) =
          λ j m h. get_elem?-append_some s.eng.pool (bits ∷ []) j h in
        rw room (record {
          frame = refl;
          pool_fits = record {
            cache_fits = v.cache_fits;
            mapped = Mapped-set (s.eng.pool ++ bits ∷ []) (length s.eng.pool) ext here;
          };
          found = λ j same.
              subst (λ x. get_elem? (s.eng.pool ++ bits ∷ []) x ≡ some bits) (ground arith) here;
          extends = ext;
          same_vocab = (refl, refl, refl);
        })
  ]

  rebind-Uploaded :
      (slot : ℤ)
      → get_or s.host2dev ci minus_two ≡ slot
      → Uploaded s (MaskCache.mask s.cache ci) (rebind s ci slot).0 (rebind s ci slot).1
  unfolding rebind
  rebind-Uploaded (negsuc k) e = upload-Uploaded (negsuc k) e
  rebind-Uploaded (pos k) e =
      let live : leb (mask_pool_used s.eng) k ≡ false =
        ground (arith, get_elem?-some_lt s.eng.pool k (v.mapped ci k e).1) in
      rw live (upload-Uploaded (pos k) e)

pub mask_id-Uploaded :
    (s : Constrainer) (g : Grammar)
    → PoolFits s
    → Tracked g
    → Uploaded s (build_mask s.cache g) (mask_id s g).0 (mask_id s g).1
unfolding mask_id
mask_id-Uploaded s g v t = record {
  frame = up.frame;
  pool_fits = up.pool_fits;
  found = λ k e. up.found k e ∙ ap some r.exact;
  extends = up.extends;
  same_vocab = (
    up.same_vocab.0 ∙ r.same_vocab.0,
    up.same_vocab.1 ∙ r.same_vocab.1,
    up.same_vocab.2 ∙ r.same_vocab.2,
  );
}
  where
    r : Returns s.cache g (MaskCache.get s.cache g).0 (MaskCache.get s.cache g).1
    r = get-Returns s.cache v.cache_fits g t

    ci : ℕ
    ci = (MaskCache.get s.cache g).1

    s1 : Constrainer
    s1 = record s { cache = (MaskCache.get s.cache g).0; host2dev = grow s.host2dev ci }

    fits1 : PoolFits s1
    fits1 = record {
      cache_fits = r.fits;
      mapped = λ c k h.
          let (low, at) = v.mapped c k (sym (get_or-grow s.host2dev ci c) ∙ h) in
          let (low', same) = r.stable c low in (low', at ∙ ap some (sym same));
    }

    up :
        Uploaded s1
          (MaskCache.mask s1.cache ci)
          (rebind s1 ci (get_or s1.host2dev ci minus_two)).0
          (rebind s1 ci (get_or s1.host2dev ci minus_two)).1
    up =
        rebind-Uploaded s1 ci fits1 (length-grow s.host2dev ci) r.inside
          (get_or s1.host2dev ci minus_two) refl
