-- ===== src/PrefixRam/Contents.antt =====
-- What `find` answers, and that it only moves a blob.
use q.Prelude.{
  ℕ, ◌≤◌, ◌<◌, true, false, Option, none, some, List, [], ◌∷◌, ◌++◌, length, is_empty, Among, ◌≡◌,
  refl, sym, ap, ◌∙◌, arith, inl, inr, ◌⊎◌, ◌↔◌, Bool-cases, if_intro, not, ◌||◌, ◌==◌,
}
use q.PrefixRam.{Blob, PrefixRam, enabled, best_of, remove_first, any_id, touch, touch_best, find}
use q.PrefixRam.Longest.{Fits, GoesUp, best_of-GoesUp}

-- No two blobs of the list are one allocation.
abbrev pub Unique : List Blob → Type 0
Unique [] = Unit
Unique (b ∷ bs) = (any_id b.id bs ≡ false) × Unique bs

any_id-Among : (b : Blob) (bs : List Blob) → Among b bs → any_id b.id bs ≡ true
any_id-Among b [] h = absurd h
any_id-Among b (c ∷ cs) (inl e) = let ids : c.id ≡ b.id = ap (λ (x : Blob). x.id) e in ground arith
any_id-Among b (c ∷ cs) (inr h) = let rest = any_id-Among b cs h in ground arith

remove_first-Among :
    (b x : Blob) (bs : List Blob)
    → Unique bs
    → Among b bs
    → Among x bs ↔ ((b ≡ x) ⊎ Among x (remove_first b.id bs))
unfolding remove_first
remove_first-Among b x [] u h = absurd h
remove_first-Among b x (c ∷ cs) u (inl e) =
    let here : (c.id == b.id) ≡ true =
      let ids : c.id ≡ b.id = ap (λ (y : Blob). y.id) e in ground arith in
    rw here (
      λ a. elim a [ inl s ↦ inl (sym e ∙ s) | inr r ↦ inr r ],
      λ a. elim a [ inl s ↦ inl (e ∙ s) | inr r ↦ inr r ],
    )
remove_first-Among b x (c ∷ cs) u (inr h) = elim (Bool-cases (c.id == b.id)) [
  | inl same ↦
      let ids : c.id ≡ b.id = ground arith in
      let known : any_id c.id cs ≡ true = rw ids (any_id-Among b cs h) in absurd (cc)
  | inr other ↦
      let rest = remove_first-Among b x cs u.1 h in
      rw other (
        λ a. elim a [
          | inl s ↦ inr (inl s)
          | inr r ↦ elim (rest.0 r) [ inl s ↦ inl s | inr t ↦ inr (inr t) ]
        ],
        λ a. elim a [
          | inl s ↦ inr (rest.1 (inl s))
          | inr (inl s) ↦ inl s
          | inr (inr t) ↦ inr (rest.1 (inr t))
        ],
      )
]

Among-append_one : (x b : Blob) (bs : List Blob) → Among x (bs ++ b ∷ []) ↔ ((b ≡ x) ⊎ Among x bs)
Among-append_one x b [] = (λ h. h, λ h. h)
Among-append_one x b (c ∷ cs) =
    let rest = Among-append_one x b cs in
    (
      λ a. elim a [
        | inl s ↦ inr (inl s)
        | inr r ↦ elim (rest.0 r) [ inl s ↦ inl s | inr t ↦ inr (inr t) ]
      ],
      λ a. elim a [
        | inl s ↦ inr (rest.1 (inl s))
        | inr (inl s) ↦ inl s
        | inr (inr t) ↦ inr (rest.1 (inr t))
      ],
    )

-- What an answer of `find` says.
abbrev pub Best : PrefixRam → List ℕ → PrefixRam × Option Blob → Type 0
Best r prompt (r', none) = (r' ≡ r) × ((x : Blob) → Among x r.lru → ¬ Fits prompt x)
Best r prompt (r', some b) =
    Among b r.lru
    × Fits prompt b
    × ((x : Blob) → Among x r.lru → Fits prompt x → length x.toks ≤ length b.toks)
    × (r' ≡ record r { lru = remove_first b.id r.lru ++ b ∷ [] })
    × ((x : Blob) → Among x r'.lru ↔ Among x r.lru)

touch_best-Best :
    (r : PrefixRam) (prompt : List ℕ) (o : Option Blob)
    → Unique r.lru
    → GoesUp prompt none r.lru o
    → Best r prompt (touch_best r o)
unfolding touch GoesUp
touch_best-Best r prompt none u g = (refl, g.1)
touch_best-Best r prompt (some b) u g = elim g.0 [
  | inl never ↦ absurd (cc)
  | inr (among, f) ↦ rw (any_id-Among b r.lru among) (
    among,
    f,
    g.1,
    refl,
    λ x.
        let moved = Among-append_one x b (remove_first b.id r.lru) in
        let removed = remove_first-Among b x r.lru u among in
        (λ a. removed.1 (moved.0 a), λ a. moved.1 (removed.0 a)),
  )
]

-- What an enabled tier whose blobs are different allocations answers: a published blob whose tokens
-- the prompt goes on from, and none such of the tier is longer; or nothing, if there is none such.
-- The blob goes to the back, and the tier holds the same blobs as before.
pub find-Best :
    (r : PrefixRam) (prompt : List ℕ)
    → enabled r ≡ true
    → Unique r.lru
    → Best r prompt (find r prompt)
unfolding find
find-Best r prompt on u =
    if_intro (Best r prompt) (not (enabled r) || is_empty prompt)
      (λ off.
        let bare : is_empty prompt ≡ true = ground arith in
        (refl, λ x a f. no_room prompt bare f.strict))
      (λ go.
        touch_best-Best r prompt (best_of prompt none r.lru) u (best_of-GoesUp prompt none r.lru))
  where
    no_room : (l : List ℕ) → is_empty l ≡ true → {n : ℕ} → n < length l → ⊥
    no_room [] h k = omega arith
    no_room (x ∷ l) h k = absurd (cc)
