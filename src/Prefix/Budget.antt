-- ===== src/Prefix/Budget.antt =====
-- Eviction: what is kept fits the budget, and no more is evicted than needed, the oldest first.
use q.Prelude.{
  ℕ, ◌+◌, ◌-◌, ◌≤◌, ◌<◌, Bool, true, not, ◌||◌, List, [], ◌∷◌, ◌++◌, leb, ltb, if◌then◌else◌, Among,
  ◌≡◌, ◌⊎◌, refl, sym, ap, subst, none, Bytes, ◌∙◌, arith, inl, inr, if_intro,
}
use q.Prefix.Files.{Dir, lookup}
use q.Prefix.Cache.{Entry, PrefixCache, bytes_of}
use q.Prefix.Removal.{PathOf, unlink_all-other, unlink_all-gone}
use q.Prefix.Store.{insert_oldest, sort_oldest, evict_loop, evict_to_budget}

-- The bytes and the number of the entries that pass a test.
abbrev pub count : (Entry → Bool) → List Entry → ℕ
count q [] = 0
count q (e ∷ es) = (if q e then 1 else 0) + count q es

-- Every entry of the list is at least as old as `t`, or as new.
abbrev pub AllBefore : List Entry → ℕ → Type 0
AllBefore [] t = Unit
AllBefore (e ∷ es) t = (e.mtime ≤ t) × AllBefore es t

abbrev pub AllAfter : ℕ → List Entry → Type 0
AllAfter t [] = Unit
AllAfter t (e ∷ es) = (t ≤ e.mtime) × AllAfter t es

abbrev pub Ascends : List Entry → Type 0
Ascends [] = Unit
Ascends (e ∷ es) = AllAfter e.mtime es × Ascends es

AllAfter-weaken : (m n : ℕ) (es : List Entry) → n ≤ m → AllAfter m es → AllAfter n es
AllAfter-weaken m n [] h a = tt
AllAfter-weaken m n (e ∷ es) h a = (omega arith, AllAfter-weaken m n es h a.1)

AllAfter-insert_oldest :
    (n : ℕ) (e : Entry) (es : List Entry)
    → n ≤ e.mtime
    → AllAfter n es
    → AllAfter n (insert_oldest e es)
unfolding insert_oldest
AllAfter-insert_oldest n e [] h a = (h, tt)
AllAfter-insert_oldest n e (f ∷ es) h a =
    if_intro (AllAfter n) (ltb f.mtime e.mtime)
      (λ older. (a.0, AllAfter-insert_oldest n e es h a.1)) (λ first. (h, a))

Ascends-insert_oldest : (e : Entry) (es : List Entry) → Ascends es → Ascends (insert_oldest e es)
unfolding insert_oldest
Ascends-insert_oldest e [] a = (tt, tt)
Ascends-insert_oldest e (f ∷ es) a =
    if_intro Ascends (ltb f.mtime e.mtime)
      (λ older.
        (AllAfter-insert_oldest f.mtime e es (ground arith) a.0, Ascends-insert_oldest e es a.1))
      (λ first.
        let low : e.mtime ≤ f.mtime = ground arith in
        ((low, AllAfter-weaken f.mtime e.mtime es low a.0), a))

sort_oldest-Ascends : (es : List Entry) → Ascends (sort_oldest es)
unfolding sort_oldest
sort_oldest-Ascends [] = tt
sort_oldest-Ascends (e ∷ es) = Ascends-insert_oldest e (sort_oldest es) (sort_oldest-Ascends es)

count-insert_oldest :
    (q : Entry → Bool) (e : Entry) (es : List Entry)
    → count q (insert_oldest e es) ≡ count q (e ∷ es)
unfolding insert_oldest
count-insert_oldest q e [] = refl
count-insert_oldest q e (f ∷ es) =
    if_intro (λ l. count q l ≡ count q (e ∷ (f ∷ es))) (ltb f.mtime e.mtime)
      (λ older. omega (arith, count-insert_oldest q e es)) (λ first. refl)

count-sort_oldest : (q : Entry → Bool) (es : List Entry) → count q (sort_oldest es) ≡ count q es
unfolding sort_oldest
count-sort_oldest q [] = refl
count-sort_oldest q (e ∷ es) =
    omega (arith, count-insert_oldest q e (sort_oldest es), count-sort_oldest q es)

bytes_of-insert_oldest :
    (e : Entry) (es : List Entry) → bytes_of (insert_oldest e es) ≡ e.bytes + bytes_of es
unfolding insert_oldest
bytes_of-insert_oldest e [] = refl
bytes_of-insert_oldest e (f ∷ es) =
    if_intro (λ l. bytes_of l ≡ e.bytes + (f.bytes + bytes_of es)) (ltb f.mtime e.mtime)
      (λ older. omega (arith, bytes_of-insert_oldest e es)) (λ first. refl)

bytes_of-sort_oldest : (es : List Entry) → bytes_of (sort_oldest es) ≡ bytes_of es
unfolding sort_oldest
bytes_of-sort_oldest [] = refl
bytes_of-sort_oldest (e ∷ es) =
    omega (arith, bytes_of-insert_oldest e (sort_oldest es), bytes_of-sort_oldest es)

-- `es` is cut into the kept and the doomed: the kept fit, with the last doomed they would not, and
-- each is in one of the two, no doomed entry being newer than a kept one.
pub record Evicts (cap : ℕ) (es kept doomed : List Entry) : Type 0 where
  pub fits : bytes_of kept ≤ cap
  pub needed :
      (front : List Entry) (last : Entry)
      → doomed ≡ front ++ last ∷ []
      → cap < last.bytes + bytes_of kept
  pub all_there : (q : Entry → Bool) → count q kept + count q doomed ≡ count q es
  pub same_bytes : bytes_of kept + bytes_of doomed ≡ bytes_of es
  pub oldest : (e : Entry) → Among e kept → AllBefore doomed e.mtime

AllAfter-Among : (t : ℕ) (es : List Entry) (e : Entry) → AllAfter t es → Among e es → t ≤ e.mtime
AllAfter-Among t [] e a h = elim h [ ]
AllAfter-Among t (f ∷ es) e a (inl same) = subst (λ (x : Entry). t ≤ x.mtime) same a.0
AllAfter-Among t (f ∷ es) e a (inr later) = AllAfter-Among t es e a.1 later

Among-evict_loop :
    (sum cap : ℕ) (es : List Entry) (e : Entry) → Among e (evict_loop sum cap es).0 → Among e es
unfolding evict_loop
Among-evict_loop sum cap [] e = λ h. h
Among-evict_loop sum cap (f ∷ es) e =
    if_intro (λ (r : List Entry × List Entry). Among e r.0 → Among e (f ∷ es)) (ltb cap sum)
      (λ over h. inr (Among-evict_loop (sum - f.bytes) cap es e h)) (λ fits h. h)

no_last : (front : List Entry) (last : Entry) → [] ≡ front ++ last ∷ [] → ⊥
no_last [] last h = cc
no_last (e ∷ front) last h = cc

last_needed :
    {cap sum : ℕ} {es doomed : List Entry} (f : Entry) (kept : List Entry)
    → Evicts cap es kept doomed
    → sum ≡ bytes_of (f ∷ es)
    → cap < sum
    → (front : List Entry) (last : Entry) → f ∷ doomed ≡ front ++ last ∷ []
    → cap < last.bytes + bytes_of kept
last_needed {doomed} f kept r s over [] last h =
    let none_left : doomed ≡ [] = ground arith in
    let same : f ≡ last = cc in
    let left = ap bytes_of none_left in
    let width = ap (λ (x : Entry). x.bytes) same in omega (arith, left, width, r.same_bytes)
last_needed f kept r s over (g ∷ front) last h = r.needed front last (ground arith)

evict_loop-Evicts :
    (sum cap : ℕ) (es : List Entry)
    → sum ≡ bytes_of es
    → Ascends es
    → Evicts cap es (evict_loop sum cap es).0 (evict_loop sum cap es).1
unfolding evict_loop
evict_loop-Evicts sum cap [] s a = record {
  fits = omega arith;
  needed = λ front last h. absurd (no_last front last h);
  all_there = λ q. refl;
  same_bytes = refl;
  oldest = λ e h. elim h [ ];
}
evict_loop-Evicts sum cap (f ∷ es) s a =
    if_intro (λ (r : List Entry × List Entry). Evicts cap (f ∷ es) r.0 r.1) (ltb cap sum)
      (λ over.
        let r = evict_loop-Evicts (sum - f.bytes) cap es (omega arith) a.1 in
        record {
          fits = r.fits;
          needed = λ front last h.
              last_needed f (evict_loop (sum - f.bytes) cap es).0 r s (ground arith) front last h;
          same_bytes = omega (arith, r.same_bytes);
          all_there = λ q. omega (arith, r.all_there q);
          oldest = λ e h. (
            AllAfter-Among f.mtime es e a.0 (Among-evict_loop (sum - f.bytes) cap es e h),
            r.oldest e h,
          );
        })
      (λ fits. record {
        fits = ground arith;
        needed = λ front last h. absurd (no_last front last h);
        all_there = λ q. omega arith;
        same_bytes = omega arith;
        oldest = λ e h. tt;
      })

-- What an eviction does to the cache: within the budget nothing; above it the doomed entries leave
-- the index, no file can be opened at their paths, and every other path has the file of before.
abbrev pub Evicted : PrefixCache → Dir → PrefixCache × Dir → Type 0
Evicted c d (c', d') =
    ((bytes_of c.index ≤ c.cfg.max_bytes) × (c' ≡ c) × (d' ≡ d))
    ⊎ ((doomed : List Entry) × (c.cfg.max_bytes < bytes_of c.index)
        × Evicts c.cfg.max_bytes c.index c'.index doomed
        × (c' ≡ record c { index = c'.index })
        × ((p : Bytes) → PathOf p doomed → lookup p d' ≡ none)
        × ((p : Bytes) → ¬ PathOf p doomed → lookup p d' ≡ lookup p d))

-- With an enabled cache an eviction leaves an index within the budget. If it was within it, nothing
-- changes; else each entry is kept or evicted, no evicted one is newer than a kept one, without
-- evicting the last one the budget would be exceeded, the paths of the evicted ones have no file any
-- more, and all other paths have the files of before.
pub evict_to_budget-Evicted :
    (c : PrefixCache) (d : Dir) → c.enabled ≡ true → Evicted c d (evict_to_budget c d)
unfolding evict_to_budget
evict_to_budget-Evicted c d on =
    if_intro (Evicted c d) (not c.enabled || leb (bytes_of c.index) c.cfg.max_bytes)
      (λ fits. inl (ground arith, refl, refl))
      (λ over.
        let sorted = sort_oldest c.index in
        let r =
          evict_loop-Evicts (bytes_of c.index) c.cfg.max_bytes sorted
            (sym (bytes_of-sort_oldest c.index)) (sort_oldest-Ascends c.index) in
        inr (
          (evict_loop (bytes_of c.index) c.cfg.max_bytes sorted).1,
          ground arith,
          record {
            fits = r.fits;
            needed = r.needed;
            all_there = λ q. r.all_there q ∙ count-sort_oldest q c.index;
            same_bytes = r.same_bytes ∙ bytes_of-sort_oldest c.index;
            oldest = r.oldest;
          },
          refl,
          λ p a. unlink_all-gone p (evict_loop (bytes_of c.index) c.cfg.max_bytes sorted).1 d a,
          λ p a. unlink_all-other p (evict_loop (bytes_of c.index) c.cfg.max_bytes sorted).1 d a,
        ))
