-- ===== src/Prefix/Rescan.antt =====
-- What a rescan of the directory takes up, keeps and sweeps.
use q.Prelude.{
  ℕ, zero, suc, true, false, Option, none, some, List, [], ◌∷◌, ◌++◌, Bytes, bytes_eq, bytes_eq_iff,
  take, drop-length_add, Among, ◌≡◌, ◌≢◌, refl, ap, inl, inr, if_intro, is_empty, if◌then◌else◌,
}
use q.Prefix.Files.{Dir, File, lookup, unlink}
use q.Prefix.Cache.{Entry, PrefixCache}
use q.Prefix.Store.{entry_of, path_in, name_of, is_torn, is_named, add, rescan_files}

bytes_eq_refl : (p : Bytes) → bytes_eq p p ≡ true
bytes_eq_refl p = (bytes_eq_iff p p).1 refl

-- No file of the directory has the path.
abbrev pub NotIn : Bytes → Dir → Type 0
NotIn p [] = Unit
NotIn p ((q, f) ∷ d) = (bytes_eq q p ≡ false) × NotIn p d

pub unlink-NotIn : (p : Bytes) (d : Dir) → NotIn p (unlink p d)
unfolding unlink
unlink-NotIn p [] = tt
unlink-NotIn p ((q, f) ∷ d) =
    if_intro (NotIn p) (bytes_eq q p) (λ hit. unlink-NotIn p d) (λ miss. (miss, unlink-NotIn p d))

pub is_empty-false : (s : Bytes) → s ≢ [] → is_empty s ≡ false
is_empty-false [] h = absurd (h refl)
is_empty-false (x ∷ s) h = refl

module _ (c : PrefixCache) (p : Bytes) (f : File) where
  -- A well-named file at the end of the directory is taken up.
  pub rescan_files-indexed :
      (d : Dir) (e : Entry)
      → is_torn (name_of c p) ≡ false
      → is_named (name_of c p) ≡ true
      → entry_of c p f f.header ≡ some e
      → Among e (rescan_files c (d ++ (p, f) ∷ [])).0
  unfolding rescan_files
  rescan_files-indexed [] e whole named fits = rw (whole, named, fits) (inl refl)
  rescan_files-indexed ((q, g) ∷ d) e whole named fits =
      let rest = rescan_files-indexed d e whole named fits in
      if_intro (λ (r : List Entry × Dir). Among e r.0) (is_torn (name_of c q)) (λ torn. rest)
        (λ kept.
          if_intro (Among e) (is_named (name_of c q))
            (λ h. Among-add (entry_of c q g g.header) rest) (λ h. rest))
    where
      Among-add :
          (o : Option Entry)
          → Among e (rescan_files c (d ++ (p, f) ∷ [])).0
          → Among e (add o (rescan_files c (d ++ (p, f) ∷ [])).0)
      Among-add none h = h
      Among-add (some x) h = inr h

  pub rescan_files-kept :
      (d : Dir)
      → is_torn (name_of c p) ≡ false
      → NotIn p d
      → lookup p (rescan_files c (d ++ (p, f) ∷ [])).1 ≡ some f
  unfolding rescan_files lookup
  rescan_files-kept [] whole fresh_path = rw (whole, bytes_eq_refl p) refl
  rescan_files-kept ((q, g) ∷ d) whole fresh_path =
      let rest = rescan_files-kept d whole fresh_path.1 in
      if_intro (λ (r : List Entry × Dir). lookup p r.1 ≡ some f) (is_torn (name_of c q))
        (λ torn. rest) (λ kept. rw fresh_path.0 rest)

  -- A torn file at the end is swept.
  pub rescan_files-swept :
      (d : Dir)
      → is_torn (name_of c p) ≡ true
      → rescan_files c (d ++ (p, f) ∷ []) ≡ rescan_files c d
  unfolding rescan_files
  rescan_files-swept [] torn = rw torn refl
  rescan_files-swept ((q, g) ∷ d) torn =
      ap
        (λ (rest : List Entry × Dir). if is_torn (name_of c q) then rest else (
          (if is_named (name_of c q) then add (entry_of c q g g.header) rest.0 else rest.0),
          (q, g) ∷ rest.1,
        ))
        (rescan_files-swept d torn)

pub name_of-path_in : (c : PrefixCache) (name : Bytes) → name_of c (path_in c.cfg.root name) ≡ name
name_of-path_in c name = drop-length_add 1 c.cfg.root (b'/' ∷ name)

pub take-take : (n : ℕ) (xs : List ℕ) → take n (take n xs) ≡ take n xs
take-take zero xs = refl
take-take (suc n) [] = refl
take-take (suc n) (x ∷ xs) = ap (◌∷◌ x) (take-take n xs)
