-- ===== src/Snapshots/Match.antt =====
-- What a lookup answers, as long as the cached metadata are those of the files.
use q.Prelude.{
  ℕ, ◌+◌, ◌<◌, true, false, Option, none, some, List, [], ◌∷◌, ◌++◌, Bytes, bytes_eq, bytes_eq_iff,
  length, drop, is_empty, starts_with, starts_with-split, starts_with-append, ◌≡◌, ◌≢◌, refl, sym,
  subst, ap, ◌∙◌, arith, inl, inr, ◌⊎◌, Bool-cases, if_intro, length-append,
}
use q.Snapshots.{
  SnapPeekInfo, DirEntry, Infos, DiskSnapshotStore, set_key, peeked, cached_or, info_of, resumes,
  is_tagged, published,
}

-- What is cached is what a peek gives.
abbrev pub Coherent : Infos → Infos → Type 0
Coherent peek meta = (p : Bytes) (i : SnapPeekInfo) → meta p ≡ some i → peek p ≡ some i

set_key-Coherent :
    (peek meta : Infos) (p : Bytes) (i : SnapPeekInfo)
    → peek p ≡ some i
    → Coherent peek meta
    → Coherent peek (set_key p (some i) meta)
unfolding set_key
set_key-Coherent peek meta p i read coh q j =
    if_intro (λ o. o ≡ some j → peek q ≡ some j) (bytes_eq q p)
      (λ same e. ap peek ((bytes_eq_iff q p).0 same) ∙ (read ∙ e)) (λ other e. coh q j e)

pub info_of-Coherent :
    (peek meta : Infos) (p : Bytes)
    → Coherent peek meta
    → Coherent peek (info_of peek p meta).0 × ((info_of peek p meta).1 ≡ peek p)
unfolding info_of
info_of-Coherent peek meta p coh = cases (meta p) refl
  where
    read :
        (o : Option SnapPeekInfo)
        → peek p ≡ o
        → Coherent peek (peeked meta p o).0 × ((peeked meta p o).1 ≡ peek p)
    read none is = (coh, sym is)
    read (some i) is = (set_key-Coherent peek meta p i is coh, sym is)

    cases :
        (o : Option SnapPeekInfo)
        → meta p ≡ o
        → Coherent peek (cached_or peek p meta o).0 × ((cached_or peek p meta o).1 ≡ peek p)
    cases none is = read (peek p) refl
    cases (some i) is = (coh, sym (coh p i is))

-- The snapshot can be resumed for the prompt, and has `n` tokens.
pub record Resumable (peek : Infos) (tag : Bytes) (prompt : List ℕ) (e : DirEntry) (n : ℕ)
    : Type 0 where
  pub info : SnapPeekInfo
  pub rest : List ℕ
  pub read : peek e.path ≡ some info
  pub tagged : is_tagged tag e ≡ true
  pub whole : info.position ≡ n
  pub counts : length info.tokens ≡ n
  pub not_empty : 0 < n
  pub splits : prompt ≡ info.tokens ++ rest
  pub ready : (n < length prompt) ⊎ (info.logits_resident ≡ true)

pos-length : (l : List ℕ) → is_empty l ≡ false → 0 < length l
pos-length [] h = absurd (cc)
pos-length (x ∷ l) h = omega arith

not_is_empty : (l : List ℕ) → 0 < length l → is_empty l ≡ false
not_is_empty [] h = absurd (omega arith)
not_is_empty (x ∷ l) h = refl

pub resumes-Resumable :
    (peek : Infos) (tag : Bytes) (prompt : List ℕ) (e : DirEntry) (i : SnapPeekInfo)
    → peek e.path ≡ some i
    → is_tagged tag e ≡ true
    → resumes prompt i ≡ true
    → Resumable peek tag prompt e (length i.tokens)
unfolding resumes
resumes-Resumable peek tag prompt e i read tagged h =
    let begins : starts_with i.tokens prompt ≡ true = ground arith in
    record {
      info = i;
      rest = drop (length i.tokens) prompt;
      read = read;
      tagged = tagged;
      whole = ground arith;
      counts = refl;
      not_empty = pos-length i.tokens (ground arith);
      splits = starts_with-split i.tokens prompt begins;
      ready = elim (Bool-cases i.logits_resident) [
        | inl on ↦ inr on
        | inr off ↦ inl (ground arith)
      ];
    }

pub Resumable-resumes :
    (peek : Infos) (tag : Bytes) (prompt : List ℕ) (e : DirEntry) (n : ℕ) (i : SnapPeekInfo)
    → peek e.path ≡ some i
    → Resumable peek tag prompt e n
    → (resumes prompt i ≡ true) × (length i.tokens ≡ n)
unfolding resumes
Resumable-resumes peek tag prompt e n i read m =
    subst (λ j. (resumes prompt j ≡ true) × (length j.tokens ≡ n)) same (held, m.counts)
  where
    same : m.info ≡ i
    same = let r = m.read in cc

    held : resumes prompt m.info ≡ true
    held =
        let begins : starts_with m.info.tokens prompt ≡ true =
          rw m.splits (starts_with-append m.info.tokens m.rest) in
        let some_tok =
          not_is_empty m.info.tokens (let c = m.counts in let k = m.not_empty in omega arith) in
        let long : length prompt ≡ length m.info.tokens + length m.rest =
          ap length m.splits ∙ length-append m.info.tokens m.rest in
        let whole = m.whole in
        let counts = m.counts in elim m.ready [ inl less ↦ ground arith | inr on ↦ ground arith ]

-- A file that is written anew and then published leaves the cache right, whatever it had of it.
published-Coherent :
    (peek peek' : Infos) (p : Bytes) (s : DiskSnapshotStore)
    → ((q : Bytes) → q ≢ p → peek' q ≡ peek q)
    → Coherent peek s.meta
    → Coherent peek' (published p s).meta
unfolding published set_key
published-Coherent peek peek' p s others coh q i =
    if_intro (λ o. o ≡ some i → peek' q ≡ some i) (bytes_eq q p) (λ same e. absurd (cc))
      (λ other e. others q (λ same. absurd (let yes = (bytes_eq_iff q p).1 same in cc)) ∙ coh q i e)
