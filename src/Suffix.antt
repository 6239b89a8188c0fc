-- ===== src/Suffix.antt =====
-- `SuffixDraft` of src/suffixdraft.h: drafts tokens by the longest suffix that occurred before.
pub mod Index
pub mod Proposal
mod Tests
use Prim.Native.Nat.{bit_xor}
use q.Prelude.{
  ℕ, zero, suc, ◌+◌, ◌-◌, ◌*◌, ◌%◌, Bool, true, false, ◌&&◌, Option, none, some, List, [], ◌∷◌,
  ◌++◌, ltb, leb, ◌==◌, if◌then◌else◌, length, drop, get_or,
}

-- The tokens are `uint32_t` values; the index maps the hash of a 4-gram to the positions of its
-- last token.
pub record SuffixDraft : Type 0 where
  pub t : List ℕ
  pub idx : List (ℕ × List ℕ)

abbrev pub ng : ℕ
ng = 4

abbrev pub max_cand : ℕ
max_cand = 64

abbrev pub max_ext : ℕ
max_ext = 256

-- `h ^= p[i]; h *= ...`
abbrev pub mix : ℕ → ℕ → ℕ
mix h x = (bit_xor h x * 1099511628211) % 18446744073709551616

unfoldable pub key4 : ℕ → ℕ → ℕ → ℕ → ℕ
key4 a b c d = mix (mix (mix (mix 1469598103934665603 a) b) c) d

abbrev pub cap_cands : List ℕ → List ℕ
cap_cands v = if ltb max_cand (length v) then drop 1 v else v

-- `idx[key].push_back(i)`, and the oldest out if there are too many.
unfoldable pub push_pos : ℕ → ℕ → List (ℕ × List ℕ) → List (ℕ × List ℕ)
push_pos key i [] = (key, cap_cands (i ∷ [])) ∷ []
push_pos key i ((k, v) ∷ rows) =
    let rows' = push_pos key i rows in
    if k == key then (k, cap_cands (v ++ i ∷ [])) ∷ rows else (k, v) ∷ rows'

unfoldable pub index_pos : ℕ → SuffixDraft → SuffixDraft
unfolding push_pos key4
index_pos i d = record d {
  idx =
      push_pos
        (key4 (get_or d.t (i - 3) 0) (get_or d.t (i - 2) 0) (get_or d.t (i - 1) 0) (get_or d.t i 0))
        i d.idx;
}

-- `for (int i = NG - 1; i < t.size(); i++) index_pos(i)`: `todo` rounds from `i` on.
unfoldable pub index_from : ℕ → ℕ → SuffixDraft → SuffixDraft
unfolding index_pos
index_from zero i d = d
index_from (suc todo) i d = index_from todo (suc i) (index_pos i d)

unfoldable pub reset : List ℕ → SuffixDraft
unfolding index_from
reset prompt = index_from (length prompt - 3) 3 (record { t = prompt; idx = [] })

unfoldable pub append : ℕ → SuffixDraft → SuffixDraft
unfolding index_pos
append tok d =
    let d' = record d { t = d.t ++ tok ∷ [] } in
    if leb ng (length d'.t) then index_pos (length d'.t - 1) d' else d'

-- The stream with the pending token behind it.
abbrev pub at : SuffixDraft → ℕ → ℕ → ℕ
at d pending i = if ltb i (length d.t) then get_or d.t i 0 else pending

unfoldable pub candidates : ℕ → List (ℕ × List ℕ) → List ℕ
candidates key [] = []
candidates key ((k, v) ∷ rows) = let rest = candidates key rows in if k == key then v else rest

-- `t[p - j] == s(N - 1 - j)`, where `N - 1` is the length of `t`
abbrev pub same_at : SuffixDraft → ℕ → ℕ → ℕ → Bool
same_at d pending p j = get_or d.t (p - j) 0 == at d pending (length d.t - j)

abbrev pub key_matches : SuffixDraft → ℕ → ℕ → Bool
key_matches d pending p =
    same_at d pending p 0
    && (same_at d pending p 1 && (same_at d pending p 2 && same_at d pending p 3))

-- The `while` that extends a match of `m` tokens, for as many rounds as are left.
unfoldable pub extend : SuffixDraft → ℕ → ℕ → ℕ → ℕ → ℕ
extend d pending p zero m = m
extend d pending p (suc left) m =
    let longer = extend d pending p left (suc m) in
    if leb m p && (leb m (length d.t) && same_at d pending p m) then longer else m

-- The loop over the candidates; the best match is its length and its position.
abbrev pub keep_best : ℕ → ℕ → ℕ × Option ℕ → ℕ × Option ℕ
keep_best p m (best_m, best_p) = if leb best_m m then (m, some p) else (best_m, best_p)

unfoldable pub best_of : SuffixDraft → ℕ → List ℕ → ℕ × Option ℕ → ℕ × Option ℕ
unfolding extend
best_of d pending [] best = best
best_of d pending (p ∷ ps) best = best_of d pending ps (
    if ltb p (length d.t) && key_matches d pending p
    then keep_best p (extend d pending p (max_ext - ng) ng) best
    else best)

-- `out[i]`, for `todo` more tokens behind those that are there.
abbrev pub draft_at : SuffixDraft → ℕ → ℕ → List ℕ → ℕ
draft_at d pending src out =
    if ltb src (length d.t + 1) then at d pending src else get_or out (src - (length d.t + 1)) 0

unfoldable pub draft : SuffixDraft → ℕ → ℕ → ℕ → List ℕ → List ℕ
draft d pending p zero out = out
draft d pending p (suc todo) out =
    draft d pending p todo (out ++ draft_at d pending (p + 1 + length out) out ∷ [])

-- The match length and the tokens, or `none` for 0.
abbrev pub proposal : SuffixDraft → ℕ → ℕ → ℕ × Option ℕ → Option (ℕ × List ℕ)
proposal d pending k (m, none) = none
proposal d pending k (m, some p) = some (m, draft d pending p k [])

unfoldable pub propose_with : SuffixDraft → ℕ → ℕ → Option (ℕ × List ℕ)
unfolding candidates best_of draft key4
propose_with d pending k =
    if ltb (length d.t) 3
    then none
    else (let n = length d.t in
        let key =
          key4 (at d pending (n - 3)) (at d pending (n - 2)) (at d pending (n - 1))
            (at d pending n) in
        proposal d pending k (best_of d pending (candidates key d.idx) (0, none)))
