-- ===== src/Conductor/Core.antt =====
-- `ConductorCore`: membership and the round. The members' code and the wrapper's hooks are
-- parameters: each takes the member's state and returns the new one. `on_leave` is the list of the
-- members that it was called for. `joined` gives the members that `join` was called for while the
-- round ran, from the hooks or by other threads: those calls only append to `joins`, which a round
-- reads at its top and nowhere else.
pub mod Members
use q.Prelude.{
  ℕ, zero, suc, ◌+◌, ◌/◌, ◌<◌, Bool, true, false, Option, none, some, List, [], ◌∷◌, ◌++◌, map,
  length, leb, ltb, if◌then◌else◌,
}
use q.Conductor.Trim.{Lane, trim_widths}

pub record Hooks (A : Type 0) : Type 0 where
  pub pre_round : A → A × Bool
  -- `want_width`, and `round_is_suffix` after it
  pub want : A → A × Lane
  pub set_granted : ℕ → A → A
  pub solo_round : A → A × Bool
  -- Given the members with their lanes, what becomes of member `i`, and `done[i]`.
  pub fused_round : List (A × Lane) → ℕ → A → A × Bool
  -- Where it is set: given all members, the draft of member `i`.
  pub draft_widths : Option (List A → ℕ → A → A × Lane)
  -- Given the members at the top of the round, who joins while it runs.
  pub joined : List A → List A

pub record Core (A : Type 0) : Type 0 where
  pub cap : ℕ
  pub members : List A
  pub joins : List A
  pub left : List A

-- `MAX_K`
abbrev pub max_k : ℕ
max_k = 16

module _ {A : Type 0} where
  unfoldable pub join : A → Core A → Core A
  join m c = record c { joins = c.joins ++ m ∷ [] }

  -- The members that go on, and those that leave, in their order.
  unfoldable pub pre_checks : (A → A × Bool) → List A → List A × List A
  pre_checks pre [] = ([], [])
  pre_checks pre (m ∷ ms) =
      let rest = pre_checks pre ms in
      if (pre m).1 then ((pre m).0 ∷ rest.0, rest.1) else (rest.0, (pre m).0 ∷ rest.1)

  unfoldable pub draft_all : (ℕ → A → A × Lane) → ℕ → List A → List (A × Lane)
  draft_all f i [] = []
  draft_all f i (m ∷ ms) = f i m ∷ draft_all f (i + 1) ms

  -- The draft phase: the batch hook, or each member by itself.
  unfoldable pub draft : Hooks A → List A → List (A × Lane)
  unfolding draft_all
  draft h ms = elim (h.draft_widths) [
    | some f ↦ draft_all (f ms) 0 ms
    | none ↦ draft_all (λ i m. h.want m) 0 ms
  ]

  abbrev pub lane_of : A × Lane → Lane
  lane_of (m, l) = l

  unfoldable pub grant : (ℕ → A → A) → List (A × Lane) → List Lane → List (A × Lane)
  grant set [] ls = []
  grant set (d ∷ ds) [] = d ∷ ds
  grant set ((m, w) ∷ ds) (l ∷ ls) = (set l.width m, l) ∷ grant set ds ls

  unfoldable pub fuse : (ℕ → A → A × Bool) → ℕ → List (A × Lane) → List (A × Bool)
  fuse f i [] = []
  fuse f i ((m, l) ∷ ds) = f i m ∷ fuse f (i + 1) ds

  -- `for (int i = k - 1; i >= 0; i--)`: who stays, in order, and who leaves, the last one first.
  unfoldable pub leave_done : List (A × Bool) → List A × List A
  leave_done [] = ([], [])
  leave_done ((m, d) ∷ r) =
      let rest = leave_done r in if d then (rest.0, rest.1 ++ m ∷ []) else (m ∷ rest.0, rest.1)

  -- The verify round of two members or more.
  unfoldable pub fused_phase : Hooks A → ℕ → List A → List A × List A
  unfolding draft grant fuse leave_done trim_widths
  fused_phase h cap ms =
      let ds = draft h ms in
      let batch = grant h.set_granted ds (trim_widths (map lane_of ds) cap) in
      leave_done (fuse (h.fused_round batch) 0 batch)

  -- The round behind the pre-checks; `none` is the abort.
  unfoldable pub round_of : Hooks A → ℕ → List A → Option (List A × List A)
  unfolding fused_phase
  round_of h cap [] = some ([], [])
  round_of h cap (m ∷ []) =
      let r = h.solo_round m in some (if r.1 then ([], r.0 ∷ []) else (r.0 ∷ [], []))
  round_of h cap (m ∷ (n ∷ ms)) =
      if ltb (max_k / 2) (length (m ∷ (n ∷ ms)))
      then none
      else some (fused_phase h cap (m ∷ (n ∷ ms)))

  -- The top of the round: the joins land.
  abbrev pub drained : Core A → Core A
  drained c = record c { members = c.members ++ c.joins; joins = [] }

  -- The calls of `join` while the round runs, in their order.
  unfoldable pub join_all : List A → Core A → Core A
  unfolding join
  join_all [] c = c
  join_all (m ∷ ms) c = join_all ms (join m c)

  abbrev pub settled : Core A → List A → Option (List A × List A) → Option (Core A × ℕ)
  settled c gone none = none
  settled c gone (some (stay, done)) =
      some (record c { members = stay; left = c.left ++ (gone ++ done) }, length stay)

  unfoldable pub round : Hooks A → Core A → Option (Core A × ℕ)
  unfolding pre_checks round_of join_all
  round h c =
      let d = drained c in
      let checked = pre_checks h.pre_round d.members in
      settled (join_all (h.joined d.members) d) checked.1 (round_of h c.cap checked.0)
