-- ===== src/Conductor/Tests.antt =====
-- The cases of the unit test of the conductor, and the theorems at concrete inputs.
use q.Prelude.{
  ℕ, Bool, true, false, not, List, [], ◌∷◌, ◌++◌, ◌≡◌, refl, arith, none, some, ◌==◌, ◌↔◌, codes,
}
use q.Conductor.Trim.{Lane, trim_widths}
use q.Conductor.Trim.Levels.{Ends, trim_widths-Ends}
use q.Conductor.Queue.{TokenQueue, pop}
use q.Conductor.Queue.Delivery.{Op, act_all, at_first, delivery}
use q.Conductor.Core.{Hooks, Core, round}
use q.Conductor.Core.Members.{Keeps, Conserved, round-Splits}

abbrev gated : ℕ → Lane
gated w = record { width = w; is_suffix = false }

abbrev suffix : ℕ → Lane
suffix w = record { width = w; is_suffix = true }

widest_first : trim_widths (gated 8 ∷ (gated 7 ∷ [])) 12 ≡ gated 6 ∷ (gated 6 ∷ [])
unfolding trim_widths
widest_first = refl

suffix_before_gated : trim_widths (suffix 8 ∷ (gated 8 ∷ [])) 15 ≡ suffix 7 ∷ (gated 8 ∷ [])
unfolding trim_widths
suffix_before_gated = refl

trim_widths-Ends_example :
    Ends 15 12 (gated 8 ∷ (suffix 7 ∷ [])) (trim_widths (gated 8 ∷ (suffix 7 ∷ [])) 12)
trim_widths-Ends_example = trim_widths-Ends (gated 8 ∷ (suffix 7 ∷ [])) 12 (omega arith)

abbrev ops : List Op
ops =
    Op.push_op (1 ∷ (2 ∷ []))
    ∷ (Op.try_pop ∷ (Op.push_op (3 ∷ []) ∷ (Op.close_op (codes "eos") ∷ (Op.try_pop ∷ []))))

delivery_example :
    ((act_all ops at_first).out ++ (act_all ops at_first).queue.buf ≡ 1 ∷ (2 ∷ (3 ∷ [])))
    × ((pop (act_all ops at_first).queue ≡ none)
        ↔ (((act_all ops at_first).queue.buf ≡ []) × ((act_all ops at_first).queue.closed ≡ false)))
    × ((q : TokenQueue) (ids : List ℕ) (b : Bool)
        → pop (act_all ops at_first).queue ≡ some (q, ids, b)
        → ((act_all ops at_first).out ++ ids ≡ 1 ∷ (2 ∷ (3 ∷ [])))
          × (q.buf ≡ [])
          × (b ≡ false
              → ((act_all ops at_first).queue.closed ≡ true)
                × ((act_all ops at_first).out ≡ 1 ∷ (2 ∷ (3 ∷ [])))))
delivery_example = delivery ops

-- Member 3 is cancelled before the round, member 2 ends in it, and member 5 joins meanwhile.
abbrev hooks : Hooks ℕ
hooks = record {
  pre_round = λ m. (m, not (m == 3));
  want = λ m. (m, gated 8);
  set_granted = λ w m. m;
  solo_round = λ m. (m, true);
  fused_round = λ b i m. (m, m == 2);
  draft_widths = none;
  joined = λ ms. 5 ∷ [];
}

hooks-Keeps : Keeps hooks (λ m. m)
hooks-Keeps = record {
  pre_keeps = λ m. refl;
  want_keeps = λ m. refl;
  granted_keeps = λ w m. refl;
  solo_keeps = λ m. refl;
  fused_keeps = λ b i m. refl;
  draft_keeps = λ f e. absurd (cc);
}

abbrev core : Core ℕ
core = record { cap = 12; members = 1 ∷ (2 ∷ []); joins = 3 ∷ (4 ∷ []); left = [] }

abbrev core_after : Core ℕ
core_after = record { cap = 12; members = 1 ∷ (4 ∷ []); joins = 5 ∷ []; left = 3 ∷ (2 ∷ []) }

a_round : round hooks core ≡ some (core_after, 2)
unfolding round
a_round = refl

round-Splits_example : Conserved (λ (m : ℕ). m) (5 ∷ []) core (core_after, 2)
round-Splits_example = round-Splits (λ m. m) hooks hooks-Keeps core core_after 2 a_round
