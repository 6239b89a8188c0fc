-- ===== src/Conductor/Trim.antt =====
-- `trim_widths`: the verify widths of a round are cut down to the cap. The arrays `want` and
-- `is_suffix` are one list of lanes.
pub mod Pick
pub mod Levels
use q.Prelude.{
  ℕ, zero, suc, ◌+◌, ◌-◌, Bool, true, false, ◌&&◌, ◌||◌, not, Option, none, some, List, [], ◌∷◌,
  ltb, leb, ◌==◌, if◌then◌else◌, length,
}

pub record Lane : Type 0 where
  pub width : ℕ
  pub is_suffix : Bool

abbrev pub total : List Lane → ℕ
total [] = 0
total (l ∷ ls) = l.width + total ls

-- Whether lane `l` takes the pick over from `m`.
abbrev pub beats : Lane → Lane → Bool
beats l m = ltb m.width l.width || (l.width == m.width && (l.is_suffix || not m.is_suffix))

abbrev pub pick_next : Option (ℕ × Lane) → ℕ → Lane → Option (ℕ × Lane)
pick_next none i l = some (i, l)
pick_next (some (j, m)) i l = if beats l m then some (i, l) else some (j, m)

-- The scan for the victim, from lane `i` on; a lane at or under the floor is none.
unfoldable pub pick_from : ℕ → Option (ℕ × Lane) → List Lane → Option (ℕ × Lane)
pick_from i p [] = p
pick_from i p (l ∷ ls) = pick_from (i + 1) (if leb l.width 2 then p else pick_next p i l) ls

-- `want[i]--`
unfoldable pub decrement : ℕ → List Lane → List Lane
decrement i [] = []
decrement zero (l ∷ ls) = record l { width = l.width - 1 } ∷ ls
decrement (suc i) (l ∷ ls) = l ∷ decrement i ls

-- `while (sum > cap)`, with fuel.
unfoldable pub trim_loop : ℕ → ℕ → ℕ → List Lane → List Lane
unfolding pick_from decrement
trim_loop zero sum cap ls = ls
trim_loop (suc f) sum cap ls =
    if ltb cap sum
    then elim (pick_from 0 none ls) [
      | none ↦ ls
      | some (i, l) ↦ trim_loop f (sum - 1) cap (decrement i ls)
    ]
    else ls

-- Each round takes one from the sum, so as many rounds as the sum are enough.
unfoldable pub trim_widths : List Lane → ℕ → List Lane
unfolding trim_loop
trim_widths ls cap = if leb (length ls) 1 then ls else trim_loop (total ls) (total ls) cap ls
