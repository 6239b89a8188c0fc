-- ===== src/Depth.antt =====
-- `DepthCtl` of src/depthctl.h: the controller of the draft depth.
pub mod Ladder
pub mod Reset
mod Tests
use q.Prelude.{
  ℤ, pos, negsuc, ℕ, zero, suc, ◌+◌, ◌-◌, Bool, true, false, ◌&&◌, List, [], ◌∷◌, ltb, leb, ◌==◌,
  if◌then◌else◌, get_or, replicate,
}

-- `n >= k`
abbrev pub reaches : ℤ → ℕ → Bool
reaches (pos n) k = leb k n
reaches (negsuc n) k = false

-- The floating-point numbers, a parameter: nothing below relies on their laws.
pub record Floats : Type 1 where
  pub F : Type 0
  pub f_zero : F
  pub f_one : F
  pub f_two : F
  pub f_add : F → F → F
  pub f_sub : F → F → F
  pub f_mul : F → F → F
  pub f_lt : F → F → Bool
  pub f_ge : F → F → Bool

unfoldable pub set_at : {A : Type 0} → List A → ℕ → A → List A
set_at [] i a = []
set_at (x ∷ xs) zero a = a ∷ xs
set_at (x ∷ xs) (suc i) a = x ∷ set_at xs i a

-- The settings, which `reset` keeps.
pub record Bars (fl : Floats) : Type 0 where
  pub k_min : ℕ
  pub k_max : ℕ
  pub ema_a : fl.F
  pub hi : fl.F
  pub hi6 : fl.F
  pub hi7 : fl.F
  pub lo : fl.F
  pub flo6 : fl.F
  pub flo7 : fl.F

pub record DepthCtl (fl : Floats) : Type 0 where
  pub bars : Bars fl
  pub cur : ℕ
  pub sat : List fl.F
  pub yld : List fl.F
  pub fired_ema : fl.F
  pub rounds : List ℕ
  pub promotes : ℕ
  pub demotes : ℕ

module _ (fl : Floats) where
  -- `2.f * x > 1.f ? 1.f : 2.f * x`
  abbrev pub grace : fl.F → fl.F
  grace x = if fl.f_lt fl.f_one (fl.f_mul fl.f_two x) then fl.f_one else fl.f_mul fl.f_two x

  -- `x += a * (y - x)`
  abbrev pub ema : fl.F → fl.F → fl.F → fl.F
  ema a x y = fl.f_add x (fl.f_mul a (fl.f_sub y x))

  abbrev pub as_float : Bool → fl.F
  as_float b = if b then fl.f_one else fl.f_zero

  unfoldable pub enter : DepthCtl fl → ℕ → DepthCtl fl
  unfolding set_at
  enter c k = record c {
    sat = set_at c.sat k fl.f_zero;
    yld = set_at c.yld k (grace c.bars.lo);
    fired_ema =
        if leb 6 k then grace (if k == 6 then c.bars.flo6 else c.bars.flo7) else c.fired_ema;
  }

  unfoldable pub reset : DepthCtl fl → DepthCtl fl
  unfolding enter
  reset c =
      enter
        (record c {
          cur = c.bars.k_min;
          sat = replicate 8 fl.f_zero;
          yld = replicate 8 fl.f_one;
          rounds = replicate 8 0;
          fired_ema = fl.f_zero;
          promotes = 0;
          demotes = 0;
        })
        c.bars.k_min

  -- `cur = k; enter(cur); promotes++` and `cur = k; enter(cur); demotes++`
  unfoldable pub promote : DepthCtl fl → ℕ → DepthCtl fl
  unfolding enter
  promote c k = let c' = enter (record c { cur = k }) k in record c' { promotes = c.promotes + 1 }

  unfoldable pub demote : DepthCtl fl → ℕ → DepthCtl fl
  unfolding enter
  demote c k = let c' = enter (record c { cur = k }) k in record c' { demotes = c.demotes + 1 }

  -- The last part of `update`: the yield of the top lane.
  unfoldable pub update_yield : DepthCtl fl → ℕ → ℤ → fl.F → DepthCtl fl
  unfolding demote
  update_yield c md depth hit =
      if ltb c.bars.k_min md && reaches depth md
      then (let y = ema c.bars.ema_a (get_or c.yld md fl.f_zero) hit in
          let c' = record c { yld = set_at c.yld md y } in
          if fl.f_lt y c.bars.lo then demote c' (md - 1) else c')
      else c

  -- The part in front of it: the fired-rate bar of the deep levels.
  unfoldable pub update_fired : DepthCtl fl → ℕ → ℤ → fl.F → DepthCtl fl
  unfolding demote update_yield
  update_fired c md depth hit =
      if leb 6 md
      then (let fired = ema c.bars.ema_a c.fired_ema (as_float (reaches depth md)) in
          let c' = record c { fired_ema = fired } in
          if fl.f_lt fired (if md == 6 then c.bars.flo6 else c.bars.flo7)
          then demote c' (md - 1)
          else update_yield c' md depth hit)
      else update_yield c md depth hit

  abbrev pub promote_bar : DepthCtl fl → ℕ → fl.F
  promote_bar c md = if leb 6 md then c.bars.hi7 else if leb 5 md then c.bars.hi6 else c.bars.hi

  -- `update` at a level of the arrays.
  unfoldable pub update_at : DepthCtl fl → ℕ → ℤ → ℤ → DepthCtl fl
  unfolding promote update_fired
  update_at c md depth n =
      let hit = as_float (reaches n (md + 1)) in
      let s = ema c.bars.ema_a (get_or c.sat md fl.f_zero) hit in
      let c' = record c {
        rounds = set_at c.rounds md (get_or c.rounds md 0 + 1);
        sat = set_at c.sat md s;
      } in
      if ltb md c.bars.k_max && fl.f_ge s (promote_bar c md)
      then promote c' (md + 1)
      else update_fired c' md depth hit

  unfoldable pub update : DepthCtl fl → ℤ → ℤ → ℤ → DepthCtl fl
  unfolding update_at
  update c (negsuc md) depth n = c
  update c (pos md) depth n = update_at c (if ltb 7 md then 7 else md) depth n
