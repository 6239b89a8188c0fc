-- ===== src/Depth/Ladder.antt =====
-- The ceiling stays on its ladder, and a round moves it by one level at most.
use q.Prelude.{
  ℤ, pos, subst, sym, ltb→lt, leb→le, &&-elim, ap, ◌∙◌, ℕ, zero, suc, ◌+◌, ◌-◌, ◌≤◌, ◌<◌, ◌≡◌, refl,
  Bool, true, false, ◌&&◌, List, [], ◌∷◌, arith, length, ltb, leb, if◌then◌else◌, get_or,
}
use q.Depth

pub set_at-length :
    {A : Type 0} (xs : List A) (i : ℕ) (a : A) → length (Depth.set_at xs i a) ≡ length xs
unfolding Depth.set_at
set_at-length [] i a = refl
set_at-length (x ∷ xs) zero a = refl
set_at-length (x ∷ xs) (suc i) a = omega (arith, set_at-length xs i a)

-- The ceiling is between its bounds, and the arrays have an entry for each level up to it.
pub record OnLadder {fl : Depth.Floats} (c : Depth.DepthCtl fl) : Type 0 where
  pub above_min : c.bars.k_min ≤ c.cur
  pub below_max : c.cur ≤ c.bars.k_max
  pub max_le : c.bars.k_max ≤ 7
  pub min_le : c.bars.k_min ≤ 5
  pub sat_levels : length c.sat ≡ 8
  pub yld_levels : length c.yld ≡ 8
  pub round_levels : length c.rounds ≡ 8

-- `d` has the settings of `c`, and arrays as long.
record Same {fl : Depth.Floats} (c d : Depth.DepthCtl fl) : Type 0 where
  same_bars : d.bars ≡ c.bars
  same_sat : length d.sat ≡ length c.sat
  same_yld : length d.yld ≡ length c.yld
  same_rounds : length d.rounds ≡ length c.rounds

-- `d` has the ceiling and the counters of `c` too.
record Kept {fl : Depth.Floats} (c d : Depth.DepthCtl fl) : Type 0 where
  same : Same c d
  kept_cur : d.cur ≡ c.cur
  kept_up : d.promotes ≡ c.promotes
  kept_down : d.demotes ≡ c.demotes

-- What a round of level `md` does to the ceiling and the two counters.
pub data OneStep {fl : Depth.Floats} (c : Depth.DepthCtl fl) (md : ℕ) (d : Depth.DepthCtl fl)
    : Type 0 where
  stays : d.cur ≡ c.cur → d.promotes ≡ c.promotes → d.demotes ≡ c.demotes → OneStep c md d
  rises :
      d.cur ≡ md + 1
      → md < c.bars.k_max
      → d.promotes ≡ c.promotes + 1
      → d.demotes ≡ c.demotes
      → OneStep c md d
  falls :
      suc d.cur ≡ md
      → c.bars.k_min ≤ d.cur
      → d.promotes ≡ c.promotes
      → d.demotes ≡ c.demotes + 1
      → OneStep c md d

record Fits {fl : Depth.Floats} (c : Depth.DepthCtl fl) (md : ℕ) (d : Depth.DepthCtl fl)
    : Type 0 where
  fits_same : Same c d
  step : OneStep c md d

module _ {fl : Depth.Floats} (c : Depth.DepthCtl fl) (md : ℕ) where
  Fits-if :
      (b : Bool) (x y : Depth.DepthCtl fl)
      → (b ≡ true → Fits c md x)
      → (b ≡ false → Fits c md y)
      → Fits c md (if b then x else y)
  Fits-if true x y f g = f refl
  Fits-if false x y f g = g refl

  Fits-Kept : (d : Depth.DepthCtl fl) → Kept c d → Fits c md d
  Fits-Kept d k = record { fits_same = k.same; step = stays k.kept_cur k.kept_up k.kept_down }

  Fits-demote :
      (d : Depth.DepthCtl fl) (k : ℕ)
      → Kept c d
      → suc k ≡ md
      → c.bars.k_min ≤ k
      → Fits c md (Depth.demote fl d k)
  unfolding Depth.demote
  Fits-demote d k kept e le = record {
    fits_same = record {
      same_bars = kept.same.same_bars;
      same_sat = set_at-length d.sat k _ ∙ kept.same.same_sat;
      same_yld = set_at-length d.yld k _ ∙ kept.same.same_yld;
      same_rounds = kept.same.same_rounds;
    };
    step = falls e le kept.kept_up (ap (λ n. n + 1) kept.kept_down);
  }

  Fits-promote :
      (d : Depth.DepthCtl fl)
      → Kept c d
      → md < c.bars.k_max
      → Fits c md (Depth.promote fl d (md + 1))
  unfolding Depth.promote
  Fits-promote d kept lt = record {
    fits_same = record {
      same_bars = kept.same.same_bars;
      same_sat = set_at-length d.sat (md + 1) _ ∙ kept.same.same_sat;
      same_yld = set_at-length d.yld (md + 1) _ ∙ kept.same.same_yld;
      same_rounds = kept.same.same_rounds;
    };
    step = rises refl lt (ap (λ n. n + 1) kept.kept_up) kept.kept_down;
  }

  Fits-yield :
      (d : Depth.DepthCtl fl) (depth : ℤ) (hit : fl.F)
      → Kept c d
      → Fits c md (Depth.update_yield fl d md depth hit)
  unfolding Depth.update_yield
  Fits-yield d depth hit kept =
      Fits-if (ltb d.bars.k_min md && Depth.reaches depth md) _ _
        (λ e.
          Fits-if _ _ _
            (λ _.
              Fits-demote (seen) (md - 1) kept_seen (omega (arith, below e))
                (omega (arith, below e)))
            (λ _. Fits-Kept seen kept_seen))
        (λ _. Fits-Kept d kept)
    where
      seen : Depth.DepthCtl fl
      seen = record d {
        yld = Depth.set_at d.yld md (Depth.ema fl d.bars.ema_a (get_or d.yld md fl.f_zero) hit);
      }

      kept_seen : Kept c seen
      kept_seen = record {
        same = record {
          same_bars = kept.same.same_bars;
          same_sat = kept.same.same_sat;
          same_yld = set_at-length d.yld md _ ∙ kept.same.same_yld;
          same_rounds = kept.same.same_rounds;
        };
        kept_cur = kept.kept_cur;
        kept_up = kept.kept_up;
        kept_down = kept.kept_down;
      }

      below : ltb d.bars.k_min md && Depth.reaches depth md ≡ true → c.bars.k_min < md
      below e =
          let lt = ltb→lt _ _ (&&-elim (ltb d.bars.k_min md) (Depth.reaches depth md) e).0 in
          omega (arith, lt, ap (λ (b : Depth.Bars fl). b.k_min) kept.same.same_bars)

  Fits-fired :
      (d : Depth.DepthCtl fl) (depth : ℤ) (hit : fl.F)
      → c.bars.k_min ≤ 5
      → Kept c d
      → Fits c md (Depth.update_fired fl d md depth hit)
  unfolding Depth.update_fired
  Fits-fired d depth hit low kept =
      Fits-if (leb 6 md) _ _
        (λ e.
          Fits-if _ _ _
            (λ _.
              Fits-demote seen (md - 1) kept_seen (omega (arith, leb→le _ _ e))
                (omega (arith, leb→le _ _ e)))
            (λ _. Fits-yield seen depth hit kept_seen))
        (λ _. Fits-yield d depth hit kept)
    where
      seen : Depth.DepthCtl fl
      seen = record d {
        fired_ema =
            Depth.ema fl d.bars.ema_a d.fired_ema (Depth.as_float fl (Depth.reaches depth md));
      }

      kept_seen : Kept c seen
      kept_seen = record {
        same = record {
          same_bars = kept.same.same_bars;
          same_sat = kept.same.same_sat;
          same_yld = kept.same.same_yld;
          same_rounds = kept.same.same_rounds;
        };
        kept_cur = kept.kept_cur;
        kept_up = kept.kept_up;
        kept_down = kept.kept_down;
      }

  Kept-noted :
      (r : List ℕ) (v : List fl.F)
      → length r ≡ length c.rounds
      → length v ≡ length c.sat
      → Kept c (record c { rounds = r; sat = v })
  Kept-noted r v e f = record {
    same = record { same_bars = refl; same_sat = f; same_yld = refl; same_rounds = e };
    kept_cur = refl;
    kept_up = refl;
    kept_down = refl;
  }

  Fits-at : (depth n : ℤ) → c.bars.k_min ≤ 5 → Fits c md (Depth.update_at fl c md depth n)
  unfolding Depth.update_at
  Fits-at depth n low =
      Fits-if (ltb md c.bars.k_max && fl.f_ge rate (Depth.promote_bar fl c md)) _
        (Depth.update_fired fl noted md depth hit)
        (λ e. Fits-promote noted kept (
          ltb→lt _ _
            (&&-elim (ltb md c.bars.k_max) (fl.f_ge rate (Depth.promote_bar fl c md)) e).0))
        (λ _. Fits-fired noted depth hit low kept)
    where
      hit : fl.F
      hit = Depth.as_float fl (Depth.reaches n (md + 1))

      rate : fl.F
      rate = Depth.ema fl c.bars.ema_a (get_or c.sat md fl.f_zero) hit

      noted : Depth.DepthCtl fl
      noted = record c {
        rounds = Depth.set_at c.rounds md (get_or c.rounds md 0 + 1);
        sat = Depth.set_at c.sat md rate;
      }

      kept : Kept c noted
      kept =
          Kept-noted noted.rounds noted.sat (set_at-length c.rounds md (get_or c.rounds md 0 + 1))
            (set_at-length c.sat md rate)

-- A round of a level on the ladder leaves the ceiling on the ladder, with the arrays as long as
-- they were, and moves it to a level next to that of the round or not at all; one counter counts
-- the move.
pub update-OnLadder :
    {fl : Depth.Floats} (c : Depth.DepthCtl fl) (md : ℕ) (depth n : ℤ)
    → OnLadder c
    → c.bars.k_min ≤ md
    → md ≤ c.bars.k_max
    → OnLadder (Depth.update fl c (pos md) depth n)
      × OneStep c md (Depth.update fl c (pos md) depth n)
unfolding Depth.update
update-OnLadder {fl} c md depth n on low high =
    let e : (if ltb 7 md then 7 else md) ≡ md = ground (arith, on.max_le) in
    subst
      (λ k.
        OnLadder (Depth.update_at fl c k depth n) × OneStep c md (Depth.update_at fl c k depth n))
      (sym e) (go (Depth.update_at fl c md depth n) (Fits-at c md depth n on.min_le))
  where
    bounds :
        (d : Depth.DepthCtl fl) → OneStep c md d → (c.bars.k_min ≤ d.cur) × (d.cur ≤ c.bars.k_max)
    bounds d (stays e u v) = (omega (arith, on.above_min), omega (arith, on.below_max))
    bounds d (rises e lt u v) = (omega arith, omega arith)
    bounds d (falls e le u v) = (le, omega arith)

    go : (d : Depth.DepthCtl fl) → Fits c md d → OnLadder d × OneStep c md d
    go d f =
        let k_min_eq = ap (λ (b : Depth.Bars fl). b.k_min) f.fits_same.same_bars in
        let k_max_eq = ap (λ (b : Depth.Bars fl). b.k_max) f.fits_same.same_bars in
        let (ge, le) = bounds d f.step in
        (
          record {
            above_min = omega (arith, ge, k_min_eq);
            below_max = omega (arith, le, k_max_eq);
            max_le = omega (arith, on.max_le, k_max_eq);
            min_le = omega (arith, on.min_le, k_min_eq);
            sat_levels = f.fits_same.same_sat ∙ on.sat_levels;
            yld_levels = f.fits_same.same_yld ∙ on.yld_levels;
            round_levels = f.fits_same.same_rounds ∙ on.round_levels;
          },
          f.step,
        )
