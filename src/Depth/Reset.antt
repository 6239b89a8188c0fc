-- ===== src/Depth/Reset.antt =====
-- `reset` isolates the requests: what one request taught the controller is gone for the next.
use q.Prelude.{◌≡◌, ap, refl, ◌≤◌, arith, replicate}
use q.Depth
use q.Depth.Ladder.{OnLadder, set_at-length}

-- After a reset the whole state depends on the settings alone.
pub reset-bars :
    {fl : Depth.Floats} (c d : Depth.DepthCtl fl)
    → c.bars ≡ d.bars
    → Depth.reset fl c ≡ Depth.reset fl d
unfolding Depth.reset
reset-bars {fl} c d e = ap (λ b. Depth.reset fl (record c { bars = b })) e

-- A reset puts the ceiling on the ladder, whatever the state was, where the settings fit the arrays.
reset-OnLadder :
    {fl : Depth.Floats} (c : Depth.DepthCtl fl)
    → c.bars.k_min ≤ c.bars.k_max
    → c.bars.k_max ≤ 7
    → c.bars.k_min ≤ 5
    → OnLadder (Depth.reset fl c)
unfolding Depth.reset
reset-OnLadder {fl} c le high low = record {
  above_min = omega arith;
  below_max = le;
  max_le = high;
  min_le = low;
  sat_levels = set_at-length (replicate 8 fl.f_zero) c.bars.k_min fl.f_zero;
  yld_levels = set_at-length (replicate 8 fl.f_one) c.bars.k_min (Depth.grace fl c.bars.lo);
  round_levels = refl;
}
