-- ===== src/Depth/Tests.antt =====
-- The ladder from 4 to 6 over whole numbers in place of floats, and the theorems on it.
use q.Prelude.{pos, negsuc, ℕ, ◌+◌, ◌-◌, ◌*◌, ◌≡◌, refl, arith, ltb, leb, replicate}
use q.Depth
use q.Depth.Ladder.{OnLadder, OneStep, update-OnLadder}
use q.Depth.Reset.{reset-bars}

abbrev whole : Depth.Floats
whole = record {
  F = ℕ;
  f_zero = 0;
  f_one = 1;
  f_two = 2;
  f_add = λ a b. a + b;
  f_sub = λ a b. a - b;
  f_mul = λ a b. a * b;
  f_lt = ltb;
  f_ge = λ a b. leb b a;
}

abbrev bars : Depth.Bars whole
bars = record {
  k_min = 4;
  k_max = 6;
  ema_a = 1;
  hi = 1;
  hi6 = 1;
  hi7 = 1;
  lo = 1;
  flo6 = 1;
  flo7 = 1;
}

abbrev at_five : Depth.DepthCtl whole
at_five = record {
  bars = bars;
  cur = 5;
  sat = replicate 8 0;
  yld = replicate 8 1;
  fired_ema = 0;
  rounds = replicate 8 0;
  promotes = 1;
  demotes = 0;
}

at_five-OnLadder : OnLadder at_five
at_five-OnLadder = record {
  above_min = omega arith;
  below_max = omega arith;
  max_le = omega arith;
  min_le = omega arith;
  sat_levels = refl;
  yld_levels = refl;
  round_levels = refl;
}

deeper : (Depth.update whole at_five (pos 5) (pos 5) (pos 6)).cur ≡ 6
unfolding Depth.update
deeper = refl

not_gated : Depth.update whole at_five (negsuc 0) (pos 5) (pos 6) ≡ at_five
unfolding Depth.update
not_gated = refl

update-OnLadder_example :
    OnLadder (Depth.update whole at_five (pos 5) (pos 5) (pos 6))
    × OneStep at_five 5 (Depth.update whole at_five (pos 5) (pos 5) (pos 6))
update-OnLadder_example =
    update-OnLadder at_five 5 (pos 5) (pos 6) at_five-OnLadder (omega arith) (omega arith)

abbrev at_six : Depth.DepthCtl whole
at_six = record at_five { cur = 6; promotes = 2 }

reset-bars_example : Depth.reset whole at_five ≡ Depth.reset whole at_six
reset-bars_example = reset-bars at_five at_six refl
