-- ===== src/Constrain/State.antt =====
-- The state of `BasicToolConstrainer` and its steps on one grammar state: `begin`, `mask_id`,
-- `apply`, `drop` and `end`. The engine and the cache that it points to are part of the state. Log
-- lines are left out.
use q.Prelude.{
  ℕ, suc, ◌+◌, ◌-◌, Bool, true, false, List, [], ◌∷◌, ◌++◌, leb, if◌then◌else◌, Bytes, length, take,
  drop, get_or, replicate, ℤ, pos, negsuc,
}
use q.Toolgram.State.{Grammar}
use q.Toolgram.MaskCache
use q.Toolgram.MaskCache.{ToolMaskCache}
use q.Constrain.Engine.{Engine, mask_pool_used, mask_pool_add, set_tool_constraint, minus_one}

pub record Constrainer : Type 0 where
  pub eng : Engine
  pub cache : ToolMaskCache
  pub host2dev : List ℤ
  pub enabled : Bool
  pub active : Bool
  pub pool_dead : Bool
  pub tg : Grammar
  pub staged_state : Grammar
  pub names : List Bytes
  pub tail : Bytes
  pub skip_feed : ℕ
  pub engaged : ℕ
  pub disengaged : ℕ
  pub pool_drops : ℕ
  pub rebinds : ℕ

unfoldable pub begin : List Bytes → Constrainer → Constrainer
begin n s = record s { active = false; pool_dead = false; skip_feed = 0; tail = []; names = n }

-- `-2`: never uploaded
abbrev pub minus_two : ℤ
minus_two = negsuc 1

-- `if (host2dev->size() <= ci) host2dev->resize(ci + 1, -2)`
unfoldable pub grow : List ℤ → ℕ → List ℤ
grow m ci = if leb (length m) ci then m ++ replicate (ci + 1 - length m) minus_two else m

abbrev pub set_at : List ℤ → ℕ → ℤ → List ℤ
set_at m i v = take i m ++ (v ∷ drop (suc i) m)

-- The slot points outside the engine's pool.
abbrev pub is_stale : Engine → ℤ → Bool
is_stale e (pos k) = leb (mask_pool_used e) k
is_stale e (negsuc k) = false

-- `if (slot < 0) slot = eng->mask_pool_add(...)`
unfoldable pub upload : Constrainer → ℕ → ℤ → Constrainer × ℤ
unfolding mask_pool_add
upload s ci (pos k) = (record s { host2dev = set_at s.host2dev ci (pos k) }, pos k)
upload s ci (negsuc k) =
    let (eng, slot) = mask_pool_add s.eng (MaskCache.mask s.cache ci) in
    (record s { eng = eng; host2dev = set_at s.host2dev ci slot }, slot)

-- The split-brain gate.
unfoldable pub rebind : Constrainer → ℕ → ℤ → Constrainer × ℤ
unfolding upload
rebind s ci slot =
    if is_stale s.eng slot
    then upload (record s { rebinds = s.rebinds + 1 }) ci minus_two
    else upload s ci slot

unfoldable pub mask_id : Constrainer → Grammar → Constrainer × ℤ
unfolding rebind grow
mask_id s g =
    let (cache, ci) = MaskCache.get s.cache g in
    let m = grow s.host2dev ci in
    rebind (record s { cache = cache; host2dev = m }) ci (get_or m ci minus_two)

unfoldable pub drop_constraint : Constrainer → Constrainer
unfolding set_tool_constraint
drop_constraint s =
    if s.active
    then record s {
      eng = set_tool_constraint s.eng minus_one;
      active = false;
      disengaged = s.disengaged + 1;
    }
    else s

unfoldable pub apply_slot : Grammar → Constrainer × ℤ → Constrainer
unfolding drop_constraint set_tool_constraint
apply_slot g (s, negsuc k) =
    drop_constraint (record s { pool_drops = s.pool_drops + 1; pool_dead = true })
apply_slot g (s, pos k) = record s { staged_state = g; eng = set_tool_constraint s.eng (pos k) }

unfoldable pub apply : Constrainer → Grammar → Constrainer
unfolding apply_slot mask_id
apply s g = apply_slot g (mask_id s g)

unfoldable pub end : Constrainer → Constrainer
unfolding drop_constraint
end s = if s.active then drop_constraint s else s
