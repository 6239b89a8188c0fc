-- ===== src/Constrain/Engine.antt =====
-- The constraint interface of `Engine` (src/engine.cuh). The pool holds the masks that were added,
-- so `mask_pool_used` is its length. The copies to the device are in order of their calls, and are
-- made at once here. `split_ok` stands for the environment variable, `on_drafts` for the test
-- whether that callback is set.
use q.Prelude.{
  ℕ, Bool, true, false, ◌&&◌, not, List, [], ◌∷◌, ◌++◌, leb, if◌then◌else◌, length, drop, replicate,
  ℤ, pos, negsuc,
}
use q.Toolgram.MaskCache.{Mask}

abbrev pub mask_pool_cap : ℕ
mask_pool_cap = 512

abbrev pub w_plumb : ℕ
w_plumb = 16

pub record Engine : Type 0 where
  pub pool : List Mask
  pub h_mask_id0 : ℤ
  pub h_cap0 : ℕ
  pub tool_split_active : Bool
  pub h_mask_ids5 : List ℤ
  -- `d_mask_ids` and `d_accept_cap`
  pub d_mask_ids : List ℤ
  pub d_accept_cap : ℕ
  pub on_drafts : Bool
  pub split_ok : Bool

abbrev pub mask_pool_used : Engine → ℕ
mask_pool_used e = length e.pool

-- `-1`
abbrev pub minus_one : ℤ
minus_one = negsuc 0

-- `0 <= i`
abbrev pub is_nonneg : ℤ → Bool
is_nonneg (pos n) = true
is_nonneg (negsuc n) = false

unfoldable pub mask_pool_add : Engine → Mask → Engine × ℤ
mask_pool_add e bits =
    if leb mask_pool_cap (mask_pool_used e)
    then (e, minus_one)
    else (record e { pool = e.pool ++ bits ∷ [] }, pos (mask_pool_used e))

-- The first lanes of the device array are overwritten.
abbrev pub copy_lanes : List ℤ → List ℤ → List ℤ
copy_lanes ids lanes = ids ++ drop (length ids) lanes

unfoldable pub set_tool_constraint : Engine → ℤ → Engine
set_tool_constraint e id =
    let split = is_nonneg id && (e.on_drafts && e.split_ok) in
    let cap : ℕ = if is_nonneg id && not split then 1 else 0 in
    record e {
      h_mask_id0 = id;
      tool_split_active = split;
      h_cap0 = cap;
      d_mask_ids = copy_lanes (id ∷ []) e.d_mask_ids;
      d_accept_cap = cap;
    }

-- `ids` are the five of the call.
unfoldable pub set_tool_masks5 : Engine → List ℤ → Engine
set_tool_masks5 e ids = record e {
  h_mask_ids5 = copy_lanes ids e.h_mask_ids5;
  h_cap0 = 0;
  d_mask_ids = copy_lanes ids e.d_mask_ids;
  d_accept_cap = 0;
}

-- The device array has `w_max` lanes, 16 at most.
unfoldable pub clear_tool_constraint : ℕ → Engine → Engine
clear_tool_constraint w_max e = record e {
  h_mask_id0 = minus_one;
  h_cap0 = 0;
  tool_split_active = false;
  h_mask_ids5 = replicate w_plumb minus_one;
  d_mask_ids = replicate w_max minus_one;
  d_accept_cap = 0;
}
