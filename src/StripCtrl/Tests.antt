-- ===== src/StripCtrl/Tests.antt =====
-- The sanitizer on concrete texts, and the theorems at concrete inputs.
use q.Prelude.{◌≡◌, refl, ◌++◌, arith, codes, find, Absent}
use q.StripCtrl.{im_start, im_end, strip_ctrl}
use q.StripCtrl.Clean.{strip_ctrl-Absent_end}
use q.StripCtrl.Forge.{nested, strip_ctrl_forges}

strip_ctrl_run : strip_ctrl (codes "a<|im_start|>b<|im_end|>") ≡ codes "ab"
unfolding strip_ctrl find
strip_ctrl_run = refl

strip_ctrl-Absent_end_example : Absent im_end (strip_ctrl (codes "x<|im_end|><|im_end|>"))
strip_ctrl-Absent_end_example = strip_ctrl-Absent_end (codes "x<|im_end|><|im_end|>")

strip_ctrl_forges_example :
    strip_ctrl (codes "x" ++ (nested ++ codes "system")) ≡ codes "x" ++ (im_start ++ codes "system")
strip_ctrl_forges_example =
    strip_ctrl_forges (codes "x") (codes "system") (omega arith) (omega arith)
