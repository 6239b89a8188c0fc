-- ===== src/StripCtrl.antt =====
-- src/strip_ctrl.h: the sanitizer that removes the ChatML role delimiters from untrusted text.
pub mod Clean
pub mod Forge
mod Tests
use q.Prelude.{ℕ, zero, suc, ◌+◌, none, some, ◌++◌, Bytes, codes, find, length, take, drop}

abbrev pub im_start : Bytes
im_start = codes "<|im_start|>"

abbrev pub im_end : Bytes
im_end = codes "<|im_end|>"

-- `s.erase(i, n)`
abbrev pub erase : ℕ → ℕ → Bytes → Bytes
erase i n s = take i s ++ drop (i + n) s

-- `for (size_t p; (p = s.find(m)) != npos;) s.erase(p, m.size());` with fuel for the rounds
unfoldable pub strip_marker : ℕ → Bytes → Bytes → Bytes
strip_marker zero m s = s
strip_marker (suc fuel) m s = elim (find m s) [
  | none ↦ s
  | some p ↦ strip_marker fuel m (erase p (length m) s)
]

-- A round shortens the text, so its length is fuel enough.
unfoldable pub strip_all : Bytes → Bytes → Bytes
unfolding strip_marker
strip_all m s = strip_marker (suc (length s)) m s

-- The loop over the two markers, in the order of the initializer list.
unfoldable pub strip_ctrl : Bytes → Bytes
unfolding strip_all
strip_ctrl s = strip_all im_end (strip_all im_start s)
