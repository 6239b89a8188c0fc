-- ===== src/StripCtrl/Clean.antt =====
-- What `strip_ctrl` guarantees: the loops end, and the marker stripped last is gone.
use q.Prelude.{
  ℕ, zero, suc, ◌+◌, ◌<◌, none, some, ◌≡◌, refl, ap, inl, inr, arith, Bytes, find, length, take,
  drop, Option-cases, length-append, length-take, length-drop, Absent, find-none, find-Absent,
  find-some, find_split,
}
use q.StripCtrl.{im_start, im_end, erase, strip_marker, strip_all, strip_ctrl}

-- An erased occurrence shortens the string by the whole marker.
pub length-erase :
    (m s : Bytes) {i : ℕ} → find m s ≡ some i → length (erase i (length m) s) + length m ≡ length s
length-erase m s {i} h =
    let (_, within, _) = find-some m s h in
    omega (
      arith,
      length-append (take i s) (drop (i + length m) s),
      length-append m (drop (i + length m) s),
      length-take i s,
      length-drop i s,
      ap length (find_split m s h),
    )

strip_marker_done :
    (fuel : ℕ) (m s : Bytes)
    → 0 < length m
    → length s < fuel
    → find m (strip_marker fuel m s) ≡ none
unfolding strip_marker
strip_marker_done zero m s pos lt = absurd (omega arith)
strip_marker_done (suc fuel) m s pos lt = elim (Option-cases (find m s)) [
  | inl e ↦ rw (e, strip_marker) e
  | inr (i, e) ↦
      rw (e, strip_marker)
        (strip_marker_done fuel m (erase i (length m) s) pos (omega (arith, length-erase m s e)))
]

-- The loop ends within its fuel with no occurrence left.
pub strip_all-Absent : (m s : Bytes) → 0 < length m → Absent m (strip_all m s)
unfolding strip_all
strip_all-Absent m s pos = find-none m _ (strip_marker_done (suc (length s)) m s pos (omega arith))

pub strip_marker_absent : (fuel : ℕ) (m s : Bytes) → find m s ≡ none → strip_marker fuel m s ≡ s
unfolding strip_marker
strip_marker_absent zero m s e = refl
strip_marker_absent (suc fuel) m s e = rw (e, strip_marker)

-- A text without the marker is kept as it is.
pub strip_all_clean : (m s : Bytes) → Absent m s → strip_all m s ≡ s
unfolding strip_all
strip_all_clean m s h = strip_marker_absent (suc (length s)) m s (find-Absent m s h)

-- No `<|im_end|>` is left, whatever the text held.
pub strip_ctrl-Absent_end : (s : Bytes) → Absent im_end (strip_ctrl s)
unfolding strip_ctrl
strip_ctrl-Absent_end s = strip_all-Absent im_end (strip_all im_start s) (omega arith)
