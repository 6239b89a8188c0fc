-- ===== src/Prelude/Strings.antt =====
-- `std::string` as a list of byte values: equality, prefix test, `find`, and what `find` means.
use Prim.Native.Char.{code}
use Prim.Native.Nat.{ℕ, suc}
use Prim.Native.String.{String}
use mathlib.Core.Bool.{Bool, true, false, ◌&&◌}
use mathlib.Core.List.{List, [], ◌∷◌, ◌++◌, append_assoc}
use mathlib.Core.Logic.{◌↔◌}
use mathlib.Core.Option
use mathlib.Core.Option.{Option, none, some}
use mathlib.Core.Path.{◌≡◌, refl, sym, ap, ◌∙◌}
use native.Mathlib.Omega.{arith}
use q.Prelude.Lists.{length, drop}
use q.Prelude.Tests.{◌==◌, if◌then◌else◌}

abbrev pub Bytes : Type 0
Bytes = List ℕ

-- The bytes of an ASCII literal.
abbrev pub codes : String → Bytes
codes String.[] = []
codes (String.◌∷◌ c s) = code c ∷ codes s

-- `a == b` on strings.
unfoldable pub bytes_eq : Bytes → Bytes → Bool
bytes_eq [] [] = true
bytes_eq (x ∷ xs) (y ∷ ys) = (x == y) && bytes_eq xs ys
bytes_eq _ _ = false

pub bytes_eq_iff : (a b : Bytes) → (bytes_eq a b ≡ true) ↔ (a ≡ b)
unfolding bytes_eq
bytes_eq_iff (x ∷ a) (y ∷ b) = ground (arith, bytes_eq_iff a b)
bytes_eq_iff _ _ = ground arith

-- `s.compare(0, p.size(), p) == 0`: `p` is a prefix of `s`.
unfoldable pub starts_with : Bytes → Bytes → Bool
starts_with [] s = true
starts_with (x ∷ p) [] = false
starts_with (x ∷ p) (y ∷ s) = (x == y) && starts_with p s

pub starts_with-append : (p r : Bytes) → starts_with p (p ++ r) ≡ true
unfolding starts_with
starts_with-append [] r = refl
starts_with-append (x ∷ p) r = ground (arith, starts_with-append p r)

pub starts_with-split : (p s : Bytes) → starts_with p s ≡ true → s ≡ p ++ drop (length p) s
unfolding starts_with
starts_with-split [] s h = refl
starts_with-split (x ∷ p) [] h = ground arith
starts_with-split (x ∷ p) (y ∷ s) h = ground (arith, starts_with-split p s)

-- `s.find(p)`: the first position at which `p` stands.
unfoldable pub find : Bytes → Bytes → Option ℕ
unfolding starts_with
find p [] = if starts_with p [] then some 0 else none
find p (y ∷ s) = if starts_with p (y ∷ s) then some 0 else Option.map suc (find p s)

-- `p` stands in `s` at byte `i`.
abbrev pub StandsAt : Bytes → Bytes → ℕ → Type 0
StandsAt p s i = starts_with p (drop i s) ≡ true

-- The texts one after the other.
abbrev pub joins : List Bytes → Bytes
joins [] = []
joins (p ∷ ps) = p ++ joins ps

pub joins-append : (a b : List Bytes) → joins (a ++ b) ≡ joins a ++ joins b
joins-append [] b = refl
joins-append (p ∷ a) b =
    ap (λ t. p ++ t) (joins-append a b) ∙ sym (append_assoc p (joins a) (joins b))
