-- ===== src/Prefix/Keys.antt =====
-- The hash of a prefix, the hash of a configuration, and the names of the files.
use q.Prelude.{
  ℕ, zero, suc, ◌+◌, ◌*◌, ◌/◌, ◌%◌, ◌^◌, Bool, List, [], ◌∷◌, ◌++◌, Bytes, codes, length, take,
  drop, ltb, if◌then◌else◌, bytes_eq, joins, ℤ, pos, negsuc, map, ◌-◌,
}
use Prim.Native.Nat.{bit_xor}
use q.Toolgram.Signature.Decimal.{to_string}

-- `pfx_fnv1a64`, from the hash `h` on.
unfoldable pub pfx_fnv1a64 : Bytes → ℕ → ℕ
pfx_fnv1a64 [] h = h
pfx_fnv1a64 (b ∷ s) h = pfx_fnv1a64 s (bit_xor h b * 1099511628211 % 2 ^ 64)

abbrev pub fnv_start : ℕ
fnv_start = 1469598103934665603

-- The `n` bytes of a number in memory, the lowest first.
unfoldable pub memory : ℕ → ℕ → Bytes
memory zero x = []
memory (suc n) x = x % 256 ∷ memory n (x / 256)

-- An array of `int`; token ids are not negative.
unfoldable pub int_bytes : List ℕ → Bytes
unfolding memory
int_bytes [] = []
int_bytes (t ∷ ts) = memory 4 t ++ int_bytes ts

-- The key of the first `n` tokens.
unfoldable pub prefix_key : List ℕ → ℕ → ℕ
unfolding pfx_fnv1a64 int_bytes
prefix_key toks n = pfx_fnv1a64 (int_bytes (take n toks)) fnv_start

-- The bits of an `int64_t`.
abbrev pub int64 : ℤ → ℕ
int64 (pos n) = n % 2 ^ 64
int64 (negsuc n) = 2 ^ 64 - 1 - n % 2 ^ 64

-- `v` is the array of the nine numbers.
unfoldable pub pfx_compat_hash : Bytes → List ℤ → ℕ
unfolding pfx_fnv1a64 memory
pfx_compat_hash model_path v =
    pfx_fnv1a64 (joins (map (λ x. memory 8 (int64 x)) v)) (pfx_fnv1a64 model_path fnv_start)

abbrev pub hex_digit : ℕ → ℕ
hex_digit d = if ltb d 10 then b'0' + d else b'a' + (d - 10)

-- `%016llx`
unfoldable pub hex : ℕ → ℕ → Bytes
hex zero x = []
hex (suc n) x = hex n (x / 16) ++ hex_digit (x % 16) ∷ []

abbrev pub suffix : Bytes
suffix = codes ".q27pc"

-- `"%016llx-%d.q27pc"`
unfoldable pub entry_name : ℕ → ℕ → Bytes
unfolding hex to_string
entry_name key len = (hex 16 key ++ (b'-' ∷ to_string len)) ++ suffix

-- `n.compare(n.size() - k, k, s) == 0` for the `k` bytes of `s`, where `n` is not shorter.
abbrev pub ends_with : Bytes → Bytes → Bool
ends_with n s = bytes_eq (drop (length n - length s) n) s
