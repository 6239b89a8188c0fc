-- ===== src/Toolgram/MaskCache.antt =====
-- `ToolMaskCache` of src/toolgram.h: the masks of legal tokens, one for each signature. A mask is
-- the list of the bits of its words, bit `id` being bit `id & 31` of word `id >> 5`, so the byte
-- string of a mask is told by its bits. A map is a list of its pairs; `emplace` comes after a miss.
pub mod Exact
mod Tests
use q.Prelude.{
  ℕ, ◌+◌, ◌*◌, ◌-◌, ◌/◌, Bool, true, false, ◌&&◌, not, Option, none, some, List, [], ◌∷◌, ◌++◌,
  ◌==◌, if◌then◌else◌, Bytes, bytes_eq, length, get_or, replicate, is_empty, ℤ, pos, negsuc,
}
use q.Toolgram.State.{Grammar}
use q.Toolgram.Machine.{done, token_ok}
use q.Toolgram.Signature.{signature}

abbrev pub Mask : Type 0
Mask = List Bool

pub record ToolMaskCache : Type 0 where
  pub vocab : List Bytes
  pub closer_id : ℤ
  pub words : ℕ
  pub index : List (Bytes × ℕ)
  pub content : List (Mask × ℕ)
  pub masks : List Mask

-- `init`, on a new cache.
unfoldable pub init : List Bytes → ℤ → ToolMaskCache
init vocab closer_id = record {
  vocab = vocab;
  closer_id = closer_id;
  words = (length vocab + 31) / 32;
  index = [];
  content = [];
  masks = [];
}

abbrev pub bit_eq : Bool → Bool → Bool
bit_eq true b = b
bit_eq false b = not b

unfoldable pub mask_eq : Mask → Mask → Bool
mask_eq [] [] = true
mask_eq (x ∷ xs) (y ∷ ys) = bit_eq x y && mask_eq xs ys
mask_eq _ _ = false

-- `find` in either map.
unfoldable pub find_key {ℓ} : {K : Type ℓ} → (K → K → Bool) → K → List (K × ℕ) → Option ℕ
find_key eq k [] = none
find_key eq k ((j, i) ∷ m) = if eq j k then some i else find_key eq k m

-- `(int)id == closer_id_`
abbrev pub is_id : ℤ → ℕ → Bool
is_id (pos n) id = id == n
is_id (negsuc n) id = false

unfoldable pub legal : ℤ → Grammar → ℕ → Bytes → Bool
legal closer g id text =
    if is_id closer id then done g else if is_empty text then false else token_ok g text

unfoldable pub mask_from : ℤ → Grammar → ℕ → List Bytes → Mask
unfolding legal
mask_from closer g id [] = []
mask_from closer g id (text ∷ v) = legal closer g id text ∷ mask_from closer g (id + 1) v

-- The bits behind the last token stay 0.
unfoldable pub build_mask : ToolMaskCache → Grammar → Mask
unfolding mask_from
build_mask c g =
    mask_from c.closer_id g 0 c.vocab ++ replicate (c.words * 32 - length c.vocab) false

-- The deduplication by content.
unfoldable pub store : ToolMaskCache → Bytes → Mask → Option ℕ → ToolMaskCache × ℕ
store c sig m (some i) = (record c { index = (sig, i) ∷ c.index }, i)
store c sig m none = (
  record c {
    masks = c.masks ++ m ∷ [];
    content = (m, length c.masks) ∷ c.content;
    index = (sig, length c.masks) ∷ c.index;
  },
  length c.masks,
)

unfoldable pub get_in : ToolMaskCache → Grammar → Option ℕ → ToolMaskCache × ℕ
unfolding store build_mask find_key mask_eq signature
get_in c g (some i) = (c, i)
get_in c g none = let m = build_mask c g in store c (signature g) m (find_key mask_eq m c.content)

unfoldable pub get : ToolMaskCache → Grammar → ToolMaskCache × ℕ
unfolding get_in find_key signature
get c g = get_in c g (find_key bytes_eq (signature g) c.index)

unfoldable pub mask : ToolMaskCache → ℕ → Mask
mask c i = get_or c.masks i []

-- `size`
abbrev pub size : ToolMaskCache → ℕ
size c = length c.masks
