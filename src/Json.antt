-- ===== src/Json.antt =====
-- JSON values, and `deep_equal` of packages/actionwitness_core/src/actionwitness_core/engine/assertions.py.
-- A finite float is the exact number `m / 2 ^ e`. Python compares integers and floats as exact
-- numbers; NaN and the infinities have no value here, since a canonical document cannot hold them.
-- A mapping is the list of its entries in order, with distinct keys.
pub mod Laws
use actionwitness.Prelude.{
  ℕ, zero, suc, ◌+◌, ◌*◌, ◌^◌, String, string_eq, Eq, ◌==◌, Bool, true, false, ◌&&◌, ◌||◌, List, [],
  ◌∷◌, Option, none, some, if◌then◌else◌,
}
use actionwitness.Prelude.Int.{ℤ, pos, int_eq, scale}

mutual
  -- `JsonValue`
  pub data Json : Type 0 where
    null : Json
    bool : Bool → Json
    int : ℤ → Json
    float : ℤ → ℕ → Json
    str : String → Json
    arr : JsonList → Json
    obj : JsonDict → Json

  pub data JsonList : Type 0 where
    nil : JsonList
    cons : Json → JsonList → JsonList

  pub data JsonDict : Type 0 where
    end : JsonDict
    entry : String → Json → JsonDict → JsonDict

-- `d.get(key)`, keeping apart a missing key and a value
abbrev pub lookup : JsonDict → String → Option Json
lookup end k = none
lookup (entry j v d) k = if j == k then some v else lookup d k

abbrev pub keys : JsonDict → List String
keys end = []
keys (entry k v d) = k ∷ keys d

abbrev pub items : JsonList → List Json
items nil = []
items (cons x xs) = x ∷ items xs

-- Literals of the two containers.
abbrev pub json_list : List Json → JsonList
json_list [] = nil
json_list (x ∷ xs) = cons x (json_list xs)

abbrev pub array : List Json → Json
array xs = arr (json_list xs)

abbrev pub dict : List (String × Json) → JsonDict
dict [] = end
dict ((k, v) ∷ rest) = entry k v (dict rest)

abbrev pub number : ℕ → Json
number n = int (pos n)

-- `key in d`
abbrev pub has_key : JsonDict → String → Bool
has_key end k = false
has_key (entry j v d) k = j == k || has_key d k

-- every key of the first is a key of the second
abbrev pub keys_within : JsonDict → JsonDict → Bool
keys_within end d = true
keys_within (entry k v rest) d = has_key d k && keys_within rest d

-- `set(left) == set(right)`
abbrev pub same_keys : JsonDict → JsonDict → Bool
same_keys left right = keys_within left right && keys_within right left

abbrev pub bool_beq : Bool → Bool → Bool
bool_beq true b = b
bool_beq false true = false
bool_beq false false = true

-- m / 2 ^ e = n / 2 ^ f
abbrev ratio_beq : ℤ → ℕ → ℤ → ℕ → Bool
ratio_beq m e n f = scale m (2 ^ f) == scale n (2 ^ e)

-- `deep_equal`
unfoldable mutual
  pub deep_equal : Json → Json → Bool
  deep_equal null null = true
  deep_equal (bool a) (bool b) = bool_beq a b
  deep_equal (int a) (int b) = a == b
  deep_equal (int a) (float n f) = ratio_beq a 0 n f
  deep_equal (float m e) (int b) = ratio_beq m e b 0
  deep_equal (float m e) (float n f) = ratio_beq m e n f
  deep_equal (str a) (str b) = a == b
  deep_equal (arr xs) (arr ys) = deep_equal_items xs ys
  deep_equal (obj a) (obj b) = same_keys a b && deep_equal_entries a b
  deep_equal _ _ = false

  -- equal lengths, and equal members in pairs
  pub deep_equal_items : JsonList → JsonList → Bool
  deep_equal_items nil nil = true
  deep_equal_items (cons x xs) (cons y ys) = deep_equal x y && deep_equal_items xs ys
  deep_equal_items _ _ = false

  -- `all(deep_equal(left[k], right[k]) for k in left)`
  pub deep_equal_entries : JsonDict → JsonDict → Bool
  deep_equal_entries end right = true
  deep_equal_entries (entry k v left) right =
      elim (lookup right k) [ none ↦ false | some w ↦ deep_equal v w ]
      && deep_equal_entries left right
