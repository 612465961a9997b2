-- ===== src/Json/Laws.antt =====
-- `deep_equal` is reflexive and never equates values of two JSON kinds.
use actionwitness.Prelude.{
  ◌^◌, ◌≡◌, refl, String, string_eq, true, false, some, arith, eq_iff, beq_refl,
}
use actionwitness.Prelude.Int.{int_eq, scale}
use actionwitness.Json.{
  Json, null, bool, int, float, str, arr, obj, JsonList, nil, cons, JsonDict, end, entry, lookup,
  has_key, keys_within, deep_equal, deep_equal_items, deep_equal_entries,
}

-- the kinds of JSON: one for numbers
pub data Kind : Type 0 where
  nothing flag number text list object : Kind

abbrev pub kind : Json → Kind
kind null = Kind.nothing
kind (bool b) = Kind.flag
kind (int n) = Kind.number
kind (float m e) = Kind.number
kind (str s) = Kind.text
kind (arr xs) = Kind.list
kind (obj d) = Kind.object

-- Equal values are of one kind: no flag equals a number, and no text equals a number.
pub deep_equal-kind : (a b : Json) → deep_equal a b ≡ true → kind a ≡ kind b
unfolding deep_equal
deep_equal-kind a b h = ground arith

-- every mapping inside has distinct keys, as a `dict` has
abbrev mutual
  pub IsJson : Json → Type 0
  IsJson (arr xs) = IsJsonList xs
  IsJson (obj d) = IsJsonDict d
  IsJson _ = Unit

  pub IsJsonList : JsonList → Type 0
  IsJsonList nil = Unit
  IsJsonList (cons x xs) = IsJson x × IsJsonList xs

  pub IsJsonDict : JsonDict → Type 0
  IsJsonDict end = Unit
  IsJsonDict (entry k v d) = (has_key d k ≡ false) × IsJson v × IsJsonDict d

-- each entry of the first is what the second has at its key
abbrev pub Within : JsonDict → JsonDict → Type 0
Within end right = Unit
Within (entry k v left) right = (lookup right k ≡ some v) × Within left right

Within-entry :
    (left right : JsonDict) (k : String) (v : Json)
    → has_key left k ≡ false
    → Within left right
    → Within left (entry k v right)
Within-entry end right k v fresh w = tt
Within-entry (entry j u left) right k v fresh (at, w) =
    (ground (arith, eq_iff k j, eq_iff j k), Within-entry left right k v (ground arith) w)

pub Within-refl : (d : JsonDict) → IsJsonDict d → Within d d
Within-refl end h = tt
Within-refl (entry k v d) (fresh, _, h) =
    (rw (beq_refl k) refl, Within-entry d d k v fresh (Within-refl d h))

pub has_key-lookup :
    (d : JsonDict) (j : String) (u : Json) → lookup d j ≡ some u → has_key d j ≡ true
has_key-lookup end j u e = cc
has_key-lookup (entry i x d) j u e = ground (arith, has_key-lookup d j u)

pub has_key-Within : (left right : JsonDict) → Within left right → keys_within left right ≡ true
has_key-Within end right w = refl
has_key-Within (entry k v left) right (at, w) =
    ground (arith, has_key-lookup right k v at, has_key-Within left right w)

mutual
  unfolding deep_equal

  deep_equal_self : (a : Json) → IsJson a → deep_equal a a ≡ true
  deep_equal_self null h = refl
  deep_equal_self (bool true) h = refl
  deep_equal_self (bool false) h = refl
  deep_equal_self (int n) h = beq_refl n
  deep_equal_self (float m e) h = beq_refl (scale m (2 ^ e))
  deep_equal_self (str s) h = beq_refl s
  deep_equal_self (arr xs) h = deep_equal_items_self xs h
  deep_equal_self (obj d) h =
      let w = Within-refl d h in
      ground (arith, has_key-Within d d w, deep_equal_entries_self d d h w)

  deep_equal_items_self : (xs : JsonList) → IsJsonList xs → deep_equal_items xs xs ≡ true
  deep_equal_items_self nil h = refl
  deep_equal_items_self (cons x xs) (hx, hxs) =
      ground (arith, deep_equal_self x hx, deep_equal_items_self xs hxs)

  deep_equal_entries_self :
      (left right : JsonDict)
      → IsJsonDict left
      → Within left right
      → deep_equal_entries left right ≡ true
  deep_equal_entries_self end right h w = refl
  deep_equal_entries_self (entry k v left) right (_, hv, h) (at, w) =
      rw at (ground (arith, deep_equal_self v hv, deep_equal_entries_self left right h w))

-- Every JSON value whose mappings have distinct keys equals itself.
pub deep_equal_refl : (a : Json) → IsJson a → deep_equal a a ≡ true
deep_equal_refl a h = deep_equal_self a h
