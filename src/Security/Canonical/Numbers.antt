-- ===== src/Security/Canonical/Numbers.antt =====
-- The numbers of packages/actionwitness_core/src/actionwitness_core/security/canonical.py: the digits of a
-- double in the layout of ECMAScript. What Python does with a double is a parameter.
use Prim.Native.String.{◌++◌ as append}
use actionwitness.Prelude.{
  ℕ, zero, suc, ◌+◌, ◌-◌, String, string_eq, nat_eq, ◌==◌, Bool, true, false, ◌&&◌, List, [], ◌∷◌,
  Option, none, some, if◌then◌else◌, leb, ltb, length,
}
use actionwitness.Prelude.Int.{ℤ, pos, negsuc}
use actionwitness.Prelude.Text.{show, concat}
use actionwitness.Kernel.{number_not_representable}
use actionwitness.Security.Outcome.{Outcome, done, refused, overflow}

-- what the code uses of a Python float
pub record Doubles : Type 0 where
  -- `int(float(value)) == value`, absent where `float(value)` overflows
  pub keeps : ℤ → Option Bool
  -- the digits and the exponent of `Decimal(repr(x))`, for the magnitude x of a double `m / 2 ^ e`
  pub shortest : ℤ → ℕ → List ℕ × ℤ

-- the digits without the zeros that end them, and how many those are
abbrev drop_zeros : List ℕ → List ℕ × ℕ
drop_zeros [] = ([], 0)
drop_zeros (d ∷ digits) = keep_digit d (drop_zeros digits)
  where
    keep_digit : ℕ → List ℕ × ℕ → List ℕ × ℕ
    keep_digit d ([], dropped) = if d == 0 then ([], suc dropped) else (d ∷ [], dropped)
    keep_digit d (e ∷ kept, dropped) = (d ∷ e ∷ kept, dropped)

-- `e + k`
abbrev plus : ℤ → ℕ → ℤ
plus (pos a) k = pos (a + k)
plus (negsuc a) k = if leb k a then negsuc (a - k) else pos (k - a - 1)

abbrev digits_text : List ℕ → String
digits_text [] = ""
digits_text (d ∷ digits) = append (show d) (digits_text digits)

-- `"0" * n`
abbrev zeros : ℕ → String
zeros zero = ""
zeros (suc n) = append "0" (zeros n)

abbrev take_digits : ℕ → List ℕ → List ℕ
take_digits zero digits = []
take_digits (suc n) [] = []
take_digits (suc n) (d ∷ digits) = d ∷ take_digits n digits

abbrev drop_digits : ℕ → List ℕ → List ℕ
drop_digits zero digits = digits
drop_digits (suc n) [] = []
drop_digits (suc n) (d ∷ digits) = drop_digits n digits

abbrev mantissa : List ℕ → String
mantissa [] = ""
mantissa (d ∷ []) = show d
mantissa (d ∷ e ∷ digits) = concat (show d ∷ "." ∷ digits_text (e ∷ digits) ∷ [])

-- the layout of ECMAScript for digits whose decimal point stands at `position`
unfoldable pub place : List ℕ → ℤ → String
place digits (pos position) =
    if leb (length digits) position && leb position 21
    then append (digits_text digits) (zeros (position - length digits))
    else if ltb 0 position && leb position 21
    then concat (
        digits_text (take_digits position digits)
        ∷ "."
        ∷ digits_text (drop_digits position digits)
        ∷ [])
    else if position == 0
    then append "0." (digits_text digits)
    else concat (mantissa digits ∷ "e+" ∷ show (position - 1) ∷ [])
place digits (negsuc q) =
    if ltb (suc q) 6
    then concat ("0." ∷ zeros (suc q) ∷ digits_text digits ∷ [])
    else concat (mantissa digits ∷ "e-" ∷ show (suc (suc q)) ∷ [])

abbrev place_shortest : List ℕ × ℤ → String
place_shortest ([], exponent) = place [] exponent
place_shortest (d ∷ digits, exponent) =
    let (kept, dropped) = drop_zeros digits in
    place (d ∷ kept) (plus exponent (dropped + length (d ∷ kept)))

abbrev sign : ℤ → String
sign (pos n) = ""
sign (negsuc n) = "-"

abbrev is_zero : ℤ → Bool
is_zero (pos n) = n == 0
is_zero (negsuc n) = false

module _ (doubles : Doubles) where
  -- `_encode_number`; a float here is finite
  unfoldable pub encode_number : ℤ → ℕ → String
  encode_number m e =
      if is_zero m then "0" else append (sign m) (place_shortest (doubles.shortest m e))

  -- `_check_integer_is_representable`
  abbrev pub check_integer : ℤ → Outcome (Unit {0})
  check_integer value = elim (doubles.keeps value) [
    | none ↦ overflow
    | some true ↦ done tt
    | some false ↦ refused number_not_representable
  ]
