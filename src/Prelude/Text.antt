-- ===== src/Prelude/Text.antt =====
-- Text as Python handles it: order by code points, concatenation, `str(n)` and `startswith`.
use Prim.Native.Nat.{ℕ, zero, suc, ◌/◌, ◌%◌}
use Prim.Native.Char.{code}
use Prim.Native.String.{String, ◌++◌}
use mathlib.Core.Path.{◌≡◌, refl, ap₂}
use text.Mathlib.TextEquality.{Char-path}
use mathlib.Core.Logic.{◌⊎◌, inl, inr}
use mathlib.Core.Bool.{Bool, true, false, ◌&&◌, ◌||◌}
use mathlib.Core.List.{List, [], ◌∷◌}
use native.Mathlib.Omega.{arith}
use actionwitness.Prelude.Tests.{if◌then◌else◌, ltb, nat_beq}
use actionwitness.Prelude.Sort.{IsOrder, sort_by}
use actionwitness.Prelude.Lists.{any}
use text.Mathlib.Text.{◌==◌ as text_beq}

abbrev pub codes : String → List ℕ
codes String.[] = []
codes (String.◌∷◌ c s) = code c ∷ codes s

-- `text.startswith(part)`, character by character
abbrev pub starts_with : List ℕ → List ℕ → Bool
starts_with text [] = true
starts_with [] (c ∷ part) = false
starts_with (d ∷ text) (c ∷ part) = nat_beq d c && starts_with text part

-- lexicographic order of code points
unfoldable pub lex_leb : List ℕ → List ℕ → Bool
lex_leb [] _ = true
lex_leb (x ∷ xs) [] = false
lex_leb (x ∷ xs) (y ∷ ys) = ltb x y || (nat_beq x y && lex_leb xs ys)

-- `s <= t` on `str`
unfoldable pub text_leb : String → String → Bool
unfolding lex_leb
text_leb s t = lex_leb (codes s) (codes t)

pub lex_leb_total : (xs ys : List ℕ) → (lex_leb xs ys ≡ true) ⊎ (lex_leb ys xs ≡ true)
unfolding lex_leb
lex_leb_total [] ys = inl refl
lex_leb_total (x ∷ xs) [] = inr refl
lex_leb_total (x ∷ xs) (y ∷ ys) = ground (arith, lex_leb_total xs ys)

pub lex_leb_trans :
    (xs ys zs : List ℕ) → lex_leb xs ys ≡ true → lex_leb ys zs ≡ true → lex_leb xs zs ≡ true
unfolding lex_leb
lex_leb_trans [] ys zs h k = refl
lex_leb_trans (x ∷ xs) [] zs h k = cc
lex_leb_trans (x ∷ xs) (y ∷ ys) [] h k = cc
lex_leb_trans (x ∷ xs) (y ∷ ys) (z ∷ zs) h k = ground (arith, lex_leb_trans xs ys zs)

pub text-IsOrder : IsOrder text_leb
unfolding text_leb
text-IsOrder = record {
  total = λ s t. lex_leb_total (codes s) (codes t);
  transitive = λ s t u. lex_leb_trans (codes s) (codes t) (codes u);
}

pub lex_leb_antisym : (xs ys : List ℕ) → lex_leb xs ys ≡ true → lex_leb ys xs ≡ true → xs ≡ ys
unfolding lex_leb
lex_leb_antisym [] [] h k = refl
lex_leb_antisym [] (y ∷ ys) h k = cc
lex_leb_antisym (x ∷ xs) [] h k = cc
lex_leb_antisym (x ∷ xs) (y ∷ ys) h k = ground (arith, lex_leb_antisym xs ys)

codes_injective : (s t : String) → codes s ≡ codes t → s ≡ t
codes_injective String.[] String.[] h = refl
codes_injective String.[] (String.◌∷◌ d t) h = cc
codes_injective (String.◌∷◌ c s) String.[] h = cc
codes_injective (String.◌∷◌ c s) (String.◌∷◌ d t) h =
    let same : code c ≡ code d = cc in
    let rest : codes s ≡ codes t = cc in
    ap₂ String.◌∷◌ (Char-path c d same) (codes_injective s t rest)

pub text_antisym : (s t : String) → text_leb s t ≡ true → text_leb t s ≡ true → s ≡ t
unfolding text_leb
text_antisym s t h k = codes_injective s t (lex_leb_antisym (codes s) (codes t) h k)

-- an f-string, part by part
unfoldable pub concat : List String → String
concat [] = ""
concat (s ∷ rest) = s ++ concat rest

digit : ℕ → String
digit n =
    if nat_beq n 0
    then "0"
    else if nat_beq n 1
    then "1"
    else if nat_beq n 2
    then "2"
    else if nat_beq n 3
    then "3"
    else if nat_beq n 4
    then "4"
    else if nat_beq n 5
    then "5"
    else if nat_beq n 6
    then "6"
    else if nat_beq n 7
    then "7"
    else if nat_beq n 8
    then "8"
    else "9"

-- the decimal digits of `n` before `rest`; a number has at most as many digits as its value, plus one
digits : ℕ → ℕ → String → String
digits zero n rest = rest
digits (suc fuel) n rest =
    let shown = digit (n % 10) ++ rest in
    let more = digits fuel (n / 10) shown in if ltb n 10 then shown else more

-- `str(n)`
unfoldable pub show : ℕ → String
unfolding digit digits
show n = digits (suc n) n ""

show_example : show 1203 ≡ "1203"
unfolding show
show_example = refl

-- the members of a list of texts, each once: the keys of a `Counter`, or `set(xs)` before a sort
abbrev pub distinct : List String → List String
distinct [] = []
distinct (x ∷ xs) =
    let rest = distinct xs in if any (λ y. text_beq y x) rest then rest else x ∷ rest

-- `sorted(set(xs))`
unfoldable pub sorted_set : List String → List String
sorted_set xs = sort_by text_leb (distinct xs)
