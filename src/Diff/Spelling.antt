-- ===== src/Diff/Spelling.antt =====
-- The plain notation of a decimal, and when two texts count as the same.
use actionwitness.Prelude.{
  ℕ, ◌≡◌, ◌≤◌, ◌↔◌, ◌⊎◌, inl, inr, refl, ap, ap₂, ◌∙◌, String, string_eq, nat_eq, ◌==◌, Bool, true,
  List, [], ◌∷◌, ◌++◌, Option, none, some, all, arith, Bool-cases, Option-cases,
}
use actionwitness.Prelude.Int.{ℤ}
use actionwitness.Prelude.Text.{codes}
use actionwitness.Json.{str, deep_equal}
use actionwitness.Assertions.{Decimals, if_finite}
use actionwitness.Diff.{
  is_decimal_digit, is_fraction, is_rest, is_unsigned, is_plain_decimal, as_decimal, same_decimal,
  equal,
}
use actionwitness.Diff.Unchanged.{if_finite-finite}

abbrev IsDigits : List ℕ → Type 0
IsDigits cs = all is_decimal_digit cs ≡ true

-- `(\.[0-9]+)?`
abbrev pub IsFraction : List ℕ → Type 0
IsFraction cs = (cs ≡ []) ⊎ ((d : ℕ) × (ds : List ℕ) × (cs ≡ b'.' ∷ d ∷ ds) × IsDigits (d ∷ ds))

-- `0|[1-9][0-9]*`
abbrev pub IsWhole : List ℕ → Type 0
IsWhole cs =
    (cs ≡ b'0' ∷ [])
    ⊎ ((d : ℕ) × (ds : List ℕ) × (cs ≡ d ∷ ds) × (b'1' ≤ d) × (d ≤ b'9') × IsDigits ds)

-- `-?(0|[1-9][0-9]*)(\.[0-9]+)?`
abbrev pub IsPlainDecimal : List ℕ → Type 0
IsPlainDecimal cs =
    (minus : List ℕ) × (whole : List ℕ) × (fraction : List ℕ) × (cs ≡ minus ++ whole ++ fraction)
    × ((minus ≡ []) ⊎ (minus ≡ b'-' ∷ []))
    × IsWhole whole
    × IsFraction fraction

is_fraction_sound : (cs : List ℕ) → is_fraction cs ≡ true → IsFraction cs
is_fraction_sound [] h = inl refl
is_fraction_sound (c ∷ []) h = cc
is_fraction_sound (c ∷ d ∷ ds) h =
    let dot : c ≡ b'.' = ground arith in inr (d, ds, ap (λ a. a ∷ d ∷ ds) dot, ground arith)

is_fraction_complete : (cs : List ℕ) → IsFraction cs → is_fraction cs ≡ true
is_fraction_complete cs (inl e) = rw e refl
is_fraction_complete cs (inr (d, ds, e, h)) = rw e h

is_rest_sound :
    (cs : List ℕ)
    → is_rest cs ≡ true
    → (ds : List ℕ) × (fraction : List ℕ) × (cs ≡ ds ++ fraction)
      × IsDigits ds
      × IsFraction fraction
unfolding all
is_rest_sound [] h = ([], [], refl, refl, inl refl)
is_rest_sound (c ∷ cs) h = elim (Bool-cases (is_fraction (c ∷ cs))) [
  | inl e ↦ ([], c ∷ cs, refl, refl, is_fraction_sound (c ∷ cs) e)
  | inr e ↦
      let (ds, fraction, same, digits, f) = is_rest_sound cs (ground arith) in
      (c ∷ ds, fraction, ap (λ r. c ∷ r) same, ground arith, f)
]

is_rest_complete :
    (ds fraction : List ℕ) → IsDigits ds → IsFraction fraction → is_rest (ds ++ fraction) ≡ true
unfolding all
is_rest_complete [] fraction h (inl e) = rw e refl
is_rest_complete [] fraction h (inr (d, ds, e, f)) = rw e (ground arith)
is_rest_complete (d ∷ ds) fraction h f =
    ground (arith, is_rest_complete ds fraction (ground arith) f)

abbrev IsUnsigned : List ℕ → Type 0
IsUnsigned cs =
    (whole : List ℕ) × (fraction : List ℕ) × (cs ≡ whole ++ fraction)
    × IsWhole whole
    × IsFraction fraction

is_unsigned_sound : (cs : List ℕ) → is_unsigned cs ≡ true → IsUnsigned cs
is_unsigned_sound [] h = cc
is_unsigned_sound (c ∷ cs) h = elim (Bool-cases (c == b'0')) [
  | inl e ↦
      let zero_is : c ≡ b'0' = ground arith in
      (b'0' ∷ [], cs, ap (λ a. a ∷ cs) zero_is, inl refl, is_fraction_sound cs (ground arith))
  | inr e ↦
      let (ds, fraction, same, digits, f) = is_rest_sound cs (ground arith) in
      (
        c ∷ ds,
        fraction,
        ap (λ r. c ∷ r) same,
        inr (c, ds, refl, ground arith, ground arith, digits),
        f,
      )
]

is_unsigned_complete : (cs : List ℕ) → IsUnsigned cs → is_unsigned cs ≡ true
is_unsigned_complete cs (whole, fraction, same, inl e, f) =
    rw (same, e) (rw (is_fraction_complete fraction f) refl)
is_unsigned_complete cs (whole, fraction, same, inr (d, ds, e, low, high, digits), f) =
    rw (same, e) (ground (arith, is_rest_complete ds fraction digits f))

is_plain_decimal_sound : (cs : List ℕ) → is_plain_decimal cs ≡ true → IsPlainDecimal cs
is_plain_decimal_sound [] h = cc
is_plain_decimal_sound (c ∷ cs) h = elim (Bool-cases (c == b'-')) [
  | inl e ↦
      let minus : c ≡ b'-' = ground arith in
      let (whole, fraction, same, w, f) = is_unsigned_sound cs (rw e at h) in
      (b'-' ∷ [], whole, fraction, ap₂ ◌∷◌ minus same, inr refl, w, f)
  | inr e ↦
      let (whole, fraction, same, w, f) = is_unsigned_sound (c ∷ cs) (rw e at h) in
      ([], whole, fraction, same, inl refl, w, f)
]

is_plain_decimal_of_unsigned : (cs : List ℕ) → is_unsigned cs ≡ true → is_plain_decimal cs ≡ true
is_plain_decimal_of_unsigned [] h = cc
is_plain_decimal_of_unsigned (c ∷ cs) h = ground arith

is_plain_decimal_complete : (cs : List ℕ) → IsPlainDecimal cs → is_plain_decimal cs ≡ true
is_plain_decimal_complete cs (minus, whole, fraction, same, inl e, w, f) =
    is_plain_decimal_of_unsigned cs
      (is_unsigned_complete cs (whole, fraction, same ∙ ap (λ m. m ++ whole ++ fraction) e, w, f))
is_plain_decimal_complete cs (minus, whole, fraction, same, inr e, w, f) =
    rw (same, e) (is_unsigned_complete (whole ++ fraction) (whole, fraction, refl, w, f))

module _ {D : Type 0} (decimals : Decimals D) where
  -- the text is the plain notation of a finite decimal
  abbrev pub Denotes : String → D → Type 0
  Denotes text d =
      IsPlainDecimal (codes text) × (decimals.of_text text ≡ some d) × (decimals.is_finite d ≡ true)

module _ {D : Type 0} (decimals : Decimals D) (of_float : ℤ → ℕ → D) where
  if_finite_sound :
      (o : Option D) (d : D)
      → if_finite decimals o ≡ some d
      → (o ≡ some d) × (decimals.is_finite d ≡ true)
  if_finite_sound none d h = cc
  if_finite_sound (some c) d h = elim (Bool-cases (decimals.is_finite c)) [
    | inl e ↦ (rw e at h, if_finite-finite decimals (some c) h)
    | inr e ↦ absurd (cc (rw e at h))
  ]

  same_decimal-none :
      (o : Option D) (otherwise : Bool)
      → same_decimal decimals of_float o none otherwise ≡ otherwise
  same_decimal-none none otherwise = refl
  same_decimal-none (some d) otherwise = refl

  as_decimal_iff :
      (text : String) (d : D)
      → (as_decimal decimals of_float (str text) ≡ some d) ↔ Denotes decimals text d
  as_decimal_iff text d = (
    λ h. elim (Bool-cases (is_plain_decimal (codes text))) [
      | inl e ↦
          let (found, finite) = if_finite_sound (decimals.of_text text) d (rw e at h) in
          (is_plain_decimal_sound (codes text) e, found, finite)
      | inr e ↦ absurd (cc (rw e at h))
    ],
    λ (plain, found, finite). rw (is_plain_decimal_complete (codes text) plain, found, finite) refl,
  )

  as_decimal-none :
      (text : String)
      → ((d : D) → ¬ Denotes decimals text d)
      → as_decimal decimals of_float (str text) ≡ none
  as_decimal-none text h = elim (Option-cases (as_decimal decimals of_float (str text))) [
    | inl e ↦ e
    | inr (d, e) ↦ absurd (h d ((as_decimal_iff text d).0 e))
  ]

  -- Two texts that are plain notations of finite decimals count as the same exactly if the decimals are equal; where one of them is no such notation, they count as the same exactly if they are the same text.
  pub equal-texts :
      (a b : String)
      → ((d e : D)
          → Denotes decimals a d
          → Denotes decimals b e
          → equal decimals of_float (str a) (str b) ≡ decimals.equals d e)
        × (((d : D) → ¬ Denotes decimals a d) ⊎ ((d : D) → ¬ Denotes decimals b d)
            → (equal decimals of_float (str a) (str b) ≡ true) ↔ (a ≡ b))
  unfolding equal deep_equal
  equal-texts a b = (
    λ d e h k. rw ((as_decimal_iff a d).1 h, (as_decimal_iff b e).1 k) refl,
    λ apart. elim apart [
      | inl h ↦ rw (as_decimal-none a h) (string_eq.same_iff a b)
      | inr h ↦
          rw (as_decimal-none b h, same_decimal-none (as_decimal decimals of_float (str a)))
            (string_eq.same_iff a b)
    ],
  )
