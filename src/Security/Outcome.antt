-- ===== src/Security/Outcome.antt =====
-- What a function of packages/actionwitness_core/src/actionwitness_core/security/canonical.py, or a caller
-- of one, may raise.
use actionwitness.Prelude.{◌≡◌, refl, ap, Bool, true, false, if◌then◌else◌}
use actionwitness.Kernel.{CoreErrorCode}

-- A value, the code of a `CanonicalizationError`, the `OverflowError` of `float(value)`, or the
-- `ValueError` of a caller of the canonical text.
pub data Outcome {ℓ} (A : Type ℓ) : Type ℓ where
  done : A → Outcome A
  refused : CoreErrorCode → Outcome A
  overflow : Outcome A
  value_error : Outcome A

-- the code after a call that may raise
abbrev pub ◌>>=◌ {ℓ κ} :
    {Before : Type ℓ} {After : Type κ} → Outcome Before → (Before → Outcome After) → Outcome After
call >>= next = elim call [
  | done value ↦ next value
  | refused c ↦ refused c
  | overflow ↦ overflow
  | value_error ↦ value_error
]

infixl 5 ◌>>=◌
-- What continues after a call that returns: the call's value, and what the rest makes of it.
pub >>=-done {ℓ κ} :
    {Before : Type ℓ} {After : Type κ} (next : Before → Outcome After) (call : Outcome Before)
    {result : After}
    → (call >>= next) ≡ done result
    → (value : Before) × (next value ≡ done result) × (call ≡ done value)
>>=-done next (done value) returned = (value, returned, refl)
>>=-done next (refused c) returned = cc
>>=-done next overflow returned = cc
>>=-done next value_error returned = cc

pub done-injective {ℓ} : {A : Type ℓ} {a b : A} → done a ≡ done b → a ≡ b
done-injective {a} h =
    ap (λ o. elim o [ done v ↦ v | refused c ↦ a | overflow ↦ a | value_error ↦ a ]) h

-- What a validator lets pass.
pub validated {ℓ} :
    {A : Type ℓ} (test : Bool) (rest : Outcome A) {result : A}
    → (if test then rest else value_error) ≡ done result
    → (test ≡ true) × (rest ≡ done result)
validated true rest h = (refl, h)
validated false rest h = cc
