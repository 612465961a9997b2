-- ===== src/Kernel.antt =====
-- packages/actionwitness_core/src/actionwitness_core/kernel.py: the error codes, and what a
-- function that may raise returns. An exception keeps its code; its message text is not modelled.
use actionwitness.Prelude.{
  ℕ, ◌≡◌, refl, Eq, Bool, true, false, List, get_elem?, some, ap, ◌↔◌, nat_beq, nat_beq_iff, ◌⊎◌,
  inl, inr,
}

-- `CoreErrorCode`
pub data CoreErrorCode : Type 0 where
  canonicalization_failed non_finite_number number_not_representable unsupported_json_type :
      CoreErrorCode
  invalid_observation_path invalid_redaction_pattern contract_validation_failed : CoreErrorCode
  unsupported_schema_version resource_limit_exceeded invalid_state_transition : CoreErrorCode
  evaluation_input_invalid : CoreErrorCode

-- A value, or the code of the `CoreError` that was raised.
pub data Result {ℓ} (A : Type ℓ) : Type ℓ where
  raise : CoreErrorCode → Result A
  ok : A → Result A

pub enum_beq_iff {ℓ} :
    {A : Type ℓ} (rank : A → ℕ) (members : List A)
    → ((a : A) → get_elem? members (rank a) ≡ some a)
    → (a b : A) → (nat_beq (rank a) (rank b) ≡ true) ↔ (a ≡ b)
enum_beq_iff rank members position a b = (
  λ h. cc (position a, position b, ap (get_elem? members) ((nat_beq_iff (rank a) (rank b)).0 h)),
  λ e. (nat_beq_iff (rank a) (rank b)).1 (ap rank e),
)

-- Equality of an enumeration by the positions of its members.
abbrev pub enum_eq {ℓ} :
    {A : Type ℓ} (rank : A → ℕ) (members : List A)
    → ((a : A) → get_elem? members (rank a) ≡ some a)
    → Eq A
enum_eq rank members position = record {
  same_as = λ a b. nat_beq (rank a) (rank b);
  same_iff = enum_beq_iff rank members position;
}

-- the code after a call that may raise
abbrev pub ◌>>=◌ {ℓ κ} :
    {Before : Type ℓ} {After : Type κ} → Result Before → (Before → Result After) → Result After
call >>= next = elim call [ raise code ↦ raise code | ok value ↦ next value ]

infixl 5 ◌>>=◌
-- `if failed: raise …`
abbrev pub raise_if : Bool → CoreErrorCode → Result (Unit {0})
raise_if true code = raise code
raise_if false code = ok tt

abbrev pub ◌>>◌ {κ} : {After : Type κ} → Result (Unit {0}) → Result After → Result After
checked >> next = checked >>= λ _. next

infixl 5 ◌>>◌
-- To split on a result that carries no value, and keep the equation.
pub Result-cases : (r : Result (Unit {0})) → (r ≡ ok tt) ⊎ ((c : CoreErrorCode) × (r ≡ raise c))
Result-cases (ok u) = inl refl
Result-cases (raise c) = inr (c, refl)

-- What continues after a call that returns: the call's value, and what the rest makes of it.
pub >>=-ok {ℓ κ} :
    {Before : Type ℓ} {After : Type κ} (next : Before → Result After) (call : Result Before)
    {result : After}
    → (call >>= next) ≡ ok result
    → (value : Before) × (next value ≡ ok result) × (call ≡ ok value)
>>=-ok next (raise code) stopped = cc
>>=-ok next (ok value) returned = (value, returned, refl)
