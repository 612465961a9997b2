-- ===== src/Prelude/Members.antt =====
-- Membership in filtered lists, and what `any` and `all` decide.
use mathlib.Core.Path.{◌≡◌, refl, sym, ◌∙◌, ap, ap₂}
use mathlib.Core.Logic.{◌⊎◌, inl, inr}
use mathlib.Core.Bool.{Bool, true, false, ◌&&◌, ◌||◌}
use mathlib.Core.List.{List, [], ◌∷◌, ◌++◌, map, Memᴰ}
use native.Mathlib.Omega.{arith}
use actionwitness.Prelude.Tests.{Bool-cases}
use actionwitness.Prelude.Lists.{filter, any, all}

module _ {ℓ} {A : Type ℓ} where
  -- some element of the list passes the test
  abbrev pub Some : (A → Bool) → List A → Type ℓ
  Some p xs = (x : A) × Memᴰ x xs × (p x ≡ true)

  pub any_sound : (p : A → Bool) (xs : List A) → any p xs ≡ true → Some p xs
  unfolding any
  any_sound p [] h = cc
  any_sound p (x ∷ xs) h = elim (Bool-cases (p x)) [
    | inl e ↦ (x, Memᴰ.head refl, e)
    | inr e ↦ let (y, m, q) = any_sound p xs (rw e at h) in (y, Memᴰ.tail m, q)
  ]

  pub any_complete : (p : A → Bool) {x : A} {xs : List A} → Memᴰ x xs → p x ≡ true → any p xs ≡ true
  unfolding any
  any_complete p (Memᴰ.head {xs = ys} e) h = rw (sym (ap p e) ∙ h) refl
  any_complete p (Memᴰ.tail m) h = ground (arith, any_complete p m h)

  pub all_sound : (p : A → Bool) {x : A} {xs : List A} → Memᴰ x xs → all p xs ≡ true → p x ≡ true
  unfolding all
  all_sound p (Memᴰ.head e) h = ap p e ∙ ground arith
  all_sound p (Memᴰ.tail m) h = all_sound p m (ground arith)

  pub all_complete :
      (p : A → Bool) (xs : List A) → ((x : A) → Memᴰ x xs → p x ≡ true) → all p xs ≡ true
  unfolding all
  all_complete p [] h = refl
  all_complete p (x ∷ xs) h =
      rw (h x (Memᴰ.head refl)) (all_complete p xs (λ y m. h y (Memᴰ.tail m)))

  pub mem-filter :
      (p : A → Bool) {x : A} {xs : List A} → Memᴰ x xs → p x ≡ true → Memᴰ x (filter p xs)
  unfolding filter
  mem-filter p (Memᴰ.head e) h = rw (sym (ap p e) ∙ h) (Memᴰ.head e)
  mem-filter p (Memᴰ.tail {x = y} m) h = elim (Bool-cases (p y)) [
    | inl e ↦ rw e (Memᴰ.tail (mem-filter p m h))
    | inr e ↦ rw e (mem-filter p m h)
  ]

  -- what is in a list with a head is the head, or in the tail
  pub mem-cons : {x y : A} {ys : List A} → Memᴰ x (y ∷ ys) → (x ≡ y) ⊎ Memᴰ x ys
  mem-cons (Memᴰ.head e) = inl e
  mem-cons (Memᴰ.tail m) = inr m

  pub mem_of_mem-filter :
      (p : A → Bool) {x : A} (xs : List A) → Memᴰ x (filter p xs) → Memᴰ x xs × (p x ≡ true)
  unfolding filter
  mem_of_mem-filter p [] m = elim m [ ]
  mem_of_mem-filter p {x} (y ∷ ys) m = elim (Bool-cases (p y)) [
    | inr e ↦ let (n, q) = mem_of_mem-filter p ys (rw e at m) in (Memᴰ.tail n, q)
    | inl e ↦ elim (mem-cons (rw e at m)) [
      | inl f ↦ (Memᴰ.head f, ap p f ∙ e)
      | inr n ↦ let (n', q) = mem_of_mem-filter p ys n in (Memᴰ.tail n', q)
    ]
  ]

module _ {ℓ} {A : Type ℓ} where
  pub any-append : (p : A → Bool) (xs ys : List A) → any p (xs ++ ys) ≡ (any p xs || any p ys)
  unfolding any
  any-append p [] ys = refl
  any-append p (x ∷ xs) ys = ground (arith, any-append p xs ys)

  -- Lists with the same members answer `any` alike.
  pub any_congr :
      (p : A → Bool) (xs ys : List A)
      → ((x : A) → Memᴰ x xs → Memᴰ x ys)
      → ((x : A) → Memᴰ x ys → Memᴰ x xs)
      → any p xs ≡ any p ys
  any_congr p xs ys there back = elim (Bool-cases (any p xs)) [
    | inl e ↦ let (x, m, q) = any_sound p xs e in e ∙ sym (any_complete p (there x m) q)
    | inr e ↦ elim (Bool-cases (any p ys)) [
      | inl f ↦ let (x, m, q) = any_sound p ys f in cc (any_complete p (back x m) q)
      | inr f ↦ e ∙ sym f
    ]
  ]

  -- A filtered list is empty exactly if nothing passes.
  pub any-filter : (p q : A → Bool) (xs : List A) → any q (filter p xs) ≡ any (λ x. p x && q x) xs
  unfolding any filter
  any-filter p q [] = refl
  any-filter p q (x ∷ xs) = ground (arith, any-filter p q xs)

  pub any_ext : {p q : A → Bool} → ((x : A) → p x ≡ q x) → (xs : List A) → any p xs ≡ any q xs
  unfolding any
  any_ext same [] = refl
  any_ext same (x ∷ xs) = ap₂ ◌||◌ (same x) (any_ext same xs)

  -- Nothing of the list passes a test that `any` denies.
  pub none_of : (p : A → Bool) (xs : List A) → any p xs ≡ false → ¬ Some p xs
  none_of p xs h (x, m, q) = cc (any_complete p m q)

  pub all-append : (p : A → Bool) (xs ys : List A) → all p (xs ++ ys) ≡ (all p xs && all p ys)
  unfolding all
  all-append p [] ys = refl
  all-append p (x ∷ xs) ys = ground (arith, all-append p xs ys)

  pub mem-append_left : {x : A} {xs : List A} (ys : List A) → Memᴰ x xs → Memᴰ x (xs ++ ys)
  mem-append_left ys (Memᴰ.head e) = Memᴰ.head e
  mem-append_left ys (Memᴰ.tail m) = Memᴰ.tail (mem-append_left ys m)

  pub mem-append_right : {y : A} (xs : List A) {ys : List A} → Memᴰ y ys → Memᴰ y (xs ++ ys)
  mem-append_right [] m = m
  mem-append_right (x ∷ xs) m = Memᴰ.tail (mem-append_right xs m)

pub mem-map {ℓ κ} :
    {A : Type ℓ} {B : Type κ} (f : A → B) {x : A} {xs : List A} → Memᴰ x xs → Memᴰ (f x) (map f xs)
mem-map f (Memᴰ.head e) = Memᴰ.head (ap f e)
mem-map f (Memᴰ.tail m) = Memᴰ.tail (mem-map f m)
