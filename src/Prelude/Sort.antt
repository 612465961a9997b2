-- ===== src/Prelude/Sort.antt =====
-- `sorted(xs, key=…)`: a stable insertion sort by a Boolean order, with its laws.
pub mod Unique
use mathlib.Core.Path.{◌≡◌, refl, sym, ◌∙◌, ap}
use mathlib.Core.Logic.{◌⊎◌, inl, inr}
use mathlib.Core.Bool.{Bool, true}
use mathlib.Core.Option.{some}
use mathlib.Core.List.{List, [], ◌∷◌, Memᴰ}
use native.Mathlib.Omega.{arith}
use Prim.Native.Nat.{suc}
use actionwitness.Prelude.Tests.{if◌then◌else◌, Bool-cases}
use actionwitness.Prelude.Lists.{length, all, head?, filter}
use actionwitness.Prelude.Members.{mem-cons, all_sound, all_complete}

module _ {ℓ} {A : Type ℓ} (le : A → A → Bool) where
  insert_by : A → List A → List A
  insert_by x [] = x ∷ []
  insert_by x (y ∷ ys) = if le x y then x ∷ y ∷ ys else y ∷ insert_by x ys

  unfoldable pub sort_by : List A → List A
  unfolding insert_by
  sort_by [] = []
  sort_by (x ∷ xs) = insert_by x (sort_by xs)

  -- each element is below all that follow it
  abbrev pub IsSorted : List A → Type 0
  IsSorted [] = Unit
  IsSorted (x ∷ xs) = (all (le x) xs ≡ true) × IsSorted xs

  mem-insert_by_self : (x : A) (ys : List A) → Memᴰ x (insert_by x ys)
  unfolding insert_by
  mem-insert_by_self x [] = Memᴰ.head refl
  mem-insert_by_self x (y ∷ ys) = elim (Bool-cases (le x y)) [
    | inl e ↦ rw e (Memᴰ.head refl)
    | inr e ↦ rw e (Memᴰ.tail (mem-insert_by_self x ys))
  ]

  mem-insert_by : (x : A) {z : A} (ys : List A) → Memᴰ z ys → Memᴰ z (insert_by x ys)
  unfolding insert_by
  mem-insert_by x [] m = elim m [ ]
  mem-insert_by x (y ∷ ys) m = elim (Bool-cases (le x y)) [
    | inl e ↦ rw e (Memᴰ.tail m)
    | inr e ↦
        rw e (elim (mem-cons m) [ inl f ↦ Memᴰ.head f | inr n ↦ Memᴰ.tail (mem-insert_by x ys n) ])
  ]

  mem_of_mem-insert_by :
      (x : A) {z : A} (ys : List A) → Memᴰ z (insert_by x ys) → (z ≡ x) ⊎ Memᴰ z ys
  unfolding insert_by
  mem_of_mem-insert_by x [] m = mem-cons m
  mem_of_mem-insert_by x (y ∷ ys) m = elim (Bool-cases (le x y)) [
    | inl e ↦ mem-cons (rw e at m)
    | inr e ↦ elim (mem-cons (rw e at m)) [
      | inl f ↦ inr (Memᴰ.head f)
      | inr n ↦ elim (mem_of_mem-insert_by x ys n) [ inl g ↦ inl g | inr k ↦ inr (Memᴰ.tail k) ]
    ]
  ]

  pub mem-sort_by : {z : A} (xs : List A) → Memᴰ z xs → Memᴰ z (sort_by xs)
  unfolding sort_by
  mem-sort_by [] m = m
  mem-sort_by (x ∷ xs) m = elim (mem-cons m) [
    | inl e ↦ rw e (mem-insert_by_self x (sort_by xs))
    | inr n ↦ mem-insert_by x (sort_by xs) (mem-sort_by xs n)
  ]

  pub mem_of_mem-sort_by : {z : A} (xs : List A) → Memᴰ z (sort_by xs) → Memᴰ z xs
  unfolding sort_by
  mem_of_mem-sort_by [] m = m
  mem_of_mem-sort_by (x ∷ xs) m = elim (mem_of_mem-insert_by x (sort_by xs) m) [
    | inl e ↦ Memᴰ.head e
    | inr n ↦ Memᴰ.tail (mem_of_mem-sort_by xs n)
  ]

  length-insert_by : (x : A) (ys : List A) → length (insert_by x ys) ≡ suc (length ys)
  unfolding insert_by
  length-insert_by x [] = refl
  length-insert_by x (y ∷ ys) = ground (arith, length-insert_by x ys)

  length-filter-insert_by :
      (p : A → Bool) (x : A) (ys : List A)
      → length (filter p (insert_by x ys)) ≡ length (filter p (x ∷ ys))
  unfolding insert_by filter
  length-filter-insert_by p x [] = refl
  length-filter-insert_by p x (y ∷ ys) = ground (arith, length-filter-insert_by p x ys)

  pub length-filter-sort_by :
      (p : A → Bool) (xs : List A) → length (filter p (sort_by xs)) ≡ length (filter p xs)
  unfolding sort_by filter
  length-filter-sort_by p [] = refl
  length-filter-sort_by p (x ∷ xs) =
      length-filter-insert_by p x (sort_by xs) ∙ ground (arith, length-filter-sort_by p xs)

  pub length-sort_by : (xs : List A) → length (sort_by xs) ≡ length xs
  unfolding sort_by
  length-sort_by [] = refl
  length-sort_by (x ∷ xs) = length-insert_by x (sort_by xs) ∙ ap suc (length-sort_by xs)

  -- A list that is in order already is left as it is.
  pub sort_by_of_IsSorted : (xs : List A) → IsSorted xs → sort_by xs ≡ xs
  unfolding sort_by all
  sort_by_of_IsSorted [] s = refl
  sort_by_of_IsSorted (x ∷ xs) (low, s) = rw (sort_by_of_IsSorted xs s) (first xs low)
    where
      first : (ys : List A) → all (le x) ys ≡ true → insert_by x ys ≡ x ∷ ys
      first [] h = refl
      first (y ∷ ys) h = ground (arith)

  pub all-sort_by : (p : A → Bool) (xs : List A) → all p (sort_by xs) ≡ all p xs
  all-sort_by p xs = elim (Bool-cases (all p xs)) [
    | inl e ↦ all_complete p (sort_by xs) (λ x m. all_sound p (mem_of_mem-sort_by xs m) e) ∙ sym e
    | inr e ↦ elim (Bool-cases (all p (sort_by xs))) [
      | inr f ↦ f ∙ sym e
      | inl f ↦ cc (all_complete p xs (λ x m. all_sound p (mem-sort_by xs m) f))
    ]
  ]

-- A Boolean test that is a total preorder.
pub record IsOrder {ℓ} {A : Type ℓ} (le : A → A → Bool) : Type ℓ where
  pub total : (a b : A) → (le a b ≡ true) ⊎ (le b a ≡ true)
  pub transitive : (a b c : A) → le a b ≡ true → le b c ≡ true → le a c ≡ true

module _ {ℓ} {A : Type ℓ} {le : A → A → Bool} (order : IsOrder le) where
  below_all :
      (x y : A) (ys : List A) → le x y ≡ true → all (le y) ys ≡ true → all (le x) (y ∷ ys) ≡ true
  below_all x y ys e low = all_complete (le x) (y ∷ ys) λ z m. elim (mem-cons m) [
    | inl f ↦ ap (le x) f ∙ e
    | inr n ↦ order.transitive x y z e (all_sound (le y) n low)
  ]

  all-insert_by :
      (x y : A) (ys : List A)
      → le y x ≡ true
      → all (le y) ys ≡ true
      → all (le y) (insert_by le x ys) ≡ true
  all-insert_by x y ys e low = all_complete (le y) (insert_by le x ys) λ z m.
      elim (mem_of_mem-insert_by le x ys m) [
        | inl f ↦ ap (le y) f ∙ e
        | inr n ↦ all_sound (le y) n low
      ]

  insert_by-IsSorted : (x : A) (ys : List A) → IsSorted le ys → IsSorted le (insert_by le x ys)
  unfolding insert_by all
  insert_by-IsSorted x [] s = (refl, tt)
  insert_by-IsSorted x (y ∷ ys) (low, s) = elim (Bool-cases (le x y)) [
    | inl e ↦ rw e (below_all x y ys e low, (low, s))
    | inr e ↦ rw e (
      all-insert_by x y ys (elim (order.total x y) [ inl f ↦ cc | inr f ↦ f ]) low,
      insert_by-IsSorted x ys s,
    )
  ]

  pub sort_by-IsSorted : (xs : List A) → IsSorted le (sort_by le xs)
  unfolding sort_by
  sort_by-IsSorted [] = tt
  sort_by-IsSorted (x ∷ xs) = insert_by-IsSorted x (sort_by le xs) (sort_by-IsSorted xs)

  le_refl : (a : A) → le a a ≡ true
  le_refl a = elim (order.total a a) [ inl e ↦ e | inr e ↦ e ]

  least_of_IsSorted :
      (ys : List A) {a b : A} → IsSorted le ys → head? ys ≡ some a → Memᴰ b ys → le a b ≡ true
  least_of_IsSorted [] s h m = elim m [ ]
  least_of_IsSorted (y ∷ ys) {a} {b} (low, s) h m =
      let e : y ≡ a = cc in
      elim (mem-cons m) [
        | inl f ↦ rw (f, e) (le_refl a)
        | inr n ↦ rw (← e) (all_sound (le y) n low)
      ]

  -- The first element of the sorted list is below every element of the list.
  pub head?-sort_by :
      (xs : List A) {a b : A} → head? (sort_by le xs) ≡ some a → Memᴰ b xs → le a b ≡ true
  head?-sort_by xs h m =
      least_of_IsSorted (sort_by le xs) (sort_by-IsSorted xs) h (mem-sort_by le xs m)
