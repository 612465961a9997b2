-- ===== src/Prelude/Sort/Unique.antt =====
-- Sorting forgets the order in which the members of a list stand.
use mathlib.Core.Path.{◌≡◌, refl, sym, ap, ap₂, ◌∙◌, subst}
use mathlib.Core.Logic.{inl, inr}
use mathlib.Core.Bool.{Bool, true, false, not, ◌&&◌}
use mathlib.Core.List.{List, [], ◌∷◌, Memᴰ}
use native.Mathlib.Omega.{arith}
use actionwitness.Prelude.Tests.{Bool-cases}
use actionwitness.Prelude.Lists.{all}
use actionwitness.Prelude.Members.{mem-cons, all_sound, all_complete}
use actionwitness.Prelude.Sort.{
  IsOrder, IsSorted, insert_by, sort_by, mem_of_mem-insert_by, mem-sort_by, mem_of_mem-sort_by,
}

module _ {ℓ} {A : Type ℓ} {le : A → A → Bool} (order : IsOrder le) where
  -- a is below b, and b is not below a
  abbrev below : A → A → Bool
  below a b = not (le b a)

  below_trans : (a b c : A) → below a b ≡ true → below b c ≡ true → below a c ≡ true
  below_trans a b c h k = elim (Bool-cases (le c a)) [
    | inr e ↦ rw e refl
    | inl e ↦ elim (order.total b c) [ inl f ↦ cc (order.transitive b c a f e) | inr f ↦ cc ]
  ]

  -- no member is on a level with x
  abbrev Apart : A → List A → Type ℓ
  Apart x ys = (y : A) → Memᴰ y ys → (le x y && le y x) ≡ false

  abbrev pub AllApart : List A → Type ℓ
  AllApart [] = Unit
  AllApart (x ∷ xs) = Apart x xs × AllApart xs

  insert_by-strict :
      (x : A) (ys : List A) → Apart x ys → IsSorted below ys → IsSorted below (insert_by le x ys)
  unfolding insert_by all
  insert_by-strict x [] apart s = (refl, tt)
  insert_by-strict x (y ∷ ys) apart (low, s) = elim (Bool-cases (le x y)) [
    | inl e ↦
        let strict : below x y ≡ true = ground (arith, apart y (Memᴰ.head refl)) in
        rw e (
          all_complete (below x) (y ∷ ys) (λ z m. elim (mem-cons m) [
            | inl f ↦ ap (below x) f ∙ strict
            | inr n ↦ below_trans x y z strict (all_sound (below y) n low)
          ]),
          (low, s),
        )
    | inr e ↦
        let strict : below y x ≡ true = ground arith in
        rw e (
          all_complete (below y) (insert_by le x ys) (λ z m. elim (mem_of_mem-insert_by le x ys m) [
            | inl f ↦ ap (below y) f ∙ strict
            | inr n ↦ all_sound (below y) n low
          ]),
          insert_by-strict x ys (λ z m. apart z (Memᴰ.tail m)) s,
        )
  ]

  sort_by-strict : (xs : List A) → AllApart xs → IsSorted below (sort_by le xs)
  unfolding sort_by
  sort_by-strict [] apart = tt
  sort_by-strict (x ∷ xs) (first, apart) =
      insert_by-strict x (sort_by le xs) (λ y m. first y (mem_of_mem-sort_by le xs m))
        (sort_by-strict xs apart)

  abbrev Same : List A → List A → Type ℓ
  Same xs ys = ((z : A) → Memᴰ z xs → Memᴰ z ys) × ((z : A) → Memᴰ z ys → Memᴰ z xs)

  no_cycle : (a b : A) → below a b ≡ true → below b a ≡ true → ⊥
  no_cycle a b h k = elim (order.total a b) [ inl e ↦ cc | inr e ↦ cc ]

  -- the part of a list after its least member
  tail_within :
      (x : A) (xs ys : List A)
      → all (below x) xs ≡ true
      → ((z : A) → Memᴰ z (x ∷ xs) → Memᴰ z (x ∷ ys))
      → (z : A) → Memᴰ z xs
      → Memᴰ z ys
  tail_within x xs ys low there z m = elim (mem-cons (there z (Memᴰ.tail m))) [
    | inr n ↦ n
    | inl e ↦
        let loop = subst (λ t. below x t ≡ true) e (all_sound (below x) m low) in
        absurd (no_cycle x x loop loop)
  ]

  strict_unique : (xs ys : List A) → IsSorted below xs → IsSorted below ys → Same xs ys → xs ≡ ys
  strict_unique [] [] s t same = refl
  strict_unique [] (y ∷ ys) s t (there, back) = elim (back y (Memᴰ.head refl)) [ ]
  strict_unique (x ∷ xs) [] s t (there, back) = elim (there x (Memᴰ.head refl)) [ ]
  strict_unique (x ∷ xs) (y ∷ ys) (low, s) (low', t) (there, back) =
      let e : x ≡ y = elim (mem-cons (there x (Memᴰ.head refl))) [
        | inl e ↦ e
        | inr n ↦ elim (mem-cons (back y (Memᴰ.head refl))) [
          | inl f ↦ sym f
          | inr m ↦ absurd (no_cycle x y (all_sound (below x) m low) (all_sound (below y) n low'))
        ]
      ] in
      ap₂ ◌∷◌ e (
        strict_unique xs ys s t (
          tail_within x xs ys low (λ z m. subst (λ h. Memᴰ z (h ∷ ys)) (sym e) (there z m)),
          tail_within x ys xs (subst (λ h. all (below h) ys ≡ true) (sym e) low')
              (λ z m. back z (subst (λ h. Memᴰ z (h ∷ ys)) e m)),
        ))

  -- Lists with the same members, no two of them on a level, are sorted alike.
  pub sort_by_unique :
      (xs ys : List A)
      → AllApart xs
      → AllApart ys
      → ((z : A) → Memᴰ z xs → Memᴰ z ys)
      → ((z : A) → Memᴰ z ys → Memᴰ z xs)
      → sort_by le xs ≡ sort_by le ys
  sort_by_unique xs ys apart apart' there back =
      strict_unique (sort_by le xs) (sort_by le ys) (sort_by-strict xs apart)
        (sort_by-strict ys apart')
        (
          λ z m. mem-sort_by le ys (there z (mem_of_mem-sort_by le xs m)),
          λ z m. mem-sort_by le xs (back z (mem_of_mem-sort_by le ys m)),
        )
