-- ===== src/Approval/Partition.antt =====
-- What is picked by increasing indices, and what is left.
use actionwitness.Prelude.{
  ℕ, suc, ◌+◌, ◌-◌, ◌≡◌, ◌<◌, ◌≤◌, refl, sym, ap, ap₂, ◌⊎◌, nat_beq_iff, ◌∙◌, Bool, true, false,
  nat_eq, ◌==◌, List, [], ◌∷◌, map, Option, some, leb, ltb, length, get_elem?, filter, any, all,
  arith, Bool-cases, Option-cases, inl, inr, Memᴰ, any_complete, if◌then◌else◌,
}
use actionwitness.Prelude.Sort.{sort_by, IsSorted, IsOrder, sort_by-IsSorted}
use mathlib.Core.Option.{some_inj}
use actionwitness.Approval.{has_no_repeat, same_numbers, add_picked, pick, is_index, not_in_from}

-- each index is below all that follow it
abbrev pub Increasing : List ℕ → Type 0
Increasing [] = Unit
Increasing (n ∷ ns) = (all (ltb n) ns ≡ true) × Increasing ns

later_all : (i n : ℕ) (ns : List ℕ) → i ≤ n → all (ltb n) ns ≡ true → all (ltb i) ns ≡ true
unfolding all
later_all i n [] h k = refl
later_all i n (m ∷ ns) h k = ground (arith, later_all i n ns h (ground arith))

at_least : (i : ℕ) (ns : List ℕ) → all (ltb i) ns ≡ true → all (leb (suc i)) ns ≡ true
unfolding all
at_least i [] h = refl
at_least i (n ∷ ns) h = ground (arith, at_least i ns (ground arith))

from_zero : (ns : List ℕ) → all (leb 0) ns ≡ true
unfolding all
from_zero [] = refl
from_zero (n ∷ ns) = ground (arith, from_zero ns)

is_index-below : (i : ℕ) (ns : List ℕ) → all (ltb i) ns ≡ true → is_index ns i ≡ false
unfolding any all
is_index-below i [] h = refl
is_index-below i (n ∷ ns) h = ground (arith, is_index-below i ns (ground arith))

module _ {ℓ} {A : Type ℓ} where
  -- the elements whose index is in the set
  chosen : ℕ → List A → List ℕ → List A
  chosen i [] ns = []
  chosen i (x ∷ xs) ns = let rest = chosen (suc i) xs ns in if is_index ns i then x ∷ rest else rest

  pick_at : ℕ → List A → List ℕ → Option (List A)
  pick_at i xs [] = some []
  pick_at i xs (n ∷ ns) = add_picked (get_elem? xs (n - i)) (pick_at i xs ns)

  pick_at_zero : (xs : List A) (ns : List ℕ) → pick_at 0 xs ns ≡ pick xs ns
  unfolding pick_at pick
  pick_at_zero xs [] = refl
  pick_at_zero xs (n ∷ ns) =
      let whole : n - 0 ≡ n = omega arith in rw (whole, pick_at_zero xs ns) refl

  chosen-drop :
      (j : ℕ) (xs : List A) (n : ℕ) (ns : List ℕ) → n < j → chosen j xs (n ∷ ns) ≡ chosen j xs ns
  unfolding chosen any
  chosen-drop j [] n ns h = refl
  chosen-drop j (x ∷ xs) n ns h =
      let other : (n == j) ≡ false = ground arith in
      rw (other, chosen-drop (suc j) xs n ns (omega arith)) refl

  pick_at-later :
      (i : ℕ) (x : A) (xs : List A) (ns : List ℕ)
      → all (ltb i) ns ≡ true
      → pick_at i (x ∷ xs) ns ≡ pick_at (suc i) xs ns
  unfolding pick_at all
  pick_at-later i x xs [] h = refl
  pick_at-later i x xs (n ∷ ns) h =
      let above : i < n = ground arith in
      let e : n - i ≡ suc (n - suc i) = omega arith in
      rw (e, pick_at-later i x xs ns (ground arith)) refl

  -- every index from the first argument on is chosen or left, and the picked ones are the chosen
  pick_at-chosen :
      (i : ℕ) (xs : List A) (ns : List ℕ) (limit : ℕ)
      → limit ≡ i + length xs
      → all (leb i) ns ≡ true
      → Increasing ns
      → all (λ n. ltb n limit) ns ≡ true
      → pick_at i xs ns ≡ some (chosen i xs ns)
  unfolding pick_at chosen all
  pick_at-chosen i [] [] limit e low up high = refl
  pick_at-chosen i [] (n ∷ ns) limit e low up high = absurd (ground arith)
  pick_at-chosen i (x ∷ xs) [] limit e low up high =
      rw (is_index-below i [] refl) (pick_at-chosen (suc i) xs [] limit (omega arith) refl tt refl)
  pick_at-chosen i (x ∷ xs) (n ∷ ns) limit e low (above, up) high = elim (Bool-cases (n == i)) [
    | inl hit ↦
        let first : n - i ≡ 0 = ground arith in
        let here : is_index (n ∷ ns) i ≡ true = any_complete (λ m. m == i) (Memᴰ.head refl) hit in
        let same : n ≡ i = ground arith in
        let after = later_all i n ns (omega arith) above in
        rw
          (
            first,
            pick_at-later i x xs ns after,
            pick_at-chosen (suc i) xs ns limit (omega arith) (at_least i ns after) up
                (ground arith),
            here,
            chosen-drop (suc i) xs n ns (omega arith),
          )
          refl
    | inr miss ↦
        let beyond : all (ltb i) (n ∷ ns) ≡ true =
          ground (arith, later_all i n ns (ground arith) above) in
        rw (is_index-below i (n ∷ ns) beyond) (
          pick_at-later i x xs (n ∷ ns) beyond
          ∙ pick_at-chosen (suc i) xs (n ∷ ns) limit (omega arith) (at_least i (n ∷ ns) beyond)
              (above, up) high)
  ]

  length-chosen :
      (p : A → Bool) (i : ℕ) (xs : List A) (ns : List ℕ)
      → length (filter p (chosen i xs ns)) + length (filter p (not_in_from i xs ns))
        ≡ length (filter p xs)
  unfolding chosen not_in_from filter
  length-chosen p i [] ns = refl
  length-chosen p i (x ∷ xs) ns = ground (arith, length-chosen p (suc i) xs ns)

  pub get_elem?-pick :
      (xs : List A) (ns : List ℕ) {out : List A}
      → pick xs ns ≡ some out
      → map (get_elem? xs) ns ≡ map some out
  unfolding pick
  get_elem?-pick xs [] h = ap (map some) (some_inj.0 h)
  get_elem?-pick xs (n ∷ ns) h = elim (Option-cases (get_elem? xs n)) [
    | inl e ↦ absurd (cc (rw e at h))
    | inr (x, e) ↦ elim (Option-cases (pick xs ns)) [
      | inl f ↦ absurd (cc (rw (e, f) at h))
      | inr (rest, f) ↦ rw (e, get_elem?-pick xs ns f) (ap (map some) (some_inj.0 (rw (e, f) at h)))
    ]
  ]

leb_total : (a b : ℕ) → (leb a b ≡ true) ⊎ (leb b a ≡ true)
leb_total a b = elim (Bool-cases (leb a b)) [ inl e ↦ inl e | inr e ↦ inr (ground arith) ]

leb_order : IsOrder leb
leb_order = record { total = λ a b. leb_total a b; transitive = λ a b c h k. ground arith }

same_numbers-≡ : (ns ms : List ℕ) → same_numbers ns ms ≡ true → ns ≡ ms
same_numbers-≡ [] [] h = refl
same_numbers-≡ [] (m ∷ ms) h = cc
same_numbers-≡ (n ∷ ns) [] h = cc
same_numbers-≡ (n ∷ ns) (m ∷ ms) h =
    ap₂ ◌∷◌ ((nat_beq_iff n m).0 (ground arith)) (same_numbers-≡ ns ms (ground arith))

strictly_above :
    (n : ℕ) (ns : List ℕ)
    → any (λ m. m == n) ns ≡ false
    → all (leb n) ns ≡ true
    → all (ltb n) ns ≡ true
unfolding any all
strictly_above n [] h k = refl
strictly_above n (m ∷ ns) h k = ground (arith, strictly_above n ns (ground arith) (ground arith))

sorted-Increasing : (ns : List ℕ) → has_no_repeat ns ≡ true → IsSorted leb ns → Increasing ns
sorted-Increasing [] h s = tt
sorted-Increasing (n ∷ ns) h (low, s) =
    (strictly_above n ns (ground arith) low, sorted-Increasing ns (ground arith) s)

-- Indices that equal their sorted list, and repeat nothing, increase.
pub sort_by-Increasing :
    (ns : List ℕ)
    → has_no_repeat ns ≡ true
    → same_numbers ns (sort_by leb ns) ≡ true
    → Increasing ns
sort_by-Increasing ns h s =
    sorted-Increasing ns h
      (rw (same_numbers-≡ ns (sort_by leb ns) s) (sort_by-IsSorted leb_order ns))

module _ {ℓ} {A : Type ℓ} where
  -- Increasing indices in range pick elements, and with what is left they make up the list.
  pub pick-not_in_from :
      (xs : List A) (ns : List ℕ)
      → Increasing ns
      → all (λ n. ltb n (length xs)) ns ≡ true
      → (out : List A) × (pick xs ns ≡ some out)
        × ((p : A → Bool)
            → length (filter p out) + length (filter p (not_in_from 0 xs ns))
              ≡ length (filter p xs))
  pick-not_in_from xs ns up high = (
    chosen 0 xs ns,
    sym (pick_at_zero xs ns)
        ∙ pick_at-chosen 0 xs ns (length xs) (omega arith) (from_zero ns) up high,
    λ p. length-chosen p 0 xs ns,
  )
