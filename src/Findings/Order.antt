-- ===== src/Findings/Order.antt =====
-- The order of failures and the primary failure.
use actionwitness.Prelude.{
  ◌≡◌, ◌≤◌, refl, ◌⊎◌, inl, inr, ◌↔◌, true, false, List, [], ◌∷◌, Memᴰ, none, some, arith, filter,
  mem-filter, mem_of_mem-filter, head?, Bool-cases,
}
use actionwitness.Prelude.Sort.{
  IsOrder, IsSorted, sort_by, sort_by-IsSorted, mem-sort_by, mem_of_mem-sort_by, head?-sort_by,
}
use actionwitness.Prelude.Text.{text-IsOrder}
use actionwitness.Findings.{
  Finding, Key, has_failed, severity_rank, sort_key, key_leb, finding_leb, order_failures,
  primary_failure,
}

key_leb_total : (a b : Key) → (key_leb a b ≡ true) ⊎ (key_leb b a ≡ true)
key_leb_total (r, f, s, i) (r', f', s', i') = ground (arith, text-IsOrder.total i i')

key_leb_trans : (a b c : Key) → key_leb a b ≡ true → key_leb b c ≡ true → key_leb a c ≡ true
key_leb_trans (r, f, s, i) (r', f', s', i') (r'', f'', s'', i'') h k =
    ground (arith, text-IsOrder.transitive i i' i'')

pub finding-IsOrder : IsOrder finding_leb
finding-IsOrder = record {
  total = λ a b. key_leb_total (sort_key a) (sort_key b);
  transitive = λ a b c. key_leb_trans (sort_key a) (sort_key b) (sort_key c);
}

-- `order_failures` lists exactly the failing findings, each below all that follow it.
pub order_failures_lem :
    (findings : List Finding)
    → IsSorted finding_leb (order_failures findings)
      × ((f : Finding)
          → Memᴰ f (order_failures findings) ↔ (Memᴰ f findings × (has_failed f ≡ true)))
unfolding order_failures
order_failures_lem findings = (
  sort_by-IsSorted finding-IsOrder (filter has_failed findings),
  λ f. (
    λ m.
        mem_of_mem-filter has_failed findings
          (mem_of_mem-sort_by finding_leb (filter has_failed findings) m),
    λ (m, h). mem-sort_by finding_leb (filter has_failed findings) (mem-filter has_failed m h),
  ),
)

head?-mem {ℓ} : {A : Type ℓ} (xs : List A) {a : A} → head? xs ≡ some a → Memᴰ a xs
head?-mem [] h = cc
head?-mem (x ∷ xs) h = Memᴰ.head cc

head?-none {ℓ} : {A : Type ℓ} {xs : List A} {a : A} → head? xs ≡ none → Memᴰ a xs → ⊥
head?-none h (Memᴰ.head e) = cc
head?-none h (Memᴰ.tail m) = cc

head?-empty {ℓ} : {A : Type ℓ} (xs : List A) → ((a : A) → Memᴰ a xs → ⊥) → head? xs ≡ none
head?-empty [] h = refl
head?-empty (x ∷ xs) h = absurd (h x (Memᴰ.head refl))

severity_of_leb :
    (p g : Finding) → finding_leb p g ≡ true → severity_rank g.severity ≤ severity_rank p.severity
severity_of_leb p g low = ground arith

-- The primary failure is a failing finding of the list, below every other one in the order, so
-- that none is more severe.
pub primary_failure_least :
    (findings : List Finding) {p : Finding}
    → primary_failure findings ≡ some p
    → Memᴰ p findings
      × (has_failed p ≡ true)
      × ((g : Finding)
          → Memᴰ g findings
          → has_failed g ≡ true
          → (finding_leb p g ≡ true) × (severity_rank g.severity ≤ severity_rank p.severity))
unfolding primary_failure
primary_failure_least findings {p} h =
    let failing = filter has_failed findings in
    let (m, f) =
      mem_of_mem-filter has_failed findings
        (mem_of_mem-sort_by finding_leb failing (head?-mem (sort_by finding_leb failing) h)) in
    (
      m,
      f,
      λ g n e.
          let low = head?-sort_by finding-IsOrder failing h (mem-filter has_failed n e) in
          (low, severity_of_leb p g low),
    )

-- There is no primary failure exactly if no finding fails.
pub primary_failure-none :
    (findings : List Finding)
    → (primary_failure findings ≡ none) ↔ ((g : Finding) → Memᴰ g findings → has_failed g ≡ false)
unfolding primary_failure
primary_failure-none findings = (
  λ h g m. elim (Bool-cases (has_failed g)) [
    | inl e ↦ absurd (
        head?-none h
          (mem-sort_by finding_leb (filter has_failed findings) (mem-filter has_failed m e)))
    | inr e ↦ e
  ],
  λ none_fails. head?-empty (order_failures findings) λ g m.
      let (n, e) =
        mem_of_mem-filter has_failed findings
          (mem_of_mem-sort_by finding_leb (filter has_failed findings) m) in
      cc (e, none_fails g n),
)
