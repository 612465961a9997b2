-- ===== src/Security/Redaction/Matching.antt =====
-- The paths that a redaction pattern selects.
use actionwitness.Prelude.{
  ◌≡◌, refl, sym, subst, inl, inr, ◌↔◌, String, string_eq, true, ◌==◌, List, [], ◌∷◌, Memᴰ,
  any_sound, any_complete, mem-cons, arith, Bool-cases, beq_refl,
}
use actionwitness.Security.Redaction.{match, suffixes, head_matches}

-- `*` stands for one key, `**` for any number of keys, and another segment for itself.
pub data Selects : List String → List String → Type 0 where
  done : Selects [] []
  skip : {rest path : List String} → Selects rest path → Selects ("**" ∷ rest) path
  span :
      {rest path : List String} (s : String)
      → Selects ("**" ∷ rest) path
      → Selects ("**" ∷ rest) (s ∷ path)
  one : {rest path : List String} (s : String) → Selects rest path → Selects ("*" ∷ rest) (s ∷ path)
  literal :
      {rest path : List String} (s : String) → Selects rest path → Selects (s ∷ rest) (s ∷ path)

span_suffix :
    {rest suffix : List String} (path : List String)
    → Memᴰ suffix (suffixes path)
    → Selects rest suffix
    → Selects ("**" ∷ rest) path
unfolding suffixes
span_suffix [] m s = elim (mem-cons m) [ inl e ↦ skip (subst (Selects _) e s) | inr n ↦ elim n [ ] ]
span_suffix (x ∷ path) m s = elim (mem-cons m) [
  | inl e ↦ skip (subst (Selects _) e s)
  | inr n ↦ span x (span_suffix path n s)
]

head_sound :
    (head : String) (rest path : List String)
    → ((p : List String) → match rest p ≡ true → Selects rest p)
    → head_matches head path (λ p. match rest p) ≡ true
    → Selects (head ∷ rest) path
head_sound head rest [] sound h = absurd (cc h)
head_sound head rest (s ∷ path) sound h =
    let below = sound path (ground arith) in
    elim (Bool-cases (head == "*")) [
      | inl e ↦
          subst (λ t. Selects (t ∷ rest) (s ∷ path)) (sym ((string_eq.same_iff head "*").0 e))
            (one s below)
      | inr e ↦
          let same = (string_eq.same_iff head s).0 (ground arith) in
          subst (λ t. Selects (t ∷ rest) (s ∷ path)) (sym same) (literal s below)
    ]

match_sound : (pattern path : List String) → match pattern path ≡ true → Selects pattern path
unfolding match
match_sound [] [] h = done
match_sound [] (s ∷ path) h = absurd (cc h)
match_sound (head ∷ rest) path h = elim (Bool-cases (head == "**")) [
  | inl e ↦
      let (suffix, m, q) = any_sound (λ p. match rest p) (suffixes path) (rw e at h) in
      subst (λ t. Selects (t ∷ rest) path) (sym ((string_eq.same_iff head "**").0 e))
        (span_suffix path m (match_sound rest suffix q))
  | inr e ↦ head_sound head rest path (match_sound rest) (rw e at h)
]

path_suffix : (path : List String) → Memᴰ path (suffixes path)
unfolding suffixes
path_suffix [] = Memᴰ.head refl
path_suffix (s ∷ path) = Memᴰ.head refl

match_complete : {pattern path : List String} → Selects pattern path → match pattern path ≡ true
unfolding match suffixes
match_complete done = refl
match_complete (skip {rest} {path} s) =
    any_complete (λ p. match rest p) (path_suffix path) (match_complete s)
match_complete (span {rest} {path} x s) =
    let (suffix, m, q) = any_sound (λ p. match rest p) (suffixes path) (match_complete s) in
    any_complete (λ p. match rest p) (Memᴰ.tail m) q
match_complete (one {rest} {path} x s) = match_complete s
match_complete (literal {rest} {path} x s) = elim (Bool-cases (x == "**")) [
  | inl e ↦
      rw e (any_complete (λ p. match rest p) (Memᴰ.tail (path_suffix path)) (match_complete s))
  | inr e ↦ ground (arith, beq_refl x, match_complete s)
]

-- `_match` answers whether the pattern selects the path, where `*` stands for one key and `**` for any number of keys, and another segment for itself.
pub match_iff : (pattern path : List String) → (match pattern path ≡ true) ↔ Selects pattern path
match_iff pattern path = (match_sound pattern path, λ s. match_complete s)
