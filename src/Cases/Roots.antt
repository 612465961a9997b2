-- ===== src/Cases/Roots.antt =====
-- The root that a parsed path adds is its second segment, if its first is `target`.
use Prim.Native.Char.{code}
use mathlib.Core.Option.{some_inj}
use actionwitness.Prelude.{
  ℕ, ◌≡◌, refl, sym, ap, ◌∙◌, inl, inr, String, string_eq, nat_eq, nat_beq, ◌==◌, Bool, true, false,
  List, [], ◌∷◌, ◌++◌, some, any, arith, Bool-cases, eq_iff, subst, nat_beq_iff,
}
use actionwitness.Prelude.Text.{codes}
use actionwitness.Kernel.{ok}
use actionwitness.Paths.{
  ObservationPath, path_text, split_dots, parse_text, join_dots, is_refused, is_bad_segment,
}
use actionwitness.Paths.Parsing.{split_dots-cons, segments-parse_text, join_dots-split_dots}
use actionwitness.Cases.Fixture.{strip_prefix, before_bracket, first_text, root_of}

rest_of {ℓ} : {A : Type ℓ} → List A → List A
rest_of [] = []
rest_of (s ∷ rest) = rest

-- The text after its first segment and the dot.
strip_segment :
    (name : List ℕ) (text t u : String) (rest : List String)
    → split_dots text ≡ t ∷ u ∷ rest
    → codes t ≡ name
    → (remainder : String) × (strip_prefix (name ++ b'.' ∷ []) text ≡ some remainder)
      × (split_dots remainder ≡ u ∷ rest)
unfolding split_dots strip_prefix rest_of
strip_segment name String.[] t u rest h k = absurd (cc (ap rest_of h))
strip_segment [] (String.◌∷◌ c s) t u rest h k = elim (Bool-cases (code c == b'.')) [
  | inl e ↦ (s, rw e refl, ap rest_of (rw e at h))
  | inr e ↦
      let (v, vs, f) = split_dots-cons s in
      let first : String.◌∷◌ c v ≡ t = ap first_text (rw (e, f) at h) in
      absurd (cc (ap codes first ∙ k))
]
strip_segment (n ∷ name) (String.◌∷◌ c s) t u rest h k = elim (Bool-cases (code c == b'.')) [
  | inl e ↦ let first : "" ≡ t = ap first_text (rw e at h) in absurd (cc (ap codes first ∙ k))
  | inr e ↦
      let (v, vs, f) = split_dots-cons s in
      let first : String.◌∷◌ c v ≡ t = ap first_text (rw (e, f) at h) in
      let same : code c ∷ codes v ≡ n ∷ name = ap codes first ∙ k in
      let hit : nat_beq (code c) n ≡ true = (nat_beq_iff (code c) n).1 (cc same) in
      let later : vs ≡ u ∷ rest = ap rest_of (rw (e, f) at h) in
      let (remainder, stripped, parts) =
        strip_segment name s v u rest (f ∙ ap (λ l. v ∷ l) later) (ap rest_of same) in
      (remainder, rw hit stripped, parts)
]

-- no character of the text passes the test
abbrev Lacks : (ℕ → Bool) → String → Type 0
Lacks p text = any p (codes text) ≡ false

Lacks-strip_prefix :
    (p : ℕ → Bool) (prefix : List ℕ) (text remainder : String)
    → strip_prefix prefix text ≡ some remainder
    → Lacks p text
    → Lacks p remainder
unfolding strip_prefix any
Lacks-strip_prefix p [] text remainder h l = subst (Lacks p) (some_inj.0 h) l
Lacks-strip_prefix p (c ∷ prefix) String.[] remainder h l = cc h
Lacks-strip_prefix p (c ∷ prefix) (String.◌∷◌ d text) remainder h l =
    elim (Bool-cases (nat_beq (code d) c)) [
      | inl e ↦ Lacks-strip_prefix p prefix text remainder (rw e at h) (ground arith)
      | inr e ↦ absurd (cc (rw e at h))
    ]

Lacks-first_text :
    (p : ℕ → Bool) (text : String) → Lacks p text → Lacks p (first_text (split_dots text))
unfolding split_dots any
Lacks-first_text p String.[] l = refl
Lacks-first_text p (String.◌∷◌ c s) l = elim (Bool-cases (code c == b'.')) [
  | inl e ↦ rw e refl
  | inr e ↦
      let (v, vs, f) = split_dots-cons s in
      let below : Lacks p v = rw f at (Lacks-first_text p s (ground arith)) in
      rw (e, f) (ground (arith, below))
]

before_bracket_same : (text : String) → Lacks is_refused text → before_bracket text ≡ text
unfolding before_bracket any is_refused
before_bracket_same String.[] l = refl
before_bracket_same (String.◌∷◌ c s) l = elim (Bool-cases (nat_beq (code c) b'[')) [
  | inl e ↦
      let same : code c ≡ b'[' = (nat_beq_iff (code c) b'[').0 e in
      let refused : is_refused (code c) ≡ true = rw same refl in absurd (ground (arith, refused))
  | inr e ↦ rw e (ap (String.◌∷◌ c) (before_bracket_same s (ground arith)))
]

parse_text-checks :
    (text : String) (path : ObservationPath)
    → parse_text text ≡ ok path
    → Lacks is_refused text × (any is_bad_segment (split_dots text) ≡ false)
unfolding parse_text
parse_text-checks text path h = ground arith

not_empty :
    (first root : String) (rest : List String)
    → any is_bad_segment (first ∷ root ∷ rest) ≡ false
    → (root == "") ≡ false
unfolding any
not_empty first root rest h = elim (Bool-cases (root == "")) [
  | inr e ↦ e
  | inl e ↦
      let bad : is_bad_segment root ≡ true =
        subst (λ r. is_bad_segment r ≡ true) (sym ((eq_iff root "").0 e)) refl in
      absurd (ground (arith, bad))
]

-- A parsed path below the target adds its second segment.
pub root_of-parse :
    (text : String) (path : ObservationPath) (root : String) (rest : List String)
    → parse_text text ≡ ok path
    → path.segments ≡ "target" ∷ root ∷ rest
    → root_of path ≡ some root
unfolding root_of
root_of-parse text path root rest parsed below =
    let split = segments-parse_text text path parsed in
    let printed : path_text path ≡ text = ap join_dots split ∙ join_dots-split_dots text in
    let (clean, good) = parse_text-checks text path parsed in
    let parts = sym split ∙ below in
    let (remainder, stripped, later) =
      strip_segment (codes "target") text "target" root rest parts refl in
    let lacks = Lacks-strip_prefix is_refused (codes "target.") text remainder stripped clean in
    let root_clean : Lacks is_refused root =
      subst (λ l. Lacks is_refused (first_text l)) later
        (Lacks-first_text is_refused remainder lacks) in
    rw
      (
        printed,
        stripped,
        later,
        before_bracket_same root root_clean,
        not_empty "target" root rest (subst (λ l. any is_bad_segment l ≡ false) parts good),
      )
      refl
