-- ===== src/Security/Canonical/Members.antt =====
-- The order of the members of an object does not show in its canonical text.
use actionwitness.Json.Laws.{has_key-lookup}
use Prim.Native.Nat.{◌/◌, ◌%◌}
use Prim.Native.Char.{Char, code, char}
use text.Mathlib.TextEquality.{Char-path}
use actionwitness.Prelude.{
  ℕ, suc, ◌+◌, ◌-◌, ◌<◌, ◌≡◌, ◌⊎◌, inl, inr, refl, sym, ap, ap₂, ◌∙◌, subst, String, string_eq,
  false, ◌==◌, ◌&&◌, List, [], Memᴰ, some, arith, ltb, mem-cons, Bool-cases, beq_refl,
}
use actionwitness.Prelude.Sort.{IsOrder}
use actionwitness.Prelude.Sort.Unique.{AllApart, sort_by_unique}
use actionwitness.Prelude.Text.{codes, lex_leb_total, lex_leb_trans, lex_leb_antisym}
use actionwitness.Json.{Json, obj, JsonDict, end, entry, lookup, has_key}
use actionwitness.Security.Canonical.{
  Doubles, units, utf16, Encoded, encoded_leb, member_text, encode, encode_value, encode_entries,
}

pub scalar_bounds : (c : Char) → (code c < 55296) ⊎ ((57343 < code c) × (code c < 1114112))
scalar_bounds (char n p) = ground arith

units_injective :
    (c d : Char) (xs ys : List ℕ)
    → units (code c) xs ≡ units (code d) ys
    → (code c ≡ code d) × (xs ≡ ys)
units_injective c d xs ys h =
    let b = scalar_bounds c in
    let b' = scalar_bounds d in
    elim (Bool-cases (ltb (code c) 65536)) [
      | inl e ↦ elim (Bool-cases (ltb (code d) 65536)) [
        | inl f ↦ (cc (rw (e, f) at h), cc (rw (e, f) at h))
        | inr f ↦
            let first : code c ≡ 55296 + (code d - 65536) / 1024 = cc (rw (e, f) at h) in
            absurd (ground arith)
      ]
      | inr e ↦ elim (Bool-cases (ltb (code d) 65536)) [
        | inl f ↦
            let first : 55296 + (code c - 65536) / 1024 ≡ code d = cc (rw (e, f) at h) in
            absurd (ground arith)
        | inr f ↦
            let first : 55296 + (code c - 65536) / 1024 ≡ 55296 + (code d - 65536) / 1024 =
              cc (rw (e, f) at h) in
            let second : 56320 + (code c - 65536) % 1024 ≡ 56320 + (code d - 65536) % 1024 =
              cc (rw (e, f) at h) in
            let rest : xs ≡ ys = cc (rw (e, f) at h) in (ground arith, rest)
      ]
    ]

no_units : (c : ℕ) (rest : List ℕ) → units c rest ≡ [] → ⊥
no_units c rest h = elim (Bool-cases (ltb c 65536)) [
  | inl e ↦ cc (rw e at h)
  | inr e ↦ cc (rw e at h)
]

utf16_injective : (s t : String) → utf16 (codes s) ≡ utf16 (codes t) → s ≡ t
utf16_injective String.[] String.[] h = refl
utf16_injective String.[] (String.◌∷◌ d t) h = absurd (no_units (code d) _ (sym h))
utf16_injective (String.◌∷◌ c s) String.[] h = absurd (no_units (code c) _ h)
utf16_injective (String.◌∷◌ c s) (String.◌∷◌ d t) h =
    let (same, rest) = units_injective c d _ _ h in
    ap₂ String.◌∷◌ (Char-path c d same) (utf16_injective s t rest)

encoded-IsOrder : IsOrder encoded_leb
encoded-IsOrder = record {
  total = λ (s, _) (t, _). lex_leb_total (utf16 (codes s)) (utf16 (codes t));
  transitive =
      λ (s, _) (t, _) (u, _). lex_leb_trans (utf16 (codes s)) (utf16 (codes t)) (utf16 (codes u));
}

-- no key stands twice, as in a `dict`
abbrev pub HasDistinctKeys : JsonDict → Type 0
HasDistinctKeys end = Unit
HasDistinctKeys (entry k v d) = (has_key d k ≡ false) × HasDistinctKeys d

module _ (doubles : Doubles) (depth : ℕ) where
  abbrev member_of : String → Json → Encoded
  member_of k v = (k, member_text k (encode doubles depth v))

  mem_of_lookup :
      (d : JsonDict) (k : String) (v : Json)
      → lookup d k ≡ some v
      → Memᴰ (member_of k v) (encode_entries doubles depth d)
  unfolding encode_value
  mem_of_lookup end k v h = absurd (cc h)
  mem_of_lookup (entry j w d) k v h = elim (Bool-cases (j == k)) [
    | inl e ↦
        let same : j ≡ k = (string_eq.same_iff j k).0 e in
        let value : w ≡ v = cc (rw e at h) in Memᴰ.head (ap₂ member_of (sym same) (sym value))
    | inr e ↦ Memᴰ.tail (mem_of_lookup d k v (rw e at h))
  ]

  lookup_of_mem :
      (d : JsonDict) {z : Encoded}
      → HasDistinctKeys d
      → Memᴰ z (encode_entries doubles depth d)
      → (k : String) × (v : Json) × (z ≡ member_of k v) × (lookup d k ≡ some v)
  unfolding encode_value
  lookup_of_mem end u m = elim m [ ]
  lookup_of_mem (entry j w d) (fresh, u) m = elim (mem-cons m) [
    | inl e ↦ (j, w, e, rw (beq_refl j) refl)
    | inr n ↦
        let (k, v, e, at) = lookup_of_mem d u n in
        let apart : (j == k) ≡ false = elim (Bool-cases (j == k)) [
          | inl f ↦
              let same : j ≡ k = (string_eq.same_iff j k).0 f in
              cc (fresh, has_key-lookup d k v at, ap (has_key d) same)
          | inr f ↦ f
        ] in
        (k, v, e, rw apart at)
  ]

  encode_entries-AllApart :
      (d : JsonDict) → HasDistinctKeys d → AllApart encoded-IsOrder (encode_entries doubles depth d)
  unfolding encode_value
  encode_entries-AllApart end u = tt
  encode_entries-AllApart (entry j w d) (fresh, u) = (
    λ y m.
        let (k, v, e, at) = lookup_of_mem d u m in
        rw e
          (elim (Bool-cases (
            encoded_leb (member_of j w) (member_of k v)
            && encoded_leb (member_of k v) (member_of j w))) [
              | inr f ↦ f
              | inl f ↦
                  let level =
                    lex_leb_antisym (utf16 (codes j)) (utf16 (codes k)) (ground arith)
                      (ground arith) in
                  let same = utf16_injective j k level in
                  cc (fresh, has_key-lookup d k v at, ap (has_key d) same)
            ]),
    encode_entries-AllApart d u,
  )

  entries_within :
      (a b : JsonDict)
      → HasDistinctKeys a
      → ((k : String) → lookup a k ≡ lookup b k)
      → (z : Encoded) → Memᴰ z (encode_entries doubles depth a)
      → Memᴰ z (encode_entries doubles depth b)
  entries_within a b u same z m =
      let (k, v, e, at) = lookup_of_mem a u m in
      subst (λ t. Memᴰ t (encode_entries doubles depth b)) (sym e)
        (mem_of_lookup b k v (sym (same k) ∙ at))

-- Two objects that have the same value, or none, at each key have the same canonical text, whatever the order of their members.
pub encode-lookup :
    (doubles : Doubles) (depth : ℕ) (a b : JsonDict)
    → HasDistinctKeys a
    → HasDistinctKeys b
    → ((k : String) → lookup a k ≡ lookup b k)
    → encode doubles depth (obj a) ≡ encode doubles depth (obj b)
unfolding encode_value
encode-lookup doubles depth a b u v same =
    rw
      (sort_by_unique encoded-IsOrder (encode_entries doubles (suc depth) a)
        (encode_entries doubles (suc depth) b) (encode_entries-AllApart doubles (suc depth) a u)
        (encode_entries-AllApart doubles (suc depth) b v)
        (entries_within doubles (suc depth) a b u same)
        (entries_within doubles (suc depth) b a v (λ k. sym (same k))))
      refl
