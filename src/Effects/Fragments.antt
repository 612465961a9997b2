-- ===== src/Effects/Fragments.antt =====
-- What grafting further paths leaves in a fragment.
use actionwitness.Prelude.{
  ◌≡◌, ◌≢◌, refl, sym, ap, ◌∙◌, String, string_eq, Bool, true, false, ◌==◌, List, [], ◌∷◌, ◌++◌,
  Option, none, some, if◌then◌else◌, arith, Bool-cases, inl, inr, beq_refl, subst,
}
use actionwitness.Json.{
  Json, null, bool, int, float, str, arr, obj, JsonDict, end, entry, lookup, has_key,
}
use actionwitness.Paths.{ObservationPath, found_value, resolve, walk, child}
use actionwitness.Security.Redaction.{RedactionPolicy, redact}
use actionwitness.Effects.{put, graft_below, graft, graft_all, effect_context}

lookup-put : (d : JsonDict) (k : String) (v : Json) → lookup (put d k v) k ≡ some v
lookup-put end k v = rw (beq_refl k) refl
lookup-put (entry j u d) k v = elim (Bool-cases (j == k)) [
  | inl e ↦ rw (e, e) refl
  | inr e ↦ rw (e, e) (lookup-put d k v)
]

lookup-put_other :
    (d : JsonDict) (k l : String) (v : Json) → (k == l) ≡ false → lookup (put d k v) l ≡ lookup d l
lookup-put_other end k l v h = rw h refl
lookup-put_other (entry j u d) k l v h = ground (
  arith,
  lookup-put_other d k l v h,
  string_eq.same_iff j k,
  string_eq.same_iff j l,
  string_eq.same_iff k l,
)

-- a value that is neither a map nor null
abbrev pub is_leaf : Json → Bool
is_leaf null = false
is_leaf (obj d) = false
is_leaf _ = true

absent : (d : JsonDict) (s : String) → has_key d s ≡ false → lookup d s ≡ none
absent end s h = refl
absent (entry j v d) s h = ground (arith, absent d s)

walk_absent :
    (d : JsonDict) (s : String) (q : List String) (leaf : Json)
    → lookup d s ≡ none
    → walk (s ∷ q) (obj d) ≢ found_value leaf
unfolding walk child
walk_absent d s q leaf e h = cc (rw (e, walk) at h)

walk_map :
    (d : JsonDict) (path : List String) (leaf : Json)
    → is_leaf leaf ≡ true
    → walk path (obj d) ≡ found_value leaf
    → (p : String) × (q : List String) × (path ≡ p ∷ q)
unfolding walk
walk_map d [] leaf l h =
    let same : obj d ≡ leaf = ap (λ r. r.value) h in absurd (cc (l, ap is_leaf same))
walk_map d (p ∷ q) leaf l h = (p, q, refl)

-- a leaf stays if it is not below the key that is set, or is below the new value
walk-put :
    (d : JsonDict) (s : String) (new : Json) (path : List String) (leaf : Json)
    → is_leaf leaf ≡ true
    → walk path (obj d) ≡ found_value leaf
    → ((q : List String) → walk (s ∷ q) (obj d) ≡ found_value leaf → walk q new ≡ found_value leaf)
    → walk path (obj (put d s new)) ≡ found_value leaf
unfolding walk child
walk-put d s new [] leaf l h below = let (p, q, e) = walk_map d [] leaf l h in absurd (cc e)
walk-put d s new (p ∷ q) leaf l h below = elim (Bool-cases (s == p)) [
  | inl e ↦
      let same : s ≡ p = (string_eq.same_iff s p).0 e in
      let at : lookup (put d s new) p ≡ some new =
        ap (lookup (put d s new)) (sym same) ∙ lookup-put d s new in
      rw (at, walk) (below q (subst (λ k. walk (k ∷ q) (obj d) ≡ found_value leaf) (sym same) h))
  | inr e ↦ rw (lookup-put_other d s p new e, walk) h
]

null_has_no_leaf :
    (q : List String) (leaf : Json) → is_leaf leaf ≡ true → walk q null ≢ found_value leaf
unfolding walk child
null_has_no_leaf [] leaf l h =
    let same : null ≡ leaf = ap (λ r. r.value) h in cc (l, ap is_leaf same)
null_has_no_leaf (s ∷ q) leaf l h = cc h

-- Grafting a value changes no leaf that the fragment holds.
walk-graft :
    (target : JsonDict) (segments path : List String) (value leaf : Json)
    → is_leaf leaf ≡ true
    → walk path (obj target) ≡ found_value leaf
    → walk path (obj (graft target segments value)) ≡ found_value leaf
unfolding walk graft child
walk-graft target [] path value leaf l h = h
walk-graft target (s ∷ []) path value leaf l h = elim (Bool-cases (has_key target s)) [
  | inl e ↦ rw e h
  | inr e ↦ rw e (
      walk-put target s value path leaf l h
        (λ q k. absurd (walk_absent target s q leaf (absent target s e) k)))
]
walk-graft target (s ∷ t ∷ rest) path value leaf l h =
    below (lookup target s) refl (λ inner q k. walk-graft inner (t ∷ rest) q value leaf l k)
  where
    below :
        (o : Option Json)
        → lookup target s ≡ o
        → ((inner : JsonDict) (q : List String)
            → walk q (obj inner) ≡ found_value leaf
            → walk q (obj (graft inner (t ∷ rest) value)) ≡ found_value leaf)
        → walk path (
            obj (
              graft_below target s o
                (graft end (t ∷ rest) value)
                (λ inner. graft inner (t ∷ rest) value)))
          ≡ found_value leaf
    below none e ih =
        walk-put target s _ path leaf l h (λ q k. absurd (walk_absent target s q leaf e k))
    below (some null) e ih =
        walk-put target s _ path leaf l h
          (λ q k. absurd (null_has_no_leaf q leaf l (rw (e, walk) at k)))
    below (some (obj inner)) e ih =
        walk-put target s _ path leaf l h (λ q k. ih inner q (rw (e, walk) at k))
    below (some (bool b)) e ih = h
    below (some (int i)) e ih = h
    below (some (float m i)) e ih = h
    below (some (str u)) e ih = h
    below (some (arr xs)) e ih = h

-- What a value holds that is grafted into an empty fragment is found below its path.
walk-graft_end :
    (s : String) (rest path : List String) (value : Json)
    → walk (s ∷ rest ++ path) (obj (graft end (s ∷ rest) value)) ≡ walk path value
unfolding walk graft child
walk-graft_end s [] path value = rw (beq_refl s, walk) refl
walk-graft_end s (t ∷ rest) path value = rw (beq_refl s, walk) (walk-graft_end t rest path value)

-- each leaf of the first fragment is in the second at the same path
abbrev pub Keeps : JsonDict → JsonDict → Type 0
Keeps fragment whole =
    (path : List String) (leaf : Json)
    → is_leaf leaf ≡ true
    → walk path (obj fragment) ≡ found_value leaf
    → walk path (obj whole) ≡ found_value leaf

abbrev pub nonempty : String → List String → ObservationPath
nonempty s rest = record { segments = s ∷ rest }

module _ (lower : String → String) (policy : Option RedactionPolicy) where
  walk-graft_all :
      (fragment : JsonDict) (paths : List ObservationPath) (context : JsonDict) (path : List String)
      (leaf : Json)
      → is_leaf leaf ≡ true
      → walk path (obj fragment) ≡ found_value leaf
      → walk path (obj (graft_all lower policy fragment paths context)) ≡ found_value leaf
  unfolding graft_all
  walk-graft_all fragment [] context path leaf l h = h
  walk-graft_all fragment (p ∷ ps) context path leaf l h =
      elim (Bool-cases (resolve p context).found) [
        | inr e ↦ rw e (walk-graft_all fragment ps context path leaf l h)
        | inl e ↦
            let value = redact lower (resolve p context).value policy in
            rw e (
              walk-graft_all (graft fragment p.segments value) ps context path leaf l
                (walk-graft fragment p.segments path value leaf l h))
      ]

  graft_all-append :
      (fragment : JsonDict) (paths more : List ObservationPath) (context : JsonDict)
      → graft_all lower policy fragment (paths ++ more) context
        ≡ graft_all lower policy (graft_all lower policy fragment paths context) more context
  unfolding graft_all
  graft_all-append fragment [] more context = refl
  graft_all-append fragment (p ∷ ps) more context =
      graft_all-append
        (if (resolve p context).found
          then graft fragment p.segments (redact lower (resolve p context).value policy)
          else fragment)
        ps more context

  graft_all-first :
      (p : ObservationPath) (paths : List ObservationPath) (context : JsonDict)
      → (resolve p context).found ≡ true
      → graft_all lower policy end (p ∷ paths) context
        ≡ graft_all lower policy
            (graft end p.segments (redact lower (resolve p context).value policy))
            paths
            context
  unfolding graft_all
  graft_all-first p paths context found = rw found refl

  graft_all-unresolved :
      (p : ObservationPath) (paths : List ObservationPath) (context : JsonDict)
      → (resolve p context).found ≡ false
      → graft_all lower policy end (p ∷ paths) context ≡ graft_all lower policy end paths context
  unfolding graft_all
  graft_all-unresolved p paths context h = rw h refl

  -- the fragment that is kept for some declared paths
  abbrev pub fragment_of : List ObservationPath → JsonDict → JsonDict
  fragment_of paths context = graft_all lower policy end paths context

  -- A fragment is kept wherever there is an observation. If the first declared path does not resolve, the fragment is that of the other paths; if it resolves, the fragment has below that path every value of the redacted observation that is neither a map nor null, however deep. Declaring further paths after the others leaves every such value of the fragment in its place.
  pub effect_context-Keeps :
      (s : String) (rest : List String) (paths more : List ObservationPath) (context : JsonDict)
      → let first = nonempty s rest in
        let fragment = fragment_of (first ∷ paths) context in
        (effect_context lower policy (first ∷ paths) (some context) ≡ some fragment)
        × ((resolve first context).found ≡ false → fragment ≡ fragment_of paths context)
        × ((resolve first context).found ≡ true
            → (path : List String) (leaf : Json) → is_leaf leaf ≡ true
            → walk path (redact lower (resolve first context).value policy) ≡ found_value leaf
            → walk (s ∷ rest ++ path) (obj fragment) ≡ found_value leaf)
        × Keeps fragment (fragment_of (first ∷ paths ++ more) context)
  effect_context-Keeps s rest paths more context =
      let first = nonempty s rest in
      let value = redact lower (resolve first context).value policy in
      let start = graft end (s ∷ rest) value in
      (
        refl,
        graft_all-unresolved first paths context,
        λ found path leaf l h. rw (graft_all-first first paths context found) (
            walk-graft_all start paths context (s ∷ rest ++ path) leaf l
              (walk-graft_end s rest path value ∙ h)),
        λ path leaf k h.
            rw (graft_all-append end (first ∷ paths) more context)
              (walk-graft_all (fragment_of (first ∷ paths) context) more context path leaf k h),
      )
