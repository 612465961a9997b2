-- ===== src/Paths/Overlap.antt =====
-- Ancestors and overlap of paths, the order of paths, and what resolving a longer path adds.
use actionwitness.Prelude.{
  ◌≡◌, refl, ap, ◌∙◌, ◌↔◌, ◌⊎◌, inl, inr, String, string_eq, true, List, [], ◌∷◌, ◌++◌, arith,
  eq_iff, beq_refl, Option-cases,
}
use actionwitness.Prelude.Text.{text-IsOrder, text_antisym}
use actionwitness.Prelude.Sort.{IsOrder}
use actionwitness.Json.{Json, obj, JsonDict}
use actionwitness.Paths.{
  ObservationPath, is_prefix, is_ancestor_of, overlaps, segments_leb, child, walk, resolve,
  path_leb,
}

is_prefix-append : (a r : List String) → is_prefix a (a ++ r) ≡ true
unfolding is_prefix
is_prefix-append [] r = refl
is_prefix-append (s ∷ a) r = rw (beq_refl s) (is_prefix-append a r)

is_prefix_refl : (a : List String) → is_prefix a a ≡ true
unfolding is_prefix
is_prefix_refl [] = refl
is_prefix_refl (s ∷ a) = rw (beq_refl s) (is_prefix_refl a)

rest_of_is_prefix : (a b : List String) → is_prefix a b ≡ true → (r : List String) × (b ≡ a ++ r)
unfolding is_prefix
rest_of_is_prefix [] b h = (b, refl)
rest_of_is_prefix (s ∷ a) [] h = cc
rest_of_is_prefix (s ∷ a) (t ∷ b) h =
    let (r, e) = rest_of_is_prefix a b (ground arith) in (r, ground (arith, eq_iff s t))

-- A path is an ancestor of another exactly if the other continues its segments.
pub is_ancestor_of_iff :
    (p q : ObservationPath)
    → (is_ancestor_of p q ≡ true) ↔ ((r : List String) × (q.segments ≡ p.segments ++ r))
is_ancestor_of_iff p q =
    (rest_of_is_prefix p.segments q.segments, λ (r, e). rw e (is_prefix-append p.segments r))

pub overlaps_comm : (p q : ObservationPath) → overlaps p q ≡ overlaps q p
overlaps_comm p q = ground arith

pub overlaps_self : (p : ObservationPath) → overlaps p p ≡ true
overlaps_self p = let h = is_prefix_refl p.segments in ground arith

walk-append :
    (a r : List String) (v : Json)
    → (walk (a ++ r) v).found ≡ true
    → ((walk a v).found ≡ true) × (walk (a ++ r) v ≡ walk r (walk a v).value)
unfolding walk
walk-append [] r v h = (refl, refl)
walk-append (s ∷ a) r v h = elim (Option-cases (child s v)) [
  | inl e ↦ cc
  | inr (w, e) ↦ let (f, q) = walk-append a r w (rw (e, walk) at h) in (cc, cc)
]

-- If a path resolves, so does each of its ancestors, and the segments that it adds resolve to the
-- same in the ancestor's value.
pub resolve-ancestor :
    (p q : ObservationPath) (context : JsonDict)
    → is_ancestor_of p q ≡ true
    → (resolve q context).found ≡ true
    → ((resolve p context).found ≡ true)
      × ((r : List String) × (q.segments ≡ p.segments ++ r)
          × (resolve q context ≡ walk r (resolve p context).value))
resolve-ancestor p q context h f =
    let (r, e) = (is_ancestor_of_iff p q).0 h in
    let (g, same) = walk-append p.segments r (obj context) (rw e at f) in
    (g, (r, e, ap (λ a. walk a (obj context)) e ∙ same))

segments_leb_total : (a b : List String) → (segments_leb a b ≡ true) ⊎ (segments_leb b a ≡ true)
unfolding segments_leb
segments_leb_total [] b = inl refl
segments_leb_total (s ∷ a) [] = inr refl
segments_leb_total (s ∷ a) (t ∷ b) =
    ground (arith, eq_iff s t, eq_iff t s, segments_leb_total a b, text-IsOrder.total s t)

segments_leb_trans :
    (a b c : List String)
    → segments_leb a b ≡ true
    → segments_leb b c ≡ true
    → segments_leb a c ≡ true
unfolding segments_leb
segments_leb_trans [] b c h k = refl
segments_leb_trans (s ∷ a) [] c h k = cc
segments_leb_trans (s ∷ a) (t ∷ b) [] h k = cc
segments_leb_trans (s ∷ a) (t ∷ b) (u ∷ c) h k = ground (
  arith,
  eq_iff s t,
  eq_iff t u,
  eq_iff s u,
  segments_leb_trans a b c,
  text-IsOrder.transitive s t u,
  text_antisym s t,
)

-- Paths are totally preordered by their segments.
pub path-IsOrder : IsOrder path_leb
path-IsOrder = record {
  total = λ p q. segments_leb_total p.segments q.segments;
  transitive = λ p q r. segments_leb_trans p.segments q.segments r.segments;
}
