-- ===== src/Paths/Parsing.antt =====
-- What `parse` accepts: printing gives the text back, and every segment is in the grammar. A key
-- that `is_valid_segment` passes may still be one that `parse` refuses.
use Prim.Native.Char.{Char, code}
use Prim.Native.String.{◌++◌ as append}
use text.Mathlib.TextLemmas.{nil-append, cons-append}
use text.Mathlib.TextEquality.{Char-path}
use actionwitness.Prelude.{
  ℕ, ◌≡◌, refl, sym, ap, ap₂, ◌∙◌, inl, inr, String, nat_eq, ◌==◌, true, List, [], ◌∷◌, some, arith,
  any, Memᴰ, any_complete, Bool-cases, Option-cases,
}
use actionwitness.Prelude.Text.{codes}
use actionwitness.Kernel.{ok, raise, invalid_observation_path}
use actionwitness.Json.{str}
use actionwitness.Paths.{
  ObservationPath, is_segment, before_newline, is_valid_segment, is_refused, split_dots, onto_first,
  parse_text, parse, join_dots, path_text,
}

pub split_dots-cons : (s : String) → (t : String) × (ts : List String) × (split_dots s ≡ t ∷ ts)
unfolding split_dots
split_dots-cons String.[] = ("", [], refl)
split_dots-cons (String.◌∷◌ c s) =
    let (t, ts, e) = split_dots-cons s in
    elim (Bool-cases (code c == b'.')) [
      | inl dot ↦ ("", split_dots s, rw dot)
      | inr other ↦ (String.◌∷◌ c t, ts, rw (other, e))
    ]

join_dots-onto_first :
    (c : Char) (ts : List String) (t : String)
    → join_dots (onto_first c (t ∷ ts)) ≡ String.◌∷◌ c (join_dots (t ∷ ts))
unfolding join_dots
join_dots-onto_first c [] t = refl
join_dots-onto_first c (u ∷ ts) t = cons-append c t _

dot_step :
    (c : Char) (rest : String) → code c ≡ 46 → append "" (append "." rest) ≡ String.◌∷◌ c rest
dot_step c rest h =
    nil-append (append "." rest)
    ∙ cons-append _ "" rest
    ∙ ap₂ String.◌∷◌ (Char-path _ c (sym h)) (nil-append rest)

pub join_dots-split_dots : (s : String) → join_dots (split_dots s) ≡ s
unfolding split_dots join_dots
join_dots-split_dots String.[] = refl
join_dots-split_dots (String.◌∷◌ c s) =
    let (t, ts, e) = split_dots-cons s in
    elim (Bool-cases (code c == b'.')) [
      | inl dot ↦
          rw (dot, e)
            (dot_step c (join_dots (t ∷ ts)) ((nat_eq.same_iff (code c) 46).0 dot)
              ∙ ap (String.◌∷◌ c) (ap join_dots (sym e) ∙ join_dots-split_dots s))
      | inr other ↦
          rw (other, e)
            (join_dots-onto_first c ts t
              ∙ ap (String.◌∷◌ c) (ap join_dots (sym e) ∙ join_dots-split_dots s))
    ]

pub segments-parse_text :
    (s : String) (p : ObservationPath) → parse_text s ≡ ok p → p.segments ≡ split_dots s
unfolding parse_text
segments-parse_text s p h = ground arith

-- A text that `parse` accepts is what the parsed path prints, and parses again to that path.
pub path_text-parse :
    (s : String) (p : ObservationPath)
    → parse (str s) ≡ ok p
    → (path_text p ≡ s) × (parse (str (path_text p)) ≡ ok p)
unfolding parse
path_text-parse s p h =
    let printed : path_text p ≡ s =
      ap join_dots (segments-parse_text s p h) ∙ join_dots-split_dots s in
    (printed, rw printed h)

newline_refused : (cs : List ℕ) {init : List ℕ} → before_newline cs ≡ some init → Memᴰ 10 cs
unfolding before_newline
newline_refused [] e = cc
newline_refused (c ∷ []) e = Memᴰ.head (ground arith)
newline_refused (c ∷ d ∷ cs) e = elim (Option-cases (before_newline (d ∷ cs))) [
  | inl n ↦ absurd (ground arith)
  | inr (init, f) ↦ Memᴰ.tail (newline_refused (d ∷ cs) f)
]

raise_refused :
    (s : String) → any is_refused (codes s) ≡ true → parse_text s ≡ raise invalid_observation_path
unfolding parse_text
raise_refused s h = ground arith

-- A key that ends in a newline after a well-formed segment passes `is_valid_segment`, and as a path
-- `parse` refuses it.
pub newline_key :
    (s : String) (init : List ℕ)
    → before_newline (codes s) ≡ some init
    → is_segment init ≡ true
    → (is_valid_segment s ≡ true) × (parse (str s) ≡ raise invalid_observation_path)
unfolding is_valid_segment parse
newline_key s init e h = (
  ground arith,
  raise_refused s
      (any_complete is_refused (newline_refused (codes s) e) (unfold is_refused any in refl)),
)
