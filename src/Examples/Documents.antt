-- ===== src/Examples/Documents.antt =====
-- Paths and JSON documents.
use actionwitness.Prelude.{ℕ, ◌≡◌, refl, ◌↔◌, String, true, List, [], ◌∷◌, ◌++◌, some}
use actionwitness.Prelude.Text.{codes}
use actionwitness.Kernel.{ok, raise, invalid_observation_path}
use actionwitness.Json.{str, obj, number, dict, array, JsonDict, deep_equal}
use actionwitness.Paths.{
  ObservationPath, is_segment, before_newline, is_valid_segment, parse, path_text, is_ancestor_of,
  walk, resolve,
}
use actionwitness.Paths.Overlap.{resolve-ancestor}
use actionwitness.Paths.Parsing.{path_text-parse, newline_key}

abbrev items : ObservationPath
items = record { segments = "order" ∷ "items" ∷ [] }

abbrev first_item : ObservationPath
first_item = record { segments = "order" ∷ "items" ∷ "0" ∷ [] }

abbrev document : JsonDict
document = dict (("order", obj (dict (("items", array (str "tea" ∷ [])) ∷ []))) ∷ [])

parses : parse (str "order.items.0") ≡ ok first_item
unfolding parse actionwitness.Paths.parse_text actionwitness.Prelude.any
    actionwitness.Paths.is_refused is_segment actionwitness.Prelude.all
parses = refl

path_text-parse_example :
    (path_text first_item ≡ "order.items.0") × (parse (str (path_text first_item)) ≡ ok first_item)
path_text-parse_example = path_text-parse "order.items.0" first_item parses

newline_key_example :
    (is_valid_segment "foo\n" ≡ true) × (parse (str "foo\n") ≡ raise invalid_observation_path)
unfolding before_newline is_segment actionwitness.Prelude.all
newline_key_example = newline_key "foo\n" (codes "foo") refl refl

resolve-ancestor_example :
    ((resolve items document).found ≡ true)
    × ((r : List String) × (first_item.segments ≡ items.segments ++ r)
        × (resolve first_item document ≡ walk r (resolve items document).value))
unfolding actionwitness.Paths.is_prefix walk actionwitness.Paths.child actionwitness.Prelude.all
resolve-ancestor_example = resolve-ancestor items first_item document refl refl

same : deep_equal (number 3) (number 3) ≡ true
unfolding deep_equal
same = refl
