-- ===== src/Tests/Selectors.antt =====
-- The cases of `test_matches` of controller/k8s/api/src/labels.rs.
use polixy.Prelude.{◌≡◌, refl, true, none, [], ◌∷◌, string_eq}
use polixy.Map.{get}
use polixy.Map.Sorted
use polixy.Labels.{
  Expression, in_set, matches, labels_from_iter, selector_from_iter, selector_from_exprs,
  expression_matches, from_map, from_expressions,
}

abbrev foo_is_bar : Expression
foo_is_bar = record { key = "foo"; operator = in_set; values = "bar" ∷ [] }

empty_match : matches (record { match_labels = none; match_expressions = none }) [] ≡ true
unfolding matches
empty_match = refl

exact_label_match :
    matches (selector_from_iter (("foo", "bar") ∷ [])) (labels_from_iter (("foo", "bar") ∷ []))
    ≡ true
unfolding matches selector_from_iter from_map labels_from_iter Sorted.extend Sorted.insert get
exact_label_match = refl

sufficient_label_match :
    matches
      (selector_from_iter (("foo", "bar") ∷ []))
      (labels_from_iter (("foo", "bar") ∷ ("bah", "baz") ∷ []))
    ≡ true
unfolding matches selector_from_iter from_map labels_from_iter Sorted.extend Sorted.insert get
sufficient_label_match = refl

expression_match :
    matches
      (selector_from_exprs (foo_is_bar ∷ []))
      (labels_from_iter (("foo", "bar") ∷ ("bah", "baz") ∷ []))
    ≡ true
unfolding matches expression_matches selector_from_exprs from_expressions labels_from_iter
    Sorted.extend Sorted.insert get
expression_match = refl
