-- ===== src/Labels.antt =====
-- controller/k8s/api/src/labels.rs: label selectors.
pub mod Matching
use mathlib.Core.List.{List, [], ◌∷◌}
use polixy.Prelude.{
  String, Bool, true, false, not, ◌&&◌, Option, none, some, String-discrete, contains, all, is_some,
  if◌then◌else◌, ◌==◌, string_eq,
}
use polixy.Map.{Map, get}
use polixy.Map.Sorted

-- `Labels` and the `Map` under it, which `eq` compares
abbrev pub Labels : Type 0
Labels = Map String String

pub data Operator : Type 0 where
  in_set not_in : Operator

pub record Expression : Type 0 where
  pub key : String
  pub operator : Operator
  pub values : List String

pub record Selector : Type 0 where
  pub match_labels : Option Labels
  pub match_expressions : Option (List Expression)

-- `derive(PartialEq)`
pub Labels-discrete : Discrete Labels
Labels-discrete = hlevel String-discrete

pub Selector-discrete : Discrete Selector
Selector-discrete = hlevel String-discrete

unfoldable pub from_expressions : List Expression → Selector
from_expressions exprs = record { match_labels = none; match_expressions = some exprs }

unfoldable pub from_map : Labels → Selector
from_map labels = record { match_labels = some labels; match_expressions = none }

-- `FromIterator` for `Labels` and for `Selector`, from pairs and from expressions
unfoldable pub labels_from_iter : List (String × String) → Labels
labels_from_iter iter = Sorted.collect iter

unfoldable pub selector_from_iter : List (String × String) → Selector
unfolding from_map
selector_from_iter iter = from_map (Sorted.collect iter)

unfoldable pub selector_from_exprs : List Expression → Selector
unfolding from_expressions
selector_from_exprs iter = from_expressions iter

contains_value : List String → Option String → (absent : Bool) → Bool
contains_value values none absent = absent
contains_value values (some v) absent = contains values v

operator_matches : Operator → List String → Option String → Bool
unfolding contains_value
operator_matches in_set values found = contains_value values found false
operator_matches not_in values found = contains_value values found true

-- `Expression::matches`
unfoldable pub expression_matches : Labels → Expression → Bool
unfolding operator_matches
expression_matches labels expr = operator_matches expr.operator expr.values (get expr.key labels)

-- `labels.0.get(k) == Some(v)`
abbrev pub has_value : Option String → String → Bool
has_value none v = false
has_value (some w) v = w == v

abbrev pub or_empty {ℓ} : {A : Type ℓ} → Option (List A) → List A
or_empty none = []
or_empty (some l) = l

-- `iter().flatten()` over the optional expressions, then the optional labels
unfoldable pub matches : Selector → Labels → Bool
matches sel labels =
    if all (expression_matches labels) (or_empty sel.match_expressions)
    then all (λ e. has_value (get e.0 labels) e.1) (or_empty sel.match_labels)
    else false
