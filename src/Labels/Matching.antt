-- ===== src/Labels/Matching.antt =====
-- What a label selector selects.
use mathlib.Core.List.{List, [], ◌∷◌}
use polixy.Prelude.{
  String, ◌≡◌, ◌↔◌, refl, Bool, true, false, Option, none, some, arith, contains, all, All,
  string_eq, if◌then◌else◌,
}
use polixy.Map.{get}
use polixy.Labels.{
  Labels, Operator, Expression, Selector, in_set, not_in, expression_matches, has_value, matches,
  or_empty,
}

module _ {ℓ} {A : Type ℓ} (p : A → Bool) where
  pub all_iff : (xs : List A) → (all p xs ≡ true) ↔ All (λ x. p x ≡ true) xs
  all_iff [] = (λ h. tt, λ h. refl)
  all_iff (x ∷ xs) =
      (λ h. (ground arith, (all_iff xs).0 (ground arith)), λ h. ground (arith, (all_iff xs).1 h.1))

has_value_iff : (o : Option String) (v : String) → (has_value o v ≡ true) ↔ (o ≡ some v)
has_value_iff none v = (λ h. cc, λ h. cc)
has_value_iff (some w) v =
    (λ h. ground (arith, string_eq.beq_iff w v), λ h. ground (arith, string_eq.beq_iff w v))

All-iff {ℓ κ} :
    {A : Type ℓ} (P Q : A → Type κ) → ((a : A) → P a ↔ Q a) → (xs : List A) → All P xs ↔ All Q xs
All-iff P Q h [] = (λ x. x, λ x. x)
All-iff P Q h (x ∷ xs) =
    (λ t. ((h x).0 t.0, (All-iff P Q h xs).0 t.1), λ t. ((h x).1 t.0, (All-iff P Q h xs).1 t.1))

-- the operator, the listed values and the value of the key in the labels
abbrev pub Accepts : Operator → List String → Option String → Type 0
Accepts in_set values none = ⊥
Accepts in_set values (some v) = contains values v ≡ true
Accepts not_in values none = Unit
Accepts not_in values (some v) = contains values v ≡ true

abbrev pub HasLabels : Labels → Labels → Type 0
HasLabels required labels = All (λ e. get e.0 labels ≡ some e.1) required

expression_iff :
    (labels : Labels) (expr : Expression)
    → (expression_matches labels expr ≡ true)
      ↔ Accepts expr.operator expr.values (get expr.key labels)
unfolding expression_matches
expression_iff labels expr = (λ h. ground arith, λ h. ground arith)

if_false_iff : (a b : Bool) → ((if a then b else false) ≡ true) ↔ ((a ≡ true) × (b ≡ true))
if_false_iff a b = (λ h. ground arith, λ h. ground arith)

-- A selector matches the labels exactly when each of its expressions accepts the value that its key
-- has in the labels, if any, and each of its required labels stands there with the same value. A
-- missing list of expressions or of labels requires nothing.
pub matches_iff :
    (sel : Selector) (labels : Labels)
    → (matches sel labels ≡ true) ↔ (
        All
          (λ expr. Accepts expr.operator expr.values (get expr.key labels))
          (or_empty sel.match_expressions)
        × HasLabels (or_empty sel.match_labels) labels)
unfolding matches
matches_iff sel labels =
    let exprs = All-iff _ _ (expression_iff labels) (or_empty sel.match_expressions) in
    let required =
      All-iff _ _ (λ (e : String × String). has_value_iff (get e.0 labels) e.1)
        (or_empty sel.match_labels) in
    let both =
      if_false_iff (all (expression_matches labels) (or_empty sel.match_expressions)) (
        all (λ (e : String × String). has_value (get e.0 labels) e.1)
          (or_empty sel.match_labels)) in
    (
      λ h. (exprs.0 ((all_iff _ _).0 (both.0 h).0), required.0 ((all_iff _ _).0 (both.0 h).1)),
      λ h. both.1 ((all_iff _ _).1 (exprs.1 h.0), (all_iff _ _).1 (required.1 h.1)),
    )

-- `NotIn` accepts a value exactly when `In` does: where the key stands among the labels, the two
-- operators give the same answer, which is whether the value is one of the listed ones.
pub not_in-eq-in_set :
    (labels : Labels) (k v : String) (vs : List String)
    → get k labels ≡ some v
    → (expression_matches labels (record { key = k; operator = not_in; values = vs })
        ≡ expression_matches labels (record { key = k; operator = in_set; values = vs }))
      × (expression_matches labels (record { key = k; operator = not_in; values = vs })
          ≡ contains vs v)
unfolding expression_matches
not_in-eq-in_set labels k v vs h = ground arith
