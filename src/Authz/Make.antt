-- ===== src/Authz/Make.antt =====
-- What an authorization is made of, of controller/k8s/index/src/authz.rs.
use Prim.Native.String.{◌++◌ as ◌<>◌}
use text.Mathlib.TextLemmas.{nil-append, cons-append}
use polixy.Prelude.{
  String, ◌≡◌, refl, sym, ap, subst, ◌∙◌, ◌∷◌, ◌==◌, nat_eq, string_eq, Bool-cases, inl, inr,
}
use polixy.Core.{suffix}
use polixy.Core.Display.{display, display-suffix}
use polixy.Text.{split, starts_with}
use polixy.Text.Laws.{join-split, split-cons, starts_with_iff, split-separator, split-other}
use polixy.Authz.{mk_identity, drop_star}

-- `*.` and some text: the parts of the text come behind a star
split-star : (s : String) → split "." ("*." <> s) ≡ "*" ∷ split "." s
split-star s =
    rw (cons-append "*" "." s, cons-append "." "" s, nil-append)
      (split-other "." "*" _ "" (split "." s) refl (split-separator "." s))

display-star : (s : String) → display (suffix (drop_star (split "." ("*." <> s)))) ≡ "*." <> s
unfolding drop_star
display-star s =
    let (p, ps, parts) = split-cons "." s in
    rw (split-star s, parts)
      (display-suffix p ps ∙ ap (λ t. "*." <> t) (rw parts at (join-split "." s)))

-- An identity is written as the resource has it: `*`, `*.` and a suffix, or a name.
pub display-mk_identity : (id : String) → display (mk_identity id) ≡ id
unfolding display mk_identity
display-mk_identity id = elim (Bool-cases (id == "*")) [
  | inl all ↦ rw all (sym ((string_eq.beq_iff id "*").0 all))
  | inr some_name ↦ elim (Bool-cases (starts_with id "*.")) [
    | inl star ↦
        let (s, e) = (starts_with_iff id "*.").0 star in
        rw (some_name, star)
          (subst (λ x. display (suffix (drop_star (split "." x))) ≡ x) (sym e) (display-star s))
    | inr other ↦ rw (some_name, other) refl
  ]
]
