-- ===== src/Text/Laws.antt =====
-- Splitting, joining and suffixes.
use Prim.Native.Char.{Char, code}
use Prim.Native.String.{◌++◌ as ◌<>◌}
use text.Mathlib.TextEquality.{Char-path}
use text.Mathlib.TextLemmas.{
  nil-append, cons-append, append-eq-nil_iff, head-eq_of_cons-eq, tail-eq_of_cons-eq,
}
use mathlib.Core.Option.{some-injective}
use polixy.Prelude.{
  subst, String, ◌≡◌, ◌↔◌, refl, ap, sym, ◌∙◌, inl, inr, ◌||◌, &&-true, true, false, Option, none,
  some, List, [], ◌∷◌, arith, ◌==◌, nat_eq, string_eq, Bool-cases,
}
use polixy.Text.{is_char, push_first, split, push_left, split_once, join, ends_with, starts_with}

is_char-eq : (c d : Char) → is_char c d ≡ true → c ≡ d
is_char-eq c d h = Char-path c d ((nat_eq.beq_iff _ _).0 h)

-- a split has a first part
pub split-cons :
    (sep : Char) (s : String) → (p : String) × (ps : List String) × (split sep s ≡ p ∷ ps)
unfolding split
split-cons sep String.[] = ("", [], refl)
split-cons sep (String.◌∷◌ c s) =
    let (p, ps, e) = split-cons sep s in
    elim (Bool-cases (is_char c sep)) [
      | inl here ↦ ("", split sep s, rw here)
      | inr other ↦ (String.◌∷◌ c p, ps, rw (other, e))
    ]

join-push_first :
    (sep : String) (c : Char) (p : String) (ps : List String)
    → join sep (push_first c (p ∷ ps)) ≡ String.◌∷◌ c (join sep (p ∷ ps))
unfolding join push_first
join-push_first sep c p [] = refl
join-push_first sep c p (q ∷ ps) = cons-append c p _

join-empty_first :
    (sep : Char) (p : String) (ps : List String)
    → join (String.◌∷◌ sep "") ("" ∷ p ∷ ps) ≡ String.◌∷◌ sep (join (String.◌∷◌ sep "") (p ∷ ps))
unfolding join
join-empty_first sep p ps = nil-append _ ∙ cons-append sep "" _ ∙ ap (String.◌∷◌ sep) (nil-append _)

-- Joining what was split gives the text back.
pub join-split : (sep : Char) (s : String) → join (String.◌∷◌ sep "") (split sep s) ≡ s
unfolding split
join-split sep String.[] = unfold join in refl
join-split sep (String.◌∷◌ c s) =
    let (p, ps, e) = split-cons sep s in
    let ih : join (String.◌∷◌ sep "") (p ∷ ps) ≡ s = rw e at (join-split sep s) in
    elim (Bool-cases (is_char c sep)) [
      | inl here ↦
          rw (here, e)
            (join-empty_first sep p ps
              ∙ ap (String.◌∷◌ sep) ih
              ∙ ap (λ d. String.◌∷◌ d s) (sym (is_char-eq c sep here)))
      | inr other ↦ rw (other, e) (join-push_first _ c p ps ∙ ap (String.◌∷◌ c) ih)
    ]

-- A text ends with another exactly when it is some text followed by it.
pub ends_with_iff : (s t : String) → (ends_with s t ≡ true) ↔ ((u : String) × (s ≡ u <> t))
unfolding ends_with
ends_with_iff String.[] t = (
  λ h. ("", (string_eq.beq_iff "" t).0 h ∙ sym (nil-append t)),
  λ (u, e). (string_eq.beq_iff "" t).1 (sym ((append-eq-nil_iff {p = u} {q = t}).0 (sym e)).1),
)
ends_with_iff (String.◌∷◌ c s) t = (
  λ h. elim (Bool-cases (String.◌∷◌ c s == t)) [
    | inl all ↦ ("", (string_eq.beq_iff _ t).0 all ∙ sym (nil-append t))
    | inr part ↦
        let (u, e) = (ends_with_iff s t).0 (rw part at h) in
        (String.◌∷◌ c u, ap (String.◌∷◌ c) e ∙ sym (cons-append c u t))
  ],
  λ (u, e). cons_case (ends_with_iff s t).1 u e,
)
  where
    cons_case :
        (((u : String) × (s ≡ u <> t)) → ends_with s t ≡ true)
        → (u : String) → String.◌∷◌ c s ≡ u <> t
        → (String.◌∷◌ c s == t || ends_with s t) ≡ true
    cons_case ih String.[] e = rw ((string_eq.beq_iff _ t).1 (e ∙ nil-append t))
    cons_case ih (String.◌∷◌ d u) e =
        let tails = tail-eq_of_cons-eq (e ∙ cons-append d u t) in
        let found = ih (u, tails) in ground arith

-- `sep` does not occur in the text
abbrev pub NoChar : Char → String → Type 0
NoChar sep String.[] = Unit
NoChar sep (String.◌∷◌ c s) = (is_char c sep ≡ false) × NoChar sep s

push_left_inv :
    (c : Char) (o : Option (String × String)) {a b : String}
    → push_left c o ≡ some (a, b)
    → (a' : String) × (o ≡ some (a', b)) × (String.◌∷◌ c a' ≡ a)
unfolding push_left
push_left_inv c none h = cc
push_left_inv c (some (a', b')) {a} {b} h =
    let e = some-injective (String.◌∷◌ c a', b') (a, b) h in
    (
      a',
      ap (λ y. some (a', y)) (ap (λ (p : String × String). p.1) e),
      ap (λ (p : String × String). p.0) e,
    )

split_once_sound :
    (sep : Char) (s a b : String)
    → split_once sep s ≡ some (a, b)
    → (s ≡ a <> String.◌∷◌ sep b) × NoChar sep a
unfolding split_once
split_once_sound sep String.[] a b h = cc
split_once_sound sep (String.◌∷◌ c s) a b h = elim (Bool-cases (is_char c sep)) [
  | inl here ↦
      subst (λ p. (String.◌∷◌ c s ≡ p.0 <> String.◌∷◌ sep p.1) × NoChar sep p.0)
        (some-injective ("", s) (a, b) (rw here at h))
        (ap (λ d. String.◌∷◌ d s) (is_char-eq c sep here) ∙ sym (nil-append _), tt)
  | inr other ↦
      let (a', found, e) = push_left_inv c (split_once sep s) (rw other at h) in
      let (split, free) = split_once_sound sep s a' b found in
      subst (λ p. (String.◌∷◌ c s ≡ p <> String.◌∷◌ sep b) × NoChar sep p) e
        (ap (String.◌∷◌ c) split ∙ sym (cons-append c a' _), (other, free))
]

split_once_complete :
    (sep : Char) (a b : String)
    → NoChar sep a
    → split_once sep (a <> String.◌∷◌ sep b) ≡ some (a, b)
unfolding split_once
split_once_complete sep String.[] b h =
    rw (nil-append, (nat_eq.beq_iff (code sep) (code sep)).1 refl)
split_once_complete sep (String.◌∷◌ c a) b h =
    rw cons-append (rw (h.0, split_once_complete sep a b h.1))

-- The separator's first occurrence splits a text: what stands before it has none.
pub split_once_iff :
    (sep : Char) (s a b : String)
    → (split_once sep s ≡ some (a, b)) ↔ ((s ≡ a <> String.◌∷◌ sep b) × NoChar sep a)
split_once_iff sep s a b =
    (split_once_sound sep s a b, λ h. rw h.0 (split_once_complete sep a b h.1))

-- A text starts with another exactly when it is that followed by some text.
pub starts_with_iff : (s t : String) → (starts_with s t ≡ true) ↔ ((u : String) × (s ≡ t <> u))
unfolding starts_with
starts_with_iff s String.[] = (λ h. (s, sym (nil-append s)), λ h. refl)
starts_with_iff String.[] (String.◌∷◌ d t) = (
  λ h. cc,
  λ (u, e).
      subst (λ x. starts_with "" x ≡ true)
        (sym ((append-eq-nil_iff {p = String.◌∷◌ d t} {q = u}).0 (sym e)).0) refl,
)
starts_with_iff (String.◌∷◌ c s) (String.◌∷◌ d t) = (
  λ h.
      let (p, q) = &&-true (is_char c d) (starts_with s t) h in
      let (u, e) = (starts_with_iff s t).0 q in
      (
        u,
        ap (λ x. String.◌∷◌ x s) (is_char-eq c d p) ∙ ap (String.◌∷◌ d) e ∙ sym (cons-append d t u),
      ),
  λ (u, e).
      let e' = e ∙ cons-append d t u in
      rw
        (
          (nat_eq.beq_iff (code c) (code d)).1 (ap code (head-eq_of_cons-eq e')),
          (starts_with_iff s t).1 (u, tail-eq_of_cons-eq e'),
        )
        refl,
)

-- the parts of a text that starts with the separator, and of one that starts with another character
pub split-separator : (sep : Char) (s : String) → split sep (String.◌∷◌ sep s) ≡ "" ∷ split sep s
unfolding split
split-separator sep s = rw ((nat_eq.beq_iff (code sep) (code sep)).1 refl) refl

pub split-other :
    (sep c : Char) (s p : String) (ps : List String)
    → is_char c sep ≡ false
    → split sep s ≡ p ∷ ps
    → split sep (String.◌∷◌ c s) ≡ String.◌∷◌ c p ∷ ps
unfolding split push_first
split-other sep c s p ps h e = rw (h, e) refl
