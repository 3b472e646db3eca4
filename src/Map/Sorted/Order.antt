-- ===== src/Map/Sorted/Order.antt =====
-- The order of the keys of a `BTreeMap`, which gives each key one entry.
use Prim.Native.Nat.{Ordering, compare as compare_ℕ}
use Prim.Native.Char.{code}
use Prim.Native.String.compare
use Prim.Native.String.{compare, then}
use text.Mathlib.TextEquality.{path_by_compare}
use text.Mathlib.TextPositions.{compare_refl}
use polixy.Prelude.{
  ℕ, nat_eq, String, ◌≡◌, refl, sym, ap, subst, ◌∙◌, Bool, true, some, List, [], ◌∷◌, inl, inr,
  arith, ◌==◌, string_eq, any, Bool-cases,
}
use polixy.Map.{Map, get, remove}
use polixy.Map.Sorted.{insert, extend}

then_trans :
    (a b c : ℕ) (x y z : Ordering)
    → (x ≡ Ordering.lt → y ≡ Ordering.lt → z ≡ Ordering.lt)
    → then (compare_ℕ a b) x ≡ Ordering.lt
    → then (compare_ℕ b c) y ≡ Ordering.lt
    → then (compare_ℕ a c) z ≡ Ordering.lt
then_trans a b c x y z f h k = ground arith

then_flip :
    (a b : ℕ) (x y : Ordering)
    → (x ≡ Ordering.gt → y ≡ Ordering.lt)
    → then (compare_ℕ a b) x ≡ Ordering.gt
    → then (compare_ℕ b a) y ≡ Ordering.lt
then_flip a b x y f h = ground arith

compare_trans :
    (s t u : String)
    → compare s t ≡ Ordering.lt
    → compare t u ≡ Ordering.lt
    → compare s u ≡ Ordering.lt
compare_trans String.[] String.[] u h k = k
compare_trans String.[] (String.◌∷◌ d t) String.[] h k = cc (sym (compare.cons-nil d t) ∙ k)
compare_trans String.[] (String.◌∷◌ d t) (String.◌∷◌ e u) h k = compare.nil-cons e u
compare_trans (String.◌∷◌ c s) String.[] u h k = cc (sym (compare.cons-nil c s) ∙ h)
compare_trans (String.◌∷◌ c s) (String.◌∷◌ d t) String.[] h k = cc (sym (compare.cons-nil d t) ∙ k)
compare_trans (String.◌∷◌ c s) (String.◌∷◌ d t) (String.◌∷◌ e u) h k =
    compare.cons-cons c e s u
    ∙ then_trans (code c) (code d) (code e) (compare s t) (compare t u) (compare s u)
        (compare_trans s t u) (sym (compare.cons-cons c d s t) ∙ h)
        (sym (compare.cons-cons d e t u) ∙ k)

compare_flip : (s t : String) → compare s t ≡ Ordering.gt → compare t s ≡ Ordering.lt
compare_flip String.[] String.[] h = cc (sym compare.nil-nil ∙ h)
compare_flip String.[] (String.◌∷◌ d t) h = cc (sym (compare.nil-cons d t) ∙ h)
compare_flip (String.◌∷◌ c s) String.[] h = compare.nil-cons c s
compare_flip (String.◌∷◌ c s) (String.◌∷◌ d t) h =
    compare.cons-cons d c t s
    ∙ then_flip (code c) (code d) (compare s t) (compare t s) (compare_flip s t)
        (sym (compare.cons-cons c d s t) ∙ h)

module _ {κ} {V : Type κ} where
  -- a key comes before all keys of a map
  abbrev pub IsBefore : String → Map String V → Type 0
  IsBefore k [] = Unit
  IsBefore k ((j, v) ∷ m) = (compare k j ≡ Ordering.lt) × IsBefore k m

  abbrev pub IsSorted : Map String V → Type 0
  IsSorted [] = Unit
  IsSorted ((k, v) ∷ m) = IsBefore k m × IsSorted m

  trans-IsBefore :
      (k j : String) (m : Map String V) → compare k j ≡ Ordering.lt → IsBefore j m → IsBefore k m
  trans-IsBefore k j [] h b = tt
  trans-IsBefore k j ((i, v) ∷ m) h (l, b) = (compare_trans k j i h l, trans-IsBefore k j m h b)

  insert-IsBefore :
      (j k : String) (v : V) (m : Map String V)
      → compare j k ≡ Ordering.lt
      → IsBefore j m
      → IsBefore j (insert k v m)
  unfolding insert
  insert-IsBefore j k v [] h b = (h, tt)
  insert-IsBefore j k v ((i, w) ∷ m) h (l, b) = go (compare k i) (insert-IsBefore j k v m h b)
    where
      go :
          (o : Ordering)
          → IsBefore j (insert k v m)
          → IsBefore j (elim o [
            | Ordering.lt ↦ (k, v) ∷ (i, w) ∷ m
            | Ordering.eq ↦ (k, v) ∷ m
            | Ordering.gt ↦ (i, w) ∷ insert k v m
          ])
      go Ordering.lt r = (h, (l, b))
      go Ordering.eq r = (h, b)
      go Ordering.gt r = (l, r)

  pub insert-IsSorted :
      (k : String) (v : V) (m : Map String V) → IsSorted m → IsSorted (insert k v m)
  unfolding insert
  insert-IsSorted k v [] s = (tt, tt)
  insert-IsSorted k v ((i, w) ∷ m) (b, s) = go (compare k i) refl (insert-IsSorted k v m s)
    where
      go :
          (o : Ordering)
          → compare k i ≡ o
          → IsSorted (insert k v m)
          → IsSorted (elim o [
            | Ordering.lt ↦ (k, v) ∷ (i, w) ∷ m
            | Ordering.eq ↦ (k, v) ∷ m
            | Ordering.gt ↦ (i, w) ∷ insert k v m
          ])
      go Ordering.lt e r = ((e, trans-IsBefore k i m e b), (b, s))
      go Ordering.eq e r = (subst (λ x. IsBefore x m) (sym (path_by_compare k i e)) b, s)
      go Ordering.gt e r = (insert-IsBefore i k v m (compare_flip k i e) b, r)

  pub extend-IsSorted :
      (m : Map String V) (l : List (String × V)) → IsSorted m → IsSorted (extend m l)
  unfolding extend
  extend-IsSorted m [] s = s
  extend-IsSorted m ((k, v) ∷ l) s = extend-IsSorted (insert k v m) l (insert-IsSorted k v m s)

  remove-IsBefore : (j k : String) (m : Map String V) → IsBefore j m → IsBefore j (remove k m)
  unfolding remove
  remove-IsBefore j k [] b = tt
  remove-IsBefore j k ((i, w) ∷ m) (l, b) = elim (Bool-cases (i == k)) [
    | inl e ↦ rw e (remove-IsBefore j k m b)
    | inr e ↦ rw e (l, remove-IsBefore j k m b)
  ]

  pub remove-IsSorted : (k : String) (m : Map String V) → IsSorted m → IsSorted (remove k m)
  unfolding remove
  remove-IsSorted k [] s = tt
  remove-IsSorted k ((i, w) ∷ m) (b, s) = elim (Bool-cases (i == k)) [
    | inl e ↦ rw e (remove-IsSorted k m s)
    | inr e ↦ rw e (remove-IsBefore i k m b, remove-IsSorted k m s)
  ]

  -- a key of the map comes after one that is before all of it
  get-IsBefore :
      (j k : String) (v : V) (m : Map String V)
      → IsBefore j m
      → get k m ≡ some v
      → compare j k ≡ Ordering.lt
  unfolding get
  get-IsBefore j k v [] b h = cc
  get-IsBefore j k v ((i, w) ∷ m) (l, b) h = elim (Bool-cases (i == k)) [
    | inl e ↦ subst (λ x. compare j x ≡ Ordering.lt) ((string_eq.beq_iff i k).0 e) l
    | inr e ↦ get-IsBefore j k v m b (rw (e, get) at h)
  ]

  pub get-any :
      (f : String × V → Bool) (k : String) (v : V) (m : Map String V)
      → get k m ≡ some v
      → f (k, v) ≡ true
      → any f m ≡ true
  unfolding get
  get-any f k v [] h p = cc
  get-any f k v ((i, w) ∷ m) h p = ground (arith, get-any f k v m, string_eq.beq_iff i k)

  -- each entry of a sorted map is found
  pub any-get :
      (f : String × V → Bool) (m : Map String V)
      → IsSorted m
      → any f m ≡ true
      → (k : String) × (v : V) × (get k m ≡ some v) × (f (k, v) ≡ true)
  unfolding get
  any-get f [] s h = cc
  any-get f ((i, w) ∷ m) (b, s) h = elim (Bool-cases (f (i, w))) [
    | inl e ↦ (i, w, ground (arith, string_eq.beq_iff i i), e)
    | inr e ↦
        let (k, v, found, p) = any-get f m s (rw e at h) in
        let after = get-IsBefore i k v m b found in
        (
          k,
          v,
          elim (Bool-cases (i == k)) [
            | inl q ↦
                cc (sym (compare_refl i) ∙ ap (compare i) ((string_eq.beq_iff i k).0 q) ∙ after)
            | inr q ↦ rw q found
          ],
          p,
        )
  ]
