-- ===== src/Result/Inversion.antt =====
-- What a successful step says of its parts.
use polixy.Prelude.{◌⊎◌, inl, inr, ◌≡◌, refl, List, ◌∷◌}
use polixy.Result.{Error, Result, ok, err, panic, ◌>>=◌, try_map}

pub >>=-eq-ok {ℓ κ} :
    {X : Type ℓ} {Y : Type κ} (first : Result X) (next : X → Result Y) {y : Y}
    → (first >>= next) ≡ ok y
    → (x : X) × (first ≡ ok x) × (next x ≡ ok y)
>>=-eq-ok (ok x) next h = (x, refl, h)
>>=-eq-ok (err problem) next h = cc
>>=-eq-ok panic next h = cc

pub ok-injective {ℓ} : {A : Type ℓ} (a b : A) → ok a ≡ ok b → a ≡ b
ok-injective a b h = cc

module _ {ℓ κ} {A : Type ℓ} {B : Type κ} (f : A → Result B) where
  pub try_map-cons :
      (x : A) (xs : List A) (zs : List B)
      → try_map f (x ∷ xs) ≡ ok zs
      → (y : B) × (ys : List B) × (f x ≡ ok y) × (try_map f xs ≡ ok ys) × ((y ∷ ys) ≡ zs)
  unfolding try_map
  try_map-cons x xs zs h =
      let (y, p, h1) = >>=-eq-ok (f x) (λ y. try_map f xs >>= λ ys. ok (y ∷ ys)) h in
      let (ys, q, h2) = >>=-eq-ok (try_map f xs) (λ ys. ok (y ∷ ys)) h1 in
      (y, ys, p, q, ok-injective (y ∷ ys) zs h2)

pub Result-cases {ℓ} :
    {A : Type ℓ} (r : Result A)
    → ((a : A) × (r ≡ ok a)) ⊎ (((e : Error) × (r ≡ err e)) ⊎ (r ≡ panic))
Result-cases (ok a) = inl (a, refl)
Result-cases (err e) = inr (inl (e, refl))
Result-cases panic = inr (inr refl)
