-- ===== src/Reply.antt =====
-- The outcomes of code that fails with an error of its own type and does not panic: `tonic::Status`
-- in the API server, `anyhow::Error` in the client.
use polixy.Prelude.{◌≡◌, refl, Option, none, some, List, [], ◌∷◌, map}

pub data Reply {ℓ κ} (E : Type κ) (A : Type ℓ) : Type (ℓ ⊔ κ) where
  ok : A → Reply E A
  err : E → Reply E A

infixl 5 ◌>>=◌
abbrev pub ◌>>=◌ {ℓ κ μ} :
    {E : Type μ} {A : Type ℓ} {B : Type κ} → Reply E A → (A → Reply E B) → Reply E B
ok a >>= f = f a
err e >>= f = err e

-- `ok_or_else`
abbrev pub ok_or {ℓ μ} : {E : Type μ} {A : Type ℓ} → E → Option A → Reply E A
ok_or e none = err e
ok_or e (some a) = ok a

-- `map(f).collect::<Result<Vec<_>>>()`: the first failure is the result
unfoldable pub try_map {ℓ κ μ} :
    {E : Type μ} {A : Type ℓ} {B : Type κ} → (A → Reply E B) → List A → Reply E (List B)
try_map f [] = ok []
try_map f (x ∷ xs) = do y ← f x; ys ← try_map f xs; ok (y ∷ ys)

pub >>=-eq-ok {ℓ κ μ} :
    {E : Type μ} {X : Type ℓ} {Y : Type κ} (first : Reply E X) (next : X → Reply E Y) {y : Y}
    → (first >>= next) ≡ ok y
    → (x : X) × (first ≡ ok x) × (next x ≡ ok y)
>>=-eq-ok (ok x) next h = (x, refl, h)
>>=-eq-ok (err problem) next h = cc

pub ok-injective {ℓ μ} :
    {E : Type μ} {A : Type ℓ} (a b : A) → ◌≡◌ {A = Reply E A} (ok a) (ok b) → a ≡ b
ok-injective a b h = cc

-- a list of messages, each of which is read as what was written
pub try_map-map {ℓ κ μ ν} :
    {E : Type μ} {A : Type ℓ} {B : Type κ} {M : Type ν} (decode : M → Reply E B) (encode : A → M)
    (f : A → B)
    → ((a : A) → decode (encode a) ≡ ok (f a))
    → (xs : List A) → try_map decode (map encode xs) ≡ ok (map f xs)
unfolding try_map
try_map-map decode encode f h [] = refl
try_map-map decode encode f h (x ∷ xs) = rw (h x, try_map-map decode encode f h xs) refl
