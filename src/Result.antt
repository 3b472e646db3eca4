-- ===== src/Result.antt =====
-- The outcomes of the controller's fallible code: `anyhow::Result`, with the message that the source
-- writes as a constructor (the text that `with_context` adds to it is only logged), and a panic of
-- `expect` or `unwrap`, which ends the indexing task.
pub mod Inversion
use polixy.Prelude.{String, Option, none, some, List, [], ◌∷◌}

pub data Error : Type 0 where
  invalid_mode invalid_cidr : String → Error
  empty_cidr node_missing_spec node_missing_pod_cidr : Error
  missing_node : String → Error
  missing_namespace missing_pod missing_server pod_exists : String → Error
  pod_missing_spec : Error
  ambiguous_selection no_selection missing_mtls no_clients : Error

pub data Result {ℓ} (A : Type ℓ) : Type ℓ where
  ok : A → Result A
  err : Error → Result A
  panic : Result A

infixl 5 ◌>>=◌
abbrev pub ◌>>=◌ {ℓ κ} : {A : Type ℓ} {B : Type κ} → Result A → (A → Result B) → Result B
ok a >>= f = f a
err e >>= f = err e
panic >>= f = panic

-- `ok_or_else`
abbrev pub ok_or {ℓ} : {A : Type ℓ} → Error → Option A → Result A
ok_or e none = err e
ok_or e (some a) = ok a

-- `expect` and `unwrap`
abbrev pub unwrap {ℓ} : {A : Type ℓ} → Option A → Result A
unwrap none = panic
unwrap (some a) = ok a

-- `map(f).collect::<Result<Vec<_>>>()`: the first failure is the result
unfoldable pub try_map {ℓ κ} : {A : Type ℓ} {B : Type κ} → (A → Result B) → List A → Result (List B)
try_map f [] = ok []
try_map f (x ∷ xs) = do y ← f x; ys ← try_map f xs; ok (y ∷ ys)
