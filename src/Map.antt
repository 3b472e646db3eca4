-- ===== src/Map.antt =====
-- `std::collections`: a `HashMap`, a `DashMap` or a `BTreeMap` is the list of its entries, in the
-- order in which an iteration meets them.
pub mod Laws
pub mod Keys
pub mod Sorted
pub mod Values
use polixy.Prelude.{Bool, Option, none, some, List, [], ◌∷◌, Eq, ◌==◌, if◌then◌else◌, is_some}

abbrev pub Map {ℓ κ} : Type ℓ → Type κ → Type (ℓ ⊔ κ)
Map K V = List (K × V)

module _ {ℓ κ} {K : Type ℓ} {V : Type κ} where
  abbrev pub keys : Map K V → List K
  keys [] = []
  keys ((k, v) ∷ m) = k ∷ keys m

module _ {ℓ κ} {K : Type ℓ} {V : Type κ} ⦃e : Eq K⦄ where
  unfoldable pub get : K → Map K V → Option V
  get k [] = none
  get k ((j, v) ∷ m) = if j == k then some v else get k m

  -- the old entry is replaced where it stands, and a new one goes to the end
  unfoldable pub insert : K → V → Map K V → Map K V
  insert k v [] = (k, v) ∷ []
  insert k v ((j, w) ∷ m) = if j == k then (k, v) ∷ m else (j, w) ∷ insert k v m

  unfoldable pub remove : K → Map K V → Map K V
  remove k [] = []
  remove k ((j, v) ∷ m) = let rest = remove k m in if j == k then rest else (j, v) ∷ rest

  abbrev pub contains_key : K → Map K V → Bool
  contains_key k m = is_some (get k m)

  -- a change through `get_mut`, `iter_mut` or `values_mut`
  unfoldable pub modify : K → (V → V) → Map K V → Map K V
  modify k f [] = []
  modify k f ((j, v) ∷ m) = if j == k then (j, f v) ∷ m else (j, v) ∷ modify k f m

  -- `collect`: of two entries with one key the later counts
  unfoldable pub extend : Map K V → List (K × V) → Map K V
  extend m [] = m
  extend m ((k, v) ∷ l) = extend (insert k v m) l

  abbrev pub collect : List (K × V) → Map K V
  collect l = extend [] l

module _ {ℓ κ} {K : Type ℓ} {V : Type κ} where
  unfoldable pub map_values : (K → V → V) → Map K V → Map K V
  map_values f [] = []
  map_values f ((k, v) ∷ m) = (k, f k v) ∷ map_values f m
