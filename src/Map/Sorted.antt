-- ===== src/Map/Sorted.antt =====
-- `BTreeMap` with text keys: the entries stand in the order of their keys.
pub mod Order
use Prim.Native.Nat.{Ordering}
use Prim.Native.String.{compare}
use polixy.Prelude.{
  String, ◌≡◌, refl, some, List, [], ◌∷◌, arith, ◌==◌, if◌then◌else◌, or_else, string_eq,
}
use polixy.Map.{Map, get}
use polixy.Map.Keys.{Distinct}

module _ {κ} {V : Type κ} where
  unfoldable pub insert : String → V → Map String V → Map String V
  insert k v [] = (k, v) ∷ []
  insert k v ((j, w) ∷ m) = elim (compare k j) [
    | Ordering.lt ↦ (k, v) ∷ (j, w) ∷ m
    | Ordering.eq ↦ (k, v) ∷ m
    | Ordering.gt ↦ (j, w) ∷ insert k v m
  ]

  unfoldable pub extend : Map String V → List (String × V) → Map String V
  extend m [] = m
  extend m ((k, v) ∷ l) = extend (insert k v m) l

  abbrev pub collect : List (String × V) → Map String V
  collect l = extend [] l

  pub get-insert :
      (k j : String) (v : V) (m : Map String V)
      → get j (insert k v m) ≡ (if k == j then some v else get j m)
  unfolding get insert
  get-insert k j v [] = refl
  get-insert k j v ((i, w) ∷ m) = ground (
    arith,
    string_eq.beq_iff k j,
    string_eq.beq_iff k i,
    string_eq.beq_iff i j,
    get-insert k j v m,
  )

  -- what a map with the entries of `l`, whose keys are distinct, has beside its own
  get-extend :
      (j : String) (m : Map String V) (l : List (String × V))
      → Distinct l
      → get j (extend m l) ≡ or_else (get j l) (get j m)
  unfolding get extend
  get-extend j m [] d = refl
  get-extend j m ((k, v) ∷ l) d =
      ground (arith, get-extend j (insert k v m) l, get-insert k j v m, string_eq.beq_iff k j)

  pub get-collect : (j : String) (l : List (String × V)) → Distinct l → get j (collect l) ≡ get j l
  unfolding get
  get-collect j l d = ground (arith, get-extend j [] l)
