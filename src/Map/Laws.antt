-- ===== src/Map/Laws.antt =====
-- What a lookup finds after each operation on a map.
use mathlib.Core.Option
use polixy.Prelude.{◌≡◌, refl, none, some, [], ◌∷◌, arith, Eq, ◌==◌, if◌then◌else◌, ==_refl}
use polixy.Map.{Map, get, insert, remove, modify, map_values}

module _ {ℓ κ} {K : Type ℓ} {V : Type κ} ⦃e : Eq K⦄ where
  pub get-insert :
      (k j : K) (v : V) (m : Map K V) → get j (insert k v m) ≡ (if k == j then some v else get j m)
  unfolding get insert
  get-insert k j v [] = refl
  get-insert k j v ((i, w) ∷ m) =
      ground (arith, e.beq_iff k j, e.beq_iff i k, e.beq_iff i j, get-insert k j v m)

  pub get-insert_self : (k : K) (v : V) (m : Map K V) → get k (insert k v m) ≡ some v
  get-insert_self k v m = rw (get-insert, ==_refl)

  pub get-remove : (k j : K) (m : Map K V) → get j (remove k m) ≡ (if k == j then none else get j m)
  unfolding get remove
  get-remove k j [] = ground arith
  get-remove k j ((i, w) ∷ m) =
      ground (arith, e.beq_iff k j, e.beq_iff i k, e.beq_iff i j, get-remove k j m)

  pub get-modify :
      (k j : K) (f : V → V) (m : Map K V)
      → get j (modify k f m) ≡ (if k == j then Option.map f (get j m) else get j m)
  unfolding get modify
  get-modify k j f [] = ground arith
  get-modify k j f ((i, w) ∷ m) =
      ground (arith, e.beq_iff k j, e.beq_iff i k, e.beq_iff i j, get-modify k j f m)

  pub get-map_values :
      (k : K) (f : K → V → V) (m : Map K V) → get k (map_values f m) ≡ Option.map (f k) (get k m)
  unfolding get map_values
  get-map_values k f [] = refl
  get-map_values k f ((i, w) ∷ m) = ground (arith, e.beq_iff i k, get-map_values k f m)
