-- ===== src/Map/Values.antt =====
-- What holds of every value of a map.
use mathlib.Core.Option.{some-injective}
use polixy.Prelude.{◌≡◌, subst, some, [], inl, inr, arith, Eq, ◌==◌, Bool-cases}
use polixy.Map.{Map, get, insert, remove}
use polixy.Map.Laws.{get-insert, get-remove}

pub record Each {ℓ κ μ} {K : Type ℓ} {V : Type κ} ⦃e : Eq K⦄ (P : V → Type μ) (m : Map K V)
    : Type (ℓ ⊔ κ ⊔ μ) where
  pub at : (k : K) (v : V) → get k m ≡ some v → P v

module _ {ℓ κ μ} {K : Type ℓ} {V : Type κ} ⦃e : Eq K⦄ {P : V → Type μ} where
  pub empty-Each : Each {K = K} P []
  empty-Each = record { at = λ k v h. unfold get in cc }

  pub insert-Each : (k : K) (v : V) {m : Map K V} → Each P m → P v → Each P (insert k v m)
  insert-Each k v {m} each p = record {
    at = λ j w h.
        let found = get-insert k j v m in
        elim (Bool-cases (k == j)) [
          | inl here ↦
              let q : some v ≡ some w = ground (arith, found) in subst P (some-injective v w q) p
          | inr other ↦ each.at j w (ground (arith, found))
        ];
  }

  pub remove-Each : (k : K) {m : Map K V} → Each P m → Each P (remove k m)
  remove-Each k {m} each = record { at = λ j w h. each.at j w (ground (arith, get-remove k j m)) }
