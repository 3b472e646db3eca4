-- ===== src/Map/Keys.antt =====
-- The keys of a map: which there are, and that each has one entry.
use polixy.Prelude.{
  ◌≡◌, refl, false, or_else, List, [], ◌∷◌, inl, inr, arith, Eq, ◌==◌, contains, is_some,
  Bool-cases,
}
use polixy.Map.{Map, keys, get, insert, remove, modify, contains_key, extend, collect}
use polixy.Map.Laws.{get-insert, get-remove}

module _ {ℓ κ} {K : Type ℓ} {V : Type κ} ⦃e : Eq K⦄ where
  pub contains-keys : (k : K) (m : Map K V) → contains (keys m) k ≡ is_some (get k m)
  unfolding get
  contains-keys k [] = refl
  contains-keys k ((j, v) ∷ m) = ground (arith, contains-keys k m)

  pub keys-modify : (k : K) (f : V → V) (m : Map K V) → keys (modify k f m) ≡ keys m
  unfolding modify
  keys-modify k f [] = refl
  keys-modify k f ((j, v) ∷ m) = ground (arith, keys-modify k f m)

  -- no key has two entries
  abbrev pub Distinct : Map K V → Type 0
  Distinct [] = Unit
  Distinct ((k, v) ∷ m) = (contains_key k m ≡ false) × Distinct m

  pub insert-Distinct : (k : K) (v : V) (m : Map K V) → Distinct m → Distinct (insert k v m)
  unfolding insert
  insert-Distinct k v [] d = unfold get in (refl, tt)
  insert-Distinct k v ((j, w) ∷ m) d = elim (Bool-cases (j == k)) [
    | inl here ↦ rw here (rw (← (e.beq_iff j k).0 here) d)
    | inr other ↦ rw other (
      ground (arith, get-insert k j v m, e.beq_iff k j, e.beq_iff j k),
      insert-Distinct k v m d.1,
    )
  ]

  pub remove-Distinct : (k : K) (m : Map K V) → Distinct m → Distinct (remove k m)
  unfolding remove
  remove-Distinct k [] d = tt
  remove-Distinct k ((j, w) ∷ m) d = elim (Bool-cases (j == k)) [
    | inl here ↦ rw here (remove-Distinct k m d.1)
    | inr other ↦ rw other (ground (arith, get-remove k j m), remove-Distinct k m d.1)
  ]

  get-extend :
      (j : K) (m : Map K V) (l : List (K × V))
      → Distinct l
      → get j (extend m l) ≡ or_else (get j l) (get j m)
  unfolding get extend
  get-extend j m [] d = refl
  get-extend j m ((k, v) ∷ l) d =
      ground (arith, get-extend j (insert k v m) l, get-insert k j v m, e.beq_iff k j)

  -- A map collected from entries with distinct keys has those entries.
  pub get-collect : (j : K) (l : List (K × V)) → Distinct l → get j (collect l) ≡ get j l
  unfolding get
  get-collect j l d = ground (arith, get-extend j [] l)
