-- ===== src/Watch/Moves.antt =====
-- What becomes of open channels: their versions count the sends, and their values are what was sent.
use polixy.Prelude.{ℕ, ◌≡◌, ◌≤◌, ◌<◌, ◌==◌, nat_eq, refl, ◌∙◌, arith, inl, inr, Bool-cases}
use polixy.Watch.{Channels, channel, send, borrow}

-- A channel that was open has as many sends as before and the value of before, or more sends; and if
-- `P` holds of all values, it does so still.
pub record Moves {ℓ} {A : Type ℓ} (P : A → Type 0) (c c' : Channels A) : Type ℓ where
  pub grows : c.next ≤ c'.next
  pub versions : (i : ℕ) → i < c.next → c.version i ≤ c'.version i
  pub unsent : (i : ℕ) → i < c.next → c'.version i ≡ c.version i → borrow i c' ≡ borrow i c
  pub sound : ((i : ℕ) → P (borrow i c)) → (i : ℕ) → P (borrow i c')

module _ {ℓ} {A : Type ℓ} (P : A → Type 0) where
  pub Moves-refl : (c : Channels A) → Moves P c c
  Moves-refl c = record {
    grows = omega arith;
    versions = λ i l. omega arith;
    unsent = λ i l e. refl;
    sound = λ h i. h i;
  }

  pub Moves-trans : (a b c : Channels A) → Moves P a b → Moves P b c → Moves P a c
  Moves-trans a b c m n = record {
    grows = omega (arith, m.grows, n.grows);
    versions = λ i l. omega (arith, m.versions i l, n.versions i (omega (arith, m.grows)));
    unsent = λ i l e.
        let l' : i < b.next = omega (arith, m.grows) in
        let up = m.versions i l in
        let up' = n.versions i l' in n.unsent i l' (omega arith) ∙ m.unsent i l (omega arith);
    sound = λ h. n.sound (m.sound h);
  }

  pub Moves-send :
      (i : ℕ) (a : A) (c : Channels A) → (((j : ℕ) → P (borrow j c)) → P a) → Moves P c (send i a c)
  unfolding send borrow
  Moves-send i a c p = record {
    grows = omega arith;
    versions = λ j l. ground arith;
    unsent = λ j l e. ground arith;
    sound = λ h j. elim (Bool-cases (i == j)) [ inl e ↦ rw e (p h) | inr e ↦ rw e (h j) ];
  }

  pub Moves-channel : (a : A) (c : Channels A) → P a → Moves P c (channel a c).1
  unfolding channel borrow
  Moves-channel a c p = record {
    grows = omega arith;
    versions = λ j l. ground arith;
    unsent = λ j l e. ground arith;
    sound = λ h j. elim (Bool-cases (c.next == j)) [ inl e ↦ rw e p | inr e ↦ rw e (h j) ];
  }

  -- what holds of the channels alone
  pub Moves-any : (c c' : Channels A) → Moves P c c' → Moves (λ a. Unit {0}) c c'
  Moves-any c c' m = record {
    grows = m.grows;
    versions = m.versions;
    unsent = m.unsent;
    sound = λ h i. tt;
  }
