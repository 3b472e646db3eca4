-- ===== src/Watch/Laws.antt =====
-- What a receiver reads after each operation on a channel.
use polixy.Prelude.{ℕ, ◌≡◌, refl, ◌==◌, nat_eq, if◌then◌else◌}
use polixy.Watch.{Channels, channel, send, borrow}

module _ {ℓ} {A : Type ℓ} (a : A) (c : Channels A) where
  pub borrow-send : (i j : ℕ) → borrow j (send i a c) ≡ (if i == j then a else borrow j c)
  unfolding borrow send
  borrow-send i j = refl

  pub borrow-channel : (j : ℕ) → borrow j (channel a c).1 ≡ (if c.next == j then a else borrow j c)
  unfolding borrow channel
  borrow-channel j = refl
