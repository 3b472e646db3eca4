-- ===== src/Watch.antt =====
-- Tokio's `watch` channels as cells of a store. A sender and its receivers share the number of the
-- cell; a receiver reads what was sent last. The version counts the sends, for `changed`.
pub mod Laws
pub mod Moves
use polixy.Prelude.{ℕ, Bool, not, ◌+◌, ◌==◌, nat_eq, if◌then◌else◌}

pub record Channels {ℓ} (A : Type ℓ) : Type ℓ where
  pub value : ℕ → A
  pub version : ℕ → ℕ
  pub next : ℕ

abbrev pub update {ℓ} : {A : Type ℓ} → (ℕ → A) → ℕ → A → ℕ → A
update f i a j = if i == j then a else f j

module _ {ℓ} {A : Type ℓ} where
  -- no channel is open yet
  unfoldable pub new : A → Channels A
  new a = record { value = λ i. a; version = λ i. 0; next = 0 }

  -- `watch::channel(a)`: the number of the new channel
  unfoldable pub channel : A → Channels A → ℕ × Channels A
  channel a c = (
    c.next,
    record c {
      value = update c.value c.next a;
      version = update c.version c.next 0;
      next = c.next + 1;
    },
  )

  unfoldable pub send : ℕ → A → Channels A → Channels A
  send i a c = record c {
    value = update c.value i a;
    version = update c.version i (c.version i + 1);
  }

  unfoldable pub borrow : ℕ → Channels A → A
  borrow i c = c.value i

-- `watch::Receiver`: the channel, and the version that it has seen
pub record Receiver : Type 0 where
  pub chan : ℕ
  pub seen : ℕ

-- `clone()` of a receiver that has seen no send
abbrev pub subscribe : ℕ → Receiver
subscribe i = record { chan = i; seen = 0 }

module _ {ℓ} {A : Type ℓ} where
  -- whether `changed()` is ready with `Ok`
  unfoldable pub has_changed : Receiver → Channels A → Bool
  has_changed r c = not (r.seen == c.version r.chan)

  -- what `changed()` and `borrow_and_update()` leave
  unfoldable pub mark_seen : Receiver → Channels A → Receiver
  mark_seen r c = record r { seen = c.version r.chan }
