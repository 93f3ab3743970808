-- ===== src/Channel.antt =====
-- What the program relies on of tokio's channels, which are not part of the repository: the bounded
-- queue of `mpsc` as its senders and its receiver see it, and the shared flag of `watch`. All clones
-- of a sender share one queue, so a value stands for the queue, not for a clone.
pub mod Laws
pub mod Memory
use longship_x.Prelude.{ℕ, ◌≤◌, ◌<◌, ◌≡◌, Bool, true, false, List, [], ◌∷◌, ◌++◌, length}

-- `Result<(), TrySendError>`.
pub data TrySend : Type 0 where
  sent full closed : TrySend

pub record Mpsc (A : Type 0) : Type 1 where
  pub Queue : Type 0
  pub try_send : A → Queue → TrySend × Queue
  pub recv : Queue → Queue
  pub drop_receiver : Queue → Queue
  pub is_closed : Queue → Bool
  pub queued : Queue → List A
  pub capacity : Queue → ℕ

-- The documented behaviour: a send is refused when the receiver is gone or the queue holds as many
-- values as its capacity, and else appends; the receiver takes the oldest value; a receiver that is
-- dropped takes the values that are queued with it, and its queue stays closed; no call changes the
-- capacity.
pub record Bounded {A : Type 0} (m : Mpsc A) : Type 0 where
  pub send_room :
      (a : A) (q : m.Queue)
      → m.is_closed q ≡ false
      → length (m.queued q) < m.capacity q
      → ((m.try_send a q).0 ≡ sent)
        × (m.queued (m.try_send a q).1 ≡ m.queued q ++ a ∷ [])
        × (m.capacity (m.try_send a q).1 ≡ m.capacity q)
        × (m.is_closed (m.try_send a q).1 ≡ false)
  pub send_full :
      (a : A) (q : m.Queue)
      → m.is_closed q ≡ false
      → m.capacity q ≤ length (m.queued q)
      → m.try_send a q ≡ (full, q)
  pub send_closed : (a : A) (q : m.Queue) → m.is_closed q ≡ true → m.try_send a q ≡ (closed, q)
  pub recv_empty : (q : m.Queue) → m.queued q ≡ [] → m.recv q ≡ q
  pub recv_first :
      (q : m.Queue) (a : A) (rest : List A)
      → m.queued q ≡ a ∷ rest
      → (m.queued (m.recv q) ≡ rest)
        × (m.capacity (m.recv q) ≡ m.capacity q)
        × (m.is_closed (m.recv q) ≡ m.is_closed q)
  pub drop_closes :
      (q : m.Queue)
      → (m.is_closed (m.drop_receiver q) ≡ true)
        × (m.queued (m.drop_receiver q) ≡ [])
        × (m.capacity (m.drop_receiver q) ≡ m.capacity q)

-- `watch::Sender<bool>`: the last value that was sent.
pub record Watch : Type 1 where
  pub Flag : Type 0
  pub send_replace : Bool → Flag → Flag
  pub borrow : Flag → Bool
  pub borrow-send_replace : (b : Bool) (f : Flag) → borrow (send_replace b f) ≡ b
