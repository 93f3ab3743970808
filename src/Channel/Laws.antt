-- ===== src/Channel/Laws.antt =====
-- What follows from the assumptions on a bounded queue: one receive and one send, on every branch.
use longship_x.Prelude.{
  ◌<◌, ◌≡◌, ◌⊎◌, inl, inr, List, [], ◌∷◌, ◌++◌, length, ltb, arith, Bool-cases, List-cases,
}
use longship_x.Channel.{Mpsc, Bounded, sent, full, closed}

-- What a receive takes: the oldest value, if there is one.
abbrev pub first {ℓ} : {A : Type ℓ} → List A → List A
first [] = []
first (x ∷ xs) = x ∷ []

module _ {A : Type 0} (m : Mpsc A) (b : Bounded m) where
  pub recv_lem :
      (q : m.Queue)
      → (m.is_closed (m.recv q) ≡ m.is_closed q)
        × (m.capacity (m.recv q) ≡ m.capacity q)
        × (first (m.queued q) ++ m.queued (m.recv q) ≡ m.queued q)
  recv_lem q = elim (List-cases (m.queued q)) [
    | inl e ↦ ground (arith, b.recv_empty q e)
    | inr (x, rest, e) ↦ ground (arith, b.recv_first q x rest e)
  ]

  -- The three outcomes of a send.
  pub try_send_cases :
      (q : m.Queue) (x : A)
      → (((m.try_send x q).0 ≡ sent)
          × (m.queued (m.try_send x q).1 ≡ m.queued q ++ x ∷ [])
          × (m.capacity (m.try_send x q).1 ≡ m.capacity q)
          × (length (m.queued q) < m.capacity q))
        ⊎ (m.try_send x q ≡ (full, q))
        ⊎ (m.try_send x q ≡ (closed, q))
  try_send_cases q x = elim (Bool-cases (m.is_closed q)) [
    | inl gone ↦ inr (inr (b.send_closed x q gone))
    | inr live ↦ elim (Bool-cases (ltb (length (m.queued q)) (m.capacity q))) [
      | inl room ↦ let r = b.send_room x q live (ground arith) in inl (r.0, r.1, r.2, ground arith)
      | inr crowded ↦ inr (inl (b.send_full x q live (ground arith)))
    ]
  ]
