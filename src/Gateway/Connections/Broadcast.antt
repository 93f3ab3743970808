-- ===== src/Gateway/Connections/Broadcast.antt =====
-- crates/gateway/src/tcp/connections.rs: whom a broadcast reaches.
use longship_x.Prelude.{
  ℕ, suc, ◌≡◌, refl, ap, ◌∙◌, inl, inr, Bool, false, Option, none, some, ok, is_ok, List, [], ◌∷◌,
  any, contains, Distinct, Option-cases, if◌then◌else◌, nat_eq, ◌==◌, nat_beq_iff, arith,
}
use longship_x.Prelude.Map.{lookup, values, lookup-insert}
use longship_x.Channel.{Mpsc, Watch}
use longship_x.Net.Codec.{Frame}
use longship_x.Net.Backpressure.{OutboundSender, try_send_frame}
use longship_x.Protocol.Generated.{Schema}
use longship_x.Protocol.Messages.{OutboundMessage, game_encode}
use longship_x.Gateway.Connections.{
  ConnectionRegistry, SenderId, Senders, present, offer, offer_all, broadcast,
}

-- A connection's entry has this sender; one that drains has none.
abbrev pub is_sender : SenderId → Option SenderId → Bool
is_sender j none = false
is_sender j (some k) = k == j

-- No sender is registered twice.
abbrev pub Apart : List (Option SenderId) → Type 0
Apart [] = Unit {0}
Apart (none ∷ os) = Apart os
Apart (some k ∷ os) = (any (is_sender k) os ≡ false) × Apart os

module _ (m : Mpsc Frame) (wt : Watch) where
  -- What one sender makes of a frame, and whether it took it.
  abbrev pub after_offer : Frame → Option (OutboundSender m wt) → Option (OutboundSender m wt)
  after_offer frame none = none
  after_offer frame (some s) = some (try_send_frame m wt s frame).1

  abbrev pub takes : Frame → Option (OutboundSender m wt) → Bool
  takes frame none = false
  takes frame (some s) = is_ok (try_send_frame m wt s frame).0

  -- How many of the senders take the frame.
  abbrev pub takers : Frame → List SenderId → Senders m wt → ℕ
  takers frame [] senders = 0
  takers frame (k ∷ ks) senders =
      let rest = takers frame ks senders in
      if takes frame (lookup k senders) then suc rest else rest

  -- How many of what is registered have a sender that takes it.
  abbrev pub takers_among : Frame → List (Option SenderId) → Senders m wt → ℕ
  takers_among frame [] senders = 0
  takers_among frame (o ∷ os) senders =
      let rest = takers_among frame os senders in
      let taken : Bool = elim o [ none ↦ false | some k ↦ takes frame (lookup k senders) ] in
      if taken then suc rest else rest

  lookup-offer :
      (frame : Frame) (k j : SenderId) (senders : Senders m wt)
      → lookup j (offer m wt frame k senders).1
        ≡ (if k == j then after_offer frame (lookup j senders) else lookup j senders)
  unfolding offer
  lookup-offer frame k j senders = elim (Option-cases (lookup k senders)) [
    | inl missing ↦ rw (missing, offer) (ground (arith, missing, nat_beq_iff k j))
    | inr (s, there) ↦
        rw (there, offer)
          (ground (
            arith,
            there,
            nat_beq_iff k j,
            lookup-insert k j (try_send_frame m wt s frame).1 senders,
          ))
  ]

  offer-takes :
      (frame : Frame) (k : SenderId) (senders : Senders m wt)
      → (offer m wt frame k senders).0 ≡ takes frame (lookup k senders)
  unfolding offer
  offer-takes frame k senders = elim (Option-cases (lookup k senders)) [
    | inl missing ↦ rw (missing, offer) refl
    | inr (s, there) ↦ rw (there, offer) refl
  ]

  -- Senders that are not offered the frame count as before.
  takers-offer :
      (frame : Frame) (k : SenderId) (ks : List SenderId) (senders : Senders m wt)
      → contains ks k ≡ false
      → takers frame ks (offer m wt frame k senders).1 ≡ takers frame ks senders
  takers-offer frame k [] senders h = refl
  takers-offer frame k (j ∷ ks) senders h =
      let differs : (k == j) ≡ false = ground (arith, h, nat_beq_iff k j) in
      let same : lookup j (offer m wt frame k senders).1 ≡ lookup j senders =
        lookup-offer frame k j senders ∙ rw differs refl in
      rw (same, takers-offer frame k ks senders (ground (arith, h))) refl

  pub lookup-offer_all :
      (frame : Frame) (ks : List SenderId) (j : SenderId) (senders : Senders m wt)
      → Distinct ks
      → lookup j (offer_all m wt frame ks senders).1
        ≡ (if contains ks j then after_offer frame (lookup j senders) else lookup j senders)
  unfolding offer_all
  lookup-offer_all frame [] j senders d = refl
  lookup-offer_all frame (k ∷ ks) j senders d =
      let senders' = (offer m wt frame k senders).1 in
      let ih = lookup-offer_all frame ks j senders' d.1 in
      let here = lookup-offer frame k j senders in ground (arith, ih, here, d.0, nat_beq_iff k j)

  pub offer_all-takers :
      (frame : Frame) (ks : List SenderId) (senders : Senders m wt)
      → Distinct ks
      → (offer_all m wt frame ks senders).0 ≡ takers frame ks senders
  unfolding offer_all
  offer_all-takers frame [] senders d = refl
  offer_all-takers frame (k ∷ ks) senders d =
      let ih = offer_all-takers frame ks (offer m wt frame k senders).1 d.1 in
      rw (ih, takers-offer frame k ks senders d.0, offer-takes frame k senders) refl

  -- The senders among what is registered, seen without their list.
  present-contains :
      (os : List (Option SenderId)) (j : SenderId) → contains (present os) j ≡ any (is_sender j) os
  present-contains [] j = refl
  present-contains (none ∷ os) j = present-contains os j
  present-contains (some k ∷ os) j = ground (arith, present-contains os j)

  Apart-Distinct : (os : List (Option SenderId)) → Apart os → Distinct (present os)
  Apart-Distinct [] d = tt
  Apart-Distinct (none ∷ os) d = Apart-Distinct os d
  Apart-Distinct (some k ∷ os) d = (present-contains os k ∙ d.0, Apart-Distinct os d.1)

  takers-takers_among :
      (frame : Frame) (os : List (Option SenderId)) (senders : Senders m wt)
      → takers frame (present os) senders ≡ takers_among frame os senders
  takers-takers_among frame [] senders = refl
  takers-takers_among frame (none ∷ os) senders = takers-takers_among frame os senders
  takers-takers_among frame (some k ∷ os) senders =
      ground (arith, takers-takers_among frame os senders)

  -- Where no sender is registered for two connections, a broadcast offers its frame to every sender that
  -- is registered for a connection that does not drain, once, and to no other: those queues are as
  -- after one offer, all others as before, and the number that it returns is the number of the
  -- connections whose senders took the frame.
  pub broadcast-lookup :
      (s : Schema) (r : ConnectionRegistry) (message : OutboundMessage) (frame : Frame)
      (senders : Senders m wt)
      → game_encode s message ≡ ok frame
      → Apart (values r.conns)
      → ((broadcast m wt s r message senders).0 ≡ takers_among frame (values r.conns) senders)
        × ((j : SenderId)
            → lookup j (broadcast m wt s r message senders).1 ≡ (
                if any (is_sender j) (values r.conns)
                then after_offer frame (lookup j senders)
                else lookup j senders))
  unfolding broadcast
  broadcast-lookup s r message frame senders encoded d =
      let os = values r.conns in
      let ks = present os in
      let apart = Apart-Distinct os d in
      rw (encoded, broadcast)
        (
          offer_all-takers frame ks senders apart ∙ takers-takers_among frame os senders,
          λ j.
              lookup-offer_all frame ks j senders apart
              ∙ ap (λ b. if b then after_offer frame (lookup j senders) else lookup j senders)
                  (present-contains os j),
        )
