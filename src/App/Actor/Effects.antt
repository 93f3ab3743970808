-- ===== src/App/Actor/Effects.antt =====
-- Reading a list of effects: the replies in it, and whose sinks get which event.
use longship_x.Prelude.{
  ◌≡◌, refl, ap, Bool, true, false, Option, none, some, Result, ok, err, is_ok, List, [], ◌∷◌, ◌++◌,
  map, if◌then◌else◌, nat_eq,
}
use longship_x.Prelude.Map.{Map, values, lookup}
use longship_x.Prelude.Text.{Text}
use longship_x.Domain.Error.{PlayerId, RoomId}
use longship_x.App.Sink.{RoomEvent, member_joined, member_left, chat, closed}
use longship_x.App.Actor.{
  RoomActor, Member, SinkId, ReplyId, Effect, reply_join, reply_leave, deliver, set_closed,
  broadcast,
}

-- A reply: to a join, whether it succeeded; to a leave, what it answered if it succeeded.
pub data Answer : Type 0 where
  joined : ReplyId → Bool → Answer
  left : ReplyId → Option Bool → Answer

abbrev pub ok_value : {E : Type 0} → Result Bool E → Option Bool
ok_value (ok b) = some b
ok_value (err e) = none

unfoldable pub answers : List Effect → List Answer
answers [] = []
answers (reply_join r out ∷ es) = joined r (is_ok out) ∷ answers es
answers (reply_leave r out ∷ es) = left r (ok_value out) ∷ answers es
answers (deliver s e ∷ es) = answers es
answers (set_closed ∷ es) = answers es

-- The sinks that get a `Closed` event.
unfoldable pub closed_to : List Effect → List SinkId
closed_to [] = []
closed_to (deliver s (closed id reason) ∷ es) = s ∷ closed_to es
closed_to (_ ∷ es) = closed_to es

-- A chat message as it is told: in which room, by whom, and what.
pub record Saying : Type 0 where
  pub room : RoomId
  pub sender : PlayerId
  pub nickname : Text
  pub message : Text

-- The sinks that get a `Chat` event, and what it says.
unfoldable pub chat_to : List Effect → List (SinkId × Saying)
chat_to [] = []
chat_to (deliver s (chat id sender nickname message) ∷ es) =
    (s, record { room = id; sender = sender; nickname = nickname; message = message }) ∷ chat_to es
chat_to (_ ∷ es) = chat_to es

abbrev pub sinks : Map PlayerId Member → List SinkId
sinks [] = []
sinks ((player, member) ∷ ms) = member.sink ∷ sinks ms

abbrev pub deliveries : RoomEvent → List Member → List Effect
deliveries event = map (λ (member : Member). deliver member.sink event)

pub answers-append : (xs ys : List Effect) → answers (xs ++ ys) ≡ answers xs ++ answers ys
unfolding answers
answers-append [] ys = refl
answers-append (reply_join r out ∷ xs) ys =
    ap (λ l. joined r (is_ok out) ∷ l) (answers-append xs ys)
answers-append (reply_leave r out ∷ xs) ys =
    ap (λ l. left r (ok_value out) ∷ l) (answers-append xs ys)
answers-append (deliver s e ∷ xs) ys = answers-append xs ys
answers-append (set_closed ∷ xs) ys = answers-append xs ys

pub closed_to-append : (xs ys : List Effect) → closed_to (xs ++ ys) ≡ closed_to xs ++ closed_to ys
unfolding closed_to
closed_to-append [] ys = refl
closed_to-append (reply_join r out ∷ xs) ys = closed_to-append xs ys
closed_to-append (reply_leave r out ∷ xs) ys = closed_to-append xs ys
closed_to-append (deliver s (member_joined id p n) ∷ xs) ys = closed_to-append xs ys
closed_to-append (deliver s (member_left id p) ∷ xs) ys = closed_to-append xs ys
closed_to-append (deliver s (chat id p n t) ∷ xs) ys = closed_to-append xs ys
closed_to-append (deliver s (closed id r) ∷ xs) ys = ap (λ l. s ∷ l) (closed_to-append xs ys)
closed_to-append (set_closed ∷ xs) ys = closed_to-append xs ys

pub answers-deliveries : (event : RoomEvent) (ms : List Member) → answers (deliveries event ms) ≡ []
unfolding answers
answers-deliveries event [] = refl
answers-deliveries event (m ∷ ms) = answers-deliveries event ms

abbrev pub is_closed_event : RoomEvent → Bool
is_closed_event (closed id reason) = true
is_closed_event (member_joined id p n) = false
is_closed_event (member_left id p) = false
is_closed_event (chat id p n t) = false

pub closed_to-deliveries :
    (event : RoomEvent) (ms : Map PlayerId Member)
    → closed_to (deliveries event (values ms)) ≡ (if is_closed_event event then sinks ms else [])
unfolding closed_to
closed_to-deliveries (closed id r) [] = refl
closed_to-deliveries (member_joined id p n) [] = refl
closed_to-deliveries (member_left id p) [] = refl
closed_to-deliveries (chat id p n t) [] = refl
closed_to-deliveries (closed id r) ((q, m) ∷ ms) =
    ap (λ l. m.sink ∷ l) (closed_to-deliveries (closed id r) ms)
closed_to-deliveries (member_joined id p n) ((q, m) ∷ ms) =
    closed_to-deliveries (member_joined id p n) ms
closed_to-deliveries (member_left id p) ((q, m) ∷ ms) = closed_to-deliveries (member_left id p) ms
closed_to-deliveries (chat id p n t) ((q, m) ∷ ms) = closed_to-deliveries (chat id p n t) ms

-- The same words for every sink.
abbrev pub each : Saying → List SinkId → List (SinkId × Saying)
each saying [] = []
each saying (s ∷ ss) = (s, saying) ∷ each saying ss

pub chat_to-deliveries :
    (saying : Saying) (ms : Map PlayerId Member)
    → chat_to
        (deliveries (chat saying.room saying.sender saying.nickname saying.message) (values ms))
      ≡ each saying (sinks ms)
unfolding chat_to
chat_to-deliveries saying [] = refl
chat_to-deliveries saying ((q, m) ∷ ms) =
    ap (λ l. (m.sink, saying) ∷ l) (chat_to-deliveries saying ms)

-- The name under which a member is known to the actor.
abbrev pub nickname_of : RoomActor → PlayerId → Text
nickname_of a player = elim (lookup player a.members) [ none ↦ [] | some member ↦ member.nickname ]

pub answers-broadcast : (a : RoomActor) (event : RoomEvent) → answers (broadcast a event) ≡ []
unfolding broadcast
answers-broadcast a event = answers-deliveries event (values a.members)

pub closed_to-broadcast :
    (a : RoomActor) (event : RoomEvent)
    → closed_to (broadcast a event) ≡ (if is_closed_event event then sinks a.members else [])
unfolding broadcast
closed_to-broadcast a event = closed_to-deliveries event a.members
