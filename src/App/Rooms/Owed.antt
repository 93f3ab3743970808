-- ===== src/App/Rooms/Owed.antt =====
-- crates/application/src/room: what every interleaving of calls and tasks keeps true of the tasks and of
-- the reply channels.
pub mod Steps
pub mod Advance
pub mod Always
pub mod Waiting
use longship_x.Prelude.{
  ◌≢◌, ℕ, suc, ◌+◌, ◌<◌, ◌≡◌, refl, sym, ◌∙◌, ap, subst, ◌⊎◌, inl, inr, Bool, true, false, ◌||◌,
  Option, none, some, is_some, List, [], ◌∷◌, ◌++◌, contains, Bool-cases, Option-cases,
  if◌then◌else◌, ltb, length, nat_eq, ◌==◌, arith,
}
use longship_x.Prelude.Map.{Map, lookup, insert, lookup-insert}
use longship_x.Domain.Error.{RoomId}
use longship_x.App.Error.{AppError}
use longship_x.App.Actor.{RoomCommand, join, say, leave, shut, ReplyId}
use longship_x.App.Rooms.Tasks.{
  Task, Notice, join_reply, leave_reply, dropped, is_gone, queue_command, turn,
}
use longship_x.App.Rooms.Tasks.Turns.{awaits, answered}
use longship_x.App.Rooms.Tasks.Drain.{IsSound, turn-IsSound, turn-answered, queue-IsSound}
use longship_x.App.Rooms.{Slot, awaited, join_done, leave_done, sender_dropped, settle}

abbrev pub Tasks : Type 0
Tasks = Map RoomId Task

abbrev pub Replies : Type 0
Replies = Map ReplyId Slot

-- Some task that has the command still holds the sender of the reply.
abbrev pub Owes : Tasks → ReplyId → Type 0
Owes tasks r =
    (room : RoomId) × (t : Task) × (lookup room tasks ≡ some t)
    × (contains (awaits t.commands) r ≡ true)

pub record Core (tasks : Tasks) (replies : Replies) (next : ℕ) : Type 0 where
  pub sound : (room : RoomId) (t : Task) → lookup room tasks ≡ some t → IsSound t
  pub numbered : (room : RoomId) (t : Task) → lookup room tasks ≡ some t → room < next
  pub owed : (r : ReplyId) → lookup r replies ≡ some awaited → Owes tasks r

pub contains-append :
    (xs ys : List ReplyId) (r : ReplyId) → contains (xs ++ ys) r ≡ (contains xs r || contains ys r)
contains-append [] ys r = refl
contains-append (x ∷ xs) ys r = ground (arith, contains-append xs ys r)

pub awaits-append : (cs ds : List RoomCommand) → awaits (cs ++ ds) ≡ awaits cs ++ awaits ds
awaits-append [] ds = refl
awaits-append (join player nickname sink reply ∷ cs) ds = ap (λ l. reply ∷ l) (awaits-append cs ds)
awaits-append (leave player reason reply ∷ cs) ds = ap (λ l. reply ∷ l) (awaits-append cs ds)
awaits-append (say player message ∷ cs) ds = awaits-append cs ds
awaits-append (shut reason ∷ cs) ds = awaits-append cs ds

-- A lookup in a map with one key replaced.
pub looked_up :
    {A : Type 0} (k j : ℕ) (v : A) (m : Map ℕ A) (x : A)
    → lookup j (insert k v m) ≡ some x
    → ((k == j ≡ true) × (v ≡ x)) ⊎ ((k == j ≡ false) × (lookup j m ≡ some x))
looked_up k j v m x h = elim (Bool-cases (k == j)) [
  | inl same ↦ inl (same, ground (arith, lookup-insert k j v m, h, same))
  | inr other ↦ inr (other, ground (arith, lookup-insert k j v m, h, other))
]

-- A task gives way to one that owes at least the same replies.
pub put-Core :
    (tasks : Tasks) (replies : Replies) (next : ℕ) (room : RoomId) (t t' : Task)
    → Core tasks replies next
    → lookup room tasks ≡ some t
    → IsSound t'
    → ((r : ReplyId)
        → lookup r replies ≡ some awaited
        → contains (awaits t.commands) r ≡ true
        → contains (awaits t'.commands) r ≡ true)
    → Core (insert room t' tasks) replies next
put-Core tasks replies next room t t' core found sound kept = record {
  sound = λ id x h. elim (looked_up room id t' tasks x h) [
    | inl (same, e) ↦ subst (λ y. IsSound y) e sound
    | inr (other, e) ↦ core.sound id x e
  ];
  numbered = λ id x h. elim (looked_up room id t' tasks x h) [
    | inl (same, e) ↦ ground (arith, core.numbered room t found, same)
    | inr (other, e) ↦ core.numbered id x e
  ];
  owed = λ r h.
      let (id, x, there, has) = core.owed r h in
      elim (Bool-cases (room == id)) [
        | inl same ↦ (
          room,
          t',
          ground (arith, lookup-insert room room t' tasks),
          kept r h (ground (arith, same, there, found, has)),
        )
        | inr other ↦ (id, x, ground (arith, lookup-insert room id t' tasks, other, there), has)
      ];
}

-- A reply that is awaited after notices was awaited before them and is in none of them.
abbrev pub StillAwaited : Replies → List Notice → ReplyId → Type 0
StillAwaited m told r = (lookup r m ≡ some awaited) × (contains (answered told) r ≡ false)

settled_one :
    (told : List Notice) (m : Replies) (k : ReplyId) (slot : Slot) (r : ReplyId)
    → slot ≢ awaited
    → StillAwaited (insert k slot m) told r
    → (lookup r m ≡ some awaited) × (contains (k ∷ answered told) r ≡ false)
settled_one told m k slot r other (h, none_told) = elim (looked_up k r slot m awaited h) [
  | inl (same, e) ↦ absurd (other e)
  | inr (differs, e) ↦ (e, ground (arith, differs, none_told))
]

pub settled :
    (told : List Notice) (m : Replies) (r : ReplyId)
    → lookup r (settle told m) ≡ some awaited
    → StillAwaited m told r
settled [] m r h = (h, refl)
settled (join_reply k out ∷ told) m r h =
    settled_one told m k (join_done out) r (λ e. cc) (settled told (insert k (join_done out) m) r h)
settled (leave_reply k out ∷ told) m r h =
    settled_one told m k (leave_done out) r (λ e. cc)
      (settled told (insert k (leave_done out) m) r h)
settled (dropped k ∷ told) m r h =
    settled_one told m k sender_dropped r (λ e. cc) (settled told (insert k sender_dropped m) r h)

pub turn-Core :
    (tasks : Tasks) (replies : Replies) (next : ℕ) (room : RoomId) (t : Task)
    → Core tasks replies next
    → lookup room tasks ≡ some t
    → Core (insert room (turn t).0 tasks) (settle (turn t).1 replies) next
turn-Core tasks replies next room t core found =
    let v = core.sound room t found in
    let told = (turn t).1 in
    let left = (turn t).0.commands in
    put-Core tasks (settle told replies) next room t (turn t).0
      (record {
        sound = core.sound;
        numbered = core.numbered;
        owed = λ r h. core.owed r (settled told replies r h).0;
      })
      found (turn-IsSound t v)
      (λ r h has.
        let split = contains-append (answered told) (awaits left) r in
        let whole = subst (λ l. contains l r ≡ true) (sym (turn-answered t v)) has in
        ground (arith, split, whole, (settled told replies r h).1))

pub queue-Core :
    (tasks : Tasks) (replies : Replies) (next : ℕ) (room : RoomId) (t : Task) (c : RoomCommand)
    → Core tasks replies next
    → lookup room tasks ≡ some t
    → IsSound (queue_command t c)
    → Core (insert room (queue_command t c) tasks) replies next
queue-Core tasks replies next room t c core found sound =
    put-Core tasks replies next room t (queue_command t c) core found sound (λ r h has. ground (
      arith,
      ap (λ l. contains l r) (awaits-append t.commands (c ∷ [])),
      contains-append (awaits t.commands) (awaits (c ∷ [])) r,
      has,
    ))

-- A reply channel is opened whose sender is in some queue.
pub open-Core :
    (tasks : Tasks) (replies : Replies) (next : ℕ)
    → Core tasks replies next
    → Owes tasks next
    → Core tasks (insert next awaited replies) (suc next)
open-Core tasks replies next core owes = record {
  sound = core.sound;
  numbered = λ id x h. omega (arith, core.numbered id x h);
  owed = λ r h. elim (looked_up next r awaited replies awaited h) [
    | inl (same, e) ↦ subst (λ k. Owes tasks k) (ground (arith, same)) owes
    | inr (other, e) ↦ core.owed r e
  ];
}

-- A new task takes a number that no task has.
pub spawn-Core :
    (tasks : Tasks) (replies : Replies) (next : ℕ) (t : Task)
    → Core tasks replies next
    → IsSound t
    → Core (insert next t tasks) replies (suc next)
spawn-Core tasks replies next t core sound = record {
  sound = λ id x h. elim (looked_up next id t tasks x h) [
    | inl (same, e) ↦ subst (λ y. IsSound y) e sound
    | inr (other, e) ↦ core.sound id x e
  ];
  numbered = λ id x h. elim (looked_up next id t tasks x h) [
    | inl (same, e) ↦ ground (arith, same)
    | inr (other, e) ↦ omega (arith, core.numbered id x e)
  ];
  owed = λ r h.
      let (id, x, there, has) = core.owed r h in
      (id, x, ground (arith, lookup-insert next id t tasks, core.numbered id x there, there), has);
}
