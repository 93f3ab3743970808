-- ===== src/Domain/Room/Members.antt =====
-- The members of a room: capacity, no player twice, and what joining and leaving do.
use longship_x.Prelude.{
  ℕ, ◌≤◌, ◌<◌, ◌≡◌, refl, inl, inr, Bool, true, false, not, ok, err, List, [], ◌∷◌, ◌++◌, length,
  length-append, length-retain-le, retain, contains, Distinct, arith, Bool-cases, nat_eq, ◌==◌,
  if◌then◌else◌, ◌⊎◌,
}
use longship_x.Domain.Error.{room_closed, RoomId, PlayerId, DateTime}
use longship_x.Domain.Room.{Room, open_room, member_count, is_closed, try_join, try_leave}

abbrev pub others : PlayerId → ℕ → Bool
others player member = not (member == player)

-- Capacity at least one, never exceeded, and no player twice.
pub record IsValid (r : Room) : Type 0 where
  pub positive : 1 ≤ r.max_players
  pub bounded : member_count r ≤ r.max_players
  pub distinct : Distinct r.members

pub contains-append :
    (xs : List ℕ) (p q : ℕ) → contains (xs ++ p ∷ []) q ≡ true → (contains xs q ≡ true) ⊎ (p ≡ q)
contains-append [] p q h = ground arith
contains-append (x ∷ xs) p q h = ground (arith, contains-append xs p q)

pub contains-append_self : (xs : List ℕ) (p : ℕ) → contains (xs ++ p ∷ []) p ≡ true
contains-append_self [] p = ground arith
contains-append_self (x ∷ xs) p = ground (arith, contains-append_self xs p)

Distinct-append :
    (xs : List ℕ) (p : ℕ) → Distinct xs → contains xs p ≡ false → Distinct (xs ++ p ∷ [])
Distinct-append [] p d h = (refl, tt)
Distinct-append (x ∷ xs) p d h = ground (arith, Distinct-append xs p d.1, contains-append xs p x)

absent-retain :
    (keep : ℕ → Bool) (xs : List ℕ) (q : ℕ)
    → contains xs q ≡ false
    → contains (retain keep xs) q ≡ false
absent-retain keep [] q h = refl
absent-retain keep (x ∷ xs) q h = ground (arith, absent-retain keep xs q)

Distinct-retain : (keep : ℕ → Bool) (xs : List ℕ) → Distinct xs → Distinct (retain keep xs)
Distinct-retain keep [] d = tt
Distinct-retain keep (x ∷ xs) d =
    ground (arith, Distinct-retain keep xs d.1, absent-retain keep xs x)

pub retain_absent : (p : ℕ) (xs : List ℕ) → contains xs p ≡ false → retain (others p) xs ≡ xs
retain_absent p [] h = refl
retain_absent p (x ∷ xs) h = ground (arith, retain_absent p xs)

pub retain_append_self :
    (p : ℕ) (xs : List ℕ) → contains xs p ≡ false → retain (others p) (xs ++ p ∷ []) ≡ xs
retain_append_self p [] h = ground arith
retain_append_self p (x ∷ xs) h = ground (arith, retain_append_self p xs)

pub open_room-IsValid : (id : RoomId) (cap : ℕ) (now : DateTime) → IsValid (open_room id cap now)
unfolding open_room
open_room-IsValid id cap now = record {
  positive = omega arith;
  bounded = omega arith;
  distinct = tt;
}

pub try_join-IsValid : (r : Room) (p : PlayerId) → IsValid r → IsValid (try_join r p).1
unfolding try_join
try_join-IsValid r p v =
    ground (arith, Distinct-append r.members p v.distinct, length-append r.members (p ∷ []))

pub try_leave-IsValid : (r : Room) (p : PlayerId) → IsValid r → IsValid (try_leave r p).1
unfolding try_leave
try_leave-IsValid r p v =
    ground (
      arith,
      Distinct-retain (others p) r.members v.distinct,
      length-retain-le (others p) r.members,
    )

contains-retain :
    (xs : List ℕ) (p q : ℕ)
    → contains (retain (others p) xs) q ≡ (if q == p then false else contains xs q)
contains-retain [] p q = ground arith
contains-retain (x ∷ xs) p q = ground (arith, contains-retain xs p q)

length-retain-others :
    (p : ℕ) (xs : List ℕ) → contains xs p ≡ true → length (retain (others p) xs) < length xs
length-retain-others p [] h = cc
length-retain-others p (x ∷ xs) h =
    ground (arith, length-retain-others p xs, length-retain-le (others p) xs)

-- Leaving a room that is not closed answers whether the player was a member, takes exactly that
-- player out, and leaves every other membership as it was.
pub try_leave-contains :
    (r : Room) (p q : PlayerId)
    → is_closed r ≡ false
    → let (out, r') = try_leave r p in
      (out ≡ ok (contains r.members p))
      × (contains r'.members q ≡ (if q == p then false else contains r.members q))
unfolding try_leave
try_leave-contains r p q h =
    let rest = contains-retain r.members p q in
    elim (Bool-cases (contains r.members p)) [
      | inl member ↦ ground (arith, rest, length-retain-others p r.members member)
      | inr absent ↦ ground (arith, rest, retain_absent p r.members absent)
    ]

-- A player who has just joined is a member, and on leaving gives back the very room that was there
-- before.
pub try_leave-try_join :
    (r : Room) (p : PlayerId)
    → (try_join r p).0 ≡ ok true
    → (contains (try_join r p).1.members p ≡ true) × (try_leave (try_join r p).1 p ≡ (ok true, r))
unfolding try_join try_leave
try_leave-try_join r p h = ground (
  arith,
  contains-append_self r.members p,
  retain_append_self p r.members,
  length-append r.members (p ∷ []),
)

-- `try_leave` by a membership test in place of the lengths that it compares.
pub try_leave_lem :
    (r : Room) (p : PlayerId)
    → try_leave r p ≡ (
        if is_closed r
        then (err (room_closed r.id), r)
        else if contains r.members p
        then (ok true, record r { members = retain (others p) r.members })
        else (ok false, r))
unfolding try_leave
try_leave_lem r p = elim (Bool-cases (contains r.members p)) [
  | inl member ↦ ground (arith, length-retain-others p r.members member)
  | inr absent ↦ ground (arith, retain_absent p r.members absent)
]
