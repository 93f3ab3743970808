-- ===== src/Channel/Memory.antt =====
-- A channel in memory, which shows that what is assumed of tokio's channels can hold together. The
-- tests run on it.
use longship_x.Prelude.{
  ℕ, ◌≤◌, ◌<◌, ◌≡◌, refl, ap, Bool, true, false, List, [], ◌∷◌, ◌++◌, length, ltb, if◌then◌else◌,
  arith,
}
use longship_x.Channel.{Mpsc, Bounded, Watch, TrySend, sent, full, closed}

pub record Buffer (A : Type 0) : Type 0 where
  pub values : List A
  pub room : ℕ
  pub gone : Bool

module _ {A : Type 0} where
  abbrev pub push : A → Buffer A → TrySend × Buffer A
  push a q =
      if q.gone
      then (closed, q)
      else if ltb (length q.values) q.room
      then (sent, record q { values = q.values ++ a ∷ [] })
      else (full, q)

  abbrev pub rest : List A → List A
  rest [] = []
  rest (a ∷ more) = more

  abbrev pub pull : Buffer A → Buffer A
  pull q = record q { values = rest q.values }

  recv_empty : (q : Buffer A) → q.values ≡ [] → pull q ≡ q
  recv_empty q h = ground arith

  push_room :
      (a : A) (q : Buffer A)
      → q.gone ≡ false
      → length q.values < q.room
      → ((push a q).0 ≡ sent)
        × ((push a q).1.values ≡ q.values ++ a ∷ [])
        × ((push a q).1.room ≡ q.room)
        × ((push a q).1.gone ≡ false)
  push_room a q h lt = ground arith

  push-full :
      (a : A) (q : Buffer A) → q.gone ≡ false → q.room ≤ length q.values → push a q ≡ (full, q)
  push-full a q h le = ground arith

  push_closed : (a : A) (q : Buffer A) → q.gone ≡ true → push a q ≡ (closed, q)
  push_closed a q h = ground arith

abbrev pub memory : (A : Type 0) → Mpsc A
memory A = record {
  Queue = Buffer A;
  try_send = push;
  recv = pull;
  drop_receiver = λ q. record q { values = []; gone = true };
  is_closed = λ q. q.gone;
  queued = λ q. q.values;
  capacity = λ q. q.room;
}

pub memory-Bounded : (A : Type 0) → Bounded (memory A)
memory-Bounded A = record {
  send_room = push_room;
  send_full = push-full;
  send_closed = push_closed;
  recv_empty = recv_empty;
  recv_first = λ q a more e. (ap rest e, refl, refl);
  drop_closes = λ q. (refl, refl, refl);
}

abbrev pub flag : Watch
flag = record {
  Flag = Bool;
  send_replace = λ b f. b;
  borrow = λ f. f;
  borrow-send_replace = λ b f. refl;
}
