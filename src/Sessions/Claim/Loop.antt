-- ===== src/Sessions/Claim/Loop.antt =====
-- The loop of `claim` ends: each turn but the last parks a session, which is then not ready.
use entourage.Prelude.{
  ℕ, zero, suc, ◌≤◌, ◌<◌, String, Option, none, some, List, [], ◌∷◌, Bool, true, false, ◌≡◌, refl,
  arith, select, update, length, find, Bool-cases, Option-cases, inl, inr,
}
use entourage.Sessions.Types.{Session, Store}
use entourage.Sessions.Table.{session, set_session, with_id}
use entourage.Sessions.Table.Rows.{DistinctIds, set_session-DistinctIds}
use entourage.Sessions.Ready.{is_ready, has_mail}
use entourage.Sessions.Claim.{Request, eligible, candidate, next_row, exhaust, attempts_left}
use entourage.Sessions.Claim.Choice.{candidate-eligible}

module _ (p : Session → Bool) (f : Session → Session)
    (drops : (s : Session) → p (f s) ≡ false) where
  length-select-update-le :
      (id : String) (rows : List Session)
      → length (select p (update (with_id id) f rows)) ≤ length (select p rows)
  unfolding select update
  length-select-update-le id [] = omega arith
  length-select-update-le id (s ∷ rest) = ground (arith, drops s, length-select-update-le id rest)

  length-select-update-lt :
      (id : String) (rows : List Session) (s : Session)
      → find (with_id id) rows ≡ some s
      → p s ≡ true
      → length (select p (update (with_id id) f rows)) < length (select p rows)
  unfolding select update find
  length-select-update-lt id [] s h e = cc
  length-select-update-lt id (t ∷ rest) s h e =
      ground (arith, drops t, length-select-update-le id rest, length-select-update-lt id rest s)

-- What `exhaust` parks is not ready, in any store.
pub exhausted :
    (r : Request) (db : Store) (now : ℕ) (s : Session) → eligible r db now (exhaust s) ≡ false
unfolding is_ready
exhausted r db now s = ground arith

abbrev pub ready_count : Request → ℕ → Store → ℕ
ready_count r now db = length (select (eligible r db now) db.sessions)

ready_count-exhaust :
    (r : Request) (now : ℕ) (db : Store) (s : Session)
    → session db s.id ≡ some s
    → eligible r db now s ≡ true
    → ready_count r now (set_session db s.id exhaust) < ready_count r now db
unfolding session set_session is_ready has_mail
ready_count-exhaust r now db s found e =
    length-select-update-lt (eligible r db now) exhaust (exhausted r db now) s.id db.sessions s
      found e

-- With more fuel than there are ready sessions the loop comes to a result.
pub next_row-total :
    (fuel : ℕ) (r : Request) (now : ℕ) (db : Store)
    → DistinctIds db.sessions
    → ready_count r now db < fuel
    → (out : Option Session × Store) × (next_row fuel r now db ≡ some out)
unfolding next_row
next_row-total zero r now db keys h = absurd (omega arith)
next_row-total (suc fuel) r now db keys h = elim (Option-cases (candidate r db now)) [
  | inl idle ↦ ((none, db), rw (idle, next_row))
  | inr (s, chosen) ↦ elim (Bool-cases (attempts_left r s)) [
    | inl left ↦ ((some s, db), rw (chosen, left, next_row))
    | inr spent ↦
        let (found, e) = candidate-eligible r db now keys chosen in
        let fewer : ready_count r now (set_session db s.id exhaust) < ready_count r now db =
          ready_count-exhaust r now db s found e in
        let (out, done) =
          next_row-total fuel r now (set_session db s.id exhaust)
            (set_session-DistinctIds exhaust (λ t. refl) db s.id keys) (omega arith) in
        (out, rw (chosen, spent, next_row) done)
  ]
]

length-select-le : (p : Session → Bool) (rows : List Session) → length (select p rows) ≤ length rows
unfolding select
length-select-le p [] = omega arith
length-select-le p (s ∷ rest) = ground (arith, length-select-le p rest)

-- The fuel of `claim` is enough.
pub next_row-enough_fuel :
    (r : Request) (now : ℕ) (db : Store)
    → DistinctIds db.sessions
    → (out : Option Session × Store) × (next_row (suc (length db.sessions)) r now db ≡ some out)
next_row-enough_fuel r now db keys =
    next_row-total (suc (length db.sessions)) r now db keys
      (omega (arith, length-select-le (eligible r db now) db.sessions))
