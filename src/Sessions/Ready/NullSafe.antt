-- ===== src/Sessions/Ready/NullSafe.antt =====
-- `_READY` of sessions.py never comes out as NULL, so `NOT (_READY)` is its complement.
use entourage.Prelude.{ℕ, none, some, true, false, not, ◌≡◌, ◌≢◌, ◌⊎◌, arith, leb}
use entourage.Sessions.Types.{Session, Store, terminal}
use entourage.Sessions.Ready.{ready_clause, is_ready, holds, sql_not}

-- The clause is TRUE or FALSE on every row, also where `lease_until` and `deadline` are NULL.
pub ready_clause-ne-none : (db : Store) (now : ℕ) (s : Session) → ready_clause db now s ≢ none
unfolding ready_clause
ready_clause-ne-none db now s h = ground arith

-- So negating the clause negates the test.
pub holds-sql_not :
    (db : Store) (now : ℕ) (s : Session)
    → holds (sql_not (ready_clause db now s)) ≡ not (is_ready db now s)
unfolding ready_clause is_ready
holds-sql_not db now s = ground arith

-- What it takes to be ready, in plain words.
pub is_ready-inv :
    (db : Store) (now : ℕ) (s : Session)
    → is_ready db now s ≡ true
    → (terminal s.status ≡ false)
      × ((s.lease_until ≡ none) ⊎ ((t : ℕ) × (s.lease_until ≡ some t) × (leb t now ≡ true)))
unfolding is_ready
is_ready-inv db now s h = ground arith
