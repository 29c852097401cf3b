-- ===== src/Sessions/Valid/Purged.antt =====
-- The invariant through `purge`.
use entourage.Prelude.{
  ℕ, String, Option, none, List, [], ◌∷◌, Bool, false, not, ◌≡◌, refl, subst, arith, returns, ◌==◌,
  eq_iff, Bool-cases, inl, inr, select, find, any, All, if◌then◌else◌,
}
use entourage.Sessions.Types.{Store, Session, Input, Instant}
use entourage.Sessions.Table.{session, with_id, keyed, is_pending}
use entourage.Sessions.Table.Rows.{DistinctIds}
use entourage.Sessions.Ready.{has_mail}
use entourage.Sessions.Purge.{delete_sessions, delete_one, purge, purge_ids}
use entourage.Sessions.Purge.Outcome.{purge-inv}
use entourage.Sessions.Valid.{IsValid, DistinctKeys, Owned}

find-select :
    (id j : String) (rows : List Session)
    → find (with_id j) (select (λ (s : Session). not (s.id == id)) rows)
      ≡ (if id == j then none else find (with_id j) rows)
unfolding find select
find-select id j [] = ground arith
find-select id j (s ∷ rest) =
    ground (arith, find-select id j rest, eq_iff s.id id, eq_iff s.id j, eq_iff id j)

pub session-delete_one :
    (db : Store) (id j : String)
    → session (delete_one db id) j ≡ (if id == j then none else session db j)
unfolding session delete_one
session-delete_one db id j = find-select id j db.sessions

DistinctIds-select :
    (id : String) (rows : List Session)
    → DistinctIds rows
    → DistinctIds (select (λ (s : Session). not (s.id == id)) rows)
unfolding select
DistinctIds-select id [] h = tt
DistinctIds-select id (s ∷ rest) h = elim (Bool-cases (s.id == id)) [
  | inl e ↦ rw e (DistinctIds-select id rest h.1)
  | inr e ↦ rw e (ground (arith, find-select id s.id rest), DistinctIds-select id rest h.1)
]

any-select :
    (p q : Input → Bool) (rows : List Input) → any p rows ≡ false → any p (select q rows) ≡ false
unfolding select
any-select p q [] h = refl
any-select p q (i ∷ rest) h = ground (arith, any-select p q rest)

DistinctKeys-select :
    (q : Input → Bool) (rows : List Input) → DistinctKeys rows → DistinctKeys (select q rows)
unfolding select
DistinctKeys-select q [] h = tt
DistinctKeys-select q (i ∷ rest) h = elim (Bool-cases (q i)) [
  | inl e ↦
      rw e (any-select (keyed i.session_id i.event_id) q rest h.0, DistinctKeys-select q rest h.1)
  | inr e ↦ rw e (DistinctKeys-select q rest h.1)
]

Owned-select :
    (db : Store) (id : String) (rows : List Input)
    → All (Owned db) rows
    → All (Owned (delete_one db id)) (select (λ (i : Input). not (i.session_id == id)) rows)
unfolding select
Owned-select db id [] h = tt
Owned-select db id (i ∷ rest) h = elim (Bool-cases (i.session_id == id)) [
  | inl e ↦ rw e (Owned-select db id rest h.1)
  | inr e ↦ rw e (
    ground (
      arith,
      session-delete_one db id i.session_id,
      eq_iff id i.session_id,
      eq_iff i.session_id id,
    ),
    Owned-select db id rest h.1,
  )
]

delete_one-IsValid : (db : Store) (id : String) → IsValid db → IsValid (delete_one db id)
delete_one-IsValid db id v = record {
  keys = unfold delete_one in DistinctIds-select id db.sessions v.keys;
  rows = λ j s h. v.rows j s (ground (arith, session-delete_one db id j));
  inputs = unfold delete_one in DistinctKeys-select _ db.inputs v.inputs;
  owned = let kept = Owned-select db id db.inputs v.owned in unfold delete_one in kept;
  settled = λ j s h c.
      let before = v.settled j s (ground (arith, session-delete_one db id j)) c in
      unfold delete_one has_mail in any-select (is_pending j) _ db.inputs before;
}

delete_sessions-IsValid :
    (db : Store) (ids : List String) → IsValid db → IsValid (delete_sessions db ids)
unfolding delete_sessions
delete_sessions-IsValid db [] v = v
delete_sessions-IsValid db (id ∷ rest) v =
    delete_sessions-IsValid (delete_one db id) rest (delete_one-IsValid db id v)

-- A purge keeps the invariant: no input is left without its session.
pub purge-IsValid :
    (db : Store) (before : Instant) (limit : Option ℕ) {n : ℕ} {db' : Store}
    → purge db before limit ≡ returns (n, db')
    → IsValid db
    → IsValid db'
purge-IsValid db before limit h v =
    let (t, _, _, e) = purge-inv db before limit h in
    subst IsValid e (delete_sessions-IsValid db (purge_ids db t limit) v)
