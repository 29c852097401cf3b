-- ===== src/Sessions/Table/Rows.antt =====
-- Reading a session after a write: updates by primary key and appended rows.
use mathlib.Core.Option
use entourage.Prelude.{
  String, none, some, List, [], ◌∷◌, ◌++◌, ◌≡◌, refl, sym, ap, ◌==◌, eq_iff, eq_refl, arith, inl,
  inr, ◌⊎◌, Option-cases, Bool-cases, if◌then◌else◌, find, update, All, find-append_none, find-test,
  All-map,
}
use entourage.Sessions.Types.{Session, Store}
use entourage.Sessions.Table.{with_id, session, set_session}

-- Each primary key is in use once.
abbrev pub DistinctIds : List Session → Type 0
DistinctIds [] = Unit
DistinctIds (s ∷ rest) = (find (with_id s.id) rest ≡ none) × DistinctIds rest

module _ (f : Session → Session) (same : (s : Session) → (f s).id ≡ s.id) where
  find-update :
      (rows : List Session) (id j : String)
      → find (with_id j) (update (with_id id) f rows)
        ≡ (if id == j then Option.map f (find (with_id j) rows) else find (with_id j) rows)
  unfolding find update
  find-update [] id j = ground arith
  find-update (s ∷ rest) id j = ground (
    arith,
    find-update rest id j,
    same s,
    eq_iff s.id id,
    eq_iff s.id j,
    eq_iff id j,
    eq_iff (f s).id j,
  )

  pub session-set_session :
      (db : Store) (id j : String)
      → session (set_session db id f) j
        ≡ (if id == j then Option.map f (session db j) else session db j)
  unfolding session set_session
  session-set_session db id j = find-update db.sessions id j

  pub session-set_session_self :
      (db : Store) {s : Session} (id : String)
      → session db id ≡ some s
      → session (set_session db id f) id ≡ some (f s)
  session-set_session_self db id h = rw (session-set_session db id id, eq_refl id, h)

  -- What a session is after an update: the row of the key updated, or a row as it was.
  pub session-set_session_inv :
      (db : Store) (id j : String) (t : Session)
      → session (set_session db id f) j ≡ some t
      → ((s : Session) × (id ≡ j) × (session db id ≡ some s) × (f s ≡ t)) ⊎ (session db j ≡ some t)
  session-set_session_inv db id j t h = elim (Bool-cases (id == j)) [
    | inr other ↦ inr (ground (arith, session-set_session db id j))
    | inl e ↦
        let same_key : id ≡ j = (eq_iff id j).0 e in
        elim (Option-cases (session db j)) [
          | inl missing ↦ absurd (ground (arith, session-set_session db id j))
          | inr (s, found) ↦
              inl (s, same_key, rw same_key found, ground (arith, session-set_session db id j))
        ]
  ]

  update-none :
      (rows : List Session) (id j : String)
      → find (with_id j) rows ≡ none
      → find (with_id j) (update (with_id id) f rows) ≡ none
  update-none rows id j h = ground (arith, find-update rows id j)

  update-DistinctIds :
      (rows : List Session) (id : String)
      → DistinctIds rows
      → DistinctIds (update (with_id id) f rows)
  unfolding update
  update-DistinctIds [] id h = tt
  update-DistinctIds (s ∷ rest) id h = elim (Bool-cases (with_id id s)) [
    | inl e ↦ rw (e, same s) (update-none rest id s.id h.0, update-DistinctIds rest id h.1)
    | inr e ↦ rw e (update-none rest id s.id h.0, update-DistinctIds rest id h.1)
  ]

  pub set_session-DistinctIds :
      (db : Store) (id : String)
      → DistinctIds db.sessions
      → DistinctIds (set_session db id f).sessions
  unfolding set_session
  set_session-DistinctIds db id h = update-DistinctIds db.sessions id h

later_Found :
    (s t : Session) (rest : List Session)
    → find (with_id s.id) rest ≡ none
    → find (with_id t.id) rest ≡ some t
    → find (with_id t.id) (s ∷ rest) ≡ some t
unfolding find
later_Found s t rest new h = elim (Bool-cases (s.id == t.id)) [
  | inl e ↦
      let same : s.id ≡ t.id = (eq_iff s.id t.id).0 e in
      cc (sym new, ap (λ (k : String). find (with_id k) rest) same, h)
  | inr e ↦ rw e h
]

-- In a table with distinct keys every row is the one that its key finds.
pub All-Found :
    (rows : List Session) → DistinctIds rows → All (λ s. find (with_id s.id) rows ≡ some s) rows
unfolding find
All-Found [] h = tt
All-Found (s ∷ rest) h = (
  rw (eq_refl s.id),
  All-map (λ t. find (with_id t.id) rest ≡ some t) rest (λ t. later_Found s t rest h.0)
      (All-Found rest h.1),
)

pub append-DistinctIds :
    (rows : List Session) (s : Session)
    → find (with_id s.id) rows ≡ none
    → DistinctIds rows
    → DistinctIds (rows ++ s ∷ [])
unfolding find
append-DistinctIds [] s new h = (refl, tt)
append-DistinctIds (t ∷ rest) s new h = (
  ground (arith, find-append_none (with_id t.id) rest s, eq_iff s.id t.id, eq_iff t.id s.id),
  append-DistinctIds rest s (ground arith) h.1,
)

-- A row that is found has the key that was asked for.
pub session-id : (db : Store) (id : String) (s : Session) → session db id ≡ some s → s.id ≡ id
unfolding session
session-id db id s h = (eq_iff s.id id).0 (find-test (with_id id) db.sessions s h)
