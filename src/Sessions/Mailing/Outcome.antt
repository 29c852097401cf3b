-- ===== src/Sessions/Mailing/Outcome.antt =====
-- What a successful append or create has done.
use entourage.Prelude.{
  String, none, some, [], ◌∷◌, ◌++◌, Bool, true, false, ◌≡◌, refl, ap, ◌∙◌, ◌⊎◌, inl, inr, arith,
  ◌==◌, returns, Bool-cases, Option-cases, if◌then◌else◌, find-append_none, find-append_some,
  eq_iff,
}
use entourage.Mail.{Json, Event}
use entourage.Sessions.Types.{Store, Session, is_complete}
use entourage.Sessions.Table.{session, has_input, with_id}
use entourage.Sessions.Mailing.{append_event, append_id, add_input, create, new_session}

-- The event was known, or it is new and its session is there and not complete.
abbrev pub Appended : Store → String → Event → Bool → Store → Type 0
Appended db id event new db' =
    ((new ≡ false) × (db' ≡ db))
    ⊎ ((event_id : String) × (row : Session) × (event.event_id ≡ some event_id)
        × (session db id ≡ some row)
        × (is_complete row.status ≡ false)
        × (has_input db id event_id ≡ false)
        × (new ≡ true)
        × (db' ≡ add_input db id event_id event))

append_id-Appended :
    (db : Store) (id : String) (event : Event) (timer : Bool) (event_id : String) {new : Bool}
    {db' : Store}
    → event.event_id ≡ some event_id
    → append_id db id event timer event_id ≡ returns (new, db')
    → Appended db id event new db'
unfolding append_id
append_id-Appended db id event timer event_id named h = elim (Option-cases (session db id)) [
  | inl missing ↦ absurd (ground arith)
  | inr (row, found) ↦ elim (Bool-cases (has_input db id event_id)) [
    | inl known ↦ inl (ground arith)
    | inr unknown ↦
        inr (event_id, row, named, found, ground arith, unknown, ground arith, ground arith)
  ]
]

pub append_event-Appended :
    (db : Store) (id : String) (event : Event) (timer : Bool) {new : Bool} {db' : Store}
    → append_event db id event timer ≡ returns (new, db')
    → Appended db id event new db'
unfolding append_event
append_event-Appended db id event timer h = elim (Option-cases event.event_id) [
  | inl missing ↦ absurd (ground arith)
  | inr (event_id, named) ↦ append_id-Appended db id event timer event_id named (ground arith)
]

pub create-inv :
    (db : Store) (id executable : String) (state : Json) {u : Unit {0}} {db' : Store}
    → create db id executable state ≡ returns (u, db')
    → (session db id ≡ none)
      × (db' ≡ record db { sessions = db.sessions ++ new_session id executable state ∷ [] })
unfolding create
create-inv db id executable state h = ground arith

-- An append leaves the table of sessions as it is.
pub session-append_event :
    (db : Store) (id : String) (event : Event) (timer : Bool) {new : Bool} {db' : Store}
    → append_event db id event timer ≡ returns (new, db')
    → (j : String) → session db' j ≡ session db j
session-append_event db id event timer h j = elim (append_event-Appended db id event timer h) [
  | inl (_, e) ↦ ap (λ d. session d j) e
  | inr (_, _, _, _, _, _, _, e) ↦ ap (λ d. session d j) e ∙ unfold session add_input in refl
]

-- A created row is found by its key, and the other rows as before.
pub session-new_session :
    (db : Store) (id executable : String) (state : Json)
    → session db id ≡ none
    → (j : String)
    → session (record db { sessions = db.sessions ++ new_session id executable state ∷ [] }) j
      ≡ (if id == j then some (new_session id executable state) else session db j)
unfolding session
session-new_session db id executable state free j = elim (Option-cases (session db j)) [
  | inl none_there ↦ find-append_none (with_id j) db.sessions _ none_there ∙ ground arith
  | inr (s, there) ↦
      find-append_some (with_id j) db.sessions _ s there ∙ ground (arith, eq_iff id j)
]
