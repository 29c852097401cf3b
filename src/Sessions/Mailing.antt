-- ===== src/Sessions/Mailing.antt =====
-- The operations of `LocalSessions` that add or read rows: bind_definition, inspect,
-- list_sessions, create and append.
pub mod Listing
pub mod Outcome
use entourage.Prelude.{
  ℕ, String, Option, none, some, List, [], ◌∷◌, ◌++◌, Bool, true, false, ◌&&◌, ◌||◌, not, map, ◌==◌,
  ltb, starts_with, Result, returns, raises, ◌>>=◌, ◌>>◌, require, select, take, is_some, absent_or,
  if◌then◌else◌,
}
use entourage.Mail.{Json, Event}
use entourage.Sessions.Types.{
  Store, Session, SessionSnapshot, SessionListing, Status, Error, value_error, key_error,
  session_already_exists, Tx, is_complete, same_status,
}
use entourage.Sessions.Types.Status.{ready}
use entourage.Sessions.Table.{session, has_input, definition}
use entourage.Sessions.Ready.{holds, ready_clause, sql_not, Truth}

-- `encoded` is the contract's JSON text with sorted keys. The insert is `INSERT OR IGNORE`.
unfoldable pub bind_definition : Store → String → String → Tx (Unit {0})
bind_definition db executable encoded = elim (definition db executable) [
  | none ↦ returns (
    tt,
    record db {
      definitions = db.definitions ++ record { executable = executable; contract = encoded } ∷ [];
    },
  )
  | some row ↦ if row.contract == encoded then returns (tt, db) else raises value_error
]

abbrev snapshot : Session → SessionSnapshot
snapshot row = record {
  executable = row.executable;
  state = row.state;
  status = row.status;
  deadline = row.deadline;
  revision = row.revision;
  attempts = row.attempts;
  last_error = row.last_error;
}

unfoldable pub inspect : Store → String → Result Error SessionSnapshot
inspect db session_id = elim (session db session_id) [
  | none ↦ raises key_error
  | some row ↦ returns (snapshot row)
]

abbrev pub listing : Session → SessionListing
listing row = record {
  session_id = row.id;
  executable = row.executable;
  status = row.status;
  deadline = row.deadline;
  revision = row.revision;
  attempts = row.attempts;
  worker = row.worker;
  lease_until = row.lease_until;
}

-- The clause that `ready` adds: `""`, `AND (_READY)` or `AND NOT (_READY)`.
abbrev pub readiness : Store → ℕ → Option Bool → Session → Truth
readiness db now none row = some true
readiness db now (some true) row = ready_clause db now row
readiness db now (some false) row = sql_not (ready_clause db now row)

-- `LIMIT`, with -1 for no limit.
abbrev pub limited {ℓ} : {A : Type ℓ} → Option ℕ → List A → List A
limited none rows = rows
limited (some n) rows = take n rows

abbrev pub positive : Option ℕ → Bool
positive limit = absent_or (λ n. ltb 0 n) limit

-- The WHERE clause; `readily` is the argument `ready`.
unfoldable pub row_listed : Store → ℕ → Option String → Option Status → Option Bool → Session → Bool
row_listed db now executable status readily row =
    absent_or (λ e. row.executable == e) executable
    && absent_or (λ s. same_status row.status s) status
    && holds (readiness db now readily row)

-- A status outside the five words is not a `Status`, so its check has no counterpart.
unfoldable pub list_sessions :
    Store
    → ℕ
    → Option String
    → Option Status
    → Option Bool
    → Option ℕ
    → Result Error (List SessionListing)
list_sessions db now executable status readily limit = do
  require (positive limit) value_error
  returns (
      map listing
        (limited limit (select (row_listed db now executable status readily) db.sessions)))

abbrev pub new_session : String → String → Json → Session
new_session session_id executable state = record {
  id = session_id;
  executable = executable;
  state = state;
  status = ready;
  deadline = none;
  token = none;
  lease_until = none;
  revision = 0;
  last_claim = 0;
  completed_at = none;
  attempts = 0;
  worker = none;
  last_error = none;
}

abbrev pub is_object : Json → Bool
is_object (Json.obj fields) = true
is_object _ = false

-- `_create` and `create`. A new rowid is above all that are in use, so the row goes last.
unfoldable pub create : Store → String → String → Json → Tx (Unit {0})
create db session_id executable state = do
  require (not (session_id == "") && not (executable == "")) value_error
  require (is_object state) value_error
  require (not (is_some (session db session_id))) session_already_exists
  returns (tt, record db { sessions = db.sessions ++ new_session session_id executable state ∷ [] })

-- `INSERT INTO wake_inputs(session_id, event_id, event)`; `seq` is above all that were in use.
unfoldable pub add_input : Store → String → String → Event → Store
add_input db session_id event_id event = record db {
  inputs =
      db.inputs
      ++ record {
        session_id = session_id;
        event_id = event_id;
        event = event;
        incorporated = false;
      }
        ∷ [];
}

-- The rest of `_append` once the event ID is known to be a nonempty string.
unfoldable pub append_id : Store → String → Event → Bool → String → Tx Bool
append_id db session_id event timer event_id = do
  require (not (starts_with event_id "timer:") || timer) value_error
  elim (session db session_id) [
    | none ↦ raises key_error
    | some row ↦
        if has_input db session_id event_id
        then returns (false, db)
        else if is_complete row.status
        then raises value_error
        else returns (true, add_input db session_id event_id event)
  ]

-- `_append`: `timer` is set by the delivery of a deadline only.
unfoldable pub append_event : Store → String → Event → Bool → Tx Bool
unfolding append_id
append_event db session_id event timer = elim event.event_id [
  | none ↦ raises value_error
  | some event_id ↦
      if event_id == "" then raises value_error else append_id db session_id event timer event_id
]

-- The public `append`.
unfoldable pub append : Store → String → Event → Tx Bool
unfolding append_event
append db session_id event = append_event db session_id event false
