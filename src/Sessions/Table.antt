-- ===== src/Sessions/Table.antt =====
-- The statements that sessions.py repeats: a row by its primary key, an update by primary key, and
-- the unincorporated inputs of a session in order of arrival.
pub mod Rows
use entourage.Prelude.{
  ℕ, String, Option, List, Bool, ◌&&◌, not, map, ◌==◌, select, update, find, any, is_some,
}
use entourage.Mail.{Event}
use entourage.Sessions.Types.{Session, Input, Definition, Store}

abbrev pub with_id : String → Session → Bool
with_id id s = s.id == id

-- `SELECT * FROM wake_sessions WHERE id = ?` with `fetchone`.
unfoldable pub session : Store → String → Option Session
session db id = find (with_id id) db.sessions

-- `UPDATE wake_sessions SET ... WHERE id = ?`.
unfoldable pub set_session : Store → String → (Session → Session) → Store
set_session db id f = record db { sessions = update (with_id id) f db.sessions }

abbrev pub keyed : String → String → Input → Bool
keyed session_id event_id i = i.session_id == session_id && i.event_id == event_id

-- `SELECT 1 FROM wake_inputs WHERE session_id = ? AND event_id = ?`.
unfoldable pub has_input : Store → String → String → Bool
has_input db session_id event_id = any (keyed session_id event_id) db.inputs

abbrev pub is_pending : String → Input → Bool
is_pending session_id i = i.session_id == session_id && not i.incorporated

-- `SELECT event FROM wake_inputs WHERE session_id = ? AND incorporated = 0 ORDER BY seq`.
unfoldable pub pending : Store → String → List Event
pending db session_id = map (λ (i : Input). i.event) (select (is_pending session_id) db.inputs)

-- `SELECT ... FROM wake_definitions WHERE executable = ?`.
unfoldable pub definition : Store → String → Option Definition
definition db executable = find (λ (d : Definition). d.executable == executable) db.definitions

unfoldable pub is_bound : Store → String → Bool
unfolding definition
is_bound db executable = is_some (definition db executable)
