-- ===== src/Ingress.antt =====
-- Keying of inbound events to sessions, over the session database (entourage/session_ingress.py). A
-- delivery is several transactions, so it gives the database it leaves also when it raises. The
-- contract of a definition is its JSON text.
pub mod Again
mod Tests
use entourage.Prelude.{
  String, ◌+++◌, Option, none, some, List, [], ◌∷◌, Bool, true, false, ◌&&◌, ◌||◌, not, ◌==◌,
  if◌then◌else◌, is_some, mem_text, len, Dict, lookup, assign, Result, returns, raises, ◌>>=◌, ◌>>◌,
  require,
}
use entourage.Mail.{Json, Event}
use entourage.Mail.Json.{null}
use entourage.Sessions.Types.{Store, Error, Tx, value_error, key_error, session_already_exists}
use entourage.Sessions.Mailing.{bind_definition, create, append, inspect}
use entourage.Executables.Context.{is_object}
use entourage.Executables.Registry.{last_colon}

pub record Member : Type 0 where
  pub alias : String
  pub executable : String
  pub keying : String
  pub initial_state : Json
  pub session : Option String

abbrev keyings : List String
keyings = "event" ∷ "conversation" ∷ "singleton" ∷ []

abbrev has_colon : String → Bool
has_colon s = is_some (last_colon s (len s))

abbrev named_session : Option String → Bool
named_session none = true
named_session (some s) = not (s == "")

-- `Member.__post_init__`.
unfoldable pub new_member : Member → Result Error Member
new_member m = do
  require (not (m.alias == "" || has_colon m.alias)) value_error
  require (not (m.executable == "")) value_error
  require (mem_text m.keying keyings) value_error
  require (is_object m.initial_state) value_error
  require (not (is_some m.session && not (m.keying == "singleton"))) value_error
  require (named_session m.session) value_error
  returns m

-- What a sequence of transactions comes to, and the database it leaves.
pub record Outcome {ℓ} (A : Type ℓ) : Type ℓ where
  pub result : Result Error A
  pub store : Store

abbrev pub outcome {ℓ} : {A : Type ℓ} → Result Error A → Store → Outcome A
outcome result store = record { result = result; store = store }

-- A creation that need not be the first: whether it created the session.
abbrev pub creation : Store → Tx (Unit {0}) → Outcome Bool
creation db (returns (_, db')) = outcome (returns true) db'
creation db (raises session_already_exists) = outcome (returns false) db
creation db (raises e) = outcome (raises e) db

abbrev pub bound_creation : Store → String → String → Json → Tx (Unit {0}) → Outcome Bool
bound_creation db session_id definition state (raises e) = outcome (raises e) db
bound_creation db session_id definition state (returns (_, db')) =
    creation db' (create db' session_id definition state)

unfoldable pub ensure_session : Store → String → String → String → Json → Outcome Bool
ensure_session db session_id definition contract state = elim (inspect db session_id) [
  | returns _ ↦ outcome (returns false) db
  | raises key_error ↦
      bound_creation db session_id definition state (bind_definition db definition contract)
  | raises e ↦ outcome (raises e) db
]

pub record Delivery : Type 0 where
  pub session_id : String
  pub created : Bool
  pub appended : Bool

-- `SessionIngress.__init__`.
unfoldable pub new_ingress : List Member → Dict Member → Result Error (Dict Member)
new_ingress [] members = returns members
new_ingress (m ∷ ms) members = do
  require (not (is_some (lookup m.alias members))) value_error
  new_ingress ms (assign m.alias m members)

abbrev pub member : Dict Member → String → Result Error Member
member members alias = elim (lookup alias members) [ none ↦ raises key_error | some m ↦ returns m ]

abbrev pub nonempty : Option String → Result Error String
nonempty none = raises value_error
nonempty (some s) = if s == "" then raises value_error else returns s

abbrev pub or_alias : Option String → String → String
or_alias none alias = alias
or_alias (some s) alias = if s == "" then alias else s

abbrev pub conversation_session : String → Option String → Result Error String
conversation_session alias conversation = do
  key ← nonempty conversation
  returns (alias +++ (":" +++ key))

abbrev pub keyed_session : Member → String → String → Option String → Result Error String
keyed_session m alias event_id conversation =
    if m.keying == "event"
    then returns (alias +++ (":" +++ event_id))
    else if m.keying == "conversation"
    then conversation_session alias conversation
    else returns (or_alias m.session alias)

unfoldable pub route : Dict Member → String → Event → Option String → Result Error String
route members alias e conversation = do
  m ← member members alias
  event_id ← nonempty e.event_id
  keyed_session m alias event_id conversation

abbrev pub placeholder : Event
placeholder = record {
  event_id = some "-";
  kind = none;
  source = none;
  request_id = none;
  reply_to = none;
  payload = null;
}

-- `event or {"event_id": "-"}`, for an event that has a key.
abbrev pub event_or : Option Event → Event
event_or none = placeholder
event_or (some e) = e

abbrev pub ensured : String → Outcome Bool → Outcome Delivery
ensured session_id o =
    outcome
      (o.result >>= λ created.
        returns (record { session_id = session_id; created = created; appended = false }))
      o.store

-- The session that an event reaches, and its member.
abbrev pub target :
    Dict Member → String → Option String → Option Event → Result Error (Member × String)
target members alias conversation e = do
  m ← member members alias
  session_id ← route members alias (event_or e) conversation
  returns (m, session_id)

abbrev pub reach : Store → Result Error (Member × String) → Outcome Delivery
reach db (raises f) = outcome (raises f) db
reach db (returns (m, session_id)) =
    ensured session_id (creation db (create db session_id m.executable m.initial_state))

unfoldable pub ensure :
    Dict Member → Store → String → Option String → Option Event → Outcome Delivery
ensure members db alias conversation e = reach db (target members alias conversation e)

abbrev pub appended : Delivery → Store → Tx Bool → Outcome Delivery
appended d db (raises e) = outcome (raises e) db
appended d db (returns (new, db')) = outcome (returns (record d { appended = new })) db'

abbrev pub append_to : Event → Outcome Delivery → Outcome Delivery
append_to e o = elim o.result [
  | raises f ↦ o
  | returns d ↦ appended d o.store (append o.store d.session_id e)
]

unfoldable pub deliver : Dict Member → Store → String → Event → Option String → Outcome Delivery
deliver members db alias e conversation =
    append_to e (ensure members db alias conversation (some e))
