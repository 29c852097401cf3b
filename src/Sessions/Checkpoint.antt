-- ===== src/Sessions/Checkpoint.antt =====
-- What the holder of a lease may do (`_holder`, `release`, `commit` of sessions.py), and `retry`.
pub mod Outcome
use entourage.Prelude.{
  mem_text, distinct_text, ℕ, suc, zero, ◌+◌, String, Option, none, some, List, [], ◌∷◌, Bool, true,
  false, ◌&&◌, ◌||◌, not, ◌==◌, ltb, leb, map, Result, returns, raises, ◌>>=◌, ◌>>◌, require,
  update, any, is_some, absent_or, is_empty, if◌then◌else◌,
}
use entourage.Mail.{Json, Event}
use entourage.Sessions.Types.{
  Store, Session, Input, Activation, Publication, Spawn, Instant, at, Seconds, seconds, negative,
  Status, Error, value_error, key_error, stale_activation, Tx, is_failed,
}
use entourage.Sessions.Types.Status.{ready, waiting, complete}
use entourage.Sessions.Table.{session, set_session, keyed, pending, is_bound}
use entourage.Sessions.Mailing.{create, append_event}

abbrev pub text_eq : Option String → String → Bool
text_eq none t = false
text_eq (some s) t = s == t

-- `row["lease_until"] is not None and row["lease_until"] > now`.
abbrev pub lease_live : ℕ → Option ℕ → Bool
lease_live now none = false
lease_live now (some until) = ltb now until

abbrev pub holds_lease : Activation → ℕ → Session → Bool
holds_lease a now row = text_eq row.token a.token && lease_live now row.lease_until

-- `_holder`: the row, if this activation still holds its lease.
unfoldable pub holder : Store → ℕ → Activation → Result Error Session
holder db now a = elim (session db a.session_id) [
  | none ↦ raises stale_activation
  | some row ↦ if holds_lease a now row then returns row else raises stale_activation
]

-- `_parked_status`.
abbrev pub parked_status : Session → Status
parked_status row = if ltb 0 row.revision then waiting else ready

-- `None if not retry_after else self.clock() + retry_after`, after the check of `retry_after`.
abbrev pub backoff : Option Seconds → ℕ → Result Error (Option ℕ)
backoff none later = returns none
backoff (some (seconds zero)) later = returns none
backoff (some (seconds (suc n))) later = returns (some (later + suc n))
backoff (some _) later = raises value_error

abbrev pub drop_lease : Status → Option ℕ → Option String → Session → Session
drop_lease status until error s = record s {
  status = status;
  token = none;
  lease_until = until;
  worker = none;
  last_error = error;
}

-- `now` and `later` are the two readings of the clock: in `_holder`, and for the backoff.
unfoldable pub release : Store → Activation → Option String → Option Seconds → ℕ → ℕ → Tx (Unit {0})
release db a error retry_after now later = do
  until ← backoff retry_after later
  row ← holder db now a
  returns (tt, set_session db a.session_id (drop_lease (parked_status row) until error))

abbrev pub reinstate : Status → Session → Session
reinstate status s = record s { status = status; attempts = 0; last_error = none }

unfoldable pub retry : Store → String → Tx Bool
retry db session_id = elim (session db session_id) [
  | none ↦ raises key_error
  | some row ↦
      if is_failed row.status
      then returns (true, set_session db session_id (reinstate (parked_status row)))
      else returns (false, db)
]

-- The proposal's part of `commit`'s arguments.
pub record Proposal : Type 0 where
  pub state : Json
  pub incorporated : List String
  pub publish : List Publication
  pub deadline : Option Instant
  pub complete : Bool
  pub spawn : List Spawn
  pub rebind : Option String

abbrev pub subset_text : List String → List String → Bool
subset_text [] ts = true
subset_text (s ∷ ss) ts = mem_text s ts && subset_text ss ts

-- `event["event_id"]` of a delivered event, which is there: `_append` stored no other.
abbrev pub id_of : Event → String
id_of e = elim e.event_id [ none ↦ "" | some id ↦ id ]

-- The deadline, if it is finite and belongs to a session that waits.
abbrev pub park_deadline : Option Instant → Bool → Result Error (Option ℕ)
park_deadline none done = returns none
park_deadline (some (at t)) false = returns (some t)
park_deadline (some _) _ = raises value_error

abbrev pub rebind_allowed : Option String → Bool → String → Bool
rebind_allowed none done current = true
rebind_allowed (some name) done current = not (name == "") && not done && not (name == current)

-- The checks of `commit` that need no transaction; the result is the next deadline.
unfoldable pub validate : Activation → Proposal → Result Error (Option ℕ)
validate a p = do
  deadline ← park_deadline p.deadline p.complete
  require (rebind_allowed p.rebind p.complete a.executable) value_error
  require (subset_text p.incorporated (map id_of a.events)) value_error
  let children = map (λ (c : Spawn). c.session_id) p.spawn
  require (distinct_text children && not (mem_text a.session_id children)) value_error
  returns deadline

unfoldable pub create_children : Store → List Spawn → Result Error Store
create_children db [] = returns db
create_children db (child ∷ rest) = do
  require (is_bound db child.executable) value_error
  (_, db') ← create db child.session_id child.executable child.state
  create_children db' rest

-- `UPDATE wake_inputs SET incorporated = 1 WHERE session_id = ? AND event_id = ?`.
unfoldable pub incorporate_one : Store → String → String → Store
incorporate_one db session_id event_id = record db {
  inputs =
      update (keyed session_id event_id) (λ (i : Input). record i { incorporated = true })
        db.inputs;
}

unfoldable pub incorporate : Store → String → List String → Store
incorporate db session_id [] = db
incorporate db session_id (event_id ∷ rest) =
    incorporate (incorporate_one db session_id event_id) session_id rest

unfoldable pub publish_all : Store → List Publication → Result Error Store
publish_all db [] = returns db
publish_all db (p ∷ rest) = do
  (_, db') ← append_event db p.session_id p.event false
  publish_all db' rest

abbrev pub coalesce : Option String → String → String
coalesce none t = t
coalesce (some s) t = s

abbrev pub checkpoint : Proposal → Option ℕ → ℕ → Session → Session
checkpoint p deadline now s = record s {
  executable = coalesce p.rebind s.executable;
  state = p.state;
  status = if p.complete then complete else waiting;
  deadline = deadline;
  token = none;
  lease_until = none;
  revision = suc s.revision;
  completed_at = if p.complete then some now else none;
  attempts = 0;
  worker = none;
  last_error = none;
}

-- `commit`; `now` is its reading of the clock and `held_at` the later one of `_holder`.
unfoldable pub commit : Store → Activation → Proposal → ℕ → ℕ → Tx (Unit {0})
commit db a p now held_at = do
  deadline ← validate a p
  row ← holder db held_at a
  require (absent_or (is_bound db) p.rebind) value_error
  db₁ ← create_children db p.spawn
  db₂ ← publish_all (incorporate db₁ a.session_id p.incorporated) p.publish
  require (not p.complete || is_empty (pending db₂ a.session_id)) value_error
  returns (tt, set_session db₂ a.session_id (checkpoint p deadline now))
